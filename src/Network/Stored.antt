-- ===== src/Network/Stored.antt =====
-- Which proofs a node holds once its gossip service has taken some inputs.
use validated_streams.Base.{
  ◌^◌, ◌<◌, ◌≡◌, sym, subst, ◌↔◌, ◌⊎◌, inl, inr, true, is_some, List, [], ◌∷◌, length,
  if◌then◌else◌, arith, Bool-cases,
}
use validated_streams.Events.{AuthoritiesList}
use validated_streams.Events.Gossip.Received.{ReadsHashes, any_proves, handled_all_lem, IsReady}
use validated_streams.Gossip.{Input}
use validated_streams.Gossip.Delivery.{messages, handler-run}
use validated_streams.Interfaces.{Sr25519}
use validated_streams.Network.{Participant, handler, after, stored_before, stored_after}
use validated_streams.Network.Messages.{HasProof, any_proves→HasProof, HasProof→any_proves}
use validated_streams.Primitives.{H256, IsH256, CryptoTypePublicPair, Bincode}
use validated_streams.Proofs.Contract.{DistinctValidators, is_validator}

module _ (S : Sr25519) (B : Bincode) (hashes : ReadsHashes B) {l : AuthoritiesList}
    (distinct : DistinctValidators l.authorities) (few : length l.authorities < 2 ^ 16)
    (p : Participant l) (is : List (Input p.Multiaddr p.PeerId)) where
  after-handled :
      IsReady p.from p.client p.lru p.event_proofs p.tx_pool S B p.peek p.lru_lawful l p.finalized
        p.IsUsable p.stored p.lawful distinct few hashes
        (after S B p is)
      × ((id : H256) (pk : CryptoTypePublicPair)
          → IsH256 id
          → is_validator l.authorities pk ≡ true
          → is_some (stored_after S B p is id pk) ≡ (
              if any_proves B S l (messages is) id pk
              then true
              else is_some (stored_before S B p id pk)))
  after-handled =
      subst
        (λ n.
          IsReady p.from p.client p.lru p.event_proofs p.tx_pool S B p.peek p.lru_lawful l
            p.finalized p.IsUsable p.stored p.lawful distinct few hashes n
          × ((id : H256) (pk : CryptoTypePublicPair)
              → IsH256 id
              → is_validator l.authorities pk ≡ true
              → is_some (p.stored n.event_proofs id pk) ≡ (
                  if any_proves B S l (messages is) id pk
                  then true
                  else is_some (stored_before S B p id pk))))
        (sym (
          handler-run p.swarm (handler S B p) ("WitnessedEvent" ∷ []) is
            (record { swarm = p.at_start; handler = p.node })))
        (handled_all_lem p.from p.client p.lru p.event_proofs p.tx_pool S B p.peek p.lru_lawful l
          p.finalized p.IsUsable p.stored p.lawful distinct few hashes (messages is) p.node
          (record { coherent = p.coherent; usable = p.usable }))

  -- The store stays usable.
  pub after-IsUsable : p.IsUsable (after S B p is).event_proofs
  after-IsUsable = after-handled.0.usable

  module _ (id : H256) (pk : CryptoTypePublicPair) (hash : IsH256 id)
      (authority : is_validator l.authorities pk ≡ true) where
    pub is_some-stored_after : is_some (stored_after S B p is id pk) ≡ (
        if any_proves B S l (messages is) id pk then true else is_some (stored_before S B p id pk))
    is_some-stored_after = after-handled.1 id pk hash authority

    -- Let the authorities of the latest finalized block be distinct and fewer than 2^16, each event
    -- that is read have an id of 32 bytes, and the parts of a node keep their contracts. Once its
    -- gossip service has taken any inputs, the node has a proof of an event by an authority exactly
    -- if it had one before, or one of the messages sent or received reads back as that event,
    -- signed by that authority.
    pub service_stores :
        (is_some (stored_after S B p is id pk) ≡ true)
        ↔ ((is_some (stored_before S B p id pk) ≡ true) ⊎ HasProof S B l id pk (messages is))
    service_stores = elim (Bool-cases (any_proves B S l (messages is) id pk)) [
      | inl proved ↦ (
        λ _. inr (any_proves→HasProof S B l id pk (messages is) proved),
        λ _. ground (arith, is_some-stored_after, proved),
      )
      | inr unproved ↦ (
        λ h. inl (ground (arith, is_some-stored_after, unproved, h)),
        λ h. elim h [
          | inl old ↦ ground (arith, is_some-stored_after, unproved, old)
          | inr new ↦ absurd (cc (unproved, HasProof→any_proves S B l id pk (messages is) new))
        ],
      )
    ]
