-- ===== src/Network/Converged.antt =====
-- Nodes that have seen the same messages hold the same proofs.
use validated_streams.Base.{
  ◌^◌, ◌<◌, ◌≡◌, sym, ap, ◌∙◌, true, is_some, List, length, count-cong, arith,
}
use validated_streams.Events.{AuthoritiesList}
use validated_streams.Events.Gossip.Received.{ReadsHashes}
use validated_streams.Events.Validity.{witnesses}
use validated_streams.Gossip.{Input}
use validated_streams.Gossip.Delivery.{messages}
use validated_streams.Interfaces.{Sr25519}
use validated_streams.Network.{Participant, after, stored_before, stored_after}
use validated_streams.Network.Messages.{message_set, set_proves, set_proves_lem}
use validated_streams.Network.Stored.{is_some-stored_after}
use validated_streams.Primitives.{
  H256, IsH256, CryptoTypePublicPair, CryptoTypePublicPair-discrete, Bincode,
}
use validated_streams.Proofs.Contract.{DistinctValidators, is_validator}

module _ (S : Sr25519) (B : Bincode) (hashes : ReadsHashes B) {l : AuthoritiesList}
    (distinct : DistinctValidators l.authorities) (few : length l.authorities < 2 ^ 16)
    (a b : Participant l) (is : List (Input a.Multiaddr a.PeerId))
    (js : List (Input b.Multiaddr b.PeerId))
    (same_messages : message_set (messages is) ≡ message_set (messages js))
    (same_before : (id : H256) (pk : CryptoTypePublicPair)
      → IsH256 id
      → is_validator l.authorities pk ≡ true
      → is_some (stored_before S B a id pk) ≡ is_some (stored_before S B b id pk))
    (id : H256) (hash : IsH256 id) where
  agree :
      (pk : CryptoTypePublicPair)
      → is_validator l.authorities pk ≡ true
      → is_some (stored_after S B a is id pk) ≡ is_some (stored_after S B b js id pk)
  agree pk v =
      let same =
        sym (set_proves_lem S B l id pk (messages is))
        ∙ ap (set_proves S B l id pk) same_messages
        ∙ set_proves_lem S B l id pk (messages js) in
      ground (
        arith,
        is_some-stored_after S B hashes distinct few a is id pk hash v,
        is_some-stored_after S B hashes distinct few b js id pk hash v,
        same_before id pk hash v,
        same,
      )

  -- They count equally many proofs of an event.
  pub witnesses-agree :
      witnesses a.stored (after S B a is).event_proofs l.authorities id
      ≡ witnesses b.stored (after S B b js).event_proofs l.authorities id
  witnesses-agree = count-cong CryptoTypePublicPair-discrete _ _ l.authorities agree

  -- Let two nodes have the same authorities at their latest finalized block, distinct and fewer
  -- than 2^16, with any clients, pools, swarms and stores that keep their contracts, keep proofs off
  -- the chain, and let each event that is read have an id of 32 bytes. If they held proofs of the same authorities for the
  -- same events, and their gossip services have taken the same set of messages, in whatever order
  -- and however often each, then they hold proofs of an event by the same authorities, and count
  -- equally many.
  pub nodes_converge :
      (pk : CryptoTypePublicPair)
      → is_validator l.authorities pk ≡ true
      → (is_some (stored_after S B a is id pk) ≡ is_some (stored_after S B b js id pk))
        × (witnesses a.stored (after S B a is).event_proofs l.authorities id
            ≡ witnesses b.stored (after S B b js).event_proofs l.authorities id)
  nodes_converge pk v = (agree pk v, witnesses-agree)
