-- ===== src/Network/Delivered.antt =====
-- An event that one node witnesses, as the other nodes see it.
use mathlib.Core.List.{append_cancel_left}
use validated_streams.Base.{
  ◌^◌, ◌<◌, ◌≡◌, refl, sym, ap, ◌∙◌, inl, inr, true, Option, is_some, ok, List, [], ◌∷◌, ◌++◌,
  length, arith,
}
use validated_streams.Events.{AuthoritiesList}
use validated_streams.Events.Cache.{IsCoherent, runtime_authorities}
use validated_streams.Events.Gossip.Received.{ReadsHashes}
use validated_streams.Events.Witness.{Witnesser, witness_event, witnessed_events_topic}
use validated_streams.Events.Witness.Published.{IsKeystore, IsEventCodec, published_or_unsent}
use validated_streams.Gossip.{Channel, Input, publish, send_message}
use validated_streams.Gossip.Delivery.{messages}
use validated_streams.Interfaces.{Sr25519, Client, LruCache, IsLruCache, Keystore}
use validated_streams.Network.{Participant, stored_after}
use validated_streams.Network.Messages.{is_among, IsProof}
use validated_streams.Network.Stored.{service_stores}
use validated_streams.Primitives.{Bytes, H256, IsH256, CryptoTypePublicPair, Bincode}
use validated_streams.Proofs.Contract.{DistinctValidators, is_validator}

sent_message :
    {Multiaddr : Type 0} (c : Channel Multiaddr) (m n : Bytes)
    → c.connected ≡ true
    → (publish witnessed_events_topic m c).orders
      ≡ c.orders ++ send_message witnessed_events_topic n ∷ []
    → m ≡ n
unfolding publish
sent_message c m n connected same =
    let orders =
      append_cancel_left c.orders (send_message witnessed_events_topic m ∷ [])
        (send_message witnessed_events_topic n ∷ []) (ground (arith, connected, same)) in
    cc orders

module _ (S : Sr25519) (B : Bincode) (hashes : ReadsHashes B) (codec : IsEventCodec B)
    {l : AuthoritiesList} (distinct : DistinctValidators l.authorities)
    (few : length l.authorities < 2 ^ 16) {AuthorityId Extrinsic Cache Multiaddr : Type 0}
    (from : AuthorityId → CryptoTypePublicPair) (client : Client AuthorityId Extrinsic)
    (L : LruCache AuthoritiesList Cache) (K : Keystore)
    (peek : Cache → H256 → Option AuthoritiesList) (lru : IsLruCache L peek)
    (w : Witnesser Cache Multiaddr) (coherent : IsCoherent from client L peek w.block_state)
    (finalized : runtime_authorities from client L peek client.finalized_hash ≡ ok l)
    (keys : IsKeystore K S) (connected : w.gossip.connected ≡ true) (id : H256)
    (hash : IsH256 id) where
  -- Let a node with a coherent cache, a lawful keystore and a running gossip service witness an
  -- event, of an id of 32 bytes, and let the call succeed. Then it has sent one message more; and
  -- any node with the same authorities, distinct and fewer than 2^16, whose parts keep their
  -- contracts, holds a proof of the event by an authority once its gossip service has taken that
  -- message, whatever else it takes before and after.
  pub witnessed_event_arrives :
      (p : Participant l) (is : List (Input p.Multiaddr p.PeerId)) (m : Bytes)
      → (witness_event from client L K B id w).0 ≡ ok tt
      → (witness_event from client L K B id w).1.gossip.orders
        ≡ w.gossip.orders ++ send_message witnessed_events_topic m ∷ []
      → is_among (messages is) m ≡ true
      → (pk : CryptoTypePublicPair) × (is_validator l.authorities pk ≡ true)
        × (is_some (stored_after S B p is id pk) ≡ true)
  witnessed_event_arrives p is m done sent among =
      elim (published_or_unsent from client L K B S peek lru w coherent l finalized id keys codec) [
        | inr unsent ↦ absurd (cc (unsent.fails, done))
        | inl out ↦
            let same =
              sent_message w.gossip out.message m connected
                (sym (ap (λ c. c.orders) out.published) ∙ sent) in
            let proof : IsProof S B l id out.event.pub_key m = record {
              event = out.event;
              reads_back = rw (← same) out.reads_back;
              is_signed = out.is_signed;
              of_event = out.of_event;
              by_key = refl;
            } in
            (
              out.event.pub_key,
              out.is_signed.known,
              (service_stores S B hashes distinct few p is id out.event.pub_key hash
                    out.is_signed.known).1
                  (inr (m, among, proof)),
            )
      ]
