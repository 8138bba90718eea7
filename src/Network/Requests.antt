-- ===== src/Network/Requests.antt =====
-- What a trusted client's request does to the other nodes: consensus/src/server.rs over
-- `EventWitnesser` of consensus/src/events/witness.rs.
use validated_streams.Base.{
  ◌^◌, ◌<◌, ◌≡◌, sym, ap, ◌∙◌, true, Option, is_some, ok, List, [], ◌∷◌, ◌++◌, length,
}
use validated_streams.Events.{AuthoritiesList}
use validated_streams.Events.Cache.{IsCoherent, runtime_authorities}
use validated_streams.Events.Gossip.Received.{ReadsHashes}
use validated_streams.Events.Witness as Witness
use validated_streams.Events.Witness.{Witnesser, witnessed_events_topic}
use validated_streams.Events.Witness.Published.{IsKeystore, IsEventCodec}
use validated_streams.Gossip.{Input, send_message}
use validated_streams.Gossip.Delivery.{messages}
use validated_streams.Interfaces.{Sr25519, Client, LruCache, IsLruCache, Keystore}
use validated_streams.Network.{Participant, stored_after}
use validated_streams.Network.Delivered.{witnessed_event_arrives}
use validated_streams.Network.Messages.{is_among}
use validated_streams.Primitives.{Bytes, H256, CryptoTypePublicPair, Bincode}
use validated_streams.Proofs.Contract.{DistinctValidators, is_validator}
use validated_streams.Server.{EventWitnesser, witness_event}
use validated_streams.Server.Witnessed.{witness_event-ok}

module _ {AuthorityId Extrinsic Cache Multiaddr : Type 0}
    (from : AuthorityId → CryptoTypePublicPair) (client : Client AuthorityId Extrinsic)
    (L : LruCache AuthoritiesList Cache) (K : Keystore) (B : Bincode) where
  -- `impl EventWitnesserTrait for EventWitnesser`
  abbrev pub event_witnesser : EventWitnesser (Witnesser Cache Multiaddr)
  event_witnesser = record { witness_event = Witness.witness_event from client L K B }

  module _ (S : Sr25519) (hashes : ReadsHashes B) (codec : IsEventCodec B) {l : AuthoritiesList}
      (distinct : DistinctValidators l.authorities) (few : length l.authorities < 2 ^ 16)
      (peek : Cache → H256 → Option AuthoritiesList) (lru : IsLruCache L peek)
      (w : Witnesser Cache Multiaddr) (coherent : IsCoherent from client L peek w.block_state)
      (finalized : runtime_authorities from client L peek client.finalized_hash ≡ ok l)
      (keys : IsKeystore K S) (connected : w.gossip.connected ≡ true) where
    -- Let a trusted client send any bytes as the id of an event to a node with a coherent cache, a
    -- lawful keystore and a running gossip service, and let the call succeed, the node then having
    -- sent one message more. Then any node with the same authorities, distinct and fewer than 2^16,
    -- whose parts keep their contracts, holds a proof of the event by an authority once its gossip
    -- service has taken that message, whatever else it takes before and after.
    pub request_arrives :
        (event_id : Bytes) (p : Participant l) (is : List (Input p.Multiaddr p.PeerId)) (m : Bytes)
        → (witness_event event_witnesser event_id w).0 ≡ ok tt
        → (witness_event event_witnesser event_id w).1.gossip.orders
          ≡ w.gossip.orders ++ send_message witnessed_events_topic m ∷ []
        → is_among (messages is) m ≡ true
        → (pk : CryptoTypePublicPair) × (is_validator l.authorities pk ≡ true)
          × (is_some (stored_after S B p is event_id pk) ≡ true)
    request_arrives event_id p is m done sent among =
        let (hash, taken, same) = witness_event-ok event_witnesser event_id w done in
        witnessed_event_arrives S B hashes codec distinct few from client L K peek lru w coherent
          finalized keys connected event_id hash p is m taken
          (sym (ap (λ v. v.gossip.orders) same) ∙ sent) among
