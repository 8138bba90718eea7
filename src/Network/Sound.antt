-- ===== src/Network/Sound.antt =====
-- A node's store holds nothing but signatures of authorities.
use validated_streams.Base.{◌^◌, ◌<◌, sym, subst, List, [], ◌∷◌, length}
use validated_streams.Events.{AuthoritiesList}
use validated_streams.Events.Gossip.Received.{ReadsHashes}
use validated_streams.Events.Gossip.Sound.{IsSound, handle_all-IsSound}
use validated_streams.Gossip.{Input}
use validated_streams.Gossip.Delivery.{messages, handler-run}
use validated_streams.Interfaces.{Sr25519}
use validated_streams.Network.{Participant, handler, after}
use validated_streams.Primitives.{Bincode}
use validated_streams.Proofs.Contract.{DistinctValidators}

-- Let the authorities of the latest finalized block be distinct and fewer than 2^16, each event
-- that is read have an id of 32 bytes, and the parts of a node keep their contracts. If each proof
-- in its store of an event by an authority is a valid signature of the event by that authority,
-- then so it is once its gossip service has taken any inputs, whoever sent the messages among them.
pub after-IsSound :
    (S : Sr25519) (B : Bincode)
    → ReadsHashes B
    → {l : AuthoritiesList} → DistinctValidators l.authorities
    → length l.authorities < 2 ^ 16
    → (p : Participant l) (is : List (Input p.Multiaddr p.PeerId))
    → IsSound S l p.stored p.node.event_proofs
    → IsSound S l p.stored (after S B p is).event_proofs
after-IsSound S B hashes {l} distinct few p is sound =
    subst (λ n. IsSound S l p.stored n.event_proofs)
      (sym (
        handler-run p.swarm (handler S B p) ("WitnessedEvent" ∷ []) is
          (record { swarm = p.at_start; handler = p.node })))
      (handle_all-IsSound p.from p.client p.lru p.event_proofs p.tx_pool S B p.peek p.lru_lawful l
        p.finalized p.IsUsable p.stored p.lawful distinct few hashes (messages is) p.node
        (record { coherent = p.coherent; usable = p.usable }) sound)
