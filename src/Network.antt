-- ===== src/Network.antt =====
-- Several nodes that gossip with each other: consensus/src/events/gossip.rs as the handler of the
-- service of consensus/src/gossip/mod.rs, in the build that keeps proofs off the chain. The nodes
-- may have different clients, pools and stores.
pub mod Messages
pub mod Stored
pub mod Converged
pub mod Delivered
pub mod Imports
pub mod Requests
pub mod Sound
use validated_streams.Base.{◌≡◌, List, [], ◌∷◌, Option, ok, true}
use validated_streams.Events.{AuthoritiesList}
use validated_streams.Events.Cache.{IsCoherent, runtime_authorities}
use validated_streams.Events.Gossip.{Node, handle}
use validated_streams.Gossip.{SwarmOps, Input, run}
use validated_streams.Interfaces.{Sr25519, Client, LruCache, IsLruCache, TxPool}
use validated_streams.Primitives.{Bytes, H256, CryptoTypePublicPair, Bincode}
use validated_streams.Proofs.{EventProofs}
use validated_streams.Proofs.Contract.{IsEventProofs}

-- A node, what it is made of, and that these keep their contracts. Its latest finalized block has
-- the authorities `l`.
pub record Participant (l : AuthoritiesList) : Type 1 where
  pub AuthorityId : Type 0
  pub Extrinsic : Type 0
  pub Cache : Type 0
  pub State : Type 0
  pub Pool : Type 0
  pub Multiaddr : Type 0
  pub PeerId : Type 0
  pub Swarm : Type 0
  pub from : AuthorityId → CryptoTypePublicPair
  pub client : Client AuthorityId Extrinsic
  pub lru : LruCache AuthoritiesList Cache
  pub event_proofs : EventProofs State
  pub tx_pool : TxPool Extrinsic Pool
  pub swarm : SwarmOps Multiaddr PeerId Swarm
  pub peek : Cache → H256 → Option AuthoritiesList
  pub lru_lawful : IsLruCache lru peek
  pub finalized : runtime_authorities from client lru peek client.finalized_hash ≡ ok l
  pub IsUsable : State → Type 0
  pub stored : State → H256 → CryptoTypePublicPair → Option Bytes
  pub lawful : IsEventProofs event_proofs IsUsable stored
  -- the node and its swarm when its gossip service starts
  pub node : Node Cache State Pool
  pub at_start : Swarm
  pub coherent : IsCoherent from client lru peek node.block_state
  pub usable : IsUsable node.event_proofs

module _ (S : Sr25519) (B : Bincode) {l : AuthoritiesList} (p : Participant l) where
  -- The handler as the service calls it. It does not panic in this build.
  abbrev pub handler : Bytes → Node p.Cache p.State p.Pool → Node p.Cache p.State p.Pool
  handler m n = (handle p.from p.client p.lru p.event_proofs p.tx_pool S B true m n).1

  -- The node once its service has taken the inputs.
  abbrev pub after : List (Input p.Multiaddr p.PeerId) → Node p.Cache p.State p.Pool
  after is =
      (run p.swarm handler ("WitnessedEvent" ∷ []) is
        (record { swarm = p.at_start; handler = p.node })).handler

  -- Its proof of an event by an authority, before and after.
  abbrev pub stored_before : H256 → CryptoTypePublicPair → Option Bytes
  stored_before = p.stored p.node.event_proofs

  abbrev pub stored_after :
      List (Input p.Multiaddr p.PeerId) → H256 → CryptoTypePublicPair → Option Bytes
  stored_after is = p.stored (after is).event_proofs
