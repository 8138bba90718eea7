-- ===== src/Tests/Participants.antt =====
-- Two nodes of the small network, one with its proofs in memory and one in RocksDB, and what they
-- take.
use validated_streams.Base.{
  ℕ, ◌++◌, refl, List, [], ◌∷◌, Result, ok, err, String, length, ◌==◌, if◌then◌else◌, arith,
}
use validated_streams.Events.Gossip.Received.{ReadsHashes}
use validated_streams.Events.Witness.Published.{IsEventCodec}
use validated_streams.Gossip.{SwarmOps, Input, order, event, send_message, message, dial_peers}
use validated_streams.Gossip.Delivery.{messages}
use validated_streams.Network.{Participant}
use validated_streams.Network.Messages.{SameMessages}
use validated_streams.Primitives.{Bytes, WitnessedEvent, Bincode}
use validated_streams.Proofs.InMemory.{InMemoryEventProofs, new, in_memory}
use validated_streams.Proofs.InMemory.Lawful.{in_memory-IsEventProofs}
use validated_streams.Proofs.InMemory.Stored.{stored, IsUsable, new-IsUsable}
use validated_streams.Proofs.RocksDb.{rocks_db}
use validated_streams.Proofs.RocksDb.Calls.{IsUsable as IsRocksDbUsable, stored as rocks_db_stored}
use validated_streams.Proofs.RocksDb.Lawful.{rocks_db-IsEventProofs}
use validated_streams.Runtime.{Extrinsic}
use validated_streams.Tests.{
  event_a, from, authorities, client, Cache, peek, lru, lru-IsLruCache, empty_cache,
  empty_cache-IsCoherent, pool,
}
use validated_streams.Tests.Codec.{codec, codec-IsEventCodec, codec-IsKeyCodec}
use validated_streams.Tests.Stores.{Table, view, IsTable, table, table-IsRocksDb}

-- A codec that takes only events with an id of 32 bytes.
abbrev pub of_hash : WitnessedEvent → Result String WitnessedEvent
of_hash e = if length e.event_id == 32 then ok e else err "no hash"

abbrev pub hashing : Bincode
hashing = record codec {
  serialize_event = λ e. if length e.event_id == 32 then codec.serialize_event e else err "no hash";
  deserialize_event =
      λ m. elim (codec.deserialize_event m) [ err reason ↦ err reason | ok e ↦ of_hash e ];
}

pub hashing-ReadsHashes : ReadsHashes hashing
hashing-ReadsHashes m e h = ground (arith, h)

pub hashing-IsEventCodec : IsEventCodec hashing
hashing-IsEventCodec e m h = ground (arith, h, codec-IsEventCodec e m)

-- A swarm that takes everything.
abbrev pub swarm : SwarmOps ℕ ℕ (Unit {0})
swarm = record {
  subscribe = λ topic w. w;
  gossipsub_publish = λ topic m w. (ok tt, w);
  dial = λ a w. (ok tt, w);
  listen_on = λ a w. (ok tt, w);
  add_address = λ p a w. w;
}

abbrev pub in_memory_node : Participant authorities
in_memory_node = record {
  AuthorityId = ℕ;
  Extrinsic = Extrinsic;
  Cache = Cache;
  State = InMemoryEventProofs;
  Pool = List Extrinsic;
  Multiaddr = ℕ;
  PeerId = ℕ;
  Swarm = Unit {0};
  from = from;
  client = client;
  lru = lru;
  event_proofs = in_memory;
  tx_pool = pool;
  swarm = swarm;
  peek = peek;
  lru_lawful = lru-IsLruCache;
  finalized = refl;
  IsUsable = IsUsable;
  stored = stored;
  lawful = in_memory-IsEventProofs;
  node = record { block_state = empty_cache; event_proofs = new; tx_pool = [] };
  at_start = tt;
  coherent = empty_cache-IsCoherent;
  usable = new-IsUsable;
}

pub empty_table-IsUsable :
    IsRocksDbUsable table hashing IsTable view table-IsRocksDb codec-IsKeyCodec []
empty_table-IsUsable = record { faultless = tt; proofs_only = λ k v h. cc }

abbrev pub rocks_db_node : Participant authorities
rocks_db_node = record {
  AuthorityId = ℕ;
  Extrinsic = Extrinsic;
  Cache = Cache;
  State = Table;
  Pool = List Extrinsic;
  Multiaddr = ℕ;
  PeerId = ℕ;
  Swarm = Unit {0};
  from = from;
  client = client;
  lru = lru;
  event_proofs = rocks_db table hashing;
  tx_pool = pool;
  swarm = swarm;
  peek = peek;
  lru_lawful = lru-IsLruCache;
  finalized = refl;
  IsUsable = IsRocksDbUsable table hashing IsTable view table-IsRocksDb codec-IsKeyCodec;
  stored = rocks_db_stored table hashing IsTable view table-IsRocksDb codec-IsKeyCodec;
  lawful = rocks_db-IsEventProofs table hashing IsTable view table-IsRocksDb codec-IsKeyCodec;
  node = record { block_state = empty_cache; event_proofs = []; tx_pool = [] };
  at_start = tt;
  coherent = empty_cache-IsCoherent;
  usable = empty_table-IsUsable;
}

-- What the first and the second authority publish.
abbrev pub message_of : ℕ → Bytes
message_of n = 33 ∷ n ∷ event_a ++ (2 ∷ b's' ∷ b'r' ∷ 1 ∷ n ∷ event_a)

-- One node publishes its own message and receives the other's, which the second one receives
-- first, and twice.
abbrev pub of_first : List (Input ℕ ℕ)
of_first =
    order (dial_peers (4 ∷ []))
    ∷ order (send_message "WitnessedEvent" (message_of 1))
    ∷ event (message (message_of 2))
    ∷ []

abbrev pub of_second : List (Input ℕ ℕ)
of_second =
    event (message (message_of 2))
    ∷ event (message (message_of 1))
    ∷ event (message (message_of 2))
    ∷ []

pub same_messages : SameMessages (messages of_first) (messages of_second)
same_messages m = ground arith
