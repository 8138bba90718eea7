-- ===== src/Pallet.antt =====
-- pallet/src/lib.rs: the pallet that records validated events, with its two builds in children.
-- What the pallet hands to `deposit_event` is kept as a list, the latest first.
pub mod Log
pub mod OffChain
pub mod OnChain
pub mod Unsigned
use validated_streams.Base.{List, [], ◌∷◌, Bool}
use validated_streams.Base.HashMap.{HashMap, get, contains_key, insert, keys}
use validated_streams.Interfaces.{Public, Signature}
use validated_streams.Primitives.{Bytes-discrete, H256}

pub data Error : Type 0 where
  already_validated bad_signature invalid_proof no_proofs not_enough_proofs : Error
  unrecognized_authority : Error

-- `BoundedBTreeMap<Public, Signature, VSMaxAuthorities>`
abbrev pub ProofsMap : Type 0
ProofsMap = HashMap Public Signature

-- `enum Event`
pub data Event : Type 0 where
  validated_event : H256 → Event

-- The storage map of either build, `Streams` or `OnStreams`, and the deposited events.
pub record Storage (V : Type 0) : Type 0 where
  pub streams : HashMap H256 V
  pub events : List Event

module _ {V : Type 0} where
  -- `insert(event_id, value)` and `deposit_event(ValidatedEvent { event_id })`
  unfoldable pub record_event : H256 → V → Storage V → Storage V
  record_event event_id v s = record {
    streams = insert Bytes-discrete s.streams event_id v;
    events = validated_event event_id ∷ s.events;
  }

  unfoldable pub is_event_valid : H256 → Storage V → Bool
  is_event_valid event_id s = contains_key Bytes-discrete s.streams event_id

  -- `iter().map(|(k, _)| k).collect()`
  unfoldable pub get_all_events : Storage V → List H256
  get_all_events s = keys s.streams
