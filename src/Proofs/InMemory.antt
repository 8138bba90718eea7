-- ===== src/Proofs/InMemory.antt =====
-- consensus/src/proofs/in_memory.rs: event proofs in a hash map behind a mutex.
pub mod Stored
pub mod Count
pub mod Lawful
use validated_streams.Base.{
  ℕ, List, [], Bool, true, false, Option, none, some, Result, ok, err, if◌then◌else◌,
}
use validated_streams.Base.Action.{Action}
use validated_streams.Base.HashMap.{HashMap, get, insert, retain_keys}
use validated_streams.Errors.{Error, lock_fail}
use validated_streams.Primitives.{
  Bytes, Bytes-discrete, H256, CryptoTypePublicPair, CryptoTypePublicPair-discrete, WitnessedEvent,
}
use validated_streams.Proofs.{EventProofs, default_get_event_proof_count}
use validated_streams.Proofs.Contract.{is_validator}

-- The mutex is poisoned once a thread has panicked while it held the lock.
pub record InMemoryEventProofs : Type 0 where
  pub poisoned : Bool
  pub proofs : HashMap H256 (HashMap CryptoTypePublicPair Bytes)

unfoldable pub new : InMemoryEventProofs
new = record { poisoned = false; proofs = [] }

-- `entry(event_id).or_default()`, `get(event_id) … unwrap_or_default()`: the map that is read
abbrev pub witnesses_of :
    HashMap H256 (HashMap CryptoTypePublicPair Bytes) → H256 → HashMap CryptoTypePublicPair Bytes
witnesses_of proofs event_id = elim (get Bytes-discrete proofs event_id) [
  | none ↦ []
  | some event_witnesses ↦ event_witnesses
]

-- The `match` on `event_witnesses.entry(pub_key)`: only a vacant entry is written.
abbrev pub insert_vacant :
    HashMap CryptoTypePublicPair Bytes
    → CryptoTypePublicPair
    → Bytes
    → HashMap CryptoTypePublicPair Bytes
insert_vacant m pub_key signature = elim (get CryptoTypePublicPair-discrete m pub_key) [
  | none ↦ insert CryptoTypePublicPair-discrete m pub_key signature
  | some _ ↦ m
]

unfoldable pub add_event_proof : WitnessedEvent → Action Error InMemoryEventProofs (Unit {0})
add_event_proof e s = if s.poisoned then (err (lock_fail "InMemoryProofs"), s) else (
  ok tt,
  record s {
    proofs =
        insert Bytes-discrete s.proofs e.event_id
          (insert_vacant (witnesses_of s.proofs e.event_id) e.pub_key e.signature);
  },
)

unfoldable pub get_event_proofs :
    H256
    → List CryptoTypePublicPair
    → InMemoryEventProofs
    → Result Error (HashMap CryptoTypePublicPair Bytes)
get_event_proofs event_id validators s =
    if s.poisoned
    then err (lock_fail "InMemoryProofs")
    else ok (retain_keys (is_validator validators) (witnesses_of s.proofs event_id))

unfoldable pub purge_event_stale_signatures :
    H256 → List CryptoTypePublicPair → Action Error InMemoryEventProofs (Unit {0})
purge_event_stale_signatures event_id validators s =
    if s.poisoned
    then (err (lock_fail "InMemoryProofs"), s)
    else elim (get Bytes-discrete s.proofs event_id) [
      | none ↦ (ok tt, s)
      | some event_proofs ↦ (
        ok tt,
        record s {
          proofs =
              insert Bytes-discrete s.proofs event_id
                (retain_keys (is_validator validators) event_proofs);
        },
      )
    ]

unfoldable pub in_memory : EventProofs InMemoryEventProofs
unfolding add_event_proof get_event_proofs purge_event_stale_signatures
in_memory = record {
  add_event_proof = add_event_proof;
  get_event_proofs = get_event_proofs;
  get_event_proof_count = default_get_event_proof_count get_event_proofs;
  purge_event_stale_signatures = purge_event_stale_signatures;
}
