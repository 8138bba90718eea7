-- ===== src/Proofs.antt =====
-- consensus/src/proofs/mod.rs: the storage of event proofs, as an interface.
pub mod Contract
pub mod InMemory
pub mod RocksDb
pub mod Offchain
use validated_streams.Base.{ℕ, ◌%◌, ◌^◌, List, Result, ok, err, length}
use validated_streams.Base.Action.{Action}
use validated_streams.Base.HashMap.{HashMap}
use validated_streams.Base.Results.{◌>>=◌}
use validated_streams.Errors.{Error, Failure, fails, panics, other}
use validated_streams.Primitives.{Bytes, H256, CryptoTypePublicPair, WitnessedEvent}

-- `trait EventProofsTrait`. A method that takes `&self` and writes through a lock or a database
-- returns the store that it leaves, also on an error.
pub record EventProofs (State : Type 0) : Type 0 where
  pub add_event_proof : WitnessedEvent → Action Error State (Unit {0})
  pub get_event_proofs :
      H256 → List CryptoTypePublicPair → State → Result Error (HashMap CryptoTypePublicPair Bytes)
  pub get_event_proof_count : H256 → List CryptoTypePublicPair → State → Result Error ℕ
  pub purge_event_stale_signatures :
      H256 → List CryptoTypePublicPair → Action Error State (Unit {0})

-- The provided body of `get_event_proof_count`, with its `as u16`.
abbrev pub default_get_event_proof_count :
    {State : Type 0}
    → (H256 → List CryptoTypePublicPair → State → Result Error (HashMap CryptoTypePublicPair Bytes))
    → H256
    → List CryptoTypePublicPair
    → State
    → Result Error ℕ
default_get_event_proof_count get_event_proofs event_id validators s =
    get_event_proofs event_id validators s >>= λ m. ok (length m % 2 ^ 16)

-- A panic ends the task of the caller, for which it is an error like any other.
abbrev pub as_error : {A : Type 0} → Result Failure A → Result Error A
as_error (ok a) = ok a
as_error (err (fails e)) = err e
as_error (err panics) = err (other "panicked")
