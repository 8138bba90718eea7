-- ===== src/Errors.antt =====
-- consensus/src/errors.rs: the error type of the consensus crate and its conversions. An error of
-- another crate is known by its `Display` text only.
use validated_streams.Base.{String}
use Prim.Native.String.{◌++◌}

pub data Error : Type 0 where
  lock_fail : String → Error
  bad_witnessed_event_signature : String → Error
  serilization_failure : String → Error
  signing_failure : String → Error
  database : String → Error
  not_a_validator : Error
  other : String → Error

-- `impl fmt::Display for Error`
unfoldable pub fmt : Error → String
fmt (lock_fail r) = "Failed locking resource " ++ r
fmt (bad_witnessed_event_signature source) =
    "Received bad witnessed event signature from " ++ source
fmt (serilization_failure reason) = "Serialization failed due to " ++ reason
fmt (signing_failure reason) = "Signing failed due to " ++ reason
fmt (database reason) = "Database error, " ++ reason
fmt not_a_validator = "Not a validator"
fmt (other reason) = reason

-- `impl From<Box<bincode::ErrorKind>> for Error`
abbrev pub from_bincode : String → Error
from_bincode e = serilization_failure e

-- `impl From<sp_keystore::Error> for Error`
abbrev pub from_keystore : String → Error
from_keystore e = signing_failure e

-- `impl From<sp_api::ApiError> for Error`
abbrev pub from_api : String → Error
from_api e = other e

-- `impl From<PoisonError<T>> for Error`
abbrev pub from_poison : String → Error
from_poison e = lock_fail ("PoisonError: " ++ e)

-- `impl From<rocksdb::Error> for Error`
abbrev pub from_rocksdb : String → Error
from_rocksdb e = database e

-- How a task that handles a message can fail: by an `Error`, or by a panic (`unwrap` on `None`).
pub data Failure : Type 0 where
  fails : Error → Failure
  panics : Failure
