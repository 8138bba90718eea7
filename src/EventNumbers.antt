-- ===== src/EventNumbers.antt =====
-- samples/tps-benchmark/src/main.rs: the event ids of the benchmark, which carry a number.
pub mod Numbered
use validated_streams.Base.{
  ℕ, ◌+◌, ◌*◌, ◌/◌, ◌%◌, List, [], ◌∷◌, ◌++◌, Option, none, some, drop, take,
}
use validated_streams.Primitives.{Bytes}

-- `u32::to_be_bytes`
unfoldable pub to_be_bytes : ℕ → Bytes
to_be_bytes n = n / 16777216 % 256 ∷ n / 65536 % 256 ∷ n / 256 % 256 ∷ n % 256 ∷ []

-- `event_id[0..4].try_into()` and `u32::from_be_bytes`; a shorter slice panics.
pub from_be_bytes : Bytes → Option ℕ
from_be_bytes (a ∷ b ∷ c ∷ d ∷ rest) = some (a * 16777216 + b * 65536 + c * 256 + d)
from_be_bytes _ = none

module _ (sha256 : Bytes → Bytes) where
  -- The digest, with the number written over its first bytes.
  pub event_num_to_event_id : ℕ → Bytes
  unfolding to_be_bytes
  event_num_to_event_id event_num =
      let num_bytes = to_be_bytes event_num in num_bytes ++ drop 4 (sha256 num_bytes)

  pub event_id_to_event_num : Bytes → Option ℕ
  unfolding from_be_bytes
  event_id_to_event_num event_id = from_be_bytes event_id
