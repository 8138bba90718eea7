-- ===== src/EventNumbers/Numbered.antt =====
-- The numbers of the benchmark's events are read back from the ids.
use validated_streams.Base.{
  ℕ, suc, ◌+◌, ◌*◌, ◌/◌, ◌%◌, ◌^◌, ◌<◌, ◌≡◌, ap, [], ◌∷◌, some, length, drop, arith,
}
use validated_streams.EventNumbers.{
  to_be_bytes, from_be_bytes, event_num_to_event_id, event_id_to_event_num,
}
use validated_streams.Primitives.{Bytes, IsH256}

be_bytes_sum :
    (n : ℕ)
    → n < 2 ^ 32
    → n / 16777216 % 256 * 16777216 + n / 65536 % 256 * 65536 + n / 256 % 256 * 256 + n % 256 ≡ n
be_bytes_sum n h = omega arith

drop-four : (b : Bytes) → IsH256 b → length (drop 4 b) ≡ 28
drop-four (a ∷ b ∷ c ∷ d ∷ rest) h = omega arith
drop-four [] h = absurd (omega arith)
drop-four (a ∷ []) h = absurd (omega arith)
drop-four (a ∷ b ∷ []) h = absurd (omega arith)
drop-four (a ∷ b ∷ c ∷ []) h = absurd (omega arith)

-- With a digest of 32 bytes, the id of an event number of 32 bits has the length of an event id,
-- and the number is read back from it.
pub event_id_to_event_num_lem :
    (sha256 : Bytes → Bytes) (event_num : ℕ)
    → ((b : Bytes) → IsH256 (sha256 b))
    → event_num < 2 ^ 32
    → IsH256 (event_num_to_event_id sha256 event_num)
      × (event_id_to_event_num sha256 (event_num_to_event_id sha256 event_num) ≡ some event_num)
unfolding event_num_to_event_id event_id_to_event_num to_be_bytes from_be_bytes
event_id_to_event_num_lem sha256 event_num digest h = (
  ap (λ n. suc (suc (suc (suc n))))
      (drop-four (sha256 (to_be_bytes event_num)) (digest (to_be_bytes event_num))),
  ap some (be_bytes_sum event_num h),
)
