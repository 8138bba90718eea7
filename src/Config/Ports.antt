-- ===== src/Config/Ports.antt =====
-- `PortOrOffset::adjust_port` (consensus/src/config.rs) saturates.
use validated_streams.Base.{
  ℕ, suc, ◌+◌, ◌^◌, ◌<◌, ◌≡◌, ◌⊎◌, refl, ltb, arith, inl, inr, Bool-cases, ltb→lt, false,
}
use validated_streams.Config.{port, offset, adjust_port}
use validated_streams.Config.Decimal.{ℤ, pos, negsuc}
use native.Mathlib.Decide.{dec_lt}

-- The distance that an offset moves a port, upwards and downwards.
abbrev pub up : ℤ → ℕ
up (pos n) = n
up (negsuc n) = 0

abbrev pub down : ℤ → ℕ
down (pos n) = 0
down (negsuc n) = suc n

le_of_not-ltb : (n : ℕ) → ltb 65535 n ≡ false → n < 65536
le_of_not-ltb n h = ground arith

-- A fixed port is used as it is. An offset gives a port again, which is the sum where that is a
-- port, and otherwise the end of the range that the sum lies beyond.
pub adjust_port_lem :
    (o : ℤ) (p q : ℕ)
    → p < 2 ^ 16
    → let r = adjust_port (offset o) p in
      (adjust_port (port q) p ≡ q)
      × (r < 2 ^ 16)
      × ((r + down o ≡ p + up o) ⊎ ((r ≡ 0) × (p < down o)) ⊎ ((r ≡ 65535) × (65535 < p + up o)))
unfolding adjust_port
adjust_port_lem (pos n) p q h = elim (Bool-cases (ltb 65535 (p + n))) [
  | inl over ↦ rw over (refl, omega arith, inr (inr (refl, ltb→lt 65535 (p + n) over)))
  | inr fits ↦ rw fits (refl, le_of_not-ltb (p + n) fits, inl (omega arith))
]
adjust_port_lem (negsuc n) p q h = elim (dec_lt p (suc n)) [
  | yes under ↦ (refl, omega arith, inr (inl (omega arith, under)))
  | no above ↦ (refl, omega arith, inl (omega arith))
]
