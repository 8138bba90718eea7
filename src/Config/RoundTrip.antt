-- ===== src/Config/RoundTrip.antt =====
-- The text form of `PortOrOffset` is read back (consensus/src/config.rs).
use validated_streams.Base.{
  ℕ, suc, ◌^◌, ◌<◌, ◌≤◌, ◌≡◌, refl, subst, ok, false, leb, leb→le, arith, Bool-cases, inl, inr,
}
use validated_streams.Config.{PortOrOffset, port, offset, fmt, from_str}
use validated_streams.Config.Decimal.{pos, negsuc, fmt_u16, fmt_i16, neg_i16}
use validated_streams.Config.Decimal.Read.{fmt_u16-cons, read_u16, read_i16, read_least}

-- The values of the Rust types `u16` and `i16`.
abbrev pub IsInRange : PortOrOffset → Type 0
IsInRange (port n) = n < 2 ^ 16
IsInRange (offset (pos n)) = n < 2 ^ 15
IsInRange (offset (negsuc n)) = n < 2 ^ 15

from_str-fmt_u16 : (n : ℕ) → n < 100000 → n ≤ 65535 → from_str (fmt_u16 n) ≡ ok (port n)
unfolding from_str
from_str-fmt_u16 n h le =
    let (c, s, e, d) = fmt_u16-cons n h in rw e (ground (arith, rw e at (read_u16 n h le)))

below : (n : ℕ) → leb 32767 n ≡ false → suc n ≤ 32767
below n h = ground arith

-- The text of the least offset has two signs, as its negation wraps around.
from_str-least : from_str (fmt (offset (negsuc 32767))) ≡ ok (offset (negsuc 32767))
unfolding fmt from_str neg_i16 fmt_i16
from_str-least = rw read_least refl

-- Every port of 16 bits and every offset of 16 bits with a sign is read back from its text as the
-- same value.
pub from_str-fmt : (p : PortOrOffset) → IsInRange p → from_str (fmt p) ≡ ok p
unfolding fmt from_str neg_i16 fmt_i16
from_str-fmt (port n) h = from_str-fmt_u16 n (omega arith) (omega arith)
from_str-fmt (offset (pos n)) h = rw (read_i16 n (omega arith) (omega arith)) refl
from_str-fmt (offset (negsuc n)) h = elim (Bool-cases (leb 32767 n)) [
  | inl least ↦
      let same : 32767 ≡ n = omega (arith, leb→le 32767 n least) in
      subst (λ k. from_str (fmt (offset (negsuc k))) ≡ ok (offset (negsuc k))) same from_str-least
  | inr fits ↦ rw fits (rw (read_i16 (suc n) (omega arith) (below n fits)) refl)
]
