-- ===== src/Config/Decimal.antt =====
-- The integers of the standard library that consensus/src/config.rs prints and parses: `u16` and
-- `i16` in decimal, as ASCII bytes.
pub mod Read
use validated_streams.Base.{
  ℕ, zero, suc, ◌+◌, ◌-◌, ◌*◌, ◌/◌, ◌%◌, ◌^◌, ◌<◌, ◌≤◌, ◌≡◌, refl, sym, ap, ◌∙◌, List, [], ◌∷◌,
  ◌++◌, Option, none, some, Result, ok, err, Bool, true, false, ◌||◌, ltb, leb, if◌then◌else◌, ◌==◌,
  arith, ltb→lt, Bool-cases, inl, inr,
}
use validated_streams.Base.Results.{◌>>=◌}
use validated_streams.Primitives.{Bytes}
use mathlib.Core.List.{append_assoc}
use native.Mathlib.Nat.{pow-suc}

-- `negsuc n` is -(n + 1)
pub data ℤ : Type 0 where
  pos : ℕ → ℤ
  negsuc : ℕ → ℤ

-- A `ParseIntError`
pub data Failure : Type 0 where
  invalid : Failure

-- The decimal digits; five are enough for a number of 16 bits.
pub digits : ℕ → ℕ → Bytes
digits zero n = []
digits (suc fuel) n =
    let front = digits fuel (n / 10) in
    if ltb n 10 then (b'0' + n) ∷ [] else front ++ (b'0' + n % 10) ∷ []

-- `impl Display for u16`
unfoldable pub fmt_u16 : ℕ → Bytes
unfolding digits
fmt_u16 = digits 5

-- `impl Display for i16`
unfoldable pub fmt_i16 : ℤ → Bytes
unfolding fmt_u16
fmt_i16 (pos n) = fmt_u16 n
fmt_i16 (negsuc n) = b'-' ∷ fmt_u16 (suc n)

-- The digits of a number that may be at most `max`.
pub scan : ℕ → Bytes → ℕ → Result Failure ℕ
scan max [] n = ok n
scan max (c ∷ s) n =
    let rest = scan max s (n * 10 + (c - b'0')) in
    if ltb c b'0' || ltb b'9' c
    then err invalid
    else if ltb max (n * 10 + (c - b'0'))
    then err invalid
    else rest

abbrev pub number : ℕ → Bytes → Result Failure ℕ
number max [] = err invalid
number max (c ∷ s) = scan max (c ∷ s) 0

-- `u16::from_str`, which takes a plus sign
unfoldable pub u16_from_str : Bytes → Result Failure ℕ
unfolding scan
u16_from_str [] = err invalid
u16_from_str (c ∷ s) = if c == b'+' then number 65535 s else number 65535 (c ∷ s)

abbrev pub negate : ℕ → ℤ
negate zero = pos 0
negate (suc n) = negsuc n

-- `i16::from_str`
unfoldable pub i16_from_str : Bytes → Result Failure ℤ
unfolding scan
i16_from_str [] = err invalid
i16_from_str (c ∷ s) =
    if c == b'-'
    then number 32768 s >>= (λ n. ok (negate n))
    else if c == b'+'
    then number 32767 s >>= (λ n. ok (pos n))
    else number 32767 (c ∷ s) >>= (λ n. ok (pos n))

-- `-x` on an `i16`, which wraps around
unfoldable pub neg_i16 : ℤ → ℤ
neg_i16 (pos n) = negate n
neg_i16 (negsuc n) = if leb 32767 n then negsuc n else pos (suc n)

scan-digit :
    (max n d m : ℕ) (t : Bytes)
    → d < 10
    → n * 10 + d ≡ m
    → m ≤ max
    → scan max ((b'0' + d) ∷ t) n ≡ scan max t m
unfolding scan
scan-digit max n d m t h e le =
    let value : n * 10 + (48 + d - 48) ≡ m = omega arith in rw value (ground arith)

-- Printed digits are scanned back, before any further text.
pub scan-digits :
    (max fuel n : ℕ) (t : Bytes)
    → n < 10 ^ fuel
    → n ≤ max
    → 0 < fuel
    → scan max (digits fuel n ++ t) 0 ≡ scan max t n
unfolding scan digits
scan-digits max zero n t h le p = absurd (omega arith)
scan-digits max (suc fuel) n t h le p = elim (Bool-cases (ltb n 10)) [
  | inl small ↦ rw small (scan-digit max 0 n n t (ltb→lt n 10 small) (omega arith) le)
  | inr large ↦ rw large (
      ap (λ u. scan max u 0) (append_assoc (digits fuel (n / 10)) _ t)
      ∙ scan-digits max fuel (n / 10) _ (omega (arith, pow-suc 10 fuel)) (omega arith)
          (ground arith)
      ∙ scan-digit max (n / 10) (n % 10) n t (omega arith) (omega arith) le)
]
