-- ===== src/Config/Decimal/Read.antt =====
-- What is printed in decimal is read back.
use validated_streams.Base.{
  ℕ, zero, suc, ◌+◌, ◌/◌, ◌%◌, ◌^◌, ◌<◌, ◌≤◌, ◌≡◌, refl, sym, ap, ◌∙◌, [], ◌∷◌, ◌++◌, ok, ltb,
  arith, Bool-cases, inl, inr,
}
use validated_streams.Config.Decimal.{
  pos, negsuc, digits, fmt_u16, fmt_i16, scan, u16_from_str, i16_from_str, scan-digits,
}
use validated_streams.Primitives.{Bytes}
use mathlib.Core.List.{append-nil}
use native.Mathlib.Nat.{pow-suc}

-- A printed number begins with a digit, so with no sign.
digits-cons :
    (fuel n : ℕ)
    → n < 10 ^ fuel
    → 0 < fuel
    → (c : ℕ) × (s : Bytes) × (digits fuel n ≡ c ∷ s) × (48 ≤ c)
unfolding digits
digits-cons zero n h p = absurd (omega arith)
digits-cons (suc zero) n h p = (48 + n, [], ground arith, omega arith)
digits-cons (suc (suc fuel)) n h p = elim (Bool-cases (ltb n 10)) [
  | inl small ↦ (48 + n, [], rw small, omega arith)
  | inr large ↦
      let (c, s, e, d) =
        digits-cons (suc fuel) (n / 10) (omega (arith, pow-suc 10 (suc fuel))) (omega arith) in
      (c, s ++ (48 + n % 10) ∷ [], rw (large, e), d)
]

number-fmt_u16 : (max n : ℕ) → n < 100000 → n ≤ max → scan max (fmt_u16 n) 0 ≡ ok n
unfolding fmt_u16 scan
number-fmt_u16 max n h le =
    ap (λ s. scan max s 0) (sym (append-nil (digits 5 n)))
    ∙ scan-digits max 5 n [] h le (omega arith)

pub fmt_u16-cons : (n : ℕ) → n < 100000 → (c : ℕ) × (s : Bytes) × (fmt_u16 n ≡ c ∷ s) × (48 ≤ c)
unfolding fmt_u16
fmt_u16-cons n h = digits-cons 5 n h (omega arith)

module _ (n : ℕ) (h : n < 100000) where
  pub read_u16 : n ≤ 65535 → u16_from_str (fmt_u16 n) ≡ ok n
  unfolding u16_from_str
  read_u16 le =
      let (c, s, e, d) = fmt_u16-cons n h in
      rw e (ground (arith, rw e at (number-fmt_u16 65535 n h le)))

  pub read_i16 : n ≤ 32767 → i16_from_str (fmt_u16 n) ≡ ok (pos n)
  unfolding i16_from_str
  read_i16 le =
      let (c, s, e, d) = fmt_u16-cons n h in
      rw e (ground (arith, rw e at (number-fmt_u16 32767 n h le)))

-- The least number of the type is read, as its digits may go one further than those of the others.
pub read_least : i16_from_str (fmt_i16 (negsuc 32767)) ≡ ok (negsuc 32767)
unfolding i16_from_str fmt_i16 fmt_u16 scan digits
read_least = refl
