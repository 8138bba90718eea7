-- ===== src/Events/Quorum.antt =====
-- `AuthoritiesList::target` (consensus/src/events/mod.rs): a quorum of more than two thirds.
use validated_streams.Base.{
  ◌+◌, ◌-◌, ◌*◌, ◌/◌, ◌≤◌, ◌<◌, ◌≡◌, ◌⊎◌, List, [], ◌∷◌, Bool, ◌&&◌, length, count, arith,
}
use validated_streams.Events.{AuthoritiesList, target}
use validated_streams.Primitives.{CryptoTypePublicPair}

-- The number of authorities for which the cast to `u16` loses nothing.
abbrev pub FitsU16 : AuthoritiesList → Type 0
FitsU16 l = length l.authorities < 98303

target-of-length : (l : AuthoritiesList) → FitsU16 l → target l ≡ length l.authorities * 2 / 3 + 1
unfolding target
target-of-length l h = omega arith

-- For fewer than 98303 authorities the target is the least number above two thirds of them, it
-- is the formula that the comment on `target` derives, and it can be reached by the authorities
-- unless there are none.
pub target_lem :
    (l : AuthoritiesList)
    → FitsU16 l
    → let n = length l.authorities in
      (n * 2 < 3 * target l)
      × (3 * (target l - 1) ≤ n * 2)
      × (target l ≡ (n - n / 3) / 2 + 1 + n / 3)
      × ((n ≡ 0) ⊎ (target l ≤ n))
target_lem l h = (
  omega (arith, target-of-length l h),
  omega (arith, target-of-length l h),
  omega (arith, target-of-length l h),
  ground (arith, target-of-length l h),
)

count-both :
    {A : Type 0} (p q : A → Bool) (xs : List A)
    → count p xs + count q xs ≤ length xs + count (λ x. p x && q x) xs
count-both p q [] = omega arith
count-both p q (x ∷ xs) = ground (arith, count-both p q xs)

-- Of fewer than 98303 authorities, if as many as the target witnessed one event and as many
-- another, then more than a third witnessed both.
pub quorums_intersect :
    (l : AuthoritiesList) (p q : CryptoTypePublicPair → Bool)
    → FitsU16 l
    → target l ≤ count p l.authorities
    → target l ≤ count q l.authorities
    → length l.authorities < 3 * count (λ v. p v && q v) l.authorities
quorums_intersect l p q h hp hq = omega (arith, target-of-length l h, count-both p q l.authorities)
