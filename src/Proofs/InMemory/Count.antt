-- ===== src/Proofs/InMemory/Count.antt =====
-- The length of a map cut down to the validators is the number of validators that it has.
use validated_streams.Base.{
  ◌≡◌, refl, sym, ◌+◌, is_some, none, List, [], ◌∷◌, if◌then◌else◌, arith, contains, count,
  Distinct, length,
}
use validated_streams.Base.HashMap.{HashMap, get, DistinctKeys, retain_keys}

count-get-nil :
    {K : Type 0} (W : Type 0) (dec : Discrete K) (vs : List K)
    → count (λ x. is_some (get {V = W} dec [] x)) vs ≡ 0
count-get-nil W dec [] = refl
count-get-nil W dec (x ∷ xs) = omega (arith, count-get-nil W dec xs)

module _ {K V : Type 0} (dec : Discrete K) where
  count-get-cons :
      (k : K) (v : V) (m : HashMap K V) (vs : List K)
      → get dec m k ≡ none
      → Distinct dec vs
      → count (λ x. is_some (get dec ((k, v) ∷ m) x)) vs
        ≡ (if contains dec vs k then 1 else 0) + count (λ x. is_some (get dec m x)) vs
  count-get-cons k v m [] free d = refl
  count-get-cons k v m (x ∷ xs) free d = ground (arith, count-get-cons k v m xs free d.1)

  pub length-retain_keys :
      (vs : List K) (m : HashMap K V)
      → Distinct dec vs
      → DistinctKeys dec m
      → length (retain_keys (contains dec vs) m) ≡ count (λ x. is_some (get dec m x)) vs
  length-retain_keys vs [] d keys = sym (count-get-nil V dec vs)
  length-retain_keys vs ((k, v) ∷ m) d keys =
      rw (count-get-cons k v m vs keys.0 d) (ground (arith, length-retain_keys vs m d keys.1))
