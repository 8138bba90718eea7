-- ===== src/Base/HashMap.antt =====
-- `HashMap` over keys with decidable equality, as an association list; no result depends on the
-- order of the entries.
use validated_streams.Base.Tests.{if◌then◌else◌, is_some}
use mathlib.Core.Path.{◌≡◌, refl}
use mathlib.Core.Logic.{ite}
use mathlib.Core.Bool.{Bool}
use mathlib.Core.Option.{Option, none, some}
use mathlib.Core.List.{List, [], ◌∷◌}
use native.Mathlib.Omega.{arith}

abbrev pub HashMap : Type 0 → Type 0 → Type 0
HashMap K V = List (K × V)

module _ {K V : Type 0} where
  abbrev pub keys : HashMap K V → List K
  keys [] = []
  keys ((k, v) ∷ m) = k ∷ keys m

  -- `retain(|k, _| p(k))`
  abbrev pub retain_keys : (K → Bool) → HashMap K V → HashMap K V
  retain_keys p [] = []
  retain_keys p ((k, v) ∷ m) = if p k then (k, v) ∷ retain_keys p m else retain_keys p m

module _ {K V : Type 0} (dec : Discrete K) where
  abbrev pub get : HashMap K V → K → Option V
  get [] k = none
  get ((j, v) ∷ m) k = ite (dec j k) (some v) (get m k)

  abbrev pub contains_key : HashMap K V → K → Bool
  contains_key m k = is_some (get m k)

  abbrev pub insert : HashMap K V → K → V → HashMap K V
  insert [] k v = (k, v) ∷ []
  insert ((j, w) ∷ m) k v = ite (dec j k) ((k, v) ∷ m) ((j, w) ∷ insert m k v)

  abbrev pub remove : HashMap K V → K → HashMap K V
  remove [] k = []
  remove ((j, w) ∷ m) k = ite (dec j k) m ((j, w) ∷ remove m k)

  -- No key has two entries.
  abbrev pub DistinctKeys : HashMap K V → Type 0
  DistinctKeys [] = Unit
  DistinctKeys ((k, v) ∷ m) = (get m k ≡ none) × DistinctKeys m

  pub get-insert :
      (m : HashMap K V) (k : K) (v : V) (j : K)
      → get (insert m k v) j ≡ ite (dec k j) (some v) (get m j)
  get-insert [] k v j = refl
  get-insert ((i, w) ∷ m) k v j = ground (arith, get-insert m k v j)

  pub get-retain_keys :
      (p : K → Bool) (m : HashMap K V) (k : K)
      → get (retain_keys p m) k ≡ (if p k then get m k else none)
  get-retain_keys p [] k = ground arith
  get-retain_keys p ((i, w) ∷ m) k = ground (arith, get-retain_keys p m k)

  pub insert-DistinctKeys :
      (m : HashMap K V) (k : K) (v : V) → DistinctKeys m → DistinctKeys (insert m k v)
  insert-DistinctKeys [] k v d = (refl, tt)
  insert-DistinctKeys ((i, w) ∷ m) k v d =
      ground (arith, insert-DistinctKeys m k v d.1, get-insert m k v i)

  pub retain_keys-DistinctKeys :
      (p : K → Bool) (m : HashMap K V) → DistinctKeys m → DistinctKeys (retain_keys p m)
  retain_keys-DistinctKeys p [] d = tt
  retain_keys-DistinctKeys p ((i, w) ∷ m) d =
      ground (arith, retain_keys-DistinctKeys p m d.1, get-retain_keys p m i)
