-- ===== src/Base/Action.antt =====
-- A fallible method on a mutable state. What was written before an error stays written.
use validated_streams.Base.Results.{Result, ok, err}

abbrev pub Action {ℓ κ μ} : Type ℓ → Type κ → Type μ → Type (ℓ ⊔ κ ⊔ μ)
Action E S A = S → Result E A × S

infixl 5 ◌>>=◌ ◌>>◌
abbrev pub ◌>>=◌ {ℓ κ μ ν} :
    {E : Type ℓ} {S : Type κ} {A : Type μ} {B : Type ν}
    → Action E S A
    → (A → Action E S B)
    → Action E S B
◌>>=◌ m f s = let (r, s') = m s in elim r [ ok a ↦ f a s' | err e ↦ (err e, s') ]

abbrev pub ◌>>◌ {ℓ κ μ ν} :
    {E : Type ℓ} {S : Type κ} {A : Type μ} {B : Type ν} → Action E S A → Action E S B → Action E S B
m >> k = m >>= λ _. k

module _ {ℓ κ μ} {E : Type ℓ} {S : Type κ} {A : Type μ} where
  abbrev pub pure : A → Action E S A
  pure a s = (ok a, s)

  abbrev pub lift : Result E A → Action E S A
  lift r s = (r, s)

  -- a method that only reads
  abbrev pub reads : (S → Result E A) → Action E S A
  reads f s = (f s, s)
