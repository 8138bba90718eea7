-- ===== src/Service/Runs.antt =====
-- What a step of the start-up adds to the log, with one rule for each way to build a step.
use validated_streams.Base.{
  ◌≡◌, refl, sym, ◌∙◌, Bool, true, false, List, [], ◌∷◌, ◌++◌, String, Result, ok, err, map_err,
  if◌then◌else◌, arith,
}
use validated_streams.Service.{
  StartFailure, of_substrate, Machine, Step, pure, lift, ◌>>=◌, calls, starts,
}
use mathlib.Core.List.{append-nil, append_assoc}

-- Whether one of the entries is of a kind.
abbrev pub any : {Entry : Type 0} → (Entry → Bool) → List Entry → Bool
any is_kind [] = false
any is_kind (e ∷ es) = if is_kind e then true else any is_kind es

any-append :
    {Entry : Type 0} (is_kind : Entry → Bool) (es fs : List Entry)
    → any is_kind es ≡ false
    → any is_kind (es ++ fs) ≡ any is_kind fs
any-append is_kind [] fs h = refl
any-append is_kind (e ∷ es) fs h = ground (arith, h, any-append is_kind es fs)

module _ {Env Entry : Type 0} (banned : Entry → Bool) where
  -- The entries are added, and none of them is banned.
  pub record IsAdded (m m' : Machine Env Entry) (es : List Entry) : Type 0 where
    pub added : m'.log ≡ m.log ++ es
    pub none_banned : any banned es ≡ false

  abbrev pub Outcome :
      {A : Type 0}
      → (A → List Entry → Type 0)
      → Machine Env Entry
      → Result StartFailure A × Machine Env Entry
      → Type 0
  Outcome Q m (ok a, m') = (es : List Entry) × IsAdded m m' es × Q a es
  Outcome Q m (err e, m') = (es : List Entry) × IsAdded m m' es

  -- If the step succeeds, its value and the entries that it adds satisfy `Q`; and in no case does
  -- it add a banned one.
  pub record Runs {A : Type 0} (step : Step Env Entry A) (Q : A → List Entry → Type 0)
      : Type 0 where
    pub at : (m : Machine Env Entry) → Outcome Q m (step m)

  nothing : (m m' : Machine Env Entry) → m'.log ≡ m.log → IsAdded m m' []
  nothing m m' h = record { added = h ∙ sym (append-nil m.log); none_banned = refl }

  called :
      {A : Type 0} (r : Result String A × Env) (m : Machine Env Entry)
      → Outcome (λ b es. es ≡ []) m (map_err of_substrate r.0, record m { env = r.1 })
  called (ok a, env) m = ([], nothing m _ refl, refl)
  called (err e, env) m = ([], nothing m _ refl)

  weaker :
      {A : Type 0} (P Q : A → List Entry → Type 0)
      → ((a : A) (es : List Entry) → P a es → Q a es)
      → (m : Machine Env Entry) (r : Result StartFailure A × Machine Env Entry) → Outcome P m r
      → Outcome Q m r
  weaker P Q w m (ok a, m') (es, added, p) = (es, added, w a es p)
  weaker P Q w m (err e, m') o = o

module _ {Env Entry : Type 0} {banned : Entry → Bool} where
  pub Runs-pure :
      {A : Type 0} (a : A) → Runs {Env = Env} banned (pure a) (λ b es. (b ≡ a) × (es ≡ []))
  unfolding pure
  Runs-pure a = record { at = λ m. ([], nothing banned m m refl, (refl, refl)) }

  pub Runs-lift :
      {A : Type 0} (r : Result StartFailure A)
      → Runs {Env = Env} banned (lift r) (λ b es. (r ≡ ok b) × (es ≡ []))
  unfolding lift
  Runs-lift (ok a) = record { at = λ m. ([], nothing banned m m refl, (refl, refl)) }
  Runs-lift (err e) = record { at = λ m. ([], nothing banned m m refl) }

  added_twice :
      (m m' m'' : Machine Env Entry) (es fs : List Entry)
      → IsAdded banned m m' es
      → IsAdded banned m' m'' fs
      → IsAdded banned m m'' (es ++ fs)
  added_twice m m' m'' es fs first second = record {
    added = second.added ∙ rw first.added (append_assoc m.log es fs);
    none_banned = any-append banned es fs first.none_banned ∙ second.none_banned;
  }

  pub Runs-calls :
      {A : Type 0} (f : Env → Result String A × Env) → Runs banned (calls f) (λ b es. es ≡ [])
  unfolding calls
  Runs-calls f = record { at = λ m. called banned (f m.env) m }

  pub Runs-starts :
      (e : Entry) → banned e ≡ false → Runs {Env = Env} banned (starts e) (λ b es. es ≡ e ∷ [])
  unfolding starts
  Runs-starts e h = record {
    at = λ m. (e ∷ [], record { added = refl; none_banned = ground (arith, h) }, refl);
  }

  then_ :
      {B : Type 0} (Q : B → List Entry → Type 0) (m m' : Machine Env Entry) (es : List Entry)
      → IsAdded banned m m' es
      → (r : Result StartFailure B × Machine Env Entry)
      → Outcome banned (λ b fs. Q b (es ++ fs)) m' r
      → Outcome banned Q m r
  then_ Q m m' es first (ok b, m'') (fs, second, q) =
      (es ++ fs, added_twice m m' m'' es fs first second, q)
  then_ Q m m' es first (err e, m'') (fs, second) =
      (es ++ fs, added_twice m m' m'' es fs first second)

  after :
      {A B : Type 0} (f : A → Step Env Entry B) (P : A → List Entry → Type 0)
      (Q : B → List Entry → Type 0)
      → ((a : A) (es : List Entry) → P a es → Runs banned (f a) (λ b fs. Q b (es ++ fs)))
      → (m : Machine Env Entry) (r : Result StartFailure A × Machine Env Entry)
      → Outcome banned P m r
      → Outcome banned Q m (let (x, s') = r in elim x [ ok a ↦ f a s' | err e ↦ (err e, s') ])
  after f P Q rf m (err e, m') o = o
  after f P Q rf m (ok a, m') (es, first, p) = then_ Q m m' es first (f a m') ((rf a es p).at m')

  pub Runs-bind :
      {A B : Type 0} (step : Step Env Entry A) (f : A → Step Env Entry B)
      {P : A → List Entry → Type 0} {Q : B → List Entry → Type 0}
      → Runs banned step P
      → ((a : A) (es : List Entry) → P a es → Runs banned (f a) (λ b fs. Q b (es ++ fs)))
      → Runs banned (step >>= f) Q
  unfolding ◌>>=◌
  Runs-bind step f {P} {Q} rs rf = record { at = λ m. after f P Q rf m (step m) (rs.at m) }

  pub Runs-map :
      {A : Type 0} (step : Step Env Entry A) {P Q : A → List Entry → Type 0}
      → Runs banned step P
      → ((a : A) (es : List Entry) → P a es → Q a es)
      → Runs banned step Q
  Runs-map step {P} {Q} r w = record { at = λ m. weaker banned P Q w m (step m) (r.at m) }
