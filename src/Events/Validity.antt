-- ===== src/Events/Validity.antt =====
-- `verify_events_validity` lists exactly the events without a quorum.
use validated_streams.Base.{
  ℕ, ◌^◌, ◌<◌, ◌≡◌, refl, ap, ◌∙◌, List, [], ◌∷◌, is_some, Option, ok, length, count,
  count-le-length, All, retain, ltb, arith,
}
use native.Mathlib.Nat.{mod-eq_of_lt}
use validated_streams.Events.{unprepared_ids}
use validated_streams.Primitives.{Bytes, H256, IsH256, CryptoTypePublicPair}
use validated_streams.Proofs.{EventProofs}
use validated_streams.Proofs.Contract.{IsEventProofs, DistinctValidators}

-- How many of the validators have a proof of the event in the store.
abbrev pub witnesses :
    {State : Type 0}
    → (State → H256 → CryptoTypePublicPair → Option Bytes)
    → State
    → List CryptoTypePublicPair
    → H256
    → ℕ
witnesses stored s vs id = count (λ pk. is_some (stored s id pk)) vs

module _ {State : Type 0} (P : EventProofs State) (IsUsable : State → Type 0)
    (stored : State → H256 → CryptoTypePublicPair → Option Bytes)
    (lawful : IsEventProofs P IsUsable stored) where
  -- For fewer than 2^16 distinct validators the count of the store is exact.
  pub count-witnesses :
      (id : H256) (vs : List CryptoTypePublicPair) (s : State)
      → IsH256 id
      → DistinctValidators vs
      → length vs < 2 ^ 16
      → IsUsable s
      → P.get_event_proof_count id vs s ≡ ok (witnesses stored s vs id)
  count-witnesses id vs s h d few u =
      lawful.count_ok id vs s h d u
      ∙ ap ok (mod-eq_of_lt (omega (arith, count-le-length (λ pk. is_some (stored s id pk)) vs)))

  -- Of a usable store with fewer than 2^16 distinct validators, the loop returns the events, in
  -- order, that fewer than `target` of the validators have witnessed.
  pub unprepared_ids_lem :
      (vs : List CryptoTypePublicPair) (target : ℕ) (ids : List H256) (s : State)
      → All IsH256 ids
      → DistinctValidators vs
      → length vs < 2 ^ 16
      → IsUsable s
      → unprepared_ids P vs target ids s
        ≡ ok (retain (λ id. ltb (witnesses stored s vs id) target) ids)
  unfolding unprepared_ids
  unprepared_ids_lem vs target [] s h d few u = refl
  unprepared_ids_lem vs target (id ∷ ids) s h d few u =
      rw (count-witnesses id vs s h.0 d few u, unprepared_ids_lem vs target ids s h.1 d few u)
