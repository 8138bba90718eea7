-- ===== src/Pallet/OnChain/Decision.antt =====
-- Which proofs the pallet accepts, with proofs kept on the chain.
use validated_streams.Base.{
  ℕ, ◌+◌, ◌^◌, ◌≤◌, ◌<◌, ◌≡◌, ◌≢◌, refl, ap, Bool, true, false, List, [], ◌∷◌, some, ok, err,
  contains, length, all, if◌then◌else◌, arith, Result-cases, ◌⊎◌, inl, inr,
}
use validated_streams.Base.HashMap.{keys}
use validated_streams.Interfaces.{Sr25519, Public}
use validated_streams.Pallet.{
  invalid_proof, unrecognized_authority, ProofsMap, Storage, record_event, is_event_valid,
}
use validated_streams.Pallet.OnChain.{target, check_keys, count_proofs, validate_event}
use validated_streams.Primitives.{Bytes-discrete, H256}
use native.Mathlib.Nat.{mod-eq_of_lt, zero-add}

abbrev pub all_known : List Public → ProofsMap → Bool
all_known authorities proofs = all (contains Bytes-discrete authorities) (keys proofs)

abbrev pub all_verify : Sr25519 → H256 → ProofsMap → Bool
all_verify S event_id proofs = all (λ p. S.verify p.0 event_id p.1) proofs

check_keys_lem :
    (authorities : List Public) (proofs : ProofsMap)
    → check_keys authorities proofs
      ≡ (if all_known authorities proofs then ok tt else err unrecognized_authority)
unfolding check_keys
check_keys_lem authorities [] = refl
check_keys_lem authorities ((k, v) ∷ proofs) = ground (arith, check_keys_lem authorities proofs)

count_proofs_lem :
    (S : Sr25519) (event_id : H256) (proofs : ProofsMap) (n : ℕ)
    → n + length proofs < 2 ^ 16
    → count_proofs S event_id proofs n
      ≡ (if all_verify S event_id proofs then ok (n + length proofs) else err invalid_proof)
unfolding count_proofs
count_proofs_lem S event_id [] n h = ap ok (omega arith)
count_proofs_lem S event_id ((k, v) ∷ proofs) n h =
    rw (mod-eq_of_lt {n = n + 1} {m = 2 ^ 16} (omega arith))
      (ground (arith, count_proofs_lem S event_id proofs (n + 1)))

module _ (S : Sr25519) (authorities : List Public) (event_id : H256) (proofs : ProofsMap)
    (s : Storage ProofsMap) where
  -- The event is new, each proof is an authority's valid signature of it, and there are enough.
  pub record IsProven : Type 0 where
    pub new : is_event_valid event_id s ≡ false
    pub known : all_known authorities proofs ≡ true
    pub verified : all_verify S event_id proofs ≡ true
    pub enough : target authorities ≤ length proofs

  counted :
      length proofs < 2 ^ 16
      → count_proofs S event_id proofs 0
        ≡ (if all_verify S event_id proofs then ok (length proofs) else err invalid_proof)
  counted few = rw (count_proofs_lem S event_id proofs 0 (omega arith), zero-add)

  pub accepts :
      length proofs < 2 ^ 16
      → IsProven
      → validate_event S authorities event_id (some proofs) s
        ≡ (ok tt, record_event event_id proofs s)
  unfolding validate_event
  accepts few g = ground (arith, counted few, check_keys_lem authorities proofs)

  proven :
      length proofs < 2 ^ 16
      → (validate_event S authorities event_id (some proofs) s).0 ≡ ok tt
      → IsProven
  unfolding validate_event
  proven few h = ground (arith, counted few, check_keys_lem authorities proofs)

  refused :
      (validate_event S authorities event_id (some proofs) s).0 ≢ ok tt
      → (validate_event S authorities event_id (some proofs) s).1 ≡ s
  unfolding validate_event
  refused h = ground arith

  -- For fewer than 2^16 proofs: either the event is not recorded yet, every proof is by an
  -- authority, every signature of the event verifies, and there are as many as the target; then
  -- the call succeeds and records the event with its proofs. Or one of these fails; then the call
  -- fails and leaves the storage alone.
  pub validate_event_lem :
      length proofs < 2 ^ 16
      → let (r, s') = validate_event S authorities event_id (some proofs) s in
        (IsProven × (r ≡ ok tt) × (s' ≡ record_event event_id proofs s))
        ⊎ ((¬ IsProven) × (r ≢ ok tt) × (s' ≡ s))
  validate_event_lem few =
      elim (Result-cases (validate_event S authorities event_id (some proofs) s).0) [
        | inl (u, good) ↦
            let g = proven few good in
            inl (g, ap (λ r. r.0) (accepts few g), ap (λ r. r.1) (accepts few g))
        | inr (e, bad) ↦
            let failed : (validate_event S authorities event_id (some proofs) s).0 ≢ ok tt =
              λ good. cc in
            inr (λ g. failed (ap (λ r. r.0) (accepts few g)), failed, refused failed)
      ]
