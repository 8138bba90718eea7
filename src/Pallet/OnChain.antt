-- ===== src/Pallet/OnChain.antt =====
-- pallet/src/lib.rs without the feature `off-chain-proofs`: an event is recorded with its proofs,
-- which are checked on the chain.
pub mod Decision
pub mod Justified
pub mod Submitted
use validated_streams.Base.{
  ℕ, ◌+◌, ◌*◌, ◌/◌, ◌%◌, ◌^◌, List, [], ◌∷◌, Option, none, some, Result, ok, err, ltb, length,
  contains, if◌then◌else◌,
}
use validated_streams.Base.Action.{Action}
use validated_streams.Interfaces.{Sr25519, Public, Signature}
use validated_streams.Pallet.{
  Error, already_validated, invalid_proof, no_proofs, not_enough_proofs, unrecognized_authority,
  ProofsMap, Storage, record_event, is_event_valid,
}
use validated_streams.Primitives.{Bytes-discrete, H256}

-- `(total * 2 / 3 + 1) as u16`
unfoldable pub target : List Public → ℕ
target authorities = (length authorities * 2 / 3 + 1) % 2 ^ 16

-- `for key in proofs.keys()`
unfoldable pub check_keys : List Public → ProofsMap → Result Error (Unit {0})
check_keys authorities [] = ok tt
check_keys authorities ((key, _) ∷ proofs) =
    if contains Bytes-discrete authorities key
    then check_keys authorities proofs
    else err unrecognized_authority

-- `for (key, signature) in &proofs`, with the count in a `u16`
unfoldable pub count_proofs : Sr25519 → H256 → ProofsMap → ℕ → Result Error ℕ
count_proofs S event_id [] proof_count = ok proof_count
count_proofs S event_id ((key, signature) ∷ proofs) proof_count =
    if S.verify key event_id signature
    then count_proofs S event_id proofs ((proof_count + 1) % 2 ^ 16)
    else err invalid_proof

-- `validate_event_impl`; `authorities` are the raw keys of `T::authorities()`.
unfoldable pub validate_event :
    Sr25519 → List Public → H256 → Option ProofsMap → Action Error (Storage ProofsMap) (Unit {0})
validate_event S authorities event_id none s = (err no_proofs, s)
validate_event S authorities event_id (some proofs) s =
    if is_event_valid event_id s
    then (err already_validated, s)
    else elim (check_keys authorities proofs) [
      | err e ↦ (err e, s)
      | ok _ ↦ elim (count_proofs S event_id proofs 0) [
        | err e ↦ (err e, s)
        | ok proof_count ↦
            if ltb proof_count (target authorities)
            then (err not_enough_proofs, s)
            else (ok tt, record_event event_id proofs s)
      ]
    ]
