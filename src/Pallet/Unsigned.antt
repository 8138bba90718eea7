-- ===== src/Pallet/Unsigned.antt =====
-- `ValidateUnsigned` of pallet/src/lib.rs: which unsigned transactions the pool and a block take.
use validated_streams.Base.{
  ◌≡◌, refl, ◌⊎◌, ◌≢◌, Bool, true, false, List, [], ◌∷◌, Option, String, Result, ok, err, ℕ,
  if◌then◌else◌, arith, Bool-cases, inl, inr,
}
use validated_streams.Interfaces.{InvalidTransaction, call, stale}
use validated_streams.Pallet.{ProofsMap, Storage, is_event_valid}
use validated_streams.Pallet.OffChain.{validate_event as dispatch}
use validated_streams.Primitives.{Bytes, H256}

pub data TransactionSource : Type 0 where
  in_block local external : TransactionSource

-- `enum Call`; the macro adds a variant that cannot be built, and `other` stands for it.
pub data Call : Type 0 where
  validate_event : H256 → Option ProofsMap → Call
  other : Call

-- `ValidTransaction` as the builder is called
pub record ValidTransaction : Type 0 where
  pub tag_prefix : String
  pub provides : List Bytes
  pub propagate : Bool

-- `source != Local && source != InBlock`
abbrev pub is_foreign : TransactionSource → Bool
is_foreign in_block = false
is_foreign local = false
is_foreign external = true

module _ {V : Type 0} (encode : Call → Bytes) where
  -- the `match call`
  check_call : Call → Storage V → Result InvalidTransaction ValidTransaction
  check_call (validate_event event_id proofs) s =
      if is_event_valid event_id s
      then err stale
      else ok (record {
        tag_prefix = "validated_streams";
        provides = encode (validate_event event_id proofs) ∷ event_id ∷ [];
        propagate = false;
      })
  check_call other s = err call

  unfoldable pub validate_unsigned :
      TransactionSource → Call → Storage V → Result InvalidTransaction ValidTransaction
  unfolding check_call
  validate_unsigned source c s = if is_foreign source then err call else check_call c s

module _ (encode : Call → Bytes) (source : TransactionSource) (event_id : H256)
    (proofs : Option ProofsMap) (block : ℕ) (s : Storage ℕ) where
  abbrev r : Result InvalidTransaction ValidTransaction
  r = validate_unsigned encode source (validate_event event_id proofs) s

  abbrev taken : ValidTransaction
  taken = record {
    tag_prefix = "validated_streams";
    provides = encode (validate_event event_id proofs) ∷ event_id ∷ [];
    propagate = false;
  }

  -- The transaction is taken, and the dispatch would succeed.
  abbrev pub IsTaken : Type 0
  IsTaken =
      (t : ValidTransaction) × (r ≡ ok t)
      × (source ≢ external)
      × ((dispatch block event_id proofs s).0 ≡ ok tt)
      × (t.propagate ≡ false)
      × (t.provides ≡ encode (validate_event event_id proofs) ∷ event_id ∷ [])

  -- It is refused, as it comes from another node or the dispatch would fail.
  abbrev pub IsRefused : Type 0
  IsRefused =
      (e : InvalidTransaction) × (r ≡ err e)
      × ((source ≡ external) ⊎ ((dispatch block event_id proofs s).0 ≢ ok tt))

  from_here : is_foreign source ≡ false → source ≢ external → IsTaken ⊎ IsRefused
  unfolding validate_unsigned dispatch
  from_here h ne = elim (Bool-cases (is_event_valid event_id s)) [
    | inl old ↦ inr (stale, ground arith, inr (λ good. absurd (ground arith)))
    | inr new ↦ inl (taken, ground arith, ne, ground arith, refl, refl)
  ]

-- With proofs kept off the chain, an unsigned `validate_event` is taken exactly when it does not
-- come from another node and its dispatch at that storage would succeed; and one that is taken is
-- not gossiped on and has the event id among its tags.
pub validate_unsigned_lem :
    (encode : Call → Bytes) (source : TransactionSource) (event_id : H256)
    (proofs : Option ProofsMap) (block : ℕ) (s : Storage ℕ)
    → IsTaken encode source event_id proofs block s
      ⊎ IsRefused encode source event_id proofs block s
unfolding validate_unsigned
validate_unsigned_lem encode external event_id proofs block s = inr (call, refl, inl refl)
validate_unsigned_lem encode in_block event_id proofs block s =
    from_here encode in_block event_id proofs block s refl (λ e. cc)
validate_unsigned_lem encode local event_id proofs block s =
    from_here encode local event_id proofs block s refl (λ e. cc)
