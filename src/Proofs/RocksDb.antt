-- ===== src/Proofs/RocksDb.antt =====
-- consensus/src/proofs/rocksdb.rs: event proofs in a RocksDB database, under keys that are the event
-- id followed by the serialized public key.
pub mod Keys
pub mod Calls
pub mod Purge
pub mod Lawful
use validated_streams.Base.{
  ℕ, ◌%◌, ◌^◌, List, [], ◌∷◌, ◌++◌, Bool, true, false, Option, none, some, String, Result, ok, err,
  length, count, drop, ltb,
}
use validated_streams.Base.Action.{Action}
use validated_streams.Base.HashMap.{HashMap, insert}
use validated_streams.Base.Results.{◌>>=◌}
use validated_streams.Errors.{Error, Failure, fails, panics, other, from_bincode, from_rocksdb}
use validated_streams.Primitives.{
  Bytes, H256, CryptoTypePublicPair, CryptoTypePublicPair-discrete, WitnessedEvent, Bincode,
}
use validated_streams.Proofs.{EventProofs, as_error}
use validated_streams.Proofs.Contract.{is_validator}

-- What the store calls on `rocksdb::DB`. The iterator reads the database as it was at the call.
pub record RocksDb (Db : Type 0) : Type 0 where
  pub put : Bytes → Bytes → Db → Result String (Unit {0}) × Db
  pub delete : Bytes → Db → Result String (Unit {0}) × Db
  pub multi_get : List Bytes → Db → List (Result String (Option Bytes))
  pub prefix_iterator : Bytes → Db → List (Result String (Bytes × Bytes))

-- `matches!(r, Ok(Some(_)))`
abbrev pub is_found : Result String (Option Bytes) → Bool
is_found (ok (some _)) = true
is_found (ok none) = false
is_found (err _) = false

-- The `zip`, `flat_map` and `collect`: the first error ends it.
pub collect_proofs :
    HashMap CryptoTypePublicPair Bytes
    → List CryptoTypePublicPair
    → List (Result String (Option Bytes))
    → Result Failure (HashMap CryptoTypePublicPair Bytes)
collect_proofs acc [] values = ok acc
collect_proofs acc (v ∷ vs) [] = ok acc
collect_proofs acc (v ∷ vs) (ok (some signature) ∷ values) =
    collect_proofs (insert CryptoTypePublicPair-discrete acc v signature) vs values
collect_proofs acc (v ∷ vs) (ok none ∷ values) = collect_proofs acc vs values
collect_proofs acc (v ∷ vs) (err e ∷ values) = err (fails (from_rocksdb e))

module _ {Db : Type 0} (R : RocksDb Db) (B : Bincode) where
  pub add_event_proof : WitnessedEvent → Action Failure Db (Unit {0})
  add_event_proof event db = elim (B.serialize_key event.pub_key) [
    | err e ↦ (err (fails (from_bincode e)), db)
    | ok key ↦
        let (r, db') = R.put (event.event_id ++ key) event.signature db in
        elim r [ ok _ ↦ (ok tt, db') | err e ↦ (err (fails (from_rocksdb e)), db') ]
  ]

  -- The keys to look up; `unwrap` panics if one does not serialize.
  pub keys_of : H256 → List CryptoTypePublicPair → Result Failure (List Bytes)
  keys_of event_id [] = ok []
  keys_of event_id (v ∷ vs) = elim (B.serialize_key v) [
    | err _ ↦ err panics
    | ok key ↦ keys_of event_id vs >>= λ keys. ok ((event_id ++ key) ∷ keys)
  ]

  pub get_event_proofs :
      H256 → List CryptoTypePublicPair → Db → Result Failure (HashMap CryptoTypePublicPair Bytes)
  get_event_proofs event_id validators db =
      keys_of event_id validators >>= λ keys. collect_proofs [] validators (R.multi_get keys db)

  pub get_event_proof_count : H256 → List CryptoTypePublicPair → Db → Result Failure ℕ
  get_event_proof_count event_id validators db =
      keys_of event_id validators >>= λ keys. ok (count is_found (R.multi_get keys db) % 2 ^ 16)

  -- The loop over the iterator; `&key[32..]` panics on a shorter key.
  pub purge_items :
      List CryptoTypePublicPair
      → List (Result String (Bytes × Bytes))
      → Action Failure Db (Unit {0})
  purge_items validators [] db = (ok tt, db)
  purge_items validators (err e ∷ items) db = (err (fails (from_rocksdb e)), db)
  purge_items validators (ok (key, _) ∷ items) db = elim (ltb (length key) 32) [
    | true ↦ (err panics, db)
    | false ↦ elim (B.deserialize_key (drop 32 key)) [
      | err e ↦ (err (fails (from_bincode e)), db)
      | ok pub_key ↦ elim (is_validator validators pub_key) [
        | true ↦ purge_items validators items db
        | false ↦
            let (r, db') = R.delete key db in
            elim r [
              | ok _ ↦ purge_items validators items db'
              | err e ↦ (err (fails (from_rocksdb e)), db')
            ]
      ]
    ]
  ]

  pub purge_event_stale_signatures : H256 → List CryptoTypePublicPair → Action Failure Db (Unit {0})
  unfolding purge_items
  purge_event_stale_signatures event_id validators db =
      purge_items validators (R.prefix_iterator event_id db) db

  pub rocks_db : EventProofs Db
  unfolding add_event_proof get_event_proofs get_event_proof_count purge_event_stale_signatures
  rocks_db = record {
    add_event_proof = λ e db. (let (r, db') = add_event_proof e db in (as_error r, db'));
    get_event_proofs = λ id vs db. as_error (get_event_proofs id vs db);
    get_event_proof_count = λ id vs db. as_error (get_event_proof_count id vs db);
    purge_event_stale_signatures =
        λ id vs db. (let (r, db') = purge_event_stale_signatures id vs db in (as_error r, db'));
  }
