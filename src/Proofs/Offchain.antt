-- ===== src/Proofs/Offchain.antt =====
-- consensus/src/proofs/offchain.rs: event proofs in the off-chain storage of the node. Beside each
-- proof there is, under the event id, the list of the event's signers.
pub mod Storage
pub mod Turns
pub mod Retain
pub mod Calls
pub mod Lawful
pub mod PurgeTurns
use validated_streams.Base.{
  ℕ, ◌%◌, ◌^◌, List, [], ◌∷◌, ◌++◌, Bool, true, false, Option, none, some, String, Result, ok, err,
  map_err, count, is_some,
}
use validated_streams.Base.Action.{Action}
use validated_streams.Base.HashMap.{HashMap, insert}
use validated_streams.Base.Results.{◌>>=◌}
use validated_streams.Errors.{Error, Failure, fails, panics, other, from_bincode}
use validated_streams.Primitives.{
  Bytes, H256, CryptoTypePublicPair, CryptoTypePublicPair-discrete, WitnessedEvent, Bincode,
}
use validated_streams.Proofs.{EventProofs, as_error}
use validated_streams.Proofs.Contract.{is_validator}

-- `sp_core::offchain::OffchainStorage`: each call has a prefix and a key.
pub record OffchainStorage (Db : Type 0) : Type 0 where
  pub set : Bytes → Bytes → Bytes → Db → Db
  pub remove : Bytes → Bytes → Db → Db
  pub get : Bytes → Bytes → Db → Option Bytes
  pub compare_and_set : Bytes → Bytes → Option Bytes → Bytes → Db → Bool × Db

-- `b"EventProofs"`
abbrev pub offchain_prefix : Bytes
offchain_prefix = b'E' ∷ b'v' ∷ b'e' ∷ b'n' ∷ b't' ∷ b'P' ∷ b'r' ∷ b'o' ∷ b'o' ∷ b'f' ∷ b's' ∷ []

-- A loop that other tasks may disturb: a turn that returns false is tried again. Each element is
-- what the others do in a turn; `none` if the loop still runs after these.
abbrev pub retry :
    {Db : Type 0}
    → ((Db → Db) → Action Failure Db Bool)
    → List (Db → Db)
    → Db
    → Option (Result Failure (Unit {0})) × Db
retry turn [] db = (none, db)
retry turn (others ∷ turns) db =
    let (r, db') = turn others db in
    elim r [
      | err e ↦ (some (err e), db')
      | ok true ↦ (some (ok tt), db')
      | ok false ↦ retry turn turns db'
    ]

-- The loop as a call sees it that no other task disturbs: one turn, in which nothing else happens.
-- A loop that does not end in it gives an error here.
abbrev pub undisturbed : {Db : Type 0} → List (Db → Db)
undisturbed = (λ db. db) ∷ []

abbrev pub finished : Option (Result Failure (Unit {0})) → Result Error (Unit {0})
finished none = err (other "the loop still runs")
finished (some r) = as_error r

module _ {Db : Type 0} (O : OffchainStorage Db) (B : Bincode) where
  -- The list that is stored, empty if there is none.
  unfoldable pub signers : Option Bytes → Result Failure (List CryptoTypePublicPair)
  signers none = ok []
  signers (some b) = map_err (λ e. fails (from_bincode e)) (B.deserialize_keys b)

  -- The `compare_and_set` at the end of a turn, after what the others have done.
  pub swap : H256 → Option Bytes → List CryptoTypePublicPair → (Db → Db) → Action Failure Db Bool
  swap event_id existing_bytes signers_list others db = elim (B.serialize_keys signers_list) [
    | err e ↦ (err (fails (from_bincode e)), db)
    | ok b ↦
        let (swapped, db') =
          O.compare_and_set offchain_prefix event_id existing_bytes b (others db) in
        (ok swapped, db')
  ]

  pub add_turn : WitnessedEvent → (Db → Db) → Action Failure Db Bool
  add_turn event others db =
      let existing_bytes = O.get offchain_prefix event.event_id db in
      elim (signers existing_bytes) [
        | err e ↦ (err e, db)
        | ok l ↦ swap event.event_id existing_bytes (l ++ event.pub_key ∷ []) others db
      ]

  pub add_event_proof :
      List (Db → Db) → WitnessedEvent → Db → Option (Result Failure (Unit {0})) × Db
  add_event_proof turns event db = elim (B.serialize_key event.pub_key) [
    | err e ↦ (some (err (fails (from_bincode e))), db)
    | ok key ↦
        retry (add_turn event) turns
          (O.set offchain_prefix (event.event_id ++ key) event.signature db)
  ]

  -- the proof of a validator; `unwrap` panics if its key does not serialize
  pub proof_of : H256 → CryptoTypePublicPair → Db → Result Failure (Option Bytes)
  proof_of event_id pub_key db = elim (B.serialize_key pub_key) [
    | err _ ↦ err panics
    | ok key ↦ ok (O.get offchain_prefix (event_id ++ key) db)
  ]

  -- `flat_map` and `collect`
  pub collect_proofs :
      HashMap CryptoTypePublicPair Bytes
      → H256
      → List CryptoTypePublicPair
      → Db
      → Result Failure (HashMap CryptoTypePublicPair Bytes)
  collect_proofs acc event_id [] db = ok acc
  collect_proofs acc event_id (v ∷ vs) db = elim (proof_of event_id v db) [
    | err e ↦ err e
    | ok none ↦ collect_proofs acc event_id vs db
    | ok (some signature) ↦
        collect_proofs (insert CryptoTypePublicPair-discrete acc v signature) event_id vs db
  ]

  pub get_event_proofs :
      H256 → List CryptoTypePublicPair → Db → Result Failure (HashMap CryptoTypePublicPair Bytes)
  get_event_proofs = collect_proofs []

  -- the proofs of the validators, to be filtered and counted
  pub proofs_of : H256 → List CryptoTypePublicPair → Db → Result Failure (List (Option Bytes))
  proofs_of event_id [] db = ok []
  proofs_of event_id (v ∷ vs) db =
      proof_of event_id v db >>= λ r. proofs_of event_id vs db >>= λ rs. ok (r ∷ rs)

  pub get_event_proof_count : H256 → List CryptoTypePublicPair → Db → Result Failure ℕ
  get_event_proof_count event_id validators db =
      proofs_of event_id validators db >>= λ rs. ok (count is_some rs % 2 ^ 16)

  -- The `retain`, which removes the proofs of those that it drops.
  pub retain_validators :
      H256
      → List CryptoTypePublicPair
      → List CryptoTypePublicPair
      → Action Failure Db (List CryptoTypePublicPair)
  retain_validators event_id validators [] db = (ok [], db)
  retain_validators event_id validators (p ∷ l) db = elim (is_validator validators p) [
    | true ↦
        let (r, db') = retain_validators event_id validators l db in
        elim r [ ok kept ↦ (ok (p ∷ kept), db') | err e ↦ (err e, db') ]
    | false ↦ elim (B.serialize_key p) [
      | err _ ↦ (err panics, db)
      | ok key ↦
          retain_validators event_id validators l (O.remove offchain_prefix (event_id ++ key) db)
    ]
  ]

  pub purge_turn : H256 → List CryptoTypePublicPair → (Db → Db) → Action Failure Db Bool
  purge_turn event_id validators others db =
      let existing_bytes = O.get offchain_prefix event_id db in
      elim (signers existing_bytes) [
        | err e ↦ (err e, db)
        | ok l ↦
            let (r, db') = retain_validators event_id validators l db in
            elim r [ err e ↦ (err e, db') | ok kept ↦ swap event_id existing_bytes kept others db' ]
      ]

  pub purge_event_stale_signatures :
      List (Db → Db)
      → H256
      → List CryptoTypePublicPair
      → Db
      → Option (Result Failure (Unit {0})) × Db
  purge_event_stale_signatures turns event_id validators =
      retry (purge_turn event_id validators) turns

  pub off_chain : EventProofs Db
  off_chain = record {
    add_event_proof =
        λ e db. (let (r, db') = add_event_proof undisturbed e db in (finished r, db'));
    get_event_proofs = λ id vs db. as_error (get_event_proofs id vs db);
    get_event_proof_count = λ id vs db. as_error (get_event_proof_count id vs db);
    purge_event_stale_signatures = λ id vs db.
        (let (r, db') = purge_event_stale_signatures undisturbed id vs db in (finished r, db'));
  }
