-- ===== src/Proofs/RocksDb/Calls.antt =====
-- What the calls of the RocksDB store but the purge leave and return.
use validated_streams.Base.{
  ◌%◌, ◌^◌, ◌≡◌, refl, sym, List, [], ◌∷◌, Option, none, some, is_some, String, Result, ok, count,
  map, ite, arith, Option-cases, inl, inr, if◌then◌else◌,
}
use validated_streams.Base.HashMap.{HashMap, get, insert, get-insert}
use validated_streams.Primitives.{
  Bytes, Bytes-discrete, H256, IsH256, CryptoTypePublicPair, CryptoTypePublicPair-discrete,
  WitnessedEvent, Bincode,
}
use validated_streams.Proofs.{as_error}
use validated_streams.Proofs.Contract.{is_validator}
use validated_streams.Proofs.RocksDb.{
  RocksDb, is_found, collect_proofs, add_event_proof, keys_of, get_event_proofs,
  get_event_proof_count,
}
use validated_streams.Proofs.RocksDb.Keys.{IsRocksDb, IsKeyCodec, key_of}

module _ {Db : Type 0} (R : RocksDb Db) (B : Bincode) (IsFaultless : Db → Type 0)
    (view : Db → Bytes → Option Bytes) (lawful : IsRocksDb R IsFaultless view)
    (codec : IsKeyCodec B) where
  abbrev pub stored : Db → H256 → CryptoTypePublicPair → Option Bytes
  stored db id pk = view db (key_of B codec id pk)

  -- No call of the database fails, and it holds nothing but proofs.
  pub record IsUsable (db : Db) : Type 0 where
    pub faultless : IsFaultless db
    pub proofs_only :
        (k v : Bytes)
        → view db k ≡ some v
        → (id : H256) × (pk : CryptoTypePublicPair) × IsH256 id × (k ≡ key_of B codec id pk)

  pub written : WitnessedEvent → Db → Db
  written e db = (R.put (key_of B codec e.event_id e.pub_key) e.signature db).1

  pub add_run :
      (e : WitnessedEvent) (db : Db)
      → IsFaultless db
      → add_event_proof R B e db ≡ (ok tt, written e db)
  unfolding add_event_proof written
  add_run e db faultless =
      let (b, serialized, _) = codec e.pub_key in
      ground (
        arith,
        serialized,
        (lawful.put_ok (key_of B codec e.event_id e.pub_key) e.signature db faultless).0,
      )

  pub view-written :
      (e : WitnessedEvent) (db : Db) (j : Bytes)
      → IsFaultless db
      → view (written e db) j
        ≡ ite
            (Bytes-discrete (key_of B codec e.event_id e.pub_key) j)
            (some e.signature)
            (view db j)
  unfolding written
  view-written e db j faultless =
      lawful.view-put (key_of B codec e.event_id e.pub_key) e.signature db j faultless

  pub written-IsUsable :
      (e : WitnessedEvent) (db : Db) → IsH256 e.event_id → IsUsable db → IsUsable (written e db)
  unfolding written
  written-IsUsable e db h u = record {
    faultless = (lawful.put_ok (key_of B codec e.event_id e.pub_key) e.signature db u.faultless).1;
    proofs_only = λ k v there. elim (Bytes-discrete (key_of B codec e.event_id e.pub_key) k) [
      | yes same ↦ (e.event_id, e.pub_key, h, sym same)
      | no differ ↦
          u.proofs_only k v (ground (arith, view-written e db k u.faultless, there, differ))
    ];
  }

  keys_of_lem :
      (id : H256) (vs : List CryptoTypePublicPair)
      → keys_of R B id vs ≡ ok (map (key_of B codec id) vs)
  unfolding keys_of
  keys_of_lem id [] = refl
  keys_of_lem id (v ∷ vs) =
      let (b, serialized, _) = codec v in ground (arith, serialized, keys_of_lem id vs)

  -- What the database answers for the validators.
  abbrev answers : H256 → List CryptoTypePublicPair → Db → List (Result String (Option Bytes))
  answers id vs db = map (λ k. ok (view db k)) (map (key_of B codec id) vs)

  abbrev or_else : Option Bytes → Option Bytes → Option Bytes
  or_else (some a) b = some a
  or_else none b = b

  collect_proofs_lem :
      (id : H256) (db : Db) (vs : List CryptoTypePublicPair)
      (acc : HashMap CryptoTypePublicPair Bytes)
      → (m : HashMap CryptoTypePublicPair Bytes) × (collect_proofs acc vs (answers id vs db) ≡ ok m)
        × ((pk : CryptoTypePublicPair)
            → get CryptoTypePublicPair-discrete m pk ≡ (
                if is_validator vs pk
                then or_else (stored db id pk) (get CryptoTypePublicPair-discrete acc pk)
                else get CryptoTypePublicPair-discrete acc pk))
  unfolding collect_proofs
  collect_proofs_lem id db [] acc = (acc, refl, λ pk. refl)
  collect_proofs_lem id db (v ∷ vs) acc = elim (Option-cases (view db (key_of B codec id v))) [
    | inl absent ↦
        let (m, done, reads) = collect_proofs_lem id db vs acc in
        (m, rw absent done, λ pk. ground (arith, reads pk, absent))
    | inr (signature, there) ↦
        let (m, done, reads) =
          collect_proofs_lem id db vs (insert CryptoTypePublicPair-discrete acc v signature) in
        (
          m,
          rw there done,
          λ pk.
              ground (
                arith,
                reads pk,
                there,
                get-insert CryptoTypePublicPair-discrete acc v signature pk,
              ),
        )
  ]

  count-answers :
      (id : H256) (db : Db) (vs : List CryptoTypePublicPair)
      → count is_found (answers id vs db) ≡ count (λ pk. is_some (stored db id pk)) vs
  count-answers id db [] = refl
  count-answers id db (v ∷ vs) = ground (arith, count-answers id db vs)

  module _ (id : H256) (vs : List CryptoTypePublicPair) (db : Db) (u : IsUsable db) where
    pub get_event_proofs_lem :
        (m : HashMap CryptoTypePublicPair Bytes) × (as_error (get_event_proofs R B id vs db) ≡ ok m)
        × ((pk : CryptoTypePublicPair)
            → get CryptoTypePublicPair-discrete m pk
              ≡ (if is_validator vs pk then stored db id pk else none))
    unfolding get_event_proofs
    get_event_proofs_lem =
        let (m, done, reads) = collect_proofs_lem id db vs [] in
        (
          m,
          rw (
            keys_of_lem id vs,
            lawful.multi_get_ok (map (key_of B codec id) vs) db u.faultless,
            done,
          ),
          λ pk. ground (arith, reads pk),
        )

    pub get_event_proof_count_lem :
        as_error (get_event_proof_count R B id vs db)
        ≡ ok (count (λ pk. is_some (stored db id pk)) vs % 2 ^ 16)
    unfolding get_event_proof_count
    get_event_proof_count_lem = rw (
      keys_of_lem id vs,
      lawful.multi_get_ok (map (key_of B codec id) vs) db u.faultless,
      count-answers id db vs,
    )
