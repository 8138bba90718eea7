-- ===== src/Proofs/Offchain/Calls.antt =====
-- What each call of the off-chain store leaves when no other task disturbs it.
use validated_streams.Base.{
  ◌≡◌, ◌≢◌, refl, sym, subst, ap, ◌∙◌, List, [], ◌∷◌, ◌++◌, true, Option, none, some, is_some,
  Result, ok, count, contains, retain, map, ite, if_neg, arith, Option-cases, inl, inr,
  if◌then◌else◌,
}
use validated_streams.Base.HashMap.{HashMap, get, insert, get-insert}
use validated_streams.Errors.{Error, Failure}
use validated_streams.Primitives.{
  Bytes, Bytes-discrete, H256, IsH256, CryptoTypePublicPair, CryptoTypePublicPair-discrete,
  WitnessedEvent, Bincode,
}
use validated_streams.Proofs.Contract.{is_validator}
use validated_streams.Proofs.Offchain.{
  OffchainStorage, offchain_prefix, signers, swap, add_turn, proof_of, collect_proofs, proofs_of,
  purge_turn, purge_event_stale_signatures, off_chain, undisturbed, finished,
}
use validated_streams.Proofs.Offchain.Retain.{retained, retained_ok, retained-keeps}
use validated_streams.Proofs.Offchain.Storage.{IsOffchainStorage, IsListCodec, apart}
use validated_streams.Proofs.Offchain.Turns.{
  signers_of, swap_lem, add_turn_lem, add_event_proof-retry, retry-done,
}
use validated_streams.Proofs.RocksDb.Keys.{IsKeyCodec, key_of}

pub contains-append :
    (l : List CryptoTypePublicPair) (p x : CryptoTypePublicPair)
    → contains CryptoTypePublicPair-discrete (l ++ p ∷ []) x
      ≡ ite (CryptoTypePublicPair-discrete p x) true (contains CryptoTypePublicPair-discrete l x)
contains-append [] p x = refl
contains-append (y ∷ l) p x = ground (arith, contains-append l p x)

module _ {Db : Type 0} (O : OffchainStorage Db) (B : Bincode) (view : Db → Bytes → Option Bytes)
    (lawful : IsOffchainStorage O view) (lists : IsListCodec B) (codec : IsKeyCodec B)
    (nonempty : (pk : CryptoTypePublicPair) → (codec pk).0 ≢ []) where
  abbrev pub stored : Db → H256 → CryptoTypePublicPair → Option Bytes
  stored db id pk = view db (key_of B codec id pk)

  abbrev pub read_signers : H256 → Db → Result Failure (List CryptoTypePublicPair)
  read_signers id db = signers_of O B view lawful lists id db

  -- The list of an event's signers can be read, and has all those whose proofs are stored.
  pub record IsListed (id : H256) (db : Db) : Type 0 where
    pub list : List CryptoTypePublicPair
    pub reads : read_signers id db ≡ ok list
    pub covers :
        (pk : CryptoTypePublicPair) (v : Bytes)
        → stored db id pk ≡ some v
        → contains CryptoTypePublicPair-discrete list pk ≡ true

  abbrev pub IsUsable : Db → Type 0
  IsUsable db = (id : H256) → IsH256 id → IsListed id db

  -- What a call that succeeds leaves: a new list for the event, and all else as given.
  pub record Leaves (id : H256) (l : List CryptoTypePublicPair) (rest : Bytes → Option Bytes)
      (r : Result Error (Unit {0}) × Db) : Type 0 where
    pub returns : r.0 ≡ ok tt
    pub new_list : read_signers id r.1 ≡ ok l
    pub others : (j : Bytes) → id ≢ j → view r.1 j ≡ rest j

  abbrev pub written : WitnessedEvent → Db → Bytes → Option Bytes
  written e db j =
      ite (Bytes-discrete (key_of B codec e.event_id e.pub_key) j) (some e.signature) (view db j)

  pub add_run :
      (e : WitnessedEvent) (db : Db) (h : IsH256 e.event_id) (u : IsUsable db)
      → Leaves e.event_id
          ((u e.event_id h).list ++ e.pub_key ∷ [])
          (written e db)
          ((off_chain O B).add_event_proof e db)
  unfolding off_chain
  add_run e db h u =
      let (b, serialized, _) = codec e.pub_key in
      let db1 = O.set offchain_prefix (e.event_id ++ b) e.signature db in
      let l = (u e.event_id h).list in
      let read : read_signers e.event_id db1 ≡ ok l =
        ap (signers O B) (
          lawful.view-set (e.event_id ++ b) e.signature db e.event_id
          ∙ if_neg (Bytes-discrete (e.event_id ++ b) e.event_id)
              (λ same. apart B codec nonempty e.event_id e.event_id e.pub_key h h (sym same)) _ _)
        ∙ (u e.event_id h).reads in
      elim (add_turn_lem O B view lawful lists e l (λ d. d) db1 read) [
        | inr (disturbed, _) ↦ absurd (disturbed refl)
        | inl (after, done, _, added, kept) ↦
            subst (λ r. Leaves e.event_id (l ++ e.pub_key ∷ []) (written e db) (finished r.0, r.1))
              (sym (
                add_event_proof-retry O B view lawful lists e b undisturbed db serialized
                ∙ retry-done (add_turn O B e) (λ d. d) [] db1 after done))
              (record {
                returns = refl;
                new_list = added;
                others = λ j ne. kept j ne ∙ lawful.view-set (e.event_id ++ b) e.signature db j;
              })
      ]

  module _ (id : H256) (vs : List CryptoTypePublicPair) where
    abbrev pub kept_by : List CryptoTypePublicPair → Db → Db
    kept_by l db = retained O B view lawful codec id vs l db

    purge_turn-swap :
        (l : List CryptoTypePublicPair) (db : Db)
        → read_signers id db ≡ ok l
        → purge_turn O B id vs (λ d. d) db
          ≡ swap O B id (view db id) (retain (is_validator vs) l) (λ d. d) (kept_by l db)
    unfolding purge_turn retained
    purge_turn-swap l db read =
        ground (arith, lawful.get_reads id db, read, retained_ok O B view lawful codec id vs l db)

    -- The proofs that a purge can remove are not under the event id.
    pub kept_by-keeps :
        (h : IsH256 id) (l : List CryptoTypePublicPair) (db : Db)
        → view (kept_by l db) id ≡ view db id
    kept_by-keeps h l db =
        retained-keeps O B view lawful codec id vs l db id
          (λ p stale same. apart B codec nonempty id id p h h (sym same))

    pub purge_run :
        (db : Db) (h : IsH256 id) (u : IsUsable db)
        → Leaves id
            (retain (is_validator vs) (u id h).list)
            (view (kept_by (u id h).list db))
            ((off_chain O B).purge_event_stale_signatures id vs db)
    unfolding off_chain purge_event_stale_signatures
    purge_run db h u =
        let l = (u id h).list in
        let now = kept_by l db in
        elim (swap_lem O B view lawful lists id (retain (is_validator vs) l) (λ d. d) db now) [
          | inr (disturbed, _) ↦ absurd (disturbed (kept_by-keeps h l db))
          | inl (after, done, _, added, kept) ↦
              subst (λ r. Leaves id (retain (is_validator vs) l) (view now) (finished r.0, r.1))
                (sym (
                  retry-done (purge_turn O B id vs) (λ d. d) [] db after
                    (purge_turn-swap l db (u id h).reads ∙ done)))
                (record { returns = refl; new_list = added; others = kept })
        ]

  proof_of_lem :
      (id : H256) (pk : CryptoTypePublicPair) (db : Db)
      → proof_of O B id pk db ≡ ok (stored db id pk)
  unfolding proof_of
  proof_of_lem id pk db =
      let (b, written, _) = codec pk in
      ground (arith, written, lawful.get_reads (key_of B codec id pk) db)

  abbrev pub or_else : Option Bytes → Option Bytes → Option Bytes
  or_else (some a) b = some a
  or_else none b = b

  pub collect_proofs_lem :
      (id : H256) (db : Db) (vs : List CryptoTypePublicPair)
      (acc : HashMap CryptoTypePublicPair Bytes)
      → (m : HashMap CryptoTypePublicPair Bytes) × (collect_proofs O B acc id vs db ≡ ok m)
        × ((pk : CryptoTypePublicPair)
            → get CryptoTypePublicPair-discrete m pk ≡ (
                if is_validator vs pk
                then or_else (stored db id pk) (get CryptoTypePublicPair-discrete acc pk)
                else get CryptoTypePublicPair-discrete acc pk))
  unfolding collect_proofs
  collect_proofs_lem id db [] acc = (acc, refl, λ pk. refl)
  collect_proofs_lem id db (v ∷ vs) acc = elim (Option-cases (stored db id v)) [
    | inl absent ↦
        let (m, done, reads) = collect_proofs_lem id db vs acc in
        (
          m,
          ground (arith, proof_of_lem id v db, absent, done),
          λ pk. ground (arith, reads pk, absent),
        )
    | inr (signature, there) ↦
        let (m, done, reads) =
          collect_proofs_lem id db vs (insert CryptoTypePublicPair-discrete acc v signature) in
        (
          m,
          ground (arith, proof_of_lem id v db, there, done),
          λ pk.
              ground (
                arith,
                reads pk,
                there,
                get-insert CryptoTypePublicPair-discrete acc v signature pk,
              ),
        )
  ]

  pub proofs_of_lem :
      (id : H256) (db : Db) (vs : List CryptoTypePublicPair)
      → proofs_of O B id vs db ≡ ok (map (stored db id) vs)
  unfolding proofs_of
  proofs_of_lem id db [] = refl
  proofs_of_lem id db (v ∷ vs) = rw (proof_of_lem id v db, proofs_of_lem id db vs)

  pub count-map :
      (f : CryptoTypePublicPair → Option Bytes) (vs : List CryptoTypePublicPair)
      → count is_some (map f vs) ≡ count (λ pk. is_some (f pk)) vs
  count-map f [] = refl
  count-map f (v ∷ vs) = ground (arith, count-map f vs)
