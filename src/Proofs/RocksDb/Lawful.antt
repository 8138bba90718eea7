-- ===== src/Proofs/RocksDb/Lawful.antt =====
-- The RocksDB store against the contract of `EventProofsTrait`, while no call of its database fails.
use validated_streams.Base.{
  ◌≡◌, contains, Bool, ◌⊎◌, ◌∙◌, if◌then◌else◌, Bool-cases, refl, ap, List, [], ◌∷◌, true, false,
  Option, none, some, ok, All, arith, Option-cases, inl, inr,
}
use validated_streams.Base.HashMap.{HashMap, keys}
use validated_streams.Primitives.{
  Bytes, Bytes-discrete, H256, IsH256, CryptoTypePublicPair, Bincode, WitnessedEvent,
}
use validated_streams.Proofs.Contract.{IsEventProofs, is_validator, is_of}
use validated_streams.Proofs.RocksDb.{
  RocksDb, add_event_proof, purge_event_stale_signatures, rocks_db,
}
use validated_streams.Proofs.RocksDb.Keys.{IsRocksDb, IsKeyCodec, key_of, ite-key_of}
use validated_streams.Proofs.RocksDb.Purge.{
  IsProofKey, purged, purged_ok, purged-IsFaultless, purged-none, purged-keeps, purged-drops,
  purged-unlisted,
}
use validated_streams.Proofs.RocksDb.Calls.{
  stored, IsUsable, add_run, view-written, written-IsUsable, get_event_proofs_lem,
  get_event_proof_count_lem,
}

module _ {Db : Type 0} (R : RocksDb Db) (B : Bincode) (IsFaultless : Db → Type 0)
    (view : Db → Bytes → Option Bytes) (lawful : IsRocksDb R IsFaultless view)
    (codec : IsKeyCodec B) where
  abbrev Usable : Db → Type 0
  Usable = IsUsable R B IsFaultless view lawful codec

  abbrev proof : Db → H256 → CryptoTypePublicPair → Option Bytes
  proof = stored R B IsFaultless view lawful codec

  module _ (id : H256) (vs : List CryptoTypePublicPair) (db : Db) (u : Usable db) where
    -- What the iterator lists.
    items : HashMap Bytes Bytes
    items = (lawful.prefix_iterator_ok id db u.faultless).0

    listed_keys :
        (l : HashMap Bytes Bytes)
        → All (λ i. view db i.0 ≡ some i.1) l
        → All (λ i. IsProofKey R B IsFaultless view lawful codec vs i.0) l
    listed_keys [] h = tt
    listed_keys ((k, v) ∷ l) (there, h) = (u.proofs_only k v there, listed_keys l h)

    listed : All (λ i. IsProofKey R B IsFaultless view lawful codec vs i.0) items
    unfolding items
    listed =
        let (l, _, there, _) = lawful.prefix_iterator_ok id db u.faultless in listed_keys l there

    after : Db
    unfolding items
    after = purged R B IsFaultless view lawful codec vs items db

    purge_run : purge_event_stale_signatures R B id vs db ≡ (ok tt, after)
    unfolding purge_event_stale_signatures after items purged
    purge_run =
        let (l, same, there, _) = lawful.prefix_iterator_ok id db u.faultless in
        rw same (
          ap (λ r. (r, after))
            (purged_ok R B IsFaultless view lawful codec vs l db u.faultless (listed_keys l there)))

    after-IsUsable : Usable after
    unfolding after
    after-IsUsable = record {
      faultless =
          purged-IsFaultless R B IsFaultless view lawful codec vs items db u.faultless listed;
      proofs_only = λ k v there. elim (Option-cases (view db k)) [
        | inr (w, old) ↦ u.proofs_only k w old
        | inl free ↦ absurd (
            cc (
              purged-none R B IsFaultless view lawful codec vs items db k u.faultless listed free,
              there,
            ))
      ];
    }

    after-keeps :
        (j : H256) (pk : CryptoTypePublicPair)
        → IsH256 j
        → is_validator vs pk ≡ true
        → proof after j pk ≡ proof db j pk
    unfolding after
    after-keeps j pk hash valid =
        purged-keeps R B IsFaultless view lawful codec vs items db j pk u.faultless listed hash
          valid

    -- Whether the iterator lists the proof.
    unfoldable pub is_listed : H256 → CryptoTypePublicPair → Bool
    unfolding items
    is_listed j pk = contains Bytes-discrete (keys items) (key_of B codec j pk)

    after-listed :
        (j : H256) (pk : CryptoTypePublicPair)
        → IsH256 j
        → proof after j pk ≡ (
            if is_validator vs pk
            then proof db j pk
            else if is_listed j pk
            then none
            else proof db j pk)
    unfolding after items is_listed
    after-listed j pk hash = elim (Bool-cases (is_validator vs pk)) [
      | inl valid ↦
          purged-keeps R B IsFaultless view lawful codec vs items db j pk u.faultless listed hash
            valid
          ∙ ground (arith, valid)
      | inr stale ↦ elim (Bool-cases (contains Bytes-discrete (keys items) (key_of B codec j pk))) [
        | inl yes_ ↦
            purged-drops R B IsFaultless view lawful codec vs items db j pk u.faultless listed hash
              stale yes_
            ∙ ground (arith, stale, yes_)
        | inr no_ ↦
            purged-unlisted R B IsFaultless view lawful codec vs items db (key_of B codec j pk)
              u.faultless listed no_
            ∙ ground (arith, stale, no_)
      ]
    ]

    after-drops :
        (pk : CryptoTypePublicPair)
        → IsH256 id
        → is_validator vs pk ≡ false
        → proof after id pk ≡ none
    unfolding after items
    after-drops pk hash stale = elim (Option-cases (proof db id pk)) [
      | inl free ↦
          purged-none R B IsFaultless view lawful codec vs items db (key_of B codec id pk)
            u.faultless listed free
      | inr (v, there) ↦
          let (l, _, _, all_listed) = lawful.prefix_iterator_ok id db u.faultless in
          purged-drops R B IsFaultless view lawful codec vs l db id pk u.faultless listed hash stale
            (all_listed (codec pk).0 v there)
    ]

  written-reads :
      (e : WitnessedEvent) (db : Db) (id : H256) (pk : CryptoTypePublicPair) (v : Bytes)
      → IsH256 e.event_id
      → IsH256 id
      → Usable db
      → proof (add_event_proof R B e db).1 id pk ≡ some v
      → ((is_of e id pk ≡ true) × (v ≡ e.signature)) ⊎ (proof db id pk ≡ some v)
  written-reads e db id pk v h k u there =
      let reads : proof (add_event_proof R B e db).1 id pk
          ≡ (if is_of e id pk then some e.signature else proof db id pk) =
        ap (λ r. proof r.1 id pk) (add_run R B IsFaultless view lawful codec e db u.faultless)
        ∙ view-written R B IsFaultless view lawful codec e db (key_of B codec id pk) u.faultless
        ∙ ite-key_of B codec e id pk (some e.signature) (proof db id pk) h k in
      elim (Bool-cases (is_of e id pk)) [
        | inl here ↦ inl (here, ground (arith, reads, there, here))
        | inr not_here ↦ inr (ground (arith, reads, there, not_here))
      ]

  pub rocks_db-IsEventProofs : IsEventProofs (rocks_db R B) Usable proof
  unfolding rocks_db
  rocks_db-IsEventProofs = record {
    add_ok = λ e db h u.
        rw (add_run R B IsFaultless view lawful codec e db u.faultless)
          (refl, written-IsUsable R B IsFaultless view lawful codec e db h u);
    add_stored = λ e db id pk h k u.
        rw (add_run R B IsFaultless view lawful codec e db u.faultless) (
          rw
            (view-written R B IsFaultless view lawful codec e db (key_of B codec id pk) u.faultless)
            (ground (
              arith,
              ite-key_of B codec e id pk (some e.signature) (view db (key_of B codec id pk)) h k,
            )));
    add_reads = λ e db id pk v h k u there. written-reads e db id pk v h k u there;
    proofs_ok = λ id vs db h u. get_event_proofs_lem R B IsFaultless view lawful codec id vs db u;
    count_ok =
        λ id vs db h d u. get_event_proof_count_lem R B IsFaultless view lawful codec id vs db u;
    purge_ok = λ id vs db h u. rw (purge_run id vs db u) (refl, after-IsUsable id vs db u);
    purge_keeps =
        λ id vs db j pk h k u v. rw (purge_run id vs db u) (after-keeps id vs db u j pk k v);
    purge_drops = λ id vs db pk h u v. rw (purge_run id vs db u) (after-drops id vs db u pk h v);
  }

  -- The contract, and which proofs purging removes: of others than the validators, all those that
  -- the iterator lists, those of other events among them.
  pub record IsRocksDbEventProofs : Type 0 where
    pub keeps_contract : IsEventProofs (rocks_db R B) Usable proof
    pub purge_listed :
        (id : H256) (vs : List CryptoTypePublicPair) (db : Db) (u : Usable db) (j : H256)
        (pk : CryptoTypePublicPair)
        → IsH256 j
        → proof ((rocks_db R B).purge_event_stale_signatures id vs db).1 j pk ≡ (
            if is_validator vs pk
            then proof db j pk
            else if is_listed id vs db u j pk
            then none
            else proof db j pk)

  -- Let no call of the database fail, the database hold nothing but proofs, and public keys
  -- serialize and read back. Then proofs that are added are read back for the validators given and
  -- counted once for each distinct validator, and purging an event removes its proofs by others
  -- than the validators. It also removes the proofs of other events by others than the validators,
  -- exactly those that the iterator runs on to, and no further proof.
  pub rocks_db-IsRocksDbEventProofs : IsRocksDbEventProofs
  unfolding rocks_db
  rocks_db-IsRocksDbEventProofs = record {
    keeps_contract = rocks_db-IsEventProofs;
    purge_listed =
        λ id vs db u j pk hash. rw (purge_run id vs db u) (after-listed id vs db u j pk hash);
  }
