-- ===== src/Proofs/Offchain/PurgeTurns.antt =====
-- The compare-and-set loop of `purge_event_stale_signatures`, disturbed by other tasks.
use validated_streams.Base.{
  ◌≡◌, ◌≢◌, ◌⊎◌, refl, sym, subst, ap, ◌∙◌, List, [], ◌∷◌, ◌++◌, Bool, true, false, Option, some,
  is_some, Result, ok, All, all, retain, arith, inl, inr,
}
use validated_streams.Errors.{Failure}
use validated_streams.Primitives.{Bytes, H256, IsH256, CryptoTypePublicPair, Bincode}
use validated_streams.Proofs.Contract.{is_validator}
use validated_streams.Proofs.Offchain.{
  OffchainStorage, retry, signers, swap, purge_turn, purge_event_stale_signatures,
}
use validated_streams.Proofs.Offchain.Retain.{retained, retained_ok, retained-keeps}
use validated_streams.Proofs.Offchain.Storage.{IsOffchainStorage, IsListCodec, apart}
use validated_streams.Proofs.Offchain.Turns.{signers_of, swap_lem, retry-done, retry-again}
use validated_streams.Proofs.RocksDb.Keys.{IsKeyCodec, key_of, key_of_injective}

all-retain :
    (p : CryptoTypePublicPair → Bool) (l : List CryptoTypePublicPair) → all p (retain p l) ≡ true
all-retain p [] = refl
all-retain p (x ∷ l) = ground (arith, all-retain p l)

module _ {Db : Type 0} (O : OffchainStorage Db) (B : Bincode) (view : Db → Bytes → Option Bytes)
    (lawful : IsOffchainStorage O view) (lists : IsListCodec B) (codec : IsKeyCodec B)
    (nonempty : (pk : CryptoTypePublicPair) → (codec pk).0 ≢ []) (id : H256) (hash : IsH256 id)
    (vs : List CryptoTypePublicPair) where
  abbrev pub kept : List CryptoTypePublicPair → Db → Db
  kept l db = retained O B view lawful codec id vs l db

  -- The removals leave the list of signers alone.
  view-kept : (l : List CryptoTypePublicPair) (db : Db) → view (kept l db) id ≡ view db id
  view-kept l db =
      retained-keeps O B view lawful codec id vs l db id
        (λ p stale same. apart B codec nonempty id id p hash hash (sym same))

  purge_turn-swap :
      (l : List CryptoTypePublicPair) (others : Db → Db) (db : Db)
      → signers_of O B view lawful lists id db ≡ ok l
      → purge_turn O B id vs others db
        ≡ swap O B id (view (kept l db) id) (retain (is_validator vs) l) others (kept l db)
  unfolding purge_turn retained
  purge_turn-swap l others db read = ground (
    arith,
    lawful.get_reads id db,
    read,
    retained_ok O B view lawful codec id vs l db,
    view-kept l db,
  )

  -- A validator, and a proof of an event by it.
  module _ (j : H256) (hash_j : IsH256 j) (pk : CryptoTypePublicPair)
      (valid : is_validator vs pk ≡ true) where
    -- The list of signers can be read, and the proof is there.
    pub record IsProved (db : Db) : Type 0 where
      pub list : List CryptoTypePublicPair
      pub reads : signers_of O B view lawful lists id db ≡ ok list
      pub proof : is_some (view db (key_of B codec j pk)) ≡ true

    abbrev pub KeepsProved : (Db → Db) → Type 0
    KeepsProved others = (db : Db) → IsProved db → IsProved (others db)

    kept-IsProved : (db : Db) (p : IsProved db) → IsProved (kept p.list db)
    kept-IsProved db p = record {
      list = p.list;
      reads = ap (signers O B) (view-kept p.list db) ∙ p.reads;
      proof =
          ap is_some (
            retained-keeps O B view lawful codec id vs p.list db (key_of B codec j pk)
              (λ q stale same.
                let (_, signer) = key_of_injective B codec id j q pk hash hash_j same in
                cc (stale, valid, ap (is_validator vs) signer)))
          ∙ p.proof;
    }

    -- The list of signers holds only validators, and the proof is there.
    pub record IsPurged (db : Db) : Type 0 where
      pub list : List CryptoTypePublicPair
      pub reads : signers_of O B view lawful lists id db ≡ ok list
      pub only_validators : all (is_validator vs) list ≡ true
      pub proof : is_some (view db (key_of B codec j pk)) ≡ true

    -- A turn succeeds, or other tasks have changed the list since it was read.
    purge_turn_lem :
        (others : Db → Db) (db : Db)
        → KeepsProved others
        → IsProved db
        → ((after : Db) × (purge_turn O B id vs others db ≡ (ok true, after)) × IsPurged after)
          ⊎ ((after : Db) × (purge_turn O B id vs others db ≡ (ok false, after))
              × IsProved after
              × ((d : Db) × (view (others d) id ≢ view d id)))
    purge_turn_lem others db keeps p =
        let now = kept p.list db in
        let left = keeps now (kept-IsProved db p) in
        elim (swap_lem O B view lawful lists id (retain (is_validator vs) p.list) others now now) [
          | inl (after, done, _, reads, same) ↦ inl (
            after,
            purge_turn-swap p.list others db p.reads ∙ done,
            record {
              list = retain (is_validator vs) p.list;
              reads = reads;
              only_validators = all-retain (is_validator vs) p.list;
              proof =
                  ap is_some
                    (same (key_of B codec j pk) (apart B codec nonempty id j pk hash hash_j))
                  ∙ left.proof;
            },
          )
          | inr (disturbed, failed) ↦ inr (
            others now,
            purge_turn-swap p.list others db p.reads ∙ failed,
            left,
            (now, disturbed),
          )
        ]

    weaken : (db : Db) → IsPurged db → IsProved db
    weaken db p = record { list = p.list; reads = p.reads; proof = p.proof }

    abbrev pub purged : List (Db → Db) → Db → Option (Result Failure (Unit {0})) × Db
    purged turns db = purge_event_stale_signatures O B turns id vs db

    retry-IsProved :
        (turns : List (Db → Db)) (db : Db)
        → All KeepsProved turns
        → IsProved db
        → IsProved (retry (purge_turn O B id vs) turns db).1
    retry-IsProved [] db h p = p
    retry-IsProved (f ∷ fs) db (h, hs) p = elim (purge_turn_lem f db h p) [
      | inl (after, done, clean) ↦
          subst (λ r. IsProved r.1) (sym (retry-done (purge_turn O B id vs) f fs db after done))
            (weaken after clean)
      | inr (after, again, still, _) ↦
          subst (λ r. IsProved r.1) (sym (retry-again (purge_turn O B id vs) f fs db after again))
            (retry-IsProved fs after hs still)
    ]

    abbrev pub IsDone : Option (Result Failure (Unit {0})) × Db → Type 0
    IsDone r = (r.0 ≡ some (ok tt)) × IsPurged r.1

    retry-IsDone :
        (before : List (Db → Db)) (others : Db → Db) (after : List (Db → Db)) (db : Db)
        → All KeepsProved before
        → KeepsProved others
        → ((d : Db) → view (others d) id ≡ view d id)
        → IsProved db
        → IsDone (retry (purge_turn O B id vs) (before ++ others ∷ after) db)
    retry-IsDone [] others after db h k quiet p = elim (purge_turn_lem others db k p) [
      | inl (new, done, clean) ↦
          subst IsDone (sym (retry-done (purge_turn O B id vs) others after db new done))
            (refl, clean)
      | inr (_, _, _, (d, disturbed)) ↦ absurd (disturbed (quiet d))
    ]
    retry-IsDone (f ∷ before) others after db (h, hs) k quiet p = elim (purge_turn_lem f db h p) [
      | inl (new, done, clean) ↦
          subst IsDone
            (sym (retry-done (purge_turn O B id vs) f (before ++ others ∷ after) db new done))
            (refl, clean)
      | inr (new, again, still, _) ↦
          subst IsDone
            (sym (retry-again (purge_turn O B id vs) f (before ++ others ∷ after) db new again))
            (retry-IsDone before others after new hs k quiet still)
    ]

    -- Let the list of the event's signers be readable, let the proof of some event by a validator
    -- be stored, and let other tasks keep it so, whatever else they change. Then the proof is still
    -- stored after any turns, whether the purge has ended in them or not; and as soon as there is a
    -- turn in which they leave the list alone, the purge has ended without an error, and only
    -- validators are left in the list.
    pub purge_event_stale_signatures_lem :
        (before : List (Db → Db)) (others : Db → Db) (after : List (Db → Db)) (db : Db)
        → All KeepsProved before
        → KeepsProved others
        → ((d : Db) → view (others d) id ≡ view d id)
        → IsProved db
        → (is_some (view (purged before db).1 (key_of B codec j pk)) ≡ true)
          × IsDone (purged (before ++ others ∷ after) db)
    unfolding purge_event_stale_signatures
    purge_event_stale_signatures_lem before others after db h k quiet p =
        ((retry-IsProved before db h p).proof, retry-IsDone before others after db h k quiet p)
