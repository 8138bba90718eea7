-- ===== src/Proofs/RocksDb/Purge.antt =====
-- The loop of `purge_event_stale_signatures` over the entries that the iterator lists.
use validated_streams.Base.{
  ◌≡◌, refl, sym, ap, ◌∙◌, List, [], ◌∷◌, true, false, Option, none, ok, contains, All, map, ite,
  arith, Bool-cases, inl, inr, if◌then◌else◌,
}
use validated_streams.Base.HashMap.{HashMap, keys}
use validated_streams.Primitives.{
  Bytes, Bytes-discrete, H256, IsH256, CryptoTypePublicPair, Bincode,
}
use validated_streams.Proofs.Contract.{is_validator}
use validated_streams.Proofs.RocksDb.{RocksDb, purge_items}
use validated_streams.Proofs.RocksDb.Keys.{
  IsRocksDb, IsKeyCodec, key_of, drop-key_of, long_enough, key_of_injective,
}

module _ {Db : Type 0} (R : RocksDb Db) (B : Bincode) (IsFaultless : Db → Type 0)
    (view : Db → Bytes → Option Bytes) (lawful : IsRocksDb R IsFaultless view)
    (codec : IsKeyCodec B) (vs : List CryptoTypePublicPair) where
  -- The key of an entry is that of a proof.
  abbrev pub IsProofKey : Bytes → Type 0
  IsProofKey k = (id : H256) × (pk : CryptoTypePublicPair) × IsH256 id × (k ≡ key_of B codec id pk)

  unfoldable pub purged : HashMap Bytes Bytes → Db → Db
  purged items db = (purge_items R B vs (map ok items) db).1

  abbrev next : CryptoTypePublicPair → Bytes → Db → Db
  next pk k db = if is_validator vs pk then db else (R.delete k db).1

  -- One turn keeps the entry of a validator and deletes any other.
  step :
      (k v : Bytes) (items : HashMap Bytes Bytes) (db : Db) (id : H256) (pk : CryptoTypePublicPair)
      → IsFaultless db
      → IsH256 id
      → k ≡ key_of B codec id pk
      → purge_items R B vs (map ok ((k, v) ∷ items)) db
        ≡ purge_items R B vs (map ok items) (next pk k db)
  unfolding purge_items
  step k v items db id pk faultless h e =
      let (b, written, read) = codec pk in
      rw e (
        ground (
          arith,
          long_enough B codec id pk h,
          drop-key_of B codec id pk h,
          read,
          (lawful.delete_ok (key_of B codec id pk) db faultless).0,
        ))

  purged-nil : (db : Db) → purged [] db ≡ db
  unfolding purged purge_items
  purged-nil db = refl

  purged-cons :
      (k v : Bytes) (items : HashMap Bytes Bytes) (db : Db) (id : H256) (pk : CryptoTypePublicPair)
      → IsFaultless db
      → IsH256 id
      → k ≡ key_of B codec id pk
      → purged ((k, v) ∷ items) db ≡ purged items (next pk k db)
  unfolding purged
  purged-cons k v items db id pk faultless h e =
      ap (λ r. r.1) (step k v items db id pk faultless h e)

  stopped : (db : Db) → (purge_items R B vs (map ok []) db).0 ≡ ok tt
  unfolding purge_items
  stopped db = refl

  next-IsFaultless :
      (k : Bytes) (db : Db) (pk : CryptoTypePublicPair)
      → IsFaultless db
      → IsFaultless (next pk k db)
  next-IsFaultless k db pk faultless = elim (Bool-cases (is_validator vs pk)) [
    | inl v ↦ rw v faultless
    | inr v ↦ rw v ((lawful.delete_ok k db faultless).1)
  ]

  view-next :
      (k : Bytes) (db : Db) (pk : CryptoTypePublicPair) (j : Bytes)
      → IsFaultless db
      → view (next pk k db) j
        ≡ (if is_validator vs pk then view db j else ite (Bytes-discrete k j) none (view db j))
  view-next k db pk j faultless = ground (arith, lawful.view-delete k db j faultless)

  pub purged_ok :
      (items : HashMap Bytes Bytes) (db : Db)
      → IsFaultless db
      → All (λ i. IsProofKey i.0) items
      → (purge_items R B vs (map ok items) db).0 ≡ ok tt
  purged_ok [] db faultless h = stopped db
  purged_ok ((k, v) ∷ items) db faultless ((id, pk, hash, e), hs) =
      ap (λ r. r.0) (step k v items db id pk faultless hash e)
      ∙ purged_ok items (next pk k db) (next-IsFaultless k db pk faultless) hs

  pub purged-IsFaultless :
      (items : HashMap Bytes Bytes) (db : Db)
      → IsFaultless db
      → All (λ i. IsProofKey i.0) items
      → IsFaultless (purged items db)
  purged-IsFaultless [] db faultless h = rw (purged-nil db) faultless
  purged-IsFaultless ((k, v) ∷ items) db faultless ((id, pk, hash, e), hs) =
      rw (purged-cons k v items db id pk faultless hash e)
        (purged-IsFaultless items (next pk k db) (next-IsFaultless k db pk faultless) hs)

  -- Nothing new is stored.
  pub purged-none :
      (items : HashMap Bytes Bytes) (db : Db) (j : Bytes)
      → IsFaultless db
      → All (λ i. IsProofKey i.0) items
      → view db j ≡ none
      → view (purged items db) j ≡ none
  purged-none [] db j faultless h free = rw (purged-nil db) free
  purged-none ((k, v) ∷ items) db j faultless ((id, pk, hash, e), hs) free =
      rw (purged-cons k v items db id pk faultless hash e) (
        purged-none items (next pk k db) j (next-IsFaultless k db pk faultless) hs
          (ground (arith, view-next k db pk j faultless, free)))

  -- The proofs of validators stay, of whatever event.
  pub purged-keeps :
      (items : HashMap Bytes Bytes) (db : Db) (id : H256) (pk : CryptoTypePublicPair)
      → IsFaultless db
      → All (λ i. IsProofKey i.0) items
      → IsH256 id
      → is_validator vs pk ≡ true
      → view (purged items db) (key_of B codec id pk) ≡ view db (key_of B codec id pk)
  purged-keeps [] db id pk faultless h hash valid = rw (purged-nil db)
  purged-keeps ((k, v) ∷ items) db id pk faultless ((j, q, hj, e), hs) hash valid =
      rw (purged-cons k v items db j q faultless hj e) (
        purged-keeps items (next q k db) id pk (next-IsFaultless k db q faultless) hs hash valid
        ∙ ground (
          arith,
          view-next k db q (key_of B codec id pk) faultless,
          key_of_injective B codec j id q pk hj hash,
          e,
          valid,
        ))

  -- The proofs of others go, if the iterator lists them.
  pub purged-drops :
      (items : HashMap Bytes Bytes) (db : Db) (id : H256) (pk : CryptoTypePublicPair)
      → IsFaultless db
      → All (λ i. IsProofKey i.0) items
      → IsH256 id
      → is_validator vs pk ≡ false
      → contains Bytes-discrete (keys items) (key_of B codec id pk) ≡ true
      → view (purged items db) (key_of B codec id pk) ≡ none
  purged-drops [] db id pk faultless h hash stale listed = cc
  purged-drops ((k, v) ∷ items) db id pk faultless ((j, q, hj, e), hs) hash stale listed =
      rw (purged-cons k v items db j q faultless hj e)
        (elim (Bytes-discrete k (key_of B codec id pk)) [
          | yes same ↦
              let (_, signer) = key_of_injective B codec j id q pk hj hash (sym e ∙ same) in
              purged-none items (next q k db) (key_of B codec id pk)
                (next-IsFaultless k db q faultless) hs
                (ground
                  (arith, view-next k db q (key_of B codec id pk) faultless, signer, stale, same))
          | no differ ↦
              purged-drops items (next q k db) id pk (next-IsFaultless k db q faultless) hs hash
                stale (ground (arith, listed, differ))
        ])

  -- What the iterator does not list stays.
  pub purged-unlisted :
      (items : HashMap Bytes Bytes) (db : Db) (j : Bytes)
      → IsFaultless db
      → All (λ i. IsProofKey i.0) items
      → contains Bytes-discrete (keys items) j ≡ false
      → view (purged items db) j ≡ view db j
  purged-unlisted [] db j faultless h unlisted = rw (purged-nil db)
  purged-unlisted ((k, v) ∷ items) db j faultless ((id, pk, hash, e), hs) unlisted =
      rw (purged-cons k v items db id pk faultless hash e) (
        purged-unlisted items (next pk k db) j (next-IsFaultless k db pk faultless) hs
          (ground (arith, unlisted))
        ∙ ground (arith, view-next k db pk j faultless, unlisted))
