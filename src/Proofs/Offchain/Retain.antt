-- ===== src/Proofs/Offchain/Retain.antt =====
-- The `retain` of `purge_event_stale_signatures`, which removes proofs as it goes.
use validated_streams.Base.{
  ◌≡◌, ◌≢◌, refl, ap, ◌∙◌, List, [], ◌∷◌, Bool, true, false, Option, none, ok, contains, retain,
  ite, if_pos, if_neg, arith, Bool-cases, inl, inr,
}
use validated_streams.Primitives.{
  Bytes, Bytes-discrete, H256, CryptoTypePublicPair, CryptoTypePublicPair-discrete, Bincode,
}
use validated_streams.Proofs.Contract.{is_validator}
use validated_streams.Proofs.Offchain.{OffchainStorage, offchain_prefix, retain_validators}
use validated_streams.Proofs.Offchain.Storage.{IsOffchainStorage}
use validated_streams.Proofs.RocksDb.Keys.{IsKeyCodec, key_of}

pub contains-retain :
    (p : CryptoTypePublicPair → Bool) (l : List CryptoTypePublicPair) (x : CryptoTypePublicPair)
    → p x ≡ true
    → contains CryptoTypePublicPair-discrete (retain p l) x
      ≡ contains CryptoTypePublicPair-discrete l x
contains-retain p [] x h = refl
contains-retain p (y ∷ l) x h = ground (arith, contains-retain p l x h)

module _ {Db : Type 0} (O : OffchainStorage Db) (B : Bincode) (view : Db → Bytes → Option Bytes)
    (lawful : IsOffchainStorage O view) (codec : IsKeyCodec B) (id : H256)
    (vs : List CryptoTypePublicPair) where
  unfoldable pub retained : List CryptoTypePublicPair → Db → Db
  retained l db = (retain_validators O B id vs l db).1

  abbrev removed : CryptoTypePublicPair → Db → Db
  removed p db = O.remove offchain_prefix (key_of B codec id p) db

  retained-nil : (db : Db) → retained [] db ≡ db
  unfolding retained retain_validators
  retained-nil db = refl

  retained-valid :
      (p : CryptoTypePublicPair) (l : List CryptoTypePublicPair) (db : Db)
      → is_validator vs p ≡ true
      → retained (p ∷ l) db ≡ retained l db
  unfolding retained retain_validators
  retained-valid p l db h = ground (arith, h)

  retained-stale :
      (p : CryptoTypePublicPair) (l : List CryptoTypePublicPair) (db : Db)
      → is_validator vs p ≡ false
      → retained (p ∷ l) db ≡ retained l (removed p db)
  unfolding retained retain_validators
  retained-stale p l db h = let (b, written, _) = codec p in ground (arith, h, written)

  pub retained_ok :
      (l : List CryptoTypePublicPair) (db : Db)
      → (retain_validators O B id vs l db).0 ≡ ok (retain (is_validator vs) l)
  unfolding retain_validators
  retained_ok [] db = refl
  retained_ok (p ∷ l) db = elim (Bool-cases (is_validator vs p)) [
    | inl h ↦ ground (arith, h, retained_ok l db)
    | inr h ↦
        let (b, written, _) = codec p in ground (arith, h, written, retained_ok l (removed p db))
  ]

  view-removed :
      (p : CryptoTypePublicPair) (db : Db) (j : Bytes)
      → view (removed p db) j ≡ ite (Bytes-discrete (key_of B codec id p) j) none (view db j)
  view-removed p db j = lawful.view-remove (key_of B codec id p) db j

  -- Only proofs of the event by others than the validators can change.
  pub retained-keeps :
      (l : List CryptoTypePublicPair) (db : Db) (j : Bytes)
      → ((p : CryptoTypePublicPair) → is_validator vs p ≡ false → key_of B codec id p ≢ j)
      → view (retained l db) j ≡ view db j
  retained-keeps [] db j h = rw (retained-nil db)
  retained-keeps (p ∷ l) db j h = elim (Bool-cases (is_validator vs p)) [
    | inl v ↦ rw (retained-valid p l db v) (retained-keeps l db j h)
    | inr v ↦ rw (retained-stale p l db v) (
        retained-keeps l (removed p db) j h
        ∙ view-removed p db j
        ∙ if_neg (Bytes-discrete (key_of B codec id p) j) (h p v) _ _)
  ]

  -- Nothing new is stored.
  pub retained-none :
      (l : List CryptoTypePublicPair) (db : Db) (j : Bytes)
      → view db j ≡ none
      → view (retained l db) j ≡ none
  retained-none [] db j h = rw (retained-nil db) h
  retained-none (p ∷ l) db j h = elim (Bool-cases (is_validator vs p)) [
    | inl v ↦ rw (retained-valid p l db v) (retained-none l db j h)
    | inr v ↦
        rw (retained-stale p l db v)
          (retained-none l (removed p db) j (ground (arith, view-removed p db j, h)))
  ]

  -- The proofs of those in the list that are no validators go.
  pub retained-drops :
      (l : List CryptoTypePublicPair) (db : Db) (pk : CryptoTypePublicPair)
      → is_validator vs pk ≡ false
      → contains CryptoTypePublicPair-discrete l pk ≡ true
      → view (retained l db) (key_of B codec id pk) ≡ none
  retained-drops [] db pk stale listed = cc
  retained-drops (p ∷ l) db pk stale listed = elim (CryptoTypePublicPair-discrete p pk) [
    | yes same ↦ rw (retained-stale p l db (cc)) (
        retained-none l (removed p db) (key_of B codec id pk) (
          view-removed p db (key_of B codec id pk)
          ∙ if_pos (Bytes-discrete (key_of B codec id p) (key_of B codec id pk))
              (ap (key_of B codec id) same) _ _))
    | no differ ↦ elim (Bool-cases (is_validator vs p)) [
      | inl v ↦
          rw (retained-valid p l db v)
            (retained-drops l db pk stale (ground (arith, listed, differ)))
      | inr v ↦
          rw (retained-stale p l db v)
            (retained-drops l (removed p db) pk stale (ground (arith, listed, differ)))
    ]
  ]
