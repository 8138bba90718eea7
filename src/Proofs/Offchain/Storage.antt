-- ===== src/Proofs/Offchain/Storage.antt =====
-- What the off-chain storage and bincode promise, and that the entries of an event are apart.
use validated_streams.Base.{
  ◌≡◌, ◌≢◌, refl, ap, List, [], ◌∷◌, true, false, Option, none, some, ok, length, ite, arith,
  length-append,
}
use validated_streams.Primitives.{
  Bytes, Bytes-discrete, H256, IsH256, CryptoTypePublicPair, Bincode,
}
use validated_streams.Proofs.Offchain.{OffchainStorage, offchain_prefix}
use validated_streams.Proofs.RocksDb.Keys.{IsKeyCodec, key_of}

-- Under the prefix of the store the storage is a finite map; `compare_and_set` writes exactly if
-- the entry is the expected one.
pub record IsOffchainStorage {Db : Type 0} (O : OffchainStorage Db)
    (view : Db → Bytes → Option Bytes) : Type 0 where
  pub get_reads : (k : Bytes) (db : Db) → O.get offchain_prefix k db ≡ view db k
  pub view-set :
      (k v : Bytes) (db : Db) (j : Bytes)
      → view (O.set offchain_prefix k v db) j ≡ ite (Bytes-discrete k j) (some v) (view db j)
  pub view-remove :
      (k : Bytes) (db : Db) (j : Bytes)
      → view (O.remove offchain_prefix k db) j ≡ ite (Bytes-discrete k j) none (view db j)
  pub swaps :
      (k : Bytes) (old : Option Bytes) (new : Bytes) (db : Db)
      → view db k ≡ old
      → (O.compare_and_set offchain_prefix k old new db).0 ≡ true
  pub view-swap :
      (k : Bytes) (old : Option Bytes) (new : Bytes) (db : Db) (j : Bytes)
      → view db k ≡ old
      → view (O.compare_and_set offchain_prefix k old new db).1 j
        ≡ ite (Bytes-discrete k j) (some new) (view db j)
  pub keeps :
      (k : Bytes) (old : Option Bytes) (new : Bytes) (db : Db)
      → view db k ≢ old
      → O.compare_and_set offchain_prefix k old new db ≡ (false, db)

-- Lists of public keys serialize, and read back; and no public key serializes to nothing.
abbrev pub IsListCodec : Bincode → Type 0
IsListCodec B =
    (l : List CryptoTypePublicPair)
    → (b : Bytes) × (B.serialize_keys l ≡ ok b) × (B.deserialize_keys b ≡ ok l)

module _ (B : Bincode) (codec : IsKeyCodec B)
    (nonempty : (pk : CryptoTypePublicPair) → (codec pk).0 ≢ []) where
  -- The list of signers of an event is not under the key of a proof.
  pub apart :
      (id j : H256) (pk : CryptoTypePublicPair) → IsH256 id → IsH256 j → id ≢ key_of B codec j pk
  apart id j pk hi hj same =
      nonempty pk (empty (codec pk).0 (omega (arith, length-append j (codec pk).0, ap length same)))
    where
      empty : (b : Bytes) → length b ≡ 0 → b ≡ []
      empty [] h = refl
      empty (x ∷ b) h = absurd (omega arith)
