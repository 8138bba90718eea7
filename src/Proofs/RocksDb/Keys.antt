-- ===== src/Proofs/RocksDb/Keys.antt =====
-- The key space of the database: what RocksDB and bincode promise, and that no two proofs share a
-- key.
use validated_streams.Base.{
  ◌≡◌, List, ◌++◌, true, false, Option, none, some, ok, length, contains, All, map, ite,
  append_injective, drop, drop-length-append, arith, ltb, length-append, if◌then◌else◌,
}
use validated_streams.Base.HashMap.{HashMap, keys}
use validated_streams.Primitives.{
  Bytes, Bytes-discrete, H256, IsH256, CryptoTypePublicPair, WitnessedEvent, Bincode,
}
use validated_streams.Proofs.Contract.{is_of}
use validated_streams.Proofs.RocksDb.{RocksDb}

-- A database is a finite map; `IsFaultless` are the states from which no call fails, which a fault
-- of the disk would leave. An iterator lists entries of the database, and all those whose key starts
-- with the prefix; it can run on beyond these.
pub record IsRocksDb {Db : Type 0} (R : RocksDb Db) (IsFaultless : Db → Type 0)
    (view : Db → Bytes → Option Bytes) : Type 0 where
  pub put_ok :
      (k v : Bytes) (db : Db)
      → IsFaultless db
      → ((R.put k v db).0 ≡ ok tt) × IsFaultless (R.put k v db).1
  pub view-put :
      (k v : Bytes) (db : Db) (j : Bytes)
      → IsFaultless db
      → view (R.put k v db).1 j ≡ ite (Bytes-discrete k j) (some v) (view db j)
  pub delete_ok :
      (k : Bytes) (db : Db)
      → IsFaultless db
      → ((R.delete k db).0 ≡ ok tt) × IsFaultless (R.delete k db).1
  pub view-delete :
      (k : Bytes) (db : Db) (j : Bytes)
      → IsFaultless db
      → view (R.delete k db).1 j ≡ ite (Bytes-discrete k j) none (view db j)
  pub multi_get_ok :
      (ks : List Bytes) (db : Db)
      → IsFaultless db
      → R.multi_get ks db ≡ map (λ k. ok (view db k)) ks
  pub prefix_iterator_ok :
      (prefix : Bytes) (db : Db)
      → IsFaultless db
      → (items : HashMap Bytes Bytes) × (R.prefix_iterator prefix db ≡ map ok items)
        × All (λ i. view db i.0 ≡ some i.1) items
        × ((rest v : Bytes)
            → view db (prefix ++ rest) ≡ some v
            → contains Bytes-discrete (keys items) (prefix ++ rest) ≡ true)

-- A public key serializes, and reads back.
abbrev pub IsKeyCodec : Bincode → Type 0
IsKeyCodec B =
    (pk : CryptoTypePublicPair)
    → (b : Bytes) × (B.serialize_key pk ≡ ok b) × (B.deserialize_key b ≡ ok pk)

module _ (B : Bincode) (codec : IsKeyCodec B) where
  -- the key under which a proof is stored
  abbrev pub key_of : H256 → CryptoTypePublicPair → Bytes
  key_of id pk = id ++ (codec pk).0

  pub drop-key_of :
      (id : H256) (pk : CryptoTypePublicPair) → IsH256 id → drop 32 (key_of id pk) ≡ (codec pk).0
  drop-key_of id pk h = rw (← h) (drop-length-append id (codec pk).0)

  pub long_enough :
      (id : H256) (pk : CryptoTypePublicPair) → IsH256 id → ltb (length (key_of id pk)) 32 ≡ false
  long_enough id pk h = ground (arith, length-append id (codec pk).0)

  pub key_of_injective :
      (i j : H256) (p q : CryptoTypePublicPair)
      → IsH256 i
      → IsH256 j
      → key_of i p ≡ key_of j q
      → (i ≡ j) × (p ≡ q)
  key_of_injective i j p q hi hj e =
      let (same, bytes) = append_injective i (codec p).0 j (codec q).0 (omega arith) e in
      let (_, _, read_p) = codec p in let (_, _, read_q) = codec q in (same, cc)

  -- Two keys are the same exactly if event and signer are.
  pub ite-key_of :
      {A : Type 0} (e : WitnessedEvent) (id : H256) (pk : CryptoTypePublicPair) (x y : A)
      → IsH256 e.event_id
      → IsH256 id
      → ite (Bytes-discrete (key_of e.event_id e.pub_key) (key_of id pk)) x y
        ≡ (if is_of e id pk then x else y)
  ite-key_of e id pk x y he hid = ground (arith, key_of_injective e.event_id id e.pub_key pk he hid)
