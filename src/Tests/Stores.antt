-- ===== src/Tests/Stores.antt =====
-- The stores of proofs over a database that is an association list.
use validated_streams.Base.{
  ℕ_discrete, List, ◌≡◌, ◌≢◌, refl, sym, ap, ◌∙◌, [], ◌∷◌, ◌++◌, Bool, true, false, Option, none,
  some, ok, ite, if_pos, if_neg, contains, All, map, arith, if◌then◌else◌,
}
use validated_streams.Base.HashMap.{
  HashMap, keys, get, insert, retain_keys, DistinctKeys, get-insert, get-retain_keys,
  insert-DistinctKeys, retain_keys-DistinctKeys,
}
use validated_streams.Primitives.{
  Bytes, Bytes-discrete, CryptoTypePublicPair, CryptoTypePublicPair-discrete,
}
use validated_streams.Proofs.Contract.{IsExact}
use validated_streams.Proofs.Offchain.{OffchainStorage, off_chain, add_event_proof, signers}
use validated_streams.Proofs.Offchain.Lawful.{off_chain-IsExact}
use validated_streams.Proofs.Offchain.Calls.{
  IsUsable as IsOffchainUsable, stored as off_chain_stored,
}
use validated_streams.Proofs.Offchain.Storage.{IsOffchainStorage}
use validated_streams.Proofs.Offchain.Turns.{
  IsAdded, IsReadable, KeepsReadable, with_proof, signers-some, add_event_proof_lem,
}
use validated_streams.Proofs.RocksDb.{RocksDb}
use validated_streams.Proofs.RocksDb.Keys.{IsRocksDb}
use validated_streams.Proofs.RocksDb.Lawful.{IsRocksDbEventProofs, rocks_db-IsRocksDbEventProofs}
use validated_streams.Tests.{event_a, from, witnessed}
use validated_streams.Tests.Codec.{codec, key_bytes, codec-IsKeyCodec, codec-IsListCodec}

abbrev pub Table : Type 0
Table = HashMap Bytes Bytes

abbrev pub view : Table → Bytes → Option Bytes
view = get Bytes-discrete

abbrev pub IsTable : Table → Type 0
IsTable = DistinctKeys Bytes-discrete

abbrev without : Bytes → Table → Table
without k t = retain_keys (λ j. ite (Bytes-discrete k j) false true) t

view-without :
    (k : Bytes) (t : Table) (j : Bytes)
    → view (without k t) j ≡ ite (Bytes-discrete k j) none (view t j)
view-without k t j =
    ground (arith, get-retain_keys Bytes-discrete (λ j. ite (Bytes-discrete k j) false true) t j)

entries-cons :
    (k v : Bytes) (t l : Table)
    → view t k ≡ none
    → All (λ i. view t i.0 ≡ some i.1) l
    → All (λ i. view ((k, v) ∷ t) i.0 ≡ some i.1) l
entries-cons k v t [] free h = tt
entries-cons k v t ((j, w) ∷ l) free (there, h) =
    (ground (arith, free, there), entries-cons k v t l free h)

entries : (t : Table) → IsTable t → All (λ i. view t i.0 ≡ some i.1) t
entries [] h = tt
entries ((k, v) ∷ t) (free, h) =
    (if_pos (Bytes-discrete k k) refl (some v) (view t k), entries-cons k v t t free (entries t h))

keys-listed :
    (t : Table) (j v : Bytes) → view t j ≡ some v → contains Bytes-discrete (keys t) j ≡ true
keys-listed [] j v h = cc
keys-listed ((k, w) ∷ t) j v h = ground (arith, h, keys-listed t j v)

-- The iterator lists the whole table.
abbrev pub table : RocksDb Table
table = record {
  put = λ k v t. (ok tt, insert Bytes-discrete t k v);
  delete = λ k t. (ok tt, without k t);
  multi_get = λ ks t. map (λ k. ok (view t k)) ks;
  prefix_iterator = λ prefix t. map ok t;
}

pub table-IsRocksDb : IsRocksDb table IsTable view
table-IsRocksDb = record {
  put_ok = λ k v t h. (refl, insert-DistinctKeys Bytes-discrete t k v h);
  view-put = λ k v t j h. get-insert Bytes-discrete t k v j;
  delete_ok = λ k t h. (refl, retain_keys-DistinctKeys Bytes-discrete _ t h);
  view-delete = λ k t j h. view-without k t j;
  multi_get_ok = λ ks t h. refl;
  prefix_iterator_ok =
      λ prefix t h. (t, refl, entries t h, λ rest v there. keys-listed t (prefix ++ rest) v there);
}

rocks_db-IsRocksDbEventProofs_example :
    IsRocksDbEventProofs table codec IsTable view table-IsRocksDb codec-IsKeyCodec
rocks_db-IsRocksDbEventProofs_example =
    rocks_db-IsRocksDbEventProofs table codec IsTable view table-IsRocksDb codec-IsKeyCodec

abbrev same_entry : Option Bytes → Option Bytes → Bool
same_entry none none = true
same_entry none (some b) = false
same_entry (some a) none = false
same_entry (some a) (some b) = ite (Bytes-discrete a b) true false

abbrev pub storage : OffchainStorage Table
storage = record {
  set = λ p k v t. insert Bytes-discrete t k v;
  remove = λ p k t. without k t;
  get = λ p k t. view t k;
  compare_and_set = λ p k old new t.
      if same_entry (view t k) old then (true, insert Bytes-discrete t k new) else (false, t);
}

same_entry_refl : (a : Option Bytes) → same_entry a a ≡ true
same_entry_refl none = refl
same_entry_refl (some a) = if_pos (Bytes-discrete a a) refl true false

same_entry-differ : (a b : Option Bytes) → a ≢ b → same_entry a b ≡ false
same_entry-differ none none h = absurd (h refl)
same_entry-differ none (some b) h = refl
same_entry-differ (some a) none h = refl
same_entry-differ (some a) (some b) h =
    if_neg (Bytes-discrete a b) (λ same. h (ap some same)) true false

same_entry-of : (a b : Option Bytes) → a ≡ b → same_entry a b ≡ true
same_entry-of a b h = ap (λ c. same_entry a c) (sym h) ∙ same_entry_refl a

pub storage-IsOffchainStorage : IsOffchainStorage storage view
storage-IsOffchainStorage = record {
  get_reads = λ k t. refl;
  view-set = λ k v t j. get-insert Bytes-discrete t k v j;
  view-remove = λ k t j. view-without k t j;
  swaps = λ k old new t h. rw (same_entry-of (view t k) old h);
  view-swap =
      λ k old new t j h. rw (same_entry-of (view t k) old h) (get-insert Bytes-discrete t k new j);
  keeps = λ k old new t h. rw (same_entry-differ (view t k) old h);
}

pub nonempty : (pk : CryptoTypePublicPair) → (codec-IsKeyCodec pk).0 ≢ []
unfolding codec-IsKeyCodec
nonempty pk h = cc

off_chain-IsExact_example :
    IsExact
      (off_chain storage codec)
      (IsOffchainUsable storage codec view storage-IsOffchainStorage codec-IsListCodec
        codec-IsKeyCodec nonempty)
      (off_chain_stored storage codec view storage-IsOffchainStorage codec-IsListCodec
        codec-IsKeyCodec nonempty)
off_chain-IsExact_example =
    off_chain-IsExact storage codec view storage-IsOffchainStorage codec-IsListCodec
      codec-IsKeyCodec nonempty

-- The second authority is among the signers.
abbrev HasSecond : List CryptoTypePublicPair → Type 0
HasSecond l = contains CryptoTypePublicPair-discrete l (from 2) ≡ true

-- The second authority has signed, and another task adds the third.
abbrev signed_once : Table
signed_once = (event_a, 1 ∷ key_bytes (from 2) []) ∷ []

abbrev another : Table → Table
another t = insert Bytes-discrete t event_a (2 ∷ key_bytes (from 2) (key_bytes (from 3) []))

another-KeepsReadable :
    KeepsReadable storage codec view storage-IsOffchainStorage codec-IsListCodec
      (witnessed 1 event_a)
      HasSecond
      another
unfolding codec-IsListCodec CryptoTypePublicPair-discrete ℕ_discrete
another-KeepsReadable t h = (
  from 2 ∷ from 3 ∷ [],
  ap (signers storage codec) (
        get-insert Bytes-discrete t event_a (2 ∷ key_bytes (from 2) (key_bytes (from 3) [])) event_a
        ∙ if_pos (Bytes-discrete event_a event_a) refl
            (some (2 ∷ key_bytes (from 2) (key_bytes (from 3) []))) (view t event_a))
      ∙ signers-some storage codec view storage-IsOffchainStorage codec-IsListCodec
          (from 2 ∷ from 3 ∷ []),
  refl,
)

signed_once-IsReadable :
    IsReadable storage codec view storage-IsOffchainStorage codec-IsListCodec
      (witnessed 1 event_a)
      HasSecond
      signed_once
unfolding signers Bytes-discrete CryptoTypePublicPair-discrete ℕ_discrete
signed_once-IsReadable = (from 2 ∷ [], refl, refl)

add_event_proof_lem_example :
    IsAdded storage codec view storage-IsOffchainStorage codec-IsListCodec
      (witnessed 1 event_a)
      HasSecond
      (another ∷ (λ t. t) ∷ [])
      (with_proof storage codec view storage-IsOffchainStorage codec-IsListCodec
        (witnessed 1 event_a)
        signed_once
        (codec-IsKeyCodec (from 1)).0)
      (add_event_proof storage codec (another ∷ (λ t. t) ∷ []) (witnessed 1 event_a) signed_once)
add_event_proof_lem_example =
    add_event_proof_lem storage codec view storage-IsOffchainStorage codec-IsListCodec
      (witnessed 1 event_a) HasSecond codec-IsKeyCodec nonempty (another ∷ []) (λ t. t) []
      signed_once refl (another-KeepsReadable, tt) (λ t. refl) signed_once-IsReadable
