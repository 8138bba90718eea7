-- ===== src/Interfaces.antt =====
-- What the crates take from Substrate and other libraries, as parameters: the sr25519 scheme, the
-- client with its runtime API, the LRU cache, the transaction pool and the keystore. An error of
-- another crate is its `Display` text.
use validated_streams.Base.{ℕ, Bool, List, Option, String, Result, ◌≡◌, ◌⊎◌, some}
use validated_streams.Base.HashMap.{HashMap}
use validated_streams.Primitives.{Bytes, H256, CryptoTypePublicPair}

-- `sp_core::sr25519`: keys and signatures are byte strings of fixed sizes.
abbrev pub Public : Type 0
Public = Bytes

abbrev pub Signature : Type 0
Signature = Bytes

pub record Sr25519 : Type 0 where
  pub public_from_slice : Bytes → Option Public
  pub signature_from_slice : Bytes → Option Signature
  -- `RuntimePublic::verify`
  pub verify : Public → Bytes → Signature → Bool

-- `client.info()`, the block database, and the runtime API at a block
pub record Client (AuthorityId Extrinsic : Type 0) : Type 0 where
  pub best_hash : H256
  pub finalized_hash : H256
  pub finalized_number : ℕ
  pub block_hash : ℕ → Result String (Option H256)
  pub block_body : H256 → Result String (Option (List Extrinsic))
  -- `sp_blockchain::lowest_common_ancestor`, the hash of the ancestor
  pub lowest_common_ancestor : H256 → H256 → Result String H256
  pub authorities : H256 → Result String (List AuthorityId)
  pub get_extrinsic_ids : H256 → List Extrinsic → Result String (List H256)
  pub create_unsigned_extrinsic :
      H256 → H256 → Option (HashMap Public Signature) → Result String Extrinsic

-- `lru::LruCache` at the types used; `get` also marks the entry as recently used.
pub record LruCache (Value Cache : Type 0) : Type 0 where
  pub get : H256 → Cache → Option Value × Cache
  pub put : H256 → Value → Cache → Cache

-- A cache never makes up an entry: what can be read was put under that key.
pub record IsLruCache {Value Cache : Type 0} (L : LruCache Value Cache)
    (peek : Cache → H256 → Option Value) : Type 0 where
  pub get_reads : (k : H256) (c : Cache) → (L.get k c).0 ≡ peek c k
  pub get_keeps : (k : H256) (c : Cache) (j : H256) → peek (L.get k c).1 j ≡ peek c j
  pub put_keeps :
      (k : H256) (v : Value) (c : Cache) (j : H256) (w : Value)
      → peek (L.put k v c) j ≡ some w
      → ((k ≡ j) × (v ≡ w)) ⊎ (peek c j ≡ some w)

-- `sp_runtime::transaction_validity::InvalidTransaction`, the cases that the code names
pub data InvalidTransaction : Type 0 where
  call stale : InvalidTransaction
  other_invalid : String → InvalidTransaction

-- `sc_transaction_pool_api::error::Error`, the cases that the code names
pub data PoolError : Type 0 where
  already_imported : PoolError
  invalid_transaction : InvalidTransaction → PoolError
  other_pool_error : String → PoolError

-- `LocalTransactionPool::submit_local`, its error already passed through `into_pool_error`
pub record TxPool (Extrinsic Pool : Type 0) : Type 0 where
  pub submit_local : H256 → Extrinsic → Pool → Result (Result String PoolError) Bytes × Pool
  -- `impl Display for PoolError`
  pub pool_error_text : PoolError → String

-- `sp_keystore::CryptoStore` under the key type `AURA`
pub record Keystore : Type 0 where
  pub supported_keys : List CryptoTypePublicPair → Result String (List CryptoTypePublicPair)
  pub sign_with : CryptoTypePublicPair → Bytes → Result String (Option Bytes)
