-- ===== src/Primitives.antt =====
-- The data that the crates share: byte strings, hashes, public keys and witnessed events.
use validated_streams.Base.{ℕ, ℕ_discrete, List, length, ◌≡◌, Result, String}

abbrev pub Bytes : Type 0
Bytes = List ℕ

unfoldable pub Bytes-discrete : Discrete Bytes
unfolding ℕ_discrete
Bytes-discrete = hlevel ℕ_discrete

-- `sp_core::H256`, by its bytes; `IsH256` says that there are 32.
abbrev pub H256 : Type 0
H256 = Bytes

abbrev pub IsH256 : H256 → Type 0
IsH256 h = length h ≡ 32

-- `CryptoTypePublicPair(CryptoTypeId, Vec<u8>)`
pub record CryptoTypePublicPair : Type 0 where
  pub crypto_type : Bytes
  pub key : Bytes

unfoldable pub CryptoTypePublicPair-discrete : Discrete CryptoTypePublicPair
unfolding ℕ_discrete
CryptoTypePublicPair-discrete = hlevel ℕ_discrete

pub record WitnessedEvent : Type 0 where
  pub signature : Bytes
  pub pub_key : CryptoTypePublicPair
  pub event_id : H256

-- The `bincode` crate at the two types that are written: an error is its `Display` text.
pub record Bincode : Type 0 where
  pub serialize_key : CryptoTypePublicPair → Result String Bytes
  pub deserialize_key : Bytes → Result String CryptoTypePublicPair
  pub serialize_keys : List CryptoTypePublicPair → Result String Bytes
  pub deserialize_keys : Bytes → Result String (List CryptoTypePublicPair)
  pub serialize_event : WitnessedEvent → Result String Bytes
  pub deserialize_event : Bytes → Result String WitnessedEvent
