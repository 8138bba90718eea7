-- ===== src/Tests.antt =====
-- A small network to run the code on: three authorities, concrete libraries, and the proofs that
-- these keep their documented behaviour. The examples are in the children.
mod Blocks
mod Codec
mod Quorums
mod Nodes
mod Services
mod Pallets
mod Ports
mod Stores
mod Specs
mod Participants
mod Networks
mod Startups
mod Purges
mod Benchmarks
mod Submissions
use validated_streams.Base.{
  ℕ, zero, suc, ◌<◌, ◌≡◌, refl, sym, ap, ◌∙◌, Bool, true, false, List, [], ◌∷◌, ◌++◌, Option, none,
  some, String, Result, ok, err, ◌⊎◌, length, take, drop, take-length-append, drop-length-append,
  contains, retain, ℕ_discrete, inl, inr, ite, if_pos, arith, map, All,
}
use validated_streams.Base.HashMap.{HashMap, get}
use validated_streams.Events.{AuthoritiesList, BlockStateCache}
use validated_streams.Events.Cache.{IsCoherent}
use validated_streams.Events.Witness.Published.{IsKeystore, IsEventCodec}
use validated_streams.Interfaces.{
  Sr25519, Client, LruCache, IsLruCache, TxPool, Keystore, PoolError,
}
use validated_streams.Primitives.{
  Bytes, Bytes-discrete, H256, IsH256, CryptoTypePublicPair, CryptoTypePublicPair-discrete,
  WitnessedEvent, Bincode,
}
use validated_streams.Proofs.Contract.{DistinctValidators}
use validated_streams.Proofs.Offchain.Storage.{IsListCodec}
use validated_streams.Proofs.RocksDb.Keys.{IsKeyCodec}
use validated_streams.Runtime.{Extrinsic, get_extrinsic_ids, create_unsigned_extrinsic}

abbrev pub fill : ℕ → ℕ → Bytes
fill zero b = []
fill (suc n) b = b ∷ fill n b

-- Two events, the hash of a block, and the three authorities.
abbrev pub event_a : H256
event_a = fill 32 7

abbrev pub event_b : H256
event_b = fill 32 8

abbrev pub genesis : H256
genesis = fill 32 0

abbrev pub from : ℕ → CryptoTypePublicPair
from n = record { crypto_type = b's' ∷ b'r' ∷ []; key = n ∷ [] }

abbrev pub authorities : AuthoritiesList
authorities = record { authorities = from 1 ∷ from 2 ∷ from 3 ∷ [] }

pub authorities-DistinctValidators : DistinctValidators authorities.authorities
unfolding CryptoTypePublicPair-discrete ℕ_discrete
authorities-DistinctValidators = (refl, (refl, (refl, tt)))

-- A signature is the key in front of the message.
abbrev pub scheme : Sr25519
scheme = record {
  public_from_slice = some;
  signature_from_slice = some;
  verify = λ key message signature. ite (Bytes-discrete signature (key ++ message)) true false;
}

abbrev pub witnessed : ℕ → H256 → WitnessedEvent
witnessed n id = record { signature = n ∷ id; pub_key = from n; event_id = id }

abbrev pub client : Client ℕ Extrinsic
client = record {
  best_hash = genesis;
  finalized_hash = genesis;
  finalized_number = 0;
  block_hash = λ n. ok (some genesis);
  block_body = λ h. ok none;
  lowest_common_ancestor = λ a b. ok b;
  authorities = λ h. ok (1 ∷ 2 ∷ 3 ∷ []);
  get_extrinsic_ids = λ h xs. ok (get_extrinsic_ids xs);
  create_unsigned_extrinsic = λ h id proofs. ok (create_unsigned_extrinsic id proofs);
}

-- A cache that never forgets.
abbrev pub Cache : Type 0
Cache = HashMap H256 AuthoritiesList

abbrev pub peek : Cache → H256 → Option AuthoritiesList
peek = get Bytes-discrete

abbrev pub lru : LruCache AuthoritiesList Cache
lru = record { get = λ k c. (peek c k, c); put = λ k v c. (k, v) ∷ c }

put_keeps :
    (k : H256) (v : AuthoritiesList) (c : Cache) (j : H256) (w : AuthoritiesList)
    → peek ((k, v) ∷ c) j ≡ some w
    → ((k ≡ j) × (v ≡ w)) ⊎ (peek c j ≡ some w)
put_keeps k v c j w h = ground (arith, h)

pub lru-IsLruCache : IsLruCache lru peek
lru-IsLruCache = record {
  get_reads = λ k c. refl;
  get_keeps = λ k c j. refl;
  put_keeps = put_keeps;
}

abbrev pub empty_cache : BlockStateCache Cache
empty_cache = record { poisoned = false; cache = [] }

pub empty_cache-IsCoherent : IsCoherent from client lru peek empty_cache
empty_cache-IsCoherent = record { healthy = refl; entries = λ id l h. cc }

-- A pool that takes every extrinsic.
abbrev pub pool : TxPool Extrinsic (List Extrinsic)
pool = record { submit_local = λ h x p. (ok [], x ∷ p); pool_error_text = λ e. "pool error" }

-- A keystore that holds every key.
abbrev pub holds : CryptoTypePublicPair → Bool
holds k = true

abbrev pub keystore : Keystore
keystore = record {
  supported_keys = λ keys. ok (retain holds keys);
  sign_with = λ k message. ok (some (k.key ++ message));
}

keys_are_given :
    (keys : List CryptoTypePublicPair) (k : CryptoTypePublicPair) (ks : List CryptoTypePublicPair)
    → keystore.supported_keys keys ≡ ok (k ∷ ks)
    → contains CryptoTypePublicPair-discrete keys k ≡ true
keys_are_given [] k ks h = absurd (cc)
keys_are_given (j ∷ js) k ks h = ground (arith, h)

signs :
    (k : CryptoTypePublicPair) (message signature : Bytes)
    → keystore.sign_with k message ≡ ok (some signature)
    → (pubkey : Bytes) × (s : Bytes) × (scheme.public_from_slice k.key ≡ some pubkey)
      × (scheme.signature_from_slice signature ≡ some s)
      × (scheme.verify pubkey message s ≡ true)
signs k message signature h = (k.key, signature, refl, refl, ground (arith, h))

pub keystore-IsKeystore : IsKeystore keystore scheme
keystore-IsKeystore = record { keys_are_given = keys_are_given; signs = signs }
