-- ===== src/Tests/Codec.antt =====
-- A codec for keys, lists of keys and events, which reads back what it writes.
use validated_streams.Base.{
  ℕ, zero, suc, ◌≡◌, refl, List, [], ◌∷◌, ◌++◌, Option, none, some, String, Result, ok, err, length,
  take, drop, take-length-append, drop-length-append, arith,
}
use validated_streams.Events.Witness.Published.{IsEventCodec}
use validated_streams.Primitives.{Bytes, CryptoTypePublicPair, WitnessedEvent, Bincode}
use validated_streams.Proofs.Offchain.Storage.{IsListCodec}
use validated_streams.Proofs.RocksDb.Keys.{IsKeyCodec}

-- A field with its length in front.
abbrev framed : Bytes → Bytes → Bytes
framed field rest = length field ∷ field ++ rest

abbrev unframed : Bytes → Option (Bytes × Bytes)
unframed [] = none
unframed (n ∷ rest) = some (take n rest, drop n rest)

abbrev serialized : WitnessedEvent → Bytes
serialized e = framed e.signature (framed e.pub_key.crypto_type (framed e.pub_key.key e.event_id))

abbrev deserialized : Bytes → Result String WitnessedEvent
deserialized m = elim (unframed m) [
  | none ↦ err "no signature"
  | some (signature, m) ↦ elim (unframed m) [
    | none ↦ err "no crypto type"
    | some (crypto_type, m) ↦ elim (unframed m) [
      | none ↦ err "no key"
      | some (key, id) ↦ ok (record {
        signature = signature;
        pub_key = record { crypto_type = crypto_type; key = key };
        event_id = id;
      })
    ]
  ]
]

abbrev pub key_bytes : CryptoTypePublicPair → Bytes → Bytes
key_bytes k rest = framed k.crypto_type (framed k.key rest)

abbrev read_key : Bytes → Option (CryptoTypePublicPair × Bytes)
read_key m = elim (unframed m) [
  | none ↦ none
  | some (crypto_type, m) ↦ elim (unframed m) [
    | none ↦ none
    | some (key, rest) ↦ some (record { crypto_type = crypto_type; key = key }, rest)
  ]
]

abbrev keys_bytes : List CryptoTypePublicPair → Bytes
keys_bytes [] = []
keys_bytes (k ∷ ks) = key_bytes k (keys_bytes ks)

abbrev read_keys : ℕ → Bytes → Option (List CryptoTypePublicPair)
read_keys zero m = some []
read_keys (suc n) m = elim (read_key m) [
  | none ↦ none
  | some (k, rest) ↦ elim (read_keys n rest) [ none ↦ none | some ks ↦ some (k ∷ ks) ]
]

abbrev deserialized_keys : Bytes → Result String (List CryptoTypePublicPair)
deserialized_keys [] = err "no length"
deserialized_keys (n ∷ m) = elim (read_keys n m) [ none ↦ err "no key" | some ks ↦ ok ks ]

abbrev pub codec : Bincode
codec = record {
  serialize_key = λ k. ok (key_bytes k []);
  deserialize_key = λ m. elim (read_key m) [ none ↦ err "no key" | some (k, _) ↦ ok k ];
  serialize_keys = λ ks. ok (length ks ∷ keys_bytes ks);
  deserialize_keys = deserialized_keys;
  serialize_event = λ e. ok (serialized e);
  deserialize_event = deserialized;
}

unframed-framed : (field rest : Bytes) → unframed (framed field rest) ≡ some (field, rest)
unframed-framed field rest = rw (take-length-append field rest, drop-length-append field rest)

deserialized-serialized : (e : WitnessedEvent) → deserialized (serialized e) ≡ ok e
deserialized-serialized e = ground (
  arith,
  unframed-framed e.signature (framed e.pub_key.crypto_type (framed e.pub_key.key e.event_id)),
  unframed-framed e.pub_key.crypto_type (framed e.pub_key.key e.event_id),
  unframed-framed e.pub_key.key e.event_id,
)

pub codec-IsEventCodec : IsEventCodec codec
codec-IsEventCodec e m h =
    let same : serialized e ≡ m = cc in rw (← same) (deserialized-serialized e)

pub read_key-key_bytes :
    (k : CryptoTypePublicPair) (rest : Bytes) → read_key (key_bytes k rest) ≡ some (k, rest)
read_key-key_bytes k rest =
    ground (arith, unframed-framed k.crypto_type (framed k.key rest), unframed-framed k.key rest)

pub read_keys-keys_bytes :
    (ks : List CryptoTypePublicPair) → read_keys (length ks) (keys_bytes ks) ≡ some ks
read_keys-keys_bytes [] = refl
read_keys-keys_bytes (k ∷ ks) =
    ground (arith, read_key-key_bytes k (keys_bytes ks), read_keys-keys_bytes ks)

unfoldable pub codec-IsKeyCodec : IsKeyCodec codec
codec-IsKeyCodec k = (key_bytes k [], refl, ground (arith, read_key-key_bytes k []))

unfoldable pub codec-IsListCodec : IsListCodec codec
codec-IsListCodec ks = (length ks ∷ keys_bytes ks, refl, ground (arith, read_keys-keys_bytes ks))
