-- ===== src/Tests/Purges.antt =====
-- A purge of the off-chain storage while another task adds a signer.
use validated_streams.Base.{
  ℕ_discrete, ◌≡◌, refl, ap, ◌∙◌, [], ◌∷◌, ◌++◌, true, some, is_some, if_pos, if_neg,
}
use validated_streams.Base.HashMap.{insert, get-insert}
use validated_streams.Primitives.{Bytes, Bytes-discrete, CryptoTypePublicPair-discrete}
use validated_streams.Proofs.Contract.{is_validator}
use validated_streams.Proofs.Offchain.{signers, purge_event_stale_signatures}
use validated_streams.Proofs.Offchain.PurgeTurns.{
  IsProved, KeepsProved, IsDone, purge_event_stale_signatures_lem,
}
use validated_streams.Proofs.Offchain.Storage.{apart}
use validated_streams.Proofs.Offchain.Turns.{signers-some}
use validated_streams.Proofs.RocksDb.Keys.{key_of}
use validated_streams.Tests.{event_a, from, authorities}
use validated_streams.Tests.Codec.{codec, key_bytes, codec-IsKeyCodec, codec-IsListCodec}
use validated_streams.Tests.Stores.{Table, view, storage, storage-IsOffchainStorage, nonempty}

-- A stranger and the first authority have signed.
abbrev signed_twice : Table
signed_twice =
    (event_a, 2 ∷ key_bytes (from 4) (key_bytes (from 1) []))
    ∷ (event_a ++ key_bytes (from 4) [], 4 ∷ event_a)
    ∷ (event_a ++ key_bytes (from 1) [], 1 ∷ event_a)
    ∷ []

-- Another task adds the second authority to the signers.
abbrev three : Bytes
three = 3 ∷ key_bytes (from 4) (key_bytes (from 1) (key_bytes (from 2) []))

abbrev another : Table → Table
another t = insert Bytes-discrete t event_a three

first_is_validator : is_validator authorities.authorities (from 1) ≡ true
unfolding CryptoTypePublicPair-discrete ℕ_discrete
first_is_validator = refl

another-KeepsProved :
    KeepsProved storage codec view storage-IsOffchainStorage codec-IsListCodec codec-IsKeyCodec
      nonempty event_a refl authorities.authorities event_a refl
      (from 1)
      first_is_validator
      another
unfolding codec-IsListCodec
another-KeepsProved t p = record {
  list = from 4 ∷ from 1 ∷ from 2 ∷ [];
  reads =
      ap (signers storage codec) (
        get-insert Bytes-discrete t event_a three event_a
        ∙ if_pos (Bytes-discrete event_a event_a) refl (some three) (view t event_a))
      ∙ signers-some storage codec view storage-IsOffchainStorage codec-IsListCodec
          (from 4 ∷ from 1 ∷ from 2 ∷ []);
  proof =
      ap is_some (
        get-insert Bytes-discrete t event_a three (key_of codec codec-IsKeyCodec event_a (from 1))
        ∙ if_neg (Bytes-discrete event_a (key_of codec codec-IsKeyCodec event_a (from 1)))
            (apart codec codec-IsKeyCodec nonempty event_a event_a (from 1) refl refl) _ _)
      ∙ p.proof;
}

idle-KeepsProved :
    KeepsProved storage codec view storage-IsOffchainStorage codec-IsListCodec codec-IsKeyCodec
      nonempty event_a refl authorities.authorities event_a refl
      (from 1)
      first_is_validator
      (λ t. t)
idle-KeepsProved t p = p

signed_twice-IsProved :
    IsProved storage codec view storage-IsOffchainStorage codec-IsListCodec codec-IsKeyCodec
      nonempty event_a refl authorities.authorities event_a refl
      (from 1)
      first_is_validator
      signed_twice
unfolding signers codec-IsKeyCodec Bytes-discrete ℕ_discrete
signed_twice-IsProved = record { list = from 4 ∷ from 1 ∷ []; reads = refl; proof = refl }

purge_event_stale_signatures_lem_example :
    (is_some (
        view
          (purge_event_stale_signatures storage codec
            (another ∷ [])
            event_a
            authorities.authorities
            signed_twice).1
          (key_of codec codec-IsKeyCodec event_a (from 1)))
      ≡ true)
    × IsDone storage codec view storage-IsOffchainStorage codec-IsListCodec codec-IsKeyCodec
        nonempty event_a refl authorities.authorities event_a refl
        (from 1)
        first_is_validator
        (purge_event_stale_signatures storage codec
          (another ∷ (λ t. t) ∷ [])
          event_a
          authorities.authorities
          signed_twice)
purge_event_stale_signatures_lem_example =
    purge_event_stale_signatures_lem storage codec view storage-IsOffchainStorage codec-IsListCodec
      codec-IsKeyCodec nonempty event_a refl authorities.authorities event_a refl (from 1)
      first_is_validator (another ∷ []) (λ t. t) [] signed_twice (another-KeepsProved, tt)
      idle-KeepsProved (λ t. refl) signed_twice-IsProved
