-- ===== src/Tests/Specs.antt =====
-- The genesis of a test chain, and the numbered events of the benchmark.
use validated_streams.Base.{◌^◌, ◌≡◌, refl, [], ◌∷◌, some, String, arith}
use validated_streams.ChainSpec.{
  GenesisConfig, KeyDerivation, get_from_seed, get_account_id_from_seed, authority_keys_from_seed,
  testnet_genesis, genesis_of,
}
use validated_streams.EventNumbers.{event_num_to_event_id, event_id_to_event_num}
use validated_streams.EventNumbers.Numbered.{event_id_to_event_num_lem}
use validated_streams.Primitives.{Bytes, IsH256}
use validated_streams.Tests.{fill}

-- Keys that are their own seeds.
abbrev derivation : KeyDerivation String String String
derivation = record { aura = some; grandpa = some; account = some }

abbrev genesis : GenesisConfig String String String
genesis = record {
  code = [];
  balances = ("//Alice", 2 ^ 60) ∷ ("//Bob", 2 ^ 60) ∷ [];
  aura_authorities = "//Alice" ∷ [];
  grandpa_authorities = ("//Alice", 1) ∷ [];
  sudo_key = some "//Alice";
}

genesis_of-genesis :
    genesis_of derivation [] ("Alice" ∷ []) "Alice" ("Alice" ∷ "Bob" ∷ []) ≡ some genesis
unfolding get_from_seed get_account_id_from_seed authority_keys_from_seed testnet_genesis genesis_of
genesis_of-genesis = refl

abbrev digest : Bytes → Bytes
digest b = fill 32 9

event_id_to_event_num_lem_example :
    IsH256 (event_num_to_event_id digest 70000)
    × (event_id_to_event_num digest (event_num_to_event_id digest 70000) ≡ some 70000)
event_id_to_event_num_lem_example = event_id_to_event_num_lem digest 70000 (λ b. refl) (omega arith)
