-- ===== src/ChainSpec.antt =====
-- node/src/chain_spec.rs: the chains that a node can start, and their genesis.
pub mod Genesis
use validated_streams.Base.{
  ℕ, ◌^◌, List, [], ◌∷◌, Option, none, some, String, Result, ok, err, map, traverse,
}
use validated_streams.Primitives.{Bytes}
use Prim.Native.String.{◌++◌}

-- `sc_service::ChainType`, the cases that the code names
pub data ChainType : Type 0 where
  development local : ChainType

-- `GenesisConfig` of the runtime, by the parts that are set
pub record GenesisConfig (AuraId GrandpaId AccountId : Type 0) : Type 0 where
  pub code : Bytes
  pub balances : List (AccountId × ℕ)
  pub aura_authorities : List AuraId
  pub grandpa_authorities : List (GrandpaId × ℕ)
  pub sudo_key : Option AccountId

-- `ChainSpec::from_genesis`: the genesis is computed when the chain starts; `none` if it panics.
pub record ChainSpec (Genesis : Type 0) : Type 0 where
  pub name : String
  pub id : String
  pub chain_type : ChainType
  pub genesis : Option Genesis

-- `Pair::from_string(_, None)` and `public()` of the schemes used, the last with `into_account`.
pub record KeyDerivation (AuraId GrandpaId AccountId : Type 0) : Type 0 where
  pub aura : String → Option AuraId
  pub grandpa : String → Option GrandpaId
  pub account : String → Option AccountId

-- `get_from_seed`; `expect` panics on `none`.
unfoldable pub get_from_seed : {Public : Type 0} → (String → Option Public) → String → Option Public
get_from_seed from_string seed = from_string ("//" ++ seed)

module _ {AuraId GrandpaId AccountId : Type 0} (K : KeyDerivation AuraId GrandpaId AccountId) where
  unfoldable pub get_account_id_from_seed : String → Option AccountId
  unfolding get_from_seed
  get_account_id_from_seed seed = get_from_seed K.account seed

  unfoldable pub authority_keys_from_seed : String → Option (AuraId × GrandpaId)
  unfolding get_from_seed
  authority_keys_from_seed s = elim (get_from_seed K.aura s) [
    | none ↦ none
    | some a ↦ elim (get_from_seed K.grandpa s) [ none ↦ none | some g ↦ some (a, g) ]
  ]

  unfoldable pub testnet_genesis :
      Bytes
      → List (AuraId × GrandpaId)
      → AccountId
      → List AccountId
      → GenesisConfig AuraId GrandpaId AccountId
  testnet_genesis wasm_binary initial_authorities root_key endowed_accounts = record {
    code = wasm_binary;
    balances = map (λ k. (k, 2 ^ 60)) endowed_accounts;
    aura_authorities = map (λ x. x.0) initial_authorities;
    grandpa_authorities = map (λ x. (x.1, 1)) initial_authorities;
    sudo_key = some root_key;
  }

  -- The `move ||` closure of a chain, from the seeds of its authorities and its accounts.
  unfoldable pub genesis_of :
      Bytes → List String → String → List String → Option (GenesisConfig AuraId GrandpaId AccountId)
  unfolding testnet_genesis
  genesis_of wasm_binary authorities root accounts =
      elim (traverse authority_keys_from_seed authorities) [
        | none ↦ none
        | some keys ↦ elim (get_account_id_from_seed root) [
          | none ↦ none
          | some root_key ↦ elim (traverse get_account_id_from_seed accounts) [
            | none ↦ none
            | some endowed ↦ some (testnet_genesis wasm_binary keys root_key endowed)
          ]
        ]
      ]

  pub development_config :
      Option Bytes → Result String (ChainSpec (GenesisConfig AuraId GrandpaId AccountId))
  development_config none = err "Development wasm not available"
  development_config (some wasm_binary) = ok (record {
    name = "Development";
    id = "dev";
    chain_type = development;
    genesis =
        genesis_of wasm_binary ("Alice" ∷ []) "Alice"
          ("Alice" ∷ "Bob" ∷ "Alice//stash" ∷ "Bob//stash" ∷ []);
  })

  pub local_testnet_config :
      Option Bytes → Result String (ChainSpec (GenesisConfig AuraId GrandpaId AccountId))
  local_testnet_config none = err "Development wasm not available"
  local_testnet_config (some wasm_binary) = ok (record {
    name = "Local Testnet";
    id = "local_testnet";
    chain_type = local;
    genesis = genesis_of wasm_binary ("Alice" ∷ "Bob" ∷ "Charlie" ∷ "Dave" ∷ []) "Alice" (
        "Alice" ∷ "Bob" ∷ "Charlie" ∷ "Dave" ∷ "Eve" ∷ "Ferdie" ∷ "Alice//stash" ∷ "Bob//stash"
        ∷ "Charlie//stash" ∷ "Dave//stash" ∷ "Eve//stash" ∷ "Ferdie//stash" ∷ []);
  })
