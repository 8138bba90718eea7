-- ===== src/Command.antt =====
-- node/src/command.rs and node/src/cli.rs: the command line of the node, which chooses between
-- starting the node and running a tool on its parts. The tools are Substrate's.
pub mod Offline
use validated_streams.Base.{
  ℕ, Bool, true, false, List, [], ◌∷◌, Option, none, some, String, Result, ok, err, map_err,
  if◌then◌else◌,
}
use validated_streams.ChainSpec.{
  ChainSpec, GenesisConfig, KeyDerivation, development_config, local_testnet_config,
}
use validated_streams.Primitives.{Bytes}
use validated_streams.Service.{
  StartFailure, other, Configuration, Started, Substrate, PartialComponents, Step, pure, lift,
  ◌>>=◌, ◌>>◌, calls,
}
use validated_streams.Service.Full.{new_full}
use validated_streams.Service.Partial.{new_partial}
use text.Mathlib.Text.{◌==◌ as str_eq}
use Prim.Native.String.{◌++◌ as str_append}

-- `frame_benchmarking_cli::BenchmarkCmd`
pub data BenchmarkCommand : Type 0 where
  pallet block storage overhead extrinsic machine : BenchmarkCommand

-- `enum Subcommand`
pub data Subcommand : Type 0 where
  key build_spec check_block export_blocks export_state : Subcommand
  import_blocks purge_chain revert : Subcommand
  benchmark : BenchmarkCommand → Subcommand
  try_runtime chain_info : Subcommand

-- The Cargo features that the code asks for.
pub record Features : Type 0 where
  pub off_chain_proofs : Bool
  pub runtime_benchmarks : Bool
  pub try_runtime : Bool

-- `load_spec`, with `ChainSpec::from_json_file` as a parameter
module _ {AuraId GrandpaId AccountId : Type 0} (K : KeyDerivation AuraId GrandpaId AccountId)
    (wasm_binary : Option Bytes)
    (from_json_file : String
      → Result String (ChainSpec (GenesisConfig AuraId GrandpaId AccountId))) where
  unfoldable pub load_spec :
      String → Result String (ChainSpec (GenesisConfig AuraId GrandpaId AccountId))
  load_spec id =
      if str_eq id "dev"
      then development_config K wasm_binary
      else if str_eq id ""
      then local_testnet_config K wasm_binary
      else if str_eq id "local"
      then local_testnet_config K wasm_binary
      else from_json_file id

-- `EXISTENTIAL_DEPOSIT` of the runtime
abbrev pub existential_deposit : ℕ
existential_deposit = 500

-- What a tool is given.
pub data Given (Client Backend Queue Inherents : Type 0) : Type 0 where
  the_cli : Given Client Backend Queue Inherents
  the_config : Configuration → Given Client Backend Queue Inherents
  the_client : Client → Given Client Backend Queue Inherents
  client_and_queue : Client → Queue → Given Client Backend Queue Inherents
  client_and_config : Client → Configuration → Given Client Backend Queue Inherents
  client_and_backend : Client → Backend → Given Client Backend Queue Inherents
  storage_of : Configuration → Client → Backend → Given Client Backend Queue Inherents
  remarks : Configuration → Client → Inherents → Given Client Backend Queue Inherents
  remarks_and_transfers : Client → Inherents → ℕ → Given Client Backend Queue Inherents
  block_millisecs : ℕ → Given Client Backend Queue Inherents

-- The calls of the command line's libraries.
pub record Tools (Env Client Backend Queue Inherents : Type 0) : Type 0 where
  -- `create_runner`, for a subcommand or for the node, with the configuration it reads
  pub create_runner : Option Subcommand → Env → Result String Configuration × Env
  -- the inherent data of a block with the given timestamp
  pub provide_inherent_data : ℕ → Env → Result String Inherents × Env
  -- a task manager of its own, for `try-runtime`
  pub task_manager : Configuration → Env → Result String (Unit {0}) × Env
  pub execute :
      Subcommand → Given Client Backend Queue Inherents → Env → Result String (Unit {0}) × Env

module _
    {Env Worker Telemetry Client Backend Keystore Grandpa Link Storage Queue Network Sync
      Inherents : Type 0}
    (U : Substrate Env Worker Telemetry Client Backend Keystore Grandpa Link Storage Queue Network
      Sync)
    (T : Tools Env Client Backend Queue Inherents) (features : Features) where
  abbrev Does : Type 0 → Type 0
  Does = Step Env (Started Grandpa Storage Keystore Sync)

  abbrev execute : Subcommand → Given Client Backend Queue Inherents → Does (Unit {0})
  execute cmd given = calls (T.execute cmd given)

  -- `inherent_benchmark_data` of node/src/benchmarking.rs
  unfoldable pub inherent_benchmark_data : Env → Result String Inherents × Env
  inherent_benchmark_data s =
      let (r, s') = T.provide_inherent_data 0 s in
      (map_err (λ e. str_append "creating inherent data: " e) r, s')

  -- A tool that works on the parts of a node.
  unfoldable pub on_partial :
      Subcommand
      → Configuration
      → (PartialComponents Client Backend Keystore Grandpa Link Storage Queue
          → Given Client Backend Queue Inherents)
      → Does (Unit {0})
  on_partial cmd config given = do
    parts ← new_partial U features.off_chain_proofs config
    execute cmd (given parts)

  -- the same, with inherent data
  unfoldable pub on_inherents :
      Subcommand
      → Configuration
      → (Client → Inherents → Given Client Backend Queue Inherents)
      → Does (Unit {0})
  on_inherents cmd config given = do
    parts ← new_partial U features.off_chain_proofs config
    inherents ← calls inherent_benchmark_data
    execute cmd (given parts.client inherents)

  unfoldable pub run_benchmark : BenchmarkCommand → Configuration → Does (Unit {0})
  run_benchmark pallet config =
      if features.runtime_benchmarks
      then execute (benchmark pallet) (the_config config)
      else lift (
          err (
            other
              "Runtime benchmarking wasn't enabled when building the node. You can enable it with `--features runtime-benchmarks`."))
  run_benchmark block config = on_partial (benchmark block) config (λ p. the_client p.client)
  run_benchmark storage config =
      if features.runtime_benchmarks
      then on_partial (benchmark storage) config (λ p. storage_of config p.client p.backend)
      else lift
          (err (other "Storage benchmarking can be enabled with `--features runtime-benchmarks`."))
  run_benchmark overhead config = on_inherents (benchmark overhead) config (remarks config)
  run_benchmark extrinsic config =
      on_inherents (benchmark extrinsic) config
        (λ c i. remarks_and_transfers c i existential_deposit)
  run_benchmark machine config = execute (benchmark machine) (the_config config)

  -- the arms of `run` once the runner is there
  unfoldable pub run_tool : Subcommand → Configuration → Does (Unit {0})
  run_tool key config = execute key the_cli
  run_tool build_spec config = execute build_spec (the_config config)
  run_tool check_block config =
      on_partial check_block config (λ p. client_and_queue p.client p.import_queue)
  run_tool export_blocks config =
      on_partial export_blocks config (λ p. client_and_config p.client config)
  run_tool export_state config =
      on_partial export_state config (λ p. client_and_config p.client config)
  run_tool import_blocks config =
      on_partial import_blocks config (λ p. client_and_queue p.client p.import_queue)
  run_tool purge_chain config = execute purge_chain (the_config config)
  run_tool revert config = on_partial revert config (λ p. client_and_backend p.client p.backend)
  run_tool (benchmark b) config = run_benchmark b config
  run_tool try_runtime config = do
    calls (T.task_manager config)
    execute try_runtime (block_millisecs 6000)
  run_tool chain_info config = execute chain_info (the_config config)

  -- The subcommands that need no runner come first.
  unfoldable pub run_command : Subcommand → Does (Unit {0})
  run_command key = execute key the_cli
  run_command try_runtime =
      if features.try_runtime
      then (do config ← calls (T.create_runner (some try_runtime)); run_tool try_runtime config)
      else lift (
          err (
            other
              "TryRuntime wasn't enabled when building the node. You can enable it with `--features try-runtime`."))
  run_command cmd = do config ← calls (T.create_runner (some cmd)); run_tool cmd config

  -- `run`
  unfoldable pub run : Option Subcommand → Does (Unit {0})
  run (some cmd) = run_command cmd
  run none = do config ← calls (T.create_runner none); new_full U features.off_chain_proofs config
