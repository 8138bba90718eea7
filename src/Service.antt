-- ===== src/Service.antt =====
-- node/src/service.rs: how a node is put together and started. What Substrate builds is a
-- parameter; a log records, in their order, the tasks that are started.
pub mod Partial
pub mod Full
pub mod Runs
pub mod Built
pub mod Startup
pub mod Succeeds
use validated_streams.Base.{
  ℕ, Bool, true, false, not, List, [], ◌∷◌, ◌++◌, Option, none, some, String, Result, ok, err,
  map_err, if◌then◌else◌,
}
use validated_streams.Primitives.{H256}

-- `ServiceError`, and the panic of `expect`
pub data StartFailure : Type 0 where
  other : String → StartFailure
  of_substrate : String → StartFailure
  panicked : String → StartFailure

-- `sc_service::Configuration`, the parts that the code reads
pub record Configuration : Type 0 where
  pub keystore_remote : Option String
  pub telemetry_endpoints : Option (List String)
  pub is_authority : Bool
  pub offchain_worker_enabled : Bool
  pub disable_grandpa : Bool
  pub force_authoring : Bool
  pub node_name : String
  pub extra_sets : List String

-- The block import of the two builds: GRANDPA's alone, or behind `ValidatedStreamsBlockImport`,
-- which checks the events of a block against a storage of proofs.
pub data NodeImport (Grandpa Storage : Type 0) : Type 0 where
  unchecked : Grandpa → NodeImport Grandpa Storage
  checked : Grandpa → Storage → NodeImport Grandpa Storage

-- What is started.
pub data Started (Grandpa Storage Keystore Sync : Type 0) : Type 0 where
  telemetry_worker : Started Grandpa Storage Keystore Sync
  -- the import queue, by the import that it feeds
  importing : NodeImport Grandpa Storage → Started Grandpa Storage Keystore Sync
  -- `consensus_validated_streams::start`, by the storage that its gossip handler writes
  event_services : Storage → Started Grandpa Storage Keystore Sync
  -- the block import is told of the sync service
  sync_provided : Sync → Started Grandpa Storage Keystore Sync
  offchain_workers : Started Grandpa Storage Keystore Sync
  rpc_and_services : Started Grandpa Storage Keystore Sync
  authoring : NodeImport Grandpa Storage → ℕ → Bool → Started Grandpa Storage Keystore Sync
  voting : Option Keystore → String → Started Grandpa Storage Keystore Sync
  network : Started Grandpa Storage Keystore Sync

-- The machine: what Substrate keeps, and the log.
pub record Machine (Env Entry : Type 0) : Type 0 where
  pub env : Env
  pub log : List Entry

-- The calls of Substrate. Each can fail, with the text of its error.
pub record Substrate
    (Env Worker Telemetry Client Backend Keystore Grandpa Link Storage Queue Network Sync : Type 0)
    : Type 0 where
  pub telemetry_new : ℕ → Env → Result String Worker × Env
  pub new_telemetry : Worker → List String → Telemetry
  pub new_full_parts :
      Configuration → Option Telemetry → Env → Result String (Client × Backend × Keystore) × Env
  pub grandpa_block_import : Client → Option Telemetry → Env → Result String (Grandpa × Link) × Env
  pub offchain_storage : Backend → Option Storage
  pub set_remote_keystore : Keystore → Keystore → Keystore
  pub slot_duration : Client → Env → Result String ℕ × Env
  pub import_queue : NodeImport Grandpa Storage → Grandpa → ℕ → Env → Result String Queue × Env
  pub block_hash : Client → ℕ → Result String (Option H256)
  pub protocol_standard_name : H256 → String
  pub build_network : List String → Client → Queue → Env → Result String (Network × Sync) × Env
  pub spawn_tasks : Client → Network → Keystore → Env → Result String (Unit {0}) × Env
  pub start_aura : NodeImport Grandpa Storage → ℕ → Keystore → Env → Result String (Unit {0}) × Env
  pub run_grandpa_voter :
      Link → Network → Option Keystore → String → Env → Result String (Unit {0}) × Env

-- `sc_service::PartialComponents`, the parts that are used later
pub record PartialComponents (Client Backend Keystore Grandpa Link Storage Queue : Type 0)
    : Type 0 where
  pub client : Client
  pub backend : Backend
  pub keystore_container : Keystore
  pub import_queue : Queue
  pub block_import : NodeImport Grandpa Storage
  pub grandpa_link : Link
  pub event_proofs : Storage

-- A step of the start-up: it can fail, and what was started before stays started.
abbrev pub Step : Type 0 → Type 0 → Type 0 → Type 0
Step Env Entry A = Machine Env Entry → Result StartFailure A × Machine Env Entry

module _ {Env Entry : Type 0} where
  unfoldable pub pure : {A : Type 0} → A → Step Env Entry A
  pure a m = (ok a, m)

  unfoldable pub lift : {A : Type 0} → Result StartFailure A → Step Env Entry A
  lift r m = (r, m)

  infixl 5 ◌>>=◌ ◌>>◌
  unfoldable pub ◌>>=◌ :
      {A B : Type 0} → Step Env Entry A → (A → Step Env Entry B) → Step Env Entry B
  ◌>>=◌ m f s = let (r, s') = m s in elim r [ ok a ↦ f a s' | err e ↦ (err e, s') ]

  abbrev pub ◌>>◌ : {A B : Type 0} → Step Env Entry A → Step Env Entry B → Step Env Entry B
  m >> n = m >>= λ _. n

  -- a call of Substrate with `?`
  unfoldable pub calls : {A : Type 0} → (Env → Result String A × Env) → Step Env Entry A
  calls f m = let (r, env) = f m.env in (map_err of_substrate r, record m { env = env })

  unfoldable pub starts : Entry → Step Env Entry (Unit {0})
  starts entry m = (ok tt, record m { log = m.log ++ entry ∷ [] })
