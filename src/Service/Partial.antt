-- ===== src/Service/Partial.antt =====
-- node/src/service.rs: `new_partial`, which builds the services and starts none but the telemetry.
use validated_streams.Base.{
  Bool, true, false, List, [], ◌∷◌, Option, none, some, String, Result, ok, err,
}
use validated_streams.Service.{
  StartFailure, other, Configuration, NodeImport, unchecked, checked, Started, telemetry_worker,
  importing, Substrate, PartialComponents, Step, pure, lift, ◌>>=◌, ◌>>◌, calls, starts,
}

module _
    {Env Worker Telemetry Client Backend Keystore Grandpa Link Storage Queue Network Sync : Type 0}
    (U : Substrate Env Worker Telemetry Client Backend Keystore Grandpa Link Storage Queue Network
      Sync) where
  abbrev Does : Type 0 → Type 0
  Does = Step Env (Started Grandpa Storage Keystore Sync)

  -- The telemetry of `new_partial`: none without endpoints.
  unfoldable pub new_telemetry : Option (List String) → Does (Option Telemetry)
  new_telemetry none = pure none
  new_telemetry (some []) = pure none
  new_telemetry (some (endpoint ∷ endpoints)) = do
    worker ← calls (U.telemetry_new 16)
    pure (some (U.new_telemetry worker (endpoint ∷ endpoints)))

  -- The worker of the telemetry is spawned once the task manager is there.
  unfoldable pub spawn_telemetry : Option Telemetry → Does (Unit {0})
  spawn_telemetry none = pure tt
  spawn_telemetry (some telemetry) = starts telemetry_worker

  -- `offchain_storage().ok_or_else(..)`
  unfoldable pub require_storage : Option Storage → Result StartFailure Storage
  require_storage none = err (other "Offchain storage is required.")
  require_storage (some storage) = ok storage

  -- `off_chain` is the feature `off-chain-proofs`.
  unfoldable pub node_import : Bool → Grandpa → Storage → NodeImport Grandpa Storage
  node_import true grandpa storage = checked grandpa storage
  node_import false grandpa storage = unchecked grandpa

  -- What follows the check of the keystore.
  unfoldable pub build_partial :
      Bool
      → Configuration
      → Does (PartialComponents Client Backend Keystore Grandpa Link Storage Queue)
  build_partial off_chain config = do
    telemetry ← new_telemetry config.telemetry_endpoints
    parts ← calls (U.new_full_parts config telemetry)
    spawn_telemetry telemetry
    grandpa ← calls (U.grandpa_block_import parts.0 telemetry)
    event_proofs ← lift (require_storage (U.offchain_storage parts.1))
    slot_duration ← calls (U.slot_duration parts.0)
    import_queue ←
        calls
          (U.import_queue (node_import off_chain grandpa.0 event_proofs) grandpa.0 slot_duration)
    starts (importing (node_import off_chain grandpa.0 event_proofs))
    pure (record {
      client = parts.0;
      backend = parts.1;
      keystore_container = parts.2;
      import_queue = import_queue;
      block_import = node_import off_chain grandpa.0 event_proofs;
      grandpa_link = grandpa.1;
      event_proofs = event_proofs;
    })

  unfoldable pub new_partial :
      Bool
      → Configuration
      → Does (PartialComponents Client Backend Keystore Grandpa Link Storage Queue)
  new_partial off_chain config = elim config.keystore_remote [
    | some url ↦ lift (err (other "Remote Keystores are not supported."))
    | none ↦ build_partial off_chain config
  ]
