-- ===== src/Service/Full.antt =====
-- node/src/service.rs: `new_full`, which starts the node.
use validated_streams.Base.{
  Bool, true, false, not, [], ◌∷◌, ◌++◌, Option, none, some, String, Result, ok, err, if◌then◌else◌,
}
use validated_streams.Primitives.{H256}
use validated_streams.Service.{
  StartFailure, other, panicked, Configuration, NodeImport, Started, event_services, sync_provided,
  offchain_workers, rpc_and_services, authoring, voting, network, Substrate, Step, pure, lift,
  ◌>>=◌, ◌>>◌, calls, starts,
}
use validated_streams.Service.Partial.{new_partial}
use Prim.Native.String.{◌++◌ as str_append}

module _
    {Env Worker Telemetry Client Backend Keystore Grandpa Link Storage Queue Network Sync : Type 0}
    (U : Substrate Env Worker Telemetry Client Backend Keystore Grandpa Link Storage Queue Network
      Sync) where
  abbrev Does : Type 0 → Type 0
  Does = Step Env (Started Grandpa Storage Keystore Sync)

  unfoldable pub remote_keystore : String → Result String Keystore
  remote_keystore url = err "Remote Keystore not supported."

  -- The second check of the keystore, in `new_full`.
  unfoldable pub hook_keystore : Option String → Keystore → Does Keystore
  hook_keystore none keystore = pure keystore
  hook_keystore (some url) keystore = elim (remote_keystore url) [
    | ok k ↦ pure (U.set_remote_keystore k keystore)
    | err e ↦ lift (
        err (
          other (
            str_append (str_append (str_append "Error hooking up remote keystore for " url) ": ")
              e)))
  ]

  -- `.ok().flatten().expect(..)`
  unfoldable pub expect_genesis : Result String (Option H256) → Result StartFailure H256
  expect_genesis (ok (some hash)) = ok hash
  expect_genesis (ok none) = err (panicked "Genesis block exists; qed")
  expect_genesis (err e) = err (panicked "Genesis block exists; qed")

  unfoldable pub provide_sync_service : Bool → Sync → Does (Unit {0})
  provide_sync_service true sync = starts (sync_provided sync)
  provide_sync_service false sync = pure tt

  unfoldable pub build_offchain_workers : Bool → Does (Unit {0})
  build_offchain_workers enabled = if enabled then starts offchain_workers else pure tt

  -- `if role.is_authority()`
  unfoldable pub start_authoring :
      Bool → Client → NodeImport Grandpa Storage → Keystore → Bool → Does (Unit {0})
  start_authoring is_authority client block_import keystore force_authoring =
      if is_authority
      then (do
        slot_duration ← calls (U.slot_duration client)
        calls (U.start_aura block_import slot_duration keystore)
        starts (authoring block_import slot_duration force_authoring))
      else pure tt

  -- `if enable_grandpa`
  unfoldable pub start_voting : Bool → Link → Network → Option Keystore → String → Does (Unit {0})
  start_voting enable_grandpa link net keystore name =
      if enable_grandpa
      then (do calls (U.run_grandpa_voter link net keystore name); starts (voting keystore name))
      else pure tt

  -- All but the last call of `new_full`.
  unfoldable pub prepare : Bool → Configuration → Does (Unit {0})
  prepare off_chain config = do
    parts ← new_partial U off_chain config
    starts (event_services parts.event_proofs)
    keystore ← hook_keystore config.keystore_remote parts.keystore_container
    genesis ← lift (expect_genesis (U.block_hash parts.client 0))
    built ← calls (
        U.build_network (config.extra_sets ++ U.protocol_standard_name genesis ∷ []) parts.client
          parts.import_queue)
    provide_sync_service off_chain built.1
    build_offchain_workers config.offchain_worker_enabled
    calls (U.spawn_tasks parts.client built.0 keystore)
    starts rpc_and_services
    start_authoring config.is_authority parts.client parts.block_import keystore
        config.force_authoring
    start_voting (not config.disable_grandpa) parts.grandpa_link built.0
        (if config.is_authority then some keystore else none) config.node_name

  unfoldable pub new_full : Bool → Configuration → Does (Unit {0})
  new_full off_chain config = do prepare off_chain config; starts network
