-- ===== src/Command/Offline.antt =====
-- A subcommand starts no service of a node.
use validated_streams.Base.{
  ◌≡◌, refl, ap, ◌⊎◌, inl, inr, Bool, true, false, List, [], ◌∷◌, ◌++◌, some, String, Result, ok,
  err, if◌then◌else◌,
}
use validated_streams.Command.{
  BenchmarkCommand, pallet, block, storage, overhead, extrinsic, machine, Subcommand, key,
  build_spec, check_block, export_blocks, export_state, import_blocks, purge_chain, revert,
  benchmark, try_runtime, chain_info, Features, Tools, Given, on_partial, on_inherents,
  run_benchmark, run_tool, run_command, run,
}
use validated_streams.Service.{
  StartFailure, Configuration, Started, telemetry_worker, importing, Machine, Substrate,
  PartialComponents, Step, lift, ◌>>=◌, calls,
}
use validated_streams.Service.Built.{new_partial-Runs}
use validated_streams.Service.Runs.{
  any, IsAdded, Outcome, Runs, Runs-lift, Runs-calls, Runs-bind, Runs-map,
}

-- The subcommands that work on the parts of a node.
abbrev pub uses_node : Subcommand → Bool
uses_node check_block = true
uses_node export_blocks = true
uses_node export_state = true
uses_node import_blocks = true
uses_node revert = true
uses_node (benchmark block) = true
uses_node (benchmark storage) = true
uses_node (benchmark overhead) = true
uses_node (benchmark extrinsic) = true
uses_node _ = false

module _ {Grandpa Storage Keystore Sync : Type 0} where
  -- What belongs to a running node: all but the worker of the telemetry and the import queue.
  abbrev pub is_online : Started Grandpa Storage Keystore Sync → Bool
  is_online telemetry_worker = false
  is_online (importing i) = false
  is_online _ = true

  -- What the subcommand may not start.
  abbrev banned_by : Subcommand → Started Grandpa Storage Keystore Sync → Bool
  banned_by cmd e = if uses_node cmd then is_online e else true

  any-none :
      (es : List (Started Grandpa Storage Keystore Sync)) → any (λ e. true) es ≡ false → es ≡ []
  any-none [] h = refl
  any-none (e ∷ es) h = absurd (cc h)

  allowed :
      (b : Bool) (es : List (Started Grandpa Storage Keystore Sync))
      → any (λ e. if b then is_online e else true) es ≡ false
      → (any is_online es ≡ false) × ((b ≡ true) ⊎ (es ≡ []))
  allowed true es h = (h, inl refl)
  allowed false es h = (ap (any is_online) (any-none es h), inr (any-none es h))

module _
    {Env Worker Telemetry Client Backend Keystore Grandpa Link Storage Queue Network Sync
      Inherents : Type 0}
    (U : Substrate Env Worker Telemetry Client Backend Keystore Grandpa Link Storage Queue Network
      Sync)
    (T : Tools Env Client Backend Queue Inherents) (features : Features) where
  -- the step adds nothing that the subcommand may not start
  abbrev Allowed : Subcommand → Step Env (Started Grandpa Storage Keystore Sync) (Unit {0}) → Type 0
  Allowed cmd step = Runs (banned_by cmd) step (λ u es. Unit {0})

  execute-Allowed :
      (cmd : Subcommand) (f : Env → Result String (Unit {0}) × Env) → Allowed cmd (calls f)
  execute-Allowed cmd f = Runs-map _ (Runs-calls f) (λ u es h. tt)

  refused-Allowed : (cmd : Subcommand) (e : StartFailure) → Allowed cmd (lift (err e))
  refused-Allowed cmd e = Runs-map _ (Runs-lift (err e)) (λ u es h. tt)

  gated-Allowed :
      (cmd : Subcommand) (b : Bool)
      (s t : Step Env (Started Grandpa Storage Keystore Sync) (Unit {0}))
      → Allowed cmd s
      → Allowed cmd t
      → Allowed cmd (if b then s else t)
  gated-Allowed cmd true s t hs ht = hs
  gated-Allowed cmd false s t hs ht = ht

  on_partial-Allowed :
      (cmd : Subcommand) (config : Configuration)
      (given : PartialComponents Client Backend Keystore Grandpa Link Storage Queue
        → Given Client Backend Queue Inherents)
      → uses_node cmd ≡ true
      → Allowed cmd (on_partial U T features cmd config given)
  unfolding on_partial
  on_partial-Allowed cmd config given uses =
      Runs-bind _ _
        (new_partial-Runs U (banned_by cmd) (rw uses) (λ i. rw uses) features.off_chain_proofs
          config)
        (λ p es h. execute-Allowed cmd _)

  on_inherents-Allowed :
      (cmd : Subcommand) (config : Configuration)
      (given : Client → Inherents → Given Client Backend Queue Inherents)
      → uses_node cmd ≡ true
      → Allowed cmd (on_inherents U T features cmd config given)
  unfolding on_inherents
  on_inherents-Allowed cmd config given uses =
      Runs-bind _ _
        (new_partial-Runs U (banned_by cmd) (rw uses) (λ i. rw uses) features.off_chain_proofs
          config)
        (λ p es h. Runs-bind _ _ (Runs-calls _) (λ i fs k. execute-Allowed cmd _))

  run_benchmark-Allowed :
      (b : BenchmarkCommand) (config : Configuration)
      → Allowed (benchmark b) (run_benchmark U T features b config)
  unfolding run_benchmark
  run_benchmark-Allowed pallet config =
      gated-Allowed (benchmark pallet) features.runtime_benchmarks _ _
        (execute-Allowed (benchmark pallet) _) (refused-Allowed (benchmark pallet) _)
  run_benchmark-Allowed block config = on_partial-Allowed (benchmark block) config _ refl
  run_benchmark-Allowed storage config =
      gated-Allowed (benchmark storage) features.runtime_benchmarks _ _
        (on_partial-Allowed (benchmark storage) config _ refl)
        (refused-Allowed (benchmark storage) _)
  run_benchmark-Allowed overhead config = on_inherents-Allowed (benchmark overhead) config _ refl
  run_benchmark-Allowed extrinsic config = on_inherents-Allowed (benchmark extrinsic) config _ refl
  run_benchmark-Allowed machine config = execute-Allowed (benchmark machine) _

  run_tool-Allowed :
      (cmd : Subcommand) (config : Configuration) → Allowed cmd (run_tool U T features cmd config)
  unfolding run_tool
  run_tool-Allowed key config = execute-Allowed key _
  run_tool-Allowed build_spec config = execute-Allowed build_spec _
  run_tool-Allowed check_block config = on_partial-Allowed check_block config _ refl
  run_tool-Allowed export_blocks config = on_partial-Allowed export_blocks config _ refl
  run_tool-Allowed export_state config = on_partial-Allowed export_state config _ refl
  run_tool-Allowed import_blocks config = on_partial-Allowed import_blocks config _ refl
  run_tool-Allowed purge_chain config = execute-Allowed purge_chain _
  run_tool-Allowed revert config = on_partial-Allowed revert config _ refl
  run_tool-Allowed (benchmark b) config = run_benchmark-Allowed b config
  run_tool-Allowed try_runtime config =
      Runs-bind _ _ (Runs-calls _) (λ u es h. execute-Allowed try_runtime _)
  run_tool-Allowed chain_info config = execute-Allowed chain_info _

  with_runner-Allowed :
      (cmd : Subcommand)
      → Allowed cmd
          (calls (T.create_runner (some cmd)) >>= λ config. run_tool U T features cmd config)
  with_runner-Allowed cmd =
      Runs-bind _ _ (Runs-calls _) (λ config es h. run_tool-Allowed cmd config)

  run_command-Allowed : (cmd : Subcommand) → Allowed cmd (run_command U T features cmd)
  unfolding run_command
  run_command-Allowed key = execute-Allowed key _
  run_command-Allowed try_runtime =
      gated-Allowed try_runtime features.try_runtime _ _ (with_runner-Allowed try_runtime)
        (refused-Allowed try_runtime _)
  run_command-Allowed cmd = with_runner-Allowed cmd

  added :
      (cmd : Subcommand) (m : Machine Env (Started Grandpa Storage Keystore Sync))
      (r : Result StartFailure (Unit {0}) × Machine Env (Started Grandpa Storage Keystore Sync))
      → Outcome (banned_by cmd) (λ u es. Unit {0}) m r
      → (es : List (Started Grandpa Storage Keystore Sync)) × IsAdded (banned_by cmd) m r.1 es
  added cmd m (ok u, m') (es, h, _) = (es, h)
  added cmd m (err e, m') (es, h) = (es, h)

  -- Whatever the libraries answer, and whether it succeeds or fails, a subcommand adds nothing of
  -- a running node to what is started: no service of Validated Streams, no authoring of blocks, no
  -- voter and no network, but at most the worker of the telemetry and an import queue, and not
  -- these either unless it is one that works on the parts of a node.
  pub run_offline :
      (cmd : Subcommand) (m : Machine Env (Started Grandpa Storage Keystore Sync))
      → (es : List (Started Grandpa Storage Keystore Sync)) × ((run U T features (some cmd) m).1.log
          ≡ m.log ++ es)
        × (any is_online es ≡ false)
        × ((uses_node cmd ≡ true) ⊎ (es ≡ []))
  unfolding run
  run_offline cmd m =
      let (es, h) = added cmd m _ ((run_command-Allowed cmd).at m) in
      let (offline, parts) = allowed (uses_node cmd) es h.none_banned in
      (es, h.added, offline, parts)
