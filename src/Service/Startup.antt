-- ===== src/Service/Startup.antt =====
-- What `new_full` starts, and when the network is started.
use validated_streams.Base.{
  ℕ, ◌≡◌, refl, ap, ◌∙◌, ◌⊎◌, inl, inr, Bool, true, false, not, List, [], ◌∷◌, ◌++◌, Option, none,
  some, String, Result, ok, err, if◌then◌else◌, arith,
}
use validated_streams.Service.{
  StartFailure, Configuration, NodeImport, Started, telemetry_worker, importing, event_services,
  sync_provided, offchain_workers, rpc_and_services, authoring, voting, network, Machine, Substrate,
  ◌>>=◌, starts,
}
use validated_streams.Service.Built.{has_endpoints, new_partial-Runs}
use validated_streams.Service.Full.{
  hook_keystore, remote_keystore, provide_sync_service, build_offchain_workers, start_authoring,
  start_voting, prepare, new_full,
}
use validated_streams.Service.Partial.{node_import}
use validated_streams.Service.Runs.{
  Runs, Outcome, any, Runs-pure, Runs-lift, Runs-calls, Runs-starts, Runs-bind, Runs-map,
}
use mathlib.Core.List.{append_assoc}

module _
    {Env Worker Telemetry Client Backend Keystore Grandpa Link Storage Queue Network Sync : Type 0}
    (U : Substrate Env Worker Telemetry Client Backend Keystore Grandpa Link Storage Queue Network
      Sync) where
  abbrev Log : Type 0
  Log = List (Started Grandpa Storage Keystore Sync)

  abbrev pub is_network : Started Grandpa Storage Keystore Sync → Bool
  is_network network = true
  is_network _ = false

  hook_keystore-Runs :
      (remote : Option String) (k : Keystore)
      → Runs is_network (hook_keystore U remote k) (λ k' es. (k' ≡ k) × (es ≡ []))
  unfolding hook_keystore remote_keystore
  hook_keystore-Runs none k = Runs-pure k
  hook_keystore-Runs (some url) k = Runs-map _ (Runs-lift _) (λ k' es h. absurd (cc (h.0)))

  provide_sync_service-Runs :
      (off_chain : Bool) (sync : Sync)
      → Runs is_network
          (provide_sync_service U off_chain sync)
          (λ u es. es ≡ (if off_chain then sync_provided sync ∷ [] else []))
  unfolding provide_sync_service
  provide_sync_service-Runs true sync = Runs-starts _ refl
  provide_sync_service-Runs false sync = Runs-map _ (Runs-pure tt) (λ u es h. h.1)

  build_offchain_workers-Runs :
      (enabled : Bool)
      → Runs is_network
          (build_offchain_workers U enabled)
          (λ u es. es ≡ (if enabled then offchain_workers ∷ [] else []))
  unfolding build_offchain_workers
  build_offchain_workers-Runs true = Runs-starts _ refl
  build_offchain_workers-Runs false = Runs-map _ (Runs-pure tt) (λ u es h. h.1)

  start_authoring-Runs :
      (is_authority : Bool) (client : Client) (i : NodeImport Grandpa Storage) (k : Keystore)
      (force : Bool)
      → Runs is_network
          (start_authoring U is_authority client i k force)
          (λ u es. (slot : ℕ) × (es ≡ (if is_authority then authoring i slot force ∷ [] else [])))
  unfolding start_authoring
  start_authoring-Runs true client i k force = Runs-bind _ _ (Runs-calls _) λ slot es a.
      Runs-bind _ _ (Runs-calls _)
        λ u fs b. Runs-map _ (Runs-starts _ refl) λ v gs c. (slot, cc (a, b, c))
  start_authoring-Runs false client i k force = Runs-map _ (Runs-pure tt) (λ u es h. (0, h.1))

  start_voting-Runs :
      (enable : Bool) (link : Link) (net : Network) (k : Option Keystore) (name : String)
      → Runs is_network
          (start_voting U enable link net k name)
          (λ u es. es ≡ (if enable then voting k name ∷ [] else []))
  unfolding start_voting
  start_voting-Runs true link net k name =
      Runs-bind _ _ (Runs-calls _) λ u es a. Runs-map _ (Runs-starts _ refl) λ v fs b. cc (a, b)
  start_voting-Runs false link net k name = Runs-map _ (Runs-pure tt) (λ u es h. h.1)

  -- What is started, in order, before the network.
  abbrev pub plan :
      Bool → Configuration → NodeImport Grandpa Storage → Storage → Keystore → Sync → ℕ → Log
  plan off_chain config i storage keystore sync slot =
      (if has_endpoints config.telemetry_endpoints then telemetry_worker ∷ [] else [])
      ++ (importing i
          ∷ event_services storage
          ∷ ((if off_chain then sync_provided sync ∷ [] else [])
              ++ ((if config.offchain_worker_enabled then offchain_workers ∷ [] else [])
                  ++ (rpc_and_services
                      ∷ ((if config.is_authority
                            then authoring i slot config.force_authoring ∷ []
                            else [])
                          ++ (if not config.disable_grandpa
                              then voting (if config.is_authority then some keystore else none)
                                  config.node_name
                                ∷ []
                              else []))))))

  abbrev IsPrepared : Bool → Configuration → Log → Type 0
  IsPrepared off_chain config es =
      (grandpa : Grandpa) × (storage : Storage) × (keystore : Keystore) × (sync : Sync) × (slot : ℕ)
      × (config.keystore_remote ≡ none)
      × (es
          ≡ plan off_chain config (node_import U off_chain grandpa storage) storage keystore sync
              slot)

  prepare-Runs :
      (off_chain : Bool) (config : Configuration)
      → Runs is_network (prepare U off_chain config) (λ u es. IsPrepared off_chain config es)
  unfolding prepare
  prepare-Runs off_chain config =
      Runs-bind _ _ (new_partial-Runs U is_network refl (λ i. refl) off_chain config) λ parts es a.
        Runs-bind _ _ (Runs-starts _ refl) λ u fs b.
          Runs-bind _ _ (hook_keystore-Runs config.keystore_remote _) λ k gs c.
            Runs-bind _ _ (Runs-lift _) λ h hs d. Runs-bind _ _ (Runs-calls _) λ net is e.
              Runs-bind _ _ (provide_sync_service-Runs off_chain net.1) λ u js f.
                Runs-bind _ _ (build_offchain_workers-Runs config.offchain_worker_enabled) λ u ks g.
                  Runs-bind _ _ (Runs-calls _) λ u ls i.
                    Runs-bind _ _ (Runs-starts _ refl) λ u ms j.
                      Runs-bind _ _ (start_authoring-Runs _ _ _ _ _) λ u ns l.
                        Runs-map _ (start_voting-Runs _ _ _ _ _) λ u os m.
                          let tail =
                            fs
                            ++ (gs ++ (hs ++ (is ++ (js ++ (ks ++ (ls ++ (ms ++ (ns ++ os)))))))) in
                          let front : Log =
                            if has_endpoints config.telemetry_endpoints
                            then telemetry_worker ∷ []
                            else [] in
                          let regroup =
                            append_assoc front (importing parts.block_import ∷ []) tail in
                          (
                            a.1.0,
                            parts.event_proofs,
                            k,
                            net.1,
                            l.0,
                            a.0,
                            cc (a.1.1, a.1.2, regroup, b, c.1, d.1, e, f, g, i, j, l.1, m),
                          )

  module _ (off_chain : Bool) (config : Configuration)
      (m : Machine Env (Started Grandpa Storage Keystore Sync)) where
    -- The node runs. The network is started last.
    pub record IsStarted : Type 0 where
      pub grandpa : Grandpa
      pub storage : Storage
      pub keystore : Keystore
      pub sync : Sync
      pub slot : ℕ
      pub local_keystore : config.keystore_remote ≡ none
      pub returns : (new_full U off_chain config m).0 ≡ ok tt
      pub log :
          (new_full U off_chain config m).1.log
          ≡ m.log
            ++ (plan off_chain config
                  (node_import U off_chain grandpa storage)
                  storage
                  keystore
                  sync
                  slot
                ++ network ∷ [])

    -- The start-up has failed, and the network is not started.
    pub record IsFailed : Type 0 where
      pub reason : StartFailure
      pub fails : (new_full U off_chain config m).0 ≡ err reason
      pub started : Log
      pub log : (new_full U off_chain config m).1.log ≡ m.log ++ started
      pub no_network : any is_network started ≡ false

    outcome :
        (r : Result StartFailure (Unit {0}) × Machine Env (Started Grandpa Storage Keystore Sync))
        → prepare U off_chain config m ≡ r
        → Outcome is_network (λ u es. IsPrepared off_chain config es) m r
        → IsStarted ⊎ IsFailed
    unfolding new_full ◌>>=◌ starts
    outcome (err reason, m') run (es, added) =
        let whole : new_full U off_chain config m ≡ (err reason, m') = ground (arith, run) in
        inr (record {
          reason = reason;
          fails = ap (λ r. r.0) whole;
          started = es;
          log = ap (λ r. r.1.log) whole ∙ added.added;
          no_network = added.none_banned;
        })
    outcome (ok u, m') run (es, added, (grandpa, storage, keystore, sync, slot, local, planned)) =
        let whole : new_full U off_chain config m
            ≡ (ok tt, record m' { log = m'.log ++ network ∷ [] }) =
          ground (arith, run) in
        inl (record {
          grandpa = grandpa;
          storage = storage;
          keystore = keystore;
          sync = sync;
          slot = slot;
          local_keystore = local;
          returns = ap (λ r. r.0) whole;
          log =
              ap (λ r. r.1.log) whole
              ∙ rw (added.added, ← planned) (append_assoc m.log es (network ∷ []));
        })

    -- If the start-up succeeds then no remote keystore is configured, and exactly these are
    -- started, in this order: the telemetry if it has endpoints, the import queue, the services of
    -- Validated Streams, in the build that keeps proofs off the chain the notice of the sync
    -- service, the off-chain workers if enabled, RPC, the authoring of blocks if the node is an
    -- authority, the GRANDPA voter unless it is disabled, with a keystore if the node is an
    -- authority, and last the network. In that build both the import queue and the authoring
    -- import blocks by a check against the very storage that the services of Validated Streams
    -- write. If the start-up fails, the network is not started.
    pub new_full_lem : IsStarted ⊎ IsFailed
    new_full_lem =
        outcome (prepare U off_chain config m) refl ((prepare-Runs off_chain config).at m)
