-- ===== src/Service/Succeeds.antt =====
-- The start-up succeeds if what it calls does.
use validated_streams.Base.{
  ℕ, ◌≡◌, refl, ap, inl, inr, Bool, true, false, List, [], ◌∷◌, Option, none, some, String, Result,
  ok, arith,
}
use validated_streams.Primitives.{H256}
use validated_streams.Service.{
  StartFailure, Configuration, NodeImport, Started, Machine, Substrate, Step, pure, lift, ◌>>=◌,
  calls, starts,
}
use validated_streams.Service.Full.{
  hook_keystore, expect_genesis, provide_sync_service, build_offchain_workers, start_authoring,
  start_voting, prepare, new_full,
}
use validated_streams.Service.Partial.{
  new_telemetry, spawn_telemetry, require_storage, build_partial, new_partial,
}
use validated_streams.Service.Startup.{IsStarted, new_full_lem}

abbrev Answers : {Env A : Type 0} → (Env → Result String A × Env) → Type 0
Answers {Env} {A} f = (s : Env) → (a : A) × ((f s).0 ≡ ok a)

module _ {Env Entry : Type 0} where
  record Succeeds {A : Type 0} (step : Step Env Entry A) : Type 0 where
    at : (m : Machine Env Entry) → (a : A) × (m' : Machine Env Entry) × (step m ≡ (ok a, m'))

  Succeeds-pure : {A : Type 0} (a : A) → Succeeds {A = A} (pure a)
  unfolding pure
  Succeeds-pure a = record { at = λ m. (a, m, refl) }

  Succeeds-lift :
      {A : Type 0} (r : Result StartFailure A) (a : A) → r ≡ ok a → Succeeds {A = A} (lift r)
  unfolding lift
  Succeeds-lift r a h = record { at = λ m. (a, m, ap (λ x. (x, m)) h) }

  Succeeds-calls : {A : Type 0} (f : Env → Result String A × Env) → Answers f → Succeeds (calls f)
  unfolding calls
  Succeeds-calls f h = record {
    at = λ m. ((h m.env).0, record m { env = (f m.env).1 }, ground (arith, (h m.env).1));
  }

  Succeeds-starts : (e : Entry) → Succeeds (starts e)
  unfolding starts
  Succeeds-starts e = record { at = λ m. (tt, _, refl) }

  Succeeds-bind :
      {A B : Type 0} (step : Step Env Entry A) (f : A → Step Env Entry B)
      → Succeeds step
      → ((a : A) → Succeeds (f a))
      → Succeeds (step >>= f)
  unfolding ◌>>=◌
  Succeeds-bind step f s sf = record {
    at = λ m.
        let (a, m', first) = s.at m in
        let (b, m'', second) = (sf a).at m' in (b, m'', ground (arith, first, second));
  }

module _
    {Env Worker Telemetry Client Backend Keystore Grandpa Link Storage Queue Network Sync : Type 0}
    (U : Substrate Env Worker Telemetry Client Backend Keystore Grandpa Link Storage Queue Network
      Sync) where
  -- No call fails, and the database has an off-chain storage and the genesis block.
  pub record IsWorking : Type 0 where
    pub telemetry_new : (n : ℕ) → Answers (U.telemetry_new n)
    pub new_full_parts : (c : Configuration) (t : Option Telemetry) → Answers (U.new_full_parts c t)
    pub grandpa_block_import :
        (c : Client) (t : Option Telemetry) → Answers (U.grandpa_block_import c t)
    pub offchain_storage : (b : Backend) → (s : Storage) × (U.offchain_storage b ≡ some s)
    pub slot_duration : (c : Client) → Answers (U.slot_duration c)
    pub import_queue :
        (i : NodeImport Grandpa Storage) (g : Grandpa) (n : ℕ) → Answers (U.import_queue i g n)
    pub genesis : (c : Client) → (h : H256) × (U.block_hash c 0 ≡ ok (some h))
    pub build_network :
        (sets : List String) (c : Client) (q : Queue) → Answers (U.build_network sets c q)
    pub spawn_tasks : (c : Client) (n : Network) (k : Keystore) → Answers (U.spawn_tasks c n k)
    pub start_aura :
        (i : NodeImport Grandpa Storage) (n : ℕ) (k : Keystore) → Answers (U.start_aura i n k)
    pub run_grandpa_voter :
        (l : Link) (n : Network) (k : Option Keystore) (name : String)
        → Answers (U.run_grandpa_voter l n k name)

  module _ (works : IsWorking) (off_chain : Bool) (config : Configuration)
      (local : config.keystore_remote ≡ none) where
    telemetry-Succeeds : (endpoints : Option (List String)) → Succeeds (new_telemetry U endpoints)
    unfolding new_telemetry
    telemetry-Succeeds none = Succeeds-pure _
    telemetry-Succeeds (some []) = Succeeds-pure _
    telemetry-Succeeds (some (e ∷ es)) =
        Succeeds-bind _ _ (Succeeds-calls _ (works.telemetry_new 16)) λ w. Succeeds-pure _

    spawn-Succeeds : (t : Option Telemetry) → Succeeds (spawn_telemetry U t)
    unfolding spawn_telemetry
    spawn-Succeeds none = Succeeds-pure tt
    spawn-Succeeds (some t) = Succeeds-starts _

    storage-Succeeds :
        (b : Backend)
        → Succeeds {Env = Env} {Entry = Started Grandpa Storage Keystore Sync}
            (lift (require_storage U (U.offchain_storage b)))
    unfolding require_storage
    storage-Succeeds b =
        let (s, found) = works.offchain_storage b in Succeeds-lift _ s (ground (arith, found))

    genesis-Succeeds :
        (c : Client)
        → Succeeds {Env = Env} {Entry = Started Grandpa Storage Keystore Sync}
            (lift (expect_genesis U (U.block_hash c 0)))
    unfolding expect_genesis
    genesis-Succeeds c =
        let (h, found) = works.genesis c in Succeeds-lift _ h (ground (arith, found))

    build-Succeeds : Succeeds (build_partial U off_chain config)
    unfolding build_partial
    build-Succeeds = Succeeds-bind _ _ (telemetry-Succeeds config.telemetry_endpoints) λ t.
        Succeeds-bind _ _ (Succeeds-calls _ (works.new_full_parts config t)) λ parts.
          Succeeds-bind _ _ (spawn-Succeeds t) λ u.
            Succeeds-bind _ _ (Succeeds-calls _ (works.grandpa_block_import parts.0 t)) λ g.
              Succeeds-bind _ _ (storage-Succeeds parts.1) λ s.
                Succeeds-bind _ _ (Succeeds-calls _ (works.slot_duration parts.0)) λ n.
                  Succeeds-bind _ _ (Succeeds-calls _ (works.import_queue _ g.0 n))
                    λ q. Succeeds-bind _ _ (Succeeds-starts _) λ v. Succeeds-pure _

    partial-Succeeds : Succeeds (new_partial U off_chain config)
    unfolding new_partial
    partial-Succeeds = rw (local, new_partial) build-Succeeds

    keystore-Succeeds : (k : Keystore) → Succeeds (hook_keystore U config.keystore_remote k)
    unfolding hook_keystore
    keystore-Succeeds k = rw local (Succeeds-pure k)

    sync-Succeeds : (b : Bool) (s : Sync) → Succeeds (provide_sync_service U b s)
    unfolding provide_sync_service
    sync-Succeeds true s = Succeeds-starts _
    sync-Succeeds false s = Succeeds-pure tt

    workers-Succeeds : (b : Bool) → Succeeds (build_offchain_workers U b)
    unfolding build_offchain_workers
    workers-Succeeds true = Succeeds-starts _
    workers-Succeeds false = Succeeds-pure tt

    authoring-Succeeds :
        (b : Bool) (c : Client) (i : NodeImport Grandpa Storage) (k : Keystore) (force : Bool)
        → Succeeds (start_authoring U b c i k force)
    unfolding start_authoring
    authoring-Succeeds true c i k force =
        Succeeds-bind _ _ (Succeeds-calls _ (works.slot_duration c))
          λ n. Succeeds-bind _ _ (Succeeds-calls _ (works.start_aura i n k)) λ u. Succeeds-starts _
    authoring-Succeeds false c i k force = Succeeds-pure tt

    voting-Succeeds :
        (b : Bool) (l : Link) (n : Network) (k : Option Keystore) (name : String)
        → Succeeds (start_voting U b l n k name)
    unfolding start_voting
    voting-Succeeds true l n k name =
        Succeeds-bind _ _ (Succeeds-calls _ (works.run_grandpa_voter l n k name))
          λ u. Succeeds-starts _
    voting-Succeeds false l n k name = Succeeds-pure tt

    full-Succeeds : Succeeds (new_full U off_chain config)
    unfolding new_full prepare
    full-Succeeds =
        Succeeds-bind _ _
          (Succeeds-bind _ _ partial-Succeeds λ parts. Succeeds-bind _ _ (Succeeds-starts _) λ u.
            Succeeds-bind _ _ (keystore-Succeeds parts.keystore_container) λ k.
              Succeeds-bind _ _ (genesis-Succeeds parts.client) λ h.
                Succeeds-bind _ _ (Succeeds-calls _ (works.build_network _ _ _)) λ net.
                  Succeeds-bind _ _ (sync-Succeeds off_chain net.1) λ u.
                    Succeeds-bind _ _ (workers-Succeeds config.offchain_worker_enabled) λ u.
                      Succeeds-bind _ _ (Succeeds-calls _ (works.spawn_tasks parts.client net.0 k))
                        λ u. Succeeds-bind _ _ (Succeeds-starts _) λ u.
                          Succeeds-bind _ _ (authoring-Succeeds _ _ _ _ _)
                            λ u. voting-Succeeds _ _ _ _ _)
          (λ u. Succeeds-starts _)

    -- With a local keystore, if no call of Substrate fails, and the database has an off-chain
    -- storage and the genesis block, then the node starts, in either build.
    pub new_full_succeeds :
        (m : Machine Env (Started Grandpa Storage Keystore Sync)) → IsStarted U off_chain config m
    new_full_succeeds m = elim (new_full_lem U off_chain config m) [
      | inl started ↦ started
      | inr failed ↦
          let (u, m', run) = full-Succeeds.at m in absurd (cc (failed.fails, ap (λ r. r.0) run))
    ]
