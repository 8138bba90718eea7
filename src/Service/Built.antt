-- ===== src/Service/Built.antt =====
-- What `new_partial` builds and starts.
use validated_streams.Base.{
  ◌≡◌, refl, Bool, true, false, List, [], ◌∷◌, ◌++◌, Option, none, some, is_some, String, err,
  if◌then◌else◌, arith,
}
use validated_streams.Service.{
  other, Configuration, NodeImport, Started, telemetry_worker, importing, Substrate,
  PartialComponents, lift,
}
use validated_streams.Service.Partial.{
  new_telemetry, spawn_telemetry, node_import, build_partial, new_partial,
}
use validated_streams.Service.Runs.{
  Runs, Runs-pure, Runs-lift, Runs-calls, Runs-starts, Runs-bind, Runs-map,
}

abbrev pub has_endpoints : Option (List String) → Bool
has_endpoints none = false
has_endpoints (some []) = false
has_endpoints (some (e ∷ es)) = true

module _
    {Env Worker Telemetry Client Backend Keystore Grandpa Link Storage Queue Network Sync : Type 0}
    (U : Substrate Env Worker Telemetry Client Backend Keystore Grandpa Link Storage Queue Network
      Sync) where
  abbrev Log : Type 0
  Log = List (Started Grandpa Storage Keystore Sync)

  -- What `new_partial` leaves in the log and in the block import.
  abbrev pub IsPartial :
      Bool
      → Configuration
      → PartialComponents Client Backend Keystore Grandpa Link Storage Queue
      → Log
      → Type 0
  IsPartial off_chain config parts es =
      (grandpa : Grandpa) × (parts.block_import
        ≡ node_import U off_chain grandpa parts.event_proofs)
      × (es
          ≡ (if has_endpoints config.telemetry_endpoints then telemetry_worker ∷ [] else [])
            ++ importing parts.block_import ∷ [])

  -- Nothing is started but these two.
  module _ (banned : Started Grandpa Storage Keystore Sync → Bool)
      (worker : banned telemetry_worker ≡ false)
      (queue : (i : NodeImport Grandpa Storage) → banned (importing i) ≡ false) where
    new_telemetry-Runs :
        (endpoints : Option (List String))
        → Runs banned
            (new_telemetry U endpoints)
            (λ t es. (is_some t ≡ has_endpoints endpoints) × (es ≡ []))
    unfolding new_telemetry
    new_telemetry-Runs none = Runs-map _ (Runs-pure none) (λ t es h. ground (arith, h))
    new_telemetry-Runs (some []) = Runs-map _ (Runs-pure none) (λ t es h. ground (arith, h))
    new_telemetry-Runs (some (e ∷ es)) =
        Runs-bind _ _ (Runs-calls _)
          (λ w es h. Runs-map _ (Runs-pure _) (λ t fs k. ground (arith, h, k)))

    spawn_telemetry-Runs :
        (t : Option Telemetry)
        → Runs banned
            (spawn_telemetry U t)
            (λ u es. es ≡ (if is_some t then telemetry_worker ∷ [] else []))
    unfolding spawn_telemetry
    spawn_telemetry-Runs none = Runs-map _ (Runs-pure tt) (λ u es h. h.1)
    spawn_telemetry-Runs (some t) = Runs-starts telemetry_worker worker

    build_partial-Runs :
        (off_chain : Bool) (config : Configuration)
        → Runs banned (build_partial U off_chain config) (IsPartial off_chain config)
    unfolding build_partial
    build_partial-Runs off_chain config =
        Runs-bind _ _ (new_telemetry-Runs config.telemetry_endpoints) λ t es a.
          Runs-bind _ _ (Runs-calls _) λ parts fs b.
            Runs-bind _ _ (spawn_telemetry-Runs t) λ u gs c. Runs-bind _ _ (Runs-calls _) λ g hs d.
              Runs-bind _ _ (Runs-lift _) λ s is e. Runs-bind _ _ (Runs-calls _) λ n js f.
                Runs-bind _ _ (Runs-calls _) λ q ks h.
                  Runs-bind _ _ (Runs-starts _ (queue _)) λ v ls i.
                    Runs-map _ (Runs-pure _)
                      λ p ms k. (g.0, cc (k.0), cc (a.0, a.1, b, c, d, e.1, f, h, i, k.0, k.1))

    pub new_partial-Runs :
        (off_chain : Bool) (config : Configuration)
        → Runs banned
            (new_partial U off_chain config)
            (λ parts es. (config.keystore_remote ≡ none) × IsPartial off_chain config parts es)
    unfolding new_partial
    new_partial-Runs off_chain config = local config.keystore_remote refl
      where
        local :
            (remote : Option String)
            → config.keystore_remote ≡ remote
            → Runs banned
                (elim remote [
                  | some url ↦ lift (err (other "Remote Keystores are not supported."))
                  | none ↦ build_partial U off_chain config
                ])
                (λ parts es. (config.keystore_remote ≡ none) × IsPartial off_chain config parts es)
        local (some url) h = Runs-map _ (Runs-lift _) (λ p es k. absurd (cc (k.0)))
        local none h = Runs-map _ (build_partial-Runs off_chain config) (λ p es k. (h, k))
