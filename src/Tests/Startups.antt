-- ===== src/Tests/Startups.antt =====
-- A node is started on libraries that count their calls.
use validated_streams.Base.{
  ℕ, ◌+◌, ◌≡◌, ◌++◌, ◌⊎◌, refl, true, false, List, [], ◌∷◌, none, some, String, ok, Result,
}
use validated_streams.Command.{
  Tools, Features, import_blocks, run, run_command, run_tool, on_partial,
}
use validated_streams.Command.Offline.{is_online, uses_node, run_offline}
use validated_streams.Service.{
  Configuration, Started, telemetry_worker, importing, checked, Machine, Substrate, pure, lift,
  ◌>>=◌, calls, starts,
}
use validated_streams.Service.Partial.{
  new_telemetry, spawn_telemetry, require_storage, node_import, build_partial, new_partial,
}
use validated_streams.Service.Runs.{any}
use validated_streams.Service.Startup.{IsStarted, IsFailed, new_full_lem}
use validated_streams.Service.Succeeds.{IsWorking, new_full_succeeds}

abbrev answer : {A : Type 0} → A → ℕ → Result String A × ℕ
answer a n = (ok a, n + 1)

abbrev libraries : Substrate ℕ ℕ ℕ ℕ ℕ ℕ ℕ ℕ ℕ ℕ ℕ ℕ
libraries = record {
  telemetry_new = λ n. answer n;
  new_telemetry = λ w endpoints. w;
  new_full_parts = λ c t. answer (1, 2, 3);
  grandpa_block_import = λ c t. answer (4, 5);
  offchain_storage = λ b. some 6;
  set_remote_keystore = λ k old. k;
  slot_duration = λ c. answer 6000;
  import_queue = λ i g n. answer 7;
  block_hash = λ c n. ok (some []);
  protocol_standard_name = λ h. "/grandpa/1";
  build_network = λ sets c q. answer (8, 9);
  spawn_tasks = λ c n k. answer tt;
  start_aura = λ i n k. answer tt;
  run_grandpa_voter = λ l n k name. answer tt;
}

abbrev config : Configuration
config = record {
  keystore_remote = none;
  telemetry_endpoints = some ("wss://telemetry" ∷ []);
  is_authority = true;
  offchain_worker_enabled = true;
  disable_grandpa = false;
  force_authoring = false;
  node_name = "alice";
  extra_sets = [];
}

abbrev fresh : Machine ℕ (Started ℕ ℕ ℕ ℕ)
fresh = record { env = 0; log = [] }

new_full_lem_example : IsStarted libraries true config fresh ⊎ IsFailed libraries true config fresh
new_full_lem_example = new_full_lem libraries true config fresh

libraries-IsWorking : IsWorking libraries
libraries-IsWorking = record {
  telemetry_new = λ n s. (n, refl);
  new_full_parts = λ c t s. ((1, 2, 3), refl);
  grandpa_block_import = λ c t s. ((4, 5), refl);
  offchain_storage = λ b. (6, refl);
  slot_duration = λ c s. (6000, refl);
  import_queue = λ i g n s. (7, refl);
  genesis = λ c. ([], refl);
  build_network = λ sets c q s. ((8, 9), refl);
  spawn_tasks = λ c n k s. (tt, refl);
  start_aura = λ i n k s. (tt, refl);
  run_grandpa_voter = λ l n k name s. (tt, refl);
}

new_full_succeeds_example : IsStarted libraries true config fresh
new_full_succeeds_example = new_full_succeeds libraries libraries-IsWorking true config refl fresh

-- Tools that count their calls too.
abbrev tools : Tools ℕ ℕ ℕ ℕ ℕ
tools = record {
  create_runner = λ cmd. answer config;
  provide_inherent_data = λ n. answer n;
  task_manager = λ c. answer tt;
  execute = λ cmd given. answer tt;
}

abbrev features : Features
features = record { off_chain_proofs = true; runtime_benchmarks = false; try_runtime = false }

run_offline_example :
    (es : List (Started ℕ ℕ ℕ ℕ)) × ((run libraries tools features (some import_blocks) fresh).1.log
      ≡ fresh.log ++ es)
    × (any is_online es ≡ false)
    × ((uses_node import_blocks ≡ true) ⊎ (es ≡ []))
run_offline_example = run_offline libraries tools features import_blocks fresh

-- The import of blocks starts the telemetry and the import queue.
imported :
    (run libraries tools features (some import_blocks) fresh).1.log
    ≡ telemetry_worker ∷ importing (checked 4 6) ∷ []
unfolding run run_command run_tool on_partial new_partial build_partial new_telemetry
    spawn_telemetry require_storage node_import ◌>>=◌ pure lift calls starts
imported = refl
