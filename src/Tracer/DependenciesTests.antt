-- ===== src/Tracer/DependenciesTests.antt =====
-- A job of the synchroniser that succeeds at the second look, one that was stopped, and a trace that
-- misses one address: the theorems on the dependencies of internal/tracer/manager.go applied to them.
use eth_fund_trace.Prelude.{
  ℕ, zero, suc, ◌≡◌, ◌≢◌, refl, sym, ap, ◌∙◌, true, false, List, [], ◌∷◌, Option, none, some,
  String, str_eq, inl, arith,
}
use eth_fund_trace.Prelude.Dict.{lookup}
use eth_fund_trace.Prelude.Answers.{ok, err}
use eth_fund_trace.Prelude.Count.{count}
use eth_fund_trace.Store.Job.{SyncJob}
use eth_fund_trace.Tracer.Branch.{dependency_address_key, dependency_stop_reason}
use eth_fund_trace.Tracer.Dependencies.{
  Dependency, Traced, traced, unsynced, unfinished, TraceEnv, wait_sync, sync_dependency_key,
  Tracing, out_of_fuel, trace_loop, named,
}
use eth_fund_trace.Tracer.Types.{TraceResult}
use eth_fund_trace.Tracer.BranchTests.{empty}
use eth_fund_trace.Tracer.RootTrace.{FindAddress, run_root}
use eth_fund_trace.Tracer.RootTrace.Settles.{Settles, run_root-Settles}
use eth_fund_trace.Tracer.Dependencies.Ends.{Finite, trace_loop_ends}
use eth_fund_trace.Tracer.Dependencies.Waits.{later, wait_sync_returns, wait_sync_stuck}

abbrev sync_job_with : String → SyncJob
sync_job_with status = record {
  id = "sync";
  chain = "ethereum";
  chain_id = 1;
  address = "0xb";
  start_block = 1;
  end_block = 9;
  neighbor_limit = 0;
  coverage_version = "";
  max_records_per_action = 0;
  status = status;
  created_at = 0;
  started_at = 0;
  finished_at = 0;
  duration_ms = 0;
  safe_head = 0;
  total_addresses = 1;
  completed_addresses = 0;
  processed_addresses = 0;
  cached_addresses = 0;
  fetched = 0;
  action_counts = [];
  progress = record {
    current_address = "";
    current_action = "";
    range_start = 0;
    range_end = 0;
    current_page = 0;
    pages_fetched = 0;
    records_read = 0;
    records_written = 0;
    split_count = 0;
    updated_at = 0;
    action_checkpoints = [];
  };
  successful_neighbors = [];
  failed_neighbors = [];
  truncated_actions = [];
  error_code = "";
  error = "";
  retryable = false;
}

-- The address that the trace misses.
abbrev missed : Dependency
missed = record { chain = ""; address = "0xb"; start_block = 1; end_block = 9 }

abbrev final_key : String
final_key = dependency_address_key "ethereum" "0xb"

-- What the trace gives when the missing address is final, or is not.
abbrev answer : Option String → Traced TraceResult
answer (some reason) = traced empty
answer none = unsynced missed

-- The world is the time; the job of the synchroniser takes the state at a time.
abbrev env_with : (ℕ → String) → TraceEnv ℕ TraceResult
env_with status = record {
  clock = λ w. w;
  is_canceled = λ w. false;
  get_trace_job = λ id w. (err "not found", w);
  save_trace_job = λ job w. (none, w);
  has_sync_jobs = true;
  enqueue_sync = λ d w. (ok (sync_job_with "queued"), w);
  sync_job = λ id w. (ok (sync_job_with (status w)), w);
  pass_time = λ w. suc w;
  is_interruption = λ e. false;
  is_cancellation = λ e. str_eq e "context canceled";
  unsynced_text = λ d. "address is not synced";
  trace = λ terminal w. (answer (lookup final_key terminal), w);
}

abbrev second_look : ℕ → String
second_look zero = "running"
second_look (suc w) = "succeeded"

wait_sync_returns_example : (wait_sync (env_with second_look) 2 "sync" 0).0 ≢ unfinished
unfolding later
wait_sync_returns_example = wait_sync_returns (env_with second_look) 1 2 "sync" 0 refl (omega arith)

wait_sync_stuck_example : (wait_sync (env_with (λ w. "stopped")) 1000 "sync" 0).0 ≡ unfinished
wait_sync_stuck_example = wait_sync_stuck (env_with (λ w. "stopped")) 1000 "sync" 0 (λ k. refl)

abbrev pub env : TraceEnv ℕ TraceResult
env = env_with (λ w. "succeeded")

abbrev keys : List String
keys = sync_dependency_key (named "ethereum" missed) ∷ []

abbrev addresses : List String
addresses = final_key ∷ []

abbrev pub start : Tracing env
start = record {
  job = record {
    id = "trace";
    chain = "ethereum";
    seed_address = "0xa";
    direction = "out";
    depth = 2;
    asset = "";
    status = "running";
    created_at = 0;
    started_at = 0;
    finished_at = 0;
    current_depth = 0;
    visited_nodes = 0;
    edge_count = 0;
    sync_job_ids = [];
    result = none;
    data_through_block = 0;
    rule_version = "";
    error_code = "";
    error = "";
    retryable = false;
    root_trace_job_id = "";
    extension_address = "";
    extension_direction = "";
  };
  partial_sync = false;
  attempted = [];
  terminal = [];
  repo = 0;
}

abbrev reason_of : Option String → String
reason_of none = ""
reason_of (some reason) = reason

is_missed : (o : Option String) (d : Dependency) → answer o ≡ unsynced d → missed ≡ d
is_missed (some reason) d e = absurd cc
is_missed none d e = cc

is_absent : (o : Option String) (d : Dependency) → answer o ≡ unsynced d → reason_of o ≡ ""
is_absent (some reason) d e = absurd cc
is_absent none d e = refl

env-Finite : Finite env "ethereum" keys addresses
unfolding named dependency_stop_reason
env-Finite = record {
  known_key = λ d terminal w e.
      inl (sym (ap (λ x. sync_dependency_key (named "ethereum" x)) (is_missed _ d e)));
  known_address = λ d terminal w e. inl (
      sym
        (ap (λ x. dependency_address_key (named "ethereum" x).chain x.address) (is_missed _ d e)));
  not_final = λ d terminal w e.
      ap (λ x. dependency_stop_reason terminal (named "ethereum" x).chain x.address)
        (sym (is_missed _ d e))
      ∙ is_absent _ d e;
}

-- The first trace waits for the missing address, the second one gives it up, the third one ends.
trace_loop_ends_example : trace_loop env 1 3 start ≢ out_of_fuel start
unfolding count lookup
trace_loop_ends_example =
    trace_loop_ends env keys addresses 1 3 start start
      (λ id w. wait_sync_returns env 0 1 id w refl (omega arith)) env-Finite (omega arith)

abbrev find_address : FindAddress ℕ
find_address chain address w = (ok none, w)

run_root-Settles_example : Settles env find_address (run_root env find_address 1 3 start.job 0)
run_root-Settles_example =
    run_root-Settles env find_address keys addresses 1 3 start.job 0
      (λ id w. wait_sync_returns env 0 1 id w refl (omega arith)) env-Finite (omega arith)
