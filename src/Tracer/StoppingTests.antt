-- ===== src/Tracer/StoppingTests.antt =====
-- A database of one job, which waits for the synchroniser: `Stop` of internal/tracer/manager.go on it.
use eth_fund_trace.Prelude.{
  ℕ, ◌≡◌, refl, ◌∙◌, Bool, true, false, List, [], ◌∷◌, none, String, str_eq, str_eq_iff, arith,
}
use eth_fund_trace.Prelude.Answers.{Answer, ok, err}
use eth_fund_trace.Store.Job.{TraceJob}
use eth_fund_trace.Tracer.Stopping.{StopEnv, stop}
use eth_fund_trace.Tracer.Stopping.Stored.{KeepsJobs, AtRest, stop-AtRest}

-- The world is the stored job, and the jobs of the synchroniser that were stopped.
record World : Type 0 where
  stored : TraceJob ℕ
  stops : List String

abbrev read : Bool → TraceJob ℕ → Answer String (TraceJob ℕ)
read true job = ok job
read false job = err "not found"

abbrev stop_env : StopEnv World ℕ
stop_env = record {
  clock = λ w. 9;
  parse_id = λ id. ok id;
  get_trace_job = λ id w. (read (str_eq id w.stored.id) w.stored, w);
  find_latest_extension = λ id w. (err "not found", w);
  save_trace_job = λ job w. (none, record w { stored = job });
  cancel = λ id w. w;
  has_sync_jobs = true;
  stop_sync = λ id w. record w { stops = id ∷ w.stops };
}

read-same : (c : Bool) (job : TraceJob ℕ) → c ≡ true → read c job ≡ ok job
read-same true job e = refl
read-same false job e = absurd cc

read-Found :
    (c : Bool) (job found : TraceJob ℕ)
    → read c job ≡ ok found
    → read (str_eq found.id job.id) job ≡ ok found
read-Found true job found e = read-same _ job (ground (arith, str_eq_iff found.id job.id, e)) ∙ e
read-Found false job found e = absurd cc

stop_env-KeepsJobs : KeepsJobs stop_env
stop_env-KeepsJobs = record {
  get_stored = λ id w job e. read-Found _ w.stored job e;
  find_stored = λ id w job e. absurd cc;
  find_keeps = λ id w other. refl;
  save_stored = λ job w e. read-same _ job (ground (arith, str_eq_iff job.id job.id));
  cancel_keeps = λ id w other. refl;
  stop_keeps = λ id w other. refl;
}

abbrev waiting : World
waiting = record {
  stored = record {
    id = "trace";
    chain = "ethereum";
    seed_address = "0xa";
    direction = "out";
    depth = 2;
    asset = "";
    status = "waiting_sync";
    created_at = 0;
    started_at = 0;
    finished_at = 0;
    current_depth = 0;
    visited_nodes = 0;
    edge_count = 0;
    sync_job_ids = "sync" ∷ [];
    result = none;
    data_through_block = 0;
    rule_version = "";
    error_code = "";
    error = "";
    retryable = false;
    root_trace_job_id = "";
    extension_address = "";
    extension_direction = "";
  };
  stops = [];
}

stop-AtRest_example : AtRest stop_env stop_env-KeepsJobs (stop stop_env "trace" waiting)
stop-AtRest_example = stop-AtRest stop_env stop_env-KeepsJobs "trace" waiting
