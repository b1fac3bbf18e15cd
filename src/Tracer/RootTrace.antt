-- ===== src/Tracer/RootTrace.antt =====
-- `process` of internal/tracer/manager.go for a root trace, from its first write to its last one:
-- the synchronisation of the seed, the loop over missing addresses, and the end of the job.
pub mod Settles
use eth_fund_trace.Prelude.{
  ℕ, Bool, true, false, ◌&&◌, List, [], ◌∷◌, Option, none, some, String, max, length, if◌then◌else◌,
}
use eth_fund_trace.Prelude.Answers.{Answer, ok, err}
use eth_fund_trace.Store.Address.{Address}
use eth_fund_trace.Store.Job.{TraceJob, SyncJob}
use eth_fund_trace.Tracer.Types.{Node, TraceResult}
use eth_fund_trace.Tracer.Identity.{is_high_frequency_address}
use eth_fund_trace.Tracer.Dependencies.{
  Dependency, TraceEnv, wait_sync, Tracing, Ending, finished, failed, left, out_of_fuel, after_wait,
  then_saved, trace_loop, fail,
}

-- `FindAddress` of the repository.
abbrev pub FindAddress : Type 0 → Type 0
FindAddress W = String → String → W → Answer String (Option Address) × W

unfoldable pub result_depth : List Node → ℕ
result_depth [] = 0
result_depth (node ∷ nodes) = max node.depth (result_depth nodes)

module _ {W : Type 0} (env : TraceEnv W TraceResult) (find_address : FindAddress W) where
  unfoldable pub complete_job : TraceResult → Tracing env → Tracing env
  complete_job result t = record t {
    job = record t.job {
      status = if t.partial_sync then "partial" else "succeeded";
      result = some result;
      current_depth = result_depth result.nodes;
      visited_nodes = length result.nodes;
      edge_count = length result.edges;
      data_through_block = result.data_through_block;
      finished_at = env.clock t.repo;
    };
  }

  unfoldable pub saved_or_fail : Option String → Tracing env → Tracing env
  saved_or_fail none t = t
  saved_or_fail (some e) t = fail env "failed to persist trace job" t

  -- What is done with the job when the trace ends.
  unfoldable pub close_job : Ending env → Tracing env
  unfolding complete_job
  close_job (finished result t) =
      let done = complete_job result t in
      let (error, w) = env.save_trace_job done.job done.repo in
      saved_or_fail error (record done { repo = w })
  close_job (failed message t) = fail env message t
  close_job (left t) = t
  close_job (out_of_fuel t) = t

  unfoldable pub set_status : String → Tracing env → Tracing env
  set_status status t = record t { job = record t.job { status = status } }

  unfoldable pub trace_seed : ℕ → ℕ → Tracing env → Ending env
  unfolding set_status
  trace_seed looks traces t = then_saved env (set_status "running" t) (trace_loop env looks traces)

  unfoldable pub note_high_frequency : Tracing env → Tracing env
  note_high_frequency t = record t {
    partial_sync = true;
    job = record t.job { error_code = "high_frequency"; error = "high_frequency" };
  }

  unfoldable pub note_seed_job : SyncJob → Tracing env → Tracing env
  note_seed_job current t = record t { job = record t.job { sync_job_ids = current.id ∷ [] } }

  unfoldable pub after_seed_enqueue :
      ℕ → (Tracing env → Ending env) → Answer String SyncJob → Tracing env → Ending env
  unfolding note_seed_job
  after_seed_enqueue looks next (err e) t = failed e t
  after_seed_enqueue looks next (ok current) t =
      then_saved env (note_seed_job current t)
        (λ t'. after_wait env next (wait_sync env looks current.id t'.repo) t')

  unfoldable pub seed_request : TraceJob TraceResult → Dependency
  seed_request job = record {
    chain = job.chain;
    address = job.seed_address;
    start_block = 0;
    end_block = 0;
  }

  unfoldable pub sync_seed : ℕ → (Tracing env → Ending env) → Tracing env → Ending env
  sync_seed looks next t =
      let (found, w) = env.enqueue_sync (seed_request t.job) t.repo in
      after_seed_enqueue looks next found (record t { repo = w })

  unfoldable pub is_busy : Option Address → Bool
  is_busy none = false
  is_busy (some metadata) = is_high_frequency_address metadata

  unfoldable pub after_seed_lookup :
      ℕ → (Tracing env → Ending env) → Answer String (Option Address) → Tracing env → Ending env
  unfolding note_high_frequency
  after_seed_lookup looks next (err e) t = failed e t
  after_seed_lookup looks next (ok found) t =
      if is_busy found then next (note_high_frequency t) else sync_seed looks next t

  unfoldable pub look_up_seed : ℕ → (Tracing env → Ending env) → Tracing env → Ending env
  look_up_seed looks next t =
      let (found, w) = find_address t.job.chain t.job.seed_address t.repo in
      after_seed_lookup looks next found (record t { repo = w })

  unfoldable pub prepare_seed : ℕ → (Tracing env → Ending env) → Tracing env → Ending env
  prepare_seed looks next t = if env.has_sync_jobs then look_up_seed looks next t else next t

  unfoldable pub start_root : TraceJob TraceResult → W → Tracing env
  start_root job w = record {
    job = record job { status = "waiting_sync"; started_at = env.clock w };
    partial_sync = false;
    attempted = [];
    terminal = [];
    repo = w;
  }

  -- The fuel is the number of looks at a job of the synchroniser, and the number of traces.
  unfoldable pub run_root : ℕ → ℕ → TraceJob TraceResult → W → Ending env
  unfolding start_root
  run_root looks traces job w =
      then_saved env (start_root job w) (prepare_seed looks (trace_seed looks traces))
