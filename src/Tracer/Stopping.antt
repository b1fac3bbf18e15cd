-- ===== src/Tracer/Stopping.antt =====
-- `Stop` of internal/tracer/manager.go. The database, the running contexts and the synchroniser are
-- parameters.
pub mod Stored
use eth_fund_trace.Prelude.{
  ℕ, Bool, true, false, ◌&&◌, ◌||◌, not, List, [], ◌∷◌, Option, none, some, String, str_eq,
  if◌then◌else◌,
}
use eth_fund_trace.Prelude.Answers.{Answer, ok, err}
use eth_fund_trace.Store.Job.{TraceJob}

pub record StopEnv (W R : Type 0) : Type 0 where
  pub clock : W → ℕ
  -- `ObjectIDFromHex`.
  pub parse_id : String → Answer String String
  pub get_trace_job : String → W → Answer String (TraceJob R) × W
  pub find_latest_extension : String → W → Answer String (TraceJob R) × W
  pub save_trace_job : TraceJob R → W → Option String × W
  -- Cancels the context of a running job.
  pub cancel : String → W → W
  pub has_sync_jobs : Bool
  -- `Stop` of the synchroniser, whose error is dropped.
  pub stop_sync : String → W → W

unfoldable pub is_active : String → Bool
is_active status =
    str_eq status "queued" || (str_eq status "waiting_sync" || str_eq status "running")

module _ {W R : Type 0} (env : StopEnv W R) where
  unfoldable pub stopped_job : ℕ → TraceJob R → TraceJob R
  stopped_job now job = record job {
    status = "stopped";
    error_code = "stopped_by_user";
    error = "stopped by user";
    retryable = false;
    finished_at = now;
  }

  unfoldable pub stop_syncs : List String → W → W
  stop_syncs [] w = w
  stop_syncs (id ∷ ids) w = stop_syncs ids (env.stop_sync id w)

  unfoldable pub after_stop :
      String → TraceJob R → Option String → W → Answer String (TraceJob R) × W
  after_stop id job (some e) w = (err e, w)
  after_stop id job none w =
      let w' = env.cancel id w in
      (ok job, if env.has_sync_jobs then stop_syncs job.sync_job_ids w' else w')

  unfoldable pub stop_target : String → TraceJob R → W → Answer String (TraceJob R) × W
  stop_target id job w =
      if is_active job.status
      then (let stopped = stopped_job (env.clock w) job in
          let (error, w') = env.save_trace_job stopped w in after_stop id stopped error w')
      else (ok job, w)

  -- An active extension of a root trace that is over is stopped in its place.
  unfoldable pub stop_extension :
      String → TraceJob R → Answer String (TraceJob R) → W → Answer String (TraceJob R) × W
  stop_extension id job (err e) w = stop_target id job w
  stop_extension id job (ok extension) w =
      if is_active extension.status
      then stop_target extension.id extension w
      else stop_target id job w

  unfoldable pub stop_found :
      String → Answer String (TraceJob R) → W → Answer String (TraceJob R) × W
  stop_found id (err e) w = (err e, w)
  stop_found id (ok job) w =
      if str_eq job.root_trace_job_id "" && not (is_active job.status)
      then (let (found, w') = env.find_latest_extension job.id w in stop_extension id job found w')
      else stop_target id job w

  unfoldable pub stop_parsed : String → Answer String String → W → Answer String (TraceJob R) × W
  stop_parsed id (err e) w = (err e, w)
  stop_parsed id (ok parsed) w =
      let (found, w') = env.get_trace_job parsed w in stop_found id found w'

  unfoldable pub stop : String → W → Answer String (TraceJob R) × W
  stop id w = stop_parsed id (env.parse_id id) w
