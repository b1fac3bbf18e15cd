-- ===== src/Tracer/Dependencies.antt =====
-- The root trace of `process` in internal/tracer/manager.go behind its first synchronisation: the
-- trace is run again for every address that it misses, and `waitSync`, `fail` and `save`. The trace
-- itself, the database and the synchroniser are parameters.
pub mod Ends
pub mod Waits
pub mod Leaves
use Prim.Native.String.{◌++◌ as append}
use eth_fund_trace.Prelude.{
  ℕ, zero, suc, ◌+◌, Bool, true, false, ◌&&◌, ◌||◌, not, List, [], ◌∷◌, ◌++◌, Option, none, some,
  String, str_eq, any, if◌then◌else◌,
}
use eth_fund_trace.Prelude.Dict.{Dict, insert}
use eth_fund_trace.Prelude.Answers.{Answer, ok, err}
use eth_fund_trace.Store.Job.{TraceJob, SyncJob}
use eth_fund_trace.Text.{to_lower}
use eth_fund_trace.Text.Decimal.{nat_string}
use eth_fund_trace.Tracer.Branch.{dependency_address_key}

-- `AddressNotSyncedError`
pub record Dependency : Type 0 where
  pub chain : String
  pub address : String
  pub start_block : ℕ
  pub end_block : ℕ

-- What a trace gives.
pub data Traced (R : Type 0) : Type 0 where
  traced : R → Traced R
  unsynced : Dependency → Traced R
  broken : String → Traced R

-- What waiting for a job of the synchroniser gives. Waiting is cancelled where its error is that of a
-- cancelled context, whether the context or the synchroniser reports it.
pub data Waited : Type 0 where
  synced : SyncJob → Waited
  canceled unfinished : Waited
  broken : String → Waited

-- The database, the clock, the context and the synchroniser; an error is its text.
pub record TraceEnv (W R : Type 0) : Type 0 where
  pub clock : W → ℕ
  pub is_canceled : W → Bool
  pub get_trace_job : String → W → Answer String (TraceJob R) × W
  pub save_trace_job : TraceJob R → W → Option String × W
  pub has_sync_jobs : Bool
  pub enqueue_sync : Dependency → W → Answer String SyncJob × W
  pub sync_job : String → W → Answer String SyncJob × W
  -- What 100 milliseconds of the other goroutines do.
  pub pass_time : W → W
  -- The error stands for a cancelled or timed out context.
  pub is_interruption : String → Bool
  -- The error stands for a cancelled context.
  pub is_cancellation : String → Bool
  pub unsynced_text : Dependency → String
  pub trace : Dict String → W → Traced R × W

-- A dependency with no chain is one of the chain of the job.
unfoldable pub named : String → Dependency → Dependency
named chain d = record d { chain = if str_eq d.chain "" then chain else d.chain }

unfoldable pub sync_dependency_key : Dependency → String
sync_dependency_key d = append (to_lower d.chain) (
    append ":" (
      append (to_lower d.address)
        (append ":" (append (nat_string d.start_block) (append ":" (nat_string d.end_block))))))

module _ {W R : Type 0} (env : TraceEnv W R) where
  -- One look at the job of the synchroniser; `wait` is the rest of the loop.
  unfoldable pub look : (W → Waited × W) → Answer String SyncJob → W → Waited × W
  look wait (err e) w = if env.is_cancellation e then (canceled, w) else (Waited.broken e, w)
  look wait (ok job) w =
      if str_eq job.status "succeeded" || str_eq job.status "partial"
      then (synced job, w)
      else if str_eq job.status "failed"
      then (Waited.broken job.error, w)
      else if env.is_canceled w
      then (canceled, w)
      else wait (env.pass_time w)

  -- `waitSync`; the fuel is the number of looks.
  unfoldable pub wait_sync : ℕ → String → W → Waited × W
  wait_sync zero id w = (unfinished, w)
  wait_sync (suc looks) id w =
      let (found, w') = env.sync_job id w in look (wait_sync looks id) found w'

  -- The job in memory and what the loop remembers of the dependencies.
  pub record Tracing : Type 0 where
    pub job : TraceJob R
    pub partial_sync : Bool
    pub attempted : List String
    pub terminal : Dict String
    pub repo : W

  -- How the loop ends: with a result, with an error, or left by a cancelled context; or the
  -- fuel ran out.
  pub data Ending : Type 0 where
    finished : R → Tracing → Ending
    failed : String → Tracing → Ending
    left out_of_fuel : Tracing → Ending

  unfoldable pub is_attempted : Dependency → Tracing → Bool
  is_attempted d t = any (str_eq (sync_dependency_key d)) t.attempted

  -- A dependency that is met again is final: data is missing.
  unfoldable pub give_up : Dependency → Tracing → Tracing
  give_up d t = record t {
    terminal = insert (dependency_address_key d.chain d.address) "missing_data" t.terminal;
    partial_sync = true;
  }

  unfoldable pub attempt : Dependency → Tracing → Tracing
  attempt d t = record t {
    attempted = sync_dependency_key d ∷ t.attempted;
    job = record t.job { status = "waiting_sync" };
  }

  unfoldable pub note_synced : SyncJob → Tracing → Tracing
  note_synced current t =
      let hot = str_eq current.error_code "high_frequency" in
      record t {
        partial_sync = t.partial_sync || str_eq current.status "partial";
        job = record t.job {
          error_code = if hot then current.error_code else t.job.error_code;
          error = if hot then current.error else t.job.error;
        };
      }

  unfoldable pub after_wait : (Tracing → Ending) → Waited × W → Tracing → Ending
  unfolding note_synced
  after_wait again (synced current, w) t = again (record (note_synced current t) { repo = w })
  after_wait again (canceled, w) t = left (record t { repo = w })
  after_wait again (unfinished, w) t = out_of_fuel (record t { repo = w })
  after_wait again (Waited.broken e, w) t = failed e (record t { repo = w })

  unfoldable pub saved_or : Option String → (Tracing → Ending) → Tracing → Ending
  saved_or none next t = next t
  saved_or (some e) next t = failed "failed to persist trace job" t

  -- A write of the job; when it fails, so does the job.
  unfoldable pub then_saved : Tracing → (Tracing → Ending) → Ending
  then_saved t next =
      let (error, w) = env.save_trace_job t.job t.repo in
      saved_or error next (record t { repo = w })

  unfoldable pub note_sync_job : SyncJob → Tracing → Tracing
  note_sync_job current t = record t {
    job = record t.job { sync_job_ids = t.job.sync_job_ids ++ current.id ∷ [] };
  }

  unfoldable pub after_enqueue : ℕ → (Tracing → Ending) → Answer String SyncJob → Tracing → Ending
  unfolding note_sync_job
  after_enqueue looks again (err e) t = failed e t
  after_enqueue looks again (ok current) t =
      then_saved (note_sync_job current t)
        (λ t'. after_wait again (wait_sync looks current.id t'.repo) t')

  unfoldable pub synchronise : ℕ → (Tracing → Ending) → Dependency → Tracing → Ending
  synchronise looks again d t =
      let (found, w) = env.enqueue_sync d t.repo in
      after_enqueue looks again found (record t { repo = w })

  unfoldable pub on_chain : Dependency → Tracing → Dependency
  on_chain d t = named t.job.chain d

  unfoldable pub depend : ℕ → (Tracing → Ending) → Dependency → Tracing → Ending
  unfolding give_up attempt
  depend looks again d t =
      if is_attempted d t
      then again (give_up d t)
      else then_saved (attempt d t) (synchronise looks again d)

  unfoldable pub answer_trace : ℕ → (Tracing → Ending) → Traced R → Tracing → Ending
  unfolding on_chain
  answer_trace looks again (traced result) t = finished result t
  answer_trace looks again (Traced.broken e) t = failed e t
  answer_trace looks again (unsynced d) t =
      if env.has_sync_jobs && not (str_eq d.address "")
      then depend looks again (on_chain d t) t
      else failed (env.unsynced_text d) t

  -- The fuel is the number of traces.
  unfoldable pub trace_loop : ℕ → ℕ → Tracing → Ending
  trace_loop looks zero t = out_of_fuel t
  trace_loop looks (suc traces) t =
      let (answer, w) = env.trace t.terminal t.repo in
      answer_trace looks (trace_loop looks traces) answer (record t { repo = w })

  -- `fail`: a job that was stopped meanwhile stays stopped.
  unfoldable pub fail_with : String → Answer String (TraceJob R) → Tracing → Tracing
  fail_with message found t =
      if is_stopped found
      then record t { job = stored_or t.job found }
      else save_failed
          (record t.job {
            error_code = if env.is_interruption message then "interrupted" else "trace_failed";
            status = "failed";
            error = message;
            retryable = true;
            finished_at = env.clock t.repo;
          })
          t
    where
      is_stopped : Answer String (TraceJob R) → Bool
      is_stopped (err e) = false
      is_stopped (ok current) = str_eq current.status "stopped"

      stored_or : TraceJob R → Answer String (TraceJob R) → TraceJob R
      stored_or old (err e) = old
      stored_or old (ok current) = current

      save_failed : TraceJob R → Tracing → Tracing
      save_failed job t = record t { job = job; repo = (env.save_trace_job job t.repo).1 }

  unfoldable pub fail : String → Tracing → Tracing
  fail message t =
      let (found, w) = env.get_trace_job t.job.id t.repo in
      fail_with message found (record t { repo = w })
