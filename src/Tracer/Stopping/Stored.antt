-- ===== src/Tracer/Stopping/Stored.antt =====
-- What `Stop` of internal/tracer/manager.go leaves in the database.
use eth_fund_trace.Prelude.{
  ◌≡◌, ◌||◌, refl, ◌∙◌, Bool, true, false, ◌&&◌, not, List, [], ◌∷◌, Option, none, some, String,
  str_eq, if◌then◌else◌,
}
use eth_fund_trace.Prelude.Answers.{Answer, ok, err}
use eth_fund_trace.Store.Job.{TraceJob}
use eth_fund_trace.Tracer.Stopping.{
  StopEnv, is_active, stopped_job, stop_syncs, after_stop, stop_target, stop_extension, stop_found,
  stop_parsed, stop,
}

-- The job may still write to the database.
abbrev pub is_unfinished : String → Bool
is_unfinished status =
    str_eq status "queued" || (str_eq status "waiting_sync" || str_eq status "running")

-- What is relied on: a job that is read or written is the one that is stored under its id, and
-- nothing else changes the stored jobs meanwhile.
pub record KeepsJobs {W R : Type 0} (env : StopEnv W R) : Type 0 where
  pub get_stored :
      (id : String) (w : W) (job : TraceJob R)
      → (env.get_trace_job id w).0 ≡ ok job
      → (env.get_trace_job job.id (env.get_trace_job id w).1).0 ≡ ok job
  pub find_stored :
      (id : String) (w : W) (job : TraceJob R)
      → (env.find_latest_extension id w).0 ≡ ok job
      → (env.get_trace_job job.id (env.find_latest_extension id w).1).0 ≡ ok job
  pub find_keeps :
      (id : String) (w : W) (other : String)
      → (env.get_trace_job other (env.find_latest_extension id w).1).0
        ≡ (env.get_trace_job other w).0
  pub save_stored :
      (job : TraceJob R) (w : W)
      → (env.save_trace_job job w).0 ≡ none
      → (env.get_trace_job job.id (env.save_trace_job job w).1).0 ≡ ok job
  pub cancel_keeps :
      (id : String) (w : W) (other : String)
      → (env.get_trace_job other (env.cancel id w)).0 ≡ (env.get_trace_job other w).0
  pub stop_keeps :
      (id : String) (w : W) (other : String)
      → (env.get_trace_job other (env.stop_sync id w)).0 ≡ (env.get_trace_job other w).0

module _ {W R : Type 0} (env : StopEnv W R) (keeps : KeepsJobs env) where
  abbrev pub IsStored : TraceJob R → W → Type 0
  IsStored job w = (env.get_trace_job job.id w).0 ≡ ok job

  -- The job of an answer is stored, and not active.
  pub data AtRest : Answer String (TraceJob R) × W → Type 0 where
    refused : {e : String} {w : W} → AtRest (err e, w)
    rests :
        {job : TraceJob R} {w : W}
        → is_unfinished job.status ≡ false
        → IsStored job w
        → AtRest (ok job, w)

  choose-AtRest :
      (c : Bool) (x y : Answer String (TraceJob R) × W)
      → (c ≡ true → AtRest x)
      → (c ≡ false → AtRest y)
      → AtRest (if c then x else y)
  choose-AtRest true x y yes_case no_case = yes_case refl
  choose-AtRest false x y yes_case no_case = no_case refl

  stop_syncs-Stored :
      (ids : List String) (job : TraceJob R) (w : W)
      → IsStored job w
      → IsStored job (stop_syncs env ids w)
  unfolding stop_syncs
  stop_syncs-Stored [] job w h = h
  stop_syncs-Stored (id ∷ ids) job w h =
      stop_syncs-Stored ids job _ (keeps.stop_keeps id w job.id ∙ h)

  if-Stored :
      (c : Bool) (job : TraceJob R) (v w : W)
      → IsStored job v
      → IsStored job w
      → IsStored job (if c then v else w)
  if-Stored true job v w h k = h
  if-Stored false job v w h k = k

  after_stop-AtRest :
      (id : String) (job : TraceJob R) (error : Option String) (w : W)
      → is_unfinished job.status ≡ false
      → (error ≡ none → IsStored job w)
      → AtRest (after_stop env id job error w)
  unfolding after_stop
  after_stop-AtRest id job (some e) w idle saved = refused
  after_stop-AtRest id job none w idle saved =
      let kept = keeps.cancel_keeps id w job.id ∙ saved refl in
      rests idle (if-Stored env.has_sync_jobs job _ _ (stop_syncs-Stored _ job _ kept) kept)

  stop_target-AtRest :
      (id : String) (job : TraceJob R) (w : W) → IsStored job w → AtRest (stop_target env id job w)
  unfolding stop_target stopped_job is_active
  stop_target-AtRest id job w stored =
      choose-AtRest (is_active job.status) _ _
        (λ busy. after_stop-AtRest id _ _ _ refl (keeps.save_stored _ w))
        (λ idle. rests idle stored)

  stop_extension-AtRest :
      (id : String) (job : TraceJob R) (found : Answer String (TraceJob R)) (w : W)
      → IsStored job w
      → ((extension : TraceJob R) → found ≡ ok extension → IsStored extension w)
      → AtRest (stop_extension env id job found w)
  unfolding stop_extension
  stop_extension-AtRest id job (err e) w stored other = stop_target-AtRest id job w stored
  stop_extension-AtRest id job (ok extension) w stored other =
      choose-AtRest (is_active extension.status) _ _
        (λ busy. stop_target-AtRest extension.id extension w (other extension refl))
        (λ idle. stop_target-AtRest id job w stored)

  stop_found-AtRest :
      (id : String) (found : Answer String (TraceJob R)) (w : W)
      → ((job : TraceJob R) → found ≡ ok job → IsStored job w)
      → AtRest (stop_found env id found w)
  unfolding stop_found
  stop_found-AtRest id (err e) w stored = refused
  stop_found-AtRest id (ok job) w stored =
      choose-AtRest (str_eq job.root_trace_job_id "" && not (is_active job.status)) _ _
        (λ over.
          stop_extension-AtRest id job _ _ (keeps.find_keeps job.id w job.id ∙ stored job refl)
            (keeps.find_stored job.id w))
        (λ other. stop_target-AtRest id job w (stored job refl))

  stop_parsed-AtRest :
      (id : String) (parsed : Answer String String) (w : W) → AtRest (stop_parsed env id parsed w)
  unfolding stop_parsed
  stop_parsed-AtRest id (err e) w = refused
  stop_parsed-AtRest id (ok parsed) w = stop_found-AtRest id _ _ (keeps.get_stored parsed w)

-- Over a database that keeps its jobs: the job that Stop returns without an error is neither
-- queued, waiting nor running, and it is the one that is stored.
pub stop-AtRest :
    {W R : Type 0} (env : StopEnv W R) (keeps : KeepsJobs env) (id : String) (w : W)
    → AtRest env keeps (stop env id w)
unfolding stop
stop-AtRest env keeps id w = stop_parsed-AtRest env keeps id (env.parse_id id) w
