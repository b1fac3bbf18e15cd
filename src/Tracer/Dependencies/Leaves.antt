-- ===== src/Tracer/Dependencies/Leaves.antt =====
-- When the loop of `process` in internal/tracer/manager.go leaves its job as it is.
use eth_fund_trace.Prelude.{
  ℕ, zero, suc, ◌≡◌, refl, Bool, true, false, ◌&&◌, ◌||◌, not, Option, none, some, String, str_eq,
  if◌then◌else◌, ◌⊎◌, inl, inr,
}
use eth_fund_trace.Prelude.Answers.{Answer, ok, err}
use eth_fund_trace.Store.Job.{SyncJob}
use eth_fund_trace.Tracer.Dependencies.{
  Dependency, Traced, traced, unsynced, Waited, synced, canceled, unfinished, TraceEnv, look,
  wait_sync, Tracing, Ending, finished, failed, left, out_of_fuel, is_attempted, after_wait,
  saved_or, then_saved, after_enqueue, synchronise, depend, answer_trace, trace_loop,
}

module _ {W R : Type 0} (env : TraceEnv W R) where
  -- The context is cancelled, or the last call was one to the synchroniser that said so.
  abbrev pub Interrupted : W → Type 0
  Interrupted w =
      (env.is_canceled w ≡ true)
      ⊎ ((id : String) × (v : W) × (e : String) × (env.sync_job id v ≡ (err e, w))
          × (env.is_cancellation e ≡ true))

  -- Waiting is cancelled for such a context only.
  abbrev pub Honest : Waited × W → Type 0
  Honest (canceled, w) = Interrupted w
  Honest (synced job, w) = Unit {0}
  Honest (unfinished, w) = Unit {0}
  Honest (Waited.broken e, w) = Unit {0}

  choose-Honest :
      (c : Bool) (x y : Waited × W)
      → (c ≡ true → Honest x)
      → (c ≡ false → Honest y)
      → Honest (if c then x else y)
  choose-Honest true x y yes_case no_case = yes_case refl
  choose-Honest false x y yes_case no_case = no_case refl

  look-Honest :
      (wait : W → Waited × W) (id : String) (v : W) (found : Answer String SyncJob) (w : W)
      → env.sync_job id v ≡ (found, w)
      → ((u : W) → Honest (wait u))
      → Honest (look env wait found w)
  unfolding look
  look-Honest wait id v (err e) w asked honest =
      choose-Honest (env.is_cancellation e) _ _ (λ cancelled. inr (id, v, e, asked, cancelled))
        (λ other. tt)
  look-Honest wait id v (ok job) w asked honest =
      choose-Honest (str_eq job.status "succeeded" || str_eq job.status "partial") _ _ (λ done. tt)
        (λ open_now.
          choose-Honest (str_eq job.status "failed") _ _ (λ lost. tt)
            (λ going.
              choose-Honest (env.is_canceled w) _ _ (λ cancelled. inl cancelled)
                (λ waiting. honest _)))

  pub wait_sync-Honest : (looks : ℕ) (id : String) (w : W) → Honest (wait_sync env looks id w)
  unfolding wait_sync
  wait_sync-Honest zero id w = tt
  wait_sync-Honest (suc looks) id w =
      look-Honest (wait_sync env looks id) id w _ _ refl (λ u. wait_sync-Honest looks id u)

  -- The job is left as it is for a cancelled context only.
  abbrev pub Leaves : Ending env → Type 0
  Leaves (left t) = Interrupted t.repo
  Leaves (finished result t) = Unit {0}
  Leaves (failed message t) = Unit {0}
  Leaves (out_of_fuel t) = Unit {0}

  choose-Leaves : (c : Bool) (x y : Ending env) → Leaves x → Leaves y → Leaves (if c then x else y)
  choose-Leaves true x y yes_case no_case = yes_case
  choose-Leaves false x y yes_case no_case = no_case

  saved_or-Leaves :
      (error : Option String) (next : Tracing env → Ending env) (t : Tracing env)
      → Leaves (next t)
      → Leaves (saved_or env error next t)
  unfolding saved_or
  saved_or-Leaves none next t h = h
  saved_or-Leaves (some e) next t h = tt

  module _ (looks : ℕ) (again : Tracing env → Ending env)
      (leaves : (t : Tracing env) → Leaves (again t)) where
    after_wait-Leaves :
        (x : Waited × W) (t : Tracing env) → Honest x → Leaves (after_wait env again x t)
    unfolding after_wait
    after_wait-Leaves (synced current, w) t h = leaves _
    after_wait-Leaves (canceled, w) t h = h
    after_wait-Leaves (unfinished, w) t h = tt
    after_wait-Leaves (Waited.broken e, w) t h = tt

    after_enqueue-Leaves :
        (found : Answer String SyncJob) (t : Tracing env)
        → Leaves (after_enqueue env looks again found t)
    unfolding after_enqueue then_saved
    after_enqueue-Leaves (err e) t = tt
    after_enqueue-Leaves (ok current) t =
        saved_or-Leaves _ _ _ (after_wait-Leaves _ _ (wait_sync-Honest looks current.id _))

    depend-Leaves : (d : Dependency) (t : Tracing env) → Leaves (depend env looks again d t)
    unfolding depend then_saved synchronise
    depend-Leaves d t =
        choose-Leaves (is_attempted env d t) _ _ (leaves _)
          (saved_or-Leaves _ _ _ (after_enqueue-Leaves _ _))

    answer_trace-Leaves :
        (answer : Traced R) (t : Tracing env) → Leaves (answer_trace env looks again answer t)
    unfolding answer_trace
    answer_trace-Leaves (traced result) t = tt
    answer_trace-Leaves (Traced.broken message) t = tt
    answer_trace-Leaves (unsynced d) t =
        choose-Leaves (env.has_sync_jobs && not (str_eq d.address "")) _ _ (depend-Leaves _ t) tt

  pub trace_loop-Leaves :
      (looks traces : ℕ) (t : Tracing env) → Leaves (trace_loop env looks traces t)
  unfolding trace_loop
  trace_loop-Leaves looks zero t = tt
  trace_loop-Leaves looks (suc traces) t =
      answer_trace-Leaves looks (trace_loop env looks traces)
        (λ t'. trace_loop-Leaves looks traces t') _ _
