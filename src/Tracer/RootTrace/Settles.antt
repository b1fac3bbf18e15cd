-- ===== src/Tracer/RootTrace/Settles.antt =====
-- How a root trace of internal/tracer/manager.go leaves its job.
use mathlib.Core.Path.{subst}
use eth_fund_trace.Prelude.{
  ℕ, ◌+◌, ◌<◌, ◌≡◌, ◌≢◌, refl, sym, Bool, true, false, ◌||◌, List, Option, none, some, String,
  str_eq, length, if◌then◌else◌, arith,
}
use eth_fund_trace.Prelude.Answers.{Answer, ok, err}
use eth_fund_trace.Store.Address.{Address}
use eth_fund_trace.Store.Job.{TraceJob, SyncJob}
use eth_fund_trace.Tracer.Types.{TraceResult}
use eth_fund_trace.Tracer.Dependencies.{
  Waited, synced, canceled, unfinished, TraceEnv, wait_sync, Tracing, Ending, finished, failed,
  left, out_of_fuel, note_synced, after_wait, saved_or, then_saved, fail, fail_with,
}
use eth_fund_trace.Tracer.Dependencies.Ends.{Finite, remaining_bound, trace_loop_ends}
use eth_fund_trace.Tracer.Dependencies.Leaves.{
  Interrupted, Honest, wait_sync-Honest, Leaves, trace_loop-Leaves,
}
use eth_fund_trace.Tracer.RootTrace.{
  FindAddress, complete_job, saved_or_fail, close_job, set_status, trace_seed, note_high_frequency,
  note_seed_job, after_seed_enqueue, sync_seed, is_busy, after_seed_lookup, look_up_seed,
  prepare_seed, start_root, run_root,
}

-- The job will not run again.
abbrev pub is_settled : String → Bool
is_settled status =
    str_eq status "succeeded"
    || (str_eq status "partial" || (str_eq status "failed" || str_eq status "stopped"))

module _ {W : Type 0} (env : TraceEnv W TraceResult) (find_address : FindAddress W) where
  choose-Settled :
      (c : Bool) (t u : Tracing env)
      → (c ≡ true → is_settled t.job.status ≡ true)
      → (c ≡ false → is_settled u.job.status ≡ true)
      → is_settled (if c then t else u).job.status ≡ true
  choose-Settled true t u yes_case no_case = yes_case refl
  choose-Settled false t u yes_case no_case = no_case refl

  fail_with-Settled :
      (message : String) (found : Answer String (TraceJob TraceResult)) (t : Tracing env)
      → is_settled (fail_with env message found t).job.status ≡ true
  unfolding fail_with
  fail_with-Settled message (err e) t = refl
  fail_with-Settled message (ok current) t =
      choose-Settled (str_eq current.status "stopped") _ _ (λ stopped. ground (arith, stopped))
        (λ other. refl)

  saved_or_fail-Settled :
      (error : Option String) (t : Tracing env)
      → is_settled t.job.status ≡ true
      → is_settled (saved_or_fail env find_address error t).job.status ≡ true
  unfolding saved_or_fail fail
  saved_or_fail-Settled none t h = h
  saved_or_fail-Settled (some e) t h = fail_with-Settled _ _ _

  complete_job-Settled :
      (result : TraceResult) (t : Tracing env)
      → is_settled (complete_job env find_address result t).job.status ≡ true
  unfolding complete_job
  complete_job-Settled result t = whole_or_partial t.partial_sync
    where
      whole_or_partial : (c : Bool) → is_settled (if c then "partial" else "succeeded") ≡ true
      whole_or_partial true = refl
      whole_or_partial false = refl

  -- The trace ended, and its job is settled, or its context is cancelled.
  abbrev pub Settles : Ending env → Type 0
  Settles (left t) = Interrupted env t.repo
  Settles (out_of_fuel t) = ⊥
  Settles (finished result t) =
      is_settled (close_job env find_address (finished result t)).job.status ≡ true
  Settles (failed message t) =
      is_settled (close_job env find_address (failed message t)).job.status ≡ true

  ending-Settles :
      (e : Ending env) → Leaves env e → ((t : Tracing env) → e ≢ out_of_fuel t) → Settles e
  unfolding close_job fail
  ending-Settles (left t) leaves ends = leaves
  ending-Settles (out_of_fuel t) leaves ends = absurd (ends t refl)
  ending-Settles (failed message t) leaves ends = fail_with-Settled _ _ _
  ending-Settles (finished result t) leaves ends =
      saved_or_fail-Settled _ _ (complete_job-Settled result t)

  failed-Settles : (message : String) (t : Tracing env) → Settles (failed message t)
  failed-Settles message t = ending-Settles (failed message t) tt (λ u e. absurd cc)

  saved_or-Settles :
      (error : Option String) (next : Tracing env → Ending env) (t : Tracing env)
      → Settles (next t)
      → Settles (saved_or env error next t)
  unfolding saved_or
  saved_or-Settles none next t h = h
  saved_or-Settles (some e) next t h = failed-Settles _ t

  choose-Settles :
      (c : Bool) (x y : Ending env)
      → (c ≡ true → Settles x)
      → (c ≡ false → Settles y)
      → Settles (if c then x else y)
  choose-Settles true x y yes_case no_case = yes_case refl
  choose-Settles false x y yes_case no_case = no_case refl

  module _ (chain : String) (looks : ℕ)
      (waits : (id : String) (w : W) → (wait_sync env looks id w).0 ≢ unfinished)
      (next : Tracing env → Ending env)
      (settles : (t : Tracing env) → t.job.chain ≡ chain → Settles (next t)) where
    after_wait-Settles :
        (x : Waited × W) (t : Tracing env)
        → x.0 ≢ unfinished
        → Honest env x
        → t.job.chain ≡ chain
        → Settles (after_wait env next x t)
    unfolding after_wait note_synced
    after_wait-Settles (synced current, w) t h honest same = settles _ same
    after_wait-Settles (canceled, w) t h honest same = honest
    after_wait-Settles (unfinished, w) t h honest same = absurd (h refl)
    after_wait-Settles (Waited.broken e, w) t h honest same = failed-Settles e _

    after_seed_enqueue-Settles :
        (found : Answer String SyncJob) (t : Tracing env)
        → t.job.chain ≡ chain
        → Settles (after_seed_enqueue env find_address looks next found t)
    unfolding after_seed_enqueue then_saved note_seed_job
    after_seed_enqueue-Settles (err e) t same = failed-Settles e t
    after_seed_enqueue-Settles (ok current) t same =
        saved_or-Settles _ _ _ (
          after_wait-Settles _ _ (waits current.id _) (wait_sync-Honest env looks current.id _)
            same)

    after_seed_lookup-Settles :
        (found : Answer String (Option Address)) (t : Tracing env)
        → t.job.chain ≡ chain
        → Settles (after_seed_lookup env find_address looks next found t)
    unfolding after_seed_lookup sync_seed note_high_frequency
    after_seed_lookup-Settles (err e) t same = failed-Settles e t
    after_seed_lookup-Settles (ok found) t same =
        choose-Settles (is_busy env find_address found) _ _ (λ busy. settles _ same)
          (λ calm. after_seed_enqueue-Settles _ _ same)

    prepare_seed-Settles :
        (t : Tracing env)
        → t.job.chain ≡ chain
        → Settles (prepare_seed env find_address looks next t)
    unfolding prepare_seed look_up_seed
    prepare_seed-Settles t same =
        choose-Settles env.has_sync_jobs _ _ (λ asked. after_seed_lookup-Settles _ _ same)
          (λ other. settles t same)

  module _ (keys addresses : List String) (looks traces : ℕ) (chain : String)
      (waits : (id : String) (w : W) → (wait_sync env looks id w).0 ≢ unfinished)
      (finite : Finite env chain keys addresses)
      (enough : length keys + length addresses < traces) where
    trace_seed-Settles :
        (t : Tracing env)
        → t.job.chain ≡ chain
        → Settles (trace_seed env find_address looks traces t)
    unfolding trace_seed then_saved set_status
    trace_seed-Settles t same = saved_or-Settles _ _ _ (
        ending-Settles _ (trace_loop-Leaves env looks traces _) (λ u.
          trace_loop_ends env keys addresses looks traces _ u waits
            (subst (λ c. Finite env c keys addresses) (sym same) finite)
            (omega (arith, enough, remaining_bound env t.job.chain keys addresses _))))

-- When waiting for the synchroniser always comes to an end, and the trace misses only addresses of
-- a finite set and none that was made final: the processing of a root trace ends, whatever the
-- database and the synchroniser answer. It leaves the job succeeded, partial, failed or stopped, or
-- it returns where the context is cancelled, or the synchroniser has just answered that it is.
pub run_root-Settles :
    {W : Type 0} (env : TraceEnv W TraceResult) (find_address : FindAddress W)
    (keys addresses : List String) (looks traces : ℕ) (job : TraceJob TraceResult) (w : W)
    → ((id : String) (v : W) → (wait_sync env looks id v).0 ≢ unfinished)
    → Finite env job.chain keys addresses
    → length keys + length addresses < traces
    → Settles env find_address (run_root env find_address looks traces job w)
unfolding run_root then_saved start_root
run_root-Settles env find_address keys addresses looks traces job w waits finite enough =
    saved_or-Settles env find_address _ _ _ (
      prepare_seed-Settles env find_address job.chain looks waits
        (trace_seed env find_address looks traces)
        (λ t same.
          trace_seed-Settles env find_address keys addresses looks traces job.chain waits finite
            enough t same)
        _ refl)
