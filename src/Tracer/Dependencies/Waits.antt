-- ===== src/Tracer/Dependencies/Waits.antt =====
-- `waitSync` of internal/tracer/manager.go: which jobs of the synchroniser it sees the end of.
use eth_fund_trace.Prelude.{
  ℕ, zero, suc, ◌<◌, ◌≡◌, ◌≢◌, refl, Bool, true, false, ◌||◌, String, str_eq, ap, ◌∙◌, arith,
}
use eth_fund_trace.Prelude.Answers.{Answer, ok, err}
use eth_fund_trace.Store.Job.{SyncJob}
use eth_fund_trace.Tracer.Dependencies.{Waited, unfinished, TraceEnv, look, wait_sync}

module _ {W R : Type 0} (env : TraceEnv W R) where
  -- The world behind a number of looks.
  unfoldable pub later : String → ℕ → W → W
  later id zero w = w
  later id (suc n) w = later id n (env.pass_time (env.sync_job id w).1)

  -- A job that `waitSync` knows to be over.
  abbrev pub is_over : SyncJob → Bool
  is_over job =
      str_eq job.status "succeeded" || (str_eq job.status "partial" || str_eq job.status "failed")

  -- At this look the loop ends: the database fails, the job is over, or the context is cancelled.
  abbrev pub is_last : Answer String SyncJob → W → Bool
  is_last (err e) w = true
  is_last (ok job) w = is_over job || env.is_canceled w

  look-last :
      (wait : W → Waited × W) (found : Answer String SyncJob) (w : W)
      → is_last found w ≡ true
      → (look env wait found w).0 ≢ unfinished
  unfolding look
  look-last wait (err e) w last = ground arith
  look-last wait (ok job) w last = ground (arith, last)

  look-on :
      (wait : W → Waited × W) (found : Answer String SyncJob) (w : W)
      → is_last found w ≡ false
      → look env wait found w ≡ wait (env.pass_time w)
  unfolding look
  look-on wait (err e) w on = cc
  look-on wait (ok job) w on = ground (arith, on)

  look-wait :
      (wait : W → Waited × W) (found : Answer String SyncJob) (w : W)
      → (wait (env.pass_time w)).0 ≢ unfinished
      → (look env wait found w).0 ≢ unfinished
  unfolding look
  look-wait wait (err e) w ends = ground arith
  look-wait wait (ok job) w ends = ground (arith, ends)

  wait_sync-Ended :
      (k looks : ℕ) (id : String) (w : W)
      → is_last (env.sync_job id (later id k w)).0 (env.sync_job id (later id k w)).1 ≡ true
      → k < looks
      → (wait_sync env looks id w).0 ≢ unfinished
  unfolding wait_sync later
  wait_sync-Ended zero zero id w last lt = absurd (omega arith)
  wait_sync-Ended (suc k) zero id w last lt = absurd (omega arith)
  wait_sync-Ended zero (suc looks) id w last lt = look-last _ _ _ last
  wait_sync-Ended (suc k) (suc looks) id w last lt =
      look-wait _ _ _ (wait_sync-Ended k looks id _ last (omega arith))

  wait_sync-Stuck :
      (looks : ℕ) (id : String) (w : W)
      → ((k : ℕ)
          → is_last (env.sync_job id (later id k w)).0 (env.sync_job id (later id k w)).1 ≡ false)
      → (wait_sync env looks id w).0 ≡ unfinished
  unfolding wait_sync later
  wait_sync-Stuck zero id w on = refl
  wait_sync-Stuck (suc looks) id w on =
      ap (λ x. x.0) (look-on _ _ _ (on 0)) ∙ wait_sync-Stuck looks id _ (λ k. on (suc k))

-- When at some look the database fails, the job is over (succeeded, partial or failed) or the
-- context is cancelled, waiting comes to an end within the looks up to that one.
pub wait_sync_returns :
    {W R : Type 0} (env : TraceEnv W R) (k looks : ℕ) (id : String) (w : W)
    → is_last env (env.sync_job id (later env id k w)).0 (env.sync_job id (later env id k w)).1
      ≡ true
    → k < looks
    → (wait_sync env looks id w).0 ≢ unfinished
wait_sync_returns env k looks id w last lt = wait_sync-Ended env k looks id w last lt

-- When every look finds a job that was neither succeeded, partial nor failed, as one that was
-- stopped, and the context is never cancelled, no number of looks brings the waiting to an end.
pub wait_sync_stuck :
    {W R : Type 0} (env : TraceEnv W R) (looks : ℕ) (id : String) (w : W)
    → ((k : ℕ)
        → is_last env (env.sync_job id (later env id k w)).0 (env.sync_job id (later env id k w)).1
          ≡ false)
    → (wait_sync env looks id w).0 ≡ unfinished
wait_sync_stuck env looks id w on = wait_sync-Stuck env looks id w on
