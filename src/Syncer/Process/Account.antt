-- ===== src/Syncer/Process/Account.antt =====
-- The counts of a job that `process` of internal/syncer/manager.go has run.
use eth_fund_trace.Prelude.{
  ℕ, ◌+◌, ◌<◌, ◌≡◌, refl, Bool, true, false, ◌||◌, List, [], ◌∷◌, Option, none, some, ◌⊎◌, inl, inr,
  String, length-snoc, ltb, length, if◌then◌else◌, arith,
}
use eth_fund_trace.Store.Job.{SyncJob, SyncFailure}
use eth_fund_trace.Syncer.State.{SyncError, Fault}
use eth_fund_trace.Syncer.Actions.{AddressResult, own}
use eth_fund_trace.Syncer.Address.{Config, Request}
use eth_fund_trace.Syncer.Address.World.{Answer, ok, err}
use eth_fund_trace.Syncer.Process.{
  JobEnv, Running, Flow, going, returned, merge_result, count_seed, count_neighbor, fail_neighbor,
  save_progress, finish, finish_failed, outcome, sync_one, after_neighbor, with_checkpoints,
  sync_neighbor, then_neighbors, sync_neighbors, end_process, with_neighbors, find_neighbors,
  after_seed, start_job, after_start, run_job, is_canceled, error_of, seed_checkpoints,
}

-- The seed and `n` neighbours are through.
abbrev pub Counted : ℕ → SyncJob → Type 0
Counted n j =
    (j.completed_addresses ≡ 1 + length j.successful_neighbors)
    × (j.processed_addresses ≡ j.completed_addresses + length j.failed_neighbors)
    × (j.processed_addresses ≡ 1 + n)

-- No neighbour was tried.
abbrev pub Untried : SyncJob → Type 0
Untried j = (j.successful_neighbors ≡ []) × (j.failed_neighbors ≡ [])

-- The job went through: every address counts once, and it is a success exactly when no neighbour
-- failed and no history was truncated.
abbrev pub Complete : SyncJob → Type 0
Complete j =
    (j.total_addresses ≡ 1 + length j.successful_neighbors + length j.failed_neighbors)
    × (j.processed_addresses ≡ j.total_addresses)
    × (j.completed_addresses ≡ 1 + length j.successful_neighbors)
    × (((j.status ≡ "succeeded") × (j.failed_neighbors ≡ []) × (j.truncated_actions ≡ []))
        ⊎ ((j.status ≡ "partial") × (0 < length j.failed_neighbors + length j.truncated_actions)))

-- Otherwise the job has failed, or `process` left it: the context was cancelled, or the start could
-- not be written.
abbrev pub Accounted : SyncJob → Type 0
Accounted j = Complete j ⊎ (j.status ≡ "failed") ⊎ (j.status ≡ "running")

outcome-cases :
    (failed : List SyncFailure) (truncated : List String) (status : String)
    → status
      ≡ (if ltb 0 (length failed) || ltb 0 (length truncated) then "partial" else "succeeded")
    → ((status ≡ "succeeded") × (failed ≡ []) × (truncated ≡ []))
      ⊎ ((status ≡ "partial") × (0 < length failed + length truncated))
outcome-cases [] [] status e = inl (e, refl, refl)
outcome-cases [] (x ∷ xs) status e = inr (ground arith, omega arith)
outcome-cases (f ∷ fs) truncated status e = inr (ground arith, omega arith)

Untried-Counted :
    (j : SyncJob) → Untried j → j.completed_addresses ≡ 1 → j.processed_addresses ≡ 1 → Counted 0 j
Untried-Counted j (none_through, none_failed) completed processed =
    grind (arith, none_through, none_failed)

module _ {W : Type 0} (env : JobEnv W) where
  count_neighbor-Counted :
      (n : ℕ) (neighbor : String) (result : AddressResult) (j : SyncJob)
      → Counted n j
      → Counted (n + 1) (count_neighbor neighbor result j)
  unfolding count_neighbor merge_result
  count_neighbor-Counted n neighbor result j c =
      grind (arith, length-snoc j.successful_neighbors neighbor)

  fail_neighbor-Counted :
      (n : ℕ) (neighbor : String) (e : SyncError) (j : SyncJob)
      → Counted n j
      → Counted (n + 1) (fail_neighbor env neighbor e j)
  unfolding fail_neighbor
  fail_neighbor-Counted n neighbor e j c =
      (c.0, omega (arith, length-snoc j.failed_neighbors _), omega arith)

  finish_failed-status :
      (e : SyncError) (r : Running W) → (finish_failed env e r).job.status ≡ "failed"
  unfolding finish_failed finish save_progress
  finish_failed-status e r = refl

  abbrev Left : Running W → Type 0
  Left r = (r.job.status ≡ "failed") ⊎ (r.job.status ≡ "running")

  -- A job that is running, of whose addresses `1 + n` are through.
  abbrev Underway : ℕ → ℕ → Running W → Type 0
  Underway total n r =
      Counted n r.job × (r.job.status ≡ "running") × (r.job.total_addresses ≡ total)

  abbrev Flows : ℕ → ℕ → Flow W → Type 0
  Flows total n (going r) = Underway total n r
  Flows total n (returned r) = Left r

  choose-Flows :
      (total n : ℕ) (c : Bool) (x y : Flow W)
      → Flows total n x
      → Flows total n y
      → Flows total n (if c then x else y)
  choose-Flows total n true x y first second = first
  choose-Flows total n false x y first second = second

  module _ (config : Config) (chain_id : ℕ) (request : Request) where
    after_neighbor-Flows :
        (total n : ℕ) (neighbor : String) (o : Answer Fault AddressResult × Running W)
        → Underway total n o.1
        → Flows total (n + 1) (after_neighbor env config chain_id request neighbor o)
    unfolding after_neighbor save_progress count_neighbor merge_result fail_neighbor
    after_neighbor-Flows total n neighbor (ok result, r) (c, running, all) =
        (count_neighbor-Counted n neighbor result r.job c, running, all)
    after_neighbor-Flows total n neighbor (err e, r) (c, running, all) =
        choose-Flows total (n + 1) (is_canceled (error_of e)) _ _ (inr running)
          (fail_neighbor-Counted n neighbor (error_of e) r.job c, running, all)

    sync_neighbor-Flows :
        (total n : ℕ) (neighbor : String) (found : Answer SyncError _) (r : Running W)
        → Underway total n r
        → Flows total (n + 1) (with_checkpoints env config chain_id request neighbor found r)
    unfolding with_checkpoints sync_one
    sync_neighbor-Flows total n neighbor (err e) r u = inl (finish_failed-status e r)
    sync_neighbor-Flows total n neighbor (ok checkpoints) r u =
        after_neighbor-Flows total n neighbor
          (sync_one env config chain_id request
            (record request { address = neighbor; neighbor_limit = 0 }) (own checkpoints) r)
          u

    then_neighbors-Flows :
        (total n m : ℕ) (f : Flow W) (next : Running W → Flow W)
        → Flows total n f
        → ((r : Running W) → Underway total n r → Flows total m (next r))
        → Flows total m (then_neighbors env config chain_id request f next)
    unfolding then_neighbors
    then_neighbors-Flows total n m (going r) next u step = step r u
    then_neighbors-Flows total n m (returned r) next u step = u

    sync_neighbors-Flows :
        (total n m : ℕ) (neighbors : List String) (r : Running W)
        → m ≡ n + length neighbors
        → Underway total n r
        → Flows total m (sync_neighbors env config chain_id request neighbors r)
    unfolding sync_neighbors sync_neighbor
    sync_neighbors-Flows total n m [] r e (c, running, all) =
        ((c.0, c.1, omega arith), running, all)
    sync_neighbors-Flows total n m (neighbor ∷ neighbors) r e u =
        then_neighbors-Flows total (n + 1) m _ _ (sync_neighbor-Flows total n neighbor _ _ u)
          (λ r' u'. sync_neighbors-Flows total (n + 1) m neighbors r' (omega (arith, e)) u')

    outcome-Complete :
        (n : ℕ) (j : SyncJob) → Counted n j → j.total_addresses ≡ 1 + n → Complete (outcome env j)
    unfolding outcome
    outcome-Complete n j c all = (
      omega (arith, c, all),
      omega (arith, c, all),
      c.0,
      outcome-cases j.failed_neighbors j.truncated_actions _ refl,
    )

    end_process-Accounted :
        (n : ℕ) (f : Flow W)
        → Flows (1 + n) n f
        → Accounted (end_process env config chain_id request f).job
    unfolding end_process finish save_progress
    end_process-Accounted n (going r) (c, running, all) = inl (outcome-Complete n r.job c all)
    end_process-Accounted n (returned r) left = inr left

    with_neighbors-Accounted :
        (found : Answer SyncError (List String)) (r : Running W)
        → Counted 0 r.job
        → r.job.status ≡ "running"
        → Accounted (with_neighbors env config chain_id request found r).job
    unfolding with_neighbors save_progress
    with_neighbors-Accounted (err e) r c running = inr (inl (finish_failed-status e r))
    with_neighbors-Accounted (ok neighbors) r c running =
        end_process-Accounted (length neighbors) _ (
          sync_neighbors-Flows (1 + length neighbors) 0 (length neighbors) neighbors _ (omega arith)
            (c, running, refl))

    choose-Accounted :
        (c : Bool) (x y : Running W)
        → Accounted x.job
        → Accounted y.job
        → Accounted (if c then x else y).job
    choose-Accounted true x y first second = first
    choose-Accounted false x y first second = second

    after_seed-Accounted :
        (o : Answer Fault AddressResult × Running W)
        → Untried o.1.job
        → o.1.job.status ≡ "running"
        → Accounted (after_seed env config chain_id request o).job
    unfolding after_seed find_neighbors count_seed merge_result
    after_seed-Accounted (err e, r) untried running =
        choose-Accounted (is_canceled (error_of e)) r _ (inr (inr running))
          (inr (inl (finish_failed-status (error_of e) r)))
    after_seed-Accounted (ok result, r) untried running =
        let c = Untried-Counted (count_seed result r.job) untried refl refl in
        choose-Accounted (ltb 0 request.neighbor_limit) _ _ (with_neighbors-Accounted _ _ c running)
          (with_neighbors-Accounted _ _ c running)

    after_start-Accounted :
        (error : Option SyncError) (r : Running W)
        → Untried r.job
        → r.job.status ≡ "running"
        → Accounted (after_start env config chain_id request error r).job
    unfolding after_start sync_one
    after_start-Accounted (some e) r untried running = inr (inr running)
    after_start-Accounted none r untried running =
        after_seed-Accounted
          (sync_one env config chain_id request request
            (seed_checkpoints env config chain_id request r.job) r)
          untried running

-- When a job whose lists of neighbours are still empty is run, it ends in one of three ways. Either
-- all addresses count: the total is the seed, the successful and the failed neighbours, all are
-- processed, and the status is "succeeded" with no failed neighbour and no truncated history, or
-- "partial" with at least one of them. Or the status is "failed". Or it is still "running", as for
-- a cancelled context.
pub run_job_accounts :
    {W : Type 0} (env : JobEnv W) (config : Config) (chain_id : ℕ) (request : Request)
    (job : SyncJob) (w : W)
    → Untried job
    → Accounted (run_job env config chain_id request job w).job
unfolding run_job start_job
run_job_accounts env config chain_id request job w untried =
    after_start-Accounted env config chain_id request _ _ untried refl
