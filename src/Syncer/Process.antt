-- ===== src/Syncer/Process.antt =====
-- `process` of internal/syncer/manager.go with `mergeResult`, `finish` and `finishFailed`: one job
-- synchronises its address and then its neighbours.
pub mod Account
use Prim.Native.String.{◌++◌ as append}
use eth_fund_trace.Prelude.{
  ℕ, ◌+◌, Bool, true, false, ◌||◌, List, [], ◌∷◌, ◌++◌, Option, none, some, String, str_eq, ltb,
  any, length, if◌then◌else◌,
}
use eth_fund_trace.Prelude.Int.{ℤ}
use eth_fund_trace.Prelude.Dict.{Dict, insert}
use eth_fund_trace.Store.Job.{SyncJob, SyncFailure}
use eth_fund_trace.Syncer.State.{SyncError, Fault, classify}
use eth_fund_trace.Syncer.Coverage.{count_of}
use eth_fund_trace.Syncer.Actions.{AddressResult, Checkpoints, shared, own}
use eth_fund_trace.Syncer.Address.{Config, Request, sync_address}
use eth_fund_trace.Syncer.Address.World.{Answer, ok, err, AddressEnv, Work}

-- The database and the clock of a job. `address_env` is the world of an address, whose progress
-- reports are written with the job.
pub record JobEnv (W : Type 0) : Type 0 where
  pub clock : W → ℕ
  pub milliseconds : ℕ → ℕ → ℕ
  pub error_text : SyncError → String
  pub join : List String → String
  pub get_sync_job : String → W → Answer SyncError SyncJob × W
  pub save_sync_job : SyncJob → W → Option SyncError × W
  pub top_neighbors : String → String → ℕ → W → Answer SyncError (List String) × W
  pub find_sync_checkpoints : String → String → ℕ → ℕ → W → Answer SyncError (Dict ℤ) × W
  pub address_env : SyncJob → AddressEnv W

unfoldable pub add_counts : Dict ℕ → Dict ℕ → Dict ℕ
unfolding count_of
add_counts [] counts = counts
add_counts ((name, count) ∷ rest) counts =
    add_counts rest (insert name (count_of name counts + count) counts)

unfoldable pub append_absent : List String → List String → List String
append_absent [] actions = actions
append_absent (action ∷ rest) actions =
    append_absent rest (if any (str_eq action) actions then actions else actions ++ action ∷ [])

unfoldable pub merge_result : AddressResult → SyncJob → SyncJob
unfolding add_counts append_absent
merge_result result job = record job {
  action_counts = add_counts result.action_counts job.action_counts;
  fetched = job.fetched + result.fetched;
  cached_addresses = if result.cached then job.cached_addresses + 1 else job.cached_addresses;
  truncated_actions = append_absent result.truncated_actions job.truncated_actions;
}

-- The job in memory and the state of the world.
pub record Running (W : Type 0) : Type 0 where
  pub job : SyncJob
  pub work : Work W

-- The loop over the neighbours goes on, or `process` has returned.
pub data Flow (W : Type 0) : Type 0 where
  going returned : Running W → Flow W

-- The fuel of the model is never used up (`sync_address_ends`), so the last clause is not met.
unfoldable pub error_of : Fault → SyncError
error_of (Fault.failed e) = e
error_of Fault.unfinished = SyncError.other ""

-- `errors.Is(err, context.Canceled)`
unfoldable pub is_canceled : SyncError → Bool
is_canceled SyncError.canceled = true
is_canceled _ = false

unfoldable pub count_seed : AddressResult → SyncJob → SyncJob
unfolding merge_result
count_seed result job = record (merge_result result job) {
  completed_addresses = 1;
  processed_addresses = 1;
}

unfoldable pub count_neighbor : String → AddressResult → SyncJob → SyncJob
unfolding merge_result
count_neighbor neighbor result job = record (merge_result result job) {
  completed_addresses = job.completed_addresses + 1;
  processed_addresses = job.processed_addresses + 1;
  successful_neighbors = job.successful_neighbors ++ neighbor ∷ [];
}

module _ {W : Type 0} (env : JobEnv W) where
  -- A write whose error is only logged.
  unfoldable pub save_progress : Running W → Running W
  save_progress r = record r {
    work = record r.work { repo = (env.save_sync_job r.job r.work.repo).1 };
  }

  unfoldable pub finish : Running W → Running W
  unfolding save_progress
  finish r =
      let now = env.clock r.work.repo in
      save_progress (record r {
        job = record r.job {
          finished_at = now;
          duration_ms = env.milliseconds now r.job.started_at;
        };
      })

  unfoldable pub finish_failed : SyncError → Running W → Running W
  unfolding classify
  finish_failed e r =
      let (code, retryable) = classify e in
      finish (record r {
        job = record r.job {
          status = "failed";
          error_code = code;
          retryable = retryable;
          error = env.error_text e;
        };
      })

  unfoldable pub fail_neighbor : String → SyncError → SyncJob → SyncJob
  unfolding classify
  fail_neighbor neighbor e job =
      let (code, retryable) = classify e in
      record job {
        failed_neighbors =
            job.failed_neighbors
            ++ record {
              address = neighbor;
              code = code;
              message = env.error_text e;
              retryable = retryable;
            }
              ∷ [];
        processed_addresses = job.processed_addresses + 1;
      }

  -- Status and error of a job that went through.
  unfoldable pub outcome : SyncJob → SyncJob
  outcome job =
      let truncated = ltb 0 (length job.truncated_actions) in
      record job {
        status =
            if ltb 0 (length job.failed_neighbors) || truncated then "partial" else "succeeded";
        error_code =
            if truncated
            then (if any (str_eq "high_frequency") job.truncated_actions
                then "high_frequency"
                else "record_limit")
            else job.error_code;
        error =
            if truncated
            then append "record limit reached: " (env.join job.truncated_actions)
            else job.error;
      }

  module _ (config : Config) (chain_id : ℕ) (request : Request) where
    -- An address of the job; the job has its progress and its safe head.
    unfoldable pub sync_one :
        Request → Checkpoints → Running W → Answer Fault AddressResult × Running W
    sync_one wanted checkpoints r =
        let (result, k) =
          sync_address (env.address_env r.job) config chain_id wanted checkpoints r.work in
        (
          result,
          record {
            work = k;
            job = record r.job {
              progress = k.progress;
              safe_head = elim k.safe_head [ none ↦ r.job.safe_head | some head ↦ head ];
            };
          },
        )

    unfoldable pub after_neighbor : String → Answer Fault AddressResult × Running W → Flow W
    unfolding fail_neighbor count_neighbor save_progress
    after_neighbor neighbor (err e, r) =
        if is_canceled (error_of e)
        then returned r
        else going (save_progress (record r { job = fail_neighbor neighbor (error_of e) r.job }))
    after_neighbor neighbor (ok result, r) =
        going (save_progress (record r { job = count_neighbor neighbor result r.job }))

    unfoldable pub with_checkpoints : String → Answer SyncError (Dict ℤ) → Running W → Flow W
    with_checkpoints neighbor (err e) r = returned (finish_failed e r)
    with_checkpoints neighbor (ok checkpoints) r =
        after_neighbor neighbor
          (sync_one (record request { address = neighbor; neighbor_limit = 0 }) (own checkpoints) r)

    unfoldable pub sync_neighbor : String → Running W → Flow W
    sync_neighbor neighbor r =
        let (found, w) =
          env.find_sync_checkpoints request.chain neighbor request.start_block
            config.max_records_per_action r.work.repo in
        with_checkpoints neighbor found (record r { work = record r.work { repo = w } })

    unfoldable pub then_neighbors : Flow W → (Running W → Flow W) → Flow W
    then_neighbors (going r) next = next r
    then_neighbors (returned r) next = returned r

    unfoldable pub sync_neighbors : List String → Running W → Flow W
    sync_neighbors [] r = going r
    sync_neighbors (neighbor ∷ neighbors) r =
        then_neighbors (sync_neighbor neighbor r) (sync_neighbors neighbors)

    unfoldable pub end_process : Flow W → Running W
    unfolding outcome finish
    end_process (returned r) = r
    end_process (going r) = finish (record r { job = outcome r.job })

    unfoldable pub with_neighbors : Answer SyncError (List String) → Running W → Running W
    unfolding save_progress
    with_neighbors (err e) r = finish_failed e r
    with_neighbors (ok neighbors) r = end_process (
        sync_neighbors neighbors (
          save_progress
            (record r { job = record r.job { total_addresses = 1 + length neighbors } })))

    -- The neighbours are asked for only when the request wants some.
    unfoldable pub find_neighbors : Running W → Running W
    find_neighbors r =
        if ltb 0 request.neighbor_limit
        then (let (found, w) =
              env.top_neighbors request.chain request.address request.neighbor_limit r.work.repo in
            with_neighbors found (record r { work = record r.work { repo = w } }))
        else with_neighbors (ok []) r

    unfoldable pub after_seed : Answer Fault AddressResult × Running W → Running W
    unfolding count_seed
    after_seed (err e, r) = if is_canceled (error_of e) then r else finish_failed (error_of e) r
    after_seed (ok result, r) = find_neighbors (record r { job = count_seed result r.job })

    -- The seed reads the checkpoints of the job; the empty map is stored as none.
    unfoldable pub seed_checkpoints : SyncJob → Checkpoints
    seed_checkpoints job = elim job.progress.action_checkpoints [ [] ↦ own [] | c ∷ cs ↦ shared ]

    unfoldable pub start_job : SyncJob → W → Running W
    start_job job w = record {
      job = job;
      work = record { repo = w; progress = job.progress; safe_head = none };
    }

    unfoldable pub after_start : Option SyncError → Running W → Running W
    unfolding seed_checkpoints
    after_start (some e) r = r
    after_start none r = after_seed (sync_one request (seed_checkpoints r.job) r)

    unfoldable pub run_job : SyncJob → W → Running W
    unfolding start_job
    run_job job w =
        let started = record job { status = "running"; started_at = env.clock w } in
        let (error, w') = env.save_sync_job started w in after_start error (start_job started w')

    -- A job that was stopped in the queue is left alone.
    unfoldable pub process : String → W → W
    process id w =
        let (found, w') = env.get_sync_job id w in
        elim found [
          | err e ↦ w'
          | ok job ↦ if str_eq job.status "stopped" then w' else (run_job job w').work.repo
        ]
