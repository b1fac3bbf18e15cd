-- ===== src/Syncer/QueueTests.antt =====
-- Two requests for one address, a queue of one place, and a job with no neighbours: the theorems on
-- the queue and on `process` of internal/syncer/manager.go applied to them.
use eth_fund_trace.Prelude.{ℕ, ◌+◌, ◌≡◌, refl, [], ◌∷◌, none, some}
use eth_fund_trace.Prelude.Int.{pos}
use eth_fund_trace.Prelude.Dict.{lookup}
use eth_fund_trace.Store.Job.{SyncJob}
use eth_fund_trace.Text.{to_lower, trim_space}
use eth_fund_trace.Ethaddr
use eth_fund_trace.Ethaddr.{Chain, ethereum, resolve}
use eth_fund_trace.Syncer.State.{SyncError}
use eth_fund_trace.Syncer.Address.{Request}
use eth_fund_trace.Syncer.Address.World.{ok, err}
use eth_fund_trace.Syncer.Queue.{
  Wanted, QueueConfig, QueueEnv, Manager, check_request, enqueue, new_job, enqueued, here, step,
}
use eth_fund_trace.Syncer.Queue.Active.{Sound, Reachable-Sound}
use eth_fund_trace.Syncer.Queue.Replies.{Answered, enqueue-Answered}
use eth_fund_trace.Syncer.Process.{JobEnv, run_job}
use eth_fund_trace.Syncer.Process.Account.{Accounted, Untried, run_job_accounts}
use eth_fund_trace.Syncer.AddressTests.{World, env, config, start}

-- The world counts the ids that were given.
abbrev queue_env : QueueEnv ℕ
queue_env = record {
  clock = λ w. 7;
  new_object_id = λ w. ("job", w + 1);
  find_sync_checkpoints = λ chain address from limit w. (ok [], w);
  create_sync_job = λ job w. (none, w);
  get_sync_job = λ id w. (err SyncError.transient, w);
  save_sync_job = λ job w. (none, w);
}

abbrev queue_config : QueueConfig
queue_config = record {
  queue_size = 1;
  max_records_per_action = 0;
  start_blocks = [];
  end_blocks = [];
  sources = "ethereum" ∷ [];
}

abbrev wanted : Wanted
wanted = record {
  chain = "";
  address = "0xDAC17F958D2ee523a2206206994597C13D831ec7";
  start_block = pos 0;
  end_block = pos 0;
  neighbor_limit = pos 2;
}

abbrev request : Request
request = record {
  chain = "ethereum";
  address = "0xdac17f958d2ee523a2206206994597c13d831ec7";
  start_block = 0;
  end_block = 0;
  neighbor_limit = 2;
}

abbrev idle : Manager ℕ
idle = record { repo = 0; active = []; queue = []; working = none }

passes : check_request queue_config wanted ≡ some (ethereum, request)
unfolding check_request resolve to_lower trim_space Ethaddr.normalize Ethaddr.matches_pattern lookup
passes = refl

abbrev one_request : Manager ℕ
one_request = (enqueue queue_env queue_config wanted idle).1

abbrev both_requests : Manager ℕ
both_requests = (enqueue queue_env queue_config wanted one_request).1

Reachable-Sound_example : Sound 1 both_requests
Reachable-Sound_example =
    Reachable-Sound queue_env queue_config idle both_requests refl refl refl
      (step (step here (enqueued wanted idle)) (enqueued wanted one_request))

enqueue-Answered_example :
    Answered queue_env queue_config request idle (enqueue queue_env queue_config wanted idle)
enqueue-Answered_example =
    enqueue-Answered queue_env queue_config wanted ethereum request idle passes

abbrev job_env : JobEnv World
job_env = record {
  clock = λ w. 7;
  milliseconds = λ finished started. 0;
  error_text = λ e. "";
  join = λ texts. "";
  get_sync_job = λ id w. (err SyncError.transient, w);
  save_sync_job = λ job w. (none, w);
  top_neighbors = λ chain address limit w. (ok [], w);
  find_sync_checkpoints = λ chain address from limit w. (ok [], w);
  address_env = λ job. env;
}

abbrev job : SyncJob
job = new_job queue_env queue_config ethereum request "job" 7 []

job-Untried : Untried job
unfolding new_job
job-Untried = (refl, refl)

run_job_accounts_example : Accounted (run_job job_env config 1 request job start.repo).job
run_job_accounts_example = run_job_accounts job_env config 1 request job start.repo job-Untried
