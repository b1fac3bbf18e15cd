-- ===== src/Syncer/Queue.antt =====
-- `Enqueue`, the queue and the active keys of internal/syncer/manager.go: one job for an address at
-- a time, and a bounded channel of jobs. The worker takes one job after the other.
pub mod Active
pub mod Replies
use Prim.Native.String.{◌++◌ as append}
use eth_fund_trace.Prelude.{
  ℕ, zero, suc, ◌+◌, ◌≡◌, Bool, true, false, ◌&&◌, ◌||◌, not, List, [], ◌∷◌, ◌++◌, Option, none,
  some, String, str_eq, ltb, leb, any, length, if◌then◌else◌,
}
use eth_fund_trace.Prelude.Int.{ℤ, pos, negsuc}
use eth_fund_trace.Prelude.Dict.{Dict, lookup, insert, erase}
use eth_fund_trace.Store.Job.{SyncJob}
use eth_fund_trace.Ethaddr
use eth_fund_trace.Ethaddr.{Chain, resolve}
use eth_fund_trace.Syncer.State.{SyncError}
use eth_fund_trace.Syncer.Address.{Request}
use eth_fund_trace.Syncer.Address.World.{Answer, ok, err}

-- A `Request` as it comes in, with the integers of the caller.
pub record Wanted : Type 0 where
  pub chain : String
  pub address : String
  pub start_block : ℤ
  pub end_block : ℤ
  pub neighbor_limit : ℤ

-- The rest of `Config`, and the chains that have a source.
pub record QueueConfig : Type 0 where
  pub queue_size : ℕ
  pub max_records_per_action : ℕ
  pub start_blocks : Dict ℤ
  pub end_blocks : Dict ℤ
  pub sources : List String

pub data QueueError : Type 0 where
  invalid_request queue_full : QueueError
  repository : SyncError → QueueError

unfoldable pub natural : ℤ → Option ℕ
natural (pos n) = some n
natural (negsuc n) = none

-- A block that is 0 is the default of the chain.
unfoldable pub default_block : String → Dict ℤ → ℤ → ℤ
default_block chain defaults (pos zero) = elim (lookup chain defaults) [
  | none ↦ pos 0
  | some block ↦ block
]
default_block chain defaults (pos (suc n)) = pos (suc n)
default_block chain defaults (negsuc n) = negsuc n

infixl 20 ◌>>=◌
unfoldable pub ◌>>=◌ : {A B : Type 0} → Option A → (A → Option B) → Option B
none >>= next = none
(some a) >>= next = next a

unfoldable pub check_range : String → String → ℕ → ℕ → ℕ → Option Request
check_range chain address start end limit =
    if ltb 0 end && ltb end start || ltb 10 limit
    then none
    else some (record {
      chain = chain;
      address = address;
      start_block = start;
      end_block = end;
      neighbor_limit = limit;
    })

-- `none` is `ErrInvalidRequest`.
unfoldable pub check_request : QueueConfig → Wanted → Option (Chain × Request)
unfolding natural default_block check_range ◌>>=◌
check_request config wanted = do
  chain ← resolve wanted.chain
  address ← Ethaddr.normalize wanted.address
  start ← natural (default_block chain.name config.start_blocks wanted.start_block)
  end ← natural (default_block chain.name config.end_blocks wanted.end_block)
  limit ← natural wanted.neighbor_limit
  request ← check_range chain.name address start end limit
  if any (str_eq chain.name) config.sources then some (chain, request) else none

-- The database calls of the queue, and a new job id.
pub record QueueEnv (W : Type 0) : Type 0 where
  pub clock : W → ℕ
  pub new_object_id : W → String × W
  pub find_sync_checkpoints : String → String → ℕ → ℕ → W → Answer SyncError (Dict ℤ) × W
  pub create_sync_job : SyncJob → W → Option SyncError × W
  pub get_sync_job : String → W → Answer SyncError SyncJob × W
  pub save_sync_job : SyncJob → W → Option SyncError × W

abbrev pub Queued : Type 0
Queued = String × Request

-- `working` is the job that the worker has taken and not released yet.
pub record Manager (W : Type 0) : Type 0 where
  pub repo : W
  pub active : Dict String
  pub queue : List Queued
  pub working : Option Queued

unfoldable pub key_of : Request → String
key_of request = append request.chain (append ":" request.address)

module _ {W : Type 0} (env : QueueEnv W) (config : QueueConfig) where
  unfoldable pub new_job : Chain → Request → String → ℕ → Dict ℤ → SyncJob
  new_job chain request id now checkpoints = record {
    id = id;
    chain = request.chain;
    chain_id = chain.id;
    address = request.address;
    start_block = request.start_block;
    end_block = request.end_block;
    neighbor_limit = request.neighbor_limit;
    coverage_version = "chain-start-v1";
    max_records_per_action = config.max_records_per_action;
    status = "queued";
    created_at = now;
    started_at = 0;
    finished_at = 0;
    duration_ms = 0;
    safe_head = 0;
    total_addresses = 1;
    completed_addresses = 0;
    processed_addresses = 0;
    cached_addresses = 0;
    fetched = 0;
    action_counts = [];
    progress = record {
      current_address = "";
      current_action = "";
      range_start = 0;
      range_end = 0;
      current_page = 0;
      pages_fetched = 0;
      records_read = 0;
      records_written = 0;
      split_count = 0;
      updated_at = 0;
      action_checkpoints = checkpoints;
    };
    successful_neighbors = [];
    failed_neighbors = [];
    truncated_actions = [];
    error_code = "";
    error = "";
    retryable = false;
  }

  abbrev pub EnqueueReply : Type 0
  EnqueueReply = Answer QueueError SyncJob × Manager W

  unfoldable pub release : Request → Manager W → Manager W
  unfolding key_of
  release request m = record m { active = erase (key_of request) m.active }

  -- A full queue: the key is released, and the job that was created is saved as failed.
  unfoldable pub refuse : Request → SyncJob → Manager W → EnqueueReply
  unfolding release
  refuse request job m =
      let failed = record job {
        status = "failed";
        error_code = "queue_full";
        error = "sync queue is full";
        retryable = true;
        finished_at = env.clock m.repo;
      } in
      (err queue_full, record (release request m) { repo = (env.save_sync_job failed m.repo).1 })

  unfoldable pub send : Request → SyncJob → Manager W → EnqueueReply
  send request job m =
      if ltb (length m.queue) config.queue_size
      then (ok job, record m { queue = m.queue ++ (job.id, request) ∷ [] })
      else refuse request job m

  unfoldable pub after_create : Request → SyncJob → Option SyncError → Manager W → EnqueueReply
  unfolding key_of
  after_create request job (some e) m = (err (repository e), m)
  after_create request job none m =
      send request job (record m { active = insert (key_of request) job.id m.active })

  unfoldable pub after_checkpoints :
      Chain → Request → String → ℕ → Answer SyncError (Dict ℤ) → Manager W → EnqueueReply
  unfolding new_job
  after_checkpoints chain request id now (err e) m = (err (repository e), m)
  after_checkpoints chain request id now (ok checkpoints) m =
      let job = new_job chain request id now checkpoints in
      let (error, w) = env.create_sync_job job m.repo in
      after_create request job error (record m { repo = w })

  unfoldable pub found_job : Answer SyncError SyncJob → Manager W → EnqueueReply
  found_job (ok job) m = (ok job, m)
  found_job (err e) m = (err (repository e), m)

  -- An active address gives its job back; another one gets a new job.
  unfoldable pub enqueue_at : Chain → Request → Option String → Manager W → EnqueueReply
  enqueue_at chain request (some id) m =
      let (found, w) = env.get_sync_job id m.repo in found_job found (record m { repo = w })
  enqueue_at chain request none m =
      let (id, w) = env.new_object_id m.repo in
      let (found, w') =
        env.find_sync_checkpoints request.chain request.address request.start_block
          config.max_records_per_action w in
      after_checkpoints chain request id (env.clock w) found (record m { repo = w' })

  unfoldable pub enqueue_checked : Option (Chain × Request) → Manager W → EnqueueReply
  unfolding key_of
  enqueue_checked none m = (err invalid_request, m)
  enqueue_checked (some (chain, request)) m =
      enqueue_at chain request (lookup (key_of request) m.active) m

  unfoldable pub enqueue : Wanted → Manager W → EnqueueReply
  unfolding check_request
  enqueue wanted m = enqueue_checked (check_request config wanted) m

  -- What happens to the manager: a caller enqueues, the worker takes the first job, it or a caller
  -- changes the world, and the worker releases the key of its job.
  pub data Step : Manager W → Manager W → Type 0 where
    enqueued : (wanted : Wanted) (m : Manager W) → Step m (enqueue wanted m).1
    taken :
        (q : Queued) (qs : List Queued) (m : Manager W)
        → m.queue ≡ q ∷ qs
        → m.working ≡ none
        → Step m (record m { queue = qs; working = some q })
    changed : (w : W) (m : Manager W) → Step m (record m { repo = w })
    released :
        (q : Queued) (m : Manager W)
        → m.working ≡ some q
        → Step m (record (release q.1 m) { working = none })

  pub data Reachable (m : Manager W) : Manager W → Type 0 where
    here : Reachable m m
    step : {n o : Manager W} → Reachable m n → Step n o → Reachable m o
