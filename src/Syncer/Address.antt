-- ===== src/Syncer/Address.antt =====
-- `syncAddress` of internal/syncer/manager.go: an address is served from the cache, or what is
-- missing of its three histories is fetched and its block ranges are recorded.
pub mod World
pub mod Trusted
pub mod Rounds
pub mod Ends
pub mod Cases
pub mod Recorded
pub mod Whole
use Prim.Native.String.{String}
use eth_fund_trace.Prelude.{
  ℕ, ◌+◌, ◌-◌, Bool, true, false, ◌&&◌, ◌||◌, not, List, [], ◌∷◌, Option, none, some, str_eq, ltb,
  leb, if◌then◌else◌, min, any, keep,
}
use eth_fund_trace.Prelude.Dict.{Dict}
use eth_fund_trace.Store.Job.{SyncProgress}
use eth_fund_trace.Store.Address.{Address, AddressSyncCoverage, common_coverage}
use eth_fund_trace.Syncer.State.{SyncError, Fault, Target, Sync}
use eth_fund_trace.Syncer.Coverage.{
  Range, coverage_contains, coverage_intervals, merge_coverage, action_count_at_limit,
}
use eth_fund_trace.Syncer.Actions.{
  AddressResult, Checkpoints, Loop, Next, again, leave, fault, truncate, sync_actions,
}
use eth_fund_trace.Syncer.Address.World.{
  Answer, ok, err, AddressEnv, Work, ask, tell, then_ok, then_done,
}

-- The fields of `Config` that the synchronisation of an address reads.
pub record Config : Type 0 where
  pub cache_ttl : ℕ
  pub disable_cache : Bool
  pub confirmations : ℕ
  pub max_records_per_action : ℕ

pub record Request : Type 0 where
  pub chain : String
  pub address : String
  pub start_block : ℕ
  pub end_block : ℕ
  pub neighbor_limit : ℕ

-- The result of an address that is not fetched.
abbrev pub unfetched : Bool → List String → AddressResult
unfetched cached truncated = record {
  cached = cached;
  fetched = 0;
  action_counts = [];
  truncated_actions = truncated;
}

unfoldable pub contains_all : Address → ℕ → ℕ → Bool
unfolding coverage_contains
contains_all a from to =
    coverage_contains a.normal_synced_from a.normal_synced_to from to
    && (coverage_contains a.internal_synced_from a.internal_synced_to from to
        && coverage_contains a.token_synced_from a.token_synced_to from to)

module _ (config : Config) (request : Request) (now : ℕ) (a : Address) where
  unfoldable pub full_cache : Bool
  unfolding contains_all common_coverage
  full_cache =
      let (from, through, common) = common_coverage a in
      str_eq a.sync_status "synced" && (common && contains_all a request.start_block through)

  unfoldable pub fixed_snapshot_cache : Bool
  unfolding contains_all
  fixed_snapshot_cache =
      ltb 0 request.end_block
      && (str_eq a.sync_status "synced" && contains_all a request.start_block request.end_block)

  unfoldable pub partial_cache : Bool
  partial_cache =
      str_eq a.sync_status "partial"
      && (ltb 0 config.max_records_per_action
          && not (
              ltb a.sync_max_records_per_action config.max_records_per_action
              || ltb config.max_records_per_action a.sync_max_records_per_action))

  unfoldable pub fresh_cache : Bool
  unfolding full_cache partial_cache
  fresh_cache = (full_cache || partial_cache) && ltb now (a.last_synced_at + config.cache_ttl)

  -- A history at its limit is not fetched again.
  unfoldable pub is_high_frequency : Dict ℕ → Bool
  unfolding action_count_at_limit
  is_high_frequency counts =
      ltb 0 config.max_records_per_action
      && (str_eq a.sync_status "partial" && str_eq a.sync_error "high_frequency"
          || action_count_at_limit counts config.max_records_per_action)

unfoldable pub truncation_reason : List String → String
truncation_reason truncated =
    if any (str_eq "high_frequency") truncated then "high_frequency" else "record_limit"

-- The ranges that are recorded behind a fetch of `from` to `head`.
unfoldable pub merged_coverage : Address → ℕ → ℕ → AddressSyncCoverage
unfolding merge_coverage
merged_coverage a from head =
    let (normal_from, normal_to) =
      merge_coverage from head a.normal_synced_from a.normal_synced_to in
    let (internal_from, internal_to) =
      merge_coverage from head a.internal_synced_from a.internal_synced_to in
    let (token_from, token_to) = merge_coverage from head a.token_synced_from a.token_synced_to in
    record {
      normal_from = normal_from;
      normal_to = normal_to;
      internal_from = internal_from;
      internal_to = internal_to;
      token_from = token_from;
      token_to = token_to;
    }

module _ (config : Config) (chain_id : ℕ) (request : Request) where
  unfoldable pub target_of : String → Target
  target_of action = record {
    action = action;
    chain = request.chain;
    chain_id = chain_id;
    address = request.address;
    max_records = config.max_records_per_action;
  }

  -- The actions in their order with what is missing of each.
  unfoldable pub plan : Address → ℕ → List (Target × List Range)
  unfolding target_of
  plan a head =
      let from = request.start_block in
      (target_of "txlist", coverage_intervals from head a.normal_synced_from a.normal_synced_to)
      ∷ (
        target_of "txlistinternal",
        coverage_intervals from head a.internal_synced_from a.internal_synced_to,
      )
      ∷ (target_of "tokentx", coverage_intervals from head a.token_synced_from a.token_synced_to)
      ∷ []

module _ {W : Type 0} (env : AddressEnv W) (config : Config) (chain_id : ℕ) (request : Request)
    (checkpoints : Checkpoints) where
  unfoldable pub counts_or : Option (Dict ℕ) → Work W → Answer Fault (Dict ℕ) × Work W
  counts_or (some counts) k = (ok counts, k)
  counts_or none k =
      if ltb 0 config.max_records_per_action
      then ask
          (env.ensure_address_action_counts request.chain chain_id request.address
            config.max_records_per_action)
          k
      else (ok [], k)

  -- The head less the confirmations, read once for a job.
  unfoldable pub safe_head_or : Option ℕ → Work W → Answer Fault ℕ × Work W
  safe_head_or (some head) k = (ok head, k)
  safe_head_or none k = then_ok (ask env.latest_block k) (λ latest k'. (
    ok (latest - config.confirmations),
    record k' { safe_head = some (latest - config.confirmations) },
  ))

  unfoldable pub call_hook :
      Option (String → String → W → Option SyncError × W) → Work W → Option Fault × Work W
  call_hook none k = (none, k)
  call_hook (some hook) k = tell (hook request.chain request.address) k

  unfoldable pub serve_cached : ℕ → Address → Work W → Answer Fault AddressResult × Work W
  unfolding full_cache partial_cache
  serve_cached now a k =
      then_done
        (if full_cache config request now a
          then call_hook env.after_address_synced k
          else (none, k))
        (λ k'. (
          ok (
              unfetched true
                (if partial_cache config request now a then a.sync_error ∷ [] else [])),
          k',
        ))

  -- What is recorded of the address when the histories are through.
  unfoldable pub record_outcome : ℕ → ℕ → Address → List String → Work W → Option Fault × Work W
  record_outcome now head a [] k =
      tell
        (env.complete_address_sync request.chain request.address
          (merged_coverage a request.start_block head) now)
        k
  record_outcome now head a (action ∷ actions) k =
      tell
        (env.complete_address_partial request.chain request.address head
          config.max_records_per_action (truncation_reason (action ∷ actions)) now)
        k

  unfoldable pub hook_if_whole : List String → Work W → Option Fault × Work W
  hook_if_whole [] k = call_hook env.after_address_synced k
  hook_if_whole (action ∷ actions) k = (none, k)

  unfoldable pub complete_address :
      ℕ → ℕ → Address → Loop W → Work W → Answer Fault AddressResult × Work W
  complete_address now head a l k =
      let done = if l.action_limit_reached then truncate "high_frequency" l else l in
      let truncated = done.result.truncated_actions in
      let others = keep (λ s. not (str_eq s request.address)) l.sync.discovered in
      then_done (tell (env.upsert_discovered_addresses request.chain chain_id others now) k) (λ k1.
        then_done (record_outcome now head a truncated k1)
          (λ k2. then_done (hook_if_whole truncated k2) (λ k3. (ok done.result, k3))))

  -- The loop's own part of the state goes back to the job.
  abbrev pub resume_job : Loop W → Work W → Work W
  resume_job l k = record k { repo = l.sync.repo; progress = l.sync.progress }

  unfoldable pub after_actions :
      ℕ → ℕ → Address → Next W → Work W → Answer Fault AddressResult × Work W
  after_actions now head a (again l) k = complete_address now head a l (resume_job l k)
  after_actions now head a (leave l) k = complete_address now head a l (resume_job l k)
  after_actions now head a (fault e l) k =
      let (logged, k') =
        tell (env.fail_address_sync request.chain request.address e) (resume_job l k) in
      (err e, k')

  abbrev pub first_round : Dict ℕ → Work W → Loop W
  first_round counts k = record {
    sync = record {
      repo = k.repo;
      action_record_counts = counts;
      discovered = [];
      progress = k.progress;
    };
    result = unfetched false [];
    action_limit_reached = false;
  }

  unfoldable pub sync_range :
      ℕ → Address → Dict ℕ → ℕ → Work W → Answer Fault AddressResult × Work W
  sync_range now a counts head k =
      if ltb head request.start_block
      then (err (Fault.failed SyncError.invalid_request), k)
      else then_done (tell (env.set_address_syncing request.chain chain_id request.address) k)
          (λ k'.
            after_actions now head a
              (sync_actions env.base checkpoints (plan config chain_id request a head)
                (first_round counts k'))
              k')

  unfoldable pub sync_missing : ℕ → Address → Dict ℕ → Work W → Answer Fault AddressResult × Work W
  sync_missing now a counts k = then_ok (safe_head_or k.safe_head k) (λ head k'.
      sync_range now a counts (if ltb 0 request.end_block then min head request.end_block else head)
        k')

  unfoldable pub sync_known :
      ℕ → Address → Bool → Dict ℕ → Work W → Answer Fault AddressResult × Work W
  unfolding is_high_frequency fixed_snapshot_cache fresh_cache
  sync_known now a exists counts k =
      if is_high_frequency config request now a counts
      then then_done
          (tell
            (env.complete_address_partial request.chain request.address 0
              config.max_records_per_action "high_frequency" now)
            k)
          (λ k'. (ok (unfetched exists ("high_frequency" ∷ [])), k'))
      else if not config.disable_cache
          && (exists
              && (fixed_snapshot_cache config request now a || fresh_cache config request now a))
      then serve_cached now a k
      else sync_missing now a counts k

  unfoldable pub sync_address : Work W → Answer Fault AddressResult × Work W
  sync_address k =
      let now = env.base.clock k.repo in
      then_ok (ask (env.find_address request.chain request.address) k) (λ (a, exists) k1.
        then_ok (counts_or a.action_record_counts k1)
          (λ counts k2. sync_known now a exists counts k2))
