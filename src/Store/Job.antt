-- ===== src/Store/Job.antt =====
-- The persisted jobs (`TraceJob`, `SyncJob`, `SyncProgress`, `SyncFailure` of
-- internal/store/models.go). The value of the field `Result` of a `TraceJob` is a parameter. A
-- checkpoint is an integer, since the block before block 0 is stored as -1.
use eth_fund_trace.Prelude.{ℕ, Bool, List, Option, String}
use eth_fund_trace.Prelude.Int.{ℤ}
use eth_fund_trace.Prelude.Dict.{Dict}

pub record TraceJob (R : Type 0) : Type 0 where
  pub id : String
  pub chain : String
  pub seed_address : String
  pub direction : String
  pub depth : ℕ
  pub asset : String
  pub status : String
  pub created_at : ℕ
  pub started_at : ℕ
  pub finished_at : ℕ
  pub current_depth : ℕ
  pub visited_nodes : ℕ
  pub edge_count : ℕ
  pub sync_job_ids : List String
  pub result : Option R
  pub data_through_block : ℕ
  pub rule_version : String
  pub error_code : String
  pub error : String
  pub retryable : Bool
  -- The empty text is the zero ObjectID: the job is a root trace.
  pub root_trace_job_id : String
  pub extension_address : String
  pub extension_direction : String

pub record SyncProgress : Type 0 where
  pub current_address : String
  pub current_action : String
  pub range_start : ℕ
  pub range_end : ℕ
  pub current_page : ℕ
  pub pages_fetched : ℕ
  pub records_read : ℕ
  pub records_written : ℕ
  pub split_count : ℕ
  pub updated_at : ℕ
  pub action_checkpoints : Dict ℤ

pub record SyncFailure : Type 0 where
  pub address : String
  pub code : String
  pub message : String
  pub retryable : Bool

pub record SyncJob : Type 0 where
  pub id : String
  pub chain : String
  pub chain_id : ℕ
  pub address : String
  pub start_block : ℕ
  pub end_block : ℕ
  pub neighbor_limit : ℕ
  pub coverage_version : String
  pub max_records_per_action : ℕ
  pub status : String
  pub created_at : ℕ
  pub started_at : ℕ
  pub finished_at : ℕ
  pub duration_ms : ℕ
  pub safe_head : ℕ
  pub total_addresses : ℕ
  pub completed_addresses : ℕ
  pub processed_addresses : ℕ
  pub cached_addresses : ℕ
  pub fetched : ℕ
  pub action_counts : Dict ℕ
  pub progress : SyncProgress
  pub successful_neighbors : List String
  pub failed_neighbors : List SyncFailure
  pub truncated_actions : List String
  pub error_code : String
  pub error : String
  pub retryable : Bool
