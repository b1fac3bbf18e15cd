-- ===== src/Syncer/State.antt =====
-- What a synchronisation reads and writes: the errors with their classes, the answers of the
-- chain API client, the repository as an interface, and the state that the loops of
-- internal/syncer/manager.go share (repository, record counts, discovered addresses, progress).
use eth_fund_trace.Prelude.{ℕ, ◌+◌, Bool, true, false, List, [], ◌∷◌, Option, String}
use eth_fund_trace.Prelude.Int.{ℤ}
use eth_fund_trace.Prelude.Dict.{Dict, insert}
use eth_fund_trace.Store.Transfer.{Transfer}
use eth_fund_trace.Store.Job.{SyncProgress}

-- An error by the sentinel that `errors.Is` finds in it.
pub data SyncError : Type 0 where
  rate_limited transient deadline_exceeded canceled invalid_request : SyncError
  page_limit : String → ℕ → SyncError
  bare_page_limit : SyncError
  other : String → SyncError

unfoldable pub classify : SyncError → String × Bool
classify rate_limited = ("etherscan_rate_limited", true)
classify transient = ("transient", true)
classify deadline_exceeded = ("transient", true)
classify canceled = ("transient", true)
classify (page_limit _ _) = ("page_limit", false)
classify bare_page_limit = ("page_limit", false)
classify invalid_request = ("invalid_request", false)
classify (other _) = ("sync_failed", true)

-- A loop of the model ends with an error of the code, or because its fuel ran out.
pub data Fault : Type 0 where
  failed : SyncError → Fault
  unfinished : Fault

-- A call of the client: all records, or those before a limit. Behind a page limit stands the
-- `LastBlock` of a `PageLimitError`; `none` is the bare `ErrPageLimit`.
pub data Response : Type 0 where
  complete : List Transfer → Response
  record_limit : List Transfer → Response
  page_limit : List Transfer → Option ℕ → Response
  failed : SyncError → Response

-- `PageProgress` of internal/etherscan.
pub record PageProgress : Type 0 where
  pub action : String
  pub start_block : ℕ
  pub end_block : ℕ
  pub page : ℕ
  pub items : ℕ

-- Which history is synchronised; `max_records` is `Config.MaxRecordsPerAction`, 0 for no limit.
pub record Target : Type 0 where
  pub action : String
  pub chain : String
  pub chain_id : ℕ
  pub address : String
  pub max_records : ℕ

pub data Written : Type 0 where
  ok : ℕ → Written
  err : SyncError → Written

-- The world outside: clock, client, database and the hook `OnTransfersPersisted`. The arguments
-- of `call` are the record limit (0 for none), the first and the last block.
pub record Env (W : Type 0) : Type 0 where
  pub clock : W → ℕ
  pub call : Target → ℕ → ℕ → ℕ → W → Response × List PageProgress × W
  pub save_progress : SyncProgress → W → W
  pub bulk_upsert_transfers : List Transfer → W → Written × W
  pub add_address_action_records : Target → ℕ → W → Option SyncError × W
  pub on_transfers_persisted : String → List Transfer → W → W

pub record Sync (W : Type 0) : Type 0 where
  pub repo : W
  pub action_record_counts : Dict ℕ
  pub discovered : List String
  pub progress : SyncProgress

module _ {W : Type 0} (env : Env W) where
  -- The reporter of `process`: update, stamp, save.
  unfoldable pub report : (SyncProgress → SyncProgress) → Sync W → Sync W
  report update s =
      let p = update s.progress in
      let q = record p { updated_at = env.clock s.repo } in
      record s { progress = q; repo = env.save_progress q s.repo }

unfoldable pub on_page : Target → PageProgress → SyncProgress → SyncProgress
on_page target page p = record p {
  current_address = target.address;
  current_action = page.action;
  range_start = page.start_block;
  range_end = page.end_block;
  current_page = page.page;
  pages_fetched = p.pages_fetched + 1;
  records_read = p.records_read + page.items;
}

unfoldable pub set_checkpoint : String → ℤ → SyncProgress → SyncProgress
set_checkpoint action block p = record p {
  action_checkpoints = insert action block p.action_checkpoints;
}

unfoldable pub count_split : SyncProgress → SyncProgress
count_split p = record p { split_count = p.split_count + 1 }

module _ {W : Type 0} (env : Env W) (target : Target) where
  unfoldable pub report_pages : List PageProgress → Sync W → Sync W
  unfolding report on_page
  report_pages [] s = s
  report_pages (page ∷ pages) s = report_pages pages (report env (on_page target page) s)

  -- A call of the client, whose pages are reported as they come.
  unfoldable pub fetch : ℕ → ℕ → ℕ → Sync W → Response × Sync W
  unfolding report_pages
  fetch limit start end s =
      let (response, pages, w) = env.call target limit start end s.repo in
      (response, report_pages pages (record s { repo = w }))
