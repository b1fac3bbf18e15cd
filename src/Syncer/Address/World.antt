-- ===== src/Syncer/Address/World.antt =====
-- The world of `syncAddress` of internal/syncer/manager.go: the calls of the `Repository` and the
-- client that it makes beside those of the loops, as an interface, and the state of its job.
pub use eth_fund_trace.Prelude.Answers.{Answer, ok, err}
use eth_fund_trace.Prelude.{ℕ, Bool, List, Option, none, some, String}
use eth_fund_trace.Prelude.Dict.{Dict}
use eth_fund_trace.Store.Job.{SyncProgress}
use eth_fund_trace.Store.Address.{Address, AddressSyncCoverage}
use eth_fund_trace.Syncer.State.{SyncError, Fault, Env}

pub record AddressEnv (W : Type 0) : Type 0 where
  pub base : Env W
  pub find_address : String → String → W → Answer SyncError (Address × Bool) × W
  pub ensure_address_action_counts : String → ℕ → String → ℕ → W → Answer SyncError (Dict ℕ) × W
  pub latest_block : W → Answer SyncError ℕ × W
  pub set_address_syncing : String → ℕ → String → W → Option SyncError × W
  pub complete_address_sync : String → String → AddressSyncCoverage → ℕ → W → Option SyncError × W
  pub complete_address_partial : String → String → ℕ → ℕ → String → ℕ → W → Option SyncError × W
  pub fail_address_sync : String → String → Fault → W → Option SyncError × W
  pub upsert_discovered_addresses : String → ℕ → List String → ℕ → W → Option SyncError × W
  pub after_address_synced : Option (String → String → W → Option SyncError × W)

-- What the addresses of one job share; `safe_head` is the head that the job has read.
pub record Work (W : Type 0) : Type 0 where
  pub repo : W
  pub progress : SyncProgress
  pub safe_head : Option ℕ

unfoldable pub fault_of : {A : Type 0} → Answer SyncError A → Answer Fault A
fault_of (ok a) = ok a
fault_of (err e) = err (Fault.failed e)

unfoldable pub fault_if : Option SyncError → Option Fault
fault_if none = none
fault_if (some e) = some (Fault.failed e)

module _ {W : Type 0} where
  -- A call with an answer, and one without.
  unfoldable pub ask :
      {A : Type 0} → (W → Answer SyncError A × W) → Work W → Answer Fault A × Work W
  unfolding fault_of
  ask f k = let (r, w) = f k.repo in (fault_of r, record k { repo = w })

  unfoldable pub tell : (W → Option SyncError × W) → Work W → Option Fault × Work W
  unfolding fault_if
  tell f k = let (e, w) = f k.repo in (fault_if e, record k { repo = w })

  unfoldable pub then_ok :
      {A B : Type 0}
      → Answer Fault A × Work W
      → (A → Work W → Answer Fault B × Work W)
      → Answer Fault B × Work W
  then_ok (ok a, k) next = next a k
  then_ok (err e, k) next = (err e, k)

  unfoldable pub then_done :
      {B : Type 0}
      → Option Fault × Work W
      → (Work W → Answer Fault B × Work W)
      → Answer Fault B × Work W
  then_done (none, k) next = next k
  then_done (some e, k) next = (err e, k)
