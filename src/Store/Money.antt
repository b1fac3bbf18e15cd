-- ===== src/Store/Money.antt =====
-- The money facts of a trace (`MoneyState`, `MoneyTransfer`, `AssetLedger` and `StopReason` of
-- internal/store/models.go).
use eth_fund_trace.Prelude.{ℕ, Bool, List, String}

abbrev pub StopReason : Type 0
StopReason = String

pub record MoneyState : Type 0 where
  pub chain : String
  pub address : String
  pub direction : String
  pub asset_type : String
  pub asset : String
  pub amount : String
  pub remaining_amount : String
  pub entry_tx_hash : String
  pub entry_block : ℕ
  pub path : List String
  pub evidence : String
  pub inferred : Bool
  pub stop_reason : StopReason

pub record MoneyTransfer : Type 0 where
  pub chain : String
  pub from : String
  pub to : String
  pub asset : String
  pub amount : String
  pub tx_hash : String
  pub kind : String
  pub evidence : String
  pub block_number : ℕ
  pub inferred : Bool
  pub stop_reason : StopReason

pub record AssetLedger : Type 0 where
  pub address : String
  pub asset : String
  pub opening_amount : String
  pub incoming_amount : String
  pub outgoing_amount : String
  pub explained_amount : String
  pub unexplained_amount : String
  pub status : String
