-- ===== src/Store/Transfer.antt =====
-- Transfer facts, the queries for them and their summaries (internal/store/models.go).
use eth_fund_trace.Prelude.{ℕ, Bool, List, Option, String}

pub record Transfer : Type 0 where
  pub chain : String
  pub chain_id : ℕ
  pub tx_hash : String
  pub block_number : ℕ
  pub block_time : ℕ
  pub from : String
  pub to : String
  pub asset_type : String
  pub asset : String
  pub symbol : String
  pub decimals : ℕ
  pub amount : String
  pub input : String
  pub token_value : String
  pub token_name : String
  pub transfer_kind : String
  pub transaction_group : String
  pub log_index_synthetic : Bool
  pub token_metadata_complete : Bool
  pub source : String
  pub trace_id : String
  pub log_index : ℕ
  pub observed_at : ℕ

pub record TransferCursor : Type 0 where
  pub block_number : ℕ
  pub tx_hash : String
  pub source : String
  pub trace_id : String
  pub log_index : ℕ
  pub asset : String

pub record TransferQuery : Type 0 where
  pub chain : String
  pub addresses : List String
  pub direction : String
  pub asset_mode : String
  pub asset : String
  pub from_block : ℕ
  pub to_block : ℕ
  pub limit : ℕ
  pub after : Option TransferCursor

pub record CounterpartyQuery : Type 0 where
  pub chain : String
  pub address : String
  pub counterparty : String
  pub direction : String
  pub asset_mode : String
  pub asset : String
  pub from_block : ℕ
  pub to_block : ℕ
  pub top_n : ℕ

pub record CounterpartySummary : Type 0 where
  pub chain : String
  pub chain_id : ℕ
  pub from : String
  pub to : String
  pub asset_type : String
  pub asset : String
  pub symbol : String
  pub decimals : ℕ
  pub token_metadata_complete : Bool
  pub total_amount : String
  pub transfer_count : ℕ
  pub earliest_block : ℕ
  pub earliest_time : ℕ
  pub latest_block : ℕ
  pub latest_time : ℕ
  pub latest_transfer : Transfer
  pub representative : Transfer
