-- ===== src/Store/Analysis.antt =====
-- The interpretation of a transaction (`TransactionAnalysis` and its parts,
-- internal/store/models.go).
use eth_fund_trace.Prelude.{ℕ, Bool, List, Option, String}

-- One verified source transaction and its destination transaction.
pub record CrossChainAnalysis : Type 0 where
  pub protocol : String
  pub status : String
  pub request_id : String
  pub source_chain : String
  pub source_chain_id : ℕ
  pub target_chain : String
  pub target_chain_id : ℕ
  pub source_tx_hash : String
  pub target_tx_hash : String
  pub from : String
  pub to : String
  pub source_asset : String
  pub source_amount : String
  pub target_asset : String
  pub target_amount : String
  pub fee_amount : String

pub record InternalCall : Type 0 where
  pub from : String
  pub to : String
  pub value : String
  pub kind : String
  pub trace_id : String
  pub is_error : Bool

pub record SwapConversion : Type 0 where
  pub protocol : String
  pub version : String
  pub status : String
  pub initiator : String
  pub router : String
  pub executor : String
  pub liquidity_provider : String
  pub recipient : String
  pub token_in : String
  pub amount_in : String
  pub token_out : String
  pub amount_out : String
  pub evidence : List String
  pub issues : List String

pub record ReceiptTransfer : Type 0 where
  pub token : String
  pub from : String
  pub to : String
  pub amount : String
  pub log_index : ℕ

pub record SwapEvent : Type 0 where
  pub pool : String
  pub protocol : String
  pub version : String
  pub verified : Bool
  pub sender : String
  pub recipient : String
  pub token_in : String
  pub token_out : String
  pub amount_in : String
  pub amount_out : String
  pub fee : ℕ
  pub log_index : ℕ
  pub output_address : String
  pub evidence : List String

-- `kind` is the field `Type`.
pub record WrapEvent : Type 0 where
  pub kind : String
  pub account : String
  pub amount : String
  pub log_index : ℕ
  pub evidence : String

pub record AnalysisQuality : Type 0 where
  pub status : String
  pub ambiguous_route : Bool
  pub evidence : List String
  pub issues : List String

pub record TransactionAnalysis : Type 0 where
  pub analysis_version : String
  pub chain : String
  pub chain_id : ℕ
  pub tx_hash : String
  pub block_number : ℕ
  pub from : String
  pub to : String
  pub value : String
  pub input : String
  pub succeeded : Bool
  pub entry_contract : String
  pub entry_contract_name : String
  pub transfers : List ReceiptTransfer
  pub swaps : List SwapEvent
  pub wraps : List WrapEvent
  pub internal_calls : List InternalCall
  pub conversions : List SwapConversion
  pub protocol_action : String
  pub protocol_memo : String
  pub protocol_destination : String
  pub protocol_vault : String
  pub protocol_asset : String
  pub protocol_amount : String
  pub cross_chain : Option CrossChainAnalysis
  pub final_output_address : String
  pub quality : AnalysisQuality
  pub analyzed_at : ℕ
