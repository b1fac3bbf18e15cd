-- ===== src/Tracer/Types.antt =====
-- The data of the tracer (internal/tracer/tracer.go and tokens.go).
use eth_fund_trace.Prelude.{ℕ, Bool, List, String}
use eth_fund_trace.Prelude.Dict.{Dict}
use eth_fund_trace.Store.Address.{AddressIdentity}
use eth_fund_trace.Store.Money.{MoneyState, MoneyTransfer, AssetLedger}
use eth_fund_trace.Store.Transfer.{Transfer, CounterpartyQuery, CounterpartySummary}
use eth_fund_trace.Store.Label.{Label}
use eth_fund_trace.Risk.{RiskResult}

pub record Node : Type 0 where
  pub chain : String
  pub address : String
  pub depth : ℕ
  pub terminal : Bool
  pub address_type : String
  pub protocol : String
  pub roles : List String
  pub stop_reason : String

-- A bounded transaction-level explanation of a conversion edge.
pub record ConversionEvidence : Type 0 where
  pub tx_hash : String
  pub protocol : String
  pub version : String
  pub status : String
  pub initiator : String
  pub router : String
  pub executor : String
  pub liquidity_provider : String
  pub recipient : String
  pub token_in : String
  pub amount_in : String
  pub token_out : String
  pub amount_out : String
  pub evidence : List String

pub record Edge : Type 0 where
  pub chain : String
  pub source_chain : String
  pub target_chain : String
  pub from : String
  pub to : String
  pub asset_type : String
  pub asset : String
  pub symbol : String
  pub decimals : ℕ
  pub token_metadata_complete : Bool
  pub total_amount : String
  pub transfer_count : ℕ
  pub kind : String
  pub depth : ℕ
  pub path : List String
  pub tx_hash : String
  pub source_tx_hash : String
  pub source_amount : String
  pub source_asset : String
  pub first_block : ℕ
  pub first_time : ℕ
  pub latest_block : ℕ
  pub latest_time : ℕ
  pub conversion_status : String
  pub conversion_scanned : ℕ
  pub conversion_evidence : List ConversionEvidence
  pub protocol : String
  pub protocol_action : String
  pub protocol_memo : String

-- `entering_edge` is an index into the edges of the result.
pub record BranchState : Type 0 where
  pub address : String
  pub direction : String
  pub asset_mode : String
  pub asset : String
  pub anchor_block : ℕ
  pub entering_query : CounterpartyQuery
  pub entering_tx : Transfer
  pub entering_edge : ℕ
  pub amount : String
  pub contract : Bool
  pub identity : AddressIdentity
  pub path : List String

pub record TraceResult : Type 0 where
  pub nodes : List Node
  pub edges : List Edge
  pub paths : List (List String)
  pub data_through_block : ℕ
  pub data_through_blocks : Dict ℕ
  pub data_status : String
  pub labels : List Label
  pub risk : RiskResult
  pub rule_version : String
  pub branch_states : List BranchState
  pub money_states : List MoneyState
  pub money_transfers : List MoneyTransfer
  pub ledgers : List AssetLedger
  pub reconciliation : String

pub record AnalyzedConversion : Type 0 where
  pub transfer : Transfer
  pub evidence : ConversionEvidence
  pub protocol : String
  pub protocol_action : String
  pub protocol_memo : String
  pub vault_address : String

pub record ConversionAggregate : Type 0 where
  pub summary : CounterpartySummary
  pub evidence : List ConversionEvidence
