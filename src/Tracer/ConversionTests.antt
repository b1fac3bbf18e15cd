-- ===== src/Tracer/ConversionTests.antt =====
-- A branch that goes out into a swap of ETH.
use eth_fund_trace.Prelude.{true, false, [], none, some, ◌≡◌, refl}
use eth_fund_trace.Prelude.Int.{pos}
use eth_fund_trace.Text.{equal_fold, to_lower, trim_space}
use eth_fund_trace.Ethaddr
use eth_fund_trace.Tracer.Facts.{
  Query, normalize_query, normalize_with, normalize_on, is_query_asset,
}
use eth_fund_trace.Tracer.Facts.QueryForm.{
  NormalForm, normalize_query_forms, normalize_query_accepts,
}
use eth_fund_trace.Prelude.{inl, inr}
use eth_fund_trace.Store.Address.{AddressIdentity}
use eth_fund_trace.Store.Analysis.{AnalysisQuality, SwapConversion, TransactionAnalysis}
use eth_fund_trace.Store.Transfer.{Transfer, CounterpartyQuery}
use eth_fund_trace.Tracer.Types.{BranchState}
use eth_fund_trace.Tracer.Conversion.{transfer_from_conversion, legacy_conversion_transfer}
use eth_fund_trace.Tracer.Conversion.Thorchain.{thorchain_protocol_transfer}
use eth_fund_trace.Tracer.Conversion.Legs.{Leg, conversions_continue}

abbrev entering : Transfer
entering = record {
  chain = "ethereum";
  chain_id = 0;
  tx_hash = "";
  block_number = 0;
  block_time = 0;
  from = "";
  to = "";
  asset_type = "eth";
  asset = "ETH";
  symbol = "";
  decimals = 0;
  amount = "5";
  input = "";
  token_value = "";
  token_name = "";
  transfer_kind = "";
  transaction_group = "";
  log_index_synthetic = false;
  token_metadata_complete = false;
  source = "";
  trace_id = "";
  log_index = 0;
  observed_at = 0;
}

abbrev no_issues : AnalysisQuality
no_issues = record { status = "complete"; ambiguous_route = false; evidence = []; issues = [] }

abbrev analysis : TransactionAnalysis
analysis = record {
  analysis_version = "";
  chain = "ethereum";
  chain_id = 1;
  tx_hash = "0x9";
  block_number = 0;
  from = "0xA";
  to = "";
  value = "";
  input = "";
  succeeded = true;
  entry_contract = "";
  entry_contract_name = "";
  transfers = [];
  swaps = [];
  wraps = [];
  internal_calls = [];
  conversions = [];
  protocol_action = "";
  protocol_memo = "";
  protocol_destination = "";
  protocol_vault = "";
  protocol_asset = "";
  protocol_amount = "";
  cross_chain = none;
  final_output_address = "";
  quality = no_issues;
  analyzed_at = 0;
}

abbrev no_identity : AddressIdentity
no_identity = record { address_type = ""; protocol = ""; roles = [] }

abbrev no_query : CounterpartyQuery
no_query = record {
  chain = "";
  address = "";
  counterparty = "";
  direction = "";
  asset_mode = "";
  asset = "";
  from_block = 0;
  to_block = 0;
  top_n = 0;
}

abbrev branch : BranchState
branch = record {
  address = "0xAB";
  direction = "out";
  asset_mode = "eth";
  asset = "ETH";
  anchor_block = 0;
  entering_query = no_query;
  entering_tx = entering;
  entering_edge = 0;
  amount = "";
  contract = false;
  identity = no_identity;
  path = [];
}

abbrev swap : SwapConversion
swap = record {
  protocol = "";
  version = "";
  status = "complete";
  initiator = "0xAB";
  router = "";
  executor = "";
  liquidity_provider = "";
  recipient = "0xCD";
  token_in = "ETH";
  amount_in = "5";
  token_out = "0xdac17f958d2ee523a2206206994597c13d831ec7";
  amount_out = "9";
  evidence = [];
  issues = [];
}

conversions_continue_example :
    Leg analysis branch (transfer_from_conversion analysis branch swap)
    × Leg analysis branch (legacy_conversion_transfer analysis branch)
    × Leg analysis branch (thorchain_protocol_transfer analysis branch)
conversions_continue_example = conversions_continue analysis branch swap

abbrev asked : Query
asked = record {
  chain = " Ethereum";
  address = "0xAB";
  direction = "OUT";
  asset = "eth";
  depth = pos 3;
}

abbrev normal_form : Query
normal_form = record {
  chain = "ethereum";
  address = "0xAB";
  direction = "out";
  asset = "ETH";
  depth = pos 0;
}

asked_normal : normalize_query asked ≡ some normal_form
unfolding normalize_query normalize_with normalize_on Ethaddr.resolve is_query_asset equal_fold
    to_lower trim_space
asked_normal = refl

normalize_query_forms_example :
    NormalForm asked normal_form × (normalize_query normal_form ≡ some normal_form)
normalize_query_forms_example = normalize_query_forms asked normal_form asked_normal

asked-NormalForm : NormalForm asked normal_form
unfolding Ethaddr.resolve is_query_asset equal_fold to_lower trim_space
asked-NormalForm = record {
  known_chain = refl;
  depth = 3;
  not_negative = refl;
  known_asset = refl;
  is_direction = inr (inl refl);
  directs = inl refl;
  is_normal = refl;
}

normalize_query_accepts_example : normalize_query asked ≡ some normal_form
normalize_query_accepts_example = normalize_query_accepts asked normal_form asked-NormalForm
