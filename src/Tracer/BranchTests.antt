-- ===== src/Tracer/BranchTests.antt =====
-- A branch with a budget of 0.03 ETH and one transfer of 0.05 ETH, an extension with a path, and a
-- node that is marked.
use eth_fund_trace.Prelude.{◌+◌, true, false, [], ◌∷◌, none, String}
use eth_fund_trace.Prelude.Int.{pos}
use eth_fund_trace.Prelude.{◌≡◌, refl, true}
use eth_fund_trace.Text.{equal_fold, to_lower}
use eth_fund_trace.Text.Decimal.{set_string, nat_string}
use eth_fund_trace.Tracer.Assets.{
  above_trace_threshold, transfer_summary, transfer_amount, trace_minimum, reaches,
}
use eth_fund_trace.Tracer.Assets.Laws.{with_total}
use eth_fund_trace.Prelude.{false}
use eth_fund_trace.Tracer.Types.{Node}
use eth_fund_trace.Tracer.Extension.{merge_results}
use eth_fund_trace.Tracer.Extension.Again.{merge_results_twice}
use eth_fund_trace.Risk.{RiskResult}
use eth_fund_trace.Store.Address.{Address}
use eth_fund_trace.Store.Transfer.{Transfer}
use eth_fund_trace.Tracer.Types.{TraceResult}
use eth_fund_trace.Tracer.Branch.{ok, Graph, ExtensionRequest, extend_transfers}
use eth_fund_trace.Tracer.Branch.Budget.{edges_value, Holds, Within, extend_transfers_budget}

abbrev pub transfer : Transfer
transfer = record {
  chain = "ethereum";
  chain_id = 1;
  tx_hash = "0x1";
  block_number = 7;
  block_time = 0;
  from = "0xab";
  to = "0xcd";
  asset_type = "eth";
  asset = "ETH";
  symbol = "";
  decimals = 0;
  amount = "50000000000000000";
  input = "";
  token_value = "";
  token_name = "";
  transfer_kind = "";
  transaction_group = "";
  log_index_synthetic = false;
  token_metadata_complete = false;
  source = "";
  trace_id = "";
  log_index = 0;
  observed_at = 0;
}

abbrev pub receiver : Address
receiver = record {
  chain = "ethereum";
  chain_id = 0;
  address = "0xcd";
  address_type = "";
  is_contract = false;
  protocol = "";
  roles = [];
  is_terminal = false;
  normal_synced_from = 0;
  normal_synced_to = 0;
  internal_synced_from = 0;
  internal_synced_to = 0;
  token_synced_from = 0;
  token_synced_to = 0;
  last_synced_at = 0;
  sync_status = "";
  sync_error = "";
  sync_max_records_per_action = 0;
  action_record_counts = none;
}

abbrev no_risk : RiskResult
no_risk = record { score = 0; level = ""; evidence = []; rule_version = "" }

abbrev pub empty : TraceResult
empty = record {
  nodes = [];
  edges = [];
  paths = [];
  data_through_block = 0;
  data_through_blocks = [];
  data_status = "synced";
  labels = [];
  risk = no_risk;
  rule_version = "";
  branch_states = [];
  money_states = [];
  money_transfers = [];
  ledgers = [];
  reconciliation = "";
}

abbrev graph : Graph String
graph = record {
  existing_data_only = true;
  required_start_block = λ chain. 0;
  terminal_dependencies = [];
  find_address = λ chain address. ok (receiver, true);
  list_labels = λ chain address. ok [];
}

abbrev request : ExtensionRequest
request = record { chain = "ethereum"; address = "0xab"; direction = "out"; depth = 1 }

extend_transfers_budget_example :
    Holds (Within (edges_value [] + 30000000000000000)) (
      extend_transfers graph request 0 9
        ("0xab" ∷ [])
        (transfer ∷ [])
        (pos 30000000000000000)
        empty)
extend_transfers_budget_example =
    extend_transfers_budget graph request 0 9 ("0xab" ∷ []) (transfer ∷ []) 30000000000000000 empty

threshold_met :
    above_trace_threshold (with_total 10000000000000000 (transfer_summary transfer)) ≡ true
unfolding above_trace_threshold transfer_summary transfer_amount set_string nat_string trace_minimum
    reaches equal_fold to_lower
threshold_met = refl

abbrev extension : TraceResult
extension = record empty { paths = ("0xab" ∷ "0xcd" ∷ []) ∷ []; data_status = "partial" }

merge_results_twice_example :
    let once = merge_results empty extension in
    let twice = merge_results once extension in
    (twice.labels ≡ once.labels)
    × (twice.edges ≡ once.edges)
    × (twice.paths ≡ once.paths)
    × (twice.money_transfers ≡ once.money_transfers)
    × (twice.data_status ≡ once.data_status)
merge_results_twice_example = merge_results_twice empty extension

abbrev node : Node
node = record {
  chain = "ethereum";
  address = "0xAB";
  depth = 0;
  terminal = false;
  address_type = "";
  protocol = "";
  roles = [];
  stop_reason = "";
}
