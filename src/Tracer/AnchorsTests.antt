-- ===== src/Tracer/AnchorsTests.antt =====
-- A result with two edges that end at the address of an extension, and decimal amounts.
use eth_fund_trace.Prelude.{◌≡◌, refl, false, All, [], ◌∷◌}
use eth_fund_trace.Text.Decimal.{nat_string}
use eth_fund_trace.Prelude.{some, if◌then◌else◌}
use eth_fund_trace.Prelude.Int.{pos, negsuc, ◌+ℤ◌, ◌-ℤ◌, ltb_ℤ}
use eth_fund_trace.Text.Decimal.{set_string, int_string}
use eth_fund_trace.Tracer.Money.{add_decimal, subtract_decimal}
use eth_fund_trace.Tracer.Money.Decimals.{decimal_arithmetic}
use eth_fund_trace.Risk.{RiskResult}
use eth_fund_trace.Tracer.Types.{Edge, TraceResult}
use eth_fund_trace.Tracer.Branch.{ExtensionRequest}
use eth_fund_trace.Tracer.Anchors.{extension_anchors}
use eth_fund_trace.Tracer.Anchors.Total.{
  anchors_value, matching_value, IsNat, extension_anchors_total,
}

abbrev edge : Edge
edge = record {
  chain = "ethereum";
  source_chain = "";
  target_chain = "";
  from = "0xab";
  to = "0xcd";
  asset_type = "eth";
  asset = "ETH";
  symbol = "";
  decimals = 0;
  token_metadata_complete = false;
  total_amount = "10";
  transfer_count = 0;
  kind = "";
  depth = 0;
  path = "0xab" ∷ "0xcd" ∷ [];
  tx_hash = "";
  source_tx_hash = "";
  source_amount = "";
  source_asset = "";
  first_block = 7;
  first_time = 0;
  latest_block = 9;
  latest_time = 0;
  conversion_status = "";
  conversion_scanned = 0;
  conversion_evidence = [];
  protocol = "";
  protocol_action = "";
  protocol_memo = "";
}

abbrev no_risk : RiskResult
no_risk = record { score = 0; level = ""; evidence = []; rule_version = "" }

abbrev root : TraceResult
root = record {
  nodes = [];
  edges = edge ∷ record edge { total_amount = "7" } ∷ [];
  paths = [];
  data_through_block = 0;
  data_through_blocks = [];
  data_status = "synced";
  labels = [];
  risk = no_risk;
  rule_version = "";
  branch_states = [];
  money_states = [];
  money_transfers = [];
  ledgers = [];
  reconciliation = "";
}

abbrev request : ExtensionRequest
request = record { chain = "ethereum"; address = "0xCD"; direction = "out"; depth = 1 }

ten : "10" ≡ nat_string 10
unfolding nat_string
ten = refl

seven : "7" ≡ nat_string 7
unfolding nat_string
seven = refl

natural : All (λ (e : Edge). IsNat e.total_amount) root.edges
natural = (record { number = 10; is_number = ten }, (record { number = 7; is_number = seven }, tt))

extension_anchors_total_example :
    anchors_value (extension_anchors root request) ≡ matching_value request root.edges
extension_anchors_total_example = extension_anchors_total root request natural

decimal_arithmetic_example :
    (set_string (add_decimal (int_string (pos 10)) (int_string (negsuc 2)))
      ≡ some (pos 10 +ℤ negsuc 2))
    × (set_string (subtract_decimal (int_string (pos 10)) (int_string (negsuc 2)))
        ≡ some (if ltb_ℤ (pos 10) (negsuc 2) then pos 0 else pos 10 -ℤ negsuc 2))
decimal_arithmetic_example = decimal_arithmetic (pos 10) (negsuc 2)
