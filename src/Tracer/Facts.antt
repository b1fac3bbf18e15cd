-- ===== src/Tracer/Facts.antt =====
-- The facts that a trace records (internal/tracer/tracer.go): edges and transfers from summaries,
-- keys, the legs of a swap that are there already, and the normal form of a query.
pub mod QueryForm
use Prim.Native.String.{◌++◌ as append}
use eth_fund_trace.Prelude.{
  ℕ, zero, suc, ◌+◌, Bool, true, false, ◌&&◌, ◌||◌, not, List, [], ◌∷◌, ◌++◌, Option, none, some,
  String, str_eq, ltb, if◌then◌else◌, any,
}
use eth_fund_trace.Prelude.Int.{ℤ, pos, negsuc}
use eth_fund_trace.Text.{to_lower, equal_fold, join}
use eth_fund_trace.Text.Decimal.{nat_string}
use eth_fund_trace.Ethaddr
use eth_fund_trace.Store.Money.{MoneyTransfer, StopReason}
use eth_fund_trace.Store.Transfer.{Transfer, CounterpartySummary}
use eth_fund_trace.Tracer.Types.{Edge, ConversionEvidence, BranchState, AnalyzedConversion}
use eth_fund_trace.Tracer.Assets.{transfer_amount}

unfoldable pub edge_from_summary : CounterpartySummary → ℕ → List String → Edge
edge_from_summary summary depth path = record {
  chain = summary.chain;
  source_chain = "";
  target_chain = "";
  from = summary.from;
  to = summary.to;
  asset_type = summary.asset_type;
  asset = summary.asset;
  symbol = summary.symbol;
  decimals = summary.decimals;
  token_metadata_complete = summary.token_metadata_complete;
  total_amount = summary.total_amount;
  transfer_count = summary.transfer_count;
  kind =
      if str_eq summary.representative.transfer_kind ""
      then "transfer"
      else summary.representative.transfer_kind;
  depth = depth;
  path = path;
  tx_hash = summary.representative.tx_hash;
  source_tx_hash = "";
  source_amount = "";
  source_asset = "";
  first_block = summary.earliest_block;
  first_time = summary.earliest_time;
  latest_block = summary.latest_block;
  latest_time = summary.latest_time;
  conversion_status = "";
  conversion_scanned = 0;
  conversion_evidence = [];
  protocol = "";
  protocol_action = "";
  protocol_memo = "";
}

unfoldable pub money_transfer : CounterpartySummary → StopReason → MoneyTransfer
money_transfer summary reason = record {
  chain = summary.chain;
  from = summary.from;
  to = summary.to;
  asset = summary.asset;
  amount = summary.total_amount;
  tx_hash = summary.representative.tx_hash;
  kind = summary.representative.transfer_kind;
  evidence = "transfer";
  block_number = summary.representative.block_number;
  inferred = not (str_eq summary.total_amount (transfer_amount summary.representative));
  stop_reason = reason;
}

unfoldable pub conversion_key : String → String → String → String
conversion_key from to asset = to_lower (append from (append "|" (append to (append "|" asset))))

unfoldable pub branch_state_key : BranchState → String
branch_state_key state =
    join
      (to_lower state.address
        ∷ state.direction
        ∷ state.asset_mode
        ∷ to_lower state.asset
        ∷ nat_string state.anchor_block
        ∷ to_lower state.entering_tx.tx_hash
        ∷ [])
      "|"

unfoldable pub path_contains : List String → String → Bool
path_contains path address = any (λ item. equal_fold item address) path

unfoldable pub edge_matches_transfer : Edge → Transfer → Bool
edge_matches_transfer edge transfer =
    equal_fold edge.tx_hash transfer.tx_hash
    && (equal_fold edge.from transfer.from
        && (equal_fold edge.to transfer.to
            && (equal_fold edge.asset transfer.asset
                && str_eq edge.total_amount (transfer_amount transfer))))

unfoldable pub same_evidence : ConversionEvidence → ConversionEvidence → Bool
same_evidence item evidence =
    equal_fold item.tx_hash evidence.tx_hash
    && (equal_fold item.protocol evidence.protocol && equal_fold item.executor evidence.executor)

unfoldable pub append_conversion_evidence :
    List ConversionEvidence → ConversionEvidence → List ConversionEvidence
append_conversion_evidence current evidence =
    if any (λ item. same_evidence item evidence) current then current else current ++ evidence ∷ []

-- Evidence of a whole swap in one transaction.
unfoldable pub is_whole_swap : ConversionEvidence → Bool
is_whole_swap evidence =
    str_eq evidence.status "complete"
    && (not (str_eq evidence.tx_hash "")
        && (not (str_eq evidence.executor "")
            && (not (str_eq evidence.recipient "")
                && (not (str_eq evidence.token_out "") && not (str_eq evidence.amount_out "")))))

-- The edge is the leg by which the swap was entered.
unfoldable pub is_current_leg : AnalyzedConversion → Edge → Bool
is_current_leg conversion edge =
    equal_fold edge.tx_hash conversion.evidence.tx_hash
    && edge_matches_transfer edge conversion.transfer

-- The edge is the leg that the swap pays out.
unfoldable pub is_output_leg : AnalyzedConversion → Edge → Bool
is_output_leg conversion edge =
    equal_fold edge.tx_hash conversion.evidence.tx_hash
    && (equal_fold edge.from conversion.evidence.executor
        && (equal_fold edge.to conversion.evidence.recipient
            && (equal_fold edge.asset conversion.evidence.token_out
                && str_eq edge.total_amount conversion.evidence.amount_out)))

unfoldable pub mark_swap : AnalyzedConversion → Edge → Edge
mark_swap conversion edge = record edge {
  kind = "swap";
  protocol = conversion.evidence.protocol;
  conversion_evidence = append_conversion_evidence edge.conversion_evidence conversion.evidence;
}

-- The last edge that passes the test is changed.
unfoldable pub change_last : (Edge → Bool) → (Edge → Edge) → List Edge → List Edge
change_last test change [] = []
change_last test change (edge ∷ edges) =
    if any test edges
    then edge ∷ change_last test change edges
    else (if test edge then change edge else edge) ∷ edges

-- Whether both legs are there, and the edges with the marked output leg.
unfoldable pub merge_existing_swap_legs : List Edge → AnalyzedConversion → Bool × List Edge
merge_existing_swap_legs edges conversion =
    if is_whole_swap conversion.evidence
      && (any (is_current_leg conversion) edges && any (is_output_leg conversion) edges)
    then (true, change_last (is_output_leg conversion) (mark_swap conversion) edges)
    else (false, edges)

pub record Query : Type 0 where
  pub chain : String
  pub address : String
  pub direction : String
  pub asset : String
  pub depth : ℤ

abbrev is_negative : ℤ → Bool
is_negative (pos _) = false
is_negative (negsuc _) = true

-- Assets that a query may name.
unfoldable pub is_query_asset : String → Bool
is_query_asset asset =
    str_eq asset ""
    || (equal_fold asset "all"
        || (equal_fold asset "eth"
            || (equal_fold asset "erc20"
                || elim (Ethaddr.normalize asset) [ none ↦ false | some _ ↦ true ])))

-- A query with its chain, direction and asset in their normal form; `none` is `ErrInvalidQuery`.
unfoldable pub normalize_on : Ethaddr.Chain → Query → Option Query
normalize_on chain q =
    let lowered = to_lower q.direction in
    let direction = if str_eq lowered "" then "both" else lowered in
    if is_negative q.depth
    then none
    else if not (str_eq direction "in" || (str_eq direction "out" || str_eq direction "both"))
    then none
    else if is_query_asset q.asset
    then some record q { chain = chain.name; direction = direction; asset = "ETH"; depth = pos 0 }
    else none

unfoldable pub normalize_with : Query → Option Ethaddr.Chain → Option Query
normalize_with q none = none
normalize_with q (some chain) = normalize_on chain q

unfoldable pub normalize_query : Query → Option Query
normalize_query q = normalize_with q (Ethaddr.resolve q.chain)

unfoldable pub is_valid_query : Query → Bool
is_valid_query query = elim (normalize_query query) [
  | none ↦ false
  | some q ↦ elim (Ethaddr.normalize q.address) [ none ↦ false | some _ ↦ true ]
]
