-- ===== src/Tracer/Search/Rounds.antt =====
-- The rounds of `traceSameChain` in internal/tracer/tracer.go: every branch of the frontier is
-- expanded, by its transfers or by what the contract that it entered gives.
use eth_fund_trace.Prelude.{
  ℕ, zero, suc, ◌+◌, Bool, ◌&&◌, ◌||◌, not, List, [], ◌∷◌, Option, none, some, String, str_eq, ltb,
  leb, if◌then◌else◌, length,
}
use eth_fund_trace.Prelude.Dict.{Dict, insert}
use eth_fund_trace.Text.{to_lower}
use eth_fund_trace.Store.Transfer.{Transfer, TransferQuery, CounterpartySummary}
use eth_fund_trace.Tracer.Types.{
  Node, Edge, BranchState, ConversionEvidence, AnalyzedConversion, ConversionAggregate,
}
use eth_fund_trace.Tracer.Assets.{transfer_asset, transfer_summary}
use eth_fund_trace.Tracer.Branch.{Stop, failed}
use eth_fund_trace.Tracer.Facts.{branch_state_key, conversion_key, merge_existing_swap_legs}
use eth_fund_trace.Tracer.Identity.{is_thorchain_vault, node_terminal, set_node_terminal}
use eth_fund_trace.Tracer.Money.{str_ltb, stable_sort}
use eth_fund_trace.Tracer.Search.{
  max_trace_nodes, trace_transfer_record_cap, TraceGraph, Search, Run, goes, stops, and_then,
  has_key, add_key, set_data_status, set_nodes, read_from,
}
use eth_fund_trace.Tracer.Search.Endpoints.{change_edge}
use eth_fund_trace.Tracer.Search.Convert.{
  conversion_of, aggregate_conversions, mark_thorchain_vault,
}
use eth_fund_trace.Tracer.Search.Side.{empty_query}
use eth_fund_trace.Tracer.Search.Expand.{expand}

unfoldable pub summaries_of : List Transfer → List CounterpartySummary
summaries_of [] = []
summaries_of (transfer ∷ transfers) = transfer_summary transfer ∷ summaries_of transfers

unfoldable pub aggregate_summaries : List ConversionAggregate → List CounterpartySummary
aggregate_summaries [] = []
aggregate_summaries (aggregate ∷ aggregates) = aggregate.summary ∷ aggregate_summaries aggregates

unfoldable pub aggregate_evidence :
    List ConversionAggregate → Dict (List ConversionEvidence) → Dict (List ConversionEvidence)
aggregate_evidence [] evidence = evidence
aggregate_evidence (aggregate ∷ aggregates) evidence = aggregate_evidence aggregates (
    insert (conversion_key aggregate.summary.from aggregate.summary.to aggregate.summary.asset)
      aggregate.evidence evidence)

-- The edges from a position on.
unfoldable pub change_from {ℓ} : {A : Type ℓ} → ℕ → (A → A) → List A → List A
change_from i change [] = []
change_from zero change (x ∷ xs) = change x ∷ change_from zero change xs
change_from (suc i) change (x ∷ xs) = x ∷ change_from i change xs

unfoldable pub name_protocol : AnalyzedConversion → Edge → Edge
name_protocol conversion edge = record edge {
  protocol = conversion.protocol;
  protocol_action = conversion.protocol_action;
  protocol_memo = conversion.protocol_memo;
}

unfoldable pub mark_scanned : Edge → Edge
mark_scanned edge = record edge { conversion_scanned = 1; conversion_status = "complete" }

-- The branch that a conversion is asked for: its asset is the one that entered.
unfoldable pub conversion_state : BranchState → BranchState
conversion_state state = record state {
  entering_query = empty_query;
  asset_mode = (transfer_asset state.entering_tx).0;
  asset = (transfer_asset state.entering_tx).1;
}

-- A branch that entered a contract, and no vault.
unfoldable pub enters_contract : BranchState → Bool
enters_contract state =
    not (str_eq state.entering_query.address "")
    && (state.contract && not (is_thorchain_vault state.identity))

unfoldable pub end_branch : {W : Type 0} → BranchState → String → Search W → Search W
end_branch state reason s = record s {
  result = set_nodes (set_node_terminal s.result.nodes state.address reason) s.result;
}

-- A branch that was looked at, and gave no edge.
unfoldable pub end_unmatched : List String → List String → List Node → List Node
end_unmatched [] expanded nodes = nodes
end_unmatched (address ∷ addresses) expanded nodes = end_unmatched addresses expanded (
    if not (has_key address expanded) && not (node_terminal nodes address)
    then set_node_terminal nodes address "no_matching_transfers"
    else nodes)

unfoldable pub key_before : BranchState → BranchState → Bool
key_before a b = str_ltb (branch_state_key a) (branch_state_key b)

unfoldable pub transfer_query : String → BranchState → TransferQuery
transfer_query chain state = record {
  chain = chain;
  addresses = state.address ∷ [];
  direction = state.direction;
  asset_mode = state.asset_mode;
  asset = state.asset;
  from_block = if str_eq state.direction "out" then state.anchor_block else 0;
  to_block = if str_eq state.direction "out" then 0 else state.anchor_block;
  limit = trace_transfer_record_cap;
  after = none;
}

-- How the rounds end: with a frontier that is left, with an error, or without fuel.
pub data Walk (W E : Type 0) : Type 0 where
  walked : List BranchState → Search W → Walk W E
  halted : Stop E → W → Walk W E
  out_of_fuel : Walk W E

module _ {W E : Type 0} (g : TraceGraph W E) (chain : String) (through : ℕ) where
  -- Too many transfers end the branch.
  unfoldable pub expand_transfers : ℕ → BranchState → List Transfer → Search W → Run W E (Search W)
  expand_transfers depth state transfers s =
      if leb trace_transfer_record_cap (length transfers)
      then goes (
          end_branch state "high_frequency"
            (record s { result = set_data_status "partial" s.result }))
      else expand g chain through depth state [] (summaries_of transfers) s

  unfoldable pub expand_groups :
      ℕ → BranchState → Dict (List ConversionAggregate) → Search W → Run W E (Search W)
  expand_groups depth state [] s = goes s
  expand_groups depth state ((asset, aggregates) ∷ groups) s =
      and_then
        (expand g chain through depth state (aggregate_evidence aggregates [])
          (aggregate_summaries aggregates) s)
        (expand_groups depth state groups)

  unfoldable pub name_edges : ℕ → AnalyzedConversion → Search W → Run W E (Search W)
  name_edges start conversion s =
      let named = record s {
        result = record s.result {
          edges = change_from start (name_protocol conversion) s.result.edges;
        };
      } in
      if str_eq conversion.protocol ""
      then goes s
      else if str_eq conversion.vault_address ""
      then goes named
      else mark_thorchain_vault g chain conversion.vault_address named (λ s'. goes s')

  unfoldable pub expand_converted :
      ℕ → BranchState → AnalyzedConversion → Search W → Run W E (Search W)
  expand_converted depth state conversion s =
      let (merged, edges) = merge_existing_swap_legs s.result.edges conversion in
      if merged
      then goes (record s { result = record s.result { edges = edges } })
      else and_then
          (expand_groups depth (record state { amount = "" })
            (aggregate_conversions (conversion ∷ [])) s)
          (name_edges (length s.result.edges) conversion)

  unfoldable pub expand_conversion :
      ℕ → BranchState → Option AnalyzedConversion → Search W → Run W E (Search W)
  expand_conversion depth state none s = goes (end_branch state "ambiguous_conversion" s)
  expand_conversion depth state (some conversion) s = expand_converted depth state conversion s

  unfoldable pub expand_contract : ℕ → BranchState → Search W → Run W E (Search W)
  expand_contract depth state s =
      let hash = state.entering_tx.tx_hash in
      if g.existing_data_only
        || (not g.has_analyzer || (not (str_eq chain "ethereum") || str_eq hash ""))
      then goes (end_branch state "unsupported_contract" s)
      else read_from (g.analyze_transaction chain hash)
          (change_edge state.entering_edge mark_scanned s)
          (λ analysis s'.
            expand_conversion depth state (conversion_of analysis (conversion_state state) hash) s')

  unfoldable pub expand_branch : ℕ → BranchState → Search W → Run W E (Search W)
  expand_branch depth state s =
      if enters_contract state
      then expand_contract depth state s
      else read_from (g.query_transfers (transfer_query chain state)) s
          (expand_transfers depth state)

  unfoldable pub visit_branch : ℕ → BranchState → Option E → Search W → Run W E (Search W)
  visit_branch depth state (some e) s = stops (failed e) s.repo
  visit_branch depth state none s =
      if node_terminal s.result.nodes state.address
      then goes s
      else expand_branch depth state
          (record s { processed = add_key (to_lower state.address) s.processed })

  unfoldable pub visit_branches : ℕ → List BranchState → Search W → Run W E (Search W)
  visit_branches depth [] s = goes s
  visit_branches depth (state ∷ states) s =
      and_then (visit_branch depth state (g.context_error s.repo) s) (visit_branches depth states)

  unfoldable pub start_round : Search W → Search W
  start_round s = record s { next = []; processed = []; expanded = [] }

  unfoldable pub close_round : Search W → Search W
  close_round s = record s {
    result = set_nodes (end_unmatched s.processed s.expanded s.result.nodes) s.result;
  }

  unfoldable pub round : ℕ → List BranchState → Search W → Run W E (Search W)
  round depth frontier s =
      and_then (visit_branches depth (stable_sort key_before frontier) (start_round s))
        (λ s'. goes (close_round s'))

  unfoldable pub is_open_frontier : List BranchState → Search W → Bool
  is_open_frontier frontier s =
      ltb 0 (length frontier) && ltb (length s.visited_nodes) max_trace_nodes

  unfoldable pub after_round :
      (List BranchState → Search W → Walk W E) → Run W E (Search W) → Walk W E
  after_round walk (stops reason w) = halted reason w
  after_round walk (goes s) = walk s.next s

  -- The fuel is the number of rounds.
  unfoldable pub walk : ℕ → ℕ → List BranchState → Search W → Walk W E
  walk zero depth frontier s = out_of_fuel
  walk (suc fuel) depth frontier s =
      let walked_on = after_round (walk fuel (depth + 1)) (round depth frontier s) in
      if is_open_frontier frontier s then walked_on else walked frontier s
