-- ===== src/Tracer/SearchTests.antt =====
-- A repository of one transfer: the theorems on the search of internal/tracer/tracer.go applied to
-- the trace of its sender.
use mathlib.Core.Path.{subst}
use eth_fund_trace.Prelude.{
  ℕ, suc, ◌≤◌, ◌≡◌, ◌≢◌, refl, sym, ap, Bool, true, false, List, [], ◌∷◌, none, some, String, inl,
  str_eq, str_eq_iff, All, arith,
}
use eth_fund_trace.Prelude.Int.{pos}
use eth_fund_trace.Prelude.Answers.{Answer, ok, err}
use eth_fund_trace.Prelude.Count.{count}
use eth_fund_trace.Prelude.{◌==◌, ◌&&◌, Bool-cases, inr, ◌⊎◌, if◌then◌else◌}
use eth_fund_trace.Store.Address.{Address}
use eth_fund_trace.Tracer.Branch.{not_synced, failed}
use eth_fund_trace.Tracer.Search.Wanted.{chain_of, seed_of, SeedCovered}
use eth_fund_trace.Store.Transfer.{Transfer, CounterpartySummary}
use eth_fund_trace.Tracer.Types.{TraceResult}
use eth_fund_trace.Tracer.Facts.{Query}
use eth_fund_trace.Tracer.BranchTests.{transfer, receiver, empty}
use eth_fund_trace.Tracer.Search.{TraceGraph, max_trace_nodes}
use eth_fund_trace.Tracer.Search.Trace.{
  SearchEnd, found, refused, invalid, out_of_fuel, trace_query,
}
use eth_fund_trace.Tracer.Search.Touched.{native}
use eth_fund_trace.Tracer.Search.Grown.{leads_to}
use eth_fund_trace.Tracer.Search.Following.{Known}
use eth_fund_trace.Tracer.Search.Walking.{FiniteBranches}
use eth_fund_trace.Tracer.Search.Whole.{trace_wants, trace_limit, trace_enters_once, trace_ends}
use eth_fund_trace.Tracer.Search.{
  and_then, has_key, add_key, change_at, set_data_status, set_nodes, set_protocol, with_vault_role,
  answered, read_from, written, write_to,
}
use eth_fund_trace.Tracer.Search.Endpoints.{is_router_call}
use eth_fund_trace.Tracer.Search.CrossChain.{
  annotate_router_call, may_cross, append_verified_endpoints,
}
use eth_fund_trace.Tracer.Search.Side.{
  other_address, empty_query, unknown_identity, entered_branch, candidate_key, with_identity,
  is_open_identity, crossing_identity, evidence_of, money_state, record_edge, note_edge, zero_node,
  enter_zero, is_terminal_side, stop_reason_of, node_of, next_branch, enter, required_from,
  required_through, must_sync, missing_dependency, note_partial,
}
use eth_fund_trace.Tracer.Search.Visit.{
  settle_side, note_crossing, cross_side, identified, visit_other, follow_edge, follow_within,
}
use eth_fund_trace.Tracer.Search.Expand.{
  candidate_before, candidate, amount_within, spend_budget, budget_of, follow_amount, budget_behind,
  offered_amount, follow_offer, unless_canceled, expand_candidates, expand,
}
use eth_fund_trace.Tracer.Search.Rounds.{
  summaries_of, aggregate_summaries, aggregate_evidence, change_from, name_protocol, mark_scanned,
  conversion_state, enters_contract, end_branch, end_unmatched, key_before, transfer_query,
  expand_transfers, expand_groups, name_edges, expand_converted, expand_conversion, expand_contract,
  expand_branch, visit_branch, visit_branches, start_round, close_round, round, is_open_frontier,
  after_round, walk,
}
use eth_fund_trace.Tracer.Search.Trace.{
  empty_risk, empty_result, no_transfer, directions_of, seed_branch, seed_branches, add_branch_keys,
  end_frontier, close_frontier, sum_up, seed_is_covered, seed_stop_reason, seed_node, seed_status,
  plant, identify_seed, plant_covered, blank, prepare, finish_trace, trace_prepared, trace_from,
  trace_normal, trace_same_chain, with_blocks, trace_query,
}
use eth_fund_trace.Ethaddr.{matches_pattern, normalize, resolve}
use eth_fund_trace.Text.{to_lower, equal_fold, trim_space, contains, join}
use eth_fund_trace.Text.Decimal.{set_string, nat_string, int_string}
use eth_fund_trace.Tracer.Assets.{
  known_tokens, find_token, known_token_for, supported_summary_asset, canonicalize_summary_asset,
  trace_minimum, reaches, above_trace_threshold, transfer_amount, transfer_asset, summary_asset,
  transfer_summary,
}
use eth_fund_trace.Tracer.Branch.{
  dependency_address_key, dependency_stop_reason, cut_to, entry_state,
}
use eth_fund_trace.Tracer.Facts.{
  edge_from_summary, money_transfer, conversion_key, branch_state_key, is_query_asset, normalize_on,
  normalize_with, normalize_query,
}
use eth_fund_trace.Tracer.Identity.{
  address_covered, is_high_frequency_address, address_identity, contains_role, is_thorchain_vault,
  is_cross_chain_bridge, is_cross_chain_endpoint, is_known_wallet_terminal, has_terminal_label,
  node_terminal, set_node_terminal, set_verified_cross_chain_source,
}
use eth_fund_trace.Tracer.Money.{insert_sorted, sort_onto, stable_sort}
use eth_fund_trace.Tracer.Extension.{keys_of, unseen, append_unique, label_key, reconciliation_of}
use eth_fund_trace.Store.Address.{common_coverage}
use eth_fund_trace.Prelude.Dict.{Dict, lookup, insert, erase}
use eth_fund_trace.Prelude.Int.{◌+ℤ◌, ◌-ℤ◌}

abbrev pub seed : String
seed = "0xdac17f958d2ee523a2206206994597c13d831ec7"

abbrev sent : Transfer
sent = record transfer { from = seed; to = "0xcd"; chain = "ethereum" }

abbrev outgoing : Bool → List Transfer
outgoing true = sent ∷ []
outgoing false = []

abbrev pub graph : TraceGraph ℕ ℕ
graph = record {
  existing_data_only = true;
  required_start_block = λ chain. 0;
  terminal_dependencies = [];
  find_address = λ chain address w. (ok (receiver, true), suc w);
  list_labels = λ chain address w. (ok [], w);
  set_address_identity = λ chain address identity w. (none, w);
  query_transfers = λ q w. (ok (outgoing (str_eq q.direction "out")), w);
  known_address_identity = λ chain address. none;
  has_inspector = false;
  inspect_address = λ chain address w. (err 0, w);
  has_analyzer = false;
  analyze_transaction = λ chain hash w. (err 0, w);
  verifiers = [];
  context_error = λ w. none;
}

abbrev pub query : Query
query = record { chain = "ethereum"; address = seed; direction = "out"; asset = ""; depth = pos 0 }

abbrev pub result_of : SearchEnd ℕ ℕ → TraceResult
result_of (found result w) = result
result_of (refused reason w) = empty
result_of invalid = empty
result_of out_of_fuel = empty

abbrev pub world_of : SearchEnd ℕ ℕ → ℕ
world_of (found result w) = w
world_of (refused reason w) = w
world_of invalid = 0
world_of out_of_fuel = 0

abbrev pub ending : SearchEnd ℕ ℕ
ending = trace_query graph 4 query 0

-- A repository that knows the whole history of the sender and nothing of the receiver.
abbrev pub whole_history : Address
whole_history = record receiver {
  sync_status = "synced";
  normal_synced_to = 100;
  internal_synced_to = 100;
  token_synced_to = 100;
}

abbrev pub sender_only : TraceGraph ℕ ℕ
sender_only = record graph {
  existing_data_only = false;
  find_address = λ chain address w.
      (ok (if str_eq address seed then (whole_history, true) else (receiver, false)), suc w);
}

ends_of_traces :
    (trace_query graph 4 query 0 ≡ found (result_of ending) (world_of ending))
    × (trace_query sender_only 4 query 0 ≡ refused (not_synced "ethereum" "0xcd" 7 0) 2)
unfolding reconciliation_of and_then has_key add_key change_at set_data_status set_nodes
    set_protocol with_vault_role answered read_from written write_to is_router_call
    annotate_router_call may_cross append_verified_endpoints candidate_before other_address
    candidate amount_within spend_budget budget_of empty_query unknown_identity entered_branch
    candidate_key with_identity is_open_identity crossing_identity evidence_of money_state
    record_edge note_edge zero_node enter_zero is_terminal_side stop_reason_of node_of next_branch
    enter required_from required_through must_sync missing_dependency note_partial settle_side
    note_crossing cross_side identified visit_other follow_edge follow_within follow_amount
    budget_behind offered_amount follow_offer unless_canceled expand_candidates expand summaries_of
    aggregate_summaries aggregate_evidence change_from name_protocol mark_scanned conversion_state
    enters_contract end_branch end_unmatched key_before transfer_query expand_transfers
    expand_groups name_edges expand_converted expand_conversion expand_contract expand_branch
    visit_branch visit_branches start_round close_round round is_open_frontier after_round walk
    empty_risk empty_result no_transfer directions_of seed_branch seed_branches add_branch_keys
    end_frontier close_frontier sum_up seed_is_covered seed_stop_reason seed_node seed_status plant
    identify_seed plant_covered blank prepare finish_trace trace_prepared trace_from trace_normal
    trace_same_chain with_blocks trace_query matches_pattern normalize resolve to_lower equal_fold
    trim_space contains join set_string nat_string int_string known_tokens find_token
    known_token_for supported_summary_asset canonicalize_summary_asset trace_minimum reaches
    above_trace_threshold transfer_amount transfer_asset summary_asset transfer_summary
    dependency_address_key dependency_stop_reason cut_to entry_state edge_from_summary
    money_transfer conversion_key branch_state_key is_query_asset normalize_on normalize_with
    normalize_query address_covered is_high_frequency_address address_identity contains_role
    is_thorchain_vault is_cross_chain_bridge is_cross_chain_endpoint is_known_wallet_terminal
    has_terminal_label node_terminal set_node_terminal set_verified_cross_chain_source insert_sorted
    sort_onto stable_sort keys_of unseen append_unique label_key common_coverage lookup insert erase
    ◌+ℤ◌ ◌-ℤ◌
ends_of_traces = (refl, refl)

pub trace_finds : trace_query graph 4 query 0 ≡ found (result_of ending) (world_of ending)
trace_finds = ends_of_traces.0

trace_limit_example : native (result_of ending).nodes ≤ max_trace_nodes
trace_limit_example = trace_limit graph 4 query 0 (world_of ending) (result_of ending) trace_finds

trace_enters_once_example :
    count (leads_to (candidate_key "out" (transfer_summary sent))) (result_of ending).branch_states
    ≤ 1
trace_enters_once_example =
    trace_enters_once graph 4 query 0 (world_of ending) (result_of ending) _ trace_finds

-- The trace asks for the receiver only, whatever is final.
abbrev pub asks_receiver : SearchEnd ℕ ℕ → Bool
asks_receiver (refused (not_synced chain address from to) w) =
    str_eq chain "ethereum" && (str_eq address "0xcd" && (from == 7 && to == 0))
asks_receiver (refused (failed e) w) = true
asks_receiver (found result w) = true
asks_receiver invalid = true
asks_receiver out_of_fuel = true

abbrev final_reason : Dict String → String → String
final_reason terminal address = dependency_stop_reason terminal "ethereum" address

pub sender_only_asks :
    (terminal : Dict String) (w : ℕ)
    → asks_receiver
        (trace_query (record sender_only { terminal_dependencies = terminal }) 4 query w)
      ≡ true
unfolding reconciliation_of and_then has_key add_key change_at set_data_status set_nodes
    set_protocol with_vault_role answered read_from written write_to is_router_call
    annotate_router_call may_cross append_verified_endpoints candidate_before other_address
    candidate amount_within spend_budget budget_of empty_query unknown_identity entered_branch
    candidate_key with_identity is_open_identity crossing_identity evidence_of money_state
    record_edge note_edge zero_node enter_zero is_terminal_side stop_reason_of node_of next_branch
    enter required_from required_through must_sync missing_dependency note_partial settle_side
    note_crossing cross_side identified visit_other follow_edge follow_within follow_amount
    budget_behind offered_amount follow_offer unless_canceled expand_candidates expand summaries_of
    aggregate_summaries aggregate_evidence change_from name_protocol mark_scanned conversion_state
    enters_contract end_branch end_unmatched key_before transfer_query expand_transfers
    expand_groups name_edges expand_converted expand_conversion expand_contract expand_branch
    visit_branch visit_branches start_round close_round round is_open_frontier after_round walk
    empty_risk empty_result no_transfer directions_of seed_branch seed_branches add_branch_keys
    end_frontier close_frontier sum_up seed_is_covered seed_stop_reason seed_node seed_status plant
    identify_seed plant_covered blank prepare finish_trace trace_prepared trace_from trace_normal
    trace_same_chain with_blocks trace_query matches_pattern normalize resolve to_lower equal_fold
    trim_space contains join set_string nat_string int_string known_tokens find_token
    known_token_for supported_summary_asset canonicalize_summary_asset trace_minimum reaches
    above_trace_threshold transfer_amount transfer_asset summary_asset transfer_summary
    dependency_address_key cut_to entry_state edge_from_summary money_transfer conversion_key
    branch_state_key is_query_asset normalize_on normalize_with normalize_query address_covered
    is_high_frequency_address address_identity contains_role is_thorchain_vault
    is_cross_chain_bridge is_cross_chain_endpoint is_known_wallet_terminal has_terminal_label
    node_terminal set_node_terminal set_verified_cross_chain_source insert_sorted sort_onto
    stable_sort keys_of unseen append_unique label_key common_coverage lookup insert erase ◌+ℤ◌ ◌-ℤ◌
sender_only_asks terminal w = elim (Bool-cases (str_eq (final_reason terminal seed) "")) [
  | inr e ↦ rw e refl
  | inl e ↦ elim (Bool-cases (str_eq (final_reason terminal "0xcd") "")) [
    | inr g ↦ rw (e, g) refl
    | inl g ↦ rw (e, g) refl
  ]
]

trace_wants_example :
    (chain_of query ≡ some "ethereum")
    × ((seed_of query ≡ some "0xcd") × (¬ SeedCovered sender_only query)
        ⊎ (dependency_stop_reason [] "ethereum" "0xcd" ≡ ""))
trace_wants_example = trace_wants sender_only 4 query 0 2 "ethereum" "0xcd" 7 0 ends_of_traces.1

abbrev keys : List String
keys = candidate_key "out" (transfer_summary sent) ∷ []

candidate-sent :
    (canonical : CounterpartySummary)
    → candidate "ethereum" "out" (transfer_summary sent) ≡ some canonical
    → transfer_summary sent ≡ canonical
unfolding candidate other_address canonicalize_summary_asset known_token_for known_tokens find_token
    supported_summary_asset above_trace_threshold trace_minimum reaches transfer_summary
    transfer_amount equal_fold to_lower set_string nat_string
candidate-sent canonical offered = cc

outgoing-Known :
    (out : Bool) (direction : String)
    → str_eq direction "out" ≡ out
    → All (Known "ethereum" direction (Unit {0}) keys) (summaries_of (outgoing out))
unfolding summaries_of
outgoing-Known false direction same = tt
outgoing-Known true direction same =
    let outward : direction ≡ "out" = (str_eq_iff direction "out").0 same in
    subst (λ d. All (Known "ethereum" d (Unit {0}) keys) (transfer_summary sent ∷ [])) (sym outward)
      (
        λ canonical offered counted.
            inl (ap (candidate_key "out") (sym (candidate-sent canonical offered))),
        tt,
      )

outgoing-Answered :
    (out : Bool) (direction : String) (transfers : List Transfer)
    → str_eq direction "out" ≡ out
    → ◌≡◌ {A = Answer ℕ (List Transfer)} (ok (outgoing out)) (ok transfers)
    → All (Known "ethereum" direction (Unit {0}) keys) (summaries_of transfers)
outgoing-Answered out direction transfers same answer =
    let is_outgoing : outgoing out ≡ transfers = cc in
    subst (λ ts. All (Known "ethereum" direction (Unit {0}) keys) (summaries_of ts)) is_outgoing
      (outgoing-Known out direction same)

graph-FiniteBranches : FiniteBranches graph "ethereum" (Unit {0}) keys
unfolding transfer_query
graph-FiniteBranches = record {
  transfers_known = λ state transfers w answer.
      outgoing-Answered (str_eq state.direction "out") state.direction transfers refl answer;
  conversions_known = λ state analysis conversion w answer converted. absurd cc;
}

normal_chain : (normal : Query) → normalize_query query ≡ some normal → "ethereum" ≡ normal.chain
unfolding normalize_query normalize_with normalize_on resolve is_query_asset equal_fold to_lower
    trim_space
normal_chain normal same = cc

trace_ends_example : trace_query graph 4 query 0 ≢ out_of_fuel
trace_ends_example =
    trace_ends graph 4 query 0 keys
      (λ normal same.
        subst (λ chain. FiniteBranches graph chain (Unit {0}) keys) (normal_chain normal same)
          graph-FiniteBranches)
      (omega arith)
