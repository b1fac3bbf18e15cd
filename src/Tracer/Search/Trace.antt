-- ===== src/Tracer/Search/Trace.antt =====
-- `traceSameChain` and `Trace` of internal/tracer/tracer.go: the seed, the rounds and the sums.
use eth_fund_trace.Prelude.{
  ℕ, Bool, true, false, ◌&&◌, ◌||◌, not, List, [], ◌∷◌, Option, none, some, String, str_eq,
  if◌then◌else◌,
}
use eth_fund_trace.Ethaddr
use eth_fund_trace.Risk
use eth_fund_trace.Risk.{RiskResult}
use eth_fund_trace.Store.Address.{Address, AddressIdentity, common_coverage}
use eth_fund_trace.Store.Label.{Label}
use eth_fund_trace.Store.Transfer.{Transfer}
use eth_fund_trace.Tracer.Types.{Node, BranchState, TraceResult}
use eth_fund_trace.Tracer.Branch.{Stop, not_synced, dependency_stop_reason}
use eth_fund_trace.Tracer.Extension.{reconciliation_of}
use eth_fund_trace.Tracer.Facts.{Query, normalize_query, branch_state_key}
use eth_fund_trace.Tracer.Identity.{
  address_covered, address_identity, has_terminal_label, is_cross_chain_bridge,
  is_high_frequency_address, is_known_wallet_terminal, set_node_terminal,
}
use eth_fund_trace.Tracer.Ledger.{build_ledgers}
use eth_fund_trace.Tracer.Money.{consume_money_states}
use eth_fund_trace.Tracer.Search.{
  TraceGraph, Search, Run, goes, stops, add_key, set_data_status, set_nodes, read_from, write_to,
}
use eth_fund_trace.Tracer.Search.Side.{empty_query}
use eth_fund_trace.Tracer.Search.Rounds.{Walk, walked, halted, walk}

abbrev pub trace_rule_version : String
trace_rule_version = "trace-v9"

unfoldable pub empty_risk : RiskResult
empty_risk = record { score = 0; level = ""; evidence = []; rule_version = "" }

unfoldable pub empty_result : TraceResult
unfolding empty_risk
empty_result = record {
  nodes = [];
  edges = [];
  paths = [];
  data_through_block = 0;
  data_through_blocks = [];
  data_status = "";
  labels = [];
  risk = empty_risk;
  rule_version = trace_rule_version;
  branch_states = [];
  money_states = [];
  money_transfers = [];
  ledgers = [];
  reconciliation = "";
}

unfoldable pub no_transfer : Transfer
no_transfer = record {
  chain = "";
  chain_id = 0;
  tx_hash = "";
  block_number = 0;
  block_time = 0;
  from = "";
  to = "";
  asset_type = "";
  asset = "";
  symbol = "";
  decimals = 0;
  amount = "";
  input = "";
  token_value = "";
  token_name = "";
  transfer_kind = "";
  transaction_group = "";
  log_index_synthetic = false;
  token_metadata_complete = false;
  source = "";
  trace_id = "";
  log_index = 0;
  observed_at = 0;
}

unfoldable pub directions_of : String → List String
directions_of direction = if str_eq direction "both" then "in" ∷ "out" ∷ [] else direction ∷ []

unfoldable pub seed_branch : String → AddressIdentity → String → BranchState
seed_branch seed identity direction = record {
  address = seed;
  direction = direction;
  asset_mode = "all";
  asset = "";
  anchor_block = 0;
  entering_query = empty_query;
  entering_tx = no_transfer;
  entering_edge = 0;
  amount = "";
  contract = false;
  identity = identity;
  path = seed ∷ [];
}

unfoldable pub seed_branches : String → AddressIdentity → List String → List BranchState
seed_branches seed identity [] = []
seed_branches seed identity (direction ∷ directions) =
    seed_branch seed identity direction ∷ seed_branches seed identity directions

unfoldable pub add_branch_keys : List BranchState → List String → List String
add_branch_keys [] keys = keys
add_branch_keys (branch ∷ branches) keys =
    add_branch_keys branches (add_key (branch_state_key branch) keys)

-- The branches that are left when the nodes ran out.
unfoldable pub end_frontier : List BranchState → List Node → List Node
end_frontier [] nodes = nodes
end_frontier (state ∷ states) nodes =
    end_frontier states (set_node_terminal nodes state.address "node_limit")

unfoldable pub close_frontier : List BranchState → TraceResult → TraceResult
close_frontier [] result = result
close_frontier (state ∷ states) result =
    set_nodes (end_frontier (state ∷ states) result.nodes) (set_data_status "partial" result)

unfoldable pub sum_up : String → List Label → TraceResult → TraceResult
sum_up seed labels result =
    let states = consume_money_states result.money_states in
    let ledgers = build_ledgers states in
    record result {
      risk = Risk.analyze seed labels;
      money_states = states;
      ledgers = ledgers;
      reconciliation = reconciliation_of ledgers;
    }

-- How a trace ends. A query that is invalid reaches no repository.
pub data SearchEnd (W E : Type 0) : Type 0 where
  found : TraceResult → W → SearchEnd W E
  refused : Stop E → W → SearchEnd W E
  invalid out_of_fuel : SearchEnd W E

module _ {W E : Type 0} (g : TraceGraph W E) (q : Query) (seed : String) where
  abbrev pub seed_reason : String
  seed_reason = dependency_stop_reason g.terminal_dependencies q.chain seed

  unfoldable pub seed_is_covered : Address → Bool → Bool
  seed_is_covered metadata exists =
      let (from, to, covered) = common_coverage metadata in
      exists
      && (is_high_frequency_address metadata
          || (g.existing_data_only || covered)
            && address_covered g.existing_data_only metadata (g.required_start_block q.chain) to)

  unfoldable pub seed_stop_reason : Address → AddressIdentity → String
  seed_stop_reason metadata identity =
      if is_high_frequency_address metadata
      then "high_frequency"
      else if not (str_eq seed_reason "")
      then seed_reason
      else if is_known_wallet_terminal identity
      then "terminal"
      else if is_cross_chain_bridge identity
      then "cross_chain_bridge"
      else ""

  unfoldable pub seed_node : Address → List Label → AddressIdentity → Node
  seed_node metadata labels identity = record {
    chain = q.chain;
    address = seed;
    depth = 0;
    terminal =
        metadata.is_terminal
        || (is_high_frequency_address metadata
            || (not (str_eq seed_reason "")
                || (has_terminal_label labels
                    || (is_known_wallet_terminal identity || is_cross_chain_bridge identity))));
    address_type = identity.address_type;
    protocol = identity.protocol;
    roles = identity.roles;
    stop_reason = seed_stop_reason metadata identity;
  }

  unfoldable pub seed_status : Address → String
  seed_status metadata =
      if g.existing_data_only
        || (str_eq metadata.sync_status "partial"
            || not (is_high_frequency_address metadata) && not (str_eq seed_reason ""))
      then "partial"
      else "synced"

  -- The search before its first round; the frontier is what comes next.
  unfoldable pub plant : Address → List Label → AddressIdentity → Search W → Search W
  plant metadata labels identity s =
      let branches = seed_branches seed identity (directions_of q.direction) in
      record s {
        result = record s.result {
          data_through_block = (common_coverage metadata).1;
          data_status = seed_status metadata;
          labels = labels;
          nodes = seed_node metadata labels identity ∷ [];
          branch_states = branches;
        };
        visited_states = add_branch_keys branches [];
        visited_nodes = seed ∷ [];
        next = branches;
      }

  unfoldable pub identify_seed :
      Option AddressIdentity
      → Address
      → Search W
      → (AddressIdentity → Search W → Run W E (Search W))
      → Run W E (Search W)
  identify_seed none metadata s next = next (address_identity metadata) s
  identify_seed (some identity) metadata s next =
      write_to (g.set_address_identity q.chain seed identity) s (next identity)

  unfoldable pub plant_covered : Bool → Address → Search W → Run W E (Search W)
  plant_covered false metadata s = stops (not_synced q.chain seed 0 0) s.repo
  plant_covered true metadata s = read_from (g.list_labels q.chain seed) s (λ labels s'.
      identify_seed (g.known_address_identity q.chain seed) metadata s'
        (λ identity s''. goes (plant metadata labels identity s'')))

  unfoldable pub blank : W → Search W
  unfolding empty_result
  blank w = record {
    result = empty_result;
    visited_states = [];
    visited_nodes = [];
    next = [];
    processed = [];
    expanded = [];
    repo = w;
  }

  unfoldable pub prepare : W → Run W E (Search W)
  prepare w =
      read_from (g.find_address q.chain seed) (blank w)
        (λ found s. plant_covered (seed_is_covered found.0 found.1) found.0 s)

  -- The labels of the seed are those the search began with.
  unfoldable pub finish_trace : List Label → Walk W E → SearchEnd W E
  finish_trace labels (walked frontier s) =
      found (sum_up seed labels (close_frontier frontier s.result)) s.repo
  finish_trace labels (halted reason w) = refused reason w
  finish_trace labels Walk.out_of_fuel = out_of_fuel

  unfoldable pub trace_prepared : ℕ → Run W E (Search W) → SearchEnd W E
  trace_prepared fuel (stops reason w) = refused reason w
  trace_prepared fuel (goes s) =
      finish_trace s.result.labels (walk g q.chain s.result.data_through_block fuel 0 s.next s)

module _ {W E : Type 0} (g : TraceGraph W E) (fuel : ℕ) where
  unfoldable pub trace_from : Query → Option String → W → SearchEnd W E
  trace_from q none w = invalid
  trace_from q (some seed) w = trace_prepared g q seed fuel (prepare g q seed w)

  unfoldable pub trace_normal : Option Query → W → SearchEnd W E
  trace_normal none w = invalid
  trace_normal (some q) w = trace_from q (Ethaddr.normalize q.address) w

  -- The fuel is the number of rounds.
  unfoldable pub trace_same_chain : Query → W → SearchEnd W E
  trace_same_chain query w = trace_normal (normalize_query query) w

  unfoldable pub with_blocks : SearchEnd W E → SearchEnd W E
  with_blocks (found result w) =
      found (record result { data_through_blocks = ("ethereum", result.data_through_block) ∷ [] }) w
  with_blocks (refused reason w) = refused reason w
  with_blocks invalid = invalid
  with_blocks out_of_fuel = out_of_fuel

  unfoldable pub trace_query : Query → W → SearchEnd W E
  trace_query query w = with_blocks (trace_same_chain query w)
