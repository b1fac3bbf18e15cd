-- ===== src/Tracer/Search/Side.antt =====
-- The other side of a transfer in `expand` of internal/tracer/tracer.go: the branch that it leads
-- to, the node, whether it ends there, and the synchronisation that it needs.
use eth_fund_trace.Prelude.{
  ℕ, ◌+◌, Bool, true, false, ◌&&◌, ◌||◌, not, List, [], ◌∷◌, ◌++◌, none, some, String, str_eq, ltb,
  if◌then◌else◌, length,
}
use eth_fund_trace.Prelude.Dict.{Dict, lookup}
use eth_fund_trace.Text.{to_lower}
use eth_fund_trace.Store.Address.{Address, AddressIdentity}
use eth_fund_trace.Store.Label.{Label}
use eth_fund_trace.Store.Money.{MoneyState}
use eth_fund_trace.Store.Transfer.{CounterpartyQuery, CounterpartySummary}
use eth_fund_trace.Tracer.Types.{Node, BranchState, ConversionEvidence, TraceResult}
use eth_fund_trace.Tracer.Assets.{summary_asset}
use eth_fund_trace.Tracer.Branch.{Stop, not_synced, entry_state, dependency_stop_reason}
use eth_fund_trace.Tracer.Extension.{append_unique, label_key}
use eth_fund_trace.Tracer.Facts.{
  branch_state_key, conversion_key, edge_from_summary, money_transfer,
}
use eth_fund_trace.Tracer.Identity.{
  address_covered, has_terminal_label, is_cross_chain_bridge, is_high_frequency_address,
  is_known_wallet_terminal,
}
use eth_fund_trace.Tracer.Search.{
  max_trace_nodes, TraceGraph, Search, has_key, add_key, set_data_status, set_nodes,
  with_vault_role,
}

unfoldable pub other_address : String → CounterpartySummary → String
other_address direction summary =
    to_lower (if str_eq direction "in" then summary.from else summary.to)

unfoldable pub empty_query : CounterpartyQuery
empty_query = record {
  chain = "";
  address = "";
  counterparty = "";
  direction = "";
  asset_mode = "";
  asset = "";
  from_block = 0;
  to_block = 0;
  top_n = 0;
}

unfoldable pub unknown_identity : AddressIdentity
unknown_identity = record { address_type = ""; protocol = ""; roles = [] }

-- The branch that a transfer leads to.
unfoldable pub entered_branch : String → CounterpartySummary → BranchState
entered_branch direction summary = record {
  address = other_address direction summary;
  direction = direction;
  asset_mode = (summary_asset summary).0;
  asset = (summary_asset summary).1;
  anchor_block = summary.representative.block_number;
  entering_query = empty_query;
  entering_tx = summary.representative;
  entering_edge = 0;
  amount = "";
  contract = false;
  identity = unknown_identity;
  path = [];
}

unfoldable pub candidate_key : String → CounterpartySummary → String
candidate_key direction summary = branch_state_key (entered_branch direction summary)

unfoldable pub with_identity : AddressIdentity → Address → Address
with_identity identity metadata = record metadata {
  address_type = identity.address_type;
  is_contract = str_eq identity.address_type "contract";
  protocol = identity.protocol;
  roles = identity.roles;
}

unfoldable pub is_open_identity : AddressIdentity → Bool
is_open_identity identity =
    str_eq identity.address_type "unknown"
    || str_eq identity.address_type "contract" && str_eq identity.protocol ""

-- The identity of an address that is left through a verified crossing.
unfoldable pub crossing_identity : AddressIdentity → AddressIdentity
crossing_identity identity =
    if str_eq identity.protocol ""
    then with_vault_role record identity { protocol = "thorchain" }
    else identity

-- What the search knows of the other side of a transfer.
pub record OtherSide : Type 0 where
  pub metadata : Address
  pub found : Bool
  pub identity : AddressIdentity
  pub crosses : Bool
  pub labels : List Label

module _ {W E : Type 0} (g : TraceGraph W E) (chain : String) (through depth : ℕ)
    (state : BranchState) (evidence : Dict (List ConversionEvidence)) where
  unfoldable pub evidence_of : CounterpartySummary → List ConversionEvidence
  evidence_of summary =
      elim (lookup (conversion_key summary.from summary.to summary.asset) evidence) [
        | none ↦ []
        | some found ↦ found
      ]

  -- One transfer, whose amount is spent. `far_address` is the address on its other side.
  module _ (summary : CounterpartySummary) where
    abbrev pub far_address : String
    far_address = other_address state.direction summary

    abbrev pub trail : List String
    trail = state.path ++ far_address ∷ []

    abbrev pub reason : String
    reason = dependency_stop_reason g.terminal_dependencies chain far_address

    unfoldable pub money_state : String → String → MoneyState
    money_state direction address = record (entry_state direction address summary trail) {
      inferred = not (str_eq state.amount "");
    }

    unfoldable pub record_edge : TraceResult → TraceResult
    record_edge result = record result {
      edges =
          result.edges
          ++ record (edge_from_summary summary (depth + 1) trail) {
            conversion_evidence = evidence_of summary;
          }
            ∷ [];
      money_transfers = result.money_transfers ++ money_transfer summary "" ∷ [];
      money_states =
          result.money_states ++ money_state "out" summary.from ∷ money_state "in" summary.to ∷ [];
    }

    unfoldable pub note_edge : Search W → Search W
    note_edge s = record s {
      result = record_edge s.result;
      expanded = add_key (to_lower state.address) s.expanded;
    }

    unfoldable pub zero_node : Node
    zero_node = record {
      chain = chain;
      address = far_address;
      depth = depth + 1;
      terminal = true;
      address_type = "";
      protocol = "";
      roles = [];
      stop_reason = "";
    }

    -- The zero address ends a branch, and is no branch itself.
    unfoldable pub enter_zero : Search W → Search W
    enter_zero s =
        if not (has_key far_address s.visited_nodes) && ltb (length s.visited_nodes) max_trace_nodes
        then record s {
          visited_nodes = add_key far_address s.visited_nodes;
          result = set_nodes (s.result.nodes ++ zero_node ∷ []) s.result;
        }
        else s

    unfoldable pub is_terminal_side : OtherSide → Bool
    is_terminal_side side =
        side.crosses
        || (side.metadata.is_terminal
            || (is_high_frequency_address side.metadata
                  && not (str_eq side.identity.address_type "contract")
                || (not (str_eq reason "")
                    || (has_terminal_label side.labels
                        || (is_known_wallet_terminal side.identity
                            || is_cross_chain_bridge side.identity)))))

    unfoldable pub stop_reason_of : OtherSide → String
    stop_reason_of side =
        if side.crosses
        then "cross_chain_bridge"
        else if is_high_frequency_address side.metadata
            && not (str_eq side.identity.address_type "contract")
        then "high_frequency"
        else if not (str_eq reason "")
        then reason
        else if is_known_wallet_terminal side.identity
        then "terminal"
        else if is_cross_chain_bridge side.identity
        then "cross_chain_bridge"
        else ""

    unfoldable pub node_of : OtherSide → Node
    node_of side = record {
      chain = chain;
      address = far_address;
      depth = depth + 1;
      terminal = is_terminal_side side;
      address_type = side.identity.address_type;
      protocol = side.identity.protocol;
      roles = side.identity.roles;
      stop_reason = stop_reason_of side;
    }

    unfoldable pub next_branch : ℕ → OtherSide → BranchState
    next_branch index side = record (entered_branch state.direction summary) {
      entering_query = record empty_query {
        chain = chain;
        address = state.address;
        counterparty = far_address;
        direction = state.direction;
        asset_mode = (summary_asset summary).0;
        asset = (summary_asset summary).1;
      };
      entering_edge = index;
      amount = summary.total_amount;
      contract = str_eq side.identity.address_type "contract";
      identity = side.identity;
      path = trail;
    }

    -- The branch is visited, and expanded in the next round unless its node is terminal.
    unfoldable pub enter : ℕ → OtherSide → Search W → Search W
    enter index side s =
        let branch = next_branch index side in
        let fresh = not (has_key far_address s.visited_nodes) in
        record s {
          visited_states = add_key (candidate_key state.direction summary) s.visited_states;
          visited_nodes = add_key far_address s.visited_nodes;
          next = if is_terminal_side side then s.next else s.next ++ branch ∷ [];
          result = record s.result {
            labels = append_unique label_key s.result.labels side.labels;
            data_status = if str_eq reason "" then s.result.data_status else "partial";
            branch_states = s.result.branch_states ++ branch ∷ [];
            nodes = if fresh then s.result.nodes ++ node_of side ∷ [] else s.result.nodes;
            paths = s.result.paths ++ trail ∷ [];
          };
        }

    unfoldable pub required_from : ℕ
    required_from =
        if str_eq state.direction "out"
        then summary.representative.block_number
        else g.required_start_block chain

    unfoldable pub required_through : ℕ
    required_through =
        if str_eq state.direction "out" then through else summary.representative.block_number

    unfoldable pub must_sync : OtherSide → Bool
    must_sync side =
        not side.crosses
        && (not (str_eq side.identity.address_type "contract")
            && (not (is_high_frequency_address side.metadata)
                && (not (is_known_wallet_terminal side.identity)
                    && (str_eq reason ""
                        && (not side.found
                            || not (
                                address_covered g.existing_data_only side.metadata required_from
                                  required_through))))))

    unfoldable pub missing_dependency : Stop E
    missing_dependency =
        let block = summary.representative.block_number in
        let out = str_eq state.direction "out" in
        not_synced chain far_address (if out then block else 0) (if out then 0 else block)

    unfoldable pub note_partial : OtherSide → Search W → Search W
    note_partial side s = record s {
      result =
          if str_eq side.metadata.sync_status "partial"
          then set_data_status "partial" s.result
          else s.result;
    }
