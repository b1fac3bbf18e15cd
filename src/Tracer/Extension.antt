-- ===== src/Tracer/Extension.antt =====
-- `MergeResults` of internal/tracer/extension.go, with the helpers that append without
-- duplicates. A Go set of keys is the list of the keys seen; a key is text.
pub mod Unique
pub mod Again
use eth_fund_trace.Prelude.{
  ℕ, Bool, true, false, ◌&&◌, ◌||◌, not, List, [], ◌∷◌, ◌++◌, String, str_eq, if◌then◌else◌, any,
}
use eth_fund_trace.Text.{to_lower, equal_fold, join}
use eth_fund_trace.Text.Decimal.{nat_string}
use eth_fund_trace.Store.Label.{Label}
use eth_fund_trace.Store.Money.{MoneyState, MoneyTransfer, AssetLedger}
use eth_fund_trace.Tracer.Types.{Node, Edge, TraceResult}
use eth_fund_trace.Tracer.Identity.{contains_role}
use eth_fund_trace.Tracer.Money.{consume_money_states}
use eth_fund_trace.Tracer.Ledger.{build_ledgers}

unfoldable pub edge_asset : Edge → String × String
edge_asset edge =
    if str_eq edge.asset_type "eth" || equal_fold edge.asset "ETH"
    then ("eth", "ETH")
    else ("contract", to_lower edge.asset)

unfoldable pub add_roles : List String → List String → List String
add_roles roles [] = roles
add_roles roles (role ∷ rest) =
    add_roles (if contains_role roles role then roles else roles ++ role ∷ []) rest

-- What a node of the same chain and address adds to a node.
unfoldable pub merge_node : Node → Node → Node
merge_node old node = record old {
  terminal = node.terminal || old.terminal;
  stop_reason = if node.terminal then node.stop_reason else old.stop_reason;
  address_type =
      if not (str_eq node.address_type "") && not (str_eq node.address_type "unknown")
      then node.address_type
      else old.address_type;
  protocol = if not (str_eq node.protocol "") then node.protocol else old.protocol;
  roles = add_roles old.roles node.roles;
}

unfoldable pub same_node : Node → Node → Bool
same_node a b = str_eq a.chain b.chain && equal_fold a.address b.address

unfoldable pub append_node : List Node → Node → List Node
append_node [] node = node ∷ []
append_node (old ∷ nodes) node =
    if same_node old node then merge_node old node ∷ nodes else old ∷ append_node nodes node

unfoldable pub append_nodes : List Node → List Node → List Node
append_nodes nodes [] = nodes
append_nodes nodes (node ∷ rest) = append_nodes (append_node nodes node) rest

unfoldable pub keys_of {ℓ} : {A : Type ℓ} → (A → String) → List A → List String
keys_of key [] = []
keys_of key (x ∷ xs) = key x ∷ keys_of key xs

abbrev pub is_seen : String → List String → Bool
is_seen key seen = any (λ k. str_eq k key) seen

-- The elements whose key was not seen, each key once.
unfoldable pub unseen {ℓ} : {A : Type ℓ} → (A → String) → List String → List A → List A
unseen key seen [] = []
unseen key seen (x ∷ xs) =
    if is_seen (key x) seen then unseen key seen xs else x ∷ unseen key (key x ∷ seen) xs

unfoldable pub append_unique {ℓ} : {A : Type ℓ} → (A → String) → List A → List A → List A
append_unique key current extra = current ++ unseen key (keys_of key current) extra

unfoldable pub label_key : Label → String
label_key label = join (label.chain ∷ to_lower label.address ∷ label.kind ∷ label.source ∷ []) "|"

unfoldable pub edge_key : Edge → String
edge_key edge =
    join
      (edge.chain
        ∷ edge.tx_hash
        ∷ to_lower edge.from
        ∷ to_lower edge.to
        ∷ to_lower edge.asset
        ∷ edge.kind
        ∷ edge.total_amount
        ∷ nat_string edge.first_block
        ∷ nat_string edge.latest_block
        ∷ join edge.path ">"
        ∷ [])
      "|"

unfoldable pub path_key : List String → String
path_key path = join path "|"

unfoldable pub money_state_key : MoneyState → String
money_state_key state =
    join
      (state.chain
        ∷ to_lower state.address
        ∷ state.direction
        ∷ to_lower state.asset
        ∷ state.entry_tx_hash
        ∷ join state.path ">"
        ∷ [])
      "|"

unfoldable pub money_transfer_key : MoneyTransfer → String
money_transfer_key transfer =
    join
      (transfer.chain
        ∷ transfer.tx_hash
        ∷ to_lower transfer.from
        ∷ to_lower transfer.to
        ∷ to_lower transfer.asset
        ∷ [])
      "|"

-- `complete` if all ledgers are.
unfoldable pub reconciliation_of : List AssetLedger → String
reconciliation_of [] = "complete"
reconciliation_of (ledger ∷ ledgers) =
    if str_eq ledger.status "complete" then reconciliation_of ledgers else "partial"

unfoldable pub merge_results : TraceResult → TraceResult → TraceResult
merge_results root extension =
    let states =
      consume_money_states
        (append_unique money_state_key root.money_states extension.money_states) in
    record root {
      labels = append_unique label_key root.labels extension.labels;
      nodes = append_nodes root.nodes extension.nodes;
      edges = append_unique edge_key root.edges extension.edges;
      paths = append_unique path_key root.paths extension.paths;
      data_status = if str_eq extension.data_status "partial" then "partial" else root.data_status;
      money_transfers =
          append_unique money_transfer_key root.money_transfers extension.money_transfers;
      money_states = states;
      ledgers = build_ledgers states;
      reconciliation = reconciliation_of (build_ledgers states);
    }
