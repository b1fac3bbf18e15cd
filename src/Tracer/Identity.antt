-- ===== src/Tracer/Identity.antt =====
-- Roles, terminal tests and node updates of internal/tracer/tracer.go.
pub mod Laws
use eth_fund_trace.Prelude.{
  ℕ, Bool, true, false, ◌&&◌, ◌||◌, not, List, [], ◌∷◌, String, str_eq, leb, ltb, if◌then◌else◌,
  any,
}
use eth_fund_trace.Text.{to_lower, equal_fold}
use eth_fund_trace.Store.Address.{Address, AddressIdentity}
use eth_fund_trace.Store.Label.{Label}
use eth_fund_trace.Tracer.Types.{Node}

-- `existing_data_only` is the field of the graph.
unfoldable pub address_covered : Bool → Address → ℕ → ℕ → Bool
address_covered existing_data_only a from through =
    if existing_data_only
    then true
    else if not (str_eq a.sync_status "synced") || ltb through from
    then false
    else leb a.normal_synced_from from
      && leb through a.normal_synced_to
      && (leb a.internal_synced_from from
          && leb through a.internal_synced_to
          && (leb a.token_synced_from from && leb through a.token_synced_to))

unfoldable pub is_high_frequency_address : Address → Bool
is_high_frequency_address a = str_eq a.sync_status "partial" && str_eq a.sync_error "high_frequency"

unfoldable pub address_identity : Address → AddressIdentity
address_identity a = record {
  address_type =
      if str_eq a.address_type ""
      then if a.is_contract then "contract" else "unknown"
      else a.address_type;
  protocol = a.protocol;
  roles = a.roles;
}

unfoldable pub contains_role : List String → String → Bool
contains_role roles role = any (λ value. str_eq value role) roles

unfoldable pub is_thorchain_vault : AddressIdentity → Bool
unfolding contains_role
is_thorchain_vault identity =
    str_eq identity.protocol "thorchain" && contains_role identity.roles "thorchain_vault"

unfoldable pub is_cross_chain_bridge : AddressIdentity → Bool
unfolding contains_role
is_cross_chain_bridge identity = contains_role identity.roles "cross_chain_bridge"

unfoldable pub is_cross_chain_endpoint : AddressIdentity → Bool
unfolding is_cross_chain_bridge contains_role
is_cross_chain_endpoint identity =
    is_cross_chain_bridge identity
    || (str_eq identity.protocol "thorchain" && contains_role identity.roles "router"
        || str_eq identity.protocol "mayachain" && contains_role identity.roles "router")

unfoldable pub is_known_wallet_terminal : AddressIdentity → Bool
unfolding contains_role
is_known_wallet_terminal identity =
    str_eq identity.protocol "woo_x" && contains_role identity.roles "woo_x_wallet"

unfoldable pub has_terminal_label : List Label → Bool
has_terminal_label labels =
    any
      (λ (label : Label).
        let value = to_lower label.kind in
        str_eq value "exchange"
        || (str_eq value "exchange_hot_wallet" || str_eq value "hot_wallet"))
      labels

-- The first node of the address decides.
unfoldable pub node_terminal : List Node → String → Bool
node_terminal [] address = false
node_terminal (node ∷ nodes) address =
    if equal_fold node.address address then node.terminal else node_terminal nodes address

-- All nodes of the address are set.
unfoldable pub set_node_terminal : List Node → String → String → List Node
set_node_terminal [] address reason = []
set_node_terminal (node ∷ nodes) address reason =
    (if equal_fold node.address address
      then record node { terminal = true; stop_reason = reason }
      else node)
    ∷ set_node_terminal nodes address reason

unfoldable pub set_verified_cross_chain_source : List Node → String → List Node
set_verified_cross_chain_source [] address = []
set_verified_cross_chain_source (node ∷ nodes) address =
    (if equal_fold node.chain "ethereum" && equal_fold node.address address
      then record node { terminal = true; stop_reason = "cross_chain_bridge" }
      else node)
    ∷ set_verified_cross_chain_source nodes address
