-- ===== src/Tracer/Identity/Laws.antt =====
-- Marking nodes as terminal, in internal/tracer/tracer.go.
use eth_fund_trace.Prelude.{◌≡◌, List, [], ◌∷◌, String, str_eq_iff, if◌then◌else◌, any, arith}
use eth_fund_trace.Text.{to_lower, equal_fold}
use eth_fund_trace.Tracer.Types.{Node}
use eth_fund_trace.Tracer.Identity.{node_terminal, set_node_terminal}

-- Behind the marking of an address, an address is terminal exactly if it is that address, up to
-- the case of letters, and has a node, or is another one and was terminal before.
node_terminal-set_node_terminal :
    (nodes : List Node) (marked asked reason : String)
    → node_terminal (set_node_terminal nodes marked reason) asked ≡ (
        if equal_fold marked asked
        then any (λ (node : Node). equal_fold node.address asked) nodes
        else node_terminal nodes asked)
unfolding node_terminal set_node_terminal equal_fold
node_terminal-set_node_terminal [] marked asked reason = ground arith
node_terminal-set_node_terminal (node ∷ nodes) marked asked reason = ground (
  arith,
  node_terminal-set_node_terminal nodes marked asked reason,
  str_eq_iff (to_lower node.address) (to_lower marked),
  str_eq_iff (to_lower node.address) (to_lower asked),
  str_eq_iff (to_lower marked) (to_lower asked),
)
