-- ===== src/Tracer/Search/Touched.antt =====
-- What the calls of the search in internal/tracer/tracer.go leave as it is: they write edges and
-- the attributes of nodes, and enter no branch.
use eth_fund_trace.Prelude.{
  ℕ, ◌+◌, ◌≡◌, refl, ◌∙◌, Bool, true, false, ◌&&◌, not, List, [], ◌∷◌, ◌++◌, String, str_eq,
  if◌then◌else◌, any, arith,
}
use eth_fund_trace.Prelude.Count.{count, count-append}
use eth_fund_trace.Text.{to_lower, equal_fold}
use eth_fund_trace.Store.Address.{AddressIdentity}
use eth_fund_trace.Store.Analysis.{TransactionAnalysis}
use eth_fund_trace.Store.Transfer.{Transfer}
use eth_fund_trace.Tracer.Types.{Node, TraceResult}
use eth_fund_trace.Tracer.Identity.{set_node_terminal, set_verified_cross_chain_source}
use eth_fund_trace.Tracer.Search.{VerifiedTransfer, set_protocol}
use eth_fund_trace.Tracer.Search.Endpoints.{annotate_inbound, append_recipient, append_outbound}

-- A node of the chain that is searched; the crossings lead to Bitcoin.
abbrev pub is_native : Node → Bool
is_native node = not (str_eq node.chain "bitcoin")

abbrev pub native : List Node → ℕ
native nodes = count is_native nodes

abbrev pub Quiet : TraceResult → TraceResult → Type 0
Quiet before after =
    (native after.nodes ≡ native before.nodes) × (after.branch_states ≡ before.branch_states)

pub native-set_node_terminal :
    (nodes : List Node) (address reason : String)
    → native (set_node_terminal nodes address reason) ≡ native nodes
unfolding count set_node_terminal
native-set_node_terminal [] address reason = refl
native-set_node_terminal (node ∷ nodes) address reason =
    let rest = native-set_node_terminal nodes address reason in ground (arith, rest)

pub native-set_protocol :
    (chain address : String) (identity : AddressIdentity) (nodes : List Node)
    → native (set_protocol chain address identity nodes) ≡ native nodes
unfolding count set_protocol
native-set_protocol chain address identity [] = refl
native-set_protocol chain address identity (node ∷ nodes) =
    let rest = native-set_protocol chain address identity nodes in ground (arith, rest)

native-set_verified_cross_chain_source :
    (nodes : List Node) (address : String)
    → native (set_verified_cross_chain_source nodes address) ≡ native nodes
unfolding count set_verified_cross_chain_source
native-set_verified_cross_chain_source [] address = refl
native-set_verified_cross_chain_source (node ∷ nodes) address =
    let rest = native-set_verified_cross_chain_source nodes address in ground (arith, rest)

pub native-snoc :
    (nodes : List Node) (node : Node)
    → native (nodes ++ node ∷ []) ≡ native nodes + native (node ∷ [])
native-snoc nodes node = count-append is_native nodes (node ∷ [])

pub annotate_inbound-Quiet :
    (annotate : Bool) (protocol memo status : String) (result : TraceResult)
    → Quiet result (annotate_inbound annotate protocol memo status result)
unfolding annotate_inbound
annotate_inbound-Quiet true protocol memo status result = (refl, refl)
annotate_inbound-Quiet false protocol memo status result = (refl, refl)

choose-Quiet :
    (c : Bool) (before x y : TraceResult)
    → Quiet before x
    → Quiet before y
    → Quiet before (if c then x else y)
choose-Quiet true before x y h k = h
choose-Quiet false before x y h k = k

append_recipient-Quiet :
    (protocol target : String) (depth : ℕ) (path : List String) (result : TraceResult)
    → Quiet result (append_recipient protocol depth target path result)
unfolding append_recipient count
append_recipient-Quiet protocol target depth path result =
    choose-Quiet
      (any (λ (node : Node). str_eq node.chain "bitcoin" && equal_fold node.address target)
        result.nodes)
      result result _ (refl, refl) (native-snoc result.nodes _ ∙ omega arith, refl)

pub append_outbound-Quiet :
    (protocol : String) (outbound : VerifiedTransfer) (analysis : TransactionAnalysis)
    (transfer : Transfer) (depth : ℕ) (path : List String) (result : TraceResult)
    → Quiet result (append_outbound protocol outbound analysis transfer depth path result)
unfolding append_outbound
append_outbound-Quiet protocol outbound analysis transfer depth path result =
    let (nodes, branches) =
      append_recipient-Quiet protocol (to_lower outbound.to) depth
        (path ++ to_lower outbound.to ∷ [])
        (record result {
          nodes = set_verified_cross_chain_source result.nodes analysis.to;
          edges = _;
        }) in
    (nodes ∙ native-set_verified_cross_chain_source result.nodes analysis.to, branches)
