-- ===== src/Tracer/Anchors.antt =====
-- `extensionAnchors` of internal/tracer/extension.go: the edges that end at the address of an
-- extension, grouped by asset. A group is a value of a map from mode and asset; the code lists the
-- groups in the order of their keys.
pub mod Total
use Prim.Native.String.{◌++◌ as append}
use eth_fund_trace.Prelude.{
  ℕ, Bool, true, false, ◌&&◌, ◌||◌, not, List, [], ◌∷◌, Option, none, some, String, str_eq, ltb,
  ◌==◌, if◌then◌else◌, length,
}
use eth_fund_trace.Prelude.Dict.{Dict, lookup, insert}
use eth_fund_trace.Text.{to_lower, equal_fold}
use eth_fund_trace.Tracer.Types.{Edge, TraceResult}
use eth_fund_trace.Tracer.Money.{add_decimal, insert_sorted, stable_sort, str_ltb}
use eth_fund_trace.Tracer.Extension.{edge_asset}
use eth_fund_trace.Tracer.Branch.{ExtensionRequest}

pub record ExtensionAnchor : Type 0 where
  pub asset_mode : String
  pub asset : String
  pub amount : String
  pub from_block : ℕ
  pub to_block : ℕ
  pub path : List String

-- Whether the last of the addresses is the given one.
unfoldable pub ends_at : List String → String → Bool
ends_at [] address = false
ends_at (item ∷ []) address = equal_fold item address
ends_at (item ∷ next ∷ path) address = ends_at (next ∷ path) address

unfoldable pub is_anchor_edge : ExtensionRequest → Edge → Bool
is_anchor_edge request edge =
    (str_eq request.direction "out" && equal_fold edge.to request.address
      || str_eq request.direction "in" && equal_fold edge.from request.address)
    && ends_at edge.path request.address

unfoldable pub anchor_key : Edge → String
anchor_key edge = let (mode, asset) = edge_asset edge in append mode (append "|" (to_lower asset))

unfoldable pub anchor_or_new : Edge → Option ExtensionAnchor → ExtensionAnchor
anchor_or_new edge (some anchor) = anchor
anchor_or_new edge none =
    let (mode, asset) = edge_asset edge in
    record {
      asset_mode = mode;
      asset = asset;
      amount = "0";
      from_block = 0;
      to_block = 0;
      path = edge.path;
    }

-- What an edge adds to its group.
unfoldable pub add_to_anchor : ExtensionRequest → Edge → ExtensionAnchor → ExtensionAnchor
add_to_anchor request edge anchor = record anchor {
  amount = add_decimal anchor.amount edge.total_amount;
  from_block =
      if str_eq request.direction "out"
        && (anchor.from_block == 0 || ltb edge.first_block anchor.from_block)
      then edge.first_block
      else anchor.from_block;
  to_block =
      if str_eq request.direction "in" && ltb anchor.to_block edge.latest_block
      then edge.latest_block
      else anchor.to_block;
  path = if ltb (length edge.path) (length anchor.path) then edge.path else anchor.path;
}

unfoldable pub group_edge : ExtensionRequest → Edge → Dict ExtensionAnchor → Dict ExtensionAnchor
group_edge request edge grouped =
    let key = anchor_key edge in
    if is_anchor_edge request edge
    then insert key (add_to_anchor request edge (anchor_or_new edge (lookup key grouped))) grouped
    else grouped

unfoldable pub group_edges :
    ExtensionRequest → List Edge → Dict ExtensionAnchor → Dict ExtensionAnchor
group_edges request [] grouped = grouped
group_edges request (edge ∷ edges) grouped =
    group_edges request edges (group_edge request edge grouped)

unfoldable pub entry_before : String × ExtensionAnchor → String × ExtensionAnchor → Bool
entry_before a b = str_ltb a.0 b.0

unfoldable pub anchors_of : Dict ExtensionAnchor → List ExtensionAnchor
anchors_of [] = []
anchors_of ((key, anchor) ∷ rest) = anchor ∷ anchors_of rest

unfoldable pub extension_anchors : TraceResult → ExtensionRequest → List ExtensionAnchor
extension_anchors root request =
    anchors_of (stable_sort entry_before (group_edges request root.edges []))
