-- ===== src/Tracer/Anchors/Total.antt =====
-- The amounts of the anchors of `extensionAnchors` of internal/tracer/extension.go.
use eth_fund_trace.Prelude.{
  ℕ, ◌+◌, ◌≡◌, refl, sym, List, [], ◌∷◌, Option, none, some, String, str_eq, if◌then◌else◌, All,
  Bool-cases, inl, inr, arith,
}
use eth_fund_trace.Prelude.Dict.{Dict, lookup, insert}
use eth_fund_trace.Text.Decimal.{nat_string}
use eth_fund_trace.Tracer.Types.{Edge, TraceResult}
use eth_fund_trace.Tracer.Money.{add_decimal, insert_sorted, sort_onto, stable_sort}
use eth_fund_trace.Tracer.Money.Queue.{value, value-nat_string}
use eth_fund_trace.Tracer.Ledger.Posting.{add_decimal-nat_string, nat_string-zero, zero_value}
use eth_fund_trace.Tracer.Branch.{ExtensionRequest}
use eth_fund_trace.Tracer.Anchors.{
  ExtensionAnchor, is_anchor_edge, anchor_key, anchor_or_new, add_to_anchor, group_edge,
  group_edges, entry_before, anchors_of, extension_anchors,
}

-- The sum of the amounts of anchors.
unfoldable pub anchors_value : List ExtensionAnchor → ℕ
anchors_value [] = 0
anchors_value (anchor ∷ anchors) = value anchor.amount + anchors_value anchors

-- The sum of the amounts of the edges that end at the address.
unfoldable pub matching_value : ExtensionRequest → List Edge → ℕ
matching_value request [] = 0
matching_value request (edge ∷ edges) =
    (if is_anchor_edge request edge then value edge.total_amount else 0)
    + matching_value request edges

-- A natural number, as text.
pub record IsNat (text : String) : Type 0 where
  pub number : ℕ
  pub is_number : text ≡ nat_string number

found_value : Option ExtensionAnchor → ℕ
found_value none = 0
found_value (some anchor) = value anchor.amount

insert-value :
    (key : String) (anchor : ExtensionAnchor) (grouped : Dict ExtensionAnchor)
    → anchors_value (anchors_of (insert key anchor grouped)) + found_value (lookup key grouped)
      ≡ anchors_value (anchors_of grouped) + value anchor.amount
unfolding anchors_value anchors_of insert lookup found_value
insert-value key anchor [] = omega arith
insert-value key anchor ((other, old) ∷ grouped) = ground (arith, insert-value key anchor grouped)

-- Each anchor has a natural amount.
abbrev Naturals : Dict ExtensionAnchor → Type 0
Naturals [] = Unit
Naturals ((key, anchor) ∷ rest) = IsNat anchor.amount × Naturals rest

insert-Naturals :
    (key : String) (anchor : ExtensionAnchor) (grouped : Dict ExtensionAnchor)
    → IsNat anchor.amount
    → Naturals grouped
    → Naturals (insert key anchor grouped)
unfolding insert
insert-Naturals key anchor [] n h = (n, tt)
insert-Naturals key anchor ((other, old) ∷ grouped) n (m, h) =
    elim (Bool-cases (str_eq other key)) [
      | inl e ↦ rw e (n, h)
      | inr e ↦ rw e (m, insert-Naturals key anchor grouped n h)
    ]

lookup-Naturals :
    (key : String) (edge : Edge) (grouped : Dict ExtensionAnchor)
    → Naturals grouped
    → IsNat (anchor_or_new edge (lookup key grouped)).amount
unfolding lookup anchor_or_new
lookup-Naturals key edge [] h = record { number = 0; is_number = sym nat_string-zero }
lookup-Naturals key edge ((other, old) ∷ grouped) (n, h) = elim (Bool-cases (str_eq other key)) [
  | inl e ↦ rw e n
  | inr e ↦ rw e (lookup-Naturals key edge grouped h)
]

found-value :
    (edge : Edge) (o : Option ExtensionAnchor) → value (anchor_or_new edge o).amount ≡ found_value o
unfolding anchor_or_new found_value
found-value edge none = zero_value
found-value edge (some anchor) = refl

add_decimal-IsNat : (a b : String) → IsNat a → IsNat b → IsNat (add_decimal a b)
add_decimal-IsNat a b m n = record {
  number = m.number + n.number;
  is_number = rw (m.is_number, n.is_number) (add_decimal-nat_string m.number n.number);
}

value-add_decimal : (a b : String) → IsNat a → IsNat b → value (add_decimal a b) ≡ value a + value b
value-add_decimal a b m n =
    rw (m.is_number, n.is_number, add_decimal-nat_string m.number n.number)
      (rw
        (
          value-nat_string (m.number + n.number),
          value-nat_string m.number,
          value-nat_string n.number,
        )
        refl)

module _ (request : ExtensionRequest) where
  -- The amount that an edge brings.
  weight : Edge → ℕ
  weight edge = if is_anchor_edge request edge then value edge.total_amount else 0

  group_edge-value :
      (edge : Edge) (grouped : Dict ExtensionAnchor)
      → IsNat edge.total_amount
      → Naturals grouped
      → (anchors_value (anchors_of (group_edge request edge grouped))
          ≡ anchors_value (anchors_of grouped) + weight edge)
        × Naturals (group_edge request edge grouped)
  unfolding group_edge weight add_to_anchor
  group_edge-value edge grouped n h = elim (Bool-cases (is_anchor_edge request edge)) [
    | inr e ↦ rw e (omega arith, h)
    | inl e ↦
        let key = anchor_key edge in
        let found = lookup key grouped in
        let old = anchor_or_new edge found in
        let old_natural = lookup-Naturals key edge grouped h in
        rw e (
          omega (
            arith,
            insert-value key (add_to_anchor request edge old) grouped,
            value-add_decimal old.amount edge.total_amount old_natural n,
            found-value edge found,
          ),
          insert-Naturals key (add_to_anchor request edge old) grouped
              (add_decimal-IsNat old.amount edge.total_amount old_natural n) h,
        )
  ]

  group_edges-value :
      (edges : List Edge) (grouped : Dict ExtensionAnchor)
      → All (λ (edge : Edge). IsNat edge.total_amount) edges
      → Naturals grouped
      → anchors_value (anchors_of (group_edges request edges grouped))
        ≡ anchors_value (anchors_of grouped) + matching_value request edges
  unfolding group_edges matching_value weight
  group_edges-value [] grouped ns h = omega arith
  group_edges-value (edge ∷ edges) grouped (n, ns) h =
      let step = group_edge-value edge grouped n h in
      omega (arith, step.0, group_edges-value edges (group_edge request edge grouped) ns step.1)

insert_sorted-value :
    (entry : String × ExtensionAnchor) (entries : Dict ExtensionAnchor)
    → anchors_value (anchors_of (insert_sorted entry_before entry entries))
      ≡ value entry.1.amount + anchors_value (anchors_of entries)
unfolding insert_sorted anchors_of anchors_value
insert_sorted-value entry [] = refl
insert_sorted-value entry (first ∷ entries) = ground (arith, insert_sorted-value entry entries)

sort_onto-value :
    (entries done : Dict ExtensionAnchor)
    → anchors_value (anchors_of (sort_onto entry_before done entries))
      ≡ anchors_value (anchors_of done) + anchors_value (anchors_of entries)
unfolding sort_onto anchors_of anchors_value
sort_onto-value [] done = omega arith
sort_onto-value (entry ∷ entries) done = omega (
  arith,
  sort_onto-value entries (insert_sorted entry_before entry done),
  insert_sorted-value entry done,
)

-- Where all edges have natural amounts, the amounts of the anchors of an extension have the same
-- sum as those of the edges that end at its address in its direction.
pub extension_anchors_total :
    (root : TraceResult) (request : ExtensionRequest)
    → All (λ (edge : Edge). IsNat edge.total_amount) root.edges
    → anchors_value (extension_anchors root request) ≡ matching_value request root.edges
unfolding extension_anchors stable_sort anchors_of anchors_value
extension_anchors_total root request ns = omega (
  arith,
  sort_onto-value (group_edges request root.edges []) [],
  group_edges-value request root.edges [] ns tt,
)
