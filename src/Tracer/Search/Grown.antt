-- ===== src/Tracer/Search/Grown.antt =====
-- How the search of internal/tracer/tracer.go grows: one step enters at most one branch, under a
-- key that was not visited, and adds at most one node.
use eth_fund_trace.Prelude.{
  ℕ, suc, ◌+◌, ◌≤◌, ◌<◌, ◌≡◌, refl, ap, Bool, true, false, ◌&&◌, ◌||◌, not, List, [], ◌∷◌, ◌++◌,
  String, str_eq, str_eq_iff, ltb, if◌then◌else◌, length, length-snoc, In, arith,
}
use eth_fund_trace.Prelude.Count.{count, count-length, count-append, count-lt}
use eth_fund_trace.Store.Transfer.{CounterpartySummary}
use eth_fund_trace.Prelude.Dict.{Dict}
use eth_fund_trace.Tracer.Types.{Node, BranchState, ConversionEvidence}
use eth_fund_trace.Tracer.Facts.{branch_state_key}
use eth_fund_trace.Tracer.Search.{max_trace_nodes, TraceGraph, Search, has_key, add_key, set_nodes}
use eth_fund_trace.Tracer.Search.Side.{
  OtherSide, candidate_key, far_address, zero_node, enter_zero, next_branch, enter,
}
use eth_fund_trace.Tracer.Search.Touched.{is_native, native, native-snoc}
use eth_fund_trace.Tracer.Search.Calls.{Touched}

has_key-cons :
    (key added : String) (keys : List String)
    → has_key key (added ∷ keys) ≡ (str_eq key added || has_key key keys)
unfolding has_key
has_key-cons key added keys = refl

pub has_key-add_key :
    (key added : String) (keys : List String)
    → has_key key (add_key added keys) ≡ (str_eq key added || has_key key keys)
unfolding add_key
has_key-add_key key added keys = ground (arith, str_eq_iff key added, has_key-cons key added keys)

-- A key that is there may stand for one branch.
abbrev pub room : Bool → ℕ
room true = 1
room false = 0

abbrev pub leads_to : String → BranchState → Bool
leads_to key branch = str_eq key (branch_state_key branch)

-- Never more nodes of the chain than addresses that were visited, and of these no more than the
-- limit.
abbrev pub Bounded : {W : Type 0} → Search W → Type 0
Bounded s =
    (native s.result.nodes ≤ length s.visited_nodes) × (length s.visited_nodes ≤ max_trace_nodes)

-- No key has two branches, and one that has a branch was visited.
abbrev pub EntersOnce : {W : Type 0} → Search W → Type 0
EntersOnce s =
    (key : String)
    → count (leads_to key) s.result.branch_states ≤ room (has_key key s.visited_states)

abbrev pub is_new : List String → String → Bool
is_new visited key = not (has_key key visited)

pub length-add_key :
    (key : String) (ks : List String)
    → length (add_key key ks) ≡ (if has_key key ks then length ks else suc (length ks))
unfolding add_key
length-add_key key ks = ground arith

open_keys-add_key :
    (keys : List String) (key : String) (ks : List String)
    → In key keys
    → has_key key ks ≡ false
    → count (is_new (add_key key ks)) keys < count (is_new ks) keys
open_keys-add_key keys key ks m fresh =
    count-lt (is_new ks) (is_new (add_key key ks))
      (λ x e. ground (arith, e, has_key-add_key x key ks)) key keys m (ground (arith, fresh))
      (ground (arith, has_key-add_key key key ks, str_eq_iff key key))

-- A new address and its node, below the limit.
add_node-limit :
    (address : String) (visited : List String) (node : Node) (nodes : List Node)
    → native nodes ≤ length visited
    → length visited < max_trace_nodes
    → (native (if not (has_key address visited) then nodes ++ node ∷ [] else nodes)
        ≤ length (add_key address visited))
      × (length (add_key address visited) ≤ max_trace_nodes)
add_node-limit address visited node nodes within below = ground (
  arith,
  length-add_key address visited,
  native-snoc nodes node,
  count-length is_native (node ∷ []),
)

-- The keys that may still be entered.
abbrev pub open_keys : {W : Type 0} → List String → Search W → ℕ
open_keys keys s = count (is_new s.visited_states) keys

-- The keys are counted only where all that can be entered are known: `Counted` says that they are.
module _ {W : Type 0} (Counted : Type 0) (keys : List String) where
  -- What a part of the search keeps, and what it has used up.
  pub record Grown (s t : Search W) : Type 0 where
    pub limit : Bounded s → Bounded t
    pub once : EntersOnce s → EntersOnce t
    pub progress : Counted → length t.next + open_keys keys t ≤ length s.next + open_keys keys s

  pub Grown-trans : {s t u : Search W} → Grown s t → Grown t u → Grown s u
  Grown-trans g h = record {
    limit = λ b. h.limit (g.limit b);
    once = λ v. h.once (g.once v);
    progress = λ c. omega (arith, g.progress c, h.progress c);
  }

  pub Touched-Grown : (s t : Search W) → Touched s t → Grown s t
  Touched-Grown s t (states, nodes, next, (natives, branches)) = record {
    limit =
        λ b. (omega (arith, natives, ap length nodes, b.0), omega (arith, ap length nodes, b.1));
    once = λ v key.
        let counted = ap (count (leads_to key)) branches in
        let seen = ap (λ (ks : List String). room (has_key key ks)) states in
        omega (arith, counted, seen, v key);
    progress = λ c.
        let still = ap (λ (ks : List String). count (is_new ks) keys) states in
        omega (arith, still, ap length next);
  }

  choose-Grown :
      (c : Bool) (s t u : Search W)
      → (c ≡ true → Grown s t)
      → (c ≡ false → Grown s u)
      → Grown s (if c then t else u)
  choose-Grown true s t u yes_case no_case = yes_case refl
  choose-Grown false s t u yes_case no_case = no_case refl

  module _ {E : Type 0} (g : TraceGraph W E) (chain : String) (through depth : ℕ)
      (state : BranchState) (evidence : Dict (List ConversionEvidence))
      (summary : CounterpartySummary) where
    abbrev pub key_of : String
    key_of = candidate_key state.direction summary

    count_branches :
        (key : String) (branches : List BranchState) (visited : List String) (branch : BranchState)
        → branch_state_key branch ≡ key_of
        → has_key key_of visited ≡ false
        → count (leads_to key) branches ≤ room (has_key key visited)
        → count (leads_to key) (branches ++ branch ∷ [])
          ≤ room (has_key key (add_key key_of visited))
    unfolding count
    count_branches key branches visited branch named fresh within = ground (
      arith,
      count-append (leads_to key) branches (branch ∷ []),
      has_key-add_key key key_of visited,
      str_eq_iff key key_of,
    )

    branch_state_key-next_branch :
        (index : ℕ) (side : OtherSide)
        → branch_state_key (next_branch g chain through depth state evidence summary index side)
          ≡ key_of
    unfolding next_branch candidate_key branch_state_key
    branch_state_key-next_branch index side = refl

    pub enter_zero-Grown :
        (s : Search W) → Grown s (enter_zero g chain through depth state evidence summary s)
    unfolding enter_zero set_nodes
    enter_zero-Grown s =
        choose-Grown
          (not (has_key (far_address g chain through depth state evidence summary) s.visited_nodes)
            && ltb (length s.visited_nodes) max_trace_nodes)
          s _ _
          (λ room_left. record {
            limit = λ b.
                let address = far_address g chain through depth state evidence summary in
                let node = zero_node g chain through depth state evidence summary in
                ground (
                  arith,
                  length-add_key address s.visited_nodes,
                  native-snoc s.result.nodes node,
                  count-length is_native (node ∷ []),
                  b.0,
                  b.1,
                );
            once = λ v. v;
            progress = λ c. omega arith;
          })
          (λ full. Touched-Grown s s (refl, refl, refl, (refl, refl)))

    pub enter-Grown :
        (index : ℕ) (side : OtherSide) (s : Search W)
        → (Counted → In key_of keys)
        → has_key key_of s.visited_states ≡ false
        → length s.visited_nodes < max_trace_nodes
        → Grown s (enter g chain through depth state evidence summary index side s)
    unfolding enter
    enter-Grown index side s m fresh below = record {
      limit = λ b. add_node-limit _ s.visited_nodes _ s.result.nodes b.0 below;
      once = λ v key.
          count_branches key s.result.branch_states s.visited_states _
            (branch_state_key-next_branch index side) fresh (v key);
      progress = λ c.
          let fewer = open_keys-add_key keys key_of s.visited_states (m c) fresh in
          ground (
            arith,
            fewer,
            length-snoc s.next
                (next_branch g chain through depth state evidence summary index side),
          );
    }
