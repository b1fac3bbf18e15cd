-- ===== src/Tracer/Search/Following.antt =====
-- `expand` of internal/tracer/tracer.go grows the search: one branch at most for each transfer.
use mathlib.Core.Path.{subst}
use eth_fund_trace.Prelude.{
  ℕ, ◌+◌, ◌≡◌, ◌≢◌, refl, sym, ap, ◌∙◌, Bool, true, false, ◌&&◌, not, List, [], ◌∷◌, Option, none,
  some, String, str_eq, leb, if◌then◌else◌, length, In, All, Bool-cases, inl, inr, arith,
}
use eth_fund_trace.Prelude.Int.{ℤ}
use eth_fund_trace.Prelude.Dict.{Dict}
use eth_fund_trace.Text.Decimal.{int_string}
use eth_fund_trace.Store.Address.{Address, AddressIdentity}
use eth_fund_trace.Store.Transfer.{CounterpartySummary}
use eth_fund_trace.Tracer.Types.{BranchState, ConversionEvidence}
use eth_fund_trace.Tracer.Assets.{above_trace_threshold, summary_asset}
use eth_fund_trace.Tracer.Facts.{branch_state_key}
use eth_fund_trace.Tracer.Identity.{address_identity}
use eth_fund_trace.Tracer.Money.{stable_sort}
use eth_fund_trace.Tracer.Money.Sorting.{All-sort_onto}
use eth_fund_trace.Ethaddr.{zero_address}
use eth_fund_trace.Tracer.Search.{
  max_trace_nodes, TraceGraph, Search, Run, goes, stops, has_key, set_data_status, set_nodes,
  and_then,
}
use eth_fund_trace.Tracer.Search.Side.{
  OtherSide, candidate_key, entered_branch, other_address, is_open_identity, far_address, must_sync,
  missing_dependency, note_edge, record_edge, note_partial,
}
use eth_fund_trace.Tracer.Search.Visit.{
  settle_side, note_crossing, cross_side, identified, visit_other, follow_edge, follow_within,
}
use eth_fund_trace.Tracer.Search.Expand.{
  candidate, follow_amount, offered_amount, follow_offer, unless_canceled, expand_candidates,
  expand, candidate_before,
}
use eth_fund_trace.Tracer.Search.Touched.{native-set_node_terminal, native-set_protocol}
use eth_fund_trace.Tracer.Search.Calls.{
  Touched, Rule, Holds, choose-Holds, and_then-Holds, touch_nodes, read_from-Holds, write_to-Holds,
  annotate_router_call-Holds, append_verified_endpoints-Holds,
}
use eth_fund_trace.Tracer.Search.Grown.{
  Grown, Grown-trans, Touched-Grown, enter_zero-Grown, enter-Grown,
}

candidate_key-amount :
    (direction amount : String) (summary : CounterpartySummary)
    → candidate_key direction (record summary { total_amount = amount })
      ≡ candidate_key direction summary
unfolding candidate_key branch_state_key entered_branch other_address summary_asset
candidate_key-amount direction amount summary = refl

pub Grown-onto :
    {W E : Type 0} (rule : Rule E) (Counted : Type 0) (keys : List String) (s t : Search W)
    (x : Run W E (Search W))
    → Grown Counted keys s t
    → Holds rule (Grown Counted keys t) x
    → Holds rule (Grown Counted keys s) x
Grown-onto rule Counted keys s t (goes u) grown h = Grown-trans Counted keys grown h
Grown-onto rule Counted keys s t (stops reason w) grown h = h

-- Two runs, one behind the other.
pub and_then-Grows :
    {W E : Type 0} (rule : Rule E) (Counted : Type 0) (keys : List String) (s : Search W)
    (x : Run W E (Search W)) (f : Search W → Run W E (Search W))
    → Holds rule (Grown Counted keys s) x
    → ((t : Search W) → Holds rule (Grown Counted keys t) (f t))
    → Holds rule (Grown Counted keys s) (and_then x f)
and_then-Grows rule Counted keys s x f h k =
    and_then-Holds rule (Grown Counted keys s) (Grown Counted keys s) x f h
      (λ t grown. Grown-onto rule Counted keys s t (f t) grown (k t))

unvisited : (c : Bool) (amount : Option ℤ) → (if c then none else amount) ≢ none → c ≡ false
unvisited true amount met = absurd (met refl)
unvisited false amount met = refl

-- What a summary leads to, if it is followed, has one of the keys.
abbrev pub Known : String → String → Type 0 → List String → CounterpartySummary → Type 0
Known chain direction Counted keys summary =
    (canonical : CounterpartySummary)
    → candidate chain direction summary ≡ some canonical
    → Counted
    → In (candidate_key direction canonical) keys

-- Why a transfer may ask for a synchronisation.
abbrev pub Wants : {W E : Type 0} → Rule E → TraceGraph W E → String → ℕ → Type 0
Wants rule g chain through =
    (depth : ℕ) (state : BranchState) (evidence : Dict (List ConversionEvidence))
    (summary : CounterpartySummary) (side : OtherSide)
    → must_sync g chain through depth state evidence summary side ≡ true
    → rule.allowed (missing_dependency g chain through depth state evidence summary)

module _ {W E : Type 0} (rule : Rule E) (g : TraceGraph W E) (chain : String) (through depth : ℕ)
    (state : BranchState) (evidence : Dict (List ConversionEvidence)) (Counted : Type 0)
    (keys : List String) (wants : Wants rule g chain through) where
  module _ (summary : CounterpartySummary) (s : Search W)
      (known : Counted → In (candidate_key state.direction summary) keys)
      (fresh : has_key (candidate_key state.direction summary) s.visited_states ≡ false) where
    note_partial-Touched :
        (side : OtherSide) (t : Search W)
        → Touched s t
        → Touched s (note_partial g chain through depth state evidence summary side t)
    unfolding note_partial set_data_status
    note_partial-Touched side t touched =
        elim (Bool-cases (str_eq side.metadata.sync_status "partial")) [
          | inl partial ↦ rw partial touched
          | inr whole ↦ rw whole touched
        ]

    settle_side-Grows :
        (index : ℕ) (side : OtherSide) (t : Search W)
        → Touched s t
        → Holds rule
            (Grown Counted keys s)
            (settle_side g chain through depth state evidence summary index side t)
    unfolding settle_side
    settle_side-Grows index side t touched =
        let P = Grown Counted keys s in
        choose-Holds rule P (must_sync g chain through depth state evidence summary side) _ _
          (λ asked. wants depth state evidence summary side asked)
          (λ stays.
            choose-Holds rule P (leb max_trace_nodes (length t.visited_nodes)) _ _
              (λ full. Touched-Grown Counted keys s _ (note_partial-Touched side t touched))
              (λ below.
                read_from-Holds rule P s _ _ _ (note_partial-Touched side t touched)
                  (λ labels u touched'.
                    Grown-trans Counted keys (Touched-Grown Counted keys s u touched') (
                      enter-Grown Counted keys g chain through depth state evidence summary index _
                        u known
                        (ap (has_key (candidate_key state.direction summary)) touched'.0 ∙ fresh)
                        (ground (arith, below, ap length touched'.1, ap length touched.1))))))

    note_crossing-Grows :
        (index : ℕ) (side : OtherSide) (t : Search W)
        → Touched s t
        → Holds rule (Grown Counted keys s) (
            note_crossing g chain through depth state evidence summary side t
              (settle_side g chain through depth state evidence summary index))
    unfolding note_crossing set_nodes
    note_crossing-Grows index side t touched =
        choose-Holds rule (Grown Counted keys s) side.crosses _ _
          (λ crosses. write_to-Holds rule (Grown Counted keys s) s _ _ _ touched (λ u touched'.
            settle_side-Grows index _ _
              (touch_nodes s u _ touched' (native-set_protocol chain _ _ u.result.nodes))))
          (λ stays. settle_side-Grows index side t touched)

    cross_side-Grows :
        (index : ℕ) (side : OtherSide) (t : Search W)
        → Touched s t
        → Holds rule
            (Grown Counted keys s)
            (cross_side g chain through depth state evidence summary index side t)
    unfolding cross_side
    cross_side-Grows index side t touched =
        let P = Grown Counted keys s in
        annotate_router_call-Holds rule P s g chain side.identity summary.representative index t _
          touched
          (λ u touched'.
            append_verified_endpoints-Holds rule P s g chain state side.identity summary (depth + 1)
              _ u _ touched' (λ crosses v touched''. note_crossing-Grows index _ v touched''))

    identified-Grows :
        (identity : Option AddressIdentity) (metadata : Address) (t : Search W)
        (next : AddressIdentity → Address → Search W → Run W E (Search W))
        → Touched s t
        → ((i : AddressIdentity) (m : Address) (u : Search W)
            → Touched s u
            → Holds rule (Grown Counted keys s) (next i m u))
        → Holds rule
            (Grown Counted keys s)
            (identified g chain through depth state evidence summary identity metadata t next)
    unfolding identified
    identified-Grows (some identity) metadata t next touched holds =
        write_to-Holds rule (Grown Counted keys s) s _ _ _ touched
          (λ u touched'. holds _ _ u touched')
    identified-Grows none metadata t next touched holds =
        choose-Holds rule (Grown Counted keys s)
          (is_open_identity (address_identity metadata)
            && (g.has_inspector && not g.existing_data_only))
          _ _
          (λ asked.
            read_from-Holds rule (Grown Counted keys s) s _ _ _ touched (λ identity u touched'.
              write_to-Holds rule (Grown Counted keys s) s _ _ _ touched'
                (λ v touched''. holds _ _ v touched'')))
          (λ other. holds _ _ t touched)

    visit_other-Grows :
        (index : ℕ) (t : Search W)
        → Touched s t
        → Holds rule
            (Grown Counted keys s)
            (visit_other g chain through depth state evidence summary index t)
    unfolding visit_other
    visit_other-Grows index t touched =
        read_from-Holds rule (Grown Counted keys s) s _ _ _ touched (λ found u touched'.
          identified-Grows _ found.0 u _ touched'
            (λ identity metadata v touched''. cross_side-Grows index _ v touched''))

    follow_within-Grows :
        Holds rule
          (Grown Counted keys s)
          (follow_within g chain through depth state evidence summary s)
    unfolding follow_within follow_edge note_edge record_edge set_nodes set_data_status
    follow_within-Grows =
        let P = Grown Counted keys s in
        let here : Touched s s = (refl, refl, refl, (refl, refl)) in
        choose-Holds rule P
          (not (has_key (far_address g chain through depth state evidence summary) s.visited_nodes)
            && leb max_trace_nodes (length s.visited_nodes))
          _ _
          (λ full. Touched-Grown Counted keys s _ (
            touch_nodes s s _ here
              (native-set_node_terminal s.result.nodes state.address "node_limit")))
          (λ below.
            choose-Holds rule P
              (str_eq (far_address g chain through depth state evidence summary) zero_address) _ _
              (λ ends.
                Grown-trans Counted keys (Touched-Grown Counted keys s _ here)
                  (enter_zero-Grown Counted keys g chain through depth state evidence summary _))
              (λ goes_on. visit_other-Grows _ _ here))

  follow_amount-Grows :
      (summary : CounterpartySummary) (amount : Option ℤ) (s : Search W)
      → (Counted → In (candidate_key state.direction summary) keys)
      → (amount ≢ none → has_key (candidate_key state.direction summary) s.visited_states ≡ false)
      → Holds rule
          (Grown Counted keys s)
          (follow_amount g chain through depth state evidence summary amount s)
  unfolding follow_amount
  follow_amount-Grows summary none s known fresh =
      Touched-Grown Counted keys s s (refl, refl, refl, (refl, refl))
  follow_amount-Grows summary (some amount) s known fresh =
      let same = candidate_key-amount state.direction (int_string amount) summary in
      choose-Holds rule (Grown Counted keys s)
        (above_trace_threshold (record summary { total_amount = int_string amount })) _ _
        (λ above.
          follow_within-Grows (record summary { total_amount = int_string amount }) s
            (λ counted. subst (λ key. In key keys) (sym same) (known counted))
            (ap (λ key. has_key key s.visited_states) same ∙ fresh cc))
        (λ under. Touched-Grown Counted keys s s (refl, refl, refl, (refl, refl)))

  follow_offer-Grows :
      (offer : Option CounterpartySummary) (budget : Option ℤ) (s : Search W)
      → ((canonical : CounterpartySummary)
          → offer ≡ some canonical
          → Counted
          → In (candidate_key state.direction canonical) keys)
      → Holds rule (Grown Counted keys s) (
          follow_offer g chain through depth state evidence offer
            (offered_amount g chain through depth state evidence budget offer s)
            s)
  unfolding follow_offer offered_amount
  follow_offer-Grows none budget s known =
      Touched-Grown Counted keys s s (refl, refl, refl, (refl, refl))
  follow_offer-Grows (some summary) budget s known =
      follow_amount-Grows summary _ s (known summary refl) (λ met. unvisited _ _ met)

  unless_canceled-Grows :
      (error : Option E) (s : Search W) (run : Run W E (Search W))
      → Holds rule (Grown Counted keys s) run
      → Holds rule
          (Grown Counted keys s)
          (unless_canceled g chain through depth state evidence error s run)
  unfolding unless_canceled
  unless_canceled-Grows (some e) s run h = rule.free e
  unless_canceled-Grows none s run h = h

  expand_candidates-Grows :
      (summaries : List CounterpartySummary) (budget : Option ℤ) (s : Search W)
      → All (Known chain state.direction Counted keys) summaries
      → Holds rule
          (Grown Counted keys s)
          (expand_candidates g chain through depth state evidence summaries budget s)
  unfolding expand_candidates
  expand_candidates-Grows [] budget s known =
      Touched-Grown Counted keys s s (refl, refl, refl, (refl, refl))
  expand_candidates-Grows (summary ∷ summaries) budget s known =
      let offer = candidate chain state.direction summary in
      let amount = offered_amount g chain through depth state evidence budget offer s in
      unless_canceled-Grows (g.context_error s.repo) s _ (
        and_then-Grows rule Counted keys s _ _ (follow_offer-Grows offer budget s known.0)
          (λ t. expand_candidates-Grows summaries _ t known.1))

  pub expand-Grows :
      (candidates : List CounterpartySummary) (s : Search W)
      → All (Known chain state.direction Counted keys) candidates
      → Holds rule (Grown Counted keys s) (expand g chain through depth state evidence candidates s)
  unfolding expand stable_sort
  expand-Grows candidates s known = expand_candidates-Grows _ _ s (
      All-sort_onto (Known chain state.direction Counted keys) (candidate_before state.direction) []
        candidates tt known)
