-- ===== src/Tracer/Search/Expand.antt =====
-- `expand` of internal/tracer/tracer.go: the transfers of one branch are followed, each to the node
-- on its other side.
use eth_fund_trace.Prelude.{
  ℕ, Bool, ◌&&◌, not, List, [], ◌∷◌, Option, none, some, String, str_eq, ltb, if◌then◌else◌,
}
use eth_fund_trace.Prelude.Int.{ℤ, pos, ◌-ℤ◌, ltb_ℤ}
use eth_fund_trace.Prelude.Dict.{Dict}
use eth_fund_trace.Text.Decimal.{set_string, int_string}
use eth_fund_trace.Store.Transfer.{CounterpartySummary}
use eth_fund_trace.Tracer.Types.{BranchState, ConversionEvidence}
use eth_fund_trace.Tracer.Assets.{
  supported_summary_asset, canonicalize_summary_asset, above_trace_threshold,
}
use eth_fund_trace.Tracer.Branch.{failed, cut_to}
use eth_fund_trace.Tracer.Money.{stable_sort}
use eth_fund_trace.Tracer.Search.{TraceGraph, Search, Run, goes, stops, has_key, and_then}
use eth_fund_trace.Tracer.Search.Side.{other_address, candidate_key}
use eth_fund_trace.Tracer.Search.Visit.{follow_within}

-- The first transfer in the direction of the branch comes first.
unfoldable pub candidate_before : String → CounterpartySummary → CounterpartySummary → Bool
candidate_before direction a b =
    let block_a = a.representative.block_number in
    let block_b = b.representative.block_number in
    if str_eq direction "out" then ltb block_a block_b else ltb block_b block_a

-- A summary of a supported asset, above the threshold and with another side.
unfoldable pub candidate : String → String → CounterpartySummary → Option CounterpartySummary
candidate chain direction summary =
    let canonical = canonicalize_summary_asset chain summary in
    if supported_summary_asset summary
      && (above_trace_threshold canonical && not (str_eq (other_address direction canonical) ""))
    then some canonical
    else none

-- The amount that is followed, which the budget of the branch bounds, if there is one.
unfoldable pub amount_within : Option ℤ → Option ℤ → Option ℤ
amount_within none none = none
amount_within none (some amount) = if ltb_ℤ (pos 0) amount then some amount else none
amount_within (some budget) amount = cut_to budget amount

unfoldable pub spend_budget : ℤ → Option ℤ → Option ℤ
spend_budget amount none = none
spend_budget amount (some budget) = some (budget -ℤ amount)

unfoldable pub budget_of : BranchState → Option ℤ
budget_of state = if str_eq state.amount "" then none else set_string state.amount

module _ {W E : Type 0} (g : TraceGraph W E) (chain : String) (through depth : ℕ)
    (state : BranchState) (evidence : Dict (List ConversionEvidence)) where
  unfoldable pub follow_amount : CounterpartySummary → Option ℤ → Search W → Run W E (Search W)
  follow_amount summary none s = goes s
  follow_amount summary (some amount) s =
      let spent = record summary { total_amount = int_string amount } in
      if above_trace_threshold spent
      then follow_within g chain through depth state evidence spent s
      else goes s

  unfoldable pub budget_behind : Option ℤ → Option ℤ → Option ℤ
  budget_behind none budget = budget
  budget_behind (some amount) budget = spend_budget amount budget

  -- What is followed of a summary: nothing, if it leads to a branch that was visited.
  unfoldable pub offered_amount : Option ℤ → Option CounterpartySummary → Search W → Option ℤ
  offered_amount budget none s = none
  offered_amount budget (some summary) s =
      if has_key (candidate_key state.direction summary) s.visited_states
      then none
      else amount_within budget (set_string summary.total_amount)

  unfoldable pub follow_offer :
      Option CounterpartySummary → Option ℤ → Search W → Run W E (Search W)
  follow_offer none amount s = goes s
  follow_offer (some summary) amount s = follow_amount summary amount s

  unfoldable pub unless_canceled : Option E → Search W → Run W E (Search W) → Run W E (Search W)
  unless_canceled (some e) s run = stops (failed e) s.repo
  unless_canceled none s run = run

  unfoldable pub expand_candidates :
      List CounterpartySummary → Option ℤ → Search W → Run W E (Search W)
  expand_candidates [] budget s = goes s
  expand_candidates (summary ∷ summaries) budget s =
      let offer = candidate chain state.direction summary in
      let amount = offered_amount budget offer s in
      unless_canceled (g.context_error s.repo) s (
        and_then (follow_offer offer amount s)
          (expand_candidates summaries (budget_behind amount budget)))

  unfoldable pub expand : List CounterpartySummary → Search W → Run W E (Search W)
  expand candidates s =
      expand_candidates (stable_sort (candidate_before state.direction) candidates)
        (budget_of state) s
