-- ===== src/Tracer/Assets/Laws.antt =====
-- The minimum amounts of internal/tracer/amount.go.
use eth_fund_trace.Prelude.{ℕ, ◌≤◌, ◌≡◌, refl, true, Option, none, some, arith}
use eth_fund_trace.Prelude.Int.{pos}
use eth_fund_trace.Text.Decimal.{nat_string, set_string-nat_string}
use eth_fund_trace.Store.Transfer.{CounterpartySummary}
use eth_fund_trace.Tracer.Assets.{trace_minimum, reaches, above_trace_threshold}

abbrev pub with_total : ℕ → CounterpartySummary → CounterpartySummary
with_total n summary = record summary { total_amount = nat_string n }

reaches_more :
    (n m : ℕ) (o : Option ℕ) → n ≤ m → reaches (pos n) o ≡ true → reaches (pos m) o ≡ true
unfolding reaches
reaches_more n m none le h = h
reaches_more n m (some least) le h = ground arith

same_minimum :
    (n : ℕ) (summary : CounterpartySummary)
    → trace_minimum (with_total n summary) ≡ trace_minimum summary
unfolding trace_minimum
same_minimum n summary = refl

-- A summary whose amount passes the threshold passes it with each larger amount.
above_trace_threshold_monotone :
    (summary : CounterpartySummary) (n m : ℕ)
    → n ≤ m
    → above_trace_threshold (with_total n summary) ≡ true
    → above_trace_threshold (with_total m summary) ≡ true
unfolding above_trace_threshold
above_trace_threshold_monotone summary n m le h =
    let least = trace_minimum summary in
    ground (
      arith,
      set_string-nat_string n,
      set_string-nat_string m,
      reaches_more n m least le,
      same_minimum n summary,
      same_minimum m summary,
    )
