-- ===== src/Syncer/CoverageTests.antt =====
-- The range arithmetic of internal/syncer/manager.go at fixed ranges.
use eth_fund_trace.Prelude.{◌≡◌, ◌<◌, true, false, ◌⊎◌, inl, arith}
use eth_fund_trace.Syncer.Coverage.{
  InRange, InSome, valid_coverage, coverage_intervals, coverage_contains, merge_coverage,
  coverage_intervals_complete, merge_coverage_sound, merge_coverage-coverage_contains,
  coverage_intervals_minimal, coverage_intervals_gap,
}

coverage_intervals_complete_example :
    InSome 12 (coverage_intervals 10 20 15 30)
    ⊎ ((valid_coverage 15 30 ≡ true) × InRange 12 (15, 30))
coverage_intervals_complete_example =
    coverage_intervals_complete 10 20 15 30 12 (omega arith, omega arith)

twelve_in_merged : InRange 12 (merge_coverage 10 20 15 30)
unfolding merge_coverage
twelve_in_merged = (omega arith, omega arith)

merge_coverage_sound_example :
    InSome 12 (coverage_intervals 10 20 15 30)
    ⊎ ((valid_coverage 15 30 ≡ true) × InRange 12 (15, 30))
merge_coverage_sound_example = merge_coverage_sound 10 20 15 30 12 twelve_in_merged

merge_coverage-coverage_contains_example :
    let r = merge_coverage 10 20 15 30 in coverage_contains r.0 r.1 10 20 ≡ true
merge_coverage-coverage_contains_example =
    merge_coverage-coverage_contains 10 20 15 30 (omega arith) (omega arith)

twelve_fetched : InSome 12 (coverage_intervals 10 20 15 30)
unfolding coverage_intervals
twelve_fetched = inl (omega arith, omega arith)

coverage_intervals_minimal_example :
    InRange 12 (10, 20) × ((valid_coverage 15 30 ≡ false) ⊎ (12 < 15) ⊎ (30 < 12))
coverage_intervals_minimal_example =
    coverage_intervals_minimal 10 20 15 30 12 (omega arith) (omega arith) twelve_fetched

coverage_intervals_gap_example :
    InSome 50 (coverage_intervals 10 20 100 200) × (merge_coverage 10 20 100 200 ≡ (10, 20))
coverage_intervals_gap_example =
    coverage_intervals_gap 10 20 100 200 50 (omega arith) (omega arith) (omega arith) (omega arith)
      (omega arith)
