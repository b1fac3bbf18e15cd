-- ===== src/Syncer/Coverage.antt =====
-- Block ranges: `coverageIntervals`, `coverageContains`, `mergeCoverage`, `validCoverage` and
-- `actionCountAtLimit` of internal/syncer/manager.go. A range is its first and last block.
use eth_fund_trace.Prelude.{
  ℕ, ◌+◌, ◌-◌, ◌≤◌, ◌<◌, ◌≡◌, Bool, true, false, ◌&&◌, ◌||◌, not, List, [], ◌∷◌, ◌++◌, none, some,
  String, ltb, leb, ◌==◌, if◌then◌else◌, min, max, ◌⊎◌, inl, inr, arith,
}
use eth_fund_trace.Prelude.Dict.{Dict, lookup}

abbrev pub Range : Type 0
Range = ℕ × ℕ

unfoldable pub valid_coverage : ℕ → ℕ → Bool
valid_coverage from to = leb from to && (not (from == 0) || not (to == 0))

-- What has to be fetched for the wanted range, given the range that is there.
unfoldable pub coverage_intervals : ℕ → ℕ → ℕ → ℕ → List Range
unfolding valid_coverage
coverage_intervals want_from want_to have_from have_to =
    if not (valid_coverage have_from have_to)
    then (want_from, want_to) ∷ []
    else (if ltb want_from have_from then (want_from, have_from - 1) ∷ [] else [])
      ++ (if ltb have_to want_to then (max want_from (have_to + 1), want_to) ∷ [] else [])

unfoldable pub coverage_contains : ℕ → ℕ → ℕ → ℕ → Bool
unfolding valid_coverage
coverage_contains have_from have_to want_from want_to =
    valid_coverage have_from have_to && (leb have_from want_from && leb want_to have_to)

-- A missing count of a Go map reads as 0.
unfoldable pub count_of : String → Dict ℕ → ℕ
count_of name counts = elim (lookup name counts) [ none ↦ 0 | some n ↦ n ]

unfoldable pub action_count_at_limit : Dict ℕ → ℕ → Bool
unfolding count_of
action_count_at_limit counts limit =
    ltb 0 limit
    && (leb limit (count_of "txlist" counts)
        || (leb limit (count_of "txlistinternal" counts) || leb limit (count_of "tokentx" counts)))

-- The range that is recorded behind a synchronisation of the wanted one.
unfoldable pub merge_coverage : ℕ → ℕ → ℕ → ℕ → Range
unfolding valid_coverage
merge_coverage want_from want_to have_from have_to =
    if not (valid_coverage have_from have_to)
      || (ltb (want_to + 1) have_from || ltb (have_to + 1) want_from)
    then (want_from, want_to)
    else (min want_from have_from, max want_to have_to)

abbrev pub InRange : ℕ → Range → Type 0
InRange b r = (r.0 ≤ b) × (b ≤ r.1)

abbrev pub InSome : ℕ → List Range → Type 0
InSome b [] = ⊥
InSome b (r ∷ rs) = InRange b r ⊎ InSome b rs

-- Nothing that is wanted is missed: each block of the wanted range is in a fetched interval, or
-- in the range that is there.
pub coverage_intervals_complete :
    (want_from want_to have_from have_to b : ℕ)
    → InRange b (want_from, want_to)
    → InSome b (coverage_intervals want_from want_to have_from have_to)
      ⊎ ((valid_coverage have_from have_to ≡ true) × InRange b (have_from, have_to))
unfolding coverage_intervals
coverage_intervals_complete want_from want_to have_from have_to b h = grind arith

merge_coverage_within :
    (want_from want_to have_from have_to b : ℕ)
    → InRange b (merge_coverage want_from want_to have_from have_to)
    → InRange b (want_from, want_to)
      ⊎ ((valid_coverage have_from have_to ≡ true) × InRange b (have_from, have_to))
unfolding merge_coverage
merge_coverage_within want_from want_to have_from have_to b h = grind arith

-- What is recorded is there: each block of the merged range lies in a fetched interval, or in
-- the valid range that was there.
pub merge_coverage_sound :
    (want_from want_to have_from have_to b : ℕ)
    → InRange b (merge_coverage want_from want_to have_from have_to)
    → InSome b (coverage_intervals want_from want_to have_from have_to)
      ⊎ ((valid_coverage have_from have_to ≡ true) × InRange b (have_from, have_to))
merge_coverage_sound want_from want_to have_from have_to b h =
    elim (merge_coverage_within want_from want_to have_from have_to b h) [
      | inl wanted ↦ coverage_intervals_complete want_from want_to have_from have_to b wanted
      | inr kept ↦ inr kept
    ]

-- The range that is recorded behind a synchronisation of a range of blocks, which is not that of
-- block 0 alone, is valid and contains it, so the same request is served from it.
pub merge_coverage-coverage_contains :
    (want_from want_to have_from have_to : ℕ)
    → want_from ≤ want_to
    → 0 < want_to
    → let r = merge_coverage want_from want_to have_from have_to in
      coverage_contains r.0 r.1 want_from want_to ≡ true
unfolding coverage_contains merge_coverage
merge_coverage-coverage_contains want_from want_to have_from have_to w p = ground arith

-- Nothing is fetched twice, nor outside the wanted range, unless the range that is there begins
-- behind the block after the wanted one.
pub coverage_intervals_minimal :
    (want_from want_to have_from have_to b : ℕ)
    → want_from ≤ want_to
    → have_from ≤ want_to + 1
    → InSome b (coverage_intervals want_from want_to have_from have_to)
    → InRange b (want_from, want_to)
      × ((valid_coverage have_from have_to ≡ false) ⊎ (b < have_from) ⊎ (have_to < b))
unfolding coverage_intervals
coverage_intervals_minimal want_from want_to have_from have_to b w near h = grind arith

-- When the range that is there begins further up, the gap between the two is fetched as well:
-- every block between them is in the intervals, though it is not wanted, and the merged range is
-- the wanted one, so the gap is not recorded.
pub coverage_intervals_gap :
    (want_from want_to have_from have_to b : ℕ)
    → want_from ≤ want_to
    → want_to + 1 < have_from
    → have_from ≤ have_to
    → want_to < b
    → b < have_from
    → InSome b (coverage_intervals want_from want_to have_from have_to)
      × (merge_coverage want_from want_to have_from have_to ≡ (want_from, want_to))
unfolding coverage_intervals merge_coverage
coverage_intervals_gap want_from want_to have_from have_to b w gap v lo hi = grind arith
