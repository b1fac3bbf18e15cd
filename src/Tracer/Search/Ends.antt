-- ===== src/Tracer/Search/Ends.antt =====
-- The search of `traceSameChain` in internal/tracer/tracer.go from its first round to its result:
-- it ends, it enters no branch twice, and it keeps the limit of its nodes.
use eth_fund_trace.Prelude.{
  ℕ, zero, suc, ◌+◌, ◌<◌, ◌≡◌, refl, Bool, true, false, List, String, if◌then◌else◌, length, arith,
}
use eth_fund_trace.Tracer.Types.{BranchState}
use eth_fund_trace.Tracer.Search.{TraceGraph, Search, Run, goes, stops}
use eth_fund_trace.Tracer.Search.Rounds.{
  Walk, walked, halted, start_round, is_open_frontier, after_round, walk,
}
use eth_fund_trace.Tracer.Search.Calls.{Rule, Holds}
use eth_fund_trace.Tracer.Search.Following.{Wants}
use eth_fund_trace.Tracer.Search.Grown.{Bounded, EntersOnce, open_keys, Grown}
use eth_fund_trace.Tracer.Search.Walking.{FiniteBranches, round-Grows}

-- The invariant of the search.
pub record Sound {W : Type 0} (s : Search W) : Type 0 where
  pub bounded : Bounded s
  pub once : EntersOnce s

module _ {W E : Type 0} (rule : Rule E) (g : TraceGraph W E) (chain : String) (through : ℕ)
    (Counted : Type 0) (keys : List String) (wants : Wants rule g chain through)
    (finite : FiniteBranches g chain Counted keys) where
  -- With the branches counted, the walk does not run out of fuel.
  abbrev pub Ended : Walk W E → Type 0
  Ended (walked frontier s) = Sound s
  Ended (halted reason w) = rule.allowed reason
  Ended Walk.out_of_fuel = Counted → ⊥

  choose-Ended :
      (c : Bool) (x y : Walk W E)
      → (c ≡ true → Ended x)
      → (c ≡ false → Ended y)
      → Ended (if c then x else y)
  choose-Ended true x y yes_case no_case = yes_case refl
  choose-Ended false x y yes_case no_case = no_case refl

  after_round-Ended :
      (next : List BranchState → Search W → Walk W E) (x : Run W E (Search W))
      (P : Search W → Type 0)
      → Holds rule P x
      → ((t : Search W) → P t → Ended (next t.next t))
      → Ended (after_round g chain through next x)
  unfolding after_round
  after_round-Ended next (goes t) P h k = k t h
  after_round-Ended next (stops reason w) P h k = h

  pub walk-Ended :
      (fuel depth : ℕ) (frontier : List BranchState) (s : Search W)
      → Sound s
      → (Counted → length frontier + open_keys keys s < fuel)
      → Ended (walk g chain through fuel depth frontier s)
  unfolding walk start_round is_open_frontier
  walk-Ended zero depth frontier s sound enough = λ c. absurd (omega (arith, enough c))
  walk-Ended (suc fuel) depth frontier s sound enough =
      choose-Ended (is_open_frontier g chain through frontier s) _ _
        (λ opened.
          after_round-Ended _ _ (Grown Counted keys (start_round g chain through s))
            (round-Grows rule g chain through Counted keys wants finite depth frontier s)
            (λ t grown.
              walk-Ended fuel (depth + 1) t.next t
                (record { bounded = grown.limit sound.bounded; once = grown.once sound.once })
                (λ c. ground (arith, opened, enough c, grown.progress c))))
        (λ closed. sound)
