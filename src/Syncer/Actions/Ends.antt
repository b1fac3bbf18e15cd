-- ===== src/Syncer/Actions/Ends.antt =====
-- The fuel of the loops of `syncAddress` of internal/syncer/manager.go is enough.
use eth_fund_trace.Prelude.{
  ℕ, suc, ◌-◌, ◌<◌, ◌≡◌, ◌≢◌, refl, Bool, true, false, List, [], ◌∷◌, Option, none, some, String,
  ltb, leb, if◌then◌else◌, ltb_false→le, All, arith,
}
use eth_fund_trace.Store.Transfer.{Transfer}
use eth_fund_trace.Syncer.State.{Fault, Target, Env, Sync}
use eth_fund_trace.Syncer.Coverage.{Range, count_of}
use eth_fund_trace.Syncer.FetchRange.Ends.{fetch_range-Ended}
use eth_fund_trace.Syncer.FetchRecent.Keeps.{fetch_recent_range-Ended}
use eth_fund_trace.Syncer.Contract.{Ascending}
use eth_fund_trace.Syncer.Actions.{
  high_frequency_record_limit, Checkpoints, Loop, Next, again, leave, fault, truncate,
  read_checkpoint, resume_start, after_range, after_recent, forward_interval, recent_below,
  recent_interval, sync_interval, then_interval, then_action, end_action, sync_intervals,
  sync_action, sync_actions,
}

-- A round ends by itself.
abbrev pub Ends : {W : Type 0} → Next W → Type 0
Ends (again l) = Unit {0}
Ends (leave l) = Unit {0}
Ends (fault e l) = some e ≢ some Fault.unfinished

module _ {W : Type 0} where
  choose-Ends :
      (c : Bool) (x y : Next W)
      → (c ≡ true → Ends x)
      → (c ≡ false → Ends y)
      → Ends (if c then x else y)
  choose-Ends true x y yes_case no_case = yes_case refl
  choose-Ends false x y yes_case no_case = no_case refl

  after_range-Ends :
      (action : String) (l : Loop W) (o : ℕ × Option Fault × Sync W)
      → o.1 ≢ some Fault.unfinished
      → Ends (after_range action l o)
  unfolding after_range
  after_range-Ends action l (count, none, s) h = tt
  after_range-Ends action l (count, some e, s) h = h

  after_recent-Ends :
      (target : Target) (l : Loop W) (o : ℕ × Bool × Option Fault × Sync W)
      → o.2 ≢ some Fault.unfinished
      → Ends (after_recent target l o)
  unfolding after_recent
  after_recent-Ends target l (count, cut, none, s) h = tt
  after_recent-Ends target l (count, cut, some e, s) h = h

  then_interval-Ends :
      (n : Next W) (next : Loop W → Next W)
      → Ends n
      → ((l : Loop W) → Ends (next l))
      → Ends (then_interval n next)
  unfolding then_interval
  then_interval-Ends (again l) next h step = step l
  then_interval-Ends (leave l) next h step = tt
  then_interval-Ends (fault e l) next h step = h

  then_action-Ends :
      (n : Next W) (next : Loop W → Next W)
      → Ends n
      → ((l : Loop W) → Ends (next l))
      → Ends (then_action n next)
  unfolding then_action
  then_action-Ends (again l) next h step = step l
  then_action-Ends (leave l) next h step = tt
  then_action-Ends (fault e l) next h step = h

  end_action-Ends : (n : Next W) → Ends n → Ends (end_action n)
  unfolding end_action
  end_action-Ends (again l) h = choose-Ends l.action_limit_reached _ _ (λ e. tt) (λ e. tt)
  end_action-Ends (leave l) h = tt
  end_action-Ends (fault e l) h = h

-- A client that lists oldest first, whatever the record limit.
abbrev pub Listed : {W : Type 0} → Env W → (String → Transfer → Type 0) → Target → Type 0
Listed env OnChain target =
    (limit : ℕ) → 0 < limit → Ascending env target (OnChain target.action) limit

module _ {W : Type 0} (env : Env W) (checkpoints : Checkpoints)
    (OnChain : String → Transfer → Type 0) where
  module _ (target : Target) (listed : Listed env OnChain target) where
    forward_interval-Ends :
        (from to : ℕ) (l : Loop W)
        → leb high_frequency_record_limit l.result.fetched ≡ false
        → Ends (forward_interval env checkpoints target (from, to) l)
    unfolding forward_interval
    forward_interval-Ends from to l short =
        let start = resume_start (read_checkpoint checkpoints target.action l.sync) from in
        choose-Ends (ltb to start) _ _ (λ past. tt)
          (λ left. after_range-Ends target.action l _ (
            fetch_range-Ended (listed _ (ground arith)) (suc (to - start)) start to l.sync
              (ltb_false→le to start left) (omega arith)))

    recent_below-Ends :
        (remaining from : ℕ) (end : Option ℕ) (l : Loop W)
        → Ends (recent_below env checkpoints target remaining from end l)
    unfolding recent_below
    recent_below-Ends remaining from none l = tt
    recent_below-Ends remaining from (some end) l =
        choose-Ends (ltb end from) _ _ (λ past. tt)
          (λ left. after_recent-Ends target l _ (
            fetch_recent_range-Ended env target (suc (end - from)) remaining from end l.sync
              (omega arith)))

    sync_interval-Ends :
        (interval : Range) (l : Loop W) → Ends (sync_interval env checkpoints target interval l)
    unfolding sync_interval recent_interval
    sync_interval-Ends (from, to) l =
        choose-Ends (leb high_frequency_record_limit l.result.fetched) _ _ (λ full. tt)
          (λ short.
            choose-Ends (ltb 0 target.max_records) _ _
              (λ limited.
                choose-Ends
                  (leb target.max_records (count_of target.action l.sync.action_record_counts)) _ _
                  (λ met. tt) (λ room. recent_below-Ends _ from _ l))
              (λ free. forward_interval-Ends from to l short))

    sync_intervals-Ends :
        (intervals : List Range) (l : Loop W)
        → Ends (sync_intervals env checkpoints target intervals l)
    unfolding sync_intervals
    sync_intervals-Ends [] l = tt
    sync_intervals-Ends (interval ∷ intervals) l =
        then_interval-Ends _ _ (sync_interval-Ends interval l) (sync_intervals-Ends intervals)

    sync_action-Ends :
        (intervals : List Range) (l : Loop W)
        → Ends (sync_action env checkpoints target intervals l)
    unfolding sync_action
    sync_action-Ends intervals l =
        let stop = leave (truncate "high_frequency" l) in
        let rest = end_action (sync_intervals env checkpoints target intervals l) in
        let full = leb high_frequency_record_limit l.result.fetched in
        choose-Ends _ stop (if full then stop else rest) (λ counted. tt)
          (λ below.
            choose-Ends full stop rest (λ reached. tt)
              (λ short. end_action-Ends _ (sync_intervals-Ends intervals l)))

  pub sync_actions-Ends :
      (actions : List (Target × List Range)) (l : Loop W)
      → All (λ a. Listed env OnChain a.0) actions
      → Ends (sync_actions env checkpoints actions l)
  unfolding sync_actions
  sync_actions-Ends [] l listed = tt
  sync_actions-Ends ((target, intervals) ∷ actions) l (first, rest) =
      then_action-Ends _ _ (sync_action-Ends target first intervals l)
        (λ l'. sync_actions-Ends actions l' rest)
