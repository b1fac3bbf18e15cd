-- ===== src/Syncer/Actions/Keeps.antt =====
-- What the loop over the histories of `syncAddress` of internal/syncer/manager.go does not undo,
-- however it ends.
use eth_fund_trace.Prelude.{
  ℕ, suc, ◌-◌, Bool, List, [], ◌∷◌, Option, none, some, String, All, arith,
}
use eth_fund_trace.Syncer.State.{Fault, Target, Env, Sync}
use eth_fund_trace.Syncer.Coverage.{Range, count_of}
use eth_fund_trace.Syncer.FetchRange.{fetch_range}
use eth_fund_trace.Syncer.FetchRange.Laws.{fetch_range-Keeps}
use eth_fund_trace.Syncer.FetchRecent.{fetch_recent_range}
use eth_fund_trace.Syncer.FetchRecent.Keeps.{fetch_recent_range-Keeps}
use eth_fund_trace.Syncer.Contract.{Keeps}
use eth_fund_trace.Syncer.Actions.{
  Checkpoints, Loop, Next, again, leave, fault, truncate, reach_limit, count_fetched, after_range,
  after_recent, forward_interval, recent_below, recent_interval, sync_interval, then_interval,
  then_action, end_action, sync_intervals, sync_action, sync_actions, read_checkpoint, resume_start,
  resume_end, high_frequency_record_limit,
}

-- The state in which a round ends.
unfoldable pub loop_of : {W : Type 0} → Next W → Loop W
loop_of (again l) = l
loop_of (leave l) = l
loop_of (fault e l) = l

module _ {W : Type 0} (P : W → Type 0) where
  abbrev pub Keep : Next W → Type 0
  Keep n = P (loop_of n).sync.repo

  after_range-Keep :
      (action : String) (l : Loop W) (o : ℕ × Option Fault × Sync W)
      → P o.2.repo
      → Keep (after_range action l o)
  unfolding after_range loop_of count_fetched truncate
  after_range-Keep action l (count, none, s) h = ground arith
  after_range-Keep action l (count, some e, s) h = h

  after_recent-Keep :
      (target : Target) (l : Loop W) (o : ℕ × Bool × Option Fault × Sync W)
      → P o.3.repo
      → Keep (after_recent target l o)
  unfolding after_recent loop_of count_fetched truncate reach_limit
  after_recent-Keep target l (count, cut, none, s) h = ground arith
  after_recent-Keep target l (count, cut, some e, s) h = h

  then_interval-Keep :
      (n : Next W) (next : Loop W → Next W)
      → Keep n
      → ((l : Loop W) → P l.sync.repo → Keep (next l))
      → Keep (then_interval n next)
  unfolding then_interval loop_of
  then_interval-Keep (again l) next h step = step l h
  then_interval-Keep (leave l) next h step = h
  then_interval-Keep (fault e l) next h step = h

  then_action-Keep :
      (n : Next W) (next : Loop W → Next W)
      → Keep n
      → ((l : Loop W) → P l.sync.repo → Keep (next l))
      → Keep (then_action n next)
  unfolding then_action loop_of
  then_action-Keep (again l) next h step = step l h
  then_action-Keep (leave l) next h step = h
  then_action-Keep (fault e l) next h step = h

  end_action-Keep : (n : Next W) → Keep n → Keep (end_action n)
  unfolding end_action loop_of
  end_action-Keep (again l) h = ground arith
  end_action-Keep (leave l) h = h
  end_action-Keep (fault e l) h = h

module _ {W : Type 0} (env : Env W) (checkpoints : Checkpoints) (P : W → Type 0) where
  module _ (target : Target) (keeps : Keeps env target P) where
    forward_interval-Keep :
        (from to : ℕ) (l : Loop W)
        → P l.sync.repo
        → Keep P (forward_interval env checkpoints target (from, to) l)
    unfolding forward_interval loop_of
    forward_interval-Keep from to l h =
        let start = resume_start (read_checkpoint checkpoints target.action l.sync) from in
        let remaining = high_frequency_record_limit - l.result.fetched in
        let o = fetch_range env target (suc (to - start)) remaining start to l.sync in
        let fetched =
          after_range-Keep P target.action l o
            (fetch_range-Keeps keeps (suc (to - start)) remaining start to l.sync h) in
        ground (arith, h, fetched)

    recent_below-Keep :
        (remaining from : ℕ) (end : Option ℕ) (l : Loop W)
        → P l.sync.repo
        → Keep P (recent_below env checkpoints target remaining from end l)
    unfolding recent_below loop_of
    recent_below-Keep remaining from none l h = h
    recent_below-Keep remaining from (some end) l h =
        let o = fetch_recent_range env target (suc (end - from)) remaining from end l.sync in
        let fetched =
          after_recent-Keep P target l o
            (fetch_recent_range-Keeps keeps (suc (end - from)) remaining from end l.sync h) in
        ground (arith, h, fetched)

    sync_interval-Keep :
        (interval : Range) (l : Loop W)
        → P l.sync.repo
        → Keep P (sync_interval env checkpoints target interval l)
    unfolding sync_interval recent_interval truncate reach_limit loop_of
    sync_interval-Keep (from, to) l h =
        let remaining = target.max_records - count_of target.action l.sync.action_record_counts in
        let end = resume_end (read_checkpoint checkpoints target.action l.sync) to in
        ground
          (arith, h, forward_interval-Keep from to l h, recent_below-Keep remaining from end l h)

    sync_intervals-Keep :
        (intervals : List Range) (l : Loop W)
        → P l.sync.repo
        → Keep P (sync_intervals env checkpoints target intervals l)
    unfolding sync_intervals loop_of
    sync_intervals-Keep [] l h = h
    sync_intervals-Keep (interval ∷ intervals) l h =
        then_interval-Keep P (sync_interval env checkpoints target interval l)
          (sync_intervals env checkpoints target intervals) (sync_interval-Keep interval l h)
          (sync_intervals-Keep intervals)

    sync_action-Keep :
        (intervals : List Range) (l : Loop W)
        → P l.sync.repo
        → Keep P (sync_action env checkpoints target intervals l)
    unfolding sync_action truncate loop_of
    sync_action-Keep intervals l h =
        let n = sync_intervals env checkpoints target intervals l in
        ground (arith, h, end_action-Keep P n (sync_intervals-Keep intervals l h))

  pub sync_actions-Keep :
      (actions : List (Target × List Range)) (l : Loop W)
      → All (λ a. Keeps env a.0 P) actions
      → P l.sync.repo
      → Keep P (sync_actions env checkpoints actions l)
  unfolding sync_actions loop_of
  sync_actions-Keep [] l keeps h = h
  sync_actions-Keep ((target, intervals) ∷ actions) l (first, rest) h =
      then_action-Keep P (sync_action env checkpoints target intervals l)
        (sync_actions env checkpoints actions) (sync_action-Keep target first intervals l h)
        (λ l' h'. sync_actions-Keep actions l' rest h')
