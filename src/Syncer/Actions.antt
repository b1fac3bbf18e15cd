-- ===== src/Syncer/Actions.antt =====
-- The loop over the three histories of `syncAddress` of internal/syncer/manager.go: which part of
-- each interval is fetched, what is counted, and where the loop breaks off.
pub mod Keeps
pub mod Ends
pub mod Runs
pub mod Forward
pub mod Sequence
use eth_fund_trace.Prelude.{
  ℕ, suc, ◌+◌, ◌-◌, Bool, true, false, ◌&&◌, ◌||◌, List, [], ◌∷◌, ◌++◌, Option, none, some, String,
  ltb, leb, if◌then◌else◌, min,
}
use eth_fund_trace.Prelude.Int.{ℤ, pos, negsuc}
use eth_fund_trace.Prelude.Dict.{Dict, lookup, insert}
use eth_fund_trace.Syncer.State.{Fault, Target, Env, Sync}
use eth_fund_trace.Syncer.Coverage.{Range, count_of, action_count_at_limit}
use eth_fund_trace.Syncer.FetchRange.{fetch_range}
use eth_fund_trace.Syncer.FetchRecent.{fetch_recent_range}

abbrev pub high_frequency_record_limit : ℕ
high_frequency_record_limit = 200000

pub record AddressResult : Type 0 where
  pub cached : Bool
  pub fetched : ℕ
  pub action_counts : Dict ℕ
  pub truncated_actions : List String

-- The map of checkpoints that the loop reads: the one that the progress reports write to (the
-- job's own address behind a failed job), or another one.
pub data Checkpoints : Type 0 where
  shared : Checkpoints
  own : Dict ℤ → Checkpoints

unfoldable pub read_checkpoint : {W : Type 0} → Checkpoints → String → Sync W → Option ℤ
read_checkpoint shared action s = lookup action s.progress.action_checkpoints
read_checkpoint (own checkpoints) action s = lookup action checkpoints

-- Oldest first, a range goes on behind the checkpoint.
unfoldable pub resume_start : Option ℤ → ℕ → ℕ
resume_start none start = start
resume_start (some (negsuc n)) start = start
resume_start (some (pos n)) start = if leb start n then n + 1 else start

-- Newest first, a range goes on at the checkpoint; `none` is a block before block 0.
unfoldable pub resume_end : Option ℤ → ℕ → Option ℕ
resume_end none end = some end
resume_end (some (negsuc n)) end = none
resume_end (some (pos n)) end = some (min end n)

pub record Loop (W : Type 0) : Type 0 where
  pub sync : Sync W
  pub result : AddressResult
  pub action_limit_reached : Bool

-- How a round of a loop ends: with the next one, with a break, or with an error.
pub data Next (W : Type 0) : Type 0 where
  again leave : Loop W → Next W
  fault : Fault → Loop W → Next W

unfoldable pub truncate : {W : Type 0} → String → Loop W → Loop W
truncate action l = record l {
  result = record l.result { truncated_actions = l.result.truncated_actions ++ action ∷ [] };
}

unfoldable pub reach_limit : {W : Type 0} → String → Loop W → Loop W
unfolding truncate
reach_limit action l = record (truncate action l) { action_limit_reached = true }

-- The records of a fetch are counted; at the limit of all records the result is truncated.
unfoldable pub count_fetched : {W : Type 0} → String → ℕ → Sync W → Loop W → Loop W
unfolding truncate count_of
count_fetched action count s l =
    let counted = record l {
      sync = s;
      result = record l.result {
        fetched = l.result.fetched + count;
        action_counts =
            insert action (count_of action l.result.action_counts + count) l.result.action_counts;
      };
    } in
    if leb high_frequency_record_limit (l.result.fetched + count)
    then truncate "high_frequency" counted
    else counted

unfoldable pub after_range : {W : Type 0} → String → Loop W → ℕ × Option Fault × Sync W → Next W
after_range action l (count, none, s) = again (count_fetched action count s l)
after_range action l (count, some e, s) = fault e (record l { sync = s })

unfoldable pub after_recent :
    {W : Type 0} → Target → Loop W → ℕ × Bool × Option Fault × Sync W → Next W
unfolding count_of
after_recent target l (count, truncated, none, s) =
    let counted = count_fetched target.action count s l in
    again (
      if truncated || leb target.max_records (count_of target.action s.action_record_counts)
      then reach_limit target.action counted
      else counted)
after_recent target l (count, truncated, some e, s) = fault e (record l { sync = s })

module _ {W : Type 0} (env : Env W) (checkpoints : Checkpoints) (target : Target) where
  -- Without a limit for each action: oldest first, behind the checkpoint.
  unfoldable pub forward_interval : Range → Loop W → Next W
  unfolding read_checkpoint
  forward_interval (from, to) l =
      let start = resume_start (read_checkpoint checkpoints target.action l.sync) from in
      let remaining = high_frequency_record_limit - l.result.fetched in
      if ltb to start
      then again l
      else after_range target.action l
          (fetch_range env target (suc (to - start)) remaining start to l.sync)

  unfoldable pub recent_below : ℕ → ℕ → Option ℕ → Loop W → Next W
  recent_below remaining from none l = again l
  recent_below remaining from (some end) l =
      if ltb end from
      then again l
      else after_recent target l
          (fetch_recent_range env target (suc (end - from)) remaining from end l.sync)

  -- With a limit for each action: newest first, from the checkpoint down.
  unfoldable pub recent_interval : Range → Loop W → Next W
  unfolding count_of read_checkpoint
  recent_interval (from, to) l =
      let have = count_of target.action l.sync.action_record_counts in
      if leb target.max_records have
      then leave (reach_limit target.action l)
      else recent_below (target.max_records - have) from
          (resume_end (read_checkpoint checkpoints target.action l.sync) to) l

  unfoldable pub sync_interval : Range → Loop W → Next W
  sync_interval interval l =
      if leb high_frequency_record_limit l.result.fetched
      then leave (truncate "high_frequency" l)
      else if ltb 0 target.max_records
      then recent_interval interval l
      else forward_interval interval l

-- A break leaves the intervals of this action only.
unfoldable pub then_interval : {W : Type 0} → Next W → (Loop W → Next W) → Next W
then_interval (again l) next = next l
then_interval (leave l) next = again l
then_interval (fault e l) next = fault e l

unfoldable pub end_action : {W : Type 0} → Next W → Next W
end_action (again l) = if l.action_limit_reached then leave l else again l
end_action (leave l) = leave l
end_action (fault e l) = fault e l

unfoldable pub then_action : {W : Type 0} → Next W → (Loop W → Next W) → Next W
then_action (again l) next = next l
then_action (leave l) next = leave l
then_action (fault e l) next = fault e l

module _ {W : Type 0} (env : Env W) (checkpoints : Checkpoints) where
  unfoldable pub sync_intervals : Target → List Range → Loop W → Next W
  sync_intervals target [] l = again l
  sync_intervals target (interval ∷ intervals) l =
      then_interval (sync_interval env checkpoints target interval l)
        (sync_intervals target intervals)

  unfoldable pub sync_action : Target → List Range → Loop W → Next W
  unfolding action_count_at_limit
  sync_action target intervals l =
      if ltb 0 target.max_records
        && action_count_at_limit l.sync.action_record_counts target.max_records
      then leave (truncate "high_frequency" l)
      else if leb high_frequency_record_limit l.result.fetched
      then leave (truncate "high_frequency" l)
      else end_action (sync_intervals target intervals l)

  -- The actions in their order, each with its intervals.
  unfoldable pub sync_actions : List (Target × List Range) → Loop W → Next W
  sync_actions [] l = again l
  sync_actions ((target, intervals) ∷ actions) l =
      then_action (sync_action target intervals l) (sync_actions actions)
