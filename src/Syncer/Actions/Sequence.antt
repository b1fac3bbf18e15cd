-- ===== src/Syncer/Actions/Sequence.antt =====
-- The records behind all intervals of an action, and behind all actions, in `syncAddress` of
-- internal/syncer/manager.go.
use mathlib.Core.Path.{subst}
use eth_fund_trace.Prelude.{
  All, ℕ, ◌<◌, ◌≡◌, false, ◌&&◌, List, [], ◌∷◌, ◌⊎◌, inl, inr, String, str_eq, ltb, leb,
  if◌then◌else◌,
}
use eth_fund_trace.Store.Transfer.{Transfer}
use eth_fund_trace.Syncer.State.{Target, Env, Sync}
use eth_fund_trace.Syncer.Coverage.{Range, InRange, action_count_at_limit}
use eth_fund_trace.Syncer.Persist.{stamp}
use eth_fund_trace.Syncer.Actions.{
  end_action, high_frequency_record_limit, Checkpoints, Loop, leave, truncate, sync_intervals,
  sync_action, sync_actions,
}
use eth_fund_trace.Syncer.Actions.Runs.{
  If, Runs, truncate_not_nil, choose-Runs, then_interval-Runs, then_action-Runs, end_action-Runs,
}
use eth_fund_trace.Syncer.Actions.Forward.{
  Served, Held, Good, sync_interval-Held, sync_interval-Good, sync_interval-Stored,
}

-- The block lies in one of the ranges, behind those that come before it.
abbrev pub InOrder : ℕ → List Range → Type 0
InOrder b [] = ⊥
InOrder b (interval ∷ intervals) = InRange b interval ⊎ ((interval.1 < b) × InOrder b intervals)

module _ {W : Type 0} {env : Env W} {Holds : Transfer → W → Type 0}
    {OnChain : String → Transfer → Type 0} (checkpoints : Checkpoints) {target : Target}
    (served : Served env Holds OnChain target) where
  module _ (v : Transfer) where
    sync_intervals-Held :
        (intervals : List Range) (l : Loop W)
        → If (Held Holds v) l
        → Runs (Held Holds v) (sync_intervals env checkpoints target intervals l)
    unfolding sync_intervals
    sync_intervals-Held [] l h = h
    sync_intervals-Held (interval ∷ intervals) l h =
        then_interval-Runs (Held Holds v) (Held Holds v) _ _
          (sync_interval-Held checkpoints served v interval l h) (sync_intervals-Held intervals)

    sync_intervals-Good :
        (read : String) (b : ℕ) (intervals : List Range) (l : Loop W)
        → str_eq target.action read ≡ false
        → If (Good Holds v checkpoints read b) l
        → Runs (Good Holds v checkpoints read b) (sync_intervals env checkpoints target intervals l)
    unfolding sync_intervals
    sync_intervals-Good read b [] l differs h = h
    sync_intervals-Good read b ((from, to) ∷ intervals) l differs h =
        let good = Good Holds v checkpoints read b in
        then_interval-Runs good good _ _
          (sync_interval-Good checkpoints served v read b from to l (λ same. cc) h)
          (λ l' h'. sync_intervals-Good read b intervals l' differs h')

  module _ (t : Transfer) (on_chain : OnChain target.action t) where
    sync_intervals-Stored :
        (intervals : List Range) (l : Loop W)
        → InOrder t.block_number intervals
        → If (Good Holds (stamp target t) checkpoints target.action t.block_number) l
        → Runs (Held Holds (stamp target t)) (sync_intervals env checkpoints target intervals l)
    unfolding sync_intervals
    sync_intervals-Stored [] l m h = absurd m
    sync_intervals-Stored ((from, to) ∷ intervals) l (inl here) h =
        let stored = Held Holds (stamp target t) in
        then_interval-Runs stored stored _ _
          (sync_interval-Stored checkpoints served t on_chain from to l here h)
          (sync_intervals-Held (stamp target t) intervals)
    sync_intervals-Stored ((from, to) ∷ intervals) l (inr (behind, m)) h =
        let v = stamp target t in
        let good = Good Holds v checkpoints target.action t.block_number in
        then_interval-Runs good (Held Holds v) _ _
          (sync_interval-Good checkpoints served v target.action t.block_number from to l
            (λ same. behind) h)
          (λ l' h'. sync_intervals-Stored intervals l' m h')

-- The guards of an action only truncate.
sync_action-Runs :
    {W : Type 0} (env : Env W) (checkpoints : Checkpoints) (P : Sync W → Type 0) (target : Target)
    (intervals : List Range) (l : Loop W)
    → Runs P (sync_intervals env checkpoints target intervals l)
    → Runs P (sync_action env checkpoints target intervals l)
unfolding sync_action
sync_action-Runs env checkpoints P target intervals l h =
    let stop = leave (truncate "high_frequency" l) in
    let rest = end_action (sync_intervals env checkpoints target intervals l) in
    let full = leb high_frequency_record_limit l.result.fetched in
    let counted =
      ltb 0 target.max_records
      && action_count_at_limit l.sync.action_record_counts target.max_records in
    choose-Runs P counted stop (if full then stop else rest)
      (λ reached. truncate_not_nil "high_frequency" l)
      (λ below.
        choose-Runs P full stop rest (λ reached. truncate_not_nil "high_frequency" l)
          (λ short. end_action-Runs P _ h))

-- The action is among those to come, and its intervals have the block.
abbrev pub Planned : Target → ℕ → List (Target × List Range) → Type 0
Planned target b [] = ⊥
Planned target b ((other, intervals) ∷ actions) =
    ((other ≡ target) × InOrder b intervals)
    ⊎ ((str_eq other.action target.action ≡ false) × Planned target b actions)

module _ {W : Type 0} (env : Env W) (Holds : Transfer → W → Type 0)
    (OnChain : String → Transfer → Type 0) (checkpoints : Checkpoints) where
  pub sync_actions-Held :
      (v : Transfer) (actions : List (Target × List Range)) (l : Loop W)
      → All (λ a. Served env Holds OnChain a.0) actions
      → If (Held Holds v) l
      → Runs (Held Holds v) (sync_actions env checkpoints actions l)
  unfolding sync_actions
  sync_actions-Held v [] l served h = h
  sync_actions-Held v ((target, intervals) ∷ actions) l (served, rest) h =
      then_action-Runs (Held Holds v) (Held Holds v) _ _
        (sync_action-Runs env checkpoints (Held Holds v) target intervals l
          (sync_intervals-Held checkpoints served v intervals l h))
        (λ l' h'. sync_actions-Held v actions l' rest h')

  module _ (t : Transfer) (target : Target) (on_chain : OnChain target.action t) where
    planned-Stored :
        (other : Target) (intervals : List Range) (l : Loop W)
        → other ≡ target
        → Served env Holds OnChain other
        → InOrder t.block_number intervals
        → If (Good Holds (stamp target t) checkpoints target.action t.block_number) l
        → Runs (Held Holds (stamp target t)) (sync_action env checkpoints other intervals l)
    planned-Stored other intervals l e served m h =
        subst
          (λ y.
            OnChain y.action t
            → If (Good Holds (stamp y t) checkpoints y.action t.block_number) l
            → Runs (Held Holds (stamp y t)) (sync_action env checkpoints other intervals l))
          e
          (λ there good.
            sync_action-Runs env checkpoints (Held Holds (stamp other t)) other intervals l
              (sync_intervals-Stored checkpoints served t there intervals l m good))
          on_chain h

    -- With nothing truncated, a record of a planned action in the planned intervals is stored,
    -- when at the beginning it was stored or not passed by a checkpoint.
    pub sync_actions-Stored :
        (actions : List (Target × List Range)) (l : Loop W)
        → All (λ a. Served env Holds OnChain a.0) actions
        → Planned target t.block_number actions
        → If (Good Holds (stamp target t) checkpoints target.action t.block_number) l
        → Runs (Held Holds (stamp target t)) (sync_actions env checkpoints actions l)
    unfolding sync_actions
    sync_actions-Stored [] l served m h = absurd m
    sync_actions-Stored ((other, intervals) ∷ actions) l (served, rest) (inl (e, m)) h =
        let stored = Held Holds (stamp target t) in
        then_action-Runs stored stored _ _ (planned-Stored other intervals l e served m h)
          (λ l' h'. sync_actions-Held (stamp target t) actions l' rest h')
    sync_actions-Stored ((other, intervals) ∷ actions) l (served, rest) (inr (differs, m)) h =
        let v = stamp target t in
        let good = Good Holds v checkpoints target.action t.block_number in
        then_action-Runs good (Held Holds v) _ _
          (sync_action-Runs env checkpoints good other intervals l (
            sync_intervals-Good checkpoints served v target.action t.block_number intervals l
              differs h))
          (λ l' h'. sync_actions-Stored actions l' rest m h')
