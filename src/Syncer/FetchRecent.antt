-- ===== src/Syncer/FetchRecent.antt =====
-- `fetchRecentRange` of internal/syncer/manager.go: the newest records of a block range, up to a
-- limit, going down at each page limit.
pub mod Laws
pub mod Keeps
pub mod Complete
use eth_fund_trace.Prelude.{
  ℕ, zero, suc, ◌+◌, ◌-◌, Bool, true, false, ◌||◌, List, [], ◌∷◌, Option, none, some, ltb, leb,
  ◌==◌, if◌then◌else◌, length, take, keep,
}
use eth_fund_trace.Prelude.Int.{pos, sub_ℕ}
use eth_fund_trace.Store.Transfer.{Transfer}
use eth_fund_trace.Store.Job.{SyncProgress}
use eth_fund_trace.Syncer.State.{
  SyncError, Fault, Response, Target, Env, Sync, report, fetch, set_checkpoint, count_split,
}
use eth_fund_trace.Syncer.Persist.{persist_transfers}

-- Count, whether records were left out, error, state.
abbrev pub Outcome : Type 0 → Type 0
Outcome W = ℕ × Bool × Option Fault × Sync W

-- `transfers[:limit]`, where there are more.
unfoldable pub newest : ℕ → List Transfer → List Transfer
newest limit ts = if ltb limit (length ts) then take limit ts else ts

unfoldable pub pass_boundary : Target → ℕ → SyncProgress → SyncProgress
unfolding set_checkpoint count_split
pass_boundary target boundary p = count_split (set_checkpoint target.action (pos boundary) p)

module _ {W : Type 0} (env : Env W) (target : Target) where
  -- `persistTransfers` with the mark that records were left out.
  unfoldable pub write_truncated : List Transfer → Sync W → Outcome W
  write_truncated ts s =
      let (written, error, s1) = persist_transfers env target ts s in (written, true, error, s1)

  unfoldable pub finish_recent : ℕ → ℕ → List Transfer → Sync W → Outcome W
  finish_recent limit start ts s =
      let (written, error, s1) = persist_transfers env target (newest limit ts) s in
      elim error [
        | none ↦ (
          written,
          ltb limit (length ts),
          none,
          report env (set_checkpoint target.action (sub_ℕ start 1)) s1,
        )
        | some e ↦ (written, ltb limit (length ts), some e, s1)
      ]

  -- A page limit strictly inside the range: the complete blocks are written, then the rest below.
  unfoldable pub descend :
      (ℕ → ℕ → ℕ → Sync W → Outcome W) → ℕ → ℕ → ℕ → List Transfer → Sync W → Outcome W
  descend again limit start boundary ts s =
      let complete = keep (λ t. ltb boundary t.block_number) ts in
      let (written, error, s1) = persist_transfers env target complete s in
      elim (leb limit (length complete)) [
        | true ↦ write_truncated (take limit complete) s
        | false ↦ elim error [
          | some e ↦ (0, false, some e, s1)
          | none ↦
              let (rest, truncated, rest_error, s2) =
                again (limit - length complete) start boundary
                  (report env (pass_boundary target boundary) s1) in
              (written + rest, truncated, rest_error, s2)
        ]
      ]

  unfoldable pub answer_recent :
      (ℕ → ℕ → ℕ → Sync W → Outcome W) → ℕ → ℕ → ℕ → Response → Sync W → Outcome W
  answer_recent again limit start end (Response.record_limit ts) s = write_truncated ts s
  answer_recent again limit start end (Response.failed e) s = (0, false, some (Fault.failed e), s)
  answer_recent again limit start end (Response.complete ts) s = finish_recent limit start ts s
  answer_recent again limit start end (Response.page_limit ts none) s =
      (0, false, some (Fault.failed SyncError.bare_page_limit), s)
  answer_recent again limit start end (Response.page_limit ts (some boundary)) s =
      elim (leb boundary start || leb end boundary) [
        | true ↦ write_truncated (newest limit ts) s
        | false ↦ descend again limit start boundary ts s
      ]

  unfoldable pub fetch_recent_step :
      (ℕ → ℕ → ℕ → Sync W → Outcome W) → ℕ → ℕ → ℕ → Sync W → Outcome W
  fetch_recent_step again limit start end s =
      let (response, s1) = fetch env target limit start end s in
      elim (limit == 0 || ltb end start) [
        | true ↦ (0, false, none, s)
        | false ↦ answer_recent again limit start end response s1
      ]

  unfoldable pub fetch_recent_range : ℕ → ℕ → ℕ → ℕ → Sync W → Outcome W
  fetch_recent_range zero limit start end s = (0, false, some Fault.unfinished, s)
  fetch_recent_range (suc f) limit start end s =
      fetch_recent_step (fetch_recent_range f) limit start end s
