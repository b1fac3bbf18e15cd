-- ===== src/Syncer/FetchRecent/Keeps.antt =====
-- `fetchRecentRange` of internal/syncer/manager.go, the records that were stored before, and its
-- fuel.
use eth_fund_trace.Prelude.{
  ℕ, zero, suc, ◌-◌, ◌≤◌, ◌<◌, ◌≢◌, List, none, some, ltb, length, take, keep, arith,
}
use eth_fund_trace.Store.Transfer.{Transfer}
use eth_fund_trace.Syncer.State.{Fault, Response, Target, Env, Sync, report, fetch}
use eth_fund_trace.Syncer.Persist.{persist_transfers}
use eth_fund_trace.Syncer.Persist.Laws.{
  report-Keeps, fetch-Keeps, persist_transfers-Keeps, persist_transfers-finishes,
}
use eth_fund_trace.Syncer.FetchRecent.{
  Outcome, newest, pass_boundary, write_truncated, finish_recent, descend, answer_recent,
  fetch_recent_step, fetch_recent_range,
}
use eth_fund_trace.Syncer.Contract.{Keeps}

module _ {W : Type 0} {env : Env W} {target : Target} {P : W → Type 0}
    (k : Keeps env target P) where
  module _ (again : ℕ → ℕ → ℕ → Sync W → Outcome W)
      (keeps : (limit a b : ℕ) (s : Sync W) → P s.repo → P (again limit a b s).3.repo) where
    descend-Keeps :
        (limit start boundary : ℕ) (ts : List Transfer) (s : Sync W)
        → P s.repo
        → P (descend env target again limit start boundary ts s).3.repo
    unfolding descend write_truncated
    descend-Keeps limit start boundary ts s h =
        grind (arith, keeps, report-Keeps k, persist_transfers-Keeps k)

    answer_recent-Keeps :
        (limit start end : ℕ) (r : Response) (s : Sync W)
        → P s.repo
        → P (answer_recent env target again limit start end r s).3.repo
    unfolding answer_recent finish_recent write_truncated
    answer_recent-Keeps limit start end (Response.complete ts) s h =
        grind (arith, report-Keeps k, persist_transfers-Keeps k)
    answer_recent-Keeps limit start end (Response.record_limit ts) s h =
        persist_transfers-Keeps k ts s h
    answer_recent-Keeps limit start end (Response.failed e) s h = h
    answer_recent-Keeps limit start end (Response.page_limit ts none) s h = h
    answer_recent-Keeps limit start end (Response.page_limit ts (some b)) s h =
        ground (
          arith,
          persist_transfers-Keeps k (newest limit ts) s h,
          descend-Keeps limit start b ts s h,
        )

  pub fetch_recent_range-Keeps :
      (f limit start end : ℕ) (s : Sync W)
      → P s.repo
      → P (fetch_recent_range env target f limit start end s).3.repo
  unfolding fetch_recent_range fetch_recent_step
  fetch_recent_range-Keeps zero limit start end s h = h
  fetch_recent_range-Keeps (suc f) limit start end s h =
      let (response, s1) = fetch env target limit start end s in
      ground (
        arith,
        answer_recent-Keeps (fetch_recent_range env target f) (fetch_recent_range-Keeps f) limit
            start end response s1 (fetch-Keeps k limit start end s h),
      )

abbrev Ended : {W : Type 0} → Outcome W → Type 0
Ended o = o.2 ≢ some Fault.unfinished

module _ {W : Type 0} (env : Env W) (target : Target) (again : ℕ → ℕ → ℕ → Sync W → Outcome W)
    (f : ℕ) (ends : (limit a b : ℕ) (s : Sync W) → b - a < f → Ended (again limit a b s)) where
  descend-Ended :
      (limit start boundary : ℕ) (ts : List Transfer) (s : Sync W)
      → boundary - start < f
      → Ended (descend env target again limit start boundary ts s)
  unfolding descend write_truncated
  descend-Ended limit start boundary ts s fits =
      let complete = keep (λ t. ltb boundary t.block_number) ts in
      let s1 = (persist_transfers env target complete s).2 in
      ground (
        arith,
        persist_transfers-finishes env target complete s,
        persist_transfers-finishes env target (take limit complete) s,
        ends (limit - length complete) start boundary
            (report env (pass_boundary target boundary) s1),
      )

  answer_recent-Ended :
      (limit start end : ℕ) (r : Response) (s : Sync W)
      → end - start ≤ f
      → Ended (answer_recent env target again limit start end r s)
  unfolding answer_recent finish_recent write_truncated
  answer_recent-Ended limit start end (Response.complete ts) s fits =
      ground (arith, persist_transfers-finishes env target (newest limit ts) s)
  answer_recent-Ended limit start end (Response.record_limit ts) s fits =
      persist_transfers-finishes env target ts s
  answer_recent-Ended limit start end (Response.failed e) s fits = cc
  answer_recent-Ended limit start end (Response.page_limit ts none) s fits = cc
  answer_recent-Ended limit start end (Response.page_limit ts (some b)) s fits = ground (
    arith,
    persist_transfers-finishes env target (newest limit ts) s,
    descend-Ended limit start b ts s,
  )

pub fetch_recent_range-Ended :
    {W : Type 0} (env : Env W) (target : Target) (f limit start end : ℕ) (s : Sync W)
    → end - start < f
    → Ended (fetch_recent_range env target f limit start end s)
unfolding fetch_recent_range fetch_recent_step
fetch_recent_range-Ended env target zero limit start end s fits = absurd (omega arith)
fetch_recent_range-Ended env target (suc f) limit start end s fits =
    let (response, s1) = fetch env target limit start end s in
    ground (
      arith,
      answer_recent-Ended env target (fetch_recent_range env target f) f
          (fetch_recent_range-Ended env target f) limit start end response s1,
    )
