-- ===== src/Syncer/FetchRecent/Laws.antt =====
-- The steps of `fetchRecentRange` of internal/syncer/manager.go: fuel and record counts.
use eth_fund_trace.Prelude.{
  ℕ, zero, suc, ◌-◌, ◌≤◌, ◌<◌, ◌≡◌, List, none, some, ltb, length, take, keep, length-take, arith,
}
use eth_fund_trace.Store.Transfer.{Transfer}
use eth_fund_trace.Syncer.State.{Response, Target, Env, Sync, report, fetch}
use eth_fund_trace.Syncer.Persist.{persist_transfers}
use eth_fund_trace.Syncer.Persist.Laws.{persist_transfers-le}
use eth_fund_trace.Syncer.FetchRecent.{
  Outcome, newest, pass_boundary, write_truncated, finish_recent, descend, answer_recent,
  fetch_recent_step, fetch_recent_range,
}
use eth_fund_trace.Syncer.Contract.{Descending}

-- What a call with a limit promises.
abbrev Bounded : {W : Type 0} → ℕ → Outcome W → Type 0
Bounded limit o = o.0 ≤ limit

length-newest : (limit : ℕ) (ts : List Transfer) → length (newest limit ts) ≤ limit
unfolding newest
length-newest limit ts = ground (arith, length-take limit ts)

module _ {W : Type 0} (env : Env W) (target : Target) where
  write_truncated-le :
      (ts : List Transfer) (s : Sync W) → (write_truncated env target ts s).0 ≤ length ts
  unfolding write_truncated
  write_truncated-le ts s = persist_transfers-le env target ts s

  finish_recent-Bounded :
      (limit start : ℕ) (ts : List Transfer) (s : Sync W)
      → Bounded limit (finish_recent env target limit start ts s)
  unfolding finish_recent
  finish_recent-Bounded limit start ts s =
      ground (arith, persist_transfers-le env target (newest limit ts) s, length-newest limit ts)

module _ {W : Type 0} {env : Env W} {target : Target} {OnChain : Transfer → Type 0}
    (c : Descending env target OnChain) (again : ℕ → ℕ → ℕ → Sync W → Outcome W)
    (bounded : (limit a b : ℕ) (s : Sync W) → Bounded limit (again limit a b s)) where
  descend-Bounded :
      (limit start boundary : ℕ) (ts : List Transfer) (s : Sync W)
      → Bounded limit (descend env target again limit start boundary ts s)
  unfolding descend
  descend-Bounded limit start boundary ts s =
      let complete = keep (λ t. ltb boundary t.block_number) ts in
      let s1 = (persist_transfers env target complete s).2 in
      ground (
        arith,
        write_truncated-le env target (take limit complete) s,
        length-take limit complete,
        persist_transfers-le env target complete s,
        bounded (limit - length complete) start boundary
            (report env (pass_boundary target boundary) s1),
      )

  answer_recent-Bounded :
      (limit start end : ℕ) (w : W) (s : Sync W) (r : Response)
      → 0 < limit
      → (env.call target limit start end w).0 ≡ r
      → Bounded limit (answer_recent env target again limit start end r s)
  unfolding answer_recent
  answer_recent-Bounded limit start end w s (Response.complete ts) p r =
      finish_recent-Bounded env target limit start ts s
  answer_recent-Bounded limit start end w s (Response.record_limit ts) p r =
      omega (arith, write_truncated-le env target ts s, c.within_limit limit start end w ts r)
  answer_recent-Bounded limit start end w s (Response.failed e) p r = omega arith
  answer_recent-Bounded limit start end w s (Response.page_limit ts none) p r = omega arith
  answer_recent-Bounded limit start end w s (Response.page_limit ts (some b)) p r = ground (
    arith,
    write_truncated-le env target (newest limit ts) s,
    length-newest limit ts,
    descend-Bounded limit start b ts s,
  )

  fetch_recent_step-Bounded :
      (limit start end : ℕ) (s : Sync W)
      → Bounded limit (fetch_recent_step env target again limit start end s)
  unfolding fetch_recent_step fetch
  fetch_recent_step-Bounded limit start end s = ground (
    arith,
    answer_recent-Bounded limit start end s.repo (fetch env target limit start end s).1
        (env.call target limit start end s.repo).0,
  )

pub fetch_recent_range-le :
    {W : Type 0} {env : Env W} {target : Target} {OnChain : Transfer → Type 0}
    (c : Descending env target OnChain) (f limit start end : ℕ) (s : Sync W)
    → Bounded limit (fetch_recent_range env target f limit start end s)
unfolding fetch_recent_range
fetch_recent_range-le c zero limit start end s = omega arith
fetch_recent_range-le {env = env} {target = target} c (suc f) limit start end s =
    fetch_recent_step-Bounded c (fetch_recent_range env target f) (fetch_recent_range-le c f) limit
      start end s
