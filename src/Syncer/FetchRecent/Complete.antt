-- ===== src/Syncer/FetchRecent/Complete.antt =====
-- The records that `fetchRecentRange` of internal/syncer/manager.go stores.
use eth_fund_trace.Prelude.{
  ℕ, zero, suc, ◌-◌, ◌≤◌, ◌<◌, ◌≡◌, ◌≢◌, refl, false, List, none, some, ltb, length, take, keep, In,
  In-keep, arith,
}
use eth_fund_trace.Prelude.Int.{sub_ℕ}
use eth_fund_trace.Store.Transfer.{Transfer}
use eth_fund_trace.Syncer.State.{Fault, Response, Target, Env, Sync, report, fetch, set_checkpoint}
use eth_fund_trace.Syncer.Persist.{stamp, persist_transfers}
use eth_fund_trace.Syncer.Persist.Laws.{report-Keeps, persist_transfers-In}
use eth_fund_trace.Syncer.FetchRecent.{
  Outcome, newest, pass_boundary, write_truncated, finish_recent, descend, answer_recent,
  fetch_recent_step, fetch_recent_range,
}
use eth_fund_trace.Syncer.FetchRecent.Laws.{fetch_recent_range-le}
use eth_fund_trace.Syncer.FetchRecent.Keeps.{fetch_recent_range-Keeps, fetch_recent_range-Ended}
use eth_fund_trace.Syncer.Contract.{Durable, Descending}

module _ {W : Type 0} {env : Env W} {target : Target} {Holds : Transfer → W → Type 0}
    {OnChain : Transfer → Type 0} (d : Durable env target Holds) (c : Descending env target OnChain)
    (t : Transfer) (on_chain : OnChain t) where
  -- With no error and nothing left out, a record that lies in the range is stored.
  abbrev Covers : ℕ → ℕ → Outcome W → Type 0
  Covers start end o =
      o.2 ≡ none
      → o.1 ≡ false
      → start ≤ t.block_number
      → t.block_number ≤ end
      → Holds (stamp target t) o.3.repo

  write_truncated-Covers :
      (start end : ℕ) (ts : List Transfer) (s : Sync W)
      → Covers start end (write_truncated env target ts s)
  unfolding write_truncated
  write_truncated-Covers start end ts s = cc

  finish_recent-Covers :
      (limit start end : ℕ) (ts : List Transfer) (s : Sync W)
      → (start ≤ t.block_number → t.block_number ≤ end → In t ts)
      → Covers start end (finish_recent env target limit start ts s)
  unfolding finish_recent newest
  finish_recent-Covers limit start end ts s all e all_kept lo hi =
      let s1 = (persist_transfers env target ts s).2 in
      ground (
        arith,
        persist_transfers-In d t ts s (all lo hi),
        report-Keeps (d.keeps (stamp target t)) (set_checkpoint target.action (sub_ℕ start 1)) s1,
      )

  module _ (again : ℕ → ℕ → ℕ → Sync W → Outcome W)
      (keeps : (limit a b : ℕ) (s : Sync W)
        → Holds (stamp target t) s.repo
        → Holds (stamp target t) (again limit a b s).3.repo)
      (covers : (limit a b : ℕ) (s : Sync W) → 0 < limit → Covers a b (again limit a b s)) where
    descend-Covers :
        (limit start end boundary : ℕ) (ts : List Transfer) (s : Sync W)
        → (boundary < t.block_number → t.block_number ≤ end → In t ts)
        → Covers start end (descend env target again limit start boundary ts s)
    unfolding descend
    descend-Covers limit start end boundary ts s above e all_kept lo hi =
        let complete = keep (λ u. ltb boundary u.block_number) ts in
        let s1 = (persist_transfers env target complete s).2 in
        let s2 = report env (pass_boundary target boundary) s1 in
        let new = λ (h : boundary < t.block_number).
          persist_transfers-In d t complete s
            (In-keep (λ u. ltb boundary u.block_number) t ts (above h hi) (ground arith)) in
        ground (
          arith,
          new,
          write_truncated-Covers start end (take limit complete) s,
          report-Keeps (d.keeps (stamp target t)) (pass_boundary target boundary) s1,
          keeps (limit - length complete) start boundary s2,
          covers (limit - length complete) start boundary s2,
        )

    answer_recent-Covers :
        (limit start end : ℕ) (w : W) (s : Sync W) (r : Response)
        → (env.call target limit start end w).0 ≡ r
        → Covers start end (answer_recent env target again limit start end r s)
    unfolding answer_recent
    answer_recent-Covers limit start end w s (Response.complete ts) r =
        finish_recent-Covers limit start end ts s (c.all_records limit start end w ts t r on_chain)
    answer_recent-Covers limit start end w s (Response.record_limit ts) r =
        write_truncated-Covers start end ts s
    answer_recent-Covers limit start end w s (Response.failed e) r = cc
    answer_recent-Covers limit start end w s (Response.page_limit ts none) r = cc
    answer_recent-Covers limit start end w s (Response.page_limit ts (some b)) r = ground (
      arith,
      write_truncated-Covers start end (newest limit ts) s,
      descend-Covers limit start end b ts s (c.above_last limit start end w ts b t r on_chain),
    )

  pub fetch_recent_range-Covers :
      (f limit start end : ℕ) (s : Sync W)
      → 0 < limit
      → Covers start end (fetch_recent_range env target f limit start end s)
  unfolding fetch_recent_range fetch_recent_step fetch
  fetch_recent_range-Covers zero limit start end s p e all_kept lo hi = cc
  fetch_recent_range-Covers (suc f) limit start end s p e all_kept lo hi = ground (
    arith,
    answer_recent-Covers (fetch_recent_range env target f)
        (fetch_recent_range-Keeps (d.keeps (stamp target t)) f) (fetch_recent_range-Covers f) limit
        start end s.repo (fetch env target limit start end s).1
        (env.call target limit start end s.repo).0 refl,
  )

-- Over a client that lists newest first and returns no more than its record limit, and a database
-- that keeps what it acknowledges: with fuel for the length of the range, `fetch_recent_range`
-- ends by itself and counts at most `limit` records; and when the limit is positive, no error is
-- reported and nothing is marked as left out, every record of the chain in the range is stored,
-- with its stamped fields.
pub fetch_recent_range_complete :
    {W : Type 0} {env : Env W} {target : Target} {Holds : Transfer → W → Type 0}
    {OnChain : Transfer → Type 0} (d : Durable env target Holds) (c : Descending env target OnChain)
    (fuel limit start end : ℕ) (s : Sync W)
    → 0 < limit
    → end - start < fuel
    → let o = fetch_recent_range env target fuel limit start end s in
      (o.2 ≢ some Fault.unfinished)
      × (o.0 ≤ limit)
      × (o.2 ≡ none
          → o.1 ≡ false
          → (t : Transfer) → OnChain t
          → start ≤ t.block_number
          → t.block_number ≤ end
          → Holds (stamp target t) o.3.repo)
fetch_recent_range_complete {env = env} {target = target} d c fuel limit start end s p fits = (
  fetch_recent_range-Ended env target fuel limit start end s fits,
  fetch_recent_range-le c fuel limit start end s,
  λ e all_kept t on lo hi.
      fetch_recent_range-Covers d c t on fuel limit start end s p e all_kept lo hi,
)
