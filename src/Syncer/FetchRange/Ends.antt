-- ===== src/Syncer/FetchRange/Ends.antt =====
-- The fuel of `fetchRange` of internal/syncer/manager.go, and its whole run.
use eth_fund_trace.Prelude.{
  false, ℕ, zero, suc, ◌+◌, ◌-◌, ◌/◌, ◌≤◌, ◌<◌, ◌≡◌, ◌≢◌, refl, List, [], ◌∷◌, Option, none, some,
  ltb, keep, arith,
}
use eth_fund_trace.Prelude.Int.{sub_ℕ}
use eth_fund_trace.Store.Transfer.{Transfer}
use eth_fund_trace.Syncer.State.{
  Fault, Response, Target, Env, Sync, report, fetch, set_checkpoint, count_split,
}
use eth_fund_trace.Syncer.Persist.{stamp, persist_transfers}
use eth_fund_trace.Syncer.Persist.Laws.{persist_transfers-finishes}
use eth_fund_trace.Syncer.FetchRange.{
  Outcome, last_block, cut, split_range, isolate_block, resume_range, at_page_limit, finish_range,
  answer_range, fetch_range_step, fetch_range,
}
use eth_fund_trace.Syncer.FetchRange.Complete.{at_limit, fetch_range-Covers}
use eth_fund_trace.Syncer.Contract.{Durable, Ascending}

abbrev Ended : {W : Type 0} → Outcome W → Type 0
Ended o = o.1 ≢ some Fault.unfinished

module _ {W : Type 0} (env : Env W) (target : Target) (again : ℕ → ℕ → Sync W → Outcome W) (f : ℕ)
    (ends : (a b : ℕ) (s : Sync W) → a ≤ b → b - a < f → Ended (again a b s)) where
  split_range-Ended :
      (start end : ℕ) (s : Sync W)
      → start < end
      → end - start ≤ f
      → Ended (split_range env target again start end s)
  unfolding split_range
  split_range-Ended start end s lt fits =
      let middle = start + (end - start) / 2 in
      let s' = report env count_split s in
      let s1 = (again start middle s').2 in
      ground (arith, ends start middle s', ends (middle + 1) end s1)

  isolate_block-Ended :
      (written start end : ℕ) (s : Sync W)
      → start < end
      → end - start ≤ f
      → Ended (isolate_block env target again written start end s)
  unfolding isolate_block
  isolate_block-Ended written start end s lt fits =
      let s1 = (again start start s).2 in
      ground (arith, ends start start s, ends (start + 1) end s1)

  resume_range-Ended :
      (resume : ℕ) (ts : List Transfer) (start end : ℕ) (s : Sync W)
      → start < end
      → end - start ≤ f
      → resume ≤ end
      → Ended (resume_range env target again resume ts start end s)
  unfolding resume_range
  resume_range-Ended resume ts start end s lt fits within =
      let complete = keep (λ u. ltb u.block_number resume) ts in
      let s1 = (persist_transfers env target complete s).2 in
      let s2 = report env (set_checkpoint target.action (sub_ℕ resume 1)) s1 in
      ground (
        arith,
        persist_transfers-finishes env target complete s,
        ends resume end (report env count_split s2),
        isolate_block-Ended (persist_transfers env target complete s).0 start end
            (report env count_split s1),
      )

module _ {W : Type 0} {env : Env W} {target : Target} {OnChain : Transfer → Type 0} {limit : ℕ}
    (c : Ascending env target OnChain limit) (again : ℕ → ℕ → Sync W → Outcome W) (f : ℕ)
    (ends : (a b : ℕ) (s : Sync W) → a ≤ b → b - a < f → Ended (again a b s)) where
  at_page_limit-Ended :
      (start end : ℕ) (w : W) (ts : List Transfer) (last : Option ℕ) (s : Sync W)
      → start < end
      → end - start ≤ f
      → (env.call target limit start end w).0 ≡ Response.page_limit ts last
      → Ended (at_page_limit env target again ts last start end s)
  unfolding at_page_limit
  at_page_limit-Ended start end w [] last s lt fits r =
      split_range-Ended env target again f ends start end s lt fits
  at_page_limit-Ended start end w (u ∷ ts) none s lt fits r =
      resume_range-Ended env target again f ends (last_block u ts) (u ∷ ts) start end s lt fits
        (c.last_record_in_range start end w u ts r)
  at_page_limit-Ended start end w (u ∷ ts) (some b) s lt fits r =
      resume_range-Ended env target again f ends b (u ∷ ts) start end s lt fits
        (c.last_in_range start end w (u ∷ ts) b r)

  answer_range-Ended :
      (start end : ℕ) (w : W) (s : Sync W) (r : Response)
      → start ≤ end
      → end - start ≤ f
      → (env.call target limit start end w).0 ≡ r
      → Ended (answer_range env target again limit start end r s)
  unfolding answer_range finish_range
  answer_range-Ended start end w s (Response.complete ts) le fits r =
      ground (arith, persist_transfers-finishes env target (cut limit ts) s)
  answer_range-Ended start end w s (Response.record_limit ts) le fits r =
      persist_transfers-finishes env target ts s
  answer_range-Ended start end w s (Response.page_limit ts last) le fits r =
      ground (arith, at_page_limit-Ended start end w ts last s)
  answer_range-Ended start end w s (Response.failed e) le fits r = cc

module _ {W : Type 0} {env : Env W} {target : Target} {OnChain : Transfer → Type 0} {limit : ℕ}
    (c : Ascending env target OnChain limit) where
  pub fetch_range-Ended :
      (f start end : ℕ) (s : Sync W)
      → start ≤ end
      → end - start < f
      → Ended (fetch_range env target f limit start end s)
  unfolding fetch_range fetch_range_step fetch
  fetch_range-Ended zero start end s le fits = absurd (omega arith)
  fetch_range-Ended (suc f) start end s le fits =
      answer_range-Ended c (fetch_range env target f limit) f (fetch_range-Ended f) start end s.repo
        _ _ le (omega arith) refl

-- Over a client that lists oldest first, names at a page limit the last block that it reached and
-- returns at its record limit that many records, and over a database that keeps what it
-- acknowledges: with fuel for the length of the range, `fetch_range` ends by itself, and when it
-- reports no error and fewer records than the limit (or there is no limit), every record of the
-- chain in the range is stored, with its stamped fields.
pub fetch_range_complete :
    {W : Type 0} {env : Env W} {target : Target} {Holds : Transfer → W → Type 0}
    {OnChain : Transfer → Type 0} {limit : ℕ} (d : Durable env target Holds)
    (c : Ascending env target OnChain limit) (fuel start end : ℕ) (s : Sync W)
    → start ≤ end
    → end - start < fuel
    → let o = fetch_range env target fuel limit start end s in
      (o.1 ≢ some Fault.unfinished)
      × (o.1 ≡ none
          → at_limit limit o.0 ≡ false
          → (t : Transfer) → OnChain t
          → start ≤ t.block_number
          → t.block_number ≤ end
          → Holds (stamp target t) o.2.repo)
fetch_range_complete d c fuel start end s le fits = (
  fetch_range-Ended c fuel start end s le fits,
  λ e short t on lo hi. fetch_range-Covers d c t on fuel start end s e short lo hi,
)
