-- ===== src/Syncer/FetchRange/Complete.antt =====
-- The records that `fetchRange` of internal/syncer/manager.go stores.
use eth_fund_trace.Prelude.{
  Bool, true, false, ◌&&◌, leb, ◌⊎◌, length-take, ℕ, zero, suc, ◌+◌, ◌-◌, ◌/◌, ◌≤◌, ◌<◌, ◌≡◌, refl,
  List, [], ◌∷◌, Option, none, some, ltb, length, keep, In, In-keep, arith,
}
use eth_fund_trace.Prelude.Int.{pos, sub_ℕ}
use eth_fund_trace.Store.Transfer.{Transfer}
use eth_fund_trace.Syncer.State.{
  Response, Target, Env, Sync, report, fetch, set_checkpoint, count_split,
}
use eth_fund_trace.Syncer.Persist.{stamp, persist_transfers}
use eth_fund_trace.Syncer.Persist.Laws.{report-Keeps, persist_transfers-In, persist_transfers-count}
use eth_fund_trace.Syncer.FetchRange.{
  Outcome, last_block, cut, split_range, isolate_block, resume_range, at_page_limit, finish_range,
  answer_range, fetch_range_step, fetch_range,
}
use eth_fund_trace.Syncer.FetchRange.Laws.{fetch_range-Keeps}
use eth_fund_trace.Syncer.Contract.{Durable, Ascending}

-- The caller takes a range for truncated when the count is at the limit.
unfoldable pub at_limit : ℕ → ℕ → Bool
at_limit limit count = ltb 0 limit && leb limit count

module _ {W : Type 0} {env : Env W} {target : Target} {Holds : Transfer → W → Type 0}
    (d : Durable env target Holds) (limit : ℕ) (t : Transfer) where
  -- If no error is reported, the count stays below the limit and the record lies in the range, it
  -- is stored.
  abbrev Covers : ℕ → ℕ → Outcome W → Type 0
  Covers start end o =
      o.1 ≡ none
      → at_limit limit o.0 ≡ false
      → start ≤ t.block_number
      → t.block_number ≤ end
      → Holds (stamp target t) o.2.repo

  module _ (again : ℕ → ℕ → Sync W → Outcome W)
      (keeps : (a b : ℕ) (s : Sync W)
        → Holds (stamp target t) s.repo
        → Holds (stamp target t) (again a b s).2.repo)
      (covers : (a b : ℕ) (s : Sync W) → Covers a b (again a b s)) where
    split_range-Covers :
        (start end : ℕ) (s : Sync W) → Covers start end (split_range env target again start end s)
    unfolding split_range at_limit
    split_range-Covers start end s e short lo hi =
        let middle = start + (end - start) / 2 in
        let s' = report env count_split s in
        let s1 = (again start middle s').2 in
        ground
          (arith, covers start middle s', covers (middle + 1) end s1, keeps (middle + 1) end s1)

    isolate_block-Covers :
        (written start end : ℕ) (s : Sync W)
        → Covers start end (isolate_block env target again written start end s)
    unfolding isolate_block at_limit
    isolate_block-Covers written start end s e short lo hi =
        let s1 = (again start start s).2 in
        ground (arith, covers start start s, covers (start + 1) end s1, keeps (start + 1) end s1)

    resume_range-Covers :
        (resume : ℕ) (ts : List Transfer) (start end : ℕ) (s : Sync W)
        → (start ≤ t.block_number → t.block_number < resume → In t ts)
        → Covers start end (resume_range env target again resume ts start end s)
    unfolding resume_range at_limit
    resume_range-Covers resume ts start end s below e short lo hi =
        let complete = keep (λ u. ltb u.block_number resume) ts in
        let s1 = (persist_transfers env target complete s).2 in
        let s2 = report env (set_checkpoint target.action (sub_ℕ resume 1)) s1 in
        let old = λ (h : t.block_number < resume).
          persist_transfers-In d t complete s
            (In-keep (λ u. ltb u.block_number resume) t ts (below lo h) (ground arith)) in
        ground (
          arith,
          old,
          report-Keeps (d.keeps (stamp target t)) (set_checkpoint target.action (sub_ℕ resume 1))
              s1,
          report-Keeps (d.keeps (stamp target t)) count_split s2,
          keeps resume end (report env count_split s2),
          covers resume end (report env count_split s2),
          isolate_block-Covers (persist_transfers env target complete s).0 start end
              (report env count_split s1),
        )

    cut-cases :
        (ts : List Transfer) → (cut limit ts ≡ ts) ⊎ (at_limit limit (length (cut limit ts)) ≡ true)
    unfolding cut at_limit
    cut-cases ts = ground (arith, length-take limit ts)

    finish_range-Covers :
        (ts : List Transfer) (start end : ℕ) (s : Sync W)
        → (start ≤ t.block_number → t.block_number ≤ end → In t ts)
        → Covers start end (finish_range env target limit ts end s)
    unfolding finish_range
    finish_range-Covers ts start end s all e short lo hi =
        let s1 = (persist_transfers env target ts s).2 in
        ground (
          arith,
          cut-cases ts,
          persist_transfers-count env target (cut limit ts) s,
          persist_transfers-In d t ts s (all lo hi),
          report-Keeps (d.keeps (stamp target t)) (set_checkpoint target.action (pos end)) s1,
        )

module _ {W : Type 0} {env : Env W} {target : Target} {Holds : Transfer → W → Type 0}
    {OnChain : Transfer → Type 0} (d : Durable env target Holds) {limit : ℕ}
    (c : Ascending env target OnChain limit) (t : Transfer) (on_chain : OnChain t) where
  module _ (again : ℕ → ℕ → Sync W → Outcome W)
      (keeps : (a b : ℕ) (s : Sync W)
        → Holds (stamp target t) s.repo
        → Holds (stamp target t) (again a b s).2.repo)
      (covers : (a b : ℕ) (s : Sync W) → Covers d limit t a b (again a b s)) where
    at_page_limit-Covers :
        (start end : ℕ) (w : W) (ts : List Transfer) (last : Option ℕ) (s : Sync W)
        → (env.call target limit start end w).0 ≡ Response.page_limit ts last
        → Covers d limit t start end (at_page_limit env target again ts last start end s)
    unfolding at_page_limit at_limit
    at_page_limit-Covers start end w [] last s r =
        split_range-Covers d limit t again keeps covers start end s
    at_page_limit-Covers start end w (u ∷ ts) none s r =
        resume_range-Covers d limit t again keeps covers (last_block u ts) (u ∷ ts) start end s
          (c.below_last_record start end w u ts t r on_chain)
    at_page_limit-Covers start end w (u ∷ ts) (some b) s r =
        resume_range-Covers d limit t again keeps covers b (u ∷ ts) start end s
          (c.below_last start end w (u ∷ ts) b t r on_chain)

    answer-Covers :
        (start end : ℕ) (w : W) (s : Sync W) (r : Response)
        → (env.call target limit start end w).0 ≡ r
        → Covers d limit t start end (answer_range env target again limit start end r s)
    unfolding answer_range at_limit
    answer-Covers start end w s (Response.complete ts) r =
        finish_range-Covers d limit t again keeps covers ts start end s
          (c.all_records start end w ts t r on_chain)
    answer-Covers start end w s (Response.record_limit ts) r = λ e short lo hi.
        ground (arith, c.full_at_limit start end w ts r, persist_transfers-count env target ts s)
    answer-Covers start end w s (Response.page_limit ts last) r =
        ground (arith, at_page_limit-Covers start end w ts last s r)
    answer-Covers start end w s (Response.failed e) r = cc

  -- With no error, every record of the chain in the range is stored.
  pub fetch_range-Covers :
      (f start end : ℕ) (s : Sync W)
      → Covers d limit t start end (fetch_range env target f limit start end s)
  unfolding fetch_range fetch_range_step fetch
  fetch_range-Covers zero start end s = cc
  fetch_range-Covers (suc f) start end s =
      answer-Covers (fetch_range env target f limit)
        (fetch_range-Keeps (d.keeps (stamp target t)) f limit) (fetch_range-Covers f) start end
        s.repo _ _ refl
