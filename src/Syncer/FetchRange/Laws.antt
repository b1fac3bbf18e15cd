-- ===== src/Syncer/FetchRange/Laws.antt =====
-- The steps of `fetchRange` of internal/syncer/manager.go and the records that were stored before.
use eth_fund_trace.Prelude.{ℕ, zero, suc, List, [], ◌∷◌, Option, none, some, arith}
use eth_fund_trace.Store.Transfer.{Transfer}
use eth_fund_trace.Syncer.State.{Response, Target, Env, Sync}
use eth_fund_trace.Syncer.Persist.Laws.{report-Keeps, fetch-Keeps, persist_transfers-Keeps}
use eth_fund_trace.Syncer.FetchRange.{
  Outcome, split_range, isolate_block, resume_range, at_page_limit, finish_range, answer_range,
  fetch_range_step, fetch_range,
}
use eth_fund_trace.Syncer.Contract.{Keeps}

-- What was stored before stays stored, whatever the call reports.
module _ {W : Type 0} {env : Env W} {target : Target} {P : W → Type 0}
    (k : Keeps env target P) where
  module _ (again : ℕ → ℕ → Sync W → Outcome W)
      (keeps : (a b : ℕ) (s : Sync W) → P s.repo → P (again a b s).2.repo) where
    split_range-Keeps :
        (start end : ℕ) (s : Sync W)
        → P s.repo
        → P (split_range env target again start end s).2.repo
    unfolding split_range
    split_range-Keeps start end s h = grind (arith, keeps, report-Keeps k)

    pub isolate_block-Keeps :
        (written start end : ℕ) (s : Sync W)
        → P s.repo
        → P (isolate_block env target again written start end s).2.repo
    unfolding isolate_block
    isolate_block-Keeps written start end s h = grind (arith, keeps)

    resume_range-Keeps :
        (resume : ℕ) (ts : List Transfer) (start end : ℕ) (s : Sync W)
        → P s.repo
        → P (resume_range env target again resume ts start end s).2.repo
    unfolding resume_range
    resume_range-Keeps resume ts start end s h =
        grind (arith, keeps, isolate_block-Keeps, report-Keeps k, persist_transfers-Keeps k)

    at_page_limit-Keeps :
        (ts : List Transfer) (last : Option ℕ) (start end : ℕ) (s : Sync W)
        → P s.repo
        → P (at_page_limit env target again ts last start end s).2.repo
    unfolding at_page_limit
    at_page_limit-Keeps [] last start end s h = split_range-Keeps start end s h
    at_page_limit-Keeps (u ∷ ts) none start end s h = resume_range-Keeps _ (u ∷ ts) start end s h
    at_page_limit-Keeps (u ∷ ts) (some b) start end s h =
        resume_range-Keeps b (u ∷ ts) start end s h

    finish_range-Keeps :
        (limit : ℕ) (ts : List Transfer) (end : ℕ) (s : Sync W)
        → P s.repo
        → P (finish_range env target limit ts end s).2.repo
    unfolding finish_range
    finish_range-Keeps limit ts end s h = grind (arith, report-Keeps k, persist_transfers-Keeps k)

    answer_range-Keeps :
        (limit start end : ℕ) (r : Response) (s : Sync W)
        → P s.repo
        → P (answer_range env target again limit start end r s).2.repo
    unfolding answer_range
    answer_range-Keeps limit start end (Response.complete ts) s h =
        finish_range-Keeps limit ts end s h
    answer_range-Keeps limit start end (Response.record_limit ts) s h =
        persist_transfers-Keeps k ts s h
    answer_range-Keeps limit start end (Response.page_limit ts last) s h =
        ground (arith, at_page_limit-Keeps ts last start end s h)
    answer_range-Keeps limit start end (Response.failed e) s h = h

  pub fetch_range-Keeps :
      (f limit start end : ℕ) (s : Sync W)
      → P s.repo
      → P (fetch_range env target f limit start end s).2.repo
  unfolding fetch_range fetch_range_step
  fetch_range-Keeps zero limit start end s h = h
  fetch_range-Keeps (suc f) limit start end s h =
      answer_range-Keeps (fetch_range env target f limit) (fetch_range-Keeps f limit) limit start
        end _ _ (fetch-Keeps k limit start end s h)
