-- ===== src/Syncer/FetchRange/Checkpoints.antt =====
-- The checkpoints that `fetchRange` of internal/syncer/manager.go sets: those of its own action,
-- and none behind the end of the range.
use eth_fund_trace.Prelude.{
  ℕ, zero, suc, ◌+◌, ◌-◌, ◌/◌, ◌≤◌, ◌<◌, ◌≡◌, refl, Bool, true, false, List, [], ◌∷◌, Option, none,
  some, String, str_eq, ltb, leb, keep, length, take, drop, arith,
}
use eth_fund_trace.Prelude.Int.{ℤ, pos, negsuc, sub_ℕ}
use eth_fund_trace.Prelude.Dict.{Dict, lookup, insert, lookup-insert}
use eth_fund_trace.Store.Transfer.{Transfer}
use eth_fund_trace.Syncer.State.{
  Response, PageProgress, Target, Env, Sync, report, report_pages, fetch, on_page, set_checkpoint,
  count_split,
}
use eth_fund_trace.Syncer.Persist.{
  stamp_all, count_inserted, announce, write_batch, write_batches, persist_transfers,
}
use eth_fund_trace.Syncer.FetchRange.{
  Outcome, last_block, cut, split_range, isolate_block, resume_range, at_page_limit, finish_range,
  answer_range, fetch_range_step, fetch_range,
}
use eth_fund_trace.Syncer.Contract.{Ascending}

-- Is a block at or before the checkpoint?
unfoldable pub passed : Option ℤ → ℕ → Bool
passed none b = false
passed (some (negsuc n)) b = false
passed (some (pos n)) b = leb b n

passed-sub_ℕ :
    (resume end b : ℕ) → resume ≤ end → end < b → passed (some (sub_ℕ resume 1)) b ≡ false
unfolding passed
passed-sub_ℕ zero end b le lt = refl
passed-sub_ℕ (suc n) end b le lt = ground arith

passed-pos : (end b : ℕ) → end < b → passed (some (pos end)) b ≡ false
unfolding passed
passed-pos end b lt = ground arith

passed-insert :
    (action read : String) (c : ℤ) (b : ℕ) (checkpoints : Dict ℤ)
    → (str_eq action read ≡ true → passed (some c) b ≡ false)
    → passed (lookup read checkpoints) b ≡ false
    → passed (lookup read (insert action c checkpoints)) b ≡ false
passed-insert action read c b checkpoints own old =
    ground (arith, lookup-insert action read c checkpoints)

module _ {W : Type 0} (env : Env W) (target : Target) (read : String) (b : ℕ) where
  abbrev pub Fresh : Sync W → Type 0
  Fresh s = passed (lookup read s.progress.action_checkpoints) b ≡ false

  report_pages-Fresh :
      (pages : List PageProgress) (s : Sync W) → Fresh s → Fresh (report_pages env target pages s)
  unfolding report_pages report on_page
  report_pages-Fresh [] s h = h
  report_pages-Fresh (page ∷ pages) s h = report_pages-Fresh pages _ h

  fetch-Fresh :
      (limit start end : ℕ) (s : Sync W) → Fresh s → Fresh (fetch env target limit start end s).1
  unfolding fetch
  fetch-Fresh limit start end s h =
      report_pages-Fresh (env.call target limit start end s.repo).1
        (record s { repo = (env.call target limit start end s.repo).2 }) h

  write_batch-Fresh :
      (batch : List Transfer) (s : Sync W) → Fresh s → Fresh (write_batch env target batch s).1
  unfolding write_batch count_inserted announce report
  write_batch-Fresh batch s h = ground arith

  write_batches-Fresh :
      (size f : ℕ) (ts : List Transfer) (s : Sync W)
      → Fresh s
      → Fresh (write_batches env target size f ts s).1
  unfolding write_batches
  write_batches-Fresh size zero ts s h = h
  write_batches-Fresh size (suc f) [] s h = h
  write_batches-Fresh size (suc f) (t ∷ ts) s h =
      let batch = take size (t ∷ ts) in
      ground (
        arith,
        write_batch-Fresh batch s h,
        write_batches-Fresh size f (drop size (t ∷ ts)) (write_batch env target batch s).1,
      )

  persist_transfers-Fresh :
      (ts : List Transfer) (s : Sync W) → Fresh s → Fresh (persist_transfers env target ts s).2
  unfolding persist_transfers
  persist_transfers-Fresh ts s h =
      let (stamped, found) = stamp_all target ts s.discovered in
      ground (
        arith,
        write_batches-Fresh 1000 (length stamped) stamped (record s { discovered = found }) h,
      )

  -- A range of the same action lies before the block.
  abbrev Before : ℕ → Type 0
  Before end = str_eq target.action read ≡ true → end < b

  split-Fresh : (s : Sync W) → Fresh s → Fresh (report env count_split s)
  unfolding report count_split
  split-Fresh s h = h

  checkpoint-Fresh :
      (c : ℤ) (s : Sync W)
      → (str_eq target.action read ≡ true → passed (some c) b ≡ false)
      → Fresh s
      → Fresh (report env (set_checkpoint target.action c) s)
  unfolding report set_checkpoint
  checkpoint-Fresh c s own h =
      passed-insert target.action read c b s.progress.action_checkpoints own h

  module _ (again : ℕ → ℕ → Sync W → Outcome W) where
    abbrev Steady : Type 0
    Steady =
        (start end : ℕ) (s : Sync W)
        → start ≤ end
        → Before end
        → Fresh s
        → Fresh (again start end s).2

    split_range-Fresh :
        (start end : ℕ) (s : Sync W)
        → Steady
        → start < end
        → Before end
        → Fresh s
        → Fresh (split_range env target again start end s).2
    unfolding split_range
    split_range-Fresh start end s steady lt before h =
        let middle = start + (end - start) / 2 in
        let s' = report env count_split s in
        let s1 = (again start middle s').2 in
        let first =
          steady start middle s' (omega arith) (λ e. omega (arith, before e)) (split-Fresh s h) in
        ground (arith, first, steady (middle + 1) end s1 (omega arith) before first)

    isolate_block-Fresh :
        (written start end : ℕ) (s : Sync W)
        → Steady
        → start < end
        → Before end
        → Fresh s
        → Fresh (isolate_block env target again written start end s).2
    unfolding isolate_block
    isolate_block-Fresh written start end s steady lt before h =
        let s1 = (again start start s).2 in
        let first = steady start start s (omega arith) (λ e. omega (arith, before e)) h in
        ground (arith, first, steady (start + 1) end s1 (omega arith) before first)

    resume_range-Fresh :
        (resume : ℕ) (ts : List Transfer) (start end : ℕ) (s : Sync W)
        → Steady
        → start < end
        → resume ≤ end
        → Before end
        → Fresh s
        → Fresh (resume_range env target again resume ts start end s).2
    unfolding resume_range
    resume_range-Fresh resume ts start end s steady lt within before h =
        let complete = keep (λ u. ltb u.block_number resume) ts in
        let s1 = (persist_transfers env target complete s).2 in
        let h1 = persist_transfers-Fresh complete s h in
        let s2 = report env (set_checkpoint target.action (sub_ℕ resume 1)) s1 in
        let h2 =
          checkpoint-Fresh (sub_ℕ resume 1) s1 (λ e. passed-sub_ℕ resume end b within (before e))
            h1 in
        ground (
          arith,
          h1,
          h2,
          steady resume end (report env count_split s2) within before (split-Fresh s2 h2),
          isolate_block-Fresh (persist_transfers env target complete s).0 start end
              (report env count_split s1) steady lt before (split-Fresh s1 h1),
        )

    finish_range-Fresh :
        (limit : ℕ) (ts : List Transfer) (end : ℕ) (s : Sync W)
        → Before end
        → Fresh s
        → Fresh (finish_range env target limit ts end s).2
    unfolding finish_range
    finish_range-Fresh limit ts end s before h =
        let s1 = (persist_transfers env target (cut limit ts) s).2 in
        let h1 = persist_transfers-Fresh (cut limit ts) s h in
        ground (arith, h1, checkpoint-Fresh (pos end) s1 (λ e. passed-pos end b (before e)) h1)

module _ {W : Type 0} {env : Env W} {target : Target} {OnChain : Transfer → Type 0} {limit : ℕ}
    (c : Ascending env target OnChain limit) (read : String) (b : ℕ) where
  module _ (again : ℕ → ℕ → Sync W → Outcome W) (steady : Steady env target read b again) where
    at_page_limit-Fresh :
        (start end : ℕ) (w : W) (ts : List Transfer) (last : Option ℕ) (s : Sync W)
        → start < end
        → Before env target read b end
        → (env.call target limit start end w).0 ≡ Response.page_limit ts last
        → Fresh env target read b s
        → Fresh env target read b (at_page_limit env target again ts last start end s).2
    unfolding at_page_limit
    at_page_limit-Fresh start end w [] last s lt before r h =
        split_range-Fresh env target read b again start end s steady lt before h
    at_page_limit-Fresh start end w (u ∷ ts) none s lt before r h =
        resume_range-Fresh env target read b again (last_block u ts) (u ∷ ts) start end s steady lt
          (c.last_record_in_range start end w u ts r) before h
    at_page_limit-Fresh start end w (u ∷ ts) (some last) s lt before r h =
        resume_range-Fresh env target read b again last (u ∷ ts) start end s steady lt
          (c.last_in_range start end w (u ∷ ts) last r) before h

    answer_range-Fresh :
        (start end : ℕ) (w : W) (r : Response) (s : Sync W)
        → start ≤ end
        → Before env target read b end
        → (env.call target limit start end w).0 ≡ r
        → Fresh env target read b s
        → Fresh env target read b (answer_range env target again limit start end r s).2
    unfolding answer_range
    answer_range-Fresh start end w (Response.complete ts) s le before r h =
        finish_range-Fresh env target read b again limit ts end s before h
    answer_range-Fresh start end w (Response.record_limit ts) s le before r h =
        persist_transfers-Fresh env target read b ts s h
    answer_range-Fresh start end w (Response.page_limit ts last) s le before r h =
        ground (arith, at_page_limit-Fresh start end w ts last s)
    answer_range-Fresh start end w (Response.failed e) s le before r h = h

  -- A checkpoint that does not pass the block does not pass it behind the range either, when the
  -- range is of another action or ends before the block.
  pub fetch_range-Fresh :
      (f start end : ℕ) (s : Sync W)
      → start ≤ end
      → Before env target read b end
      → Fresh env target read b s
      → Fresh env target read b (fetch_range env target f limit start end s).2
  unfolding fetch_range fetch_range_step fetch
  fetch_range-Fresh zero start end s le before h = h
  fetch_range-Fresh (suc f) start end s le before h =
      answer_range-Fresh (fetch_range env target f limit) (fetch_range-Fresh f) start end s.repo
        (env.call target limit start end s.repo).0 (fetch env target limit start end s).1 le before
        refl (fetch-Fresh env target read b limit start end s h)
