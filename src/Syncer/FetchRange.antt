-- ===== src/Syncer/FetchRange.antt =====
-- `fetchRange` of internal/syncer/manager.go: the records of a block range, oldest first, by
-- halving the range or resuming behind the last complete block at a page limit.
pub mod Laws
pub mod Complete
pub mod Checkpoints
pub mod Ends
use eth_fund_trace.Prelude.{
  ℕ, zero, suc, ◌+◌, ◌-◌, ◌/◌, Bool, true, false, ◌&&◌, List, [], ◌∷◌, Option, none, some, String,
  ltb, leb, ◌==◌, if◌then◌else◌, length, take, keep,
}
use eth_fund_trace.Prelude.Int.{ℤ, pos, sub_ℕ}
use eth_fund_trace.Store.Transfer.{Transfer}
use eth_fund_trace.Syncer.State.{
  SyncError, Fault, Response, Target, Env, Sync, report, fetch, set_checkpoint, count_split,
}
use eth_fund_trace.Syncer.Persist.{persist_transfers}

-- Count, error and state.
abbrev pub Outcome : Type 0 → Type 0
Outcome W = ℕ × Option Fault × Sync W

-- `transfers[len(transfers)-1].BlockNumber`
abbrev pub last_block : Transfer → List Transfer → ℕ
last_block t [] = t.block_number
last_block t (u ∷ ts) = last_block u ts

-- `transfers[:limit]` where the limit is set and exceeded.
unfoldable pub cut : ℕ → List Transfer → List Transfer
cut limit ts = if ltb 0 limit && ltb limit (length ts) then take limit ts else ts

module _ {W : Type 0} (env : Env W) (target : Target) where
  -- A page limit with no record: both halves are fetched.
  unfoldable pub split_range : (ℕ → ℕ → Sync W → Outcome W) → ℕ → ℕ → Sync W → Outcome W
  split_range again start end s =
      let middle = start + (end - start) / 2 in
      let (left, left_error, s1) = again start middle (report env count_split s) in
      elim left_error [
        | some e ↦ (0, some e, s1)
        | none ↦
            let (right, right_error, s2) = again (middle + 1) end s1 in
            (left + right, right_error, s2)
      ]

  -- The first block holds more records than the pages: it is fetched by itself, then the rest.
  unfoldable pub isolate_block : (ℕ → ℕ → Sync W → Outcome W) → ℕ → ℕ → ℕ → Sync W → Outcome W
  isolate_block again written start end s =
      let (block_count, block_error, s1) = again start start s in
      elim block_error [
        | some e ↦ (written + block_count, some e, s1)
        | none ↦ elim (start == end) [
          | true ↦ (written + block_count, none, s1)
          | false ↦
              let (rest, rest_error, s2) = again (start + 1) end s1 in
              (written + block_count + rest, rest_error, s2)
        ]
      ]

  -- A page limit behind some records: those of complete blocks are written, and the range goes on
  -- at the block that the limit cut.
  unfoldable pub resume_range :
      (ℕ → ℕ → Sync W → Outcome W) → ℕ → List Transfer → ℕ → ℕ → Sync W → Outcome W
  resume_range again resume ts start end s =
      let complete = keep (λ t. ltb t.block_number resume) ts in
      let (written, error, s1) = persist_transfers env target complete s in
      elim error [
        | some e ↦ (0, some e, s1)
        | none ↦ elim (leb resume start) [
          | true ↦ isolate_block again written start end (report env count_split s1)
          | false ↦
              let s2 = report env (set_checkpoint target.action (sub_ℕ resume 1)) s1 in
              let (rest, rest_error, s3) = again resume end (report env count_split s2) in
              (written + rest, rest_error, s3)
        ]
      ]

  unfoldable pub at_page_limit :
      (ℕ → ℕ → Sync W → Outcome W) → List Transfer → Option ℕ → ℕ → ℕ → Sync W → Outcome W
  at_page_limit again [] last start end s = split_range again start end s
  at_page_limit again (t ∷ ts) none start end s =
      resume_range again (last_block t ts) (t ∷ ts) start end s
  at_page_limit again (t ∷ ts) (some last) start end s =
      resume_range again last (t ∷ ts) start end s

  -- All records are there: they are written, and the range is done.
  unfoldable pub finish_range : ℕ → List Transfer → ℕ → Sync W → Outcome W
  finish_range limit ts end s =
      let (written, error, s1) = persist_transfers env target (cut limit ts) s in
      elim error [
        | none ↦ (written, none, report env (set_checkpoint target.action (pos end)) s1)
        | some e ↦ (written, some e, s1)
      ]

  -- What the function does with the answer of the client, its recursive calls being `again`.
  unfoldable pub answer_range :
      (ℕ → ℕ → Sync W → Outcome W) → ℕ → ℕ → ℕ → Response → Sync W → Outcome W
  answer_range again limit start end (Response.record_limit ts) s =
      persist_transfers env target ts s
  answer_range again limit start end (Response.page_limit ts last) s = elim (start == end) [
    | true ↦ (0, some (Fault.failed (SyncError.page_limit target.action start)), s)
    | false ↦ at_page_limit again ts last start end s
  ]
  answer_range again limit start end (Response.failed e) s = (0, some (Fault.failed e), s)
  answer_range again limit start end (Response.complete ts) s = finish_range limit ts end s

  -- `limit` is the record limit that the context carries.
  unfoldable pub fetch_range_step : (ℕ → ℕ → Sync W → Outcome W) → ℕ → ℕ → ℕ → Sync W → Outcome W
  fetch_range_step again limit start end s =
      let (response, s1) = fetch env target limit start end s in
      answer_range again limit start end response s1

  unfoldable pub fetch_range : ℕ → ℕ → ℕ → ℕ → Sync W → Outcome W
  fetch_range zero limit start end s = (0, some Fault.unfinished, s)
  fetch_range (suc f) limit start end s = fetch_range_step (fetch_range f limit) limit start end s
