-- ===== src/Syncer/Actions/Forward.antt =====
-- What the loop over the histories of `syncAddress` of internal/syncer/manager.go has stored when it
-- goes oldest first: the records of every interval, also of those that it entered at a checkpoint.
use eth_fund_trace.Prelude.{
  ℕ, suc, ◌+◌, ◌-◌, ◌≤◌, ◌<◌, ◌≡◌, true, false, Option, none, some, ◌⊎◌, inl, inr, String, str_eq,
  ltb, leb, ltb→lt, ltb_false→le, arith,
}
use eth_fund_trace.Prelude.Int.{ℤ, pos, negsuc}
use eth_fund_trace.Store.Transfer.{Transfer}
use eth_fund_trace.Syncer.State.{Target, Env, Sync}
use eth_fund_trace.Syncer.Coverage.{Range, InRange}
use eth_fund_trace.Syncer.Persist.{stamp}
use eth_fund_trace.Syncer.FetchRange.{fetch_range}
use eth_fund_trace.Syncer.FetchRange.Laws.{fetch_range-Keeps}
use eth_fund_trace.Syncer.FetchRange.Complete.{at_limit, fetch_range-Covers}
use eth_fund_trace.Syncer.FetchRange.Checkpoints.{passed, fetch_range-Fresh}
use eth_fund_trace.Syncer.Contract.{Durable, Ascending}
use eth_fund_trace.Syncer.Actions.{
  high_frequency_record_limit, Checkpoints, shared, own, read_checkpoint, resume_start, Loop,
  forward_interval, sync_interval,
}
use eth_fund_trace.Syncer.Actions.Runs.{If, Runs, truncate_not_nil, after_range-Runs, choose-Runs}

-- A history without a limit for each action, over a client that lists oldest first and a database
-- that keeps what it acknowledges.
pub record Served {W : Type 0} (env : Env W) (Holds : Transfer → W → Type 0)
    (OnChain : String → Transfer → Type 0) (target : Target) : Type 0 where
  pub durable : Durable env target Holds
  pub unlimited : target.max_records ≡ 0
  pub ascending : (limit : ℕ) → 0 < limit → Ascending env target (OnChain target.action) limit

resume_start-passed :
    (checkpoint : Option ℤ) (from b : ℕ)
    → from ≤ b
    → b < resume_start checkpoint from
    → passed checkpoint b ≡ true
unfolding resume_start passed
resume_start-passed none from b le lt = absurd (omega arith)
resume_start-passed (some (negsuc n)) from b le lt = absurd (omega arith)
resume_start-passed (some (pos n)) from b le lt = ground arith

resume_start-le :
    (checkpoint : Option ℤ) (from b : ℕ)
    → from ≤ b
    → passed checkpoint b ≡ false
    → resume_start checkpoint from ≤ b
resume_start-le checkpoint from b le fresh =
    ground (arith, resume_start-passed checkpoint from b le)

at_limit_below :
    (limit counted count : ℕ) → counted + count < limit → at_limit (limit - counted) count ≡ false
unfolding at_limit
at_limit_below limit counted count lt = ground arith

module _ {W : Type 0} (Holds : Transfer → W → Type 0) (v : Transfer) where
  abbrev pub Held : Sync W → Type 0
  Held s = Holds v s.repo

  -- The record is stored, or the checkpoint does not let the loop pass its block.
  abbrev pub Good : Checkpoints → String → ℕ → Sync W → Type 0
  Good checkpoints read b s = (passed (read_checkpoint checkpoints read s) b ≡ false) ⊎ Held s

read_checkpoint-fetch_range :
    {W : Type 0} {env : Env W} {Holds : Transfer → W → Type 0}
    {OnChain : String → Transfer → Type 0} {target : Target}
    (served : Served env Holds OnChain target) (checkpoints : Checkpoints) (read : String)
    (b limit start end : ℕ) (s : Sync W)
    → 0 < limit
    → start ≤ end
    → (str_eq target.action read ≡ true → end < b)
    → passed (read_checkpoint checkpoints read s) b ≡ false
    → passed
        (read_checkpoint checkpoints read
          (fetch_range env target (suc (end - start)) limit start end s).2)
        b
      ≡ false
unfolding read_checkpoint
read_checkpoint-fetch_range served shared read b limit start end s p le before h =
    fetch_range-Fresh (served.ascending limit p) read b (suc (end - start)) start end s le before h
read_checkpoint-fetch_range served (own d) read b limit start end s p le before h = h

module _ {W : Type 0} {env : Env W} {Holds : Transfer → W → Type 0}
    {OnChain : String → Transfer → Type 0} (checkpoints : Checkpoints) {target : Target}
    (served : Served env Holds OnChain target) where
  -- What holds behind every fetch of the interval holds behind its round.
  sync_interval-Runs :
      (P Q : Sync W → Type 0) (from to : ℕ) (l : Loop W)
      → If P l
      → (let start = resume_start (read_checkpoint checkpoints target.action l.sync) from in
          let remaining = high_frequency_record_limit - l.result.fetched in
          let o = fetch_range env target (suc (to - start)) remaining start to l.sync in
          P l.sync
          → 0 < remaining
          → ((to < start) → Q l.sync)
            × (start ≤ to → o.1 ≡ none → at_limit remaining o.0 ≡ false → Q o.2))
      → Runs Q (sync_interval env checkpoints target (from, to) l)
  unfolding sync_interval forward_interval
  sync_interval-Runs P Q from to l p step =
      let start = resume_start (read_checkpoint checkpoints target.action l.sync) from in
      let remaining = high_frequency_record_limit - l.result.fetched in
      choose-Runs Q (leb high_frequency_record_limit l.result.fetched) _ _
        (λ full clean. truncate_not_nil "high_frequency" l clean)
        (λ short.
          choose-Runs Q (ltb 0 target.max_records) _ _
            (λ limited. absurd (ground (arith, served.unlimited)))
            (λ free.
              choose-Runs Q (ltb to start) _ _
                (λ skipped clean.
                  let (unmet, now) = p clean in
                  (unmet, (step now (ground arith)).0 (ltb→lt to start skipped)))
                (λ left. after_range-Runs Q target.action l _ (λ clean ok below.
                  let (unmet, now) = p clean in
                  (
                    unmet,
                    (step now (ground arith)).1 (ltb_false→le to start left) ok
                        (at_limit_below high_frequency_record_limit l.result.fetched _ below),
                  )))))

  pub sync_interval-Held :
      (v : Transfer) (interval : Range) (l : Loop W)
      → If (Held Holds v) l
      → Runs (Held Holds v) (sync_interval env checkpoints target interval l)
  sync_interval-Held v (from, to) l h =
      sync_interval-Runs (Held Holds v) (Held Holds v) from to l h (λ held p.
        (λ skipped. held, λ le ok below. fetch_range-Keeps (served.durable.keeps v) _ _ _ _ _ held))

  pub sync_interval-Good :
      (v : Transfer) (read : String) (b from to : ℕ) (l : Loop W)
      → (str_eq target.action read ≡ true → to < b)
      → If (Good Holds v checkpoints read b) l
      → Runs (Good Holds v checkpoints read b) (sync_interval env checkpoints target (from, to) l)
  sync_interval-Good v read b from to l before h =
      let good = Good Holds v checkpoints read b in
      sync_interval-Runs good good from to l h (λ now p. (
        λ skipped. now,
        λ le ok below. elim now [
          | inl fresh ↦ inl (
              read_checkpoint-fetch_range served checkpoints read b _ _ to l.sync p le before fresh)
          | inr held ↦ inr (fetch_range-Keeps (served.durable.keeps v) _ _ _ _ _ held)
        ],
      ))

  module _ (t : Transfer) (on_chain : OnChain target.action t) where
    pub sync_interval-Stored :
        (from to : ℕ) (l : Loop W)
        → InRange t.block_number (from, to)
        → If (Good Holds (stamp target t) checkpoints target.action t.block_number) l
        → Runs (Held Holds (stamp target t)) (sync_interval env checkpoints target (from, to) l)
    sync_interval-Stored from to l (lo, hi) h =
        let good = Good Holds (stamp target t) checkpoints target.action t.block_number in
        sync_interval-Runs good (Held Holds (stamp target t)) from to l h (λ now p. elim now [
          | inl fresh ↦
              let reached =
                resume_start-le (read_checkpoint checkpoints target.action l.sync) from
                  t.block_number lo fresh in
              (
                λ skipped. absurd (omega arith),
                λ le ok below.
                    fetch_range-Covers served.durable (served.ascending _ p) t on_chain _ _ to
                      l.sync ok below reached hi,
              )
          | inr held ↦ (
            λ skipped. held,
            λ le ok below. fetch_range-Keeps (served.durable.keeps (stamp target t)) _ _ _ _ _ held,
          )
        ])
