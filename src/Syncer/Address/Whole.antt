-- ===== src/Syncer/Address/Whole.antt =====
-- The ranges that `syncAddress` of internal/syncer/manager.go records, against the stored records.
use mathlib.Core.Path.{subst}
use eth_fund_trace.Prelude.{ℕ, ◌≡◌, refl, sym, ◌∙◌, Bool, true, Option, none, some, String, ltb}
use eth_fund_trace.Prelude.Dict.{Dict}
use eth_fund_trace.Store.Transfer.{Transfer}
use eth_fund_trace.Store.Address.{Address, AddressSyncCoverage}
use eth_fund_trace.Syncer.Actions.{Checkpoints}
use eth_fund_trace.Syncer.FetchRange.Checkpoints.{passed}
use eth_fund_trace.Syncer.Address.World.{AddressEnv, Work, ask, tell}
use eth_fund_trace.Syncer.Address.{
  Config, Request, sync_range, sync_missing, safe_head_or, serve_cached, sync_known, full_cache,
  is_high_frequency, sync_address, counts_or,
}
use eth_fund_trace.Syncer.Address.Trusted.{
  action_of, coverage_of, Inert, Trusted, Truthful, Resumable,
}
use eth_fund_trace.Syncer.Address.Rounds.{True, rounds, rounds-True, rounds-again, rounds-leave}
use eth_fund_trace.Syncer.Address.Cases.{
  then_ok-case, then_ok-work, then_done-case, choose-work, choose-case, read_first, fault_of-ok,
}
use eth_fund_trace.Syncer.Address.Recorded.{
  Inert-True, tell-True, call_hook-True, after_actions-True,
}

module _ {W : Type 0} {env : AddressEnv W} {config : Config} {chain_id : ℕ} {request : Request}
    {Holds : Transfer → W → Type 0} {covers : W → AddressSyncCoverage}
    {OnChain : String → Transfer → Type 0}
    (trusted : Trusted env config chain_id request Holds covers OnChain) where
  abbrev Start : Checkpoints → Work W → Type 0
  Start checkpoints k = Resumable env config chain_id request Holds covers OnChain checkpoints k

  -- A call that changes the world only leaves the checkpoints.
  Inert-Start :
      (checkpoints : Checkpoints) (f : W → W) (k : Work W)
      → Inert env config chain_id request Holds covers f
      → Start checkpoints k
      → Start checkpoints (record k { repo = f k.repo })
  Inert-Start checkpoints f k i r h t counts on lo p = i.holds_kept _ k.repo (
      r h t counts on lo (
        subst (λ c. passed c t.block_number ≡ true)
          (read_first env config chain_id request checkpoints (action_of h) counts k (f k.repo)) p))

  sync_range-True :
      (checkpoints : Checkpoints) (now : ℕ) (a : Address) (counts : Dict ℕ) (head : ℕ) (k : Work W)
      → True trusted k.repo
      → coverage_of a ≡ covers k.repo
      → Start checkpoints k
      → True trusted (sync_range env config chain_id request checkpoints now a counts head k).1.repo
  unfolding sync_range tell
  sync_range-True checkpoints now a counts head k h same start =
      let syncing = trusted.syncing_inert in
      let k' = (tell (env.set_address_syncing request.chain chain_id request.address) k).1 in
      let h' = Inert-True trusted _ k.repo syncing h in
      let same' = same ∙ sym (syncing.covers_kept k.repo) in
      let start' = Inert-Start checkpoints _ k syncing start in
      choose-case (True trusted) (ltb head request.start_block) _ _ (λ empty. h)
        (λ wanted. then_done-case (True trusted) _ _ h' (
          after_actions-True trusted checkpoints now head a
            (rounds trusted checkpoints now head a counts k' h' same' start') k'
            (rounds-True trusted checkpoints now head a counts k' h' same' start')
            (rounds-again trusted checkpoints now head a counts k' h' same' start')
            (rounds-leave trusted checkpoints now head a counts k' h' same' start')))

  -- What the fetch of the missing blocks starts from.
  record Ready (checkpoints : Checkpoints) (c : AddressSyncCoverage) (k : Work W) : Type 0 where
    true_now : True trusted k.repo
    same : c ≡ covers k.repo
    start : Start checkpoints k

  Inert-Ready :
      (checkpoints : Checkpoints) (c : AddressSyncCoverage) (f : W → W) (k : Work W)
      → Inert env config chain_id request Holds covers f
      → Ready checkpoints c k
      → Ready checkpoints c (record k { repo = f k.repo })
  Inert-Ready checkpoints c f k i r = record {
    true_now = Inert-True trusted f k.repo i r.true_now;
    same = r.same ∙ sym (i.covers_kept k.repo);
    start = Inert-Start checkpoints f k i r.start;
  }

  safe_head_or-Ready :
      (checkpoints : Checkpoints) (c : AddressSyncCoverage) (head : Option ℕ) (k : Work W)
      → Ready checkpoints c k
      → Ready checkpoints c (safe_head_or env config chain_id request checkpoints head k).1
  unfolding safe_head_or ask
  safe_head_or-Ready checkpoints c (some head) k r = r
  safe_head_or-Ready checkpoints c none k r =
      let read = Inert-Ready checkpoints c (λ w. (env.latest_block w).1) k trusted.latest_inert r in
      then_ok-work (Ready checkpoints c) _ _ read
        (λ latest e. record { true_now = read.true_now; same = read.same; start = read.start })

  counts_or-Ready :
      (checkpoints : Checkpoints) (c : AddressSyncCoverage) (counts : Option (Dict ℕ)) (k : Work W)
      → Ready checkpoints c k
      → Ready checkpoints c (counts_or env config chain_id request checkpoints counts k).1
  unfolding counts_or ask
  counts_or-Ready checkpoints c (some counts) k r = r
  counts_or-Ready checkpoints c none k r =
      choose-work (Ready checkpoints c) (ltb 0 config.max_records_per_action) _ _
        (λ limited. Inert-Ready checkpoints c _ k (trusted.counts_inert _) r) (λ free. r)

  sync_missing-True :
      (checkpoints : Checkpoints) (now : ℕ) (a : Address) (counts : Dict ℕ) (k : Work W)
      → Ready checkpoints (coverage_of a) k
      → True trusted (sync_missing env config chain_id request checkpoints now a counts k).1.repo
  unfolding sync_missing
  sync_missing-True checkpoints now a counts k r =
      let r' = safe_head_or-Ready checkpoints (coverage_of a) k.safe_head k r in
      then_ok-case (True trusted) _ _ r'.true_now
        (λ head e. sync_range-True checkpoints now a counts _ _ r'.true_now r'.same r'.start)

  serve_cached-True :
      (checkpoints : Checkpoints) (now : ℕ) (a : Address) (k : Work W)
      → True trusted k.repo
      → True trusted (serve_cached env config chain_id request checkpoints now a k).1.repo
  unfolding serve_cached
  serve_cached-True checkpoints now a k h =
      let hooked =
        choose-work (λ k'. True trusted k'.repo) (full_cache config request now a) _ _
          (λ full. call_hook-True trusted checkpoints env.after_address_synced k refl h)
          (λ other. h) in
      then_done-case (True trusted) _ _ hooked hooked

  sync_known-True :
      (checkpoints : Checkpoints) (now : ℕ) (a : Address) (exists : Bool) (counts : Dict ℕ)
      (k : Work W)
      → Ready checkpoints (coverage_of a) k
      → True trusted
          (sync_known env config chain_id request checkpoints now a exists counts k).1.repo
  unfolding sync_known
  sync_known-True checkpoints now a exists counts k r =
      let stopped =
        tell-True trusted _ k (trusted.partial_inert 0 _ "high_frequency" now) r.true_now in
      choose-case (True trusted) (is_high_frequency config request now a counts) _ _
        (λ full. then_done-case (True trusted) _ _ stopped stopped)
        (λ open_now.
          choose-case (True trusted) _ _ _
            (λ cached. serve_cached-True checkpoints now a k r.true_now)
            (λ stale. sync_missing-True checkpoints now a counts k r))

-- Over a database that keeps its records and a client that lists oldest first, without a limit for
-- each action: when the recorded ranges of the address are true (every record of the chain in them
-- is stored) and so are the checkpoints that the job starts from, the recorded ranges are true
-- behind `sync_address`, whether it ends from the cache, complete, truncated or with an error.
pub sync_address-Truthful :
    {W : Type 0} {env : AddressEnv W} {config : Config} {chain_id : ℕ} {request : Request}
    {Holds : Transfer → W → Type 0} {covers : W → AddressSyncCoverage}
    {OnChain : String → Transfer → Type 0}
    (trusted : Trusted env config chain_id request Holds covers OnChain) (checkpoints : Checkpoints)
    (k : Work W)
    → Truthful env config chain_id request Holds covers OnChain k.repo
    → Resumable env config chain_id request Holds covers OnChain checkpoints k
    → Truthful env config chain_id request Holds covers OnChain
        (sync_address env config chain_id request checkpoints k).1.repo
unfolding sync_address ask
sync_address-Truthful {env = env} {request = request} {covers = covers} trusted checkpoints k h
      start =
    let find = env.find_address request.chain request.address in
    let found =
      Inert-Ready trusted checkpoints (covers k.repo) (λ w. (find w).1) k trusted.find_inert
        (record { true_now = h; same = refl; start = start }) in
    then_ok-case (True trusted) _ _ found.true_now (λ (a, exists) e.
      let same = trusted.finds k.repo a exists (fault_of-ok (find k.repo).0 (a, exists) e) in
      let counted =
        counts_or-Ready trusted checkpoints (coverage_of a) a.action_record_counts _
          (record { true_now = found.true_now; same = same ∙ found.same; start = found.start }) in
      then_ok-case (True trusted) _ _ counted.true_now
        (λ counts e'. sync_known-True trusted checkpoints _ a exists counts _ counted))
