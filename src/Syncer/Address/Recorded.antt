-- ===== src/Syncer/Address/Recorded.antt =====
-- The end of `syncAddress` of internal/syncer/manager.go: what it records of the address.
use mathlib.Core.Path.{subst}
use eth_fund_trace.Prelude.{
  ℕ, ◌≡◌, refl, sym, not, List, [], ◌∷◌, Option, none, some, inl, inr, Bool-cases, keep, str_eq,
  String, if◌then◌else◌, arith,
}
use eth_fund_trace.Store.Transfer.{Transfer}
use eth_fund_trace.Store.Address.{Address, AddressSyncCoverage}
use eth_fund_trace.Syncer.State.{SyncError}
use eth_fund_trace.Syncer.Actions.{Checkpoints, Loop, Next, again, leave, fault, truncate}
use eth_fund_trace.Syncer.Actions.Keeps.{loop_of}
use eth_fund_trace.Syncer.Actions.Runs.{truncate_not_nil}
use eth_fund_trace.Syncer.Address.World.{AddressEnv, Work, tell}
use eth_fund_trace.Syncer.Address.{
  Config, Request, merged_coverage, record_outcome, hook_if_whole, call_hook, complete_address,
  after_actions,
}
use eth_fund_trace.Syncer.Address.Trusted.{Inert, Trusted, Backed}
use eth_fund_trace.Syncer.Address.Rounds.{True, Merged}
use eth_fund_trace.Syncer.Address.Cases.{then_done-case}

module _ {W : Type 0} {env : AddressEnv W} {config : Config} {chain_id : ℕ} {request : Request}
    {Holds : Transfer → W → Type 0} {covers : W → AddressSyncCoverage}
    {OnChain : String → Transfer → Type 0}
    (trusted : Trusted env config chain_id request Holds covers OnChain) where
  pub Inert-True :
      (f : W → W) (w : W)
      → Inert env config chain_id request Holds covers f
      → True trusted w
      → True trusted (f w)
  Inert-True f w i h =
      subst (λ c. Backed env config chain_id request Holds covers OnChain c (f w))
        (sym (i.covers_kept w)) (λ g t on v r. i.holds_kept _ w (h g t on v r))

  pub tell-True :
      (f : W → Option SyncError × W) (k : Work W)
      → Inert env config chain_id request Holds covers (λ w. (f w).1)
      → True trusted k.repo
      → True trusted (tell f k).1.repo
  unfolding tell
  tell-True f k i h = Inert-True (λ w. (f w).1) k.repo i h

  tell-Merged :
      (a : Address) (head : ℕ) (f : W → Option SyncError × W) (k : Work W)
      → Inert env config chain_id request Holds covers (λ w. (f w).1)
      → Merged trusted a head k.repo
      → Merged trusted a head (tell f k).1.repo
  unfolding tell
  tell-Merged a head f k i h g t on v r = i.holds_kept _ k.repo (h g t on v r)

  pub call_hook-True :
      (checkpoints : Checkpoints) (o : Option (String → String → W → Option SyncError × W))
      (k : Work W)
      → env.after_address_synced ≡ o
      → True trusted k.repo
      → True trusted (call_hook env config chain_id request checkpoints o k).1.repo
  unfolding call_hook
  call_hook-True checkpoints none k e h = h
  call_hook-True checkpoints (some hook) k e h = tell-True _ k (trusted.hook_inert hook e) h

  hook_if_whole-True :
      (checkpoints : Checkpoints) (truncated : List String) (k : Work W)
      → True trusted k.repo
      → True trusted (hook_if_whole env config chain_id request checkpoints truncated k).1.repo
  unfolding hook_if_whole
  hook_if_whole-True checkpoints [] k h =
      call_hook-True checkpoints env.after_address_synced k refl h
  hook_if_whole-True checkpoints (x ∷ xs) k h = h

  -- The ranges that are recorded are the merged ones, or as before.
  record_sync-True :
      (now head : ℕ) (a : Address) (w : W)
      → True trusted w
      → Merged trusted a head w
      → True trusted
          (env.complete_address_sync request.chain request.address
            (merged_coverage a request.start_block head)
            now
            w).1
  record_sync-True now head a w h merged =
      let c = merged_coverage a request.start_block head in
      let w' = (env.complete_address_sync request.chain request.address c now w).1 in
      let backed = λ (c' : AddressSyncCoverage).
        Backed env config chain_id request Holds covers OnChain c' w' in
      elim (trusted.sync_covers c now w) [
        | inl e ↦
            subst backed (sym e) (λ g t on v r. trusted.sync_keeps c now _ w (merged g t on v r))
        | inr e ↦ subst backed (sym e) (λ g t on v r. trusted.sync_keeps c now _ w (h g t on v r))
      ]

  record_outcome-True :
      (checkpoints : Checkpoints) (now head : ℕ) (a : Address) (truncated : List String)
      (k : Work W)
      → True trusted k.repo
      → (truncated ≡ [] → Merged trusted a head k.repo)
      → True trusted
          (record_outcome env config chain_id request checkpoints now head a truncated k).1.repo
  unfolding record_outcome tell
  record_outcome-True checkpoints now head a [] k h merged =
      record_sync-True now head a k.repo h (merged refl)
  record_outcome-True checkpoints now head a (x ∷ xs) k h merged =
      Inert-True _ k.repo (trusted.partial_inert head _ _ now) h

  untruncated :
      (l : Loop W)
      → (if l.action_limit_reached then truncate "high_frequency" l else l).result.truncated_actions
        ≡ []
      → l.result.truncated_actions ≡ []
  untruncated l e = elim (Bool-cases l.action_limit_reached) [
    | inl reached ↦ absurd (truncate_not_nil "high_frequency" l (ground arith))
    | inr free ↦ ground arith
  ]

  complete_address-True :
      (checkpoints : Checkpoints) (now head : ℕ) (a : Address) (l : Loop W) (k : Work W)
      → True trusted k.repo
      → (l.result.truncated_actions ≡ [] → Merged trusted a head k.repo)
      → True trusted
          (complete_address env config chain_id request checkpoints now head a l k).1.repo
  unfolding complete_address
  complete_address-True checkpoints now head a l k h merged =
      let found =
        trusted.discovered_inert
          (keep (λ address. not (str_eq address request.address)) l.sync.discovered) now in
      let told = tell-True _ k found h in
      let outcome =
        record_outcome-True checkpoints now head a _ _ told
          (λ e. tell-Merged a head _ k found (merged (untruncated l e))) in
      let hooked = hook_if_whole-True checkpoints _ _ outcome in
      then_done-case (True trusted) _ _ told (
        then_done-case (True trusted) _ _ outcome (then_done-case (True trusted) _ _ hooked hooked))

  pub after_actions-True :
      (checkpoints : Checkpoints) (now head : ℕ) (a : Address) (n : Next W) (k : Work W)
      → True trusted (loop_of n).sync.repo
      → ((l : Loop W)
          → n ≡ again l
          → l.result.truncated_actions ≡ []
          → Merged trusted a head l.sync.repo)
      → ((l : Loop W)
          → n ≡ leave l
          → l.result.truncated_actions ≡ []
          → Merged trusted a head l.sync.repo)
      → True trusted (after_actions env config chain_id request checkpoints now head a n k).1.repo
  unfolding after_actions loop_of
  after_actions-True checkpoints now head a (again l) k h on_again on_leave =
      complete_address-True checkpoints now head a l _ h (on_again l refl)
  after_actions-True checkpoints now head a (leave l) k h on_again on_leave =
      complete_address-True checkpoints now head a l _ h (on_leave l refl)
  after_actions-True checkpoints now head a (fault e l) k h on_again on_leave =
      tell-True _ _ (trusted.fail_inert e) h
