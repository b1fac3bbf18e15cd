-- ===== src/Syncer/Address/Ends.antt =====
-- `syncAddress` of internal/syncer/manager.go ends by itself.
use eth_fund_trace.Prelude.{
  ℕ, ◌≢◌, Bool, true, false, List, [], ◌∷◌, Option, none, some, String, ltb, if◌then◌else◌, arith,
}
use eth_fund_trace.Prelude.Dict.{Dict}
use eth_fund_trace.Store.Transfer.{Transfer}
use eth_fund_trace.Store.Address.{Address}
use eth_fund_trace.Syncer.State.{SyncError, Fault}
use eth_fund_trace.Syncer.Actions.{Checkpoints, Loop, Next, again, leave, fault}
use eth_fund_trace.Syncer.Actions.Ends.{Ends, Listed, sync_actions-Ends}
use eth_fund_trace.Syncer.Address.World.{
  Answer, ok, err, AddressEnv, Work, ask, tell, then_ok, then_done, fault_of, fault_if,
}
use eth_fund_trace.Syncer.Address.{
  Config, Request, target_of, plan, record_outcome, hook_if_whole, call_hook, complete_address,
  after_actions, sync_range, sync_missing, safe_head_or, serve_cached, sync_known, sync_address,
  counts_or, is_high_frequency,
}

abbrev Settled : {W A : Type 0} → Answer Fault A × Work W → Type 0
Settled o = o.0 ≢ err Fault.unfinished

abbrev Through : {W : Type 0} → Option Fault × Work W → Type 0
Through o = o.0 ≢ some Fault.unfinished

fault_of-settled : {A : Type 0} (r : Answer SyncError A) → fault_of r ≢ err Fault.unfinished
unfolding fault_of
fault_of-settled (ok a) = cc
fault_of-settled (err e) = cc

fault_if-through : (e : Option SyncError) → fault_if e ≢ some Fault.unfinished
unfolding fault_if
fault_if-through none = cc
fault_if-through (some e) = cc

module _ {W : Type 0} where
  choose-Settled :
      {A : Type 0} (c : Bool) (x y : Answer Fault A × Work W)
      → Settled x
      → Settled y
      → Settled (if c then x else y)
  choose-Settled true x y first second = first
  choose-Settled false x y first second = second

  then_ok-Settled :
      {A B : Type 0} (x : Answer Fault A × Work W) (next : A → Work W → Answer Fault B × Work W)
      → Settled x
      → ((a : A) (k : Work W) → Settled (next a k))
      → Settled (then_ok x next)
  unfolding then_ok
  then_ok-Settled (ok a, k) next h step = step a k
  then_ok-Settled (err e, k) next h step = λ p. h (ground arith)

  then_done-Settled :
      {B : Type 0} (x : Option Fault × Work W) (next : Work W → Answer Fault B × Work W)
      → Through x
      → ((k : Work W) → Settled (next k))
      → Settled (then_done x next)
  unfolding then_done
  then_done-Settled (none, k) next h step = step k
  then_done-Settled (some e, k) next h step = λ p. h (ground arith)

  ask-Settled : {A : Type 0} (f : W → Answer SyncError A × W) (k : Work W) → Settled (ask f k)
  unfolding ask
  ask-Settled f k = fault_of-settled (f k.repo).0

  tell-Through : (f : W → Option SyncError × W) (k : Work W) → Through (tell f k)
  unfolding tell
  tell-Through f k = fault_if-through (f k.repo).0

module _ {W : Type 0} (env : AddressEnv W) (config : Config) (chain_id : ℕ) (request : Request)
    (checkpoints : Checkpoints) where
  call_hook-Through :
      (o : Option (String → String → W → Option SyncError × W)) (k : Work W)
      → Through (call_hook env config chain_id request checkpoints o k)
  unfolding call_hook
  call_hook-Through none k = cc
  call_hook-Through (some hook) k = tell-Through _ k

  hook_if_whole-Through :
      (truncated : List String) (k : Work W)
      → Through (hook_if_whole env config chain_id request checkpoints truncated k)
  unfolding hook_if_whole
  hook_if_whole-Through [] k = call_hook-Through env.after_address_synced k
  hook_if_whole-Through (x ∷ xs) k = cc

  record_outcome-Through :
      (now head : ℕ) (a : Address) (truncated : List String) (k : Work W)
      → Through (record_outcome env config chain_id request checkpoints now head a truncated k)
  unfolding record_outcome
  record_outcome-Through now head a [] k = tell-Through _ k
  record_outcome-Through now head a (x ∷ xs) k = tell-Through _ k

  complete_address-Settled :
      (now head : ℕ) (a : Address) (l : Loop W) (k : Work W)
      → Settled (complete_address env config chain_id request checkpoints now head a l k)
  unfolding complete_address
  complete_address-Settled now head a l k = then_done-Settled _ _ (tell-Through _ k) (λ k1.
      then_done-Settled _ _ (record_outcome-Through now head a _ k1)
        (λ k2. then_done-Settled _ _ (hook_if_whole-Through _ k2) (λ k3. cc)))

  after_actions-Settled :
      (now head : ℕ) (a : Address) (n : Next W) (k : Work W)
      → Ends n
      → Settled (after_actions env config chain_id request checkpoints now head a n k)
  unfolding after_actions
  after_actions-Settled now head a (again l) k h = complete_address-Settled now head a l _
  after_actions-Settled now head a (leave l) k h = complete_address-Settled now head a l _
  after_actions-Settled now head a (fault e l) k h = λ p. h (ground arith)

  safe_head_or-Settled :
      (head : Option ℕ) (k : Work W)
      → Settled (safe_head_or env config chain_id request checkpoints head k)
  unfolding safe_head_or
  safe_head_or-Settled (some head) k = cc
  safe_head_or-Settled none k =
      then_ok-Settled _ _ (ask-Settled env.latest_block k) (λ latest k'. cc)

  counts_or-Settled :
      (counts : Option (Dict ℕ)) (k : Work W)
      → Settled (counts_or env config chain_id request checkpoints counts k)
  unfolding counts_or
  counts_or-Settled (some counts) k = cc
  counts_or-Settled none k =
      choose-Settled (ltb 0 config.max_records_per_action) _ _ (ask-Settled _ k) cc

  serve_cached-Settled :
      (now : ℕ) (a : Address) (k : Work W)
      → Settled (serve_cached env config chain_id request checkpoints now a k)
  unfolding serve_cached
  serve_cached-Settled now a k =
      then_done-Settled _ _ (ground (arith, call_hook-Through env.after_address_synced k))
        (λ k'. cc)

  module _ (OnChain : String → Transfer → Type 0)
      (listed : (action : String)
        → Listed env.base OnChain (target_of config chain_id request action)) where
    sync_range-Settled :
        (now : ℕ) (a : Address) (counts : Dict ℕ) (head : ℕ) (k : Work W)
        → Settled (sync_range env config chain_id request checkpoints now a counts head k)
    unfolding sync_range plan
    sync_range-Settled now a counts head k =
        choose-Settled (ltb head request.start_block) _ _ (λ p. ground (arith, p))
          (then_done-Settled _ _ (tell-Through _ k) (λ k'. after_actions-Settled now head a _ k' (
            sync_actions-Ends env.base checkpoints OnChain _ _
              (listed "txlist", (listed "txlistinternal", (listed "tokentx", tt))))))

    sync_missing-Settled :
        (now : ℕ) (a : Address) (counts : Dict ℕ) (k : Work W)
        → Settled (sync_missing env config chain_id request checkpoints now a counts k)
    unfolding sync_missing
    sync_missing-Settled now a counts k =
        then_ok-Settled _ _ (safe_head_or-Settled k.safe_head k)
          (λ head k'. sync_range-Settled now a counts _ k')

    sync_known-Settled :
        (now : ℕ) (a : Address) (exists : Bool) (counts : Dict ℕ) (k : Work W)
        → Settled (sync_known env config chain_id request checkpoints now a exists counts k)
    unfolding sync_known
    sync_known-Settled now a exists counts k =
        choose-Settled (is_high_frequency config request now a counts) _ _
          (then_done-Settled _ _ (tell-Through _ k) (λ k'. cc))
          (choose-Settled _ _ _ (serve_cached-Settled now a k)
            (sync_missing-Settled now a counts k))

-- Over a client that lists each of the three histories oldest first, whatever its record limit:
-- `sync_address` ends by itself, with a result or with an error of the code, for every record limit,
-- request and state of the checkpoints; the fuel that the model gives its loops is never used up.
pub sync_address_ends :
    {W : Type 0} (env : AddressEnv W) (config : Config) (chain_id : ℕ) (request : Request)
    (checkpoints : Checkpoints) (OnChain : String → Transfer → Type 0)
    (listed : (action : String)
      → Listed env.base OnChain (target_of config chain_id request action))
    (k : Work W)
    → (sync_address env config chain_id request checkpoints k).0 ≢ err Fault.unfinished
unfolding sync_address
sync_address_ends env config chain_id request checkpoints OnChain listed k =
    then_ok-Settled _ _ (ask-Settled _ k) (λ (a, exists) k1.
      then_ok-Settled _ _
        (counts_or-Settled env config chain_id request checkpoints a.action_record_counts k1)
        (λ counts k2.
          sync_known-Settled env config chain_id request checkpoints OnChain listed _ a exists
            counts k2))
