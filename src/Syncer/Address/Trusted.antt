-- ===== src/Syncer/Address/Trusted.antt =====
-- What `syncAddress` of internal/syncer/manager.go relies on: which calls leave the recorded ranges
-- and the stored records alone, and when the recorded ranges are true.
use eth_fund_trace.Prelude.{ℕ, ◌≤◌, ◌≡◌, Bool, true, Option, some, ◌⊎◌, List, String}
use eth_fund_trace.Prelude.Dict.{Dict}
use eth_fund_trace.Store.Transfer.{Transfer}
use eth_fund_trace.Store.Address.{Address, AddressSyncCoverage}
use eth_fund_trace.Syncer.State.{SyncError, Fault}
use eth_fund_trace.Syncer.Coverage.{Range, InRange, valid_coverage}
use eth_fund_trace.Syncer.Persist.{stamp}
use eth_fund_trace.Syncer.Contract.{Keeps}
use eth_fund_trace.Syncer.FetchRange.Checkpoints.{passed}
use eth_fund_trace.Syncer.Actions.{Checkpoints, read_checkpoint}
use eth_fund_trace.Syncer.Actions.Forward.{Served}
use eth_fund_trace.Syncer.Address.World.{ok, AddressEnv, Work}
use eth_fund_trace.Syncer.Address.{Config, Request, target_of, first_round}

-- The three histories of an address.
pub data History : Type 0 where
  normal internal token : History

unfoldable pub action_of : History → String
action_of normal = "txlist"
action_of internal = "txlistinternal"
action_of token = "tokentx"

unfoldable pub range_of : History → AddressSyncCoverage → Range
range_of normal c = (c.normal_from, c.normal_to)
range_of internal c = (c.internal_from, c.internal_to)
range_of token c = (c.token_from, c.token_to)

abbrev pub coverage_of : Address → AddressSyncCoverage
coverage_of a = record {
  normal_from = a.normal_synced_from;
  normal_to = a.normal_synced_to;
  internal_from = a.internal_synced_from;
  internal_to = a.internal_synced_to;
  token_from = a.token_synced_from;
  token_to = a.token_synced_to;
}

module _ {W : Type 0} (env : AddressEnv W) (config : Config) (chain_id : ℕ) (request : Request)
    (Holds : Transfer → W → Type 0) (covers : W → AddressSyncCoverage) where
  -- A call that removes no record and leaves the recorded ranges of the address.
  pub record Inert (f : W → W) : Type 0 where
    pub holds_kept : (v : Transfer) (w : W) → Holds v w → Holds v (f w)
    pub covers_kept : (w : W) → covers (f w) ≡ covers w

  module _ (OnChain : String → Transfer → Type 0) where
    -- The database and the client of one address, without a limit for each action. `covers` reads
    -- the recorded ranges of the address.
    pub record Trusted : Type 0 where
      pub served :
          (h : History)
          → Served env.base Holds OnChain (target_of config chain_id request (action_of h))
      pub fetch_inert :
          (h : History) (c : AddressSyncCoverage)
          → Keeps env.base (target_of config chain_id request (action_of h)) (λ w. covers w ≡ c)
      pub find_inert : Inert (λ w. (env.find_address request.chain request.address w).1)
      pub finds :
          (w : W) (a : Address) (exists : Bool)
          → (env.find_address request.chain request.address w).0 ≡ ok (a, exists)
          → coverage_of a ≡ covers w
      pub counts_inert :
          (limit : ℕ)
          → Inert (λ w.
            (env.ensure_address_action_counts request.chain chain_id request.address limit w).1)
      pub latest_inert : Inert (λ w. (env.latest_block w).1)
      pub syncing_inert :
          Inert (λ w. (env.set_address_syncing request.chain chain_id request.address w).1)
      pub partial_inert :
          (head limit : ℕ) (reason : String) (now : ℕ)
          → Inert (λ w.
            (env.complete_address_partial request.chain request.address head limit reason now w).1)
      pub fail_inert :
          (e : Fault) → Inert (λ w. (env.fail_address_sync request.chain request.address e w).1)
      pub discovered_inert :
          (found : List String) (now : ℕ)
          → Inert (λ w. (env.upsert_discovered_addresses request.chain chain_id found now w).1)
      pub hook_inert :
          (hook : String → String → W → Option SyncError × W)
          → env.after_address_synced ≡ some hook
          → Inert (λ w. (hook request.chain request.address w).1)
      -- The ranges are replaced, or the call failed and they are as before.
      pub sync_keeps :
          (c : AddressSyncCoverage) (now : ℕ) (v : Transfer) (w : W)
          → Holds v w
          → Holds v (env.complete_address_sync request.chain request.address c now w).1
      pub sync_covers :
          (c : AddressSyncCoverage) (now : ℕ) (w : W)
          → let w' = (env.complete_address_sync request.chain request.address c now w).1 in
            (covers w' ≡ c) ⊎ (covers w' ≡ covers w)

  module _ (OnChain : String → Transfer → Type 0) where
    -- Every record of the chain in a range is stored.
    abbrev pub Backed : AddressSyncCoverage → W → Type 0
    Backed c w =
        (h : History) (t : Transfer)
        → OnChain (action_of h) t
        → valid_coverage (range_of h c).0 (range_of h c).1 ≡ true
        → InRange t.block_number (range_of h c)
        → Holds (stamp (target_of config chain_id request (action_of h)) t) w

    -- The recorded ranges are true.
    abbrev pub Truthful : W → Type 0
    Truthful w = Backed (covers w) w

    -- What a checkpoint lets the loop pass is stored.
    abbrev pub Resumable : Checkpoints → Work W → Type 0
    Resumable checkpoints k =
        (h : History) (t : Transfer) (counts : Dict ℕ)
        → OnChain (action_of h) t
        → request.start_block ≤ t.block_number
        → passed
            (read_checkpoint checkpoints (action_of h)
              (first_round env config chain_id request checkpoints counts k).sync)
            t.block_number
          ≡ true
        → Holds (stamp (target_of config chain_id request (action_of h)) t) k.repo
