-- ===== src/Tracer/Search.antt =====
-- The search of `traceSameChain` in internal/tracer/tracer.go: its state, the calls of the
-- repository, the inspector, the analyzer and the verifiers, and the small loops over slices. The
-- children are its parts, and what is proved of them.
pub mod Endpoints
pub mod CrossChain
pub mod Convert
pub mod Side
pub mod Visit
pub mod Expand
pub mod Rounds
pub mod Trace
pub mod Touched
pub mod Calls
pub mod Grown
pub mod Following
pub mod Walking
pub mod Wanted
pub mod Ends
pub mod Seeds
pub mod Whole
use eth_fund_trace.Prelude.{
  ℕ, zero, suc, Bool, true, false, ◌&&◌, List, [], ◌∷◌, ◌++◌, Option, none, some, String, str_eq,
  if◌then◌else◌, any, length,
}
use eth_fund_trace.Prelude.Dict.{Dict}
use eth_fund_trace.Prelude.Answers.{Answer, ok, err}
use eth_fund_trace.Text.{to_lower, equal_fold}
use eth_fund_trace.Store.Address.{Address, AddressIdentity}
use eth_fund_trace.Store.Analysis.{TransactionAnalysis}
use eth_fund_trace.Store.Label.{Label}
use eth_fund_trace.Store.Transfer.{Transfer, TransferQuery}
use eth_fund_trace.Tracer.Types.{Node, BranchState, TraceResult}
use eth_fund_trace.Tracer.Branch.{Stop, not_synced, failed}
use eth_fund_trace.Tracer.Identity.{contains_role}

abbrev pub max_trace_nodes : ℕ
max_trace_nodes = 5000

abbrev pub trace_transfer_record_cap : ℕ
trace_transfer_record_cap = 50000

-- `VerifiedCrossChainTransfer`
pub record VerifiedTransfer : Type 0 where
  pub protocol : String
  pub source_chain : String
  pub target_chain : String
  pub from : String
  pub to : String
  pub asset : String
  pub amount : String
  pub tx_hash : String
  pub block_number : ℕ

-- The fields of the graph, and the calls that it makes; `E` are their errors.
pub record TraceGraph (W E : Type 0) : Type 0 where
  pub existing_data_only : Bool
  pub required_start_block : String → ℕ
  pub terminal_dependencies : Dict String
  pub find_address : String → String → W → Answer E (Address × Bool) × W
  pub list_labels : String → String → W → Answer E (List Label) × W
  pub set_address_identity : String → String → AddressIdentity → W → Option E × W
  pub query_transfers : TransferQuery → W → Answer E (List Transfer) × W
  -- `none` too where the inspector knows no addresses, or is missing.
  pub known_address_identity : String → String → Option AddressIdentity
  pub has_inspector : Bool
  pub inspect_address : String → String → W → Answer E AddressIdentity × W
  pub has_analyzer : Bool
  pub analyze_transaction : String → String → W → Answer E TransactionAnalysis × W
  pub verifiers : List (TransactionAnalysis → W → Answer E (Option VerifiedTransfer) × W)
  -- `ctx.Err()`
  pub context_error : W → Option E

-- The result so far, and the sets and the queues of the loops. A set is the list of its elements.
pub record Search (W : Type 0) : Type 0 where
  pub result : TraceResult
  pub visited_states : List String
  pub visited_nodes : List String
  pub next : List BranchState
  pub processed : List String
  pub expanded : List String
  pub repo : W

-- Where a call returns an error, only what was written to the repository is left.
pub data Run (W E A : Type 0) : Type 0 where
  goes : A → Run W E A
  stops : Stop E → W → Run W E A

unfoldable pub and_then : {W E A B : Type 0} → Run W E A → (A → Run W E B) → Run W E B
and_then (goes a) f = f a
and_then (stops s w) f = stops s w

-- `set[key]`
unfoldable pub has_key : String → List String → Bool
has_key key keys = any (str_eq key) keys

-- `set[key] = true`
unfoldable pub add_key : String → List String → List String
add_key key keys = if has_key key keys then keys else key ∷ keys

-- A write to an element of a slice; nothing happens out of bounds.
unfoldable pub change_at {ℓ} : {A : Type ℓ} → ℕ → (A → A) → List A → List A
change_at i change [] = []
change_at zero change (x ∷ xs) = change x ∷ xs
change_at (suc i) change (x ∷ xs) = x ∷ change_at i change xs

unfoldable pub set_data_status : String → TraceResult → TraceResult
set_data_status status result = record result { data_status = status }

unfoldable pub set_nodes : List Node → TraceResult → TraceResult
set_nodes nodes result = record result { nodes = nodes }

-- The protocol and the roles of the nodes of an address.
unfoldable pub set_protocol : String → String → AddressIdentity → List Node → List Node
set_protocol chain address identity [] = []
set_protocol chain address identity (node ∷ nodes) =
    (if str_eq node.chain chain && equal_fold node.address address
      then record node { protocol = identity.protocol; roles = identity.roles }
      else node)
    ∷ set_protocol chain address identity nodes

unfoldable pub with_vault_role : AddressIdentity → AddressIdentity
with_vault_role identity = record identity {
  roles =
      if contains_role identity.roles "thorchain_vault"
      then identity.roles
      else identity.roles ++ "thorchain_vault" ∷ [];
}

module _ {W E : Type 0} where
  unfoldable pub answered :
      {A : Type 0}
      → (A → Search W → Run W E (Search W))
      → Answer E A
      → Search W
      → Run W E (Search W)
  answered next (err e) s = stops (failed e) s.repo
  answered next (ok a) s = next a s

  -- A call whose answer is used.
  unfoldable pub read_from :
      {A : Type 0}
      → (W → Answer E A × W)
      → Search W
      → (A → Search W → Run W E (Search W))
      → Run W E (Search W)
  read_from call s next =
      let (answer, w) = call s.repo in answered next answer (record s { repo = w })

  unfoldable pub written :
      (Search W → Run W E (Search W)) → Option E → Search W → Run W E (Search W)
  written next (some e) s = stops (failed e) s.repo
  written next none s = next s

  -- A call that only writes.
  unfoldable pub write_to :
      (W → Option E × W) → Search W → (Search W → Run W E (Search W)) → Run W E (Search W)
  write_to call s next = let (error, w) = call s.repo in written next error (record s { repo = w })
