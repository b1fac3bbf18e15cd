-- ===== src/Tracer/Search/Calls.antt =====
-- The calls of the search in internal/tracer/tracer.go, rule by rule: what holds of every search
-- that only touches the one at hand holds behind the call.
use eth_fund_trace.Prelude.{
  ℕ, ◌≡◌, refl, ◌∙◌, Bool, true, false, ◌&&◌, ◌||◌, not, List, [], ◌∷◌, Option, none, some, String,
  str_eq, leb, ◌==◌, if◌then◌else◌,
}
use eth_fund_trace.Prelude.Answers.{Answer, ok, err}
use eth_fund_trace.Text.{equal_fold}
use eth_fund_trace.Store.Address.{AddressIdentity}
use eth_fund_trace.Store.Analysis.{TransactionAnalysis}
use eth_fund_trace.Store.Transfer.{Transfer, CounterpartySummary}
use eth_fund_trace.Tracer.Branch.{Stop, failed}
use eth_fund_trace.Tracer.Types.{Node, BranchState, TraceResult}
use eth_fund_trace.Tracer.Search.{
  VerifiedTransfer, TraceGraph, Search, Run, goes, stops, and_then, set_data_status, answered,
  read_from, written, write_to,
}
use eth_fund_trace.Tracer.Search.Endpoints.{
  is_router_call, change_edge, is_verifiable, is_outbound, annotate_inbound, endpoint_protocol,
  append_outbound,
}
use eth_fund_trace.Tracer.Search.CrossChain.{
  annotate_router_call, unverified, after_verify, append_verified_endpoint, append_endpoints,
  may_cross, append_verified_endpoints,
}
use eth_fund_trace.Tracer.Search.Touched.{
  Quiet, native, annotate_inbound-Quiet, append_outbound-Quiet,
}

-- The sets, the branches and the number of nodes are the same.
abbrev pub Touched : {W : Type 0} → Search W → Search W → Type 0
Touched s t =
    (t.visited_states ≡ s.visited_states)
    × (t.visited_nodes ≡ s.visited_nodes)
    × (t.next ≡ s.next)
    × Quiet s.result t.result

-- Why a run may stop: for an error of a call, and for what else is allowed.
pub record Rule (E : Type 0) : Type 1 where
  pub allowed : Stop E → Type 0
  pub free : (e : E) → allowed (failed e)

-- Where the run goes on, it goes on with such a search; where it stops, it may.
abbrev pub Holds : {W E : Type 0} → Rule E → (Search W → Type 0) → Run W E (Search W) → Type 0
Holds rule P (goes s) = P s
Holds rule P (stops reason w) = rule.allowed reason

pub choose-Holds :
    {W E : Type 0} (rule : Rule E) (P : Search W → Type 0) (c : Bool) (x y : Run W E (Search W))
    → (c ≡ true → Holds rule P x)
    → (c ≡ false → Holds rule P y)
    → Holds rule P (if c then x else y)
choose-Holds rule P true x y yes_case no_case = yes_case refl
choose-Holds rule P false x y yes_case no_case = no_case refl

pub and_then-Holds :
    {W E : Type 0} (rule : Rule E) (P Q : Search W → Type 0) (x : Run W E (Search W))
    (f : Search W → Run W E (Search W))
    → Holds rule P x
    → ((t : Search W) → P t → Holds rule Q (f t))
    → Holds rule Q (and_then x f)
unfolding and_then
and_then-Holds rule P Q (goes s) f h k = k s h
and_then-Holds rule P Q (stops reason w) f h k = h

pub touch_result :
    {W : Type 0} (s t : Search W) (result : TraceResult)
    → Touched s t
    → Quiet t.result result
    → Touched s (record t { result = result })
touch_result s t result (states, nodes, next, (native, branches)) (more, same) =
    (states, nodes, next, (more ∙ native, same ∙ branches))

pub touch_nodes :
    {W : Type 0} (s t : Search W) (nodes : List Node)
    → Touched s t
    → native nodes ≡ native t.result.nodes
    → Touched s (record t { result = record t.result { nodes = nodes } })
touch_nodes s t nodes touched same =
    touch_result s t (record t.result { nodes = nodes }) touched (same, refl)

module _ {W E : Type 0} (rule : Rule E) (P : Search W → Type 0) (s : Search W) where
  answered-Holds :
      {A : Type 0} (next : A → Search W → Run W E (Search W)) (answer : Answer E A) (t : Search W)
      → Touched s t
      → ((a : A) (u : Search W) → answer ≡ ok a → Touched s u → Holds rule P (next a u))
      → Holds rule P (answered next answer t)
  unfolding answered
  answered-Holds next (err e) t touched holds = rule.free e
  answered-Holds next (ok a) t touched holds = holds a t refl touched

  pub read_from-Answered :
      {A : Type 0} (call : W → Answer E A × W) (t : Search W)
      (next : A → Search W → Run W E (Search W))
      → Touched s t
      → ((a : A) (u : Search W) → (call t.repo).0 ≡ ok a → Touched s u → Holds rule P (next a u))
      → Holds rule P (read_from call t next)
  unfolding read_from
  read_from-Answered call t next touched holds = answered-Holds next _ _ touched holds

  pub read_from-Holds :
      {A : Type 0} (call : W → Answer E A × W) (t : Search W)
      (next : A → Search W → Run W E (Search W))
      → Touched s t
      → ((a : A) (u : Search W) → Touched s u → Holds rule P (next a u))
      → Holds rule P (read_from call t next)
  read_from-Holds call t next touched holds =
      read_from-Answered call t next touched (λ a u answer touched'. holds a u touched')

  written-Holds :
      (next : Search W → Run W E (Search W)) (error : Option E) (t : Search W)
      → Touched s t
      → ((u : Search W) → Touched s u → Holds rule P (next u))
      → Holds rule P (written next error t)
  unfolding written
  written-Holds next (some e) t touched holds = rule.free e
  written-Holds next none t touched holds = holds t touched

  pub write_to-Holds :
      (call : W → Option E × W) (t : Search W) (next : Search W → Run W E (Search W))
      → Touched s t
      → ((u : Search W) → Touched s u → Holds rule P (next u))
      → Holds rule P (write_to call t next)
  unfolding write_to
  write_to-Holds call t next touched holds = written-Holds next _ _ touched holds

  module _ (g : TraceGraph W E) (chain : String) where
    pub annotate_router_call-Holds :
        (identity : AddressIdentity) (transfer : Transfer) (index : ℕ) (t : Search W)
        (next : Search W → Run W E (Search W))
        → Touched s t
        → ((u : Search W) → Touched s u → Holds rule P (next u))
        → Holds rule P (annotate_router_call g chain identity transfer index t next)
    unfolding annotate_router_call change_edge
    annotate_router_call-Holds identity transfer index t next touched holds =
        choose-Holds rule P (not (is_router_call chain identity)) _ _ (λ plain. holds t touched)
          (λ router.
            choose-Holds rule P (not g.has_analyzer || str_eq transfer.tx_hash "") _ _
              (λ blind. holds _ touched)
              (λ seen. read_from-Holds _ _ _ touched (λ analysis u touched'. holds _ touched')))

    unverified-Holds :
        (error : Option E) (t : Search W) (next : Bool → Search W → Run W E (Search W))
        → Touched s t
        → ((r : Bool) (u : Search W) → Touched s u → Holds rule P (next r u))
        → Holds rule P (unverified g chain error t next)
    unfolding unverified
    unverified-Holds (some e) t next touched holds = rule.free e
    unverified-Holds none t next touched holds = holds false t touched

    module _ (transfer : Transfer) (protocol : String) (depth : ℕ) (path : List String)
        (annotate : Bool) where
      after_verify-Holds :
          (analysis : TransactionAnalysis) (found : Answer E (Option VerifiedTransfer))
          (t : Search W) (next : Bool → Search W → Run W E (Search W))
          → Touched s t
          → ((r : Bool) (u : Search W) → Touched s u → Holds rule P (next r u))
          → Holds rule P
              (after_verify g chain transfer protocol depth path annotate analysis found t next)
      unfolding after_verify set_data_status
      after_verify-Holds analysis (err e) t next touched holds =
          let partial = record t.result { data_status = "partial" } in
          unverified-Holds _ _ next
            (touch_result s t
              (annotate_inbound annotate protocol analysis.protocol_memo "partial" partial) touched
              (annotate_inbound-Quiet annotate protocol analysis.protocol_memo "partial" partial))
            holds
      after_verify-Holds analysis (ok none) t next touched holds = holds false t touched
      after_verify-Holds analysis (ok (some outbound)) t next touched holds =
          let named = endpoint_protocol protocol outbound in
          let noted = annotate_inbound annotate named analysis.protocol_memo "complete" t.result in
          let (nodes, branches) =
            append_outbound-Quiet named outbound analysis transfer depth path noted in
          let (more, same) =
            annotate_inbound-Quiet annotate named analysis.protocol_memo "complete" t.result in
          choose-Holds rule P (is_outbound outbound analysis transfer) _ _
            (λ known. holds true _ (
              touch_result s t (append_outbound named outbound analysis transfer depth path noted)
                touched (nodes ∙ more, branches ∙ same)))
            (λ other. holds false t touched)

      append_verified_endpoint-Holds :
          (t : Search W) (next : Bool → Search W → Run W E (Search W))
          → Touched s t
          → ((r : Bool) (u : Search W) → Touched s u → Holds rule P (next r u))
          → Holds rule P
              (append_verified_endpoint g chain transfer protocol depth path annotate t next)
      unfolding append_verified_endpoint
      append_verified_endpoint-Holds t next touched holds =
          read_from-Holds _ t _ touched (λ analysis u touched'.
            choose-Holds rule P (is_verifiable analysis chain transfer) _ _
              (λ known. after_verify-Holds analysis _ _ next touched' holds)
              (λ other. holds false u touched'))

    module _ (state : BranchState) (identity : AddressIdentity) (summary : CounterpartySummary)
        (depth : ℕ) (path : List String) where
      append_endpoints-Holds :
          (transfers : List Transfer) (resolved : Bool) (t : Search W)
          (next : Bool → Search W → Run W E (Search W))
          → Touched s t
          → ((r : Bool) (u : Search W) → Touched s u → Holds rule P (next r u))
          → Holds rule P
              (append_endpoints g chain state identity summary depth path transfers resolved t next)
      unfolding append_endpoints
      append_endpoints-Holds [] resolved t next touched holds = holds resolved t touched
      append_endpoints-Holds (transfer ∷ transfers) resolved t next touched holds =
          choose-Holds rule P
            (equal_fold transfer.from summary.from && equal_fold transfer.to summary.to) _ _
            (λ same.
              append_verified_endpoint-Holds transfer identity.protocol depth path
                (summary.transfer_count == 1) t _ touched
                (λ r u touched'.
                  append_endpoints-Holds transfers (resolved || r) u next touched' holds))
            (λ other. append_endpoints-Holds transfers resolved t next touched holds)

      pub append_verified_endpoints-Holds :
          (t : Search W) (next : Bool → Search W → Run W E (Search W))
          → Touched s t
          → ((r : Bool) (u : Search W) → Touched s u → Holds rule P (next r u))
          → Holds rule P
              (append_verified_endpoints g chain state identity summary depth path t next)
      unfolding append_verified_endpoints
      append_verified_endpoints-Holds t next touched holds =
          choose-Holds rule P (not (may_cross g chain state identity summary depth path)) _ _
            (λ stays. holds false t touched)
            (λ crosses.
              choose-Holds rule P (leb summary.transfer_count 1) _ _
                (λ one.
                  append_endpoints-Holds (summary.representative ∷ []) false t next touched holds)
                (λ more. read_from-Holds _ t _ touched (λ transfers u touched'.
                  append_endpoints-Holds transfers false u next touched' holds)))
