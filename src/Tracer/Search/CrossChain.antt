-- ===== src/Tracer/Search/CrossChain.antt =====
-- What the search writes of calls to routers: `annotateTHORChainRouterCall` and
-- `appendVerifiedCrossChainEndpoints` of internal/tracer/tracer.go.
use eth_fund_trace.Prelude.{
  ℕ, Bool, true, false, ◌&&◌, ◌||◌, not, List, [], ◌∷◌, Option, none, some, String, str_eq, ltb,
  leb, ◌==◌, if◌then◌else◌, length,
}
use eth_fund_trace.Prelude.Answers.{Answer, ok, err}
use eth_fund_trace.Text.{equal_fold, trim_space}
use eth_fund_trace.Store.Address.{AddressIdentity}
use eth_fund_trace.Store.Analysis.{TransactionAnalysis}
use eth_fund_trace.Store.Transfer.{Transfer, CounterpartySummary}
use eth_fund_trace.Tracer.Types.{BranchState}
use eth_fund_trace.Tracer.Branch.{failed}
use eth_fund_trace.Tracer.Identity.{is_cross_chain_endpoint, is_thorchain_vault}
use eth_fund_trace.Tracer.Search.{
  trace_transfer_record_cap, VerifiedTransfer, TraceGraph, Search, Run, stops, set_data_status,
  read_from,
}
use eth_fund_trace.Tracer.Search.Endpoints.{
  is_short, is_router_call, mark_router_call, note_router_call, change_edge, is_verifiable,
  is_outbound, annotate_inbound, endpoint_protocol, append_outbound,
}

module _ {W E : Type 0} (g : TraceGraph W E) (chain : String) where
  unfoldable pub annotate_router_call :
      AddressIdentity
      → Transfer
      → ℕ
      → Search W
      → (Search W → Run W E (Search W))
      → Run W E (Search W)
  annotate_router_call identity transfer index s next =
      if not (is_router_call chain identity)
      then next s
      else if not g.has_analyzer || str_eq transfer.tx_hash ""
      then next (change_edge index mark_router_call s)
      else read_from (g.analyze_transaction chain transfer.tx_hash)
          (change_edge index mark_router_call s)
          (λ analysis s'. next (change_edge index (note_router_call analysis transfer) s'))

  -- The first verifier that fails or knows the transfer decides.
  unfoldable pub verified_or :
      (W → Answer E (Option VerifiedTransfer) × W)
      → Answer E (Option VerifiedTransfer)
      → W
      → Answer E (Option VerifiedTransfer) × W
  verified_or rest (err e) w = (err e, w)
  verified_or rest (ok (some outbound)) w = (ok (some outbound), w)
  verified_or rest (ok none) w = rest w

  unfoldable pub verify_with :
      List (TransactionAnalysis → W → Answer E (Option VerifiedTransfer) × W)
      → TransactionAnalysis
      → W
      → Answer E (Option VerifiedTransfer) × W
  verify_with [] analysis w = (ok none, w)
  verify_with (verify ∷ verifiers) analysis w =
      let (found, w') = verify analysis w in
      verified_or (λ v. verify_with verifiers analysis v) found w'

  -- An error of a verifier ends the search only with the context.
  unfoldable pub unverified :
      Option E → Search W → (Bool → Search W → Run W E (Search W)) → Run W E (Search W)
  unverified (some e) s next = stops (failed e) s.repo
  unverified none s next = next false s

  module _ (transfer : Transfer) (protocol : String) (depth : ℕ) (path : List String)
      (annotate : Bool) where
    unfoldable pub after_verify :
        TransactionAnalysis
        → Answer E (Option VerifiedTransfer)
        → Search W
        → (Bool → Search W → Run W E (Search W))
        → Run W E (Search W)
    after_verify analysis (err e) s next =
        unverified (g.context_error s.repo)
          (record s {
            result =
                annotate_inbound annotate protocol analysis.protocol_memo "partial"
                  (set_data_status "partial" s.result);
          })
          next
    after_verify analysis (ok none) s next = next false s
    after_verify analysis (ok (some outbound)) s next =
        if is_outbound outbound analysis transfer
        then (let named = endpoint_protocol protocol outbound in
            next true (record s {
              result =
                  append_outbound named outbound analysis transfer depth path
                    (annotate_inbound annotate named analysis.protocol_memo "complete" s.result);
            }))
        else next false s

    unfoldable pub append_verified_endpoint :
        Search W → (Bool → Search W → Run W E (Search W)) → Run W E (Search W)
    append_verified_endpoint s next =
        read_from (g.analyze_transaction chain transfer.tx_hash) s (λ analysis s'.
          if is_verifiable analysis chain transfer
          then (let (found, w) = verify_with g.verifiers analysis s'.repo in
              after_verify analysis found (record s' { repo = w }) next)
          else next false s')

  module _ (state : BranchState) (identity : AddressIdentity) (summary : CounterpartySummary)
      (depth : ℕ) (path : List String) where
    unfoldable pub append_endpoints :
        List Transfer
        → Bool
        → Search W
        → (Bool → Search W → Run W E (Search W))
        → Run W E (Search W)
    append_endpoints [] resolved s next = next resolved s
    append_endpoints (transfer ∷ transfers) resolved s next =
        let skipped = append_endpoints transfers resolved s next in
        if equal_fold transfer.from summary.from && equal_fold transfer.to summary.to
        then append_verified_endpoint transfer identity.protocol depth path
            (summary.transfer_count == 1) s
            (λ found s'. append_endpoints transfers (resolved || found) s' next)
        else skipped

    -- Old records have no calldata: they are looked at if the address is a known endpoint.
    unfoldable pub may_cross : Bool
    may_cross =
        str_eq state.direction "out"
        && (str_eq chain "ethereum"
            && (g.has_analyzer
                && (ltb 0 (length g.verifiers)
                    && (str_eq summary.asset_type "eth"
                        && (not (is_short (trim_space summary.representative.input))
                            || (is_cross_chain_endpoint identity
                                || is_thorchain_vault identity))))))

    unfoldable pub append_verified_endpoints :
        Search W → (Bool → Search W → Run W E (Search W)) → Run W E (Search W)
    append_verified_endpoints s next =
        if not may_cross
        then next false s
        else if leb summary.transfer_count 1
        then append_endpoints (summary.representative ∷ []) false s next
        else read_from
            (g.query_transfers record {
              chain = chain;
              addresses = state.address ∷ [];
              direction = "out";
              asset_mode = "eth";
              asset = "";
              from_block = summary.earliest_block;
              to_block = summary.latest_block;
              limit = trace_transfer_record_cap;
              after = none;
            })
            s (λ transfers s'. append_endpoints transfers false s' next)
