-- ===== src/Tracer/Search/Visit.antt =====
-- The visit of the other side of a transfer in `expand` of internal/tracer/tracer.go.
use eth_fund_trace.Prelude.{
  ℕ, ◌+◌, false, ◌&&◌, not, List, [], ◌∷◌, ◌++◌, Option, none, some, String, str_eq, leb,
  if◌then◌else◌, length,
}
use eth_fund_trace.Prelude.Dict.{Dict}
use eth_fund_trace.Store.Address.{Address, AddressIdentity}
use eth_fund_trace.Store.Transfer.{CounterpartySummary}
use eth_fund_trace.Tracer.Types.{BranchState, ConversionEvidence}
use eth_fund_trace.Tracer.Identity.{address_identity, set_node_terminal}
use eth_fund_trace.Ethaddr.{zero_address}
use eth_fund_trace.Tracer.Search.{
  max_trace_nodes, TraceGraph, Search, Run, goes, stops, has_key, set_data_status, set_nodes,
  set_protocol, read_from, write_to,
}
use eth_fund_trace.Tracer.Search.CrossChain.{annotate_router_call, append_verified_endpoints}
use eth_fund_trace.Tracer.Search.Side.{
  OtherSide, with_identity, is_open_identity, crossing_identity, other_address, must_sync,
  missing_dependency, note_partial, enter, note_edge, enter_zero,
}

module _ {W E : Type 0} (g : TraceGraph W E) (chain : String) (through depth : ℕ)
    (state : BranchState) (evidence : Dict (List ConversionEvidence)) where
  -- One transfer, whose amount is spent.
  module _ (summary : CounterpartySummary) where
    -- With all nodes taken, the branch is not entered.
    unfoldable pub settle_side : ℕ → OtherSide → Search W → Run W E (Search W)
    settle_side index side s =
        if must_sync g chain through depth state evidence summary side
        then stops (missing_dependency g chain through depth state evidence summary) s.repo
        else if leb max_trace_nodes (length s.visited_nodes)
        then goes (note_partial g chain through depth state evidence summary side s)
        else read_from (g.list_labels chain (other_address state.direction summary))
            (note_partial g chain through depth state evidence summary side s)
            (λ labels s'. goes (
              enter g chain through depth state evidence summary index
                (record side { labels = labels }) s'))

    unfoldable pub note_crossing :
        OtherSide → Search W → (OtherSide → Search W → Run W E (Search W)) → Run W E (Search W)
    note_crossing side s next =
        if side.crosses
        then (let identity = crossing_identity side.identity in
            write_to (g.set_address_identity chain (other_address state.direction summary) identity)
              s
              (λ s'.
                next (record side { identity = identity })
                  (record s' {
                    result =
                        set_nodes
                          (set_protocol chain (other_address state.direction summary) identity
                            s'.result.nodes)
                          s'.result;
                  })))
        else next side s

    unfoldable pub cross_side : ℕ → OtherSide → Search W → Run W E (Search W)
    cross_side index side s =
        annotate_router_call g chain side.identity summary.representative index s (λ s'.
          append_verified_endpoints g chain state side.identity summary (depth + 1)
            (state.path ++ other_address state.direction summary ∷ []) s'
            (λ crosses s''.
              note_crossing (record side { crosses = crosses }) s'' (settle_side index)))

    unfoldable pub identified :
        Option AddressIdentity
        → Address
        → Search W
        → (AddressIdentity → Address → Search W → Run W E (Search W))
        → Run W E (Search W)
    identified (some identity) metadata s next =
        write_to (g.set_address_identity chain (other_address state.direction summary) identity) s
          (next identity (with_identity identity metadata))
    identified none metadata s next =
        if is_open_identity (address_identity metadata)
          && (g.has_inspector && not g.existing_data_only)
        then read_from (g.inspect_address chain (other_address state.direction summary)) s
            (λ identity s'.
              write_to
                (g.set_address_identity chain (other_address state.direction summary) identity) s'
                (next identity (with_identity identity metadata)))
        else next (address_identity metadata) metadata s

    unfoldable pub visit_other : ℕ → Search W → Run W E (Search W)
    visit_other index s =
        read_from (g.find_address chain (other_address state.direction summary)) s (λ found s'.
          identified (g.known_address_identity chain (other_address state.direction summary))
            found.0 s'
            (λ identity metadata s''.
              cross_side index
                (record {
                  metadata = metadata;
                  found = found.1;
                  identity = identity;
                  crosses = false;
                  labels = [];
                })
                s''))

    unfoldable pub follow_edge : Search W → Run W E (Search W)
    follow_edge s =
        let index = length s.result.edges in
        if str_eq (other_address state.direction summary) zero_address
        then goes (
            enter_zero g chain through depth state evidence summary
              (note_edge g chain through depth state evidence summary s))
        else visit_other index (note_edge g chain through depth state evidence summary s)

    -- A new node beyond the limit is left out.
    unfoldable pub follow_within : Search W → Run W E (Search W)
    follow_within s =
        if not (has_key (other_address state.direction summary) s.visited_nodes)
          && leb max_trace_nodes (length s.visited_nodes)
        then goes (record s {
          result =
              set_nodes (set_node_terminal s.result.nodes state.address "node_limit")
                (set_data_status "partial" s.result);
        })
        else follow_edge s
