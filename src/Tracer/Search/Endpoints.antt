-- ===== src/Tracer/Search/Endpoints.antt =====
-- What is written of one call to a router, and of the transfer that a verifier found on the other
-- chain: the edges, the node and the path, in internal/tracer/tracer.go.
use eth_fund_trace.Prelude.{
  ℕ, ◌+◌, ◌-◌, Bool, true, false, ◌&&◌, ◌||◌, not, List, [], ◌∷◌, ◌++◌, String, str_eq, leb,
  if◌then◌else◌, any, length,
}
use Prim.Native.String.{count, ◌++◌ as append}
use eth_fund_trace.Text.{to_lower, equal_fold}
use eth_fund_trace.Store.Address.{AddressIdentity}
use eth_fund_trace.Store.Analysis.{TransactionAnalysis}
use eth_fund_trace.Store.Transfer.{Transfer}
use eth_fund_trace.Tracer.Types.{Node, Edge, TraceResult}
use eth_fund_trace.Tracer.Conversion.Thorchain.{verified_thorchain_transfer_out_analysis}
use eth_fund_trace.Tracer.Identity.{contains_role, set_verified_cross_chain_source}
use eth_fund_trace.Tracer.Search.{VerifiedTransfer, Search, change_at}

-- Calldata of at most two bytes, each an ASCII character.
unfoldable pub is_short : String → Bool
is_short text = leb (count text) 2

unfoldable pub is_router_call : String → AddressIdentity → Bool
is_router_call chain identity =
    str_eq chain "ethereum"
    && (str_eq identity.protocol "thorchain" && contains_role identity.roles "router")

unfoldable pub mark_router_call : Edge → Edge
mark_router_call edge = record edge { protocol = "thorchain"; protocol_action = "router_inbound" }

-- What the analysis of the call says of it.
unfoldable pub note_router_call : TransactionAnalysis → Transfer → Edge → Edge
note_router_call analysis transfer edge =
    let noted = record edge {
      protocol_action = analysis.protocol_action;
      protocol_memo = analysis.protocol_memo;
    } in
    if not (equal_fold analysis.to edge.to)
      || (not analysis.succeeded
          || (not (str_eq analysis.quality.status "complete") || str_eq analysis.protocol_memo ""))
    then edge
    else if str_eq analysis.protocol_action "router_inbound"
    then (if equal_fold analysis.from transfer.from && str_eq analysis.value transfer.amount
        then noted
        else edge)
    else if verified_thorchain_transfer_out_analysis analysis
    then noted
    else edge

unfoldable pub change_edge : {W : Type 0} → ℕ → (Edge → Edge) → Search W → Search W
change_edge index change s = record s {
  result = record s.result { edges = change_at index change s.result.edges };
}

unfoldable pub is_verifiable : TransactionAnalysis → String → Transfer → Bool
is_verifiable analysis chain transfer =
    equal_fold analysis.chain chain
    && (equal_fold analysis.tx_hash transfer.tx_hash
        && (str_eq analysis.protocol_action "router_inbound"
            && (not (str_eq analysis.protocol_memo "")
                && (not (str_eq analysis.protocol_destination "")
                    && (analysis.succeeded
                        && (equal_fold analysis.from transfer.from
                            && (equal_fold analysis.to transfer.to
                                && str_eq analysis.value transfer.amount)))))))

unfoldable pub is_outbound : VerifiedTransfer → TransactionAnalysis → Transfer → Bool
is_outbound outbound analysis transfer =
    str_eq outbound.source_chain "ethereum"
    && (str_eq outbound.target_chain "bitcoin"
        && (equal_fold outbound.from transfer.to
            && (equal_fold outbound.to analysis.protocol_destination
                && (equal_fold outbound.asset "BTC"
                    && (not (str_eq outbound.amount "") && not (str_eq outbound.tx_hash ""))))))

-- The last edge is the one of the inbound transfer.
unfoldable pub annotate_inbound : Bool → String → String → String → TraceResult → TraceResult
annotate_inbound false protocol memo status result = result
annotate_inbound true protocol memo status result = record result {
  edges =
      change_at (length result.edges - 1)
        (λ (edge : Edge). record edge {
          protocol = protocol;
          protocol_action = "router_inbound";
          protocol_memo = memo;
          conversion_status = status;
          conversion_scanned = 1;
        })
        result.edges;
}

unfoldable pub endpoint_protocol : String → VerifiedTransfer → String
endpoint_protocol protocol outbound =
    if not (str_eq outbound.protocol "")
    then outbound.protocol
    else if str_eq protocol ""
    then "thorchain"
    else protocol

unfoldable pub outbound_edge :
    String → VerifiedTransfer → TransactionAnalysis → Transfer → ℕ → List String → Edge
outbound_edge protocol outbound analysis transfer depth path = record {
  chain = "bitcoin";
  source_chain = "ethereum";
  target_chain = "bitcoin";
  from = to_lower outbound.from;
  to = to_lower outbound.to;
  asset_type = "native";
  asset = "BTC";
  symbol = "BTC";
  decimals = 8;
  token_metadata_complete = false;
  total_amount = outbound.amount;
  transfer_count = 1;
  kind = append protocol "_cross_chain_outbound";
  depth = depth + 1;
  path = path;
  tx_hash = to_lower outbound.tx_hash;
  source_tx_hash = to_lower transfer.tx_hash;
  source_amount = transfer.amount;
  source_asset = "ETH";
  first_block = outbound.block_number;
  first_time = 0;
  latest_block = outbound.block_number;
  latest_time = 0;
  conversion_status = "";
  conversion_scanned = 0;
  conversion_evidence = [];
  protocol = protocol;
  protocol_action = "cross_chain_swap";
  protocol_memo = analysis.protocol_memo;
}

-- A recipient on the other chain is added once; its path only with it.
unfoldable pub append_recipient : String → ℕ → String → List String → TraceResult → TraceResult
append_recipient protocol depth target path result =
    if any (λ (node : Node). str_eq node.chain "bitcoin" && equal_fold node.address target)
      result.nodes
    then result
    else record result {
      nodes =
          result.nodes
          ++ record {
            chain = "bitcoin";
            address = target;
            depth = depth + 1;
            terminal = true;
            address_type = "unknown";
            protocol = protocol;
            roles = "cross_chain_recipient" ∷ [];
            stop_reason = "verified_cross_chain_endpoint";
          }
            ∷ [];
      paths = result.paths ++ path ∷ [];
    }

unfoldable pub append_outbound :
    String
    → VerifiedTransfer
    → TransactionAnalysis
    → Transfer
    → ℕ
    → List String
    → TraceResult
    → TraceResult
append_outbound protocol outbound analysis transfer depth path result =
    let target = to_lower outbound.to in
    let longer = path ++ target ∷ [] in
    append_recipient protocol depth target longer (record result {
      nodes = set_verified_cross_chain_source result.nodes analysis.to;
      edges = result.edges ++ outbound_edge protocol outbound analysis transfer depth longer ∷ [];
    })
