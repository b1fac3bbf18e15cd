-- ===== src/Tracer/Search/Convert.antt =====
-- How the search reads the call of a contract as one transfer: `conversionTransfer`,
-- `aggregateConversions` and `markTHORChainVault` of
-- internal/tracer/tracer.go.
use eth_fund_trace.Prelude.{
  ◌+◌, Bool, ◌&&◌, ◌||◌, not, List, [], ◌∷◌, ◌++◌, Option, none, some, String, str_eq, ltb,
  if◌then◌else◌, is_some,
}
use eth_fund_trace.Prelude.Int.{ℤ, pos, ltb_ℤ}
use eth_fund_trace.Prelude.Dict.{Dict, lookup, insert}
use Prim.Native.String.{◌++◌ as append}
use eth_fund_trace.Text.{to_lower, equal_fold}
use eth_fund_trace.Text.Decimal.{set_string}
use eth_fund_trace.Store.Address.{Address, AddressIdentity}
use eth_fund_trace.Store.Analysis.{TransactionAnalysis, SwapConversion}
use eth_fund_trace.Store.Transfer.{Transfer}
use eth_fund_trace.Tracer.Types.{
  BranchState, ConversionEvidence, AnalyzedConversion, ConversionAggregate,
}
use eth_fund_trace.Tracer.Assets.{
  transfer_amount, transfer_summary, canonicalize_summary_asset, above_trace_threshold,
}
use eth_fund_trace.Tracer.Conversion.{
  conversion_uses_executor, transfer_from_conversion, legacy_conversion_transfer,
}
use eth_fund_trace.Tracer.Conversion.Thorchain.{thorchain_protocol_transfer}
use eth_fund_trace.Tracer.Identity.{address_identity}
use eth_fund_trace.Tracer.Money.{add_decimal, str_ltb, stable_sort}
use eth_fund_trace.Tracer.Search.{
  TraceGraph, Search, Run, set_protocol, with_vault_role, read_from, write_to,
}

unfoldable pub no_evidence : ConversionEvidence
no_evidence = record {
  tx_hash = "";
  protocol = "";
  version = "";
  status = "";
  initiator = "";
  router = "";
  executor = "";
  liquidity_provider = "";
  recipient = "";
  token_in = "";
  amount_in = "";
  token_out = "";
  amount_out = "";
  evidence = [];
}

unfoldable pub protocol_conversion :
    TransactionAnalysis → BranchState → Transfer → AnalyzedConversion
protocol_conversion analysis state transfer = record {
  transfer = transfer;
  evidence = no_evidence;
  protocol = "thorchain";
  protocol_action = analysis.protocol_action;
  protocol_memo = analysis.protocol_memo;
  vault_address =
      if str_eq analysis.protocol_action "vault_migration"
      then (if str_eq state.direction "in" then analysis.from else analysis.protocol_destination)
      else "";
}

unfoldable pub plain_conversion : Transfer → ConversionEvidence → AnalyzedConversion
plain_conversion transfer evidence = record {
  transfer = transfer;
  evidence = evidence;
  protocol = "";
  protocol_action = "";
  protocol_memo = "";
  vault_address = "";
}

unfoldable pub swap_evidence : TransactionAnalysis → SwapConversion → ConversionEvidence
swap_evidence analysis conversion = record {
  tx_hash = analysis.tx_hash;
  protocol = conversion.protocol;
  version = conversion.version;
  status = conversion.status;
  initiator = conversion.initiator;
  router = conversion.router;
  executor = conversion.executor;
  liquidity_provider = conversion.liquidity_provider;
  recipient = conversion.recipient;
  token_in = conversion.token_in;
  amount_in = conversion.amount_in;
  token_out = conversion.token_out;
  amount_out = conversion.amount_out;
  evidence = conversion.evidence;
}

unfoldable pub legacy_evidence : TransactionAnalysis → BranchState → Transfer → ConversionEvidence
legacy_evidence analysis state transfer = record no_evidence {
  tx_hash = analysis.tx_hash;
  protocol = "uniswap";
  version = "v3";
  status = "complete";
  token_in = state.asset;
  token_out = transfer.asset;
  evidence = "verified Uniswap V3 pool logs" ∷ [];
}

unfoldable pub legacy_conversion :
    TransactionAnalysis → BranchState → Option Transfer → Option AnalyzedConversion
legacy_conversion analysis state none = none
legacy_conversion analysis state (some transfer) =
    some (plain_conversion transfer (legacy_evidence analysis state transfer))

unfoldable pub swap_or :
    TransactionAnalysis
    → SwapConversion
    → Option Transfer
    → Option AnalyzedConversion
    → Option AnalyzedConversion
swap_or analysis conversion none rest = rest
swap_or analysis conversion (some transfer) rest =
    some (plain_conversion transfer (swap_evidence analysis conversion))

-- The first conversion that the branch takes part in, or else what the swaps give.
unfoldable pub swap_conversion :
    TransactionAnalysis → BranchState → List SwapConversion → Option AnalyzedConversion
swap_conversion analysis state [] =
    legacy_conversion analysis state (legacy_conversion_transfer analysis state)
swap_conversion analysis state (conversion ∷ conversions) =
    swap_or analysis conversion (transfer_from_conversion analysis state conversion)
      (swap_conversion analysis state conversions)

unfoldable pub protocol_or :
    TransactionAnalysis → BranchState → Option Transfer → Option AnalyzedConversion
protocol_or analysis state none = swap_conversion analysis state analysis.conversions
protocol_or analysis state (some transfer) = some (protocol_conversion analysis state transfer)

-- `conversionTransfer`, behind the call of the analyzer.
unfoldable pub conversion_of :
    TransactionAnalysis → BranchState → String → Option AnalyzedConversion
conversion_of analysis state tx_hash =
    if not analysis.succeeded
      || (not (str_eq analysis.quality.status "complete")
          || (analysis.quality.ambiguous_route || not (equal_fold analysis.tx_hash tx_hash)))
    then none
    else if equal_fold analysis.to state.address
        || (equal_fold analysis.entry_contract state.address
            || conversion_uses_executor analysis.conversions state.address)
    then protocol_or analysis state (thorchain_protocol_transfer analysis state)
    else none

unfoldable pub new_aggregate : Transfer → ConversionAggregate
new_aggregate transfer = record {
  summary = record (transfer_summary transfer) { total_amount = "0"; transfer_count = 0 };
  evidence = [];
}

unfoldable pub add_to_aggregate : AnalyzedConversion → ConversionAggregate → ConversionAggregate
add_to_aggregate conversion aggregate =
    let transfer = conversion.transfer in
    let summary = aggregate.summary in
    let sooner = ltb transfer.block_number summary.earliest_block in
    let later = ltb summary.latest_block transfer.block_number in
    if is_some (set_string (transfer_amount transfer))
    then record {
      summary = record summary {
        total_amount = add_decimal summary.total_amount (transfer_amount transfer);
        transfer_count = summary.transfer_count + 1;
        earliest_block = if sooner then transfer.block_number else summary.earliest_block;
        earliest_time = if sooner then transfer.block_time else summary.earliest_time;
        latest_block = if later then transfer.block_number else summary.latest_block;
        latest_time = if later then transfer.block_time else summary.latest_time;
        latest_transfer = if later then transfer else summary.latest_transfer;
      };
      evidence = aggregate.evidence ++ conversion.evidence ∷ [];
    }
    else aggregate

unfoldable pub aggregates_of : String → Dict (Dict ConversionAggregate) → Dict ConversionAggregate
aggregates_of key groups = elim (lookup key groups) [ none ↦ [] | some group ↦ group ]

unfoldable pub aggregate_or_new : Transfer → Option ConversionAggregate → ConversionAggregate
aggregate_or_new transfer none = new_aggregate transfer
aggregate_or_new transfer (some aggregate) = aggregate

unfoldable pub group_conversion :
    AnalyzedConversion → Dict (Dict ConversionAggregate) → Dict (Dict ConversionAggregate)
group_conversion conversion groups =
    let transfer = conversion.transfer in
    let asset_key = to_lower transfer.asset in
    let key = to_lower (append transfer.from (append "|" transfer.to)) in
    let group = aggregates_of asset_key groups in
    let aggregate = aggregate_or_new transfer (lookup key group) in
    if above_trace_threshold (canonicalize_summary_asset transfer.chain (transfer_summary transfer))
    then insert asset_key (insert key (add_to_aggregate conversion aggregate) group) groups
    else groups

unfoldable pub group_conversions :
    List AnalyzedConversion → Dict (Dict ConversionAggregate) → Dict (Dict ConversionAggregate)
group_conversions [] groups = groups
group_conversions (conversion ∷ conversions) groups =
    group_conversions conversions (group_conversion conversion groups)

unfoldable pub total_of : ConversionAggregate → ℤ
total_of aggregate = elim (set_string aggregate.summary.total_amount) [
  | none ↦ pos 0
  | some total ↦ total
]

-- The larger total comes first.
unfoldable pub aggregate_before : ConversionAggregate → ConversionAggregate → Bool
aggregate_before a b =
    ltb_ℤ (total_of b) (total_of a)
    || not (ltb_ℤ (total_of a) (total_of b)) && str_ltb a.summary.to b.summary.to

unfoldable pub values {ℓ} : {A : Type ℓ} → Dict A → List A
values [] = []
values ((key, value) ∷ entries) = value ∷ values entries

unfoldable pub sort_groups : Dict (Dict ConversionAggregate) → Dict (List ConversionAggregate)
sort_groups [] = []
sort_groups ((asset, group) ∷ groups) =
    (asset, stable_sort aggregate_before (values group)) ∷ sort_groups groups

-- `aggregateConversions`; the caller goes through the assets in their order.
unfoldable pub aggregate_conversions : List AnalyzedConversion → Dict (List ConversionAggregate)
aggregate_conversions conversions =
    stable_sort (λ a b. str_ltb a.0 b.0) (sort_groups (group_conversions conversions []))

unfoldable pub vault_identity : Address → AddressIdentity
vault_identity metadata =
    with_vault_role record (address_identity metadata) { protocol = "thorchain" }

-- Both loops over the branches that come next: the address as it is spelt, and any spelling of it.
unfoldable pub identify_next : String → AddressIdentity → List BranchState → List BranchState
identify_next address identity [] = []
identify_next address identity (state ∷ states) =
    (if equal_fold state.address address then record state { identity = identity } else state)
    ∷ identify_next address identity states

module _ {W E : Type 0} (g : TraceGraph W E) (chain : String) where
  unfoldable pub mark_thorchain_vault :
      String → Search W → (Search W → Run W E (Search W)) → Run W E (Search W)
  mark_thorchain_vault address s next = read_from (g.find_address chain address) s (λ found s'.
      let identity = vault_identity found.0 in
      write_to (g.set_address_identity chain address identity) s' (λ s''. next (record s'' {
        result = record s''.result { nodes = set_protocol chain address identity s''.result.nodes };
        next = identify_next address identity s''.next;
      })))
