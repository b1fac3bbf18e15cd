-- ===== src/Tracer/Conversion/Thorchain.antt =====
-- The transfers of the THORChain protocol's actions (internal/tracer/tracer.go).
use eth_fund_trace.Prelude.{
  Bool, false, ◌&&◌, ◌||◌, not, Option, none, some, String, str_eq, if◌then◌else◌, any,
}
use eth_fund_trace.Text.{to_lower, equal_fold}
use eth_fund_trace.Store.Transfer.{Transfer}
use eth_fund_trace.Store.Analysis.{InternalCall, ReceiptTransfer, TransactionAnalysis}
use eth_fund_trace.Tracer.Types.{BranchState}
use eth_fund_trace.Tracer.Assets.{transfer_asset, transfer_amount}
use eth_fund_trace.Tracer.Conversion.{choose, semantic_transfer}

unfoldable pub is_traceable_thorchain_action : String → Bool
is_traceable_thorchain_action action =
    str_eq action "vault_migration"
    || (str_eq action "protocol_outbound"
        || (str_eq action "cross_chain_swap" || str_eq action "refund"))

unfoldable pub verified_thorchain_transfer_out_analysis : TransactionAnalysis → Bool
verified_thorchain_transfer_out_analysis analysis =
    if not analysis.succeeded
      || (not (str_eq analysis.quality.status "complete")
          || not (is_traceable_thorchain_action analysis.protocol_action))
    then false
    else if equal_fold analysis.protocol_asset "ETH"
    then any
        (λ (call : InternalCall).
          not call.is_error
          && (equal_fold call.from analysis.to
              && (equal_fold call.to analysis.protocol_destination
                  && str_eq call.value analysis.protocol_amount)))
        analysis.internal_calls
    else any
        (λ (transfer : ReceiptTransfer).
          equal_fold transfer.token analysis.protocol_asset
          && (equal_fold transfer.from analysis.to
              && (equal_fold transfer.to analysis.protocol_destination
                  && str_eq transfer.amount analysis.protocol_amount)))
        analysis.transfers

-- The kind of a transfer by the protocol's action.
unfoldable pub thorchain_kind : String → Option String
thorchain_kind action =
    if str_eq action "vault_migration"
    then some "thorchain_vault_migration"
    else if str_eq action "protocol_outbound"
    then some "thorchain_protocol_outbound"
    else if str_eq action "cross_chain_swap"
    then some "thorchain_cross_chain_swap"
    else if str_eq action "refund"
    then some "thorchain_refund"
    else none

-- Mode and asset of the protocol's output.
unfoldable pub protocol_asset_of : TransactionAnalysis → String × String
protocol_asset_of analysis =
    if equal_fold analysis.protocol_asset "ETH"
    then ("eth", "ETH")
    else ("contract", to_lower analysis.protocol_asset)

unfoldable pub thorchain_protocol_transfer : TransactionAnalysis → BranchState → Option Transfer
thorchain_protocol_transfer analysis state = elim (thorchain_kind analysis.protocol_action) [
  | none ↦ none
  | some kind ↦
      let (mode, asset) = transfer_asset state.entering_tx in
      let (protocol_mode, protocol_asset) = protocol_asset_of analysis in
      choose
        (str_eq analysis.protocol_destination ""
          || (str_eq analysis.protocol_amount ""
              || not (verified_thorchain_transfer_out_analysis analysis)))
        none
        (choose
          (str_eq state.direction "in" && not (str_eq analysis.protocol_action "vault_migration"))
          none
          (choose
            (not (str_eq mode protocol_mode)
              || (not (equal_fold asset protocol_asset)
                  || not (str_eq (transfer_amount state.entering_tx) analysis.protocol_amount)))
            none
            (choose (str_eq state.direction "in")
              (some (
                semantic_transfer analysis analysis.from state.address analysis.protocol_asset
                  analysis.protocol_amount kind))
              (some (
                semantic_transfer analysis state.address analysis.protocol_destination
                  analysis.protocol_asset analysis.protocol_amount kind)))))
]
