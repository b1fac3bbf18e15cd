-- ===== src/Tracer/Conversion.antt =====
-- From the interpretation of a transaction to the next transfer of a branch
-- (internal/tracer/tracer.go). `none` is the answer that there is no such transfer.
pub mod Thorchain
pub mod Legs
use Prim.Native.String.{◌++◌ as append}
use eth_fund_trace.Prelude.{
  ℕ, Bool, true, false, ◌&&◌, ◌||◌, not, List, [], ◌∷◌, Option, none, some, String, str_eq, ◌==◌,
  if◌then◌else◌, any,
}
use eth_fund_trace.Text.{to_lower, equal_fold}
use eth_fund_trace.Text.Decimal.{nat_string}
use eth_fund_trace.Store.Transfer.{Transfer}
use eth_fund_trace.Store.Analysis.{
  InternalCall, ReceiptTransfer, SwapConversion, SwapEvent, WrapEvent, TransactionAnalysis,
}
use eth_fund_trace.Tracer.Types.{BranchState}
use eth_fund_trace.Tracer.Assets.{transfer_asset, transfer_amount}

abbrev pub weth : String
weth = "0xc02aaa39b223fe8d0a0e5c4f27ead9083c756cc2"

-- The early returns: the first answer if the test holds.
unfoldable pub choose : Bool → Option Transfer → Option Transfer → Option Transfer
choose true first second = first
choose false first second = second

unfoldable pub semantic_transfer :
    TransactionAnalysis → String → String → String → String → String → Transfer
semantic_transfer analysis from to asset amount kind =
    let chain_id = if analysis.chain_id == 0 then 1 else analysis.chain_id in
    let is_eth = equal_fold asset "ETH" in
    record {
      chain = analysis.chain;
      chain_id = chain_id;
      tx_hash = analysis.tx_hash;
      block_number = analysis.block_number;
      block_time = 0;
      from = to_lower from;
      to = to_lower to;
      asset_type = if is_eth then "eth" else "erc20";
      asset = if is_eth then "ETH" else to_lower asset;
      symbol = "";
      decimals = 0;
      amount = if is_eth then amount else "";
      input = "";
      token_value = if is_eth then "" else amount;
      token_name = "";
      transfer_kind = kind;
      transaction_group = append (nat_string chain_id) (append ":" (to_lower analysis.tx_hash));
      log_index_synthetic = false;
      token_metadata_complete = false;
      source = "transactionanalysis";
      trace_id = "";
      log_index = 0;
      observed_at = 0;
    }

unfoldable pub has_wrap : List WrapEvent → String → Bool
has_wrap wraps kind = any (λ (wrap : WrapEvent). str_eq wrap.kind kind) wraps

unfoldable pub conversion_uses_executor : List SwapConversion → String → Bool
conversion_uses_executor conversions address =
    any (λ (conversion : SwapConversion). equal_fold conversion.executor address) conversions

-- Whether a conversion takes in what a branch has, going out.
unfoldable pub takes_in : TransactionAnalysis → BranchState → SwapConversion → Bool
takes_in analysis state conversion =
    if str_eq state.asset_mode "eth"
    then equal_fold conversion.token_in "ETH"
      || equal_fold conversion.token_in weth && has_wrap analysis.wraps "deposit"
    else equal_fold conversion.token_in state.asset

-- Whether a conversion gives out what a branch has, going in.
unfoldable pub gives_out : BranchState → SwapConversion → Bool
gives_out state conversion =
    if str_eq state.asset_mode "eth"
    then equal_fold conversion.token_out "ETH" || equal_fold conversion.token_out weth
    else equal_fold conversion.token_out state.asset

unfoldable pub transfer_from_conversion :
    TransactionAnalysis → BranchState → SwapConversion → Option Transfer
transfer_from_conversion analysis state conversion =
    choose
      (not (str_eq conversion.status "complete")
        || (str_eq conversion.token_in ""
            || (str_eq conversion.amount_in ""
                || (str_eq conversion.token_out "" || str_eq conversion.amount_out ""))))
      none
      (choose (str_eq state.direction "out")
        (choose (not (takes_in analysis state conversion) || str_eq conversion.recipient "") none (
          some (
            semantic_transfer analysis state.address conversion.recipient conversion.token_out
              conversion.amount_out "swap")))
        (choose (not (gives_out state conversion) || str_eq conversion.initiator "") none (
          some (
            semantic_transfer analysis conversion.initiator state.address conversion.token_in
              conversion.amount_in "swap"))))

-- The first wrap of the kind that names an account and an amount.
unfoldable pub find_wrap : String → List WrapEvent → Option WrapEvent
find_wrap kind [] = none
find_wrap kind (wrap ∷ wraps) =
    if not (str_eq wrap.kind kind) || (str_eq wrap.account "" || str_eq wrap.amount "")
    then find_wrap kind wraps
    else some wrap

unfoldable pub wrap_conversion : TransactionAnalysis → BranchState → Option Transfer
wrap_conversion analysis state =
    let kind = if str_eq state.direction "in" then "withdrawal" else "deposit" in
    choose (not (str_eq state.asset_mode "eth")) none (elim (find_wrap kind analysis.wraps) [
      | none ↦ none
      | some wrap ↦
          choose (str_eq state.direction "in")
            (some (semantic_transfer analysis wrap.account state.address weth wrap.amount "unwrap"))
            (some (semantic_transfer analysis state.address wrap.account weth wrap.amount "wrap"))
    ])

unfoldable pub is_full_swap : SwapEvent → Bool
is_full_swap swap =
    swap.verified
    && (not (str_eq swap.token_in "")
        && (not (str_eq swap.token_out "")
            && (not (str_eq swap.amount_in "") && not (str_eq swap.amount_out ""))))

unfoldable pub last_swap : SwapEvent → List SwapEvent → SwapEvent
last_swap swap [] = swap
last_swap swap (next ∷ swaps) = last_swap next swaps

-- `none` where one of the four texts is empty.
unfoldable pub swap_transfer :
    TransactionAnalysis → String → String → String → String → Option Transfer
swap_transfer analysis from to asset amount =
    choose (str_eq from "" || (str_eq to "" || (str_eq asset "" || str_eq amount ""))) none
      (some (semantic_transfer analysis from to asset amount "swap"))

-- The swaps as one conversion, from the first to the last.
unfoldable pub swaps_transfer :
    TransactionAnalysis → BranchState → SwapEvent → SwapEvent → Option Transfer
swaps_transfer analysis state first last =
    let is_eth = str_eq state.asset_mode "eth" in
    choose (str_eq state.direction "out")
      (choose
        (if is_eth
          then equal_fold first.token_in weth && has_wrap analysis.wraps "deposit"
          else equal_fold first.token_in state.asset)
        (swap_transfer analysis state.address
          (if str_eq analysis.final_output_address ""
            then last.output_address
            else analysis.final_output_address)
          last.token_out last.amount_out)
        none)
      (choose
        (if is_eth
          then equal_fold last.token_out weth && has_wrap analysis.wraps "withdrawal"
          else equal_fold last.token_out state.asset)
        (swap_transfer analysis analysis.from state.address first.token_in first.amount_in) none)

unfoldable pub all_full : List SwapEvent → Bool
all_full [] = true
all_full (swap ∷ swaps) = is_full_swap swap && all_full swaps

unfoldable pub convert_swaps : TransactionAnalysis → BranchState → List SwapEvent → Option Transfer
convert_swaps analysis state [] = wrap_conversion analysis state
convert_swaps analysis state (first ∷ rest) =
    choose (all_full (first ∷ rest)) (swaps_transfer analysis state first (last_swap first rest))
      none

unfoldable pub legacy_conversion_transfer : TransactionAnalysis → BranchState → Option Transfer
legacy_conversion_transfer analysis state = convert_swaps analysis state analysis.swaps
