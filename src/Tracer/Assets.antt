-- ===== src/Tracer/Assets.antt =====
-- Assets and amounts: internal/tracer/tokens.go and amount.go.
use eth_fund_trace.Prelude.{
  ℕ, ◌^◌, Bool, true, false, ◌&&◌, ◌||◌, not, List, [], ◌∷◌, Option, none, some, String, str_eq,
  ltb, leb, ◌==◌, if◌then◌else◌,
}
use eth_fund_trace.Prelude.Int.{ℤ, pos, negsuc, ltb_ℤ}
use eth_fund_trace.Text.{to_lower, equal_fold}
use eth_fund_trace.Text.Decimal.{set_string}
use eth_fund_trace.Ethaddr
use eth_fund_trace.Store.Transfer.{Transfer, CounterpartySummary}
pub mod Laws

pub record KnownToken : Type 0 where
  pub contract : String
  pub symbol : String
  pub decimals : ℕ

abbrev pub known_ethereum_tokens : List KnownToken
known_ethereum_tokens =
    record {
      contract = "0x6b175474e89094c44da98b954eedeac495271d0f";
      symbol = "DAI";
      decimals = 18;
    }
    ∷ record {
      contract = "0xa0b86991c6218b36c1d19d4a2e9eb0ce3606eb48";
      symbol = "USDC";
      decimals = 6;
    }
    ∷ record {
      contract = "0xdac17f958d2ee523a2206206994597c13d831ec7";
      symbol = "USDT";
      decimals = 6;
    }
    ∷ record {
      contract = "0xc02aaa39b223fe8d0a0e5c4f27ead9083c756cc2";
      symbol = "WETH";
      decimals = 18;
    }
    ∷ []

-- The map of known tokens has the one key `ethereum`.
unfoldable pub known_tokens : String → List KnownToken
known_tokens chain = if str_eq chain "ethereum" then known_ethereum_tokens else []

unfoldable pub find_token : String → List KnownToken → Option KnownToken
find_token contract [] = none
find_token contract (token ∷ tokens) =
    if equal_fold token.contract contract then some token else find_token contract tokens

unfoldable pub known_token_for : String → String → Option KnownToken
unfolding known_tokens find_token
known_token_for chain contract = find_token contract (known_tokens chain)

-- The whitelist test of a summary: ETH, or a known token's contract.
unfoldable pub supported_summary_asset : CounterpartySummary → Bool
supported_summary_asset summary =
    if str_eq summary.asset_type "eth" || equal_fold summary.asset "ETH"
    then true
    else if not (str_eq summary.asset_type "erc20")
    then false
    else elim (Ethaddr.normalize summary.asset) [
      | none ↦ false
      | some contract ↦ elim (known_token_for summary.chain contract) [
        | none ↦ false
        | some _ ↦ true
      ]
    ]

unfoldable pub canonicalize_summary_asset : String → CounterpartySummary → CounterpartySummary
canonicalize_summary_asset chain summary = elim (known_token_for chain summary.asset) [
  | some token ↦ record summary {
    asset_type = "erc20";
    asset = token.contract;
    symbol = token.symbol;
    decimals = token.decimals;
    token_metadata_complete = true;
  }
  | none ↦ if str_eq summary.asset_type "erc20" then record summary { symbol = "" } else summary
]

-- 0.01 ETH in wei.
abbrev pub minimum_eth_trace_amount : ℕ
minimum_eth_trace_amount = 10 ^ 16

-- 50 USDT.
abbrev pub minimum_usdt_trace_amount : ℕ
minimum_usdt_trace_amount = 50000000

-- The inclusive minimum of the asset, if it has one.
unfoldable pub trace_minimum : CounterpartySummary → Option ℕ
trace_minimum summary =
    if str_eq summary.asset_type "eth" || equal_fold summary.asset "ETH"
    then some minimum_eth_trace_amount
    else if equal_fold summary.symbol "USDT"
    then some minimum_usdt_trace_amount
    else none

unfoldable pub reaches : ℤ → Option ℕ → Bool
reaches amount none = true
reaches amount (some minimum) = not (ltb_ℤ amount (pos minimum))

unfoldable pub above_trace_threshold : CounterpartySummary → Bool
above_trace_threshold summary =
    if not (str_eq summary.chain "ethereum") || not (summary.chain_id == 1)
    then true
    else elim (set_string summary.total_amount) [
      | none ↦ false
      | some amount ↦ ltb_ℤ (pos 0) amount && reaches amount (trace_minimum summary)
    ]

unfoldable pub transfer_amount : Transfer → String
transfer_amount transfer =
    if str_eq transfer.asset_type "eth" || equal_fold transfer.asset "ETH"
    then transfer.amount
    else transfer.token_value

-- Asset mode and asset.
unfoldable pub transfer_asset : Transfer → String × String
transfer_asset transfer =
    if str_eq transfer.asset_type "eth" || equal_fold transfer.asset "ETH"
    then ("eth", "ETH")
    else ("contract", to_lower transfer.asset)

unfoldable pub summary_asset : CounterpartySummary → String × String
summary_asset summary =
    if str_eq summary.asset_type "eth" || equal_fold summary.asset "ETH"
    then ("eth", "ETH")
    else ("contract", to_lower summary.asset)

unfoldable pub transfer_summary : Transfer → CounterpartySummary
unfolding transfer_amount
transfer_summary transfer = record {
  chain = transfer.chain;
  chain_id = transfer.chain_id;
  from = transfer.from;
  to = transfer.to;
  asset_type = transfer.asset_type;
  asset = transfer.asset;
  symbol = transfer.symbol;
  decimals = transfer.decimals;
  token_metadata_complete = transfer.token_metadata_complete;
  total_amount = transfer_amount transfer;
  transfer_count = 1;
  earliest_block = transfer.block_number;
  earliest_time = transfer.block_time;
  latest_block = transfer.block_number;
  latest_time = transfer.block_time;
  latest_transfer = transfer;
  representative = transfer;
}
