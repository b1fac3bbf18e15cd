-- ===== src/Store/Profile.antt =====
-- Activity and profile of an address (`AddressProfile`, `ProfileFeatures`, `AddressActivity` of
-- internal/store/models.go). The start of the window may lie before time 0, so it is an integer.
use eth_fund_trace.Prelude.{ℕ, Bool, List, String}
use eth_fund_trace.Prelude.Int.{ℤ}

pub record ProfileFeatures : Type 0 where
  pub lifetime_transfers : ℕ
  pub lifetime_incoming : ℕ
  pub lifetime_outgoing : ℕ
  pub window_transfers : ℕ
  pub incoming : ℕ
  pub outgoing : ℕ
  pub unique_counterparts : ℕ
  pub unique_senders : ℕ
  pub unique_recipients : ℕ
  pub active_days : ℕ
  pub eth_transfers : ℕ
  pub erc20_transfers : ℕ

pub record AddressProfile : Type 0 where
  pub chain : String
  pub chain_id : ℕ
  pub address : String
  pub rule_version : String
  pub data_through_block : ℕ
  pub window_start : ℤ
  pub window_end : ℕ
  pub features : ProfileFeatures
  pub score : ℕ
  pub classification : String
  pub suspected_hot_wallet : Bool
  pub signals : List String
  pub computed_at : ℕ

pub record AddressActivity : Type 0 where
  pub latest_transfer_at : ℕ
  pub features : ProfileFeatures
