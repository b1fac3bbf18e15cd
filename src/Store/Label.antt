-- ===== src/Store/Label.antt =====
-- A label of an address (`Label` of internal/store/models.go). The float64 `Confidence` is an
-- integer number of millionths.
use eth_fund_trace.Prelude.{ℕ, List, String}
use eth_fund_trace.Prelude.Int.{ℤ}

-- `kind` is the field `Type`.
pub record Label : Type 0 where
  pub id : String
  pub chain : String
  pub chain_id : ℕ
  pub address : String
  pub kind : String
  pub source : String
  pub note : String
  pub risk_level : String
  pub confidence : ℤ
  pub evidence : List String
  pub observed_at : ℕ
