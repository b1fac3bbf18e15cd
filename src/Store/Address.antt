-- ===== src/Store/Address.antt =====
-- An address with its synchronised block ranges (`Address` of internal/store/models.go).
use eth_fund_trace.Prelude.{ℕ, Bool, ◌&&◌, ◌||◌, not, List, Option, String, leb, ◌==◌, min, max}
use eth_fund_trace.Prelude.Dict.{Dict}

pub record Address : Type 0 where
  pub chain : String
  pub chain_id : ℕ
  pub address : String
  pub address_type : String
  pub is_contract : Bool
  pub protocol : String
  pub roles : List String
  pub is_terminal : Bool
  pub normal_synced_from : ℕ
  pub normal_synced_to : ℕ
  pub internal_synced_from : ℕ
  pub internal_synced_to : ℕ
  pub token_synced_from : ℕ
  pub token_synced_to : ℕ
  pub last_synced_at : ℕ
  pub sync_status : String
  pub sync_error : String
  pub sync_max_records_per_action : ℕ
  pub action_record_counts : Option (Dict ℕ)

-- The block range that every sync action has completed, and whether there is one.
unfoldable pub common_coverage : Address → ℕ × ℕ × Bool
common_coverage a =
    let from = max a.normal_synced_from (max a.internal_synced_from a.token_synced_from) in
    let to = min a.normal_synced_to (min a.internal_synced_to a.token_synced_to) in
    (from, to, leb from to && (not (from == 0) || not (to == 0)))

pub record AddressSyncCoverage : Type 0 where
  pub normal_from : ℕ
  pub normal_to : ℕ
  pub internal_from : ℕ
  pub internal_to : ℕ
  pub token_from : ℕ
  pub token_to : ℕ

-- A chain-confirmed account type and optional protocol roles.
pub record AddressIdentity : Type 0 where
  pub address_type : String
  pub protocol : String
  pub roles : List String
