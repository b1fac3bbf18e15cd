-- ===== src/Risk.antt =====
-- Direct-label risk: internal/risk/risk.go. Confidences are integers in millionths, and a product
-- is rounded to the nearest integer, halves up, as `math.Round` does from 0 on.
use eth_fund_trace.Prelude.{
  ℕ, ◌+◌, ◌*◌, ◌/◌, Bool, true, false, ◌&&◌, ◌||◌, not, List, [], ◌∷◌, ◌++◌, String, str_eq, ltb,
  leb, if◌then◌else◌,
}
use eth_fund_trace.Prelude.Int.{ℤ, pos, negsuc}
use eth_fund_trace.Text.{to_lower, equal_fold, contains}
use eth_fund_trace.Store.Label.{Label}
pub mod Laws
mod Tests

abbrev pub risk_version : String
risk_version = "direct-label-v1"

pub record Evidence : Type 0 where
  pub address : String
  pub label_type : String
  pub base_score : ℕ
  pub score : ℕ
  pub confidence : ℕ
  pub distance : ℕ
  pub direction : String
  pub path : List String
  pub tx_hashes : List String
  pub evidence : List String
  pub rule : String

pub record RiskResult : Type 0 where
  pub score : ℕ
  pub level : String
  pub evidence : List Evidence
  pub rule_version : String

unfoldable pub label_confidence : ℤ → ℕ
label_confidence (negsuc _) = 0
label_confidence (pos n) = if ltb 1000000 n then 1000000 else n

-- A label of the seed from a trusted source.
unfoldable pub is_direct : String → Label → Bool
is_direct seed label =
    equal_fold label.address seed
    && (str_eq label.source "manual" || str_eq label.source "public-list")

unfoldable pub base_score : Label → ℕ
base_score label =
    let kind = to_lower label.kind in
    if str_eq label.risk_level "high" || (contains kind "hacker" || contains kind "phishing")
    then 70
    else 40

unfoldable pub label_score : Label → ℕ
label_score label = (base_score label * label_confidence label.confidence + 500000) / 1000000

-- One round of the loop over the labels.
unfoldable pub add_label : String → RiskResult → Label → RiskResult
add_label seed r label =
    if is_direct seed label
    then record r {
      score = if ltb r.score (label_score label) then label_score label else r.score;
      evidence =
          r.evidence
          ++ record {
            address = seed;
            label_type = label.kind;
            base_score = base_score label;
            score = label_score label;
            confidence = label_confidence label.confidence;
            distance = 0;
            direction = "direct";
            path = seed ∷ [];
            tx_hashes = [];
            evidence = label.evidence;
            rule = risk_version;
          }
            ∷ [];
    }
    else r

unfoldable pub add_labels : String → RiskResult → List Label → RiskResult
add_labels seed r [] = r
add_labels seed r (label ∷ labels) = add_labels seed (add_label seed r label) labels

unfoldable pub level_of : ℕ → String → String
level_of score unknown =
    if leb 70 score then "known_high" else if leb 40 score then "suspected" else unknown

unfoldable pub analyze : String → List Label → RiskResult
analyze seed labels =
    let start : RiskResult = record {
      score = 0;
      level = "no_conclusion";
      evidence = [];
      rule_version = risk_version;
    } in
    let r = add_labels (to_lower seed) start labels in record r { level = level_of r.score r.level }
