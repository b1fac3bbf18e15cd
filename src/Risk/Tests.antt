-- ===== src/Risk/Tests.antt =====
-- The risk analysis of a seed with a trusted and an untrusted label.
use eth_fund_trace.Prelude.{◌≡◌, ◌≤◌, All, List, [], ◌∷◌, keep, length}
use eth_fund_trace.Prelude.Int.{pos}
use eth_fund_trace.Text.{to_lower}
use eth_fund_trace.Store.Label.{Label}
use eth_fund_trace.Risk.{Evidence, analyze}
use eth_fund_trace.Risk.Laws.{analyze-Best, counts, analyze-counts}

abbrev trusted : Label
trusted = record {
  id = "";
  chain = "ethereum";
  chain_id = 1;
  address = "0xAB";
  kind = "hacker";
  source = "manual";
  note = "";
  risk_level = "high";
  confidence = pos 900000;
  evidence = [];
  observed_at = 0;
}

abbrev labels : List Label
labels = trusted ∷ record trusted { source = "guess" } ∷ []

analyze-Best_example :
    let r = analyze "0xab" labels in
    (r.score ≤ 70) × All (λ (e : Evidence). e.score ≤ r.score) r.evidence
analyze-Best_example = analyze-Best "0xab" labels

-- The label of the unknown source does not count.
analyze-counts_example :
    (analyze "0xab" labels ≡ analyze "0xab" (keep (counts (to_lower "0xab")) labels))
    × (length (analyze "0xab" labels).evidence ≡ length (keep (counts (to_lower "0xab")) labels))
analyze-counts_example = analyze-counts "0xab" labels
