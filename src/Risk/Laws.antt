-- ===== src/Risk/Laws.antt =====
-- The score of internal/risk/risk.go over a list of labels.
use eth_fund_trace.Prelude.{
  ℕ, ◌≤◌, ◌+◌, ◌≡◌, refl, ap, ◌∙◌, true, false, Bool, ◌&&◌, ◌||◌, str_eq, length, length-snoc, List,
  [], ◌∷◌, String, ltb, keep, All, All-append, Bool-cases, ◌⊎◌, inl, inr, arith,
}
use eth_fund_trace.Prelude.Int.{ℤ, pos, negsuc}
use eth_fund_trace.Text.{to_lower, equal_fold}
use eth_fund_trace.Store.Label.{Label}
use eth_fund_trace.Risk.{
  Evidence, RiskResult, label_confidence, is_direct, base_score, label_score, add_label, add_labels,
  analyze,
}

label_confidence-le : (c : ℤ) → label_confidence c ≤ 1000000
unfolding label_confidence
label_confidence-le (pos n) = ground arith
label_confidence-le (negsuc n) = omega arith

base_score-cases : (label : Label) → (base_score label ≡ 70) ⊎ (base_score label ≡ 40)
unfolding base_score
base_score-cases label = ground arith

label_score-le : (label : Label) → label_score label ≤ 70
unfolding label_score
label_score-le label = elim (base_score-cases label) [
  | inl e ↦ rw e (omega (arith, label_confidence-le label.confidence))
  | inr e ↦ rw e (omega (arith, label_confidence-le label.confidence))
]

-- The labels that count.
abbrev counted : String → List Label → List Label
counted seed labels = keep (is_direct seed) labels

abbrev Best : RiskResult → Type 0
Best r = (r.score ≤ 70) × All (λ (e : Evidence). e.score ≤ r.score) r.evidence

All-weaken :
    (a b : ℕ) (es : List Evidence)
    → a ≤ b
    → All (λ (e : Evidence). e.score ≤ a) es
    → All (λ (e : Evidence). e.score ≤ b) es
All-weaken a b [] le h = tt
All-weaken a b (e ∷ es) le (h, hs) = (omega arith, All-weaken a b es le hs)

add_label-Best :
    (seed : String) (r : RiskResult) (label : Label) → Best r → Best (add_label seed r label)
unfolding add_label
add_label-Best seed r label (le, h) = elim (Bool-cases (is_direct seed label)) [
  | inr e ↦ rw e (le, h)
  | inl e ↦ rw e (elim (Bool-cases (ltb r.score (label_score label))) [
    | inl lt ↦ rw lt (
      label_score-le label,
      All-append _ r.evidence _ (All-weaken r.score (label_score label) r.evidence (ground arith) h)
          (omega arith, tt),
    )
    | inr ge ↦ rw ge (le, All-append _ r.evidence _ h (ground arith, tt))
  ])
]

add_labels-Best :
    (seed : String) (r : RiskResult) (labels : List Label)
    → Best r
    → Best (add_labels seed r labels)
unfolding add_labels
add_labels-Best seed r [] h = h
add_labels-Best seed r (label ∷ labels) h =
    add_labels-Best seed (add_label seed r label) labels (add_label-Best seed r label h)

-- The score is at most 70 and bounds the score of each evidence.
pub analyze-Best :
    (seed : String) (labels : List Label)
    → let r = analyze seed labels in
      (r.score ≤ 70) × All (λ (e : Evidence). e.score ≤ r.score) r.evidence
unfolding analyze
analyze-Best seed labels = add_labels-Best (to_lower seed) _ labels (omega arith, tt)

add_label-skips :
    (seed : String) (r : RiskResult) (label : Label)
    → is_direct seed label ≡ false
    → add_label seed r label ≡ r
unfolding add_label
add_label-skips seed r label e = ground arith

add_labels-counted :
    (seed : String) (r : RiskResult) (labels : List Label)
    → add_labels seed r labels ≡ add_labels seed r (counted seed labels)
unfolding add_labels
add_labels-counted seed r [] = refl
add_labels-counted seed r (label ∷ labels) = elim (Bool-cases (is_direct seed label)) [
  | inl e ↦ rw e (add_labels-counted seed (add_label seed r label) labels)
  | inr e ↦ rw (e, add_label-skips seed r label e) (add_labels-counted seed r labels)
]

add_label_evidence :
    (seed : String) (r : RiskResult) (label : Label)
    → is_direct seed label ≡ true
    → length (add_label seed r label).evidence ≡ length r.evidence + 1
unfolding add_label
add_label_evidence seed r label e = rw e (length-snoc r.evidence _)

evidence_count :
    (seed : String) (r : RiskResult) (labels : List Label)
    → length (add_labels seed r labels).evidence ≡ length r.evidence + length (counted seed labels)
unfolding add_labels
evidence_count seed r [] = omega arith
evidence_count seed r (label ∷ labels) = elim (Bool-cases (is_direct seed label)) [
  | inl e ↦ rw e (
      omega (
        arith,
        evidence_count seed (add_label seed r label) labels,
        add_label_evidence seed r label e,
      ))
  | inr e ↦ rw e (
      ap (λ x. length (add_labels seed x labels).evidence) (add_label-skips seed r label e)
      ∙ evidence_count seed r labels)
]

-- A label counts when its address is that of the seed, up to the case of letters, and it was given
-- by hand or comes from a public list.
abbrev pub counts : String → Label → Bool
counts seed label =
    str_eq (to_lower label.address) (to_lower seed)
    && (str_eq label.source "manual" || str_eq label.source "public-list")

-- The labels of other addresses, and those neither given by hand nor from a public list, have no
-- influence on the result, and each of the others gives one evidence.
pub analyze-counts :
    (seed : String) (labels : List Label)
    → (analyze seed labels ≡ analyze seed (keep (counts (to_lower seed)) labels))
      × (length (analyze seed labels).evidence ≡ length (keep (counts (to_lower seed)) labels))
unfolding analyze is_direct equal_fold
analyze-counts seed labels = (
  rw (add_labels-counted (to_lower seed) _ labels) refl,
  omega (arith, evidence_count (to_lower seed) _ labels),
)
