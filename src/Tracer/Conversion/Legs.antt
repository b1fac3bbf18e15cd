-- ===== src/Tracer/Conversion/Legs.antt =====
-- The transfers of the conversions of internal/tracer/tracer.go as legs of a branch.
use mathlib.Core.Path.{subst}
use eth_fund_trace.Prelude.{
  ◌≡◌, refl, Bool, true, false, List, [], ◌∷◌, Option, none, some, String, str_eq, str_eq_iff,
  if◌then◌else◌, Bool-cases, inl, inr,
}
use eth_fund_trace.Text.{to_lower}
use eth_fund_trace.Store.Transfer.{Transfer}
use eth_fund_trace.Store.Analysis.{SwapConversion, SwapEvent, WrapEvent, TransactionAnalysis}
use eth_fund_trace.Tracer.Types.{BranchState}
use eth_fund_trace.Tracer.Conversion.{
  choose, weth, semantic_transfer, transfer_from_conversion, find_wrap, wrap_conversion,
  swap_transfer, swaps_transfer, last_swap, convert_swaps, legacy_conversion_transfer,
}
use eth_fund_trace.Tracer.Conversion.Thorchain.{thorchain_protocol_transfer, thorchain_kind}

-- A transfer, if there is one, is of the analysed transaction, and starts at the address of a
-- branch that goes out, and ends at that of a branch that goes in.
abbrev pub Leg : TransactionAnalysis → BranchState → Option Transfer → Type 0
Leg analysis state none = Unit
Leg analysis state (some t) =
    (t.tx_hash ≡ analysis.tx_hash)
    × (t.chain ≡ analysis.chain)
    × (str_eq state.direction "out" ≡ true → t.from ≡ to_lower state.address)
    × (str_eq state.direction "in" ≡ true → t.to ≡ to_lower state.address)

-- The same as a record, whose parameters the proofs leave to be found.
record Continues (analysis : TransactionAnalysis) (state : BranchState) (o : Option Transfer)
    : Type 0 where
  leg : Leg analysis state o

clash : (d : String) → str_eq d "out" ≡ true → str_eq d "in" ≡ true → ⊥
clash d e g =
    let there : str_eq "out" "in" ≡ true =
      subst (λ x. str_eq x "in" ≡ true) ((str_eq_iff d "out").0 e) g in
    cc there

module _ (analysis : TransactionAnalysis) (state : BranchState) where
  no_leg : Continues analysis state none
  no_leg = record { leg = tt }

  by_test :
      (b : Bool) (o p : Option Transfer)
      → (b ≡ true → Continues analysis state o)
      → (b ≡ false → Continues analysis state p)
      → Continues analysis state (choose b o p)
  unfolding choose
  by_test true o p h g = h refl
  by_test false o p h g = g refl

  unless :
      (b : Bool) (p : Option Transfer)
      → Continues analysis state p
      → Continues analysis state (choose b none p)
  unless b p h = by_test b none p (λ e. no_leg) (λ e. h)

  from_leg :
      (to asset amount kind : String)
      → str_eq state.direction "in" ≡ false
      → Continues analysis state
          (some (semantic_transfer analysis state.address to asset amount kind))
  unfolding semantic_transfer
  from_leg to asset amount kind e = record {
    leg = (refl, refl, (λ out. refl), λ into. absurd (cc (e, into)));
  }

  to_leg :
      (from asset amount kind : String)
      → str_eq state.direction "out" ≡ false
      → Continues analysis state
          (some (semantic_transfer analysis from state.address asset amount kind))
  unfolding semantic_transfer
  to_leg from asset amount kind e = record {
    leg = (refl, refl, (λ out. absurd (cc (e, out))), λ into. refl);
  }

  not_in : str_eq state.direction "out" ≡ true → str_eq state.direction "in" ≡ false
  not_in e = elim (Bool-cases (str_eq state.direction "in")) [
    | inl g ↦ absurd (clash state.direction e g)
    | inr g ↦ g
  ]

  not_out : str_eq state.direction "in" ≡ true → str_eq state.direction "out" ≡ false
  not_out e = elim (Bool-cases (str_eq state.direction "out")) [
    | inl g ↦ absurd (clash state.direction g e)
    | inr g ↦ g
  ]

  transfer_from_conversion-Continues :
      (conversion : SwapConversion)
      → Continues analysis state (transfer_from_conversion analysis state conversion)
  unfolding transfer_from_conversion
  transfer_from_conversion-Continues conversion = unless _ _ (
      by_test _ _ _ (λ out. unless _ _ (from_leg _ _ _ _ (not_in out)))
        (λ out. unless _ _ (to_leg _ _ _ _ out)))

  thorchain_kind-Continues :
      (kind : Option String) (a b c : Bool) (to asset amount : String)
      → Continues analysis state (elim kind [
        | none ↦ none
        | some k ↦ choose a none (
            choose b none (
              choose c none (
                choose
                  (str_eq state.direction "in")
                  (some (semantic_transfer analysis analysis.from state.address asset amount k))
                  (some (semantic_transfer analysis state.address to asset amount k)))))
      ])
  thorchain_kind-Continues none a b c to asset amount = no_leg
  thorchain_kind-Continues (some k) a b c to asset amount = unless _ _ (
      unless _ _ (
        unless _ _
          (by_test _ _ _ (λ into. to_leg _ _ _ _ (not_out into)) (λ into. from_leg _ _ _ _ into))))

  thorchain-Continues : Continues analysis state (thorchain_protocol_transfer analysis state)
  unfolding thorchain_protocol_transfer
  thorchain-Continues =
      thorchain_kind-Continues (thorchain_kind analysis.protocol_action) _ _ _ _ _ _

  found_wrap-Continues :
      (wrap : Option WrapEvent)
      → Continues analysis state (elim wrap [
        | none ↦ none
        | some w ↦
            choose
              (str_eq state.direction "in")
              (some (semantic_transfer analysis w.account state.address weth w.amount "unwrap"))
              (some (semantic_transfer analysis state.address w.account weth w.amount "wrap"))
      ])
  found_wrap-Continues none = no_leg
  found_wrap-Continues (some w) =
      by_test _ _ _ (λ into. to_leg _ _ _ _ (not_out into)) (λ into. from_leg _ _ _ _ into)

  wrap_conversion-Continues : Continues analysis state (wrap_conversion analysis state)
  unfolding wrap_conversion
  wrap_conversion-Continues =
      let kind = if str_eq state.direction "in" then "withdrawal" else "deposit" in
      unless _ _ (found_wrap-Continues (find_wrap kind analysis.wraps))

  swaps_transfer-Continues :
      (first last : SwapEvent) → Continues analysis state (swaps_transfer analysis state first last)
  unfolding swaps_transfer swap_transfer
  swaps_transfer-Continues first last =
      by_test _ _ _
        (λ out. by_test _ _ _ (λ e. unless _ _ (from_leg _ _ _ _ (not_in out))) (λ e. no_leg))
        (λ out. by_test _ _ _ (λ e. unless _ _ (to_leg _ _ _ _ out)) (λ e. no_leg))

  convert_swaps-Continues :
      (swaps : List SwapEvent) → Continues analysis state (convert_swaps analysis state swaps)
  unfolding convert_swaps
  convert_swaps-Continues [] = wrap_conversion-Continues
  convert_swaps-Continues (first ∷ rest) =
      by_test _ _ _ (λ e. swaps_transfer-Continues first (last_swap first rest)) (λ e. no_leg)

-- A transfer that a conversion, the swaps and wraps, or the action of the protocol gives is of the
-- analysed transaction and its chain, starts at the address of a branch that goes out, and ends at
-- the address of a branch that goes in.
pub conversions_continue :
    (analysis : TransactionAnalysis) (state : BranchState) (conversion : SwapConversion)
    → Leg analysis state (transfer_from_conversion analysis state conversion)
      × Leg analysis state (legacy_conversion_transfer analysis state)
      × Leg analysis state (thorchain_protocol_transfer analysis state)
unfolding legacy_conversion_transfer
conversions_continue analysis state conversion =
    let a = transfer_from_conversion-Continues analysis state conversion in
    let b = convert_swaps-Continues analysis state analysis.swaps in
    let c = thorchain-Continues analysis state in (a.leg, b.leg, c.leg)
