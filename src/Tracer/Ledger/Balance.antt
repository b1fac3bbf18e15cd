-- ===== src/Tracer/Ledger/Balance.antt =====
-- The ledgers of `buildLedgers` of internal/tracer/tracer.go against the sums over the states.
use mathlib.Core.Path.{subst}
use eth_fund_trace.Prelude.{
  ℕ, ◌+◌, ◌≡◌, refl, sym, true, false, List, [], ◌∷◌, Option, none, some, String, str_eq,
  str_eq_iff, if◌then◌else◌, All, Bool-cases, inl, inr, arith,
}
use eth_fund_trace.Prelude.Dict.{Dict, lookup, lookup-insert}
use eth_fund_trace.Store.Money.{MoneyState, AssetLedger}
use eth_fund_trace.Tracer.Money.{money_key}
use eth_fund_trace.Tracer.Money.Queue.{value-nat_string, sum}
use eth_fund_trace.Tracer.Money.Conservation.{
  is_in, incoming_amount, outgoing_amount, outgoing_left,
}
use eth_fund_trace.Tracer.Ledger.{ledger_or_new, add_to_ledger, note_state, note_states}
use eth_fund_trace.Tracer.Ledger.Posting.{
  not_empty, IsMatched, IsLedger, new_ledger-IsLedger, add_in, add_out,
}

-- The ledger of a key, or none for totals of 0.
abbrev pub Posted : ℕ → ℕ → ℕ → Option AssetLedger → Type 0
Posted i o u none = (i ≡ 0) × (o ≡ 0) × (u ≡ 0)
Posted i o u (some ledger) = IsLedger i o u ledger

recount :
    {i i' o o' u u' : ℕ} (found : Option AssetLedger)
    → i' ≡ i
    → o' ≡ o
    → u' ≡ u
    → Posted i o u found
    → Posted i' o' u' found
recount found e g h p = rw (e, g, h) p

opened :
    (s : MoneyState) (i o u : ℕ) (found : Option AssetLedger)
    → Posted i o u found
    → IsLedger i o u (ledger_or_new s found)
unfolding ledger_or_new
opened s i o u none (e, g, h) = rw (e, g, h) (new_ledger-IsLedger s)
opened s i o u (some ledger) h = h

module _ (key : String) (s : MoneyState) (f : IsMatched s) where
  in_weights :
      is_in s ≡ true
      → str_eq (money_key s) key ≡ true
      → (incoming_amount key s ≡ f.number) × (outgoing_amount key s ≡ 0) × (outgoing_left key s ≡ 0)
  unfolding incoming_amount outgoing_amount outgoing_left
  in_weights e k = (rw (e, k, f.amount) (value-nat_string f.number), rw e refl, rw e refl)

  out_weights :
      is_in s ≡ false
      → str_eq (money_key s) key ≡ true
      → (incoming_amount key s ≡ 0)
        × (outgoing_amount key s ≡ f.number)
        × (outgoing_left key s ≡ f.left)
  unfolding incoming_amount outgoing_amount outgoing_left
  out_weights e k = (
    rw e refl,
    rw (e, k, f.amount) (value-nat_string f.number),
    rw (e, k, f.remaining) (value-nat_string f.left),
  )

  other_weights :
      str_eq (money_key s) key ≡ false
      → (incoming_amount key s ≡ 0) × (outgoing_amount key s ≡ 0) × (outgoing_left key s ≡ 0)
  unfolding incoming_amount outgoing_amount outgoing_left
  other_weights k = (ground (arith, k), ground (arith, k), ground (arith, k))

  added :
      (i o u : ℕ) (ledger : AssetLedger)
      → str_eq (money_key s) key ≡ true
      → IsLedger i o u ledger
      → IsLedger
          (i + incoming_amount key s)
          (o + outgoing_amount key s)
          (u + outgoing_left key s)
          (add_to_ledger s ledger)
  added i o u ledger k h = elim (Bool-cases (is_in s)) [
    | inl e ↦
        let w = in_weights e k in
        recount (some _) (omega (arith, w.0)) (omega (arith, w.1)) (omega (arith, w.2))
          (add_in s f i o u ledger h e)
    | inr e ↦
        let w = out_weights e k in
        recount (some _) (omega (arith, w.0)) (omega (arith, w.1)) (omega (arith, w.2))
          (add_out s f i o u ledger h e)
  ]

  noted :
      (ledgers : Dict AssetLedger)
      → lookup key (note_state s ledgers) ≡ (
          if str_eq (money_key s) key
          then some (add_to_ledger s (ledger_or_new s (lookup (money_key s) ledgers)))
          else lookup key ledgers)
  unfolding note_state
  noted ledgers =
      let blank : str_eq s.amount "" ≡ false = rw f.amount (not_empty f.number) in
      rw (note_state, blank) (lookup-insert (money_key s) key _ ledgers)

  note_state-Posted :
      (i o u : ℕ) (ledgers : Dict AssetLedger)
      → Posted i o u (lookup key ledgers)
      → Posted
          (i + incoming_amount key s)
          (o + outgoing_amount key s)
          (u + outgoing_left key s)
          (lookup key (note_state s ledgers))
  note_state-Posted i o u ledgers h = elim (Bool-cases (str_eq (money_key s) key)) [
    | inl k ↦
        let here =
          subst (λ j. Posted i o u (lookup j ledgers)) (sym ((str_eq_iff (money_key s) key).0 k))
            h in
        rw (noted ledgers, k) (added i o u _ k (opened s i o u (lookup (money_key s) ledgers) here))
    | inr k ↦
        let w = other_weights k in
        rw (noted ledgers, k)
          (recount (lookup key ledgers) (omega (arith, w.0)) (omega (arith, w.1))
            (omega (arith, w.2)) h)
  ]

note_states-Posted :
    (key : String) (ss : List MoneyState) (i o u : ℕ) (ledgers : Dict AssetLedger)
    → All IsMatched ss
    → Posted i o u (lookup key ledgers)
    → Posted
        (i + sum (incoming_amount key) ss)
        (o + sum (outgoing_amount key) ss)
        (u + sum (outgoing_left key) ss)
        (lookup key (note_states ss ledgers))
unfolding note_states sum
note_states-Posted key [] i o u ledgers fs h =
    recount (lookup key ledgers) (omega arith) (omega arith) (omega arith) h
note_states-Posted key (s ∷ ss) i o u ledgers (f, fs) h =
    recount (lookup key (note_states ss (note_state s ledgers))) (omega arith) (omega arith)
      (omega arith)
      (note_states-Posted key ss _ _ _ (note_state s ledgers) fs
        (note_state-Posted key s f i o u ledgers h))

-- For states with natural amounts, of each of which a natural number is left, all of them in or
-- out: a key without a ledger has no amounts, and the ledger of a key has the sum of its incoming
-- amounts, the sum of its outgoing amounts, as unexplained and opening amount the sum of what its
-- outgoing states have left, as explained amount the rest of the outgoing amounts, and the status
-- `complete` exactly if nothing is unexplained.
pub note_states_balance :
    (states : List MoneyState) (key : String)
    → All IsMatched states
    → Posted
        (sum (incoming_amount key) states)
        (sum (outgoing_amount key) states)
        (sum (outgoing_left key) states)
        (lookup key (note_states states []))
unfolding lookup
note_states_balance states key fs =
    recount (lookup key (note_states states [])) (omega arith) (omega arith) (omega arith)
      (note_states-Posted key states 0 0 0 [] fs (refl, refl, refl))
