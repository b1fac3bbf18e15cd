-- ===== src/Tracer/Money/Loop.antt =====
-- The outer loop of `consumeMoneyStates` of internal/tracer/tracer.go and the sums over the states.
use mathlib.Core.Path.{subst}
use eth_fund_trace.Prelude.{
  ℕ, ◌+◌, ◌≡◌, refl, ap, true, false, List, some, String, str_eq, str_eq_iff, Bool-cases, inl, inr,
  arith,
}
use eth_fund_trace.Prelude.Int.{ℤ}
use eth_fund_trace.Text.Decimal.{nat_string}
use eth_fund_trace.Store.Money.{MoneyState}
use eth_fund_trace.Tracer.Money.{money_key, state_at, set_remaining}
use eth_fund_trace.Tracer.Money.Queue.{
  value, value-nat_string, with_remaining, sum, sum-set, incoming_left,
}
use eth_fund_trace.Tracer.Money.Taken.{Blind, Taken}
use eth_fund_trace.Tracer.Money.Conservation.{
  is_in, incoming_amount, outgoing_amount, outgoing_left, IsFresh, IsConserved,
}

-- A weight that does not see what any state has left.
abbrev pub Steady : (MoneyState → ℕ) → Type 0
Steady f = (s : MoneyState) (v : String) → f (with_remaining v s) ≡ f s

pub incoming_amount-Steady : (key : String) → Steady (incoming_amount key)
unfolding incoming_amount money_key
incoming_amount-Steady key s v = refl

pub outgoing_amount-Steady : (key : String) → Steady (outgoing_amount key)
unfolding outgoing_amount money_key
outgoing_amount-Steady key s v = refl

outgoing_left-Blind : (key other : String) → Blind other (outgoing_left key)
unfolding outgoing_left money_key
outgoing_left-Blind key other s v incoming of_key = rw incoming

incoming_left-Blind :
    (key other : String) → str_eq other key ≡ false → Blind other (incoming_left key)
unfolding incoming_left
incoming_left-Blind key other ne s v incoming of_key =
    ground (arith, str_eq_iff (money_key s) key, str_eq_iff other key, key_with s v)
  where
    key_with : (u : MoneyState) (w : String) → money_key (with_remaining w u) ≡ money_key u
    key_with u w = unfold money_key in refl

module _ (k : String) (s : MoneyState) (v : String) where
  no_incoming : is_in s ≡ false → incoming_left k (with_remaining v s) ≡ incoming_left k s
  unfolding incoming_left
  no_incoming out = ground arith

  left_of_other :
      str_eq (money_key s) k ≡ false → outgoing_left k (with_remaining v s) ≡ outgoing_left k s
  unfolding outgoing_left money_key
  left_of_other ne = rw ne (ground arith)

left_of_key :
    (k : String) (s : MoneyState) (n : ℕ)
    → is_in s ≡ false
    → str_eq (money_key s) k ≡ true
    → outgoing_left k (with_remaining (nat_string n) s) ≡ n
unfolding outgoing_left money_key
left_of_key k s n out e = rw (out, e) (value-nat_string n)

left_of_fresh :
    (k : String) (s : MoneyState) (f : IsFresh s)
    → is_in s ≡ false
    → str_eq (money_key s) k ≡ true
    → outgoing_left k s ≡ f.number
unfolding outgoing_left
left_of_fresh k s f out e = ground (arith, f.unspent, ap value f.unspent, value-nat_string f.number)

module _ (k : String) (i : ℕ) (s : MoneyState) (f : IsFresh s) (states : List MoneyState)
    (r : ℤ × List ℕ × List MoneyState) (t : Taken (money_key s) f.number states r)
    (at : state_at i states ≡ some s) (out : is_in s ≡ false) where
  at_taken : state_at i r.2 ≡ some s
  at_taken = t.outgoing i s at out

  pub Steady-out :
      (w : MoneyState → ℕ)
      → Steady w
      → sum w (set_remaining i (nat_string t.left) r.2) ≡ sum w states
  Steady-out w h = omega (
    arith,
    sum-set w i (nat_string t.left) s r.2 at_taken,
    h s (nat_string t.left),
    t.blind w (λ u v incoming of_key. h u v),
  )

  -- What one outgoing state takes leaves the books in balance.
  pub out-IsConserved :
      IsConserved k states → IsConserved k (set_remaining i (nat_string t.left) r.2)
  out-IsConserved balance = elim (Bool-cases (str_eq (money_key s) k)) [
    | inl e ↦
        let spent : sum (incoming_left k) r.2 + f.number ≡ sum (incoming_left k) states + t.left =
          subst (λ x. sum (incoming_left x) r.2 + f.number ≡ sum (incoming_left x) states + t.left)
            ((str_eq_iff (money_key s) k).0 e) t.spent in
        omega (
          arith,
          balance,
          spent,
          Steady-out (incoming_amount k) (incoming_amount-Steady k),
          Steady-out (outgoing_amount k) (outgoing_amount-Steady k),
          sum-set (incoming_left k) i (nat_string t.left) s r.2 at_taken,
          no_incoming k s (nat_string t.left) out,
          sum-set (outgoing_left k) i (nat_string t.left) s r.2 at_taken,
          t.blind (outgoing_left k) (outgoing_left-Blind k (money_key s)),
          left_of_key k s t.left out e,
          left_of_fresh k s f out e,
        )
    | inr e ↦ omega (
      arith,
      balance,
      Steady-out (incoming_amount k) (incoming_amount-Steady k),
      Steady-out (outgoing_amount k) (outgoing_amount-Steady k),
      sum-set (incoming_left k) i (nat_string t.left) s r.2 at_taken,
      no_incoming k s (nat_string t.left) out,
      t.blind (incoming_left k) (incoming_left-Blind k (money_key s) e),
      sum-set (outgoing_left k) i (nat_string t.left) s r.2 at_taken,
      left_of_other k s (nat_string t.left) e,
      t.blind (outgoing_left k) (outgoing_left-Blind k (money_key s)),
    )
  ]
