-- ===== src/Tracer/Ledger/Posting.antt =====
-- What one state adds to a ledger of `buildLedgers` of internal/tracer/tracer.go.
use eth_fund_trace.Prelude.{
  ℕ, zero, suc, ◌+◌, ◌-◌, ◌≤◌, ◌≡◌, refl, sym, ap, ◌∙◌, true, false, not, none, String, str_eq,
  str_eq_iff, ◌==◌, if◌then◌else◌, Bool-cases, inl, inr, arith,
}
use eth_fund_trace.Prelude.Int.{◌+ℤ◌, ◌-ℤ◌}
use eth_fund_trace.Text.Decimal.{set_string, int_string, nat_string, set_string-nat_string}
use eth_fund_trace.Store.Money.{MoneyState, AssetLedger}
use eth_fund_trace.Tracer.Money.{add_decimal, subtract_decimal}
use eth_fund_trace.Tracer.Money.Queue.{value, value-nat_string}
use eth_fund_trace.Tracer.Money.Conservation.{is_in}
use eth_fund_trace.Tracer.Ledger.{new_ledger, add_to_ledger}

pub add_decimal-nat_string :
    (m n : ℕ) → add_decimal (nat_string m) (nat_string n) ≡ nat_string (m + n)
unfolding add_decimal ◌+ℤ◌ int_string
add_decimal-nat_string m n = ground (arith, set_string-nat_string m, set_string-nat_string n)

subtract_decimal-nat_string :
    (m n : ℕ) → n ≤ m → subtract_decimal (nat_string m) (nat_string n) ≡ nat_string (m - n)
unfolding subtract_decimal ◌-ℤ◌ int_string
subtract_decimal-nat_string m n le =
    ground (arith, set_string-nat_string m, set_string-nat_string n)

pub nat_string-zero : nat_string 0 ≡ "0"
unfolding nat_string
nat_string-zero = refl

pub zero_value : value "0" ≡ 0
unfolding value set_string
zero_value = refl

empty_text : set_string "" ≡ none
unfolding set_string
empty_text = refl

is_zero_text : (n : ℕ) → str_eq (nat_string n) "0" ≡ (n == 0)
is_zero_text zero = (str_eq_iff (nat_string 0) "0").1 nat_string-zero
is_zero_text (suc n) = elim (Bool-cases (str_eq (nat_string (suc n)) "0")) [
  | inl e ↦
      let same = ap value ((str_eq_iff (nat_string (suc n)) "0").0 e) in
      absurd (omega (arith, same, zero_value, value-nat_string (suc n)))
  | inr e ↦ ground (arith, e)
]

pub not_empty : (n : ℕ) → str_eq (nat_string n) "" ≡ false
not_empty n = elim (Bool-cases (str_eq (nat_string n) "")) [
  | inl e ↦
      let same = ap set_string ((str_eq_iff (nat_string n) "").0 e) in
      absurd (cc (same, empty_text, set_string-nat_string n))
  | inr e ↦ e
]

-- A state behind the matching: a natural amount, of which a natural number is left.
pub record IsMatched (s : MoneyState) : Type 0 where
  pub number : ℕ
  pub left : ℕ
  pub within : left ≤ number
  pub amount : s.amount ≡ nat_string number
  pub remaining : s.remaining_amount ≡ nat_string left
  pub direction : str_eq s.direction "out" ≡ not (is_in s)

-- A ledger with `i` in, `o` out, of which `u` are unexplained.
pub record IsLedger (i o u : ℕ) (ledger : AssetLedger) : Type 0 where
  pub incoming : ledger.incoming_amount ≡ nat_string i
  pub outgoing : ledger.outgoing_amount ≡ nat_string o
  pub unexplained : ledger.unexplained_amount ≡ nat_string u
  pub opening : ledger.opening_amount ≡ nat_string u
  pub explained : ledger.explained_amount ≡ nat_string (o - u)
  pub within : u ≤ o
  pub status : str_eq ledger.status "complete" ≡ (u == 0)

pub new_ledger-IsLedger : (s : MoneyState) → IsLedger 0 0 0 (new_ledger s)
unfolding new_ledger
new_ledger-IsLedger s = record {
  incoming = sym nat_string-zero;
  outgoing = sym nat_string-zero;
  unexplained = sym nat_string-zero;
  opening = sym nat_string-zero;
  explained = sym nat_string-zero;
  within = omega arith;
  status = refl;
}

module _ (s : MoneyState) (f : IsMatched s) (i o u : ℕ) (ledger : AssetLedger)
    (h : IsLedger i o u ledger) where
  adds :
      (text amount : String) (m n : ℕ)
      → text ≡ nat_string m
      → amount ≡ nat_string n
      → add_decimal text amount ≡ nat_string (m + n)
  adds text amount m n e g = rw (e, g) (add_decimal-nat_string m n)

  explains :
      add_decimal ledger.explained_amount (subtract_decimal s.amount s.remaining_amount)
      ≡ nat_string ((o + f.number) - (u + f.left))
  explains =
      let within = f.within in
      let below = h.within in
      let both : (o - u) + (f.number - f.left) ≡ (o + f.number) - (u + f.left) = omega arith in
      adds _ _ (o - u) (f.number - f.left) h.explained
        (rw (f.amount, f.remaining) (subtract_decimal-nat_string f.number f.left f.within))
      ∙ ap nat_string both

  status_of :
      str_eq (if str_eq s.remaining_amount "0" then ledger.status else "partial") "complete"
      ≡ (u + f.left == 0)
  status_of = elim (Bool-cases (f.left == 0)) [
    | inl e ↦ rw (f.remaining, is_zero_text f.left, e) (ground (arith, h.status))
    | inr e ↦ rw (f.remaining, is_zero_text f.left, e) (ground arith)
  ]

  pub add_in : is_in s ≡ true → IsLedger (i + f.number) o u (add_to_ledger s ledger)
  unfolding add_to_ledger
  add_in e =
      rw (f.direction, e)
        record {
          incoming = adds _ _ i f.number h.incoming f.amount;
          outgoing = h.outgoing;
          unexplained = h.unexplained;
          opening = h.opening;
          explained = h.explained;
          within = h.within;
          status = h.status;
        }

  pub add_out : is_in s ≡ false → IsLedger i (o + f.number) (u + f.left) (add_to_ledger s ledger)
  unfolding add_to_ledger
  add_out e =
      rw (f.direction, e)
        record {
          incoming = h.incoming;
          outgoing = adds _ _ o f.number h.outgoing f.amount;
          unexplained = adds _ _ u f.left h.unexplained f.remaining;
          opening = adds _ _ u f.left h.unexplained f.remaining;
          explained = explains;
          within = omega (arith, h.within, f.within);
          status = status_of;
        }
