-- ===== src/Tracer/Money/Decimals.antt =====
-- `addDecimal` and `subtractDecimal` of internal/tracer/tracer.go on the text of integers.
use eth_fund_trace.Prelude.{◌≡◌, refl, some, if◌then◌else◌, Bool-cases, inl, inr, arith}
use eth_fund_trace.Prelude.Int.{ℤ, pos, ◌+ℤ◌, ◌-ℤ◌, ltb_ℤ}
use eth_fund_trace.Text.Decimal.{set_string, int_string, set_string-int_string}
use eth_fund_trace.Tracer.Money.{add_decimal, subtract_decimal}

zero_text : set_string "0" ≡ some (pos 0)
unfolding set_string
zero_text = refl

adds : (z w : ℤ) → add_decimal (int_string z) (int_string w) ≡ int_string (z +ℤ w)
unfolding add_decimal
adds z w = ground (arith, set_string-int_string z, set_string-int_string w)

subtracts :
    (z w : ℤ)
    → subtract_decimal (int_string z) (int_string w)
      ≡ (if ltb_ℤ z w then "0" else int_string (z -ℤ w))
unfolding subtract_decimal
subtracts z w = ground (arith, set_string-int_string z, set_string-int_string w)

-- On the decimal text of two integers, `add_decimal` gives text that is read back as their sum,
-- and `subtract_decimal` text that is read back as their difference, or as 0 where that is
-- negative.
pub decimal_arithmetic :
    (z w : ℤ)
    → (set_string (add_decimal (int_string z) (int_string w)) ≡ some (z +ℤ w))
      × (set_string (subtract_decimal (int_string z) (int_string w))
          ≡ some (if ltb_ℤ z w then pos 0 else z -ℤ w))
decimal_arithmetic z w = (
  rw (adds z w) (set_string-int_string (z +ℤ w)),
  elim (Bool-cases (ltb_ℤ z w)) [
    | inl e ↦ rw (subtracts z w, e) zero_text
    | inr e ↦ rw (subtracts z w, e) (set_string-int_string (z -ℤ w))
  ],
)
