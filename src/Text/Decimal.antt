-- ===== src/Text/Decimal.antt =====
-- Decimal text of `math/big`: `SetString(s, 10)` and `String()`, which all amounts go through.
use Prim.Native.Char.{Char, code}
use Prim.Native.String.{char_at}
use eth_fund_trace.Prelude.{
  ℕ, zero, suc, ◌+◌, ◌-◌, ◌*◌, ◌/◌, ◌%◌, ◌≤◌, ◌<◌, ◌≡◌, refl, Bool, ◌&&◌, Option, none, some,
  String, leb, ◌==◌, if◌then◌else◌, Bool-cases, inl, inr, arith,
}
use eth_fund_trace.Prelude.Int.{ℤ, pos, negsuc}

is_digit : Char → Bool
is_digit c = leb b'0' (code c) && leb (code c) b'9'

-- The digits behind a prefix that was read as `n`.
scan : String → ℕ → Option ℕ
unfolding is_digit
scan String.[] n = some n
scan (String.◌∷◌ c s) n =
    let rest = scan s (n * 10 + (code c - b'0')) in if is_digit c then rest else none

-- At least one digit, and nothing else.
unsigned : String → Option ℕ
unfolding scan
unsigned String.[] = none
unsigned (String.◌∷◌ c s) = scan (String.◌∷◌ c s) 0

abbrev negate : ℕ → ℤ
negate zero = pos 0
negate (suc n) = negsuc n

abbrev map_ℤ : (ℕ → ℤ) → Option ℕ → Option ℤ
map_ℤ f none = none
map_ℤ f (some n) = some (f n)

-- `new(big.Int).SetString(s, 10)`: one sign, then digits; `none` where it reports failure.
unfoldable pub set_string : String → Option ℤ
unfolding unsigned
set_string String.[] = none
set_string (String.◌∷◌ c s) =
    if code c == b'-'
    then map_ℤ negate (unsigned s)
    else if code c == b'+'
    then map_ℤ pos (unsigned s)
    else map_ℤ pos (scan (String.◌∷◌ c s) 0)

digit : ℕ → Char
digit d = char_at "0123456789" d

-- The digits of `n` in front of `out`; `n` rounds are more than enough.
digits : ℕ → ℕ → String → String
unfolding digit
digits zero n out = out
digits (suc f) n out =
    let more = digits f (n / 10) (String.◌∷◌ (digit (n % 10)) out) in if n == 0 then out else more

unfoldable pub nat_string : ℕ → String
unfolding digits
nat_string n = if n == 0 then "0" else digits n n ""

-- `(*big.Int).String`.
unfoldable pub int_string : ℤ → String
unfolding nat_string
int_string (pos n) = nat_string n
int_string (negsuc n) = String.◌∷◌ (char_at "-" 0) (nat_string (suc n))

code-digit : (d : ℕ) → d < 10 → code (digit d) ≡ d + 48
unfolding digit
code-digit zero h = refl
code-digit (suc zero) h = refl
code-digit (suc (suc zero)) h = refl
code-digit (suc (suc (suc zero))) h = refl
code-digit (suc (suc (suc (suc zero)))) h = refl
code-digit (suc (suc (suc (suc (suc zero))))) h = refl
code-digit (suc (suc (suc (suc (suc (suc zero)))))) h = refl
code-digit (suc (suc (suc (suc (suc (suc (suc zero))))))) h = refl
code-digit (suc (suc (suc (suc (suc (suc (suc (suc zero)))))))) h = refl
code-digit (suc (suc (suc (suc (suc (suc (suc (suc (suc zero))))))))) h = refl
code-digit (suc (suc (suc (suc (suc (suc (suc (suc (suc (suc d)))))))))) h = absurd (omega arith)

scan-digit : (n : ℕ) (out : String) → scan (String.◌∷◌ (digit (n % 10)) out) (n / 10) ≡ scan out n
unfolding scan is_digit
scan-digit n out = ground (arith, code-digit (n % 10) (omega arith))

scan-digits : (f n : ℕ) (out : String) → n ≤ f → scan (digits f n out) 0 ≡ scan out n
unfolding digits
scan-digits zero n out h = ground arith
scan-digits (suc f) n out h =
    ground (arith, scan-digits f (n / 10) (String.◌∷◌ (digit (n % 10)) out), scan-digit n out)

abbrev StartsWithDigit : String → Type 0
StartsWithDigit String.[] = ⊥
StartsWithDigit (String.◌∷◌ c s) = (b'0' ≤ code c) × (code c ≤ b'9')

digits-StartsWithDigit :
    (f n : ℕ) (out : String) → StartsWithDigit out → StartsWithDigit (digits f n out)
unfolding digits
digits-StartsWithDigit zero n out h = h
digits-StartsWithDigit (suc f) n out h = elim (Bool-cases (n == 0)) [
  | inl e ↦ rw e h
  | inr e ↦ rw e (
      digits-StartsWithDigit f (n / 10) (String.◌∷◌ (digit (n % 10)) out)
        (ground (arith, code-digit (n % 10) (omega arith))))
]

nat_string-suc : (n : ℕ) → nat_string (suc n) ≡ digits (suc n) (suc n) ""
unfolding nat_string
nat_string-suc n = ground arith

digits-suc :
    (n : ℕ) → digits (suc n) (suc n) "" ≡ digits n (suc n / 10) (String.◌∷◌ (digit (suc n % 10)) "")
unfolding digits
digits-suc n = ground arith

nat_string-StartsWithDigit : (n : ℕ) → StartsWithDigit (nat_string n)
unfolding nat_string
nat_string-StartsWithDigit zero = omega arith
nat_string-StartsWithDigit (suc n) =
    rw (nat_string-suc n, digits-suc n)
      (digits-StartsWithDigit n (suc n / 10) (String.◌∷◌ (digit (suc n % 10)) "")
        (ground (arith, code-digit (suc n % 10) (omega arith))))

set_string-scan : (s : String) → StartsWithDigit s → set_string s ≡ map_ℤ pos (scan s 0)
unfolding set_string
set_string-scan String.[] h = absurd h
set_string-scan (String.◌∷◌ c s) h = ground arith

unsigned-scan : (s : String) → StartsWithDigit s → unsigned s ≡ scan s 0
unfolding unsigned
unsigned-scan String.[] h = absurd h
unsigned-scan (String.◌∷◌ c s) h = refl

scan-nat_string : (n : ℕ) → scan (nat_string n) 0 ≡ some n
unfolding nat_string scan
scan-nat_string zero = refl
scan-nat_string (suc n) = rw (nat_string-suc n) (scan-digits (suc n) (suc n) "" (omega arith))

-- The print of a natural number is read back as that number.
pub set_string-nat_string : (n : ℕ) → set_string (nat_string n) ≡ some (pos n)
set_string-nat_string n = rw (set_string-scan _ (nat_string-StartsWithDigit n)) (rw scan-nat_string)

set_string-minus :
    (s : String) → set_string (String.◌∷◌ (char_at "-" 0) s) ≡ map_ℤ negate (unsigned s)
unfolding set_string
set_string-minus s = refl

-- Every integer is read back from its decimal print.
pub set_string-int_string : (z : ℤ) → set_string (int_string z) ≡ some z
unfolding int_string
set_string-int_string (pos n) = set_string-nat_string n
set_string-int_string (negsuc n) = rw (
  set_string-minus (nat_string (suc n)),
  unsigned-scan _ (nat_string-StartsWithDigit (suc n)),
  scan-nat_string (suc n),
)

reads_and_refuses :
    (set_string "-12" ≡ some (negsuc 11))
    × (set_string "+07" ≡ some (pos 7))
    × (set_string "1_0" ≡ none)
    × (set_string "" ≡ none)
unfolding set_string
reads_and_refuses = (refl, refl, refl, refl)
