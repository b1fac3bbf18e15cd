-- ===== src/Ethaddr.antt =====
-- Addresses and chains: internal/ethaddr/address.go and internal/chains/registry.go.
use Prim.Native.Char.{Char, code}
use eth_fund_trace.Prelude.{
  ℕ, zero, suc, ◌≡◌, refl, Bool, true, false, ◌&&◌, ◌||◌, Option, none, some, String, str_eq, leb,
  ◌==◌, if◌then◌else◌,
}
use eth_fund_trace.Text.{to_lower, trim_space}

is_hex : Char → Bool
is_hex c =
    leb b'0' (code c) && leb (code c) b'9'
    || (leb b'a' (code c) && leb (code c) b'f' || leb b'A' (code c) && leb (code c) b'F')

-- Exactly `n` hexadecimal digits.
hex_digits : ℕ → String → Bool
unfolding is_hex
hex_digits zero String.[] = true
hex_digits zero (String.◌∷◌ _ _) = false
hex_digits (suc n) String.[] = false
hex_digits (suc n) (String.◌∷◌ c s) = is_hex c && hex_digits n s

-- `^0x[0-9a-fA-F]{40}$`
unfoldable pub matches_pattern : String → Bool
unfolding hex_digits
matches_pattern (String.◌∷◌ c (String.◌∷◌ d s)) =
    code c == b'0' && (code d == b'x' && hex_digits 40 s)
matches_pattern _ = false

-- `none` is `ErrInvalid`.
unfoldable pub normalize : String → Option String
normalize value =
    let lowered = to_lower (trim_space value) in
    if matches_pattern lowered then some lowered else none

abbrev pub zero_address : String
zero_address = "0x0000000000000000000000000000000000000000"

pub record Chain : Type 0 where
  pub name : String
  pub id : ℕ

-- The one supported chain.
abbrev pub ethereum : Chain
ethereum = record { name = "ethereum"; id = 1 }

-- `none` is `ErrUnsupported`.
unfoldable pub resolve : String → Option Chain
resolve value =
    let name = to_lower (trim_space value) in
    let filled = if str_eq name "" then "ethereum" else name in
    if str_eq filled "ethereum" then some ethereum else none

normalizes :
    normalize " 0xDAC17F958D2ee523a2206206994597C13D831ec7 "
    ≡ some "0xdac17f958d2ee523a2206206994597c13d831ec7"
unfolding normalize matches_pattern to_lower trim_space
normalizes = refl

refuses_short : normalize "0xabc" ≡ none
unfolding normalize matches_pattern to_lower trim_space
refuses_short = refl
