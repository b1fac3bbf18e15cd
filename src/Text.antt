-- ===== src/Text.antt =====
-- What the code uses of Go's `strings` package, for ASCII text: `ToLower`, `EqualFold`,
-- `TrimSpace`, `Contains` and `Join`.
pub mod Decimal
use Prim.Native.Char.{Char, code}
use Prim.Native.String.{char_at, find, len, ◌++◌}
use eth_fund_trace.Prelude.{
  ℕ, ◌-◌, ◌≡◌, refl, Bool, ◌&&◌, ◌||◌, not, List, [], ◌∷◌, String, str_eq, ltb, leb, ◌==◌,
  if◌then◌else◌,
}

-- `A` to `Z` become `a` to `z`.
abbrev lower_char : Char → Char
lower_char c =
    if leb b'A' (code c) && leb (code c) b'Z'
    then char_at "abcdefghijklmnopqrstuvwxyz" (code c - b'A')
    else c

unfoldable pub to_lower : String → String
to_lower String.[] = ""
to_lower (String.◌∷◌ c s) = String.◌∷◌ (lower_char c) (to_lower s)

-- Equality under case folding.
unfoldable pub equal_fold : String → String → Bool
equal_fold a b = str_eq (to_lower a) (to_lower b)

is_space : Char → Bool
is_space c = code c == 32 || leb 9 (code c) && leb (code c) 13

trim_left : String → String
trim_left String.[] = ""
trim_left (String.◌∷◌ c s) = if is_space c then trim_left s else String.◌∷◌ c s

-- Spaces behind which nothing but spaces follows are dropped.
trim_right : String → String
trim_right String.[] = ""
trim_right (String.◌∷◌ c s) =
    let rest = trim_right s in if is_space c && str_eq rest "" then "" else String.◌∷◌ c rest

unfoldable pub trim_space : String → String
unfolding trim_left trim_right is_space
trim_space s = trim_right (trim_left s)

-- `find` gives the first position of a piece, or a number past the end.
unfoldable pub contains : String → String → Bool
contains s piece = leb (find s piece) (len s)

unfoldable pub join : List String → String → String
join [] sep = ""
join (s ∷ []) sep = s
join (s ∷ t ∷ rest) sep = s ++ (sep ++ join (t ∷ rest) sep)

fold_and_trim : equal_fold "0xAbC" (trim_space " \t0xaBc ") ≡ Bool.true
unfolding equal_fold to_lower trim_space
fold_and_trim = refl

find_and_join : (contains "hackers" "acker" && not (contains "phish" "x")) ≡ Bool.true
unfolding contains
find_and_join = refl
