-- ===== src/Prelude/Count.antt =====
-- How many elements of a list pass a test.
use Prim.Native.Nat.{ℕ, suc, ◌+◌, ◌≤◌, ◌<◌}
use eth_fund_trace.Prelude.Tests.{if◌then◌else◌}
use eth_fund_trace.Prelude.Lists.{length, In}
use mathlib.Core.Bool.{Bool, true, false}
use mathlib.Core.List.{List, [], ◌∷◌, ◌++◌}
use mathlib.Core.Logic.{inl, inr}
use mathlib.Core.Path.{◌≡◌, sym, ap, ◌∙◌}
use native.Mathlib.Omega.{arith}

unfoldable pub count : {A : Type 0} → (A → Bool) → List A → ℕ
count p [] = 0
count p (x ∷ xs) = if p x then suc (count p xs) else count p xs

pub count-length : {A : Type 0} (p : A → Bool) (xs : List A) → count p xs ≤ length xs
unfolding count
count-length p [] = omega arith
count-length p (x ∷ xs) = let rest = count-length p xs in ground (arith, rest)

pub count-append :
    {A : Type 0} (p : A → Bool) (xs ys : List A) → count p (xs ++ ys) ≡ count p xs + count p ys
unfolding count
count-append p [] ys = omega arith
count-append p (x ∷ xs) ys = let rest = count-append p xs ys in ground (arith, rest)

module _ {A : Type 0} (p q : A → Bool) (fewer : (x : A) → q x ≡ true → p x ≡ true) where
  pub count-le : (xs : List A) → count q xs ≤ count p xs
  unfolding count
  count-le [] = omega arith
  count-le (x ∷ xs) = let rest = count-le xs in ground (arith, rest, fewer x)

  pub count-lt :
      (k : A) (xs : List A) → In k xs → p k ≡ true → q k ≡ false → count q xs < count p xs
  unfolding count
  count-lt k [] m yes_p no_q = absurd m
  count-lt k (x ∷ xs) (inl e) yes_p no_q =
      let rest = count-le xs in
      let passes = sym (ap p e) ∙ yes_p in
      let stops = sym (ap q e) ∙ no_q in ground (arith, rest, passes, stops)
  count-lt k (x ∷ xs) (inr m) yes_p no_q =
      let rest = count-lt k xs m yes_p no_q in ground (arith, rest, fewer x)
