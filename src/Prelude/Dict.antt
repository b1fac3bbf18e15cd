-- ===== src/Prelude/Dict.antt =====
-- A Go map with string keys, as an association list in order of insertion.
use eth_fund_trace.Prelude.Tests.{if◌then◌else◌}
use Prim.Native.String.{String}
use mathlib.Core.Path.{◌≡◌, refl}
use mathlib.Core.List.{List, [], ◌∷◌}
use mathlib.Core.Option.{Option, none, some}
use native.Mathlib.Omega.{arith}
use text.Mathlib.Text.{◌==◌ as str_eq}
use text.Mathlib.TextEquality.{eq_iff}

abbrev pub Dict {ℓ} : Type ℓ → Type ℓ
Dict V = List (String × V)

module _ {ℓ} {V : Type ℓ} where
  unfoldable pub lookup : String → Dict V → Option V
  lookup k [] = none
  lookup k ((j, v) ∷ m) = if str_eq j k then some v else lookup k m

  -- `m[k] = v`
  unfoldable pub insert : String → V → Dict V → Dict V
  insert k v [] = (k, v) ∷ []
  insert k v ((j, w) ∷ m) = if str_eq j k then (k, v) ∷ m else (j, w) ∷ insert k v m

  -- `delete(m, k)`
  unfoldable pub erase : String → Dict V → Dict V
  erase k [] = []
  erase k ((j, w) ∷ m) = let rest = erase k m in if str_eq j k then rest else (j, w) ∷ rest

  -- A read behind a write: the written value at its own key, the old one elsewhere.
  pub lookup-insert :
      (written read : String) (value : V) (entries : Dict V)
      → lookup read (insert written value entries)
        ≡ (if str_eq written read then some value else lookup read entries)
  unfolding insert lookup
  lookup-insert written read value [] = refl
  lookup-insert written read value ((key, old) ∷ entries) =
      let behind = lookup-insert written read value entries in
      ground (arith, behind, eq_iff key read, eq_iff key written, eq_iff written read)

  -- A read behind a deletion.
  pub lookup-erase :
      (gone read : String) (entries : Dict V)
      → lookup read (erase gone entries) ≡ (if str_eq gone read then none else lookup read entries)
  unfolding erase lookup
  lookup-erase gone read [] = ground arith
  lookup-erase gone read ((key, old) ∷ entries) =
      let behind = lookup-erase gone read entries in
      ground (arith, behind, eq_iff key read, eq_iff key gone, eq_iff gone read)
