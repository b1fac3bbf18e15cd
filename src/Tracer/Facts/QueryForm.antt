-- ===== src/Tracer/Facts/QueryForm.antt =====
-- The normal form of a query of internal/tracer/tracer.go.
use mathlib.Core.Path.{subst}
use eth_fund_trace.Prelude.{
  ℕ, ap, ◌∙◌, ◌≡◌, refl, sym, Bool, true, false, ◌||◌, not, Option, none, some, String, str_eq,
  str_eq_iff, if◌then◌else◌, Bool-cases, ◌⊎◌, inl, inr, arith,
}
use eth_fund_trace.Prelude.Int.{ℤ, pos, negsuc}
use eth_fund_trace.Text.{to_lower, equal_fold, trim_space}
use eth_fund_trace.Ethaddr
use eth_fund_trace.Tracer.Facts.{
  Query, is_query_asset, normalize_on, normalize_with, normalize_query,
}

-- The normal form of a query for an address in a direction.
abbrev pub normal : String → String → Query
normal address direction = record {
  chain = "ethereum";
  address = address;
  direction = direction;
  asset = "ETH";
  depth = pos 0;
}

normal_in : (a : String) → normalize_query (normal a "in") ≡ some (normal a "in")
unfolding normalize_query normalize_with normalize_on Ethaddr.resolve is_query_asset equal_fold
    to_lower trim_space
normal_in a = refl

normal_out : (a : String) → normalize_query (normal a "out") ≡ some (normal a "out")
unfolding normalize_query normalize_with normalize_on Ethaddr.resolve is_query_asset equal_fold
    to_lower trim_space
normal_out a = refl

normal_both : (a : String) → normalize_query (normal a "both") ≡ some (normal a "both")
unfolding normalize_query normalize_with normalize_on Ethaddr.resolve is_query_asset equal_fold
    to_lower trim_space
normal_both a = refl

resolve-cases :
    (v : String) → (Ethaddr.resolve v ≡ none) ⊎ (Ethaddr.resolve v ≡ some Ethaddr.ethereum)
unfolding Ethaddr.resolve
resolve-cases v = ground arith

abbrev pub IsDirection : String → Type 0
IsDirection d = (d ≡ "in") ⊎ (d ≡ "out") ⊎ (d ≡ "both")

-- What makes a query valid, and its normal form: the chain is known, the depth is not negative, the
-- asset may be named, and the direction is one of three, up to the case of letters; without one it
-- is "both".
pub record NormalForm (q n : Query) : Type 0 where
  pub known_chain : Ethaddr.resolve q.chain ≡ some Ethaddr.ethereum
  pub depth : ℕ
  pub not_negative : q.depth ≡ pos depth
  pub known_asset : is_query_asset q.asset ≡ true
  pub is_direction : IsDirection n.direction
  pub directs :
      (to_lower q.direction ≡ n.direction) ⊎ ((to_lower q.direction ≡ "") × (n.direction ≡ "both"))
  pub is_normal : n ≡ normal q.address n.direction

IsDirection-cases :
    (d : String)
    → IsDirection d ⊎ (not (str_eq d "in" || (str_eq d "out" || str_eq d "both")) ≡ true)
IsDirection-cases d = elim (Bool-cases (str_eq d "in")) [
  | inl e ↦ inl (inl ((str_eq_iff d "in").0 e))
  | inr e ↦ elim (Bool-cases (str_eq d "out")) [
    | inl g ↦ inl (inr (inl ((str_eq_iff d "out").0 g)))
    | inr g ↦ elim (Bool-cases (str_eq d "both")) [
      | inl h ↦ inl (inr (inr ((str_eq_iff d "both").0 h)))
      | inr h ↦ inr (ground (arith, e, g, h))
    ]
  ]
]

filled-cases :
    (lowered : String)
    → let d = if str_eq lowered "" then "both" else lowered in
      (lowered ≡ d) ⊎ ((lowered ≡ "") × (d ≡ "both"))
filled-cases lowered = elim (Bool-cases (str_eq lowered "")) [
  | inl e ↦ inr ((str_eq_iff lowered "").0 e, rw e refl)
  | inr e ↦ inl (rw e refl)
]

filled_is :
    (lowered d : String)
    → IsDirection d
    → (lowered ≡ d) ⊎ ((lowered ≡ "") × (d ≡ "both"))
    → (if str_eq lowered "" then "both" else lowered) ≡ d
filled_is lowered d (inl e) (inl g) = rw (g, e) refl
filled_is lowered d (inr (inl e)) (inl g) = rw (g, e) refl
filled_is lowered d (inr (inr e)) (inl g) = rw (g, e) refl
filled_is lowered d named (inr (g, e)) = rw (g, e) refl

settled : (a d : String) → IsDirection d → normalize_query (normal a d) ≡ some (normal a d)
settled a d (inl e) =
    subst (λ x. normalize_query (normal a x) ≡ some (normal a x)) (sym e) (normal_in a)
settled a d (inr (inl e)) =
    subst (λ x. normalize_query (normal a x) ≡ some (normal a x)) (sym e) (normal_out a)
settled a d (inr (inr e)) =
    subst (λ x. normalize_query (normal a x) ≡ some (normal a x)) (sym e) (normal_both a)

-- The tests of the direction and of the asset.
abbrev tested : String → String → Bool → Option Query
tested address direction asset_ok =
    if not (str_eq direction "in" || (str_eq direction "out" || str_eq direction "both"))
    then none
    else if asset_ok
    then some (normal address direction)
    else none

not_refused :
    (c : Bool) (x : Option Query) (n : Query)
    → (if c then none else x) ≡ some n
    → (c ≡ false) × (x ≡ some n)
not_refused true x n e = absurd cc
not_refused false x n e = (refl, e)

was_given : (c : Bool) (x n : Query) → (if c then some x else none) ≡ some n → (c ≡ true) × (x ≡ n)
was_given true x n e = (refl, cc)
was_given false x n e = absurd cc

tested-passes :
    (a d : String) (asset_ok : Bool) (n : Query)
    → tested a d asset_ok ≡ some n
    → IsDirection d × (asset_ok ≡ true) × (normal a d ≡ n)
tested-passes a d asset_ok n e =
    let (open_now, given) =
      not_refused (not (str_eq d "in" || (str_eq d "out" || str_eq d "both")))
        (if asset_ok then some (normal a d) else none) n e in
    elim (IsDirection-cases d) [
      | inl named ↦
          let (asset, same) = was_given asset_ok (normal a d) n given in (named, asset, same)
      | inr other ↦ absurd cc
    ]

passes-tested : (a d : String) → IsDirection d → tested a d true ≡ some (normal a d)
passes-tested a d (inl e) = rw e refl
passes-tested a d (inr (inl e)) = rw e refl
passes-tested a d (inr (inr e)) = rw e refl

normalize_on-NormalForm :
    (q n : Query) (z : ℤ)
    → q.depth ≡ z
    → Ethaddr.resolve q.chain ≡ some Ethaddr.ethereum
    → normalize_on Ethaddr.ethereum (record q { depth = z }) ≡ some n
    → NormalForm q n
unfolding normalize_on
normalize_on-NormalForm q n (negsuc k) same known e = absurd cc
normalize_on-NormalForm q n (pos k) same known e =
    let d = if str_eq (to_lower q.direction) "" then "both" else to_lower q.direction in
    let (named, asset, result) = tested-passes q.address d (is_query_asset q.asset) n e in
    subst (NormalForm q) result (record {
      known_chain = known;
      depth = k;
      not_negative = same;
      known_asset = asset;
      is_direction = named;
      directs = filled-cases (to_lower q.direction);
      is_normal = refl;
    })

normalize_query-NormalForm : (q n : Query) → normalize_query q ≡ some n → NormalForm q n
unfolding normalize_query normalize_with
normalize_query-NormalForm q n e = elim (resolve-cases q.chain) [
  | inl unknown ↦ absurd (refuses (sym (ap (normalize_with q) unknown) ∙ e))
  | inr known ↦
      normalize_on-NormalForm q n q.depth refl known (sym (ap (normalize_with q) known) ∙ e)
]
  where
    refuses : ◌≡◌ {A = Option Query} none (some n) → ⊥
    refuses r = cc

-- The normal form of a query, if it has one, is the form of a valid query: the chain is known, the
-- depth is not negative, the asset may be named, and the direction is one of three, up to the case
-- of letters, or missing, which means both; the form has the name of the chain, that direction, the
-- asset "ETH" and the depth 0. It is its own normal form.
pub normalize_query_forms :
    (q n : Query) → normalize_query q ≡ some n → NormalForm q n × (normalize_query n ≡ some n)
normalize_query_forms q n e =
    let form = normalize_query-NormalForm q n e in
    (
      form,
      subst (λ x. normalize_query x ≡ some x) (sym form.is_normal)
          (settled q.address n.direction form.is_direction),
    )

-- A query is not refused when its chain is known, its depth is not negative, its asset may be named
-- and its direction is one of three, up to the case of letters, or missing: it has the normal form
-- for its address and that direction.
pub normalize_query_accepts : (q n : Query) → NormalForm q n → normalize_query q ≡ some n
unfolding normalize_query normalize_with normalize_on
normalize_query_accepts q n form =
    ap (normalize_with q) form.known_chain
    ∙ ap (λ z. normalize_on Ethaddr.ethereum (record q { depth = z })) form.not_negative
    ∙ ap (λ d. tested q.address d (is_query_asset q.asset))
        (filled_is (to_lower q.direction) n.direction form.is_direction form.directs)
    ∙ ap (tested q.address n.direction) form.known_asset
    ∙ passes-tested q.address n.direction form.is_direction
    ∙ ap (λ x. some x) (sym form.is_normal)
