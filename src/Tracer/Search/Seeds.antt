-- ===== src/Tracer/Search/Seeds.antt =====
-- The branches that the search of internal/tracer/tracer.go starts from: two at most, of different
-- keys.
use text.Mathlib.TextLemmas.{length-append as len-append}
use Prim.Native.String.{count as len, ◌++◌ as append}
use eth_fund_trace.Prelude.{
  ◌+◌, ◌≤◌, ◌≡◌, ◌≢◌, ap, [], ◌∷◌, String, str_eq, str_eq_iff, length, Bool-cases, inl, inr, arith,
}
use eth_fund_trace.Prelude.Count.{count}
use eth_fund_trace.Text.{to_lower, join}
use eth_fund_trace.Text.Decimal.{nat_string}
use eth_fund_trace.Store.Address.{AddressIdentity}
use eth_fund_trace.Tracer.Types.{BranchState}
use eth_fund_trace.Tracer.Facts.{branch_state_key}
use eth_fund_trace.Tracer.Search.{has_key, add_key}
use eth_fund_trace.Tracer.Search.Trace.{
  directions_of, seed_branch, seed_branches, add_branch_keys, no_transfer,
}
use eth_fund_trace.Tracer.Search.Grown.{leads_to, room, has_key-add_key}

key_length :
    (front direction rest : String)
    → len (append front (append "|" (append direction (append "|" rest))))
      ≡ len front + len direction + len rest + 2
key_length front direction rest = omega (
  arith,
  len-append front (append "|" (append direction (append "|" rest))),
  len-append "|" (append direction (append "|" rest)),
  len-append direction (append "|" rest),
  len-append "|" rest,
)

-- The directions of one seed have different keys: the texts have different lengths.
seed_keys_differ :
    (seed : String) (identity : AddressIdentity)
    → branch_state_key (seed_branch seed identity "in")
      ≢ branch_state_key (seed_branch seed identity "out")
unfolding branch_state_key join seed_branch no_transfer
seed_keys_differ seed identity same =
    let rest = join ("all" ∷ to_lower "" ∷ nat_string 0 ∷ to_lower "" ∷ []) "|" in
    let lengths : len (append (to_lower seed) (append "|" (append "in" (append "|" rest))))
        ≡ len (append (to_lower seed) (append "|" (append "out" (append "|" rest)))) =
      ap len same in
    absurd (
      omega (
        arith,
        lengths,
        key_length (to_lower seed) "in" rest,
        key_length (to_lower seed) "out" rest,
      ))

one_once :
    (branch : BranchState) (key : String)
    → count (leads_to key) (branch ∷ []) ≤ room (has_key key (add_branch_keys (branch ∷ []) []))
unfolding count add_branch_keys has_key
one_once branch key = ground (arith, has_key-add_key key (branch_state_key branch) [])

two_once :
    (branch other : BranchState) (key : String)
    → branch_state_key branch ≢ branch_state_key other
    → count (leads_to key) (branch ∷ other ∷ [])
      ≤ room (has_key key (add_branch_keys (branch ∷ other ∷ []) []))
unfolding count add_branch_keys
two_once branch other key differ =
    let first = branch_state_key branch in
    let second = branch_state_key other in
    ground (
      arith,
      has_key-add_key key second (add_key first []),
      has_key-add_key key first [],
      str_eq_iff key first,
      str_eq_iff key second,
      differ,
    )

pub seed_once :
    (seed : String) (identity : AddressIdentity) (direction key : String)
    → count (leads_to key) (seed_branches seed identity (directions_of direction))
      ≤ room
          (has_key key (add_branch_keys (seed_branches seed identity (directions_of direction)) []))
unfolding directions_of seed_branches
seed_once seed identity direction key = elim (Bool-cases (str_eq direction "both")) [
  | inl both ↦ rw both (two_once _ _ key (seed_keys_differ seed identity))
  | inr one ↦ rw one (one_once _ key)
]

pub length-seed_branches :
    (seed : String) (identity : AddressIdentity) (direction : String)
    → length (seed_branches seed identity (directions_of direction)) ≤ 2
unfolding directions_of seed_branches
length-seed_branches seed identity direction = elim (Bool-cases (str_eq direction "both")) [
  | inl both ↦ rw both (omega arith)
  | inr one ↦ rw one (omega arith)
]
