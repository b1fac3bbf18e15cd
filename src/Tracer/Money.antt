-- ===== src/Tracer/Money.antt =====
-- The money ledger of internal/tracer/tracer.go: `addDecimal`, `subtractDecimal`,
-- `consumeMoneyStates` and `buildLedgers`. The states that the code shares by pointers are named
-- by their positions. The orders of `sort.SliceStable` and `sort.Slice` are those of an insertion
-- sort, which puts equals in their first order.
pub mod Decimals
pub mod Queue
pub mod Taken
pub mod Drained
pub mod Conservation
pub mod Loop
pub mod Rounds
pub mod Sorting
pub mod Balance
use Prim.Native.Nat.{Ordering}
use Prim.Native.String.{compare, ◌++◌ as append}
use eth_fund_trace.Prelude.{
  ℕ, zero, suc, ◌+◌, Bool, true, false, ◌&&◌, ◌||◌, not, List, [], ◌∷◌, ◌++◌, Option, none, some,
  String, str_eq, ltb, leb, ◌==◌, if◌then◌else◌, length,
}
use eth_fund_trace.Prelude.Int.{ℤ, pos, negsuc, ◌+ℤ◌, ◌-ℤ◌, ltb_ℤ}
use eth_fund_trace.Prelude.Dict.{Dict, lookup, insert}
use eth_fund_trace.Text.{to_lower}
use eth_fund_trace.Text.Decimal.{set_string, int_string}
use eth_fund_trace.Store.Money.{MoneyState, AssetLedger}

unfoldable pub add_decimal : String → String → String
add_decimal left right = elim (set_string left) [
  | none ↦ left
  | some l ↦ elim (set_string right) [ none ↦ left | some r ↦ int_string (l +ℤ r) ]
]

unfoldable pub subtract_decimal : String → String → String
subtract_decimal left right = elim (set_string left) [
  | none ↦ "0"
  | some l ↦ elim (set_string right) [
    | none ↦ "0"
    | some r ↦ if ltb_ℤ l r then "0" else int_string (l -ℤ r)
  ]
]

-- `strings.ToLower(state.Address + "|" + state.Asset)`
unfoldable pub money_key : MoneyState → String
money_key s = to_lower (append s.address (append "|" s.asset))

abbrev pub str_ltb : String → String → Bool
str_ltb a b = elim (compare a b) [ Ordering.lt ↦ true | _ ↦ false ]

unfoldable pub state_before : MoneyState → MoneyState → Bool
state_before a b =
    if not (str_eq a.address b.address) || not (str_eq a.asset b.asset)
    then str_ltb (append a.address a.asset) (append b.address b.asset)
    else ltb a.entry_block b.entry_block

-- Behind all elements that do not come later.
unfoldable pub insert_sorted {ℓ} : {A : Type ℓ} → (A → A → Bool) → A → List A → List A
insert_sorted before x [] = x ∷ []
insert_sorted before x (y ∷ ys) = if before x y then x ∷ y ∷ ys else y ∷ insert_sorted before x ys

-- Elements are inserted in order, so equals keep their order.
unfoldable pub sort_onto {ℓ} : {A : Type ℓ} → (A → A → Bool) → List A → List A → List A
unfolding insert_sorted
sort_onto before done [] = done
sort_onto before done (x ∷ xs) = sort_onto before (insert_sorted before x done) xs

unfoldable pub stable_sort {ℓ} : {A : Type ℓ} → (A → A → Bool) → List A → List A
unfolding sort_onto
stable_sort before xs = sort_onto before [] xs

-- The state at a position.
unfoldable pub state_at : ℕ → List MoneyState → Option MoneyState
state_at i [] = none
state_at zero (s ∷ ss) = some s
state_at (suc i) (s ∷ ss) = state_at i ss

-- A write through the pointer to the state at a position.
unfoldable pub set_remaining : ℕ → String → List MoneyState → List MoneyState
set_remaining i v [] = []
set_remaining zero v (s ∷ ss) = record s { remaining_amount = v } ∷ ss
set_remaining (suc i) v (s ∷ ss) = s ∷ set_remaining i v ss

-- What is left of an incoming state; `none` where it is no number, or zero.
unfoldable pub nonzero : Option ℤ → Option ℤ
nonzero none = none
nonzero (some (pos zero)) = none
nonzero (some (pos (suc n))) = some (pos (suc n))
nonzero (some (negsuc n)) = some (negsuc n)

unfoldable pub available_of : Option MoneyState → Option ℤ
unfolding nonzero
available_of none = none
available_of (some s) = nonzero (set_string s.remaining_amount)

abbrev is_zero : ℤ → Bool
is_zero (pos zero) = true
is_zero _ = false

-- The inner loop: an outgoing amount takes from the queue, oldest first. The result is what is
-- left of the amount, the queue and the states. Each round that goes on shortens the queue or
-- uses up the amount, so the recursion is on the queue.
unfoldable pub take_from_queue : ℤ → List ℕ → List MoneyState → ℤ × List ℕ × List MoneyState
take_from_queue amount [] states = (amount, [], states)
take_from_queue amount (i ∷ queue) states = elim (ltb_ℤ (pos 0) amount) [
  | false ↦ (amount, i ∷ queue, states)
  | true ↦ elim (available_of (state_at i states)) [
    | none ↦ take_from_queue amount queue states
    | some available ↦
        let used = if ltb_ℤ amount available then amount else available in
        let left = available -ℤ used in
        let states' = set_remaining i (int_string left) states in
        elim (is_zero left) [
          | true ↦ take_from_queue (amount -ℤ used) queue states'
          | false ↦ (amount -ℤ used, i ∷ queue, states')
        ]
  ]
]

unfoldable pub queue_of : String → Dict (List ℕ) → List ℕ
queue_of key queues = elim (lookup key queues) [ none ↦ [] | some q ↦ q ]

abbrev pub Books : Type 0
Books = Dict (List ℕ) × List MoneyState

-- One round of the outer loop, for the state at position `i`.
unfoldable pub consume_at : ℕ → MoneyState → Books → Books
consume_at i s (queues, states) = elim (set_string s.amount) [
  | none ↦ (queues, states)
  | some amount ↦
      let queue = queue_of (money_key s) queues in
      elim (str_eq s.direction "in") [
        | true ↦ (insert (money_key s) (queue ++ i ∷ []) queues, states)
        | false ↦
            let (left, queue', states') = take_from_queue amount queue states in
            (insert (money_key s) queue' queues, set_remaining i (int_string left) states')
      ]
]

-- The outer loop over the positions from `i`; the second list is that of the states as they were
-- sorted, whose amounts, directions and keys the loop does not change.
unfoldable pub consume_from : ℕ → List MoneyState → Books → Books
unfolding consume_at
consume_from i [] books = books
consume_from i (s ∷ rest) books = consume_from (suc i) rest (consume_at i s books)

-- FIFO matching of outgoing amounts with incoming ones.
unfoldable pub consume_money_states : List MoneyState → List MoneyState
unfolding consume_from stable_sort
consume_money_states states =
    let sorted = stable_sort state_before states in (consume_from 0 sorted ([], sorted)).1
