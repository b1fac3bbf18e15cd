-- ===== src/Tracer/Money/Queue.antt =====
-- The queued incoming states of `consumeMoneyStates` of internal/tracer/tracer.go, and writes to
-- the states.
use eth_fund_trace.Prelude.{
  ℕ, zero, suc, ◌+◌, ◌≡◌, refl, true, ◌&&◌, List, [], ◌∷◌, Option, none, some, String, str_eq, ◌==◌,
  if◌then◌else◌, All, Bool-cases, inl, inr, arith,
}
use eth_fund_trace.Prelude.Int.{pos, negsuc}
use eth_fund_trace.Text.Decimal.{set_string, nat_string, set_string-nat_string}
use eth_fund_trace.Store.Money.{MoneyState}
use eth_fund_trace.Tracer.Money.{money_key, state_at, set_remaining, available_of}

-- The number that an amount reads as; 0 for text that is no natural number.
unfoldable pub value : String → ℕ
value s = elim (set_string s) [ none ↦ 0 | some (pos n) ↦ n | some (negsuc _) ↦ 0 ]

pub value-nat_string : (n : ℕ) → value (nat_string n) ≡ n
unfolding value
value-nat_string n = ground (arith, set_string-nat_string n)

abbrev pub with_remaining : String → MoneyState → MoneyState
with_remaining v s = record s { remaining_amount = v }

abbrev map_state : (MoneyState → MoneyState) → Option MoneyState → Option MoneyState
map_state f none = none
map_state f (some s) = some (f s)

pub state_at-set :
    (i j : ℕ) (v : String) (states : List MoneyState)
    → state_at j (set_remaining i v states)
      ≡ (if i == j then map_state (with_remaining v) (state_at j states) else state_at j states)
unfolding state_at set_remaining
state_at-set i j v [] = ground arith
state_at-set zero zero v (s ∷ ss) = refl
state_at-set zero (suc j) v (s ∷ ss) = ground arith
state_at-set (suc i) zero v (s ∷ ss) = ground arith
state_at-set (suc i) (suc j) v (s ∷ ss) = ground (arith, state_at-set i j v ss)

unfoldable pub sum : (MoneyState → ℕ) → List MoneyState → ℕ
sum f [] = 0
sum f (s ∷ ss) = f s + sum f ss

pub sum-set :
    (f : MoneyState → ℕ) (i : ℕ) (v : String) (s : MoneyState) (states : List MoneyState)
    → state_at i states ≡ some s
    → sum f (set_remaining i v states) + f s ≡ sum f states + f (with_remaining v s)
unfolding sum state_at set_remaining
sum-set f i v s [] e = cc
sum-set f zero v s (u ∷ us) e = ground arith
sum-set f (suc i) v s (u ∷ us) e = omega (arith, sum-set f i v s us e)

-- An incoming state of a key in the list, with a natural number left.
pub record Slot (key : String) (states : List MoneyState) (i : ℕ) : Type 0 where
  pub state : MoneyState
  pub at : state_at i states ≡ some state
  pub incoming : str_eq state.direction "in" ≡ true
  pub of_key : money_key state ≡ key
  pub left : ℕ
  pub remaining : state.remaining_amount ≡ nat_string left

pub Slot-set :
    (key : String) (states : List MoneyState) (i j n : ℕ)
    → Slot key states j
    → Slot key (set_remaining i (nat_string n) states) j
unfolding money_key
Slot-set key states i j n slot = elim (Bool-cases (i == j)) [
  | inl e ↦ record {
    state = with_remaining (nat_string n) slot.state;
    at = rw (state_at-set i j (nat_string n) states, e, slot.at);
    incoming = slot.incoming;
    of_key = slot.of_key;
    left = n;
    remaining = refl;
  }
  | inr e ↦ record {
    state = slot.state;
    at = rw (state_at-set i j (nat_string n) states, e) slot.at;
    incoming = slot.incoming;
    of_key = slot.of_key;
    left = slot.left;
    remaining = slot.remaining;
  }
]

abbrev pub IsQueue : String → List MoneyState → List ℕ → Type 0
IsQueue key states queue = All (Slot key states) queue

pub IsQueue-set :
    (key : String) (states : List MoneyState) (i n : ℕ) (queue : List ℕ)
    → IsQueue key states queue
    → IsQueue key (set_remaining i (nat_string n) states) queue
IsQueue-set key states i n [] h = tt
IsQueue-set key states i n (j ∷ queue) (slot, h) =
    (Slot-set key states i j n slot, IsQueue-set key states i n queue h)

-- What the incoming states of a key have left.
unfoldable pub incoming_left : String → MoneyState → ℕ
incoming_left key s =
    if str_eq s.direction "in" && str_eq (money_key s) key then value s.remaining_amount else 0

pub available-zero :
    (key : String) (states : List MoneyState) (i : ℕ) (slot : Slot key states i)
    → slot.left ≡ 0
    → available_of (state_at i states) ≡ none
unfolding available_of
available-zero key states i slot z =
    rw (slot.at, available_of, slot.remaining, z, set_string-nat_string 0)

pub available-suc :
    (key : String) (states : List MoneyState) (i n : ℕ) (slot : Slot key states i)
    → slot.left ≡ suc n
    → available_of (state_at i states) ≡ some (pos (suc n))
unfolding available_of
available-suc key states i n slot z =
    rw (slot.at, available_of, slot.remaining, z, set_string-nat_string (suc n))
