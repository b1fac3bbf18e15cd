-- ===== src/Tracer/Money/Conservation.antt =====
-- The sums over the money states of internal/tracer/tracer.go, per address and asset.
use mathlib.Core.Path.{subst}
use eth_fund_trace.Prelude.{
  ℕ, ◌+◌, ◌≤◌, ◌≡◌, ap, ◌∙◌, Bool, true, false, ◌&&◌, not, List, [], ◌∷◌, ◌++◌, some, String,
  str_eq, str_eq_iff, if◌then◌else◌, Bool-cases, inl, inr, arith,
}
use eth_fund_trace.Prelude.Int.{pos}
use eth_fund_trace.Prelude.Dict.{Dict, insert, lookup-insert}
use eth_fund_trace.Text.Decimal.{set_string, int_string, nat_string, set_string-nat_string}
use eth_fund_trace.Store.Money.{MoneyState}
use eth_fund_trace.Tracer.Money.{
  Books, money_key, state_at, set_remaining, take_from_queue, queue_of, consume_at,
}
use eth_fund_trace.Tracer.Money.Queue.{value, sum, Slot, IsQueue, incoming_left}

abbrev pub is_in : MoneyState → Bool
is_in s = str_eq s.direction "in"

-- The amounts of the incoming and of the outgoing states of a key, and what the outgoing ones have
-- left.
unfoldable pub incoming_amount : String → MoneyState → ℕ
incoming_amount key s = if is_in s && str_eq (money_key s) key then value s.amount else 0

unfoldable pub outgoing_amount : String → MoneyState → ℕ
outgoing_amount key s = if not (is_in s) && str_eq (money_key s) key then value s.amount else 0

unfoldable pub outgoing_left : String → MoneyState → ℕ
outgoing_left key s =
    if not (is_in s) && str_eq (money_key s) key then value s.remaining_amount else 0

-- A state as the tracer makes it: a natural amount, all of which is left.
pub record IsFresh (s : MoneyState) : Type 0 where
  pub number : ℕ
  pub amount : s.amount ≡ nat_string number
  pub unspent : s.remaining_amount ≡ nat_string number

-- What the incoming states of the key have lost, the outgoing ones have lost.
abbrev pub IsConserved : String → List MoneyState → Type 0
IsConserved key states =
    sum (incoming_left key) states + sum (outgoing_amount key) states
    ≡ sum (incoming_amount key) states + sum (outgoing_left key) states

-- The loop before position `i`: queues hold incoming states of their key, and the outgoing states
-- that are still to come are as they were.
pub record Kept (sorted : List MoneyState) (i : ℕ) (books : Books) : Type 0 where
  pub queues : (key : String) → IsQueue key books.1 (queue_of key books.0)
  pub slots :
      (j : ℕ) (s : MoneyState)
      → state_at j sorted ≡ some s
      → is_in s ≡ true
      → Slot (money_key s) books.1 j
  pub fresh :
      (j : ℕ) (s : MoneyState)
      → i ≤ j
      → state_at j sorted ≡ some s
      → is_in s ≡ false
      → state_at j books.1 ≡ some s

queue_of-insert :
    (k j : String) (q : List ℕ) (queues : Dict (List ℕ))
    → queue_of j (insert k q queues) ≡ (if str_eq k j then q else queue_of j queues)
unfolding queue_of
queue_of-insert k j q queues = ground (arith, lookup-insert k j q queues)

pub IsQueue-insert :
    (key other : String) (states : List MoneyState) (q : List ℕ) (queues : Dict (List ℕ))
    → IsQueue key states q
    → IsQueue other states (queue_of other queues)
    → IsQueue other states (queue_of other (insert key q queues))
IsQueue-insert key other states q queues h g = elim (Bool-cases (str_eq key other)) [
  | inl e ↦
      rw (queue_of-insert key other q queues, e)
        (subst (λ k. IsQueue k states q) ((str_eq_iff key other).0 e) h)
  | inr e ↦ rw (queue_of-insert key other q queues, e) g
]

reads : {s : MoneyState} (f : IsFresh s) → set_string s.amount ≡ some (pos f.number)
reads f = ap set_string f.amount ∙ set_string-nat_string f.number

module _ (i : ℕ) (s : MoneyState) (sorted : List MoneyState) (queues : Dict (List ℕ))
    (states : List MoneyState) where
  pub consume_in :
      (f : IsFresh s)
      → is_in s ≡ true
      → consume_at i s (queues, states)
        ≡ (insert (money_key s) (queue_of (money_key s) queues ++ i ∷ []) queues, states)
  unfolding consume_at
  consume_in f e = ground (arith, reads f)

  pub consume_out :
      (f : IsFresh s)
      → is_in s ≡ false
      → consume_at i s (queues, states) ≡ (
          let r = take_from_queue (pos f.number) (queue_of (money_key s) queues) states in
          (insert (money_key s) r.1 queues, set_remaining i (int_string r.0) r.2))
  unfolding consume_at
  consume_out f e = ground (arith, reads f)
