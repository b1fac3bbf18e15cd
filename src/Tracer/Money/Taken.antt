-- ===== src/Tracer/Money/Taken.antt =====
-- The inner loop of `consumeMoneyStates` of internal/tracer/tracer.go.
use mathlib.Core.Path.{subst}
use eth_fund_trace.Prelude.{
  ℕ, zero, suc, ◌+◌, ◌-◌, ◌≤◌, ◌<◌, ◌≡◌, refl, sym, ap, ◌∙◌, Bool, true, false, List, [], ◌∷◌,
  Option, none, some, String, str_eq, str_eq_iff, ltb, ◌==◌, Bool-cases, ◌⊎◌, inl, inr, arith,
}
use eth_fund_trace.Prelude.Int.{ℤ, pos, ◌-ℤ◌}
use eth_fund_trace.Text.Decimal.{int_string, nat_string}
use eth_fund_trace.Store.Money.{MoneyState}
use eth_fund_trace.Tracer.Money.{money_key, state_at, set_remaining, available_of, take_from_queue}
use eth_fund_trace.Tracer.Money.Queue.{
  value-nat_string, with_remaining, state_at-set, sum, sum-set, Slot, Slot-set, IsQueue,
  IsQueue-set, incoming_left, available-zero, available-suc,
}

module _ (i : ℕ) (queue : List ℕ) (states : List MoneyState) where
  pub take_nothing : take_from_queue (pos 0) (i ∷ queue) states ≡ (pos 0, i ∷ queue, states)
  unfolding take_from_queue
  take_nothing = refl

  pub take_skip :
      (a : ℕ)
      → available_of (state_at i states) ≡ none
      → take_from_queue (pos (suc a)) (i ∷ queue) states
        ≡ take_from_queue (pos (suc a)) queue states
  unfolding take_from_queue
  take_skip a e = ground arith

  pub take_part :
      (a n : ℕ)
      → available_of (state_at i states) ≡ some (pos (suc n))
      → a < n
      → take_from_queue (pos (suc a)) (i ∷ queue) states
        ≡ (pos 0, i ∷ queue, set_remaining i (nat_string (n - a)) states)
  unfolding take_from_queue ◌-ℤ◌ int_string
  take_part a n e lt = ground arith

  pub take_all :
      (a n : ℕ)
      → available_of (state_at i states) ≡ some (pos (suc n))
      → n ≤ a
      → take_from_queue (pos (suc a)) (i ∷ queue) states
        ≡ take_from_queue (pos (a - n)) queue (set_remaining i (nat_string 0) states)
  unfolding take_from_queue ◌-ℤ◌ int_string
  take_all a n e le = ground arith

str_eq_of : (a b : String) → a ≡ b → str_eq a b ≡ true
str_eq_of a b e = (str_eq_iff a b).1 e

-- The weight of a slot is what it has left, and stays so under a write of a number.
incoming_left-Slot :
    (key : String) (states : List MoneyState) (i : ℕ) (slot : Slot key states i)
    → incoming_left key slot.state ≡ slot.left
unfolding incoming_left
incoming_left-Slot key states i slot =
    rw
      (
        incoming_left,
        slot.incoming,
        str_eq_of (money_key slot.state) key slot.of_key,
        slot.remaining,
      )
      (value-nat_string slot.left)

incoming_left-written :
    (key : String) (states : List MoneyState) (i m : ℕ) (slot : Slot key states i)
    → incoming_left key (with_remaining (nat_string m) slot.state) ≡ m
unfolding incoming_left money_key
incoming_left-written key states i m slot =
    rw (slot.incoming, str_eq_of (money_key slot.state) key slot.of_key) (value-nat_string m)

spend :
    (key : String) (states : List MoneyState) (i m : ℕ) (slot : Slot key states i)
    → sum (incoming_left key) (set_remaining i (nat_string m) states) + slot.left
      ≡ sum (incoming_left key) states + m
spend key states i m slot = omega (
  arith,
  sum-set (incoming_left key) i (nat_string m) slot.state states slot.at,
  incoming_left-Slot key states i slot,
  incoming_left-written key states i m slot,
)

-- A weight that does not see what the incoming states of the key have left.
abbrev pub Blind : String → (MoneyState → ℕ) → Type 0
Blind key f =
    (s : MoneyState) (v : String)
    → str_eq s.direction "in" ≡ true
    → money_key s ≡ key
    → f (with_remaining v s) ≡ f s

-- What was done when an outgoing amount `a` of a key had been taken from a queue.
pub record Taken (key : String) (a : ℕ) (states : List MoneyState)
    (r : ℤ × List ℕ × List MoneyState) : Type 0 where
  pub left : ℕ
  pub is_left : r.0 ≡ pos left
  pub spent : sum (incoming_left key) r.2 + a ≡ sum (incoming_left key) states + left
  pub queue : IsQueue key r.2 r.1
  pub blind : (f : MoneyState → ℕ) → Blind key f → sum f r.2 ≡ sum f states
  pub slots : (other : String) (j : ℕ) → Slot other states j → Slot other r.2 j
  pub outgoing :
      (j : ℕ) (s : MoneyState)
      → state_at j states ≡ some s
      → str_eq s.direction "in" ≡ false
      → state_at j r.2 ≡ some s

Blind-set :
    (key : String) (states : List MoneyState) (i : ℕ) (v : String) (slot : Slot key states i)
    (f : MoneyState → ℕ)
    → Blind key f
    → sum f (set_remaining i v states) ≡ sum f states
Blind-set key states i v slot f h =
    omega (arith, sum-set f i v slot.state states slot.at, h slot.state v slot.incoming slot.of_key)

outgoing_set :
    (key : String) (states : List MoneyState) (i : ℕ) (v : String) (slot : Slot key states i)
    (j : ℕ) (s : MoneyState)
    → state_at j states ≡ some s
    → str_eq s.direction "in" ≡ false
    → state_at j (set_remaining i v states) ≡ some s
outgoing_set key states i v slot j s e out = elim (Bool-cases (i == j)) [
  | inl same ↦
      let k : i ≡ j = ground arith in
      let at : state_at j states ≡ some slot.state =
        subst (λ x. state_at x states ≡ some slot.state) k slot.at in
      let same_state : some slot.state ≡ some s = sym at ∙ e in
      let incoming = slot.incoming in absurd (cc (ap (λ o. map_direction o) same_state))
  | inr different ↦ rw (state_at-set i j v states, different) e
]
  where
    map_direction : Option MoneyState → Bool
    map_direction none = true
    map_direction (some u) = str_eq u.direction "in"

untouched :
    (key : String) (a : ℕ) (states : List MoneyState) (queue : List ℕ)
    → IsQueue key states queue
    → (a ≡ 0) ⊎ (queue ≡ [])
    → Taken key a states (pos a, queue, states)
untouched key a states queue h done = record {
  left = a;
  is_left = refl;
  spent = refl;
  queue = h;
  blind = λ f b. refl;
  slots = λ other j slot. slot;
  outgoing = λ j s e out. e;
}

-- A write into a slot, and what is taken behind it.
written_then :
    (key : String) (a b m i : ℕ) (states : List MoneyState) (r : ℤ × List ℕ × List MoneyState)
    (slot : Slot key states i)
    → a + m ≡ slot.left + b
    → Taken key b (set_remaining i (nat_string m) states) r
    → Taken key a states r
written_then key a b m i states r slot e t = record {
  left = t.left;
  is_left = t.is_left;
  spent = omega (arith, spend key states i m slot, t.spent);
  queue = t.queue;
  blind = λ f h. t.blind f h ∙ Blind-set key states i (nat_string m) slot f h;
  slots = λ other j s. t.slots other j (Slot-set other states i j m s);
  outgoing =
      λ j s at out. t.outgoing j s (outgoing_set key states i (nat_string m) slot j s at out) out;
}

take_from_Slot :
    (key : String) (a n i : ℕ) (queue : List ℕ) (states : List MoneyState)
    (slot : Slot key states i)
    → slot.left ≡ suc n
    → IsQueue key states queue
    → (let states' = set_remaining i (nat_string 0) states in
        (b : ℕ) → Taken key b states' (take_from_queue (pos b) queue states'))
    → Taken key (suc a) states (take_from_queue (pos (suc a)) (i ∷ queue) states)
take_from_Slot key a n i queue states slot e h rest =
    let available = available-suc key states i n slot e in
    elim (Bool-cases (ltb a n)) [
      | inl less ↦ rw (take_part i queue states a n available (ground arith)) (
          written_then key (suc a) 0 (n - a) i states _ slot (ground arith) (
            untouched key 0 (set_remaining i (nat_string (n - a)) states) (i ∷ queue)
              (IsQueue-set key states i (n - a) (i ∷ queue) (slot, h)) (inl refl)))
      | inr more ↦
          rw (take_all i queue states a n available (ground arith))
            (written_then key (suc a) (a - n) 0 i states _ slot (ground arith) (rest (a - n)))
    ]

take_from_any :
    (key : String) (a m i : ℕ) (queue : List ℕ) (states : List MoneyState)
    (slot : Slot key states i)
    → slot.left ≡ m
    → IsQueue key states queue
    → ((b : ℕ) (st : List MoneyState)
        → IsQueue key st queue
        → Taken key b st (take_from_queue (pos b) queue st))
    → Taken key (suc a) states (take_from_queue (pos (suc a)) (i ∷ queue) states)
take_from_any key a zero i queue states slot e h rest =
    rw (take_skip i queue states a (available-zero key states i slot e)) (rest (suc a) states h)
take_from_any key a (suc n) i queue states slot e h rest =
    take_from_Slot key a n i queue states slot e h
      (λ b. rest b (set_remaining i (nat_string 0) states) (IsQueue-set key states i 0 queue h))

pub take_from_queue-Taken :
    (key : String) (a : ℕ) (queue : List ℕ) (states : List MoneyState)
    → IsQueue key states queue
    → Taken key a states (take_from_queue (pos a) queue states)
take_from_queue-Taken key a [] states h =
    unfold take_from_queue in untouched key a states [] h (inr refl)
take_from_queue-Taken key zero (i ∷ queue) states h =
    rw (take_nothing i queue states) (untouched key 0 states (i ∷ queue) h (inl refl))
take_from_queue-Taken key (suc a) (i ∷ queue) states (slot, h) =
    take_from_any key a slot.left i queue states slot refl h
      (λ b st hq. take_from_queue-Taken key b queue st hq)
