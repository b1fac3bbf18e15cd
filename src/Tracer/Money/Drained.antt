-- ===== src/Tracer/Money/Drained.antt =====
-- What the inner loop of `consumeMoneyStates` of internal/tracer/tracer.go leaves behind: it takes
-- all that there is.
use eth_fund_trace.Prelude.{
  ℕ, zero, suc, ◌-◌, ◌≡◌, refl, sym, ap, ◌∙◌, true, List, [], ◌∷◌, ◌++◌, none, some, String, ltb,
  ◌==◌, All, Bool-cases, ◌⊎◌, inl, inr, arith,
}
use eth_fund_trace.Prelude.Int.{ℤ, pos}
use eth_fund_trace.Text.Decimal.{nat_string, set_string-nat_string}
use eth_fund_trace.Store.Money.{MoneyState}
use eth_fund_trace.Tracer.Money.{state_at, set_remaining, available_of, take_from_queue}
use eth_fund_trace.Tracer.Money.Queue.{
  state_at-set, Slot, IsQueue, IsQueue-set, available-zero, available-suc,
}
use eth_fund_trace.Tracer.Money.Taken.{
  Taken, take_nothing, take_skip, take_part, take_all, take_from_queue-Taken,
}

-- What has left the queue stood in front and is used up; the loop ends when the amount or the queue
-- does.
pub record Drained (queue : List ℕ) (states : List MoneyState) (r : ℤ × List ℕ × List MoneyState)
    : Type 0 where
  pub front : List ℕ
  pub splits : queue ≡ front ++ r.1
  pub used_up : All (λ i. available_of (state_at i r.2) ≡ none) front
  pub ended : (r.0 ≡ pos 0) ⊎ (r.1 ≡ [])
  pub stays :
      (j : ℕ) → available_of (state_at j states) ≡ none → available_of (state_at j r.2) ≡ none

untouched-Drained :
    (a : ℕ) (queue : List ℕ) (states : List MoneyState)
    → (pos a ≡ pos 0) ⊎ (queue ≡ [])
    → Drained queue states (pos a, queue, states)
untouched-Drained a queue states ended = record {
  front = [];
  splits = refl;
  used_up = tt;
  ended = ended;
  stays = λ j e. e;
}

-- A write to a state that has something left uses up no other one again.
stays-write :
    (i n : ℕ) (v : String) (states : List MoneyState)
    → available_of (state_at i states) ≡ some (pos (suc n))
    → (j : ℕ) → available_of (state_at j states) ≡ none
    → available_of (state_at j (set_remaining i v states)) ≡ none
stays-write i n v states e j gone = elim (Bool-cases (i == j)) [
  | inl same ↦
      let here : i ≡ j = ground arith in
      let some_left : some (pos (suc n)) ≡ none =
        sym e ∙ ap (λ x. available_of (state_at x states)) here ∙ gone in
      absurd cc
  | inr other ↦ rw (state_at-set i j v states, other) gone
]

used_up-write :
    (key : String) (i : ℕ) (states : List MoneyState) (slot : Slot key states i)
    → available_of (state_at i (set_remaining i (nat_string 0) states)) ≡ none
unfolding available_of
used_up-write key i states slot =
    let here : (i == i) ≡ true = ground arith in
    rw
      (state_at-set i i (nat_string 0) states, here, slot.at, available_of, set_string-nat_string 0)

behind-front :
    (i : ℕ) (queue : List ℕ) (states before : List MoneyState) (r : ℤ × List ℕ × List MoneyState)
    → available_of (state_at i states) ≡ none
    → ((j : ℕ) → available_of (state_at j before) ≡ none → available_of (state_at j states) ≡ none)
    → Drained queue states r
    → Drained (i ∷ queue) before r
behind-front i queue states before r gone kept d = record {
  front = i ∷ d.front;
  splits = ap (λ q. i ∷ q) d.splits;
  used_up = (d.stays i gone, d.used_up);
  ended = d.ended;
  stays = λ j e. d.stays j (kept j e);
}

take_from_Slot-Drained :
    (key : String) (a n i : ℕ) (queue : List ℕ) (states : List MoneyState)
    (slot : Slot key states i)
    → slot.left ≡ suc n
    → (let states' = set_remaining i (nat_string 0) states in
        (b : ℕ) → Drained queue states' (take_from_queue (pos b) queue states'))
    → Drained (i ∷ queue) states (take_from_queue (pos (suc a)) (i ∷ queue) states)
take_from_Slot-Drained key a n i queue states slot e rest =
    let available = available-suc key states i n slot e in
    elim (Bool-cases (ltb a n)) [
      | inl less ↦ rw (take_part i queue states a n available (ground arith)) (record {
        front = [];
        splits = refl;
        used_up = tt;
        ended = inl refl;
        stays = stays-write i n (nat_string (n - a)) states available;
      })
      | inr more ↦ rw (take_all i queue states a n available (ground arith)) (
          behind-front i queue (set_remaining i (nat_string 0) states) states _
            (used_up-write key i states slot) (stays-write i n (nat_string 0) states available)
            (rest (a - n)))
    ]

take_from_any-Drained :
    (key : String) (a m i : ℕ) (queue : List ℕ) (states : List MoneyState)
    (slot : Slot key states i)
    → slot.left ≡ m
    → ((b : ℕ) (st : List MoneyState)
        → IsQueue key st queue
        → Drained queue st (take_from_queue (pos b) queue st))
    → IsQueue key states queue
    → Drained (i ∷ queue) states (take_from_queue (pos (suc a)) (i ∷ queue) states)
take_from_any-Drained key a zero i queue states slot e rest h =
    let gone = available-zero key states i slot e in
    rw (take_skip i queue states a gone)
      (behind-front i queue states states _ gone (λ j k. k) (rest (suc a) states h))
take_from_any-Drained key a (suc n) i queue states slot e rest h =
    take_from_Slot-Drained key a n i queue states slot e
      (λ b. rest b (set_remaining i (nat_string 0) states) (IsQueue-set key states i 0 queue h))

take_from_queue-Drained :
    (key : String) (a : ℕ) (queue : List ℕ) (states : List MoneyState)
    → IsQueue key states queue
    → Drained queue states (take_from_queue (pos a) queue states)
take_from_queue-Drained key a [] states h =
    unfold take_from_queue in untouched-Drained a [] states (inr refl)
take_from_queue-Drained key zero (i ∷ queue) states h =
    rw (take_nothing i queue states) (untouched-Drained 0 (i ∷ queue) states (inl refl))
take_from_queue-Drained key (suc a) (i ∷ queue) states (slot, h) =
    take_from_any-Drained key a slot.left i queue states slot refl
      (λ b st hq. take_from_queue-Drained key b queue st hq) h

-- From a queue of incoming states of a key, each with a natural number left, an outgoing amount
-- takes all that it can: what leaves the queue stood in front of it and has nothing left, and the
-- loop ends only when the amount is used up or the queue is empty. What the amount loses is what
-- the incoming states of the key lose; the queue stays one of such states; no outgoing state
-- changes, and no sum over the states that does not see what the incoming ones of the key have
-- left.
pub take_from_queue_drains :
    (key : String) (a : ℕ) (queue : List ℕ) (states : List MoneyState)
    → IsQueue key states queue
    → Drained queue states (take_from_queue (pos a) queue states)
      × Taken key a states (take_from_queue (pos a) queue states)
take_from_queue_drains key a queue states h =
    (take_from_queue-Drained key a queue states h, take_from_queue-Taken key a queue states h)
