-- ===== src/Tracer/Money/Rounds.antt =====
-- One round of the outer loop of `consumeMoneyStates`.
use eth_fund_trace.Prelude.{
  ℕ, suc, ◌≤◌, ◌≡◌, refl, ap, true, false, List, [], ◌∷◌, ◌++◌, some, String, All-append,
  Bool-cases, inl, inr, arith,
}
use eth_fund_trace.Prelude.Int.{ℤ}
use eth_fund_trace.Prelude.Dict.{Dict, insert}
use eth_fund_trace.Text.Decimal.{int_string, nat_string}
use eth_fund_trace.Store.Money.{MoneyState}
use eth_fund_trace.Tracer.Money.{Books, money_key, state_at, set_remaining, queue_of, consume_at}
use eth_fund_trace.Tracer.Money.Queue.{state_at-set, sum, Slot, Slot-set, IsQueue, IsQueue-set}
use eth_fund_trace.Tracer.Money.Taken.{Taken, take_from_queue-Taken}
use eth_fund_trace.Tracer.Money.Conservation.{
  is_in, IsFresh, IsConserved, Kept, IsQueue-insert, consume_in, consume_out,
}
use eth_fund_trace.Tracer.Money.Loop.{Steady, Steady-out, out-IsConserved}

-- What rounds of the loop keep.
pub record Rounds (sorted : List MoneyState) (n : ℕ) (books books' : Books) : Type 0 where
  pub kept : Kept sorted n books'
  pub balanced : (k : String) → IsConserved k books.1 → IsConserved k books'.1
  pub steady : (w : MoneyState → ℕ) → Steady w → sum w books'.1 ≡ sum w books.1

module _ (sorted : List MoneyState) (i : ℕ) (s : MoneyState) (f : IsFresh s)
    (queues : Dict (List ℕ)) (states : List MoneyState) (kept : Kept sorted i (queues, states))
    (at : state_at i sorted ≡ some s) where
  in_round :
      is_in s ≡ true
      → Rounds sorted
          (suc i)
          (queues, states)
          (insert (money_key s) (queue_of (money_key s) queues ++ i ∷ []) queues, states)
  in_round e = record {
    kept = record {
      queues = λ other.
          IsQueue-insert (money_key s) other states (queue_of (money_key s) queues ++ i ∷ []) queues
            (All-append (Slot (money_key s) states) (queue_of (money_key s) queues) (i ∷ [])
              (kept.queues (money_key s)) (kept.slots i s at e, tt))
            (kept.queues other);
      slots = kept.slots;
      fresh = λ j u le. kept.fresh j u (omega arith);
    };
    balanced = λ k h. h;
    steady = λ w h. refl;
  }

  module _ (r : ℤ × List ℕ × List MoneyState) (t : Taken (money_key s) f.number states r)
      (out : is_in s ≡ false) where
    now : state_at i states ≡ some s
    now = kept.fresh i s (omega arith) at out

    after : List MoneyState
    after = set_remaining i (nat_string t.left) r.2

    out_fresh :
        (j : ℕ) (u : MoneyState)
        → suc i ≤ j
        → state_at j sorted ≡ some u
        → is_in u ≡ false
        → state_at j after ≡ some u
    unfolding after
    out_fresh j u le e h = ground (
      arith,
      state_at-set i j (nat_string t.left) r.2,
      t.outgoing j u (kept.fresh j u (omega arith) e h) h,
    )

    out-IsQueue : (other : String) (q : List ℕ) → IsQueue other states q → IsQueue other after q
    unfolding after
    out-IsQueue other [] h = tt
    out-IsQueue other (j ∷ q) (slot, h) =
        (Slot-set other r.2 i j t.left (t.slots other j slot), out-IsQueue other q h)

    out_round : Rounds sorted (suc i) (queues, states) (insert (money_key s) r.1 queues, after)
    unfolding after
    out_round = record {
      kept = record {
        queues = λ other.
            IsQueue-insert (money_key s) other after r.1 queues
              (IsQueue-set (money_key s) r.2 i t.left r.1 t.queue)
              (out-IsQueue other (queue_of other queues) (kept.queues other));
        slots = λ j u e h.
            Slot-set (money_key u) r.2 i j t.left (t.slots (money_key u) j (kept.slots j u e h));
        fresh = out_fresh;
      };
      balanced = λ k h. out-IsConserved k i s f states r t now out h;
      steady = λ w h. Steady-out (money_key s) i s f states r t now out w h;
    }

  left_string :
      (r : ℤ × List ℕ × List MoneyState) (t : Taken (money_key s) f.number states r)
      → int_string r.0 ≡ nat_string t.left
  unfolding int_string
  left_string r t = ap int_string t.is_left

  pub consume_at-Rounds : Rounds sorted (suc i) (queues, states) (consume_at i s (queues, states))
  unfolding after
  consume_at-Rounds = elim (Bool-cases (is_in s)) [
    | inl e ↦ rw (consume_in i s sorted queues states f e) (in_round e)
    | inr e ↦
        let t =
          take_from_queue-Taken (money_key s) f.number (queue_of (money_key s) queues) states
            (kept.queues (money_key s)) in
        rw (consume_out i s sorted queues states f e, left_string _ t) (out_round _ t e)
  ]
