-- ===== src/Tracer/Money/Balance.antt =====
-- All rounds of `consumeMoneyStates`, from the sorted states.
use mathlib.Core.Path.{subst}
use eth_fund_trace.Prelude.{
  ℕ, zero, suc, ◌+◌, ◌≡◌, refl, ap, ◌∙◌, List, [], ◌∷◌, Option, none, some, String, All, arith,
}
use eth_fund_trace.Prelude.Dict.{lookup}
use eth_fund_trace.Store.Money.{MoneyState}
use eth_fund_trace.Tracer.Money.Sorting.{All-sort_onto}
use eth_fund_trace.Tracer.Money.{
  Books, state_at, queue_of, consume_at, consume_from, state_before, insert_sorted, sort_onto,
  stable_sort, consume_money_states,
}
use eth_fund_trace.Tracer.Money.Queue.{value, sum, incoming_left}
use eth_fund_trace.Tracer.Money.Conservation.{
  incoming_amount, outgoing_amount, outgoing_left, IsFresh, IsConserved, Kept,
}
use eth_fund_trace.Tracer.Money.Loop.{Steady, incoming_amount-Steady, outgoing_amount-Steady}
use eth_fund_trace.Tracer.Money.Rounds.{consume_at-Rounds}

-- `rest` is what stands in `sorted` from position `i`.
abbrev IsTail : List MoneyState → ℕ → List MoneyState → Type 0
IsTail sorted i rest =
    (j : ℕ) (s : MoneyState) → state_at j rest ≡ some s → state_at (i + j) sorted ≡ some s

IsTail-suc :
    (sorted : List MoneyState) (i : ℕ) (s : MoneyState) (rest : List MoneyState)
    → IsTail sorted i (s ∷ rest)
    → IsTail sorted (suc i) rest
unfolding state_at
IsTail-suc sorted i s rest h j u e =
    let shift : i + suc j ≡ suc i + j = omega arith in
    subst (λ x. state_at x sorted ≡ some u) shift (h (suc j) u e)

IsTail-head :
    (sorted : List MoneyState) (i : ℕ) (s : MoneyState) (rest : List MoneyState)
    → IsTail sorted i (s ∷ rest)
    → state_at i sorted ≡ some s
unfolding state_at
IsTail-head sorted i s rest h =
    let shift : i + 0 ≡ i = omega arith in
    subst (λ x. state_at x sorted ≡ some s) shift (h 0 s refl)

-- All rounds from position `i`: the balance and the steady sums are kept.
record Done (books books' : Books) : Type 0 where
  balanced : (k : String) → IsConserved k books.1 → IsConserved k books'.1
  steady : (w : MoneyState → ℕ) → Steady w → sum w books'.1 ≡ sum w books.1

consume_from-Done :
    (sorted : List MoneyState) (i : ℕ) (rest : List MoneyState) (books : Books)
    → All IsFresh rest
    → IsTail sorted i rest
    → Kept sorted i books
    → Done books (consume_from i rest books)
unfolding consume_from
consume_from-Done sorted i [] books fresh tail kept = record {
  balanced = λ k h. h;
  steady = λ w h. refl;
}
consume_from-Done sorted i (s ∷ rest) (queues, states) (f, fresh) tail kept =
    let r = consume_at-Rounds sorted i s f queues states kept (IsTail-head sorted i s rest tail) in
    let d =
      consume_from-Done sorted (suc i) rest (consume_at i s (queues, states)) fresh
        (IsTail-suc sorted i s rest tail) r.kept in
    record {
      balanced = λ k h. d.balanced k (r.balanced k h);
      steady = λ w h. d.steady w h ∙ r.steady w h;
    }

-- Sorting keeps the states: sums, and what holds of all.
module _ (w : MoneyState → ℕ) where
  sum-insert_sorted :
      (s : MoneyState) (ss : List MoneyState)
      → sum w (insert_sorted state_before s ss) ≡ w s + sum w ss
  unfolding sum insert_sorted
  sum-insert_sorted s [] = refl
  sum-insert_sorted s (u ∷ us) = ground (arith, sum-insert_sorted s us)

  sum-sort_onto :
      (ss done : List MoneyState) → sum w (sort_onto state_before done ss) ≡ sum w done + sum w ss
  unfolding sum sort_onto
  sum-sort_onto [] done = omega arith
  sum-sort_onto (s ∷ ss) done =
      omega (arith, sum-sort_onto ss (insert_sorted state_before s done), sum-insert_sorted s done)

IsFresh-at :
    (states : List MoneyState) (j : ℕ) (s : MoneyState)
    → All IsFresh states
    → state_at j states ≡ some s
    → IsFresh s
unfolding state_at
IsFresh-at [] j s h e = cc
IsFresh-at (u ∷ us) zero s (f, h) e = subst (from_some f) e f
  where
    from_some : {u : MoneyState} → IsFresh u → Option MoneyState → Type 0
    from_some f none = ⊥
    from_some f (some x) = IsFresh x
IsFresh-at (u ∷ us) (suc j) s (f, h) e = IsFresh-at us j s h e

begin : (sorted : List MoneyState) → All IsFresh sorted → Kept sorted 0 ([], sorted)
unfolding queue_of lookup
begin sorted h = record {
  queues = λ key. tt;
  slots = λ j s e incoming.
      let f = IsFresh-at sorted j s h e in
      record {
        state = s;
        at = e;
        incoming = incoming;
        of_key = refl;
        left = f.number;
        remaining = f.unspent;
      };
  fresh = λ j s le e out. e;
}

begin_balanced : (k : String) (sorted : List MoneyState) → All IsFresh sorted → IsConserved k sorted
unfolding sum incoming_left outgoing_left incoming_amount outgoing_amount
begin_balanced k [] h = refl
begin_balanced k (s ∷ ss) (f, h) =
    ground (arith, begin_balanced k ss h, ap value f.amount, ap value f.unspent)

-- For states as the tracer makes them, with a natural amount that is wholly unspent, and for each
-- address and asset: what the incoming states have left together with the outgoing amounts is the
-- incoming amounts together with what the outgoing states have left unexplained; and the sums of
-- the amounts, incoming and outgoing, are those of the given states.
pub consume_money_states_conserves :
    (states : List MoneyState) (key : String)
    → All IsFresh states
    → let after = consume_money_states states in
      (sum (incoming_left key) after + sum (outgoing_amount key) states
        ≡ sum (incoming_amount key) states + sum (outgoing_left key) after)
      × (sum (incoming_amount key) after ≡ sum (incoming_amount key) states)
      × (sum (outgoing_amount key) after ≡ sum (outgoing_amount key) states)
unfolding consume_money_states stable_sort sum
consume_money_states_conserves states key fresh =
    let sorted = sort_onto state_before [] states in
    let fresh_sorted = All-sort_onto IsFresh state_before [] states tt fresh in
    let d =
      consume_from-Done sorted 0 sorted ([], sorted) fresh_sorted
        (λ j s e. subst (λ x. state_at x sorted ≡ some s) (zero_add j) e)
        (begin sorted fresh_sorted) in
    let ins = d.steady (incoming_amount key) (incoming_amount-Steady key) in
    let outs = d.steady (outgoing_amount key) (outgoing_amount-Steady key) in
    let balance = d.balanced key (begin_balanced key sorted fresh_sorted) in
    let sorted_ins = sum-sort_onto (incoming_amount key) states [] in
    let sorted_outs = sum-sort_onto (outgoing_amount key) states [] in
    (
      omega (arith, ins, outs, balance, sorted_ins, sorted_outs),
      omega (arith, ins, sorted_ins),
      omega (arith, outs, sorted_outs),
    )
  where
    zero_add : (j : ℕ) → j ≡ 0 + j
    zero_add j = omega arith
