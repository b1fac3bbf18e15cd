-- ===== src/Tracer/Money/Sorting.antt =====
-- The insertion sort that stands for `sort.Slice` keeps what holds of all elements.
use eth_fund_trace.Prelude.{Bool, List, [], ◌∷◌, All, Bool-cases, inl, inr}
use eth_fund_trace.Tracer.Money.{insert_sorted, sort_onto}

All-insert_sorted :
    {A : Type 0} (P : A → Type 0) (before : A → A → Bool) (x : A) (xs : List A)
    → P x
    → All P xs
    → All P (insert_sorted before x xs)
unfolding insert_sorted
All-insert_sorted P before x [] here there = (here, there)
All-insert_sorted P before x (y ∷ ys) here there =
    let rest = All-insert_sorted P before x ys here there.1 in
    elim (Bool-cases (before x y)) [
      | inl sooner ↦ rw sooner (here, there)
      | inr later ↦ rw later (there.0, rest)
    ]

pub All-sort_onto :
    {A : Type 0} (P : A → Type 0) (before : A → A → Bool) (done xs : List A)
    → All P done
    → All P xs
    → All P (sort_onto before done xs)
unfolding sort_onto
All-sort_onto P before done [] h k = h
All-sort_onto P before done (x ∷ xs) h k =
    All-sort_onto P before (insert_sorted before x done) xs
      (All-insert_sorted P before x done k.0 h) k.1
