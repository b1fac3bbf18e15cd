-- ===== src/Syncer/Actions/Runs.antt =====
-- Rounds of the loops of `syncAddress` of internal/syncer/manager.go that truncate nothing.
use eth_fund_trace.Prelude.{
  leb, if◌then◌else◌, ℕ, ◌+◌, ◌<◌, ◌≡◌, refl, Bool, true, false, List, [], ◌∷◌, ◌++◌, Option, none,
  some, String, arith,
}
use eth_fund_trace.Syncer.State.{Fault, Sync}
use eth_fund_trace.Syncer.Actions.{
  high_frequency_record_limit, Loop, Next, again, leave, fault, truncate, count_fetched,
  after_range, then_interval, then_action, end_action,
}

-- While nothing is truncated, no action has met its limit and the property holds.
abbrev pub If : {W : Type 0} → (Sync W → Type 0) → Loop W → Type 0
If P l = l.result.truncated_actions ≡ [] → (l.action_limit_reached ≡ false) × P l.sync

-- The same behind a round; a break has truncated something.
abbrev pub Runs : {W : Type 0} → (Sync W → Type 0) → Next W → Type 0
Runs P (again l) = If P l
Runs P (leave l) = l.result.truncated_actions ≡ [] → ⊥
Runs P (fault e l) = Unit {0}

snoc_not_nil : (xs : List String) (x : String) → xs ++ x ∷ [] ≡ [] → ⊥
snoc_not_nil [] x e = cc
snoc_not_nil (y ∷ xs) x e = cc

leb_false→lt : (a b : ℕ) → leb a b ≡ false → b < a
leb_false→lt a b e = ground arith

module _ {W : Type 0} where
  pub truncate_not_nil :
      (action : String) (l : Loop W) → (truncate action l).result.truncated_actions ≡ [] → ⊥
  unfolding truncate
  truncate_not_nil action l e = snoc_not_nil l.result.truncated_actions action e

  pub choose-Runs :
      (P : Sync W → Type 0) (c : Bool) (x y : Next W)
      → (c ≡ true → Runs P x)
      → (c ≡ false → Runs P y)
      → Runs P (if c then x else y)
  choose-Runs P true x y yes_case no_case = yes_case refl
  choose-Runs P false x y yes_case no_case = no_case refl

  choose-If :
      (P : Sync W → Type 0) (c : Bool) (x y : Loop W)
      → (c ≡ true → If P x)
      → (c ≡ false → If P y)
      → If P (if c then x else y)
  choose-If P true x y yes_case no_case = yes_case refl
  choose-If P false x y yes_case no_case = no_case refl

  pub after_range-Runs :
      (P : Sync W → Type 0) (action : String) (l : Loop W) (o : ℕ × Option Fault × Sync W)
      → (l.result.truncated_actions ≡ []
          → o.1 ≡ none
          → l.result.fetched + o.0 < high_frequency_record_limit
          → (l.action_limit_reached ≡ false) × P o.2)
      → Runs P (after_range action l o)
  unfolding after_range count_fetched truncate
  after_range-Runs P action l (count, none, s) h =
      choose-If P (leb high_frequency_record_limit (l.result.fetched + count)) _ _
        (λ full clean. absurd (snoc_not_nil l.result.truncated_actions "high_frequency" clean))
        (λ short clean. h clean refl (leb_false→lt _ _ short))
  after_range-Runs P action l (count, some e, s) h = tt

  pub then_interval-Runs :
      (P Q : Sync W → Type 0) (n : Next W) (next : Loop W → Next W)
      → Runs P n
      → ((l : Loop W) → If P l → Runs Q (next l))
      → Runs Q (then_interval n next)
  unfolding then_interval
  then_interval-Runs P Q (again l) next h step = step l h
  then_interval-Runs P Q (leave l) next h step = λ clean. absurd (h clean)
  then_interval-Runs P Q (fault e l) next h step = tt

  pub then_action-Runs :
      (P Q : Sync W → Type 0) (n : Next W) (next : Loop W → Next W)
      → Runs P n
      → ((l : Loop W) → If P l → Runs Q (next l))
      → Runs Q (then_action n next)
  unfolding then_action
  then_action-Runs P Q (again l) next h step = step l h
  then_action-Runs P Q (leave l) next h step = h
  then_action-Runs P Q (fault e l) next h step = tt

  pub end_action-Runs : (P : Sync W → Type 0) (n : Next W) → Runs P n → Runs P (end_action n)
  unfolding end_action
  end_action-Runs P (again l) h =
      choose-Runs P l.action_limit_reached (leave l) (again l)
        (λ reached clean. ground (arith, h clean)) (λ free. h)
  end_action-Runs P (leave l) h = h
  end_action-Runs P (fault e l) h = tt
