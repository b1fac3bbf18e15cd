-- ===== src/Tracer/Branch/Budget.antt =====
-- What the loop of `ExtendBranch` of internal/tracer/extension.go spends.
use eth_fund_trace.Prelude.{
  ℕ, ◌+◌, ◌-◌, ◌≤◌, ◌≡◌, refl, Bool, true, false, ◌&&◌, List, [], ◌∷◌, ◌++◌, Option, none, some,
  String, Bool-cases, inl, inr, arith,
}
use eth_fund_trace.Prelude.Int.{ℤ, pos, negsuc, ◌-ℤ◌, ltb_ℤ}
use eth_fund_trace.Text.Decimal.{set_string, int_string}
use eth_fund_trace.Store.Address.{Address}
use eth_fund_trace.Store.Label.{Label}
use eth_fund_trace.Store.Transfer.{Transfer, CounterpartySummary}
use eth_fund_trace.Tracer.Types.{Edge, TraceResult}
use eth_fund_trace.Tracer.Facts.{edge_from_summary}
use eth_fund_trace.Tracer.Money.Queue.{value, value-nat_string}
use eth_fund_trace.Tracer.Branch.{
  Reply, ok, stop, bind, Graph, ExtensionRequest, offer, spend, cut_to, record_step, follow_checked,
  follow, follow_above, spend_on, extend_by, extend_transfers,
}

-- The sum of the amounts of edges.
unfoldable pub edges_value : List Edge → ℕ
edges_value [] = 0
edges_value (edge ∷ edges) = value edge.total_amount + edges_value edges

edges_value-append :
    (edges : List Edge) (edge : Edge)
    → edges_value (edges ++ edge ∷ []) ≡ edges_value edges + value edge.total_amount
unfolding edges_value
edges_value-append [] edge = omega arith
edges_value-append (first ∷ edges) edge = omega (arith, edges_value-append edges edge)

-- What holds of the value of a reply, if it has one.
abbrev pub Holds : {E A : Type 0} → (A → Type 0) → Reply E A → Type 0
Holds P (stop s) = Unit
Holds P (ok a) = P a

bind-Holds :
    {E A B : Type 0} (P : A → Type 0) (Q : B → Type 0) (x : Reply E A) (f : A → Reply E B)
    → Holds P x
    → ((a : A) → P a → Holds Q (f a))
    → Holds Q (bind x f)
unfolding bind
bind-Holds P Q (stop s) f h k = tt
bind-Holds P Q (ok a) f h k = k a h

anything : {E A : Type 0} (x : Reply E A) → Holds (λ a. Unit) x
anything (stop s) = tt
anything (ok a) = tt

-- A natural number is left, and the edges and it are within the bound.
pub record Within (bound : ℕ) (p : ℤ × TraceResult) : Type 0 where
  pub left : ℕ
  pub is_left : p.0 ≡ pos left
  pub within : edges_value p.1.edges + left ≤ bound

module _ {E : Type 0} (g : Graph E) (request : ExtensionRequest) (depth through : ℕ)
    (trail : List String) where
  abbrev Adds : TraceResult → CounterpartySummary → TraceResult → Type 0
  Adds result summary result' =
      edges_value result'.edges ≡ edges_value result.edges + value summary.total_amount

  record_step-Adds :
      (summary : CounterpartySummary) (metadata : Address) (labels : List Label)
      (result : TraceResult)
      → Adds result summary
          (record_step g request depth through trail summary metadata labels result)
  unfolding record_step edge_from_summary
  record_step-Adds summary metadata labels result = edges_value-append result.edges _

  follow_checked-Adds :
      (b : Bool) (summary : CounterpartySummary) (block : ℕ) (metadata : Address)
      (result : TraceResult)
      → Holds
          (Adds result summary)
          (follow_checked g request depth through trail b summary block metadata result)
  unfolding follow_checked
  follow_checked-Adds true summary block metadata result = tt
  follow_checked-Adds false summary block metadata result =
      bind-Holds (λ a. Unit) (Adds result summary) _ _ (anything _)
        (λ labels h. record_step-Adds summary metadata labels result)

  follow-Adds :
      (summary : CounterpartySummary) (block : ℕ) (result : TraceResult)
      → Holds (Adds result summary) (follow g request depth through trail summary block result)
  unfolding follow
  follow-Adds summary block result =
      bind-Holds (λ a. Unit) (Adds result summary) _ _ (anything _)
        (λ found h. follow_checked-Adds _ summary block found.0 result)

  follow_above-Within :
      (b : Bool) (summary : CounterpartySummary) (block left bound : ℕ) (result : TraceResult)
      → edges_value result.edges + value summary.total_amount + left ≤ bound
      → Holds
          (Within bound)
          (follow_above g request depth through trail b summary block (pos left) result)
  unfolding follow_above
  follow_above-Within false summary block left bound result h = record {
    left = left;
    is_left = refl;
    within = omega (arith, h);
  }
  follow_above-Within true summary block left bound result h =
      bind-Holds (Adds result summary) (Within bound) _ _ (follow-Adds summary block result)
        (λ result' adds. record { left = left; is_left = refl; within = omega (arith, h, adds) })

-- What is spent is a natural part of the budget.
record Part (budget : ℕ) (z : ℤ) : Type 0 where
  used : ℕ
  is_used : z ≡ pos used
  within : used ≤ budget

abbrev Spends : ℕ → Option ℤ → Type 0
Spends b none = Unit
Spends b (some z) = Part b z

cut_to-Spends : (b : ℕ) (o : Option ℤ) → Spends b (cut_to (pos b) o)
unfolding cut_to
cut_to-Spends b none = tt
cut_to-Spends b (some (negsuc n)) =
    let refused : ltb_ℤ (pos 0) (negsuc n) ≡ false = ground arith in rw refused tt
cut_to-Spends b (some (pos n)) =
    elim (Bool-cases (ltb_ℤ (pos 0) (pos n) && ltb_ℤ (pos 0) (pos b))) [
      | inr e ↦ rw e tt
      | inl e ↦ elim (Bool-cases (ltb_ℤ (pos b) (pos n))) [
        | inl less ↦ rw (e, less) record { used = b; is_used = refl; within = omega arith }
        | inr more ↦ rw (e, more) record { used = n; is_used = refl; within = ground arith }
      ]
    ]

minus : (b u : ℕ) → u ≤ b → pos b -ℤ pos u ≡ pos (b - u)
unfolding ◌-ℤ◌
minus b u h = ground arith

value-int_string : (n : ℕ) → value (int_string (pos n)) ≡ n
unfolding int_string
value-int_string n = value-nat_string n

module _ {E : Type 0} (g : Graph E) (request : ExtensionRequest) (depth through : ℕ)
    (trail : List String) where
  spend_on-Within :
      (summary : CounterpartySummary) (block b bound : ℕ) (o : Option ℤ) (result : TraceResult)
      → Spends b o
      → edges_value result.edges + b ≤ bound
      → Holds (Within bound) (spend_on g request depth through trail summary block o (pos b) result)
  unfolding spend_on
  spend_on-Within summary block b bound none result p h = record {
    left = b;
    is_left = refl;
    within = h;
  }
  spend_on-Within summary block b bound (some z) result part h =
      rw (part.is_used, minus b part.used part.within)
        (follow_above-Within g request depth through trail _ _ block (b - part.used) bound result
          (omega (arith, h, part.within, value-int_string part.used)))

  extend_by-Within :
      (o : Option CounterpartySummary) (block b bound : ℕ) (result : TraceResult)
      → edges_value result.edges + b ≤ bound
      → Holds (Within bound) (extend_by g request depth through trail o block (pos b) result)
  unfolding extend_by spend
  extend_by-Within none block b bound result h = record { left = b; is_left = refl; within = h }
  extend_by-Within (some summary) block b bound result h =
      spend_on-Within summary block b bound _ result
        (cut_to-Spends b (set_string summary.total_amount)) h

  extend_transfers-Within :
      (transfers : List Transfer) (b bound : ℕ) (result : TraceResult)
      → edges_value result.edges + b ≤ bound
      → Holds
          (Within bound)
          (extend_transfers g request depth through trail transfers (pos b) result)
  unfolding extend_transfers
  extend_transfers-Within [] b bound result h = record { left = b; is_left = refl; within = h }
  extend_transfers-Within (transfer ∷ transfers) b bound result h =
      bind-Holds (Within bound) (Within bound) _ _
        (extend_by-Within (offer request transfer) transfer.block_number b bound result h)
        (λ step w. rw w.is_left (extend_transfers-Within transfers w.left bound step.1 w.within))

-- The edges that a branch gains from an anchor, as far as neither a missing synchronisation nor an
-- error ends the loop, have together at most the amount of the anchor: their sum and the budget
-- that is left, a natural number, are at most the sum of the edges before and the amount.
pub extend_transfers_budget :
    {E : Type 0} (g : Graph E) (request : ExtensionRequest) (depth through : ℕ)
    (trail : List String) (transfers : List Transfer) (amount : ℕ) (result : TraceResult)
    → Holds
        (Within (edges_value result.edges + amount))
        (extend_transfers g request depth through trail transfers (pos amount) result)
extend_transfers_budget g request depth through trail transfers amount result =
    extend_transfers-Within g request depth through trail transfers amount
      (edges_value result.edges + amount) result (omega arith)
