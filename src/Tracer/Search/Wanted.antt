-- ===== src/Tracer/Search/Wanted.antt =====
-- What the search of internal/tracer/tracer.go may ask the synchroniser for.
use eth_fund_trace.Prelude.{ℕ, ◌≡◌, Option, none, some, String, str_eq_iff, ◌⊎◌, inr, arith}
use eth_fund_trace.Ethaddr
use eth_fund_trace.Tracer.Branch.{Stop, not_synced, failed, dependency_stop_reason}
use eth_fund_trace.Tracer.Facts.{Query, normalize_query}
use eth_fund_trace.Prelude.{Bool, true}
use eth_fund_trace.Prelude.Answers.{ok}
use eth_fund_trace.Store.Address.{Address}
use eth_fund_trace.Tracer.Search.Trace.{seed_is_covered}
use eth_fund_trace.Tracer.Search.{TraceGraph}
use eth_fund_trace.Tracer.Search.Side.{must_sync, missing_dependency, far_address}
use eth_fund_trace.Tracer.Search.Calls.{Rule}
use eth_fund_trace.Tracer.Search.Following.{Wants}

-- The chain and the address that a query asks for, in their normal form.
abbrev pub chain_of : Query → Option String
chain_of query = elim (normalize_query query) [ none ↦ none | some q ↦ some q.chain ]

abbrev pub seed_of : Query → Option String
seed_of query = elim (normalize_query query) [ none ↦ none | some q ↦ Ethaddr.normalize q.address ]

-- Whenever the repository is asked for the seed, it is there and covered.
abbrev pub SeedCovered : {W E : Type 0} → TraceGraph W E → Query → Type 0
SeedCovered {W = W} g query =
    (q : Query) (seed : String) (metadata : Address) (exists : Bool) (w : W)
    → normalize_query query ≡ some q
    → Ethaddr.normalize q.address ≡ some seed
    → (g.find_address q.chain seed w).0 ≡ ok (metadata, exists)
    → seed_is_covered g q seed metadata exists ≡ true

-- The seed may be asked for, unless it is covered, and an address that is not final.
abbrev pub Wanted : {W E : Type 0} → TraceGraph W E → Query → Stop E → Type 0
Wanted g query (not_synced chain address from to) =
    (chain_of query ≡ some chain)
    × ((seed_of query ≡ some address) × (¬ SeedCovered g query)
        ⊎ (dependency_stop_reason g.terminal_dependencies chain address ≡ ""))
Wanted g query (failed e) = Unit {0}

module _ {W E : Type 0} (g : TraceGraph W E) (query : Query) where
  abbrev pub wanted_rule : Rule E
  wanted_rule = record { allowed = Wanted g query; free = λ e. tt }

  pub wanted_rule-Wants :
      (chain : String) (through : ℕ)
      → chain_of query ≡ some chain
      → Wants wanted_rule g chain through
  unfolding must_sync missing_dependency
  wanted_rule-Wants chain through named depth state evidence summary side asked = (
    named,
    inr (
        ground (
          arith,
          asked,
          str_eq_iff
              (dependency_stop_reason g.terminal_dependencies chain
                (far_address g chain through depth state evidence summary))
              "",
        )),
  )
