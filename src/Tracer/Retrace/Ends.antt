-- ===== src/Tracer/Retrace/Ends.antt =====
-- The loop of `process` in internal/tracer/manager.go over the search: it ends.
use mathlib.Core.Path.{subst}
use eth_fund_trace.Prelude.{
  ℕ, ◌+◌, ◌<◌, ◌≡◌, ◌≢◌, refl, ap, sym, ◌∙◌, false, List, Option, none, some, String, str_eq, In,
  length, inl, inr, arith, ◌⊎◌,
}
use eth_fund_trace.Ethaddr
use eth_fund_trace.Prelude.Dict.{Dict}
use eth_fund_trace.Tracer.Types.{TraceResult}
use eth_fund_trace.Tracer.Branch.{
  not_synced, failed, dependency_address_key, dependency_stop_reason,
}
use eth_fund_trace.Tracer.Dependencies.{
  Dependency, Traced, unsynced, unfinished, TraceEnv, Tracing, out_of_fuel, wait_sync, named,
  sync_dependency_key, trace_loop,
}
use eth_fund_trace.Tracer.Dependencies.Ends.{Finite, remaining_bound, trace_loop_ends}
use eth_fund_trace.Tracer.Facts.{Query, normalize_query, normalize_with, normalize_on}
use eth_fund_trace.Tracer.Search.{TraceGraph}
use eth_fund_trace.Tracer.Search.Trace.{
  SearchEnd, found, refused, invalid, trace_query, seed_is_covered,
}
use eth_fund_trace.Tracer.Search.Wanted.{chain_of, seed_of, SeedCovered}
use eth_fund_trace.Tracer.Search.Whole.{trace_wants}
use eth_fund_trace.Tracer.Retrace.{
  with_terminal_dependencies, stop_answer, end_answer, retrace, with_search,
}

on_ethereum :
    (query : Query) (chain : String)
    → elim (normalize_on Ethaddr.ethereum query) [ none ↦ none | some q ↦ some q.chain ]
      ≡ some chain
    → "ethereum" ≡ chain
unfolding normalize_on
on_ethereum query chain e = grind (arith, e)

resolve-cases :
    (v : String) → (Ethaddr.resolve v ≡ none) ⊎ (Ethaddr.resolve v ≡ some Ethaddr.ethereum)
unfolding Ethaddr.resolve
resolve-cases v = ground arith

-- The chain of a query is never empty.
names_chain :
    (query : Query) (chain : String) → chain_of query ≡ some chain → str_eq chain "" ≡ false
unfolding normalize_query normalize_with
names_chain query chain e =
    let name = λ (o : Option Ethaddr.Chain). elim (normalize_with query o) as (λ x. Option String) [
      | none ↦ none
      | some q ↦ some q.chain
    ] in
    elim (resolve-cases query.chain) [
      | inl unknown ↦ absurd (is_named (sym (ap name unknown) ∙ e))
      | inr known ↦
          subst (λ c. str_eq c "" ≡ false) (on_ethereum query chain (sym (ap name known) ∙ e)) refl
    ]
  where
    is_named : ◌≡◌ {A = Option String} none (some chain) → ⊥
    is_named e = cc

same_dependency :
    {R : Type 0} (a b : Dependency) → ◌≡◌ {A = Traced R} (unsynced a) (unsynced b) → a ≡ b
same_dependency a b e = cc

module _ {W E : Type 0} (g : TraceGraph W E) (error_text : E → String) (fuel : ℕ) (query : Query)
    (covered : SeedCovered g query) where
  not_final :
      (chain address : String) (terminal : Dict String)
      → (seed_of query ≡ some address)
          × (¬ SeedCovered (with_terminal_dependencies terminal g) query)
        ⊎ (dependency_stop_reason terminal chain address ≡ "")
      → dependency_stop_reason terminal chain address ≡ ""
  unfolding with_terminal_dependencies seed_is_covered
  not_final chain address terminal (inl (seed, uncovered)) = absurd (uncovered covered)
  not_final chain address terminal (inr open_now) = open_now

  end_answer-Wanted :
      (w : W) (x : SearchEnd W E) (d : Dependency) (terminal : Dict String)
      → trace_query (with_terminal_dependencies terminal g) fuel query w ≡ x
      → (end_answer error_text w x).0 ≡ unsynced d
      → (chain_of query ≡ some d.chain) × (dependency_stop_reason terminal d.chain d.address ≡ "")
  unfolding end_answer stop_answer with_terminal_dependencies
  end_answer-Wanted w (found result v) d terminal ends e = absurd cc
  end_answer-Wanted w invalid d terminal ends e = absurd cc
  end_answer-Wanted w SearchEnd.out_of_fuel d terminal ends e = absurd cc
  end_answer-Wanted w (refused (failed message) v) d terminal ends e = absurd cc
  end_answer-Wanted w (refused (not_synced chain address from to) v) d terminal ends e =
      let asked =
        trace_wants (with_terminal_dependencies terminal g) fuel query w v chain address from to
          ends in
      subst
        (λ (x : Dependency).
          (chain_of query ≡ some x.chain)
          × (dependency_stop_reason terminal x.chain x.address ≡ ""))
        {x = record { chain = chain; address = address; start_block = from; end_block = to }}
        {y = d} (same_dependency _ d e) (asked.0, not_final chain address terminal asked.1)

-- Every address that a trace misses is one of a finite set.
pub record FiniteAddresses {W E : Type 0} (g : TraceGraph W E) (error_text : E → String) (fuel : ℕ)
    (query : Query) (keys addresses : List String) : Type 0 where
  pub known_key :
      (d : Dependency) (terminal : Dict String) (w : W)
      → (retrace g error_text fuel query terminal w).0 ≡ unsynced d
      → In (sync_dependency_key d) keys
  pub known_address :
      (d : Dependency) (terminal : Dict String) (w : W)
      → (retrace g error_text fuel query terminal w).0 ≡ unsynced d
      → In (dependency_address_key d.chain d.address) addresses

named-same : (chain : String) (d : Dependency) → str_eq d.chain "" ≡ false → d ≡ named chain d
unfolding named
named-same chain d filled = rw filled refl

module _ {W E : Type 0} (g : TraceGraph W E) (error_text : E → String) (fuel : ℕ) (query : Query)
    (covered : SeedCovered g query) (old : TraceEnv W TraceResult) (chain : String)
    (keys addresses : List String)
    (finite : FiniteAddresses g error_text fuel query keys addresses) where
  misses :
      (d : Dependency) (terminal : Dict String) (w : W)
      → (retrace g error_text fuel query terminal w).0 ≡ unsynced d
      → (chain_of query ≡ some d.chain) × (dependency_stop_reason terminal d.chain d.address ≡ "")
  unfolding retrace
  misses d terminal w e = end_answer-Wanted g error_text fuel query covered w _ d terminal refl e

  as_named :
      (P : Dependency → Type 0) (d : Dependency) (terminal : Dict String) (w : W)
      → (retrace g error_text fuel query terminal w).0 ≡ unsynced d
      → P d
      → P (named chain d)
  as_named P d terminal w e holds =
      subst P (named-same chain d (names_chain query d.chain (misses d terminal w e).0)) holds

  with_search-Finite : Finite (with_search g error_text fuel query old) chain keys addresses
  unfolding with_search
  with_search-Finite = record {
    known_key = λ d terminal w e.
        as_named (λ x. In (sync_dependency_key x) keys) d terminal w e
          (finite.known_key d terminal w e);
    known_address = λ d terminal w e.
        as_named (λ x. In (dependency_address_key x.chain d.address) addresses) d terminal w e
          (finite.known_address d terminal w e);
    not_final = λ d terminal w e.
        as_named (λ x. dependency_stop_reason terminal x.chain d.address ≡ "") d terminal w e
          (misses d terminal w e).1;
  }

-- When waiting for the synchroniser always comes to an end, the repository finds the seed covered
-- whenever it is asked, and the addresses that the traces miss are of a finite set: the loop ends,
-- with a result, an error or a cancelled context, after at most one trace for each dependency, one
-- for each address, and one more.
pub retrace_ends :
    {W E : Type 0} (g : TraceGraph W E) (error_text : E → String) (fuel looks traces : ℕ)
    (query : Query) (old : TraceEnv W TraceResult) (keys addresses : List String)
    (t u : Tracing (with_search g error_text fuel query old))
    → ((id : String) (w : W)
        → (wait_sync (with_search g error_text fuel query old) looks id w).0 ≢ unfinished)
    → SeedCovered g query
    → FiniteAddresses g error_text fuel query keys addresses
    → length keys + length addresses < traces
    → trace_loop (with_search g error_text fuel query old) looks traces t ≢ out_of_fuel u
retrace_ends g error_text fuel looks traces query old keys addresses t u waits covered finite lt =
    let env = with_search g error_text fuel query old in
    trace_loop_ends env keys addresses looks traces t u waits
      (with_search-Finite g error_text fuel query covered old t.job.chain keys addresses finite)
      (omega (arith, lt, remaining_bound env t.job.chain keys addresses t))
