-- ===== src/Tracer/Retrace/Stuck.antt =====
-- A seed that stays uncovered, in the loop of `process` in internal/tracer/manager.go.
use eth_fund_trace.Prelude.{
  ℕ, zero, suc, ◌≡◌, refl, ap, ◌∙◌, true, false, some, String, str_eq, str_eq_iff, arith,
}
use eth_fund_trace.Prelude.Dict.{Dict, lookup, lookup-insert}
use eth_fund_trace.Prelude.Answers.{ok}
use eth_fund_trace.Ethaddr
use eth_fund_trace.Store.Address.{Address}
use eth_fund_trace.Store.Job.{TraceJob}
use eth_fund_trace.Tracer.Types.{TraceResult}
use eth_fund_trace.Tracer.Branch.{not_synced, dependency_address_key}
use eth_fund_trace.Tracer.Dependencies.{
  Dependency, unsynced, TraceEnv, Tracing, out_of_fuel, is_attempted, give_up, depend, on_chain,
  named, answer_trace, trace_loop,
}
use eth_fund_trace.Tracer.Facts.{Query, normalize_query}
use eth_fund_trace.Tracer.Search.{TraceGraph, stops, read_from, answered}
use eth_fund_trace.Tracer.Search.Trace.{
  seed_is_covered, plant_covered, prepare, trace_prepared, trace_from, trace_normal,
  trace_same_chain, with_blocks, trace_query, blank,
}
use eth_fund_trace.Tracer.Retrace.{
  request_of, with_terminal_dependencies, stop_answer, end_answer, retrace, with_search,
}

-- What a trace of an uncovered seed misses.
abbrev pub missing_seed : Query → String → Dependency
missing_seed q seed = record { chain = q.chain; address = seed; start_block = 0; end_block = 0 }

module _ {W E : Type 0} (g : TraceGraph W E) (q : Query) (seed : String) (address : Address)
    (stays : (w : W) → g.find_address q.chain seed w ≡ (ok (address, true), w))
    (uncovered : seed_is_covered g q seed address true ≡ false) where
  prepare-with_terminal_dependencies :
      (dependencies : Dict String) (w : W)
      → prepare (with_terminal_dependencies dependencies g) q seed w
        ≡ stops (not_synced q.chain seed 0 0) w
  unfolding prepare with_terminal_dependencies read_from answered plant_covered seed_is_covered
      blank
  prepare-with_terminal_dependencies dependencies w =
      let g' = with_terminal_dependencies dependencies g in
      ap
        (λ x.
          answered (λ a s. plant_covered g' q seed (seed_is_covered g' q seed a.0 a.1) a.0 s) x.0
            (record (blank g' q seed w) { repo = x.1 }))
        (stays w)
      ∙ ap (λ c. plant_covered g' q seed c address (blank g' q seed w)) uncovered

  module _ (error_text : E → String) (fuel : ℕ) (query : Query)
      (normal : normalize_query query ≡ some q)
      (valid : Ethaddr.normalize q.address ≡ some seed) where
    retrace-missing_seed :
        (dependencies : Dict String) (w : W)
        → retrace g error_text fuel query dependencies w ≡ (unsynced (missing_seed q seed), w)
    unfolding retrace end_answer stop_answer trace_query with_blocks trace_same_chain trace_normal
        trace_from trace_prepared
    retrace-missing_seed dependencies w =
        let g' = with_terminal_dependencies dependencies g in
        ap (λ x. end_answer error_text w (with_blocks g' fuel (trace_normal g' fuel x w))) normal
        ∙ ap (λ x. end_answer error_text w (with_blocks g' fuel (trace_from g' fuel q x w))) valid
        ∙ ap (λ x. end_answer error_text w (with_blocks g' fuel (trace_prepared g' q seed fuel x)))
            (prepare-with_terminal_dependencies dependencies w)

    module _ (old : TraceEnv W TraceResult) (looks : ℕ) (sync_jobs : old.has_sync_jobs ≡ true)
        (named_seed : str_eq seed "" ≡ false) where
      abbrev env : TraceEnv W TraceResult
      env = with_search g error_text fuel query old

      answer_trace-missing_seed :
          (traces : ℕ) (t : Tracing env)
          → is_attempted env (on_chain env (missing_seed q seed) t) t ≡ true
          → answer_trace env looks (trace_loop env looks traces) (unsynced (missing_seed q seed)) t
            ≡ trace_loop env looks traces (give_up env (on_chain env (missing_seed q seed) t) t)
      unfolding answer_trace depend with_search
      answer_trace-missing_seed traces t met = grind (arith, met, sync_jobs, named_seed)

      abbrev seed_key : Tracing env → String
      seed_key t =
          let d = on_chain env (missing_seed q seed) t in dependency_address_key d.chain d.address

      -- The loop goes on, and the seed is marked as missing.
      abbrev StuckAt : ℕ → Tracing env → Type 0
      StuckAt traces t =
          (u : Tracing env) × (trace_loop env looks traces t ≡ out_of_fuel u)
          × (lookup (seed_key t) u.terminal ≡ some "missing_data")

      one_trace :
          (traces : ℕ) (t : Tracing env)
          → is_attempted env (on_chain env (missing_seed q seed) t) t ≡ true
          → trace_loop env looks (suc traces) t
            ≡ trace_loop env looks traces (give_up env (on_chain env (missing_seed q seed) t) t)
      unfolding trace_loop with_search
      one_trace traces t met =
          ap
            (λ x.
              answer_trace env looks (trace_loop env looks traces) x.0 (record t { repo = x.1 }))
            (retrace-missing_seed t.terminal t.repo)
          ∙ answer_trace-missing_seed traces t met

      give_up-marked :
          (t : Tracing env)
          → lookup (seed_key t) (give_up env (on_chain env (missing_seed q seed) t) t).terminal
            ≡ some "missing_data"
      unfolding give_up
      give_up-marked t =
          let key = seed_key t in
          lookup-insert key key "missing_data" t.terminal ∙ rw ((str_eq_iff key key).1 refl) refl

      marked-StuckAt :
          (traces : ℕ) (t : Tracing env)
          → is_attempted env (on_chain env (missing_seed q seed) t) t ≡ true
          → lookup (seed_key t) t.terminal ≡ some "missing_data"
          → StuckAt traces t
      unfolding trace_loop give_up is_attempted on_chain named
      marked-StuckAt zero t met marked = (t, refl, marked)
      marked-StuckAt (suc traces) t met marked =
          let (u, stuck, still) =
            marked-StuckAt traces (give_up env (on_chain env (missing_seed q seed) t) t) met
              (give_up-marked t) in
          (u, one_trace traces t met ∙ stuck, still)

      missing-StuckAt :
          (traces : ℕ) (t : Tracing env)
          → is_attempted env (on_chain env (missing_seed q seed) t) t ≡ true
          → StuckAt (suc traces) t
      unfolding give_up is_attempted on_chain named
      missing-StuckAt traces t met =
          let (u, stuck, still) =
            marked-StuckAt traces (give_up env (on_chain env (missing_seed q seed) t) t) met
              (give_up-marked t) in
          (u, one_trace traces t met ∙ stuck, still)

-- When the job asks for a seed that is never covered, and the loop has tried to synchronise that
-- seed: no number of traces ends the loop, and from the first of them on the seed is marked as
-- missing data.
pub retrace_stuck :
    {W E : Type 0} (g : TraceGraph W E) (error_text : E → String) (fuel looks traces : ℕ)
    (job : TraceJob TraceResult) (q : Query) (seed : String) (address : Address)
    (old : TraceEnv W TraceResult)
    (t : Tracing (with_search g error_text fuel (request_of job) old))
    → normalize_query (request_of job) ≡ some q
    → Ethaddr.normalize q.address ≡ some seed
    → str_eq seed "" ≡ false
    → ((w : W) → g.find_address q.chain seed w ≡ (ok (address, true), w))
    → seed_is_covered g q seed address true ≡ false
    → old.has_sync_jobs ≡ true
    → is_attempted
        (with_search g error_text fuel (request_of job) old)
        (on_chain (with_search g error_text fuel (request_of job) old) (missing_seed q seed) t)
        t
      ≡ true
    → let env = with_search g error_text fuel (request_of job) old in
      let missed = on_chain env (missing_seed q seed) t in
      (u : Tracing env) × (trace_loop env looks (suc traces) t ≡ out_of_fuel u)
      × (lookup (dependency_address_key missed.chain missed.address) u.terminal
          ≡ some "missing_data")
retrace_stuck g error_text fuel looks traces job q seed address old t normal valid named_seed stays
      uncovered sync_jobs met =
    missing-StuckAt g q seed address stays uncovered error_text fuel (request_of job) normal valid
      old looks sync_jobs named_seed traces t met
