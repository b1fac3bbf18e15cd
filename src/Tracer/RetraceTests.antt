-- ===== src/Tracer/RetraceTests.antt =====
-- A root trace whose seed has a transfer, and one whose seed is never covered: the theorems on the
-- loop of internal/tracer/manager.go over the search of internal/tracer/tracer.go applied to them.
use mathlib.Core.Path.{subst}
use eth_fund_trace.Prelude.{Option, sym, ap, ◌∙◌, inl, str_eq, str_eq_iff, ◌&&◌, ◌==◌}
use eth_fund_trace.Tracer.Branch.{not_synced, failed}
use eth_fund_trace.Tracer.Retrace.{stop_answer}
use eth_fund_trace.Prelude.{ℕ, ◌≡◌, refl, ap, true, false, List, [], ◌∷◌, some, String}
use eth_fund_trace.Prelude.Answers.{Answer, ok, err}
use eth_fund_trace.Ethaddr.{matches_pattern, normalize, resolve}
use eth_fund_trace.Store.Job.{TraceJob}
use eth_fund_trace.Store.Address.{Address, common_coverage}
use eth_fund_trace.Text.{to_lower, equal_fold, trim_space}
use eth_fund_trace.Text.Decimal.{nat_string}
use eth_fund_trace.Tracer.Types.{TraceResult}
use eth_fund_trace.Tracer.Facts.{
  Query, normalize_query, normalize_with, normalize_on, is_query_asset,
}
use eth_fund_trace.Tracer.Identity.{address_covered, is_high_frequency_address}
use eth_fund_trace.Tracer.BranchTests.{receiver}
use eth_fund_trace.Tracer.DependenciesTests.{env, start}
use eth_fund_trace.Tracer.Dependencies.{
  TraceEnv, Tracing, finished, trace_loop, answer_trace, sync_dependency_key, is_attempted,
  on_chain, named,
}
use eth_fund_trace.Tracer.Search.{TraceGraph}
use eth_fund_trace.Tracer.Search.Trace.{seed_is_covered, SearchEnd}
use eth_fund_trace.Tracer.SearchTests.{seed, graph, query, result_of, world_of, ending, trace_finds}
use eth_fund_trace.Tracer.Retrace.{
  request_of, with_terminal_dependencies, end_answer, retrace, with_search,
}
use eth_fund_trace.Tracer.Retrace.Stuck.{missing_seed, retrace_stuck}
use eth_fund_trace.Tracer.Retrace.Ends.{FiniteAddresses, retrace_ends}
use eth_fund_trace.Tracer.Search.Wanted.{SeedCovered}
use eth_fund_trace.Tracer.Dependencies.{Dependency, unsynced, out_of_fuel}
use eth_fund_trace.Tracer.Dependencies.Waits.{wait_sync_returns}
use eth_fund_trace.Tracer.SearchTests.{sender_only, whole_history, sender_only_asks, asks_receiver}
use eth_fund_trace.Prelude.{◌≢◌, Bool, arith}
use eth_fund_trace.Tracer.Branch.{dependency_address_key}
use eth_fund_trace.Prelude.Dict.{lookup, Dict}

abbrev error_text : ℕ → String
error_text e = "error"

abbrev loop_env : TraceEnv ℕ TraceResult
loop_env = with_search graph error_text 4 query env

abbrev seed_job : TraceJob TraceResult
seed_job = record start.job { seed_address = seed; depth = 0 }

abbrev tracing_with : List String → ℕ → (e : TraceEnv ℕ TraceResult) → Tracing e
tracing_with attempted w e = record {
  job = seed_job;
  partial_sync = false;
  attempted = attempted;
  terminal = [];
  repo = w;
}

-- One trace is enough.
loop_ends :
    trace_loop loop_env 1 1 (tracing_with [] 0 loop_env)
    ≡ finished (result_of ending) (tracing_with [] (world_of ending) loop_env)
unfolding trace_loop answer_trace retrace end_answer with_search with_terminal_dependencies
loop_ends =
    ap
      (λ (x : SearchEnd ℕ ℕ).
        let answer = end_answer error_text 0 x in
        answer_trace loop_env 1 (trace_loop loop_env 1 0) answer.0
          (tracing_with [] answer.1 loop_env))
      trace_finds

-- A seed with more transfers than the synchroniser takes.
abbrev limited : Address
limited = record receiver { sync_status = "partial"; sync_error = "record_limit" }

abbrev uncovered_graph : TraceGraph ℕ ℕ
uncovered_graph = record graph {
  existing_data_only = false;
  find_address = λ chain address w. (ok (limited, true), w);
}

abbrev normal_query : Query
normal_query = record query { asset = "ETH" }

abbrev stuck_env : TraceEnv ℕ TraceResult
stuck_env = with_search uncovered_graph error_text 4 (request_of seed_job) env

abbrev tried : List String
tried = sync_dependency_key (missing_seed normal_query seed) ∷ []

normalizes_request : normalize_query (request_of seed_job) ≡ some normal_query
unfolding request_of normalize_query normalize_with normalize_on resolve is_query_asset equal_fold
    to_lower trim_space
normalizes_request = refl

normalizes_seed : normalize normal_query.address ≡ some seed
unfolding normalize matches_pattern to_lower trim_space
normalizes_seed = refl

is_uncovered : seed_is_covered uncovered_graph normal_query seed limited true ≡ false
unfolding seed_is_covered common_coverage is_high_frequency_address address_covered
is_uncovered = refl

was_tried :
    is_attempted stuck_env
      (on_chain stuck_env (missing_seed normal_query seed) (tracing_with tried 0 stuck_env))
      (tracing_with tried 0 stuck_env)
    ≡ true
unfolding is_attempted on_chain named sync_dependency_key to_lower nat_string
was_tried = refl

retrace_stuck_example :
    (u : Tracing stuck_env) × (trace_loop stuck_env 1 1000 (tracing_with tried 0 stuck_env)
      ≡ out_of_fuel u)
    × (lookup
          (dependency_address_key
            (on_chain stuck_env
              (missing_seed normal_query seed)
              (tracing_with tried 0 stuck_env)).chain
            (on_chain stuck_env
              (missing_seed normal_query seed)
              (tracing_with tried 0 stuck_env)).address)
          u.terminal
        ≡ some "missing_data")
retrace_stuck_example =
    retrace_stuck uncovered_graph error_text 4 1 999 seed_job normal_query seed limited env
      (tracing_with tried 0 stuck_env) normalizes_request normalizes_seed refl (λ w. refl)
      is_uncovered refl was_tried

-- A seed whose whole history is there, and a receiver of whom nothing is: the first trace misses
-- the receiver, who is synchronised, the second one misses it again, and the third one has it as
-- final.
abbrev missing_env : TraceEnv ℕ TraceResult
missing_env = with_search sender_only error_text 4 query env

abbrev missed : Dependency
missed = record { chain = "ethereum"; address = "0xcd"; start_block = 7; end_block = 0 }

is_missed :
    (chain address : String) (from to : ℕ)
    → (str_eq chain "ethereum" && (str_eq address "0xcd" && (from == 7 && to == 0))) ≡ true
    → missed ≡ record { chain = chain; address = address; start_block = from; end_block = to }
is_missed chain address from to e =
    let same_chain : chain ≡ "ethereum" = (str_eq_iff chain "ethereum").0 (ground (arith, e)) in
    let same_address : address ≡ "0xcd" = (str_eq_iff address "0xcd").0 (ground (arith, e)) in
    let same_from : from ≡ 7 = ground (arith, e) in let same_to : to ≡ 0 = ground (arith, e) in cc

end_answer-missed :
    (w : ℕ) (x : SearchEnd ℕ ℕ) (d : Dependency)
    → asks_receiver x ≡ true
    → (end_answer error_text w x).0 ≡ unsynced d
    → missed ≡ d
unfolding end_answer stop_answer
end_answer-missed w (SearchEnd.found result v) d asks e = absurd cc
end_answer-missed w SearchEnd.invalid d asks e = absurd cc
end_answer-missed w SearchEnd.out_of_fuel d asks e = absurd cc
end_answer-missed w (SearchEnd.refused (failed message) v) d asks e = absurd cc
end_answer-missed w (SearchEnd.refused (not_synced chain address from to) v) d asks e =
    let same = is_missed chain address from to asks in cc

retrace-missed :
    (d : Dependency) (terminal : Dict String) (w : ℕ)
    → (retrace sender_only error_text 4 query terminal w).0 ≡ unsynced d
    → missed ≡ d
unfolding retrace with_terminal_dependencies
retrace-missed d terminal w e = end_answer-missed w _ d (sender_only_asks terminal w) e

abbrev missed_keys : List String
missed_keys = sync_dependency_key missed ∷ []

abbrev missed_addresses : List String
missed_addresses = dependency_address_key "ethereum" "0xcd" ∷ []

sender_only-FiniteAddresses :
    FiniteAddresses sender_only error_text 4 query missed_keys missed_addresses
sender_only-FiniteAddresses = record {
  known_key =
      λ d terminal w e. inl (sym (ap (λ x. sync_dependency_key x) (retrace-missed d terminal w e)));
  known_address = λ d terminal w e.
      inl
        (sym (ap (λ x. dependency_address_key x.chain x.address) (retrace-missed d terminal w e)));
}

normalizes_query : normalize_query query ≡ some normal_query
unfolding normalize_query normalize_with normalize_on resolve is_query_asset equal_fold to_lower
    trim_space
normalizes_query = refl

abbrev Covered : Query → String → Answer ℕ (Address × Bool) → Type 0
Covered q address (ok (metadata, exists)) =
    seed_is_covered sender_only q address metadata exists ≡ true
Covered q address (err e) = Unit {0}

seed-Covered : (q : Query) → Covered q seed (ok (whole_history, true))
unfolding seed_is_covered common_coverage is_high_frequency_address address_covered
seed-Covered q = refl

is_query : (q : Query) → ◌≡◌ {A = Option Query} (some normal_query) (some q) → normal_query ≡ q
is_query q e = cc

is_seed : (address : String) → ◌≡◌ {A = Option String} (some seed) (some address) → seed ≡ address
is_seed address e = cc

sender_only-SeedCovered : SeedCovered sender_only query
sender_only-SeedCovered q address metadata exists w normal valid e =
    let asked = is_query q (sym normalizes_query ∙ normal) in
    let same =
      is_seed address
        (sym normalizes_seed ∙ ap (λ (x : Query). normalize x.address) asked ∙ valid) in
    subst (Covered q address) e
      (subst (λ a. Covered q a (sender_only.find_address q.chain a w).0) same (seed-Covered q))

retrace_ends_example :
    trace_loop missing_env 1 3 (tracing_with [] 0 missing_env)
    ≢ out_of_fuel (tracing_with [] 0 missing_env)
unfolding with_search
retrace_ends_example =
    retrace_ends sender_only error_text 4 1 3 query env missed_keys missed_addresses
      (tracing_with [] 0 missing_env) (tracing_with [] 0 missing_env)
      (λ id w. wait_sync_returns missing_env 0 1 id w refl (omega arith)) sender_only-SeedCovered
      sender_only-FiniteAddresses (omega arith)
