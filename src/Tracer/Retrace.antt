-- ===== src/Tracer/Retrace.antt =====
-- The trace that the loop of `process` in internal/tracer/manager.go runs again: `Trace` of
-- internal/tracer/tracer.go over the dependencies that are final.
pub mod Stuck
pub mod Ends
use eth_fund_trace.Prelude.{
  ℕ, zero, suc, ◌≡◌, refl, ap, sym, ◌∙◌, Bool, true, false, ◌&&◌, ◌||◌, not, List, Option, none,
  some, String, str_eq, if◌then◌else◌, arith,
}
use eth_fund_trace.Prelude.Int.{pos}
use eth_fund_trace.Prelude.Dict.{Dict}
use eth_fund_trace.Prelude.Answers.{Answer, ok, err}
use eth_fund_trace.Ethaddr
use eth_fund_trace.Store.Address.{Address}
use eth_fund_trace.Store.Job.{TraceJob}
use eth_fund_trace.Tracer.Types.{TraceResult}
use eth_fund_trace.Tracer.Branch.{Stop, not_synced, failed}
use eth_fund_trace.Tracer.Dependencies.{
  Dependency, Traced, traced, unsynced, TraceEnv, Tracing, Ending, out_of_fuel, is_attempted,
  give_up, depend, on_chain, named, answer_trace, trace_loop,
}
use eth_fund_trace.Tracer.Facts.{Query, normalize_query}
use eth_fund_trace.Tracer.Search.{TraceGraph, Search, Run, goes, stops, read_from, answered}
use eth_fund_trace.Tracer.Search.Trace.{
  SearchEnd, found, refused, invalid, seed_is_covered, plant_covered, prepare, trace_prepared,
  trace_from, trace_normal, trace_same_chain, with_blocks, trace_query, blank,
}

-- The query of a job.
unfoldable pub request_of : {R : Type 0} → TraceJob R → Query
request_of job = record {
  chain = job.chain;
  address = job.seed_address;
  direction = job.direction;
  asset = job.asset;
  depth = pos job.depth;
}

unfoldable pub with_terminal_dependencies :
    {W E : Type 0} → Dict String → TraceGraph W E → TraceGraph W E
with_terminal_dependencies dependencies g = record g { terminal_dependencies = dependencies }

-- `errors.As(traceErr, &unsynced)`
unfoldable pub stop_answer : {E : Type 0} → (E → String) → Stop E → Traced TraceResult
stop_answer error_text (not_synced chain address from to) =
    unsynced (record { chain = chain; address = address; start_block = from; end_block = to })
stop_answer error_text (failed e) = Traced.broken (error_text e)

-- A query that is invalid reaches no repository. Fuel that ran out is an error of its own.
unfoldable pub end_answer :
    {W E : Type 0} → (E → String) → W → SearchEnd W E → Traced TraceResult × W
end_answer error_text w (found result v) = (traced result, v)
end_answer error_text w (refused reason v) = (stop_answer error_text reason, v)
end_answer error_text w invalid = (Traced.broken "invalid trace query", w)
end_answer error_text w SearchEnd.out_of_fuel = (Traced.broken "out of fuel", w)

module _ {W E : Type 0} (g : TraceGraph W E) (error_text : E → String) (fuel : ℕ)
    (query : Query) where
  unfoldable pub retrace : Dict String → W → Traced TraceResult × W
  retrace dependencies w =
      end_answer error_text w (trace_query (with_terminal_dependencies dependencies g) fuel query w)

  -- The environment of the loop, whose trace is the search itself.
  unfoldable pub with_search : TraceEnv W TraceResult → TraceEnv W TraceResult
  with_search env = record env { trace = retrace }
