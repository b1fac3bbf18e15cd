-- ===== src/Tracer/Search/Whole.antt =====
-- What `Trace` of internal/tracer/tracer.go gives, followed from the seed to the result.
use mathlib.Core.Path.{subst}
use eth_fund_trace.Prelude.{
  ℕ, ◌+◌, ◌≤◌, ◌<◌, ◌≡◌, ◌≢◌, refl, ◌∙◌, Bool, true, false, List, [], ◌∷◌, Option, none, some,
  String, length, All, arith,
}
use eth_fund_trace.Prelude.Count.{count, count-length}
use eth_fund_trace.Prelude.Dict.{Dict}
use eth_fund_trace.Store.Address.{Address, AddressIdentity}
use eth_fund_trace.Store.Label.{Label}
use eth_fund_trace.Store.Transfer.{CounterpartySummary}
use eth_fund_trace.Tracer.Types.{Node, BranchState, TraceResult, ConversionAggregate}
use eth_fund_trace.Tracer.Facts.{Query, normalize_query}
use eth_fund_trace.Tracer.Search.{
  max_trace_nodes, TraceGraph, Search, Run, goes, stops, has_key, set_data_status, set_nodes,
}
use eth_fund_trace.Tracer.Search.Rounds.{Walk, walked, halted}
use eth_fund_trace.Tracer.Search.Trace.{
  close_frontier, end_frontier, sum_up, SearchEnd, found, refused, invalid, out_of_fuel, seed_node,
  plant, identify_seed, plant_covered, blank, prepare, finish_trace, trace_prepared, trace_from,
  trace_normal, trace_same_chain, with_blocks, trace_query,
}
use eth_fund_trace.Tracer.Search.Touched.{is_native, native, native-set_node_terminal}
use eth_fund_trace.Tracer.Search.Calls.{
  Rule, Holds, read_from-Holds, read_from-Answered, write_to-Holds,
}
use eth_fund_trace.Tracer.Search.Grown.{leads_to, room, is_new}
use eth_fund_trace.Tracer.Search.Following.{Known}
use eth_fund_trace.Tracer.Search.Walking.{FiniteBranches, AllGroups}
use eth_fund_trace.Tracer.Search.Ends.{Sound, Ended, walk-Ended}
use eth_fund_trace.Tracer.Search.Seeds.{seed_once, length-seed_branches}
use eth_fund_trace.Tracer.Search.Wanted.{
  chain_of, seed_of, SeedCovered, Wanted, wanted_rule, wanted_rule-Wants,
}
use eth_fund_trace.Tracer.Branch.{not_synced, dependency_stop_reason}
use eth_fund_trace.Prelude.{◌⊎◌, inl, ap}
use eth_fund_trace.Ethaddr

native-end_frontier :
    (states : List BranchState) (nodes : List Node)
    → native (end_frontier states nodes) ≡ native nodes
unfolding end_frontier
native-end_frontier [] nodes = refl
native-end_frontier (state ∷ states) nodes =
    native-end_frontier states _ ∙ native-set_node_terminal nodes state.address "node_limit"

-- What is claimed of a result.
abbrev pub WithinLimit : TraceResult → Type 0
WithinLimit result = native result.nodes ≤ max_trace_nodes

abbrev pub Unrepeated : TraceResult → Type 0
Unrepeated result = (key : String) → count (leads_to key) result.branch_states ≤ 1

Bool-differ : false ≡ true → ⊥
Bool-differ e = cc

room-le : (b : Bool) → room b ≤ 1
room-le true = omega arith
room-le false = omega arith

close_frontier-Claims :
    (frontier : List BranchState) (result : TraceResult)
    → WithinLimit result
    → Unrepeated result
    → WithinLimit (close_frontier frontier result) × Unrepeated (close_frontier frontier result)
unfolding close_frontier set_nodes set_data_status
close_frontier-Claims [] result within once = (within, once)
close_frontier-Claims (state ∷ states) result within once =
    (omega (arith, within, native-end_frontier (state ∷ states) result.nodes), once)

module _ {W E : Type 0} (g : TraceGraph W E) (fuel : ℕ) (Counted : Type 0) (keys : List String)
    (enough : Counted → length keys + 2 < fuel) (query : Query) where
  abbrev rule : Rule E
  rule = wanted_rule g query

  abbrev Claims : SearchEnd W E → Type 0
  Claims (found result w) = WithinLimit result × Unrepeated result
  Claims (refused reason w) = Wanted g query reason
  Claims invalid = Unit {0}
  Claims out_of_fuel = Counted → ⊥

  module _ (q : Query) (seed : String) (normal : normalize_query query ≡ some q)
      (valid : Ethaddr.normalize q.address ≡ some seed)
      (finite : FiniteBranches g q.chain Counted keys) where
    named : chain_of query ≡ some q.chain
    named = ap (λ (x : Option Query). elim x [ none ↦ none | some q' ↦ some q'.chain ]) normal

    is_seed : seed_of query ≡ some seed
    is_seed =
        ap (λ (x : Option Query). elim x [ none ↦ none | some q' ↦ Ethaddr.normalize q'.address ])
          normal
        ∙ valid

    abbrev Planted : Search W → Type 0
    Planted s = Sound s × (length s.next ≤ 2)

    plant-Planted :
        (metadata : Address) (labels : List Label) (identity : AddressIdentity) (s : Search W)
        → Planted (plant g q seed metadata labels identity s)
    unfolding plant
    plant-Planted metadata labels identity s = (
      record {
        bounded = (
          count-length is_native (seed_node g q seed metadata labels identity ∷ []),
          omega arith,
        );
        once = λ key. seed_once seed identity q.direction key;
      },
      length-seed_branches seed identity q.direction,
    )

    identify_seed-Planted :
        (known : Option AddressIdentity) (metadata : Address) (labels : List Label) (s : Search W)
        → Holds rule Planted (
            identify_seed g q seed known metadata s
              (λ identity t. goes (plant g q seed metadata labels identity t)))
    unfolding identify_seed
    identify_seed-Planted none metadata labels s = plant-Planted metadata labels _ s
    identify_seed-Planted (some identity) metadata labels s =
        write_to-Holds rule Planted s _ s _ (refl, refl, refl, (refl, refl))
          (λ t touched. plant-Planted metadata labels identity t)

    plant_covered-Planted :
        (covered : Bool) (metadata : Address) (s : Search W)
        → (SeedCovered g query → covered ≡ true)
        → Holds rule Planted (plant_covered g q seed covered metadata s)
    unfolding plant_covered
    plant_covered-Planted false metadata s always =
        (named, inl (is_seed, λ covered. absurd (Bool-differ (always covered))))
    plant_covered-Planted true metadata s always =
        read_from-Holds rule Planted s _ s _ (refl, refl, refl, (refl, refl))
          (λ labels t touched. identify_seed-Planted _ metadata labels t)

    prepare-Planted : (w : W) → Holds rule Planted (prepare g q seed w)
    unfolding prepare blank
    prepare-Planted w =
        read_from-Answered rule Planted (blank g q seed w) _ _ _ (refl, refl, refl, (refl, refl))
          (λ found t answer touched.
            plant_covered-Planted _ found.0 t
              (λ covered. covered q seed found.0 found.1 w normal valid answer))

    finish_trace-Claims :
        (labels : List Label) (through : ℕ) (x : Walk W E)
        → Ended rule g q.chain through Counted keys
            (wanted_rule-Wants g query q.chain through named)
            finite
            x
        → Claims (finish_trace g q seed labels x)
    unfolding finish_trace sum_up
    finish_trace-Claims labels through (walked frontier s) sound =
        close_frontier-Claims frontier s.result (omega (arith, sound.bounded.0, sound.bounded.1))
          (λ key. omega (arith, sound.once key, room-le (has_key key s.visited_states)))
    finish_trace-Claims labels through (halted reason w) ended = ended
    finish_trace-Claims labels through Walk.out_of_fuel ended = ended

    trace_prepared-Claims :
        (x : Run W E (Search W)) → Holds rule Planted x → Claims (trace_prepared g q seed fuel x)
    unfolding trace_prepared
    trace_prepared-Claims (stops reason w) h = h
    trace_prepared-Claims (goes s) (sound, few) =
        finish_trace-Claims _ s.result.data_through_block _ (
          walk-Ended rule g q.chain _ Counted keys (wanted_rule-Wants g query q.chain _ named)
            finite fuel 0 s.next s sound
            (λ c. omega (arith, enough c, few, count-length (is_new s.visited_states) keys)))

  trace_from-Claims :
      (q : Query) (seed : Option String) (w : W)
      → normalize_query query ≡ some q
      → Ethaddr.normalize q.address ≡ seed
      → FiniteBranches g q.chain Counted keys
      → Claims (trace_from g fuel q seed w)
  unfolding trace_from
  trace_from-Claims q none w normal valid finite = tt
  trace_from-Claims q (some seed) w normal valid finite =
      trace_prepared-Claims q seed normal valid finite _
        (prepare-Planted q seed normal valid finite w)

  trace_normal-Claims :
      (q : Option Query) (w : W)
      → normalize_query query ≡ q
      → ((normal : Query) → q ≡ some normal → FiniteBranches g normal.chain Counted keys)
      → Claims (trace_normal g fuel q w)
  unfolding trace_normal
  trace_normal-Claims none w normal finite = tt
  trace_normal-Claims (some q) w normal finite = trace_from-Claims q _ w normal refl (finite q refl)

  with_blocks-Claims : (x : SearchEnd W E) → Claims x → Claims (with_blocks g fuel x)
  unfolding with_blocks
  with_blocks-Claims (found result w) h = h
  with_blocks-Claims (refused reason w) h = h
  with_blocks-Claims invalid h = tt
  with_blocks-Claims out_of_fuel h = h

  trace_query-Claims :
      (w : W)
      → ((normal : Query)
          → normalize_query query ≡ some normal
          → FiniteBranches g normal.chain Counted keys)
      → Claims (trace_query g fuel query w)
  unfolding trace_query trace_same_chain
  trace_query-Claims w finite = with_blocks-Claims _ (trace_normal-Claims _ w refl finite)

Known-nothing :
    (chain direction : String) (summaries : List CounterpartySummary)
    → All (Known chain direction ⊥ []) summaries
Known-nothing chain direction [] = tt
Known-nothing chain direction (summary ∷ summaries) =
    (λ canonical offered counted. absurd counted, Known-nothing chain direction summaries)

AllGroups-nothing :
    (chain direction : String) (groups : Dict (List ConversionAggregate))
    → AllGroups (Known chain direction ⊥ []) groups
AllGroups-nothing chain direction [] = tt
AllGroups-nothing chain direction ((asset, aggregates) ∷ groups) =
    (Known-nothing chain direction _, AllGroups-nothing chain direction groups)

uncounted-FiniteBranches :
    {W E : Type 0} (g : TraceGraph W E) (chain : String) → FiniteBranches g chain ⊥ []
uncounted-FiniteBranches g chain = record {
  transfers_known = λ state transfers w answer. Known-nothing chain state.direction _;
  conversions_known =
      λ state analysis conversion w answer converted. AllGroups-nothing chain state.direction _;
}

found-Claims :
    {W E : Type 0} (g : TraceGraph W E) (fuel : ℕ) (query : Query) (w v : W) (result : TraceResult)
    → trace_query g fuel query w ≡ found result v
    → WithinLimit result × Unrepeated result
found-Claims g fuel query w v result e =
    subst (Claims g fuel ⊥ [] (λ counted. absurd counted) query) e (
      trace_query-Claims g fuel ⊥ [] (λ counted. absurd counted) query w
        (λ normal same. uncounted-FiniteBranches g normal.chain))

-- A trace that gives a result has at most 5000 nodes besides those of Bitcoin, whatever the
-- repository, the inspector, the analyzer and the verifiers answer.
pub trace_limit :
    {W E : Type 0} (g : TraceGraph W E) (fuel : ℕ) (query : Query) (w v : W) (result : TraceResult)
    → trace_query g fuel query w ≡ found result v
    → native result.nodes ≤ max_trace_nodes
trace_limit g fuel query w v result e = (found-Claims g fuel query w v result e).0

-- A trace that gives a result has entered no branch twice: at most one of its branches has any
-- given key, of address, direction, asset, block and transaction.
pub trace_enters_once :
    {W E : Type 0} (g : TraceGraph W E) (fuel : ℕ) (query : Query) (w v : W) (result : TraceResult)
    (key : String)
    → trace_query g fuel query w ≡ found result v
    → count (leads_to key) result.branch_states ≤ 1
trace_enters_once g fuel query w v result key e = (found-Claims g fuel query w v result e).1 key

-- When all that the transfers of the repository and the conversions of the analyzer lead to has a
-- finite number of branch keys, the trace ends, with a result or an error: with fuel for three more
-- rounds than there are keys it never runs out of it.
pub trace_ends :
    {W E : Type 0} (g : TraceGraph W E) (fuel : ℕ) (query : Query) (w : W) (keys : List String)
    → ((normal : Query)
        → normalize_query query ≡ some normal
        → FiniteBranches g normal.chain (Unit {0}) keys)
    → length keys + 2 < fuel
    → trace_query g fuel query w ≢ out_of_fuel
trace_ends g fuel query w keys finite enough e =
    subst (Claims g fuel (Unit {0}) keys (λ c. enough) query) e
      (trace_query-Claims g fuel (Unit {0}) keys (λ c. enough) query w finite) tt

-- A trace that ends because an address is not synchronised names the chain of its query, and either
-- its seed, which the repository does not always find covered, or an address that the loop around
-- the trace has not made final.
pub trace_wants :
    {W E : Type 0} (g : TraceGraph W E) (fuel : ℕ) (query : Query) (w v : W)
    (chain address : String) (from to : ℕ)
    → trace_query g fuel query w ≡ refused (not_synced chain address from to) v
    → (chain_of query ≡ some chain)
      × ((seed_of query ≡ some address) × (¬ SeedCovered g query)
          ⊎ (dependency_stop_reason g.terminal_dependencies chain address ≡ ""))
trace_wants g fuel query w v chain address from to e =
    subst (Claims g fuel ⊥ [] (λ counted. absurd counted) query) e (
      trace_query-Claims g fuel ⊥ [] (λ counted. absurd counted) query w
        (λ normal same. uncounted-FiniteBranches g normal.chain))
