-- ===== src/Tracer/Dependencies/Ends.antt =====
-- The loop of `process` in internal/tracer/manager.go over missing addresses ends.
use mathlib.Core.Path.{subst}
use eth_fund_trace.Prelude.{
  ◌&&◌, ℕ, zero, suc, ◌+◌, ◌≤◌, ◌<◌, ◌≡◌, ◌≢◌, refl, ap, ◌∙◌, sym, Bool, true, false, not, List,
  Option, none, some, String, str_eq, str_eq_iff, length, any, In, if◌then◌else◌, arith,
}
use eth_fund_trace.Prelude.Dict.{Dict, lookup, lookup-insert, insert}
use eth_fund_trace.Prelude.Answers.{Answer, ok, err}
use eth_fund_trace.Prelude.Count.{count, count-length, count-lt}
use eth_fund_trace.Store.Job.{SyncJob}
use eth_fund_trace.Tracer.Branch.{dependency_address_key, dependency_stop_reason}
use eth_fund_trace.Tracer.Dependencies.{
  Dependency, Traced, traced, unsynced, Waited, synced, canceled, unfinished, TraceEnv, wait_sync,
  sync_dependency_key, Tracing, Ending, finished, failed, left, out_of_fuel, is_attempted, give_up,
  attempt, after_wait, saved_or, then_saved, after_enqueue, synchronise, on_chain, named, depend,
  answer_trace, trace_loop,
}

-- The reason why an address is final, by its key; it is empty for one that is not.
abbrev reason_at : Dict String → String → String
reason_at terminal address = elim (lookup address terminal) [ none ↦ "" | some r ↦ r ]

-- Behind an entry for a key, that key is final.
marked :
    (c : Bool) (old : Option String)
    → str_eq (elim (if c then some "missing_data" else old) [ none ↦ "" | some r ↦ r ]) ""
      ≡ (not c && str_eq (elim old [ none ↦ "" | some r ↦ r ]) "")
marked true old = refl
marked false old = refl

reason_at-insert :
    (key : String) (terminal : Dict String) (x : String)
    → str_eq (reason_at (insert key "missing_data" terminal) x) ""
      ≡ (not (str_eq key x) && str_eq (reason_at terminal x) "")
reason_at-insert key terminal x =
    ap (λ (o : Option String). str_eq (elim o [ none ↦ "" | some r ↦ r ]) "")
      (lookup-insert key x "missing_data" terminal)
    ∙ marked (str_eq key x) (lookup x terminal)

module _ {W R : Type 0} (env : TraceEnv W R) (chain : String) (keys addresses : List String) where
  abbrev is_open : Tracing env → String → Bool
  is_open t key = not (any (str_eq key) t.attempted)

  abbrev is_wanted : Tracing env → String → Bool
  is_wanted t address = str_eq (reason_at t.terminal address) ""

  -- The dependencies that were not tried, and the addresses that are not final.
  abbrev pub remaining : Tracing env → ℕ
  remaining t = count (is_open t) keys + count (is_wanted t) addresses

  pub remaining_bound : (t : Tracing env) → remaining t ≤ length keys + length addresses
  remaining_bound t =
      omega (arith, count-length (is_open t) keys, count-length (is_wanted t) addresses)

  -- A trace misses addresses of a finite set only, and none that is final. `chain` stands for an
  -- empty name of a chain.
  pub record Finite : Type 0 where
    pub known_key :
        (d : Dependency) (terminal : Dict String) (w : W)
        → (env.trace terminal w).0 ≡ unsynced d
        → In (sync_dependency_key (named chain d)) keys
    pub known_address :
        (d : Dependency) (terminal : Dict String) (w : W)
        → (env.trace terminal w).0 ≡ unsynced d
        → In (dependency_address_key (named chain d).chain d.address) addresses
    pub not_final :
        (d : Dependency) (terminal : Dict String) (w : W)
        → (env.trace terminal w).0 ≡ unsynced d
        → dependency_stop_reason terminal (named chain d).chain d.address ≡ ""

  attempt_fewer :
      (d : Dependency) (t : Tracing env)
      → In (sync_dependency_key d) keys
      → is_attempted env d t ≡ false
      → remaining (attempt env d t) < remaining t
  unfolding attempt is_attempted
  attempt_fewer d t m fresh =
      let key = sync_dependency_key d in
      let less =
        count-lt (is_open t) (is_open (attempt env d t)) (λ x e. ground (arith, e)) key keys m
          (ground (arith, fresh)) (ground (arith, str_eq_iff key key)) in
      omega (arith, less)

  give_up_fewer :
      (d : Dependency) (t : Tracing env)
      → In (dependency_address_key d.chain d.address) addresses
      → dependency_stop_reason t.terminal d.chain d.address ≡ ""
      → remaining (give_up env d t) < remaining t
  unfolding give_up dependency_stop_reason
  give_up_fewer d t m absent =
      let a = dependency_address_key d.chain d.address in
      let written = λ (x : String). reason_at-insert a t.terminal x in
      let less =
        count-lt (is_wanted t) (is_wanted (give_up env d t)) (λ x e. ground (arith, e, written x)) a
          addresses m ((str_eq_iff (reason_at t.terminal a) "").1 absent)
          (ground (arith, written a, str_eq_iff a a)) in
      omega (arith, less)

  abbrev Ended : Ending env → Type 0
  Ended (finished result t) = Unit {0}
  Ended (failed message t) = Unit {0}
  Ended (left t) = Unit {0}
  Ended (out_of_fuel t) = ⊥

  choose-Ended :
      (c : Bool) (x y : Ending env)
      → (c ≡ true → Ended x)
      → (c ≡ false → Ended y)
      → Ended (if c then x else y)
  choose-Ended true x y yes_case no_case = yes_case refl
  choose-Ended false x y yes_case no_case = no_case refl

  saved_or-Ended :
      (error : Option String) (next : Tracing env → Ending env) (t : Tracing env)
      → Ended (next t)
      → Ended (saved_or env error next t)
  unfolding saved_or
  saved_or-Ended none next t h = h
  saved_or-Ended (some e) next t h = tt

  module _ (looks : ℕ) (waits : (id : String) (w : W) → (wait_sync env looks id w).0 ≢ unfinished)
      (again : Tracing env → Ending env) (n : ℕ)
      (ends : (t : Tracing env) → t.job.chain ≡ chain → remaining t < n → Ended (again t)) where
    after_wait-Ended :
        (x : Waited × W) (t : Tracing env)
        → x.0 ≢ unfinished
        → t.job.chain ≡ chain
        → remaining t < n
        → Ended (after_wait env again x t)
    unfolding after_wait
    after_wait-Ended (synced current, w) t h same lt = ends _ same lt
    after_wait-Ended (canceled, w) t h same lt = tt
    after_wait-Ended (unfinished, w) t h same lt = absurd (h refl)
    after_wait-Ended (Waited.broken e, w) t h same lt = tt

    after_enqueue-Ended :
        (found : Answer String SyncJob) (t : Tracing env)
        → t.job.chain ≡ chain
        → remaining t < n
        → Ended (after_enqueue env looks again found t)
    unfolding after_enqueue then_saved
    after_enqueue-Ended (err e) t same lt = tt
    after_enqueue-Ended (ok current) t same lt =
        saved_or-Ended _ _ _ (after_wait-Ended _ _ (waits current.id _) same lt)

    depend-Ended :
        (d : Dependency) (t : Tracing env)
        → t.job.chain ≡ chain
        → remaining t ≤ n
        → In (sync_dependency_key d) keys
        → In (dependency_address_key d.chain d.address) addresses
        → dependency_stop_reason t.terminal d.chain d.address ≡ ""
        → Ended (depend env looks again d t)
    unfolding depend then_saved synchronise
    depend-Ended d t same le key_in address_in absent =
        choose-Ended (is_attempted env d t) _ _
          (λ met. ends _ same (omega (arith, le, give_up_fewer d t address_in absent)))
          (λ fresh.
            saved_or-Ended _ _ _
              (after_enqueue-Ended _ _ same (omega (arith, le, attempt_fewer d t key_in fresh))))

    answer_trace-Ended :
        (finite : Finite) (w : W) (answer : Traced R) (t : Tracing env)
        → (env.trace t.terminal w).0 ≡ answer
        → t.job.chain ≡ chain
        → remaining t ≤ n
        → Ended (answer_trace env looks again answer t)
    unfolding answer_trace on_chain named
    answer_trace-Ended finite w (traced result) t e same le = tt
    answer_trace-Ended finite w (Traced.broken message) t e same le = tt
    answer_trace-Ended finite w (unsynced d) t e same le =
        choose-Ended (env.has_sync_jobs && not (str_eq d.address "")) _ _
          (λ asked.
            subst (λ c. Ended (depend env looks again (named c d) t)) (sym same)
              (depend-Ended (named chain d) t same le (finite.known_key d t.terminal w e)
                (finite.known_address d t.terminal w e) (finite.not_final d t.terminal w e)))
          (λ other. tt)

  trace_loop-Ended :
      (looks : ℕ) (waits : (id : String) (w : W) → (wait_sync env looks id w).0 ≢ unfinished)
      (finite : Finite) (traces : ℕ) (t : Tracing env)
      → t.job.chain ≡ chain
      → remaining t < traces
      → Ended (trace_loop env looks traces t)
  unfolding trace_loop
  trace_loop-Ended looks waits finite zero t same lt = absurd (omega arith)
  trace_loop-Ended looks waits finite (suc traces) t same lt =
      answer_trace-Ended looks waits (trace_loop env looks traces) traces
        (λ t' same' lt'. trace_loop-Ended looks waits finite traces t' same' lt') finite t.repo _
        (record t { repo = (env.trace t.terminal t.repo).1 }) refl same (omega arith)

-- When waiting for the synchroniser always comes to an end, and the trace misses only addresses of
-- a finite set and none that was made final: the loop ends, with a result, an error or a cancelled
-- context, after at most one trace for each dependency, one for each address, and one more.
pub trace_loop_ends :
    {W R : Type 0} (env : TraceEnv W R) (keys addresses : List String) (looks traces : ℕ)
    (t u : Tracing env)
    → ((id : String) (w : W) → (wait_sync env looks id w).0 ≢ unfinished)
    → Finite env t.job.chain keys addresses
    → remaining env t.job.chain keys addresses t < traces
    → trace_loop env looks traces t ≢ out_of_fuel u
trace_loop_ends env keys addresses looks traces t u waits finite lt e =
    subst (Ended env t.job.chain keys addresses) e
      (trace_loop-Ended env t.job.chain keys addresses looks waits finite traces t refl lt)
