-- ===== src/Syncer/Queue/Active.antt =====
-- The active keys of internal/syncer/manager.go are those of the jobs in the queue and in work.
use mathlib.Core.Path.{subst}
use eth_fund_trace.Prelude.{
  ℕ, ◌≤◌, ◌≡◌, refl, sym, ap, ◌∙◌, Bool, true, false, List, [], ◌∷◌, ◌++◌, Option, none, some,
  String, str_eq, str_eq_iff, ltb, ltb→lt, length, length-snoc, ◌<◌, if◌then◌else◌, arith,
}
use eth_fund_trace.Prelude.Int.{ℤ}
use eth_fund_trace.Prelude.Dict.{Dict, lookup, insert, erase}
use eth_fund_trace.Store.Job.{SyncJob}
use eth_fund_trace.Ethaddr.{Chain}
use eth_fund_trace.Syncer.State.{SyncError}
use eth_fund_trace.Syncer.Address.{Request}
use eth_fund_trace.Syncer.Address.World.{Answer, ok, err}
use eth_fund_trace.Syncer.Queue.{
  QueueConfig, QueueEnv, Queued, Manager, key_of, release, refuse, send, after_create,
  after_checkpoints, found_job, enqueue_at, enqueue_checked, enqueue, check_request, Step, enqueued,
  taken, changed, released, Reachable, here, step,
}

-- No key stands twice.
abbrev pub Apart : Dict String → Type 0
Apart [] = Unit {0}
Apart ((key, value) ∷ entries) = (lookup key entries ≡ none) × Apart entries

pub insert-absent :
    (key : String) (value : String) (entries : Dict String)
    → lookup key entries ≡ none
    → insert key value entries ≡ entries ++ (key, value) ∷ []
unfolding lookup insert
insert-absent key value [] h = refl
insert-absent key value ((other, old) ∷ entries) h =
    let behind = insert-absent key value entries in ground (arith, behind)

erase-absent :
    (key : String) (entries : Dict String) → lookup key entries ≡ none → erase key entries ≡ entries
unfolding lookup erase
erase-absent key [] h = refl
erase-absent key ((other, old) ∷ entries) h =
    let behind = erase-absent key entries in ground (arith, behind)

erase-first :
    (key value : String) (entries : Dict String)
    → lookup key entries ≡ none
    → erase key ((key, value) ∷ entries) ≡ entries
unfolding erase
erase-first key value entries h = ground (arith, str_eq_iff key key, erase-absent key entries h)

pub erase-snoc :
    (key : String) (value : String) (entries : Dict String)
    → lookup key entries ≡ none
    → erase key (entries ++ (key, value) ∷ []) ≡ entries
unfolding lookup erase
erase-snoc key value [] h = ground (arith, str_eq_iff key key)
erase-snoc key value ((other, old) ∷ entries) h =
    let behind = erase-snoc key value entries in ground (arith, behind)

lookup-snoc :
    (key read : String) (value : String) (entries : Dict String)
    → lookup read entries ≡ none
    → str_eq key read ≡ false
    → lookup read (entries ++ (key, value) ∷ []) ≡ none
unfolding lookup
lookup-snoc key read value [] h differs = ground arith
lookup-snoc key read value ((other, old) ∷ entries) h differs =
    let behind = lookup-snoc key read value entries in ground (arith, behind)

lookup_behind :
    (read key value : String) (entries : Dict String)
    → lookup read ((key, value) ∷ entries) ≡ none
    → (str_eq key read ≡ false) × (lookup read entries ≡ none)
unfolding lookup
lookup_behind read key value entries h = ground arith

snoc-Apart :
    (key value : String) (entries : Dict String)
    → Apart entries
    → lookup key entries ≡ none
    → Apart (entries ++ (key, value) ∷ [])
unfolding lookup
snoc-Apart key value [] apart h = (refl, tt)
snoc-Apart key value ((other, old) ∷ entries) (absent, apart) h =
    let (differs, behind) = lookup_behind key other old entries h in
    (
      lookup-snoc key other value entries absent
          (ground (arith, differs, str_eq_iff key other, str_eq_iff other key)),
      snoc-Apart key value entries apart behind,
    )

-- The key and the id of a job.
abbrev pub entries_of : List Queued → Dict String
entries_of [] = []
entries_of ((id, request) ∷ jobs) = (key_of request, id) ∷ entries_of jobs

entries_of-snoc :
    (jobs : List Queued) (id : String) (request : Request)
    → entries_of (jobs ++ (id, request) ∷ []) ≡ entries_of jobs ++ (key_of request, id) ∷ []
entries_of-snoc [] id request = refl
entries_of-snoc ((other, wanted) ∷ jobs) id request =
    ap (λ rest. (key_of wanted, other) ∷ rest) (entries_of-snoc jobs id request)

-- The job in work and those in the queue.
abbrev pub pending_of : Option Queued → List Queued → List Queued
pending_of none queue = queue
pending_of (some q) queue = q ∷ queue

pending_of-snoc :
    (working : Option Queued) (queue : List Queued) (q : Queued)
    → pending_of working (queue ++ q ∷ []) ≡ pending_of working queue ++ q ∷ []
pending_of-snoc none queue q = refl
pending_of-snoc (some first) queue q = refl

-- The active keys are exactly those of the pending jobs, each once and with its id, and the queue is
-- within its size.
abbrev pub Sound : {W : Type 0} → ℕ → Manager W → Type 0
Sound size m =
    (m.active ≡ entries_of (pending_of m.working m.queue))
    × Apart m.active
    × (length m.queue ≤ size)

module _ {W : Type 0} (env : QueueEnv W) (config : QueueConfig) where
  abbrev Good : Manager W → Type 0
  Good m = Sound config.queue_size m

  choose-Good :
      {A : Type 0} (c : Bool) (x y : A × Manager W)
      → (c ≡ true → Good x.1)
      → (c ≡ false → Good y.1)
      → Good (if c then x else y).1
  choose-Good true x y yes_case no_case = yes_case refl
  choose-Good false x y yes_case no_case = no_case refl

  pushed-Sound :
      (request : Request) (id : String) (m : Manager W)
      → lookup (key_of request) m.active ≡ none
      → length m.queue < config.queue_size
      → Good m
      → Good (record m {
        active = insert (key_of request) id m.active;
        queue = m.queue ++ (id, request) ∷ [];
      })
  pushed-Sound request id m absent room (same, apart, fits) =
      let inserted = insert-absent (key_of request) id m.active absent in
      let behind = entries_of-snoc (pending_of m.working m.queue) id request in
      (
        inserted
            ∙ ap (λ d. d ++ (key_of request, id) ∷ []) same
            ∙ sym behind
            ∙ ap entries_of (sym (pending_of-snoc m.working m.queue (id, request))),
        subst Apart (sym inserted) (snoc-Apart (key_of request) id m.active apart absent),
        omega (arith, length-snoc m.queue (id, request)),
      )

  refused-Sound :
      (request : Request) (id : String) (m : Manager W)
      → lookup (key_of request) m.active ≡ none
      → Good m
      → Good (record m { active = erase (key_of request) (insert (key_of request) id m.active) })
  refused-Sound request id m absent (same, apart, fits) =
      let back =
        ap (erase (key_of request)) (insert-absent (key_of request) id m.active absent)
        ∙ erase-snoc (key_of request) id m.active absent in
      (back ∙ same, subst Apart (sym back) apart, fits)

  send-Sound :
      (request : Request) (job : SyncJob) (m : Manager W)
      → lookup (key_of request) m.active ≡ none
      → Good m
      → Good
          (send env config request job
            (record m { active = insert (key_of request) job.id m.active })).1
  unfolding send refuse release
  send-Sound request job m absent good =
      choose-Good (ltb (length m.queue) config.queue_size) _ _
        (λ room. pushed-Sound request job.id m absent (ltb→lt _ _ room) good)
        (λ full. refused-Sound request job.id m absent good)

  after_create-Sound :
      (request : Request) (job : SyncJob) (error : Option SyncError) (m : Manager W)
      → lookup (key_of request) m.active ≡ none
      → Good m
      → Good (after_create env config request job error m).1
  unfolding after_create
  after_create-Sound request job (some e) m absent good = good
  after_create-Sound request job none m absent good = send-Sound request job m absent good

  after_checkpoints-Sound :
      (chain : Chain) (request : Request) (id : String) (now : ℕ)
      (found : Answer SyncError (Dict ℤ)) (m : Manager W)
      → lookup (key_of request) m.active ≡ none
      → Good m
      → Good (after_checkpoints env config chain request id now found m).1
  unfolding after_checkpoints
  after_checkpoints-Sound chain request id now (err e) m absent good = good
  after_checkpoints-Sound chain request id now (ok checkpoints) m absent good =
      after_create-Sound request _ _ _ absent good

  found_job-Sound :
      (found : Answer SyncError SyncJob) (m : Manager W)
      → Good m
      → Good (found_job env config found m).1
  unfolding found_job
  found_job-Sound (ok job) m good = good
  found_job-Sound (err e) m good = good

  enqueue_at-Sound :
      (chain : Chain) (request : Request) (found : Option String) (m : Manager W)
      → lookup (key_of request) m.active ≡ found
      → Good m
      → Good (enqueue_at env config chain request found m).1
  unfolding enqueue_at
  enqueue_at-Sound chain request (some id) m e good = found_job-Sound _ (record m { repo = _ }) good
  enqueue_at-Sound chain request none m e good =
      after_checkpoints-Sound chain request _ _ _ _ e good

  enqueue_checked-Sound :
      (checked : Option (Chain × Request)) (m : Manager W)
      → Good m
      → Good (enqueue_checked env config checked m).1
  unfolding enqueue_checked
  enqueue_checked-Sound none m good = good
  enqueue_checked-Sound (some (chain, request)) m good =
      enqueue_at-Sound chain request (lookup (key_of request) m.active) m refl good

  released-Sound :
      (q : Queued) (m : Manager W)
      → m.working ≡ some q
      → Good m
      → Good (record (release env config q.1 m) { working = none })
  unfolding release
  released-Sound (id, request) m e (same, apart, fits) =
      let here_first = same ∙ ap (λ working. entries_of (pending_of working m.queue)) e in
      let (absent, rest) = subst Apart here_first apart in
      let gone =
        ap (erase (key_of request)) here_first
        ∙ erase-first (key_of request) id (entries_of m.queue) absent in
      (gone, subst Apart (sym gone) rest, fits)

  taken-Sound :
      (q : Queued) (qs : List Queued) (m : Manager W)
      → m.queue ≡ q ∷ qs
      → m.working ≡ none
      → Good m
      → Good (record m { queue = qs; working = some q })
  taken-Sound q qs m e idle (same, apart, fits) = (
    same ∙ ap (λ working. entries_of (pending_of working m.queue)) idle ∙ ap entries_of e,
    apart,
    omega (arith, ap length e),
  )

  Step-Sound : {m n : Manager W} → Step env config m n → Good m → Good n
  unfolding enqueue
  Step-Sound (enqueued wanted m) good = enqueue_checked-Sound (check_request config wanted) m good
  Step-Sound (taken q qs m e idle) good = taken-Sound q qs m e idle good
  Step-Sound (changed w m) good = good
  Step-Sound (released q m e) good = released-Sound q m e good

-- From a manager with no job, every sequence of steps (requests of callers, jobs taken and released by
-- the worker, changes of the database) leads to a state in which the active keys are exactly those
-- of the job in work and of the jobs in the queue, in their order and with their ids, no address
-- twice, and the queue is within its size: no key is lost, and none stays behind its job.
pub Reachable-Sound :
    {W : Type 0} (env : QueueEnv W) (config : QueueConfig) (m n : Manager W)
    → m.active ≡ []
    → m.queue ≡ []
    → m.working ≡ none
    → Reachable env config m n
    → Sound config.queue_size n
Reachable-Sound env config m n no_key no_job idle here = (
  no_key ∙ ap entries_of (sym (ap (λ working. pending_of working m.queue) idle ∙ no_job)),
  subst Apart (sym no_key) tt,
  omega (arith, ap length no_job),
)
Reachable-Sound env config m n no_key no_job idle (step reached s) =
    Step-Sound env config s (Reachable-Sound env config m _ no_key no_job idle reached)
