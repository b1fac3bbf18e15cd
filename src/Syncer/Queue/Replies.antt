-- ===== src/Syncer/Queue/Replies.antt =====
-- What `Enqueue` of internal/syncer/manager.go answers, and what it does to the queue.
use mathlib.Core.Path.{subst}
use eth_fund_trace.Prelude.{
  sym, ℕ, ◌≡◌, refl, ap, ◌∙◌, Bool, true, false, [], ◌∷◌, ◌++◌, Option, none, some, ◌⊎◌, inl, inr,
  String, ltb, length, if◌then◌else◌,
}
use eth_fund_trace.Prelude.Int.{ℤ}
use eth_fund_trace.Prelude.Dict.{Dict, lookup, insert, erase}
use eth_fund_trace.Store.Job.{SyncJob}
use eth_fund_trace.Ethaddr.{Chain}
use eth_fund_trace.Syncer.State.{SyncError}
use eth_fund_trace.Syncer.Address.{Request}
use eth_fund_trace.Syncer.Address.World.{Answer, ok, err}
use eth_fund_trace.Syncer.Queue.{
  Wanted, QueueConfig, QueueEnv, Manager, EnqueueReply, key_of, release, refuse, send, after_create,
  after_checkpoints, found_job, enqueue_at, enqueue_checked, enqueue, check_request,
}
use eth_fund_trace.Syncer.Queue.Active.{insert-absent, erase-snoc}

module _ {W : Type 0} (env : QueueEnv W) (config : QueueConfig) where
  abbrev pub Untouched : Manager W → Manager W → Type 0
  Untouched m n = (n.active ≡ m.active) × (n.queue ≡ m.queue)

  -- The job is the last of the queue, and its key the last of the active ones.
  abbrev pub Appended : Request → String → Manager W → Manager W → Type 0
  Appended request id m n =
      (n.active ≡ m.active ++ (key_of request, id) ∷ []) × (n.queue ≡ m.queue ++ (id, request) ∷ [])

  abbrev pub Answered : Request → Manager W → EnqueueReply env config → Type 0
  Answered request m (err e, n) = Untouched m n
  Answered request m (ok job, n) =
      ((id : String) × (lookup (key_of request) m.active ≡ some id)
        × ((env.get_sync_job id m.repo).0 ≡ ok job)
        × Untouched m n)
      ⊎ ((lookup (key_of request) m.active ≡ none) × Appended request job.id m n)

  -- The answer to a request of an address that is not active.
  abbrev Opened : Request → Manager W → EnqueueReply env config → Type 0
  Opened request m (err e, n) = Untouched m n
  Opened request m (ok job, n) = Appended request job.id m n

  Opened-Answered :
      (request : Request) (m : Manager W) (x : EnqueueReply env config)
      → lookup (key_of request) m.active ≡ none
      → Opened request m x
      → Answered request m x
  Opened-Answered request m (err e, n) absent h = h
  Opened-Answered request m (ok job, n) absent h = inr (absent, h)

  choose-Opened :
      (request : Request) (m : Manager W) (c : Bool) (x y : EnqueueReply env config)
      → Opened request m x
      → Opened request m y
      → Opened request m (if c then x else y)
  choose-Opened request m true x y first second = first
  choose-Opened request m false x y first second = second

  send-Opened :
      (request : Request) (job : SyncJob) (m : Manager W)
      → lookup (key_of request) m.active ≡ none
      → Opened request m (
          send env config request job
            (record m { active = insert (key_of request) job.id m.active }))
  unfolding send refuse release
  send-Opened request job m absent =
      let inserted = insert-absent (key_of request) job.id m.active absent in
      choose-Opened request m (ltb (length m.queue) config.queue_size) _ _ (inserted, refl)
        (
          ap (erase (key_of request)) inserted ∙ erase-snoc (key_of request) job.id m.active absent,
          refl,
        )

  after_create-Opened :
      (request : Request) (job : SyncJob) (error : Option SyncError) (m : Manager W)
      → lookup (key_of request) m.active ≡ none
      → Opened request m (after_create env config request job error m)
  unfolding after_create
  after_create-Opened request job (some e) m absent = (refl, refl)
  after_create-Opened request job none m absent = send-Opened request job m absent

  after_checkpoints-Opened :
      (chain : Chain) (request : Request) (id : String) (now : ℕ)
      (found : Answer SyncError (Dict ℤ)) (m : Manager W)
      → lookup (key_of request) m.active ≡ none
      → Opened request m (after_checkpoints env config chain request id now found m)
  unfolding after_checkpoints
  after_checkpoints-Opened chain request id now (err e) m absent = (refl, refl)
  after_checkpoints-Opened chain request id now (ok checkpoints) m absent =
      after_create-Opened request _ _ (record m { repo = _ }) absent

  found_job-Answered :
      (request : Request) (id : String) (found : Answer SyncError SyncJob) (w : W) (m : Manager W)
      → lookup (key_of request) m.active ≡ some id
      → (env.get_sync_job id m.repo).0 ≡ found
      → Answered request m (found_job env config found (record m { repo = w }))
  unfolding found_job
  found_job-Answered request id (ok job) w m e read = inl (id, e, read, (refl, refl))
  found_job-Answered request id (err failure) w m e read = (refl, refl)

  enqueue_at-Answered :
      (chain : Chain) (request : Request) (found : Option String) (m : Manager W)
      → lookup (key_of request) m.active ≡ found
      → Answered request m (enqueue_at env config chain request found m)
  unfolding enqueue_at
  enqueue_at-Answered chain request (some id) m e = found_job-Answered request id _ _ m e refl
  enqueue_at-Answered chain request none m e =
      Opened-Answered request m _ e
        (after_checkpoints-Opened chain request _ _ _ (record m { repo = _ }) e)

-- A request that passes the checks is answered in one of three ways. An error (of the database, or
-- of a full queue) leaves the active keys and the queue as they were. For an active address the
-- answer is the job that the database gives for the identifier of its key, and both stay as they
-- are. For another one the job of the answer is put at the end of
-- the queue, and its key is active.
pub enqueue-Answered :
    {W : Type 0} (env : QueueEnv W) (config : QueueConfig) (wanted : Wanted) (chain : Chain)
    (request : Request) (m : Manager W)
    → check_request config wanted ≡ some (chain, request)
    → Answered env config request m (enqueue env config wanted m)
unfolding enqueue enqueue_checked
enqueue-Answered env config wanted chain request m e =
    subst (λ c. Answered env config request m (enqueue_checked env config c m)) (sym e)
      (enqueue_at-Answered env config chain request (lookup (key_of request) m.active) m refl)
