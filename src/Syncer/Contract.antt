-- ===== src/Syncer/Contract.antt =====
-- What the synchroniser relies on: the client answers with the records of the chain, and the
-- database keeps what it has acknowledged.
use eth_fund_trace.Prelude.{ℕ, ◌≤◌, ◌<◌, ◌≡◌, List, ◌∷◌, none, some, All, In, length}
use eth_fund_trace.Store.Transfer.{Transfer}
use eth_fund_trace.Store.Job.{SyncProgress}
use eth_fund_trace.Syncer.State.{Response, Target, Env, Written}
use eth_fund_trace.Syncer.FetchRange.{last_block}

module _ {W : Type 0} (env : Env W) (target : Target) where
  -- No call of the synchronisation undoes a property of the world.
  pub record Keeps (P : W → Type 0) : Type 0 where
    pub bulk_keeps : (ts : List Transfer) (w : W) → P w → P (env.bulk_upsert_transfers ts w).1
    pub count_keeps : (n : ℕ) (w : W) → P w → P (env.add_address_action_records target n w).1
    pub hook_keeps :
        (ts : List Transfer) (w : W) → P w → P (env.on_transfers_persisted target.chain ts w)
    pub save_keeps : (p : SyncProgress) (w : W) → P w → P (env.save_progress p w)
    pub call_keeps : (limit start end : ℕ) (w : W) → P w → P (env.call target limit start end w).2

module _ {W : Type 0} (env : Env W) (target : Target) (Holds : Transfer → W → Type 0) where
  -- A bulk write that is acknowledged stored its records, and nothing removes a record.
  pub record Durable : Type 0 where
    pub bulk_stores :
        (ts : List Transfer) (w : W) (n : ℕ)
        → (env.bulk_upsert_transfers ts w).0 ≡ Written.ok n
        → All (λ t. Holds t (env.bulk_upsert_transfers ts w).1) ts
    pub keeps : (t : Transfer) → Keeps env target (Holds t)

module _ {W : Type 0} (env : Env W) (target : Target) (OnChain : Transfer → Type 0) where
  abbrev pub Answers : ℕ → ℕ → ℕ → W → Response → Type 0
  Answers limit start end w r = (env.call target limit start end w).0 ≡ r

  -- A client that lists oldest first: the answer has all records of the range, at a page limit
  -- all before the last block that it reached, and at the record limit that many.
  pub record Ascending (limit : ℕ) : Type 0 where
    pub all_records :
        (start end : ℕ) (w : W) (ts : List Transfer) (t : Transfer)
        → Answers limit start end w (Response.complete ts)
        → OnChain t
        → start ≤ t.block_number
        → t.block_number ≤ end
        → In t ts
    pub below_last :
        (start end : ℕ) (w : W) (ts : List Transfer) (last : ℕ) (t : Transfer)
        → Answers limit start end w (Response.page_limit ts (some last))
        → OnChain t
        → start ≤ t.block_number
        → t.block_number < last
        → In t ts
    pub last_in_range :
        (start end : ℕ) (w : W) (ts : List Transfer) (last : ℕ)
        → Answers limit start end w (Response.page_limit ts (some last))
        → last ≤ end
    pub below_last_record :
        (start end : ℕ) (w : W) (u : Transfer) (ts : List Transfer) (t : Transfer)
        → Answers limit start end w (Response.page_limit (u ∷ ts) none)
        → OnChain t
        → start ≤ t.block_number
        → t.block_number < last_block u ts
        → In t (u ∷ ts)
    pub last_record_in_range :
        (start end : ℕ) (w : W) (u : Transfer) (ts : List Transfer)
        → Answers limit start end w (Response.page_limit (u ∷ ts) none)
        → last_block u ts ≤ end
    pub full_at_limit :
        (start end : ℕ) (w : W) (ts : List Transfer)
        → Answers limit start end w (Response.record_limit ts)
        → (0 < limit) × (limit ≤ length ts)

  -- A client that lists newest first: the answer has all records of the range, and at a page limit
  -- all above the last block that it reached. A call that meets its record limit returns no more.
  pub record Descending : Type 0 where
    pub all_records :
        (limit start end : ℕ) (w : W) (ts : List Transfer) (t : Transfer)
        → Answers limit start end w (Response.complete ts)
        → OnChain t
        → start ≤ t.block_number
        → t.block_number ≤ end
        → In t ts
    pub above_last :
        (limit start end : ℕ) (w : W) (ts : List Transfer) (last : ℕ) (t : Transfer)
        → Answers limit start end w (Response.page_limit ts (some last))
        → OnChain t
        → last < t.block_number
        → t.block_number ≤ end
        → In t ts
    pub within_limit :
        (limit start end : ℕ) (w : W) (ts : List Transfer)
        → Answers limit start end w (Response.record_limit ts)
        → length ts ≤ limit
