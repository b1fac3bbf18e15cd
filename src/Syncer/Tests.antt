-- ===== src/Syncer/Tests.antt =====
-- A chain of two records behind a client with one record to the page, a database that is a list,
-- and the theorems on `fetchRange` and `fetchRecentRange` applied to them.
use mathlib.Core.Path.{subst}
use eth_fund_trace.Prelude.{
  ℕ, ◌≤◌, ◌≡◌, ◌≢◌, refl, sym, ap, Bool, true, false, ◌&&◌, List, [], ◌∷◌, ◌++◌, none, some, ◌⊎◌,
  inl, inr, leb, length, All, In, arith,
}
use eth_fund_trace.Store.Transfer.{Transfer}
use eth_fund_trace.Syncer.State.{Fault, Response, Target, Env, Sync, Written}
use eth_fund_trace.Syncer.Persist.{stamp}
use eth_fund_trace.Syncer.FetchRange.{fetch_range}
use eth_fund_trace.Syncer.FetchRange.Complete.{at_limit}
use eth_fund_trace.Syncer.FetchRange.Ends.{fetch_range_complete}
use eth_fund_trace.Syncer.FetchRecent.{fetch_recent_range}
use eth_fund_trace.Syncer.FetchRecent.Complete.{fetch_recent_range_complete}
use eth_fund_trace.Syncer.Contract.{Durable, Ascending, Descending}

abbrev pub record_at : ℕ → Transfer
record_at block = record {
  chain = "";
  chain_id = 0;
  tx_hash = "0xA";
  block_number = block;
  block_time = 0;
  from = "0xF";
  to = "0xE";
  asset_type = "eth";
  asset = "ETH";
  symbol = "ETH";
  decimals = 18;
  amount = "1";
  input = "";
  token_value = "";
  token_name = "";
  transfer_kind = "";
  transaction_group = "";
  log_index_synthetic = false;
  token_metadata_complete = false;
  source = "txlist";
  trace_id = "";
  log_index = 0;
  observed_at = 0;
}

abbrev pub first : Transfer
first = record_at 1

abbrev pub second : Transfer
second = record_at 3

abbrev pub OnChain : Transfer → Type 0
OnChain t = In t (first ∷ second ∷ [])

abbrev pub has_first : ℕ → ℕ → Bool
has_first start end = leb start 1 && leb 1 end

abbrev pub has_second : ℕ → ℕ → Bool
has_second start end = leb start 3 && leb 3 end

-- The answer by which of the two records lie in the range: both make a page limit behind `cut`.
abbrev pub answer : Transfer → ℕ → Bool → Bool → Response
answer cut block true true = Response.page_limit (cut ∷ []) (some block)
answer cut block true false = Response.complete (first ∷ [])
answer cut block false true = Response.complete (second ∷ [])
answer cut block false false = Response.complete []

abbrev env : Transfer → ℕ → Env (List Transfer)
env cut block = record {
  clock = λ w. length w;
  call = λ target limit start end w.
      (answer cut block (has_first start end) (has_second start end), [], w);
  save_progress = λ p w. w;
  bulk_upsert_transfers = λ ts w. (Written.ok (length ts), ts ++ w);
  add_address_action_records = λ target n w. (none, w);
  on_transfers_persisted = λ chain ts w. w;
}

abbrev ascending_env : Env (List Transfer)
ascending_env = env first 1

abbrev descending_env : Env (List Transfer)
descending_env = env second 3

abbrev target : Target
target = record {
  action = "txlist";
  chain = "ethereum";
  chain_id = 1;
  address = "0xF";
  max_records = 0;
}

abbrev pub empty : Sync (List Transfer)
empty = record {
  repo = [];
  action_record_counts = [];
  discovered = [];
  progress = record {
    current_address = "";
    current_action = "";
    range_start = 0;
    range_end = 0;
    current_page = 0;
    pages_fetched = 0;
    records_read = 0;
    records_written = 0;
    split_count = 0;
    updated_at = 0;
    action_checkpoints = [];
  };
}

pub In-append_left : (t : Transfer) (ts w : List Transfer) → In t ts → In t (ts ++ w)
In-append_left t [] w m = absurd m
In-append_left t (u ∷ ts) w (inl e) = inl e
In-append_left t (u ∷ ts) w (inr m) = inr (In-append_left t ts w m)

pub In-append_right : (t : Transfer) (ts w : List Transfer) → In t w → In t (ts ++ w)
In-append_right t [] w m = m
In-append_right t (u ∷ ts) w m = inr (In-append_right t ts w m)

pub All-of_each :
    (P : Transfer → Type 0) (ts : List Transfer) → ((t : Transfer) → In t ts → P t) → All P ts
All-of_each P [] h = tt
All-of_each P (t ∷ ts) h = (h t (inl refl), All-of_each P ts (λ u m. h u (inr m)))

durable : (cut : Transfer) (block : ℕ) → Durable (env cut block) target In
durable cut block = record {
  bulk_stores = λ ts w n e. All-of_each _ ts (λ t m. In-append_left t ts w m);
  keeps = λ t. record {
    bulk_keeps = λ ts w h. In-append_right t ts w h;
    count_keeps = λ n w h. h;
    hook_keeps = λ ts w h. h;
    save_keeps = λ p w h. h;
    call_keeps = λ limit start end w h. h;
  };
}

-- The records that an answer carries.
abbrev records : Response → List Transfer
records (Response.complete ts) = ts
records (Response.record_limit ts) = ts
records (Response.page_limit ts last) = ts
records (Response.failed e) = []

module _ (cut : Transfer) (block : ℕ) where
  complete_first :
      (a b : Bool) (ts : List Transfer)
      → answer cut block a b ≡ Response.complete ts
      → a ≡ true
      → In first ts
  complete_first true true ts e h = cc
  complete_first true false ts e h = subst (In first) (ap records e) (inl refl)
  complete_first false b ts e h = cc

  complete_second :
      (a b : Bool) (ts : List Transfer)
      → answer cut block a b ≡ Response.complete ts
      → b ≡ true
      → In second ts
  complete_second true true ts e h = cc
  complete_second false true ts e h = subst (In second) (ap records e) (inl refl)
  complete_second true false ts e h = cc
  complete_second false false ts e h = cc

  pub complete_all :
      (start end : ℕ) (ts : List Transfer) (t : Transfer)
      → answer cut block (has_first start end) (has_second start end) ≡ Response.complete ts
      → OnChain t
      → start ≤ t.block_number
      → t.block_number ≤ end
      → In t ts
  complete_all start end ts t e (inl p) lo hi =
      subst (λ u. In u ts) (sym p)
        (complete_first (has_first start end) (has_second start end) ts e
          (ground (arith, ap (λ (u : Transfer). u.block_number) p)))
  complete_all start end ts t e (inr (inl p)) lo hi =
      subst (λ u. In u ts) (sym p)
        (complete_second (has_first start end) (has_second start end) ts e
          (ground (arith, ap (λ (u : Transfer). u.block_number) p)))
  complete_all start end ts t e (inr (inr m)) lo hi = absurd m

  pub limited :
      (a b : Bool) (ts : List Transfer) (last : ℕ)
      → answer cut block a b ≡ Response.page_limit ts (some last)
      → (a ≡ true) × (b ≡ true) × (last ≡ block) × (cut ∷ [] ≡ ts)
  limited true true ts last e = (refl, refl, cc, ap records e)
  limited true false ts last e = cc
  limited false true ts last e = cc
  limited false false ts last e = cc

  pub not_bare :
      (a b : Bool) (ts : List Transfer) → answer cut block a b ≡ Response.page_limit ts none → ⊥
  not_bare true true ts e = cc
  not_bare true false ts e = cc
  not_bare false true ts e = cc
  not_bare false false ts e = cc

  pub not_limited :
      (a b : Bool) (ts : List Transfer) → answer cut block a b ≡ Response.record_limit ts → ⊥
  not_limited true true ts e = cc
  not_limited true false ts e = cc
  not_limited false true ts e = cc
  not_limited false false ts e = cc

pub block_of : (t : Transfer) → OnChain t → (t.block_number ≡ 1) ⊎ (t.block_number ≡ 3)
block_of t (inl p) = inl (ap (λ (u : Transfer). u.block_number) p)
block_of t (inr (inl p)) = inr (ap (λ (u : Transfer). u.block_number) p)
block_of t (inr (inr m)) = absurd m

ascending : Ascending ascending_env target OnChain 0
ascending = record {
  all_records = λ start end w ts t e on lo hi. complete_all first 1 start end ts t e on lo hi;
  below_last = λ start end w ts last t e on lo hi.
      let h = limited first 1 (has_first start end) (has_second start end) ts last e in
      absurd (omega (arith, block_of t on));
  last_in_range = λ start end w ts last e.
      let h = limited first 1 (has_first start end) (has_second start end) ts last e in
      ground arith;
  below_last_record = λ start end w u ts t e on lo hi. absurd (not_bare first 1 _ _ (u ∷ ts) e);
  last_record_in_range = λ start end w u ts e. absurd (not_bare first 1 _ _ (u ∷ ts) e);
  full_at_limit = λ start end w ts e. absurd (not_limited first 1 _ _ ts e);
}

descending : Descending descending_env target OnChain
descending = record {
  all_records =
      λ limit start end w ts t e on lo hi. complete_all second 3 start end ts t e on lo hi;
  above_last = λ limit start end w ts last t e on lo hi.
      let h = limited second 3 (has_first start end) (has_second start end) ts last e in
      absurd (omega (arith, block_of t on));
  within_limit = λ limit start end w ts e. absurd (not_limited second 3 _ _ ts e);
}

fetch_range_complete_example :
    let o = fetch_range ascending_env target 10 0 0 5 empty in
    (o.1 ≢ some Fault.unfinished)
    × (o.1 ≡ none
        → at_limit 0 o.0 ≡ false
        → (t : Transfer) → OnChain t
        → 0 ≤ t.block_number
        → t.block_number ≤ 5
        → In (stamp target t) o.2.repo)
fetch_range_complete_example =
    fetch_range_complete (durable first 1) ascending 10 0 5 empty (omega arith) (omega arith)

fetch_recent_range_complete_example :
    let o = fetch_recent_range descending_env target 10 4 0 5 empty in
    (o.2 ≢ some Fault.unfinished)
    × (o.0 ≤ 4)
    × (o.2 ≡ none
        → o.1 ≡ false
        → (t : Transfer) → OnChain t
        → 0 ≤ t.block_number
        → t.block_number ≤ 5
        → In (stamp target t) o.3.repo)
fetch_recent_range_complete_example =
    fetch_recent_range_complete (durable second 3) descending 10 4 0 5 empty (omega arith)
      (omega arith)
