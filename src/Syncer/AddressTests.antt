-- ===== src/Syncer/AddressTests.antt =====
-- An address with a chain of two records, behind a database that keeps records and block ranges,
-- and the theorem on `syncAddress` applied to it.
use eth_fund_trace.Prelude.{
  ℕ, ◌≢◌, refl, sym, ap, Bool, true, false, List, [], ◌∷◌, ◌++◌, none, inl, String, length, In,
  arith,
}
use eth_fund_trace.Prelude.Dict.{lookup}
use eth_fund_trace.Store.Transfer.{Transfer}
use eth_fund_trace.Store.Address.{Address, AddressSyncCoverage}
use eth_fund_trace.Syncer.State.{SyncError, Fault, Target, Env, Written}
use eth_fund_trace.Syncer.Coverage.{valid_coverage}
use eth_fund_trace.Syncer.FetchRange.Checkpoints.{passed}
use eth_fund_trace.Syncer.Contract.{Durable, Ascending}
use eth_fund_trace.Syncer.Actions.{own, read_checkpoint}
use eth_fund_trace.Syncer.Address.{Config, Request, target_of, sync_address}
use eth_fund_trace.Syncer.Address.World.{Answer, ok, err, AddressEnv, Work}
use eth_fund_trace.Syncer.Address.Trusted.{
  History, normal, internal, token, action_of, range_of, Inert, Trusted, Truthful, Resumable,
  coverage_of,
}
use eth_fund_trace.Syncer.Address.Ends.{sync_address_ends}
use eth_fund_trace.Syncer.Address.Whole.{sync_address-Truthful}
use eth_fund_trace.Syncer.Tests.{
  first, OnChain, has_first, has_second, answer, empty, In-append_left, In-append_right,
  All-of_each, block_of, complete_all, limited, not_bare, not_limited,
}

pub record World : Type 0 where
  pub stored : List Transfer
  pub ranges : AddressSyncCoverage

abbrev base : Env World
base = record {
  clock = λ w. 7;
  call = λ target limit start end w.
      (answer first 1 (has_first start end) (has_second start end), [], w);
  save_progress = λ p w. w;
  bulk_upsert_transfers = λ ts w. (Written.ok (length ts), record w { stored = ts ++ w.stored });
  add_address_action_records = λ target n w. (none, w);
  on_transfers_persisted = λ chain ts w. w;
}

abbrev pub known : AddressSyncCoverage → Address
known c = record {
  chain = "ethereum";
  chain_id = 1;
  address = "0xF";
  address_type = "";
  is_contract = false;
  protocol = "";
  roles = [];
  is_terminal = false;
  normal_synced_from = c.normal_from;
  normal_synced_to = c.normal_to;
  internal_synced_from = c.internal_from;
  internal_synced_to = c.internal_to;
  token_synced_from = c.token_from;
  token_synced_to = c.token_to;
  last_synced_at = 0;
  sync_status = "";
  sync_error = "";
  sync_max_records_per_action = 0;
  action_record_counts = none;
}

abbrev pub env : AddressEnv World
env = record {
  base = base;
  find_address = λ chain address w. (ok (known w.ranges, true), w);
  ensure_address_action_counts = λ chain chain_id address limit w. (ok [], w);
  latest_block = λ w. (ok 17, w);
  set_address_syncing = λ chain chain_id address w. (none, w);
  complete_address_sync = λ chain address c now w. (none, record w { ranges = c });
  complete_address_partial = λ chain address head limit reason now w. (none, w);
  fail_address_sync = λ chain address e w. (none, w);
  upsert_discovered_addresses = λ chain chain_id found now w. (none, w);
  after_address_synced = none;
}

abbrev pub config : Config
config = record {
  cache_ttl = 900;
  disable_cache = false;
  confirmations = 12;
  max_records_per_action = 0;
}

abbrev request : Request
request = record {
  chain = "ethereum";
  address = "0xF";
  start_block = 0;
  end_block = 0;
  neighbor_limit = 0;
}

abbrev pub unsynced : AddressSyncCoverage
unsynced = record {
  normal_from = 0;
  normal_to = 0;
  internal_from = 0;
  internal_to = 0;
  token_from = 0;
  token_to = 0;
}

abbrev pub start : Work World
start = record {
  repo = record { stored = []; ranges = unsynced };
  progress = empty.progress;
  safe_head = none;
}

abbrev Holds : Transfer → World → Type 0
Holds t w = In t w.stored

abbrev ranges_of : World → AddressSyncCoverage
ranges_of w = w.ranges

abbrev OnEach : String → Transfer → Type 0
OnEach action t = OnChain t

abbrev target : History → Target
target h = target_of config 1 request (action_of h)

durable : (h : History) → Durable base (target h) Holds
durable h = record {
  bulk_stores = λ ts w n e. All-of_each _ ts (λ t m. In-append_left t ts w.stored m);
  keeps = λ t. record {
    bulk_keeps = λ ts w m. In-append_right t ts w.stored m;
    count_keeps = λ n w m. m;
    hook_keeps = λ ts w m. m;
    save_keeps = λ p w m. m;
    call_keeps = λ limit from to w m. m;
  };
}

base-Ascending : (target : Target) (limit : ℕ) → Ascending base target OnChain limit
base-Ascending target limit = record {
  all_records = λ from to w ts t e on lo hi. complete_all first 1 from to ts t e on lo hi;
  below_last = λ from to w ts last t e on lo hi.
      let cut = limited first 1 (has_first from to) (has_second from to) ts last e in
      absurd (omega (arith, block_of t on));
  last_in_range = λ from to w ts last e.
      let cut = limited first 1 (has_first from to) (has_second from to) ts last e in ground arith;
  below_last_record = λ from to w u ts t e on lo hi. absurd (not_bare first 1 _ _ (u ∷ ts) e);
  last_record_in_range = λ from to w u ts e. absurd (not_bare first 1 _ _ (u ∷ ts) e);
  full_at_limit = λ from to w ts e. absurd (not_limited first 1 _ _ ts e);
}

abbrev Still : (World → World) → Type 0
Still f = Inert env config 1 request Holds ranges_of f

still : Still (λ w. w)
still = record { holds_kept = λ v w m. m; covers_kept = λ w. refl }

abbrev found_ranges : Answer SyncError (Address × Bool) → AddressSyncCoverage
found_ranges (ok (a, exists)) = coverage_of a
found_ranges (err e) = unsynced

trusted : Trusted env config 1 request Holds ranges_of OnEach
unfolding target_of
trusted = record {
  served = λ h. record {
    durable = durable h;
    unlimited = refl;
    ascending = λ limit p. base-Ascending (target h) limit;
  };
  fetch_inert = λ h c. record {
    bulk_keeps = λ ts w e. e;
    count_keeps = λ n w e. e;
    hook_keeps = λ ts w e. e;
    save_keeps = λ p w e. e;
    call_keeps = λ limit from to w e. e;
  };
  find_inert = still;
  finds = λ w a exists e. sym (ap found_ranges e);
  counts_inert = λ limit. still;
  latest_inert = still;
  syncing_inert = still;
  partial_inert = λ head limit reason now. still;
  fail_inert = λ e. still;
  discovered_inert = λ found now. still;
  hook_inert = λ hook e. absurd cc;
  sync_keeps = λ c now v w m. m;
  sync_covers = λ c now w. inl refl;
}

start-Truthful : Truthful env config 1 request Holds ranges_of OnEach start.repo
unfolding range_of valid_coverage
start-Truthful normal t on v r = cc
start-Truthful internal t on v r = cc
start-Truthful token t on v r = cc

no_checkpoint : Resumable env config 1 request Holds ranges_of OnEach (own []) start
unfolding read_checkpoint passed lookup
no_checkpoint h t counts on lo p = cc

sync_address-Truthful_example :
    Truthful env config 1 request Holds ranges_of OnEach
      (sync_address env config 1 request (own []) start).1.repo
sync_address-Truthful_example =
    sync_address-Truthful trusted (own []) start start-Truthful no_checkpoint

sync_address_ends_example :
    (sync_address env config 1 request (own []) start).0 ≢ err Fault.unfinished
sync_address_ends_example =
    sync_address_ends env config 1 request (own []) OnEach
      (λ action limit p. base-Ascending (target_of config 1 request action) limit) start
