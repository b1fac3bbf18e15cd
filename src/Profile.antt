-- ===== src/Profile.antt =====
-- The profiler (internal/profile/profile.go): the score of an address by its recent activity, and
-- the stored profile that is used again while no new block is synchronised.
pub mod Scores
pub mod Again
mod Tests
use eth_fund_trace.Prelude.{
  ℕ, ◌+◌, Bool, true, false, ◌&&◌, ◌||◌, not, List, [], ◌∷◌, ◌++◌, Option, none, some, String,
  str_eq, ltb, leb, ◌==◌, if◌then◌else◌,
}
use eth_fund_trace.Prelude.Int.{ℤ, pos, sub_ℕ}
use eth_fund_trace.Prelude.Answers.{Answer, ok, err}
use eth_fund_trace.Store.Address.{Address, common_coverage}
use eth_fund_trace.Store.Profile.{ProfileFeatures, AddressProfile, AddressActivity}
use eth_fund_trace.Ethaddr.{Chain, resolve}

abbrev pub rule_version : String
rule_version = "hot-wallet-v1"

-- The points of the last threshold that is reached, `points` being those so far.
unfoldable pub tier_from : ℕ → ℕ → List (ℕ × ℕ) → ℕ
tier_from points value [] = points
tier_from points value ((minimum, gained) ∷ thresholds) =
    tier_from (if leb minimum value then gained else points) value thresholds

unfoldable pub tier : ℕ → List (ℕ × ℕ) → ℕ
unfolding tier_from
tier value thresholds = tier_from 0 value thresholds

unfoldable pub behavior_score : ℕ → ℕ → ℕ
behavior_score counterparties opposite_direction =
    if ltb opposite_direction 1
    then 0
    else if leb 50 counterparties
    then 15
    else if leb 20 counterparties
    then 10
    else if leb 10 counterparties
    then 5
    else 0

unfoldable pub frequency_points : ProfileFeatures → ℕ
unfolding tier
frequency_points f = tier f.window_transfers ((10, 5) ∷ (30, 12) ∷ (100, 22) ∷ (300, 30) ∷ [])

unfoldable pub counterpart_points : ProfileFeatures → ℕ
unfolding tier
counterpart_points f = tier f.unique_counterparts ((10, 5) ∷ (20, 10) ∷ (50, 18) ∷ (200, 25) ∷ [])

unfoldable pub active_day_points : ProfileFeatures → ℕ
unfolding tier
active_day_points f = tier f.active_days ((5, 5) ∷ (10, 10) ∷ (20, 15) ∷ [])

unfoldable pub collection_points : ProfileFeatures → ℕ
unfolding behavior_score
collection_points f = behavior_score f.unique_senders f.outgoing

unfoldable pub distribution_points : ProfileFeatures → ℕ
unfolding behavior_score
distribution_points f = behavior_score f.unique_recipients f.incoming

unfoldable pub total_score : ProfileFeatures → ℕ
total_score f =
    frequency_points f
    + counterpart_points f
    + active_day_points f
    + (collection_points f + distribution_points f)

unfoldable pub signals_of : ProfileFeatures → List String
signals_of f =
    (if leb 100 f.window_transfers then "high_frequency" ∷ [] else [])
    ++ ((if leb 50 f.unique_counterparts then "many_counterparties" ∷ [] else [])
        ++ ((if leb 10 (collection_points f) then "collection_pattern" ∷ [] else [])
            ++ (if leb 10 (distribution_points f) then "distribution_pattern" ∷ [] else [])))

unfoldable pub is_suspect : ProfileFeatures → Bool
is_suspect f = leb 70 (total_score f) && (leb 5 f.incoming && leb 5 f.outgoing)

unfoldable pub classification_of : ProfileFeatures → String
unfolding is_suspect
classification_of f =
    if is_suspect f
    then "suspected_hot_wallet"
    else if leb 50 (total_score f)
    then "high_activity_candidate"
    else "low_signal"

-- An unknown chain has the id 0.
unfoldable pub chain_id_of : Option Chain → ℕ
chain_id_of none = 0
chain_id_of (some chain) = chain.id

-- 30 * 24 hours before the latest transfer, or the zero time.
unfoldable pub window_start_of : ℕ → ℤ
window_start_of latest = if latest == 0 then pos 0 else sub_ℕ latest 2592000000000000

unfoldable pub evaluate : String → String → ℕ → AddressActivity → ℕ → AddressProfile
unfolding chain_id_of window_start_of classification_of is_suspect signals_of total_score
evaluate chain address data_through_block activity computed_at =
    let f = activity.features in
    let enough = leb 10 f.window_transfers in
    record {
      chain = chain;
      chain_id = chain_id_of (resolve chain);
      address = address;
      rule_version = rule_version;
      data_through_block = data_through_block;
      window_start = window_start_of activity.latest_transfer_at;
      window_end = activity.latest_transfer_at;
      features = f;
      score = if enough then total_score f else 0;
      classification = if enough then classification_of f else "insufficient_data";
      suspected_hot_wallet = enough && is_suspect f;
      signals = if enough then signals_of f else [];
      computed_at = computed_at;
    }

-- `failed` is an error of the repository.
pub data ProfileError (E : Type 0) : Type 0 where
  unsupported_chain address_not_synced : ProfileError E
  failed : E → ProfileError E

-- `Repository` and the clock.
pub record ProfileEnv (W E : Type 0) : Type 0 where
  pub clock : W → ℕ
  pub find_address : String → String → W → Answer E (Option Address)
  pub find_address_profile : String → String → String → ℕ → W → Answer E (Option AddressProfile)
  pub address_activity : String → String → W → Answer E AddressActivity
  pub save_address_profile : AddressProfile → W → Option E × W

module _ {W E : Type 0} (env : ProfileEnv W E) (chain address : String) where
  abbrev pub Profiled : Type 0
  Profiled = Answer (ProfileError E) AddressProfile × W

  unfoldable pub after_save : AddressProfile → Option E × W → Profiled
  after_save result (none, w) = (ok result, w)
  after_save result (some e, w) = (err (failed e), w)

  unfoldable pub after_activity : ℕ → Answer E AddressActivity → W → Profiled
  unfolding evaluate
  after_activity through (err e) w = (err (failed e), w)
  after_activity through (ok activity) w =
      let result = evaluate chain address through activity (env.clock w) in
      after_save result (env.save_address_profile result w)

  -- A stored profile for the same block is used again.
  unfoldable pub after_profile : ℕ → Answer E (Option AddressProfile) → W → Profiled
  after_profile through (err e) w = (err (failed e), w)
  after_profile through (ok (some existing)) w = (ok existing, w)
  after_profile through (ok none) w =
      after_activity through (env.address_activity chain address w) w

  unfoldable pub is_synced : Address → Bool
  is_synced metadata = str_eq metadata.sync_status "synced" || not (metadata.last_synced_at == 0)

  unfoldable pub profile_through : ℕ → W → Profiled
  profile_through through w =
      after_profile through (env.find_address_profile chain address rule_version through w) w

  unfoldable pub after_address : Answer E (Option Address) → W → Profiled
  unfolding is_synced common_coverage
  after_address (err e) w = (err (failed e), w)
  after_address (ok none) w = (err address_not_synced, w)
  after_address (ok (some metadata)) w =
      let (from, through, covered) = common_coverage metadata in
      if is_synced metadata && covered
      then profile_through through w
      else (err address_not_synced, w)

unfoldable pub get_on :
    {W E : Type 0}
    → ProfileEnv W E
    → String
    → Option Chain
    → W
    → Answer (ProfileError E) AddressProfile × W
get_on env address none w = (err unsupported_chain, w)
get_on env address (some chain) w =
    after_address env chain.name address (env.find_address chain.name address w) w

unfoldable pub get :
    {W E : Type 0}
    → ProfileEnv W E
    → String
    → String
    → W
    → Answer (ProfileError E) AddressProfile × W
get env chain address w = get_on env address (resolve chain) w
