-- ===== src/Profile/Tests.antt =====
-- A busy address over a repository that keeps one profile, and the theorems on
-- internal/profile/profile.go applied to it.
use eth_fund_trace.Prelude.{
  ℕ, ◌≤◌, ◌<◌, ◌≡◌, refl, true, false, Option, none, some, ◌⊎◌, String, arith,
}
use eth_fund_trace.Prelude.Answers.{ok}
use eth_fund_trace.Text.{to_lower, trim_space}
use eth_fund_trace.Ethaddr.{resolve}
use eth_fund_trace.Store.Address.{Address}
use eth_fund_trace.Store.Profile.{ProfileFeatures, AddressProfile, AddressActivity}
use eth_fund_trace.Syncer.AddressTests.{known, unsynced}
use eth_fund_trace.Profile.{
  ProfileEnv, evaluate, get_on, after_address, profile_through, after_profile, after_activity,
  after_save, get,
}
use eth_fund_trace.Profile.Scores.{evaluate_monotone, evaluate_classifies}
use eth_fund_trace.Profile.Again.{Stored, get_again}

abbrev features : ℕ → ProfileFeatures
features n = record {
  lifetime_transfers = n;
  lifetime_incoming = n;
  lifetime_outgoing = n;
  window_transfers = n;
  incoming = n;
  outgoing = n;
  unique_counterparts = n;
  unique_senders = n;
  unique_recipients = n;
  active_days = n;
  eth_transfers = n;
  erc20_transfers = n;
}

abbrev activity : ℕ → AddressActivity
activity n = record { latest_transfer_at = 7; features = features n }

evaluate_monotone_example :
    let p = evaluate "ethereum" "0xF" 5 (activity 20) 9 in
    let q = evaluate "ethereum" "0xF" 5 (activity 300) 9 in
    (p.score ≤ q.score)
    × (q.score ≤ 100)
    × (p.suspected_hot_wallet ≡ true → q.suspected_hot_wallet ≡ true)
evaluate_monotone_example =
    evaluate_monotone "ethereum" "0xF" 5 (activity 20) (activity 300) 9 (record {
      window_transfers = omega arith;
      unique_counterparts = omega arith;
      active_days = omega arith;
      unique_senders = omega arith;
      unique_recipients = omega arith;
      incoming = omega arith;
      outgoing = omega arith;
    })

evaluate_classifies_example :
    let p = evaluate "ethereum" "0xF" 5 (activity 20) 9 in
    let hot = (70 ≤ p.score) × (5 ≤ 20) × (5 ≤ 20) in
    ((20 < 10)
      × (p.classification ≡ "insufficient_data")
      × (p.score ≡ 0)
      × (p.suspected_hot_wallet ≡ false))
    ⊎ ((10 ≤ 20)
        × (((p.classification ≡ "suspected_hot_wallet") × (p.suspected_hot_wallet ≡ true) × hot)
            ⊎ ((p.classification ≡ "high_activity_candidate")
                × (p.suspected_hot_wallet ≡ false)
                × (50 ≤ p.score)
                × (hot → ⊥))
            ⊎ ((p.classification ≡ "low_signal")
                × (p.suspected_hot_wallet ≡ false)
                × (p.score < 50))))
evaluate_classifies_example = evaluate_classifies "ethereum" "0xF" 5 (activity 20) 9

abbrev synced : Address
synced = record (known (record unsynced { normal_to = 5; internal_to = 5; token_to = 5 })) {
  sync_status = "synced";
}

-- The repository has one place for a profile, and every address is synchronised.
abbrev env : ProfileEnv (Option AddressProfile) String
env = record {
  clock = λ w. 9;
  find_address = λ chain address w. ok (some synced);
  find_address_profile = λ chain address version through w. ok w;
  address_activity = λ chain address w. ok (activity 20);
  save_address_profile = λ p w. (none, some p);
}

stored : Stored env
stored = record { finds_saved = λ p w e. refl; same_address = λ p chain address w. refl }

abbrev first_profile : AddressProfile
first_profile = evaluate "ethereum" "0xF" 5 (activity 20) 9

first_get : get env "ethereum" "0xF" none ≡ (ok first_profile, some first_profile)
unfolding get get_on resolve to_lower trim_space after_address profile_through after_profile
    after_activity after_save
first_get = refl

get_again_example :
    get env "ethereum" "0xF" (some first_profile) ≡ (ok first_profile, some first_profile)
get_again_example =
    get_again stored "ethereum" "0xF" first_profile none (some first_profile) first_get
