-- ===== src/Profile/Again.antt =====
-- The stored profile of internal/profile/profile.go.
use mathlib.Core.Path.{subst}
use eth_fund_trace.Prelude.{
  ℕ, ◌≡◌, refl, sym, ap, ◌∙◌, Bool, true, false, ◌&&◌, Option, none, some, String, if◌then◌else◌,
}
use eth_fund_trace.Prelude.Answers.{Answer, ok, err}
use eth_fund_trace.Store.Address.{Address, common_coverage}
use eth_fund_trace.Store.Profile.{AddressProfile, AddressActivity}
use eth_fund_trace.Ethaddr.{Chain, resolve}
use eth_fund_trace.Profile.{
  rule_version, ProfileError, ProfileEnv, evaluate, after_save, after_activity, after_profile,
  profile_through, is_synced, after_address, get_on, get,
}

-- A profile that was saved is found again, and saving one changes no address.
pub record Stored {W E : Type 0} (env : ProfileEnv W E) : Type 0 where
  pub finds_saved :
      (p : AddressProfile) (w : W)
      → (env.save_address_profile p w).0 ≡ none
      → env.find_address_profile p.chain p.address p.rule_version p.data_through_block
          (env.save_address_profile p w).1
        ≡ ok (some p)
  pub same_address :
      (p : AddressProfile) (chain address : String) (w : W)
      → env.find_address chain address (env.save_address_profile p w).1
        ≡ env.find_address chain address w

module _ {W E : Type 0} {env : ProfileEnv W E} (stored : Stored env) (chain address : String) where
  -- A call whose answer it gives again, with the addresses as they were.
  abbrev Repeats : ℕ → W → Answer (ProfileError E) AddressProfile × W → Type 0
  Repeats through w (err e, w') = Unit {0}
  Repeats through w (ok p, w') =
      (profile_through env chain address through w' ≡ (ok p, w'))
      × (env.find_address chain address w' ≡ env.find_address chain address w)

  profile_through-found :
      (p : AddressProfile) (through : ℕ) (w : W)
      → env.find_address_profile chain address rule_version through w ≡ ok (some p)
      → profile_through env chain address through w ≡ (ok p, w)
  unfolding profile_through after_profile
  profile_through-found p through w e =
      subst (λ found. after_profile env chain address through found w ≡ (ok p, w)) (sym e) refl

  evaluate-found :
      (through : ℕ) (activity : AddressActivity) (now : ℕ) (w : W)
      → let p = evaluate chain address through activity now in
        (env.save_address_profile p w).0 ≡ none
        → env.find_address_profile chain address rule_version through
            (env.save_address_profile p w).1
          ≡ ok (some p)
  unfolding evaluate
  evaluate-found through activity now w e =
      stored.finds_saved (evaluate chain address through activity now) w e

  after_save-Repeats :
      (through : ℕ) (activity : AddressActivity) (now : ℕ) (w : W) (saved : Option E × W)
      → let p = evaluate chain address through activity now in
        saved ≡ env.save_address_profile p w
        → Repeats through w (after_save env chain address p saved)
  unfolding after_save
  after_save-Repeats through activity now w (some e, w') same = tt
  after_save-Repeats through activity now w (none, w') same =
      let p = evaluate chain address through activity now in
      let written = sym (ap (λ x. x.1) same) in
      let found = evaluate-found through activity now w (sym (ap (λ x. x.0) same)) in
      (
        profile_through-found p through w' (
            subst (λ v. env.find_address_profile chain address rule_version through v ≡ ok (some p))
              written found),
        subst (λ v. env.find_address chain address v ≡ env.find_address chain address w) written
            (stored.same_address p chain address w),
      )

  after_activity-Repeats :
      (through : ℕ) (activity : Answer E AddressActivity) (w : W)
      → Repeats through w (after_activity env chain address through activity w)
  unfolding after_activity
  after_activity-Repeats through (err e) w = tt
  after_activity-Repeats through (ok activity) w =
      after_save-Repeats through activity (env.clock w) w _ refl

  after_profile-Repeats :
      (through : ℕ) (found : Answer E (Option AddressProfile)) (w : W)
      → found ≡ env.find_address_profile chain address rule_version through w
      → Repeats through w (after_profile env chain address through found w)
  unfolding after_profile
  after_profile-Repeats through (err e) w same = tt
  after_profile-Repeats through (ok (some p)) w same =
      (profile_through-found p through w (sym same), refl)
  after_profile-Repeats through (ok none) w same = after_activity-Repeats through _ w

  -- The answer is given again.
  abbrev Again : Answer (ProfileError E) AddressProfile × W → Type 0
  Again (err e, w') = Unit {0}
  Again (ok p, w') =
      after_address env chain address (env.find_address chain address w') w' ≡ (ok p, w')

  choose-Again :
      (c : Bool) (x y : Answer (ProfileError E) AddressProfile × W)
      → (c ≡ true → Again x)
      → Again y
      → Again (if c then x else y)
  choose-Again true x y yes_case no_case = yes_case refl
  choose-Again false x y yes_case no_case = no_case

  profile_through-Repeats :
      (through : ℕ) (w : W) → Repeats through w (profile_through env chain address through w)
  unfolding profile_through
  profile_through-Repeats through w = after_profile-Repeats through _ w refl

  synced-Again :
      (metadata : Address) (w : W) (o : Answer (ProfileError E) AddressProfile × W)
      → env.find_address chain address w ≡ ok (some metadata)
      → (is_synced env chain address metadata && (common_coverage metadata).2) ≡ true
      → Repeats (common_coverage metadata).1 w o
      → Again o
  unfolding after_address
  synced-Again metadata w (err e, w') found covered r = tt
  synced-Again metadata w (ok p, w') found covered (again, same) =
      subst (λ a. after_address env chain address a w' ≡ (ok p, w')) (sym (same ∙ found))
        (rw covered again)

  after_address-Again :
      (found : Answer E (Option Address)) (w : W)
      → env.find_address chain address w ≡ found
      → Again (after_address env chain address found w)
  unfolding after_address
  after_address-Again (err e) w same = tt
  after_address-Again (ok none) w same = tt
  after_address-Again (ok (some metadata)) w same =
      choose-Again (is_synced env chain address metadata && (common_coverage metadata).2) _ _
        (λ covered.
          synced-Again metadata w _ same covered
            (profile_through-Repeats (common_coverage metadata).1 w))
        tt

-- Over a repository that finds what it saved, and in which saving a profile changes no address: a call
-- of `get` that answers with a profile leaves a state in which the next call gives the same profile,
-- and writes nothing.
pub get_again :
    {W E : Type 0} {env : ProfileEnv W E} (stored : Stored env) (chain address : String)
    (p : AddressProfile) (w w' : W)
    → get env chain address w ≡ (ok p, w')
    → get env chain address w' ≡ (ok p, w')
unfolding get get_on
get_again {env = env} stored chain address p w w' e = again_on (resolve chain) e
  where
    again_on :
        (c : Option Chain)
        → get_on env address c w ≡ (ok p, w')
        → get_on env address c w' ≡ (ok p, w')
    again_on none h = cc
    again_on (some found) h = subst (Again stored found.name address) h (
        after_address-Again stored found.name address (env.find_address found.name address w) w
          refl)
