-- ===== src/Profile/Scores.antt =====
-- The score and the classification of internal/profile/profile.go.
use eth_fund_trace.Prelude.{
  ℕ, ◌≤◌, ◌<◌, ◌≡◌, true, false, ◌&&◌, String, leb, Bool-cases, leb→le, ◌⊎◌, inl, inr, arith,
}
use eth_fund_trace.Store.Profile.{ProfileFeatures, AddressActivity}
use eth_fund_trace.Profile.{
  tier_from, tier, behavior_score, frequency_points, counterpart_points, active_day_points,
  collection_points, distribution_points, total_score, is_suspect, classification_of, evaluate,
}

-- At least as active in everything that counts.
pub record AtMost (f g : ProfileFeatures) : Type 0 where
  pub window_transfers : f.window_transfers ≤ g.window_transfers
  pub unique_counterparts : f.unique_counterparts ≤ g.unique_counterparts
  pub active_days : f.active_days ≤ g.active_days
  pub unique_senders : f.unique_senders ≤ g.unique_senders
  pub unique_recipients : f.unique_recipients ≤ g.unique_recipients
  pub incoming : f.incoming ≤ g.incoming
  pub outgoing : f.outgoing ≤ g.outgoing

frequency_points_bounded : (f : ProfileFeatures) → frequency_points f ≤ 30
unfolding frequency_points tier tier_from
frequency_points_bounded f = ground arith

counterpart_points_bounded : (f : ProfileFeatures) → counterpart_points f ≤ 25
unfolding counterpart_points tier tier_from
counterpart_points_bounded f = ground arith

active_day_points_bounded : (f : ProfileFeatures) → active_day_points f ≤ 15
unfolding active_day_points tier tier_from
active_day_points_bounded f = ground arith

behavior_score_bounded : (n m : ℕ) → behavior_score n m ≤ 15
unfolding behavior_score
behavior_score_bounded n m = ground arith

behavior_score_monotone : (n m k l : ℕ) → n ≤ m → k ≤ l → behavior_score n k ≤ behavior_score m l
unfolding behavior_score
behavior_score_monotone n m k l le le' = ground arith

frequency_points_monotone :
    (f g : ProfileFeatures)
    → f.window_transfers ≤ g.window_transfers
    → frequency_points f ≤ frequency_points g
unfolding frequency_points tier tier_from
frequency_points_monotone f g le = ground arith

counterpart_points_monotone :
    (f g : ProfileFeatures)
    → f.unique_counterparts ≤ g.unique_counterparts
    → counterpart_points f ≤ counterpart_points g
unfolding counterpart_points tier tier_from
counterpart_points_monotone f g le = ground arith

active_day_points_monotone :
    (f g : ProfileFeatures)
    → f.active_days ≤ g.active_days
    → active_day_points f ≤ active_day_points g
unfolding active_day_points tier tier_from
active_day_points_monotone f g le = ground arith

total_score_bounded : (f : ProfileFeatures) → total_score f ≤ 100
unfolding total_score collection_points distribution_points
total_score_bounded f = omega (
  arith,
  frequency_points_bounded f,
  counterpart_points_bounded f,
  active_day_points_bounded f,
  behavior_score_bounded f.unique_senders f.outgoing,
  behavior_score_bounded f.unique_recipients f.incoming,
)

total_score_monotone : (f g : ProfileFeatures) → AtMost f g → total_score f ≤ total_score g
unfolding total_score collection_points distribution_points
total_score_monotone f g h = omega (
  arith,
  frequency_points_monotone f g h.window_transfers,
  counterpart_points_monotone f g h.unique_counterparts,
  active_day_points_monotone f g h.active_days,
  behavior_score_monotone _ _ _ _ h.unique_senders h.outgoing,
  behavior_score_monotone _ _ _ _ h.unique_recipients h.incoming,
)

-- The score of a profile is at most 100, and an address that is at least as active in everything
-- that counts (transfers of the window, counterparties, active days, senders, recipients, incoming
-- and outgoing transfers) has at least the score, and stays a suspect when it was one.
pub evaluate_monotone :
    (chain address : String) (through : ℕ) (a b : AddressActivity) (now : ℕ)
    → AtMost a.features b.features
    → let p = evaluate chain address through a now in
      let q = evaluate chain address through b now in
      (p.score ≤ q.score)
      × (q.score ≤ 100)
      × (p.suspected_hot_wallet ≡ true → q.suspected_hot_wallet ≡ true)
unfolding evaluate is_suspect
evaluate_monotone chain address through a b now h =
    let more = total_score_monotone a.features b.features h in
    let most = total_score_bounded b.features in
    let transfers = h.window_transfers in
    let incoming = h.incoming in
    let outgoing = h.outgoing in
    (
      ground (arith, more),
      ground (arith, most),
      λ suspected. ground (arith, more, transfers, incoming, outgoing),
    )

-- What an address with enough transfers is taken for.
classification_of-cases :
    (f : ProfileFeatures)
    → let hot = (70 ≤ total_score f) × (5 ≤ f.incoming) × (5 ≤ f.outgoing) in
      ((classification_of f ≡ "suspected_hot_wallet") × (is_suspect f ≡ true) × hot)
      ⊎ ((classification_of f ≡ "high_activity_candidate")
          × (is_suspect f ≡ false)
          × (50 ≤ total_score f)
          × (hot → ⊥))
      ⊎ ((classification_of f ≡ "low_signal") × (is_suspect f ≡ false) × (total_score f < 50))
unfolding classification_of is_suspect
classification_of-cases f =
    elim (Bool-cases (leb 70 (total_score f) && (leb 5 f.incoming && leb 5 f.outgoing))) [
      | inl hot ↦ inl (ground arith, ground arith, (ground arith, ground arith, ground arith))
      | inr cold ↦ elim (Bool-cases (leb 50 (total_score f))) [
        | inl active ↦ inr (inl (ground arith, ground arith, ground arith, λ hot. ground arith))
        | inr quiet ↦ inr (inr (ground arith, ground arith, ground arith))
      ]
    ]

-- The classification is exactly one of four: "insufficient_data" below 10 transfers in the window;
-- with 10 or more, "suspected_hot_wallet" exactly when the score is at least 70 with at least 5
-- transfers in and 5 out, then "high_activity_candidate" from 50 points on, else "low_signal". The
-- mark of a suspect is set exactly with the second, and with insufficient data the score is 0.
pub evaluate_classifies :
    (chain address : String) (through : ℕ) (a : AddressActivity) (now : ℕ)
    → let p = evaluate chain address through a now in
      let f = a.features in
      let hot = (70 ≤ p.score) × (5 ≤ f.incoming) × (5 ≤ f.outgoing) in
      ((f.window_transfers < 10)
        × (p.classification ≡ "insufficient_data")
        × (p.score ≡ 0)
        × (p.suspected_hot_wallet ≡ false))
      ⊎ ((10 ≤ f.window_transfers)
          × (((p.classification ≡ "suspected_hot_wallet") × (p.suspected_hot_wallet ≡ true) × hot)
              ⊎ ((p.classification ≡ "high_activity_candidate")
                  × (p.suspected_hot_wallet ≡ false)
                  × (50 ≤ p.score)
                  × (hot → ⊥))
              ⊎ ((p.classification ≡ "low_signal")
                  × (p.suspected_hot_wallet ≡ false)
                  × (p.score < 50))))
unfolding evaluate
evaluate_classifies chain address through a now =
    elim (Bool-cases (leb 10 a.features.window_transfers)) [
      | inl enough ↦ rw enough (inr (leb→le 10 _ enough, classification_of-cases a.features))
      | inr few ↦ inl (ground arith)
    ]
