-- ===== src/Syncer/Address/Rounds.antt =====
-- The ranges and the records behind the loops of `syncAddress` of internal/syncer/manager.go.
use mathlib.Core.Path.{subst}
use eth_fund_trace.Prelude.{
  ℕ, ◌≤◌, ◌≡◌, refl, sym, true, List, [], inl, inr, Bool-cases, String, All, arith,
}
use eth_fund_trace.Prelude.Dict.{Dict}
use eth_fund_trace.Store.Transfer.{Transfer}
use eth_fund_trace.Store.Address.{Address, AddressSyncCoverage}
use eth_fund_trace.Syncer.Coverage.{
  Range, InRange, InSome, valid_coverage, coverage_intervals, merge_coverage, merge_coverage_sound,
}
use eth_fund_trace.Syncer.Actions.{
  Checkpoints, read_checkpoint, Loop, Next, again, leave, sync_actions,
}
use eth_fund_trace.Syncer.Actions.Sequence.{InOrder, Planned, sync_actions-Stored}
use eth_fund_trace.Syncer.Actions.Keeps.{loop_of, Keep, sync_actions-Keep}
use eth_fund_trace.Syncer.Actions.Runs.{Runs}
use eth_fund_trace.Syncer.Actions.Forward.{Served, Held}
use eth_fund_trace.Syncer.Persist.{stamp}
use eth_fund_trace.Syncer.Contract.{Keeps}
use eth_fund_trace.Syncer.FetchRange.Checkpoints.{passed}
use eth_fund_trace.Syncer.Address.World.{AddressEnv, Work}
use eth_fund_trace.Syncer.Address.{Config, Request, target_of, first_round, plan, merged_coverage}
use eth_fund_trace.Syncer.Address.Trusted.{
  History, normal, internal, token, action_of, range_of, coverage_of, Trusted, Backed, Truthful,
  Resumable,
}

coverage_intervals-le :
    (want_from want_to have_from have_to b : ℕ)
    → InSome b (coverage_intervals want_from want_to have_from have_to)
    → want_from ≤ b
unfolding coverage_intervals
coverage_intervals-le want_from want_to have_from have_to b m = grind arith

InSome-InOrder :
    (want_from want_to have_from have_to b : ℕ)
    → InSome b (coverage_intervals want_from want_to have_from have_to)
    → InOrder b (coverage_intervals want_from want_to have_from have_to)
unfolding coverage_intervals
InSome-InOrder want_from want_to have_from have_to b m = grind arith

module _ {W : Type 0} {env : AddressEnv W} {config : Config} {chain_id : ℕ} {request : Request}
    {Holds : Transfer → W → Type 0} {covers : W → AddressSyncCoverage}
    {OnChain : String → Transfer → Type 0}
    (trusted : Trusted env config chain_id request Holds covers OnChain) where
  abbrev pub True : W → Type 0
  True w = Truthful env config chain_id request Holds covers OnChain w

  -- The ranges that are recorded behind the rounds are true.
  abbrev pub Merged : Address → ℕ → W → Type 0
  Merged a head w =
      Backed env config chain_id request Holds covers OnChain
        (merged_coverage a request.start_block head) w

  -- What is missing of a history.
  abbrev missing : History → Address → ℕ → List Range
  missing h a head =
      coverage_intervals request.start_block head (range_of h (coverage_of a)).0
        (range_of h (coverage_of a)).1

  planned :
      (h : History) (a : Address) (head b : ℕ)
      → InOrder b (missing h a head)
      → Planned
          (target_of config chain_id request (action_of h))
          b
          (plan config chain_id request a head)
  unfolding action_of range_of plan
  planned normal a head b m = inl (refl, m)
  planned internal a head b m = inr (refl, inl (refl, m))
  planned token a head b m = inr (refl, inr (refl, inl (refl, m)))

  merged_range :
      (h : History) (a : Address) (head : ℕ)
      → range_of h (merged_coverage a request.start_block head)
        ≡ merge_coverage request.start_block head
            (range_of h (coverage_of a)).0
            (range_of h (coverage_of a)).1
  unfolding range_of merged_coverage
  merged_range normal a head = refl
  merged_range internal a head = refl
  merged_range token a head = refl

  module _ (checkpoints : Checkpoints) (now head : ℕ) (a : Address) (counts : Dict ℕ) (k : Work W)
      (true_now : True k.repo) (same : coverage_of a ≡ covers k.repo)
      (resumable : Resumable env config chain_id request Holds covers OnChain checkpoints k) where
    abbrev pub first : Loop W
    first = first_round env config chain_id request checkpoints counts k

    abbrev pub rounds : Next W
    rounds = sync_actions env.base checkpoints (plan config chain_id request a head) first

    plan-Served : All (λ x. Served env.base Holds OnChain x.0) (plan config chain_id request a head)
    unfolding plan action_of
    plan-Served = (trusted.served normal, (trusted.served internal, (trusted.served token, tt)))

    plan-Keeps :
        (P : W → Type 0)
        → ((h : History) → Keeps env.base (target_of config chain_id request (action_of h)) P)
        → All (λ x. Keeps env.base x.0 P) (plan config chain_id request a head)
    unfolding plan action_of
    plan-Keeps P keeps = (keeps normal, (keeps internal, (keeps token, tt)))

    rounds-Holds : (v : Transfer) → Holds v k.repo → Keep (Holds v) rounds
    rounds-Holds v h =
        sync_actions-Keep env.base checkpoints (Holds v) (plan config chain_id request a head) first
          (plan-Keeps (Holds v) (λ g. (trusted.served g).durable.keeps v)) h

    rounds-covers : Keep (λ w. covers w ≡ covers k.repo) rounds
    rounds-covers =
        sync_actions-Keep env.base checkpoints (λ w. covers w ≡ covers k.repo)
          (plan config chain_id request a head) first
          (plan-Keeps (λ w. covers w ≡ covers k.repo) (λ g. trusted.fetch_inert g (covers k.repo)))
          refl

    pub rounds-True : True (loop_of rounds).sync.repo
    rounds-True =
        subst
          (λ c.
            Backed env config chain_id request Holds covers OnChain c (loop_of rounds).sync.repo)
          (sym rounds-covers) (λ g t on v r. rounds-Holds _ (true_now g t on v r))

    rounds-missing :
        (h : History) (t : Transfer)
        → OnChain (action_of h) t
        → InSome t.block_number (missing h a head)
        → Runs (Held Holds (stamp (target_of config chain_id request (action_of h)) t)) rounds
    unfolding target_of
    rounds-missing h t on m =
        let start =
          coverage_intervals-le request.start_block head (range_of h (coverage_of a)).0
            (range_of h (coverage_of a)).1 t.block_number m in
        sync_actions-Stored env.base Holds OnChain checkpoints t
          (target_of config chain_id request (action_of h)) on (plan config chain_id request a head)
          first plan-Served
          (planned h a head t.block_number (InSome-InOrder _ _ _ _ t.block_number m))
          (λ clean. (
            refl,
            elim (Bool-cases
                (passed (read_checkpoint checkpoints (action_of h) first.sync) t.block_number)) [
                  | inl there ↦ inr (resumable h t counts on start there)
                  | inr fresh ↦ inl fresh
                ],
          ))

    -- A record in a merged range was fetched, or its range was recorded before.
    merged-missing :
        (h : History) (t : Transfer) (w : W)
        → OnChain (action_of h) t
        → InRange t.block_number (range_of h (merged_coverage a request.start_block head))
        → (InSome t.block_number (missing h a head)
            → Holds (stamp (target_of config chain_id request (action_of h)) t) w)
        → (Holds (stamp (target_of config chain_id request (action_of h)) t) k.repo
            → Holds (stamp (target_of config chain_id request (action_of h)) t) w)
        → Holds (stamp (target_of config chain_id request (action_of h)) t) w
    merged-missing h t w on r fetched kept =
        let old = range_of h (coverage_of a) in
        elim (merge_coverage_sound request.start_block head old.0 old.1 t.block_number
          (subst (InRange t.block_number) (merged_range h a head) r)) [
            | inl m ↦ fetched m
            | inr (v, old_range) ↦ kept (
                subst
                  (λ c.
                    valid_coverage (range_of h c).0 (range_of h c).1 ≡ true
                    → InRange t.block_number (range_of h c)
                    → Holds (stamp (target_of config chain_id request (action_of h)) t) k.repo)
                  (sym same) (true_now h t on) v old_range)
          ]

    -- The merged ranges are true behind the rounds, when nothing is truncated.
    pub rounds-again :
        (l : Loop W)
        → rounds ≡ again l
        → l.result.truncated_actions ≡ []
        → Merged a head l.sync.repo
    unfolding loop_of
    rounds-again l e clean h t on v r =
        let u = stamp (target_of config chain_id request (action_of h)) t in
        merged-missing h t l.sync.repo on r
          (λ m. (subst (Runs (Held Holds u)) e (rounds-missing h t on m) clean).1)
          (λ old. subst (λ n. Holds u (loop_of n).sync.repo) e (rounds-Holds u old))

    pub rounds-leave :
        (l : Loop W)
        → rounds ≡ leave l
        → l.result.truncated_actions ≡ []
        → Merged a head l.sync.repo
    unfolding loop_of
    rounds-leave l e clean h t on v r =
        let u = stamp (target_of config chain_id request (action_of h)) t in
        merged-missing h t l.sync.repo on r
          (λ m. absurd (subst (Runs (Held Holds u)) e (rounds-missing h t on m) clean))
          (λ old. subst (λ n. Holds u (loop_of n).sync.repo) e (rounds-Holds u old))
