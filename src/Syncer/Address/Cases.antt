-- ===== src/Syncer/Address/Cases.antt =====
-- How the steps of `syncAddress` of internal/syncer/manager.go go on: a property of the world, case by
-- case.
use eth_fund_trace.Prelude.{
  ℕ, ◌≡◌, refl, Bool, true, false, Option, none, some, String, if◌then◌else◌,
}
use eth_fund_trace.Prelude.Dict.{Dict}
use eth_fund_trace.Syncer.State.{SyncError, Fault}
use eth_fund_trace.Syncer.Actions.{Checkpoints, shared, own, read_checkpoint}
use eth_fund_trace.Syncer.Address.World.{
  Answer, ok, err, AddressEnv, Work, then_ok, then_done, fault_of,
}
use eth_fund_trace.Syncer.Address.{Config, Request, first_round}

module _ {W : Type 0} where
  pub then_ok-case :
      {A B : Type 0} (P : W → Type 0) (x : Answer Fault A × Work W)
      (next : A → Work W → Answer Fault B × Work W)
      → P x.1.repo
      → ((a : A) → x.0 ≡ ok a → P (next a x.1).1.repo)
      → P (then_ok x next).1.repo
  unfolding then_ok
  then_ok-case P (ok a, k) next h step = step a refl
  then_ok-case P (err e, k) next h step = h

  pub then_ok-work :
      {A B : Type 0} (P : Work W → Type 0) (x : Answer Fault A × Work W)
      (next : A → Work W → Answer Fault B × Work W)
      → P x.1
      → ((a : A) → x.0 ≡ ok a → P (next a x.1).1)
      → P (then_ok x next).1
  unfolding then_ok
  then_ok-work P (ok a, k) next h step = step a refl
  then_ok-work P (err e, k) next h step = h

  pub then_done-case :
      {B : Type 0} (P : W → Type 0) (x : Option Fault × Work W)
      (next : Work W → Answer Fault B × Work W)
      → P x.1.repo
      → P (next x.1).1.repo
      → P (then_done x next).1.repo
  unfolding then_done
  then_done-case P (none, k) next h step = step
  then_done-case P (some e, k) next h step = h

pub choose-work :
    {W A : Type 0} (P : Work W → Type 0) (c : Bool) (x y : A × Work W)
    → (c ≡ true → P x.1)
    → (c ≡ false → P y.1)
    → P (if c then x else y).1
choose-work P true x y yes_case no_case = yes_case refl
choose-work P false x y yes_case no_case = no_case refl

pub choose-case :
    {W A : Type 0} (P : W → Type 0) (c : Bool) (x y : Answer Fault A × Work W)
    → (c ≡ true → P x.1.repo)
    → (c ≡ false → P y.1.repo)
    → P (if c then x else y).1.repo
choose-case P true x y yes_case no_case = yes_case refl
choose-case P false x y yes_case no_case = no_case refl

module _ {W : Type 0} (env : AddressEnv W) (config : Config) (chain_id : ℕ)
    (request : Request) where
  pub read_first :
      (checkpoints : Checkpoints) (action : String) (counts : Dict ℕ) (k : Work W) (w : W)
      → read_checkpoint checkpoints action
          (first_round env config chain_id request checkpoints counts (record k { repo = w })).sync
        ≡ read_checkpoint checkpoints action
            (first_round env config chain_id request checkpoints counts k).sync
  unfolding read_checkpoint
  read_first shared action counts k w = refl
  read_first (own d) action counts k w = refl

pub fault_of-ok : {A : Type 0} (r : Answer SyncError A) (a : A) → fault_of r ≡ ok a → r ≡ ok a
unfolding fault_of
fault_of-ok (ok b) a e = cc
fault_of-ok (err b) a e = cc
