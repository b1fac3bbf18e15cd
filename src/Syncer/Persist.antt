-- ===== src/Syncer/Persist.antt =====
-- `persistTransfers` of internal/syncer/manager.go: transfers are stamped, their addresses are
-- discovered, and all are written in batches of 1000.
pub mod Laws
use Prim.Native.String.{◌++◌ as append}
use eth_fund_trace.Prelude.{
  ℕ, zero, suc, ◌+◌, Bool, ◌&&◌, ◌||◌, not, true, false, List, [], ◌∷◌, ◌++◌, Option, none, some,
  String, str_eq, ltb, if◌then◌else◌, length, take, drop, any, is_some,
}
use eth_fund_trace.Prelude.Dict.{insert}
use eth_fund_trace.Text.{to_lower}
use eth_fund_trace.Text.Decimal.{nat_string}
use eth_fund_trace.Ethaddr
use eth_fund_trace.Ethaddr.{zero_address}
use eth_fund_trace.Store.Transfer.{Transfer}
use eth_fund_trace.Store.Job.{SyncProgress}
use eth_fund_trace.Syncer.Coverage.{count_of}
use eth_fund_trace.Syncer.State.{SyncError, Fault, Target, Env, Sync, Written, report}

-- The fields that `persistTransfers` sets anew.
unfoldable pub stamp : Target → Transfer → Transfer
stamp target t = record t {
  chain = target.chain;
  chain_id = target.chain_id;
  transaction_group = append (nat_string target.chain_id) (append ":" (to_lower t.tx_hash));
  from = to_lower t.from;
  to = to_lower t.to;
  asset = if str_eq t.asset_type "erc20" then to_lower t.asset else t.asset;
}

-- A set of addresses: a valid address other than the zero address is added once.
unfoldable pub discover : String → List String → List String
discover address seen =
    if is_some (Ethaddr.normalize address)
      && (not (str_eq address zero_address) && not (any (str_eq address) seen))
    then seen ++ address ∷ []
    else seen

unfoldable pub stamp_all : Target → List Transfer → List String → List Transfer × List String
unfolding stamp discover
stamp_all target [] seen = ([], seen)
stamp_all target (t ∷ ts) seen =
    let u = stamp target t in
    let (us, found) = stamp_all target ts (discover u.to (discover u.from seen)) in (u ∷ us, found)

abbrev add_written : ℕ → SyncProgress → SyncProgress
add_written n p = record p { records_written = p.records_written + n }

module _ {W : Type 0} (env : Env W) (target : Target) where
  -- What follows a write that inserted `inserted` new records.
  unfoldable pub count_inserted : ℕ → Sync W → Option Fault × Sync W
  unfolding count_of
  count_inserted inserted s =
      let (error, w) = env.add_address_action_records target inserted s.repo in
      let counts =
        insert target.action (count_of target.action s.action_record_counts + inserted)
          s.action_record_counts in
      elim error [
        | none ↦ (none, record s { repo = w; action_record_counts = counts })
        | some e ↦ (some (Fault.failed e), record s { repo = w })
      ]

  -- The hook and the progress report behind a batch.
  unfoldable pub announce : List Transfer → Sync W → Sync W
  unfolding report
  announce batch s =
      report env (add_written (length batch))
        (record s { repo = env.on_transfers_persisted target.chain batch s.repo })

  unfoldable pub write_batch : List Transfer → Sync W → Option Fault × Sync W
  unfolding count_inserted announce
  write_batch batch s =
      let (written, w) = env.bulk_upsert_transfers batch s.repo in
      let s' = record s { repo = w } in
      elim written [
        | Written.err e ↦ (some (Fault.failed e), s')
        | Written.ok inserted ↦
            let (error, counted) =
              if ltb 0 target.max_records then count_inserted inserted s' else (none, s') in
            elim error [ none ↦ (none, announce batch counted) | some e ↦ (some e, counted) ]
      ]

  -- The batches of `size`; the fuel is the number of records.
  unfoldable pub write_batches : ℕ → ℕ → List Transfer → Sync W → Option Fault × Sync W
  unfolding write_batch
  write_batches size zero ts s = (none, s)
  write_batches size (suc f) [] s = (none, s)
  write_batches size (suc f) (t ∷ ts) s =
      let (error, s') = write_batch (take size (t ∷ ts)) s in
      elim error [ none ↦ write_batches size f (drop size (t ∷ ts)) s' | some e ↦ (some e, s') ]

  -- The number of records, or 0 and the error.
  unfoldable pub persist_transfers : List Transfer → Sync W → ℕ × Option Fault × Sync W
  unfolding stamp_all write_batches
  persist_transfers ts s =
      let (stamped, found) = stamp_all target ts s.discovered in
      let (error, s') =
        write_batches 1000 (length stamped) stamped (record s { discovered = found }) in
      elim error [ none ↦ (length stamped, none, s') | some e ↦ (0, some e, s') ]
