-- ===== src/Syncer/Persist/Laws.antt =====
-- The writes of `persistTransfers` of internal/syncer/manager.go.
use Prim.Native.String.{String}
use eth_fund_trace.Prelude.{
  ℕ, zero, suc, ◌≤◌, ◌<◌, ◌≡◌, ◌≢◌, refl, ap, List, [], ◌∷◌, none, some, length, take, drop, All-In,
  In, In-take-drop, length-drop, inl, inr, arith,
}
use eth_fund_trace.Store.Transfer.{Transfer}
use eth_fund_trace.Store.Job.{SyncProgress}
use eth_fund_trace.Syncer.State.{
  Fault, PageProgress, Target, Env, Sync, Written, report, report_pages, fetch, on_page,
}
use eth_fund_trace.Syncer.Persist.{
  stamp, stamp_all, add_written, count_inserted, announce, write_batch, write_batches,
  persist_transfers,
}
use eth_fund_trace.Syncer.Contract.{Keeps, Durable}

module _ {W : Type 0} {env : Env W} {target : Target} {P : W → Type 0}
    (k : Keeps env target P) where
  pub report-Keeps :
      (u : SyncProgress → SyncProgress) (s : Sync W) → P s.repo → P (report env u s).repo
  unfolding report
  report-Keeps u s h = k.save_keeps _ s.repo h

  report_pages-Keeps :
      (pages : List PageProgress) (s : Sync W) → P s.repo → P (report_pages env target pages s).repo
  unfolding report_pages
  report_pages-Keeps [] s h = h
  report_pages-Keeps (p ∷ ps) s h =
      report_pages-Keeps ps (report env (on_page target p) s) (report-Keeps (on_page target p) s h)

  pub fetch-Keeps :
      (limit start end : ℕ) (s : Sync W) → P s.repo → P (fetch env target limit start end s).1.repo
  unfolding fetch
  fetch-Keeps limit start end s h =
      report_pages-Keeps (env.call target limit start end s.repo).1
        (record s { repo = (env.call target limit start end s.repo).2 })
        (k.call_keeps limit start end s.repo h)

  announce-Keeps :
      (batch : List Transfer) (s : Sync W) → P s.repo → P (announce env target batch s).repo
  unfolding announce
  announce-Keeps batch s h =
      report-Keeps (add_written (length batch))
        (record s { repo = env.on_transfers_persisted target.chain batch s.repo })
        (k.hook_keeps batch s.repo h)

  count_inserted-Keeps : (n : ℕ) (s : Sync W) → P s.repo → P (count_inserted env target n s).1.repo
  unfolding count_inserted
  count_inserted-Keeps n s h = ground (arith, k.count_keeps n s.repo h)

  write_batch-Keeps :
      (batch : List Transfer) (s : Sync W) → P s.repo → P (write_batch env target batch s).1.repo
  unfolding write_batch
  write_batch-Keeps batch s h =
      grind (arith, k.bulk_keeps batch s.repo h, count_inserted-Keeps, announce-Keeps)

  write_batches-Keeps :
      (size f : ℕ) (ts : List Transfer) (s : Sync W)
      → P s.repo
      → P (write_batches env target size f ts s).1.repo
  unfolding write_batches
  write_batches-Keeps size zero ts s h = h
  write_batches-Keeps size (suc f) [] s h = h
  write_batches-Keeps size (suc f) (u ∷ ts) s h =
      let batch = take size (u ∷ ts) in
      ground (
        arith,
        write_batch-Keeps batch s h,
        write_batches-Keeps size f (drop size (u ∷ ts)) (write_batch env target batch s).1,
      )

  pub persist_transfers-Keeps :
      (ts : List Transfer) (s : Sync W) → P s.repo → P (persist_transfers env target ts s).2.repo
  unfolding persist_transfers
  persist_transfers-Keeps ts s h =
      let (stamped, found) = stamp_all target ts s.discovered in
      ground (
        arith,
        write_batches-Keeps 1000 (length stamped) stamped (record s { discovered = found }) h,
      )

module _ {W : Type 0} {env : Env W} {target : Target} {Holds : Transfer → W → Type 0}
    (d : Durable env target Holds) (t : Transfer) where
  bulk-Holds :
      (batch : List Transfer) (w : W) (n : ℕ)
      → In t batch
      → (env.bulk_upsert_transfers batch w).0 ≡ Written.ok n
      → Holds t (env.bulk_upsert_transfers batch w).1
  bulk-Holds batch w n m e =
      All-In (λ u. Holds u (env.bulk_upsert_transfers batch w).1) t batch
        (d.bulk_stores batch w n e) m

  write_batch-In :
      (batch : List Transfer) (s : Sync W)
      → In t batch
      → (write_batch env target batch s).0 ≡ none
      → Holds t (write_batch env target batch s).1.repo
  unfolding write_batch
  write_batch-In batch s m e =
      let stored = λ (n : ℕ). bulk-Holds batch s.repo n m in
      grind (arith, stored, count_inserted-Keeps (d.keeps t), announce-Keeps (d.keeps t))

  write_batches-In :
      (size f : ℕ) (ts : List Transfer) (s : Sync W)
      → 0 < size
      → length ts ≤ f
      → In t ts
      → (write_batches env target size f ts s).0 ≡ none
      → Holds t (write_batches env target size f ts s).1.repo
  unfolding write_batches
  write_batches-In size zero [] s p fits m e = absurd m
  write_batches-In size zero (u ∷ ts) s p fits m e = absurd (omega arith)
  write_batches-In size (suc f) [] s p fits m e = absurd m
  write_batches-In size (suc f) (u ∷ ts) s p fits m e =
      let batch = take size (u ∷ ts) in
      let rest = drop size (u ∷ ts) in
      let s' = (write_batch env target batch s).1 in
      elim (In-take-drop t size (u ∷ ts) m) [
        | inl front ↦
            ground
              (arith, write_batch-In batch s front, write_batches-Keeps (d.keeps t) size f rest s')
        | inr back ↦ ground (
          arith,
          length-drop size (u ∷ ts),
          write_batches-In size f rest s' p (omega (arith, length-drop size (u ∷ ts))) back,
        )
      ]

stamp_all-In :
    (target : Target) (t : Transfer) (ts : List Transfer) (seen : List String)
    → In t ts
    → In (stamp target t) (stamp_all target ts seen).0
unfolding stamp_all
stamp_all-In target t [] seen m = absurd m
stamp_all-In target t (u ∷ ts) seen (inl e) = inl (ap (stamp target) e)
stamp_all-In target t (u ∷ ts) seen (inr m) = inr (stamp_all-In target t ts _ m)

module _ {W : Type 0} {env : Env W} {target : Target} {Holds : Transfer → W → Type 0}
    (d : Durable env target Holds) (t : Transfer) where
  -- A record that was to be written is stored, stamped, unless an error is reported.
  pub persist_transfers-In :
      (ts : List Transfer) (s : Sync W)
      → In t ts
      → (persist_transfers env target ts s).1 ≡ none
      → Holds (stamp target t) (persist_transfers env target ts s).2.repo
  unfolding persist_transfers
  persist_transfers-In ts s m e =
      let (stamped, found) = stamp_all target ts s.discovered in
      ground (
        arith,
        write_batches-In d (stamp target t) 1000 (length stamped) stamped
            (record s { discovered = found }) (omega arith) (omega arith)
            (stamp_all-In target t ts s.discovered m),
      )

module _ {W : Type 0} (env : Env W) (target : Target) where
  write_batch-finishes :
      (batch : List Transfer) (s : Sync W)
      → (write_batch env target batch s).0 ≢ some Fault.unfinished
  unfolding write_batch count_inserted
  write_batch-finishes batch s = ground arith

  write_batches-finishes :
      (size f : ℕ) (ts : List Transfer) (s : Sync W)
      → (write_batches env target size f ts s).0 ≢ some Fault.unfinished
  unfolding write_batches
  write_batches-finishes size zero ts s = cc
  write_batches-finishes size (suc f) [] s = cc
  write_batches-finishes size (suc f) (u ∷ ts) s =
      let batch = take size (u ∷ ts) in
      ground (
        arith,
        write_batch-finishes batch s,
        write_batches-finishes size f (drop size (u ∷ ts)) (write_batch env target batch s).1,
      )

  pub persist_transfers-finishes :
      (ts : List Transfer) (s : Sync W)
      → (persist_transfers env target ts s).1 ≢ some Fault.unfinished
  unfolding persist_transfers
  persist_transfers-finishes ts s =
      let (stamped, found) = stamp_all target ts s.discovered in
      ground (
        arith,
        write_batches-finishes 1000 (length stamped) stamped (record s { discovered = found }),
      )

  stamp_all-length :
      (ts : List Transfer) (seen : List String) → length (stamp_all target ts seen).0 ≡ length ts
  unfolding stamp_all
  stamp_all-length [] seen = refl
  stamp_all-length (u ∷ ts) seen = ap suc (stamp_all-length ts _)

  -- The count is that of the records, or 0.
  pub persist_transfers-le :
      (ts : List Transfer) (s : Sync W) → (persist_transfers env target ts s).0 ≤ length ts
  unfolding persist_transfers
  persist_transfers-le ts s = ground (arith, stamp_all-length ts s.discovered)

  -- Without an error it is their number.
  pub persist_transfers-count :
      (ts : List Transfer) (s : Sync W)
      → (persist_transfers env target ts s).1 ≡ none
      → (persist_transfers env target ts s).0 ≡ length ts
  unfolding persist_transfers
  persist_transfers-count ts s e = ground (arith, stamp_all-length ts s.discovered)
