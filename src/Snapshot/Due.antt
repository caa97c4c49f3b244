-- ===== src/Snapshot/Due.antt =====
-- When the next snapshot is due.
use lightgraph.Base.{
  ℕ, ◌+◌, ◌%◌, ◌^◌, ◌<◌, ◌≡◌, ap, ◌∙◌, false, List, [], ◌∷◌, arith, leb, ◌==◌, ◌||◌, incr64,
  u64_mod,
}
use lightgraph.Extern.{ok, Files, Json, Bincode}
use lightgraph.Snapshot.Manager.{
  Manifest, Stores, SnapshotData, SnapshotManager, take_snapshot, add_wal_bytes, should_snapshot,
}
use lightgraph.Snapshot.Restart.{advanced, take_snapshot-Taken}

abbrev pub sum : List ℕ → ℕ
sum [] = 0
sum (n ∷ ns) = n + sum ns

abbrev pub add_each : List ℕ → SnapshotManager → SnapshotManager
add_each [] s = s
add_each (n ∷ ns) s = add_each ns (add_wal_bytes n s)

add_each-bytes :
    (ns : List ℕ) (s : SnapshotManager)
    → s.wal_bytes_since_snapshot + sum ns < 2 ^ 64
    → should_snapshot (add_each ns s) ≡ (
        (s.manifest.latest_snapshot_id == 0)
        || leb s.snapshot_interval_bytes (s.wal_bytes_since_snapshot + sum ns))
unfolding should_snapshot add_wal_bytes
add_each-bytes [] s h =
    let e : s.wal_bytes_since_snapshot + 0 ≡ s.wal_bytes_since_snapshot = omega arith in rw e
add_each-bytes (n ∷ ns) s h =
    let step : (s.wal_bytes_since_snapshot + n) % u64_mod ≡ s.wal_bytes_since_snapshot + n =
      omega arith in
    let total : (s.wal_bytes_since_snapshot + n) % u64_mod + sum ns
        ≡ s.wal_bytes_since_snapshot + (n + sum ns) =
      omega (arith, step) in
    add_each-bytes ns (add_wal_bytes n s) (omega (arith, step))
    ∙ ap (λ (k : ℕ). (s.manifest.latest_snapshot_id == 0) || leb s.snapshot_interval_bytes k) total

module _ {Fs : Type 0} ⦃FF : Files Fs⦄ ⦃J : Json Manifest⦄ ⦃B : Bincode SnapshotData⦄ where
  -- After a snapshot was taken, the next one is due when the bytes that were added to the logs since
  -- then, in any number of steps, reach the interval, and not before. Ids and bytes stay below 2^64.
  pub should_snapshot-take_snapshot :
      (stores : Stores) (fs : Fs) (s : SnapshotManager) (id : ℕ) (ns : List ℕ)
      → s.manifest.latest_snapshot_id + 1 < 2 ^ 64
      → sum ns < 2 ^ 64
      → (take_snapshot stores fs s).2 ≡ ok id
      → should_snapshot (add_each ns (take_snapshot stores fs s).1)
        ≡ leb s.snapshot_interval_bytes (sum ns)
  should_snapshot-take_snapshot stores fs s id ns small room h =
      let k = take_snapshot-Taken stores fs s id h in
      let s₂ : SnapshotManager = record s { manifest = advanced s; wal_bytes_since_snapshot = 0 } in
      let positive : (incr64 s.manifest.latest_snapshot_id == 0) ≡ false = ground arith in
      let start : 0 + sum ns ≡ sum ns = omega arith in
      rw k.result (add_each-bytes ns s₂ (omega arith) ∙ rw (positive, start))
