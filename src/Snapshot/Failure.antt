-- ===== src/Snapshot/Failure.antt =====
-- What `take_snapshot` leaves as it was, and what a failure of it leaves behind.
use lightgraph.Base.{
  ℕ, ◌+◌, ◌^◌, ◌<◌, ◌≡◌, ◌≢◌, refl, sym, ap, ◌∙◌, Option, some, inl, inr, List, Bytes, ◌==◌, arith,
  incr64, false,
}
use lightgraph.Extern.{IoResult, IoError, ok, err, Files, Json, Bincode}
use lightgraph.Snapshot.Name.{snapshot_name, snapshot_name-injective}
use lightgraph.Snapshot.Manager.{
  Manifest, Stores, SnapshotData, SnapshotManager, read_snapshot, unmerged, wal_files, recover,
  take_snapshot,
}
use lightgraph.Snapshot.Written.{
  IoResult-cases, read-write_snapshot, read_snapshot-write_snapshot, read_snapshot-write_manifest,
}
use lightgraph.Snapshot.Restart.{advanced, with_snapshot, with_manifest, recover-some}

abbrev recovered : Stores → ℕ → List Bytes → IoResult (Option SnapshotData × List Bytes)
recovered stores n logs = ok (some (record { version = 1; snapshot_id = n; stores = stores }), logs)

module _ {Fs : Type 0} ⦃FF : Files Fs⦄ ⦃J : Json Manifest⦄ ⦃B : Bincode SnapshotData⦄ where
  take_snapshot-failed_manifest :
      (stores : Stores) (fs : Fs) (s : SnapshotManager) (e : IoError)
      → (with_snapshot stores fs s).1 ≡ ok tt
      → (with_manifest stores fs s).1 ≡ err e
      → take_snapshot stores fs s
        ≡ ((with_manifest stores fs s).0, record s { manifest = advanced s }, err e)
  unfolding take_snapshot
  take_snapshot-failed_manifest stores fs s e h k = rw (take_snapshot, h, k)

  take_snapshot-files :
      (stores : Stores) (fs : Fs) (s : SnapshotManager) (j : ℕ)
      → read_snapshot j (with_snapshot stores fs s).0 ≡ read_snapshot j fs
      → read_snapshot j (take_snapshot stores fs s).0 ≡ read_snapshot j fs
  unfolding take_snapshot
  take_snapshot-files stores fs s j h =
      let k = read_snapshot-write_manifest j (advanced s) (with_snapshot stores fs s).0 ∙ h in
      elim (IoResult-cases (with_snapshot stores fs s).1) [
        | inr (e, q) ↦ rw (take_snapshot, q) h
        | inl (_, q₁) ↦ elim (IoResult-cases (with_manifest stores fs s).1) [
          | inr (e, q) ↦ rw (take_snapshot, q₁, q) k
          | inl (_, q₂) ↦ rw (take_snapshot, q₁, q₂) k
        ]
      ]

  read_snapshot-with_snapshot :
      (stores : Stores) (fs : Fs) (s : SnapshotManager) (j : ℕ)
      → j < 2 ^ 64
      → j ≢ incr64 s.manifest.latest_snapshot_id
      → read_snapshot j (with_snapshot stores fs s).0 ≡ read_snapshot j fs
  unfolding read_snapshot
  read_snapshot-with_snapshot stores fs s j small ne =
      let id = incr64 s.manifest.latest_snapshot_id in
      let other : snapshot_name j ≢ snapshot_name id =
        λ e. ne (snapshot_name-injective j id small (omega arith) e) in
      rw (read_snapshot, read-write_snapshot id stores fs (snapshot_name j) other)

  -- Whatever `take_snapshot` returns, every snapshot but the one that it writes, whose id is the one
  -- behind the latest, reads as it did before.
  read_snapshot-take_snapshot :
      (stores : Stores) (fs : Fs) (s : SnapshotManager) (j : ℕ)
      → j < 2 ^ 64
      → j ≢ incr64 s.manifest.latest_snapshot_id
      → read_snapshot j (take_snapshot stores fs s).0 ≡ read_snapshot j fs
  read_snapshot-take_snapshot stores fs s j small ne =
      take_snapshot-files stores fs s j (read_snapshot-with_snapshot stores fs s j small ne)

  -- If the snapshot file is written and the manifest is not, `take_snapshot` returns the error, and
  -- all the same the manager recovers the new snapshot from the files that are left.
  take_snapshot-unrecorded :
      (stores : Stores) (fs : Fs) (s : SnapshotManager) (e : IoError)
      → s.manifest.latest_snapshot_id + 1 < 2 ^ 64
      → (with_snapshot stores fs s).1 ≡ ok tt
      → (with_manifest stores fs s).1 ≡ err e
      → ((take_snapshot stores fs s).2 ≡ err e)
        × (recover (take_snapshot stores fs s).1 (take_snapshot stores fs s).0
            ≡ ok (
              some (record {
                version = 1;
                snapshot_id = s.manifest.latest_snapshot_id + 1;
                stores = stores;
              }),
              unmerged s.manifest (take_snapshot stores fs s).0 wal_files,
            ))
  unfolding unmerged
  take_snapshot-unrecorded stores fs s e small h k =
      let id = incr64 s.manifest.latest_snapshot_id in
      let s₂ : SnapshotManager = record s { manifest = advanced s } in
      let fs₂ = (with_manifest stores fs s).0 in
      let positive : (id == 0) ≡ false = ground arith in
      let next : s.manifest.latest_snapshot_id + 1 ≡ id = omega arith in
      let there =
        read_snapshot-write_manifest id (advanced s) (with_snapshot stores fs s).0
        ∙ read_snapshot-write_snapshot id stores fs h in
      let logs = unmerged s.manifest fs₂ wal_files in
      rw (take_snapshot-failed_manifest stores fs s e h k) (
        refl,
        recover-some s₂ fs₂ _ positive there ∙ ap (λ (n : ℕ). recovered stores n logs) (sym next),
      )
