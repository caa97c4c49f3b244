-- ===== src/Snapshot/Restart.antt =====
-- A snapshot that was taken is what recovery finds, also after a restart.
use lightgraph.Base.{
  ℕ, ◌+◌, ◌^◌, ◌<◌, ◌≡◌, refl, sym, ap, ◌∙◌, false, some, inl, inr, ◌==◌, arith, incr64,
}
use lightgraph.Extern.{IoResult, ok, err, Files, Json, Bincode}
use lightgraph.Snapshot.Name.{snapshot_name}
use lightgraph.Snapshot.Manager.{
  Manifest, Stores, SnapshotData, SnapshotManager, write_manifest, write_snapshot, read_snapshot,
  load_latest, unmerged, wal_files, recover, new, with_wal_files, take_snapshot,
}
use lightgraph.Snapshot.Written.{
  IoResult-cases, err_not_ok, read_manifest-write_manifest, read_snapshot-write_snapshot,
  read_snapshot-write_manifest,
}

-- The manifest that names the next snapshot.
abbrev pub advanced : SnapshotManager → Manifest
advanced s = record (s.manifest) {
  latest_snapshot_id = incr64 s.manifest.latest_snapshot_id;
  latest_snapshot_path = snapshot_name (incr64 s.manifest.latest_snapshot_id);
}

abbrev value_of : IoResult ℕ → ℕ
value_of (ok n) = n
value_of (err _) = 0

module _ {Fs : Type 0} ⦃FF : Files Fs⦄ ⦃J : Json Manifest⦄ ⦃B : Bincode SnapshotData⦄ where
  -- the files when the snapshot is written, and when the manifest is written behind it
  abbrev pub with_snapshot : Stores → Fs → SnapshotManager → Fs × IoResult Unit
  with_snapshot stores fs s = write_snapshot (incr64 s.manifest.latest_snapshot_id) stores fs

  abbrev pub with_manifest : Stores → Fs → SnapshotManager → Fs × IoResult Unit
  with_manifest stores fs s = write_manifest (advanced s) (with_snapshot stores fs s).0

  pub record Taken (stores : Stores) (fs : Fs) (s : SnapshotManager) (id : ℕ) : Type 0 where
    pub next : id ≡ incr64 s.manifest.latest_snapshot_id
    pub snapshot : (with_snapshot stores fs s).1 ≡ ok tt
    pub manifest : (with_manifest stores fs s).1 ≡ ok tt
    pub result : take_snapshot stores fs s ≡ (
      (with_manifest stores fs s).0,
      record s { manifest = advanced s; wal_bytes_since_snapshot = 0 },
      ok id,
    )

  pub take_snapshot-Taken :
      (stores : Stores) (fs : Fs) (s : SnapshotManager) (id : ℕ)
      → (take_snapshot stores fs s).2 ≡ ok id
      → Taken stores fs s id
  unfolding take_snapshot
  take_snapshot-Taken stores fs s id h = elim (IoResult-cases (with_snapshot stores fs s).1) [
    | inr (e, q) ↦ absurd (err_not_ok (rw (take_snapshot, q) at h))
    | inl (_, q₁) ↦ elim (IoResult-cases (with_manifest stores fs s).1) [
      | inr (e, q) ↦ absurd (err_not_ok (rw (take_snapshot, q₁, q) at h))
      | inl (_, q₂) ↦
          let same : id ≡ incr64 s.manifest.latest_snapshot_id =
            sym (ap value_of (rw (take_snapshot, q₁, q₂) at h)) in
          record {
            next = same;
            snapshot = q₁;
            manifest = q₂;
            result = rw (take_snapshot, q₁, q₂, same);
          }
    ]
  ]

  -- What recovery finds where the manifest names a snapshot that can be read.
  pub recover-some :
      (s : SnapshotManager) (fs : Fs) (d : SnapshotData)
      → (s.manifest.latest_snapshot_id == 0) ≡ false
      → read_snapshot s.manifest.latest_snapshot_id fs ≡ ok d
      → recover s fs ≡ ok (some d, unmerged s.manifest fs wal_files)
  unfolding recover load_latest with_wal_files
  recover-some s fs d h e =
      let loaded : load_latest s.manifest fs ≡ ok (some d) = rw (load_latest, h, e) in
      ap (with_wal_files s.manifest fs) loaded

  -- If `take_snapshot` returns an id, which is one more than the id of the snapshot before it, then a
  -- manager that is opened on the files that it leaves has its manifest, and recovers the stores that
  -- were handed over, under that id, with the logs that are there and were not merged. The ids of
  -- snapshots stay below 2^64.
  pub recover-take_snapshot :
      (stores : Stores) (fs : Fs) (s : SnapshotManager) (id : ℕ)
      → s.manifest.latest_snapshot_id + 1 < 2 ^ 64
      → (take_snapshot stores fs s).2 ≡ ok id
      → (m : SnapshotManager) × (new (take_snapshot stores fs s).0 ≡ ok m)
        × (m.manifest ≡ (take_snapshot stores fs s).1.manifest)
        × (id ≡ s.manifest.latest_snapshot_id + 1)
        × (recover m (take_snapshot stores fs s).0
            ≡ ok (
              some (record { version = 1; snapshot_id = id; stores = stores }),
              unmerged s.manifest (take_snapshot stores fs s).0 wal_files,
            ))
  unfolding new unmerged
  recover-take_snapshot stores fs s id small h =
      let k = take_snapshot-Taken stores fs s id h in
      let fs₂ = (with_manifest stores fs s).0 in
      let m : SnapshotManager = record {
        manifest = advanced s;
        wal_bytes_since_snapshot = 0;
        snapshot_interval_bytes = 536870912;
      } in
      let opened : new fs₂ ≡ ok m =
        rw (
          new,
          read_manifest-write_manifest (advanced s) (with_snapshot stores fs s).0 k.manifest,
        ) in
      let next : id ≡ s.manifest.latest_snapshot_id + 1 = omega (arith, k.next) in
      let positive : (incr64 s.manifest.latest_snapshot_id == 0) ≡ false = ground arith in
      let there =
        read_snapshot-write_manifest (incr64 s.manifest.latest_snapshot_id) (advanced s)
          (with_snapshot stores fs s).0
        ∙ read_snapshot-write_snapshot (incr64 s.manifest.latest_snapshot_id) stores fs
            k.snapshot in
      rw (k.result, k.next)
        (m, opened, refl, sym k.next ∙ next, recover-some m fs₂ _ positive there)
