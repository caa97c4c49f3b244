-- ===== src/Snapshot/Calls.antt =====
-- Sequences of calls on a manager, and the manifest file that they leave.
use lightgraph.Base.{ℕ, ◌≡◌, refl, List, [], ◌∷◌, Bytes}
use lightgraph.Extern.{ok, Files, Json, Bincode}
use lightgraph.Snapshot.Manager.{
  Manifest, Stores, SnapshotData, SnapshotManager, take_snapshot, merge_wal, add_wal_bytes, new,
  read_manifest,
}
use lightgraph.Snapshot.Name.{manifest_name}
use lightgraph.Snapshot.Written.{read_manifest-write_manifest}
use lightgraph.Snapshot.Restart.{with_snapshot, advanced, take_snapshot-Taken}

-- A call on a manager that changes it.
pub data Call : Type 0 where
  add : ℕ → Call
  take : Stores → Call
  merge : Bytes → Call

module _ {Fs : Type 0} ⦃FF : Files Fs⦄ ⦃J : Json Manifest⦄ ⦃B : Bincode SnapshotData⦄ where
  -- Calls one after another, whatever each of them returns.
  abbrev pub call : Call → Fs → SnapshotManager → Fs × SnapshotManager
  call (add n) fs s = (fs, add_wal_bytes n s)
  call (take stores) fs s = let r = take_snapshot stores fs s in (r.0, r.1)
  call (merge f) fs s = let r = merge_wal f fs s in (r.0, r.1)

  unfoldable pub call_each : List Call → Fs → SnapshotManager → Fs × SnapshotManager
  unfolding add_wal_bytes take_snapshot merge_wal
  call_each [] fs s = (fs, s)
  call_each (c ∷ cs) fs s = let (fs', s') = call c fs s in call_each cs fs' s'

  -- The manifest file says what the manager's manifest says.
  abbrev pub IsOnDisk : Fs → SnapshotManager → Type 0
  IsOnDisk fs s = read_manifest fs ≡ ok s.manifest

  -- The calls return no error.
  abbrev Succeeds : Call → Fs → SnapshotManager → Type 0
  Succeeds (add n) fs s = Unit
  Succeeds (take stores) fs s = (id : ℕ) × ((take_snapshot stores fs s).2 ≡ ok id)
  Succeeds (merge f) fs s = (merge_wal f fs s).2 ≡ ok tt

  abbrev pub AllSucceed : List Call → Fs → SnapshotManager → Type 0
  AllSucceed [] fs s = Unit
  AllSucceed (c ∷ cs) fs s = Succeeds c fs s × AllSucceed cs (call c fs s).0 (call c fs s).1

  pub merge_wal-IsOnDisk :
      (f : Bytes) (fs : Fs) (s : SnapshotManager)
      → (merge_wal f fs s).2 ≡ ok tt
      → IsOnDisk (merge_wal f fs s).0 (merge_wal f fs s).1
  unfolding merge_wal
  merge_wal-IsOnDisk f fs s h = read_manifest-write_manifest _ fs h

  take_snapshot-IsOnDisk :
      (stores : Stores) (fs : Fs) (s : SnapshotManager) (id : ℕ)
      → (take_snapshot stores fs s).2 ≡ ok id
      → IsOnDisk (take_snapshot stores fs s).0 (take_snapshot stores fs s).1
  take_snapshot-IsOnDisk stores fs s id h =
      let k = take_snapshot-Taken stores fs s id h in
      rw k.result
        (read_manifest-write_manifest (advanced s) (with_snapshot stores fs s).0 k.manifest)

  call-IsOnDisk :
      (c : Call) (fs : Fs) (s : SnapshotManager)
      → Succeeds c fs s
      → IsOnDisk fs s
      → IsOnDisk (call c fs s).0 (call c fs s).1
  unfolding add_wal_bytes
  call-IsOnDisk (add n) fs s h d = d
  call-IsOnDisk (take stores) fs s h d = take_snapshot-IsOnDisk stores fs s h.0 h.1
  call-IsOnDisk (merge f) fs s h d = merge_wal-IsOnDisk f fs s h

  pub call_each-IsOnDisk :
      (cs : List Call) (fs : Fs) (s : SnapshotManager)
      → AllSucceed cs fs s
      → IsOnDisk fs s
      → IsOnDisk (call_each cs fs s).0 (call_each cs fs s).1
  unfolding call_each
  call_each-IsOnDisk [] fs s h d = d
  call_each-IsOnDisk (c ∷ cs) fs s h d =
      call_each-IsOnDisk cs (call c fs s).0 (call c fs s).1 h.1 (call-IsOnDisk c fs s h.0 d)

  -- A manager that is opened where the manifest file can be read has that manifest.
  pub new-manifest :
      (m : Manifest) (fs : Fs)
      → read_manifest fs ≡ ok m
      → (s : SnapshotManager) × (new fs ≡ ok s) × (s.manifest ≡ m)
  unfolding new
  new-manifest m fs h = (
    record { manifest = m; wal_bytes_since_snapshot = 0; snapshot_interval_bytes = 536870912 },
    rw (new, h),
    refl,
  )

  pub read_manifest-same :
      (f g : Fs)
      → FF.read f manifest_name ≡ FF.read g manifest_name
      → read_manifest f ≡ read_manifest g
  unfolding read_manifest
  read_manifest-same f g e = rw (read_manifest, e)
