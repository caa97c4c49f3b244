-- ===== src/Snapshot/Manager.antt =====
-- The manifest, the snapshot files, and the manager of both. The directory is the argument of type
-- `Fs`, whose files are known by their names.
use lightgraph.Base.{
  ℕ, ◌+◌, ◌%◌, true, false, Bool, Option, none, some, List, [], ◌∷◌, ◌++◌, ◌==◌, ◌&&◌, ◌||◌, leb,
  not, if◌then◌else◌, Bytes, u64_mod, incr64,
}
use lightgraph.Types.{LabelId}
use lightgraph.Extern.{IoResult, ok, err, not_found, invalid_data, Files, Json, Bincode}
use lightgraph.Storage.Node.{Node}
use lightgraph.Storage.Edge.{Edge}
use lightgraph.Storage.PropStore.Column.{Value}
use lightgraph.Storage.WalLog.{same_bytes}
use lightgraph.Snapshot.Name.{snapshot_name, manifest_name}

pub record Manifest : Type 0 where
  pub latest_snapshot_id : ℕ
  pub latest_snapshot_path : Bytes
  pub merged_wal_files : List Bytes

unfoldable pub empty : Manifest
empty = record { latest_snapshot_id = 0; latest_snapshot_path = []; merged_wal_files = [] }

-- What the stores hand over to a snapshot, which are the last five fields of `SnapshotData`.
pub record Stores : Type 0 where
  pub nodes : List Node
  pub edges : List Edge
  pub prop_columns : List (LabelId × Bytes × List (Option Value))
  pub next_node_id : ℕ
  pub next_edge_id : ℕ

pub record SnapshotData : Type 0 where
  pub version : ℕ
  pub snapshot_id : ℕ
  pub stores : Stores

pub record SnapshotManager : Type 0 where
  pub manifest : Manifest
  pub wal_bytes_since_snapshot : ℕ
  pub snapshot_interval_bytes : ℕ

-- `contains` on the list of merged files
unfoldable pub contains_name : List Bytes → Bytes → Bool
unfolding same_bytes
contains_name [] n = false
contains_name (m ∷ ms) n = let rest = contains_name ms n in if same_bytes m n then true else rest

-- b"nodes.wal", b"edges.wal", b"props.wal"
abbrev pub wal_files : List Bytes
wal_files =
    (110 ∷ 111 ∷ 100 ∷ 101 ∷ 115 ∷ 46 ∷ 119 ∷ 97 ∷ 108 ∷ [])
    ∷ (101 ∷ 100 ∷ 103 ∷ 101 ∷ 115 ∷ 46 ∷ 119 ∷ 97 ∷ 108 ∷ [])
    ∷ (112 ∷ 114 ∷ 111 ∷ 112 ∷ 115 ∷ 46 ∷ 119 ∷ 97 ∷ 108 ∷ [])
    ∷ []

module _ {Fs : Type 0} ⦃FF : Files Fs⦄ where
  unfoldable pub unmerged : Manifest → Fs → List Bytes → List Bytes
  unfolding contains_name
  unmerged m fs [] = []
  unmerged m fs (f ∷ l) =
      let rest = unmerged m fs l in
      if not (contains_name m.merged_wal_files f) && FF.exists fs f then f ∷ rest else rest

  -- the result of `recover`, from that of `load_latest`
  unfoldable pub with_wal_files :
      Manifest → Fs → IoResult (Option SnapshotData) → IoResult (Option SnapshotData × List Bytes)
  unfolding unmerged
  with_wal_files m fs (err e) = err e
  with_wal_files m fs (ok none) = ok (none, [])
  with_wal_files m fs (ok (some d)) = ok (some d, unmerged m fs wal_files)

  module _ ⦃J : Json Manifest⦄ where
    unfoldable pub read_manifest : Fs → IoResult Manifest
    unfolding empty
    read_manifest fs = elim (FF.read fs manifest_name) [
      | ok text ↦ J.from_str text
      | err not_found ↦ ok empty
      | err e ↦ err e
    ]

    unfoldable pub write_manifest : Manifest → Fs → Fs × IoResult Unit
    write_manifest m fs = elim (J.to_string_pretty m) [
      | err e ↦ (fs, err e)
      | ok text ↦ FF.write fs manifest_name text
    ]

  module _ ⦃B : Bincode SnapshotData⦄ where
    -- The file is created before the data is serialized.
    unfoldable pub write_snapshot : ℕ → Stores → Fs → Fs × IoResult Unit
    write_snapshot id stores fs =
        let name = snapshot_name id in
        let (fs₁, r₁) = FF.create fs name in
        elim r₁ [
          | err e ↦ (fs₁, err e)
          | ok _ ↦ elim (B.serialize (record { version = 1; snapshot_id = id; stores = stores })) [
            | none ↦ (fs₁, err invalid_data)
            | some encoded ↦
                let (fs₂, r₂) = FF.write_all fs₁ name encoded in
                elim r₂ [
                  | err e ↦ (fs₂, err e)
                  | ok _ ↦
                      let (fs₃, r₃) = FF.flush fs₂ name in
                      elim r₃ [ err e ↦ (fs₃, err e) | ok _ ↦ FF.sync_all fs₃ name ]
                ]
          ]
        ]

    unfoldable pub read_snapshot : ℕ → Fs → IoResult SnapshotData
    read_snapshot id fs = elim (FF.read fs (snapshot_name id)) [
      | err e ↦ err e
      | ok buf ↦ elim (B.deserialize buf) [ none ↦ err invalid_data | some d ↦ ok d ]
    ]

    unfoldable pub load_latest : Manifest → Fs → IoResult (Option SnapshotData)
    unfolding read_snapshot
    load_latest m fs =
        if m.latest_snapshot_id == 0
        then ok none
        else (elim (read_snapshot m.latest_snapshot_id fs) [ err e ↦ err e | ok d ↦ ok (some d) ])

    unfoldable pub recover : SnapshotManager → Fs → IoResult (Option SnapshotData × List Bytes)
    unfolding load_latest with_wal_files
    recover s fs = with_wal_files s.manifest fs (load_latest s.manifest fs)

  module _ ⦃J : Json Manifest⦄ where
    unfoldable pub new : Fs → IoResult SnapshotManager
    unfolding read_manifest
    new fs = elim (read_manifest fs) [
      | err e ↦ err e
      | ok m ↦ ok (record {
        manifest = m;
        wal_bytes_since_snapshot = 0;
        snapshot_interval_bytes = 536870912;
      })
    ]

    unfoldable pub merge_wal : Bytes → Fs → SnapshotManager → Fs × SnapshotManager × IoResult Unit
    unfolding write_manifest
    merge_wal wal_file fs s =
        let m : Manifest = record (s.manifest) {
          merged_wal_files = s.manifest.merged_wal_files ++ wal_file ∷ [];
        } in
        let (fs', e) = write_manifest m fs in (fs', record s { manifest = m }, e)

    module _ ⦃B : Bincode SnapshotData⦄ where
      unfoldable pub take_snapshot :
          Stores → Fs → SnapshotManager → Fs × SnapshotManager × IoResult ℕ
      unfolding write_snapshot write_manifest
      take_snapshot stores fs s =
          let id = incr64 s.manifest.latest_snapshot_id in
          let (fs₁, r₁) = write_snapshot id stores fs in
          elim r₁ [
            | err e ↦ (fs₁, s, err e)
            | ok _ ↦
                let m : Manifest = record (s.manifest) {
                  latest_snapshot_id = id;
                  latest_snapshot_path = snapshot_name id;
                } in
                let (fs₂, r₂) = write_manifest m fs₁ in
                elim r₂ [
                  | err e ↦ (fs₂, record s { manifest = m }, err e)
                  | ok _ ↦ (fs₂, record s { manifest = m; wal_bytes_since_snapshot = 0 }, ok id)
                ]
          ]

unfoldable pub add_wal_bytes : ℕ → SnapshotManager → SnapshotManager
add_wal_bytes bytes s = record s {
  wal_bytes_since_snapshot = (s.wal_bytes_since_snapshot + bytes) % u64_mod;
}

unfoldable pub should_snapshot : SnapshotManager → Bool
should_snapshot s =
    s.manifest.latest_snapshot_id == 0 || leb s.snapshot_interval_bytes s.wal_bytes_since_snapshot
