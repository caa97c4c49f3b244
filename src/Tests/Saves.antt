-- ===== src/Tests/Saves.antt =====
-- Snapshots at concrete inputs.
use lightgraph.Base.{
  ℕ, zero, suc, ◌+◌, ◌≡◌, refl, sym, ap, ◌∙◌, false, Option, none, some, List, [], ◌∷◌, ◌++◌, arith,
  Bytes, read_exact, read_exact-append, length, leb,
}
use lightgraph.Extern.{IoResult, ok, err, invalid_data, other, Json, Bincode}
use lightgraph.Extern.Devices.{Directory, directory_files}
use lightgraph.Types.{LabelId}
use lightgraph.Storage.Node.{Node}
use lightgraph.Storage.Edge.{Edge}
use lightgraph.Storage.PropStore.Column.{Value}
use lightgraph.Snapshot.{
  Manifest, Stores, SnapshotData, SnapshotManager, new, recover, unmerged, wal_files,
  write_snapshot, write_manifest, take_snapshot, merge_wal, should_snapshot, contains_name,
  add_wal_bytes,
}
use lightgraph.Snapshot.Name.{snapshot_name, manifest_name}
use lightgraph.Snapshot.Restart.{recover-take_snapshot, with_snapshot, with_manifest}
use lightgraph.Snapshot.Calls.{Call, call_each, AllSucceed}
use lightgraph.Snapshot.Merged.{files_of, recover-merged}
use lightgraph.Snapshot.Due.{sum, add_each, should_snapshot-take_snapshot}

-- An encoding of manifests with at most one merged file.
abbrev to_text : Manifest → IoResult Bytes
to_text m = elim m.merged_wal_files [
  | [] ↦ ok (m.latest_snapshot_id ∷ 0 ∷ m.latest_snapshot_path)
  | f ∷ l ↦ elim l [
    | [] ↦
        ok (
          m.latest_snapshot_id
          ∷ suc (length m.latest_snapshot_path)
          ∷ (m.latest_snapshot_path ++ f))
    | _ ∷ _ ↦ err invalid_data
  ]
]

abbrev split_path : ℕ → Option (Bytes × Bytes) → IoResult Manifest
split_path id none = err invalid_data
split_path id (some (path, f)) =
    ok (record { latest_snapshot_id = id; latest_snapshot_path = path; merged_wal_files = f ∷ [] })

abbrev of_text : Bytes → IoResult Manifest
of_text (id ∷ zero ∷ path) =
    ok (record { latest_snapshot_id = id; latest_snapshot_path = path; merged_wal_files = [] })
of_text (id ∷ suc n ∷ rest) = split_path id (read_exact n rest)
of_text _ = err invalid_data

abbrev of_result : IoResult Bytes → IoResult Manifest
of_result (ok text) = of_text text
of_result (err e) = err e

of_text-to_text : (m : Manifest) (text : Bytes) → to_text m ≡ ok text → of_text text ≡ ok m
of_text-to_text m text h = go m.latest_snapshot_id m.latest_snapshot_path m.merged_wal_files h
  where
    go :
        (id : ℕ) (path : Bytes) (fs : List Bytes)
        → to_text
            (record { latest_snapshot_id = id; latest_snapshot_path = path; merged_wal_files = fs })
          ≡ ok text
        → of_text text
          ≡ ok (record {
            latest_snapshot_id = id;
            latest_snapshot_path = path;
            merged_wal_files = fs;
          })
    go id path [] k = sym (ap of_result k)
    go id path (f ∷ []) k =
        sym (ap of_result k) ∙ ap (split_path id) (read_exact-append (length path) path f refl)
    go id path (f ∷ g ∷ l) k = cc

instance abbrev manifest_json : Json Manifest
manifest_json = record {
  to_string_pretty = to_text;
  from_str = of_text;
  from_str-to_string_pretty = of_text-to_text;
}

-- An encoding of snapshots of stores that are empty but for their next ids.
abbrev to_blob : SnapshotData → Option Bytes
to_blob d = elim d.stores.nodes [
  | _ ∷ _ ↦ none
  | [] ↦ elim d.stores.edges [
    | _ ∷ _ ↦ none
    | [] ↦ elim d.stores.prop_columns [
      | _ ∷ _ ↦ none
      | [] ↦ some (d.version ∷ d.snapshot_id ∷ d.stores.next_node_id ∷ d.stores.next_edge_id ∷ [])
    ]
  ]
]

abbrev stores_with : ℕ → ℕ → Stores
stores_with n e = record {
  nodes = [];
  edges = [];
  prop_columns = [];
  next_node_id = n;
  next_edge_id = e;
}

abbrev of_blob : Bytes → Option SnapshotData
of_blob (v ∷ i ∷ n ∷ e ∷ []) =
    some (record { version = v; snapshot_id = i; stores = stores_with n e })
of_blob _ = none

abbrev of_blob_option : Option Bytes → Option SnapshotData
of_blob_option none = none
of_blob_option (some bs) = of_blob bs

abbrev with_lists :
    List Node
    → List Edge
    → List (LabelId × Bytes × List (Option Value))
    → SnapshotData
    → SnapshotData
with_lists ns es cs d = record d {
  stores = record (d.stores) { nodes = ns; edges = es; prop_columns = cs };
}

of_blob-to_blob : (d : SnapshotData) (bs : Bytes) → to_blob d ≡ some bs → of_blob bs ≡ some d
of_blob-to_blob d bs h = go d.stores.nodes d.stores.edges d.stores.prop_columns h
  where
    go :
        (ns : List Node) (es : List Edge) (cs : List (LabelId × Bytes × List (Option Value)))
        → to_blob (with_lists ns es cs d) ≡ some bs
        → of_blob bs ≡ some (with_lists ns es cs d)
    go [] [] [] k = sym (ap of_blob_option k)
    go (n ∷ ns) es cs k = cc
    go [] (e ∷ es) cs k = cc
    go [] [] (c ∷ cs) k = cc

instance abbrev snapshot_codec : Bincode SnapshotData
snapshot_codec = record {
  serialize = to_blob;
  deserialize = of_blob;
  deserialize-serialize = of_blob-to_blob;
}

-- b"nodes.wal"
abbrev nodes_wal : Bytes
nodes_wal = 110 ∷ 111 ∷ 100 ∷ 101 ∷ 115 ∷ 46 ∷ 119 ∷ 97 ∷ 108 ∷ []

abbrev directory : List Bytes → Directory
directory locked = record { files = (nodes_wal, 1 ∷ 2 ∷ []) ∷ []; locked = locked }

abbrev manager : SnapshotManager
manager = record {
  manifest = record { latest_snapshot_id = 0; latest_snapshot_path = []; merged_wal_files = [] };
  wal_bytes_since_snapshot = 9;
  snapshot_interval_bytes = 1000;
}

taken : (take_snapshot (stores_with 5 6) (directory []) manager).2 ≡ ok 1
unfolding take_snapshot snapshot_name
taken = refl

abbrev first_stores : Stores
first_stores = stores_with 5 6

abbrev after : Directory
after = (take_snapshot first_stores (directory []) manager).0

recover-take_snapshot_example :
    (m : SnapshotManager) × (new after ≡ ok m)
    × (m.manifest ≡ (take_snapshot first_stores (directory []) manager).1.manifest)
    × (◌≡◌ {A = ℕ} 1 (0 + 1))
    × (recover m after
        ≡ ok (
          some (record { version = 1; snapshot_id = 1; stores = first_stores }),
          unmerged manager.manifest after wal_files,
        ))
recover-take_snapshot_example =
    recover-take_snapshot first_stores (directory []) manager 1 (omega arith) taken

-- a directory in which the first snapshot cannot be written
abbrev no_snapshot : Directory
no_snapshot = directory (snapshot_name 1 ∷ [])

-- the manager that is opened on a directory without a manifest
abbrev fresh : SnapshotManager
fresh = record {
  manifest = record { latest_snapshot_id = 0; latest_snapshot_path = []; merged_wal_files = [] };
  wal_bytes_since_snapshot = 0;
  snapshot_interval_bytes = 536870912;
}

-- a directory in which the manifest cannot be written
abbrev no_manifest : Directory
no_manifest = directory (manifest_name ∷ [])

snapshot_writes : (with_snapshot first_stores no_manifest manager).1 ≡ ok tt
unfolding write_snapshot snapshot_name
snapshot_writes = refl

manifest_fails : (with_manifest first_stores no_manifest manager).1 ≡ err other
unfolding write_snapshot write_manifest snapshot_name
manifest_fails = refl

-- the calls behind a merge of the log of nodes
abbrev calls : List Call
calls = Call.take first_stores ∷ Call.add 44 ∷ Call.take (stores_with 8 9) ∷ []

abbrev merge_step : Directory × SnapshotManager × IoResult Unit
merge_step = merge_wal nodes_wal (directory []) manager

merge_writes : merge_step.2 ≡ ok tt
unfolding merge_wal
merge_writes = refl

calls-AllSucceed : AllSucceed calls merge_step.0 merge_step.1
unfolding take_snapshot merge_wal add_wal_bytes snapshot_name
calls-AllSucceed = ((1, refl), (tt, ((2, refl), tt)))

abbrev files_after : Directory
files_after = (call_each calls merge_step.0 merge_step.1).0

recover-merged_example :
    (m : SnapshotManager) × (new files_after ≡ ok m)
    × (contains_name (files_of (recover m files_after)) nodes_wal ≡ false)
    × (contains_name
          (files_of (recover (call_each calls merge_step.0 merge_step.1).1 files_after))
          nodes_wal
        ≡ false)
recover-merged_example =
    recover-merged (directory []) files_after manager nodes_wal calls merge_writes calls-AllSucceed
      refl

-- a manager that has taken one snapshot
abbrev second_manager : SnapshotManager
second_manager = (take_snapshot first_stores (directory []) manager).1

recovered :
    recover second_manager after
    ≡ ok (some (record { version = 1; snapshot_id = 1; stores = first_stores }), nodes_wal ∷ [])
unfolding recover take_snapshot snapshot_name contains_name
recovered = refl

should_snapshot-take_snapshot_example :
    should_snapshot
      (add_each (400 ∷ 700 ∷ []) (take_snapshot first_stores (directory []) manager).1)
    ≡ leb 1000 (sum (400 ∷ 700 ∷ []))
should_snapshot-take_snapshot_example =
    should_snapshot-take_snapshot first_stores (directory []) manager 1 (400 ∷ 700 ∷ [])
      (omega arith) (omega arith) taken
