-- ===== src/Snapshot/Merged.antt =====
-- Which log files recovery hands over: those that are there and were never merged.
use lightgraph.Base.{
  ◌≡◌, refl, sym, ap, ◌∙◌, Bool, true, false, Bool-cases, not, ◌&&◌, Option, some, none, inl, inr,
  List, [], ◌∷◌, ◌++◌, arith, Bytes,
}
use lightgraph.Extern.{IoResult, ok, err, Files, Json, Bincode}
use lightgraph.Storage.WalLog.{same_bytes}
use lightgraph.Snapshot.Manager.{
  Manifest, Stores, SnapshotData, SnapshotManager, contains_name, wal_files, load_latest, unmerged,
  recover, with_wal_files, take_snapshot, merge_wal, add_wal_bytes, new, read_manifest,
}
use lightgraph.Snapshot.Calls.{
  Call, add, take, merge, call, call_each, AllSucceed, merge_wal-IsOnDisk, call_each-IsOnDisk,
  new-manifest, read_manifest-same,
}
use lightgraph.Snapshot.Name.{manifest_name}
use lightgraph.Snapshot.Written.{IoResult-cases}
use lightgraph.Snapshot.Restart.{with_snapshot, with_manifest}

same_bytes_refl : (xs : Bytes) → same_bytes xs xs ≡ true
unfolding same_bytes
same_bytes_refl [] = refl
same_bytes_refl (x ∷ xs) = ground (arith, same_bytes_refl xs)

same_bytes-equal : (xs ys : Bytes) → same_bytes xs ys ≡ true → xs ≡ ys
unfolding same_bytes
same_bytes-equal [] [] h = refl
same_bytes-equal [] (y ∷ ys) h = cc
same_bytes-equal (x ∷ xs) [] h = cc
same_bytes-equal (x ∷ xs) (y ∷ ys) h =
    let hd : x ≡ y = ground arith in
    let tl : xs ≡ ys = same_bytes-equal xs ys (ground arith) in cc (hd, tl)

contains_name-snoc : (ms : List Bytes) (n : Bytes) → contains_name (ms ++ n ∷ []) n ≡ true
unfolding contains_name
contains_name-snoc [] n = ground (arith, same_bytes_refl n)
contains_name-snoc (m ∷ ms) n = ground (arith, contains_name-snoc ms n)

contains_name-append :
    (ms : List Bytes) (m n : Bytes)
    → contains_name ms n ≡ true
    → contains_name (ms ++ m ∷ []) n ≡ true
unfolding contains_name
contains_name-append [] m n h = cc
contains_name-append (x ∷ ms) m n h = ground (arith, contains_name-append ms m n)

and-false : (a : Bool) → (a && false) ≡ false
and-false true = refl
and-false false = refl

module _ {Fs : Type 0} ⦃FF : Files Fs⦄ where
  unmerged_lem :
      (m : Manifest) (fs : Fs) (l : List Bytes) (n : Bytes)
      → contains_name (unmerged m fs l) n
        ≡ (contains_name l n && (not (contains_name m.merged_wal_files n) && FF.exists fs n))
  unfolding contains_name unmerged
  unmerged_lem m fs [] n = refl
  unmerged_lem m fs (f ∷ l) n = elim (Bool-cases (same_bytes f n)) [
    | inl q ↦
        let e : f ≡ n = same_bytes-equal f n q in
        ground (
          arith,
          unmerged_lem m fs l n,
          q,
          ap (contains_name m.merged_wal_files) e,
          ap (FF.exists fs) e,
        )
    | inr q ↦ ground (arith, unmerged_lem m fs l n, q)
  ]

abbrev pub files_of : {A : Type 0} → IoResult (A × List Bytes) → List Bytes
files_of (ok (_, l)) = l
files_of (err _) = []

abbrev pub merged : SnapshotManager → Bytes → Bool
merged s f = contains_name s.manifest.merged_wal_files f

abbrev has_snapshot : IoResult (Option SnapshotData × List Bytes) → Bool
has_snapshot (ok (some _, _)) = true
has_snapshot _ = false

module _ {Fs : Type 0} ⦃FF : Files Fs⦄ ⦃J : Json Manifest⦄ ⦃B : Bincode SnapshotData⦄ where
  take_snapshot-merged :
      (stores : Stores) (fs : Fs) (s : SnapshotManager)
      → (take_snapshot stores fs s).1.manifest.merged_wal_files ≡ s.manifest.merged_wal_files
  unfolding take_snapshot
  take_snapshot-merged stores fs s = elim (IoResult-cases (with_snapshot stores fs s).1) [
    | inr (e, q) ↦ rw (take_snapshot, q)
    | inl (_, q₁) ↦ elim (IoResult-cases (with_manifest stores fs s).1) [
      | inr (e, q) ↦ rw (take_snapshot, q₁, q)
      | inl (_, q₂) ↦ rw (take_snapshot, q₁, q₂)
    ]
  ]

  call-merged :
      (c : Call) (fs : Fs) (s : SnapshotManager) (f : Bytes)
      → merged s f ≡ true
      → merged (call c fs s).1 f ≡ true
  unfolding add_wal_bytes merge_wal
  call-merged (add n) fs s f h = h
  call-merged (take stores) fs s f h =
      ap (λ (ms : List Bytes). contains_name ms f) (take_snapshot-merged stores fs s) ∙ h
  call-merged (merge g) fs s f h = contains_name-append s.manifest.merged_wal_files g f h

  call_each-merged :
      (cs : List Call) (fs : Fs) (s : SnapshotManager) (f : Bytes)
      → merged s f ≡ true
      → merged (call_each cs fs s).1 f ≡ true
  unfolding call_each
  call_each-merged [] fs s f h = h
  call_each-merged (c ∷ cs) fs s f h =
      call_each-merged cs (call c fs s).0 (call c fs s).1 f (call-merged c fs s f h)

  with_wal_files-some :
      (m : Manifest) (fs : Fs) (r : IoResult (Option SnapshotData))
      → has_snapshot (with_wal_files m fs r) ≡ true
      → files_of (with_wal_files m fs r) ≡ unmerged m fs wal_files
  unfolding with_wal_files
  with_wal_files-some m fs (err e) h = cc
  with_wal_files-some m fs (ok none) h = cc
  with_wal_files-some m fs (ok (some d)) h = refl

  -- Where recovery finds a snapshot, the log files that it hands over are the ones among the three
  -- of the stores that are there and that the manifest does not list as merged.
  recover-unmerged :
      (fs : Fs) (s : SnapshotManager) (d : SnapshotData) (l : List Bytes) (f : Bytes)
      → recover s fs ≡ ok (some d, l)
      → contains_name l f ≡ (contains_name wal_files f && (not (merged s f) && FF.exists fs f))
  unfolding recover
  recover-unmerged fs s d l f h =
      let listed : l ≡ unmerged s.manifest fs wal_files =
        sym (ap files_of h)
        ∙ with_wal_files-some s.manifest fs (load_latest s.manifest fs) (ap has_snapshot h) in
      ap (λ (z : List Bytes). contains_name z f) listed ∙ unmerged_lem s.manifest fs wal_files f

  with_wal_files-merged :
      (m : Manifest) (fs : Fs) (r : IoResult (Option SnapshotData)) (f : Bytes)
      → contains_name m.merged_wal_files f ≡ true
      → contains_name (files_of (with_wal_files m fs r)) f ≡ false
  unfolding with_wal_files contains_name
  with_wal_files-merged m fs (err e) f h = refl
  with_wal_files-merged m fs (ok none) f h = refl
  with_wal_files-merged m fs (ok (some d)) f h = unmerged_lem m fs wal_files f ∙ rw h (and-false _)

  -- After a merge of a log file that returns no error, and any calls behind it that return none, more
  -- snapshots and merges among them, a manager that is opened on a directory with the manifest file
  -- that they leave never hands the file over in a recovery, whatever was written to it since. Nor
  -- does the manager that made the calls.
  pub recover-merged :
      (fs now : Fs) (s : SnapshotManager) (f : Bytes) (cs : List Call)
      → (merge_wal f fs s).2 ≡ ok tt
      → AllSucceed cs (merge_wal f fs s).0 (merge_wal f fs s).1
      → FF.read now manifest_name
        ≡ FF.read (call_each cs (merge_wal f fs s).0 (merge_wal f fs s).1).0 manifest_name
      → (m : SnapshotManager) × (new now ≡ ok m)
        × (contains_name (files_of (recover m now)) f ≡ false)
        × (contains_name
              (files_of (recover (call_each cs (merge_wal f fs s).0 (merge_wal f fs s).1).1 now))
              f
            ≡ false)
  unfolding recover
  recover-merged fs now s f cs wrote went same =
      let fs₁ = (merge_wal f fs s).0 in
      let s₁ = (merge_wal f fs s).1 in
      let s₂ = (call_each cs fs₁ s₁).1 in
      let disk : read_manifest now ≡ ok s₂.manifest =
        read_manifest-same now (call_each cs fs₁ s₁).0 same
        ∙ call_each-IsOnDisk cs fs₁ s₁ went (merge_wal-IsOnDisk f fs s wrote) in
      let (m, opened, listed) = new-manifest s₂.manifest now disk in
      let first : merged s₁ f ≡ true =
        unfold merge_wal in contains_name-snoc s.manifest.merged_wal_files f in
      let kept : merged s₂ f ≡ true = call_each-merged cs fs₁ s₁ f first in
      let kept_m : merged m f ≡ true =
        ap (λ (x : Manifest). contains_name x.merged_wal_files f) listed ∙ kept in
      (
        m,
        opened,
        with_wal_files-merged m.manifest now (load_latest m.manifest now) f kept_m,
        with_wal_files-merged s₂.manifest now (load_latest s₂.manifest now) f kept,
      )
