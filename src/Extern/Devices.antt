-- ===== src/Extern/Devices.antt =====
-- A concrete device for a log file, and concrete files of a directory, at which theorems that take
-- them are tried out.
use lightgraph.Base.{
  ◌≡◌, ◌≢◌, refl, sym, Bool, true, false, Bool-cases, inl, inr, Option, none, some, List, [], ◌∷◌,
  ◌++◌, arith, Bytes, if◌then◌else◌,
}
use lightgraph.Extern.FileSystem.{IoResult, ok, err, not_found, other, Output, Files}
use lightgraph.Extern.Models.{same_bytes, same_bytes_self, same_bytes_equal}

-- A device takes all bytes; `syncs` are its answers to the next syncs, and behind them it succeeds.
pub record Device : Type 0 where
  pub handed : Bytes
  pub file : Bytes
  pub disk : Bytes
  pub syncs : List Bool

abbrev sync_device : Device → Device × IoResult Unit
sync_device d = elim d.syncs [
  | [] ↦ (record d { disk = d.file }, ok tt)
  | true ∷ l ↦ (record d { disk = d.file; syncs = l }, ok tt)
  | false ∷ l ↦ (record d { syncs = l }, err other)
]

pub sync_device-ok :
    (h f k : Bytes) (l : List Bool)
    → (sync_device (record { handed = h; file = f; disk = k; syncs = l })).1 ≡ ok tt
    → (sync_device (record { handed = h; file = f; disk = k; syncs = l })).0.disk ≡ f
sync_device-ok h f k [] e = refl
sync_device-ok h f k (true ∷ l) e = refl
sync_device-ok h f k (false ∷ l) e = cc

pub sync_device-handed :
    (h f k : Bytes) (l : List Bool)
    → (sync_device (record { handed = h; file = f; disk = k; syncs = l })).0.handed ≡ h
sync_device-handed h f k [] = refl
sync_device-handed h f k (true ∷ l) = refl
sync_device-handed h f k (false ∷ l) = refl

instance abbrev pub device_output : Output Device
device_output = record {
  write_all = λ d bs. (record d { handed = d.handed ++ bs }, ok tt);
  flush = λ d. (record d { file = d.handed }, ok tt);
  sync_all = sync_device;
  accepted = λ d. d.handed;
  contents = λ d. d.file;
  on_disk = λ d. d.disk;
  write_all-ok = λ d bs h. refl;
  flush-ok = λ d h. refl;
  accepted-flush = λ d. refl;
  sync_all-ok = λ d h. sync_device-ok d.handed d.file d.disk d.syncs h;
  accepted-sync_all = λ d. sync_device-handed d.handed d.file d.disk d.syncs;
}

-- The files with their contents, the last write first, and the names that cannot be written.
pub record Directory : Type 0 where
  pub files : List (Bytes × Bytes)
  pub locked : List Bytes

abbrev find : List (Bytes × Bytes) → Bytes → Option Bytes
find [] n = none
find ((m, bs) ∷ l) n = let rest = find l n in if same_bytes m n then some bs else rest

abbrev is_locked : List Bytes → Bytes → Bool
is_locked [] n = false
is_locked (m ∷ l) n = let rest = is_locked l n in if same_bytes m n then true else rest

abbrev read_file : Directory → Bytes → IoResult Bytes
read_file f n = elim (find f.files n) [ none ↦ err not_found | some bs ↦ ok bs ]

abbrev pub is_there : Directory → Bytes → Bool
is_there f n = elim (find f.files n) [ none ↦ false | some _ ↦ true ]

abbrev content_of : Directory → Bytes → Bytes
content_of f n = elim (find f.files n) [ none ↦ [] | some bs ↦ bs ]

abbrev put : Directory → Bytes → Bytes → Directory × IoResult Unit
put f n bs =
    if is_locked f.locked n then (f, err other) else (record f { files = (n, bs) ∷ f.files }, ok tt)

abbrev touch : Directory → Bytes → Directory × IoResult Unit
touch f n = (f, if is_there f n then ok tt else err other)

pub put-ok :
    (f : Directory) (n bs : Bytes) → (put f n bs).1 ≡ ok tt → read_file (put f n bs).0 n ≡ ok bs
put-ok f n bs h = ground (arith, same_bytes_self n)

pub put-content :
    (f : Directory) (n bs : Bytes) → (put f n bs).1 ≡ ok tt → content_of (put f n bs).0 n ≡ bs
put-content f n bs h = ground (arith, same_bytes_self n)

pub put-other :
    (f : Directory) (n m bs : Bytes) → m ≢ n → read_file (put f n bs).0 m ≡ read_file f m
put-other f n m bs ne = elim (Bool-cases (same_bytes n m)) [
  | inl q ↦ absurd (ne (sym (same_bytes_equal n m q)))
  | inr q ↦ ground (arith, q)
]

pub touch-ok :
    (f : Directory) (n : Bytes)
    → (touch f n).1 ≡ ok tt
    → read_file (touch f n).0 n ≡ ok (content_of f n)
touch-ok f n h = ground arith

instance abbrev pub directory_files : Files Directory
directory_files = record {
  read = read_file;
  exists = is_there;
  write = put;
  create = λ f n. put f n [];
  write_all = λ f n bs. put f n (content_of f n ++ bs);
  flush = touch;
  sync_all = touch;
  accepted = content_of;
  write-ok = put-ok;
  create-ok = λ f n h. put-content f n [] h;
  write_all-ok = λ f n bs h. put-content f n (content_of f n ++ bs) h;
  flush-ok = touch-ok;
  read-sync_all = λ f n. refl;
  read-write = put-other;
  read-create = λ f n m ne. put-other f n m [] ne;
  read-write_all = λ f n m bs ne. put-other f n m (content_of f n ++ bs) ne;
  read-flush = λ f n m ne. refl;
  read-sync_all-other = λ f n m ne. refl;
}
