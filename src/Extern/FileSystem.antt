-- ===== src/Extern/FileSystem.antt =====
-- `std::io` and `std::fs`, whose calls can fail, and `serde_json`. A string stands by its bytes.
use lightgraph.Base.{
  ℕ, ◌≡◌, ◌≢◌, [], ◌++◌, Bytes, if◌then◌else◌, Bool, true, false, none, some, read_exact,
}

-- The kinds of errors that the program tells apart, and the ones it makes.
pub data IoError : Type 0 where
  not_found unexpected_eof invalid_data other : IoError

pub data IoResult (A : Type 0) : Type 0 where
  ok : A → IoResult A
  err : IoError → IoResult A

abbrev pub is_ok : {A : Type 0} → IoResult A → Bool
is_ok (ok _) = true
is_ok (err _) = false

-- `read_exact` on a file, as the rest that is not read yet; `fails` is the device's answer.
abbrev pub read_file_exact : (Bytes → ℕ → Bool) → ℕ → Bytes → IoResult (Bytes × Bytes)
read_file_exact fails n file =
    if fails file n
    then err other
    else (elim (read_exact n file) [ none ↦ err unexpected_eof | some r ↦ ok r ])

-- `BufWriter<File>` over a file opened for appending.
pub record Output (W : Type 0) : Type 0 where
  pub write_all : W → Bytes → W × IoResult Unit
  pub flush : W → W × IoResult Unit
  pub sync_all : W → W × IoResult Unit
  -- the file as it was opened with all that was handed over behind it; the file as the operating
  -- system has it; the file as it is on disk
  pub accepted : W → Bytes
  pub contents : W → Bytes
  pub on_disk : W → Bytes
  pub write_all-ok :
      (w : W) (bs : Bytes)
      → (write_all w bs).1 ≡ ok tt
      → accepted (write_all w bs).0 ≡ accepted w ++ bs
  pub flush-ok : (w : W) → (flush w).1 ≡ ok tt → contents (flush w).0 ≡ accepted w
  pub accepted-flush : (w : W) → accepted (flush w).0 ≡ accepted w
  pub sync_all-ok : (w : W) → (sync_all w).1 ≡ ok tt → on_disk (sync_all w).0 ≡ contents w
  pub accepted-sync_all : (w : W) → accepted (sync_all w).0 ≡ accepted w

-- The files of one directory, by their names.
pub record Files (Fs : Type 0) : Type 0 where
  -- `fs::read_to_string`, and `File::open` with `read_to_end`
  pub read : Fs → Bytes → IoResult Bytes
  pub exists : Fs → Bytes → Bool
  -- `fs::write`
  pub write : Fs → Bytes → Bytes → Fs × IoResult Unit
  -- `File::create`, and the calls of a `BufWriter` on the file
  pub create : Fs → Bytes → Fs × IoResult Unit
  pub write_all : Fs → Bytes → Bytes → Fs × IoResult Unit
  pub flush : Fs → Bytes → Fs × IoResult Unit
  pub sync_all : Fs → Bytes → Fs × IoResult Unit
  -- what was handed over to the writer of a file since it was created
  pub accepted : Fs → Bytes → Bytes
  pub write-ok :
      (f : Fs) (n bs : Bytes) → (write f n bs).1 ≡ ok tt → read (write f n bs).0 n ≡ ok bs
  pub create-ok : (f : Fs) (n : Bytes) → (create f n).1 ≡ ok tt → accepted (create f n).0 n ≡ []
  pub write_all-ok :
      (f : Fs) (n bs : Bytes)
      → (write_all f n bs).1 ≡ ok tt
      → accepted (write_all f n bs).0 n ≡ accepted f n ++ bs
  pub flush-ok :
      (f : Fs) (n : Bytes) → (flush f n).1 ≡ ok tt → read (flush f n).0 n ≡ ok (accepted f n)
  pub read-sync_all : (f : Fs) (n : Bytes) → read (sync_all f n).0 n ≡ read f n
  -- no call touches another file, and none removes a file
  pub read-write : (f : Fs) (n m bs : Bytes) → m ≢ n → read (write f n bs).0 m ≡ read f m
  pub read-create : (f : Fs) (n m : Bytes) → m ≢ n → read (create f n).0 m ≡ read f m
  pub read-write_all : (f : Fs) (n m bs : Bytes) → m ≢ n → read (write_all f n bs).0 m ≡ read f m
  pub read-flush : (f : Fs) (n m : Bytes) → m ≢ n → read (flush f n).0 m ≡ read f m
  pub read-sync_all-other : (f : Fs) (n m : Bytes) → m ≢ n → read (sync_all f n).0 m ≡ read f m

-- `serde_json` at one type: what it writes it reads back.
pub record Json (A : Type 0) : Type 0 where
  pub to_string_pretty : A → IoResult Bytes
  pub from_str : Bytes → IoResult A
  pub from_str-to_string_pretty :
      (a : A) (bs : Bytes) → to_string_pretty a ≡ ok bs → from_str bs ≡ ok a
