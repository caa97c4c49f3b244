-- ===== src/Tests/Logs.antt =====
-- The log of transactions at concrete inputs.
use lightgraph.Base.{
  ℕ, ◌≡◌, refl, sym, ap, Bool, false, Option, none, some, List, [], ◌∷◌, arith, Bytes, to_le_bytes,
  read_exact, from_le_bytes,
}
use lightgraph.Extern.{ok, Bincode}
use lightgraph.Extern.Devices.{Device, device_output}
use lightgraph.Wal.{
  WalRecord, WalWriter, returned, opened_at, flush, must_flush, write, replay, replay_loop,
}
use lightgraph.Wal.Frames.{frames}
use lightgraph.Wal.Writer.{Wrote, write-Wrote}
use lightgraph.Wal.Acknowledged.{Timed}

-- Three kinds of records, told apart by their lengths.
abbrev to_bytes : WalRecord ℕ → Option Bytes
to_bytes (WalRecord.begin t) = some (t ∷ [])
to_bytes (WalRecord.commit t) = some (t ∷ 0 ∷ [])
to_bytes (WalRecord.node_delete t n) = some (t ∷ n ∷ 0 ∷ [])
to_bytes _ = none

abbrev of_bytes : Bytes → Option (WalRecord ℕ)
of_bytes (t ∷ []) = some (WalRecord.begin t)
of_bytes (t ∷ _ ∷ []) = some (WalRecord.commit t)
of_bytes (t ∷ n ∷ _ ∷ []) = some (WalRecord.node_delete t n)
of_bytes _ = none

abbrev of_written : Option Bytes → Option (WalRecord ℕ)
of_written none = none
of_written (some bs) = of_bytes bs

of_bytes-to_bytes : (r : WalRecord ℕ) (bs : Bytes) → to_bytes r ≡ some bs → of_bytes bs ≡ some r
of_bytes-to_bytes (WalRecord.begin t) bs h = sym (ap of_written h)
of_bytes-to_bytes (WalRecord.commit t) bs h = sym (ap of_written h)
of_bytes-to_bytes (WalRecord.node_delete t n) bs h = sym (ap of_written h)
of_bytes-to_bytes (WalRecord.rollback t) bs h = cc
of_bytes-to_bytes (WalRecord.node_create t n ls p) bs h = cc
of_bytes-to_bytes (WalRecord.node_update t n p) bs h = cc
of_bytes-to_bytes (WalRecord.edge_create t e a b s p) bs h = cc
of_bytes-to_bytes (WalRecord.edge_delete t e) bs h = cc
of_bytes-to_bytes (WalRecord.checkpoint s) bs h = cc

instance abbrev record_codec : Bincode (WalRecord ℕ)
record_codec = record {
  serialize = to_bytes;
  deserialize = of_bytes;
  deserialize-serialize = of_bytes-to_bytes;
}

-- a transaction, and a log file that holds the begin of another
abbrev transaction : List (Timed ℕ)
transaction =
    (1000, 1001, WalRecord.begin 7)
    ∷ (2000, 2001, WalRecord.node_delete 7 3)
    ∷ (300000, 300001, WalRecord.commit 7)
    ∷ []

abbrev bytes_of : List Bytes
bytes_of = (7 ∷ []) ∷ (7 ∷ 3 ∷ 0 ∷ []) ∷ (7 ∷ 0 ∷ []) ∷ []

abbrev old_file : Bytes
old_file = frames ((6 ∷ []) ∷ [])

abbrev device : List Bool → Device
device syncs = record { handed = old_file; file = old_file; disk = old_file; syncs = syncs }

abbrev old_records : List (WalRecord ℕ)
old_records = WalRecord.begin 6 ∷ []

abbrev begin_record : WalRecord ℕ
begin_record = WalRecord.begin 7

abbrev buffered : List (WalRecord ℕ)
buffered = WalRecord.begin 8 ∷ []

abbrev no_failure : Bytes → ℕ → Bool
no_failure file n = false

replay_transaction : replay no_failure old_file ≡ some (ok old_records)
unfolding replay replay_loop frames to_le_bytes from_le_bytes read_exact
replay_transaction = refl

-- a writer whose buffer holds one record, and whose next sync fails
abbrev pending : WalWriter Device
pending = record (opened_at (device (false ∷ [])) 0) { buffer = frames ((8 ∷ []) ∷ []) }

write_begin : (write 1000 1001 begin_record (opened_at (device []) 0)).1 ≡ returned (ok tt)
unfolding write flush must_flush opened_at to_le_bytes
write_begin = refl

write-Wrote_example :
    Wrote
      (7 ∷ [])
      (opened_at (device []) 0)
      (write 1000 1001 begin_record (opened_at (device []) 0)).0
write-Wrote_example =
    write-Wrote 1000 1001 begin_record (7 ∷ []) (opened_at (device []) 0) refl
      (unfold opened_at in omega arith) write_begin
