-- ===== src/Storage/StoreLog.antt =====
-- src/storage/store_log.rs: the append-only log with group commit.
pub mod Appended
use lightgraph.Base.{
  ℕ, zero, suc, ◌+◌, ◌*◌, ◌%◌, ◌≡◌, refl, ap, sym, ◌∙◌, true, false, Option, none, some, [], ◌∷◌,
  ◌++◌, append_assoc, append-nil, Bool-cases, inl, inr, leb, ◌==◌, ◌||◌, if◌then◌else◌, length,
  Bytes, read_exact, u32_mod, u64_mod, to_le_bytes, from_le_bytes,
}
use lightgraph.Storage.WalLog.{
  magic, same_bytes, opcode_of, Replayed, done, bad_magic, unexpected_eof, out_of_fuel, op_insert,
  op_delete,
}
use lightgraph.Storage.WalThread.{is_empty, opened}

abbrev pub op_tombstone : ℕ
op_tombstone = 0

abbrev pub default_batch_bytes : ℕ
default_batch_bytes = 65536

-- in nanoseconds
abbrev pub default_batch_timeout : ℕ
default_batch_timeout = 5 * 1000000

-- The file as the operating system has it, and as it is on disk, stand for the writer. Its calls
-- succeed; what an error of one of them leaves in the writer is not modelled.
pub record StoreLog : Type 0 where
  pub buffer : Bytes
  pub batch_size : ℕ
  pub batch_timeout : ℕ
  pub bytes_written : ℕ
  pub written : Bytes
  pub synced : Bytes

-- `open_with_opts`; `file` is the file's content, if it is there
unfoldable pub open_with_opts : Option Bytes → ℕ → ℕ → StoreLog
open_with_opts file batch_size batch_timeout = record {
  buffer = [];
  batch_size = batch_size;
  batch_timeout = batch_timeout;
  bytes_written = length (opened file);
  written = opened file;
  synced = opened file;
}

unfoldable pub open_log : Option Bytes → StoreLog
unfolding open_with_opts
open_log file = open_with_opts file default_batch_bytes default_batch_timeout

unfoldable pub encode_record : Bytes → ℕ → Bytes → Bytes
encode_record buf opcode payload =
    buf ++ (to_le_bytes 4 (length payload % u32_mod) ++ opcode ∷ payload)

unfoldable pub flush_buffer : StoreLog → StoreLog
flush_buffer l = if is_empty l.buffer then l else record l { written = l.written ++ l.buffer }

-- `flush_buffer`, and then `sync_all`
unfoldable pub sync_now : StoreLog → StoreLog
unfolding flush_buffer
sync_now l = let l' = flush_buffer l in record l' { synced = l'.written }

-- `elapsed` is the time since the last sync.
unfoldable pub maybe_sync : ℕ → StoreLog → StoreLog
unfolding sync_now
maybe_sync elapsed l =
    if leb l.batch_size (length l.buffer) || leb l.batch_timeout elapsed
    then (let l' = sync_now l in
        record l' { bytes_written = (l'.bytes_written + length l'.buffer) % u64_mod; buffer = [] })
    else l

unfoldable pub append_insert : ℕ → Bytes → StoreLog → StoreLog
unfolding encode_record maybe_sync
append_insert elapsed payload l =
    maybe_sync elapsed (record l { buffer = encode_record l.buffer op_insert payload })

unfoldable pub append_delete : ℕ → Bytes → StoreLog → StoreLog
unfolding encode_record maybe_sync
append_delete elapsed id_bytes l =
    maybe_sync elapsed (record l { buffer = encode_record l.buffer op_delete id_bytes })

unfoldable pub flush : StoreLog → StoreLog
unfolding sync_now
flush l = sync_now l

unfoldable pub size_bytes : StoreLog → ℕ
size_bytes l = (l.bytes_written + length l.buffer) % u64_mod

module _ {ℓ} {S : Type ℓ} (on_record : S → ℕ → Bytes → S) where
  -- The loop reads from the rest of the file; each round takes at least 5 bytes.
  unfoldable pub replay_loop : ℕ → Bytes → S → S × Replayed
  replay_loop zero file s = (s, out_of_fuel)
  replay_loop (suc fuel) file s = elim (read_exact 4 file) [
    | none ↦ (s, done)
    | some (len_buf, file₁) ↦ elim (read_exact 1 file₁) [
      | none ↦ (s, unexpected_eof)
      | some (opcode, file₂) ↦ elim (read_exact (from_le_bytes len_buf) file₂) [
        | none ↦ (s, unexpected_eof)
        | some (payload, rest) ↦
            replay_loop fuel rest (
              if opcode_of opcode == op_tombstone
              then s
              else on_record s (opcode_of opcode) payload)
      ]
    ]
  ]

  unfoldable pub replay_log : Bytes → S → S × Replayed
  unfolding same_bytes
  replay_log file s = elim (read_exact 4 file) [
    | none ↦ (s, done)
    | some (m, rest) ↦ elim (same_bytes m magic) [
      | true ↦ replay_loop (suc (length rest)) rest s
      | false ↦ (s, bad_magic)
    ]
  ]

flush_buffer_lem : (l : StoreLog) → flush_buffer l ≡ record l { written = l.written ++ l.buffer }
unfolding flush_buffer
flush_buffer_lem l = go l.buffer l.written
  where
    go :
        (b w : Bytes)
        → flush_buffer (record l { buffer = b; written = w })
          ≡ record l { buffer = b; written = w ++ b }
    go [] w = ap (λ (z : Bytes). record l { buffer = []; written = z }) (sym (append-nil w))
    go (x ∷ b) w = refl

pub sync_now_lem :
    (l : StoreLog)
    → sync_now l ≡ record l { written = l.written ++ l.buffer; synced = l.written ++ l.buffer }
unfolding sync_now
sync_now_lem l = ap (λ (m : StoreLog). record m { synced = m.written }) (flush_buffer_lem l)

maybe_sync-late :
    (elapsed : ℕ) (l : StoreLog)
    → leb l.batch_timeout elapsed ≡ true
    → (maybe_sync elapsed l).synced ≡ (sync_now l).synced
unfolding maybe_sync
maybe_sync-late elapsed l h = elim (Bool-cases (leb l.batch_size (length l.buffer))) [
  | inl e ↦ rw e
  | inr e ↦ rw (e, h)
]

-- `flush` leaves the buffer as it is: an append that syncs after a `flush` writes what was in the
-- buffer a second time, in front of the new record.
append_insert-flush :
    (elapsed : ℕ) (payload : Bytes) (l : StoreLog)
    → leb l.batch_timeout elapsed ≡ true
    → (append_insert elapsed payload (flush l)).synced
      ≡ l.written ++ (l.buffer ++ encode_record l.buffer op_insert payload)
unfolding append_insert flush
append_insert-flush elapsed payload l h =
    let m = record (sync_now l) { buffer = encode_record (sync_now l).buffer op_insert payload } in
    let n : StoreLog = record l {
      buffer = encode_record l.buffer op_insert payload;
      written = l.written ++ l.buffer;
      synced = l.written ++ l.buffer;
    } in
    let same : m ≡ n =
      ap (λ (k : StoreLog). record k { buffer = encode_record k.buffer op_insert payload })
        (sync_now_lem l) in
    ap (λ (k : StoreLog). (maybe_sync elapsed k).synced) same
    ∙ maybe_sync-late elapsed n h
    ∙ ap (λ (k : StoreLog). k.synced) (sync_now_lem n)
    ∙ append_assoc l.written l.buffer (encode_record l.buffer op_insert payload)
