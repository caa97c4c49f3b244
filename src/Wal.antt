-- ===== src/Wal.antt =====
-- src/wal/mod.rs: the log of transactions with group commit, its writer and its reader.
pub mod Frames
pub mod Writer
pub mod Acknowledged
pub mod Retry
use lightgraph.Base.{
  ℕ, zero, suc, ◌-◌, ◌*◌, ◌%◌, true, false, none, some, List, [], ◌∷◌, ◌++◌, Bool, leb, ◌||◌,
  if◌then◌else◌, length, Bytes, u32_mod, to_le_bytes, from_le_bytes, Option,
}
use lightgraph.Types.{NodeId, EdgeId, TxId}
use lightgraph.Extern.{
  IoError, unexpected_eof, invalid_data, IoResult, ok, err, read_file_exact, Output, Bincode,
}

-- `P` is the `HashMap<String, Value>` of properties.
pub data WalRecord (P : Type 0) : Type 0 where
  begin : TxId → WalRecord P
  commit : TxId → WalRecord P
  rollback : TxId → WalRecord P
  node_create : TxId → NodeId → List Bytes → P → WalRecord P
  node_update : TxId → NodeId → P → WalRecord P
  node_delete : TxId → NodeId → WalRecord P
  edge_create : TxId → EdgeId → NodeId → NodeId → Bytes → P → WalRecord P
  edge_delete : TxId → EdgeId → WalRecord P
  checkpoint : ℕ → WalRecord P

-- Times are in nanoseconds.
pub record WalWriter (W : Type 0) : Type 0 where
  pub writer : W
  pub buffer : Bytes
  pub max_buffer_size : ℕ
  pub last_fsync : ℕ
  pub fsync_interval : ℕ

-- `expect` panics where the record does not serialize.
pub data Written : Type 0 where
  returned : IoResult Unit → Written
  panicked : Written

module _ {W : Type 0} where
  unfoldable pub opened_at : W → ℕ → WalWriter W
  opened_at file now = record {
    writer = file;
    buffer = [];
    max_buffer_size = 65536;
    last_fsync = now;
    fsync_interval = 100 * 1000;
  }

  -- `opened` is what the system answers to the opening of the file.
  unfoldable pub open_writer : IoResult W → ℕ → IoResult (WalWriter W)
  unfolding opened_at
  open_writer (err e) now = err e
  open_writer (ok file) now = ok (opened_at file now)

module _ {W : Type 0} ⦃O : Output W⦄ where
  -- `now` is the clock behind the sync.
  unfoldable pub flush : ℕ → WalWriter W → WalWriter W × IoResult Unit
  flush now w =
      let (w₁, r₁) = O.write_all w.writer w.buffer in
      elim r₁ [
        | err e ↦ (record w { writer = w₁ }, err e)
        | ok _ ↦
            let (w₂, r₂) = O.flush w₁ in
            elim r₂ [
              | err e ↦ (record w { writer = w₂ }, err e)
              | ok _ ↦
                  let (w₃, r₃) = O.sync_all w₂ in
                  elim r₃ [
                    | err e ↦ (record w { writer = w₃ }, err e)
                    | ok _ ↦ (record w { writer = w₃; buffer = []; last_fsync = now }, ok tt)
                  ]
            ]
      ]

  -- the test at the end of a write, at the time `now`
  unfoldable pub must_flush : ℕ → WalWriter W → Bool
  must_flush now w =
      leb w.max_buffer_size (length w.buffer) || leb w.fsync_interval (now - w.last_fsync)

  module _ {P : Type 0} ⦃B : Bincode (WalRecord P)⦄ where
    -- `later` is the clock at the end of a flush.
    unfoldable pub write : ℕ → ℕ → WalRecord P → WalWriter W → WalWriter W × Written
    unfolding flush must_flush
    write now later r w = elim (B.serialize r) [
      | none ↦ (w, panicked)
      | some bs ↦
          let w₁ : WalWriter W = record w {
            buffer = (w.buffer ++ to_le_bytes 4 (length bs % u32_mod)) ++ bs;
          } in
          if must_flush now w₁
          then (let (w₂, e) = flush later w₁ in (w₂, returned e))
          else (w₁, returned (ok tt))
    ]

module _ {P : Type 0} ⦃B : Bincode (WalRecord P)⦄ (fails : Bytes → ℕ → Bool) where
  -- The loop reads from the rest of the file; each round takes at least 4 bytes. `none` is a loop
  -- that is out of fuel, which is no outcome of the program.
  unfoldable pub replay_loop :
      ℕ → Bytes → List (WalRecord P) → Option (IoResult (List (WalRecord P)))
  replay_loop zero file records = none
  replay_loop (suc fuel) file records = elim (read_file_exact fails 4 file) [
    | err unexpected_eof ↦ some (ok records)
    | err e ↦ some (err e)
    | ok (len_buf, file₁) ↦ elim (read_file_exact fails (from_le_bytes len_buf) file₁) [
      | err e ↦ some (err e)
      | ok (bs, rest) ↦ elim (B.deserialize bs) [
        | none ↦ some (err invalid_data)
        | some r ↦ replay_loop fuel rest (records ++ r ∷ [])
      ]
    ]
  ]

  -- `replay` of a reader at the start of the file; where the reader stands behind it is left out.
  unfoldable pub replay : Bytes → Option (IoResult (List (WalRecord P)))
  replay file = replay_loop (suc (length file)) file []
