-- ===== src/Storage/PropStore.antt =====
-- src/storage/prop_store.rs: property values in columns, one for each label and property name.
pub mod Column
pub mod Cells
pub mod Replay
pub mod Logged
pub mod Recovery
use lightgraph.Base.{
  ℕ, zero, suc, ◌+◌, ◌-◌, ◌%◌, ◌^◌, Bool, true, false, Option, none, some, List, [], ◌∷◌, ◌++◌, ltb,
  leb, ◌==◌, ◌&&◌, if◌then◌else◌, length, read_exact, Bytes, max, option_map, u32_mod, to_le_bytes,
  from_le_bytes,
}
use lightgraph.Types.{LabelId}
use lightgraph.Extern.{DashMap, KeyMap, Bincode}
use lightgraph.Storage.Consistency.{Consistency}
use lightgraph.Storage.WalLog.{Replayed, done, replay_wal}
use lightgraph.Storage.WalThread.{WalThread, Env, spawn, send_insert, flush_now}
use lightgraph.Storage.NodeStore.{Opened, ok, failed, panicked, send_data}
use lightgraph.Storage.PropStore.Column.{Value, PropertyColumn}
use lightgraph.Storage.PropStore.Column

-- The key of a column; strings are their UTF-8 bytes.
abbrev pub ColumnKey : Type 0
ColumnKey = LabelId × Bytes

pub record PropStore (M L : Type 0) : Type 0 where
  pub columns : M
  -- `next_row` of each label's schema
  pub schemas : L
  pub wal : Option WalThread

-- label, name, row and value of the payload of a record, and `none` if the payload is too short
unfoldable pub parse_cell : Bytes → Option (LabelId × Bytes × ℕ × Bytes)
parse_cell payload = elim (leb 10 (length payload)) [
  | false ↦ none
  | true ↦ elim (read_exact 4 payload) [
    | none ↦ none
    | some (label, rest₁) ↦ elim (read_exact 1 rest₁) [
      | none ↦ none
      | some (name_len, rest₂) ↦ elim (read_exact (from_le_bytes name_len) rest₂) [
        | none ↦ none
        | some (name, rest₃) ↦ elim (read_exact 4 rest₃) [
          | none ↦ none
          | some (row, value) ↦ some (from_le_bytes label, name, from_le_bytes row, value)
        ]
      ]
    ]
  ]
]

-- what `wal_send_cell` puts in front of the value
unfoldable pub cell_header : LabelId → Bytes → ℕ → Bytes
cell_header label prop_name row =
    to_le_bytes 4 label ++ ((length prop_name % 256) ∷ (prop_name ++ to_le_bytes 4 row))

-- The values that a row has in the columns of its label.
unfoldable pub row_of : LabelId → ℕ → List (ColumnKey × PropertyColumn) → List (Bytes × Value)
row_of label row [] = []
row_of label row (((lbl, name), col) ∷ l) =
    let rest = row_of label row l in
    elim (lbl == label) [
      | false ↦ rest
      | true ↦ elim (Column.get row col) [ some (some value) ↦ (name, value) ∷ rest | _ ↦ rest ]
    ]

-- `from_utf8_lossy` is `lossy`: it changes no valid UTF-8.
module _ {M L : Type 0} ⦃D : KeyMap M ColumnKey PropertyColumn⦄ ⦃S : DashMap L ℕ⦄
    ⦃B : Bincode (Option Value)⦄ where
  unfoldable pub new : PropStore M L
  new = record { columns = D.empty; schemas = S.empty; wal = none }

  -- `entry(key).or_insert_with(…)` on the columns and on the schemas
  unfoldable pub column_of : ColumnKey → PropStore M L → PropertyColumn
  column_of key s = elim (D.get s.columns key) [ none ↦ Column.new | some c ↦ c ]

  unfoldable pub next_row_of : LabelId → PropStore M L → ℕ
  next_row_of label s = elim (S.get s.schemas label) [ none ↦ 0 | some n ↦ n ]

  -- the write of one cell: the column is made long enough and the cell set
  unfoldable pub write_cell : LabelId → Bytes → ℕ → Option Value → PropStore M L → PropStore M L
  unfolding column_of
  write_cell label prop row value s = record s {
    columns =
        D.insert s.columns (label, prop)
          (Column.set row value (Column.extend_to (row + 1) (column_of (label, prop) s))).1;
  }

  unfoldable pub replay_cell :
      (Bytes → Bytes) → LabelId × Bytes × ℕ × Bytes → PropStore M L → PropStore M L
  unfolding next_row_of write_cell
  replay_cell lossy (label, name, row, bytes) s = elim (B.deserialize bytes) [
    | none ↦ s
    | some value ↦
        (let s' = write_cell label (lossy name) row value s in
          record s' {
            schemas = S.insert s'.schemas label (max (next_row_of label s') ((row + 1) % u32_mod));
          })
  ]

  -- the closure of `open`
  unfoldable pub on_record : (Bytes → Bytes) → PropStore M L → ℕ → ℕ → Bytes → PropStore M L
  unfolding replay_cell
  on_record lossy s opcode id payload = elim (opcode == 1) [
    | false ↦ s
    | true ↦ elim (parse_cell payload) [ none ↦ s | some cell ↦ replay_cell lossy cell s ]
  ]

  unfoldable pub finish_replay : PropStore M L × Replayed → Opened (PropStore M L)
  finish_replay (s, done) = ok s
  finish_replay (s, e) = failed e

  unfoldable pub replay_file : (Bytes → Bytes) → Option Bytes → Opened (PropStore M L)
  unfolding finish_replay
  replay_file lossy none = ok new
  replay_file lossy (some file) =
      if ltb 4 (length file) then finish_replay (replay_wal (on_record lossy) file new) else ok new

  unfoldable pub with_wal : Option WalThread → PropStore M L → Opened (PropStore M L)
  with_wal none s = panicked
  with_wal (some t) s = ok (record s { wal = some t })

  -- `open`; `file` is the content of props.wal, if it is there
  unfoldable pub open_store : (Bytes → Bytes) → Option Bytes → Consistency → Opened (PropStore M L)
  unfolding replay_file with_wal
  open_store lossy file consistency = elim (replay_file lossy file) [
    | ok s ↦ with_wal (spawn file consistency.durability) s
    | failed e ↦ failed e
    | panicked ↦ panicked
  ]

  unfoldable pub wal_send_cell : LabelId → Bytes → ℕ → Option Value → PropStore M L → PropStore M L
  wal_send_cell label prop_name row value s =
      let payload =
        option_map (λ (value_bytes : Bytes). cell_header label prop_name row ++ value_bytes)
          (B.serialize value) in
      record s { wal = option_map (send_data label payload) s.wal }

  unfoldable pub alloc_row : LabelId → PropStore M L → ℕ × PropStore M L
  unfolding next_row_of
  alloc_row label s =
      let row = next_row_of label s in
      (row, record s { schemas = S.insert s.schemas label ((row + 1) % u32_mod) })

  unfoldable pub insert_prop :
      LabelId → Bytes → ℕ → Option Value → PropStore M L → ℕ × PropStore M L
  unfolding write_cell wal_send_cell
  insert_prop label prop row value s =
      (row, wal_send_cell label prop row value (write_cell label prop row value s))

  unfoldable pub get_prop : LabelId → Bytes → ℕ → PropStore M L → Option Value
  get_prop label prop row s = elim (D.get s.columns (label, prop)) [
    | none ↦ none
    | some col ↦ elim (Column.get row col) [ none ↦ none | some value ↦ value ]
  ]

  unfoldable pub set_prop :
      LabelId → Bytes → ℕ → Option Value → PropStore M L → Bool × PropStore M L
  unfolding wal_send_cell
  set_prop label prop row value s = elim (D.get s.columns (label, prop)) [
    | none ↦ (false, s)
    | some col ↦
        (let (found, col') = Column.set row value col in
          if found
          then (
            true,
            wal_send_cell label prop row value
                (record s { columns = D.insert s.columns (label, prop) col' }),
          )
          else (false, s))
  ]

  unfoldable pub insert_props : LabelId → ℕ → List (Bytes × Value) → PropStore M L → PropStore M L
  unfolding insert_prop
  insert_props label row [] s = s
  insert_props label row ((name, value) ∷ props) s =
      insert_props label row props (insert_prop label name row (some value) s).1

  unfoldable pub insert_row : LabelId → List (Bytes × Value) → PropStore M L → ℕ × PropStore M L
  unfolding alloc_row insert_props
  insert_row label props s =
      let (row, s') = alloc_row label s in (row, insert_props label row props s')

  unfoldable pub get_row : LabelId → ℕ → PropStore M L → List (Bytes × Value)
  unfolding row_of
  get_row label row s = row_of label row (D.entries s.columns)

  unfoldable pub column_count : PropStore M L → ℕ
  column_count s = length (D.entries s.columns)

  unfoldable pub label_count : PropStore M L → ℕ
  label_count s = length (S.entries s.schemas)

  unfoldable pub row_count : LabelId → PropStore M L → ℕ
  unfolding next_row_of
  row_count label s = next_row_of label s

  unfoldable pub flush : (ℕ → Env) → PropStore M L → PropStore M L
  flush env s = record s { wal = option_map (flush_now env) s.wal }
