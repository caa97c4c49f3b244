-- ===== src/Tests/Cells.antt =====
-- Recovery of a concrete property log.
use lightgraph.Base.{
  ℕ, ◌<◌, ◌≡◌, refl, none, some, Option, List, [], ◌∷◌, arith, length, to_le_bytes, Bytes,
}
use lightgraph.Storage.Consistency.{balanced, immediate_consistency, batch_bytes, fsync_enabled}
use lightgraph.Extern.Models.{assoc_map, key_map}
use lightgraph.Storage.WalLog.{magic}
use lightgraph.Storage.WalThread.{started, spawn}
use lightgraph.Storage.NodeStore.{ok}
use lightgraph.Storage.PropStore.{cell_header, next_row_of, alloc_row}
use lightgraph.Storage.PropStore
use lightgraph.Storage.PropStore.Column.{Value}
use lightgraph.Storage.PropStore.Column
use lightgraph.Storage.PropStore.Logged.{IsStorable}
use lightgraph.Storage.PropStore.Recovery.{Op, AllStorable, run, disk, recovered}
use lightgraph.Storage.PropStore.Recovery
use lightgraph.Tests.Codec.{value_codec}
use lightgraph.Tests.Transactions.{Cells, name}
use lightgraph.Tests.Wal.{calm, good-IsReliable}

abbrev opened_cells : Cells
opened_cells = record {
  columns = [];
  schemas = ([], tt);
  wal = some (started magic balanced.durability);
}

opened_cells_lem : PropStore.open_store (λ b. b) none balanced ≡ ok opened_cells
unfolding PropStore.open_store spawn PropStore.new
opened_cells_lem = refl

-- a row is made, a cell of it is changed, and a row that is not there is not
abbrev cell_history : List Op
cell_history =
    Op.insert_row 4 ((name, Value.int 7) ∷ [])
    ∷ Op.set_prop 4 name 0 (some (Value.int 8))
    ∷ Op.set_prop 4 name 9 none
    ∷ []

cell_IsStorable :
    (row : ℕ) (v : Option Value) (bytes : Bytes)
    → value_codec.serialize v ≡ some bytes
    → row < 100
    → length bytes < 100
    → IsStorable (λ b. b) 4 name row v
unfolding cell_header to_le_bytes
cell_IsStorable row v bytes e h k = record {
  bytes = bytes;
  serialized = e;
  valid = refl;
  label_fits = omega arith;
  row_fits = omega arith;
  name_fits = omega arith;
  long = omega arith;
  fits = (omega arith, omega arith);
}

cell_history-AllStorable : AllStorable (λ b. b) cell_history opened_cells
unfolding Recovery.apply_op next_row_of
cell_history-AllStorable = (
  (cell_IsStorable 0 (some (Value.int 7)) (7 ∷ []) refl (omega arith) (omega arith), tt),
  (
    cell_IsStorable 0 (some (Value.int 8)) (8 ∷ []) refl (omega arith) (omega arith),
    (cell_IsStorable 9 none [] refl (omega arith) (omega arith), tt),
  ),
)

recovered_example :
    (s' : Cells) × (PropStore.open_store
        (λ b. b)
        (disk (PropStore.flush (λ _. calm) (run cell_history opened_cells)))
        immediate_consistency
      ≡ ok s')
    × (s'.columns ≡ (run cell_history opened_cells).columns)
recovered_example =
    recovered (λ b. b) balanced immediate_consistency cell_history (λ _. calm) opened_cells
      (unfold batch_bytes in omega arith) (unfold batch_bytes in omega arith)
      (unfold fsync_enabled in refl) opened_cells_lem cell_history-AllStorable
      (λ _. good-IsReliable)

-- the columns that are read back: the row has the value that was set last
cell_read_back : PropStore.get_prop 4 name 0 (run cell_history opened_cells) ≡ some (Value.int 8)
unfolding PropStore.get_prop PropStore.insert_row PropStore.set_prop Recovery.apply_op Recovery.run
    PropStore.insert_props alloc_row next_row_of PropStore.insert_prop PropStore.write_cell
    PropStore.wal_send_cell PropStore.column_of Column.get Column.set Column.extend_to Column.new
cell_read_back = refl

-- `insert_prop` counts no row, so the row of the next `insert_row` is the row that was written.
written_row_taken :
    PropStore.get_prop 4 name 0 (
      run
        (Op.insert_prop 4 name 0 (some (Value.int 7))
          ∷ Op.insert_row 4 ((name, Value.int 8) ∷ [])
          ∷ [])
        opened_cells)
    ≡ some (Value.int 8)
unfolding PropStore.get_prop PropStore.insert_row Recovery.apply_op Recovery.run
    PropStore.insert_props alloc_row next_row_of PropStore.insert_prop PropStore.write_cell
    PropStore.wal_send_cell PropStore.column_of Column.get Column.set Column.extend_to Column.new
written_row_taken = refl
