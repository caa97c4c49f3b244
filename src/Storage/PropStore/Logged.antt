-- ===== src/Storage/PropStore/Logged.antt =====
-- The log of a property store says what is in its columns, and the operations keep it so.
use mathlib.Core.List.{foldl, foldl-append}
use lightgraph.Base.{
  ℕ, ◌+◌, ◌^◌, ◌<◌, ◌≡◌, refl, ap, subst, sym, ◌∙◌, true, false, Option, some, List, [], ◌∷◌, ◌++◌,
  arith, inl, inr, Option-cases, Bool-cases, ltb, length, Bytes,
}
use lightgraph.Types.{LabelId}
use lightgraph.Extern.{DashMap, KeyMap, Bincode}
use lightgraph.Storage.Consistency.{Durability}
use lightgraph.Storage.WalLog.RoundTrip.{LogRecord, inserted, Fits, apply}
use lightgraph.Storage.WalThread.Records.{HasRecords, send_insert-HasRecords}
use lightgraph.Storage.PropStore.{
  PropStore, ColumnKey, cell_header, on_record, write_cell, column_of, wal_send_cell, next_row_of,
  alloc_row, insert_props, replay_file, finish_replay, with_wal, open_store, new, flush,
}
use lightgraph.Storage.PropStore
use lightgraph.Storage.PropStore.Column.{Value, PropertyColumn}
use lightgraph.Storage.PropStore.Column
use lightgraph.Storage.PropStore.Replay.{on_record-insert_prop}

-- A column that has the row already is not made longer.
extend_to-inside :
    (row : ℕ) (c : PropertyColumn)
    → ltb row (length c.values) ≡ true
    → Column.extend_to (row + 1) c ≡ c
unfolding Column.extend_to
extend_to-inside row c h = let e : ltb (length c.values) (row + 1) ≡ false = ground arith in rw e

module _ ⦃B : Bincode (Option Value)⦄ (lossy : Bytes → Bytes) where
  -- The cell can be logged: its name is valid UTF-8 of less than 256 bytes, its label and row are
  -- u32, its value can be serialized, and its record fits the log's format.
  pub record IsStorable (label : LabelId) (name : Bytes) (row : ℕ) (v : Option Value) : Type 0 where
    pub bytes : Bytes
    pub serialized : B.serialize v ≡ some bytes
    pub valid : lossy name ≡ name
    pub label_fits : label < 2 ^ 32
    pub row_fits : row + 1 < 2 ^ 32
    pub name_fits : length name < 256
    pub long : 0 < length name + length bytes
    pub fits : Fits (inserted label (cell_header label name row ++ bytes))

  abbrev pub StorableProps : LabelId → ℕ → List (Bytes × Value) → Type 0
  StorableProps label row [] = Unit
  StorableProps label row ((name, value) ∷ props) =
      IsStorable label name row (some value) × StorableProps label row props

module _ {M L : Type 0} ⦃D : KeyMap M ColumnKey PropertyColumn⦄ ⦃S : DashMap L ℕ⦄
    ⦃B : Bincode (Option Value)⦄ (lossy : Bytes → Bytes) where
  abbrev pub replayed : List LogRecord → PropStore M L
  replayed rs = foldl (apply (on_record lossy)) new rs

  -- The store logs to an open thread, and replaying the image of that log gives its columns.
  pub record IsLogged (d : Durability) (s : PropStore M L) : Type 0 where
    pub records : List LogRecord
    pub log : HasRecords d s.wal records
    pub agrees : (replayed records).columns ≡ s.columns

module _ {M L : Type 0} ⦃D : KeyMap M ColumnKey PropertyColumn⦄ ⦃S : DashMap L ℕ⦄
    ⦃B : Bincode (Option Value)⦄ where
  -- The columns that a write leaves depend on no other part of the store.
  columns-insert_prop :
      (label : LabelId) (name : Bytes) (row : ℕ) (v : Option Value) (s t : PropStore M L)
      → s.columns ≡ t.columns
      → (PropStore.insert_prop label name row v s).1.columns
        ≡ (write_cell label name row v t).columns
  unfolding PropStore.insert_prop wal_send_cell write_cell column_of
  columns-insert_prop label name row v s t e = rw e refl

  -- A cell that is there is written where it is.
  columns-set :
      (label : LabelId) (name : Bytes) (row : ℕ) (v : Option Value) (s : PropStore M L)
      (col : PropertyColumn)
      → D.get s.columns (label, name) ≡ some col
      → ltb row (length col.values) ≡ true
      → (write_cell label name row v s).columns
        ≡ D.insert s.columns (label, name) (Column.set row v col).1
  unfolding write_cell column_of
  columns-set label name row v s col e h =
      let same : column_of (label, name) s ≡ col = rw (column_of, e) refl in
      ap (λ (c : PropertyColumn). D.insert s.columns (label, name) (Column.set row v c).1)
        (ap (Column.extend_to (row + 1)) same ∙ extend_to-inside row col h)

  module _ (lossy : Bytes → Bytes) where
    -- A cell that is sent to the log of a store is in its log.
    wal_send_cell-IsLogged :
        {d : Durability} (label : LabelId) (name : Bytes) (row : ℕ) (v : Option Value)
        (s s' : PropStore M L)
        → IsStorable lossy label name row v
        → IsLogged lossy d s
        → s'.wal ≡ s.wal
        → (write_cell label name row v s).columns ≡ s'.columns
        → IsLogged lossy d (wal_send_cell label name row v s')
    unfolding wal_send_cell
    wal_send_cell-IsLogged {d} label name row v s s' st l w e =
        let payload = cell_header label name row ++ st.bytes in
        let rep = replayed lossy l.records in
        record {
          records = l.records ++ inserted label payload ∷ [];
          log = rw st.serialized (
              send_insert-HasRecords (subst (λ o. HasRecords d o l.records) (sym w) l.log) label
                payload st.fits);
          agrees = rw foldl-append (
              (on_record-insert_prop lossy label name row v st.bytes rep st.serialized st.valid
                st.label_fits st.row_fits st.name_fits st.long).0
              ∙ columns-insert_prop label name row v rep s l.agrees
              ∙ e);
        }

    pub insert_prop-IsLogged :
        {d : Durability} (label : LabelId) (name : Bytes) (row : ℕ) (v : Option Value)
        (s : PropStore M L)
        → IsStorable lossy label name row v
        → IsLogged lossy d s
        → IsLogged lossy d (PropStore.insert_prop label name row v s).1
    unfolding PropStore.insert_prop write_cell
    insert_prop-IsLogged label name row v s st l =
        wal_send_cell-IsLogged label name row v s (write_cell label name row v s) st l refl refl

    pub insert_props-IsLogged :
        {d : Durability} (label : LabelId) (row : ℕ) (props : List (Bytes × Value))
        (s : PropStore M L)
        → StorableProps lossy label row props
        → IsLogged lossy d s
        → IsLogged lossy d (insert_props label row props s)
    unfolding insert_props
    insert_props-IsLogged label row [] s st l = l
    insert_props-IsLogged label row ((name, value) ∷ props) s st l =
        insert_props-IsLogged label row props _ st.1
          (insert_prop-IsLogged label name row (some value) s st.0 l)

    -- A schema is in no record.
    pub alloc_row-IsLogged :
        {d : Durability} (label : LabelId) (s : PropStore M L)
        → IsLogged lossy d s
        → IsLogged lossy d (alloc_row label s).1
    unfolding alloc_row
    alloc_row-IsLogged label s l = record { records = l.records; log = l.log; agrees = l.agrees }

    pub set_prop-IsLogged :
        {d : Durability} (label : LabelId) (name : Bytes) (row : ℕ) (v : Option Value)
        (s : PropStore M L)
        → IsStorable lossy label name row v
        → IsLogged lossy d s
        → IsLogged lossy d (PropStore.set_prop label name row v s).1
    unfolding PropStore.set_prop Column.set
    set_prop-IsLogged label name row v s st l =
        elim (Option-cases (D.get s.columns (label, name))) [
          | inl e ↦ rw (PropStore.set_prop, e) l
          | inr (col, e) ↦ elim (Bool-cases (ltb row (length col.values))) [
            | inl h ↦
                rw (PropStore.set_prop, e, h)
                  (wal_send_cell-IsLogged label name row v s _ st l refl
                    (columns-set label name row v s col e h ∙ rw h refl))
            | inr h ↦ rw (PropStore.set_prop, e, h) l
          ]
        ]
