-- ===== src/Storage/PropStore/Replay.antt =====
-- What replay makes of a record of the property log.
use lightgraph.Base.{
  ℕ, ◌+◌, ◌%◌, ◌^◌, ◌<◌, ◌≡◌, refl, ap, subst, sym, ◌∙◌, true, Option, some, [], ◌∷◌, ◌++◌,
  append_assoc, leb, length, length-append, Bytes, arith, le→leb, read_exact, read_exact-append,
  to_le_bytes, from_le_bytes, length-to_le_bytes, from_le_bytes-to_le_bytes, max, u32_mod,
}
use lightgraph.Types.{LabelId}
use lightgraph.Extern.{DashMap, KeyMap, Bincode}
use lightgraph.Storage.PropStore.{
  PropStore, ColumnKey, parse_cell, cell_header, next_row_of, write_cell, replay_cell, on_record,
  wal_send_cell, insert_prop, row_count,
}
use lightgraph.Storage.PropStore.Column.{Value, PropertyColumn}

parse_steps :
    (p label r₁ len r₂ name r₃ row value : Bytes)
    → leb 10 (length p) ≡ true
    → read_exact 4 p ≡ some (label, r₁)
    → read_exact 1 r₁ ≡ some (len, r₂)
    → read_exact (from_le_bytes len) r₂ ≡ some (name, r₃)
    → read_exact 4 r₃ ≡ some (row, value)
    → parse_cell p ≡ some (from_le_bytes label, name, from_le_bytes row, value)
unfolding parse_cell
parse_steps p label r₁ len r₂ name r₃ row value h a b c d = rw (parse_cell, h, a, b, c, d)

one_byte : (b : ℕ) → from_le_bytes (b ∷ []) ≡ b
unfolding from_le_bytes
one_byte b = omega arith

-- The payload of `wal_send_cell` reads back as the label, name, row and value that it was made of,
-- for a name of less than 256 bytes, u32 label and row, and a payload of at least ten bytes.
pub parse_cell-cell_header :
    (label : LabelId) (name : Bytes) (row : ℕ) (value : Bytes)
    → label < 2 ^ 32
    → row < 2 ^ 32
    → length name < 256
    → 0 < length name + length value
    → parse_cell (cell_header label name row ++ value) ≡ some (label, name, row, value)
unfolding cell_header
parse_cell-cell_header label name row value hl hr hn hv =
    let lb = to_le_bytes 4 label in
    let rb = to_le_bytes 4 row in
    let n = length name % 256 in
    let p = lb ++ (n ∷ (name ++ (rb ++ value))) in
    let e : cell_header label name row ++ value ≡ p = simp append_assoc in
    let short : n ≡ length name = omega arith in
    let long : leb 10 (length p) ≡ true = le→leb 10 _ (
      omega (
        arith,
        length-append lb (n ∷ (name ++ (rb ++ value))),
        length-append name (rb ++ value),
        length-append rb value,
        length-to_le_bytes 4 label,
        length-to_le_bytes 4 row,
      )) in
    ap parse_cell e
    ∙ parse_steps p lb (n ∷ (name ++ (rb ++ value))) (n ∷ []) (name ++ (rb ++ value)) name
        (rb ++ value) rb value long (read_exact-append 4 lb _ (length-to_le_bytes 4 label))
        (read_exact-append 1 (n ∷ []) _ refl)
        (read_exact-append (from_le_bytes (n ∷ [])) name _ (sym (one_byte n ∙ short)))
        (read_exact-append 4 rb value (length-to_le_bytes 4 row))
    ∙ rw (from_le_bytes-to_le_bytes 4 label hl, from_le_bytes-to_le_bytes 4 row hr)

module _ {M L : Type 0} ⦃D : KeyMap M ColumnKey PropertyColumn⦄ ⦃S : DashMap L ℕ⦄
    ⦃B : Bincode (Option Value)⦄ where
  -- The store with a cell written and its row counted.
  abbrev counted : LabelId → ℕ → PropStore M L → PropStore M L
  counted label row s = record s {
    schemas = S.insert s.schemas label (max (next_row_of label s) ((row + 1) % u32_mod));
  }

  on_record-cell :
      (lossy : Bytes → Bytes) (id : ℕ) (p : Bytes) (label : LabelId) (name : Bytes) (row : ℕ)
      (v : Option Value) (bytes : Bytes) (s : PropStore M L)
      → parse_cell p ≡ some (label, name, row, bytes)
      → B.deserialize bytes ≡ some v
      → lossy name ≡ name
      → on_record lossy s 1 id p ≡ counted label row (write_cell label name row v s)
  unfolding on_record replay_cell
  on_record-cell lossy id p label name row v bytes s a b c = rw (on_record, a, replay_cell, b, c)

  at_label :
      (label : LabelId) (n : ℕ) (s : PropStore M L)
      → S.get s.schemas label ≡ some n
      → next_row_of label s ≡ n
  unfolding next_row_of
  at_label label n s e = rw (next_row_of, e)

  row_count-counted :
      (label : LabelId) (row : ℕ) (s : PropStore M L)
      → row + 1 < 2 ^ 32
      → row < row_count label (counted label row s)
  unfolding row_count
  row_count-counted label row s h =
      let n = max (next_row_of label s) ((row + 1) % u32_mod) in
      let e : next_row_of label (counted label row s) ≡ n =
        at_label label n (counted label row s)
          (ground (arith, S.get-insert s.schemas label label n)) in
      omega (arith, e)

  -- Replaying the record that `insert_prop` logs does to the columns what `insert_prop` does to them,
  -- and counts at least as many rows of the label as the row's number says: for a value that can be
  -- serialized, a name of valid UTF-8 of less than 256 bytes, and u32 label and row.
  pub on_record-insert_prop :
      (lossy : Bytes → Bytes) (label : LabelId) (name : Bytes) (row : ℕ) (v : Option Value)
      (bytes : Bytes) (s : PropStore M L)
      → B.serialize v ≡ some bytes
      → lossy name ≡ name
      → label < 2 ^ 32
      → row + 1 < 2 ^ 32
      → length name < 256
      → 0 < length name + length bytes
      → ((on_record lossy s 1 label (cell_header label name row ++ bytes)).columns
          ≡ (insert_prop label name row v s).1.columns)
        × (row < row_count label (on_record lossy s 1 label (cell_header label name row ++ bytes)))
  unfolding insert_prop wal_send_cell
  on_record-insert_prop lossy label name row v bytes s e valid hl hr hn hv =
      let p = cell_header label name row ++ bytes in
      let parsed = parse_cell-cell_header label name row bytes hl (omega arith) hn hv in
      let same =
        on_record-cell lossy label p label name row v bytes s parsed
          (B.deserialize-serialize v bytes e) valid in
      (
        ap (λ (t : PropStore M L). t.columns) same,
        subst (λ t. row < row_count label t) (sym same)
            (row_count-counted label row (write_cell label name row v s) hr),
      )
