-- ===== src/Storage/PropStore/Cells.antt =====
-- What writing a cell does to the cells.
use lightgraph.Base.{
  ℕ, zero, suc, ◌+◌, ◌≤◌, ◌<◌, ◌≡◌, ◌≢◌, refl, ap, sym, ◌∙◌, true, Option, none, some, List, [],
  ◌∷◌, ltb, ◌==◌, if◌then◌else◌, length, Bytes, arith, inl, inr, Option-cases, Bool-cases,
}
use lightgraph.Types.{LabelId}
use lightgraph.Extern.{DashMap, KeyMap, Bincode}
use lightgraph.Storage.PropStore.{
  PropStore, ColumnKey, column_of, write_cell, wal_send_cell, insert_prop, get_prop,
}
use lightgraph.Storage.PropStore.Column.{Value, PropertyColumn, get_at, set_at, resize}
use lightgraph.Storage.PropStore.Column

-- A cell with no value is like one behind the end.
abbrev pub flat : Option (Option Value) → Option Value
flat none = none
flat (some v) = v

get_at-resize :
    (n j : ℕ) (vs : List (Option Value)) → flat (get_at j (resize n vs)) ≡ flat (get_at j vs)
unfolding get_at resize
get_at-resize zero j vs = refl
get_at-resize (suc n) zero [] = refl
get_at-resize (suc n) (suc j) [] = get_at-resize n j []
get_at-resize (suc n) zero (v ∷ vs) = refl
get_at-resize (suc n) (suc j) (v ∷ vs) = get_at-resize n j vs

length-resize : (n : ℕ) (vs : List (Option Value)) → n ≤ length (resize n vs)
unfolding resize
length-resize zero vs = omega arith
length-resize (suc n) [] = omega (arith, length-resize n [])
length-resize (suc n) (v ∷ vs) = omega (arith, length-resize n vs)

get_at-set_at :
    (row j : ℕ) (v : Option Value) (vs : List (Option Value))
    → row < length vs
    → flat (get_at j (set_at row v vs)) ≡ (if row == j then v else flat (get_at j vs))
unfolding get_at set_at
get_at-set_at row j v [] h = absurd (omega arith)
get_at-set_at zero zero v (w ∷ vs) h = ground arith
get_at-set_at zero (suc j) v (w ∷ vs) h = ground arith
get_at-set_at (suc row) zero v (w ∷ vs) h = ground arith
get_at-set_at (suc row) (suc j) v (w ∷ vs) h =
    ground (arith, get_at-set_at row j v vs (omega arith))

-- A column that is made long enough for a row has the row, and no cell of it changes.
extend_to_lem :
    (n j : ℕ) (c : PropertyColumn)
    → (n ≤ length (Column.extend_to n c).values)
      × (flat (get_at j (Column.extend_to n c).values) ≡ flat (get_at j c.values))
unfolding Column.extend_to
extend_to_lem n j c = elim (Bool-cases (ltb (length c.values) n)) [
  | inl short ↦ rw short (length-resize n c.values, get_at-resize n j c.values)
  | inr enough ↦ rw enough (ground arith, refl)
]

pub get-set-extend_to :
    (row j : ℕ) (v : Option Value) (c : PropertyColumn)
    → flat (Column.get j (Column.set row v (Column.extend_to (row + 1) c)).1)
      ≡ (if row == j then v else flat (Column.get j c))
unfolding Column.get Column.set
get-set-extend_to row j v c =
    let (long, same) = extend_to_lem (row + 1) j c in
    let inside : ltb row (length (Column.extend_to (row + 1) c).values) ≡ true = ground arith in
    rw inside (
      get_at-set_at row j v (Column.extend_to (row + 1) c).values (omega (arith, long))
      ∙ ap (λ (x : Option Value). if row == j then v else x) same)

module _ {M L : Type 0} ⦃D : KeyMap M ColumnKey PropertyColumn⦄ ⦃S : DashMap L ℕ⦄
    ⦃B : Bincode (Option Value)⦄ where
  get_prop-flat :
      (label : LabelId) (prop : Bytes) (row : ℕ) (s : PropStore M L)
      → get_prop label prop row s ≡ flat (Column.get row (column_of (label, prop) s))
  unfolding get_prop column_of Column.get Column.new get_at
  get_prop-flat label prop row s = elim (Option-cases (D.get s.columns (label, prop))) [
    | inl e ↦ rw (get_prop, column_of, e)
    | inr (c, e) ↦ rw (get_prop, column_of, e) (flat_same (get_at row c.values))
  ]
    where
      flat_same :
          (o : Option (Option Value)) → (elim o [ none ↦ none | some value ↦ value ]) ≡ flat o
      flat_same none = refl
      flat_same (some v) = refl

  of_get :
      (k : ColumnKey) (t : PropStore M L) (c : PropertyColumn)
      → D.get t.columns k ≡ some c
      → column_of k t ≡ c
  unfolding column_of
  of_get k t c e = rw (column_of, e)

  -- The column of `write_cell`.
  column_of-write_cell :
      (label : LabelId) (prop : Bytes) (row : ℕ) (v : Option Value) (s : PropStore M L)
      → column_of (label, prop) (write_cell label prop row v s)
        ≡ (Column.set row v (Column.extend_to (row + 1) (column_of (label, prop) s))).1
  unfolding write_cell column_of
  column_of-write_cell label prop row v s =
      let c = (Column.set row v (Column.extend_to (row + 1) (column_of (label, prop) s))).1 in
      of_get (label, prop) (write_cell label prop row v s) c
        (D.get-insert s.columns (label, prop) c)

  get_prop-write_cell :
      (label : LabelId) (prop : Bytes) (row j : ℕ) (v : Option Value) (s : PropStore M L)
      → get_prop label prop j (write_cell label prop row v s)
        ≡ (if row == j then v else get_prop label prop j s)
  get_prop-write_cell label prop row j v s =
      get_prop-flat label prop j (write_cell label prop row v s)
      ∙ ap (λ (c : PropertyColumn). flat (Column.get j c)) (column_of-write_cell label prop row v s)
      ∙ get-set-extend_to row j v (column_of (label, prop) s)
      ∙ ap (λ (x : Option Value). if row == j then v else x) (sym (get_prop-flat label prop j s))

  -- After `insert_prop` of a value at a row of a column, that row of the column has the value and
  -- every other row of the column, behind its end or not, has what it had.
  pub get_prop-insert_prop :
      (label : LabelId) (prop : Bytes) (row j : ℕ) (v : Option Value) (s : PropStore M L)
      → get_prop label prop j (insert_prop label prop row v s).1
        ≡ (if row == j then v else get_prop label prop j s)
  unfolding insert_prop wal_send_cell get_prop
  get_prop-insert_prop label prop row j v s = get_prop-write_cell label prop row j v s

  -- `insert_prop` changes no row of any other column.
  get_prop-insert_prop_other :
      (key key' : ColumnKey) (row j : ℕ) (v : Option Value) (s : PropStore M L)
      → key' ≢ key
      → get_prop key'.0 key'.1 j (insert_prop key.0 key.1 row v s).1 ≡ get_prop key'.0 key'.1 j s
  unfolding insert_prop write_cell wal_send_cell get_prop
  get_prop-insert_prop_other key key' row j v s ne =
      let c' = (Column.set row v (Column.extend_to (row + 1) (column_of key s))).1 in
      rw (get_prop, D.get-insert-other s.columns key key' c' ne)
