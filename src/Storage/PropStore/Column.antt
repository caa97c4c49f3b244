-- ===== src/Storage/PropStore/Column.antt =====
-- `Value` and `PropertyColumn` of src/storage/prop_store.rs.
use lightgraph.Base.{
  ℕ, zero, suc, ◌%◌, Bool, true, false, Option, none, some, List, [], ◌∷◌, ◌++◌, ltb, if◌then◌else◌,
  length, Bytes, u32_mod,
}

-- An `i64`, an `f64` and an `f32` stand by their bits, a string by its UTF-8 bytes.
mutual
  pub data Value : Type 0 where
    null : Value
    bool : Bool → Value
    int : ℕ → Value
    float : ℕ → Value
    string : Bytes → Value
    list : Values → Value
    vector : List ℕ → Value

  pub data Values : Type 0 where
    nil : Values
    cons : Value → Values → Values

unfoldable pub as_str : Value → Bytes
as_str (string s) = s
as_str _ = []

unfoldable pub as_vec_f32 : Value → Option (List ℕ)
as_vec_f32 (vector v) = some v
as_vec_f32 _ = none

pub record PropertyColumn : Type 0 where
  pub values : List (Option Value)

unfoldable pub new : PropertyColumn
new = record { values = [] }

unfoldable pub push : Option Value → PropertyColumn → ℕ × PropertyColumn
push val c = (length c.values % u32_mod, record { values = c.values ++ val ∷ [] })

-- `values.get(row)`
unfoldable pub get_at {ℓ} : {A : Type ℓ} → ℕ → List A → Option A
get_at row [] = none
get_at zero (v ∷ vs) = some v
get_at (suc row) (v ∷ vs) = get_at row vs

-- `values[row] = val`, in range
unfoldable pub set_at {ℓ} : {A : Type ℓ} → ℕ → A → List A → List A
set_at row val [] = []
set_at zero val (v ∷ vs) = val ∷ vs
set_at (suc row) val (v ∷ vs) = v ∷ set_at row val vs

-- `values.resize(min_len, None)`, where the list is not longer
unfoldable pub resize : ℕ → List (Option Value) → List (Option Value)
resize zero vs = vs
resize (suc n) [] = none ∷ resize n []
resize (suc n) (v ∷ vs) = v ∷ resize n vs

unfoldable pub get : ℕ → PropertyColumn → Option (Option Value)
unfolding get_at
get row c = get_at row c.values

unfoldable pub set : ℕ → Option Value → PropertyColumn → Bool × PropertyColumn
unfolding set_at
set row val c =
    if ltb row (length c.values)
    then (true, record { values = set_at row val c.values })
    else (false, c)

unfoldable pub extend_to : ℕ → PropertyColumn → PropertyColumn
unfolding resize
extend_to min_len c =
    if ltb (length c.values) min_len then record { values = resize min_len c.values } else c

unfoldable pub len : PropertyColumn → ℕ
len c = length c.values
