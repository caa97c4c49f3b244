-- ===== src/Index/Property.antt =====
-- src/index/property/mod.rs: the predicates and their evaluation over bitmaps.
use lightgraph.Base.{ℕ, none, some, List, [], ◌∷◌, Bytes, if◌then◌else◌}
use lightgraph.Extern.{KeyMap, Bitmap, OrderedMap}
use lightgraph.Storage.PropStore.Column.{Value}

-- The label and the name of a property.
abbrev pub LabelProp : Type 0
LabelProp = Bytes × Bytes

-- What the index takes from `f64`: `Value::as_f64`, the least and the largest number, and the numbers
-- that are equal as `OrderedFloat`, which for bits are the bits of one of them: the two zeros are
-- equal, and all that are not a number.
pub record Floats (F : Type 0) : Type 0 where
  pub as_f64 : Value → F
  pub min : F
  pub max : F
  pub representative : ℕ → ℕ

-- An `OrderedFloat` stands by the bits of the number that represents it.
pub data ValueWrapper : Type 0 where
  null : ValueWrapper
  bool : ℕ → ValueWrapper
  int : ℕ → ValueWrapper
  float : ℕ → ValueWrapper
  string : Bytes → ValueWrapper

unfoldable pub wrap : (ℕ → ℕ) → Value → ValueWrapper
wrap representative Value.null = null
wrap representative (Value.bool b) = bool (if b then 1 else 0)
wrap representative (Value.int i) = int i
wrap representative (Value.float f) = float (representative f)
wrap representative (Value.string s) = string s
wrap representative (Value.list _) = null
wrap representative (Value.vector _) = null

pub data Predicate : Type 0 where
  eq : Bytes → Bytes → Value → Predicate
  gt : Bytes → Bytes → Value → Predicate
  gte : Bytes → Bytes → Value → Predicate
  lt : Bytes → Bytes → Value → Predicate
  lte : Bytes → Bytes → Value → Predicate
  in_list : Bytes → Bytes → List Value → Predicate
  and : Predicate → Predicate → Predicate
  or : Predicate → Predicate → Predicate
  negated : Predicate → Predicate

-- The types are those of the two outer maps, of the trees in them, of the floats and of the bitmaps.
pub record PropertyIndex (E R T U F Bm : Type 0) : Type 0 where
  pub eq_indexes : E
  pub range_indexes : R

module _ {Bm : Type 0} ⦃B : Bitmap Bm⦄ where
  -- `fold(RoaringBitmap::new(), |a, b| a | b)`
  unfoldable pub fold_union : Bm → List Bm → Bm
  fold_union acc [] = acc
  fold_union acc (bm ∷ l) = fold_union (B.union acc bm) l

module _ {E R T U F Bm : Type 0} ⦃DE : KeyMap E LabelProp T⦄ ⦃DT : KeyMap T ValueWrapper Bm⦄
    ⦃DR : KeyMap R LabelProp U⦄ ⦃DU : OrderedMap U F Bm⦄ ⦃B : Bitmap Bm⦄ ⦃DF : Floats F⦄ where
  unfoldable pub new : PropertyIndex E R T U F Bm
  new = record { eq_indexes = DE.empty; range_indexes = DR.empty }

  unfoldable pub range_scan : Bytes → Bytes → F → F → PropertyIndex E R T U F Bm → Bm
  range_scan label prop lo hi idx = elim (DR.get idx.range_indexes (label, prop)) [
    | none ↦ B.empty
    | some ranges ↦ fold_union B.empty (DU.range ranges lo hi)
  ]

  unfoldable pub eq_scan : Bytes → Bytes → Value → PropertyIndex E R T U F Bm → Bm
  unfolding wrap
  eq_scan label prop val idx = elim (DE.get idx.eq_indexes (label, prop)) [
    | none ↦ B.empty
    | some values ↦ elim (DT.get values (wrap DF.representative val)) [
      | none ↦ B.empty
      | some bm ↦ bm
    ]
  ]

  unfoldable pub eq_scans : Bytes → Bytes → List Value → PropertyIndex E R T U F Bm → List Bm
  eq_scans label prop [] idx = []
  eq_scans label prop (v ∷ vals) idx = eq_scan label prop v idx ∷ eq_scans label prop vals idx

  unfoldable pub evaluate : Predicate → PropertyIndex E R T U F Bm → Bm
  evaluate (eq label prop val) idx = eq_scan label prop val idx
  evaluate (gt label prop val) idx = range_scan label prop (DF.as_f64 val) DF.max idx
  evaluate (gte label prop val) idx = range_scan label prop (DF.as_f64 val) DF.max idx
  evaluate (lt label prop val) idx = range_scan label prop DF.min (DF.as_f64 val) idx
  evaluate (lte label prop val) idx = range_scan label prop DF.min (DF.as_f64 val) idx
  evaluate (in_list label prop vals) idx = fold_union B.empty (eq_scans label prop vals idx)
  evaluate (and a b) idx = B.intersection (evaluate a idx) (evaluate b idx)
  evaluate (or a b) idx = B.union (evaluate a idx) (evaluate b idx)
  evaluate (negated a) idx = B.empty
