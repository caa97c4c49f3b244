-- ===== src/Index/Vector.antt =====
-- src/index/vector: the vector index, whose graph is not written yet, and the distances.
use lightgraph.Base.{
  ℕ, ◌+◌, ◌%◌, Option, none, some, List, [], ◌∷◌, ◌==◌, ◌||◌, if◌then◌else◌, length, Bytes, u64_mod,
  Bool, true, false,
}
use Prim.Native.Nat.{Ordering}
use lightgraph.Types.{NodeId}
use lightgraph.Extern.{Scores}

pub data DistanceMetric : Type 0 where
  cosine euclidean dot_product_metric : DistanceMetric

pub record HnswIndex : Type 0 where
  pub dim : ℕ
  pub m : ℕ
  pub ef_construction : ℕ

unfoldable pub new_graph : ℕ → ℕ → ℕ → HnswIndex
new_graph dim m ef_construction = record { dim = dim; m = m; ef_construction = ef_construction }

pub record VectorIndex : Type 0 where
  pub name : Bytes
  pub dim : ℕ
  pub metric : DistanceMetric
  pub hnsw : HnswIndex
  pub count : ℕ

unfoldable pub new : Bytes → ℕ → DistanceMetric → ℕ → ℕ → VectorIndex
unfolding new_graph
new name dim metric m ef_construction = record {
  name = name;
  dim = dim;
  metric = metric;
  hnsw = new_graph dim m ef_construction;
  count = 0;
}

module _ {F : Type 0} where
  -- `unimplemented!`, which panics
  unfoldable pub graph_insert : NodeId → List F → HnswIndex → Option HnswIndex
  graph_insert id vector g = none

  unfoldable pub graph_search : List F → ℕ → ℕ → HnswIndex → Option (List (NodeId × F))
  graph_search query k ef g = none

  -- `none` is a panic.
  unfoldable pub insert : NodeId → List F → VectorIndex → Option VectorIndex
  unfolding graph_insert
  insert id vector v =
      if length vector == v.dim
      then (elim (graph_insert id vector v.hnsw) [
        | none ↦ none
        | some g ↦ some (record v { hnsw = g; count = (v.count + 1) % u64_mod })
      ])
      else none

  unfoldable pub search : List F → ℕ → ℕ → VectorIndex → Option (List (NodeId × F))
  unfolding graph_search
  search query k ef v = if length query == v.dim then graph_search query k ef v.hnsw else none

unfoldable pub len : VectorIndex → ℕ
len v = v.count

abbrev is_zero_in : Option Ordering → Bool
is_zero_in (some Ordering.eq) = true
is_zero_in _ = false

module _ {F : Type 0} ⦃S : Scores F⦄ where
  abbrev zip_with : (F → F → F) → List F → List F → List F
  zip_with f (x ∷ xs) (y ∷ ys) = f x y ∷ zip_with f xs ys
  zip_with f _ _ = []

  -- `sum` adds from the left, from zero
  abbrev sum_from : F → List F → F
  sum_from acc [] = acc
  sum_from acc (x ∷ xs) = sum_from (S.add acc x) xs

  -- the three sums of the fold in `cosine_similarity`
  unfoldable pub cosine_sums : F × F × F → List F → List F → F × F × F
  cosine_sums (d, na, nb) (x ∷ xs) (y ∷ ys) =
      cosine_sums (S.add d (S.mul x y), S.add na (S.mul x x), S.add nb (S.mul y y)) xs ys
  cosine_sums sums _ _ = sums

  -- `x == 0.0`
  abbrev is_zero : F → Bool
  is_zero x = is_zero_in (S.partial_cmp x (S.lit 0))

  unfoldable pub cosine_similarity : List F → List F → Option F
  unfolding cosine_sums
  cosine_similarity a b =
      let (dot, norm_a, norm_b) = cosine_sums (S.lit 0, S.lit 0, S.lit 0) a b in
      if length a == length b
      then some (
          if is_zero norm_a || is_zero norm_b
          then S.lit 0
          else S.div dot (S.mul (S.sqrt norm_a) (S.sqrt norm_b)))
      else none

  unfoldable pub cosine_distance : List F → List F → Option F
  unfolding cosine_similarity
  cosine_distance a b = elim (cosine_similarity a b) [
    | none ↦ none
    | some s ↦ some (S.sub (S.lit 100) s)
  ]

  unfoldable pub euclidean_distance : List F → List F → Option F
  euclidean_distance a b =
      if length a == length b
      then some (S.sqrt (sum_from (S.lit 0) (zip_with (λ x y. S.mul (S.sub x y) (S.sub x y)) a b)))
      else none

  unfoldable pub dot_product : List F → List F → Option F
  dot_product a b =
      if length a == length b then some (sum_from (S.lit 0) (zip_with S.mul a b)) else none
