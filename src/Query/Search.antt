-- ===== src/Query/Search.antt =====
-- `hybrid_search` of src/query/mod.rs.
use Prim.Native.Nat.{Ordering}
use lightgraph.Base.{
  ℕ, ◌%◌, Bool, true, false, Option, none, some, List, [], ◌∷◌, ltb, if◌then◌else◌, length, take,
  map, u32_mod, option_map,
}
use lightgraph.Extern.{KeyMap, Bitmap, OrderedMap, DashMap, TermMap, Scores, Doubles, Narrow}
use lightgraph.Index.Property.{LabelProp, ValueWrapper, Predicate, PropertyIndex, Floats, evaluate}
use lightgraph.Index.Analyzer.{CharTables}
use lightgraph.Index.FullText
use lightgraph.Index.FullText.{FullTextIndex}
use lightgraph.Index.Vector
use lightgraph.Index.Vector.{VectorIndex}
use lightgraph.Index.Ranking.{above, sort_by_score}
use lightgraph.Index.Totals.{add_score}
use lightgraph.Query.Plan.{FilterTiming, pre, post, adaptive, QueryResult}

-- The types are those of the property index and of the full text index.
pub record QueryContext (E V T U K Bm S Ps L D : Type 0) : Type 0 where
  pub ft_index : Option (FullTextIndex S Bm Ps L D)
  pub vec_index : Option VectorIndex
  pub prop_index : PropertyIndex E V T U K Bm
  pub node_count : ℕ

-- The arguments of `hybrid_search` behind the context.
pub record HybridQuery (F : Type 0) : Type 0 where
  pub fulltext_query : Option (List ℕ)
  pub vector_query : Option (List F)
  pub vector_k : Option ℕ
  pub vector_ef : Option ℕ
  pub predicate : Option Predicate
  pub timing : FilterTiming
  pub alpha : F
  pub beta : F
  pub limit : ℕ

abbrev pub is_there {ℓ} : {A : Type ℓ} → Option A → Bool
is_there none = false
is_there (some _) = true

abbrev pub unwrap_or : ℕ → Option ℕ → ℕ
unwrap_or d none = d
unwrap_or d (some n) = n

abbrev less_in : Option Ordering → Bool
less_in (some Ordering.lt) = true
less_in _ = false

module _ {F : Type 0} ⦃SF : Scores F⦄ where
  unfoldable pub use_pre_filter : FilterTiming → F → Bool
  use_pre_filter pre selectivity = true
  use_pre_filter post selectivity = false
  use_pre_filter adaptive selectivity = less_in (SF.partial_cmp selectivity (SF.lit 10))

  unfoldable pub selectivity : {Bm : Type 0} → ⦃B : Bitmap Bm⦄ → Bm → ℕ → F
  selectivity ⦃B = B⦄ filter_bm node_count =
      if ltb 0 node_count
      then SF.div (SF.of_nat (length (B.iter filter_bm))) (SF.of_nat node_count)
      else SF.lit 0

  -- the score of every candidate of the pre-filter
  unfoldable pub candidate_score :
      {E V T U K Bm S Ps L D : Type 0} → QueryContext E V T U K Bm S Ps L D → HybridQuery F → F
  candidate_score ctx q =
      let s₁ =
        if is_there ctx.ft_index
        then (if is_there q.fulltext_query
            then SF.add (SF.lit 0) (SF.mul q.alpha (SF.lit 100))
            else SF.lit 0)
        else SF.lit 0 in
      if is_there ctx.vec_index
      then (if is_there q.vector_query then SF.add s₁ (SF.mul q.beta (SF.lit 100)) else s₁)
      else s₁

module _ {E V T U K Bm S Ps L D : Type 0} ⦃DE : KeyMap E LabelProp T⦄
    ⦃DT : KeyMap T ValueWrapper Bm⦄ ⦃DV : KeyMap V LabelProp U⦄ ⦃DU : OrderedMap U K Bm⦄
    ⦃B : Bitmap Bm⦄ ⦃DK : Floats K⦄ where
  unfoldable pub filter_bitmap :
      {F : Type 0} → QueryContext E V T U K Bm S Ps L D → HybridQuery F → Bm
  unfolding evaluate
  filter_bitmap ctx q = elim q.predicate [ none ↦ B.empty | some p ↦ evaluate p ctx.prop_index ]

abbrev pub to_result : {F : Type 0} → ℕ × F → QueryResult F
to_result (id, s) = record { node_id = id; score = s; path = none }

-- `R` is the type of the map of scores.
module _ (R F : Type 0) ⦃DR : DashMap R F⦄ ⦃SF : Scores F⦄ where
  unfoldable pub pre_scores : F → List ℕ → R → R
  pre_scores score [] scores = scores
  pre_scores score (id ∷ ids) scores =
      pre_scores score ids (if above score (SF.lit 0) then DR.insert scores id score else scores)

  unfoldable pub add_found : F → List (ℕ × F) → R → R
  unfolding add_score
  add_found weight [] scores = scores
  add_found weight ((id, s) ∷ found) scores =
      add_found weight found (add_score {F = F} scores id (SF.mul weight s))

  -- `retain`: the entries that fail the test are removed
  unfoldable pub remove_failing : (ℕ → Bool) → List (ℕ × F) → R → R
  remove_failing test [] scores = scores
  remove_failing test ((id, _) ∷ l) scores =
      remove_failing test l (if test id then scores else DR.remove scores id)

  unfoldable pub retain_in : {Bm : Type 0} → ⦃B : Bitmap Bm⦄ → Bm → R → R
  unfolding remove_failing
  retain_in ⦃B = B⦄ filter_bm scores =
      if ltb 0 (length (B.iter filter_bm))
      then remove_failing (λ id. B.member filter_bm (id % u32_mod)) (DR.entries scores) scores
      else scores

  -- `none` is a panic: a score is not a number.
  unfoldable pub ranked : ℕ → R → Option (List (QueryResult F))
  unfolding sort_by_score
  ranked limit scores =
      option_map (take limit)
        (sort_by_score (λ (r : QueryResult F). r.score) (map to_result (DR.entries scores)))

module _ {E V T U K Bm S Ps L D : Type 0} (R F : Type 0) (tables : CharTables) ⦃TM : TermMap S⦄
    ⦃B : Bitmap Bm⦄ ⦃DP : DashMap Ps (List ℕ)⦄ ⦃DL : DashMap L ℕ⦄ ⦃DR : DashMap R F⦄ ⦃SF : Scores F⦄
    ⦃DD : Doubles D⦄ ⦃N : Narrow D F⦄ where
  -- The searches of the post-filter; `none` is a panic of one of them.
  unfoldable pub add_fulltext : QueryContext E V T U K Bm S Ps L D → HybridQuery F → R → Option R
  unfolding FullText.search add_found
  add_fulltext ctx q scores = elim ctx.ft_index [
    | none ↦ some scores
    | some ft ↦ elim q.fulltext_query [
      | none ↦ some scores
      | some text ↦
          option_map (λ found. add_found R F q.alpha found scores)
            (FullText.search R F tables ft text)
    ]
  ]

  unfoldable pub add_vector : QueryContext E V T U K Bm S Ps L D → HybridQuery F → R → Option R
  unfolding Vector.search add_found
  add_vector ctx q scores = elim ctx.vec_index [
    | none ↦ some scores
    | some vi ↦ elim q.vector_query [
      | none ↦ some scores
      | some vq ↦
          option_map (λ found. add_found R F q.beta found scores)
            (Vector.search vq (unwrap_or 50 q.vector_k) (unwrap_or 200 q.vector_ef) vi)
    ]
  ]

  unfoldable pub post_scores : QueryContext E V T U K Bm S Ps L D → HybridQuery F → Bm → Option R
  unfolding add_fulltext add_vector retain_in
  post_scores ctx q filter_bm = elim (add_fulltext ctx q DR.empty) [
    | none ↦ none
    | some scores ↦ option_map (retain_in R F filter_bm) (add_vector ctx q scores)
  ]

  module _ ⦃DE : KeyMap E LabelProp T⦄ ⦃DT : KeyMap T ValueWrapper Bm⦄ ⦃DV : KeyMap V LabelProp U⦄
      ⦃DU : OrderedMap U K Bm⦄ ⦃DK : Floats K⦄ where
    unfoldable pub scores_of : QueryContext E V T U K Bm S Ps L D → HybridQuery F → Option R
    unfolding filter_bitmap selectivity use_pre_filter candidate_score pre_scores post_scores
    scores_of ctx q =
        let filter_bm = filter_bitmap ctx q in
        if use_pre_filter q.timing (selectivity {F = F} filter_bm ctx.node_count)
        then some (pre_scores R F (candidate_score ctx q) (B.iter filter_bm) DR.empty)
        else post_scores ctx q filter_bm

    unfoldable pub hybrid_search :
        QueryContext E V T U K Bm S Ps L D → HybridQuery F → Option (List (QueryResult F))
    unfolding scores_of ranked
    hybrid_search ctx q = elim (scores_of ctx q) [
      | none ↦ none
      | some scores ↦ ranked R F q.limit scores
    ]
