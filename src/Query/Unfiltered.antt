-- ===== src/Query/Unfiltered.antt =====
-- Searches whose predicate is absent or matches nothing, and searches by vector.
use lightgraph.Base.{
  ℕ, zero, suc, ◌≡◌, refl, sym, ap, ◌∙◌, true, false, Option, none, some, Option-cases, inl, inr,
  List, [], ◌∷◌, arith, contains, contains_head, take,
}
use lightgraph.Extern.{KeyMap, Bitmap, OrderedMap, DashMap, TermMap, Scores, Doubles, Narrow, keys}
use lightgraph.Index.Property.{LabelProp, ValueWrapper, Predicate, Floats, evaluate}
use lightgraph.Index.Analyzer.{CharTables}
use lightgraph.Index.Vector
use lightgraph.Index.Vector.{VectorIndex}
use lightgraph.Index.Ranking.{sort_by_score}
use lightgraph.Index.Totals.{is_some, contains-entries}
use lightgraph.Query.Plan.{post}
use lightgraph.Query.Search.{
  QueryContext, HybridQuery, filter_bitmap, pre_scores, retain_in, post_scores, add_fulltext,
  add_vector, use_pre_filter, selectivity, scores_of, ranked, hybrid_search, unwrap_or,
}

no_members : (l : List ℕ) → ((i : ℕ) → contains l i ≡ false) → l ≡ []
no_members [] h = refl
no_members (x ∷ l) h = let b : true ≡ false = sym (contains_head x l) ∙ h x in absurd (cc)

keys-nil : {V : Type 0} (l : List (ℕ × V)) → keys l ≡ [] → l ≡ []
keys-nil [] h = refl
keys-nil (e ∷ l) h = absurd (cc)

take-nil : {A : Type 0} (n : ℕ) → ◌≡◌ {A = Option (List A)} (some (take n [])) (some [])
take-nil zero = refl
take-nil (suc n) = refl

module _ (R F : Type 0) ⦃DR : DashMap R F⦄ ⦃SF : Scores F⦄ where
  ranked-empty : (limit : ℕ) → ranked R F limit DR.empty ≡ some []
  unfolding ranked sort_by_score
  ranked-empty limit =
      let e : DR.entries DR.empty ≡ [] = keys-nil (DR.entries DR.empty) (
        no_members (keys (DR.entries DR.empty))
          (λ i. contains-entries F DR.empty i ∙ ap is_some (DR.get-empty i))) in
      rw e (take-nil limit)

  retain_in-none :
      {Bm : Type 0} ⦃B : Bitmap Bm⦄ (bm : Bm) (m : R)
      → ((i : ℕ) → B.member bm i ≡ false)
      → retain_in R F bm m ≡ m
  unfolding retain_in
  retain_in-none ⦃B = B⦄ bm m h =
      let e : B.iter bm ≡ [] = no_members (B.iter bm) (λ i. B.contains-iter bm i ∙ h i) in rw e

no_vectors :
    {F : Type 0} (vq : List F) (k ef : ℕ) (vi : VectorIndex) → Vector.search vq k ef vi ≡ none
unfolding Vector.search Vector.graph_search
no_vectors vq k ef vi = ground arith

module _ {E V T U K Bm S Ps L D : Type 0} (R F : Type 0) (tables : CharTables) ⦃TM : TermMap S⦄
    ⦃B : Bitmap Bm⦄ ⦃DP : DashMap Ps (List ℕ)⦄ ⦃DL : DashMap L ℕ⦄ ⦃DR : DashMap R F⦄ ⦃SF : Scores F⦄
    ⦃DD : Doubles D⦄ ⦃N : Narrow D F⦄ ⦃DE : KeyMap E LabelProp T⦄ ⦃DT : KeyMap T ValueWrapper Bm⦄
    ⦃DV : KeyMap V LabelProp U⦄ ⦃DU : OrderedMap U K Bm⦄ ⦃DK : Floats K⦄ where
  post_scores-none :
      (ctx : QueryContext E V T U K Bm S Ps L D) (q : HybridQuery F) (bm : Bm)
      → ((i : ℕ) → B.member bm i ≡ false)
      → post_scores R F tables ctx q bm ≡ post_scores R F tables ctx q B.empty
  unfolding post_scores
  post_scores-none ctx q bm h = elim (Option-cases (add_fulltext R F tables ctx q DR.empty)) [
    | inl a ↦ rw (post_scores, a)
    | inr (m, a) ↦ elim (Option-cases (add_vector R F tables ctx q m)) [
      | inl b ↦ rw (post_scores, a, b)
      | inr (found, b) ↦ rw (
        post_scores,
        a,
        b,
        retain_in-none R F bm found h,
        retain_in-none R F B.empty found B.member-empty,
      )
    ]
  ]

  hybrid_search-scores :
      (ctx : QueryContext E V T U K Bm S Ps L D) (q : HybridQuery F)
      → scores_of R F tables ctx q ≡ scores_of R F tables ctx (record q { predicate = none })
      → hybrid_search R F tables ctx q
        ≡ hybrid_search R F tables ctx (record q { predicate = none })
  unfolding hybrid_search
  hybrid_search-scores ctx q e = rw (hybrid_search, e)

  -- A search that scores first, with a predicate whose bitmap is empty, returns what the search without
  -- a predicate returns.
  hybrid_search_unmatched :
      (ctx : QueryContext E V T U K Bm S Ps L D) (q : HybridQuery F) (p : Predicate)
      → q.timing ≡ post
      → q.predicate ≡ some p
      → ((i : ℕ) → B.member (evaluate p ctx.prop_index) i ≡ false)
      → hybrid_search R F tables ctx q
        ≡ hybrid_search R F tables ctx (record q { predicate = none })
  unfolding scores_of filter_bitmap use_pre_filter post_scores add_fulltext add_vector
  hybrid_search_unmatched ctx q p last given h =
      let q' : HybridQuery F = record q { predicate = none } in
      let bm = evaluate p ctx.prop_index in
      let left : scores_of R F tables ctx q ≡ post_scores R F tables ctx q bm =
        rw (scores_of, last, given) in
      let right : scores_of R F tables ctx q' ≡ post_scores R F tables ctx q' B.empty =
        rw (scores_of, last) in
      hybrid_search-scores ctx q (left ∙ post_scores-none ctx q bm h ∙ sym right)

  -- A search without a predicate that filters first returns no results, whatever the texts and the
  -- vectors are.
  hybrid_search-no_predicate :
      (ctx : QueryContext E V T U K Bm S Ps L D) (q : HybridQuery F)
      → q.predicate ≡ none
      → use_pre_filter q.timing (selectivity {F = F} (filter_bitmap ctx q) ctx.node_count) ≡ true
      → hybrid_search R F tables ctx q ≡ some []
  unfolding hybrid_search scores_of filter_bitmap pre_scores
  hybrid_search-no_predicate ctx q absent first =
      let nothing : B.iter B.empty ≡ [] =
        no_members (B.iter B.empty) (λ i. B.contains-iter B.empty i ∙ B.member-empty i) in
      let bitmap : filter_bitmap ctx q ≡ B.empty = rw (filter_bitmap, absent) in
      let start : scores_of R F tables ctx q ≡ some DR.empty =
        rw (scores_of, first, bitmap, nothing) in
      rw (hybrid_search, start) (ranked-empty R F q.limit)

  -- A search by vector that scores first panics, whatever the vector is.
  hybrid_search-vector :
      (ctx : QueryContext E V T U K Bm S Ps L D) (q : HybridQuery F) (vi : VectorIndex)
      (vq : List F)
      → ctx.vec_index ≡ some vi
      → q.vector_query ≡ some vq
      → use_pre_filter q.timing (selectivity {F = F} (filter_bitmap ctx q) ctx.node_count) ≡ false
      → hybrid_search R F tables ctx q ≡ none
  unfolding hybrid_search scores_of post_scores add_vector Vector.search
  hybrid_search-vector ctx q vi vq there given last =
      let panic : (m : R) → add_vector R F tables ctx q m ≡ none = λ m. rw (
        add_vector,
        there,
        given,
        no_vectors vq (unwrap_or 50 q.vector_k) (unwrap_or 200 q.vector_ef) vi,
      ) in
      let scores : scores_of R F tables ctx q ≡ none =
        elim (Option-cases (add_fulltext R F tables ctx q DR.empty)) [
          | inl a ↦ rw (scores_of, last, post_scores, a)
          | inr (m, a) ↦ rw (scores_of, last, post_scores, a, panic m)
        ] in
      rw (hybrid_search, scores)
