-- ===== src/Query/Results.antt =====
-- The list that a search returns: its order, its length, and the nodes in it.
use lightgraph.Base.{
  ℕ, zero, suc, ◌≤◌, ◌≡◌, refl, sym, ap, subst, ◌∙◌, Bool, true, Option, none, some, Option-cases,
  inl, inr, List, [], ◌∷◌, ◌==◌, arith, contains, ltb, length, take, take-length, map,
}
use lightgraph.Extern.{KeyMap, Bitmap, OrderedMap, DashMap, TermMap, Scores, Doubles, Narrow}
use lightgraph.Index.Property.{LabelProp, ValueWrapper, Floats}
use lightgraph.Index.Analyzer.{CharTables}
use lightgraph.Index.Ranking.{
  count, IsRanked, sort_by_score, sort_by_score-count, sort_by_score-IsRanked,
}
use lightgraph.Index.Totals.{has, contains-count, contains-entries}
use lightgraph.Query.Plan.{QueryResult}
use lightgraph.Query.Search.{QueryContext, HybridQuery, to_result, ranked, scores_of, hybrid_search}

module _ {A : Type 0} where
  pub length-take : (n : ℕ) (l : List A) → length (take n l) ≤ n
  length-take zero l = omega arith
  length-take (suc n) [] = omega arith
  length-take (suc n) (x ∷ l) = omega (arith, length-take n l)

  count-take : (p : A → Bool) (n : ℕ) (l : List A) → count p (take n l) ≤ count p l
  count-take p zero l = omega arith
  count-take p (suc n) [] = omega arith
  count-take p (suc n) (x ∷ l) = ground (arith, count-take p n l)

  IsRanked-take :
      {F : Type 0} ⦃S : Scores F⦄ (score : A → F) (n : ℕ) (l : List A)
      → IsRanked score l
      → IsRanked score (take n l)
  IsRanked-take score zero l h = tt
  IsRanked-take score (suc n) [] h = tt
  IsRanked-take score (suc zero) (x ∷ []) h = tt
  IsRanked-take score (suc (suc n)) (x ∷ []) h = tt
  IsRanked-take score (suc zero) (x ∷ y ∷ l) h = tt
  IsRanked-take score (suc (suc n)) (x ∷ y ∷ l) h = (h.0, IsRanked-take score (suc n) (y ∷ l) h.1)

count-map :
    {A B : Type 0} (p : B → Bool) (f : A → B) (l : List A)
    → count p (map f l) ≡ count (λ a. p (f a)) l
count-map p f [] = refl
count-map p f (x ∷ l) = ground (arith, count-map p f l)

count-true : {A : Type 0} (l : List A) → count (λ _. true) l ≡ length l
count-true [] = refl
count-true (x ∷ l) = omega (arith, count-true l)

-- Whether a node is among the results.
abbrev pub node_ids : {F : Type 0} → List (QueryResult F) → List ℕ
node_ids [] = []
node_ids (r ∷ l) = r.node_id ∷ node_ids l

abbrev is_node : {F : Type 0} → ℕ → QueryResult F → Bool
is_node i r = r.node_id == i

contains-node_ids :
    {F : Type 0} (l : List (QueryResult F)) (i : ℕ)
    → contains (node_ids l) i ≡ ltb 0 (count (is_node i) l)
unfolding contains
contains-node_ids [] i = refl
contains-node_ids (r ∷ l) i = ground (arith, contains-node_ids l i)

module _ {R F : Type 0} ⦃DR : DashMap R F⦄ ⦃SF : Scores F⦄ where
  -- What `ranked` returns is the front of a sorted list of all entries.
  pub record Ranked (limit : ℕ) (scores : R) (results : List (QueryResult F)) : Type 0 where
    pub order : IsRanked (λ (r : QueryResult F). r.score) results
    pub room : length results ≤ limit
    pub found : (i : ℕ) → contains (node_ids results) i ≡ true → has F scores i ≡ true
    pub all :
        (i : ℕ)
        → length (DR.entries scores) ≤ limit
        → contains (node_ids results) i ≡ has F scores i

abbrev results_or_nil : {A : Type 0} → Option (List A) → List A
results_or_nil none = []
results_or_nil (some l) = l

module _ (R F : Type 0) ⦃DR : DashMap R F⦄ ⦃SF : Scores F⦄ where
  contains-sorted :
      (scores : R) (l : List (QueryResult F)) (i : ℕ)
      → sort_by_score (λ (r : QueryResult F). r.score) (map to_result (DR.entries scores)) ≡ some l
      → contains (node_ids l) i ≡ has F scores i
  contains-sorted scores l i h =
      contains-node_ids l i
      ∙ ap (λ (n : ℕ). ltb 0 n)
          (sort_by_score-count (λ (r : QueryResult F). r.score) (is_node i)
              (map to_result (DR.entries scores)) l h
            ∙ count-map (is_node i) to_result (DR.entries scores))
      ∙ sym (contains-count (DR.entries scores) i)
      ∙ contains-entries F scores i

  length-sorted :
      (scores : R) (l : List (QueryResult F))
      → sort_by_score (λ (r : QueryResult F). r.score) (map to_result (DR.entries scores)) ≡ some l
      → length l ≡ length (DR.entries scores)
  length-sorted scores l h =
      sym (count-true l)
      ∙ sort_by_score-count (λ (r : QueryResult F). r.score) (λ _. true)
          (map to_result (DR.entries scores)) l h
      ∙ count-map (λ _. true) to_result (DR.entries scores)
      ∙ count-true (DR.entries scores)

  contains-take :
      (n : ℕ) (l : List (QueryResult F)) (i : ℕ)
      → contains (node_ids (take n l)) i ≡ true
      → contains (node_ids l) i ≡ true
  contains-take n l i h =
      ground
        (arith, contains-node_ids (take n l) i, contains-node_ids l i, count-take (is_node i) n l)

  pub ranked-Ranked :
      (limit : ℕ) (scores : R) (results : List (QueryResult F))
      → ranked R F limit scores ≡ some results
      → Ranked limit scores results
  unfolding ranked
  ranked-Ranked limit scores results h =
      let sorted =
        sort_by_score (λ (r : QueryResult F). r.score) (map to_result (DR.entries scores)) in
      elim (Option-cases sorted) [
        | inl e ↦ let no : none ≡ some results = rw (ranked, e) at h in absurd (cc)
        | inr (l, e) ↦
            let cut : take limit l ≡ results = ap results_or_nil (rw (ranked, e) at h) in
            subst (Ranked limit scores) cut (record {
              order =
                  IsRanked-take (λ (r : QueryResult F). r.score) limit l
                    (sort_by_score-IsRanked (λ (r : QueryResult F). r.score)
                      (map to_result (DR.entries scores)) l e);
              room = length-take limit l;
              found = λ i k. sym (contains-sorted scores l i e) ∙ contains-take limit l i k;
              all = λ i short.
                  ap (λ (z : List (QueryResult F)). contains (node_ids z) i)
                    (take-length limit l (omega (arith, length-sorted scores l e)))
                  ∙ contains-sorted scores l i e;
            })
      ]

module _ {E V T U K Bm S Ps L D : Type 0} (R F : Type 0) (tables : CharTables) ⦃TM : TermMap S⦄
    ⦃B : Bitmap Bm⦄ ⦃DP : DashMap Ps (List ℕ)⦄ ⦃DL : DashMap L ℕ⦄ ⦃DR : DashMap R F⦄ ⦃SF : Scores F⦄
    ⦃DD : Doubles D⦄ ⦃N : Narrow D F⦄ ⦃DE : KeyMap E LabelProp T⦄ ⦃DT : KeyMap T ValueWrapper Bm⦄
    ⦃DV : KeyMap V LabelProp U⦄ ⦃DU : OrderedMap U K Bm⦄ ⦃DK : Floats K⦄ where
  pub hybrid_search-Ranked :
      (ctx : QueryContext E V T U K Bm S Ps L D) (q : HybridQuery F)
      (results : List (QueryResult F))
      → hybrid_search R F tables ctx q ≡ some results
      → (scores : R) × (scores_of R F tables ctx q ≡ some scores) × Ranked q.limit scores results
  unfolding hybrid_search
  hybrid_search-Ranked ctx q results h = elim (Option-cases (scores_of R F tables ctx q)) [
    | inl e ↦ let no : none ≡ some results = rw (hybrid_search, e) at h in absurd (cc)
    | inr (scores, e) ↦
        (scores, e, ranked-Ranked R F q.limit scores results (rw (hybrid_search, e) at h))
  ]

  -- A hybrid search that does not panic returns at most as many results as the limit says, and none
  -- of them before one that has a higher score.
  pub hybrid_search-IsRanked :
      (ctx : QueryContext E V T U K Bm S Ps L D) (q : HybridQuery F)
      (results : List (QueryResult F))
      → hybrid_search R F tables ctx q ≡ some results
      → (length results ≤ q.limit) × IsRanked (λ (r : QueryResult F). r.score) results
  hybrid_search-IsRanked ctx q results h =
      let (scores, e, k) = hybrid_search-Ranked ctx q results h in (k.room, k.order)
