-- ===== src/Query/Filtered.antt =====
-- The predicate of a search against its results, in both orders of filtering and scoring.
use lightgraph.Base.{
  ℕ, suc, ◌%◌, ◌≤◌, ◌≡◌, refl, sym, ap, IsDistinct, ◌∙◌, Bool, true, false, Bool-cases, not, ◌&&◌,
  Option, none, some, Option-cases, inl, inr, List, [], ◌∷◌, ◌==◌, ==_iff, if◌then◌else◌, arith,
  contains, ltb, length, u32_mod,
}
use lightgraph.Extern.{KeyMap, Bitmap, OrderedMap, DashMap, TermMap, Scores, Doubles, Narrow, keys}
use lightgraph.Index.Property.{LabelProp, ValueWrapper, Predicate, Floats, evaluate}
use lightgraph.Index.Analyzer.{CharTables}
use lightgraph.Index.Ranking.{above}
use lightgraph.Index.Totals.{has, contains-entries}
use lightgraph.Query.Plan.{QueryResult}
use lightgraph.Query.Search.{
  QueryContext, HybridQuery, filter_bitmap, candidate_score, pre_scores, remove_failing, retain_in,
  post_scores, add_fulltext, add_vector, use_pre_filter, selectivity, scores_of, hybrid_search,
}
use lightgraph.Query.Results.{node_ids, hybrid_search-Ranked}

module _ (R F : Type 0) ⦃DR : DashMap R F⦄ ⦃SF : Scores F⦄ where
  has-pre_scores :
      (score : F) (ids : List ℕ) (m : R) (i : ℕ)
      → has F (pre_scores R F score ids m) i
        ≡ (if above score (SF.lit 0) && contains ids i then true else has F m i)
  unfolding pre_scores contains
  has-pre_scores score [] m i = ground arith
  has-pre_scores score (id ∷ ids) m i = elim (Bool-cases (above score (SF.lit 0))) [
    | inl q ↦ rw q (
        ground
          (arith, has-pre_scores score ids (DR.insert m id score) i, DR.get-insert m id i score, q))
    | inr q ↦ rw q (ground (arith, has-pre_scores score ids m i, q))
  ]

  has-remove_failing :
      (test : ℕ → Bool) (l : List (ℕ × F)) (m : R) (i : ℕ)
      → has F (remove_failing R F test l m) i
        ≡ (has F m i && not (contains (keys l) i && not (test i)))
  unfolding remove_failing contains
  has-remove_failing test [] m i = ground arith
  has-remove_failing test ((id, s) ∷ l) m i =
      let same : (id == i) ≡ true → test i ≡ test id = λ e. ap test (sym ((==_iff id i).0 e)) in
      elim (Bool-cases (id == i)) [
        | inl e ↦ elim (Bool-cases (test id)) [
          | inl q ↦ rw q (ground (arith, has-remove_failing test l m i, same e, q, e))
          | inr q ↦ rw q (
              ground (
                arith,
                has-remove_failing test l (DR.remove m id) i,
                DR.get-remove m id i,
                same e,
                q,
                e,
              ))
        ]
        | inr e ↦ elim (Bool-cases (test id)) [
          | inl q ↦ rw q (ground (arith, has-remove_failing test l m i, q, e))
          | inr q ↦ rw q (
              ground
                (arith, has-remove_failing test l (DR.remove m id) i, DR.get-remove m id i, q, e))
        ]
      ]

  has-retain_in :
      {Bm : Type 0} ⦃B : Bitmap Bm⦄ (bm : Bm) (m : R) (i : ℕ)
      → ltb 0 (length (B.iter bm)) ≡ true
      → has F (retain_in R F bm m) i ≡ (has F m i && B.member bm (i % u32_mod))
  unfolding retain_in
  has-retain_in ⦃B = B⦄ bm m i h = rw h (
      ground (
        arith,
        has-remove_failing (λ id. B.member bm (id % u32_mod)) (DR.entries m) m i,
        contains-entries F m i,
      ))

length-keys : {V : Type 0} (l : List (ℕ × V)) → length (keys l) ≡ length l
length-keys [] = refl
length-keys ((k, v) ∷ l) = ap suc (length-keys l)

-- The list without the first number that is `i`.
abbrev without : ℕ → List ℕ → List ℕ
without i [] = []
without i (x ∷ l) = let rest = without i l in if x == i then l else x ∷ rest

length-without : (i : ℕ) (l : List ℕ) → contains l i ≡ true → suc (length (without i l)) ≡ length l
unfolding contains
length-without i [] h = cc
length-without i (x ∷ l) h = ground (arith, length-without i l)

contains-without :
    (i j : ℕ) (l : List ℕ) → (i == j) ≡ false → contains (without i l) j ≡ contains l j
unfolding contains
contains-without i j [] h = refl
contains-without i j (x ∷ l) h = ground (arith, contains-without i j l h)

-- Distinct numbers of a list are not more than the list has.
length-IsDistinct :
    (ks l : List ℕ)
    → IsDistinct ks
    → ((i : ℕ) → contains ks i ≡ true → contains l i ≡ true)
    → length ks ≤ length l
unfolding contains
length-IsDistinct [] l d h = omega arith
length-IsDistinct (k ∷ ks) l d h =
    let there : contains l k ≡ true = h k (ground arith) in
    let shorter = length-IsDistinct ks (without k l) d.1 λ i m. elim (Bool-cases (k == i)) [
      | inl e ↦ absurd (cc (d.0, m, ap (contains ks) ((==_iff k i).0 e)))
      | inr e ↦ contains-without k i l e ∙ h i (rw e m)
    ] in
    omega (arith, shorter, length-without k l there)

abbrev value_or : {A : Type 0} → A → Option A → A
value_or d none = d
value_or d (some a) = a

and-right : (a b : Bool) → (a && b) ≡ true → b ≡ true
and-right true b h = h
and-right false b h = cc

nonempty : (l : List ℕ) (i : ℕ) → contains l i ≡ true → ltb 0 (length l) ≡ true
unfolding contains
nonempty [] i h = cc
nonempty (x ∷ l) i h = ground arith

module _ (R F : Type 0) ⦃DR : DashMap R F⦄ ⦃SF : Scores F⦄ where
  has-pre_empty :
      (score : F) (ids : List ℕ) (i : ℕ)
      → has F (pre_scores R F score ids DR.empty) i ≡ (above score (SF.lit 0) && contains ids i)
  has-pre_empty score ids i =
      has-pre_scores R F score ids DR.empty i ∙ ground (arith, DR.get-empty i)

module _ {E V T U K Bm S Ps L D : Type 0} (R F : Type 0) (tables : CharTables) ⦃TM : TermMap S⦄
    ⦃B : Bitmap Bm⦄ ⦃DP : DashMap Ps (List ℕ)⦄ ⦃DL : DashMap L ℕ⦄ ⦃DR : DashMap R F⦄ ⦃SF : Scores F⦄
    ⦃DD : Doubles D⦄ ⦃N : Narrow D F⦄ ⦃DE : KeyMap E LabelProp T⦄ ⦃DT : KeyMap T ValueWrapper Bm⦄
    ⦃DV : KeyMap V LabelProp U⦄ ⦃DU : OrderedMap U K Bm⦄ ⦃DK : Floats K⦄
    (ctx : QueryContext E V T U K Bm S Ps L D) (q : HybridQuery F) (p : Predicate)
    (given : q.predicate ≡ some p) where
  member-filter_bitmap :
      (i : ℕ) → B.member (filter_bitmap ctx q) i ≡ B.member (evaluate p ctx.prop_index) i
  unfolding filter_bitmap
  member-filter_bitmap i = rw given refl

  -- What the scores are for a search that filters first.
  has-scores_pre :
      (scores : R) (i : ℕ)
      → use_pre_filter q.timing (selectivity {F = F} (filter_bitmap ctx q) ctx.node_count) ≡ true
      → scores_of R F tables ctx q ≡ some scores
      → has F scores i
        ≡ (above (candidate_score ctx q) (SF.lit 0) && B.member (evaluate p ctx.prop_index) i)
  unfolding scores_of
  has-scores_pre scores i first e =
      let ids = B.iter (filter_bitmap ctx q) in
      let filled : pre_scores R F (candidate_score ctx q) ids DR.empty ≡ scores =
        ap (value_or DR.empty) (rw (scores_of, first) at e) in
      let matching : contains ids i ≡ B.member (evaluate p ctx.prop_index) i =
        B.contains-iter (filter_bitmap ctx q) i ∙ member-filter_bitmap i in
      ap (λ (m : R). has F m i) (sym filled)
      ∙ has-pre_empty R F (candidate_score ctx q) ids i
      ∙ ap (λ (b : Bool). above (candidate_score ctx q) (SF.lit 0) && b) matching

  -- A search that filters first, under `Pre` or where the predicate is selective enough under
  -- `Adaptive`, returns only nodes in the bitmap that the predicate evaluates to.
  hybrid_search-pre :
      (results : List (QueryResult F)) (i : ℕ)
      → use_pre_filter q.timing (selectivity {F = F} (filter_bitmap ctx q) ctx.node_count) ≡ true
      → hybrid_search R F tables ctx q ≡ some results
      → contains (node_ids results) i ≡ true
      → B.member (evaluate p ctx.prop_index) i ≡ true
  hybrid_search-pre results i first h member =
      let (scores, e, k) = hybrid_search-Ranked R F tables ctx q results h in
      and-right _ _ (sym (has-scores_pre scores i first e) ∙ k.found i member)

  -- The map of scores has at most as many entries as the bitmap has nodes.
  length-scores_pre :
      (scores : R)
      → use_pre_filter q.timing (selectivity {F = F} (filter_bitmap ctx q) ctx.node_count) ≡ true
      → scores_of R F tables ctx q ≡ some scores
      → length (DR.entries scores) ≤ length (B.iter (evaluate p ctx.prop_index))
  length-scores_pre scores first e =
      let bm = evaluate p ctx.prop_index in
      omega (
        arith,
        length-keys (DR.entries scores),
        length-IsDistinct (keys (DR.entries scores)) (B.iter bm) (DR.entries-IsDistinct scores)
            λ i h.
              B.contains-iter bm i
              ∙ and-right _ _
                  (sym (has-scores_pre scores i first e) ∙ sym (contains-entries F scores i) ∙ h),
      )

  -- A search that filters first, whose candidates have a positive score, returns exactly the nodes in
  -- the bitmap that `evaluate` gives for its predicate, if they are not more than its limit.
  pub hybrid_search-pre_all :
      (results : List (QueryResult F)) (i : ℕ)
      → use_pre_filter q.timing (selectivity {F = F} (filter_bitmap ctx q) ctx.node_count) ≡ true
      → above (candidate_score ctx q) (SF.lit 0) ≡ true
      → hybrid_search R F tables ctx q ≡ some results
      → length (B.iter (evaluate p ctx.prop_index)) ≤ q.limit
      → contains (node_ids results) i ≡ B.member (evaluate p ctx.prop_index) i
  hybrid_search-pre_all results i first positive h few =
      let (scores, e, k) = hybrid_search-Ranked R F tables ctx q results h in
      k.all i (omega (arith, length-scores_pre scores first e))
      ∙ has-scores_pre scores i first e
      ∙ ap (λ (b : Bool). b && B.member (evaluate p ctx.prop_index) i) positive

  -- The scores of a search that scores first are retained from the scores found.
  retained :
      (scores : R)
      → use_pre_filter q.timing (selectivity {F = F} (filter_bitmap ctx q) ctx.node_count) ≡ false
      → scores_of R F tables ctx q ≡ some scores
      → (found : R) × (retain_in R F (filter_bitmap ctx q) found ≡ scores)
  unfolding scores_of post_scores
  retained scores last e = elim (Option-cases (add_fulltext R F tables ctx q DR.empty)) [
    | inl a ↦ let no : none ≡ some scores = rw (scores_of, last, post_scores, a) at e in absurd (cc)
    | inr (m, a) ↦ elim (Option-cases (add_vector R F tables ctx q m)) [
      | inl b ↦
          let no : none ≡ some scores = rw (scores_of, last, post_scores, a, b) at e in absurd (cc)
      | inr (found, b) ↦ (found, ap (value_or found) (rw (scores_of, last, post_scores, a, b) at e))
    ]
  ]

  -- A search that scores first, with a predicate for which `evaluate` gives a bitmap that is not empty,
  -- returns only nodes whose ids, cut to 32 bits, are in that bitmap.
  pub hybrid_search-post :
      (results : List (QueryResult F)) (i j : ℕ)
      → use_pre_filter q.timing (selectivity {F = F} (filter_bitmap ctx q) ctx.node_count) ≡ false
      → B.member (evaluate p ctx.prop_index) j ≡ true
      → hybrid_search R F tables ctx q ≡ some results
      → contains (node_ids results) i ≡ true
      → B.member (evaluate p ctx.prop_index) (i % u32_mod) ≡ true
  hybrid_search-post results i j last some_node h member =
      let (scores, e, k) = hybrid_search-Ranked R F tables ctx q results h in
      let bm = filter_bitmap ctx q in
      let full : ltb 0 (length (B.iter bm)) ≡ true =
        nonempty (B.iter bm) j (B.contains-iter bm j ∙ member-filter_bitmap j ∙ some_node) in
      let (found, kept) = retained scores last e in
      sym (member-filter_bitmap (i % u32_mod))
      ∙ and-right _ _ (
          sym (has-retain_in R F bm found i full)
          ∙ ap (λ (m : R). has F m i) kept
          ∙ k.found i member)
