-- ===== src/Index/FullText/Found.antt =====
-- Which nodes a search of the full text index finds, and in which order.
use lightgraph.Base.{
  ℕ, ◌≡◌, refl, sym, ap, ◌∙◌, Bool, true, false, Option, none, some, Option-cases, inl, inr, List,
  [], ◌∷◌, ◌||◌, if◌then◌else◌, arith, contains, ltb,
}
use lightgraph.Extern.{DashMap, Bitmap, TermMap, Scores, Doubles, Narrow, keys}
use lightgraph.Index.Analyzer.{Token}
use lightgraph.Index.Ranking.{IsRanked, sort_by_score, sort_by_score-count, sort_by_score-IsRanked}
use lightgraph.Index.Totals.{
  is_some, has, with_id, contains-count, contains-entries, add_score, has-add_score,
}
use lightgraph.Index.FullText.{
  FullTextIndex, get_elem?, score_of, add_nodes, add_tokens, add_query, search_tokens,
}

module _ {S Bm Ps L D : Type 0} ⦃T : TermMap S⦄ ⦃B : Bitmap Bm⦄ where
  -- The node stands in the posting of the token's term.
  unfoldable pub has_term : FullTextIndex S Bm Ps L D → S → Token → ℕ → Bool
  has_term idx fst t i = elim (T.get fst t.term) [
    | none ↦ false
    | some ordinal ↦ elim (get_elem? idx.postings ordinal) [
      | none ↦ false
      | some posting ↦ B.member posting i
    ]
  ]

  unfoldable pub has_any : FullTextIndex S Bm Ps L D → S → List Token → ℕ → Bool
  has_any idx fst [] i = false
  has_any idx fst (t ∷ ts) i = has_term idx fst t i || has_any idx fst ts i

  -- The node stands in the posting of the term of one of the tokens.
  unfoldable pub matches_tokens : FullTextIndex S Bm Ps L D → List Token → ℕ → Bool
  unfolding has_any has_term
  matches_tokens idx tokens i = elim idx.fst [ none ↦ false | some fst ↦ has_any idx fst tokens i ]

module _ {S Bm Ps L D : Type 0} (R F : Type 0) ⦃B : Bitmap Bm⦄ ⦃DP : DashMap Ps (List ℕ)⦄
    ⦃DL : DashMap L ℕ⦄ ⦃DR : DashMap R F⦄ ⦃SF : Scores F⦄ ⦃DD : Doubles D⦄ ⦃N : Narrow D F⦄ where
  has-add_nodes :
      (idx : FullTextIndex S Bm Ps L D) (ordinal : ℕ) (posting : Bm) (ids : List ℕ) (m : R) (i : ℕ)
      → has F (add_nodes R F idx ordinal posting ids m) i
        ≡ (if contains ids i then true else has F m i)
  unfolding add_nodes contains
  has-add_nodes idx ordinal posting [] m i = refl
  has-add_nodes idx ordinal posting (id ∷ ids) m i =
      let score : F = score_of idx ordinal posting id in
      ground (
        arith,
        has-add_nodes idx ordinal posting ids (add_score {F = F} m id score) i,
        has-add_score {F = F} m id i score,
      )

abbrev value_or : {A : Type 0} → A → Option A → A
value_or d none = d
value_or d (some a) = a

module _ {S Bm Ps L D : Type 0} (R F : Type 0) ⦃T : TermMap S⦄ ⦃B : Bitmap Bm⦄
    ⦃DP : DashMap Ps (List ℕ)⦄ ⦃DL : DashMap L ℕ⦄ ⦃DR : DashMap R F⦄ ⦃SF : Scores F⦄
    ⦃DD : Doubles D⦄ ⦃N : Narrow D F⦄ where
  has-add_tokens :
      (idx : FullTextIndex S Bm Ps L D) (fst : S) (ts : List Token) (m m' : R) (i : ℕ)
      → add_tokens R F idx fst ts m ≡ some m'
      → has F m' i ≡ (has_any idx fst ts i || has F m i)
  unfolding add_tokens has_any has_term
  has-add_tokens idx fst [] m m' i h = ap (λ (z : R). has F z i) (sym (ap (value_or m) h))
  has-add_tokens idx fst (t ∷ ts) m m' i h = elim (Option-cases (T.get fst t.term)) [
    | inl e ↦
        let ih = has-add_tokens idx fst ts m m' i (rw (add_tokens, e) at h) in
        ih ∙ rw (has_any, has_term, e)
    | inr (o, e) ↦ elim (Option-cases (get_elem? idx.postings o)) [
      | inl e₂ ↦ let no : none ≡ some m' = rw (add_tokens, e, e₂) at h in absurd (cc)
      | inr (posting, e₂) ↦
          let m₁ = add_nodes R F idx o posting (B.iter posting) m in
          let ih = has-add_tokens idx fst ts m₁ m' i (rw (add_tokens, e, e₂) at h) in
          let added = has-add_nodes R F idx o posting (B.iter posting) m i in
          let listed = B.contains-iter posting i in
          let here : has_term idx fst t i ≡ B.member posting i = rw (has_term, e, e₂) in
          ih ∙ ground (arith, added, listed, here)
    ]
  ]

  has-add_query :
      (idx : FullTextIndex S Bm Ps L D) (ts : List Token) (m : R) (i : ℕ)
      → add_query R F idx ts ≡ some m
      → has F m i ≡ matches_tokens idx ts i
  unfolding add_query matches_tokens
  has-add_query idx ts m i h = elim (Option-cases idx.fst) [
    | inl e ↦
        let start : DR.empty ≡ m = ap (value_or m) (rw (add_query, e) at h) in
        ap (λ (z : R). has F z i) (sym start) ∙ rw (matches_tokens, e) (ap is_some (DR.get-empty i))
    | inr (fst, e) ↦
        let k : has F m i ≡ (has_any idx fst ts i || has F DR.empty i) =
          has-add_tokens idx fst ts DR.empty m i (rw (add_query, e) at h) in
        k ∙ rw (matches_tokens, e) (ground (arith, DR.get-empty i))
  ]

  -- A search that does not panic gives the nodes that stand in the posting of the term of a token of
  -- the query, and no others, with no node before one that has a higher score.
  pub search_tokens-matches :
      (idx : FullTextIndex S Bm Ps L D) (ts : List Token) (results : List (ℕ × F)) (i : ℕ)
      → search_tokens R F idx ts ≡ some results
      → (contains (keys results) i ≡ matches_tokens idx ts i)
        × IsRanked (λ (e : ℕ × F). e.1) results
  unfolding search_tokens
  search_tokens-matches idx ts results i h = elim (Option-cases (add_query R F idx ts)) [
    | inl e ↦ let no : none ≡ some results = rw (search_tokens, e) at h in absurd (cc)
    | inr (m, e) ↦
        let sorted : sort_by_score (λ (e : ℕ × F). e.1) (DR.entries m) ≡ some results =
          rw (search_tokens, e) at h in
        let same =
          sort_by_score-count (λ (e : ℕ × F). e.1) (with_id i) (DR.entries m) results sorted in
        (
          contains-count results i
              ∙ ap (λ (n : ℕ). ltb 0 n) same
              ∙ sym (contains-count (DR.entries m) i)
              ∙ contains-entries F m i
              ∙ has-add_query idx ts m i e,
          sort_by_score-IsRanked (λ (e : ℕ × F). e.1) (DR.entries m) results sorted,
        )
  ]
