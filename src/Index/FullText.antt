-- ===== src/Index/FullText.antt =====
-- src/index/fulltext: the index of terms, and the search that scores the nodes of each term.
pub mod Found
use lightgraph.Base.{
  ℕ, zero, suc, ◌-◌, Option, none, some, List, [], ◌∷◌, ◌==◌, if◌then◌else◌, length, Bytes,
}
use lightgraph.Extern.{DashMap, Bitmap, TermMap, Scores, Doubles, Narrow}
use lightgraph.Index.Analyzer.{CharTables, Token, tokenize}
use lightgraph.Index.Ranking.{sort_by_score}
use lightgraph.Index.Totals.{add_score}

-- The types are those of the dictionary, the bitmaps, the two kinds of maps, and `f64`. The index
-- has no operation that fills it.
pub record FullTextIndex (S Bm Ps L D : Type 0) : Type 0 where
  pub name : Bytes
  pub labels : List Bytes
  pub properties : List Bytes
  pub fst : Option S
  pub postings : List Bm
  pub positions : List Ps
  pub doc_lengths : L
  pub total_docs : ℕ
  pub avg_doc_length : D

abbrev pub get_elem? {ℓ} : {A : Type ℓ} → List A → ℕ → Option A
get_elem? [] n = none
get_elem? (x ∷ l) n = let rest = get_elem? l (n - 1) in if n == 0 then some x else rest

module _ {F D : Type 0} ⦃SF : Scores F⦄ ⦃N : Narrow D F⦄ where
  -- k1 is 1.2, and b is 0.75
  unfoldable pub bm25_score : F → D → F → D → D → F
  bm25_score tf df doc_len avg_doc_len total_docs =
      let k1 = SF.lit 120 in
      let b = SF.lit 75 in
      let df_f32 = N.narrow df in
      let total_f32 = N.narrow total_docs in
      let idf = SF.ln (
        SF.add (SF.div (SF.add (SF.sub total_f32 df_f32) (SF.lit 50)) (SF.add df_f32 (SF.lit 50)))
          (SF.lit 100)) in
      let tf_norm = SF.div (SF.mul tf (SF.add k1 (SF.lit 100))) (
        SF.add tf (
          SF.mul k1
            (SF.add (SF.sub (SF.lit 100) b) (SF.div (SF.mul b doc_len) (N.narrow avg_doc_len))))) in
      SF.mul idf tf_norm

unfoldable pub new :
    {S Bm Ps L D : Type 0}
    → ⦃DL : DashMap L ℕ⦄ → ⦃DD : Doubles D⦄ → Bytes
    → List Bytes
    → List Bytes
    → FullTextIndex S Bm Ps L D
new ⦃DL = DL⦄ ⦃DD = DD⦄ name labels properties = record {
  name = name;
  labels = labels;
  properties = properties;
  fst = none;
  postings = [];
  positions = [];
  doc_lengths = DL.empty;
  total_docs = 0;
  avg_doc_length = DD.zero;
}

module _ {S Bm Ps L F D : Type 0} ⦃SF : Scores F⦄ where
  unfoldable pub count_tf : ⦃DP : DashMap Ps (List ℕ)⦄ → FullTextIndex S Bm Ps L D → ℕ → ℕ → F
  count_tf ⦃DP⦄ idx ordinal id = elim (get_elem? idx.positions ordinal) [
    | none ↦ SF.lit 100
    | some map ↦ elim (DP.get map id) [ none ↦ SF.lit 100 | some v ↦ SF.of_nat (length v) ]
  ]

  unfoldable pub doc_length : ⦃DL : DashMap L ℕ⦄ → FullTextIndex S Bm Ps L D → ℕ → F
  doc_length ⦃DL⦄ idx id = elim (DL.get idx.doc_lengths id) [
    | none ↦ SF.lit 100
    | some n ↦ SF.of_nat n
  ]

module _ {S Bm Ps L F D : Type 0} ⦃B : Bitmap Bm⦄ ⦃DP : DashMap Ps (List ℕ)⦄ ⦃DL : DashMap L ℕ⦄
    ⦃SF : Scores F⦄ ⦃DD : Doubles D⦄ ⦃N : Narrow D F⦄ where
  -- the score of a node for a term
  unfoldable pub score_of : FullTextIndex S Bm Ps L D → ℕ → Bm → ℕ → F
  unfolding count_tf doc_length bm25_score
  score_of idx ordinal posting id =
      bm25_score (count_tf idx ordinal id) (DD.of_nat (length (B.iter posting))) (doc_length idx id)
        idx.avg_doc_length (DD.of_nat idx.total_docs)

-- `R` is the type of the map of results.
module _ {S Bm Ps L D : Type 0} (R F : Type 0) ⦃B : Bitmap Bm⦄ ⦃DP : DashMap Ps (List ℕ)⦄
    ⦃DL : DashMap L ℕ⦄ ⦃DR : DashMap R F⦄ ⦃SF : Scores F⦄ ⦃DD : Doubles D⦄ ⦃N : Narrow D F⦄ where
  unfoldable pub add_nodes : FullTextIndex S Bm Ps L D → ℕ → Bm → List ℕ → R → R
  unfolding score_of add_score
  add_nodes idx ordinal posting [] results = results
  add_nodes idx ordinal posting (id ∷ ids) results =
      add_nodes idx ordinal posting ids
        (add_score {F = F} results id (score_of idx ordinal posting id))

module _ {S Bm Ps L D : Type 0} (R F : Type 0) ⦃T : TermMap S⦄ ⦃B : Bitmap Bm⦄
    ⦃DP : DashMap Ps (List ℕ)⦄ ⦃DL : DashMap L ℕ⦄ ⦃DR : DashMap R F⦄ ⦃SF : Scores F⦄
    ⦃DD : Doubles D⦄ ⦃N : Narrow D F⦄ where
  -- `none` is a panic: the number of a term is not that of a posting.
  unfoldable pub add_tokens : FullTextIndex S Bm Ps L D → S → List Token → R → Option R
  unfolding add_nodes
  add_tokens idx fst [] results = some results
  add_tokens idx fst (t ∷ ts) results = elim (T.get fst t.term) [
    | none ↦ add_tokens idx fst ts results
    | some ordinal ↦ elim (get_elem? idx.postings ordinal) [
      | none ↦ none
      | some posting ↦
          add_tokens idx fst ts (add_nodes R F idx ordinal posting (B.iter posting) results)
    ]
  ]

  unfoldable pub add_query : FullTextIndex S Bm Ps L D → List Token → Option R
  unfolding add_tokens
  add_query idx tokens = elim idx.fst [
    | none ↦ some DR.empty
    | some fst ↦ add_tokens idx fst tokens DR.empty
  ]

-- `search`, from the tokens of the query; `tokenize` gives some for every query.
module _ {S Bm Ps L D : Type 0} (R F : Type 0) ⦃T : TermMap S⦄ ⦃B : Bitmap Bm⦄
    ⦃DP : DashMap Ps (List ℕ)⦄ ⦃DL : DashMap L ℕ⦄ ⦃DR : DashMap R F⦄ ⦃SF : Scores F⦄
    ⦃DD : Doubles D⦄ ⦃N : Narrow D F⦄ where
  unfoldable pub search_tokens : FullTextIndex S Bm Ps L D → List Token → Option (List (ℕ × F))
  unfolding add_query sort_by_score
  search_tokens idx tokens = elim (add_query R F idx tokens) [
    | none ↦ none
    | some results ↦ sort_by_score (λ (e : ℕ × F). e.1) (DR.entries results)
  ]

  unfoldable pub search : CharTables → FullTextIndex S Bm Ps L D → List ℕ → Option (List (ℕ × F))
  unfolding tokenize search_tokens
  search tables idx query = elim (tokenize tables query) [
    | none ↦ none
    | some tokens ↦ search_tokens idx tokens
  ]
