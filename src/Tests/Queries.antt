-- ===== src/Tests/Queries.antt =====
-- Searches at concrete indexes.
use lightgraph.Base.{
  ℕ, ◌≡◌, ◌≤◌, refl, true, false, none, some, List, [], ◌∷◌, arith, contains, length, u32_mod, ◌%◌,
}
use lightgraph.Extern.{keys}
use lightgraph.Extern.Models.{Assoc, assoc_map}
use lightgraph.Storage.PropStore.Column.{Value}
use lightgraph.Index.Property.{Predicate, wrap, evaluate, range_scan, eq_scan, eq_scans, fold_union}
use lightgraph.Index.Analyzer.{Token, is_cjk, lowercase, tokenize_loop, take_run, drop_run}
use lightgraph.Index.FullText.{
  search_tokens, add_query, add_tokens, add_nodes, score_of, bm25_score, count_tf, doc_length,
}
use lightgraph.Index.FullText.Found.{matches_tokens, search_tokens-matches}
use lightgraph.Index.Vector
use lightgraph.Index.Vector.{VectorIndex}
use lightgraph.Index.Ranking.{IsRanked, sort_by_score, insert_by_score, above}
use lightgraph.Index.Totals.{add_score}
use lightgraph.Query.Plan.{QueryResult, FusionMethod, pre, post, adaptive}
use lightgraph.Query.Builder.{QueryBuilder, build, filter_each, in_all, build-in_all}
use lightgraph.Query.Search.{
  QueryContext, HybridQuery, filter_bitmap, selectivity, use_pre_filter, candidate_score,
  hybrid_search,
}
use lightgraph.Query.Results.{node_ids, hybrid_search-IsRanked}
use lightgraph.Query.Filtered.{hybrid_search-pre_all, hybrid_search-post}
use lightgraph.Tests.IndexModels.{
  Coded, small_index, question, pair_map, wrapper_map, list_bitmap, list_tree, bit_floats, words,
  letters, number_scores, number_doubles, number_narrow, one_term,
}

-- the tokens of "ab"
abbrev one_token : List Token
one_token = record { term = 97 ∷ 98 ∷ []; position = 0 } ∷ []

abbrev Totals : Type 0
Totals = Assoc ℕ

abbrev two_found : List (ℕ × ℕ)
two_found = (8, 3300000) ∷ (4, 3300000) ∷ []

search_ab : search_tokens Totals ℕ words one_token ≡ some two_found
unfolding search_tokens add_query add_tokens add_nodes score_of bm25_score count_tf doc_length
    sort_by_score insert_by_score add_score contains
search_ab = refl

search_tokens-matches_example :
    (contains (keys two_found) 8 ≡ matches_tokens words one_token 8)
    × IsRanked (λ (e : ℕ × ℕ). e.1) two_found
search_tokens-matches_example = search_tokens-matches Totals ℕ words one_token two_found 8 search_ab

abbrev Context : Type 0
Context =
    QueryContext (Coded (Coded (List ℕ))) (Coded (List (List ℕ))) (Coded (List ℕ)) (List (List ℕ)) ℕ
      (List ℕ) (List ℕ) (Assoc (List ℕ)) (Assoc ℕ) ℕ

abbrev context : Context
context = record {
  ft_index = some words;
  vec_index = none;
  prop_index = small_index;
  node_count = 9;
}

abbrev asking : HybridQuery ℕ
asking = record {
  fulltext_query = some (97 ∷ 98 ∷ []);
  vector_query = none;
  vector_k = none;
  vector_ef = none;
  predicate = some question;
  timing = pre;
  alpha = 1;
  beta = 0;
  limit = 5;
}

abbrev asking_post : HybridQuery ℕ
asking_post = record asking { timing = post }

abbrev one_result : ℕ → List (QueryResult ℕ)
one_result score = record { node_id = 4; score = score; path = none } ∷ []

first_filter :
    use_pre_filter asking.timing
      (selectivity {F = ℕ} (filter_bitmap context asking) context.node_count)
    ≡ true
unfolding use_pre_filter
first_filter = refl

first_score :
    use_pre_filter asking_post.timing
      (selectivity {F = ℕ} (filter_bitmap context asking_post) context.node_count)
    ≡ false
unfolding use_pre_filter
first_score = refl

asked : hybrid_search Totals ℕ letters context asking ≡ some (one_result 100)
unfolding hybrid_search evaluate range_scan eq_scan eq_scans fold_union wrap contains
    insert_by_score
asked = refl

asked_post : hybrid_search Totals ℕ letters context asking_post ≡ some (one_result 3300000)
unfolding hybrid_search evaluate range_scan eq_scan eq_scans fold_union wrap contains
    insert_by_score tokenize_loop is_cjk drop_run lowercase take_run
asked_post = refl

positive : above (candidate_score context asking) 0 ≡ true
unfolding candidate_score
positive = refl

listed : contains (node_ids (one_result 100)) 4 ≡ true
unfolding contains
listed = refl

matching : contains (evaluate question small_index) 4 ≡ true
unfolding evaluate range_scan eq_scan fold_union wrap contains
matching = refl

one_matches : length (evaluate question small_index) ≤ 5
unfolding evaluate range_scan eq_scan fold_union wrap contains
one_matches = omega arith

hybrid_search-IsRanked_example :
    (length (one_result 100) ≤ 5) × IsRanked (λ (r : QueryResult ℕ). r.score) (one_result 100)
hybrid_search-IsRanked_example =
    hybrid_search-IsRanked Totals ℕ letters context asking (one_result 100) asked

hybrid_search-pre_all_example :
    contains (node_ids (one_result 100)) 6 ≡ contains (evaluate question small_index) 6
hybrid_search-pre_all_example =
    hybrid_search-pre_all Totals ℕ letters context asking question refl (one_result 100) 6
      first_filter positive asked one_matches

hybrid_search-post_example : contains (evaluate question small_index) (4 % u32_mod) ≡ true
hybrid_search-post_example =
    hybrid_search-post Totals ℕ letters context asking_post question refl (one_result 3300000) 4 4
      first_score matching asked_post listed

abbrev asking_all : HybridQuery ℕ
asking_all = record asking { predicate = none; timing = adaptive }

first_adaptive :
    use_pre_filter asking_all.timing
      (selectivity {F = ℕ} (filter_bitmap context asking_all) context.node_count)
    ≡ true
unfolding use_pre_filter selectivity filter_bitmap
first_adaptive = refl

abbrev vectors : VectorIndex
vectors = record {
  name = [];
  dim = 2;
  metric = Vector.cosine;
  hnsw = record { dim = 2; m = 16; ef_construction = 200 };
  count = 0;
}

abbrev vector_context : Context
vector_context = record context { vec_index = some vectors }

abbrev asking_vector : HybridQuery ℕ
asking_vector = record asking_post { vector_query = some (1 ∷ 2 ∷ []) }

abbrev empty_builder : QueryBuilder ℕ
empty_builder = record {
  fulltext_text = none;
  fulltext_prop = none;
  vector_prop = none;
  vector_query = none;
  vector_k = 20;
  vector_ef = 200;
  predicates = [];
  fusion = FusionMethod.weighted_sum 100 0;
  filter_timing = adaptive;
  traversal = none;
  limit = 20;
}

abbrev second : Predicate
second = Predicate.eq (1 ∷ []) (2 ∷ []) (Value.int 7)

build-in_all_example :
    (q : Predicate) × ((build (filter_each (question ∷ second ∷ []) empty_builder)).predicate
      ≡ some q)
    × (contains (evaluate q small_index) 4 ≡ in_all (question ∷ second ∷ []) small_index 4)
build-in_all_example = build-in_all empty_builder question (second ∷ []) small_index 4 refl
