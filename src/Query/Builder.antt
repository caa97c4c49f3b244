-- ===== src/Query/Builder.antt =====
-- `QueryBuilder` of src/query/builder.rs.
use lightgraph.Base.{
  ℕ, ◌≡◌, sym, ap, ◌∙◌, Bool, true, ◌&&◌, Option, none, some, List, [], ◌∷◌, ◌++◌, arith, Bytes,
  append-nil, append_assoc,
}
use lightgraph.Extern.{KeyMap, Bitmap, OrderedMap, Scores}
use lightgraph.Index.Property.{LabelProp, ValueWrapper, Predicate, PropertyIndex, Floats, evaluate}
use lightgraph.Query.Plan.{
  FusionMethod, weighted_sum, FilterTiming, adaptive, TraversalClause, QueryPlan,
}

pub record QueryBuilder (F : Type 0) : Type 0 where
  pub fulltext_text : Option Bytes
  pub fulltext_prop : Option Bytes
  pub vector_prop : Option Bytes
  pub vector_query : Option (List F)
  pub vector_k : ℕ
  pub vector_ef : ℕ
  pub predicates : List Predicate
  pub fusion : FusionMethod F
  pub filter_timing : FilterTiming
  pub traversal : Option TraversalClause
  pub limit : ℕ

unfoldable pub new : {F : Type 0} → ⦃S : Scores F⦄ → QueryBuilder F
new ⦃S⦄ = record {
  fulltext_text = none;
  fulltext_prop = none;
  vector_prop = none;
  vector_query = none;
  vector_k = 20;
  vector_ef = 200;
  predicates = [];
  fusion = weighted_sum (S.lit 100) (S.lit 0);
  filter_timing = adaptive;
  traversal = none;
  limit = 20;
}

-- `reduce(|a, b| And(a, b))`
abbrev pub reduce_from : Predicate → List Predicate → Predicate
reduce_from acc [] = acc
reduce_from acc (p ∷ ps) = reduce_from (Predicate.and acc p) ps

unfoldable pub combined : List Predicate → Option Predicate
combined [] = none
combined (p ∷ ps) = some (reduce_from p ps)

module _ {F : Type 0} where
  unfoldable pub fulltext : Bytes → Bytes → QueryBuilder F → QueryBuilder F
  fulltext property query b = record b { fulltext_prop = some property; fulltext_text = some query }

  unfoldable pub vector : Bytes → List F → ℕ → ℕ → QueryBuilder F → QueryBuilder F
  vector property query k ef b = record b {
    vector_prop = some property;
    vector_query = some query;
    vector_k = k;
    vector_ef = ef;
  }

  unfoldable pub filter : Predicate → QueryBuilder F → QueryBuilder F
  filter pred b = record b { predicates = b.predicates ++ pred ∷ [] }

  unfoldable pub fusion : FusionMethod F → QueryBuilder F → QueryBuilder F
  fusion method b = record b { fusion = method }

  unfoldable pub filter_timing : FilterTiming → QueryBuilder F → QueryBuilder F
  filter_timing timing b = record b { filter_timing = timing }

  unfoldable pub limit : ℕ → QueryBuilder F → QueryBuilder F
  limit n b = record b { limit = n }

  unfoldable pub build : QueryBuilder F → QueryPlan F
  unfolding combined
  build b = record {
    fulltext_prop = b.fulltext_prop;
    fulltext_text = b.fulltext_text;
    vector_prop = b.vector_prop;
    vector_query = b.vector_query;
    vector_k = b.vector_k;
    vector_ef = b.vector_ef;
    predicate = combined b.predicates;
    fusion = b.fusion;
    filter_timing = b.filter_timing;
    traversal = b.traversal;
    limit = b.limit;
  }

  -- The filters one after another.
  unfoldable pub filter_each : List Predicate → QueryBuilder F → QueryBuilder F
  unfolding filter
  filter_each [] b = b
  filter_each (p ∷ ps) b = filter_each ps (filter p b)

  predicates-filter_each :
      (ps : List Predicate) (b : QueryBuilder F)
      → (filter_each ps b).predicates ≡ b.predicates ++ ps
  unfolding filter_each filter
  predicates-filter_each [] b = sym (append-nil b.predicates)
  predicates-filter_each (p ∷ ps) b =
      predicates-filter_each ps (filter p b) ∙ append_assoc b.predicates (p ∷ []) ps

module _ {E R T U F Bm : Type 0} ⦃DE : KeyMap E LabelProp T⦄ ⦃DT : KeyMap T ValueWrapper Bm⦄
    ⦃DR : KeyMap R LabelProp U⦄ ⦃DU : OrderedMap U F Bm⦄ ⦃B : Bitmap Bm⦄ ⦃DF : Floats F⦄ where
  -- The number is in the bitmap of every predicate of a list.
  abbrev pub in_all : List Predicate → PropertyIndex E R T U F Bm → ℕ → Bool
  in_all [] idx i = true
  in_all (p ∷ ps) idx i = B.member (evaluate p idx) i && in_all ps idx i

  member-reduce_from :
      (p : Predicate) (ps : List Predicate) (idx : PropertyIndex E R T U F Bm) (i : ℕ)
      → B.member (evaluate (reduce_from p ps) idx) i ≡ in_all (p ∷ ps) idx i
  unfolding evaluate
  member-reduce_from p [] idx i = ground arith
  member-reduce_from p (q ∷ ps) idx i = ground (
    arith,
    member-reduce_from (Predicate.and p q) ps idx i,
    B.member-intersection (evaluate p idx) (evaluate q idx) i,
  )

  -- A builder without predicates that is given some filters, one at least, builds a plan whose
  -- predicate evaluates to the nodes that are in the bitmap of every one of the filters.
  pub build-in_all :
      {G : Type 0} (b : QueryBuilder G) (p : Predicate) (ps : List Predicate)
      (idx : PropertyIndex E R T U F Bm) (i : ℕ)
      → b.predicates ≡ []
      → (q : Predicate) × ((build (filter_each (p ∷ ps) b)).predicate ≡ some q)
        × (B.member (evaluate q idx) i ≡ in_all (p ∷ ps) idx i)
  unfolding build combined
  build-in_all b p ps idx i h =
      let listed : (filter_each (p ∷ ps) b).predicates ≡ p ∷ ps =
        predicates-filter_each (p ∷ ps) b ∙ ap (λ (l : List Predicate). l ++ p ∷ ps) h in
      (reduce_from p ps, ap combined listed, member-reduce_from p ps idx i)
