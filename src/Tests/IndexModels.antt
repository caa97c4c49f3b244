-- ===== src/Tests/IndexModels.antt =====
-- Concrete maps, bitmaps and numbers of the indexes, and a small index of each kind.
use Prim.Native.Nat.{compare, Ordering}
use lightgraph.Base.{
  ℕ, ◌≡◌, ◌≢◌, refl, ap, sym, ◌∙◌, false, none, some, List, [], ◌∷◌, ◌++◌, if◌then◌else◌, length,
  read_exact, read_exact-append, contains, contains-append, ◌==◌, ==_iff, Bool-cases, inl, inr,
  arith, ◌+◌, ◌-◌, ◌*◌, leb,
}
use lightgraph.Extern.{KeyMap, Bitmap, OrderedMap, Scores, Doubles, Narrow, TermMap}
use lightgraph.Extern.Models.{find_key, find_key_self, find_key_other, same_bytes, Assoc}
use lightgraph.Index.Analyzer.{CharTables}
use lightgraph.Index.FullText.{FullTextIndex}
use lightgraph.Storage.PropStore.Column.{Value}
use lightgraph.Index.Property.{LabelProp, ValueWrapper, Predicate, PropertyIndex, Floats}

-- A map whose keys are coded as keys of property columns.
abbrev pub Coded : Type 0 → Type 0
Coded V = List ((ℕ × List ℕ) × V)

module _ {K V : Type 0} (code : K → ℕ × List ℕ) (decode : ℕ × List ℕ → K)
    (back : (k : K) → decode (code k) ≡ k) where
  pub coded_other :
      (m : Coded V) (k j : K) (v : V)
      → j ≢ k
      → find_key ((code k, v) ∷ m) (code j) ≡ find_key m (code j)
  coded_other m k j v ne =
      find_key_other m (code k) (code j) v (λ e. ne (sym (back j) ∙ ap decode e ∙ back k))

  abbrev pub decoded : Coded V → List (K × V)
  decoded [] = []
  decoded ((k, v) ∷ l) = (decode k, v) ∷ decoded l

  abbrev pub coded_map : KeyMap (Coded V) K V
  coded_map = record {
    empty = [];
    get = λ m k. find_key m (code k);
    insert = λ m k v. (code k, v) ∷ m;
    entries = decoded;
    get-empty = λ k. refl;
    get-insert = λ m k v. find_key_self m (code k) v;
    get-insert-other = coded_other;
  }

abbrev pub code_pair : LabelProp → ℕ × List ℕ
code_pair (a, b) = (length a, a ++ b)

abbrev pub decode_pair : ℕ × List ℕ → LabelProp
decode_pair (n, l) = elim (read_exact n l) [ none ↦ ([], []) | some r ↦ r ]

pub pair_back : (k : LabelProp) → decode_pair (code_pair k) ≡ k
pair_back (a, b) = rw (decode_pair, read_exact-append (length a) a b refl)

instance abbrev pub pair_map : {V : Type 0} → KeyMap (Coded V) LabelProp V
pair_map = coded_map code_pair decode_pair pair_back

abbrev pub code_wrapper : ValueWrapper → ℕ × List ℕ
code_wrapper ValueWrapper.null = (0, [])
code_wrapper (ValueWrapper.bool b) = (b, 1 ∷ [])
code_wrapper (ValueWrapper.int b) = (b, 1 ∷ 2 ∷ [])
code_wrapper (ValueWrapper.float b) = (b, 1 ∷ 2 ∷ 3 ∷ [])
code_wrapper (ValueWrapper.string s) = (0, 1 ∷ 2 ∷ 3 ∷ 4 ∷ s)

abbrev pub decode_wrapper : ℕ × List ℕ → ValueWrapper
decode_wrapper (n, []) = ValueWrapper.null
decode_wrapper (n, _ ∷ []) = ValueWrapper.bool n
decode_wrapper (n, _ ∷ _ ∷ []) = ValueWrapper.int n
decode_wrapper (n, _ ∷ _ ∷ _ ∷ []) = ValueWrapper.float n
decode_wrapper (n, _ ∷ _ ∷ _ ∷ _ ∷ s) = ValueWrapper.string s

pub wrapper_back : (k : ValueWrapper) → decode_wrapper (code_wrapper k) ≡ k
wrapper_back ValueWrapper.null = refl
wrapper_back (ValueWrapper.bool b) = refl
wrapper_back (ValueWrapper.int b) = refl
wrapper_back (ValueWrapper.float b) = refl
wrapper_back (ValueWrapper.string s) = refl

instance abbrev pub wrapper_map : {V : Type 0} → KeyMap (Coded V) ValueWrapper V
wrapper_map = coded_map code_wrapper decode_wrapper wrapper_back

-- a bitmap as a list, and a tree whose entries are all in every range
abbrev pub both : List ℕ → List ℕ → List ℕ
both [] ys = []
both (x ∷ xs) ys = let rest = both xs ys in if contains ys x then x ∷ rest else rest

pub contains-both :
    (xs ys : List ℕ) (i : ℕ)
    → contains (both xs ys) i ≡ (if contains xs i then contains ys i else false)
unfolding contains
contains-both [] ys i = refl
contains-both (x ∷ xs) ys i = elim (Bool-cases (x == i)) [
  | inl q ↦ ground (arith, contains-both xs ys i, ap (contains ys) ((==_iff x i).0 q))
  | inr q ↦ ground (arith, contains-both xs ys i, q)
]

pub contains_nil : (i : ℕ) → contains [] i ≡ false
unfolding contains
contains_nil i = refl

instance abbrev pub list_bitmap : Bitmap (List ℕ)
list_bitmap = record {
  empty = [];
  union = λ a b. a ++ b;
  intersection = both;
  member = contains;
  member-empty = contains_nil;
  member-union = contains-append;
  member-intersection = contains-both;
  iter = λ a. a;
  contains-iter = λ a i. refl;
}

instance abbrev pub list_tree : OrderedMap (List (List ℕ)) ℕ (List ℕ)
list_tree = record { range = λ t lo hi. t }

instance abbrev pub bit_floats : Floats ℕ
bit_floats = record { as_f64 = λ v. 0; min = 0; max = 9; representative = λ b. b }

abbrev pub Idx : Type 0
Idx =
    PropertyIndex (Coded (Coded (List ℕ))) (Coded (List (List ℕ))) (Coded (List ℕ)) (List (List ℕ))
      ℕ (List ℕ)

abbrev pub small_index : Idx
small_index = record {
  eq_indexes =
      (code_pair (1 ∷ [], 2 ∷ []), (code_wrapper (ValueWrapper.int 7), 4 ∷ 6 ∷ []) ∷ []) ∷ [];
  range_indexes = (code_pair (1 ∷ [], 2 ∷ []), (4 ∷ []) ∷ (8 ∷ []) ∷ []) ∷ [];
}

abbrev pub question : Predicate
question =
    Predicate.and (Predicate.eq (1 ∷ []) (2 ∷ []) (Value.int 7))
      (Predicate.gt (1 ∷ []) (2 ∷ []) (Value.int 3))

-- Numbers for floating point, in hundredths, that are never cut.
pub compare_swap :
    (a b : ℕ) → some (compare a b) ≡ some Ordering.gt → some (compare b a) ≡ some Ordering.lt
compare_swap a b h = ground arith

instance abbrev pub number_scores : Scores ℕ
number_scores = record {
  lit = λ n. n;
  add = λ a b. a + b;
  sub = λ a b. a - b;
  mul = λ a b. a * b;
  div = λ a b. a;
  ln = λ a. a;
  sqrt = λ a. a;
  of_nat = λ n. 100 * n;
  partial_cmp = λ a b. some (compare a b);
  partial_cmp-swap = compare_swap;
}

instance abbrev pub number_doubles : Doubles ℕ
number_doubles = record { zero = 0; of_nat = λ n. 100 * n }

instance abbrev pub number_narrow : Narrow ℕ ℕ
number_narrow = record { narrow = λ d. d }

-- a dictionary of one term
instance abbrev pub one_term : TermMap (List ℕ)
one_term = record { get = λ s term. if same_bytes s term then some 0 else none }

abbrev pub letters : CharTables
letters = record {
  is_alphabetic = λ c. leb 97 c;
  is_numeric = λ c. false;
  to_lowercase = λ c. c ∷ [];
}

-- the word "ab" stands in the nodes 4 and 8
abbrev pub words : FullTextIndex (List ℕ) (List ℕ) (Assoc (List ℕ)) (Assoc ℕ) ℕ
words = record {
  name = [];
  labels = [];
  properties = [];
  fst = some (97 ∷ 98 ∷ []);
  postings = (4 ∷ 8 ∷ []) ∷ [];
  positions = [];
  doc_lengths = ((8, 3) ∷ [], (contains_nil 8, tt));
  total_docs = 2;
  avg_doc_length = 1;
}
