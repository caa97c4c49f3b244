-- ===== src/Extern/Models.antt =====
-- Concrete values of the interfaces, at which theorems that take them are tried out.
use mathlib.Core.Path.{ap₂}
use lightgraph.Base.{
  ℕ, ◌≡◌, refl, sym, ◌≢◌, Bool, true, inl, inr, Bool-cases, Option, none, some, List, [], ◌∷◌, ◌++◌,
  ◌==◌, if◌then◌else◌, IsDistinct, contains, arith, false,
}
use lightgraph.Extern.Interfaces.{DashMap, KeyMap, SegQueue, lookup, keys, see_rest, uncons}

module _ {V : Type 0} where
  abbrev pub without : ℕ → List (ℕ × V) → List (ℕ × V)
  without k [] = []
  without k ((j, v) ∷ l) = let rest = without k l in if j == k then rest else (j, v) ∷ rest

  pub lookup-without :
      (k j : ℕ) (l : List (ℕ × V)) → lookup j (without k l) ≡ (if k == j then none else lookup j l)
  lookup-without k j [] = ground arith
  lookup-without k j ((i, v) ∷ l) = ground (arith, lookup-without k j l)

  contains-without :
      (k j : ℕ) (l : List (ℕ × V))
      → contains (keys (without k l)) j ≡ (if k == j then false else contains (keys l) j)
  unfolding contains
  contains-without k j [] = ground arith
  contains-without k j ((i, v) ∷ l) = ground (arith, contains-without k j l)

-- Association lists without repeated keys.
abbrev pub Assoc : Type 0 → Type 0
Assoc V = (l : List (ℕ × V)) × IsDistinct (keys l)

module _ {V : Type 0} where
  pub without-IsDistinct :
      (k : ℕ) (l : List (ℕ × V)) → IsDistinct (keys l) → IsDistinct (keys (without k l))
  without-IsDistinct k [] d = tt
  without-IsDistinct k ((j, v) ∷ l) d =
      ground (arith, without-IsDistinct k l d.1, contains-without k j l)

  pub insert-IsDistinct :
      (k : ℕ) (l : List (ℕ × V))
      → IsDistinct (keys l)
      → (contains (keys (without k l)) k ≡ false) × IsDistinct (keys (without k l))
  insert-IsDistinct k l d = (ground (arith, contains-without k k l), without-IsDistinct k l d)

  pub get-insert :
      (m : Assoc V) (k j : ℕ) (v : V)
      → lookup j ((k, v) ∷ without k m.0) ≡ (if k == j then some v else lookup j m.0)
  get-insert m k j v = ground (arith, lookup-without k j m.0)

instance abbrev pub assoc_map : {V : Type 0} → DashMap (Assoc V) V
assoc_map = record {
  empty = ([], tt);
  get = λ m k. lookup k m.0;
  insert = λ m k v. ((k, v) ∷ without k m.0, insert-IsDistinct k m.0 m.1);
  remove = λ m k. (without k m.0, without-IsDistinct k m.0 m.1);
  entries = λ m. m.0;
  get-empty = λ k. refl;
  get-insert = get-insert;
  get-remove = λ m k j. lookup-without k j m.0;
  lookup-entries = λ m k. refl;
  entries-IsDistinct = λ m. m.1;
}

abbrev pub list_pop : List ℕ → Option (ℕ × List ℕ)
list_pop = uncons

pub list_pop_lem : (q : List ℕ) → see_rest (λ l. l) (list_pop q) ≡ uncons q
list_pop_lem [] = refl
list_pop_lem (a ∷ q) = refl

instance abbrev pub list_queue : SegQueue (List ℕ)
list_queue = record {
  empty = [];
  push = λ q a. q ++ a ∷ [];
  pop = list_pop;
  items = λ q. q;
  items-empty = refl;
  items-push = λ q a. refl;
  items-pop = list_pop_lem;
}

-- The test on the keys of property columns.
abbrev pub same_bytes : List ℕ → List ℕ → Bool
same_bytes [] [] = true
same_bytes (a ∷ xs) (b ∷ ys) = let rest = same_bytes xs ys in if a == b then rest else false
same_bytes _ _ = false

pub same_bytes_self : (xs : List ℕ) → same_bytes xs xs ≡ true
same_bytes_self [] = refl
same_bytes_self (a ∷ xs) = ground (arith, same_bytes_self xs)

pub same_bytes_equal : (xs ys : List ℕ) → same_bytes xs ys ≡ true → xs ≡ ys
same_bytes_equal [] [] h = refl
same_bytes_equal [] (b ∷ ys) h = cc
same_bytes_equal (a ∷ xs) [] h = cc
same_bytes_equal (a ∷ xs) (b ∷ ys) h =
    let head : a ≡ b = ground arith in
    let tail : xs ≡ ys = same_bytes_equal xs ys (ground arith) in cc (head, tail)

abbrev pub same_key : ℕ × List ℕ → ℕ × List ℕ → Bool
same_key (a, xs) (b, ys) = if a == b then same_bytes xs ys else false

pub same_key_self : (k : ℕ × List ℕ) → same_key k k ≡ true
same_key_self (a, xs) = ground (arith, same_bytes_self xs)

pub same_key_other : (k j : ℕ × List ℕ) → j ≢ k → same_key k j ≡ false
same_key_other (a, xs) (b, ys) ne = elim (Bool-cases (same_key (a, xs) (b, ys))) [
  | inr q ↦ q
  | inl q ↦
      let head : a ≡ b = ground arith in
      let tail : xs ≡ ys = same_bytes_equal xs ys (ground arith) in
      absurd (ne (ap₂ (λ (n : ℕ) (l : List ℕ). (n, l)) (sym head) (sym tail)))
]

module _ {V : Type 0} where
  abbrev pub find_key : List ((ℕ × List ℕ) × V) → ℕ × List ℕ → Option V
  find_key [] j = none
  find_key ((k, v) ∷ l) j = if same_key k j then some v else find_key l j

  pub find_key_self :
      (l : List ((ℕ × List ℕ) × V)) (k : ℕ × List ℕ) (v : V) → find_key ((k, v) ∷ l) k ≡ some v
  find_key_self l k v = ground (arith, same_key_self k)

  pub find_key_other :
      (l : List ((ℕ × List ℕ) × V)) (k j : ℕ × List ℕ) (v : V)
      → j ≢ k
      → find_key ((k, v) ∷ l) j ≡ find_key l j
  find_key_other l k j v ne = ground (arith, same_key_other k j ne)

-- A list of the writes, the last one first.
instance abbrev pub key_map : {V : Type 0} → KeyMap (List ((ℕ × List ℕ) × V)) (ℕ × List ℕ) V
key_map = record {
  empty = [];
  get = find_key;
  insert = λ m k v. (k, v) ∷ m;
  entries = λ m. m;
  get-empty = λ k. refl;
  get-insert = λ m k v. find_key_self m k v;
  get-insert-other = λ m k j v ne. find_key_other m k j v ne;
}
