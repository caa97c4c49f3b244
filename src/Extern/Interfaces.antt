-- ===== src/Extern/Interfaces.antt =====
-- The interfaces. Operations of one crate are used through instance arguments.
use lightgraph.Base.{
  ℕ, ◌≡◌, ◌≢◌, Option, none, some, List, [], ◌∷◌, ◌++◌, Bytes, ◌==◌, if◌then◌else◌, IsDistinct,
  contains, Bool, true, false,
}

-- The value of the first entry with a key.
abbrev pub lookup {ℓ} : {V : Type ℓ} → ℕ → List (ℕ × V) → Option V
lookup k [] = none
lookup k ((j, v) ∷ l) = if j == k then some v else lookup k l

abbrev pub keys {ℓ} : {V : Type ℓ} → List (ℕ × V) → List ℕ
keys [] = []
keys ((k, _) ∷ l) = k ∷ keys l

-- `DashMap<u64, V>`, one operation at a time. A write through `get_mut` is an `insert` at the key.
pub record DashMap (M V : Type 0) : Type 0 where
  pub empty : M
  pub get : M → ℕ → Option V
  pub insert : M → ℕ → V → M
  pub remove : M → ℕ → M
  -- what `iter` goes through, in an order that is not documented
  pub entries : M → List (ℕ × V)
  pub get-empty : (k : ℕ) → get empty k ≡ none
  pub get-insert :
      (m : M) (k j : ℕ) (v : V) → get (insert m k v) j ≡ (if k == j then some v else get m j)
  pub get-remove : (m : M) (k j : ℕ) → get (remove m k) j ≡ (if k == j then none else get m j)
  pub lookup-entries : (m : M) (k : ℕ) → lookup k (entries m) ≡ get m k
  pub entries-IsDistinct : (m : M) → IsDistinct (keys (entries m))

abbrev pub uncons {ℓ} : {A : Type ℓ} → List A → Option (A × List A)
uncons [] = none
uncons (a ∷ l) = some (a, l)

abbrev pub see_rest {ℓ κ} :
    {A : Type ℓ} {Q : Type κ} → (Q → List A) → Option (A × Q) → Option (A × List A)
see_rest items none = none
see_rest items (some (a, q)) = some (a, items q)

-- `SegQueue<u64>`: an unbounded queue, first in, first out.
pub record SegQueue (Q : Type 0) : Type 0 where
  pub empty : Q
  pub push : Q → ℕ → Q
  pub pop : Q → Option (ℕ × Q)
  pub items : Q → List ℕ
  pub items-empty : items empty ≡ []
  pub items-push : (q : Q) (a : ℕ) → items (push q a) ≡ items q ++ a ∷ []
  pub items-pop : (q : Q) → see_rest items (pop q) ≡ uncons (items q)

-- `bincode` at one type: what it writes it reads back.
pub record Bincode (A : Type 0) : Type 0 where
  pub serialize : A → Option Bytes
  pub deserialize : Bytes → Option A
  pub deserialize-serialize : (a : A) (bs : Bytes) → serialize a ≡ some bs → deserialize bs ≡ some a

-- A `DashMap` whose keys are not numbers.
pub record KeyMap (M K V : Type 0) : Type 0 where
  pub empty : M
  pub get : M → K → Option V
  pub insert : M → K → V → M
  -- what `iter` goes through, in an order that is not documented
  pub entries : M → List (K × V)
  pub get-empty : (k : K) → get empty k ≡ none
  pub get-insert : (m : M) (k : K) (v : V) → get (insert m k v) k ≡ some v
  pub get-insert-other : (m : M) (k j : K) (v : V) → j ≢ k → get (insert m k v) j ≡ get m j

-- `RoaringBitmap`: a set of numbers.
pub record Bitmap (Bm : Type 0) : Type 0 where
  pub empty : Bm
  pub union : Bm → Bm → Bm
  pub intersection : Bm → Bm → Bm
  pub member : Bm → ℕ → Bool
  pub member-empty : (i : ℕ) → member empty i ≡ false
  pub member-union :
      (a b : Bm) (i : ℕ) → member (union a b) i ≡ (if member a i then true else member b i)
  pub member-intersection :
      (a b : Bm) (i : ℕ) → member (intersection a b) i ≡ (if member a i then member b i else false)
  -- what `iter` goes through
  pub iter : Bm → List ℕ
  pub contains-iter : (a : Bm) (i : ℕ) → contains (iter a) i ≡ member a i

-- `fst::Map`: the number of a term. A term is looked up by its characters.
pub record TermMap (S : Type 0) : Type 0 where
  pub get : S → List ℕ → Option ℕ

-- `BTreeMap::range` over an inclusive range: the entries with a key in it, in the order of the keys.
pub record OrderedMap (T F V : Type 0) : Type 0 where
  pub range : T → F → F → List V
