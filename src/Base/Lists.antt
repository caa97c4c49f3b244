-- ===== src/Base/Lists.antt =====
-- Lists measured and indexed by native numbers, membership tests, and reading from the front.
use Prim.Native.Nat.{ℕ, zero, suc, ◌+◌, ◌≤◌}
use mathlib.Core.Path.{◌≡◌, refl, ap}
use mathlib.Core.Logic.{◌⊎◌, inl, inr}
use mathlib.Core.Bool.{Bool, true, false}
use mathlib.Core.List.{List, [], ◌∷◌, ◌++◌}
use mathlib.Core.Option
use mathlib.Core.Option.{Option, none, some}
use native.Mathlib.Omega.{arith}
use lightgraph.Base.Tests.{◌==◌, if◌then◌else◌}

module _ {ℓ} {A : Type ℓ} where
  abbrev pub length : List A → ℕ
  length [] = 0
  length (x ∷ xs) = suc (length xs)

  pub length-append : (xs ys : List A) → length (xs ++ ys) ≡ length xs + length ys
  length-append [] ys = omega arith
  length-append (x ∷ xs) ys = omega (arith, length-append xs ys)

  abbrev pub take : ℕ → List A → List A
  take zero xs = []
  take (suc n) [] = []
  take (suc n) (x ∷ xs) = x ∷ take n xs

  abbrev pub drop : ℕ → List A → List A
  drop zero xs = xs
  drop (suc n) [] = []
  drop (suc n) (x ∷ xs) = drop n xs

  pub drop-length : (n : ℕ) (xs : List A) → length xs ≤ n → drop n xs ≡ []
  drop-length zero [] h = refl
  drop-length zero (x ∷ xs) h = absurd (omega arith)
  drop-length (suc n) [] h = refl
  drop-length (suc n) (x ∷ xs) h = drop-length n xs (omega arith)

  pub take-length : (n : ℕ) (xs : List A) → length xs ≤ n → take n xs ≡ xs
  take-length zero [] h = refl
  take-length zero (x ∷ xs) h = absurd (omega arith)
  take-length (suc n) [] h = refl
  take-length (suc n) (x ∷ xs) h = ap (λ ys. x ∷ ys) (take-length n xs (omega arith))

  pub List-cases : (xs : List A) → (xs ≡ []) ⊎ ((x : A) × (r : List A) × (xs ≡ x ∷ r))
  List-cases [] = inl refl
  List-cases (x ∷ xs) = inr (x, xs, refl)

  -- `read_exact`: the first `n` items and the rest, or `none` if there are fewer.
  unfoldable pub read_exact : ℕ → List A → Option (List A × List A)
  read_exact zero xs = some ([], xs)
  read_exact (suc n) [] = none
  read_exact (suc n) (x ∷ xs) = Option.map (λ (front, rest). (x ∷ front, rest)) (read_exact n xs)

  pub read_exact-append :
      (n : ℕ) (xs ys : List A) → length xs ≡ n → read_exact n (xs ++ ys) ≡ some (xs, ys)
  unfolding read_exact
  read_exact-append zero [] ys h = refl
  read_exact-append zero (x ∷ xs) ys h = absurd (omega arith)
  read_exact-append (suc n) [] ys h = absurd (omega arith)
  read_exact-append (suc n) (x ∷ xs) ys h = rw (read_exact-append n xs ys (omega arith))

  pub read_exact-short : (n : ℕ) (xs : List A) → suc (length xs) ≤ n → read_exact n xs ≡ none
  unfolding read_exact
  read_exact-short zero xs h = absurd (omega arith)
  read_exact-short (suc n) [] h = refl
  read_exact-short (suc n) (x ∷ xs) h = rw (read_exact-short n xs (omega arith))

-- Whether a number stands in a list.
unfoldable pub contains : List ℕ → ℕ → Bool
contains [] a = false
contains (x ∷ xs) a = if x == a then true else contains xs a

pub contains-append :
    (xs ys : List ℕ) (a : ℕ)
    → contains (xs ++ ys) a ≡ (if contains xs a then true else contains ys a)
unfolding contains
contains-append [] ys a = refl
contains-append (x ∷ xs) ys a = ground (arith, contains-append xs ys a)

pub contains_head : (a : ℕ) (xs : List ℕ) → contains (a ∷ xs) a ≡ true
unfolding contains
contains_head a xs = ground arith

pub contains-cons :
    (x : ℕ) (xs : List ℕ) (a : ℕ) → contains xs a ≡ true → contains (x ∷ xs) a ≡ true
unfolding contains
contains-cons x xs a h = ground arith

pub contains-snoc : (xs : List ℕ) (a : ℕ) → contains (xs ++ a ∷ []) a ≡ true
unfolding contains
contains-snoc xs a = ground (arith, contains-append xs (a ∷ []) a)

-- No number stands twice in the list.
abbrev pub IsDistinct : List ℕ → Type 0
IsDistinct [] = Unit
IsDistinct (x ∷ xs) = (contains xs x ≡ false) × IsDistinct xs

pub IsDistinct-snoc :
    (xs : List ℕ) (a : ℕ) → IsDistinct xs → contains xs a ≡ false → IsDistinct (xs ++ a ∷ [])
unfolding contains
IsDistinct-snoc [] a d h = (refl, tt)
IsDistinct-snoc (x ∷ xs) a d h =
    (ground (arith, contains-append xs (a ∷ []) x), IsDistinct-snoc xs a d.1 (ground arith))
