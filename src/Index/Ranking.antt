-- ===== src/Index/Ranking.antt =====
-- Scores by node, and the order by score in which the searches give their results.
use Prim.Native.Nat.{Ordering}
use lightgraph.Base.{
  ℕ, ◌≡◌, refl, sym, ap, subst, ◌∙◌, Bool, true, false, Option, none, some, List, [], ◌∷◌,
  if◌then◌else◌, arith, ◌+◌,
}
use lightgraph.Extern.{Scores}

-- `Some` of a comparison is one of the three, and `unwrap` panics where there is none.
abbrev insert_at {ℓ} :
    {A : Type ℓ} → Option Ordering → A → A → List A → Option (List A) → Option (List A)
insert_at none x y l rest = none
insert_at (some Ordering.gt) x y l none = none
insert_at (some Ordering.gt) x y l (some l') = some (y ∷ l')
insert_at (some _) x y l rest = some (x ∷ y ∷ l)

module _ {F : Type 0} ⦃S : Scores F⦄ {A : Type 0} (score : A → F) where
  -- `sort_by(|a, b| b.score.partial_cmp(&a.score).unwrap())`, which is stable
  unfoldable pub insert_by_score : A → List A → Option (List A)
  insert_by_score x [] = some (x ∷ [])
  insert_by_score x (y ∷ l) =
      insert_at (S.partial_cmp (score y) (score x)) x y l (insert_by_score x l)

  abbrev insert_into : A → Option (List A) → Option (List A)
  insert_into x none = none
  insert_into x (some l) = insert_by_score x l

  unfoldable pub sort_by_score : List A → Option (List A)
  unfolding insert_by_score
  sort_by_score [] = some []
  sort_by_score (x ∷ l) = insert_into x (sort_by_score l)

-- How many items of a list pass a test.
abbrev pub count : {A : Type 0} → (A → Bool) → List A → ℕ
count p [] = 0
count p (x ∷ l) = let rest = count p l in if p x then rest + 1 else rest

abbrev above_in : Option Ordering → Bool
above_in none = false
above_in (some Ordering.gt) = true
above_in (some _) = false

-- `a > b`
abbrev pub above : {F : Type 0} → ⦃S : Scores F⦄ → F → F → Bool
above ⦃S⦄ a b = above_in (S.partial_cmp a b)

abbrev value_or {ℓ} : {A : Type ℓ} → A → Option A → A
value_or d none = d
value_or d (some a) = a

some_injective : {A : Type 0} {a b : A} → some a ≡ some b → a ≡ b
some_injective {a = a} e = ap (value_or a) e

insert_at-count :
    {A : Type 0} (p : A → Bool) (o : Option Ordering) (x y : A) (l l' : List A)
    (rest : Option (List A))
    → ((r : List A) → rest ≡ some r → count p r ≡ count p (x ∷ l))
    → insert_at o x y l rest ≡ some l'
    → count p l' ≡ count p (x ∷ y ∷ l)
insert_at-count p none x y l l' rest ih h = cc
insert_at-count p (some Ordering.gt) x y l l' none ih h = cc
insert_at-count p (some Ordering.gt) x y l l' (some r) ih h =
    ap (count p) (sym (some_injective h)) ∙ ground (arith, ih r refl)
insert_at-count p (some Ordering.lt) x y l l' rest ih h = ap (count p) (sym (some_injective h))
insert_at-count p (some Ordering.eq) x y l l' rest ih h = ap (count p) (sym (some_injective h))

module _ {F : Type 0} ⦃S : Scores F⦄ {A : Type 0} (score : A → F) where
  insert_by_score-count :
      (p : A → Bool) (x : A) (l l' : List A)
      → insert_by_score score x l ≡ some l'
      → count p l' ≡ count p (x ∷ l)
  unfolding insert_by_score
  insert_by_score-count p x [] l' h = ap (count p) (sym (some_injective h))
  insert_by_score-count p x (y ∷ l) l' h =
      insert_at-count p (S.partial_cmp (score y) (score x)) x y l l' (insert_by_score score x l)
        (λ r e. insert_by_score-count p x l r e) h

  insert_into-some :
      (x : A) (o : Option (List A)) (l' : List A)
      → insert_into score x o ≡ some l'
      → (l : List A) × (o ≡ some l) × (insert_by_score score x l ≡ some l')
  insert_into-some x none l' h = absurd (cc)
  insert_into-some x (some l) l' h = (l, refl, h)

  -- Sorting gives the same items, each as often.
  pub sort_by_score-count :
      (p : A → Bool) (l l' : List A) → sort_by_score score l ≡ some l' → count p l' ≡ count p l
  unfolding sort_by_score
  sort_by_score-count p [] l' h = ap (count p) (sym (some_injective h))
  sort_by_score-count p (x ∷ l) l' h =
      let (r, e, k) = insert_into-some x (sort_by_score score l) l' h in
      insert_by_score-count p x r l' k ∙ ground (arith, sort_by_score-count p l r e)

  -- No item comes before one with a higher score.
  abbrev pub IsRanked : List A → Type 0
  IsRanked [] = Unit
  IsRanked (x ∷ []) = Unit
  IsRanked (x ∷ y ∷ l) = (above (score y) (score x) ≡ false) × IsRanked (y ∷ l)

  -- The first item of the list may stand behind `z`.
  abbrev Follows : A → List A → Type 0
  Follows z [] = Unit
  Follows z (x ∷ l) = above (score x) (score z) ≡ false

  IsRanked-cons : (z : A) (l : List A) → Follows z l → IsRanked l → IsRanked (z ∷ l)
  IsRanked-cons z [] f r = tt
  IsRanked-cons z (x ∷ l) f r = (f, r)

  IsRanked-tail : (z : A) (l : List A) → IsRanked (z ∷ l) → Follows z l × IsRanked l
  IsRanked-tail z [] r = (tt, tt)
  IsRanked-tail z (x ∷ l) r = r

  -- A list that an item was put into: it is ranked, and starts with the item or as before.
  record Placed (x : A) (l l' : List A) : Type 0 where
    pub ranked : IsRanked l'
    pub start : (z : A) → above (score x) (score z) ≡ false → Follows z l → Follows z l'

  insert_at-Placed :
      (x y : A) (l l' : List A) (o : Option Ordering) (rest : Option (List A))
      → S.partial_cmp (score y) (score x) ≡ o
      → IsRanked (y ∷ l)
      → ((r : List A) → rest ≡ some r → Placed x l r)
      → insert_at o x y l rest ≡ some l'
      → Placed x (y ∷ l) l'
  insert_at-Placed x y l l' none rest c ranked ih h = absurd (cc)
  insert_at-Placed x y l l' (some Ordering.gt) none c ranked ih h = absurd (cc)
  insert_at-Placed x y l l' (some Ordering.gt) (some r) c ranked ih h =
      let k = ih r refl in
      let below : above (score x) (score y) ≡ false =
        rw (S.partial_cmp-swap (score y) (score x) c) in
      let follows = k.start y below (IsRanked-tail y l ranked).0 in
      subst (Placed x (y ∷ l)) (some_injective h)
        (record { ranked = IsRanked-cons y r follows k.ranked; start = λ z a b. b })
  insert_at-Placed x y l l' (some Ordering.lt) rest c ranked ih h =
      let below : above (score y) (score x) ≡ false = rw c in
      subst (Placed x (y ∷ l)) (some_injective h)
        (record { ranked = (below, ranked); start = λ z a b. a })
  insert_at-Placed x y l l' (some Ordering.eq) rest c ranked ih h =
      let below : above (score y) (score x) ≡ false = rw c in
      subst (Placed x (y ∷ l)) (some_injective h)
        (record { ranked = (below, ranked); start = λ z a b. a })

  insert_by_score-Placed :
      (x : A) (l l' : List A) → IsRanked l → insert_by_score score x l ≡ some l' → Placed x l l'
  unfolding insert_by_score
  insert_by_score-Placed x [] l' ranked h =
      subst (Placed x []) (some_injective h) (record { ranked = tt; start = λ z a b. a })
  insert_by_score-Placed x (y ∷ l) l' ranked h =
      insert_at-Placed x y l l' (S.partial_cmp (score y) (score x)) (insert_by_score score x l) refl
        ranked (λ r e. insert_by_score-Placed x l r (IsRanked-tail y l ranked).1 e) h

  -- What the sort gives is ranked.
  pub sort_by_score-IsRanked : (l l' : List A) → sort_by_score score l ≡ some l' → IsRanked l'
  unfolding sort_by_score
  sort_by_score-IsRanked [] l' h = subst IsRanked (some_injective h) tt
  sort_by_score-IsRanked (x ∷ l) l' h =
      let (r, e, k) = insert_into-some x (sort_by_score score l) l' h in
      (insert_by_score-Placed x r l' (sort_by_score-IsRanked l r e) k).ranked
