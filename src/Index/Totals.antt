-- ===== src/Index/Totals.antt =====
-- Maps from nodes to scores, to which the searches add.
use lightgraph.Base.{
  ℕ, ◌≡◌, refl, ap, sym, ◌∙◌, Bool, true, false, Option, none, some, List, [], ◌∷◌, ◌==◌,
  if◌then◌else◌, arith, contains, ltb,
}
use lightgraph.Extern.{DashMap, Scores, lookup, keys}
use lightgraph.Index.Ranking.{count}

abbrev pub is_some {ℓ} : {A : Type ℓ} → Option A → Bool
is_some none = false
is_some (some _) = true

-- The id of an entry is `i`.
abbrev pub with_id : {V : Type 0} → ℕ → ℕ × V → Bool
with_id i (k, _) = k == i

pub contains-count :
    {V : Type 0} (l : List (ℕ × V)) (i : ℕ) → contains (keys l) i ≡ ltb 0 (count (with_id i) l)
unfolding contains
contains-count [] i = refl
contains-count ((k, v) ∷ l) i = ground (arith, contains-count l i)

pub is_some-lookup :
    {V : Type 0} (l : List (ℕ × V)) (i : ℕ) → is_some (lookup i l) ≡ contains (keys l) i
unfolding contains
is_some-lookup [] i = refl
is_some-lookup ((k, v) ∷ l) i = ground (arith, is_some-lookup l i)

-- `or_default` of a score
abbrev pub or_default : {F : Type 0} → ⦃S : Scores F⦄ → Option F → F
or_default ⦃S⦄ none = S.lit 0
or_default ⦃S⦄ (some s) = s

module _ {R : Type 0} (F : Type 0) ⦃DR : DashMap R F⦄ where
  -- Whether a node has a score.
  abbrev pub has : R → ℕ → Bool
  has m i = is_some (DR.get m i)

  pub contains-entries : (m : R) (i : ℕ) → contains (keys (DR.entries m)) i ≡ has m i
  contains-entries m i = sym (is_some-lookup (DR.entries m) i) ∙ ap is_some (DR.lookup-entries m i)

module _ {R F : Type 0} ⦃DR : DashMap R F⦄ ⦃S : Scores F⦄ where
  -- `*results.entry(id).or_default() += score`
  unfoldable pub add_score : R → ℕ → F → R
  add_score m id score = DR.insert m id (S.add (or_default (DR.get m id)) score)

  pub has-add_score :
      (m : R) (id i : ℕ) (score : F)
      → has F (add_score m id score) i ≡ (if id == i then true else has F m i)
  unfolding add_score
  has-add_score m id i score =
      ground (arith, DR.get-insert m id i (S.add (or_default (DR.get m id)) score))
