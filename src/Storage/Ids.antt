-- ===== src/Storage/Ids.antt =====
-- A map whose keys are handed out from a counter and a queue of free ids, as a store keeps its items.
use lightgraph.Base.{
  ℕ, suc, ◌+◌, ◌%◌, ◌^◌, ◌<◌, ◌≡◌, refl, ap, sym, ◌∙◌, true, false, none, some, [], ◌∷◌, ◌++◌,
  arith, inl, inr, if◌then◌else◌, length, length-append, contains, contains-append, contains-cons,
  IsDistinct, IsDistinct-snoc, Bool-cases, incr64, decr64,
}
use lightgraph.Extern.{DashMap, SegQueue}

module _ {M V Q : Type 0} ⦃D : DashMap M V⦄ ⦃S : SegQueue Q⦄ (id_of : V → ℕ) where
  -- Free ids are unused, distinct and counted; every item is under its own id, below the counter.
  pub record AreValid (m : M) (free : Q) (next_id free_count : ℕ) : Type 0 where
    pub free_unused : (i : ℕ) → contains (S.items free) i ≡ true → D.get m i ≡ none
    pub free_below : (i : ℕ) → contains (S.items free) i ≡ true → i < next_id
    pub free_distinct : IsDistinct (S.items free)
    pub below : (i : ℕ) (v : V) → D.get m i ≡ some v → i < next_id
    pub keyed : (i : ℕ) (v : V) → D.get m i ≡ some v → id_of v ≡ i
    pub counted : free_count ≡ length (S.items free) % 2 ^ 64
    pub bounded : next_id < 2 ^ 64

  -- The id of an item that is there is not free.
  pub used_lem :
      (m : M) (free : Q) (next count id : ℕ) (v : V)
      → AreValid m free next count
      → D.get m id ≡ some v
      → contains (S.items free) id ≡ false
  used_lem m free next count id v h e = elim (Bool-cases (contains (S.items free) id)) [
    | inl q ↦ absurd (cc (h.free_unused id q))
    | inr q ↦ q
  ]

  pub insert-AreValid :
      (m : M) (free : Q) (next count id : ℕ) (v : V)
      → AreValid m free next count
      → id < next
      → contains (S.items free) id ≡ false
      → id_of v ≡ id
      → AreValid (D.insert m id v) free next count
  insert-AreValid m free next count id v h lt taken e = record {
    free_unused = λ i k. ground (arith, D.get-insert m id i v, h.free_unused i);
    free_below = h.free_below;
    free_distinct = h.free_distinct;
    below = λ i w k. ground (arith, D.get-insert m id i v, h.below i w);
    keyed = λ i w k. ground (arith, D.get-insert m id i v, h.keyed i w);
    counted = h.counted;
    bounded = h.bounded;
  }

  pub remove-AreValid :
      (m : M) (free : Q) (next count id : ℕ) (v : V)
      → AreValid m free next count
      → D.get m id ≡ some v
      → AreValid (D.remove m id) (S.push free id) next (incr64 count)
  unfolding contains
  remove-AreValid m free next count id v h e =
      let items = S.items free in
      let pushed : S.items (S.push free id) ≡ items ++ id ∷ [] = S.items-push free id in
      let was : (i : ℕ)
          → contains (S.items (S.push free id)) i ≡ true
          → (if contains items i then true else contains (id ∷ []) i) ≡ true =
        λ i k. sym (contains-append items (id ∷ []) i) ∙ (rw pushed at k) in
      record {
        free_unused = λ i k. ground (arith, was i k, D.get-remove m id i, h.free_unused i);
        free_below = λ i k. ground (arith, was i k, h.free_below i, h.below id v);
        free_distinct =
            rw pushed
              (IsDistinct-snoc items id h.free_distinct (used_lem m free next count id v h e));
        below = λ i w k. ground (arith, D.get-remove m id i, h.below i w);
        keyed = λ i w k. ground (arith, D.get-remove m id i, h.keyed i w);
        counted = rw pushed (omega (arith, length-append items (id ∷ []), h.counted));
        bounded = h.bounded;
      }

  pub fresh-AreValid :
      (m : M) (free : Q) (next count : ℕ)
      → AreValid m free next count
      → next + 1 < 2 ^ 64
      → AreValid m free (incr64 next) count
  fresh-AreValid m free next count h room = record {
    free_unused = h.free_unused;
    free_below = λ i k. omega (arith, h.free_below i k);
    free_distinct = h.free_distinct;
    below = λ i v k. omega (arith, h.below i v k);
    keyed = h.keyed;
    counted = h.counted;
    bounded = omega arith;
  }

  pub reused-AreValid :
      (m : M) (free rest : Q) (next count a : ℕ)
      → AreValid m free next count
      → S.items free ≡ a ∷ S.items rest
      → AreValid m rest next (decr64 count)
  reused-AreValid m free rest next count a h e =
      let back : (i : ℕ) → contains (S.items rest) i ≡ true → contains (S.items free) i ≡ true =
        λ i k. rw e (contains-cons a (S.items rest) i k) in
      let distinct : IsDistinct (a ∷ S.items rest) = rw e at h.free_distinct in
      let len : length (S.items free) ≡ suc (length (S.items rest)) = ap length e in
      record {
        free_unused = λ i k. h.free_unused i (back i k);
        free_below = λ i k. h.free_below i (back i k);
        free_distinct = distinct.1;
        below = h.below;
        keyed = h.keyed;
        counted = omega (arith, h.counted);
        bounded = h.bounded;
      }

in_empty : (i : ℕ) → contains [] i ≡ true → ⊥
unfolding contains
in_empty i h = cc

module _ {M V Q : Type 0} ⦃D : DashMap M V⦄ ⦃S : SegQueue Q⦄ (id_of : V → ℕ) where
  pub empty-AreValid : AreValid id_of D.empty S.empty 0 0
  unfolding contains
  empty-AreValid =
      let none_free : S.items S.empty ≡ [] = S.items-empty in
      record {
        free_unused = λ i h. D.get-empty i;
        free_below = λ i h. absurd (in_empty i (rw none_free at h));
        free_distinct = rw none_free tt;
        below = λ i v h. ground (arith, D.get-empty i);
        keyed = λ i v h. ground (arith, D.get-empty i);
        counted = rw none_free refl;
        bounded = omega arith;
      }
