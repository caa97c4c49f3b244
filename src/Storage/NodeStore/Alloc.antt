-- ===== src/Storage/NodeStore/Alloc.antt =====
-- What `alloc_id` hands out.
use lightgraph.Base.{
  ℕ, ◌+◌, ◌%◌, ◌^◌, ◌<◌, ◌≡◌, refl, ap, inl, inr, true, false, none, some, List, [], ◌∷◌, arith,
  length, contains, IsDistinct, Option-cases, incr64, decr64, suc, contains_head, contains-cons,
}
use lightgraph.Types.{NodeId}
use lightgraph.Extern.{DashMap, SegQueue, Bincode, uncons}
use lightgraph.Storage.Node.{Node}
use lightgraph.Storage.NodeStore.{NodeStore, alloc_id}

uncons-none : (l : List ℕ) → none ≡ uncons l → l ≡ []
uncons-none [] e = refl
uncons-none (a ∷ l) e = cc

uncons-some : (a : ℕ) (r l : List ℕ) → some (a, r) ≡ uncons l → l ≡ a ∷ r
uncons-some a r [] e = cc
uncons-some a r (b ∷ l) e = cc

module _ {Q : Type 0} ⦃S : SegQueue Q⦄ where
  -- The two outcomes of a `pop`.
  pub data Popped (q : Q) : Type 0 where
    empty : S.pop q ≡ none → S.items q ≡ [] → Popped q
    first : (a : ℕ) (r : Q) → S.pop q ≡ some (a, r) → S.items q ≡ a ∷ S.items r → Popped q

  pub pop-Popped : (q : Q) → Popped q
  pop-Popped q = elim (Option-cases (S.pop q)) [
    | inl e ↦ empty e (uncons-none (S.items q) (rw e at (S.items-pop q)))
    | inr ((a, r), e) ↦
        first a r e (uncons-some a (S.items r) (S.items q) (rw e at (S.items-pop q)))
  ]

module _ {M Q : Type 0} ⦃D : DashMap M Node⦄ ⦃S : SegQueue Q⦄ where
  pub record IsValid (s : NodeStore M Q) : Type 0 where
    pub free_unused : (i : ℕ) → contains (S.items s.free_list) i ≡ true → D.get s.nodes i ≡ none
    pub free_below : (i : ℕ) → contains (S.items s.free_list) i ≡ true → i < s.next_id
    pub free_distinct : IsDistinct (S.items s.free_list)
    pub below : (i : ℕ) (n : Node) → D.get s.nodes i ≡ some n → i < s.next_id
    pub keyed : (i : ℕ) (n : Node) → D.get s.nodes i ≡ some n → n.id ≡ i
    pub counted : s.free_count ≡ length (S.items s.free_list) % 2 ^ 64
    pub bounded : s.next_id < 2 ^ 64

-- What `alloc_id` promises of an id and the store that it leaves.
module _ {M Q : Type 0} ⦃D : DashMap M Node⦄ ⦃S : SegQueue Q⦄ where
  pub record Allocated (s : NodeStore M Q) (id : NodeId) (s' : NodeStore M Q) : Type 0 where
    pub unused : D.get s.nodes id ≡ none
    pub taken : contains (S.items s'.free_list) id ≡ false
    pub below : id < s'.next_id
    pub nodes : s'.nodes ≡ s.nodes
    pub valid : IsValid s'

module _ {M Q : Type 0} ⦃D : DashMap M Node⦄ ⦃S : SegQueue Q⦄ ⦃B : Bincode Node⦄ where
  alloc_fresh :
      (s : NodeStore M Q)
      → IsValid s
      → s.next_id + 1 < 2 ^ 64
      → S.items s.free_list ≡ []
      → Allocated s s.next_id (record s { next_id = incr64 s.next_id })
  alloc_fresh s v room e = record {
    unused = elim (Option-cases (D.get s.nodes s.next_id)) [
      | inl absent ↦ absent
      | inr (n, there) ↦ absurd (omega (arith, v.below s.next_id n there))
    ];
    taken = rw e (unfold contains in refl);
    below = omega arith;
    nodes = refl;
    valid = record {
      free_unused = v.free_unused;
      free_below = λ i h. omega (arith, v.free_below i h);
      free_distinct = v.free_distinct;
      below = λ i n h. omega (arith, v.below i n h);
      keyed = v.keyed;
      counted = v.counted;
      bounded = omega arith;
    };
  }

  alloc_reused :
      (s : NodeStore M Q) (a : ℕ) (r : Q)
      → IsValid s
      → S.items s.free_list ≡ a ∷ S.items r
      → Allocated s a (record s { free_list = r; free_count = decr64 s.free_count })
  alloc_reused s a r v e =
      let free : (i : ℕ) → contains (S.items r) i ≡ true → contains (S.items s.free_list) i ≡ true =
        λ i h. rw e (contains-cons a (S.items r) i h) in
      let distinct : IsDistinct (a ∷ S.items r) = rw e at v.free_distinct in
      let len : length (S.items s.free_list) ≡ suc (length (S.items r)) = ap length e in
      record {
        unused = v.free_unused a (rw e (contains_head a (S.items r)));
        taken = distinct.0;
        below = v.free_below a (rw e (contains_head a (S.items r)));
        nodes = refl;
        valid = record {
          free_unused = λ i h. v.free_unused i (free i h);
          free_below = λ i h. v.free_below i (free i h);
          free_distinct = distinct.1;
          below = v.below;
          keyed = v.keyed;
          counted = omega (arith, v.counted);
          bounded = v.bounded;
        };
      }

  pub alloc_id-none :
      (s : NodeStore M Q)
      → S.pop s.free_list ≡ none
      → alloc_id s ≡ (s.next_id, record s { next_id = incr64 s.next_id })
  unfolding alloc_id
  alloc_id-none s e = rw (alloc_id, e)

  pub alloc_id-some :
      (s : NodeStore M Q) (a : ℕ) (r : Q)
      → S.pop s.free_list ≡ some (a, r)
      → alloc_id s ≡ (a, record s { free_list = r; free_count = decr64 s.free_count })
  unfolding alloc_id
  alloc_id-some s a r e = rw (alloc_id, e)

  -- From a valid store with room for one more id, `alloc_id` returns an id that no node has and that
  -- is no longer free, touches no node, and leaves the store valid.
  pub alloc_id-Allocated :
      (s : NodeStore M Q)
      → IsValid s
      → s.next_id + 1 < 2 ^ 64
      → Allocated s (alloc_id s).0 (alloc_id s).1
  alloc_id-Allocated s v room = elim (pop-Popped s.free_list) [
    | empty e i ↦ rw (alloc_id-none s e) (alloc_fresh s v room i)
    | first a r e i ↦ rw (alloc_id-some s a r e) (alloc_reused s a r v i)
  ]
