-- ===== src/Storage/EdgeStore/Validity.antt =====
-- The ids of edges: what `insert_edge` hands out, and what `hard_delete` gives back.
use lightgraph.Base.{
  ℕ, ◌+◌, ◌^◌, ◌<◌, ◌≡◌, refl, ap, ◌∙◌, false, none, some, ◌∷◌, arith, inl, inr, ◌==◌,
  if◌then◌else◌, contains, contains_head, IsDistinct, Option-cases,
}
use lightgraph.Types.{NodeId, EdgeId, TypeId, TxId}
use lightgraph.Extern.{DashMap, SegQueue, Bincode}
use lightgraph.Storage.Edge
use lightgraph.Storage.Edge.{Edge}
use lightgraph.Storage.Ids.{
  AreValid, insert-AreValid, remove-AreValid, fresh-AreValid, reused-AreValid, empty-AreValid,
}
use lightgraph.Storage.NodeStore.Alloc.{pop-Popped, empty, first}
use lightgraph.Storage.EdgeStore.{
  EdgeStore, alloc_id, wal_insert, wal_delete, insert_edge, hard_delete, new,
}

abbrev pub edge_id : Edge → EdgeId
edge_id e = e.id

module _ {M Q : Type 0} ⦃D : DashMap M Edge⦄ ⦃S : SegQueue Q⦄ where
  abbrev pub IsValid : EdgeStore M Q → Type 0
  IsValid s = AreValid edge_id s.edges s.free_list s.next_id s.free_count

  -- What `insert_edge` promises of the id that it returns and of the store that it leaves.
  pub record Inserted (s : EdgeStore M Q) (id : EdgeId) (e : Edge) (s' : EdgeStore M Q)
      : Type 0 where
    pub fresh : D.get s.edges id ≡ none
    pub lookup : (j : EdgeId) → D.get s'.edges j ≡ (if id == j then some e else D.get s.edges j)
    pub valid : IsValid s'
    pub grown : s'.next_id < s.next_id + 2

module _ {M Q : Type 0} ⦃D : DashMap M Edge⦄ ⦃S : SegQueue Q⦄ ⦃B : Bincode Edge⦄ where
  -- What `alloc_id` promises.
  record Allocated (s : EdgeStore M Q) (id : EdgeId) (s' : EdgeStore M Q) : Type 0 where
    pub unused : D.get s.edges id ≡ none
    pub taken : contains (S.items s'.free_list) id ≡ false
    pub below : id < s'.next_id
    pub edges : s'.edges ≡ s.edges
    pub valid : IsValid s'
    pub grown : s'.next_id < s.next_id + 2

  alloc_id-Allocated :
      (s : EdgeStore M Q)
      → IsValid s
      → s.next_id + 1 < 2 ^ 64
      → Allocated s (alloc_id s).0 (alloc_id s).1
  unfolding alloc_id contains
  alloc_id-Allocated s v room = elim (pop-Popped s.free_list) [
    | empty e i ↦
        rw (alloc_id, e)
          (record {
            unused = elim (Option-cases (D.get s.edges s.next_id)) [
              | inl absent ↦ absent
              | inr (n, there) ↦ absurd (omega (arith, v.below s.next_id n there))
            ];
            taken = rw i refl;
            below = omega arith;
            edges = refl;
            valid = fresh-AreValid edge_id s.edges s.free_list s.next_id s.free_count v room;
            grown = omega arith;
          })
    | first a r e i ↦
        let distinct : IsDistinct (a ∷ S.items r) = rw i at v.free_distinct in
        rw (alloc_id, e)
          (record {
            unused = v.free_unused a (rw i (contains_head a (S.items r)));
            taken = distinct.0;
            below = v.free_below a (rw i (contains_head a (S.items r)));
            edges = refl;
            valid = reused-AreValid edge_id s.edges s.free_list r s.next_id s.free_count a v i;
            grown = omega arith;
          })
  ]

  -- From a valid store with room for one more id, `insert_edge` returns an id that no edge has, puts
  -- the new edge there, leaves every other edge as it was, and keeps the store valid; the counter of
  -- ids grows by one at most.
  pub insert_edge-Inserted :
      (src dst : NodeId) (etype : TypeId) (row : ℕ) (tx : TxId) (s : EdgeStore M Q)
      → IsValid s
      → s.next_id + 1 < 2 ^ 64
      → Inserted s
          (insert_edge src dst etype row tx s).0
          (Edge.new (insert_edge src dst etype row tx s).0 src dst etype row tx)
          (insert_edge src dst etype row tx s).1
  unfolding insert_edge wal_insert
  insert_edge-Inserted src dst etype row tx s v room =
      let a = alloc_id-Allocated s v room in
      let id = (alloc_id s).0 in
      let s' = (alloc_id s).1 in
      let e = Edge.new id src dst etype row tx in
      record {
        fresh = a.unused;
        lookup = λ j.
            D.get-insert s'.edges id j e
            ∙ ap (λ (m : M). if id == j then some e else D.get m j) a.edges;
        valid =
            insert-AreValid edge_id s'.edges s'.free_list s'.next_id s'.free_count id e a.valid
              a.below a.taken (unfold Edge.new in refl);
        grown = a.grown;
      }

  -- After `hard_delete` of an id in a valid store the id has no edge, every other id has the edge that
  -- it had, the store is valid, and the counter of ids is where it was.
  pub hard_delete_lem :
      (id : EdgeId) (s : EdgeStore M Q)
      → IsValid s
      → ((j : EdgeId)
          → D.get (hard_delete id s).1.edges j ≡ (if id == j then none else D.get s.edges j))
        × IsValid (hard_delete id s).1
        × ((hard_delete id s).1.next_id ≡ s.next_id)
  unfolding hard_delete wal_delete
  hard_delete_lem id s v = elim (Option-cases (D.get s.edges id)) [
    | inl e ↦ (λ j. rw (hard_delete, e) (ground arith), rw (hard_delete, e) v, rw (hard_delete, e))
    | inr (n, e) ↦ (
      λ j. rw (hard_delete, e) (D.get-remove s.edges id j),
      rw (hard_delete, e)
          (remove-AreValid edge_id s.edges s.free_list s.next_id s.free_count id n v e),
      rw (hard_delete, e),
    )
  ]

  -- The store with nothing in it is valid.
  pub new-IsValid : IsValid (new {M = M} {Q = Q})
  unfolding new
  new-IsValid = empty-AreValid edge_id
