-- ===== src/Storage/NodeStore/Validity.antt =====
-- The operations that write to the store: what they do to each node, and that they keep it valid.
use lightgraph.Base.{
  ℕ, ◌+◌, ◌^◌, ◌<◌, ◌≡◌, refl, ap, sym, ◌∙◌, Bool, true, false, Option, none, some, List, [], ◌∷◌,
  ◌++◌, arith, ◌==◌, if◌then◌else◌, inl, inr, length-append, contains, contains-append,
  IsDistinct-snoc, Option-cases, Bool-cases, incr64, option_map,
}
use lightgraph.Types.{NodeId, LabelId, TxId}
use lightgraph.Extern.{DashMap, SegQueue, Bincode}
use lightgraph.Storage.Node
use lightgraph.Storage.Node.{Node}
use lightgraph.Storage.WalThread.{WalThread, send_delete}
use lightgraph.Storage.NodeStore.{
  NodeStore, new, put, insert_node, modify, update_labels, update_props_row, set_first_out,
  set_first_in, soft_delete, hard_delete, alloc_id, wal_insert, wal_delete,
}
use lightgraph.Storage.NodeStore.Alloc.{IsValid, alloc_id-Allocated}

-- Whether there is a value.
abbrev pub is_some {ℓ} : {A : Type ℓ} → Option A → Bool
is_some none = false
is_some (some _) = true

-- What becomes of a lookup when one key is given a value, or loses it.
abbrev pub set_at : NodeId → Option Node → NodeId → Option Node → Option Node
set_at id value j old = if id == j then value else old

in_empty : (i : ℕ) → contains [] i ≡ true → ⊥
unfolding contains
in_empty i h = cc

module _ {M Q : Type 0} ⦃D : DashMap M Node⦄ ⦃S : SegQueue Q⦄ ⦃B : Bincode Node⦄ where
  -- The store with nothing in it is valid.
  pub new-IsValid : IsValid (new {M = M} {Q = Q})
  unfolding new contains
  new-IsValid =
      let none_free : S.items S.empty ≡ [] = S.items-empty in
      record {
        free_unused = λ i h. D.get-empty i;
        free_below = λ i h. absurd (in_empty i (rw none_free at h));
        free_distinct = rw none_free tt;
        below = λ i n h. ground (arith, D.get-empty i);
        keyed = λ i n h. ground (arith, D.get-empty i);
        counted = rw none_free refl;
        bounded = omega arith;
      }

  -- The log and the statistics do not bear on validity.
  pub IsValid-with :
      (s : NodeStore M Q) (k : ℕ) (w : Option WalThread)
      → IsValid s
      → IsValid (record s { total_ever = k; wal = w })
  IsValid-with s k w v = record {
    free_unused = v.free_unused;
    free_below = v.free_below;
    free_distinct = v.free_distinct;
    below = v.below;
    keyed = v.keyed;
    counted = v.counted;
    bounded = v.bounded;
  }

  -- Writing a node under its own id, which was handed out and is not free.
  pub put-IsValid :
      (s : NodeStore M Q) (id : NodeId) (n : Node)
      → IsValid s
      → id < s.next_id
      → contains (S.items s.free_list) id ≡ false
      → n.id ≡ id
      → IsValid (put id n s)
  unfolding wal_insert
  put-IsValid s id n v lt taken e = record {
    free_unused = λ i h. ground (arith, D.get-insert s.nodes id i n, v.free_unused i);
    free_below = v.free_below;
    free_distinct = v.free_distinct;
    below = λ i m h. ground (arith, D.get-insert s.nodes id i n, v.below i m);
    keyed = λ i m h. ground (arith, D.get-insert s.nodes id i n, v.keyed i m);
    counted = v.counted;
    bounded = v.bounded;
  }

  -- The id of a node that is there is not free.
  used :
      (s : NodeStore M Q) (id : NodeId) (n : Node)
      → IsValid s
      → D.get s.nodes id ≡ some n
      → contains (S.items s.free_list) id ≡ false
  used s id n v e = elim (Bool-cases (contains (S.items s.free_list) id)) [
    | inl free ↦ absurd (cc (v.free_unused id free))
    | inr h ↦ h
  ]

  pub get-put :
      (s : NodeStore M Q) (id : NodeId) (n : Node) (j : NodeId)
      → D.get (put id n s).nodes j ≡ set_at id (some n) j (D.get s.nodes j)
  unfolding wal_insert
  get-put s id n j = D.get-insert s.nodes id j n

  -- What `insert_node` promises of the id that it returns and of the store that it leaves.
  pub record Inserted (s : NodeStore M Q) (id : NodeId) (n : Node) (s' : NodeStore M Q)
      : Type 0 where
    pub fresh : D.get s.nodes id ≡ none
    pub lookup : (j : NodeId) → D.get s'.nodes j ≡ set_at id (some n) j (D.get s.nodes j)
    pub valid : IsValid s'

  -- From a valid store with room for one more id, `insert_node` returns an id that no node has, puts
  -- the new node there, leaves every other node as it was, and keeps the store valid.
  pub insert_node-Inserted :
      (labels : List LabelId) (row : ℕ) (tx : TxId) (s : NodeStore M Q)
      → IsValid s
      → s.next_id + 1 < 2 ^ 64
      → Inserted s
          (insert_node labels row tx s).0
          (Node.new (insert_node labels row tx s).0 labels row tx)
          (insert_node labels row tx s).1
  unfolding insert_node
  insert_node-Inserted labels row tx s v room =
      let a = alloc_id-Allocated s v room in
      let id = (alloc_id s).0 in
      let s' = record (alloc_id s).1 { total_ever = incr64 (alloc_id s).1.total_ever } in
      let n = Node.new id labels row tx in
      record {
        fresh = a.unused;
        lookup = λ j. get-put s' id n j ∙ ap (λ (m : M). set_at id (some n) j (D.get m j)) a.nodes;
        valid =
            put-IsValid s' id n (IsValid-with _ _ _ a.valid) a.below a.taken
              (unfold Node.new in refl);
      }

  -- A change of one node through `get_mut` says whether the store has the node; afterwards a node
  -- that was there is changed, an id without one has none still, and every other id has what it had.
  pub modify_lem :
      (id : NodeId) (f : Node → Node) (s : NodeStore M Q)
      → ((modify id f s).0 ≡ is_some (D.get s.nodes id))
        × ((j : NodeId)
            → D.get (modify id f s).1.nodes j
              ≡ set_at id (option_map f (D.get s.nodes id)) j (D.get s.nodes j))
  unfolding modify wal_insert
  modify_lem id f s = elim (Option-cases (D.get s.nodes id)) [
    | inl e ↦ (rw (modify, e), λ j. rw (modify, e) (ground arith))
    | inr (n, e) ↦ (rw (modify, e), λ j. rw (modify, e) (D.get-insert s.nodes id j (f n)))
  ]

  -- A change of a node that leaves its id alone keeps the store valid.
  pub modify-IsValid :
      (id : NodeId) (f : Node → Node) (s : NodeStore M Q)
      → ((n : Node) → (f n).id ≡ n.id)
      → IsValid s
      → IsValid (modify id f s).1
  unfolding modify
  modify-IsValid id f s keeps v = elim (Option-cases (D.get s.nodes id)) [
    | inl e ↦ rw (modify, e) v
    | inr (n, e) ↦
        rw (modify, e)
          (put-IsValid s id (f n) v (v.below id n e) (used s id n v e) (keeps n ∙ v.keyed id n e))
  ]

  -- `update_labels`, `update_props_row`, `set_first_out`, `set_first_in` and `soft_delete` of any id
  -- each keep a valid store valid.
  pub updates-IsValid :
      (id : NodeId) (labels : List LabelId) (tx : TxId) (k : ℕ) (s : NodeStore M Q)
      → IsValid s
      → IsValid (update_labels id labels tx s).1
        × IsValid (update_props_row id k s).1
        × IsValid (set_first_out id k s).1
        × IsValid (set_first_in id k s).1
        × IsValid (soft_delete id tx s).1
  unfolding update_labels update_props_row set_first_out set_first_in soft_delete
  updates-IsValid id labels tx k s v = (
    modify-IsValid id _ s (λ n. refl) v,
    modify-IsValid id _ s (λ n. refl) v,
    modify-IsValid id _ s (λ n. refl) v,
    modify-IsValid id _ s (λ n. refl) v,
    modify-IsValid id _ s (λ n. refl) v,
  )

  -- `hard_delete` says whether the node was there; afterwards the id has no node, and every other id
  -- has the node that it had.
  pub hard_delete_lem :
      (id : NodeId) (s : NodeStore M Q)
      → ((hard_delete id s).0 ≡ is_some (D.get s.nodes id))
        × ((j : NodeId) → D.get (hard_delete id s).1.nodes j ≡ set_at id none j (D.get s.nodes j))
  unfolding hard_delete wal_delete
  hard_delete_lem id s = elim (Option-cases (D.get s.nodes id)) [
    | inl e ↦ (rw (hard_delete, e), λ j. rw (hard_delete, e) (ground arith))
    | inr (n, e) ↦ (rw (hard_delete, e), λ j. rw (hard_delete, e) (D.get-remove s.nodes id j))
  ]

  pub wal-hard_delete :
      (id : NodeId) (s : NodeStore M Q)
      → (hard_delete id s).1.wal ≡ option_map (send_delete id) s.wal
  unfolding hard_delete wal_delete
  wal-hard_delete id s = elim (Option-cases (D.get s.nodes id)) [
    | inl e ↦ rw (hard_delete, e)
    | inr (n, e) ↦ rw (hard_delete, e)
  ]

  -- `hard_delete` of any id keeps a valid store valid.
  pub hard_delete-IsValid :
      (id : NodeId) (s : NodeStore M Q) → IsValid s → IsValid (hard_delete id s).1
  unfolding hard_delete wal_delete contains
  hard_delete-IsValid id s v = elim (Option-cases (D.get s.nodes id)) [
    | inl e ↦ rw (hard_delete, e) (IsValid-with s _ _ v)
    | inr (n, e) ↦
        let free = S.items s.free_list in
        let pushed : S.items (S.push s.free_list id) ≡ free ++ id ∷ [] =
          S.items-push s.free_list id in
        let was : (i : ℕ)
            → contains (S.items (S.push s.free_list id)) i ≡ true
            → (if contains free i then true else contains (id ∷ []) i) ≡ true =
          λ i h. sym (contains-append free (id ∷ []) i) ∙ (rw pushed at h) in
        rw (hard_delete, e)
          (record {
            free_unused =
                λ i h. ground (arith, was i h, D.get-remove s.nodes id i, v.free_unused i);
            free_below = λ i h. ground (arith, was i h, v.free_below i, v.below id n);
            free_distinct = rw pushed (IsDistinct-snoc free id v.free_distinct (used s id n v e));
            below = λ i m h. ground (arith, D.get-remove s.nodes id i, v.below i m);
            keyed = λ i m h. ground (arith, D.get-remove s.nodes id i, v.keyed i m);
            counted = rw pushed (omega (arith, length-append free (id ∷ []), v.counted));
            bounded = v.bounded;
          })
  ]
