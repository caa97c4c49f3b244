-- ===== src/Storage/NodeStore/Reuse.antt =====
-- Recovery of a log in which an id was used, freed and used again.
use mathlib.Core.List.{foldl, foldl-append}
use lightgraph.Base.{
  ℕ, ◌≡◌, ap, sym, subst, ◌∙◌, true, some, List, ◌∷◌, ◌++◌, arith, contains, contains-snoc,
  contains-append, ◌<◌, ◌^◌, ◌==◌, false, Option-cases, inl, inr, [], Bytes,
}
use lightgraph.Types.{NodeId, LabelId, TxId}
use lightgraph.Extern.{DashMap, SegQueue, Bincode}
use lightgraph.Storage.Node
use lightgraph.Storage.Node.{Node}
use lightgraph.Storage.Consistency.{Consistency, batch_bytes}
use lightgraph.Storage.WalLog.{magic, op_insert, op_delete}
use lightgraph.Storage.WalLog.RoundTrip.{LogRecord, inserted, deleted, apply, AllFit, encode_all}
use lightgraph.Storage.WalThread.Shutdown.{spawn-IsOpen}
use lightgraph.Storage.NodeStore.{
  NodeStore, Replay, on_record, replay_insert, replay_delete, insert_node, wal_insert, open_store,
  ok,
}
use lightgraph.Storage.NodeStore.Recovery.{replay_file-records, open_store-ok}
use lightgraph.Storage.NodeStore.Alloc.{IsValid, empty, first, pop-Popped, alloc_id-some}
use lightgraph.Storage.NodeStore.Logged.{replayed}

-- A log that frees an id and uses it again, with any records before, between and after.
abbrev pub reused :
    List LogRecord → NodeId → List LogRecord → Bytes → List LogRecord → List LogRecord
reused before id between node after = before ++ deleted id ∷ (between ++ inserted id node ∷ after)

-- No record of the list is about the id.
abbrev pub Spares : NodeId → List LogRecord → Type 0
Spares id [] = Unit
Spares id (inserted j _ ∷ rs) = ((j == id) ≡ false) × Spares id rs
Spares id (deleted j ∷ rs) = ((j == id) ≡ false) × Spares id rs

module _ {M Q : Type 0} ⦃D : DashMap M Node⦄ ⦃S : SegQueue Q⦄ ⦃B : Bincode Node⦄ where
  -- One record, at the nodes and at the free ids.
  free-apply :
      (r : Replay M Q) (rec : LogRecord) (id : NodeId)
      → contains (S.items r.store.free_list) id ≡ true
      → contains (S.items (apply on_record r rec).store.free_list) id ≡ true
  unfolding on_record
  free-apply r (inserted j bs) id h = elim (Option-cases (B.deserialize bs)) [
    | inl e ↦ rw (e, replay_insert) h
    | inr (n, e) ↦ rw (e, replay_insert) h
  ]
  free-apply r (deleted j) id h = elim (Option-cases (D.get r.store.nodes j)) [
    | inl e ↦ rw (replay_delete, e) h
    | inr (n, e) ↦
        rw (replay_delete, e, S.items-push r.store.free_list j)
          (ground (arith, contains-append (S.items r.store.free_list) (j ∷ []) id))
  ]

  -- A replay takes no id off the free list.
  free-foldl :
      (rs : List LogRecord) (r : Replay M Q) (id : NodeId)
      → contains (S.items r.store.free_list) id ≡ true
      → contains (S.items (foldl (apply on_record) r rs).store.free_list) id ≡ true
  free-foldl [] r id h = h
  free-foldl (rec ∷ rs) r id h = free-foldl rs (apply on_record r rec) id (free-apply r rec id h)

  free-deleted :
      (r : Replay M Q) (id : NodeId) (n : Node)
      → D.get r.store.nodes id ≡ some n
      → contains (S.items (on_record r op_delete id []).store.free_list) id ≡ true
  unfolding on_record
  free-deleted r id n e =
      rw (replay_delete, e, S.items-push r.store.free_list id)
        (contains-snoc (S.items r.store.free_list) id)

  -- Records about other ids leave a node.
  used-foldl :
      (rs : List LogRecord) (r : Replay M Q) (id : NodeId) (n : Node)
      → Spares id rs
      → D.get r.store.nodes id ≡ some n
      → D.get (foldl (apply on_record) r rs).store.nodes id ≡ some n
  unfolding on_record
  used-foldl [] r id n o h = h
  used-foldl (inserted j bs ∷ rs) r id n o h =
      used-foldl rs (on_record r op_insert j bs) id n o.1 (elim (Option-cases (B.deserialize bs)) [
        | inl e ↦ rw (e, replay_insert) h
        | inr (m, e) ↦
            rw (e, replay_insert) (ground (arith, D.get-insert r.store.nodes j id m, o.0))
      ])
  used-foldl (deleted j ∷ rs) r id n o h =
      used-foldl rs (on_record r op_delete j []) id n o.1
        (elim (Option-cases (D.get r.store.nodes j)) [
          | inl e ↦ rw (replay_delete, e) h
          | inr (m, e) ↦
              rw (replay_delete, e) (ground (arith, D.get-remove r.store.nodes j id, o.0))
        ])

  used-inserted :
      (r : Replay M Q) (id : NodeId) (bs : Bytes) (n : Node)
      → B.deserialize bs ≡ some n
      → D.get (on_record r op_insert id bs).store.nodes id ≡ some n
  unfolding on_record
  used-inserted r id bs n e =
      rw (e, replay_insert) (ground (arith, D.get-insert r.store.nodes id id n))

  -- What is wrong with a store: the id of one of its nodes is in its free list.
  pub record IsFreeAndUsed (id : NodeId) (n : Node) (s : NodeStore M Q) : Type 0 where
    pub used : D.get s.nodes id ≡ some n
    pub free : contains (S.items s.free_list) id ≡ true

  not-IsValid : (id : NodeId) (n : Node) (s : NodeStore M Q) → IsFreeAndUsed id n s → ¬ IsValid s
  not-IsValid id n s h v = cc (h.used, v.free_unused id h.free)

  foldl-split :
      (xs : List LogRecord) (r : Replay M Q) (ys : List LogRecord)
      → foldl (apply on_record) r (xs ++ ys)
        ≡ foldl (apply on_record) (foldl (apply on_record) r xs) ys
  foldl-split xs r ys = rw foldl-append

  -- The replay of such a log.
  replayed-reused :
      (before : List LogRecord) (id : NodeId) (between : List LogRecord) (node : Bytes)
      (after : List LogRecord) (m n : Node)
      → D.get (replayed {M = M} {Q = Q} before).store.nodes id ≡ some m
      → B.deserialize node ≡ some n
      → Spares id after
      → IsFreeAndUsed id n (replayed (reused before id between node after)).store
  replayed-reused before id between node after m n live read spared =
      let r₀ = replayed {M = M} {Q = Q} before in
      let r₁ = on_record r₀ op_delete id [] in
      let r₂ = foldl (apply on_record) r₁ between in
      let r₃ = on_record r₂ op_insert id node in
      let whole : replayed (reused before id between node after)
          ≡ foldl (apply on_record) r₃ after =
        foldl-split before (replayed []) (deleted id ∷ (between ++ inserted id node ∷ after))
        ∙ foldl-split between r₁ (inserted id node ∷ after) in
      let bad : IsFreeAndUsed id n (foldl (apply on_record) r₃ after).store = record {
        used = used-foldl after r₃ id n spared (used-inserted r₂ id node n read);
        free = free-foldl after r₃ id (
            free-apply r₂ (inserted id node) id
              (free-foldl between r₁ id (free-deleted r₀ id m live)));
      } in
      subst (λ (r : Replay M Q). IsFreeAndUsed id n r.store) (sym whole) bad

  -- Where a log of whole records, whose ids and lengths fit the format, deletes a node that is there,
  -- later inserts a node under the same id and has no record of that id behind, opening it gives a
  -- store that has the new node and has its id in the free list too, so that the store is not valid.
  -- The batch size of the level is below 2^62.
  pub reused-free :
      (before : List LogRecord) (id : NodeId) (between : List LogRecord) (node : Bytes)
      (after : List LogRecord) (m n : Node) (c : Consistency)
      → AllFit (reused before id between node after)
      → batch_bytes c.durability < 2 ^ 62
      → D.get (replayed {M = M} {Q = Q} before).store.nodes id ≡ some m
      → B.deserialize node ≡ some n
      → Spares id after
      → (s : NodeStore M Q) × (open_store
            (some (magic ++ encode_all (reused before id between node after)))
            c
          ≡ ok s)
        × IsFreeAndUsed id n s
        × ¬ IsValid s
  reused-free before id between node after m n c fits small live read spared =
      let rs = reused before id between node after in
      let (s₀, p, same, free) = replay_file-records rs fits in
      let (t, u, o, lv, im) = spawn-IsOpen (some (magic ++ encode_all rs)) c.durability small in
      let s : NodeStore M Q = record s₀ { wal = some t } in
      let k = replayed-reused before id between node after m n live read spared in
      let bad : IsFreeAndUsed id n s = record {
        used = same id ∙ k.used;
        free = ap (λ (q : Q). contains (S.items q) id) free ∙ k.free;
      } in
      (s, open_store-ok _ c s₀ t p u, bad, not-IsValid id n s bad)

  -- From a store whose free list begins with the id of a live node, `insert_node` returns that id and
  -- writes the new node over the live one.
  insert_node-overwrites :
      (id : NodeId) (r : List ℕ) (labels : List LabelId) (row : ℕ) (tx : TxId) (s : NodeStore M Q)
      → S.items s.free_list ≡ id ∷ r
      → ((insert_node labels row tx s).0 ≡ id)
        × (D.get (insert_node labels row tx s).1.nodes id ≡ some (Node.new id labels row tx))
  unfolding insert_node wal_insert
  insert_node-overwrites id r labels row tx s e = elim (pop-Popped s.free_list) [
    | empty p i ↦ absurd (cc (sym e ∙ i))
    | first a q p i ↦
        let same : a ≡ id = cc (sym i ∙ e) in
        rw (alloc_id-some s a q p)
          (same, rw same (ground (arith, D.get-insert s.nodes id id (Node.new id labels row tx))))
  ]
