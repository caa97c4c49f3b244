-- ===== src/Transaction/Database/Isolation.antt =====
-- What the snapshots from before a commit see of it.
use lightgraph.Base.{
  ℕ, ◌≤◌, ◌<◌, ◌≡◌, refl, ap, ◌∙◌, true, false, some, List, [], ◌∷◌, ◌==◌, contains, contains-cons,
  contains_head, arith, inl, inr, Option-cases, Bool-cases, incr64, option_map, subst, ==_iff,
}
use lightgraph.Types.{NodeId, LabelId, TxId, max_tx_id}
use lightgraph.Extern.{DashMap, SegQueue, Bincode}
use lightgraph.Storage.Node
use lightgraph.Storage.Node.{Node}
use lightgraph.Storage.NodeStore
use lightgraph.Storage.NodeStore.{NodeStore, put}
use lightgraph.Storage.NodeStore.Validity.{get-put, modify_lem, set_at}
use lightgraph.Storage.NodeStore.Mvcc.{sees}
use lightgraph.Transaction.Database.{
  Transaction, insert_nodes, update_nodes, delete_nodes, write_nodes,
}

abbrev pub inserted_ids : List (NodeId × List LabelId × ℕ) → List NodeId
inserted_ids [] = []
inserted_ids ((id, _, _) ∷ l) = id ∷ inserted_ids l

module _ {N Q : Type 0} ⦃D : DashMap N Node⦄ ⦃S : SegQueue Q⦄ ⦃B : Bincode Node⦄ where
  -- No node among the ids was deleted before the transaction.
  abbrev pub NotDeletedBefore : TxId → List NodeId → NodeStore N Q → Type 0
  NotDeletedBefore tx ids s =
      (i : NodeId) (n : Node) → contains ids i ≡ true → D.get s.nodes i ≡ some n → tx ≤ n.deleted_tx

  get-insert_with_id :
      (id : NodeId) (labels : List LabelId) (row : ℕ) (tx : TxId) (s : NodeStore N Q) (j : NodeId)
      → D.get (NodeStore.insert_with_id id labels row tx s).nodes j
        ≡ set_at id (some (Node.new id labels row tx)) j (D.get s.nodes j)
  unfolding NodeStore.insert_with_id
  get-insert_with_id id labels row tx s j =
      get-put (record s { total_ever = incr64 s.total_ever }) id (Node.new id labels row tx) j

  get-soft_delete :
      (id : NodeId) (tx : TxId) (s : NodeStore N Q) (j : NodeId)
      → D.get (NodeStore.soft_delete id tx s).1.nodes j
        ≡ set_at id
            (option_map (λ (n : Node). record n { deleted_tx = tx }) (D.get s.nodes id))
            j
            (D.get s.nodes j)
  unfolding NodeStore.soft_delete
  get-soft_delete id tx s j = (modify_lem id (λ n. record n { deleted_tx = tx }) s).1 j

  module _ (tx snapshot : TxId) (before : snapshot < tx) (small : tx ≤ max_tx_id) where
    insert-sees :
        (id : NodeId) (labels : List LabelId) (row : ℕ) (s : NodeStore N Q) (j : NodeId)
        → sees snapshot id s ≡ false
        → sees snapshot j (NodeStore.insert_with_id id labels row tx s) ≡ sees snapshot j s
    unfolding Node.is_alive Node.new
    insert-sees id labels row s j h = elim (Bool-cases (id == j)) [
      | inl q ↦
          let same : id ≡ j = (==_iff id j).0 q in
          let unseen : sees snapshot j s ≡ false = subst (λ i. sees snapshot i s ≡ false) same h in
          ground (arith, get-insert_with_id id labels row tx s j, unseen)
      | inr q ↦ ground (arith, get-insert_with_id id labels row tx s j, q)
    ]

    delete-sees :
        (id : NodeId) (s : NodeStore N Q) (j : NodeId)
        → ((n : Node) → D.get s.nodes id ≡ some n → tx ≤ n.deleted_tx)
        → sees snapshot j (NodeStore.soft_delete id tx s).1 ≡ sees snapshot j s
    unfolding Node.is_alive
    delete-sees id s j h = elim (Option-cases (D.get s.nodes id)) [
      | inl e ↦ ground (arith, get-soft_delete id tx s j, e)
      | inr (n, e) ↦ ground (arith, get-soft_delete id tx s j, e, h n e)
    ]

    inserted_deletable :
        (id : NodeId) (labels : List LabelId) (row : ℕ) (s : NodeStore N Q) (i : NodeId) (n : Node)
        → D.get (NodeStore.insert_with_id id labels row tx s).nodes i ≡ some n
        → (D.get s.nodes i ≡ some n → tx ≤ n.deleted_tx)
        → tx ≤ n.deleted_tx
    unfolding Node.new
    inserted_deletable id labels row s i n e h = elim (Bool-cases (id == i)) [
      | inl q ↦ ground (arith, get-insert_with_id id labels row tx s i, q)
      | inr q ↦ h (ground (arith, get-insert_with_id id labels row tx s i, q))
    ]

    soft_deletable :
        (id : NodeId) (s : NodeStore N Q) (i : NodeId) (n : Node)
        → D.get (NodeStore.soft_delete id tx s).1.nodes i ≡ some n
        → ((m : Node) → D.get s.nodes i ≡ some m → tx ≤ m.deleted_tx)
        → tx ≤ n.deleted_tx
    soft_deletable id s i n e h = elim (Bool-cases (id == i)) [
      | inl q ↦ elim (Option-cases (D.get s.nodes id)) [
        | inl gone ↦ ground (arith, get-soft_delete id tx s i, q, gone)
        | inr (m, there) ↦ ground (arith, get-soft_delete id tx s i, q, there)
      ]
      | inr q ↦ h n (ground (arith, get-soft_delete id tx s i, q))
    ]

    -- what the writes keep: what the snapshot sees, and which of the ids to delete may be deleted
    insert_nodes-sees :
        (l : List (NodeId × List LabelId × ℕ)) (s : NodeStore N Q)
        → ((i : NodeId) → contains (inserted_ids l) i ≡ true → sees snapshot i s ≡ false)
        → (j : NodeId) → sees snapshot j (insert_nodes l tx s) ≡ sees snapshot j s
    unfolding insert_nodes contains
    insert_nodes-sees [] s h j = refl
    insert_nodes-sees ((id, labels, row) ∷ l) s h j =
        let s' = NodeStore.insert_with_id id labels row tx s in
        let step : (i : NodeId) → sees snapshot i s' ≡ sees snapshot i s =
          λ i. insert-sees id labels row s i (h id (contains_head id (inserted_ids l))) in
        insert_nodes-sees l s' (λ i k. step i ∙ h i (contains-cons id (inserted_ids l) i k)) j
        ∙ step j

    insert_nodes-NotDeletedBefore :
        (l : List (NodeId × List LabelId × ℕ)) (ids : List NodeId) (s : NodeStore N Q)
        → NotDeletedBefore tx ids s
        → NotDeletedBefore tx ids (insert_nodes l tx s)
    unfolding insert_nodes
    insert_nodes-NotDeletedBefore [] ids s h = h
    insert_nodes-NotDeletedBefore ((id, labels, row) ∷ l) ids s h =
        insert_nodes-NotDeletedBefore l ids (NodeStore.insert_with_id id labels row tx s)
          (λ i n k e. inserted_deletable id labels row s i n e (h i n k))

    delete_nodes-sees :
        (l : List NodeId) (s : NodeStore N Q)
        → NotDeletedBefore tx l s
        → (j : NodeId) → sees snapshot j (delete_nodes l tx s) ≡ sees snapshot j s
    unfolding delete_nodes contains
    delete_nodes-sees [] s h j = refl
    delete_nodes-sees (id ∷ l) s h j =
        let s' = (NodeStore.soft_delete id tx s).1 in
        delete_nodes-sees l s'
          (λ i n k e. soft_deletable id s i n e (λ m f. h i m (contains-cons id l i k) f)) j
        ∙ delete-sees id s j (λ n e. h id n (contains_head id l) e)

  -- The node writes of a commit are not seen by an earlier snapshot: where the transaction updates no
  -- labels, inserts only at ids of which the snapshot sees nothing, and deletes no node that was
  -- deleted at an earlier ticket than its own, the snapshot sees of every id what it saw.
  pub write_nodes-sees :
      (tx : Transaction) (s : NodeStore N Q) (snapshot : TxId) (j : NodeId)
      → snapshot < tx.tx_id
      → tx.tx_id ≤ max_tx_id
      → tx.node_updates ≡ []
      → ((i : NodeId)
          → contains (inserted_ids tx.node_inserts) i ≡ true
          → sees snapshot i s ≡ false)
      → NotDeletedBefore tx.tx_id tx.node_deletes s
      → sees snapshot j (write_nodes tx s) ≡ sees snapshot j s
  unfolding write_nodes update_nodes
  write_nodes-sees tx s snapshot j before small none_updated unseen deletable =
      let s₁ = insert_nodes tx.node_inserts tx.tx_id s in
      ap (λ l. sees snapshot j (delete_nodes tx.node_deletes tx.tx_id (update_nodes l tx.tx_id s₁)))
        none_updated
      ∙ delete_nodes-sees tx.tx_id snapshot before small tx.node_deletes s₁
          (insert_nodes-NotDeletedBefore tx.tx_id snapshot before small tx.node_inserts
            tx.node_deletes s deletable)
          j
      ∙ insert_nodes-sees tx.tx_id snapshot before small tx.node_inserts s unseen j
