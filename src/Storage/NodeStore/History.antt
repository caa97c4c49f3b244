-- ===== src/Storage/NodeStore/History.antt =====
-- A store through any sequence of its operations.
use lightgraph.Base.{
  ℕ, ◌^◌, ◌<◌, ◌≡◌, refl, sym, subst, ◌∙◌, true, Option, none, some, List, [], ◌∷◌, inl, inr,
  Option-cases, incr64,
}
use lightgraph.Types.{NodeId, EdgeId, LabelId, TxId}
use lightgraph.Extern.{DashMap, SegQueue, Bincode}
use lightgraph.Storage.Consistency.{Durability, Consistency, batch_bytes, fsync_enabled}
use lightgraph.Storage.Node
use lightgraph.Storage.Node.{Node}
use lightgraph.Storage.WalThread.{Env}
use lightgraph.Storage.WalThread.Image.{IsReliable}
use lightgraph.Storage.NodeStore
use lightgraph.Storage.NodeStore.{
  NodeStore, ok, open_store, modify, put, alloc_id, wal_insert, flush,
}
use lightgraph.Storage.NodeStore.Logged.{
  IsLogged, IsStorable, put-IsLogged, hard_delete-IsLogged, IsLogged-same,
}
use lightgraph.Storage.NodeStore.Recovery.{disk, reopen-flush, open_store-IsLogged}

-- A call of one of the operations that write.
pub data Op : Type 0 where
  insert_node : List LabelId → ℕ → TxId → Op
  insert_with_id : NodeId → List LabelId → ℕ → TxId → Op
  update_labels : NodeId → List LabelId → TxId → Op
  update_props_row : NodeId → ℕ → Op
  set_first_out : NodeId → EdgeId → Op
  set_first_in : NodeId → EdgeId → Op
  soft_delete : NodeId → TxId → Op
  hard_delete : NodeId → Op

module _ ⦃B : Bincode Node⦄ where
  abbrev WritesIf : NodeId → Option Node → (Node → Node) → Type 0
  WritesIf id none f = Unit
  WritesIf id (some n) f = IsStorable id (f n)

pub ok-injective : {A : Type 0} {a b : A} → ok a ≡ ok b → a ≡ b
ok-injective e = cc

module _ {M Q : Type 0} ⦃D : DashMap M Node⦄ ⦃S : SegQueue Q⦄ ⦃B : Bincode Node⦄ where
  unfoldable pub apply_op : Op → NodeStore M Q → NodeStore M Q
  apply_op (insert_node labels row tx) s = (NodeStore.insert_node labels row tx s).1
  apply_op (insert_with_id id labels row tx) s = NodeStore.insert_with_id id labels row tx s
  apply_op (update_labels id labels tx) s = (NodeStore.update_labels id labels tx s).1
  apply_op (update_props_row id row) s = (NodeStore.update_props_row id row s).1
  apply_op (set_first_out id e) s = (NodeStore.set_first_out id e s).1
  apply_op (set_first_in id e) s = (NodeStore.set_first_in id e s).1
  apply_op (soft_delete id tx) s = (NodeStore.soft_delete id tx s).1
  apply_op (hard_delete id) s = (NodeStore.hard_delete id s).1

  unfoldable pub run : List Op → NodeStore M Q → NodeStore M Q
  run [] s = s
  run (op ∷ ops) s = run ops (apply_op op s)

  -- The node that an operation writes, if it writes one, can be logged.
  abbrev pub Storable : Op → NodeStore M Q → Type 0
  Storable (insert_node labels row tx) s =
      IsStorable (alloc_id s).0 (Node.new (alloc_id s).0 labels row tx)
  Storable (insert_with_id id labels row tx) s = IsStorable id (Node.new id labels row tx)
  Storable (update_labels id labels tx) s =
      WritesIf id (D.get s.nodes id) (λ n. record n { labels = labels; created_tx = tx })
  Storable (update_props_row id row) s =
      WritesIf id (D.get s.nodes id) (λ n. record n { props_row = row })
  Storable (set_first_out id e) s = WritesIf id (D.get s.nodes id) (λ n. record n { first_out = e })
  Storable (set_first_in id e) s = WritesIf id (D.get s.nodes id) (λ n. record n { first_in = e })
  Storable (soft_delete id tx) s =
      WritesIf id (D.get s.nodes id) (λ n. record n { deleted_tx = tx })
  Storable (hard_delete id) s = id < 2 ^ 64

  abbrev pub AllStorable : List Op → NodeStore M Q → Type 0
  AllStorable [] s = Unit
  AllStorable (op ∷ ops) s = Storable op s × AllStorable ops (apply_op op s)

  modify-IsLogged :
      {d : Durability} (id : NodeId) (f : Node → Node) (s : NodeStore M Q)
      → WritesIf id (D.get s.nodes id) f
      → IsLogged d s
      → IsLogged d (modify id f s).1
  unfolding modify
  modify-IsLogged id f s st l = elim (Option-cases (D.get s.nodes id)) [
    | inl e ↦ rw (modify, e) l
    | inr (n, e) ↦ rw (modify, e) (put-IsLogged s id (f n) (subst (λ o. WritesIf id o f) e st) l)
  ]

  alloc_id-same :
      (s : NodeStore M Q) → ((alloc_id s).1.nodes ≡ s.nodes) × ((alloc_id s).1.wal ≡ s.wal)
  unfolding alloc_id
  alloc_id-same s = elim (Option-cases (S.pop s.free_list)) [
    | inl e ↦ rw (alloc_id, e) (refl, refl)
    | inr ((a, r), e) ↦ rw (alloc_id, e) (refl, refl)
  ]

  -- Every operation on a logged store leaves a logged store.
  pub apply_op-IsLogged :
      {d : Durability} (op : Op) (s : NodeStore M Q)
      → Storable op s
      → IsLogged d s
      → IsLogged d (apply_op op s)
  unfolding apply_op NodeStore.insert_node NodeStore.insert_with_id NodeStore.update_labels
      NodeStore.update_props_row NodeStore.set_first_out NodeStore.set_first_in
      NodeStore.soft_delete
  apply_op-IsLogged (insert_node labels row tx) s st l =
      let s' = (alloc_id s).1 in
      let same = alloc_id-same s in
      put-IsLogged (record s' { total_ever = incr64 s'.total_ever }) _ _ st
        (IsLogged-same s _ same.0 same.1 l)
  apply_op-IsLogged (insert_with_id id labels row tx) s st l =
      put-IsLogged (record s { total_ever = incr64 s.total_ever }) id _ st
        (IsLogged-same s _ refl refl l)
  apply_op-IsLogged (update_labels id labels tx) s st l = modify-IsLogged id _ s st l
  apply_op-IsLogged (update_props_row id row) s st l = modify-IsLogged id _ s st l
  apply_op-IsLogged (set_first_out id e) s st l = modify-IsLogged id _ s st l
  apply_op-IsLogged (set_first_in id e) s st l = modify-IsLogged id _ s st l
  apply_op-IsLogged (soft_delete id tx) s st l = modify-IsLogged id _ s st l
  apply_op-IsLogged (hard_delete id) s st l = hard_delete-IsLogged id s st l

  run-IsLogged :
      {d : Durability} (ops : List Op) (s : NodeStore M Q)
      → AllStorable ops s
      → IsLogged d s
      → IsLogged d (run ops s)
  unfolding run
  run-IsLogged [] s st l = l
  run-IsLogged (op ∷ ops) s st l =
      run-IsLogged ops (apply_op op s) st.1 (apply_op-IsLogged op s st.0 l)

  -- A store opened on no file with fsync enabled, taken through any operations whose nodes can be
  -- logged and then flushed, where the operating system takes every byte of the flush's writes and
  -- every sync of it succeeds: opening the file that is on disk gives a store that has, under every
  -- id, the node that the first store has. The batch sizes of the levels of both stores are below
  -- 2^62.
  pub recovery :
      (c₀ c : Consistency) (ops : List Op) (env : ℕ → Env) (s : NodeStore M Q)
      → batch_bytes c₀.durability < 2 ^ 62
      → batch_bytes c.durability < 2 ^ 62
      → fsync_enabled c₀.durability ≡ true
      → open_store none c₀ ≡ ok s
      → AllStorable ops s
      → ((i : ℕ) → IsReliable (env i).io)
      → (s' : NodeStore M Q) × (open_store (disk (flush env (run ops s))) c ≡ ok s')
        × ((i : NodeId) → D.get s'.nodes i ≡ D.get (run ops s).nodes i)
  recovery c₀ c ops env s small₀ small synced opened storable reliable =
      let (s₀, e, l, empty) = open_store-IsLogged c₀ small₀ in
      let same : s₀ ≡ s = ok-injective (sym e ∙ opened) in
      reopen-flush env (run ops s) c
        (run-IsLogged ops s storable (subst (λ x. IsLogged c₀.durability x) same l)) reliable synced
        small
