-- ===== src/Storage/NodeStore/Compact.antt =====
-- Compaction: what `compact` removes, and that no snapshot in use can tell.
use lightgraph.Base.{
  ◌≤◌, ◌≡◌, refl, ap, ◌∙◌, Bool, none, List, [], ◌∷◌, arith, ltb, if◌then◌else◌, contains,
}
use lightgraph.Types.{NodeId, TxId}
use lightgraph.Extern.{DashMap, SegQueue, Bincode}
use lightgraph.Storage.Node
use lightgraph.Storage.Node.{Node}
use lightgraph.Storage.NodeStore.{NodeStore, ids_where, hard_delete, hard_delete_all, compact}
use lightgraph.Storage.NodeStore.Alloc.{IsValid}
use lightgraph.Storage.NodeStore.Validity.{hard_delete_lem, hard_delete-IsValid}
use lightgraph.Storage.NodeStore.Mvcc.{passes, contains-ids_where, sees}

module _ {M Q : Type 0} ⦃D : DashMap M Node⦄ ⦃S : SegQueue Q⦄ ⦃B : Bincode Node⦄ where
  get-hard_delete_all :
      (ids : List NodeId) (s : NodeStore M Q) (j : NodeId)
      → D.get (hard_delete_all ids s).nodes j ≡ (if contains ids j then none else D.get s.nodes j)
  unfolding hard_delete_all contains
  get-hard_delete_all [] s j = refl
  get-hard_delete_all (id ∷ ids) s j =
      ground (arith, get-hard_delete_all ids (hard_delete id s).1 j, (hard_delete_lem id s).1 j)

  hard_delete_all-IsValid :
      (ids : List NodeId) (s : NodeStore M Q) → IsValid s → IsValid (hard_delete_all ids s)
  unfolding hard_delete_all
  hard_delete_all-IsValid [] s v = v
  hard_delete_all-IsValid (id ∷ ids) s v =
      hard_delete_all-IsValid ids (hard_delete id s).1 (hard_delete-IsValid id s v)

  -- `compact` removes exactly the nodes that were deleted before the oldest active transaction, and
  -- leaves every other node as it was.
  get-compact :
      (oldest : TxId) (s : NodeStore M Q) (j : NodeId)
      → D.get (compact oldest s).1.nodes j ≡ (
          if passes (λ n. ltb n.deleted_tx oldest) (D.get s.nodes j) then none else D.get s.nodes j)
  unfolding compact
  get-compact oldest s j =
      let test : Node → Bool = λ n. ltb n.deleted_tx oldest in
      get-hard_delete_all (ids_where test (D.entries s.nodes)) s j
      ∙ ap (λ (b : Bool). if b then none else D.get s.nodes j)
          (contains-ids_where test (D.entries s.nodes) j (D.entries-IsDistinct s.nodes)
            ∙ ap (passes test) (D.lookup-entries s.nodes j))

  -- `compact` keeps a valid store valid.
  compact-IsValid : (oldest : TxId) (s : NodeStore M Q) → IsValid s → IsValid (compact oldest s).1
  unfolding compact
  compact-IsValid oldest s v = hard_delete_all-IsValid _ s v

  -- Every snapshot from the oldest active transaction on sees the same nodes after `compact` as before.
  pub compact-sees :
      (oldest : TxId) (s : NodeStore M Q) (snapshot : TxId) (j : NodeId)
      → oldest ≤ snapshot
      → sees snapshot j (compact oldest s).1 ≡ sees snapshot j s
  unfolding Node.is_alive
  compact-sees oldest s snapshot j h = ground (arith, get-compact oldest s j)
