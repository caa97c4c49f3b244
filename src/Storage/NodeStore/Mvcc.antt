-- ===== src/Storage/NodeStore/Mvcc.antt =====
-- Which nodes a snapshot sees, and what the updates do to that.
use lightgraph.Base.{
  ℕ, ◌≤◌, ◌<◌, ◌≡◌, refl, ap, sym, ◌∙◌, Bool, true, false, Option, none, some, List, [], ◌∷◌, arith,
  leb, ◌==◌, ◌&&◌, if◌then◌else◌, length, contains, IsDistinct,
}
use lightgraph.Types.{NodeId, LabelId, TxId}
use lightgraph.Extern.{DashMap, SegQueue, Bincode, lookup, keys}
use lightgraph.Storage.Node
use lightgraph.Storage.Node.{Node}
use lightgraph.Storage.NodeStore.{
  NodeStore, ids_where, count_where, visible_nodes, visible_count, update_labels, soft_delete,
}
use lightgraph.Storage.NodeStore.Validity.{modify_lem}

-- The test, at the node of a lookup if it finds one.
abbrev pub passes : (Node → Bool) → Option Node → Bool
passes test none = false
passes test (some n) = test n

absent :
    (test : Node → Bool) (l : List (ℕ × Node)) (i : ℕ)
    → contains (keys l) i ≡ false
    → contains (ids_where test l) i ≡ false
unfolding contains
absent test [] i h = refl
absent test ((k, n) ∷ l) i h = ground (arith, absent test l i)

-- The ids that pass a test are those whose entry passes it.
pub contains-ids_where :
    (test : Node → Bool) (l : List (ℕ × Node)) (i : ℕ)
    → IsDistinct (keys l)
    → contains (ids_where test l) i ≡ passes test (lookup i l)
unfolding contains
contains-ids_where test [] i d = refl
contains-ids_where test ((k, n) ∷ l) i d =
    ground (arith, contains-ids_where test l i d.1, absent test l i)

pub length-ids_where :
    (test : Node → Bool) (l : List (ℕ × Node)) → length (ids_where test l) ≡ count_where test l
length-ids_where test [] = refl
length-ids_where test ((k, n) ∷ l) = ground (arith, length-ids_where test l)

pub ids_where-IsDistinct :
    (test : Node → Bool) (l : List (ℕ × Node)) → IsDistinct (keys l) → IsDistinct (ids_where test l)
ids_where-IsDistinct test [] d = tt
ids_where-IsDistinct test ((k, n) ∷ l) d =
    ground (arith, absent test l k, ids_where-IsDistinct test l d.1)

module _ {M Q : Type 0} ⦃D : DashMap M Node⦄ ⦃S : SegQueue Q⦄ ⦃B : Bincode Node⦄ where
  -- `visible_nodes` lists exactly the ids whose node is alive at the snapshot, each of them once, and
  -- `visible_count` is their number.
  visible_nodes_lem :
      (tx : TxId) (s : NodeStore M Q)
      → ((i : NodeId)
          → contains (visible_nodes tx s) i ≡ passes (λ n. Node.is_alive n tx) (D.get s.nodes i))
        × IsDistinct (visible_nodes tx s)
        × (visible_count tx s ≡ length (visible_nodes tx s))
  unfolding visible_nodes visible_count
  visible_nodes_lem tx s =
      let test : Node → Bool = λ n. Node.is_alive n tx in
      let l = D.entries s.nodes in
      (
        λ i.
            contains-ids_where test l i (D.entries-IsDistinct s.nodes)
            ∙ ap (passes test) (D.lookup-entries s.nodes i),
        ids_where-IsDistinct test l (D.entries-IsDistinct s.nodes),
        sym (length-ids_where test l),
      )

  -- What a snapshot sees of an id.
  abbrev pub sees : TxId → NodeId → NodeStore M Q → Bool
  sees tx i s = passes (λ n. Node.is_alive n tx) (D.get s.nodes i)

  -- Deleting at `tx` a node that is not deleted before `tx` hides it from the snapshots from `tx` on;
  -- every earlier snapshot sees of it what it saw, and every snapshot sees of the other nodes what it
  -- saw.
  pub soft_delete-sees :
      (id : NodeId) (tx : TxId) (s : NodeStore M Q) (n : Node) (snapshot : TxId) (j : NodeId)
      → D.get s.nodes id ≡ some n
      → tx ≤ n.deleted_tx
      → sees snapshot j (soft_delete id tx s).1
        ≡ (if (id == j) && leb tx snapshot then false else sees snapshot j s)
  unfolding soft_delete Node.is_alive
  soft_delete-sees id tx s n snapshot j e live =
      ground (arith, (modify_lem id (λ m. record m { deleted_tx = tx }) s).1 j, e)

  -- New labels at `tx` replace the node in place: a snapshot before `tx` that saw it sees it no more.
  pub update_labels-hides :
      (id : NodeId) (labels : List LabelId) (tx : TxId) (s : NodeStore M Q) (snapshot : TxId)
      → snapshot < tx
      → sees snapshot id (update_labels id labels tx s).1 ≡ false
  unfolding update_labels Node.is_alive
  update_labels-hides id labels tx s snapshot h =
      ground (arith, (modify_lem id (λ m. record m { labels = labels; created_tx = tx }) s).1 id)

  -- Deleting at `tx` a node that was deleted at an earlier transaction brings it back for the
  -- snapshots between the two that its creation comes before: they did not see it, and now they do.
  soft_delete-revives :
      (id : NodeId) (tx : TxId) (s : NodeStore M Q) (n : Node) (snapshot : TxId)
      → D.get s.nodes id ≡ some n
      → n.created_tx ≤ snapshot
      → n.deleted_tx ≤ snapshot
      → snapshot < tx
      → (sees snapshot id s ≡ false) × (sees snapshot id (soft_delete id tx s).1 ≡ true)
  unfolding soft_delete Node.is_alive
  soft_delete-revives id tx s n snapshot e c d h = (
    ground (arith, e),
    ground (arith, (modify_lem id (λ m. record m { deleted_tx = tx }) s).1 id, e),
  )
