-- ===== src/Tests/Snapshots.antt =====
-- What snapshots see of a concrete node store.
use lightgraph.Base.{◌≤◌, ◌≡◌, refl, false, some, [], ◌∷◌, arith, if◌then◌else◌, leb, ◌==◌, ◌&&◌}
use lightgraph.Extern.Models.{assoc_map, list_queue}
use lightgraph.Storage.Node
use lightgraph.Storage.Node.{Node}
use lightgraph.Storage.NodeStore.{
  new, insert_node, soft_delete, update_labels, alloc_id, modify, compact, wal_insert,
}
use lightgraph.Storage.NodeStore.Mvcc.{sees, soft_delete-sees, update_labels-hides}
use lightgraph.Storage.NodeStore.Compact.{compact-sees}
use lightgraph.Tests.Codec.{node_codec}
use lightgraph.Tests.Nodes.{some_store, with_two}

abbrev node_one : Node
node_one = Node.new 1 (11 ∷ 12 ∷ []) 4 2

at_one : assoc_map.get with_two.nodes 1 ≡ some node_one
unfolding insert_node alloc_id new wal_insert
at_one = refl

live_one : 5 ≤ node_one.deleted_tx
unfolding Node.new
live_one = omega arith

soft_delete-sees_example :
    sees 6 1 (soft_delete 1 5 with_two).1
    ≡ (if (1 == 1) && leb 5 6 then false else sees 6 1 with_two)
soft_delete-sees_example = soft_delete-sees 1 5 with_two node_one 6 1 at_one live_one

update_labels-hides_example : sees 4 1 (update_labels 1 (7 ∷ []) 9 with_two).1 ≡ false
update_labels-hides_example = update_labels-hides 1 (7 ∷ []) 9 with_two 4 (omega arith)

compact-sees_example : sees 7 0 (compact 6 some_store).1 ≡ sees 7 0 some_store
compact-sees_example = compact-sees 6 some_store 7 0 (omega arith)

abbrev deleted_one : Node
deleted_one = record node_one { deleted_tx = 5 }

deleted_at_one : assoc_map.get some_store.nodes 1 ≡ some deleted_one
unfolding insert_node alloc_id new wal_insert soft_delete modify Node.new
deleted_at_one = refl

early_one : deleted_one.created_tx ≤ 6
unfolding Node.new
early_one = omega arith
