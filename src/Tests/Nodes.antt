-- ===== src/Tests/Nodes.antt =====
-- The node store at concrete inputs.
use lightgraph.Base.{ℕ, ◌+◌, ◌^◌, ◌<◌, ◌≡◌, refl, List, [], ◌∷◌, arith, option_map}
use lightgraph.Types.{NodeId}
use lightgraph.Extern.Models.{Assoc, assoc_map, list_queue}
use lightgraph.Storage.Node
use lightgraph.Storage.Node.{Node}
use lightgraph.Storage.NodeStore.{
  NodeStore, new, insert_node, hard_delete, soft_delete, update_labels, update_props_row,
  set_first_out, set_first_in, modify, alloc_id, visible_nodes, wal_insert,
}
use lightgraph.Storage.NodeStore.Alloc.{IsValid, Allocated, alloc_id-Allocated}
use lightgraph.Storage.NodeStore.Validity.{
  new-IsValid, Inserted, insert_node-Inserted, set_at, is_some, modify_lem, updates-IsValid,
  hard_delete-IsValid,
}
use lightgraph.Tests.Codec.{node_codec}

abbrev pub Store : Type 0
Store = NodeStore (Assoc Node) (List ℕ)

abbrev pub empty_store : Store
empty_store = new

empty_store-IsValid : IsValid empty_store
empty_store-IsValid = new-IsValid

-- a store with the nodes 0 and 1, of which 1 was deleted at transaction 5
abbrev pub with_zero : Store
with_zero = (insert_node (10 ∷ []) 3 1 empty_store).1

abbrev pub with_two : Store
with_two = (insert_node (11 ∷ 12 ∷ []) 4 2 with_zero).1

abbrev pub some_store : Store
some_store = (soft_delete 1 5 with_two).1

run_visible : visible_nodes 4 some_store ≡ 1 ∷ 0 ∷ []
unfolding visible_nodes insert_node soft_delete modify alloc_id wal_insert new Node.new
    Node.is_alive
run_visible = refl

with_zero-IsValid : IsValid with_zero
with_zero-IsValid =
    (insert_node-Inserted (10 ∷ []) 3 1 empty_store empty_store-IsValid
      (unfold new in omega arith)).valid

small_one : with_zero.next_id + 1 < 2 ^ 64
unfolding insert_node alloc_id new wal_insert
small_one = omega arith

small_two : with_two.next_id + 1 < 2 ^ 64
unfolding insert_node alloc_id new wal_insert
small_two = omega arith

pub with_two-IsValid : IsValid with_two
with_two-IsValid =
    (insert_node-Inserted (11 ∷ 12 ∷ []) 4 2 with_zero with_zero-IsValid small_one).valid

alloc_id-Allocated_example : Allocated with_two (alloc_id with_two).0 (alloc_id with_two).1
alloc_id-Allocated_example = alloc_id-Allocated with_two with_two-IsValid small_two

insert_node-Inserted_example :
    Inserted with_zero
      (insert_node (11 ∷ []) 4 2 with_zero).0
      (Node.new (insert_node (11 ∷ []) 4 2 with_zero).0 (11 ∷ []) 4 2)
      (insert_node (11 ∷ []) 4 2 with_zero).1
insert_node-Inserted_example =
    insert_node-Inserted (11 ∷ []) 4 2 with_zero with_zero-IsValid small_one

abbrev move_row : Node → Node
move_row n = record n { props_row = 9 }

modify_lem_example :
    ((modify 1 move_row with_two).0 ≡ is_some (assoc_map.get with_two.nodes 1))
    × ((j : NodeId)
        → assoc_map.get (modify 1 move_row with_two).1.nodes j
          ≡ set_at 1
              (option_map move_row (assoc_map.get with_two.nodes 1))
              j
              (assoc_map.get with_two.nodes j))
modify_lem_example = modify_lem 1 move_row with_two

updates-IsValid_example :
    IsValid (update_labels 1 (5 ∷ []) 7 with_two).1
    × IsValid (update_props_row 1 8 with_two).1
    × IsValid (set_first_out 1 8 with_two).1
    × IsValid (set_first_in 1 8 with_two).1
    × IsValid (soft_delete 1 7 with_two).1
updates-IsValid_example = updates-IsValid 1 (5 ∷ []) 7 8 with_two with_two-IsValid

hard_delete-IsValid_example : IsValid (hard_delete 0 with_two).1
hard_delete-IsValid_example = hard_delete-IsValid 0 with_two with_two-IsValid
