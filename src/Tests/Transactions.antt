-- ===== src/Tests/Transactions.antt =====
-- Transactions and property cells at concrete inputs.
use lightgraph.Base.{
  ℕ, ◌≤◌, ◌≡◌, ◌≢◌, refl, ap, subst, true, false, Option, none, some, List, [], ◌∷◌, arith, Bytes,
  if◌then◌else◌, ◌==◌, contains,
}
use lightgraph.Types.{NodeId}
use lightgraph.Extern.Models.{Assoc, assoc_map, list_queue, key_map}
use lightgraph.Storage.Node
use lightgraph.Storage.Node.{Node}
use lightgraph.Storage.Edge.{Edge}
use lightgraph.Storage.NodeStore.{insert_node, alloc_id, wal_insert, new}
use lightgraph.Storage.NodeStore.Mvcc.{sees}
use lightgraph.Storage.PropStore.{PropStore, ColumnKey, insert_prop, get_prop}
use lightgraph.Storage.PropStore.Column.{Value, PropertyColumn}
use lightgraph.Storage.PropStore.Column
use lightgraph.Storage.PropStore.Cells.{get_prop-insert_prop}
use lightgraph.Transaction.TxManager
use lightgraph.Transaction.TxManager.Spin.{commit_loop-here}
use lightgraph.Transaction.TxManager.{TxManager, Committed, Others, commit_loop}
use lightgraph.Transaction.Database.{
  Database, Transaction, finished, already_finished, commit, drop, memory, write_nodes, after_turn,
}
use lightgraph.Transaction.Database.Commit.{IsSameStores, commit-unfinished, commit_once}
use lightgraph.Transaction.Database.Isolation.{write_nodes-sees}
use lightgraph.Tests.Codec.{node_codec, edge_codec, value_codec}
use lightgraph.Tests.Nodes.{with_two}
use lightgraph.Tests.Wal.{calm}

abbrev Columns : Type 0
Columns = List (ColumnKey × PropertyColumn)

abbrev pub Cells : Type 0
Cells = PropStore Columns (Assoc ℕ)

abbrev cells : Cells
cells = record { columns = []; schemas = ([], tt); wal = none }

abbrev pub name : Bytes
name = 110 ∷ 97 ∷ []

abbrev seven : Option Value
seven = some (Value.int 7)

get_prop-insert_prop_example :
    get_prop 4 name 2 (insert_prop 4 name 2 seven cells).1
    ≡ (if 2 == 2 then seven else get_prop 4 name 2 cells)
get_prop-insert_prop_example = get_prop-insert_prop 4 name 2 2 seven cells

read_back : get_prop 4 name 2 (insert_prop 4 name 2 seven cells).1 ≡ seven
unfolding get_prop insert_prop Column.get Column.set Column.extend_to Column.new
read_back = refl

abbrev this_key : ColumnKey
this_key = (4, name)

abbrev other_key : ColumnKey
other_key = (5, name)

other_key-this_key : other_key ≢ this_key
other_key-this_key e = let n : 5 ≡ 4 = ap (λ (k : ColumnKey). k.0) e in absurd (omega (arith, n))

abbrev Db : Type 0
Db = Database (Assoc Node) (Assoc Edge) (List ℕ) Columns (Assoc ℕ)

abbrev db : Db
db = memory

abbrev alone : Others
alone _ m = m

-- a write transaction with ticket 1 that inserts node 5 and deletes node 1
abbrev writer : Transaction
writer = record {
  tx_id = 7;
  snapshot = 0;
  is_write = true;
  committed = false;
  node_inserts = (5, [], 0) ∷ [];
  node_updates = [];
  node_deletes = 1 ∷ [];
  edge_inserts = [];
  edge_deletes = [];
  prop_writes = [];
}

abbrev done_before : Transaction
done_before = record writer { committed = true }

not_finished : (commit alone (λ _ _. calm) done_before db).0 ≢ finished
unfolding commit
not_finished e = cc e

commit-unfinished_example :
    ((commit alone (λ _ _. calm) done_before db).1 ≡ done_before)
    × IsSameStores db (commit alone (λ _ _. calm) done_before db).2
commit-unfinished_example = commit-unfinished alone (λ _ _. calm) done_before db not_finished

-- the others serve the tickets before 7
abbrev serve : Others
serve _ m = record m { committed_tx_id = 6 }

its_turn : (commit serve (λ _ _. calm) writer db).0 ≡ finished
unfolding commit TxManager.commit after_turn
its_turn =
    ap (λ (r : Committed × TxManager). (after_turn (λ _ _. calm) writer db r).0)
      (commit_loop-here serve 7 100000 0 db.tx_manager refl)

commit_once_example :
    (commit alone (λ _ _. calm) (commit serve (λ _ _. calm) writer db).1 db
      ≡ (already_finished, (commit serve (λ _ _. calm) writer db).1, db))
    × (drop 3 alone (commit serve (λ _ _. calm) writer db).1 db ≡ some db)
commit_once_example =
    commit_once serve alone (λ _ _. calm) (λ _ _. calm) writer db db 3 refl its_turn

unseen_five : (i : NodeId) → contains (5 ∷ []) i ≡ true → sees 4 i with_two ≡ false
unfolding contains insert_node alloc_id wal_insert new Node.new Node.is_alive
unseen_five i h =
    let same : 5 ≡ i = ground arith in subst (λ k. sees 4 k with_two ≡ false) same refl

abbrev IsLate : Option Node → Type 0
IsLate none = Unit
IsLate (some n) = 7 ≤ n.deleted_tx

deletable_one :
    (i : NodeId) (n : Node)
    → contains (1 ∷ []) i ≡ true
    → assoc_map.get with_two.nodes i ≡ some n
    → 7 ≤ n.deleted_tx
unfolding contains insert_node alloc_id wal_insert new Node.new
deletable_one i n h e =
    let same : i ≡ 1 = ground arith in
    let at_one : assoc_map.get with_two.nodes 1 ≡ some n =
      subst (λ k. assoc_map.get with_two.nodes k ≡ some n) same e in
    subst (λ (o : Option Node). IsLate o) at_one (omega arith)

write_nodes-sees_example : sees 4 1 (write_nodes writer with_two) ≡ sees 4 1 with_two
write_nodes-sees_example =
    write_nodes-sees writer with_two 4 1 (omega arith) (omega arith) refl unseen_five deletable_one
