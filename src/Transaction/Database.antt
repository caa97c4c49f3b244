-- ===== src/Transaction/Database.antt =====
-- src/transaction/mod.rs: the database handle, and transactions with their buffered writes. The stores
-- that a transaction shares with its database are passed along with it.
pub mod Commit
pub mod Isolation
use lightgraph.Base.{
  ℕ, zero, suc, Bool, true, false, not, ◌&&◌, Option, none, some, List, [], ◌∷◌, ◌++◌, Bytes,
  if◌then◌else◌, option_map,
}
use lightgraph.Types.{NodeId, EdgeId, LabelId, TxId}
use lightgraph.Extern.{DashMap, SegQueue, KeyMap, Bincode}
use lightgraph.Storage.Consistency.{Consistency}
use lightgraph.Storage.Node
use lightgraph.Storage.Node.{Node}
use lightgraph.Storage.Edge
use lightgraph.Storage.Edge.{Edge}
use lightgraph.Storage.WalThread.{Env}
use lightgraph.Storage.NodeStore
use lightgraph.Storage.NodeStore.{NodeStore, Opened, ok, failed, panicked}
use lightgraph.Storage.EdgeStore
use lightgraph.Storage.EdgeStore.{EdgeStore}
use lightgraph.Storage.PropStore
use lightgraph.Storage.PropStore.{PropStore, ColumnKey}
use lightgraph.Storage.PropStore.Column.{Value, PropertyColumn}
use lightgraph.Transaction.TxManager
use lightgraph.Transaction.TxManager.{TxManager, Others, Committed, timeout}

pub record Database (N E Q P L : Type 0) : Type 0 where
  pub tx_manager : TxManager
  pub nodes : NodeStore N Q
  pub edges : EdgeStore E Q
  pub props : PropStore P L

pub record Transaction : Type 0 where
  pub tx_id : TxId
  pub snapshot : TxId
  pub is_write : Bool
  pub committed : Bool
  pub node_inserts : List (NodeId × List LabelId × ℕ)
  pub node_updates : List (NodeId × List LabelId)
  pub node_deletes : List NodeId
  pub edge_inserts : List (EdgeId × NodeId × NodeId × LabelId × ℕ)
  pub edge_deletes : List EdgeId
  pub prop_writes : List (LabelId × Bytes × ℕ × Option Value)

unfoldable pub new : TxId → TxId → Bool → Transaction
new tx_id snapshot is_write = record {
  tx_id = tx_id;
  snapshot = snapshot;
  is_write = is_write;
  committed = false;
  node_inserts = [];
  node_updates = [];
  node_deletes = [];
  edge_inserts = [];
  edge_deletes = [];
  prop_writes = [];
}

-- How `commit` returns.
pub data Outcome : Type 0 where
  finished timed_out already_finished : Outcome

unfoldable pub update_node_labels : NodeId → List LabelId → Transaction → Transaction
update_node_labels id labels tx = record tx { node_updates = tx.node_updates ++ (id, labels) ∷ [] }

unfoldable pub delete_node : NodeId → Transaction → Transaction
delete_node id tx = record tx { node_deletes = tx.node_deletes ++ id ∷ [] }

unfoldable pub delete_edge : EdgeId → Transaction → Transaction
delete_edge id tx = record tx { edge_deletes = tx.edge_deletes ++ id ∷ [] }

unfoldable pub set_prop : LabelId → Bytes → ℕ → Option Value → Transaction → Transaction
set_prop label prop row value tx = record tx {
  prop_writes = tx.prop_writes ++ (label, prop, row, value) ∷ [];
}

module _ {N Q : Type 0} ⦃DN : DashMap N Node⦄ ⦃S : SegQueue Q⦄ ⦃BN : Bincode Node⦄ where
  unfoldable pub create_node :
      List LabelId → ℕ → Transaction → NodeStore N Q → NodeId × Transaction × NodeStore N Q
  create_node labels props_row tx s =
      let (id, s') = NodeStore.alloc_id_direct s in
      (id, record tx { node_inserts = tx.node_inserts ++ (id, labels, props_row) ∷ [] }, s')

  unfoldable pub get_node : NodeId → Transaction → NodeStore N Q → Option Node
  get_node id tx s = elim (DN.get s.nodes id) [
    | none ↦ none
    | some n ↦ if Node.is_alive n tx.snapshot then some n else none
  ]

  -- the loops of the second phase of `commit`
  unfoldable pub insert_nodes :
      List (NodeId × List LabelId × ℕ) → TxId → NodeStore N Q → NodeStore N Q
  insert_nodes [] tx_id s = s
  insert_nodes ((id, labels, props_row) ∷ l) tx_id s =
      insert_nodes l tx_id (NodeStore.insert_with_id id labels props_row tx_id s)

  unfoldable pub update_nodes : List (NodeId × List LabelId) → TxId → NodeStore N Q → NodeStore N Q
  update_nodes [] tx_id s = s
  update_nodes ((id, labels) ∷ l) tx_id s =
      update_nodes l tx_id (NodeStore.update_labels id labels tx_id s).1

  unfoldable pub delete_nodes : List NodeId → TxId → NodeStore N Q → NodeStore N Q
  delete_nodes [] tx_id s = s
  delete_nodes (id ∷ l) tx_id s = delete_nodes l tx_id (NodeStore.soft_delete id tx_id s).1

  unfoldable pub write_nodes : Transaction → NodeStore N Q → NodeStore N Q
  write_nodes tx s =
      delete_nodes tx.node_deletes tx.tx_id
        (update_nodes tx.node_updates tx.tx_id (insert_nodes tx.node_inserts tx.tx_id s))

module _ {E Q : Type 0} ⦃DE : DashMap E Edge⦄ ⦃S : SegQueue Q⦄ ⦃BE : Bincode Edge⦄ where
  unfoldable pub create_edge :
      NodeId
      → NodeId
      → LabelId
      → ℕ
      → Transaction
      → EdgeStore E Q
      → EdgeId × Transaction × EdgeStore E Q
  create_edge src dst etype props_row tx s =
      let (id, s') = EdgeStore.alloc_id_direct s in
      (
        id,
        record tx { edge_inserts = tx.edge_inserts ++ (id, src, dst, etype, props_row) ∷ [] },
        s',
      )

  unfoldable pub get_edge : EdgeId → Transaction → EdgeStore E Q → Option Edge
  get_edge id tx s = elim (DE.get s.edges id) [
    | none ↦ none
    | some e ↦ if Edge.is_alive e tx.snapshot then some e else none
  ]

  unfoldable pub insert_edges :
      List (EdgeId × NodeId × NodeId × LabelId × ℕ) → TxId → EdgeStore E Q → EdgeStore E Q
  insert_edges [] tx_id s = s
  insert_edges ((id, src, dst, etype, props_row) ∷ l) tx_id s =
      insert_edges l tx_id (EdgeStore.insert_with_id id src dst etype props_row tx_id s)

  unfoldable pub delete_edges : List EdgeId → TxId → EdgeStore E Q → EdgeStore E Q
  delete_edges [] tx_id s = s
  delete_edges (id ∷ l) tx_id s = delete_edges l tx_id (EdgeStore.soft_delete id tx_id s).1

  unfoldable pub write_edges : Transaction → EdgeStore E Q → EdgeStore E Q
  write_edges tx s = delete_edges tx.edge_deletes tx.tx_id (insert_edges tx.edge_inserts tx.tx_id s)

module _ {P L : Type 0} ⦃DP : KeyMap P ColumnKey PropertyColumn⦄ ⦃DL : DashMap L ℕ⦄
    ⦃BV : Bincode (Option Value)⦄ where
  unfoldable pub write_props :
      List (LabelId × Bytes × ℕ × Option Value) → PropStore P L → PropStore P L
  write_props [] s = s
  write_props ((label, prop, row, value) ∷ l) s =
      write_props l (PropStore.insert_prop label prop row value s).1

module _ {N E Q P L : Type 0} ⦃DN : DashMap N Node⦄ ⦃DE : DashMap E Edge⦄ ⦃S : SegQueue Q⦄
    ⦃DP : KeyMap P ColumnKey PropertyColumn⦄ ⦃DL : DashMap L ℕ⦄ ⦃BN : Bincode Node⦄
    ⦃BE : Bincode Edge⦄ ⦃BV : Bincode (Option Value)⦄ where
  unfoldable pub memory : Database N E Q P L
  memory = record {
    tx_manager = TxManager.new;
    nodes = NodeStore.new;
    edges = EdgeStore.new;
    props = PropStore.new;
  }

  -- `open`, with the contents of the three files
  unfoldable pub open_database :
      (Bytes → Bytes)
      → Option Bytes
      → Option Bytes
      → Option Bytes
      → Consistency
      → Opened (Database N E Q P L)
  open_database lossy node_file edge_file prop_file consistency =
      elim (NodeStore.open_store node_file consistency) [
        | failed e ↦ failed e
        | panicked ↦ panicked
        | ok n ↦ elim (EdgeStore.open_store edge_file consistency) [
          | failed e ↦ failed e
          | panicked ↦ panicked
          | ok e ↦ elim (PropStore.open_store lossy prop_file consistency) [
            | failed e ↦ failed e
            | panicked ↦ panicked
            | ok p ↦ ok (record { tx_manager = TxManager.new; nodes = n; edges = e; props = p })
          ]
        ]
      ]

  unfoldable pub begin_read : Database N E Q P L → Transaction
  begin_read db = new 0 (TxManager.begin_read db.tx_manager) false

  unfoldable pub begin_write : Database N E Q P L → Transaction × Database N E Q P L
  begin_write db =
      let (tx_id, m) = TxManager.begin_write db.tx_manager in
      (new tx_id (TxManager.latest_committed m) true, record db { tx_manager = m })

  -- the second phase of `commit`, and the third, in which the stores are flushed
  unfoldable pub apply_writes :
      (ℕ → ℕ → Env) → Transaction → Database N E Q P L → Database N E Q P L
  apply_writes env tx db = record db {
    nodes = NodeStore.flush (env 0) (write_nodes tx db.nodes);
    edges = EdgeStore.flush (env 1) (write_edges tx db.edges);
    props = PropStore.flush (env 2) (write_props tx.prop_writes db.props);
  }

  unfoldable pub after_turn :
      (ℕ → ℕ → Env)
      → Transaction
      → Database N E Q P L
      → Committed × TxManager
      → Outcome × Transaction × Database N E Q P L
  after_turn env tx db (timeout, m) = (timed_out, tx, record db { tx_manager = m })
  after_turn env tx db (TxManager.ok, m) =
      (finished, record tx { committed = true }, apply_writes env tx (record db { tx_manager = m }))

  -- `others` is what the other threads do to the manager, and `env i` answers the flush of store `i`.
  unfoldable pub commit :
      Others
      → (ℕ → ℕ → Env)
      → Transaction
      → Database N E Q P L
      → Outcome × Transaction × Database N E Q P L
  unfolding after_turn
  commit others env tx db = elim tx.is_write [
    | false ↦ (finished, tx, db)
    | true ↦ elim tx.committed [
      | true ↦ (already_finished, tx, db)
      | false ↦ after_turn env tx db (TxManager.commit others tx.tx_id db.tx_manager)
    ]
  ]

  -- `none` where the ticket's turn has not come after `fuel` rounds
  unfoldable pub rollback :
      ℕ → Others → Transaction → Database N E Q P L → Option (Transaction × Database N E Q P L)
  rollback fuel others tx db = elim tx.is_write [
    | false ↦ some (tx, db)
    | true ↦
        option_map
          (λ (m : TxManager). (record tx { committed = true }, record db { tx_manager = m }))
          (TxManager.rollback fuel 0 others tx.tx_id db.tx_manager)
  ]

  unfoldable pub drop : ℕ → Others → Transaction → Database N E Q P L → Option (Database N E Q P L)
  drop fuel others tx db = elim (tx.is_write && not tx.committed) [
    | false ↦ some db
    | true ↦
        option_map (λ (m : TxManager). record db { tx_manager = m })
          (TxManager.rollback fuel 0 others tx.tx_id db.tx_manager)
  ]
