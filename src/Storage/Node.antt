-- ===== src/Storage/Node.antt =====
-- `Node` of src/storage/mod.rs.
use lightgraph.Base.{ℕ, Bool, List, ltb, leb, ◌&&◌}
use lightgraph.Types.{NodeId, EdgeId, LabelId, TxId, null_edge, max_tx_id}

pub record Node : Type 0 where
  pub id : NodeId
  pub labels : List LabelId
  pub first_out : EdgeId
  pub first_in : EdgeId
  pub props_row : ℕ
  pub created_tx : TxId
  pub deleted_tx : TxId

unfoldable pub new : NodeId → List LabelId → ℕ → TxId → Node
new id labels props_row created_tx = record {
  id = id;
  labels = labels;
  first_out = null_edge;
  first_in = null_edge;
  props_row = props_row;
  created_tx = created_tx;
  deleted_tx = max_tx_id;
}

-- visible to a transaction at snapshot `tx`
unfoldable pub is_alive : Node → TxId → Bool
is_alive n tx = leb n.created_tx tx && ltb tx n.deleted_tx

unfoldable pub mark_deleted : Node → TxId → Node
mark_deleted n tx = record n { deleted_tx = tx }
