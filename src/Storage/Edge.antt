-- ===== src/Storage/Edge.antt =====
-- `Edge` of src/storage/mod.rs.
use lightgraph.Base.{ℕ, Bool, ltb, leb, ◌&&◌}
use lightgraph.Types.{NodeId, EdgeId, TypeId, TxId, null_edge, max_tx_id}

pub record Edge : Type 0 where
  pub id : EdgeId
  pub src : NodeId
  pub dst : NodeId
  pub etype : TypeId
  pub next_out : EdgeId
  pub next_in : EdgeId
  pub props_row : ℕ
  pub created_tx : TxId
  pub deleted_tx : TxId

unfoldable pub new : EdgeId → NodeId → NodeId → TypeId → ℕ → TxId → Edge
new id src dst etype props_row created_tx = record {
  id = id;
  src = src;
  dst = dst;
  etype = etype;
  next_out = null_edge;
  next_in = null_edge;
  props_row = props_row;
  created_tx = created_tx;
  deleted_tx = max_tx_id;
}

-- visible to a transaction at snapshot `tx`
unfoldable pub is_alive : Edge → TxId → Bool
is_alive e tx = leb e.created_tx tx && ltb tx e.deleted_tx

unfoldable pub mark_deleted : Edge → TxId → Edge
mark_deleted e tx = record e { deleted_tx = tx }
