-- ===== src/Storage/NodeStore.antt =====
-- src/storage/node_store.rs: the store of nodes, one operation at a time. Each operation returns the
-- new store, after its result if it has one.
pub mod Validity
pub mod Alloc
pub mod Mvcc
pub mod Compact
pub mod Logged
pub mod Recovery
pub mod History
pub mod Reuse
use mathlib.Core.List.{foldl}
use lightgraph.Base.{
  ℕ, zero, suc, ◌+◌, ◌-◌, ◌%◌, ◌^◌, Bool, true, false, Option, none, some, List, [], ◌∷◌, ltb, ◌==◌,
  if◌then◌else◌, length, Bytes, incr64, decr64, max, option_map,
}
use lightgraph.Types.{NodeId, EdgeId, LabelId, TxId}
use lightgraph.Extern.{DashMap, SegQueue, Bincode}
use lightgraph.Storage.Consistency.{Consistency}
use lightgraph.Storage.Node
use lightgraph.Storage.Node.{Node}
use lightgraph.Storage.WalLog
use lightgraph.Storage.WalLog.{Replayed, done, replay_wal}
use lightgraph.Storage.WalThread
use lightgraph.Storage.WalThread.{WalThread, Env, spawn, send_insert, send_delete, flush_now}

-- How an `open` ends: with a store, with the error of the replay, or in a panic of `spawn`.
pub data Opened (A : Type 0) : Type 0 where
  ok : A → Opened A
  failed : Replayed → Opened A
  panicked : Opened A

pub record NodeStore (M Q : Type 0) : Type 0 where
  pub nodes : M
  pub next_id : ℕ
  pub free_list : Q
  pub free_count : ℕ
  pub total_ever : ℕ
  pub wal : Option WalThread

-- The state of the closure that `open` replays with.
pub record Replay (M Q : Type 0) : Type 0 where
  pub store : NodeStore M Q
  pub max_id : ℕ

abbrev pub send_data : NodeId → Option Bytes → WalThread → WalThread
send_data id none t = t
send_data id (some bytes) t = send_insert id bytes t

-- the ids of the entries that pass a test, in the order of `iter`
abbrev pub ids_where : (Node → Bool) → List (ℕ × Node) → List NodeId
ids_where test [] = []
ids_where test ((id, node) ∷ l) =
    let rest = ids_where test l in if test node then id ∷ rest else rest

abbrev pub count_where : (Node → Bool) → List (ℕ × Node) → ℕ
count_where test [] = 0
count_where test ((_, node) ∷ l) =
    let rest = count_where test l in if test node then suc rest else rest

module _ {M Q : Type 0} ⦃D : DashMap M Node⦄ ⦃S : SegQueue Q⦄ ⦃B : Bincode Node⦄ where
  -- `new` and `with_capacity`
  unfoldable pub new : NodeStore M Q
  new = record {
    nodes = D.empty;
    next_id = 0;
    free_list = S.empty;
    free_count = 0;
    total_ever = 0;
    wal = none;
  }

  -- `nodes.remove(&id)` with the id freed, as the replay and `hard_delete` do it
  unfoldable pub replay_delete : NodeId → NodeStore M Q → NodeStore M Q
  replay_delete id s = elim (D.get s.nodes id) [
    | some _ ↦ record s {
      nodes = D.remove s.nodes id;
      free_list = S.push s.free_list id;
      free_count = incr64 s.free_count;
    }
    | none ↦ s
  ]

  unfoldable pub replay_insert : NodeId → Option Node → Replay M Q → Replay M Q
  replay_insert id none r = r
  replay_insert id (some node) r = record r {
    store = record r.store {
      nodes = D.insert r.store.nodes id node;
      total_ever = incr64 r.store.total_ever;
    };
    max_id = max r.max_id id;
  }

  -- the closure of `open`
  unfoldable pub on_record : Replay M Q → ℕ → NodeId → Bytes → Replay M Q
  unfolding replay_insert replay_delete
  on_record r opcode id payload =
      if opcode == 1
      then replay_insert id (B.deserialize payload) r
      else if opcode == 2
      then record r { store = replay_delete id r.store }
      else r

  abbrev pub replay_start : Replay M Q
  replay_start = record { store = new; max_id = 0 }

  -- the end of the replay: its error, or the store with `next_id` behind the largest id seen
  unfoldable pub finish_replay : Replay M Q × Replayed → Opened (NodeStore M Q)
  finish_replay (r, done) = ok (record r.store { next_id = incr64 r.max_id })
  finish_replay (r, e) = failed e

  unfoldable pub replay_file : Option Bytes → Opened (NodeStore M Q)
  unfolding finish_replay
  replay_file none = ok new
  replay_file (some file) =
      if ltb 4 (length file) then finish_replay (replay_wal on_record file replay_start) else ok new

  unfoldable pub with_wal : Option WalThread → NodeStore M Q → Opened (NodeStore M Q)
  with_wal none s = panicked
  with_wal (some t) s = ok (record s { wal = some t })

  -- `open`; `file` is the content of nodes.wal, if it is there
  unfoldable pub open_store : Option Bytes → Consistency → Opened (NodeStore M Q)
  unfolding replay_file with_wal
  open_store file consistency = elim (replay_file file) [
    | ok s ↦ with_wal (spawn file consistency.durability) s
    | failed e ↦ failed e
    | panicked ↦ panicked
  ]

  -- A node that cannot be serialized is not logged, and nobody is told.
  unfoldable pub wal_insert : NodeId → Node → NodeStore M Q → NodeStore M Q
  wal_insert id node s = record s { wal = option_map (send_data id (B.serialize node)) s.wal }

  unfoldable pub wal_delete : NodeId → NodeStore M Q → NodeStore M Q
  wal_delete id s = record s { wal = option_map (send_delete id) s.wal }

  unfoldable pub alloc_id : NodeStore M Q → NodeId × NodeStore M Q
  alloc_id s = elim (S.pop s.free_list) [
    | some (id, rest) ↦ (id, record s { free_list = rest; free_count = decr64 s.free_count })
    | none ↦ (s.next_id, record s { next_id = incr64 s.next_id })
  ]

  abbrev pub alloc_id_direct : NodeStore M Q → NodeId × NodeStore M Q
  alloc_id_direct = alloc_id

  -- a write to the map, then the record for the log
  abbrev pub put : NodeId → Node → NodeStore M Q → NodeStore M Q
  put id node s = wal_insert id node (record s { nodes = D.insert s.nodes id node })

  unfoldable pub insert_with_id : NodeId → List LabelId → ℕ → TxId → NodeStore M Q → NodeStore M Q
  insert_with_id id labels props_row tx_id s =
      put id (Node.new id labels props_row tx_id) (record s { total_ever = incr64 s.total_ever })

  unfoldable pub insert_node : List LabelId → ℕ → TxId → NodeStore M Q → NodeId × NodeStore M Q
  insert_node labels props_row tx_id s =
      let (id, s') = alloc_id s in
      (
        id,
        put id (Node.new id labels props_row tx_id)
            (record s' { total_ever = incr64 s'.total_ever }),
      )

  -- What the operations that go through `get_mut` share: the node is changed and logged, or the
  -- store has no such node.
  unfoldable pub modify : NodeId → (Node → Node) → NodeStore M Q → Bool × NodeStore M Q
  modify id f s = elim (D.get s.nodes id) [
    | some node ↦ (true, put id (f node) s)
    | none ↦ (false, s)
  ]

  unfoldable pub update_labels : NodeId → List LabelId → TxId → NodeStore M Q → Bool × NodeStore M Q
  unfolding modify
  update_labels id labels tx_id = modify id (λ n. record n { labels = labels; created_tx = tx_id })

  unfoldable pub update_props_row : NodeId → ℕ → NodeStore M Q → Bool × NodeStore M Q
  unfolding modify
  update_props_row id props_row = modify id (λ n. record n { props_row = props_row })

  unfoldable pub set_first_out : NodeId → EdgeId → NodeStore M Q → Bool × NodeStore M Q
  unfolding modify
  set_first_out id edge_id = modify id (λ n. record n { first_out = edge_id })

  unfoldable pub set_first_in : NodeId → EdgeId → NodeStore M Q → Bool × NodeStore M Q
  unfolding modify
  set_first_in id edge_id = modify id (λ n. record n { first_in = edge_id })

  unfoldable pub soft_delete : NodeId → TxId → NodeStore M Q → Bool × NodeStore M Q
  unfolding modify
  soft_delete id tx_id = modify id (λ n. record n { deleted_tx = tx_id })

  unfoldable pub hard_delete : NodeId → NodeStore M Q → Bool × NodeStore M Q
  hard_delete id s =
      let s' = wal_delete id s in
      elim (D.get s'.nodes id) [
        | some _ ↦ (
          true,
          record s' {
            nodes = D.remove s'.nodes id;
            free_list = S.push s'.free_list id;
            free_count = incr64 s'.free_count;
          },
        )
        | none ↦ (false, s')
      ]

  unfoldable pub visible_nodes : TxId → NodeStore M Q → List NodeId
  visible_nodes tx s = ids_where (λ n. Node.is_alive n tx) (D.entries s.nodes)

  unfoldable pub visible_count : TxId → NodeStore M Q → ℕ
  visible_count tx s = count_where (λ n. Node.is_alive n tx) (D.entries s.nodes)

  unfoldable pub len : NodeStore M Q → ℕ
  len s = length (D.entries s.nodes)

  unfoldable pub pending_wal_bytes : NodeStore M Q → ℕ
  pending_wal_bytes s = elim s.wal [ none ↦ 0 | some t ↦ t.pending_bytes ]

  unfoldable pub hard_delete_all : List NodeId → NodeStore M Q → NodeStore M Q
  hard_delete_all [] s = s
  hard_delete_all (id ∷ ids) s = hard_delete_all ids (hard_delete id s).1

  unfoldable pub compact : TxId → NodeStore M Q → ℕ × NodeStore M Q
  compact oldest_active_tx s =
      let to_remove = ids_where (λ n. ltb n.deleted_tx oldest_active_tx) (D.entries s.nodes) in
      (length to_remove, hard_delete_all to_remove s)

  unfoldable pub flush : (ℕ → Env) → NodeStore M Q → NodeStore M Q
  flush env s = record s { wal = option_map (flush_now env) s.wal }
