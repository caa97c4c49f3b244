-- ===== src/Storage/EdgeStore.antt =====
-- src/storage/edge_store.rs: the store of edges and the chains that link them. Loops that follow a
-- chain take fuel, and give `none` when it runs out: a cyclic chain is followed for ever.
pub mod Chain
pub mod Link
pub mod Search
pub mod Unlink
pub mod Validity
pub mod Operations
use lightgraph.Base.{
  ℕ, zero, suc, ◌+◌, ◌-◌, ◌%◌, ◌^◌, Bool, true, false, Option, none, some, List, [], ◌∷◌, ltb, ◌==◌,
  if◌then◌else◌, length, Bytes, incr64, decr64, max, option_map,
}
use lightgraph.Types.{NodeId, EdgeId, TypeId, TxId, null_edge}
use lightgraph.Extern.{DashMap, SegQueue, Bincode}
use lightgraph.Storage.Consistency.{Consistency}
use lightgraph.Storage.Edge
use lightgraph.Storage.Edge.{Edge}
use lightgraph.Storage.WalLog.{Replayed, done, replay_wal}
use lightgraph.Storage.WalThread.{WalThread, Env, spawn, send_insert, send_delete, flush_now}
use lightgraph.Storage.NodeStore.{Opened, ok, failed, panicked, send_data}

pub record EdgeStore (M Q : Type 0) : Type 0 where
  pub edges : M
  pub next_id : ℕ
  pub free_list : Q
  pub free_count : ℕ
  pub wal : Option WalThread

-- The state of the closure that `open` replays with.
pub record Replay (M Q : Type 0) : Type 0 where
  pub store : EdgeStore M Q
  pub max_id : ℕ

-- The two chain heads that `link_into_chains` and `unlink_from_chains` are handed by reference.
pub record Heads : Type 0 where
  pub src_first_out : EdgeId
  pub dst_first_in : EdgeId

module _ {M Q : Type 0} ⦃D : DashMap M Edge⦄ ⦃S : SegQueue Q⦄ ⦃B : Bincode Edge⦄ where
  -- `new` and `with_capacity`
  unfoldable pub new : EdgeStore M Q
  new = record { edges = D.empty; next_id = 0; free_list = S.empty; free_count = 0; wal = none }

  unfoldable pub replay_delete : EdgeId → EdgeStore M Q → EdgeStore M Q
  replay_delete id s = elim (D.get s.edges id) [
    | some _ ↦ record s {
      edges = D.remove s.edges id;
      free_list = S.push s.free_list id;
      free_count = incr64 s.free_count;
    }
    | none ↦ s
  ]

  unfoldable pub replay_insert : EdgeId → Option Edge → Replay M Q → Replay M Q
  replay_insert id none r = r
  replay_insert id (some edge) r = record r {
    store = record r.store { edges = D.insert r.store.edges id edge };
    max_id = max r.max_id id;
  }

  -- the closure of `open`
  unfoldable pub on_record : Replay M Q → ℕ → EdgeId → Bytes → Replay M Q
  unfolding replay_insert replay_delete
  on_record r opcode id payload =
      if opcode == 1
      then replay_insert id (B.deserialize payload) r
      else if opcode == 2
      then record r { store = replay_delete id r.store }
      else r

  unfoldable pub finish_replay : Replay M Q × Replayed → Opened (EdgeStore M Q)
  finish_replay (r, done) = ok (record r.store { next_id = incr64 r.max_id })
  finish_replay (r, e) = failed e

  unfoldable pub replay_file : Option Bytes → Opened (EdgeStore M Q)
  unfolding finish_replay
  replay_file none = ok new
  replay_file (some file) =
      if ltb 4 (length file)
      then finish_replay (replay_wal on_record file (record { store = new; max_id = 0 }))
      else ok new

  unfoldable pub with_wal : Option WalThread → EdgeStore M Q → Opened (EdgeStore M Q)
  with_wal none s = panicked
  with_wal (some t) s = ok (record s { wal = some t })

  -- `open`; `file` is the content of edges.wal, if it is there
  unfoldable pub open_store : Option Bytes → Consistency → Opened (EdgeStore M Q)
  unfolding replay_file with_wal
  open_store file consistency = elim (replay_file file) [
    | ok s ↦ with_wal (spawn file consistency.durability) s
    | failed e ↦ failed e
    | panicked ↦ panicked
  ]

  unfoldable pub wal_insert : EdgeId → Edge → EdgeStore M Q → EdgeStore M Q
  wal_insert id edge s = record s { wal = option_map (send_data id (B.serialize edge)) s.wal }

  unfoldable pub wal_delete : EdgeId → EdgeStore M Q → EdgeStore M Q
  wal_delete id s = record s { wal = option_map (send_delete id) s.wal }

  unfoldable pub alloc_id : EdgeStore M Q → EdgeId × EdgeStore M Q
  alloc_id s = elim (S.pop s.free_list) [
    | some (id, rest) ↦ (id, record s { free_list = rest; free_count = decr64 s.free_count })
    | none ↦ (s.next_id, record s { next_id = incr64 s.next_id })
  ]

  abbrev pub alloc_id_direct : EdgeStore M Q → EdgeId × EdgeStore M Q
  alloc_id_direct = alloc_id

  -- a write to the map, with nothing logged
  abbrev pub write : EdgeId → Edge → EdgeStore M Q → EdgeStore M Q
  write id edge s = record s { edges = D.insert s.edges id edge }

  unfoldable pub insert_with_id :
      EdgeId → NodeId → NodeId → TypeId → ℕ → TxId → EdgeStore M Q → EdgeStore M Q
  insert_with_id id src dst etype props_row tx_id s =
      let edge = Edge.new id src dst etype props_row tx_id in wal_insert id edge (write id edge s)

  unfoldable pub insert_edge :
      NodeId → NodeId → TypeId → ℕ → TxId → EdgeStore M Q → EdgeId × EdgeStore M Q
  insert_edge src dst etype props_row tx_id s =
      let (id, s') = alloc_id s in
      let edge = Edge.new id src dst etype props_row tx_id in
      (id, wal_insert id edge (write id edge s'))

  -- `if let Some(mut e) = self.edges.get_mut(&id) { … }`
  unfoldable pub update : EdgeId → (Edge → Edge) → EdgeStore M Q → EdgeStore M Q
  update id f s = elim (D.get s.edges id) [ some e ↦ write id (f e) s | none ↦ s ]

  -- `if let Some(e) = self.edges.get(&id) { self.wal_insert(id, &e); }`
  unfoldable pub persist : EdgeId → EdgeStore M Q → EdgeStore M Q
  persist id s = elim (D.get s.edges id) [ some e ↦ wal_insert id e s | none ↦ s ]

  unfoldable pub link_into_chains : EdgeId → Heads → EdgeStore M Q → Heads × EdgeStore M Q
  link_into_chains new_edge heads s =
      let s₁ = update new_edge (λ e. record e { next_out = heads.src_first_out }) s in
      let s₂ = update new_edge (λ e. record e { next_in = heads.dst_first_in }) s₁ in
      (record { src_first_out = new_edge; dst_first_in = new_edge }, persist new_edge s₂)

  -- The loop of `unlink_from_chains` over the out chain: the predecessor of the edge, if the chain
  -- has it, is given the edge's successor.
  unfoldable pub unlink_out :
      ℕ → EdgeId → EdgeId → EdgeId → EdgeStore M Q → Option (Option EdgeId × EdgeStore M Q)
  unlink_out zero edge_id next cur s = none
  unlink_out (suc fuel) edge_id next cur s = elim (cur == null_edge) [
    | true ↦ some (none, s)
    | false ↦ elim (D.get s.edges cur) [
      | none ↦ some (none, s)
      | some e ↦ elim (e.next_out == edge_id) [
        | true ↦ some (some cur, write cur (record e { next_out = next }) s)
        | false ↦ unlink_out fuel edge_id next e.next_out s
      ]
    ]
  ]

  -- The same loop over the in chain.
  unfoldable pub unlink_in :
      ℕ → EdgeId → EdgeId → EdgeId → EdgeStore M Q → Option (Option EdgeId × EdgeStore M Q)
  unlink_in zero edge_id next cur s = none
  unlink_in (suc fuel) edge_id next cur s = elim (cur == null_edge) [
    | true ↦ some (none, s)
    | false ↦ elim (D.get s.edges cur) [
      | none ↦ some (none, s)
      | some e ↦ elim (e.next_in == edge_id) [
        | true ↦ some (some cur, write cur (record e { next_in = next }) s)
        | false ↦ unlink_in fuel edge_id next e.next_in s
      ]
    ]
  ]

  -- One half of `unlink_from_chains`: the head moves on if it is the edge, and otherwise the loop runs.
  abbrev pub unlink_half :
      (ℕ → EdgeId → EdgeId → EdgeId → EdgeStore M Q → Option (Option EdgeId × EdgeStore M Q))
      → ℕ
      → EdgeId
      → EdgeId
      → EdgeId
      → EdgeStore M Q
      → Option (EdgeId × Option EdgeId × EdgeStore M Q)
  unlink_half loop fuel edge_id next head s = elim (head == edge_id) [
    | true ↦ some (next, none, s)
    | false ↦ option_map (λ (pred, s'). (head, pred, s')) (loop fuel edge_id next head s)
  ]

  unfoldable pub persist_pred : Option EdgeId → EdgeStore M Q → EdgeStore M Q
  unfolding persist
  persist_pred none s = s
  persist_pred (some id) s = persist id s

  unfoldable pub unlink_from_chains :
      ℕ → EdgeId → Heads → EdgeStore M Q → Option (Bool × Heads × EdgeStore M Q)
  unlink_from_chains fuel edge_id heads s = elim (D.get s.edges edge_id) [
    | none ↦ some (false, heads, s)
    | some edge ↦ elim (unlink_half unlink_out fuel edge_id edge.next_out heads.src_first_out s) [
      | none ↦ none
      | some (out', src_pred, s₁) ↦
          elim (unlink_half unlink_in fuel edge_id edge.next_in heads.dst_first_in s₁) [
            | none ↦ none
            | some (in', dst_pred, s₂) ↦ some (
              true,
              record { src_first_out = out'; dst_first_in = in' },
              persist_pred dst_pred (persist_pred src_pred s₂),
            )
          ]
    ]
  ]

  unfoldable pub soft_delete : EdgeId → TxId → EdgeStore M Q → Bool × EdgeStore M Q
  soft_delete id tx_id s = elim (D.get s.edges id) [
    | some e ↦ let e' = record e { deleted_tx = tx_id } in (true, wal_insert id e' (write id e' s))
    | none ↦ (false, s)
  ]

  unfoldable pub hard_delete : EdgeId → EdgeStore M Q → Bool × EdgeStore M Q
  hard_delete id s =
      let s' = wal_delete id s in
      elim (D.get s'.edges id) [
        | some _ ↦ (
          true,
          record s' {
            edges = D.remove s'.edges id;
            free_list = S.push s'.free_list id;
            free_count = incr64 s'.free_count;
          },
        )
        | none ↦ (false, s')
      ]

  unfoldable pub out_edges : ℕ → EdgeId → EdgeStore M Q → Option (List EdgeId)
  out_edges zero cur s = none
  out_edges (suc fuel) cur s = elim (cur == null_edge) [
    | true ↦ some []
    | false ↦ elim (D.get s.edges cur) [
      | some e ↦ option_map (λ r. cur ∷ r) (out_edges fuel e.next_out s)
      | none ↦ some []
    ]
  ]

  unfoldable pub in_edges : ℕ → EdgeId → EdgeStore M Q → Option (List EdgeId)
  in_edges zero cur s = none
  in_edges (suc fuel) cur s = elim (cur == null_edge) [
    | true ↦ some []
    | false ↦ elim (D.get s.edges cur) [
      | some e ↦ option_map (λ r. cur ∷ r) (in_edges fuel e.next_in s)
      | none ↦ some []
    ]
  ]

  unfoldable pub out_edges_visible : ℕ → EdgeId → TxId → EdgeStore M Q → Option (List EdgeId)
  out_edges_visible zero cur tx s = none
  out_edges_visible (suc fuel) cur tx s = elim (cur == null_edge) [
    | true ↦ some []
    | false ↦ elim (D.get s.edges cur) [
      | some e ↦
          option_map (λ r. if Edge.is_alive e tx then cur ∷ r else r)
            (out_edges_visible fuel e.next_out tx s)
      | none ↦ some []
    ]
  ]

  unfoldable pub len : EdgeStore M Q → ℕ
  len s = length (D.entries s.edges)

  unfoldable pub flush : (ℕ → Env) → EdgeStore M Q → EdgeStore M Q
  flush env s = record s { wal = option_map (flush_now env) s.wal }
