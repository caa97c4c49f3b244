-- ===== src/Storage/NodeStore/Logged.antt =====
-- The log of a store says what is in the store, and the operations keep it so.
use mathlib.Core.List.{foldl, foldl-append}
use lightgraph.Base.{
  ◌^◌, ◌<◌, ◌≡◌, ap, subst, sym, ◌∙◌, none, some, List, [], ◌∷◌, ◌++◌, arith, inl, inr,
  Option-cases, Bytes,
}
use lightgraph.Types.{NodeId}
use lightgraph.Extern.{DashMap, SegQueue, Bincode}
use lightgraph.Storage.Consistency.{Durability}
use lightgraph.Storage.Node.{Node}
use lightgraph.Storage.WalLog.{op_insert, op_delete}
use lightgraph.Storage.WalLog.RoundTrip.{LogRecord, inserted, deleted, Fits, apply}
use lightgraph.Storage.WalThread.Records.{
  HasRecords, send_insert-HasRecords, send_delete-HasRecords,
}
use lightgraph.Storage.NodeStore.{
  NodeStore, Replay, on_record, replay_start, replay_insert, replay_delete, put, wal_insert,
  hard_delete,
}
use lightgraph.Storage.NodeStore.Validity.{get-put, set_at, hard_delete_lem, wal-hard_delete}

module _ ⦃B : Bincode Node⦄ where
  -- The node can be serialized, and its record fits the log's format.
  pub record IsStorable (id : NodeId) (n : Node) : Type 0 where
    pub bytes : Bytes
    pub serialized : B.serialize n ≡ some bytes
    pub fits : Fits (inserted id bytes)

module _ {M Q : Type 0} ⦃D : DashMap M Node⦄ ⦃S : SegQueue Q⦄ ⦃B : Bincode Node⦄ where
  -- What the closure of `open` makes of a list of records.
  abbrev pub replayed : List LogRecord → Replay M Q
  replayed rs = foldl (apply on_record) replay_start rs

  -- The store logs to an open thread, and replaying the image of that log gives its nodes.
  pub record IsLogged (d : Durability) (s : NodeStore M Q) : Type 0 where
    pub records : List LogRecord
    pub log : HasRecords d s.wal records
    pub agrees : (i : NodeId) → D.get (replayed records).store.nodes i ≡ D.get s.nodes i

module _ {M Q : Type 0} ⦃D : DashMap M Node⦄ ⦃S : SegQueue Q⦄ ⦃B : Bincode Node⦄ where
  -- A store with the same nodes and the same log.
  pub IsLogged-same :
      {d : Durability} (s s' : NodeStore M Q)
      → s'.nodes ≡ s.nodes
      → s'.wal ≡ s.wal
      → IsLogged d s
      → IsLogged d s'
  IsLogged-same {d} s s' n w l = record {
    records = l.records;
    log = subst (λ o. HasRecords d o l.records) (sym w) l.log;
    agrees = λ i. l.agrees i ∙ ap (λ (m : M). D.get m i) (sym n);
  }

  get-on_insert :
      (r : Replay M Q) (id : NodeId) (bs : Bytes) (n : Node) (i : NodeId)
      → B.deserialize bs ≡ some n
      → D.get (on_record r op_insert id bs).store.nodes i
        ≡ set_at id (some n) i (D.get r.store.nodes i)
  unfolding on_record
  get-on_insert r id bs n i e = rw (e, replay_insert) (D.get-insert r.store.nodes id i n)

  get-on_delete :
      (r : Replay M Q) (id : NodeId) (bs : Bytes) (i : NodeId)
      → D.get (on_record r op_delete id bs).store.nodes i ≡ set_at id none i (D.get r.store.nodes i)
  unfolding on_record
  get-on_delete r id bs i = elim (Option-cases (D.get r.store.nodes id)) [
    | inl e ↦ rw (replay_delete, e) (ground arith)
    | inr (n, e) ↦ rw (replay_delete, e) (D.get-remove r.store.nodes id i)
  ]

  -- A node that is written to a logged store is in its log.
  pub put-IsLogged :
      {d : Durability} (s : NodeStore M Q) (id : NodeId) (n : Node)
      → IsStorable id n
      → IsLogged d s
      → IsLogged d (put id n s)
  unfolding wal_insert
  put-IsLogged s id n st l = record {
    records = l.records ++ inserted id st.bytes ∷ [];
    log = rw st.serialized (send_insert-HasRecords l.log id st.bytes st.fits);
    agrees = λ i. rw foldl-append (
        get-on_insert (replayed l.records) id st.bytes n i
          (B.deserialize-serialize n st.bytes st.serialized)
        ∙ ap (set_at id (some n) i) (l.agrees i)
        ∙ sym (get-put s id n i));
  }

  -- A deletion from a logged store is in its log.
  pub hard_delete-IsLogged :
      {d : Durability} (id : NodeId) (s : NodeStore M Q)
      → id < 2 ^ 64
      → IsLogged d s
      → IsLogged d (hard_delete id s).1
  hard_delete-IsLogged {d} id s h l =
      let records = l.records ++ deleted id ∷ [] in
      record {
        records = records;
        log =
            subst (λ o. HasRecords d o records) (sym (wal-hard_delete id s))
              (send_delete-HasRecords l.log id h);
        agrees = λ i. rw foldl-append (
            get-on_delete (replayed l.records) id [] i
            ∙ ap (set_at id none i) (l.agrees i)
            ∙ sym ((hard_delete_lem id s).1 i));
      }
