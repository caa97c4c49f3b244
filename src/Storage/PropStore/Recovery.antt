-- ===== src/Storage/PropStore/Recovery.antt =====
-- A property store through any sequence of its writes, and what a store that is opened on its log gets
-- back.
use lightgraph.Base.{
  ℕ, ◌^◌, ◌<◌, ◌≡◌, refl, sym, subst, ◌∙◌, true, Option, none, some, List, [], ◌∷◌, ◌++◌, ltb,
  lt→ltb, length, option_map, Bytes,
}
use lightgraph.Types.{LabelId}
use lightgraph.Extern.{DashMap, KeyMap, Bincode}
use lightgraph.Storage.Consistency.{Durability, Consistency, batch_bytes, fsync_enabled}
use lightgraph.Storage.WalLog.{magic}
use lightgraph.Storage.WalLog.RoundTrip.{LogRecord, encode_all, AllFit, replay_wal-encode_all}
use lightgraph.Storage.WalThread.{WalThread, Env, spawn}
use lightgraph.Storage.WalThread.Image.{IsReliable}
use lightgraph.Storage.WalThread.Shutdown.{spawn-IsOpen}
use lightgraph.Storage.WalThread.Records.{flush_now-synced, spawn-HasRecords}
use lightgraph.Storage.NodeStore.{ok}
use lightgraph.Storage.NodeStore.Recovery.{long_file}
use lightgraph.Storage.NodeStore.History.{ok-injective}
use lightgraph.Storage.PropStore.{
  PropStore, ColumnKey, cell_header, on_record, write_cell, column_of, wal_send_cell, next_row_of,
  alloc_row, insert_props, replay_file, finish_replay, with_wal, open_store, new, flush,
}
use lightgraph.Storage.PropStore
use lightgraph.Storage.PropStore.Column.{Value, PropertyColumn}
use lightgraph.Storage.PropStore.Logged.{
  IsStorable, StorableProps, IsLogged, replayed, insert_prop-IsLogged, insert_props-IsLogged,
  alloc_row-IsLogged, set_prop-IsLogged,
}

-- A call of one of the operations that write.
pub data Op : Type 0 where
  insert_prop : LabelId → Bytes → ℕ → Option Value → Op
  set_prop : LabelId → Bytes → ℕ → Option Value → Op
  insert_row : LabelId → List (Bytes × Value) → Op

module _ {M L : Type 0} ⦃D : KeyMap M ColumnKey PropertyColumn⦄ ⦃S : DashMap L ℕ⦄
    ⦃B : Bincode (Option Value)⦄ where
  unfoldable pub apply_op : Op → PropStore M L → PropStore M L
  apply_op (insert_prop label name row v) s = (PropStore.insert_prop label name row v s).1
  apply_op (set_prop label name row v) s = (PropStore.set_prop label name row v s).1
  apply_op (insert_row label props) s = (PropStore.insert_row label props s).1

  unfoldable pub run : List Op → PropStore M L → PropStore M L
  run [] s = s
  run (op ∷ ops) s = run ops (apply_op op s)

  abbrev pub Storable : (Bytes → Bytes) → Op → PropStore M L → Type 0
  Storable lossy (insert_prop label name row v) s = IsStorable lossy label name row v
  Storable lossy (set_prop label name row v) s = IsStorable lossy label name row v
  Storable lossy (insert_row label props) s = StorableProps lossy label (next_row_of label s) props

  abbrev pub AllStorable : (Bytes → Bytes) → List Op → PropStore M L → Type 0
  AllStorable lossy [] s = Unit
  AllStorable lossy (op ∷ ops) s = Storable lossy op s × AllStorable lossy ops (apply_op op s)

  module _ (lossy : Bytes → Bytes) where
    -- Every operation on a logged store leaves a logged store.
    apply_op-IsLogged :
        {d : Durability} (op : Op) (s : PropStore M L)
        → Storable lossy op s
        → IsLogged lossy d s
        → IsLogged lossy d (apply_op op s)
    unfolding apply_op PropStore.insert_row alloc_row
    apply_op-IsLogged (insert_prop label name row v) s st l =
        insert_prop-IsLogged lossy label name row v s st l
    apply_op-IsLogged (set_prop label name row v) s st l =
        set_prop-IsLogged lossy label name row v s st l
    apply_op-IsLogged (insert_row label props) s st l =
        insert_props-IsLogged lossy label (next_row_of label s) props _ st
          (alloc_row-IsLogged lossy label s l)

    run-IsLogged :
        {d : Durability} (ops : List Op) (s : PropStore M L)
        → AllStorable lossy ops s
        → IsLogged lossy d s
        → IsLogged lossy d (run ops s)
    unfolding run
    run-IsLogged [] s st l = l
    run-IsLogged (op ∷ ops) s st l =
        run-IsLogged ops (apply_op op s) st.1 (apply_op-IsLogged op s st.0 l)

    replay_file-records :
        (rs : List LogRecord)
        → AllFit rs
        → replay_file {M = M} {L = L} lossy (some (magic ++ encode_all rs)) ≡ ok (replayed lossy rs)
    unfolding replay_file encode_all
    replay_file-records [] h = refl
    replay_file-records (r ∷ rs) h =
        let long : ltb 4 (length (magic ++ encode_all (r ∷ rs))) ≡ true =
          lt→ltb 4 _ (long_file r rs h) in
        rw (long, replay_wal-encode_all (on_record lossy) (r ∷ rs) new h)
          (unfold finish_replay in refl)

    open_store-ok :
        (file : Option Bytes) (c : Consistency) (s : PropStore M L) (t : WalThread)
        → replay_file lossy file ≡ ok s
        → spawn file c.durability ≡ some t
        → open_store lossy file c ≡ ok (record s { wal = some t })
    unfolding open_store with_wal
    open_store-ok file c s t p u = rw (open_store, p, u) refl

  -- The bytes of the log on disk.
  abbrev pub disk : PropStore M L → Option Bytes
  disk s = option_map (λ (t : WalThread). t.synced) s.wal

  disk-flush :
      {d : Durability} (lossy : Bytes → Bytes) (env : ℕ → Env) (s : PropStore M L)
      (l : IsLogged lossy d s)
      → ((i : ℕ) → IsReliable (env i).io)
      → fsync_enabled d ≡ true
      → disk (flush env s) ≡ some (magic ++ encode_all l.records)
  unfolding flush
  disk-flush lossy env s l reliable e = flush_now-synced l.log env reliable e

  open_store-IsLogged :
      (lossy : Bytes → Bytes) (c : Consistency)
      → batch_bytes c.durability < 2 ^ 62
      → (s : PropStore M L) × (open_store lossy none c ≡ ok s) × IsLogged lossy c.durability s
  open_store-IsLogged lossy c small =
      let (t, u, log) = spawn-HasRecords c.durability small in
      (
        record (new {M = M} {L = L}) { wal = some t },
        open_store-ok lossy none c new t (unfold replay_file in refl) u,
        record { records = []; log = log; agrees = refl },
      )

  -- A store opened on no file with fsync enabled, taken through any calls of `insert_prop`, `set_prop`
  -- and `insert_row` whose cells can be logged and then flushed, where the operating system takes every
  -- byte of the flush's writes and every sync of it succeeds: opening the file that is on disk gives a
  -- store with the same columns. The batch sizes of the levels of both stores are below 2^62.
  pub recovered :
      (lossy : Bytes → Bytes) (c₀ c : Consistency) (ops : List Op) (env : ℕ → Env)
      (s : PropStore M L)
      → batch_bytes c₀.durability < 2 ^ 62
      → batch_bytes c.durability < 2 ^ 62
      → fsync_enabled c₀.durability ≡ true
      → open_store lossy none c₀ ≡ ok s
      → AllStorable lossy ops s
      → ((i : ℕ) → IsReliable (env i).io)
      → (s' : PropStore M L) × (open_store lossy (disk (flush env (run ops s))) c ≡ ok s')
        × (s'.columns ≡ (run ops s).columns)
  recovered lossy c₀ c ops env s small₀ small synced opened storable reliable =
      let (s₀, e, l₀) = open_store-IsLogged lossy c₀ small₀ in
      let same : s₀ ≡ s = ok-injective (sym e ∙ opened) in
      let l =
        run-IsLogged lossy ops s storable (subst (λ x. IsLogged lossy c₀.durability x) same l₀) in
      let (t, u, o, lv, im) =
        spawn-IsOpen (some (magic ++ encode_all l.records)) c.durability small in
      (
        record (replayed lossy l.records) { wal = some t },
        rw (disk-flush lossy env (run ops s) l reliable synced) (
            open_store-ok lossy _ c (replayed lossy l.records) t
              (replay_file-records lossy l.records l.log.fits) u),
        l.agrees,
      )
