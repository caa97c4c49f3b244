-- ===== src/Storage/NodeStore/Recovery.antt =====
-- What a store that is opened on the log of another one gets back.
use lightgraph.Base.{
  ℕ, ◌^◌, ◌<◌, ◌≡◌, refl, ◌∙◌, true, Option, none, some, List, [], ◌∷◌, ◌++◌, arith, ltb, lt→ltb,
  length, length-append, option_map, incr64, Bytes,
}
use lightgraph.Types.{NodeId}
use lightgraph.Extern.{DashMap, SegQueue, Bincode}
use lightgraph.Storage.Consistency.{Durability, Consistency, batch_bytes, fsync_enabled}
use lightgraph.Storage.Node.{Node}
use lightgraph.Storage.WalLog.{magic}
use lightgraph.Storage.WalLog.RoundTrip.{
  LogRecord, encode, encode_all, AllFit, replay_wal-encode_all, length-encode,
}
use lightgraph.Storage.WalThread.{WalThread, Env, spawn}
use lightgraph.Storage.WalThread.Image.{IsReliable}
use lightgraph.Storage.WalThread.Shutdown.{spawn-IsOpen}
use lightgraph.Storage.WalThread.Records.{flush_now-synced, spawn-HasRecords}
use lightgraph.Storage.NodeStore.{
  NodeStore, ok, new, on_record, replay_start, replay_file, finish_replay, open_store, flush,
}
use lightgraph.Storage.NodeStore.Logged.{replayed, IsLogged}

pub long_file :
    (r : LogRecord) (rs : List LogRecord)
    → AllFit (r ∷ rs)
    → 4 < length (magic ++ encode_all (r ∷ rs))
unfolding encode_all
long_file r rs h = omega (arith, length-append (encode r) (encode_all rs), length-encode r h.0)

module _ {M Q : Type 0} ⦃D : DashMap M Node⦄ ⦃S : SegQueue Q⦄ ⦃B : Bincode Node⦄ where
  -- The bytes of the log on disk.
  abbrev pub disk : NodeStore M Q → Option Bytes
  disk s = option_map (λ (t : WalThread). t.synced) s.wal

  disk-flush :
      {d : Durability} (env : ℕ → Env) (s : NodeStore M Q) (l : IsLogged d s)
      → ((i : ℕ) → IsReliable (env i).io)
      → fsync_enabled d ≡ true
      → disk (flush env s) ≡ some (magic ++ encode_all l.records)
  unfolding flush
  disk-flush env s l reliable e = flush_now-synced l.log env reliable e

  replay_file-magic : replay_file (some (magic ++ encode_all [])) ≡ ok (new {M = M} {Q = Q})
  unfolding replay_file encode_all
  replay_file-magic = refl

  pub open_store-ok :
      (file : Option Bytes) (c : Consistency) (s : NodeStore M Q) (t : WalThread)
      → replay_file file ≡ ok s
      → spawn file c.durability ≡ some t
      → open_store file c ≡ ok (record s { wal = some t })
  unfolding open_store
  open_store-ok file c s t p u = rw (open_store, p, u)

  -- Replaying a whole log gives the nodes and the free ids that its records leave.
  pub replay_file-records :
      (rs : List LogRecord)
      → AllFit rs
      → (s' : NodeStore M Q) × (replay_file (some (magic ++ encode_all rs)) ≡ ok s')
        × ((i : NodeId) → D.get s'.nodes i ≡ D.get (replayed {M = M} {Q = Q} rs).store.nodes i)
        × (s'.free_list ≡ (replayed {M = M} {Q = Q} rs).store.free_list)
  unfolding replay_file
  replay_file-records [] h = (new, replay_file-magic, λ i. refl, refl)
  replay_file-records (r ∷ rs) h =
      let long : ltb 4 (length (magic ++ encode_all (r ∷ rs))) ≡ true =
        lt→ltb 4 _ (long_file r rs h) in
      (
        record (replayed (r ∷ rs)).store {
          next_id = incr64 (replayed {M = M} {Q = Q} (r ∷ rs)).max_id;
        },
        rw (long, replay_wal-encode_all on_record (r ∷ rs) replay_start h)
            (unfold finish_replay in refl),
        λ i. refl,
        refl,
      )

  -- After a flush, opening the file that is on disk gives a store with the same nodes, under every id.
  pub reopen-flush :
      {d : Durability} (env : ℕ → Env) (s : NodeStore M Q) (c : Consistency) (l : IsLogged d s)
      → ((i : ℕ) → IsReliable (env i).io)
      → fsync_enabled d ≡ true
      → batch_bytes c.durability < 2 ^ 62
      → (s' : NodeStore M Q) × (open_store (disk (flush env s)) c ≡ ok s')
        × ((i : NodeId) → D.get s'.nodes i ≡ D.get s.nodes i)
  reopen-flush env s c l reliable e small =
      let (s', p, q, _) = replay_file-records l.records l.log.fits in
      let (t, u, o, lv, im) =
        spawn-IsOpen (some (magic ++ encode_all l.records)) c.durability small in
      (
        record s' { wal = some t },
        rw (disk-flush env s l reliable e) (open_store-ok _ c s' t p u),
        λ i. q i ∙ l.agrees i,
      )

  -- A store that is opened with no file is logged, and has no node.
  pub open_store-IsLogged :
      (c : Consistency)
      → batch_bytes c.durability < 2 ^ 62
      → (s : NodeStore M Q) × (open_store none c ≡ ok s)
        × IsLogged c.durability s
        × ((i : NodeId) → D.get s.nodes i ≡ none)
  open_store-IsLogged c small =
      let (t, u, log) = spawn-HasRecords c.durability small in
      (
        record (new {M = M} {Q = Q}) { wal = some t },
        open_store-ok none c new t (unfold replay_file in refl) u,
        record { records = []; log = log; agrees = λ i. unfold new in refl },
        λ i. unfold new in D.get-empty i,
      )
