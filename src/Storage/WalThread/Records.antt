-- ===== src/Storage/WalThread/Records.antt =====
-- A store's log thread whose image is a list of records: what a send adds to the list, and what a flush
-- leaves on disk.
use lightgraph.Base.{
  ℕ, ◌^◌, ◌<◌, ◌≡◌, refl, ap, sym, ◌∙◌, true, Option, none, some, List, [], ◌∷◌, ◌++◌, append_assoc,
  arith, option_map, Bytes,
}
use lightgraph.Storage.Consistency.{Durability, batch_bytes, fsync_enabled}
use lightgraph.Storage.WalLog.{magic}
use lightgraph.Storage.WalLog.RoundTrip.{
  LogRecord, inserted, deleted, encode, encode_all, Fits, AllFit, encode_all-append, AllFit-snoc,
}
use lightgraph.Storage.WalThread
use lightgraph.Storage.WalThread.{WalThread, Env, spawn, send_insert, send_delete, flush_now}
use lightgraph.Storage.WalThread.Image.{image, IsOpen, IsReliable}
use lightgraph.Storage.WalThread.Flush.{flush_now-Flushed, image-send, send-IsOpen}
use lightgraph.Storage.WalThread.Shutdown.{spawn-IsOpen}

-- There is an open thread at level `d`, and its image is the records' log.
pub record HasRecords (d : Durability) (wal : Option WalThread) (records : List LogRecord)
    : Type 0 where
  pub thread : WalThread
  pub has_wal : wal ≡ some thread
  pub opened : IsOpen thread
  pub level : thread.durability ≡ d
  pub fits : AllFit records
  pub image : image thread ≡ magic ++ encode_all records

durability-send_insert :
    (id : ℕ) (payload : Bytes) (t : WalThread)
    → (send_insert id payload t).durability ≡ t.durability
unfolding send_insert
durability-send_insert id payload t = ground arith

durability-send_delete : (id : ℕ) (t : WalThread) → (send_delete id t).durability ≡ t.durability
unfolding send_delete
durability-send_delete id t = ground arith

-- Sends through the handle, at the image of the thread.
module _ (id : ℕ) (payload : Bytes) (t : WalThread) (o : IsOpen t) where
  counted_up : (k : ℕ) → IsOpen (record t { pending_bytes = k })
  counted_up k = record {
    alive = o.alive;
    running = o.running;
    no_shutdown = o.no_shutdown;
    on_disk = o.on_disk;
    held = o.held;
  }

  send_insert-opened : IsOpen (send_insert id payload t)
  unfolding send_insert
  send_insert-opened = send-IsOpen (WalThread.insert id payload) _ (counted_up _) tt

  image-send_insert : image (send_insert id payload t) ≡ image t ++ encode (inserted id payload)
  unfolding send_insert image
  image-send_insert = image-send (WalThread.insert id payload) _ (counted_up _) tt

  send_delete-opened : IsOpen (send_delete id t)
  unfolding send_delete
  send_delete-opened = send-IsOpen (WalThread.delete id) _ (counted_up _) tt

  image-send_delete : image (send_delete id t) ≡ image t ++ encode (deleted id)
  unfolding send_delete image
  image-send_delete = image-send (WalThread.delete id) _ (counted_up _) tt

module _ {d : Durability} {wal : Option WalThread} {records : List LogRecord}
    (h : HasRecords d wal records) where
  -- One more record.
  extend :
      (send : WalThread → WalThread) (r : LogRecord)
      → Fits r
      → IsOpen (send h.thread)
      → (send h.thread).durability ≡ h.thread.durability
      → image (send h.thread) ≡ image h.thread ++ encode r
      → HasRecords d (option_map send wal) (records ++ r ∷ [])
  extend send r f o k e = record {
    thread = send h.thread;
    has_wal = ap (option_map send) h.has_wal;
    opened = o;
    level = k ∙ h.level;
    fits = AllFit-snoc records r h.fits f;
    image =
        e
        ∙ ap (λ (bs : Bytes). bs ++ encode r) h.image
        ∙ append_assoc magic (encode_all records) (encode r)
        ∙ ap (λ (bs : Bytes). magic ++ bs) (sym (encode_all-append records r));
  }

  pub send_insert-HasRecords :
      (id : ℕ) (payload : Bytes)
      → Fits (inserted id payload)
      → HasRecords d (option_map (send_insert id payload) wal) (records ++ inserted id payload ∷ [])
  send_insert-HasRecords id payload f =
      extend (send_insert id payload) (inserted id payload) f
        (send_insert-opened id payload h.thread h.opened)
        (durability-send_insert id payload h.thread)
        (image-send_insert id payload h.thread h.opened)

  pub send_delete-HasRecords :
      (id : ℕ)
      → id < 2 ^ 64
      → HasRecords d (option_map (send_delete id) wal) (records ++ deleted id ∷ [])
  send_delete-HasRecords id f =
      extend (send_delete id) (deleted id) f (send_delete-opened id [] h.thread h.opened)
        (durability-send_delete id h.thread) (image-send_delete id [] h.thread h.opened)

  -- After a flush the records are on disk.
  pub flush_now-synced :
      (env : ℕ → Env)
      → ((i : ℕ) → IsReliable (env i).io)
      → fsync_enabled d ≡ true
      → option_map (λ (t : WalThread). t.synced) (option_map (flush_now env) wal)
        ≡ some (magic ++ encode_all records)
  flush_now-synced env reliable e =
      let f = flush_now-Flushed env reliable h.thread h.opened in
      let synced : fsync_enabled h.thread.durability ≡ true = ap fsync_enabled h.level ∙ e in
      let all : (flush_now env h.thread).synced ≡ image h.thread = ground (arith, f.on_disk) in
      rw h.has_wal (ap some (all ∙ h.image))

-- A thread that is opened on no file has no record.
pub spawn-HasRecords :
    (d : Durability)
    → batch_bytes d < 2 ^ 62
    → (t : WalThread) × (spawn none d ≡ some t) × HasRecords d (some t) []
spawn-HasRecords d small =
    let (t, u, o, lv, im) = spawn-IsOpen none d small in
    (
      t,
      u,
      record {
        thread = t;
        has_wal = refl;
        opened = o;
        level = lv;
        fits = tt;
        image = im ∙ unfold encode_all in refl;
      },
    )
