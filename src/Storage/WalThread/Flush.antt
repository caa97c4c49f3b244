-- ===== src/Storage/WalThread/Flush.antt =====
-- What `flush` promises to a caller of an open loop.
use lightgraph.Base.{
  ℕ, ◌≡◌, sym, ap, ◌∙◌, List, [], ◌∷◌, ◌++◌, append-nil, append_assoc, arith, if◌then◌else◌, length,
}
use lightgraph.Storage.Consistency.{fsync_enabled}
use lightgraph.Storage.WalThread.{
  WalCmd, flush, Env, WalThread, send, wal_round, run_rounds, envs_of, flush_now,
}
use lightgraph.Storage.WalThread.Image.{
  cmd_bytes, queue_bytes, queue_bytes-append, taken, image, IsReliable, NoShutdown, IsOnDisk,
  IsOpen, buffer-handle-flush,
}
use lightgraph.Storage.WalThread.Rounds.{
  NoShutdown-snoc, round-cons, round-Takes, Keeps, Keeps-trans, cons-Keeps,
}

send-open :
    (cmd : WalCmd) (t : WalThread)
    → IsOpen t
    → send cmd t ≡ record t { queue = t.queue ++ cmd ∷ [] }
unfolding send
send-open cmd t o = rw o.alive

queue-send : (t : WalThread) (cmd : WalCmd) → IsOpen t → (send cmd t).queue ≡ t.queue ++ cmd ∷ []
unfolding send
queue-send t cmd o = rw o.alive

module _ (cmd : WalCmd) (t : WalThread) (o : IsOpen t) (no_shutdown : NoShutdown (cmd ∷ [])) where
  -- A command that is sent joins the end of the image.
  pub image-send : image (send cmd t) ≡ image t ++ cmd_bytes cmd
  unfolding image send queue_bytes
  image-send =
      rw (o.alive, queue_bytes-append t.queue (cmd ∷ []), append-nil (cmd_bytes cmd))
        (sym (append_assoc (taken t) (queue_bytes t.queue) (cmd_bytes cmd)))

  pub send-IsOpen : IsOpen (send cmd t)
  send-IsOpen = rw (send-open cmd t o) (record {
    alive = o.alive;
    running = o.running;
    no_shutdown = NoShutdown-snoc t.queue cmd o.no_shutdown no_shutdown;
    on_disk = o.on_disk;
    held = o.held;
  })

-- The loop has caught up with the channel.
pub record IsDrained (t : WalThread) : Type 0 where
  pub queue : t.queue ≡ []
  pub buffer : t.buffer ≡ []

durability-send : (cmd : WalCmd) (t : WalThread) → (send cmd t).durability ≡ t.durability
unfolding send
durability-send cmd t = ground arith

on_disk-image :
    (t t' : WalThread)
    → t'.durability ≡ t.durability
    → IsOnDisk t'
    → t'.written ≡ image t
    → (if fsync_enabled t.durability then t'.synced else t'.written) ≡ image t
on_disk-image t t' d h e = ground arith

-- What `flush` has done when it returns.
pub record Flushed (t t' : WalThread) : Type 0 where
  pub written : t'.written ≡ image t
  pub on_disk : (if fsync_enabled t.durability then t'.synced else t'.written) ≡ image t
  pub drained : IsDrained t'
  pub keeps : Keeps t t'

drained_image : (t : WalThread) → IsDrained t → t.held ≡ [] → image t ≡ t.written
unfolding image queue_bytes
drained_image t d h = rw (d.queue, d.buffer, h) (append-nil _ ∙ append-nil t.written)

module _ (env : ℕ → Env) (reliable : (i : ℕ) → IsReliable (env i).io) where
  abbrev rounds : List WalCmd → WalThread → WalThread
  rounds q t = run_rounds (envs_of (length q) env) t

  drain :
      (q : List WalCmd) (t : WalThread)
      → IsOpen t
      → t.queue ≡ q ++ flush ∷ []
      → Keeps t (rounds (q ++ flush ∷ []) t) × IsDrained (rounds (q ++ flush ∷ []) t)
  unfolding run_rounds
  drain [] t o e =
      let k = cons-Keeps (env 0) (reliable 0) t o flush [] e in
      let r = round-cons (env 0) t flush [] o e in
      (
        k,
        record {
          queue = (round-Takes (env 0) (reliable 0) t flush [] o e).queue;
          buffer = rw r (buffer-handle-flush (env 0) (record t { queue = [] }) (reliable 0));
        },
      )
  drain (cmd ∷ q) t o e =
      let i = length (q ++ flush ∷ []) in
      let k = cons-Keeps (env i) (reliable i) t o cmd (q ++ flush ∷ []) e in
      let (k', d) =
        drain q (wal_round (env i) t) k.stays_open
          (round-Takes (env i) (reliable i) t cmd (q ++ flush ∷ []) o e).queue in
      (Keeps-trans k k', d)

  flush_now-eq :
      (t : WalThread)
      → IsOpen t
      → flush_now env t
        ≡ record (rounds (t.queue ++ flush ∷ []) (send flush t)) { pending_bytes = 0 }
  unfolding flush_now
  flush_now-eq t o =
      ap (λ (q : List WalCmd). record (rounds q (send flush t)) { pending_bytes = 0 })
        (queue-send t flush o)

  rounds-Flushed :
      (t : WalThread) → IsOpen t → Flushed t (rounds (t.queue ++ flush ∷ []) (send flush t))
  rounds-Flushed t o =
      let (k, d) = drain t.queue (send flush t) (send-IsOpen flush t o tt) (queue-send t flush o) in
      let sent : image (send flush t) ≡ image t = image-send flush t o tt ∙ append-nil (image t) in
      let all =
        sym (drained_image (rounds (t.queue ++ flush ∷ []) (send flush t)) d k.stays_open.held)
        ∙ k.image
        ∙ sent in
      let same = k.durability ∙ durability-send flush t in
      record {
        written = all;
        on_disk =
            on_disk-image t (rounds (t.queue ++ flush ∷ []) (send flush t)) same
              k.stays_open.on_disk all;
        drained = d;
        keeps = record { image = k.image ∙ sent; stays_open = k.stays_open; durability = same };
      }

  -- `flush` on an open loop whose writes all succeed, before the flush and in it, returns with an empty channel and an empty
  -- buffer and leaves the loop open; the file then holds every byte that was written, buffered or
  -- sent before, in order, and with fsync enabled so does the disk.
  pub flush_now-Flushed : (t : WalThread) → IsOpen t → Flushed t (flush_now env t)
  flush_now-Flushed t o =
      let f = rounds-Flushed t o in
      rw (flush_now-eq t o) (record {
        written = f.written;
        on_disk = f.on_disk;
        drained = record { queue = f.drained.queue; buffer = f.drained.buffer };
        keeps = record {
          image = (unfold image in f.keeps.image);
          stays_open = record {
            alive = f.keeps.stays_open.alive;
            running = f.keeps.stays_open.running;
            no_shutdown = f.keeps.stays_open.no_shutdown;
            on_disk = f.keeps.stays_open.on_disk;
            held = f.keeps.stays_open.held;
          };
          durability = f.keeps.durability;
        };
      })
