-- ===== src/Storage/WalThread/Shutdown.antt =====
-- How a log thread starts, and what its end does to the commands that wait in the channel.
use lightgraph.Base.{
  ◌*◌, ◌%◌, u64_mod, ◌^◌, ◌<◌, ◌≡◌, refl, sym, ap, ◌∙◌, true, false, Option, none, some, lt→ltb,
  List, [], ◌∷◌, ◌++◌, append-nil, arith, Bytes,
}
use lightgraph.Types.{u64_max}
use lightgraph.Storage.Consistency.{Durability, async, batch_bytes}
use lightgraph.Storage.WalThread.{
  WalCmd, delete, shutdown, Env, WalThread, opened, started, spawn, send, flush_and_sync, receive,
  wal_round, run_rounds, shutdown_now, drop_now,
}
use lightgraph.Storage.WalThread.Image.{
  queue_bytes, taken, image, IsReliable, IsOpen, flush_and_sync-Takes, buffer-flush_and_sync,
}

-- With `async` durability `spawn` panics, whatever file it is given.
spawn-async : (file : Option Bytes) → spawn file async ≡ none
unfolding spawn
spawn-async file = refl

-- With any other durability of less than 2^62 bytes a batch, `spawn` starts an open loop, whose image
-- is the file, or the magic number if the file is missing or empty.
pub spawn-IsOpen :
    (file : Option Bytes) (d : Durability)
    → batch_bytes d < 2 ^ 62
    → (t : WalThread) × (spawn file d ≡ some t)
      × IsOpen t
      × (t.durability ≡ d)
      × (image t ≡ opened file)
unfolding spawn image queue_bytes
spawn-IsOpen file d h = (
  started (opened file) d,
  rw (
    lt→ltb (batch_bytes d * 2 % u64_mod) (2 ^ 63) (omega arith),
    lt→ltb (batch_bytes d) (2 ^ 63) (omega arith),
  ),
  record { alive = refl; running = refl; no_shutdown = tt; on_disk = ground arith; held = refl },
  refl,
  append-nil _ ∙ append-nil (opened file),
)

-- A loop that has returned does nothing more.
pub run_rounds-dead : (envs : List Env) (t : WalThread) → t.alive ≡ false → run_rounds envs t ≡ t
unfolding run_rounds wal_round
run_rounds-dead [] t e = refl
run_rounds-dead (env ∷ envs) t e =
    let same : wal_round env t ≡ t = rw (wal_round, e) in
    ap (run_rounds envs) same ∙ run_rounds-dead envs t e

stopped_round :
    (env : Env) (t : WalThread) (cmd : WalCmd) (q : List WalCmd)
    → t.alive ≡ true
    → t.running ≡ false
    → t.queue ≡ cmd ∷ q
    → wal_round env t ≡ record (flush_and_sync env.io (record t { queue = q })) { alive = false }
unfolding wal_round receive
stopped_round env t cmd q a r e = rw (a, e, r)

-- The loop has ended with the file as it stood when the flag was cleared, buffer included.
pub record Ended (t t' : WalThread) : Type 0 where
  pub dead : t'.alive ≡ false
  pub written : t'.written ≡ taken t

module _ (env : Env) (reliable : IsReliable env.io) (t : WalThread) where
  -- The first command that the loop receives with the flag cleared ends it.
  stopped_round-Ended :
      (cmd : WalCmd) (q : List WalCmd)
      → t.alive ≡ true
      → t.running ≡ false
      → t.queue ≡ cmd ∷ q
      → t.held ≡ []
      → Ended t (wal_round env t)
  stopped_round-Ended cmd q a r e h =
      let t' : WalThread = record t { queue = q } in
      let k = flush_and_sync-Takes t' env.io reliable in
      let b = buffer-flush_and_sync t' env.io in
      let w : (flush_and_sync env.io t').written ≡ taken t =
        sym (append-nil _)
        ∙ ap (λ (bs : Bytes). (flush_and_sync env.io t').written ++ bs)
            (sym (
              ap (λ (bs : Bytes). (flush_and_sync env.io t').held ++ bs) b
              ∙ append-nil _
              ∙ k.held h))
        ∙ k.taken_more
        ∙ append-nil (taken t) in
      rw (stopped_round env t cmd q a r e) (record { dead = refl; written = w })

queue-snoc :
    (q : List WalCmd) (cmd : WalCmd) → (c : WalCmd) × (r : List WalCmd) × (q ++ cmd ∷ [] ≡ c ∷ r)
queue-snoc [] cmd = (cmd, [], refl)
queue-snoc (c ∷ q) cmd = (c, q ++ cmd ∷ [], refl)

send-alive :
    (cmd : WalCmd) (t : WalThread)
    → t.alive ≡ true
    → send cmd t ≡ record t { queue = t.queue ++ cmd ∷ [] }
unfolding send
send-alive cmd t a = rw a

Ended-image :
    (t t' : WalThread)
    → Ended t t'
    → (envs : List Env) → image t ≡ (run_rounds envs t').written ++ queue_bytes t.queue
unfolding image
Ended-image t t' d envs = rw (run_rounds-dead envs t' d.dead, d.written) refl

module _ (env : Env) (reliable : IsReliable env.io) (t : WalThread) (o : IsOpen t) where
  -- Clearing the flag and sending any command ends the loop, whatever waits in the channel.
  stop_with : (cmd : WalCmd) → Ended t (wal_round env (send cmd (record t { running = false })))
  stop_with cmd =
      let (c, r, e) = queue-snoc t.queue cmd in
      let t' : WalThread = record t { running = false; queue = t.queue ++ cmd ∷ [] } in
      let d = stopped_round-Ended env reliable t' c r o.alive refl e o.held in
      rw (send-alive cmd (record t { running = false }) o.alive)
        (record { dead = d.dead; written = d.written })

  -- `drop` and `shutdown` of an open loop whose writes succeed write the loop's buffer and none of the
  -- commands that wait in the channel: their bytes, which end the log image, are missing from the
  -- file however many rounds follow.
  pub stop_loses_queue :
      (envs : List Env)
      → (image t ≡ (run_rounds envs (drop_now env t)).written ++ queue_bytes t.queue)
        × (image t ≡ (run_rounds envs (shutdown_now env t)).written ++ queue_bytes t.queue)
  unfolding drop_now shutdown_now
  stop_loses_queue envs = (
    Ended-image t (drop_now env t) (stop_with (delete u64_max)) envs,
    Ended-image t (shutdown_now env t) (stop_with shutdown) envs,
  )
