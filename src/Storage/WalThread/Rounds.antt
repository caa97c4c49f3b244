-- ===== src/Storage/WalThread/Rounds.antt =====
-- What one round of an open loop does, and what any number of rounds keeps.
use lightgraph.Base.{
  ◌≡◌, refl, ◌∙◌, List, [], ◌∷◌, ◌++◌, append-nil, append_assoc, inl, inr, List-cases,
}
use lightgraph.Storage.WalThread.{
  WalCmd, insert, delete, flush, shutdown, Env, WalThread, handle, receive, idle, maybe_sync,
  wal_round, run_rounds,
}
use lightgraph.Storage.WalThread.Image.{
  cmd_bytes, queue_bytes, taken, image, IsReliable, NoShutdown, IsOpen, Takes, maybe_sync-Takes,
  handle-Takes,
}

pub NoShutdown-head :
    (cmd : WalCmd) (q : List WalCmd) → NoShutdown (cmd ∷ q) → NoShutdown (cmd ∷ [])
NoShutdown-head (insert id p) q h = tt
NoShutdown-head (delete id) q h = tt
NoShutdown-head flush q h = tt
NoShutdown-head shutdown q h = h

NoShutdown-tail : (cmd : WalCmd) (q : List WalCmd) → NoShutdown (cmd ∷ q) → NoShutdown q
NoShutdown-tail (insert id p) q h = h
NoShutdown-tail (delete id) q h = h
NoShutdown-tail flush q h = h
NoShutdown-tail shutdown q h = absurd h

pub NoShutdown-snoc :
    (q : List WalCmd) (cmd : WalCmd)
    → NoShutdown q
    → NoShutdown (cmd ∷ [])
    → NoShutdown (q ++ cmd ∷ [])
NoShutdown-snoc [] cmd h k = k
NoShutdown-snoc (insert id p ∷ q) cmd h k = NoShutdown-snoc q cmd h k
NoShutdown-snoc (delete id ∷ q) cmd h k = NoShutdown-snoc q cmd h k
NoShutdown-snoc (flush ∷ q) cmd h k = NoShutdown-snoc q cmd h k
NoShutdown-snoc (shutdown ∷ q) cmd h k = absurd h

-- A round of an open loop with a command in the channel handles that command.
pub round-cons :
    (env : Env) (t : WalThread) (cmd : WalCmd) (q : List WalCmd)
    → IsOpen t
    → t.queue ≡ cmd ∷ q
    → wal_round env t ≡ handle env cmd (record t { queue = q })
unfolding wal_round receive
round-cons env t cmd q o e = rw (o.alive, e, o.running)

module _ (env : Env) (reliable : IsReliable env.io) (t : WalThread) where
  pub round-Takes :
      (cmd : WalCmd) (q : List WalCmd)
      → IsOpen t
      → t.queue ≡ cmd ∷ q
      → Takes (cmd_bytes cmd) (record t { queue = q }) (wal_round env t)
  round-Takes cmd q o e = rw (round-cons env t cmd q o e) (
      handle-Takes env (record t { queue = q }) reliable cmd
        (NoShutdown-head cmd q (rw e at o.no_shutdown)))

  round-IsOpen :
      (cmd : WalCmd) (q : List WalCmd) → IsOpen t → t.queue ≡ cmd ∷ q → IsOpen (wal_round env t)
  round-IsOpen cmd q o e =
      let k = round-Takes cmd q o e in
      record {
        alive = k.alive ∙ o.alive;
        running = k.running ∙ o.running;
        no_shutdown = rw k.queue (NoShutdown-tail cmd q (rw e at o.no_shutdown));
        on_disk = k.on_disk o.on_disk;
        held = k.held o.held;
      }

  -- A round moves bytes along the image, from the channel through the buffer to the file, and
  -- neither loses, repeats nor reorders any.
  image-round :
      (cmd : WalCmd) (q : List WalCmd)
      → IsOpen t
      → t.queue ≡ cmd ∷ q
      → image (wal_round env t) ≡ image t
  unfolding image queue_bytes
  image-round cmd q o e =
      let k = round-Takes cmd q o e in
      rw (k.taken_more, k.queue, e) (append_assoc (taken t) (cmd_bytes cmd) (queue_bytes q))

round-nil :
    (env : Env) (t : WalThread) → IsOpen t → t.queue ≡ [] → wal_round env t ≡ maybe_sync env t
unfolding wal_round idle
round-nil env t o e = rw (o.alive, e, o.running)

idle-Takes :
    (env : Env) (t : WalThread)
    → IsReliable env.io
    → IsOpen t
    → t.queue ≡ []
    → Takes [] t (wal_round env t)
idle-Takes env t h o e = rw (round-nil env t o e) (maybe_sync-Takes t env h)

-- What stays true of an open loop while nothing is sent.
pub record Keeps (t t' : WalThread) : Type 0 where
  pub image : image t' ≡ image t
  pub stays_open : IsOpen t'
  pub durability : t'.durability ≡ t.durability

pub Keeps-trans : {t t' t'' : WalThread} → Keeps t t' → Keeps t' t'' → Keeps t t''
Keeps-trans h k = record {
  image = k.image ∙ h.image;
  stays_open = k.stays_open;
  durability = k.durability ∙ h.durability;
}

module _ (env : Env) (reliable : IsReliable env.io) (t : WalThread) (o : IsOpen t) where
  pub cons-Keeps : (cmd : WalCmd) (q : List WalCmd) → t.queue ≡ cmd ∷ q → Keeps t (wal_round env t)
  cons-Keeps cmd q e = record {
    image = image-round env reliable t cmd q o e;
    stays_open = round-IsOpen env reliable t cmd q o e;
    durability = (round-Takes env reliable t cmd q o e).durability;
  }

  nil-Keeps : t.queue ≡ [] → Keeps t (wal_round env t)
  unfolding image
  nil-Keeps e =
      let k = idle-Takes env t reliable o e in
      record {
        image = rw (k.taken_more, k.queue, append-nil (taken t)) refl;
        stays_open = record {
          alive = k.alive ∙ o.alive;
          running = k.running ∙ o.running;
          no_shutdown = rw k.queue o.no_shutdown;
          on_disk = k.on_disk o.on_disk;
          held = k.held o.held;
        };
        durability = k.durability;
      }

  -- Any round of an open loop, whatever is in the channel and whenever it comes, keeps the image.
  pub wal_round-Keeps : Keeps t (wal_round env t)
  wal_round-Keeps = elim (List-cases t.queue) [
    | inl e ↦ nil-Keeps e
    | inr (cmd, q, e) ↦ cons-Keeps cmd q e
  ]

abbrev pub AllReliable : List Env → Type 0
AllReliable [] = Unit
AllReliable (env ∷ envs) = IsReliable env.io × AllReliable envs

-- However many rounds an open loop makes, on any timing and where all its writes succeed, before and now, it stays
-- open and what the file, the buffer and the channel hold together is the same bytes in the same
-- order.
pub run_rounds-Keeps :
    (envs : List Env) (t : WalThread) → AllReliable envs → IsOpen t → Keeps t (run_rounds envs t)
unfolding run_rounds
run_rounds-Keeps [] t h o = record { image = refl; stays_open = o; durability = refl }
run_rounds-Keeps (env ∷ envs) t h o =
    let k = wal_round-Keeps env h.0 t o in
    Keeps-trans k (run_rounds-Keeps envs (wal_round env t) h.1 k.stays_open)
