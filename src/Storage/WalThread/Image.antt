-- ===== src/Storage/WalThread/Image.antt =====
-- The log image: what the file holds once the loop has caught up with the channel.
use lightgraph.Base.{
  ℕ, zero, suc, ◌≡◌, refl, sym, ap, ◌∙◌, true, List, [], ◌∷◌, ◌++◌, append-nil, append_assoc, arith,
  if◌then◌else◌, length, take, take-length, drop, drop-length, Bytes, inl, inr, Bool-cases,
}
use lightgraph.Storage.Consistency.{fsync_enabled}
use lightgraph.Storage.WalLog.{encode_insert, encode_delete}
use lightgraph.Storage.WalThread.{
  WalCmd, insert, delete, flush, shutdown, Io, Env, WalThread, flush_and_sync, must_sync,
  maybe_sync, handle,
}

abbrev pub cmd_bytes : WalCmd → Bytes
cmd_bytes (insert id payload) = encode_insert [] id payload
cmd_bytes (delete id) = encode_delete [] id
cmd_bytes flush = []
cmd_bytes shutdown = []

unfoldable pub queue_bytes : List WalCmd → Bytes
queue_bytes [] = []
queue_bytes (cmd ∷ q) = cmd_bytes cmd ++ queue_bytes q

pub queue_bytes-append : (p q : List WalCmd) → queue_bytes (p ++ q) ≡ queue_bytes p ++ queue_bytes q
unfolding queue_bytes
queue_bytes-append [] q = refl
queue_bytes-append (cmd ∷ p) q =
    ap (λ (bs : Bytes). cmd_bytes cmd ++ bs) (queue_bytes-append p q)
    ∙ sym (append_assoc (cmd_bytes cmd) (queue_bytes p) (queue_bytes q))

-- what the loop has taken from the channel
abbrev pub taken : WalThread → Bytes
taken t = t.written ++ (t.held ++ t.buffer)

unfoldable pub image : WalThread → Bytes
image t = taken t ++ queue_bytes t.queue

-- Every write goes through whole.
pub record IsReliable (io : Io) : Type 0 where
  pub whole : (n : ℕ) → io.accepted n ≡ n
  pub synced : io.sync_ok ≡ true

abbrev pub NoShutdown : List WalCmd → Type 0
NoShutdown [] = Unit
NoShutdown (shutdown ∷ q) = ⊥
NoShutdown (_ ∷ q) = NoShutdown q

-- with fsync enabled, all that is written is on disk
abbrev pub IsOnDisk : WalThread → Type 0
IsOnDisk t = (if fsync_enabled t.durability then t.synced else t.written) ≡ t.written

-- The loop runs, nothing has asked it to end, and no write before has failed: what was written is on
-- disk where fsync is enabled, and the `BufWriter` is empty.
pub record IsOpen (t : WalThread) : Type 0 where
  pub alive : t.alive ≡ true
  pub running : t.running ≡ true
  pub no_shutdown : NoShutdown t.queue
  pub on_disk : IsOnDisk t
  pub held : t.held ≡ []

-- What one command does to an open loop: its bytes are taken, the rest stays.
pub record Takes (bytes : Bytes) (t t' : WalThread) : Type 0 where
  pub taken_more : taken t' ≡ taken t ++ bytes
  pub queue : t'.queue ≡ t.queue
  pub durability : t'.durability ≡ t.durability
  pub alive : t'.alive ≡ t.alive
  pub running : t'.running ≡ t.running
  pub on_disk : IsOnDisk t → IsOnDisk t'
  pub held : t.held ≡ [] → t'.held ≡ []

encode_insert-append :
    (buf : Bytes) (id : ℕ) (payload : Bytes)
    → encode_insert buf id payload ≡ buf ++ encode_insert [] id payload
unfolding encode_insert
encode_insert-append buf id payload = simp append_assoc

encode_delete-append : (buf : Bytes) (id : ℕ) → encode_delete buf id ≡ buf ++ encode_delete [] id
unfolding encode_delete
encode_delete-append buf id = simp append_assoc

take_whole : {io : Io} (bs : Bytes) → IsReliable io → take (io.accepted (length bs)) bs ≡ bs
take_whole bs h = rw (h.whole (length bs)) (take-length (length bs) bs (omega arith))

drop_whole : {io : Io} (bs : Bytes) → IsReliable io → drop (io.accepted (length bs)) bs ≡ []
drop_whole bs h = rw (h.whole (length bs)) (drop-length (length bs) bs (omega arith))

take_nil : (n : ℕ) → take {A = ℕ} n [] ≡ []
take_nil zero = refl
take_nil (suc n) = refl

none_held :
    {io : Io} (bs : Bytes)
    → IsReliable io
    → take
        (io.kept (length (drop (io.accepted (length bs)) bs)))
        (drop (io.accepted (length bs)) bs)
      ≡ []
none_held bs h = rw (drop_whole bs h) (take_nil _)

pub Takes-refl : (t : WalThread) → Takes [] t t
Takes-refl t = record {
  taken_more = sym (append-nil (taken t));
  queue = refl;
  durability = refl;
  alive = refl;
  running = refl;
  on_disk = λ d. d;
  held = λ h. h;
}

-- Writing to the file what was taken takes nothing more.
Takes-then :
    {bytes : Bytes} {t t' t'' : WalThread} → Takes bytes t t' → Takes [] t' t'' → Takes bytes t t''
Takes-then {t'} h k = record {
  taken_more = k.taken_more ∙ append-nil (taken t') ∙ h.taken_more;
  queue = k.queue ∙ h.queue;
  durability = k.durability ∙ h.durability;
  alive = k.alive ∙ h.alive;
  running = k.running ∙ h.running;
  on_disk = λ d. k.on_disk (h.on_disk d);
  held = λ e. k.held (h.held e);
}

buffer-Takes :
    (t : WalThread) (bytes buf : Bytes)
    → buf ≡ t.buffer ++ bytes
    → Takes bytes t (record t { buffer = buf })
buffer-Takes t bytes buf e = record {
  taken_more =
      ap (λ (bs : Bytes). t.written ++ (t.held ++ bs)) e
      ∙ ap (λ (bs : Bytes). t.written ++ bs) (sym (append_assoc t.held t.buffer bytes))
      ∙ sym (append_assoc t.written (t.held ++ t.buffer) bytes);
  queue = refl;
  durability = refl;
  alive = refl;
  running = refl;
  on_disk = λ d. d;
  held = λ h. h;
}

module _ (t : WalThread) where
  pub buffer-flush_and_sync : (io : Io) → (flush_and_sync io t).buffer ≡ []
  unfolding flush_and_sync
  buffer-flush_and_sync io = ground arith

  pub flush_and_sync-Takes : (io : Io) → IsReliable io → Takes [] t (flush_and_sync io t)
  unfolding flush_and_sync
  flush_and_sync-Takes io h = ground (
    arith,
    take_whole (t.held ++ t.buffer) h,
    none_held (t.held ++ t.buffer) h,
    append-nil t.written,
    append-nil (taken t),
  )

  pub maybe_sync-Takes : (env : Env) → IsReliable env.io → Takes [] t (maybe_sync env t)
  unfolding maybe_sync
  maybe_sync-Takes env h = elim (Bool-cases (must_sync env t)) [
    | inl b ↦ rw (maybe_sync, b) (flush_and_sync-Takes env.io h)
    | inr b ↦ rw (maybe_sync, b) (Takes-refl t)
  ]

module _ (env : Env) (t : WalThread) (h : IsReliable env.io) where
  -- An open loop takes the bytes of a command, whichever it is but `shutdown`.
  pub handle-Takes :
      (cmd : WalCmd) → NoShutdown (cmd ∷ []) → Takes (cmd_bytes cmd) t (handle env cmd t)
  unfolding handle
  handle-Takes (insert id payload) n =
      Takes-then (buffer-Takes t _ _ (encode_insert-append t.buffer id payload))
        (maybe_sync-Takes _ env h)
  handle-Takes (delete id) n =
      Takes-then (buffer-Takes t _ _ (encode_delete-append t.buffer id)) (maybe_sync-Takes _ env h)
  handle-Takes flush n =
      let k = flush_and_sync-Takes t env.io h in
      record {
        taken_more = k.taken_more;
        queue = k.queue;
        durability = k.durability;
        alive = k.alive;
        running = k.running;
        on_disk = k.on_disk;
        held = k.held;
      }
  handle-Takes shutdown n = absurd n

  pub buffer-handle-flush : (handle env flush t).buffer ≡ []
  unfolding handle
  buffer-handle-flush = buffer-flush_and_sync t env.io
