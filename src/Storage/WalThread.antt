-- ===== src/Storage/WalThread.antt =====
-- The log thread of src/storage/wal_thread.rs: the handle that the stores send to, the channel, and
-- the loop that writes the file.
pub mod Image
pub mod Rounds
pub mod Flush
pub mod Shutdown
pub mod Records
use lightgraph.Base.{
  ℕ, zero, suc, ◌+◌, ◌-◌, ◌*◌, ◌%◌, ◌^◌, ◌≡◌, true, false, Option, none, some, List, [], ◌∷◌, ◌++◌,
  Bool, ltb, leb, not, ◌&&◌, ◌||◌, if◌then◌else◌, length, take, drop, Bytes, u64_mod,
}
use lightgraph.Types.{u64_max}
use lightgraph.Storage.Consistency.{Durability, batch_timeout, batch_bytes, fsync_enabled}
use lightgraph.Storage.WalLog.{magic, encode_insert, encode_delete}

-- A reply is a `()` on a channel of the command's own; the state counts the replies sent.
pub data WalCmd : Type 0 where
  insert : ℕ → Bytes → WalCmd
  delete : ℕ → WalCmd
  flush : WalCmd
  shutdown : WalCmd

-- What the `BufWriter` and the operating system do with one write and flush: how many of the bytes
-- offered reach the file, how many of the others the `BufWriter` keeps for the next time, and whether
-- `sync_all` succeeds. Errors are printed and the loop goes on.
pub record Io : Type 0 where
  pub accepted : ℕ → ℕ
  pub kept : ℕ → ℕ
  pub sync_ok : Bool

-- One round of the loop sees the clock and the operating system.
pub record Env : Type 0 where
  pub elapsed : ℕ
  pub io : Io

pub record WalThread : Type 0 where
  pub durability : Durability
  -- the channel, oldest command first
  pub queue : List WalCmd
  pub running : Bool
  -- the loop has not returned
  pub alive : Bool
  pub pending_bytes : ℕ
  -- the loop's own buffer
  pub buffer : Bytes
  -- what a failed write has left in the `BufWriter`
  pub held : Bytes
  -- the file as the operating system has it, and as it is on disk
  pub written : Bytes
  pub synced : Bytes
  pub replies : ℕ

abbrev pub is_empty {ℓ} : {A : Type ℓ} → List A → Bool
is_empty [] = true
is_empty (_ ∷ _) = false

-- `BufWriter::with_capacity(batch_bytes * 2)` panics above `isize::MAX` bytes, where the product has
-- wrapped. Memory is not modelled.
unfoldable pub capacity_fits : Durability → Bool
unfolding batch_bytes
capacity_fits d = ltb (batch_bytes d * 2 % u64_mod) (2 ^ 63)

-- The loop's own `Vec::with_capacity(batch_bytes)` panics in the thread.
unfoldable pub loop_fits : Durability → Bool
unfolding batch_bytes
loop_fits d = ltb (batch_bytes d) (2 ^ 63)

-- `spawn`: `none` is its panic; a thread that panics is not alive. `file` is the file's content, if it is there.
abbrev pub content : Option Bytes → Bytes
content none = []
content (some bytes) = bytes

abbrev pub started : Bytes → Durability → WalThread
started file durability = record {
  durability = durability;
  queue = [];
  running = true;
  alive = true;
  pending_bytes = 0;
  buffer = [];
  held = [];
  written = file;
  synced = file;
  replies = 0;
}

-- a missing or empty file is given the magic number
abbrev pub opened : Option Bytes → Bytes
opened file = if is_empty (content file) then magic else content file

unfoldable pub spawn : Option Bytes → Durability → Option WalThread
unfolding capacity_fits loop_fits
spawn file durability =
    if capacity_fits durability
    then some (record (started (opened file) durability) { alive = loop_fits durability })
    else none

-- A send to a loop that has returned fails, and the command is lost with a message.
unfoldable pub send : WalCmd → WalThread → WalThread
send cmd t = if t.alive then record t { queue = t.queue ++ cmd ∷ [] } else t

unfoldable pub send_insert : ℕ → Bytes → WalThread → WalThread
unfolding send
send_insert id payload t =
    send (insert id payload)
      (record t { pending_bytes = (t.pending_bytes + (length payload + 9)) % u64_mod })

unfoldable pub send_delete : ℕ → WalThread → WalThread
unfolding send
send_delete id t = send (delete id) (record t { pending_bytes = (t.pending_bytes + 9) % u64_mod })

unfoldable pub flush_and_sync : Io → WalThread → WalThread
unfolding fsync_enabled
flush_and_sync io t =
    if is_empty t.buffer
    then t
    else (let offered : Bytes = t.held ++ t.buffer in
        let n = io.accepted (length offered) in
        let file : Bytes = t.written ++ take n offered in
        let rest : Bytes = drop n offered in
        record t {
          written = file;
          held = take (io.kept (length rest)) rest;
          synced = if fsync_enabled t.durability && io.sync_ok then file else t.synced;
          pending_bytes = 0;
          buffer = [];
        })

-- the end of a round: sync if the buffer is full or the time is up, and there is something to write
unfoldable pub must_sync : Env → WalThread → Bool
unfolding batch_bytes batch_timeout
must_sync env t =
    (leb (batch_bytes t.durability) (length t.buffer)
      || leb (batch_timeout t.durability) env.elapsed)
    && not (is_empty t.buffer)

unfoldable pub maybe_sync : Env → WalThread → WalThread
unfolding must_sync flush_and_sync
maybe_sync env t = if must_sync env t then flush_and_sync env.io t else t

unfoldable pub handle : Env → WalCmd → WalThread → WalThread
unfolding flush_and_sync maybe_sync
handle env (insert id payload) t =
    maybe_sync env (record t { buffer = encode_insert t.buffer id payload })
handle env (delete id) t = maybe_sync env (record t { buffer = encode_delete t.buffer id })
handle env flush t = let t' = flush_and_sync env.io t in record t' { replies = t'.replies + 1 }
handle env shutdown t =
    let t' = flush_and_sync env.io t in record t' { replies = t'.replies + 1; alive = false }

-- A received command: the flag is read before the command is looked at.
unfoldable pub receive : Env → WalCmd → WalThread → WalThread
unfolding flush_and_sync handle
receive env cmd t =
    if t.running then handle env cmd t else record (flush_and_sync env.io t) { alive = false }

-- No command came in time.
unfoldable pub idle : Env → WalThread → WalThread
unfolding maybe_sync
idle env t =
    if not t.running && is_empty t.buffer then record t { alive = false } else maybe_sync env t

abbrev pub round_on : List WalCmd → Env → WalThread → WalThread
round_on [] env t = idle env t
round_on (cmd ∷ rest) env t = receive env cmd (record t { queue = rest })

-- One round of `wal_loop`.
unfoldable pub wal_round : Env → WalThread → WalThread
unfolding receive idle
wal_round env t = if t.alive then round_on t.queue env t else t

-- `n` rounds, one for each of the environment's answers.
unfoldable pub run_rounds : List Env → WalThread → WalThread
run_rounds [] t = t
run_rounds (env ∷ envs) t = run_rounds envs (wal_round env t)

-- `flush`: the caller blocks until the loop has replied, which takes a round for each command in
-- the channel; `env` answers round `i` from the end.
abbrev pub envs_of : ℕ → (ℕ → Env) → List Env
envs_of zero env = []
envs_of (suc n) env = env n ∷ envs_of n env

unfoldable pub flush_now : (ℕ → Env) → WalThread → WalThread
unfolding send
flush_now env t =
    let t' = send flush t in
    record (run_rounds (envs_of (length t'.queue) env) t') { pending_bytes = 0 }

-- `shutdown`: the flag, the command, and the join of the thread.
unfoldable pub shutdown_now : Env → WalThread → WalThread
unfolding send
shutdown_now env t = wal_round env (send shutdown (record t { running = false }))

-- `drop`: the flag, a command to wake the loop, and the join of the thread.
unfoldable pub drop_now : Env → WalThread → WalThread
unfolding send
drop_now env t = wal_round env (send (delete u64_max) (record t { running = false }))
