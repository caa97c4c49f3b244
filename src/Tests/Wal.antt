-- ===== src/Tests/Wal.antt =====
-- The log at concrete inputs.
use mathlib.Core.List.{foldl}
use lightgraph.Base.{
  read_exact, to_le_bytes, from_le_bytes, ℕ, ◌≡◌, refl, true, none, List, [], ◌∷◌, ◌++◌, arith,
  Bytes,
}
use lightgraph.Storage.Consistency.{immediate, fsync_enabled}
use lightgraph.Storage.WalLog.{
  magic, replay_wal, replay_loop, encode_insert, encode_delete, done, unexpected_eof,
}
use lightgraph.Storage.WalLog.RoundTrip.{
  LogRecord, inserted, deleted, encode, encode_all, AllFit, apply, replay_wal-encode_all,
}
use lightgraph.Storage.WalLog.Torn.{replay_wal-torn}
use lightgraph.Storage.StoreLog
use lightgraph.Storage.StoreLog.Appended
use lightgraph.Storage.StoreLog.Appended.{replay_log-append_each}
use lightgraph.Storage.WalThread
use lightgraph.Storage.WalThread.{
  WalThread, WalCmd, Io, Env, started, spawn, opened, send_insert, send_delete, flush_now,
  run_rounds, drop_now, shutdown_now,
}
use lightgraph.Storage.WalThread.Image.{image, queue_bytes, IsReliable, IsOpen}
use lightgraph.Storage.WalThread.Rounds.{Keeps, run_rounds-Keeps}
use lightgraph.Storage.WalThread.Flush.{Flushed, flush_now-Flushed}
use lightgraph.Storage.WalThread.Shutdown.{stop_loses_queue}

-- a callback that keeps what it is called with
abbrev keep : List (ℕ × ℕ × Bytes) → ℕ → ℕ → Bytes → List (ℕ × ℕ × Bytes)
keep s op id bs = (op, id, bs) ∷ s

abbrev two_records : List LogRecord
two_records = inserted 7 (1 ∷ 2 ∷ []) ∷ deleted 300 ∷ []

two_records-AllFit : AllFit two_records
two_records-AllFit = ((omega arith, omega arith), (omega arith, tt))

replay_two :
    replay_wal keep (magic ++ encode_all two_records) []
    ≡ ((2, 300, []) ∷ (1, 7, 1 ∷ 2 ∷ []) ∷ [], done)
unfolding replay_wal encode_all encode_insert encode_delete read_exact replay_loop to_le_bytes
    from_le_bytes
replay_two = refl

replay_wal-encode_all_example :
    replay_wal keep (magic ++ encode_all two_records) [] ≡ (foldl (apply keep) [] two_records, done)
replay_wal-encode_all_example = replay_wal-encode_all keep two_records [] two_records-AllFit

-- the first six bytes of a delete of id 1
abbrev torn_bytes : Bytes
torn_bytes = 9 ∷ 0 ∷ 0 ∷ 0 ∷ 2 ∷ 1 ∷ []

torn_split : torn_bytes ++ (0 ∷ 0 ∷ 0 ∷ 0 ∷ 0 ∷ 0 ∷ 0 ∷ []) ≡ encode (deleted 1)
unfolding encode_delete to_le_bytes
torn_split = refl

replay_wal-torn_example :
    replay_wal keep (magic ++ (encode_all two_records ++ torn_bytes)) []
    ≡ (foldl (apply keep) [] two_records, unexpected_eof)
replay_wal-torn_example =
    replay_wal-torn keep two_records (deleted 1) torn_bytes (0 ∷ 0 ∷ 0 ∷ 0 ∷ 0 ∷ 0 ∷ 0 ∷ []) []
      two_records-AllFit (omega arith) torn_split (omega arith) (omega arith)

abbrev pub good : Io
good = record { accepted = λ n. n; kept = λ n. n; sync_ok = true }

pub good-IsReliable : IsReliable good
good-IsReliable = record { whole = λ n. refl; synced = refl }

abbrev pub calm : Env
calm = record { elapsed = 1; io = good }

-- a log thread with one insert in its buffer and one delete in its channel
abbrev busy : WalThread
busy = record (started magic immediate) {
  queue = WalThread.delete 4 ∷ [];
  buffer = encode (inserted 4 (9 ∷ []));
}

busy-IsOpen : IsOpen busy
unfolding fsync_enabled
busy-IsOpen = record { alive = refl; running = refl; no_shutdown = tt; on_disk = refl; held = refl }

run_rounds-Keeps_example : Keeps busy (run_rounds (calm ∷ calm ∷ []) busy)
run_rounds-Keeps_example =
    run_rounds-Keeps (calm ∷ calm ∷ []) busy (good-IsReliable, (good-IsReliable, tt)) busy-IsOpen

flush_now-Flushed_example : Flushed busy (flush_now (λ _. calm) busy)
flush_now-Flushed_example = flush_now-Flushed (λ _. calm) (λ _. good-IsReliable) busy busy-IsOpen

stop_loses_queue_example :
    (image busy ≡ (run_rounds (calm ∷ []) (drop_now calm busy)).written ++ queue_bytes busy.queue)
    × (image busy
        ≡ (run_rounds (calm ∷ []) (shutdown_now calm busy)).written ++ queue_bytes busy.queue)
stop_loses_queue_example = stop_loses_queue calm good-IsReliable busy busy-IsOpen (calm ∷ [])

-- two inserts and a delete, the second of them long after the last sync
abbrev appends : List (ℕ × Appended.Appended)
appends =
    (10, Appended.inserted (5 ∷ 6 ∷ []))
    ∷ (6000000, Appended.inserted (7 ∷ []))
    ∷ (20, Appended.deleted (9 ∷ 0 ∷ []))
    ∷ []

abbrev keep_payload : List (ℕ × Bytes) → ℕ → Bytes → List (ℕ × Bytes)
keep_payload s op bs = (op, bs) ∷ s

replay_log-append_each_example :
    StoreLog.replay_log keep_payload
      (StoreLog.flush (Appended.append_each appends (StoreLog.open_log none))).synced
      []
    ≡ (foldl (Appended.apply keep_payload) [] (Appended.records_of appends), done)
replay_log-append_each_example =
    replay_log-append_each keep_payload appends [] (omega arith, (omega arith, (omega arith, tt)))
