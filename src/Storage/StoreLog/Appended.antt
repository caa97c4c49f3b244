-- ===== src/Storage/StoreLog/Appended.antt =====
-- What is appended to a log is read back by its replay.
use mathlib.Core.List.{foldl}
use lightgraph.Base.{
  ℕ, suc, ◌+◌, ◌-◌, ◌%◌, ◌^◌, ◌≤◌, ◌<◌, ◌≡◌, refl, sym, ap, ◌∙◌, false, Bool-cases, inl, inr, none,
  List, [], ◌∷◌, ◌++◌, append-nil, append_assoc, arith, length, length-append, ◌==◌, ◌||◌, leb,
  Bytes, u32_mod, to_le_bytes, length-to_le_bytes, from_le_bytes-to_le_bytes, read_exact,
  read_exact-append, read_exact-short,
}
use lightgraph.Storage.WalLog.{magic, done, op_insert, op_delete}
use lightgraph.Storage.StoreLog.{
  StoreLog, op_tombstone, encode_record, sync_now, sync_now_lem, maybe_sync, append_insert,
  append_delete, flush, replay_loop, replay_log, open_log,
}

-- A record that is appended.
pub data Appended : Type 0 where
  inserted : Bytes → Appended
  deleted : Bytes → Appended

abbrev pub opcode : Appended → ℕ
opcode (inserted _) = op_insert
opcode (deleted _) = op_delete

abbrev pub payload : Appended → Bytes
payload (inserted bs) = bs
payload (deleted bs) = bs

-- The lengths fit the u32 in front of a record.
abbrev pub AllFit : List Appended → Type 0
AllFit [] = Unit
AllFit (r ∷ rs) = (length (payload r) < 2 ^ 32) × AllFit rs

abbrev pub encoded : Appended → Bytes
encoded r = encode_record [] (opcode r) (payload r)

unfoldable pub encoded_all : List Appended → Bytes
encoded_all [] = []
encoded_all (r ∷ rs) = encoded r ++ encoded_all rs

not_tombstone : (r : Appended) → (opcode r == op_tombstone) ≡ false
not_tombstone (inserted bs) = refl
not_tombstone (deleted bs) = refl

length-encoded_all : (rs : List Appended) → length rs ≤ length (encoded_all rs)
unfolding encoded_all encode_record
length-encoded_all [] = omega arith
length-encoded_all (r ∷ rs) = omega (
  arith,
  length-encoded_all rs,
  length-append (encode_record [] (opcode r) (payload r)) (encoded_all rs),
  length-append (to_le_bytes 4 (length (payload r) % u32_mod)) (opcode r ∷ payload r),
)

encoded-append :
    (r : Appended) (rest : Bytes)
    → encoded r ++ rest
      ≡ to_le_bytes 4 (length (payload r) % u32_mod) ++ ((opcode r ∷ []) ++ (payload r ++ rest))
unfolding encode_record
encoded-append r rest =
    append_assoc (to_le_bytes 4 (length (payload r) % u32_mod)) (opcode r ∷ payload r) rest

module _ {ℓ} {S : Type ℓ} (on_record : S → ℕ → Bytes → S) where
  abbrev pub apply : S → Appended → S
  apply s r = on_record s (opcode r) (payload r)

  replay_loop-encoded :
      (fuel : ℕ) (r : Appended) (rest : Bytes) (s : S)
      → length (payload r) < 2 ^ 32
      → replay_loop on_record (suc fuel) (encoded r ++ rest) s
        ≡ replay_loop on_record fuel rest (apply s r)
  unfolding replay_loop
  replay_loop-encoded fuel r rest s h =
      let small : length (payload r) % u32_mod ≡ length (payload r) = omega arith in
      rw (
        encoded-append r rest,
        replay_loop,
        read_exact-append 4 (to_le_bytes 4 (length (payload r) % u32_mod))
            ((opcode r ∷ []) ++ (payload r ++ rest))
            (length-to_le_bytes 4 (length (payload r) % u32_mod)),
        read_exact-append 1 (opcode r ∷ []) (payload r ++ rest) refl,
        small,
        from_le_bytes-to_le_bytes 4 (length (payload r)) h,
        read_exact-append (length (payload r)) (payload r) rest refl,
        not_tombstone r,
      )

  replay_loop-encoded_all :
      (rs : List Appended) (fuel : ℕ) (s : S)
      → AllFit rs
      → replay_loop on_record (length rs + suc fuel) (encoded_all rs) s ≡ (foldl apply s rs, done)
  unfolding encoded_all replay_loop
  replay_loop-encoded_all [] fuel s h =
      let e : 0 + suc fuel ≡ suc fuel = omega arith in
      rw (e, replay_loop, read_exact-short 4 [] (omega arith))
  replay_loop-encoded_all (r ∷ rs) fuel s h =
      let e : suc (length rs) + suc fuel ≡ suc (length rs + suc fuel) = omega arith in
      rw e (
        replay_loop-encoded (length rs + suc fuel) r (encoded_all rs) s h.0
        ∙ replay_loop-encoded_all rs fuel (apply s r) h.1)

  replay_log-encoded_all :
      (rs : List Appended) (s : S)
      → AllFit rs
      → replay_log on_record (magic ++ encoded_all rs) s ≡ (foldl apply s rs, done)
  unfolding replay_log read_exact
  replay_log-encoded_all rs s h =
      let k = length (encoded_all rs) - length rs in
      let e : suc (length (encoded_all rs)) ≡ length rs + suc k =
        omega (arith, length-encoded_all rs) in
      rw e (replay_loop-encoded_all rs k s h)

-- Everything that was appended: what is in the file, and the buffer.
abbrev pub logged : StoreLog → Bytes
logged l = l.written ++ l.buffer

logged-maybe_sync : (elapsed : ℕ) (l : StoreLog) → logged (maybe_sync elapsed l) ≡ logged l
unfolding maybe_sync
logged-maybe_sync elapsed l =
    elim (Bool-cases (leb l.batch_size (length l.buffer) || leb l.batch_timeout elapsed)) [
      | inr e ↦ rw (maybe_sync, e)
      | inl e ↦
          rw (maybe_sync, e)
            (append-nil (sync_now l).written ∙ ap (λ (m : StoreLog). m.written) (sync_now_lem l))
    ]

-- `append_insert` or `append_delete`, with the time since the last sync
abbrev pub append : ℕ → Appended → StoreLog → StoreLog
append elapsed (inserted bs) l = append_insert elapsed bs l
append elapsed (deleted bs) l = append_delete elapsed bs l

logged-append :
    (elapsed : ℕ) (r : Appended) (l : StoreLog)
    → logged (append elapsed r l) ≡ logged l ++ encoded r
unfolding append_insert append_delete encode_record
logged-append elapsed (inserted bs) l =
    logged-maybe_sync elapsed (record l { buffer = l.buffer ++ encoded (inserted bs) })
    ∙ sym (append_assoc l.written l.buffer (encoded (inserted bs)))
logged-append elapsed (deleted bs) l =
    logged-maybe_sync elapsed (record l { buffer = l.buffer ++ encoded (deleted bs) })
    ∙ sym (append_assoc l.written l.buffer (encoded (deleted bs)))

abbrev pub records_of : List (ℕ × Appended) → List Appended
records_of [] = []
records_of ((_, r) ∷ rs) = r ∷ records_of rs

abbrev pub append_each : List (ℕ × Appended) → StoreLog → StoreLog
append_each [] l = l
append_each ((elapsed, r) ∷ rs) l = append_each rs (append elapsed r l)

logged-append_each :
    (rs : List (ℕ × Appended)) (l : StoreLog)
    → logged (append_each rs l) ≡ logged l ++ encoded_all (records_of rs)
unfolding encoded_all
logged-append_each [] l = sym (append-nil (logged l))
logged-append_each ((elapsed, r) ∷ rs) l =
    logged-append_each rs (append elapsed r l)
    ∙ ap (λ (bs : Bytes). bs ++ encoded_all (records_of rs)) (logged-append elapsed r l)
    ∙ append_assoc (logged l) (encoded r) (encoded_all (records_of rs))

-- Insertions and deletions that are appended to a new log, with syncs by size and time between them
-- and one flush behind them, are on disk, and replay hands them to its callback in order, each once.
-- Their lengths fit the u32 in front of a record.
pub replay_log-append_each {ℓ} :
    {S : Type ℓ} (on_record : S → ℕ → Bytes → S) (rs : List (ℕ × Appended)) (s : S)
    → AllFit (records_of rs)
    → replay_log on_record (flush (append_each rs (open_log none))).synced s
      ≡ (foldl (apply on_record) s (records_of rs), done)
unfolding flush open_log
replay_log-append_each on_record rs s h =
    let l = append_each rs (open_log none) in
    let disk : (flush l).synced ≡ magic ++ encoded_all (records_of rs) =
      ap (λ (m : StoreLog). m.synced) (sync_now_lem l) ∙ logged-append_each rs (open_log none) in
    ap (λ (file : Bytes). replay_log on_record file s) disk
    ∙ replay_log-encoded_all on_record (records_of rs) s h
