-- ===== src/Storage/WalLog/RoundTrip.antt =====
-- Replay reads back the records that were encoded, in order.
use mathlib.Core.List.{foldl}
use lightgraph.Base.{
  ℕ, suc, ◌+◌, ◌-◌, ◌%◌, ◌^◌, ◌≤◌, ◌<◌, ◌≡◌, refl, ap, sym, ◌∙◌, false, List, [], ◌∷◌, ◌++◌,
  append-nil, append_assoc, arith, ltb, le→ltb, length, length-append, read_exact,
  read_exact-append, Bytes, u32_mod, to_le_bytes, from_le_bytes, length-to_le_bytes,
  from_le_bytes-to_le_bytes,
}
use lightgraph.Storage.WalLog.{
  magic, op_insert, op_delete, encode_insert, encode_delete, done, replay_loop, replay_wal,
}

-- What one record says.
pub data LogRecord : Type 0 where
  inserted : ℕ → Bytes → LogRecord
  deleted : ℕ → LogRecord

abbrev pub encode : LogRecord → Bytes
encode (inserted id payload) = encode_insert [] id payload
encode (deleted id) = encode_delete [] id

unfoldable pub encode_all : List LogRecord → Bytes
encode_all [] = []
encode_all (r ∷ rs) = encode r ++ encode_all rs

-- The id is a u64 and the length of the record fits the u32 in front of it.
abbrev pub Fits : LogRecord → Type 0
Fits (inserted id payload) = (id < 2 ^ 64) × (9 + length payload < 2 ^ 32)
Fits (deleted id) = id < 2 ^ 64

abbrev pub AllFit : List LogRecord → Type 0
AllFit [] = Unit
AllFit (r ∷ rs) = Fits r × AllFit rs

pub encode_all-append :
    (rs : List LogRecord) (r : LogRecord) → encode_all (rs ++ r ∷ []) ≡ encode_all rs ++ encode r
unfolding encode_all
encode_all-append [] r = append-nil (encode r)
encode_all-append (x ∷ rs) r =
    ap (λ (bs : Bytes). encode x ++ bs) (encode_all-append rs r)
    ∙ sym (append_assoc (encode x) (encode_all rs) (encode r))

pub AllFit-snoc : (rs : List LogRecord) (r : LogRecord) → AllFit rs → Fits r → AllFit (rs ++ r ∷ [])
AllFit-snoc [] r h k = (k, tt)
AllFit-snoc (x ∷ rs) r h k = (h.0, AllFit-snoc rs r h.1 k)

-- A record as the reader sees it: length, opcode, id, payload.
unfoldable pub frame : ℕ → ℕ → Bytes → Bytes
frame op id payload = to_le_bytes 4 (9 + length payload) ++ op ∷ (to_le_bytes 8 id ++ payload)

encode-inserted :
    (id : ℕ) (payload : Bytes)
    → 9 + length payload < 2 ^ 32
    → encode_insert [] id payload ≡ frame op_insert id payload
unfolding encode_insert frame
encode-inserted id payload h =
    let e : (1 + 8 + length payload) % u32_mod ≡ 9 + length payload = omega arith in rw e

encode-deleted : (id : ℕ) → encode_delete [] id ≡ frame op_delete id []
unfolding encode_delete frame
encode-deleted id = rw append-nil

frame-append :
    (op id : ℕ) (payload rest : Bytes)
    → frame op id payload ++ rest
      ≡ to_le_bytes 4 (9 + length payload) ++ ((op ∷ to_le_bytes 8 id) ++ (payload ++ rest))
unfolding frame
frame-append op id payload rest = simp append_assoc

module _ {ℓ} {S : Type ℓ} (on_record : S → ℕ → ℕ → Bytes → S) where
  abbrev pub apply : S → LogRecord → S
  apply s (inserted id payload) = on_record s op_insert id payload
  apply s (deleted id) = on_record s op_delete id []

  -- One round of the loop takes one whole record.
  replay_loop-frame :
      (fuel op id : ℕ) (payload rest : Bytes) (s : S)
      → id < 2 ^ 64
      → 9 + length payload < 2 ^ 32
      → replay_loop on_record (suc fuel) (frame op id payload ++ rest) s
        ≡ replay_loop on_record fuel rest (on_record s op id payload)
  unfolding replay_loop
  replay_loop-frame fuel op id payload rest s hid hlen =
      let total : from_le_bytes (to_le_bytes 4 (9 + length payload)) ≡ 9 + length payload =
        from_le_bytes-to_le_bytes 4 (9 + length payload) hlen in
      let long : ltb (9 + length payload) 9 ≡ false = le→ltb (9 + length payload) 9 (omega arith) in
      let len : 9 + length payload - 9 ≡ length payload = omega arith in
      rw (
        frame-append op id payload rest,
        replay_loop,
        read_exact-append 4 _ _ (length-to_le_bytes 4 (9 + length payload)),
        total,
        long,
        read_exact-append 9 (op ∷ to_le_bytes 8 id) _ (ap suc (length-to_le_bytes 8 id)),
        read_exact-append (from_le_bytes (to_le_bytes 4 (9 + length payload)) - 9) payload rest
            (omega (arith, total)),
        from_le_bytes-to_le_bytes 8 id hid,
      )

  pub replay_loop-encode :
      (fuel : ℕ) (r : LogRecord) (rest : Bytes) (s : S)
      → Fits r
      → replay_loop on_record (suc fuel) (encode r ++ rest) s
        ≡ replay_loop on_record fuel rest (apply s r)
  replay_loop-encode fuel (inserted id payload) rest s h =
      rw (encode-inserted id payload h.1)
        (replay_loop-frame fuel op_insert id payload rest s h.0 h.1)
  replay_loop-encode fuel (deleted id) rest s h =
      rw (encode-deleted id) (replay_loop-frame fuel op_delete id [] rest s h (omega arith))

  -- The loop takes a whole number of records and goes on behind them.
  pub replay_loop-encode_all :
      (rs : List LogRecord) (fuel : ℕ) (rest : Bytes) (s : S)
      → AllFit rs
      → replay_loop on_record (length rs + fuel) (encode_all rs ++ rest) s
        ≡ replay_loop on_record fuel rest (foldl apply s rs)
  unfolding encode_all
  replay_loop-encode_all [] fuel rest s h = let e : 0 + fuel ≡ fuel = omega arith in rw e
  replay_loop-encode_all (r ∷ rs) fuel rest s h =
      let e : suc (length rs) + fuel ≡ suc (length rs + fuel) = omega arith in
      rw (e, append_assoc)
        (replay_loop-encode (length rs + fuel) r (encode_all rs ++ rest) s h.0
          ∙ replay_loop-encode_all rs fuel rest (apply s r) h.1)

pub length-frame :
    (op id : ℕ) (payload : Bytes) → length (frame op id payload) ≡ 13 + length payload
unfolding frame
length-frame op id payload = omega (
  arith,
  length-append (to_le_bytes 4 (9 + length payload)) (op ∷ (to_le_bytes 8 id ++ payload)),
  length-append (to_le_bytes 8 id) payload,
  length-to_le_bytes 4 (9 + length payload),
  length-to_le_bytes 8 id,
)

-- The frame that a record is written as.
pub encode-frame :
    (r : LogRecord)
    → Fits r
    → (op id : ℕ) × (payload : Bytes) × (encode r ≡ frame op id payload)
      × (id < 2 ^ 64)
      × (9 + length payload < 2 ^ 32)
encode-frame (inserted id payload) h =
    (op_insert, id, payload, encode-inserted id payload h.1, h.0, h.1)
encode-frame (deleted id) h = (op_delete, id, [], encode-deleted id, h, omega arith)

pub length-encode : (r : LogRecord) → Fits r → 13 ≤ length (encode r)
length-encode (inserted id payload) h =
    rw (encode-inserted id payload h.1) (omega (arith, length-frame op_insert id payload))
length-encode (deleted id) h = rw (encode-deleted id) (omega (arith, length-frame op_delete id []))

length-encode_all : (rs : List LogRecord) → AllFit rs → length rs ≤ length (encode_all rs)
unfolding encode_all
length-encode_all [] h = omega arith
length-encode_all (r ∷ rs) h =
    omega (
      arith,
      length-append (encode r) (encode_all rs),
      length-encode r h.0,
      length-encode_all rs h.1,
    )

module _ {ℓ} {S : Type ℓ} (on_record : S → ℕ → ℕ → Bytes → S) where
  -- Behind whole records there is a round left for each byte that remains, and one more.
  pub replay_wal-encode_all_append :
      (rs : List LogRecord) (rest : Bytes) (s : S)
      → AllFit rs
      → (k : ℕ) × (replay_wal on_record (magic ++ (encode_all rs ++ rest)) s
          ≡ replay_loop on_record (suc k) rest (foldl (apply on_record) s rs))
  unfolding replay_wal read_exact
  replay_wal-encode_all_append rs rest s h =
      let room : length rs ≤ length (encode_all rs ++ rest) =
        omega (arith, length-append (encode_all rs) rest, length-encode_all rs h) in
      let k = length (encode_all rs ++ rest) - length rs in
      let e : suc (length (encode_all rs ++ rest)) ≡ length rs + suc k = omega arith in
      (k, rw e (replay_loop-encode_all on_record rs (suc k) rest s h))

  -- Replay of a log file of records whose ids and lengths fit the format hands every record that was
  -- encoded to the callback, in order and once, and ends without an error.
  pub replay_wal-encode_all :
      (rs : List LogRecord) (s : S)
      → AllFit rs
      → replay_wal on_record (magic ++ encode_all rs) s ≡ (foldl (apply on_record) s rs, done)
  unfolding replay_loop read_exact
  replay_wal-encode_all rs s h =
      let (k, e) = replay_wal-encode_all_append rs [] s h in
      let file : magic ++ (encode_all rs ++ []) ≡ magic ++ encode_all rs =
        ap (λ (bs : Bytes). magic ++ bs) (append-nil (encode_all rs)) in
      rw (← file) (rw e refl)
