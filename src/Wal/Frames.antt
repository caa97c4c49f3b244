-- ===== src/Wal/Frames.antt =====
-- The bytes of a log file, and what `WalReader::replay` makes of them.
use lightgraph.Base.{
  ℕ, suc, ◌+◌, ◌-◌, ◌%◌, ◌^◌, ◌≤◌, ◌<◌, ◌≡◌, refl, sym, ap, ◌∙◌, false, some, List, [], ◌∷◌, ◌++◌,
  append-nil, append_assoc, arith, Bool, length, length-append, Bytes, read_exact-append,
  read_exact-short, u32_mod, to_le_bytes, length-to_le_bytes, from_le_bytes-to_le_bytes,
}
use lightgraph.Extern.{ok, err, unexpected_eof, read_file_exact, Bincode}
use lightgraph.Wal.{WalRecord, replay_loop, replay}

-- One record in the file: its length, and its bytes.
abbrev pub frame : Bytes → Bytes
frame bs = to_le_bytes 4 (length bs % u32_mod) ++ bs

unfoldable pub frames : List Bytes → Bytes
frames [] = []
frames (bs ∷ bss) = frame bs ++ frames bss

pub frames-append : (xs ys : List Bytes) → frames (xs ++ ys) ≡ frames xs ++ frames ys
unfolding frames
frames-append [] ys = refl
frames-append (bs ∷ xs) ys =
    ap (λ (z : Bytes). frame bs ++ z) (frames-append xs ys)
    ∙ sym (append_assoc (frame bs) (frames xs) (frames ys))

pub length-frames : (bss : List Bytes) → length bss ≤ length (frames bss)
unfolding frames
length-frames [] = omega arith
length-frames (bs ∷ bss) = omega (
  arith,
  length-frames bss,
  length-append (frame bs) (frames bss),
  length-append (to_le_bytes 4 (length bs % u32_mod)) bs,
  length-to_le_bytes 4 (length bs % u32_mod),
)

module _ {P : Type 0} ⦃B : Bincode (WalRecord P)⦄ where
  -- The record is written as these bytes, and their number fits the u32 in front of them.
  abbrev pub IsWrittenAs : WalRecord P → Bytes → Type 0
  IsWrittenAs r bs = (B.serialize r ≡ some bs) × (length bs < 2 ^ 32)

  abbrev pub AreWrittenAs : List (WalRecord P) → List Bytes → Type 0
  AreWrittenAs [] [] = Unit
  AreWrittenAs (r ∷ rs) (bs ∷ bss) = IsWrittenAs r bs × AreWrittenAs rs bss
  AreWrittenAs _ _ = ⊥

  pub AreWrittenAs-append :
      (rs : List (WalRecord P)) (bss : List Bytes) (rs' : List (WalRecord P)) (bss' : List Bytes)
      → AreWrittenAs rs bss
      → AreWrittenAs rs' bss'
      → AreWrittenAs (rs ++ rs') (bss ++ bss')
  AreWrittenAs-append [] [] rs' bss' h k = k
  AreWrittenAs-append [] (bs ∷ bss) rs' bss' h k = absurd h
  AreWrittenAs-append (r ∷ rs) [] rs' bss' h k = absurd h
  AreWrittenAs-append (r ∷ rs) (bs ∷ bss) rs' bss' h k =
      (h.0, AreWrittenAs-append rs bss rs' bss' h.1 k)

module _ (fails : Bytes → ℕ → Bool) (never : (file : Bytes) (n : ℕ) → fails file n ≡ false) where
  pub read_whole :
      (xs ys : Bytes) (n : ℕ) → length xs ≡ n → read_file_exact fails n (xs ++ ys) ≡ ok (xs, ys)
  read_whole xs ys n h = rw (never (xs ++ ys) n, read_exact-append n xs ys h)

  pub read_short :
      (xs : Bytes) (n : ℕ) → length xs < n → read_file_exact fails n xs ≡ err unexpected_eof
  read_short xs n h = rw (never xs n, read_exact-short n xs (omega arith))

module _ {P : Type 0} ⦃B : Bincode (WalRecord P)⦄ (fails : Bytes → ℕ → Bool)
    (never : (file : Bytes) (n : ℕ) → fails file n ≡ false) where
  replay_loop-frame :
      (r : WalRecord P) (bs rest : Bytes) (fuel : ℕ) (acc : List (WalRecord P))
      → IsWrittenAs r bs
      → replay_loop fails (suc fuel) (frame bs ++ rest) acc
        ≡ replay_loop fails fuel rest (acc ++ r ∷ [])
  unfolding replay_loop
  replay_loop-frame r bs rest fuel acc h =
      let small : length bs % u32_mod ≡ length bs = omega (arith, h.1) in
      rw (
        append_assoc,
        replay_loop,
        read_whole fails never (to_le_bytes 4 (length bs % u32_mod)) (bs ++ rest) 4
            (length-to_le_bytes 4 (length bs % u32_mod)),
        small,
        from_le_bytes-to_le_bytes 4 (length bs) h.1,
        read_whole fails never bs rest (length bs) refl,
        B.deserialize-serialize r bs h.0,
      )

  -- The loop takes whole records and goes on behind them.
  pub replay_loop-frames :
      (rs : List (WalRecord P)) (bss : List Bytes) (rest : Bytes) (fuel : ℕ)
      (acc : List (WalRecord P))
      → AreWrittenAs rs bss
      → replay_loop fails (length bss + fuel) (frames bss ++ rest) acc
        ≡ replay_loop fails fuel rest (acc ++ rs)
  unfolding frames
  replay_loop-frames [] [] rest fuel acc h =
      let e : 0 + fuel ≡ fuel = omega arith in rw (e, append-nil acc)
  replay_loop-frames [] (bs ∷ bss) rest fuel acc h = absurd h
  replay_loop-frames (r ∷ rs) [] rest fuel acc h = absurd h
  replay_loop-frames (r ∷ rs) (bs ∷ bss) rest fuel acc h =
      let e : suc (length bss) + fuel ≡ suc (length bss + fuel) = omega arith in
      rw (e, append_assoc (frame bs) (frames bss) rest)
        (replay_loop-frame r bs (frames bss ++ rest) (length bss + fuel) acc h.0
          ∙ replay_loop-frames rs bss rest fuel (acc ++ r ∷ []) h.1
          ∙ ap (replay_loop fails fuel rest) (append_assoc acc (r ∷ []) rs))

  pub replay-frames_append :
      (rs : List (WalRecord P)) (bss : List Bytes) (rest : Bytes)
      → AreWrittenAs rs bss
      → (k : ℕ) × (replay fails (frames bss ++ rest) ≡ replay_loop fails (suc k) rest rs)
  unfolding replay
  replay-frames_append rs bss rest h =
      let room : length bss ≤ length (frames bss ++ rest) =
        omega (arith, length-append (frames bss) rest, length-frames bss) in
      let k = length (frames bss ++ rest) - length bss in
      let e : suc (length (frames bss ++ rest)) ≡ length bss + suc k = omega arith in
      (k, rw e (replay_loop-frames rs bss rest (suc k) [] h))

  pub replay_loop-short :
      (k : ℕ) (rest : Bytes) (rs : List (WalRecord P))
      → length rest < 4
      → replay_loop fails (suc k) rest rs ≡ some (ok rs)
  unfolding replay_loop
  replay_loop-short k rest rs h = rw (replay_loop, read_short fails never rest 4 h)

  -- Where no read of the device fails, replay of a file of whole records, with at most three bytes of
  -- another length field behind them, ends and gives these records in order.
  pub replay-frames :
      (rs : List (WalRecord P)) (bss : List Bytes) (rest : Bytes)
      → AreWrittenAs rs bss
      → length rest < 4
      → replay fails (frames bss ++ rest) ≡ some (ok rs)
  replay-frames rs bss rest h short =
      let (k, e) = replay-frames_append rs bss rest h in e ∙ replay_loop-short k rest rs short

  -- Where no read of the device fails, replay of a file that ends inside the bytes of a record gives
  -- an error, and none of the records in front of it.
  replay-torn :
      (rs : List (WalRecord P)) (bss : List Bytes) (n : ℕ) (torn : Bytes)
      → AreWrittenAs rs bss
      → n < 2 ^ 32
      → length torn < n
      → replay {P = P} fails (frames bss ++ (to_le_bytes 4 n ++ torn)) ≡ some (err unexpected_eof)
  unfolding replay_loop
  replay-torn rs bss n torn h small short =
      let (k, e) = replay-frames_append rs bss (to_le_bytes 4 n ++ torn) h in
      e
      ∙ rw (
        replay_loop,
        read_whole fails never (to_le_bytes 4 n) torn 4 (length-to_le_bytes 4 n),
        from_le_bytes-to_le_bytes 4 n small,
        read_short fails never torn n short,
      )
