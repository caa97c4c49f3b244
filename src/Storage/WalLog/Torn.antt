-- ===== src/Storage/WalLog/Torn.antt =====
-- Replay of a file that ends inside a record.
use mathlib.Core.List.{foldl}
use lightgraph.Base.{
  ℕ, zero, suc, ◌+◌, ◌-◌, ◌^◌, ◌≤◌, ◌<◌, ◌≡◌, refl, ap, sym, ◌∙◌, false, some, List, [], ◌∷◌, ◌++◌,
  arith, ltb, le→ltb, length, length-append, read_exact, read_exact-short, Bytes, to_le_bytes,
  from_le_bytes, length-to_le_bytes, from_le_bytes-to_le_bytes,
}
use native.Mathlib.Decide.{dec_lt}
use lightgraph.Storage.WalLog.{magic, done, unexpected_eof, replay_loop, replay_wal}
use lightgraph.Storage.WalLog.RoundTrip.{
  LogRecord, encode, encode_all, Fits, AllFit, frame, apply, encode-frame,
  replay_wal-encode_all_append,
}

-- A read that stays inside a prefix of `front ++ back` takes `front`.
read_exact-prefix {ℓ} :
    {A : Type ℓ} (n : ℕ) (xs ys front back : List A)
    → n ≤ length xs
    → length front ≡ n
    → xs ++ ys ≡ front ++ back
    → (r : List A) × (read_exact n xs ≡ some (front, r)) × (r ++ ys ≡ back)
unfolding read_exact
read_exact-prefix zero xs ys [] back h k e = (xs, refl, e)
read_exact-prefix zero xs ys (a ∷ front) back h k e = absurd (omega arith)
read_exact-prefix (suc n) [] ys front back h k e = absurd (omega arith)
read_exact-prefix (suc n) (x ∷ xs) ys [] back h k e = absurd (omega arith)
read_exact-prefix (suc n) (x ∷ xs) ys (a ∷ front) back h k e =
    let (r, p, q) = read_exact-prefix n xs ys front back (omega arith) (omega arith) (cc) in
    let hd : x ≡ a = cc in (r, rw (p, hd), q)

module _ {ℓ} {S : Type ℓ} (on_record : S → ℕ → ℕ → Bytes → S) where
  torn_frame :
      (k op id : ℕ) (payload torn missing : Bytes) (s : S)
      → 9 + length payload < 2 ^ 32
      → torn ++ missing ≡ frame op id payload
      → 4 ≤ length torn
      → 0 < length missing
      → replay_loop on_record (suc k) torn s ≡ (s, unexpected_eof)
  unfolding frame replay_loop
  torn_frame k op id payload torn missing s small e h4 cut =
      let (t₁, p, q) =
        read_exact-prefix 4 torn missing (to_le_bytes 4 (9 + length payload))
          (op ∷ (to_le_bytes 8 id ++ payload)) h4 (length-to_le_bytes 4 (9 + length payload)) e in
      let total : from_le_bytes (to_le_bytes 4 (9 + length payload)) ≡ 9 + length payload =
        from_le_bytes-to_le_bytes 4 (9 + length payload) small in
      let long : ltb (9 + length payload) 9 ≡ false = le→ltb (9 + length payload) 9 (omega arith) in
      elim (dec_lt (length t₁) 9) [
        | yes short ↦ rw (replay_loop, p, total, long, read_exact-short 9 t₁ short)
        | no more ↦
            let (t₂, p', q') =
              read_exact-prefix 9 t₁ missing (op ∷ to_le_bytes 8 id) payload (omega arith)
                (ap suc (length-to_le_bytes 8 id)) q in
            let rest : length t₂ + length missing ≡ length payload =
              sym (length-append t₂ missing) ∙ ap length q' in
            rw (
              replay_loop,
              p,
              total,
              long,
              p',
              read_exact-short (from_le_bytes (to_le_bytes 4 (9 + length payload)) - 9) t₂
                  (omega (arith, total)),
            )
      ]

  -- Of a file of records that fit the format, cut inside the last one behind its length field, the
  -- records before the cut reach the callback in order, and then the replay ends in an error.
  pub replay_wal-torn :
      (rs : List LogRecord) (r : LogRecord) (torn missing : Bytes) (s : S)
      → AllFit rs
      → Fits r
      → torn ++ missing ≡ encode r
      → 4 ≤ length torn
      → 0 < length missing
      → replay_wal on_record (magic ++ (encode_all rs ++ torn)) s
        ≡ (foldl (apply on_record) s rs, unexpected_eof)
  replay_wal-torn rs r torn missing s fits fit e h4 cut =
      let (k, p) = replay_wal-encode_all_append on_record rs torn s fits in
      let (op, id, payload, f, hid, hlen) = encode-frame r fit in
      p ∙ torn_frame k op id payload torn missing _ hlen (e ∙ f) h4 cut

  -- Of a file of records that fit the format, cut inside the length field of the next one, the
  -- records before the cut reach the callback in order, and the replay ends without an error.
  replay_wal-torn_length :
      (rs : List LogRecord) (torn : Bytes) (s : S)
      → AllFit rs
      → length torn < 4
      → replay_wal on_record (magic ++ (encode_all rs ++ torn)) s
        ≡ (foldl (apply on_record) s rs, done)
  unfolding replay_loop
  replay_wal-torn_length rs torn s fits h =
      let (k, p) = replay_wal-encode_all_append on_record rs torn s fits in
      p ∙ rw (replay_loop, read_exact-short 4 torn h)
