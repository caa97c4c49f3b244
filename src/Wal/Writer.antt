-- ===== src/Wal/Writer.antt =====
-- What the writer hands to the file: `WalWriter::write` and `WalWriter::flush`.
use lightgraph.Base.{
  ℕ, ◌%◌, ◌<◌, ◌≡◌, refl, sym, ap, subst, ◌∙◌, Bool-cases, ◌⊎◌, inl, inr, some, [], ◌++◌,
  append-nil, append_assoc, arith, length, Bytes, u32_mod, to_le_bytes, true, false, Bool,
}
use lightgraph.Extern.{IoError, IoResult, ok, err, Output, Bincode}
use lightgraph.Wal.{WalRecord, WalWriter, Written, returned, panicked, flush, must_flush, write}
use lightgraph.Wal.Frames.{frame}

pub IoResult-cases : (r : IoResult Unit) → (r ≡ ok tt) ⊎ ((e : IoError) × (r ≡ err e))
IoResult-cases (ok _) = inl refl
IoResult-cases (err e) = inr (e, refl)

abbrev ok_or_error : {A : Type 0} → IoResult A → Bool
ok_or_error (ok _) = true
ok_or_error (err _) = false

pub ok_not_error : {e : IoError} → err e ≡ ok tt → ⊥
ok_not_error h = let b : false ≡ true = ap ok_or_error h in cc

module _ {W : Type 0} ⦃O : Output W⦄ where
  -- Everything that was written: what the file has been handed, and the writer's buffer.
  abbrev pub logged : WalWriter W → Bytes
  logged w = O.accepted w.writer ++ w.buffer

  -- A flush that went well.
  pub record Flushed (w w' : WalWriter W) : Type 0 where
    pub on_disk : O.on_disk w'.writer ≡ logged w
    pub accepted : O.accepted w'.writer ≡ logged w
    pub empty : w'.buffer ≡ []
    pub limit : w'.max_buffer_size ≡ w.max_buffer_size

  pub flush-Flushed :
      (now : ℕ) (w : WalWriter W) → (flush now w).1 ≡ ok tt → Flushed w (flush now w).0
  unfolding flush
  flush-Flushed now w h =
      let p₁ = O.write_all w.writer w.buffer in
      let p₂ = O.flush p₁.0 in
      let p₃ = O.sync_all p₂.0 in
      elim (IoResult-cases p₁.1) [
        | inr (e, q) ↦ absurd (ok_not_error (rw (flush, q) at h))
        | inl q₁ ↦ elim (IoResult-cases p₂.1) [
          | inr (e, q) ↦ absurd (ok_not_error (rw (flush, q₁, q) at h))
          | inl q₂ ↦ elim (IoResult-cases p₃.1) [
            | inr (e, q) ↦ absurd (ok_not_error (rw (flush, q₁, q₂, q) at h))
            | inl q₃ ↦
                let acc = O.write_all-ok w.writer w.buffer q₁ in
                let same : flush now w
                    ≡ (record w { writer = p₃.0; buffer = []; last_fsync = now }, ok tt) =
                  rw (flush, q₁, q₂, q₃) in
                subst (λ (z : WalWriter W × IoResult Unit). Flushed w z.0) (sym same)
                  (record {
                    on_disk = O.sync_all-ok p₂.0 q₃ ∙ O.flush-ok p₁.0 q₂ ∙ acc;
                    accepted = O.accepted-sync_all p₂.0 ∙ O.accepted-flush p₁.0 ∙ acc;
                    empty = refl;
                    limit = refl;
                  })
          ]
        ]
      ]

  -- A write that went well of a record with these bytes.
  pub record Wrote (bs : Bytes) (w w' : WalWriter W) : Type 0 where
    pub all : logged w' ≡ logged w ++ frame bs
    pub room : length w'.buffer < w'.max_buffer_size
    pub limit : w'.max_buffer_size ≡ w.max_buffer_size

  abbrev extended : Bytes → WalWriter W → WalWriter W
  extended bs w = record w { buffer = (w.buffer ++ to_le_bytes 4 (length bs % u32_mod)) ++ bs }

  logged-extended : (bs : Bytes) (w : WalWriter W) → logged (extended bs w) ≡ logged w ++ frame bs
  logged-extended bs w =
      ap (λ (z : Bytes). O.accepted w.writer ++ z)
        (append_assoc w.buffer (to_le_bytes 4 (length bs % u32_mod)) bs)
      ∙ sym (append_assoc (O.accepted w.writer) w.buffer (frame bs))

  must_flush-room :
      (now : ℕ) (w : WalWriter W) → must_flush now w ≡ false → length w.buffer < w.max_buffer_size
  unfolding must_flush
  must_flush-room now w h = ground arith

  Flushed-Wrote :
      (bs : Bytes) (w w' : WalWriter W)
      → 0 < w.max_buffer_size
      → Flushed (extended bs w) w'
      → Wrote bs w w'
  Flushed-Wrote bs w w' pos f = record {
    all =
        ap (λ (z : Bytes). O.accepted w'.writer ++ z) f.empty
        ∙ append-nil (O.accepted w'.writer)
        ∙ f.accepted
        ∙ logged-extended bs w;
    room = omega (arith, ap (λ (z : Bytes). length z) f.empty, f.limit);
    limit = f.limit;
  }

abbrev result_of : Written → IoResult Unit
result_of (returned e) = e
result_of panicked = err IoError.other

module _ {W : Type 0} ⦃O : Output W⦄ {P : Type 0} ⦃B : Bincode (WalRecord P)⦄ where
  -- A write that returns without an error puts the record behind all that was written before, and
  -- leaves a buffer below its limit, which is 65536 for a writer that `open` gave.
  pub write-Wrote :
      (now later : ℕ) (r : WalRecord P) (bs : Bytes) (w : WalWriter W)
      → B.serialize r ≡ some bs
      → 0 < w.max_buffer_size
      → (write now later r w).1 ≡ returned (ok tt)
      → Wrote bs w (write now later r w).0
  unfolding write
  write-Wrote now later r bs w s pos h = elim (Bool-cases (must_flush now (extended bs w))) [
    | inr q ↦
        rw (write, s, q)
          (record {
            all = logged-extended bs w;
            room = must_flush-room now (extended bs w) q;
            limit = refl;
          })
    | inl q ↦
        let done : (flush later (extended bs w)).1 ≡ ok tt = ap result_of (rw (write, s, q) at h) in
        rw (write, s, q) (Flushed-Wrote bs w _ pos (flush-Flushed later (extended bs w) done))
  ]
