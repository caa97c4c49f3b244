-- ===== src/Storage/WalLog.antt =====
-- The byte format of the write-ahead log: `encode_insert`, `encode_delete` and `replay_wal` of
-- src/storage/wal_thread.rs.
pub mod RoundTrip
pub mod Torn
use lightgraph.Base.{
  ℕ, zero, suc, ◌+◌, ◌-◌, ◌%◌, true, false, Option, none, some, List, [], ◌∷◌, ◌++◌, Bool, ltb,
  ◌==◌, ◌&&◌, length, read_exact, Bytes, u32_mod, to_le_bytes, from_le_bytes,
}

-- b"LGDB"
abbrev pub magic : Bytes
magic = 0x4c ∷ 0x47 ∷ 0x44 ∷ 0x42 ∷ []

abbrev pub op_insert : ℕ
op_insert = 1

abbrev pub op_delete : ℕ
op_delete = 2

unfoldable pub encode_insert : Bytes → ℕ → Bytes → Bytes
encode_insert buf id payload =
    let total = 1 + 8 + length payload in
    buf ++ to_le_bytes 4 (total % u32_mod) ++ op_insert ∷ (to_le_bytes 8 id ++ payload)

unfoldable pub encode_delete : Bytes → ℕ → Bytes
encode_delete buf id = buf ++ to_le_bytes 4 9 ++ op_delete ∷ to_le_bytes 8 id

-- How a replay ends. `out_of_fuel` is no outcome of the program.
pub data Replayed : Type 0 where
  done bad_magic record_too_short unexpected_eof out_of_fuel : Replayed

unfoldable pub same_bytes : Bytes → Bytes → Bool
same_bytes [] [] = true
same_bytes (a ∷ xs) (b ∷ ys) = a == b && same_bytes xs ys
same_bytes _ _ = false

-- `header[0]`, `header[1..9]`
abbrev pub opcode_of : Bytes → ℕ
opcode_of [] = 0
opcode_of (b ∷ _) = b

abbrev pub id_of : Bytes → ℕ
id_of [] = 0
id_of (_ ∷ bs) = from_le_bytes bs

module _ {ℓ} {S : Type ℓ} (on_record : S → ℕ → ℕ → Bytes → S) where
  -- The loop reads from the rest of the file; each round takes at least 13 bytes.
  unfoldable pub replay_loop : ℕ → Bytes → S → S × Replayed
  replay_loop zero file s = (s, out_of_fuel)
  replay_loop (suc fuel) file s = elim (read_exact 4 file) [
    | none ↦ (s, done)
    | some (len_buf, file₁) ↦ elim (ltb (from_le_bytes len_buf) 9) [
      | true ↦ (s, record_too_short)
      | false ↦ elim (read_exact 9 file₁) [
        | none ↦ (s, unexpected_eof)
        | some (header, file₂) ↦ elim (read_exact (from_le_bytes len_buf - 9) file₂) [
          | none ↦ (s, unexpected_eof)
          | some (payload, rest) ↦
              replay_loop fuel rest (on_record s (opcode_of header) (id_of header) payload)
        ]
      ]
    ]
  ]

  -- the check of the magic number, then the loop with a round for each byte and one more
  unfoldable pub replay_wal : Bytes → S → S × Replayed
  unfolding same_bytes
  replay_wal file s = elim (read_exact 4 file) [
    | none ↦ (s, done)
    | some (m, rest) ↦ elim (same_bytes m magic) [
      | true ↦ replay_loop (suc (length rest)) rest s
      | false ↦ (s, bad_magic)
    ]
  ]
