-- ===== src/Wal/Acknowledged.antt =====
-- What a sequence of writes leaves in the file: writes that were acknowledged are read back.
use lightgraph.Base.{ℕ, Bool, true, false, List, [], ◌∷◌, if◌then◌else◌}
use lightgraph.Extern.{ok, Output, Bincode}
use lightgraph.Wal.{WalRecord, WalWriter, Written, returned, write}

abbrev succeeded : Written → Bool
succeeded (returned (ok _)) = true
succeeded _ = false

-- A record with the clocks that its write sees.
abbrev pub Timed : Type 0 → Type 0
Timed P = ℕ × ℕ × WalRecord P

abbrev pub records_of : {P : Type 0} → List (Timed P) → List (WalRecord P)
records_of [] = []
records_of ((_, _, r) ∷ l) = r ∷ records_of l

module _ {W : Type 0} ⦃O : Output W⦄ {P : Type 0} ⦃B : Bincode (WalRecord P)⦄ where
  -- The writes of several records, up to the first that fails.
  unfoldable pub write_each : List (Timed P) → WalWriter W → WalWriter W × Written
  unfolding write
  write_each [] w = (w, returned (ok tt))
  write_each ((now, later, r) ∷ l) w =
      let (w₁, e) = write now later r w in
      let rest = write_each l w₁ in if succeeded e then rest else (w₁, e)
