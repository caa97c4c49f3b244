-- ===== src/Transaction/TxManager/Spin.antt =====
-- When the loops of `commit` and `rollback` end, and with what.
use lightgraph.Base.{
  ℕ, zero, suc, ◌+◌, ◌^◌, ◌≤◌, ◌<◌, ◌≡◌, refl, ap, ◌∙◌, false, none, arith, ◌==◌, inl, inr,
  Bool-cases, ==_iff,
}
use lightgraph.Types.{TxId}
use lightgraph.Transaction.TxManager.{
  TxManager, Committed, ok, timeout, expected, Others, spin_limit, commit_loop, commit, rollback,
}

-- The manager that round `k` of a waiting loop reads, if no earlier round was its turn.
unfoldable pub seen : ℕ → ℕ → Others → TxManager → TxManager
seen zero round others m = others round m
seen (suc k) round others m = seen k (round + 1) others (others round m)

-- It is the ticket's turn when the counter stands just before it.
abbrev pub IsTurn : TxId → TxManager → Type 0
IsTurn tx_id m = m.committed_tx_id ≡ expected tx_id

module _ (others : Others) (tx_id : TxId) where
  pub commit_loop-here :
      (left round : ℕ) (m : TxManager)
      → IsTurn tx_id (others round m)
      → commit_loop (suc left) round others tx_id m
        ≡ (ok, record (others round m) { committed_tx_id = tx_id })
  unfolding commit_loop
  commit_loop-here left round m h =
      let b = (==_iff (others round m).committed_tx_id (expected tx_id)).1 h in rw (commit_loop, b)

  commit_loop-later :
      (left round : ℕ) (m : TxManager)
      → ((others round m).committed_tx_id == expected tx_id) ≡ false
      → commit_loop (suc left) round others tx_id m
        ≡ commit_loop left (round + 1) others tx_id (others round m)
  unfolding commit_loop
  commit_loop-later left round m b = rw (commit_loop, b)

  -- A turn that comes before the rounds run out is taken.
  commit_loop-ok :
      (left k round : ℕ) (m : TxManager)
      → k < left
      → IsTurn tx_id (seen k round others m)
      → (commit_loop left round others tx_id m).0 ≡ ok
  unfolding seen
  commit_loop-ok zero k round m h t = absurd (omega arith)
  commit_loop-ok (suc left) zero round m h t = rw (commit_loop-here left round m t)
  commit_loop-ok (suc left) (suc k) round m h t =
      elim (Bool-cases ((others round m).committed_tx_id == expected tx_id)) [
        | inl b ↦ rw (commit_loop-here left round m ((==_iff _ _).0 b))
        | inr b ↦
            rw (commit_loop-later left round m b)
              (commit_loop-ok left k (round + 1) (others round m) (omega arith) t)
      ]

  -- How a loop ends: it took its turn in one of its rounds, or had none in all of them and changed
  -- nothing itself.
  pub data Ends (left round : ℕ) (m : TxManager) (r : Committed × TxManager) : Type 0 where
    took :
        (k : ℕ)
        → k < left
        → IsTurn tx_id (seen k round others m)
        → r ≡ (ok, record (seen k round others m) { committed_tx_id = tx_id })
        → Ends left round m r
    gave_up :
        ((k : ℕ) → k < left → ((seen k round others m).committed_tx_id == expected tx_id) ≡ false)
        → r.0 ≡ timeout
        → Ends left round m r

  Ends-later :
      (left round : ℕ) (m : TxManager)
      → ((others round m).committed_tx_id == expected tx_id) ≡ false
      → Ends left
          (round + 1)
          (others round m)
          (commit_loop left (round + 1) others tx_id (others round m))
      → Ends (suc left) round m (commit_loop (suc left) round others tx_id m)
  unfolding seen
  Ends-later left round m b (took k h t e) =
      took (suc k) (omega arith) t (commit_loop-later left round m b ∙ e)
  Ends-later left round m b (gave_up never e) =
      gave_up (later never)
        (ap (λ (r : Committed × TxManager). r.0) (commit_loop-later left round m b) ∙ e)
    where
      later :
          ((k : ℕ)
            → k < left
            → ((seen k (round + 1) others (others round m)).committed_tx_id == expected tx_id)
              ≡ false)
          → (k : ℕ) → k < suc left
          → ((seen k round others m).committed_tx_id == expected tx_id) ≡ false
      later never zero h = b
      later never (suc k) h = never k (omega arith)

  commit_loop-Ends :
      (left round : ℕ) (m : TxManager) → Ends left round m (commit_loop left round others tx_id m)
  commit_loop-Ends zero round m = gave_up (λ k h. absurd (omega arith)) (unfold commit_loop in refl)
  commit_loop-Ends (suc left) round m =
      elim (Bool-cases ((others round m).committed_tx_id == expected tx_id)) [
        | inl b ↦
            let t : IsTurn tx_id (others round m) = (==_iff _ _).0 b in
            took 0 (omega arith) (unfold seen in t) (unfold seen in commit_loop-here left round m t)
        | inr b ↦ Ends-later left round m b (commit_loop-Ends left (round + 1) (others round m))
      ]

  -- `commit` returns on every schedule of the other threads: with `ok` and the counter moved to the
  -- ticket, if one of its 100001 reads finds its turn, and with `timeout` if none does.
  pub commit-Ends : (m : TxManager) → Ends (spin_limit + 1) 0 m (commit others tx_id m)
  unfolding commit
  commit-Ends m = commit_loop-Ends (spin_limit + 1) 0 m

  -- A ticket that is already served is never served again: where the other threads never move the
  -- counter below it, `rollback` spins however long it is given.
  pub rollback-served :
      (fuel round : ℕ) (m : TxManager)
      → 0 < tx_id
      → tx_id < 2 ^ 64
      → ((k : ℕ) (x : TxManager) → tx_id ≤ x.committed_tx_id → tx_id ≤ (others k x).committed_tx_id)
      → tx_id ≤ m.committed_tx_id
      → rollback fuel round others tx_id m ≡ none
  unfolding rollback
  rollback-served zero round m pos small mono h = refl
  rollback-served (suc fuel) round m pos small mono h =
      let up = mono round m h in
      let b : ((others round m).committed_tx_id == expected tx_id) ≡ false = ground arith in
      rw (rollback, b) (rollback-served fuel (round + 1) (others round m) pos small mono up)
