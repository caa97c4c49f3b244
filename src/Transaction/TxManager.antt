-- ===== src/Transaction/TxManager.antt =====
-- src/transaction/tx_manager.rs: the ticket dispenser and the now-serving counter.
pub mod Spin
pub mod Order
use lightgraph.Base.{
  ℕ, zero, suc, ◌+◌, ◌-◌, ◌%◌, ◌^◌, Bool, true, false, ltb, ◌==◌, u64_mod, incr64, Option, none,
  some,
}
use lightgraph.Types.{TxId}

abbrev pub spin_limit : ℕ
spin_limit = 100000

pub record TxManager : Type 0 where
  pub next_tx_id : TxId
  pub committed_tx_id : TxId

unfoldable pub new : TxManager
new = record { next_tx_id = 1; committed_tx_id = 0 }

unfoldable pub begin_read : TxManager → TxId
begin_read m = m.committed_tx_id

unfoldable pub begin_write : TxManager → TxId × TxManager
begin_write m = (m.next_tx_id, record m { next_tx_id = incr64 m.next_tx_id })

unfoldable pub latest_committed : TxManager → TxId
latest_committed m = m.committed_tx_id

pub data Committed : Type 0 where
  ok timeout : Committed

-- `tx_id - 1` on `u64`; at 0 it wraps (or panics in a debug build).
abbrev pub expected : TxId → TxId
expected tx_id = (tx_id + u64_mod - 1) % u64_mod

-- Between two loads of the counter other threads run. `others` is what they make of the manager
-- before each load; the load and the store behind it are taken as one step, which is sound where no
-- other thread holds the same ticket.
abbrev pub Others : Type 0
Others = ℕ → TxManager → TxManager

-- The loop of `commit` with `left` rounds before the limit.
unfoldable pub commit_loop : ℕ → ℕ → Others → TxId → TxManager → Committed × TxManager
commit_loop zero round others tx_id m = (timeout, m)
commit_loop (suc left) round others tx_id m =
    let m' = others round m in
    let rest = commit_loop left (round + 1) others tx_id m' in
    elim (m'.committed_tx_id == expected tx_id) [
      | true ↦ (ok, record m' { committed_tx_id = tx_id })
      | false ↦ rest
    ]

-- `spins` is compared with the limit after it is counted up: the counter is read
-- `spin_limit + 1` times.
unfoldable pub commit : Others → TxId → TxManager → Committed × TxManager
commit others tx_id m = commit_loop (spin_limit + 1) 0 others tx_id m

-- The loop of `rollback` has no limit; `none` means that it still spins after `fuel` rounds.
unfoldable pub rollback : ℕ → ℕ → Others → TxId → TxManager → Option TxManager
rollback zero round others tx_id m = none
rollback (suc fuel) round others tx_id m =
    let m' = others round m in
    let rest = rollback fuel (round + 1) others tx_id m' in
    elim (m'.committed_tx_id == expected tx_id) [
      | true ↦ some (record m' { committed_tx_id = tx_id })
      | false ↦ rest
    ]
