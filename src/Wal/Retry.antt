-- ===== src/Wal/Retry.antt =====
-- What a flush that fails leaves behind: the next one hands the same bytes to the file again.
use lightgraph.Base.{◌≡◌, ◌++◌}
use lightgraph.Extern.{Output}
use lightgraph.Wal.{WalWriter}

module _ {W : Type 0} ⦃O : Output W⦄ where
  -- A flush whose bytes were taken, and that then failed: the buffer is still full.
  record Failed (w w' : WalWriter W) : Type 0 where
    pub accepted : O.accepted w'.writer ≡ O.accepted w.writer ++ w.buffer
    pub kept : w'.buffer ≡ w.buffer
