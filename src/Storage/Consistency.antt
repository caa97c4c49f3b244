-- ===== src/Storage/Consistency.antt =====
-- src/storage/consistency.rs: the durability levels and what they ask of the log thread.
use lightgraph.Base.{ℕ, ◌+◌, ◌-◌, ◌*◌, ◌^◌, Bool, true, false}
use lightgraph.Types.{u64_max}

pub data Durability : Type 0 where
  immediate : Durability
  batch : ℕ → ℕ → Durability
  async : Durability

abbrev pub default_durability : Durability
default_durability = batch 5 65536

-- Durations are numbers of nanoseconds.
abbrev pub duration_max : ℕ
duration_max = (2 ^ 64 - 1) * 1000000000 + 999999999

abbrev pub from_millis : ℕ → ℕ
from_millis ms = ms * 1000000

unfoldable pub batch_timeout : Durability → ℕ
batch_timeout immediate = 0
batch_timeout (batch interval_ms bytes) = from_millis interval_ms
batch_timeout async = duration_max

unfoldable pub batch_bytes : Durability → ℕ
batch_bytes immediate = 1
batch_bytes (batch interval_ms bytes) = bytes
batch_bytes async = u64_max

unfoldable pub fsync_enabled : Durability → Bool
fsync_enabled async = false
fsync_enabled _ = true

pub record Consistency : Type 0 where
  pub durability : Durability
  pub wal_channel_capacity : ℕ

abbrev pub default_consistency : Consistency
default_consistency = record { durability = default_durability; wal_channel_capacity = 4096 }

abbrev pub immediate_consistency : Consistency
immediate_consistency = record { durability = immediate; wal_channel_capacity = 1024 }

abbrev pub balanced : Consistency
balanced = default_consistency

abbrev pub high_throughput : Consistency
high_throughput = record { durability = async; wal_channel_capacity = 8192 }

abbrev pub batch_consistency : ℕ → ℕ → Consistency
batch_consistency interval_ms bytes = record {
  durability = batch interval_ms bytes;
  wal_channel_capacity = 4096;
}
