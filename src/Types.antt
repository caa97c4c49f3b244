-- ===== src/Types.antt =====
-- The core types of src/lib.rs. Ids and counters are machine words, kept as numbers.
use lightgraph.Base.{ℕ, ◌-◌, ◌^◌}

abbrev pub NodeId : Type 0
NodeId = ℕ

abbrev pub EdgeId : Type 0
EdgeId = ℕ

abbrev pub LabelId : Type 0
LabelId = ℕ

abbrev pub TypeId : Type 0
TypeId = ℕ

abbrev pub TxId : Type 0
TxId = ℕ

abbrev pub u64_max : ℕ
u64_max = 2 ^ 64 - 1

abbrev pub null_node : NodeId
null_node = u64_max

abbrev pub null_edge : EdgeId
null_edge = u64_max

abbrev pub max_tx_id : TxId
max_tx_id = u64_max
