-- ===== src/Tests/Recovery.antt =====
-- Recovery of concrete logs.
use lightgraph.Base.{ℕ, ◌≡◌, refl, none, some, List, [], ◌∷◌, ◌++◌, arith, Bytes}
use lightgraph.Types.{NodeId, null_edge, max_tx_id}
use lightgraph.Extern.Models.{Assoc, assoc_map, list_queue}
use lightgraph.Storage.Consistency.{balanced, immediate_consistency, batch_bytes, fsync_enabled}
use lightgraph.Storage.Node
use lightgraph.Storage.Node.{Node}
use lightgraph.Storage.WalLog.{magic}
use lightgraph.Storage.WalLog.RoundTrip.{LogRecord, inserted, deleted, AllFit, encode_all}
use lightgraph.Storage.WalThread.{started, spawn}
use lightgraph.Storage.NodeStore.{
  ok, new, open_store, flush, insert_node, alloc_id, modify, soft_delete, wal_insert, on_record,
  replay_insert,
}
use lightgraph.Storage.NodeStore.Alloc.{IsValid}
use lightgraph.Storage.NodeStore.Logged.{replayed}
use lightgraph.Storage.NodeStore.Recovery.{disk}
use lightgraph.Storage.NodeStore.History
use lightgraph.Storage.NodeStore.History.{Op, run, AllStorable, recovery}
use lightgraph.Storage.NodeStore.Reuse.{reused, IsFreeAndUsed, reused-free}
use lightgraph.Tests.Codec.{node_codec}
use lightgraph.Tests.Nodes.{Store}
use lightgraph.Tests.Wal.{calm, good-IsReliable}

abbrev opened_store : Store
opened_store = record {
  nodes = ([], tt);
  next_id = 0;
  free_list = [];
  free_count = 0;
  total_ever = 0;
  wal = some (started magic balanced.durability);
}

opened_store_lem : open_store none balanced ≡ ok opened_store
unfolding open_store spawn new
opened_store_lem = refl

abbrev history : List Op
history = Op.insert_node (10 ∷ []) 3 1 ∷ Op.soft_delete 0 6 ∷ Op.hard_delete 0 ∷ []

history-AllStorable : AllStorable history opened_store
unfolding insert_node alloc_id wal_insert soft_delete modify Node.new History.apply_op
history-AllStorable = (
  record {
    bytes = 0 ∷ null_edge ∷ null_edge ∷ 3 ∷ 1 ∷ max_tx_id ∷ 10 ∷ [];
    serialized = refl;
    fits = (omega arith, omega arith);
  },
  (
    record {
      bytes = 0 ∷ null_edge ∷ null_edge ∷ 3 ∷ 1 ∷ 6 ∷ 10 ∷ [];
      serialized = refl;
      fits = (omega arith, omega arith);
    },
    (omega arith, tt),
  ),
)

recovery_example :
    (s' : Store) × (open_store
        (disk (flush (λ _. calm) (run history opened_store)))
        immediate_consistency
      ≡ ok s')
    × ((i : NodeId) → assoc_map.get s'.nodes i ≡ assoc_map.get (run history opened_store).nodes i)
recovery_example =
    recovery balanced immediate_consistency history (λ _. calm) opened_store
      (unfold batch_bytes in omega arith) (unfold batch_bytes in omega arith)
      (unfold fsync_enabled in refl) opened_store_lem history-AllStorable (λ _. good-IsReliable)

-- node 0, and the node that takes its id
abbrev first_node : Node
first_node = Node.new 0 (10 ∷ []) 3 1

abbrev next_node : Node
next_node = Node.new 0 (20 ∷ []) 5 4

abbrev first_bytes : Bytes
first_bytes = 0 ∷ 8 ∷ 8 ∷ 3 ∷ 1 ∷ 9 ∷ 10 ∷ []

abbrev next_bytes : Bytes
next_bytes = 0 ∷ 8 ∷ 8 ∷ 5 ∷ 4 ∷ 9 ∷ 20 ∷ []

abbrev read_as : Bytes → Node
read_as (id ∷ out ∷ into ∷ row ∷ created ∷ ended ∷ labels) = record {
  id = id;
  labels = labels;
  first_out = out;
  first_in = into;
  props_row = row;
  created_tx = created;
  deleted_tx = ended;
}
read_as _ = first_node

-- node 1 is inserted before, node 0 between, and node 1 deleted behind
abbrev other_bytes : Bytes
other_bytes = 1 ∷ 8 ∷ 8 ∷ 3 ∷ 1 ∷ 9 ∷ 10 ∷ []

abbrev log_before : List LogRecord
log_before = inserted 0 first_bytes ∷ inserted 1 other_bytes ∷ []

abbrev log_after : List LogRecord
log_after = deleted 1 ∷ []

log-AllFit : AllFit (reused log_before 0 (inserted 2 other_bytes ∷ []) next_bytes log_after)
log-AllFit = (
  (omega arith, omega arith),
  (
    (omega arith, omega arith),
    (omega arith, ((omega arith, omega arith), ((omega arith, omega arith), (omega arith, tt)))),
  ),
)

node_there :
    assoc_map.get (replayed {M = Assoc Node} {Q = List ℕ} log_before).store.nodes 0
    ≡ some (read_as first_bytes)
unfolding on_record replay_insert
node_there = refl

reused-free_example :
    (s : Store) × (open_store
        (some (
          magic
          ++ encode_all (reused log_before 0 (inserted 2 other_bytes ∷ []) next_bytes log_after)))
        balanced
      ≡ ok s)
    × IsFreeAndUsed 0 (read_as next_bytes) s
    × ¬ IsValid s
reused-free_example =
    reused-free log_before 0 (inserted 2 other_bytes ∷ []) next_bytes log_after
      (read_as first_bytes) (read_as next_bytes) balanced log-AllFit
      (unfold batch_bytes in omega arith) node_there refl (refl, tt)
