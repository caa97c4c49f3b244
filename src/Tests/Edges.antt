-- ===== src/Tests/Edges.antt =====
-- The edge store at concrete inputs.
use lightgraph.Base.{
  ℕ, ◌<◌, ◌≡◌, ◌≢◌, refl, true, false, Option, none, some, List, [], ◌∷◌, arith, contains,
  IsDistinct,
}
use lightgraph.Types.{EdgeId, null_edge}
use lightgraph.Extern.Models.{Assoc, assoc_map, list_queue}
use lightgraph.Storage.Edge.{Edge}
use lightgraph.Storage.Edge
use lightgraph.Storage.EdgeStore
use lightgraph.Storage.EdgeStore.Validity.{IsValid, Inserted, new-IsValid, insert_edge-Inserted}
use lightgraph.Storage.EdgeStore.Operations.{EdgeOp, perform_each, perform_each-IsValid}
use lightgraph.Storage.EdgeStore.{
  insert_edge, alloc_id, hard_delete, EdgeStore, Heads, link_into_chains, unlink_from_chains,
  out_edges, in_edges,
}
use lightgraph.Storage.EdgeStore.Chain.{
  IsChain, out_link, in_link, out_edges-IsChain, in_edges-IsChain,
}
use lightgraph.Storage.EdgeStore.Link.{link_lem}
use lightgraph.Storage.EdgeStore.Search.{erase}
use lightgraph.Storage.EdgeStore.Unlink.{unlink_lem}
use lightgraph.Tests.Codec.{edge_codec}

abbrev Store : Type 0
Store = EdgeStore (Assoc Edge) (List ℕ)

-- three edges from node 1 to node 2; the first two stand on the chains, 1 before 0
abbrev edge_at : EdgeId → EdgeId → Edge
edge_at id next = record {
  id = id;
  src = 1;
  dst = 2;
  etype = 5;
  next_out = next;
  next_in = next;
  props_row = 0;
  created_tx = 3;
  deleted_tx = 9;
}

distinct3 : IsDistinct (0 ∷ 1 ∷ 2 ∷ [])
unfolding contains
distinct3 = (refl, (refl, (refl, tt)))

abbrev store3 : Store
store3 = record {
  edges = ((0, edge_at 0 null_edge) ∷ (1, edge_at 1 0) ∷ (2, edge_at 2 null_edge) ∷ [], distinct3);
  next_id = 3;
  free_list = [];
  free_count = 0;
  wal = none;
}

abbrev heads : Heads
heads = record { src_first_out = 1; dst_first_in = 1 }

abbrev chain : List EdgeId
chain = 1 ∷ 0 ∷ []

nonnull : (i : EdgeId) → i < 3 → i ≢ null_edge
nonnull i h e = omega arith

out-IsChain : IsChain (out_link store3) chain 1
unfolding out_link
out-IsChain = (
  refl,
  nonnull 1 (omega arith),
  (0, refl, (refl, nonnull 0 (omega arith), (null_edge, refl, refl))),
)

in-IsChain : IsChain (in_link store3) chain 1
unfolding in_link
in-IsChain = (
  refl,
  nonnull 1 (omega arith),
  (0, refl, (refl, nonnull 0 (omega arith), (null_edge, refl, refl))),
)

two_off : contains chain 2 ≡ false
unfolding contains
two_off = refl

zero_on : contains chain 0 ≡ true
unfolding contains
zero_on = refl

chain-IsDistinct : IsDistinct chain
unfolding contains
chain-IsDistinct = (refl, (refl, tt))

link_lem_example :
    IsChain
      (out_link (link_into_chains 2 heads store3).1)
      (2 ∷ chain)
      (link_into_chains 2 heads store3).0.src_first_out
    × IsChain
        (in_link (link_into_chains 2 heads store3).1)
        (2 ∷ chain)
        (link_into_chains 2 heads store3).0.dst_first_in
link_lem_example =
    link_lem 2 heads store3 (edge_at 2 null_edge) chain chain refl (nonnull 2 (omega arith)) two_off
      two_off out-IsChain in-IsChain

unlink_lem_example :
    (h' : Heads) × (s' : Store) × (unlink_from_chains 4 0 heads store3 ≡ some (true, h', s'))
    × IsChain (out_link s') (erase 0 chain) h'.src_first_out
    × IsChain (in_link s') (erase 0 chain) h'.dst_first_in
unlink_lem_example =
    unlink_lem 4 0 heads store3 (edge_at 0 null_edge) chain chain refl out-IsChain in-IsChain
      chain-IsDistinct chain-IsDistinct zero_on zero_on (omega arith) (omega arith)

out_edges-IsChain_example : out_edges 4 1 store3 ≡ some chain
out_edges-IsChain_example = out_edges-IsChain 4 1 chain store3 (omega arith) out-IsChain

in_edges-IsChain_example : in_edges 4 1 store3 ≡ some chain
in_edges-IsChain_example = in_edges-IsChain 4 1 chain store3 (omega arith) in-IsChain

abbrev empty_store : Store
empty_store = EdgeStore.new

abbrev at_head : EdgeId → Heads
at_head id = record { src_first_out = id; dst_first_in = id }

-- two edges on the chains, the first of them unlinked and deleted, and a third that gets its id
abbrev edge_calls : List EdgeOp
edge_calls =
    EdgeOp.insert 1 2 5 0 3
    ∷ EdgeOp.insert 1 2 5 0 4
    ∷ EdgeOp.link 0 (at_head null_edge)
    ∷ EdgeOp.link 1 (at_head 0)
    ∷ EdgeOp.unlink 3 0 (at_head 1)
    ∷ EdgeOp.hard_delete_edge 0
    ∷ EdgeOp.insert 2 1 5 0 6
    ∷ []

abbrev store_or : Store → Option Store → Store
store_or s none = s
store_or s (some s') = s'

abbrev edges_after : Store
edges_after = store_or empty_store (perform_each edge_calls empty_store)

performed : perform_each edge_calls empty_store ≡ some edges_after
unfolding perform_each insert_edge alloc_id EdgeStore.new link_into_chains unlink_from_chains
    hard_delete EdgeStore.persist EdgeStore.update EdgeStore.wal_insert EdgeStore.unlink_out
    EdgeStore.unlink_in
performed = refl

perform_each-IsValid_example : IsValid edges_after
perform_each-IsValid_example =
    perform_each-IsValid edge_calls empty_store edges_after new-IsValid
      (unfold EdgeStore.new in omega arith) performed

insert_edge-Inserted_example :
    Inserted empty_store
      (insert_edge 1 2 5 0 3 empty_store).0
      (Edge.new (insert_edge 1 2 5 0 3 empty_store).0 1 2 5 0 3)
      (insert_edge 1 2 5 0 3 empty_store).1
insert_edge-Inserted_example =
    insert_edge-Inserted 1 2 5 0 3 empty_store new-IsValid (unfold EdgeStore.new in omega arith)
