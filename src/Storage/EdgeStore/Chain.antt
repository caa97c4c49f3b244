-- ===== src/Storage/EdgeStore/Chain.antt =====
-- Well-formed chains, and what the traversals make of them.
use lightgraph.Base.{
  ℕ, zero, suc, ◌<◌, ◌≡◌, ◌≢◌, refl, ◌∙◌, Bool, true, false, Option, none, some, List, [], ◌∷◌,
  arith, if◌then◌else◌, length, contains, inl, inr, option_map, Option-cases,
}
use lightgraph.Types.{EdgeId, TxId, null_edge}
use lightgraph.Extern.{DashMap, SegQueue, Bincode}
use lightgraph.Storage.Edge
use lightgraph.Storage.Edge.{Edge}
use lightgraph.Storage.EdgeStore.{EdgeStore, out_edges, in_edges, out_edges_visible}

-- From `cur` the links go through exactly `xs` and end in NULL_EDGE.
abbrev pub IsChain : (EdgeId → Option EdgeId) → List EdgeId → EdgeId → Type 0
IsChain succ [] cur = cur ≡ null_edge
IsChain succ (x ∷ xs) cur =
    (cur ≡ x) × (x ≢ null_edge) × ((n : EdgeId) × (succ x ≡ some n) × IsChain succ xs n)

-- A chain sees only the links of its own edges.
pub IsChain-agree :
    (f g : EdgeId → Option EdgeId) (xs : List EdgeId) (cur : EdgeId)
    → ((i : EdgeId) → contains xs i ≡ true → g i ≡ f i)
    → IsChain f xs cur
    → IsChain g xs cur
unfolding contains
IsChain-agree f g [] cur h c = c
IsChain-agree f g (x ∷ xs) cur h (e, ne, (n, s, c)) =
    (e, ne, (n, h x (ground arith) ∙ s, IsChain-agree f g xs n (λ i k. h i (ground arith)) c))

-- The elements that a test accepts, in their order.
unfoldable pub filter : (EdgeId → Bool) → List EdgeId → List EdgeId
filter test [] = []
filter test (x ∷ xs) = if test x then x ∷ filter test xs else filter test xs

module _ {M Q : Type 0} ⦃D : DashMap M Edge⦄ ⦃S : SegQueue Q⦄ ⦃B : Bincode Edge⦄ where
  -- The links of the two chains.
  unfoldable pub out_link : EdgeStore M Q → EdgeId → Option EdgeId
  out_link s i = option_map (λ (e : Edge). e.next_out) (D.get s.edges i)

  unfoldable pub in_link : EdgeStore M Q → EdgeId → Option EdgeId
  in_link s i = option_map (λ (e : Edge). e.next_in) (D.get s.edges i)

  -- On a chain shorter than its fuel each traversal returns the chain.
  pub out_edges-IsChain :
      (fuel : ℕ) (cur : EdgeId) (xs : List EdgeId) (s : EdgeStore M Q)
      → length xs < fuel
      → IsChain (out_link s) xs cur
      → out_edges fuel cur s ≡ some xs
  unfolding out_edges out_link
  out_edges-IsChain zero cur xs s h c = absurd (omega arith)
  out_edges-IsChain (suc fuel) cur [] s h c = ground arith
  out_edges-IsChain (suc fuel) cur (x ∷ xs) s h (e, ne, (n, l, c)) =
      ground (arith, out_edges-IsChain fuel n xs s (omega arith) c)

  pub in_edges-IsChain :
      (fuel : ℕ) (cur : EdgeId) (xs : List EdgeId) (s : EdgeStore M Q)
      → length xs < fuel
      → IsChain (in_link s) xs cur
      → in_edges fuel cur s ≡ some xs
  unfolding in_edges in_link
  in_edges-IsChain zero cur xs s h c = absurd (omega arith)
  in_edges-IsChain (suc fuel) cur [] s h c = ground arith
  in_edges-IsChain (suc fuel) cur (x ∷ xs) s h (e, ne, (n, l, c)) =
      ground (arith, in_edges-IsChain fuel n xs s (omega arith) c)

  -- Whether a snapshot sees an edge.
  abbrev pub sees_edge : EdgeStore M Q → TxId → EdgeId → Bool
  sees_edge s tx i = elim (D.get s.edges i) [ some e ↦ Edge.is_alive e tx | none ↦ false ]

  -- For any store and fuel, `out_edges_visible` gives what `out_edges` gives less the edges that are
  -- not alive in the snapshot, in the same order, and it ends when `out_edges` does.
  out_edges_visible-filter :
      (fuel : ℕ) (cur : EdgeId) (tx : TxId) (s : EdgeStore M Q)
      → out_edges_visible fuel cur tx s
        ≡ option_map (filter (sees_edge s tx)) (out_edges fuel cur s)
  unfolding out_edges_visible out_edges filter
  out_edges_visible-filter zero cur tx s = refl
  out_edges_visible-filter (suc fuel) cur tx s = elim (Option-cases (D.get s.edges cur)) [
    | inl gone ↦ ground (arith, gone)
    | inr (e, eq) ↦ ground (arith, eq, out_edges_visible-filter fuel e.next_out tx s)
  ]
