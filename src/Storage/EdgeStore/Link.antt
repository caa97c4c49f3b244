-- ===== src/Storage/EdgeStore/Link.antt =====
-- What `link_into_chains` does to the chains.
use lightgraph.Base.{
  ℕ, ◌+◌, ◌<◌, ◌≡◌, ◌≢◌, refl, ◌∙◌, true, false, some, List, ◌∷◌, arith, ◌==◌, if◌then◌else◌,
  contains, ==_iff, length, ap, Bool-cases, inl, inr,
}
use lightgraph.Types.{EdgeId, null_edge}
use lightgraph.Extern.{DashMap, SegQueue, Bincode}
use lightgraph.Storage.Edge.{Edge}
use lightgraph.Storage.EdgeStore.{
  EdgeStore, Heads, update, persist, wal_insert, link_into_chains, out_edges, in_edges,
}
use lightgraph.Storage.EdgeStore.Chain.{
  IsChain, IsChain-agree, out_link, in_link, out_edges-IsChain, in_edges-IsChain,
}

-- The edge as `link_into_chains` leaves it.
abbrev pub linked : Edge → Heads → Edge
linked e h = record e { next_out = h.src_first_out; next_in = h.dst_first_in }

pub contains_ne :
    (zs : List EdgeId) (id i : EdgeId)
    → contains zs id ≡ false
    → contains zs i ≡ true
    → (id == i) ≡ false
contains_ne zs id i a b = elim (Bool-cases (id == i)) [
  | inr q ↦ q
  | inl p ↦ ground (arith, a, b, ap (contains zs) ((==_iff id i).0 p))
]

module _ {M Q : Type 0} ⦃D : DashMap M Edge⦄ ⦃S : SegQueue Q⦄ ⦃B : Bincode Edge⦄ where
  -- Writing an edge to the log leaves the map.
  pub get-persist :
      (id i : EdgeId) (s : EdgeStore M Q) → D.get (persist id s).edges i ≡ D.get s.edges i
  unfolding persist wal_insert
  get-persist id i s = ground arith

  pub get-update :
      (id i : EdgeId) (f : Edge → Edge) (s : EdgeStore M Q) (e : Edge)
      → D.get s.edges id ≡ some e
      → D.get (update id f s).edges i ≡ (if id == i then some (f e) else D.get s.edges i)
  unfolding update
  get-update id i f s e h = rw (update, h, D.get-insert s.edges id i (f e))

  get-link :
      (id i : EdgeId) (h : Heads) (s : EdgeStore M Q) (e : Edge)
      → D.get s.edges id ≡ some e
      → D.get (link_into_chains id h s).1.edges i
        ≡ (if id == i then some (linked e h) else D.get s.edges i)
  unfolding link_into_chains
  get-link id i h s e g =
      let e₁ = record e { next_out = h.src_first_out } in
      let s₁ = update id (λ e. record e { next_out = h.src_first_out }) s in
      let s₂ = update id (λ e. record e { next_in = h.dst_first_in }) s₁ in
      let at : D.get s₁.edges id ≡ some e₁ =
        ground (arith, get-update id id (λ e. record e { next_out = h.src_first_out }) s e g) in
      let two = get-update id i (λ e. record e { next_in = h.dst_first_in }) s₁ e₁ at in
      let one = get-update id i (λ e. record e { next_out = h.src_first_out }) s e g in
      get-persist id i s₂ ∙ two ∙ ground (arith, one)

  out-link :
      (id i : EdgeId) (h : Heads) (s : EdgeStore M Q) (e : Edge)
      → D.get s.edges id ≡ some e
      → out_link (link_into_chains id h s).1 i
        ≡ (if id == i then some h.src_first_out else out_link s i)
  unfolding out_link
  out-link id i h s e g = ground (arith, get-link id i h s e g)

  in-link :
      (id i : EdgeId) (h : Heads) (s : EdgeStore M Q) (e : Edge)
      → D.get s.edges id ≡ some e
      → in_link (link_into_chains id h s).1 i
        ≡ (if id == i then some h.dst_first_in else in_link s i)
  unfolding in_link
  in-link id i h s e g = ground (arith, get-link id i h s e g)

  -- `link_into_chains` on an edge of the store that stands on neither chain, where the heads it is
  -- given start well-formed chains, leaves heads that start well-formed chains again, the edge in
  -- front of each.
  pub link_lem :
      (new : EdgeId) (h : Heads) (s : EdgeStore M Q) (e : Edge) (xs ys : List EdgeId)
      → D.get s.edges new ≡ some e
      → new ≢ null_edge
      → contains xs new ≡ false
      → contains ys new ≡ false
      → IsChain (out_link s) xs h.src_first_out
      → IsChain (in_link s) ys h.dst_first_in
      → IsChain
          (out_link (link_into_chains new h s).1)
          (new ∷ xs)
          (link_into_chains new h s).0.src_first_out
        × IsChain
            (in_link (link_into_chains new h s).1)
            (new ∷ ys)
            (link_into_chains new h s).0.dst_first_in
  unfolding link_into_chains
  link_lem new h s e xs ys g ne fx fy cx cy =
      let s' = (link_into_chains new h s).1 in
      let keep_out =
        IsChain-agree (out_link s) (out_link s') xs h.src_first_out
          (λ i k. ground (arith, out-link new i h s e g, contains_ne xs new i fx k)) cx in
      let keep_in =
        IsChain-agree (in_link s) (in_link s') ys h.dst_first_in
          (λ i k. ground (arith, in-link new i h s e g, contains_ne ys new i fy k)) cy in
      (
        (refl, ne, (h.src_first_out, ground (arith, out-link new new h s e g), keep_out)),
        (refl, ne, (h.dst_first_in, ground (arith, in-link new new h s e g), keep_in)),
      )

  -- `link_into_chains` on an edge of the store leaves every out chain and every in chain that does
  -- not hold the edge well-formed, with the same edges in the same order.
  pub link-others :
      (new : EdgeId) (h : Heads) (s : EdgeStore M Q) (e : Edge) (xs ys : List EdgeId) (a b : EdgeId)
      → D.get s.edges new ≡ some e
      → contains xs new ≡ false
      → contains ys new ≡ false
      → IsChain (out_link s) xs a
      → IsChain (in_link s) ys b
      → IsChain (out_link (link_into_chains new h s).1) xs a
        × IsChain (in_link (link_into_chains new h s).1) ys b
  link-others new h s e xs ys a b g fx fy cx cy =
      let s' = (link_into_chains new h s).1 in
      (
        IsChain-agree (out_link s) (out_link s') xs a
            (λ i k. ground (arith, out-link new i h s e g, contains_ne xs new i fx k)) cx,
        IsChain-agree (in_link s) (in_link s') ys b
            (λ i k. ground (arith, in-link new i h s e g, contains_ne ys new i fy k)) cy,
      )

  -- After `link_into_chains` on an edge of the store that stands on neither of the well-formed chains
  -- that the heads start, and with fuel for one edge more than each chain has, `out_edges` and
  -- `in_edges` from the new heads give the edge and then the old chain.
  link_traversed :
      (fuel : ℕ) (new : EdgeId) (h : Heads) (s : EdgeStore M Q) (e : Edge) (xs ys : List EdgeId)
      → D.get s.edges new ≡ some e
      → new ≢ null_edge
      → contains xs new ≡ false
      → contains ys new ≡ false
      → IsChain (out_link s) xs h.src_first_out
      → IsChain (in_link s) ys h.dst_first_in
      → length xs + 1 < fuel
      → length ys + 1 < fuel
      → (out_edges fuel (link_into_chains new h s).0.src_first_out (link_into_chains new h s).1
          ≡ some (new ∷ xs))
        × (in_edges fuel (link_into_chains new h s).0.dst_first_in (link_into_chains new h s).1
            ≡ some (new ∷ ys))
  link_traversed fuel new h s e xs ys g ne fx fy cx cy lx ly =
      let c = link_lem new h s e xs ys g ne fx fy cx cy in
      (
        out_edges-IsChain fuel _ (new ∷ xs) _ (omega arith) c.0,
        in_edges-IsChain fuel _ (new ∷ ys) _ (omega arith) c.1,
      )
