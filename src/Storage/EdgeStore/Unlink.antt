-- ===== src/Storage/EdgeStore/Unlink.antt =====
-- What `unlink_from_chains` does to the chains.
use lightgraph.Base.{
  ℕ, zero, suc, ◌<◌, ◌≡◌, refl, ap, ◌∙◌, true, Option, none, some, List, arith, contains,
  option_map, length, Option-cases, inl, inr, IsDistinct,
}
use lightgraph.Types.{EdgeId}
use lightgraph.Extern.{DashMap, SegQueue, Bincode}
use lightgraph.Storage.Edge.{Edge}
use lightgraph.Storage.EdgeStore.{
  EdgeStore, Heads, unlink_out, unlink_in, unlink_half, unlink_from_chains, persist_pred, update,
}
use lightgraph.Storage.EdgeStore.Chain.{IsChain, IsChain-agree, out_link, in_link}
use lightgraph.Storage.EdgeStore.Link.{get-persist}
use lightgraph.Storage.EdgeStore.Search.{erase, find_pred, redirect, find_half, find_half-IsChain}

module _ {M Q : Type 0} ⦃D : DashMap M Edge⦄ ⦃S : SegQueue Q⦄ ⦃B : Bincode Edge⦄ where
  out_link-some :
      (a : EdgeId) (s : EdgeStore M Q) (e : Edge)
      → D.get s.edges a ≡ some e
      → out_link s a ≡ some e.next_out
  unfolding out_link
  out_link-some a s e g = rw g

  in_link-some :
      (a : EdgeId) (s : EdgeStore M Q) (e : Edge)
      → D.get s.edges a ≡ some e
      → in_link s a ≡ some e.next_in
  unfolding in_link
  in_link-some a s e g = rw g

  -- The write of each half.
  unfoldable pub relink_out : EdgeId → Option EdgeId → EdgeStore M Q → EdgeStore M Q
  relink_out next none s = s
  relink_out next (some p) s = update p (λ e. record e { next_out = next }) s

  unfoldable pub relink_in : EdgeId → Option EdgeId → EdgeStore M Q → EdgeStore M Q
  relink_in next none s = s
  relink_in next (some p) s = update p (λ e. record e { next_in = next }) s

  unlink_out_lem :
      (fuel : ℕ) (a next cur : EdgeId) (s : EdgeStore M Q)
      → unlink_out fuel a next cur s
        ≡ option_map (λ p. (p, relink_out next p s)) (find_pred fuel (out_link s) a cur)
  unfolding unlink_out relink_out find_pred update out_link
  unlink_out_lem zero a next cur s = refl
  unlink_out_lem (suc fuel) a next cur s = elim (Option-cases (D.get s.edges cur)) [
    | inl gone ↦ ground (arith, gone)
    | inr (e, eq) ↦ ground (arith, eq, unlink_out_lem fuel a next e.next_out s)
  ]

  unlink_in_lem :
      (fuel : ℕ) (a next cur : EdgeId) (s : EdgeStore M Q)
      → unlink_in fuel a next cur s
        ≡ option_map (λ p. (p, relink_in next p s)) (find_pred fuel (in_link s) a cur)
  unfolding unlink_in relink_in find_pred update in_link
  unlink_in_lem zero a next cur s = refl
  unlink_in_lem (suc fuel) a next cur s = elim (Option-cases (D.get s.edges cur)) [
    | inl gone ↦ ground (arith, gone)
    | inr (e, eq) ↦ ground (arith, eq, unlink_in_lem fuel a next e.next_in s)
  ]

  out_link-relink_out :
      (next : EdgeId) (p : Option EdgeId) (s : EdgeStore M Q) (i : EdgeId)
      → out_link (relink_out next p s) i ≡ redirect p next (out_link s) i
  unfolding relink_out redirect out_link update
  out_link-relink_out next none s i = refl
  out_link-relink_out next (some p) s i = elim (Option-cases (D.get s.edges p)) [
    | inl gone ↦ ground (arith, gone)
    | inr (e, eq) ↦ ground (arith, eq, D.get-insert s.edges p i (record e { next_out = next }))
  ]

  in_link-relink_out :
      (next : EdgeId) (p : Option EdgeId) (s : EdgeStore M Q) (i : EdgeId)
      → in_link (relink_out next p s) i ≡ in_link s i
  unfolding relink_out in_link update
  in_link-relink_out next none s i = refl
  in_link-relink_out next (some p) s i = elim (Option-cases (D.get s.edges p)) [
    | inl gone ↦ ground (arith, gone)
    | inr (e, eq) ↦ ground (arith, eq, D.get-insert s.edges p i (record e { next_out = next }))
  ]

  in_link-relink_in :
      (next : EdgeId) (p : Option EdgeId) (s : EdgeStore M Q) (i : EdgeId)
      → in_link (relink_in next p s) i ≡ redirect p next (in_link s) i
  unfolding relink_in redirect in_link update
  in_link-relink_in next none s i = refl
  in_link-relink_in next (some p) s i = elim (Option-cases (D.get s.edges p)) [
    | inl gone ↦ ground (arith, gone)
    | inr (e, eq) ↦ ground (arith, eq, D.get-insert s.edges p i (record e { next_in = next }))
  ]

  out_link-relink_in :
      (next : EdgeId) (p : Option EdgeId) (s : EdgeStore M Q) (i : EdgeId)
      → out_link (relink_in next p s) i ≡ out_link s i
  unfolding relink_in out_link update
  out_link-relink_in next none s i = refl
  out_link-relink_in next (some p) s i = elim (Option-cases (D.get s.edges p)) [
    | inl gone ↦ ground (arith, gone)
    | inr (e, eq) ↦ ground (arith, eq, D.get-insert s.edges p i (record e { next_in = next }))
  ]

  unlink_half_out :
      (fuel : ℕ) (a next head : EdgeId) (s : EdgeStore M Q)
      → unlink_half unlink_out fuel a next head s
        ≡ option_map
            (λ (h, p). (h, p, relink_out next p s))
            (find_half fuel (out_link s) a next head)
  unfolding relink_out
  unlink_half_out fuel a next head s = ground (arith, unlink_out_lem fuel a next head s)

  unlink_half_in :
      (fuel : ℕ) (a next head : EdgeId) (s : EdgeStore M Q)
      → unlink_half unlink_in fuel a next head s
        ≡ option_map (λ (h, p). (h, p, relink_in next p s)) (find_half fuel (in_link s) a next head)
  unfolding relink_in
  unlink_half_in fuel a next head s = ground (arith, unlink_in_lem fuel a next head s)

  -- Logging the predecessors leaves the links.
  out_link-persist_pred :
      (p : Option EdgeId) (s : EdgeStore M Q) (i : EdgeId)
      → out_link (persist_pred p s) i ≡ out_link s i
  unfolding persist_pred out_link
  out_link-persist_pred none s i = refl
  out_link-persist_pred (some p) s i = rw (get-persist p i s)

  in_link-persist_pred :
      (p : Option EdgeId) (s : EdgeStore M Q) (i : EdgeId)
      → in_link (persist_pred p s) i ≡ in_link s i
  unfolding persist_pred in_link
  in_link-persist_pred none s i = refl
  in_link-persist_pred (some p) s i = rw (get-persist p i s)

  unlink_steps :
      (fuel : ℕ) (a : EdgeId) (h : Heads) (s : EdgeStore M Q) (e : Edge) (out' in' : EdgeId)
      (p q : Option EdgeId)
      → D.get s.edges a ≡ some e
      → find_half fuel (out_link s) a e.next_out h.src_first_out ≡ some (out', p)
      → find_half fuel (in_link (relink_out e.next_out p s)) a e.next_in h.dst_first_in
        ≡ some (in', q)
      → unlink_from_chains fuel a h s
        ≡ some (
          true,
          record { src_first_out = out'; dst_first_in = in' },
          persist_pred q (persist_pred p (relink_in e.next_in q (relink_out e.next_out p s))),
        )
  unfolding unlink_from_chains
  unlink_steps fuel a h s e out' in' p q g fo fi =
      let o =
        unlink_half_out fuel a e.next_out h.src_first_out s
        ∙ ap (option_map (λ (h, p). (h, p, relink_out e.next_out p s))) fo in
      let s₁ = relink_out e.next_out p s in
      let i =
        unlink_half_in fuel a e.next_in h.dst_first_in s₁
        ∙ ap (option_map (λ (h, p). (h, p, relink_in e.next_in p s₁))) fi in
      rw (unlink_from_chains, g, o, i)

  -- `unlink_from_chains` on an edge that stands on the two chains its heads start, where no edge
  -- stands on a chain twice and the fuel is more than the chains are long: it ends and reports
  -- true, and the heads it leaves start the same chains without the edge.
  pub unlink_lem :
      (fuel : ℕ) (a : EdgeId) (h : Heads) (s : EdgeStore M Q) (e : Edge) (xs ys : List EdgeId)
      → D.get s.edges a ≡ some e
      → IsChain (out_link s) xs h.src_first_out
      → IsChain (in_link s) ys h.dst_first_in
      → IsDistinct xs
      → IsDistinct ys
      → contains xs a ≡ true
      → contains ys a ≡ true
      → length xs < fuel
      → length ys < fuel
      → (h' : Heads) × (s' : EdgeStore M Q) × (unlink_from_chains fuel a h s ≡ some (true, h', s'))
        × IsChain (out_link s') (erase a xs) h'.src_first_out
        × IsChain (in_link s') (erase a ys) h'.dst_first_in
  unlink_lem fuel a h s e xs ys g cx cy dx dy kx ky lx ly =
      let oa : out_link s a ≡ some e.next_out = out_link-some a s e g in
      let ia : in_link s a ≡ some e.next_in = in_link-some a s e g in
      let (out', p, found_out, chain_out) =
        find_half-IsChain fuel (out_link s) a e.next_out h.src_first_out xs cx dx kx oa lx in
      let s₁ = relink_out e.next_out p s in
      let s₁_in = in_link-relink_out e.next_out p s in
      let cy₁ = IsChain-agree (in_link s) (in_link s₁) ys h.dst_first_in (λ i _. s₁_in i) cy in
      let (in', q, found_in, chain_in) =
        find_half-IsChain fuel (in_link s₁) a e.next_in h.dst_first_in ys cy₁ dy ky (s₁_in a ∙ ia)
          ly in
      let s₂ = relink_in e.next_in q s₁ in
      let s₃ = persist_pred q (persist_pred p s₂) in
      (
        record { src_first_out = out'; dst_first_in = in' },
        s₃,
        unlink_steps fuel a h s e out' in' p q g found_out found_in,
        IsChain-agree (redirect p e.next_out (out_link s)) (out_link s₃) (erase a xs) out'
            (λ i _.
              out_link-persist_pred q (persist_pred p s₂) i
              ∙ out_link-persist_pred p s₂ i
              ∙ out_link-relink_in e.next_in q s₁ i
              ∙ out_link-relink_out e.next_out p s i)
            chain_out,
        IsChain-agree (redirect q e.next_in (in_link s₁)) (in_link s₃) (erase a ys) in'
            (λ i _.
              in_link-persist_pred q (persist_pred p s₂) i
              ∙ in_link-persist_pred p s₂ i
              ∙ in_link-relink_in e.next_in q s₁ i)
            chain_in,
      )
