-- ===== src/Storage/EdgeStore/Operations.antt =====
-- Sequences of operations on a store of edges.
use lightgraph.Base.{
  ℕ, zero, suc, ◌+◌, ◌^◌, ◌<◌, ◌≡◌, refl, ap, subst, ◌∙◌, Bool, true, false, Option, none, some,
  List, [], ◌∷◌, arith, inl, inr, Option-cases, Bool-cases, ◌==◌, length, option_map,
}
use lightgraph.Types.{NodeId, EdgeId, TypeId, TxId, null_edge}
use lightgraph.Extern.{DashMap, SegQueue, Bincode}
use lightgraph.Storage.Edge.{Edge}
use lightgraph.Storage.Ids.{used_lem, insert-AreValid}
use lightgraph.Storage.EdgeStore.{
  EdgeStore, Heads, write, wal_insert, insert_edge, update, persist, link_into_chains, unlink_out,
  unlink_in, unlink_half, persist_pred, unlink_from_chains, soft_delete, hard_delete,
}
use lightgraph.Storage.EdgeStore.Validity.{edge_id, IsValid, insert_edge-Inserted, hard_delete_lem}

module _ {M Q : Type 0} ⦃D : DashMap M Edge⦄ ⦃S : SegQueue Q⦄ ⦃B : Bincode Edge⦄ where
  -- A valid store with the same counter of ids.
  abbrev Stays : EdgeStore M Q → EdgeStore M Q → Type 0
  Stays s s' = IsValid s' × (s'.next_id ≡ s.next_id)

  write-Stays :
      (id : EdgeId) (e e' : Edge) (s : EdgeStore M Q)
      → IsValid s
      → D.get s.edges id ≡ some e
      → e'.id ≡ e.id
      → Stays s (write id e' s)
  write-Stays id e e' s v h same = (
    insert-AreValid edge_id s.edges s.free_list s.next_id s.free_count id e' v (v.below id e h)
        (used_lem edge_id s.edges s.free_list s.next_id s.free_count id e v h)
        (same ∙ v.keyed id e h),
    refl,
  )

  update-Stays :
      (id : EdgeId) (f : Edge → Edge) (s : EdgeStore M Q)
      → ((e : Edge) → (f e).id ≡ e.id)
      → IsValid s
      → Stays s (update id f s)
  unfolding update
  update-Stays id f s keeps v = elim (Option-cases (D.get s.edges id)) [
    | inl h ↦ rw (update, h) (v, refl)
    | inr (e, h) ↦ rw (update, h) (write-Stays id e (f e) s v h (keeps e))
  ]

  persist-Stays : (id : EdgeId) (s : EdgeStore M Q) → IsValid s → Stays s (persist id s)
  unfolding persist wal_insert
  persist-Stays id s v = elim (Option-cases (D.get s.edges id)) [
    | inl h ↦ rw (persist, h) (v, refl)
    | inr (e, h) ↦ rw (persist, h) (v, refl)
  ]

  link-Stays :
      (id : EdgeId) (heads : Heads) (s : EdgeStore M Q)
      → IsValid s
      → Stays s (link_into_chains id heads s).1
  unfolding link_into_chains
  link-Stays id heads s v =
      let a = update-Stays id (λ e. record e { next_out = heads.src_first_out }) s (λ e. refl) v in
      let s₁ = update id (λ e. record e { next_out = heads.src_first_out }) s in
      let b = update-Stays id (λ e. record e { next_in = heads.dst_first_in }) s₁ (λ e. refl) a.0 in
      let s₂ = update id (λ e. record e { next_in = heads.dst_first_in }) s₁ in
      let c = persist-Stays id s₂ b.0 in (c.0, c.1 ∙ b.1 ∙ a.1)

  -- Where a loop of an unlink ends, the store stays valid.
  abbrev AllStay : {A : Type 0} → EdgeStore M Q → Option (A × EdgeStore M Q) → Type 0
  AllStay s none = Unit
  AllStay s (some (_, s')) = Stays s s'

  unlink_out-Stays :
      (fuel : ℕ) (id next cur : EdgeId) (s : EdgeStore M Q)
      → IsValid s
      → AllStay s (unlink_out fuel id next cur s)
  unfolding unlink_out
  unlink_out-Stays zero id next cur s v = tt
  unlink_out-Stays (suc fuel) id next cur s v = elim (Bool-cases (cur == null_edge)) [
    | inl q ↦ rw (unlink_out, q) (v, refl)
    | inr q ↦ elim (Option-cases (D.get s.edges cur)) [
      | inl h ↦ rw (unlink_out, q, h) (v, refl)
      | inr (e, h) ↦ elim (Bool-cases (e.next_out == id)) [
        | inl p ↦
            rw (unlink_out, q, h, p) (write-Stays cur e (record e { next_out = next }) s v h refl)
        | inr p ↦ rw (unlink_out, q, h, p) (unlink_out-Stays fuel id next e.next_out s v)
      ]
    ]
  ]

  unlink_in-Stays :
      (fuel : ℕ) (id next cur : EdgeId) (s : EdgeStore M Q)
      → IsValid s
      → AllStay s (unlink_in fuel id next cur s)
  unfolding unlink_in
  unlink_in-Stays zero id next cur s v = tt
  unlink_in-Stays (suc fuel) id next cur s v = elim (Bool-cases (cur == null_edge)) [
    | inl q ↦ rw (unlink_in, q) (v, refl)
    | inr q ↦ elim (Option-cases (D.get s.edges cur)) [
      | inl h ↦ rw (unlink_in, q, h) (v, refl)
      | inr (e, h) ↦ elim (Bool-cases (e.next_in == id)) [
        | inl p ↦
            rw (unlink_in, q, h, p) (write-Stays cur e (record e { next_in = next }) s v h refl)
        | inr p ↦ rw (unlink_in, q, h, p) (unlink_in-Stays fuel id next e.next_in s v)
      ]
    ]
  ]

  abbrev LastStays : {A B : Type 0} → EdgeStore M Q → Option (A × B × EdgeStore M Q) → Type 0
  LastStays s none = Unit
  LastStays s (some (_, _, s')) = Stays s s'

  LastStays-map :
      (head : EdgeId) (s : EdgeStore M Q) (o : Option (Option EdgeId × EdgeStore M Q))
      → AllStay s o
      → LastStays s (option_map (λ (pred, s'). (head, pred, s')) o)
  LastStays-map head s none h = tt
  LastStays-map head s (some (pred, s')) h = h

  unlink_half-Stays :
      (loop : ℕ → EdgeId → EdgeId → EdgeId → EdgeStore M Q → Option (Option EdgeId × EdgeStore M Q))
      (fuel : ℕ) (id next head : EdgeId) (s : EdgeStore M Q)
      → IsValid s
      → AllStay s (loop fuel id next head s)
      → LastStays s (unlink_half loop fuel id next head s)
  unlink_half-Stays loop fuel id next head s v ends = go (head == id)
    where
      go :
          (b : Bool)
          → LastStays s (elim b [
            | true ↦ some (next, none, s)
            | false ↦ option_map (λ (pred, s'). (head, pred, s')) (loop fuel id next head s)
          ])
      go true = (v, refl)
      go false = LastStays-map head s (loop fuel id next head s) ends

  persist_pred-Stays :
      (pred : Option EdgeId) (s : EdgeStore M Q) → IsValid s → Stays s (persist_pred pred s)
  unfolding persist_pred
  persist_pred-Stays none s v = (v, refl)
  persist_pred-Stays (some id) s v = persist-Stays id s v

  soft_delete-Stays :
      (id : EdgeId) (tx : TxId) (s : EdgeStore M Q) → IsValid s → Stays s (soft_delete id tx s).1
  unfolding soft_delete wal_insert
  soft_delete-Stays id tx s v = elim (Option-cases (D.get s.edges id)) [
    | inl h ↦ rw (soft_delete, h) (v, refl)
    | inr (e, h) ↦ rw (soft_delete, h) (write-Stays id e (record e { deleted_tx = tx }) s v h refl)
  ]

  unlink-Stays :
      (fuel : ℕ) (id : EdgeId) (heads : Heads) (s : EdgeStore M Q)
      → IsValid s
      → LastStays s (unlink_from_chains fuel id heads s)
  unfolding unlink_from_chains
  unlink-Stays fuel id heads s v = elim (Option-cases (D.get s.edges id)) [
    | inl h ↦ rw (unlink_from_chains, h) (v, refl)
    | inr (e, h) ↦
        let half₁ = unlink_half unlink_out fuel id e.next_out heads.src_first_out s in
        let k₁ =
          unlink_half-Stays unlink_out fuel id e.next_out heads.src_first_out s v
            (unlink_out-Stays fuel id e.next_out heads.src_first_out s v) in
        elim (Option-cases half₁) [
          | inl q ↦ rw (unlink_from_chains, h, q) tt
          | inr ((out', src_pred, s₁), q) ↦
              let a : Stays s s₁ = rw q at k₁ in
              let half₂ = unlink_half unlink_in fuel id e.next_in heads.dst_first_in s₁ in
              let k₂ =
                unlink_half-Stays unlink_in fuel id e.next_in heads.dst_first_in s₁ a.0
                  (unlink_in-Stays fuel id e.next_in heads.dst_first_in s₁ a.0) in
              elim (Option-cases half₂) [
                | inl r ↦ rw (unlink_from_chains, h, q, r) tt
                | inr ((in', dst_pred, s₂), r) ↦
                    let b : Stays s₁ s₂ = rw r at k₂ in
                    let c = persist_pred-Stays src_pred s₂ b.0 in
                    let d = persist_pred-Stays dst_pred (persist_pred src_pred s₂) c.0 in
                    rw (unlink_from_chains, h, q, r) (d.0, d.1 ∙ c.1 ∙ b.1 ∙ a.1)
              ]
        ]
  ]

abbrev value_or {ℓ} : {A : Type ℓ} → A → Option A → A
value_or d none = d
value_or d (some a) = a

some_same : {A : Type 0} {a b : A} → some a ≡ some b → a ≡ b
some_same {a = a} e = ap (value_or a) e

-- A call that changes a store of edges; a chain of an unlink has its fuel.
pub data EdgeOp : Type 0 where
  insert : NodeId → NodeId → TypeId → ℕ → TxId → EdgeOp
  link : EdgeId → Heads → EdgeOp
  unlink : ℕ → EdgeId → Heads → EdgeOp
  soft_delete_edge : EdgeId → TxId → EdgeOp
  hard_delete_edge : EdgeId → EdgeOp

abbrev last_of : {A B C : Type 0} → Option (A × B × C) → Option C
last_of none = none
last_of (some (_, _, c)) = some c

module _ {M Q : Type 0} ⦃D : DashMap M Edge⦄ ⦃S : SegQueue Q⦄ ⦃B : Bincode Edge⦄ where
  -- What a call leaves; `none` is a chain that is followed for ever.
  unfoldable pub perform : EdgeOp → EdgeStore M Q → Option (EdgeStore M Q)
  unfolding insert_edge link_into_chains unlink_from_chains soft_delete hard_delete
  perform (insert src dst etype row tx) s = some (insert_edge src dst etype row tx s).1
  perform (link id heads) s = some (link_into_chains id heads s).1
  perform (unlink fuel id heads) s = last_of (unlink_from_chains fuel id heads s)
  perform (soft_delete_edge id tx) s = some (soft_delete id tx s).1
  perform (hard_delete_edge id) s = some (hard_delete id s).1

  unfoldable pub perform_each : List EdgeOp → EdgeStore M Q → Option (EdgeStore M Q)
  unfolding perform
  perform_each [] s = some s
  perform_each (op ∷ ops) s = elim (perform op s) [ none ↦ none | some s' ↦ perform_each ops s' ]

  -- What a call leaves is valid, and the counter of ids has grown by one at most.
  abbrev GoesOn : EdgeStore M Q → Option (EdgeStore M Q) → Type 0
  GoesOn s none = Unit
  GoesOn s (some s') = IsValid s' × (s'.next_id < s.next_id + 2)

  Stays-GoesOn : (s s' : EdgeStore M Q) → Stays s s' → GoesOn s (some s')
  Stays-GoesOn s s' h = (h.0, omega (arith, h.1))

  LastStays-GoesOn :
      {A B : Type 0} (s : EdgeStore M Q) (o : Option (A × B × EdgeStore M Q))
      → LastStays s o
      → GoesOn s (last_of o)
  LastStays-GoesOn s none h = tt
  LastStays-GoesOn s (some (a, b, s')) h = Stays-GoesOn s s' h

  perform-GoesOn :
      (op : EdgeOp) (s : EdgeStore M Q)
      → IsValid s
      → s.next_id + 1 < 2 ^ 64
      → GoesOn s (perform op s)
  unfolding perform
  perform-GoesOn (insert src dst etype row tx) s v room =
      let k = insert_edge-Inserted src dst etype row tx s v room in (k.valid, k.grown)
  perform-GoesOn (link id heads) s v room =
      Stays-GoesOn s (link_into_chains id heads s).1 (link-Stays id heads s v)
  perform-GoesOn (unlink fuel id heads) s v room =
      LastStays-GoesOn s (unlink_from_chains fuel id heads s) (unlink-Stays fuel id heads s v)
  perform-GoesOn (soft_delete_edge id tx) s v room =
      Stays-GoesOn s (soft_delete id tx s).1 (soft_delete-Stays id tx s v)
  perform-GoesOn (hard_delete_edge id) s v room =
      let k = hard_delete_lem id s v in Stays-GoesOn s (hard_delete id s).1 (k.1, k.2)

  -- Any sequence of insertions, links, unlinks and deletions of edges in which every unlink comes to an
  -- end within its fuel, with room for as many ids, keeps a valid store valid: no id of an edge is
  -- free, no id is free twice, and every edge is under its own id.
  pub perform_each-IsValid :
      (ops : List EdgeOp) (s s' : EdgeStore M Q)
      → IsValid s
      → s.next_id + length ops < 2 ^ 64
      → perform_each ops s ≡ some s'
      → IsValid s'
  unfolding perform_each
  perform_each-IsValid [] s s' v room h = subst IsValid (some_same h) v
  perform_each-IsValid (op ∷ ops) s s' v room h =
      let k = perform-GoesOn op s v (omega arith) in
      elim (Option-cases (perform op s)) [
        | inl e ↦ let no : none ≡ some s' = rw (perform_each, e) at h in absurd (cc)
        | inr (s₁, e) ↦
            let good : GoesOn s (some s₁) = rw e at k in
            perform_each-IsValid ops s₁ s' good.0 (omega (arith, good.1))
              (rw (perform_each, e) at h)
      ]
