-- ===== src/Storage/EdgeStore/Search.antt =====
-- The search of `unlink_from_chains` on bare links.
use lightgraph.Base.{
  ℕ, zero, suc, ◌<◌, ◌≡◌, refl, sym, ap, ◌∙◌, true, false, Option, none, some, List, [], ◌∷◌, arith,
  ◌==◌, if◌then◌else◌, contains, option_map, length, Bool-cases, inl, inr, IsDistinct, subst,
}
use lightgraph.Types.{EdgeId, null_edge}
use lightgraph.Storage.EdgeStore.Chain.{IsChain, IsChain-agree}
use lightgraph.Storage.EdgeStore.Link.{contains_ne}

-- The chain without one edge.
unfoldable pub erase : EdgeId → List EdgeId → List EdgeId
erase a [] = []
erase a (x ∷ xs) = if x == a then xs else x ∷ erase a xs

erase-ne : (a x : EdgeId) (xs : List EdgeId) → (x == a) ≡ false → erase a (x ∷ xs) ≡ x ∷ erase a xs
unfolding erase
erase-ne a x xs h = rw h

erase-eq : (a x : EdgeId) (xs : List EdgeId) → (x == a) ≡ true → erase a (x ∷ xs) ≡ xs
unfolding erase
erase-eq a x xs h = rw h

-- The search of the two loops on bare links: the edge whose link goes to `a`.
unfoldable pub find_pred : ℕ → (EdgeId → Option EdgeId) → EdgeId → EdgeId → Option (Option EdgeId)
find_pred zero succ a cur = none
find_pred (suc fuel) succ a cur = elim (cur == null_edge) [
  | true ↦ some none
  | false ↦ elim (succ cur) [
    | none ↦ some none
    | some n ↦ elim (n == a) [ true ↦ some (some cur) | false ↦ find_pred fuel succ a n ]
  ]
]

-- The links when the link of one edge is set.
unfoldable pub redirect : Option EdgeId → EdgeId → (EdgeId → Option EdgeId) → EdgeId → Option EdgeId
redirect none next succ i = succ i
redirect (some p) next succ i = if p == i then option_map (λ _. next) (succ i) else succ i

-- The predecessor of an edge that stands on a chain, not at its start, is found, and when its link
-- is set to the edge's successor the chain is the same without the edge.
pub find_pred-IsChain :
    (fuel : ℕ) (succ : EdgeId → Option EdgeId) (a next cur : EdgeId) (xs : List EdgeId)
    → IsChain succ xs cur
    → IsDistinct xs
    → contains xs a ≡ true
    → (cur == a) ≡ false
    → succ a ≡ some next
    → length xs < fuel
    → (p : EdgeId) × (find_pred fuel succ a cur ≡ some (some p))
      × (contains xs p ≡ true)
      × IsChain (redirect (some p) next succ) (erase a xs) cur
unfolding find_pred redirect erase contains
find_pred-IsChain zero succ a next cur xs c d k ne sa l = absurd (omega arith)
find_pred-IsChain (suc fuel) succ a next cur [] c d k ne sa l = absurd (ground arith)
find_pred-IsChain (suc fuel) succ a next cur (x ∷ []) c d k ne sa l = absurd (ground arith)
find_pred-IsChain (suc fuel) succ a next cur (x ∷ y ∷ xs) (e, nn, (n, sx, c)) d k ne sa l =
    let xa : (x == a) ≡ false = ground arith in
    elim (Bool-cases (n == a)) [
      | inl q ↦
          let ya : (y == a) ≡ true = ground arith in
          let rest : IsChain succ xs next =
            let (_, _, (m, sy, c')) = c in
            let same : m ≡ next = ground arith in subst (λ z. IsChain succ xs z) same c' in
          let far : contains xs cur ≡ false = ground arith in
          (
            cur,
            ground arith,
            ground arith,
            subst (λ zs. IsChain (redirect (some cur) next succ) zs cur)
                (sym (erase-ne a x (y ∷ xs) xa ∙ ap (λ zs. x ∷ zs) (erase-eq a y xs ya)))
                (
                  e,
                  nn,
                  (
                    next,
                    ground arith,
                    IsChain-agree succ (redirect (some cur) next succ) xs next
                        (λ i h. ground (arith, contains_ne xs cur i far h)) rest,
                  ),
                ),
          )
      | inr q ↦
          let (p, found, here, chain) =
            find_pred-IsChain fuel succ a next n (y ∷ xs) c d.1 (ground arith) q sa (omega arith) in
          (
            p,
            ground (arith, found),
            ground (arith, here),
            subst (λ zs. IsChain (redirect (some p) next succ) zs cur)
                (sym (erase-ne a x (y ∷ xs) xa))
                (e, nn, (n, ground (arith, contains_ne (y ∷ xs) x p d.0 here), chain)),
          )
    ]

contains_nil : (a : ℕ) → contains [] a ≡ false
unfolding contains
contains_nil a = refl

-- One half of `unlink_from_chains` on bare links.
abbrev pub find_half :
    ℕ → (EdgeId → Option EdgeId) → EdgeId → EdgeId → EdgeId → Option (EdgeId × Option EdgeId)
find_half fuel succ a next head = elim (head == a) [
  | true ↦ some (next, none)
  | false ↦ option_map (λ p. (head, p)) (find_pred fuel succ a head)
]

pub find_half-IsChain :
    (fuel : ℕ) (succ : EdgeId → Option EdgeId) (a next head : EdgeId) (xs : List EdgeId)
    → IsChain succ xs head
    → IsDistinct xs
    → contains xs a ≡ true
    → succ a ≡ some next
    → length xs < fuel
    → (head' : EdgeId) × (p : Option EdgeId) × (find_half fuel succ a next head ≡ some (head', p))
      × IsChain (redirect p next succ) (erase a xs) head'
unfolding redirect
find_half-IsChain fuel succ a next head [] c d k sa l = absurd (ground (arith, contains_nil a))
find_half-IsChain fuel succ a next head (x ∷ xs) (e, nn, (n, sx, c)) d k sa l =
    elim (Bool-cases (head == a)) [
      | inl q ↦
          let same : n ≡ next = ground arith in
          (
            next,
            none,
            ground arith,
            subst (λ zs. IsChain succ zs next) (sym (erase-eq a x xs (ground arith)))
                (subst (λ z. IsChain succ xs z) same c),
          )
      | inr q ↦
          let (p, found, _, chain) =
            find_pred-IsChain fuel succ a next head (x ∷ xs) (e, nn, (n, sx, c)) d k q sa l in
          (head, some p, ground (arith, found), chain)
    ]
