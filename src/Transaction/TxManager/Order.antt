-- ===== src/Transaction/TxManager/Order.antt =====
-- Any number of transactions at once: each holds a ticket, waits for its turn and then moves the
-- counter. The store of src/transaction/tx_manager.rs is a step of its own behind the load.
use lightgraph.Base.{
  ℕ, suc, ◌+◌, ◌^◌, ◌≤◌, ◌<◌, ◌≡◌, ◌↔◌, refl, sym, ap, ◌⊎◌, inl, inr, arith, ◌==◌, ==_iff,
  if◌then◌else◌, Bool, true, false, Bool-cases, Option, none, some,
}
use lightgraph.Types.{TxId}
use lightgraph.Transaction.TxManager.{
  TxManager, new, begin_read, begin_write, expected, Others, Committed, ok, timeout, commit_loop,
  rollback,
}

-- Where a ticket stands: not handed out, waiting, past the load that saw its turn and about to store a
-- number, past its store.
pub data Phase : Type 0 where
  unissued waiting : Phase
  turned : ℕ → Phase
  served : Phase

pub record System : Type 0 where
  pub manager : TxManager
  pub phase : TxId → Phase

abbrev pub at_phase : (TxId → Phase) → TxId → Phase → TxId → Phase
at_phase phase tx p j = if tx == j then p else phase j

-- nobody else runs in the round
abbrev pub undisturbed : Others
undisturbed _ m = m

-- The steps of a ticket: `begin_write`; one round of the loop of `commit` or of `rollback` in which it
-- is the ticket's turn, whose store is still to come; and that store. A round in which it is not
-- changes nothing. The bound on the tickets keeps the dispenser from wrapping.
pub data Step (s : System) : TxId → System → Type 0 where
  begin :
      s.manager.next_tx_id + 1 < 2 ^ 64
      → Step s (begin_write s.manager).0 (record {
        manager = (begin_write s.manager).1;
        phase = at_phase s.phase (begin_write s.manager).0 waiting;
      })
  commit_load :
      (tx : TxId) (m : TxManager)
      → s.phase tx ≡ waiting
      → commit_loop 1 0 undisturbed tx s.manager ≡ (ok, m)
      → Step s tx (record s { phase = at_phase s.phase tx (turned m.committed_tx_id) })
  rollback_load :
      (tx : TxId) (m : TxManager)
      → s.phase tx ≡ waiting
      → rollback 1 0 undisturbed tx s.manager ≡ some m
      → Step s tx (record s { phase = at_phase s.phase tx (turned m.committed_tx_id) })
  store :
      (tx : TxId) (n : ℕ)
      → s.phase tx ≡ turned n
      → Step s tx (record {
        manager = record s.manager { committed_tx_id = n };
        phase = at_phase s.phase tx served;
      })

pub data Reach : System → Type 0 where
  start : Reach (record { manager = new; phase = λ _. unissued })
  later : {s : System} → Reach s → (tx : TxId) → {t : System} → Step s tx t → Reach t

-- What a phase says of a ticket's place between the two counters.
abbrev pub Placed : TxManager → TxId → Phase → Type 0
Placed m tx unissued = (tx ≡ 0) ⊎ (m.next_tx_id ≤ tx)
Placed m tx waiting = (m.committed_tx_id < tx) × (tx < m.next_tx_id)
Placed m tx (turned n) = (n ≡ tx) × (tx ≡ m.committed_tx_id + 1) × (tx < m.next_tx_id)
Placed m tx served = (0 < tx) × (tx ≤ m.committed_tx_id)

pub record IsOrdered (s : System) : Type 0 where
  pub behind : s.manager.committed_tx_id < s.manager.next_tx_id
  pub bounded : s.manager.next_tx_id < 2 ^ 64
  pub placed : (tx : TxId) → Placed s.manager tx (s.phase tx)

start-IsOrdered : IsOrdered (record { manager = new; phase = λ _. unissued })
unfolding new
start-IsOrdered = record {
  behind = omega arith;
  bounded = omega arith;
  placed = λ tx. ground arith;
}

begin-Placed :
    (m : TxManager) (phase : TxId → Phase)
    → m.committed_tx_id < m.next_tx_id
    → m.next_tx_id + 1 < 2 ^ 64
    → ((tx : TxId) → Placed m tx (phase tx))
    → (tx : TxId) → Placed (begin_write m).1 tx (at_phase phase (begin_write m).0 waiting tx)
unfolding begin_write
begin-Placed m phase b room h tx = ground (arith, h tx)

abbrev outcome : Committed → Bool
outcome ok = true
outcome timeout = false

abbrev manager_or : TxManager → Option TxManager → TxManager
manager_or m none = m
manager_or m (some m') = m'

-- A round that succeeds saw the ticket's turn and stores the ticket.
commit_loop-turn :
    (tx : TxId) (m m' : TxManager)
    → commit_loop 1 0 undisturbed tx m ≡ (ok, m')
    → (m.committed_tx_id ≡ expected tx) × (m'.committed_tx_id ≡ tx)
unfolding commit_loop
commit_loop-turn tx m m' h = elim (Bool-cases (m.committed_tx_id == expected tx)) [
  | inl q ↦ (
    (==_iff m.committed_tx_id (expected tx)).0 q,
    sym (ap (λ (r : Committed × TxManager). r.1.committed_tx_id) (rw (commit_loop, q) at h)),
  )
  | inr q ↦
      let no : false ≡ true =
        ap (λ (r : Committed × TxManager). outcome r.0) (rw (commit_loop, q) at h) in
      absurd (cc)
]

rollback-turn :
    (tx : TxId) (m m' : TxManager)
    → rollback 1 0 undisturbed tx m ≡ some m'
    → (m.committed_tx_id ≡ expected tx) × (m'.committed_tx_id ≡ tx)
unfolding rollback
rollback-turn tx m m' h = elim (Bool-cases (m.committed_tx_id == expected tx)) [
  | inl q ↦ (
    (==_iff m.committed_tx_id (expected tx)).0 q,
    sym (ap (λ (r : Option TxManager). (manager_or m r).committed_tx_id) (rw (rollback, q) at h)),
  )
  | inr q ↦ let no : none ≡ some m' = rw (rollback, q) at h in absurd (cc)
]

load-IsOrdered :
    (s : System) (tx : TxId) (n : ℕ)
    → s.phase tx ≡ waiting
    → (s.manager.committed_tx_id ≡ expected tx) × (n ≡ tx)
    → IsOrdered s
    → IsOrdered (record s { phase = at_phase s.phase tx (turned n) })
load-IsOrdered s tx n w e o = record {
  behind = o.behind;
  bounded = o.bounded;
  placed = λ j. ground (arith, o.placed j, o.placed tx, o.bounded);
}

-- Every step keeps the tickets in order.
pub Step-IsOrdered : {s : System} {tx : TxId} {t : System} → Step s tx t → IsOrdered s → IsOrdered t
Step-IsOrdered {s} (begin room) o = record {
  behind = unfold begin_write in omega arith;
  bounded = unfold begin_write in omega arith;
  placed = begin-Placed s.manager s.phase o.behind room o.placed;
}
Step-IsOrdered {s} (commit_load tx m w h) o =
    load-IsOrdered s tx m.committed_tx_id w (commit_loop-turn tx s.manager m h) o
Step-IsOrdered {s} (rollback_load tx m w h) o =
    load-IsOrdered s tx m.committed_tx_id w (rollback-turn tx s.manager m h) o
Step-IsOrdered {s} (store tx n w) o = record {
  behind = ground (arith, o.placed tx);
  bounded = o.bounded;
  placed = λ j. ground (arith, o.placed j, o.placed tx);
}

pub Reach-IsOrdered : {s : System} → Reach s → IsOrdered s
Reach-IsOrdered start = start-IsOrdered
Reach-IsOrdered (later r tx st) = Step-IsOrdered st (Reach-IsOrdered r)

-- In every state that begins, rounds of the loops of `commit` and `rollback` and stores of any number of
-- tickets reach, in any order, the tickets from 1 up to the snapshot of a new reader, and no others,
-- have been served. Tickets stay below 2^64.
pub commits_in_order :
    {s : System} (tx : TxId)
    → Reach s
    → (s.phase tx ≡ served) ↔ ((0 < tx) × (tx ≤ begin_read s.manager))
unfolding begin_read
commits_in_order {s} tx r = let o = Reach-IsOrdered r in ground (arith, o.placed tx)

-- In every reachable state at most one ticket is between the load that saw its turn and its store.
one_at_a_time :
    {s : System} (i j : TxId) (m n : ℕ)
    → Reach s
    → s.phase i ≡ turned m
    → s.phase j ≡ turned n
    → i ≡ j
one_at_a_time {s} i j m n r p q =
    let o = Reach-IsOrdered r in ground (arith, o.placed i, o.placed j)

-- A loop is its rounds: one that succeeds ends it.
abbrev rest_after : Committed × TxManager → Committed × TxManager → Committed × TxManager
rest_after (ok, m) rest = (ok, m)
rest_after (timeout, m) rest = rest

commit_loop-rounds :
    (left round : ℕ) (others : Others) (tx : TxId) (m : TxManager)
    → commit_loop (suc left) round others tx m
      ≡ rest_after
          (commit_loop 1 0 undisturbed tx (others round m))
          (commit_loop left (round + 1) others tx (others round m))
unfolding commit_loop
commit_loop-rounds left round others tx m =
    elim (Bool-cases ((others round m).committed_tx_id == expected tx)) [
      | inl q ↦ rw (commit_loop, q)
      | inr q ↦ rw (commit_loop, q)
    ]

-- Steps of one ticket, one after another.
pub data Steps (tx : TxId) : System → System → Type 0 where
  done : (s : System) → Steps tx s s
  more : {s u t : System} → Step s tx u → Steps tx u t → Steps tx s t

oldest :
    (m : TxManager) (p : Phase)
    → Placed m (m.committed_tx_id + 1) p
    → m.committed_tx_id + 1 < m.next_tx_id
    → (p ≡ waiting) ⊎ (p ≡ turned (m.committed_tx_id + 1))
oldest m unissued h k = ground arith
oldest m waiting h k = inl refl
oldest m (turned n) h k = inr (ap turned h.0)
oldest m served h k = absurd (omega arith)

-- No deadlock: in every reachable state in which some ticket was handed out and not served, steps of
-- the oldest such ticket alone, with none of any other, lead to a state in which it is the snapshot of
-- new readers.
pub turn_comes :
    {s : System}
    → Reach s
    → begin_read s.manager + 1 < s.manager.next_tx_id
    → (t : System) × Steps (begin_read s.manager + 1) s t
      × (begin_read t.manager ≡ begin_read s.manager + 1)
unfolding begin_read commit_loop
turn_comes {s} r h =
    let o = Reach-IsOrdered r in
    let tx = s.manager.committed_tx_id + 1 in
    let moved : TxManager = record s.manager { committed_tx_id = tx } in
    let ready : (s.manager.committed_tx_id == expected tx) ≡ true =
      (==_iff s.manager.committed_tx_id (expected tx)).1 (omega (arith, o.bounded)) in
    let round : commit_loop 1 0 undisturbed tx s.manager ≡ (ok, moved) = rw (commit_loop, ready) in
    elim (oldest s.manager (s.phase tx) (o.placed tx) h) [
      | inl w ↦
          let u : System = record s { phase = at_phase s.phase tx (turned tx) } in
          (
            record { manager = moved; phase = at_phase u.phase tx served },
            more (commit_load tx moved w round) (more (store tx tx (ground arith)) (done _)),
            refl,
          )
      | inr w ↦ (
        record { manager = moved; phase = at_phase s.phase tx served },
        more (store tx tx w) (done _),
        refl,
      )
    ]
