-- ===== src/Tests/Tickets.antt =====
-- The ticket dispenser at concrete inputs.
use lightgraph.Base.{◌+◌, ◌<◌, ◌≤◌, ◌≡◌, ◌↔◌, refl, none, arith}
use lightgraph.Transaction.TxManager.{
  TxManager, new, begin_read, begin_write, commit, commit_loop, rollback, Others, spin_limit,
}
use lightgraph.Transaction.TxManager.Spin.{Ends, commit-Ends, rollback-served}
use lightgraph.Transaction.TxManager.Order.{
  System, unissued, waiting, turned, served, begin, commit_load, store, Steps, Reach, start, later,
  at_phase, commits_in_order, turn_comes,
}

-- nobody else runs
abbrev alone : Others
alone _ m = m

abbrev one_out : TxManager
one_out = record { next_tx_id = 3; committed_tx_id = 1 }

commit-Ends_example : Ends alone 2 (spin_limit + 1) 0 one_out (commit alone 2 one_out)
commit-Ends_example = commit-Ends alone 2 one_out

-- a rollback of the ticket that was committed last
rollback-served_example : rollback 1000 0 alone 1 one_out ≡ none
rollback-served_example =
    rollback-served alone 1 1000 0 one_out (omega arith) (omega arith) (λ k x h. h) (omega arith)

abbrev initial : System
initial = record { manager = new; phase = λ _. unissued }

abbrev begun : System
begun = record {
  manager = (begin_write initial.manager).1;
  phase = at_phase initial.phase (begin_write initial.manager).0 waiting;
}

begun-Reach : Reach begun
begun-Reach = later start (begin_write initial.manager).0 (begin (unfold new in omega arith))

abbrev loaded : System
loaded = record begun { phase = at_phase begun.phase 1 (turned 1) }

loaded-Reach : Reach loaded
unfolding begin_write new commit_loop
loaded-Reach =
    later begun-Reach 1 (commit_load 1 (record begun.manager { committed_tx_id = 1 }) refl refl)

-- ticket 1 has committed
abbrev stored : System
stored = record {
  manager = record loaded.manager { committed_tx_id = 1 };
  phase = at_phase loaded.phase 1 served;
}

stored-Reach : Reach stored
stored-Reach = later loaded-Reach 1 (store 1 1 refl)

commits_in_order_example : (stored.phase 1 ≡ served) ↔ ((0 < 1) × (1 ≤ begin_read stored.manager))
commits_in_order_example = commits_in_order 1 stored-Reach

one_waits : begin_read begun.manager + 1 < begun.manager.next_tx_id
unfolding begin_read begin_write new
one_waits = omega arith

turn_comes_example :
    (t : System) × Steps (begin_read begun.manager + 1) begun t
    × (begin_read t.manager ≡ begin_read begun.manager + 1)
turn_comes_example = turn_comes begun-Reach one_waits
