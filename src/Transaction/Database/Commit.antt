-- ===== src/Transaction/Database/Commit.antt =====
-- The outcomes of `commit`.
use lightgraph.Base.{
  ℕ, ◌≡◌, ◌≢◌, ◌⊎◌, subst, refl, ap, sym, ◌∙◌, true, false, Option, some, inl, inr, Bool-cases,
}
use lightgraph.Extern.{DashMap, SegQueue, KeyMap, Bincode}
use lightgraph.Storage.Node.{Node}
use lightgraph.Storage.Edge.{Edge}
use lightgraph.Storage.WalThread.{Env}
use lightgraph.Storage.PropStore.{ColumnKey}
use lightgraph.Storage.PropStore.Column.{Value, PropertyColumn}
use lightgraph.Transaction.TxManager
use lightgraph.Transaction.TxManager.{TxManager, Others, Committed, timeout}
use lightgraph.Transaction.Database.{
  Database, Transaction, Outcome, finished, timed_out, already_finished, commit, after_turn,
  apply_writes, drop,
}

pair_cases :
    (r : Committed × TxManager)
    → ((m : TxManager) × (r ≡ (timeout, m))) ⊎ ((m : TxManager) × (r ≡ (TxManager.ok, m)))
pair_cases (timeout, m) = inl (m, refl)
pair_cases (TxManager.ok, m) = inr (m, refl)

module _ {N E Q P L : Type 0} ⦃DN : DashMap N Node⦄ ⦃DE : DashMap E Edge⦄ ⦃S : SegQueue Q⦄
    ⦃DP : KeyMap P ColumnKey PropertyColumn⦄ ⦃DL : DashMap L ℕ⦄ ⦃BN : Bincode Node⦄
    ⦃BE : Bincode Edge⦄ ⦃BV : Bincode (Option Value)⦄ where
  -- The ways that a call of `commit` goes.
  pub data Went (others : Others) (env : ℕ → ℕ → Env) (tx : Transaction) (db : Database N E Q P L)
      : Outcome × Transaction × Database N E Q P L → Type 0 where
    read_only : tx.is_write ≡ false → Went others env tx db (finished, tx, db)
    again :
        tx.is_write ≡ true → tx.committed ≡ true → Went others env tx db (already_finished, tx, db)
    no_turn :
        (m : TxManager)
        → tx.is_write ≡ true
        → Went others env tx db (timed_out, tx, record db { tx_manager = m })
    turn :
        (m : TxManager)
        → tx.is_write ≡ true
        → TxManager.commit others tx.tx_id db.tx_manager ≡ (TxManager.ok, m)
        → Went others env tx db (
          finished,
          record tx { committed = true },
          apply_writes env tx (record db { tx_manager = m }),
        )

  module _ (others : Others) (env : ℕ → ℕ → Env) (tx : Transaction) (db : Database N E Q P L) where
    commit-read_only : tx.is_write ≡ false → commit others env tx db ≡ (finished, tx, db)
    unfolding commit
    commit-read_only e = simp (commit, e)

    commit-again :
        tx.is_write ≡ true
        → tx.committed ≡ true
        → commit others env tx db ≡ (already_finished, tx, db)
    unfolding commit
    commit-again e c = simp (commit, e, c)

    commit-first :
        tx.is_write ≡ true
        → tx.committed ≡ false
        → commit others env tx db
          ≡ after_turn env tx db (TxManager.commit others tx.tx_id db.tx_manager)
    unfolding commit
    commit-first e c = simp (commit, e, c)

    pub commit-Went : Went others env tx db (commit others env tx db)
    unfolding after_turn
    commit-Went = elim (Bool-cases tx.is_write) [
      | inr e ↦ subst (λ r. Went others env tx db r) (sym (commit-read_only e)) (read_only e)
      | inl e ↦ elim (Bool-cases tx.committed) [
        | inl c ↦ subst (λ r. Went others env tx db r) (sym (commit-again e c)) (again e c)
        | inr c ↦ elim (pair_cases (TxManager.commit others tx.tx_id db.tx_manager)) [
          | inl (m, t) ↦
              subst (λ r. Went others env tx db r)
                (sym (commit-first e c ∙ ap (after_turn env tx db) t)) (no_turn m e)
          | inr (m, t) ↦
              subst (λ r. Went others env tx db r)
                (sym (commit-first e c ∙ ap (after_turn env tx db) t)) (turn m e t)
        ]
      ]
    ]

  -- The stores of two databases are the same.
  pub record IsSameStores (db db' : Database N E Q P L) : Type 0 where
    pub nodes : db'.nodes ≡ db.nodes
    pub edges : db'.edges ≡ db.edges
    pub props : db'.props ≡ db.props

  unfinished_lem :
      (others : Others) (env : ℕ → ℕ → Env) (tx : Transaction) (db : Database N E Q P L)
      (r : Outcome × Transaction × Database N E Q P L)
      → Went others env tx db r
      → r.0 ≢ finished
      → (r.1 ≡ tx) × IsSameStores db r.2
  unfinished_lem others env tx db r (read_only e) h = absurd (h refl)
  unfinished_lem others env tx db r (again e c) h =
      (refl, record { nodes = refl; edges = refl; props = refl })
  unfinished_lem others env tx db r (no_turn m e) h =
      (refl, record { nodes = refl; edges = refl; props = refl })
  unfinished_lem others env tx db r (turn m e t) h = absurd (h refl)

  -- Where `commit` returns an error, the transaction is as it was and no store has changed.
  pub commit-unfinished :
      (others : Others) (env : ℕ → ℕ → Env) (tx : Transaction) (db : Database N E Q P L)
      → (commit others env tx db).0 ≢ finished
      → ((commit others env tx db).1 ≡ tx) × IsSameStores db (commit others env tx db).2
  commit-unfinished others env tx db h =
      unfinished_lem others env tx db (commit others env tx db) (commit-Went others env tx db) h

  finished_flag :
      (others : Others) (env : ℕ → ℕ → Env) (tx : Transaction) (db : Database N E Q P L)
      (r : Outcome × Transaction × Database N E Q P L)
      → Went others env tx db r
      → tx.is_write ≡ true
      → r.0 ≡ finished
      → (r.1.is_write ≡ true) × (r.1.committed ≡ true)
  finished_flag others env tx db r (read_only e) w h = absurd (cc (e, w))
  finished_flag others env tx db r (again e c) w h = absurd (cc h)
  finished_flag others env tx db r (no_turn m e) w h = absurd (cc h)
  finished_flag others env tx db r (turn m e t) w h = (e, refl)

  drop-committed :
      (fuel : ℕ) (others : Others) (tx : Transaction) (db : Database N E Q P L)
      → tx.is_write ≡ true
      → tx.committed ≡ true
      → drop fuel others tx db ≡ some db
  unfolding drop
  drop-committed fuel others tx db w c = simp (drop, w, c)

  -- After a write transaction has been committed, another `commit` of it returns the error that says
  -- so and changes nothing, and dropping it changes nothing, whatever has become of the database.
  pub commit_once :
      (others others' : Others) (env env' : ℕ → ℕ → Env) (tx : Transaction)
      (db db' : Database N E Q P L) (fuel : ℕ)
      → tx.is_write ≡ true
      → (commit others env tx db).0 ≡ finished
      → (commit others' env' (commit others env tx db).1 db'
          ≡ (already_finished, (commit others env tx db).1, db'))
        × (drop fuel others' (commit others env tx db).1 db' ≡ some db')
  commit_once others others' env env' tx db db' fuel w h =
      let tx' = (commit others env tx db).1 in
      let (w', c') =
        finished_flag others env tx db (commit others env tx db) (commit-Went others env tx db) w
          h in
      (commit-again others' env' tx' db' w' c', drop-committed fuel others' tx' db' w' c')
