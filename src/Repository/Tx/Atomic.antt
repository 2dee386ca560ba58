-- ===== src/Repository/Tx/Atomic.antt =====
-- What `ExecTx` of internal/repository/store.go leaves in the database.
use temporal_durable_event_p.Base.{◌≡◌, arith, false}
use temporal_durable_event_p.Base.Exec.{Exec, Result, ok}
use temporal_durable_event_p.Repository.Db.{Engine, Db, DbError, tick}
use temporal_durable_event_p.Repository.Tx.{Tx, exec_tx}

-- The tables and the notifications of two databases are the same.
abbrev pub SameTables : Db → Db → Type 0
SameTables db' db =
    (db'.users ≡ db.users)
    × (db'.products ≡ db.products)
    × (db'.orders ≡ db.orders)
    × (db'.order_items ≡ db.order_items)
    × (db'.events ≡ db.events)
    × (db'.notifications ≡ db.notifications)

module _ (engine : Engine) (fn : Exec Tx DbError (Unit {0})) (db : Db) where
  -- The function of the transaction, run on the tables after `Begin`.
  abbrev pub ran : Result DbError (Unit {0}) × Tx
  ran = fn (record { db = tick db; aborted = false })

  -- If `ExecTx` returns no error, then the function has returned none, no statement of it has
  -- failed, and all of its writes are there.
  pub exec_tx-ok :
      (exec_tx engine fn db).0 ≡ ok tt
      → (ran.0 ≡ ok tt) × (ran.1.aborted ≡ false) × ((exec_tx engine fn db).1 ≡ tick (ran.1.db))
  unfolding exec_tx
  exec_tx-ok h = ground arith
