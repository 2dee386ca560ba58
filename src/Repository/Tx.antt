-- ===== src/Repository/Tx.antt =====
-- `Store.ExecTx` of internal/repository/store.go: a function of the store inside one transaction.
pub mod Atomic
use temporal_durable_event_p.Base.{Bool, true, false, if◌then◌else◌}
use temporal_durable_event_p.Base.Exec.{Exec, Result, ok, err}
use temporal_durable_event_p.Repository.Db.{
  Engine, Db, DbError, connection, Delivery, answered, refused, reply_lost, tick,
}

-- The session of a transaction that has begun: the tables as it sees them, and whether a statement
-- of it has failed. PostgreSQL refuses every statement after a failed one until the rollback.
pub record Tx : Type 0 where
  pub db : Db
  pub aborted : Bool

abbrev is_err : {A : Type 0} → Result DbError A → Bool
is_err (ok _) = false
is_err (err _) = true

-- A statement of a store on `Queries.WithTx(tx)`.
unfoldable pub with_tx : {A : Type 0} → Exec Db DbError A → Exec Tx DbError A
with_tx stmt tx =
    if tx.aborted
    then (err connection, tx)
    else (let (r, db) = stmt tx.db in (r, record { db = db; aborted = is_err r }))

-- A rollback restores the tables; the statements that were sent stay sent.
abbrev pub rolled_back : Db → Db → Db
rolled_back before after = record before { statements = after.statements }

-- `tx.Commit`, whose rollback in the deferred call then changes nothing.
abbrev commit : Delivery → Db → Tx → Result DbError (Unit {0}) × Db
commit answered before tx =
    if tx.aborted then (err connection, rolled_back before tx.db) else (ok tt, tx.db)
commit refused before tx = (err connection, rolled_back before tx.db)
commit reply_lost before tx =
    (err connection, if tx.aborted then rolled_back before tx.db else tx.db)

abbrev finish : Delivery → Db → Result DbError (Unit {0}) × Tx → Result DbError (Unit {0}) × Db
finish delivery before (ok _, tx) = commit delivery before (record tx { db = tick tx.db })
finish delivery before (err e, tx) = (err e, rolled_back before tx.db)

abbrev begin :
    Delivery → (Db → Result DbError (Unit {0}) × Db) → Db → Result DbError (Unit {0}) × Db
begin answered run db = run (tick db)
begin refused run db = (err connection, tick db)
begin reply_lost run db = (err connection, tick db)

module _ (engine : Engine) where
  -- The transaction after `Begin`: `fn`, then the rollback or the commit.
  abbrev pub in_transaction : Exec Tx DbError (Unit {0}) → Db → Result DbError (Unit {0}) × Db
  in_transaction fn db =
      let (r, tx) = fn (record { db = db; aborted = false }) in
      finish (engine.delivery tx.db.statements) db (r, tx)

  -- `ExecTx`
  unfoldable pub exec_tx : Exec Tx DbError (Unit {0}) → Exec Db DbError (Unit {0})
  exec_tx fn db = begin (engine.delivery db.statements) (in_transaction fn) db
