-- ===== src/Tests/Store.antt =====
-- Instances of the theorems about the transactions of the store.
use temporal_durable_event_p.Base.{◌≡◌, refl, false}
use temporal_durable_event_p.Base.Exec.{Exec, ok, map_ok}
use temporal_durable_event_p.Repository.Db.{DbError, tick}
use temporal_durable_event_p.Repository.Store
use temporal_durable_event_p.Repository.Users
use temporal_durable_event_p.Repository.Tx.{Tx, with_tx, exec_tx}
use temporal_durable_event_p.Repository.Tx.Atomic.{ran, exec_tx-ok}
use temporal_durable_event_p.Tests.Data.{engine, db}

-- A transaction that creates a user and discards the row.
abbrev create_alice : Exec Tx DbError (Unit {0})
create_alice tx =
    map_ok (λ _. tt) (with_tx (Store.create_user engine "alice" "alice@example.org" "#")) tx

exec_tx-ok_example :
    ((ran engine create_alice db).0 ≡ ok tt)
    × ((ran engine create_alice db).1.aborted ≡ false)
    × ((exec_tx engine create_alice db).1 ≡ tick ((ran engine create_alice db).1.db))
unfolding exec_tx with_tx Store.create_user Users.create_user
exec_tx-ok_example = exec_tx-ok engine create_alice db refl
