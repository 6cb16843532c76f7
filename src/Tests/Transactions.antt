-- ===== src/Tests/Transactions.antt =====
-- Transactions and the wired use case over a server that answers and shows a transaction its own tables.
use payment_service.Base.{◌≡◌, refl, none, inr, M, ok, Option}
use payment_service.Base.Int.{ℤ, pos}
use payment_service.Payment.{Payment, completed}
use payment_service.Usecase.Ports.{Gateway}
use payment_service.Usecase.Mock.{mock_gateway, simulate_latency}
use payment_service.Usecase.Mock
use payment_service.Usecase.Refund
use payment_service.Usecase.Transaction.{Pool, PoolLaws, Scope, Atomic, within_tx, within_tx-Atomic}
use payment_service.Postgres.{Database, Executor, ExecutorLaws}
use payment_service.Postgres.Direct.{direct, direct-ExecutorLaws}
use payment_service.Postgres.Wired.{ServerLaws, writer, writes, writes-Local}
use payment_service.Postgres.Refunding.{Run, Refunded, refund_in_postgres}
use payment_service.Tests.Fixtures.{payment, format}
use payment_service.Tests.Tables.{event_for}
use payment_service.Tests.Database.{plain, stored}

-- What is committed, and what the one open transaction sees.
abbrev Server : Type 0
Server = Database × Database

abbrev committed : Server → Database
committed w = w.0

abbrev within : Unit {0} → Server → Database
within tx w = w.1

abbrev on_pool : Executor Server
on_pool = record {
  exec = λ c w. let out = direct.exec c w.0 in (out.0, (out.1, w.1));
  query = λ q w. let out = direct.query q w.0 in (out.0, (out.1, w.1));
  query_row = λ q w. let out = direct.query_row q w.0 in (out.0, (out.1, w.1));
  timestamptz = λ t. t;
}

abbrev in_tx : Unit {0} → Executor Server
in_tx tx = record {
  exec = λ c w. let out = direct.exec c w.1 in (out.0, (w.0, out.1));
  query = λ q w. let out = direct.query q w.1 in (out.0, (w.0, out.1));
  query_row = λ q w. let out = direct.query_row q w.1 in (out.0, (w.0, out.1));
  timestamptz = λ t. t;
}

abbrev transactions : Pool Server (Unit {0})
transactions = record {
  begin = λ w. (ok tt, (w.0, w.0));
  rollback = λ tx w. (w.0, w.0);
  commit = λ tx w. (ok tt, (w.1, w.1));
}

transactions-PoolLaws : PoolLaws committed within transactions
transactions-PoolLaws = record {
  begin-keeps = λ w. refl;
  begin-sees = λ w tx begun. refl;
  rollback-keeps = λ tx w. refl;
  commit-applies = λ begin later tx begun same done. refl;
  commit-whole = λ begin later tx begun same. inr refl;
}

on_pool-ExecutorLaws : ExecutorLaws committed on_pool
on_pool-ExecutorLaws = record {
  exec-runs = λ c w n ran. direct-ExecutorLaws.exec-runs c w.0 n ran;
  query-keeps = λ q w. refl;
  query-reads =
      λ q w rows xs ran fine read. direct-ExecutorLaws.query-reads q w.0 rows xs ran fine read;
  query_row-keeps = λ q w. refl;
  query_row-reads = λ q w r ran. direct-ExecutorLaws.query_row-reads q w.0 r ran;
  query_row-empty = λ q w e ran empty. direct-ExecutorLaws.query_row-empty q w.0 e ran empty;
}

in_tx-ExecutorLaws : (tx : Unit {0}) → ExecutorLaws (within tx) (in_tx tx)
in_tx-ExecutorLaws tx = record {
  exec-runs = λ c w n ran. direct-ExecutorLaws.exec-runs c w.1 n ran;
  query-keeps = λ q w. refl;
  query-reads =
      λ q w rows xs ran fine read. direct-ExecutorLaws.query-reads q w.1 rows xs ran fine read;
  query_row-keeps = λ q w. refl;
  query_row-reads = λ q w r ran. direct-ExecutorLaws.query_row-reads q w.1 r ran;
  query_row-empty = λ q w e ran empty. direct-ExecutorLaws.query_row-empty q w.1 e ran empty;
}

server-ServerLaws : ServerLaws committed within in_tx on_pool transactions
server-ServerLaws = record {
  on_pool = on_pool-ExecutorLaws;
  in_each = in_tx-ExecutorLaws;
  exec-local = λ tx c w. refl;
  whole = transactions-PoolLaws;
}

abbrev provider : Gateway Server
provider = mock_gateway (pos 0) (λ d w. (ok tt, w)) (λ w. ("u", w))

provider-keeps :
    (p : Payment) (a : ℤ) (w : Server) → committed (provider.refund p a w).1 ≡ committed w
unfolding mock_gateway Mock.refund simulate_latency
provider-keeps p a w = refl

abbrev before : Server
before = (stored (payment completed 0), stored (payment completed 0))

abbrev both : M (Scope Server (Unit {0})) (Unit {0})
both =
    writes in_tx on_pool transactions plain (pos 9) provider (payment completed 5)
      (event_for (payment completed 5) "payment.refunded")

within_tx-Atomic_example :
    let s : Scope Server (Unit {0}) = record { ctx = none; world = before } in
    let out = within_tx transactions both s in
    Atomic committed within transactions both before (out.0, out.1.world)
    × ◌≡◌ {A = Option (Unit {0})} out.1.ctx none
within_tx-Atomic_example =
    within_tx-Atomic committed within transactions transactions-PoolLaws both
      (record { ctx = none; world = before })
      (writes-Local in_tx on_pool transactions plain (pos 9) provider committed within
        server-ServerLaws (payment completed 5)
        (event_for (payment completed 5) "payment.refunded"))

refund_in_postgres_example :
    Run committed before
      (Refunded in_tx on_pool transactions plain
        (pos 9)
        provider
        committed
        within
        server-ServerLaws
        provider-keeps
        format
        "pay-1"
        (pos 3000)
        "e"
        (pos 5)
        before)
      (Refund.execute format
        (writer in_tx on_pool transactions plain (pos 9) provider)
        "pay-1"
        (pos 3000)
        "e"
        (pos 5)
        (record { ctx = none; world = before }))
unfolding mock_gateway Mock.refund simulate_latency
refund_in_postgres_example =
    refund_in_postgres in_tx on_pool transactions plain (pos 9) provider committed within
      server-ServerLaws provider-keeps format "pay-1" (pos 3000) "e" (pos 5) before
