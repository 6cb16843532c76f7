-- ===== src/Postgres/Connection.antt =====
-- internal/infrastructure/persistence/postgres/connection.go, over the calls of pgxpool.
use payment_service.Base.{String, M, Result, ok, err, ◌>>=◌, pure, wrap_error}
use payment_service.Config.{PostgresConfig, dsn}

pub record Pools (W P : Type 0) : Type 0 where
  pub new : String → M W P
  pub ping : P → M W (Unit {0})
  pub close : P → W → W

module _ {W P : Type 0} (pools : Pools W P) where
  -- A ping that failed closes the pool.
  abbrev pub closing : P → Result (Unit {0}) × W → Result (Unit {0}) × W
  closing pool (ok _, w) = (ok tt, w)
  closing pool (err e, w) = (err e, pools.close pool w)

  -- NewPool
  unfoldable pub new_pool : PostgresConfig → M W P
  new_pool cfg = do
    pool ← wrap_error "connect to postgres" (pools.new (dsn cfg))
    alive ← λ w. closing pool (wrap_error "ping postgres" (pools.ping pool) w)
    pure pool
