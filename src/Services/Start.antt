-- ===== src/Services/Start.antt =====
-- How cmd/api/main.go and cmd/outbox/main.go start and end.
use payment_service.Base.{ℕ, zero, String, ◌<>◌, some, M, Result, ok, err, ◌>>=◌, ◌>>◌}
use payment_service.Base.Int.{ℤ, pos, negsuc}
use payment_service.Config.{Config, dsn, addr}
use payment_service.Migrations.{Migrator, up}
use payment_service.Postgres.Connection.{Pools, new_pool}
use payment_service.Outbox.{Repository, Publisher}
use payment_service.Outbox.Relay.{ticks}
use payment_service.Messaging.Amqp.{Session, new_payment_publisher, publish}
use payment_service.Messaging.Consume.{canceled}
use payment_service.Services.{Exit, clean, fatal, Runtime, leave}

-- The client of Redis under an address.
pub record RedisClient (W : Type 0) : Type 0 where
  pub ping : String → M W (Unit {0})
  pub close : String → W → W

abbrev fatally : {W : Type 0} → Result (Unit {0}) × W → Exit × W
fatally (ok _, w) = (clean, w)
fatally (err e, w) = (fatal e, w)

-- main of cmd/api, where `serve` is router.Run; the deferred calls run only if that returns nil.
unfoldable pub api_main :
    {W P H : Type 0}
    → Migrator W H
    → Pools W P
    → RedisClient W
    → (String → M W (Unit {0}))
    → Config
    → W
    → Exit × W
unfolding up new_pool
api_main m pools redis serve cfg w = fatally (
    (do
      up m (dsn cfg.postgres)
      pool ← new_pool pools cfg.postgres
      redis.ping (addr cfg.redis)
      serve (":" <> cfg.port)
      λ w. (ok tt, pools.close pool (redis.close (addr cfg.redis) w)))
      w)

-- The batch size as the relay passes it on; Load gives one from 1 on.
abbrev pub batch : ℤ → ℕ
batch (pos n) = n
batch (negsuc n) = zero

module _ {W P C H : Type 0} (rt : Runtime W P C H) (repository : P → Repository W)
    (cfg : Config) where
  -- Run of the relay until its context ends, after so many ticks.
  abbrev pub relaying : ℕ → P → Result (Session C H) × W → Exit × W
  relaying n pool (err e, w) = (fatal e, w)
  relaying n pool (ok s, w) =
      let send : Publisher W =
        λ key id body. publish rt.amqp s.channel cfg.rabbit_mq.exchange key id body in
      leave rt pool s
        (some canceled, ticks (repository pool) send (batch cfg.outbox.batch_size) n w)

  abbrev pub relay_connected : ℕ → Result P × W → Exit × W
  relay_connected n (err e, w) = (fatal e, w)
  relay_connected n (ok pool, w) = relaying n pool (new_payment_publisher rt.amqp cfg.rabbit_mq w)

  -- main of cmd/outbox
  unfoldable pub outbox_main : ℕ → W → Exit × W
  unfolding new_pool new_payment_publisher ticks publish
  outbox_main n w = relay_connected n (new_pool rt.pools cfg.postgres w)
