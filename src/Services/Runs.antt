-- ===== src/Services/Runs.antt =====
-- How a run of one of the processes of cmd/audit, cmd/notification, cmd/webhook and cmd/consumer ends,
-- and what has become of its messages and connections then.
use mathlib.Core.Path.{subst}
use payment_service.Base.{
  suc, ◌≡◌, refl, ap, sym, ◌∙◌, ◌⊎◌, inl, inr, String, none, some, List, [], ◌∷◌, ◌++◌, M, Result,
  ok, err, other, wrapped, arith, Bool-cases, string_discrete, after_call, add_text, wrap_error,
  ◌>>◌, pure,
}
use payment_service.Config.{PostgresConfig, dsn}
use payment_service.Postgres.Connection.{new_pool, closing}
use payment_service.Messaging.{Verdict}
use payment_service.Messaging.Amqp.{Session, Delivery, close}
use payment_service.Messaging.Consume.{
  Signal, done, closed, delivery, start, consume_from, consuming, canceled, taken, ending,
  consume_from-log, consume_from-keeps,
}
use payment_service.Messaging.Topology.{Wire, Declared, AmqpLaws, Opens}
use payment_service.Messaging.Topology.Opening.{session, close-Wire}
use payment_service.Services.{
  Exit, clean, waiting, fatal, is_canceled, Runtime, leave, serve, connected, run_service,
}

-- The deliveries before the end are settled, once and in order.
abbrev pub Settled : Wire → List Signal → Wire → Type 0
Settled before signals after = after.settled ≡ before.settled ++ taken signals

abbrev pub SameCounts : Wire → Wire → Type 0
SameCounts before after =
    (after.connections ≡ before.connections) × (after.channels ≡ before.channels)

ending_cases :
    (signals : List Signal)
    → (ending signals ≡ none)
      ⊎ (ending signals ≡ some canceled)
      ⊎ (ending signals ≡ some (other "rabbitmq channel closed"))
ending_cases [] = inl refl
ending_cases (done ∷ signals) = inr (inl refl)
ending_cases (closed ∷ signals) = inr (inr refl)
ending_cases (delivery d ∷ signals) = ending_cases signals

module _ {W : Type 0} (view : W → Wire) where
  -- How a run that began at `before` may have ended.
  abbrev pub Ended : Wire → List Signal → Exit × W → Type 0
  Ended before signals (clean, w) =
      SameCounts before (view w)
      × (((view w).settled ≡ before.settled)
          ⊎ ((ending signals ≡ some canceled) × Settled before signals (view w)))
  Ended before signals (waiting, w) = (ending signals ≡ none) × Settled before signals (view w)
  Ended before signals (fatal e, w) =
      ((view w).settled ≡ before.settled)
      ⊎ ((ending signals ≡ some e) × Settled before signals (view w))

  -- What the library calls do to the account: those of pgxpool and Consume nothing, and a call of Ack
  -- or Nack enters its delivery, whatever it answers.
  pub record RuntimeLaws {P C H : Type 0} (rt : Runtime W P C H) : Type 0 where
    pub amqp : AmqpLaws view rt.amqp
    pub new-keeps : (url : String) (w : W) → view (rt.pools.new url w).1 ≡ view w
    pub ping-keeps : (pool : P) (w : W) → view (rt.pools.ping pool w).1 ≡ view w
    pub pool-close-keeps : (pool : P) (w : W) → view (rt.pools.close pool w) ≡ view w
    pub consume-keeps : (ch : H) (queue : String) (w : W) → view (rt.consume ch queue w).1 ≡ view w
    pub settle-adds :
        (d : Delivery) (v : Verdict) (w : W)
        → view (rt.settle d v w).1 ≡ record (view w) { settled = (view w).settled ++ (d ∷ []) }

  module _ {P C H : Type 0} (rt : Runtime W P C H) (L : RuntimeLaws rt) where
    leave-Ended :
        (before : Wire) (signals : List Signal) (pool : P) (s : Session C H) (w : W)
        → (view w).connections ≡ suc before.connections
        → (view w).channels ≡ suc before.channels
        → Settled before signals (view w)
        → Ended before signals (leave rt pool s (ending signals, w))
    unfolding is_canceled string_discrete
    leave-Ended before signals pool s w conns chans log = elim (ending_cases signals) [
      | inl waits ↦ rw waits (waits, log)
      | inr (inl stops) ↦
          let shut =
            L.pool-close-keeps pool (close rt.amqp s w).1 ∙ close-Wire view rt.amqp L.amqp s w in
          rw stops (
            (ground (arith, shut), ground (arith, shut)),
            inr (stops, ap (λ v. v.settled) shut ∙ log),
          )
      | inr (inr breaks) ↦ rw breaks (inr (breaks, log))
    ]

    module _ (handle : Delivery → W → Verdict × W)
        (quiet : (d : Delivery) (w : W) → view (handle d w).1 ≡ view w) where
      consuming-Ended :
          (before : Wire) (signals : List Signal) (pool : P) (s : Session C H)
          (x : Result (Unit {0}) × W)
          → (view x.1).connections ≡ suc before.connections
          → (view x.1).channels ≡ suc before.channels
          → (view x.1).settled ≡ before.settled
          → Ended before signals (leave rt pool s (consuming handle rt.settle signals x))
      consuming-Ended before signals pool s (ok _, w) conns chans log =
          let w' = (consume_from handle rt.settle signals w).1 in
          let heard =
            consume_from-log (λ w. (view w).settled) handle rt.settle
              (λ d w. ap (λ v. v.settled) (quiet d w))
              (λ d v w. ap (λ v. v.settled) (L.settle-adds d v w)) signals w in
          subst (λ o. Ended before signals (leave rt pool s (o, w'))) (sym heard.0)
            (leave-Ended before signals pool s w'
              (consume_from-keeps (λ w. (view w).connections) handle rt.settle
                  (λ d w. ap (λ v. v.connections) (quiet d w))
                  (λ d v w. ap (λ v. v.connections) (L.settle-adds d v w)) signals w
                ∙ conns)
              (consume_from-keeps (λ w. (view w).channels) handle rt.settle
                  (λ d w. ap (λ v. v.channels) (quiet d w))
                  (λ d v w. ap (λ v. v.channels) (L.settle-adds d v w)) signals w
                ∙ chans)
              (heard.1 ∙ ap (λ l. l ++ taken signals) log))
      consuming-Ended before signals pool s (err e, w) conns chans log =
          elim (Bool-cases (is_canceled (wrapped "start consuming" e))) [
            | inl yes_ ↦
                let shut =
                  L.pool-close-keeps pool (close rt.amqp s w).1
                  ∙ close-Wire view rt.amqp L.amqp s w in
                rw yes_ (
                  (ground (arith, shut), ground (arith, shut)),
                  inl (ap (λ v. v.settled) shut ∙ log),
                )
            | inr no_ ↦ rw no_ (inl log)
          ]

      pinged-view :
          (pool : P) (x : Result (Unit {0}) × W)
          → view
              (after_call (closing rt.pools pool (add_text "ping postgres" x)) (λ _. pure pool)).1
            ≡ view x.1
      pinged-view pool (ok _, w) = refl
      pinged-view pool (err e, w) = L.pool-close-keeps pool w

      made-view :
          (x : Result P × W)
          → view
              (after_call (add_text "connect to postgres" x) λ pool.
                (λ w. closing rt.pools pool (wrap_error "ping postgres" (rt.pools.ping pool) w))
                >> pure pool).1
            ≡ view x.1
      made-view (err e, w) = refl
      made-view (ok pool, w) = pinged-view pool (rt.pools.ping pool w) ∙ L.ping-keeps pool w

      new_pool-view : (cfg : PostgresConfig) (w : W) → view (new_pool rt.pools cfg w).1 ≡ view w
      unfolding new_pool
      new_pool-view cfg w = made-view (rt.pools.new (dsn cfg) w) ∙ L.new-keeps (dsn cfg) w

      module _ (ds : List Declared) (opener : M W (Session C H))
          (opens : (w : W) → Opens view (session ds) (view w) (opener w)) (name : String) where
        serve-Ended :
            (before : Wire) (signals : List Signal) (pool : P) (x : Result (Session C H) × W)
            → Opens view (session ds) before x
            → Ended before signals (serve rt name handle signals pool x)
        unfolding start
        serve-Ended before signals pool (err e, w) same = inl same.2
        serve-Ended before signals pool (ok s, w) grown =
            let same = L.consume-keeps s.channel name w ∙ grown in
            consuming-Ended before signals pool s (rt.consume s.channel name w)
              (ap (λ v. v.connections) same) (ap (λ v. v.channels) same) (ap (λ v. v.settled) same)

        connected-Ended :
            (before : Wire) (signals : List Signal) (x : Result P × W)
            → view x.1 ≡ before
            → Ended before signals (connected rt opener name handle signals x)
        connected-Ended before signals (err e, w) same = inl (ap (λ v. v.settled) same)
        connected-Ended before signals (ok pool, w) same =
            serve-Ended before signals pool (opener w)
              (subst (λ v. Opens view (session ds) v (opener w)) same (opens w))

        -- A process that reads events, over calls of pgx and of the AMQP library that keep their
        -- documented laws, with a handler that leaves the broker alone and a constructor that
        -- opens one connection and one channel or nothing. If it ends cleanly, as many connections
        -- and channels are open as before, and it has settled no message, or each one that came
        -- before the end of its context, once and in order. If it waits, it has settled each one
        -- that came. If it ends with an error, it has settled none, or each one that came before
        -- the end whose error it is.
        pub run_service-Ended :
            (cfg : PostgresConfig) (signals : List Signal) (w : W)
            → Ended (view w) signals (run_service rt cfg opener name handle signals w)
        unfolding run_service
        run_service-Ended cfg signals w =
            connected-Ended (view w) signals (new_pool rt.pools cfg w) (new_pool-view cfg w)
