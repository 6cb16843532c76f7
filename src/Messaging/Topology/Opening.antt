-- ===== src/Messaging/Topology/Opening.antt =====
-- How the constructors of internal/infrastructure/messaging/rabbitmq open a connection and a channel, and
-- close both again when a declaration fails, over a broker that does what the AMQP library documents.
use payment_service.Base.{
  ◌-◌, ◌≡◌, ap, ◌∙◌, List, M, Result, ok, err, after_call, add_text, wrap_error, ◌>>=◌, ◌>>◌, pure,
  arith,
}
use payment_service.Config.{RabbitMqConfig, url}
use payment_service.Messaging.Amqp.{
  Amqp, Session, session_of, with_session, closing_both, closing_connection, close,
}
use payment_service.Messaging.Topology.{
  Declared, Wire, declare, Made, Opens, one_connection, one_channel, AmqpLaws,
}

-- A session with its declarations, on top of what there was.
abbrev pub session : List Declared → Wire → Wire
session ds a = declare ds (one_channel (one_connection a))

module _ {W : Type 0} (view : W → Wire) where
  module _ {C H : Type 0} (amqp : Amqp W C H) (L : AmqpLaws view amqp) where
    -- The declarations went through, or their failure closed the channel and the connection.
    declared-Opens :
        (ds : List Declared) (before : Wire) (conn : C) (ch : H) (x : Result (Unit {0}) × W)
        (middle : Wire)
        → middle ≡ one_channel (one_connection before)
        → Made view ds tt middle x
        → Opens view
            (session ds)
            before
            (after_call (closing_both amqp conn ch x) (λ _. pure (session_of conn ch)))
    declared-Opens ds before conn ch (ok _, w) middle opened made = made.1 ∙ ap (declare ds) opened
    declared-Opens ds before conn ch (err e, w) middle opened made =
        let later = amqp.close_channel ch w in
        ground (arith, L.channel-closes ch w, L.connection-closes conn later)

    channel-Opens :
        (ds : List Declared) (before : Wire) (conn : C) (declaring : H → M W (Unit {0}))
        (x : Result H × W) (middle : Wire)
        → ((ch : H) (w : W) → Made view ds tt (view w) (declaring ch w))
        → middle ≡ one_connection before
        → Opens view one_channel middle x
        → Opens view (session ds) before (
            after_call
              (closing_connection amqp conn (add_text "open rabbitmq channel" x))
              λ ch. (λ w. closing_both amqp conn ch (declaring ch w)) >> pure (session_of conn ch))
    channel-Opens ds before conn declaring (ok ch, w) middle made opened grown =
        declared-Opens ds before conn ch (declaring ch w) (view w) (grown ∙ ap one_channel opened)
          (made ch w)
    channel-Opens ds before conn declaring (err e, w) middle made opened same =
        ground (arith, L.connection-closes conn w)

    dial-Opens :
        (ds : List Declared) (before : Wire) (declaring : H → M W (Unit {0})) (x : Result C × W)
        → ((ch : H) (w : W) → Made view ds tt (view w) (declaring ch w))
        → Opens view one_connection before x
        → Opens view (session ds) before (
            after_call (add_text "connect to rabbitmq" x) λ conn.
              (λ w.
                closing_connection amqp conn
                  (wrap_error "open rabbitmq channel" (amqp.channel conn) w))
              >>= λ ch.
                  (λ w. closing_both amqp conn ch (declaring ch w)) >> pure (session_of conn ch))
    dial-Opens ds before declaring (ok conn, w) made grown =
        channel-Opens ds before conn declaring (amqp.channel conn w) (view w) made grown
          (L.channels conn w)
    dial-Opens ds before declaring (err e, w) made same = same

    pub with_session-Opens :
        (cfg : RabbitMqConfig) (ds : List Declared) (declaring : H → M W (Unit {0})) (w : W)
        → ((ch : H) (w : W) → Made view ds tt (view w) (declaring ch w))
        → Opens view (session ds) (view w) (with_session amqp cfg declaring w)
    with_session-Opens cfg ds declaring w made =
        dial-Opens ds (view w) declaring (amqp.dial (url cfg) w) made (L.dials (url cfg) w)

    -- Close gives back the channel and the connection, whatever it answers.
    pub close-Wire :
        (s : Session C H) (w : W)
        → view (close amqp s w).1 ≡ record (view w) {
          connections = (view w).connections - 1;
          channels = (view w).channels - 1;
        }
    unfolding close
    close-Wire s w = ground (
      arith,
      L.channel-closes s.channel w,
      L.connection-closes s.connection (amqp.close_channel s.channel w),
    )
