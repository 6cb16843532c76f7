-- ===== src/Messaging/Consume.antt =====
-- Start of internal/infrastructure/messaging/rabbitmq/subscriber.go and of consumer.go: the loop that
-- waits for the end of the context or for the next delivery. What it receives is a list; at its end
-- the loop waits on.
use mathlib.Core.List.{append_assoc, append-nil}
use payment_service.Base.{
  ◌≡◌, refl, ap, sym, ◌∙◌, Option, none, some, List, [], ◌∷◌, ◌++◌, M, Result, ok, err, Error,
  other, wrapped,
}
use payment_service.Messaging.{Verdict}
use payment_service.Messaging.Amqp.{Delivery}

-- What the select of the loop receives.
pub data Signal : Type 0 where
  done closed : Signal
  delivery : Delivery → Signal

-- ctx.Err() of a context that was cancelled.
abbrev pub canceled : Error
canceled = other "context canceled"

module _ {W : Type 0} (handle : Delivery → W → Verdict × W)
    (settle : Delivery → Verdict → M W (Unit {0})) where
  -- The last line of each handle: Ack or Nack, whose error is dropped.
  abbrev pub settled : Delivery → Verdict × W → W
  settled d (verdict, w) = (settle d verdict w).1

  -- The loop: `none` while it waits for more.
  unfoldable pub consume_from : List Signal → W → Option Error × W
  consume_from [] w = (none, w)
  consume_from (done ∷ signals) w = (some canceled, w)
  consume_from (closed ∷ signals) w = (some (other "rabbitmq channel closed"), w)
  consume_from (delivery d ∷ signals) w = consume_from signals (settled d (handle d w))

  abbrev pub consuming : List Signal → Result (Unit {0}) × W → Option Error × W
  consuming signals (ok _, w) = consume_from signals w
  consuming signals (err e, w) = (some (wrapped "start consuming" e), w)

  -- Start, where `consume` is the call of Consume.
  unfoldable pub start : M W (Unit {0}) → List Signal → W → Option Error × W
  unfolding consume_from
  start consume signals w = consuming signals (consume w)

-- The deliveries before the first signal that ends the loop.
abbrev pub taken : List Signal → List Delivery
taken (delivery d ∷ signals) = d ∷ taken signals
taken _ = []

-- Why the loop ended.
abbrev pub ending : List Signal → Option Error
ending [] = none
ending (done ∷ signals) = some canceled
ending (closed ∷ signals) = some (other "rabbitmq channel closed")
ending (delivery d ∷ signals) = ending signals

module _ {W : Type 0} (log : W → List Delivery) (handle : Delivery → W → Verdict × W)
    (settle : Delivery → Verdict → M W (Unit {0}))
    (quiet : (d : Delivery) (w : W) → log (handle d w).1 ≡ log w)
    (settles : (d : Delivery) (v : Verdict) (w : W)
      → log (settle d v w).1 ≡ log w ++ (d ∷ [])) where
  settled-log :
      (d : Delivery) (w : W) → log (settled handle settle d (handle d w)) ≡ log w ++ (d ∷ [])
  settled-log d w = settles d (handle d w).0 (handle d w).1 ∙ ap (λ l. l ++ (d ∷ [])) (quiet d w)

  -- With a handler that settles nothing by itself: over any signals, every delivery before the end of
  -- the context or of the channel is acknowledged or rejected, once and in order, none after it is,
  -- and the loop answers the error that goes with its end, or waits.
  pub consume_from-log :
      (signals : List Signal) (w : W)
      → ((consume_from handle settle signals w).0 ≡ ending signals)
        × (log (consume_from handle settle signals w).1 ≡ log w ++ taken signals)
  unfolding consume_from
  consume_from-log [] w = (refl, sym (append-nil (log w)))
  consume_from-log (done ∷ signals) w = (refl, sym (append-nil (log w)))
  consume_from-log (closed ∷ signals) w = (refl, sym (append-nil (log w)))
  consume_from-log (delivery d ∷ signals) w =
      let rest = consume_from-log signals (settled handle settle d (handle d w)) in
      (
        rest.0,
        rest.1
            ∙ ap (λ l. l ++ taken signals) (settled-log d w)
            ∙ append_assoc (log w) (d ∷ []) (taken signals),
      )

-- What neither the handler nor Ack and Nack change is as before.
pub consume_from-keeps :
    {W A : Type 0} (look : W → A) (handle : Delivery → W → Verdict × W)
    (settle : Delivery → Verdict → M W (Unit {0}))
    → ((d : Delivery) (w : W) → look (handle d w).1 ≡ look w)
    → ((d : Delivery) (v : Verdict) (w : W) → look (settle d v w).1 ≡ look w)
    → (signals : List Signal) (w : W) → look (consume_from handle settle signals w).1 ≡ look w
unfolding consume_from
consume_from-keeps look handle settle quiet keeps [] w = refl
consume_from-keeps look handle settle quiet keeps (done ∷ signals) w = refl
consume_from-keeps look handle settle quiet keeps (closed ∷ signals) w = refl
consume_from-keeps look handle settle quiet keeps (delivery d ∷ signals) w =
    consume_from-keeps look handle settle quiet keeps signals (settled handle settle d (handle d w))
    ∙ keeps d (handle d w).0 (handle d w).1
    ∙ quiet d w
