-- ===== src/Webhook/Service.antt =====
-- The webhook service: DispatchWebhook.Execute of internal/application/webhook/dispatch.go and
-- retryBatch of internal/application/webhook/retry.go, over the ports that they call.
use payment_service.Base.{
  value, zero, suc, ℕ, String, ◌<>◌, List, [], ◌∷◌, M, pure, wrap_error, ◌>>=◌, ◌>>◌,
}
use payment_service.Payment.{Time}
use payment_service.Json.{Body, unmarshal_id}
use payment_service.Webhook.{
  Subscription, Delivery, RetriableDelivery, SendRequest, Hmac, sign, new_delivery,
}
use payment_service.Webhook.Attempt.{BackoffPolicy, Attempt, apply_attempt_outcome}

-- SubscriptionRepository, DeliveryRepository and Sender, with the clock and the uuids. What a send
-- returns is a value, not a failure of the run.
pub record Ports (W : Type 0) : Type 0 where
  pub find_active_by_event_type : String → M W (List Subscription)
  pub save_delivery : Delivery → M W (Unit {0})
  pub fetch_retriable : ℕ → Time → M W (List RetriableDelivery)
  pub send : SendRequest → W → Attempt × W
  pub clock : W → Time × W
  pub new_uuid : W → String × W

-- The hexadecimal SHA-256 of a text.
abbrev pub Digest : Type 0
Digest = String → String

-- deliveryID
unfoldable pub delivery_id : Digest → String → String → String → String
delivery_id digest subscription_id event_type aggregate_id =
    digest (subscription_id <> ":" <> event_type <> ":" <> aggregate_id)

-- extractAggregateID
unfoldable pub extract_aggregate_id : Body → String
extract_aggregate_id payload = (unmarshal_id payload).0

module _ {W : Type 0} (digest : Digest) (hmac : Hmac) (policy : BackoffPolicy)
    (ports : Ports W) where
  -- One round of the loop of Execute.
  unfoldable pub deliver_to : String → Body → String → Subscription → M W (Unit {0})
  unfolding delivery_id sign
  deliver_to event_type payload aggregate_id sub = do
    let webhook_id = delivery_id digest sub.id event_type aggregate_id
    created ← value ports.clock
    id ← value ports.new_uuid
    attempt ← value (
        ports.send (record {
          url = sub.url;
          event_type = event_type;
          webhook_id = webhook_id;
          signature = sign hmac sub.secret payload;
          body = payload;
        }))
    now ← value ports.clock
    at ← value ports.clock
    wrap_error "save delivery" (
        ports.save_delivery (
          apply_attempt_outcome policy attempt now at
            (new_delivery sub.id webhook_id event_type payload id created)))

  unfoldable pub deliver_all : String → Body → String → List Subscription → M W (Unit {0})
  deliver_all event_type payload aggregate_id [] = pure tt
  deliver_all event_type payload aggregate_id (sub ∷ subs) =
      deliver_to event_type payload aggregate_id sub
      >> deliver_all event_type payload aggregate_id subs

  -- DispatchWebhook.Execute
  unfoldable pub execute : String → Body → M W (Unit {0})
  unfolding extract_aggregate_id
  execute event_type payload = do
    subs ← wrap_error "find subscriptions" (ports.find_active_by_event_type event_type)
    deliver_all event_type payload (extract_aggregate_id payload) subs

  -- One round of the loop of retryBatch.
  unfoldable pub retry_one : RetriableDelivery → M W (Unit {0})
  unfolding sign
  retry_one item = do
    let d = item.delivery
    attempt ← value (
        ports.send (record {
          url = item.url;
          event_type = d.event_type;
          webhook_id = d.event_id;
          signature = sign hmac item.secret d.payload;
          body = d.payload;
        }))
    now ← value ports.clock
    at ← value ports.clock
    wrap_error ("save delivery " <> d.id)
        (ports.save_delivery (apply_attempt_outcome policy attempt now at d))

  unfoldable pub retry_all : List RetriableDelivery → M W (Unit {0})
  retry_all [] = pure tt
  retry_all (item ∷ items) = retry_one item >> retry_all items

  -- retryBatch
  unfoldable pub retry_batch : ℕ → M W (Unit {0})
  retry_batch batch_size = do
    now ← value ports.clock
    items ← wrap_error "fetch retriable" (ports.fetch_retriable batch_size now)
    retry_all items

  -- RetryDeliveries.Run, for so many ticks: a failed batch only logs.
  unfoldable pub retry_ticks : ℕ → ℕ → W → W
  retry_ticks batch_size zero w = w
  retry_ticks batch_size (suc n) w = retry_ticks batch_size n (retry_batch batch_size w).1
