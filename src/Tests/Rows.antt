-- ===== src/Tests/Rows.antt =====
-- Rows of deliveries in PostgreSQL, on a server that answers.
use payment_service.Base.{◌≡◌, refl, some, [], ◌∷◌, ok, str_eq, ◌&&◌, if◌then◌else◌}
use payment_service.Base.Int.{pos}
use payment_service.Webhook.{failed}
use payment_service.Webhook
use payment_service.Json.{object}
use payment_service.Postgres.{Database}
use payment_service.Postgres.Direct.{direct, direct-ExecutorLaws}
use payment_service.Postgres.Agreement.{OrWrapped}
use payment_service.Postgres.Deliveries.{row_at, same_target}
use payment_service.Postgres.Deliveries
use payment_service.Postgres.Retries.{OneEach, delivery_at, saved, save_delivery-OneEach}
use payment_service.Tests.Database.{blank}

abbrev same : Database → Database
same d = d

abbrev delivery : Webhook.Delivery
delivery = record {
  id = "d";
  subscription_id = "s";
  event_id = "e";
  event_type = "payment.failed";
  payload = object [];
  status = failed;
  attempts = pos 1;
  last_error = "timeout";
  next_attempt_at = pos 40;
  created_at = pos 1;
  updated_at = pos 2;
}

abbrev delivered : Database
delivered = record blank { deliveries = Deliveries.row_of (λ t. t) delivery ∷ [] }

save_delivery-OneEach_example :
    let out = Deliveries.save direct delivery delivered in
    OrWrapped "save webhook delivery" out.0 (
      (out.0 ≡ ok tt)
      × (delivery_at "s" "e" out.1.deliveries ≡ (
          if str_eq "s" "s" && str_eq "e" "e"
          then some (saved (λ t. t) delivery (delivery_at "s" "e" delivered.deliveries))
          else delivery_at "s" "e" delivered.deliveries))
      × OneEach out.1.deliveries)
unfolding row_at
save_delivery-OneEach_example =
    save_delivery-OneEach same direct direct-ExecutorLaws delivery "s" "e" delivered (refl, tt)
