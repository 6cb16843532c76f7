-- ===== src/Http/Routes.antt =====
-- internal/infrastructure/http/router.go: which handler answers which method and path, and
-- handler/health_handler.go. gin matches a path against these patterns.
use payment_service.Base.{
  Bool, true, false, not, ◌&&◌, String, List, [], ◌∷◌, ◌≡◌, refl, str_eq, string_discrete,
  if◌then◌else◌,
}
use payment_service.Base.Int.{pos}
use payment_service.Json.{object, text}
use payment_service.Http.{Reply, raw_body}

-- The handlers that are given to NewRouter.
pub data Handler : Type 0 where
  ping create_payment get_payment list_payments capture_payment refund_payment : Handler
  create_webhook list_webhooks : Handler

pub record Route : Type 0 where
  pub method : String
  pub path : String
  -- Behind the middleware that asks for an Idempotency-Key.
  pub keyed : Bool
  pub handler : Handler

abbrev plain : String → String → Handler → Route
plain method path handler = record {
  method = method;
  path = path;
  keyed = false;
  handler = handler;
}

abbrev webhook_routes : List Route
webhook_routes =
    plain "POST" "/api/v1/webhooks" create_webhook
    ∷ plain "GET" "/api/v1/webhooks" list_webhooks
    ∷ []

-- NewRouter; the flag tells whether it is given a handler of webhooks.
unfoldable pub routes : Bool → List Route
routes with_webhooks =
    plain "GET" "/ping" ping
    ∷ record { method = "POST"; path = "/api/v1/payments"; keyed = true; handler = create_payment }
    ∷ plain "GET" "/api/v1/payments/:id" get_payment
    ∷ plain "GET" "/api/v1/payments" list_payments
    ∷ plain "POST" "/api/v1/payments/:id/capture" capture_payment
    ∷ plain "POST" "/api/v1/payments/:id/refund" refund_payment
    ∷ (if with_webhooks then webhook_routes else [])

-- HealthHandler.Ping
unfoldable pub health : Reply
health = record { status = pos 200; body = raw_body (object (("message", text "pong") ∷ [])) }

abbrev same_route : Route → Route → Bool
same_route a b = str_eq a.method b.method && str_eq a.path b.path

abbrev unlike : Route → List Route → Bool
unlike r [] = true
unlike r (s ∷ rs) = not (same_route r s) && unlike r rs

abbrev pub all_unlike : List Route → Bool
all_unlike [] = true
all_unlike (r ∷ rs) = unlike r rs && all_unlike rs

-- No two routes have the same method and path.
routes_differ : (with_webhooks : Bool) → all_unlike (routes with_webhooks) ≡ true
unfolding routes string_discrete
routes_differ true = refl
routes_differ false = refl
