-- ===== src/Tests/Replies.antt =====
-- HTTP replies at concrete requests.
use text.Mathlib.TextEquality.{eq_iff}
use payment_service.Base.{
  ◌≡◌, refl, String, [], ◌∷◌, none, some, ok, Result, M, pure, arith, string_discrete,
}
use payment_service.Base.Int.{pos}
use payment_service.Base.Text.{trim_space}
use payment_service.Base.Dict.{lookup}
use payment_service.Json.{Body, null_body}
use payment_service.Payment.{
  completed, new_with_options, new_money, new_payment, capture_method_of, capture_method_is_valid,
}
use payment_service.Idempotency.{CachedResponse, validate_key}
use payment_service.Idempotency.Redis.{World, redis, Compact}
use payment_service.Idempotency.Replay.{locked}
use payment_service.Usecase.Ports.{within_tx}
use payment_service.Usecase.Events.{PaymentResponse, build_payment_event}
use payment_service.Usecase.Laws.{Tables, store_event, store_payment}
use payment_service.Usecase.Create.{CreatePayment, CreatePaymentRequest, Fresh}
use payment_service.Usecase.Create
use payment_service.Http.{create, create_response}
use payment_service.Http.Errors.{create_again}
use payment_service.Tests.Fixtures.{payment, format}

abbrev settled : Tables
settled = record { payments = ("pay-1", payment completed 0) ∷ []; events = [] }

abbrev request : CreatePaymentRequest
request = record {
  amount = pos 10000;
  currency = "BRL";
  installments = pos 3;
  capture_method = "manual";
}

abbrev drawn : String → Fresh
drawn id = record { payment_id = id; created_at = pos 0; event_id = "e"; event_at = pos 5 }

abbrev put : (Tables → Tables) → M (World Tables) (Unit {0})
put f w = (ok tt, record w { app = f w.app })

abbrev uc : CreatePayment (World Tables)
uc = record {
  repo = record {
    save = λ p. put (store_payment p);
    update = λ p. put (store_payment p);
    find_by_id = λ id. pure (payment completed 0);
  };
  outbox = record {
    add = λ e. put (store_event e);
    fetch_unpublished = λ n. pure [];
    mark_published = λ id. pure tt;
  };
  tx = none;
}

-- Every text is taken for JSON in its compact form.
abbrev compact : Compact
compact s = some s

abbrev marshal : PaymentResponse → Result Body
marshal r = ok null_body

abbrev hash_request : CreatePaymentRequest → Result String
hash_request req = ok "h"

abbrev respond : String → M (World Tables) CachedResponse
respond id = create_response format uc (redis compact) marshal hash_request request (drawn id)

abbrev fresh : World Tables
fresh = record { keys = []; app = record { payments = []; events = [] } }

key_valid : validate_key "order-1" ≡ ok tt
unfolding validate_key trim_space
key_valid = refl

create_again_example :
    let out =
      create format uc
        (redis compact)
        marshal
        hash_request
        (ok request)
        "order-1"
        (drawn "pay-1")
        fresh in
    create format uc
      (redis compact)
      marshal
      hash_request
      (ok request)
      "order-1"
      (drawn "pay-2")
      out.1
    ≡ out
unfolding create_response Create.execute new_with_options new_money new_payment
    capture_method_is_valid capture_method_of string_discrete build_payment_event within_tx lookup
create_again_example =
    create_again compact format uc marshal hash_request request "order-1" "h" (drawn "pay-1")
      (drawn "pay-2") fresh ((respond "pay-1" (locked "order-1" fresh)).1)
      (record { status_code = pos 201; body = null_body; request_hash = "" }) key_valid refl
      (ground (arith, eq_iff "h" "")) (λ w. refl) refl refl refl refl
