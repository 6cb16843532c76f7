-- ===== src/Tests/Tables.antt =====
-- The use cases wired over the repositories in memory, and the tables that their tests share.
use payment_service.Base.{
  ◌≡◌, refl, [], ◌∷◌, String, some, none, ok, err, Error, Result, M, ◌⊎◌, inl, inr, ap, sym, arith,
  string_discrete,
}
use payment_service.Base.Int.{ℤ, pos}
use payment_service.Base.Dict.{lookup}
use payment_service.Payment.{
  pending, completed, Payment, manual, capture_method_is_valid, new_with_options, new_money,
  new_payment,
}
use payment_service.Outbox.{Event, new_event}
use payment_service.Usecase.Ports.{Gateway}
use payment_service.Usecase.Events.{build_payment_event, payment_payload}
use payment_service.Usecase.Laws.{Tables, GatewayLaws, TxLaws}
use payment_service.Usecase.Mock.{mock_gateway-GatewayLaws}
use payment_service.Usecase.Memory.{repository, find_by_id, outbox}
use payment_service.Usecase.InMemory.{settle, transaction, provider}
use payment_service.Usecase.Create.{CreatePaymentRequest, Fresh}
use payment_service.Usecase.Process.{ProcessPaymentInput}
use payment_service.Tests.Fixtures.{payment, brl_named, format}
use payment_service.Usecase.Create.{CreatePayment}
use payment_service.Usecase.Process.{ProcessPayment}
use payment_service.Usecase.Capture.{CapturePayment}
use payment_service.Usecase.Refund.{RefundPayment}

abbrev pub no_wait : ℤ → M Tables (Unit {0})
no_wait d t = (ok tt, t)

abbrev pub same_uuid : Tables → String × Tables
same_uuid t = ("u", t)

abbrev pub gateway : Gateway Tables
gateway = provider "u"

abbrev pub holding : Payment → Tables
holding p = record { payments = (p.id, p) ∷ []; events = [] }

abbrev pub request : CreatePaymentRequest
request = record {
  amount = pos 10000;
  currency = "BRL";
  installments = pos 3;
  capture_method = "manual";
}

abbrev pub fresh : Fresh
fresh = record { payment_id = "pay-1"; created_at = pos 0; event_id = "e"; event_at = pos 5 }

settle-TxLaws :
    (fn : M Tables (Unit {0})) (t : Tables) (x : Result (Unit {0}) × Tables)
    → fn t ≡ x
    → ((e : Error) × ((settle t x).0 ≡ err e) × ((settle t x).1 ≡ t))
      ⊎ (((settle t x).0 ≡ ok tt)
          × ((begun : Tables) × (begun ≡ t)
              × ((fn begun).0 ≡ ok tt)
              × ((settle t x).1 ≡ (fn begun).1)))
settle-TxLaws fn t (ok _, u) h = inr (refl, (t, refl, ap (λ o. o.0) h, sym (ap (λ o. o.1) h)))
settle-TxLaws fn t (err e, u) h = inl (e, refl, refl)

pub transaction-TxLaws : TxLaws (λ t. t) transaction
unfolding transaction
transaction-TxLaws fn t = settle-TxLaws fn t (fn t) refl

pub gateway-GatewayLaws : GatewayLaws (λ t. t) gateway
gateway-GatewayLaws =
    mock_gateway-GatewayLaws (pos 0) no_wait same_uuid (λ t. t) (λ d t. refl) (λ t. refl)

abbrev pub saving : M Tables (Unit {0})
saving = repository.save (payment completed 0)

abbrev pub empty : Tables
empty = record { payments = []; events = [] }

abbrev pub event_for : Payment → String → Event
event_for p type = record {
  id = "e";
  aggregate_id = p.id;
  type = type;
  payload = payment_payload p "0001-01-01T00:00:00Z";
  created_at = pos 5;
  published_at = none;
}

pub created :
    new_with_options (pos 10000) "BRL" (pos 3) manual "pay-1" (pos 0) ≡ ok (payment pending 0)
unfolding new_with_options new_money new_payment capture_method_is_valid
created = ground (arith, brl_named)

pub built :
    (p : Payment) (type : String)
    → p.created_at ≡ pos 0
    → build_payment_event format p type "e" (pos 5) ≡ ok (event_for p type)
unfolding build_payment_event new_event
built p type h = rw (build_payment_event, h) refl

abbrev pub input : ProcessPaymentInput
input = record { payment_id = "pay-1"; amount = pos 10000; currency = "BRL" }

abbrev pub settled : Tables
settled = holding (payment completed 0)

pub read : repository.find_by_id "pay-1" settled ≡ (ok (payment completed 0), settled)
unfolding repository find_by_id lookup string_discrete
read = refl

abbrev pub creator : CreatePayment Tables
creator = record { repo = repository; outbox = outbox (pos 9); tx = some transaction }

abbrev pub processor : ProcessPayment Tables
processor = record {
  repo = repository;
  gateway = some gateway;
  outbox = some (outbox (pos 9));
  tx = some transaction;
}

abbrev pub capturer : CapturePayment Tables
capturer = record {
  repo = repository;
  gateway = gateway;
  outbox = some (outbox (pos 9));
  tx = some transaction;
}

abbrev pub refunder : RefundPayment Tables
refunder = record {
  repo = repository;
  gateway = gateway;
  outbox = some (outbox (pos 9));
  tx = some transaction;
}
