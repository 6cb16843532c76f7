-- ===== src/Usecase/Atomic/Changes.antt =====
-- What the use cases write (internal/application/usecase): the statuses and capture methods that they
-- store are known ones, an update changes the status and the refunded amount only, and a new event
-- is unpublished.
use payment_service.Base.{◌≡◌, inl, inr, none, true, ok, Result-cases, String, arith}
use payment_service.Base.Int.{ℤ}
use payment_service.Payment.{
  Payment, Time, CaptureMethod, new_with_options, new_payment, new_money, status_is_valid,
  mark_authorized, complete, capture, fail, refund,
}
use payment_service.Payment.Lifecycle.{
  Call, apply, apply-SameOrder, SameOrder, authorizes, completes, captures, fails, refunds,
}
use payment_service.Outbox.{Event, new_event}
use payment_service.Usecase.Ports.{AuthorizationResult}
use payment_service.Usecase.Events.{TimeFormat, build_payment_event}
use payment_service.Usecase.Process.{apply_outcome}
use payment_service.Usecase.Laws.{IsKnown}

pub created-IsKnown :
    (amount : ℤ) (currency : String) (installments : ℤ) (method : CaptureMethod) (id : String)
    (now : Time) {p : Payment}
    → new_with_options amount currency installments method id now ≡ ok p
    → IsKnown p
unfolding new_with_options new_payment new_money status_is_valid
created-IsKnown amount currency installments method id now made = ground arith

apply_known :
    (c : Call) (p : Payment) {q : Payment} → apply c p ≡ ok q → status_is_valid q.status ≡ true
unfolding apply mark_authorized complete capture fail refund status_is_valid
apply_known authorizes p e = ground arith
apply_known completes p e = ground arith
apply_known captures p e = ground arith
apply_known fails p e = ground arith
apply_known (refunds a) p e = ground arith

-- What an update by an accepted call relies on.
pub apply-Update :
    (c : Call) (p : Payment) {q : Payment}
    → apply c p ≡ ok q
    → SameOrder p q × (status_is_valid q.status ≡ true)
apply-Update c p e = (apply-SameOrder c p e, apply_known c p e)

pub apply_outcome-Update :
    (p : Payment) (result : AuthorizationResult) {q : Payment} {type : String}
    → apply_outcome p result ≡ ok (q, type)
    → SameOrder p q × (status_is_valid q.status ≡ true)
unfolding apply_outcome mark_authorized complete fail status_is_valid
apply_outcome-Update p result e = ground arith

pub build_payment_event-unpublished :
    (format : TimeFormat) (p : Payment) (type id : String) (now : Time) {event : Event}
    → build_payment_event format p type id now ≡ ok event
    → event.published_at ≡ none
unfolding build_payment_event new_event
build_payment_event-unpublished format p type id now built =
    elim (Result-cases (format p.created_at)) [
      | inl (e, bad) ↦ cc (rw bad at built)
      | inr (s, good) ↦ ground (arith, good)
    ]
