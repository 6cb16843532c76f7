-- ===== src/Http/Errors.antt =====
-- What a client is told: refused operations and repeated requests
-- (internal/infrastructure/http/handler/payment_handler.go).
use payment_service.Base.{
  ◌≡◌, refl, ap, ◌∙◌, ◌≢◌, ◌⊎◌, inl, inr, String, none, some, Result, ok, err, Error, message,
  invalid_transition, invalid_refund_amount, refund_exceeds_amount, after_call, arith, str_eq,
  if◌then◌else◌,
}
use payment_service.Base.Int.{ℤ, pos}
use payment_service.Base.Dict.{lookup}
use payment_service.Json.{Body}
use payment_service.Payment.{Payment, Time, authorized}
use payment_service.Payment
use payment_service.Idempotency.{CachedResponse, validate_key}
use payment_service.Idempotency
use payment_service.Idempotency.Redis.{World, redis, data_key, lock_key, Compact, written_body}
use payment_service.Idempotency.Replay.{KeepsKeys, locked, HasSuccess}
use payment_service.Idempotency.Replay
use payment_service.Usecase.Events.{TimeFormat, PaymentResponse}
use payment_service.Usecase.Create.{CreatePayment, CreatePaymentRequest, Fresh}
use payment_service.Usecase.Create
use payment_service.Usecase.Refund.{RefundPayment, asked_amount}
use payment_service.Usecase.Order.{refund_refused}
use payment_service.Http.{
  Reply, error_body, refund, handle_error, cached, replied, create, create_response,
}

refund_errors :
    (amount : ℤ) (p : Payment) (e : Error)
    → Payment.refund amount p ≡ err e
    → (e ≡ invalid_transition) ⊎ ((e ≡ invalid_refund_amount) ⊎ (e ≡ refund_exceeds_amount))
unfolding Payment.refund
refund_errors amount p e h = ground arith

-- A request to refund a payment, once the payment is found, for an amount that the payment does
-- not allow: the reply has the reason as its text and the status 400 or 409, and nothing is done
-- after the read of the payment; neither the provider nor a table is touched.
pub refund_refused-status :
    {W : Type 0} (format : TimeFormat) (uc : RefundPayment W) (id : String) (amount : ℤ)
    (event_id : String) (event_at : Time) (w w' : W) (p : Payment) (e : Error)
    → uc.repo.find_by_id id w ≡ (ok p, w')
    → Payment.refund (asked_amount amount p) p ≡ err e
    → (status : ℤ) × (refund format uc id (some (ok amount)) event_id event_at w
        ≡ (record { status = status; body = error_body (message e) }, w'))
      × ((status ≡ pos 400) ⊎ (status ≡ pos 409))
unfolding refund handle_error
refund_refused-status format uc id amount event_id event_at w w' p e found h =
    rw (refund, refund_refused format uc id amount event_id event_at w w' p e found h)
      (elim (refund_errors (asked_amount amount p) p e h) [
        | inl a ↦ (pos 409, rw (a) refl, inr refl)
        | inr (inl b) ↦ (pos 400, rw (b) refl, inl refl)
        | inr (inr c) ↦ (pos 400, rw (c) refl, inl refl)
      ])

created :
    {W : Type 0} (marshal : PaymentResponse → Result Body) (answer : CachedResponse) (w' : W)
    (x : Result PaymentResponse × W)
    → after_call x (λ result w.
      after_call
        (marshal result, w)
        (λ body w. (ok (record { status_code = pos 201; body = body; request_hash = "" }), w)))
      ≡ (ok answer, w')
    → answer.status_code ≡ pos 201
created marshal answer w' (ok r, w) h = ground arith
created marshal answer w' (err e, w) h = cc h

made_status :
    {W : Type 0} (format : TimeFormat) (uc : CreatePayment W)
    (repository : Idempotency.Repository W) (marshal : PaymentResponse → Result Body)
    (hash_request : CreatePaymentRequest → Result String) (req : CreatePaymentRequest) (new : Fresh)
    (w w' : W) (answer : CachedResponse)
    → create_response format uc repository marshal hash_request req new w ≡ (ok answer, w')
    → answer.status_code ≡ pos 201
unfolding create_response
made_status format uc repository marshal hash_request req new w w' answer made =
    created marshal answer w' (Create.execute format uc req new w) made

succeeded : (answer : CachedResponse) → answer.status_code ≡ pos 201 → HasSuccess answer
succeeded answer h = (rw (h) (omega arith), rw (h) (omega arith))

reflexive : {A : Type 0} (s : String) (x y : A) → (if str_eq s s then x else y) ≡ x
reflexive s x y = ground arith

replied-world :
    {W A : Type 0} (success : A → Reply) (x : Result A × W) → (replied success x).1 ≡ x.1
replied-world success (ok a, w) = refl
replied-world success (err e, w) = refl

-- A request to create a payment whose hash is not empty, under a valid and free key, whose use
-- case keeps off the keys of Redis and succeeds, with a body that json.Marshal writes as it is:
-- sent again under the same key it gets the same reply, and nothing at all is changed.
pub create_again :
    {X : Type 0} (compact : Compact) (format : TimeFormat) (uc : CreatePayment (World X))
    (marshal : PaymentResponse → Result Body) (hash_request : CreatePaymentRequest → Result String)
    (req : CreatePaymentRequest) (key hash : String) (new new' : Fresh) (w w' : World X)
    (answer : CachedResponse)
    → validate_key key ≡ ok tt
    → hash_request req ≡ ok hash
    → hash ≢ ""
    → KeepsKeys (create_response format uc (redis compact) marshal hash_request req new)
    → lookup (data_key key) w.keys ≡ none
    → lookup (lock_key key) w.keys ≡ none
    → create_response format uc (redis compact) marshal hash_request req new (locked key w)
      ≡ (ok answer, w')
    → written_body compact answer.body ≡ some answer.body
    → let out = create format uc (redis compact) marshal hash_request (ok req) key new w in
      create format uc (redis compact) marshal hash_request (ok req) key new' out.1 ≡ out
unfolding create
create_again {X} compact format uc marshal hash_request req key hash new new' w w' answer valid
      hashed h keeps missing free made written =
    let app = create_response format uc (redis compact) marshal hash_request in
    let out = Idempotency.execute (redis compact) key hash (app req new) w in
    let again = λ (v : World X). Idempotency.execute (redis compact) key hash (app req new') v in
    let (kept, same) =
      Replay.execute_again compact key hash hash (app req new) (app req new') w w' answer valid
        keeps missing free made
        (succeeded answer (
          made_status format uc (redis compact) marshal hash_request req new (locked key w) w'
            answer made))
        written h in
    rw (create, hashed)
      (ap (λ v. replied cached (again v)) (replied-world cached out)
        ∙ ap (replied cached) (λ i. ((same ∙ reflexive hash (out.0) _) i, kept i)))
