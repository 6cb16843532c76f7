-- ===== src/Payment.antt =====
-- The payment aggregate: internal/domain/payment (status.go, capture_method.go, money.go,
-- payment.go). A method that mutates its receiver returns the new payment; the id and the time that
-- the constructor takes from its surroundings are arguments. Amounts are int64 values, and sums and
-- differences of them wrap.
pub mod Balance
pub mod Lifecycle
use payment_service.Base.{
  ◌≡◌, Bool, true, false, not, ◌&&◌, ◌||◌, String, Result, ok, err, str_eq, if◌then◌else◌,
}
use payment_service.Base.{
  invalid_amount, currency_required, invalid_installments, invalid_capture_method,
  invalid_transition, invalid_refund_amount, refund_exceeds_amount,
}
use payment_service.Base.Int.{ℤ, pos, ltb_ℤ, leb_ℤ, eqb_ℤ, add64, sub64}

-- Nanoseconds since Go's zero time, which is `pos 0`.
abbrev pub Time : Type 0
Time = ℤ

-- `unknown` is a text that is none of the constants.
pub data Status : Type 0 where
  pending authorized completed failed refunded partially_refunded : Status
  unknown : String → Status

-- string(status)
unfoldable pub status_text : Status → String
status_text pending = "pending"
status_text authorized = "authorized"
status_text completed = "completed"
status_text failed = "failed"
status_text refunded = "refunded"
status_text partially_refunded = "partially_refunded"
status_text (unknown s) = s

-- payment.Status(text)
unfoldable pub status_of : String → Status
status_of s =
    if str_eq s "pending"
    then pending
    else if str_eq s "authorized"
    then authorized
    else if str_eq s "completed"
    then completed
    else if str_eq s "failed"
    then failed
    else if str_eq s "refunded"
    then refunded
    else if str_eq s "partially_refunded"
    then partially_refunded
    else unknown s

-- Status.IsValid
unfoldable pub status_is_valid : Status → Bool
status_is_valid (unknown s) = false
status_is_valid _ = true

pub data CaptureMethod : Type 0 where
  automatic manual : CaptureMethod
  other_method : String → CaptureMethod

unfoldable pub capture_method_text : CaptureMethod → String
capture_method_text automatic = "automatic"
capture_method_text manual = "manual"
capture_method_text (other_method s) = s

unfoldable pub capture_method_of : String → CaptureMethod
capture_method_of s =
    if str_eq s "automatic" then automatic else if str_eq s "manual" then manual else other_method s

-- CaptureMethod.IsValid
unfoldable pub capture_method_is_valid : CaptureMethod → Bool
capture_method_is_valid (other_method s) = false
capture_method_is_valid _ = true

pub record Money : Type 0 where
  pub amount : ℤ
  pub currency : String

-- NewMoney
unfoldable pub new_money : ℤ → String → Result Money
new_money amount currency =
    if leb_ℤ amount (pos 0)
    then err invalid_amount
    else if str_eq currency ""
    then err currency_required
    else ok (record { amount = amount; currency = currency })

pub record Payment : Type 0 where
  pub id : String
  pub money : Money
  pub status : Status
  pub capture_method : CaptureMethod
  pub installments : ℤ
  pub refunded_amount : ℤ
  pub created_at : Time

abbrev pub max_installments : ℤ
max_installments = pos 12

-- NewWithOptions, after NewMoney.
unfoldable pub new_payment : Money → ℤ → CaptureMethod → String → Time → Result Payment
unfolding capture_method_is_valid
new_payment money installments method id now =
    if ltb_ℤ installments (pos 1) || ltb_ℤ max_installments installments
    then err invalid_installments
    else if not (capture_method_is_valid method)
    then err invalid_capture_method
    else ok (record {
      id = id;
      money = money;
      status = pending;
      capture_method = method;
      installments = installments;
      refunded_amount = pos 0;
      created_at = now;
    })

abbrev with_money {ℓ} : {A : Type ℓ} → Result Money → (Money → Result A) → Result A
with_money (ok m) f = f m
with_money (err e) f = err e

-- NewWithOptions
unfoldable pub new_with_options : ℤ → String → ℤ → CaptureMethod → String → Time → Result Payment
unfolding new_money new_payment
new_with_options amount currency installments method id now =
    with_money (new_money amount currency) λ money. new_payment money installments method id now

-- New
unfoldable pub new : ℤ → String → String → Time → Result Payment
unfolding new_with_options
new amount currency id now = new_with_options amount currency (pos 1) automatic id now

abbrev is_pending : Status → Bool
is_pending pending = true
is_pending _ = false

abbrev is_authorized : Status → Bool
is_authorized authorized = true
is_authorized _ = false

abbrev is_refundable : Status → Bool
is_refundable completed = true
is_refundable partially_refunded = true
is_refundable _ = false

-- MarkAuthorized
unfoldable pub mark_authorized : Payment → Result Payment
mark_authorized p =
    if not (is_pending p.status)
    then err invalid_transition
    else ok (record p { status = authorized })

-- Complete
unfoldable pub complete : Payment → Result Payment
complete p =
    if not (is_pending p.status)
    then err invalid_transition
    else ok (record p { status = completed })

-- Capture
unfoldable pub capture : Payment → Result Payment
capture p =
    if not (is_authorized p.status)
    then err invalid_transition
    else ok (record p { status = completed })

-- Fail
unfoldable pub fail : Payment → Result Payment
fail p =
    if not (is_pending p.status) then err invalid_transition else ok (record p { status = failed })

-- RefundableAmount
unfoldable pub refundable_amount : Payment → ℤ
refundable_amount p = sub64 p.money.amount p.refunded_amount

-- Refund
unfoldable pub refund : ℤ → Payment → Result Payment
unfolding refundable_amount
refund amount p =
    if not (is_refundable p.status)
    then err invalid_transition
    else if leb_ℤ amount (pos 0)
    then err invalid_refund_amount
    else if ltb_ℤ (refundable_amount p) amount
    then err refund_exceeds_amount
    else let total = add64 p.refunded_amount amount in
      ok (record p {
        refunded_amount = total;
        status = if eqb_ℤ total p.money.amount then refunded else partially_refunded;
      })
