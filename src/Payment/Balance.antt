-- ===== src/Payment/Balance.antt =====
-- What a well-formed payment is, and the arithmetic of its refunds (payment.go).
use payment_service.Base.{
  ◌≡◌, ◌≢◌, ◌⊎◌, true, String, ok, err, arith, invalid_transition, invalid_refund_amount,
  refund_exceeds_amount, if◌then◌else◌,
}
use payment_service.Base.Int.{
  ℤ, pos, ◌≤ℤ◌, ◌<ℤ◌, ◌+ℤ◌, ◌-ℤ◌, InInt64, add64, sub64, wrap64_id, InInt64-between, int_laws,
  +ℤ_parts, -ℤ_parts, eq_of_parts, eqb_ℤ,
}
use payment_service.Payment.{
  Status, pending, authorized, completed, failed, refunded, partially_refunded, unknown, Payment,
  capture_method_is_valid, max_installments, refund, new_with_options, CaptureMethod, Time,
}

-- How much is refunded in each status.
abbrev pub Balanced : Status → ℤ → ℤ → Type 0
Balanced refunded given amount = given ≡ amount
Balanced partially_refunded given amount = (pos 1 ≤ℤ given) × (given <ℤ amount)
Balanced (unknown s) given amount = ⊥
Balanced _ given amount = given ≡ pos 0

pub record IsValid (p : Payment) : Type 0 where
  pub priced : pos 1 ≤ℤ p.money.amount
  pub amount_fits : InInt64 p.money.amount
  pub has_currency : p.money.currency ≢ ""
  pub least : pos 1 ≤ℤ p.installments
  pub most : p.installments ≤ℤ max_installments
  pub known_method : capture_method_is_valid p.capture_method ≡ true
  pub balanced : Balanced p.status p.refunded_amount p.money.amount

-- Within the int64 range the wrapped operations are the mathematical ones.
pub add64-eq : (a b : ℤ) → InInt64 (a +ℤ b) → add64 a b ≡ a +ℤ b
unfolding add64
add64-eq a b h = wrap64_id (a +ℤ b) h

pub sub64-eq : (a b : ℤ) → InInt64 (a -ℤ b) → sub64 a b ≡ a -ℤ b
unfolding sub64
sub64-eq a b h = wrap64_id (a -ℤ b) h

-- The part of the price that is refunded lies between nothing and all.
pub refunded_bounds :
    (s : Status) (given amount : ℤ)
    → pos 1 ≤ℤ amount
    → Balanced s given amount
    → (pos 0 ≤ℤ given) × (given ≤ℤ amount)
refunded_bounds (unknown s) given amount h b = absurd b
refunded_bounds pending given amount h b = ground arith
refunded_bounds authorized given amount h b = ground arith
refunded_bounds completed given amount h b = ground arith
refunded_bounds failed given amount h b = ground arith
refunded_bounds refunded given amount h b = ground arith
refunded_bounds partially_refunded given amount h b = ground arith

-- Neither the difference that a refund tests nor the sum that it stores wraps.
module _ (p : Payment) (v : IsValid p) where
  open p use {money, refunded_amount}

  pub p_bounds : (pos 0 ≤ℤ refunded_amount) × (refunded_amount ≤ℤ money.amount)
  p_bounds = refunded_bounds p.status refunded_amount money.amount v.priced v.balanced

  pub rest_eq : sub64 money.amount refunded_amount ≡ money.amount -ℤ refunded_amount
  rest_eq = sub64-eq money.amount refunded_amount (
      InInt64-between (money.amount -ℤ refunded_amount) money.amount (omega (int_laws, p_bounds))
        (omega (int_laws, p_bounds)) v.amount_fits)

  pub given_eq :
      (a : ℤ)
      → pos 1 ≤ℤ a
      → a ≤ℤ money.amount -ℤ refunded_amount
      → add64 refunded_amount a ≡ refunded_amount +ℤ a
  given_eq a h k = add64-eq refunded_amount a (
      InInt64-between (refunded_amount +ℤ a) money.amount (omega (int_laws, p_bounds))
        (omega (int_laws, p_bounds)) v.amount_fits)

-- A payment that NewWithOptions makes of an int64 amount is well-formed.
pub new_with_options-IsValid :
    (amount : ℤ) (currency : String) (installments : ℤ) (method : CaptureMethod) (id : String)
    (now : Time) {p : Payment}
    → InInt64 amount
    → new_with_options amount currency installments method id now ≡ ok p
    → IsValid p
unfolding new_with_options
new_with_options-IsValid amount currency installments method id now h e = ground arith

-- An accepted refund, as an equation about the mathematical integers.
pub refund-ok :
    (a : ℤ) (p : Payment) {q : Payment}
    → IsValid p
    → refund a p ≡ ok q
    → (pos 1 ≤ℤ a)
      × (p.refunded_amount +ℤ a ≤ℤ p.money.amount)
      × (q.refunded_amount ≡ p.refunded_amount +ℤ a)
unfolding refund
refund-ok a p v e = ground (
  arith,
  rest_eq p v,
  given_eq p v a,
  -ℤ_parts p.money.amount p.refunded_amount,
  +ℤ_parts p.refunded_amount a,
)

pub refund-IsValid : (a : ℤ) (p : Payment) {q : Payment} → IsValid p → refund a p ≡ ok q → IsValid q
unfolding refund
refund-IsValid a p v e = ground (
  arith,
  p_bounds p v,
  rest_eq p v,
  given_eq p v a,
  -ℤ_parts p.money.amount p.refunded_amount,
  +ℤ_parts p.refunded_amount a,
)

abbrev pub IsCaptured : Status → Type 0
IsCaptured s = (s ≡ completed) ⊎ (s ≡ partially_refunded)

-- The payment after a refund of `a`, over the mathematical integers.
abbrev pub refunded_by : ℤ → Payment → Payment
refunded_by a p = record p {
  refunded_amount = p.refunded_amount +ℤ a;
  status = if eqb_ℤ (p.refunded_amount +ℤ a) p.money.amount then refunded else partially_refunded;
}

-- The four outcomes of a request for a refund of `a`.
abbrev pub RefundCases : ℤ → Payment → Type 0
RefundCases a p =
    (¬ IsCaptured p.status × (refund a p ≡ err invalid_transition))
    ⊎ (IsCaptured p.status × (a ≤ℤ pos 0) × (refund a p ≡ err invalid_refund_amount))
    ⊎ (IsCaptured p.status
        × (pos 1 ≤ℤ a)
        × (p.money.amount -ℤ p.refunded_amount <ℤ a)
        × (refund a p ≡ err refund_exceeds_amount))
    ⊎ (IsCaptured p.status
        × (pos 1 ≤ℤ a)
        × (a ≤ℤ p.money.amount -ℤ p.refunded_amount)
        × (refund a p ≡ ok (refunded_by a p)))

-- A refund of a well-formed payment is refused with ErrInvalidTransition unless the payment is
-- captured; with ErrInvalidRefundAmount if it is not positive; with ErrRefundExceedsAmount if it
-- is more than the price less what is refunded; otherwise it is accepted and adds to the refunded
-- amount, without overflow, the status being refunded exactly if nothing is left.
pub refund_cases : (a : ℤ) (p : Payment) → IsValid p → RefundCases a p
unfolding refund
refund_cases a p v = ground (
  arith,
  rest_eq p v,
  given_eq p v a,
  -ℤ_parts p.money.amount p.refunded_amount,
  +ℤ_parts p.refunded_amount a,
)

-- Two refunds of a well-formed payment that are accepted one after the other leave the payment
-- that one refund of their sum leaves.
pub refund-refund :
    (a b : ℤ) (p : Payment) {q r : Payment}
    → IsValid p
    → refund a p ≡ ok q
    → refund b q ≡ ok r
    → refund (a +ℤ b) p ≡ ok r
unfolding refund
refund-refund a b p {q} v e k = ground (
  arith,
  p_bounds p v,
  rest_eq p v,
  given_eq p v a,
  given_eq p v (a +ℤ b),
  rest_eq q (refund-IsValid a p v e),
  given_eq q (refund-IsValid a p v e) b,
  -ℤ_parts p.money.amount p.refunded_amount,
  -ℤ_parts q.money.amount q.refunded_amount,
  +ℤ_parts p.refunded_amount a,
  +ℤ_parts a b,
  +ℤ_parts p.refunded_amount (a +ℤ b),
  +ℤ_parts q.refunded_amount b,
  eq_of_parts (q.refunded_amount +ℤ b) (p.refunded_amount +ℤ (a +ℤ b)),
)
