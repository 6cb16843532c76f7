-- ===== src/Tests/Fixtures.antt =====
-- The values that the tests share.
use text.Mathlib.TextEquality.{eq_iff}
use payment_service.Base.{◌≡◌, refl, ◌≢◌, String, ok, err, other, some, zero, suc, ℕ, arith}
use payment_service.Base.Int.{pos, negsuc, ◌+ℤ◌, ◌-ℤ◌, add64, sub64, wrap64}
use payment_service.Json.{TimeParser}
use payment_service.Payment.{
  Status, completed, refunded, partially_refunded, Payment, manual, capture_method_is_valid, refund,
  refundable_amount,
}
use payment_service.Payment.Balance.{IsValid}
use payment_service.Usecase.Events.{TimeFormat}
use payment_service.Messaging.Handle.{ReadsBack}

-- A payment of 100.00 with that status, and that much given back.
abbrev pub payment : Status → ℕ → Payment
payment s given = record {
  id = "pay-1";
  money = record { amount = pos 10000; currency = "BRL" };
  status = s;
  capture_method = manual;
  installments = pos 3;
  refunded_amount = pos given;
  created_at = pos 0;
}

pub brl_named : ◌≢◌ {A = String} "BRL" ""
brl_named = ground (arith, eq_iff "BRL" "")

pub completed-IsValid : IsValid (payment completed 0)
unfolding capture_method_is_valid
completed-IsValid = record {
  priced = omega arith;
  amount_fits = (omega arith, omega arith);
  has_currency = brl_named;
  least = omega arith;
  most = omega arith;
  known_method = refl;
  balanced = refl;
}

-- RFC 3339, for the one time that the tests use.
abbrev pub format : TimeFormat
format (pos zero) = ok "0001-01-01T00:00:00Z"
format _ = err (other "year outside of range")

abbrev pub parse : TimeParser
parse s = some (pos 0)

pub format-ReadsBack : ReadsBack format parse
format-ReadsBack (pos zero) s h = refl
format-ReadsBack (pos (suc n)) s h = cc h
format-ReadsBack (negsuc n) s h = cc h

pub refund_part : refund (pos 3000) (payment completed 0) ≡ ok (payment partially_refunded 3000)
unfolding refund refundable_amount sub64 wrap64 ◌-ℤ◌ add64 ◌+ℤ◌
refund_part = refl

pub refund_rest : refund (pos 7000) (payment partially_refunded 3000) ≡ ok (payment refunded 10000)
unfolding refund refundable_amount sub64 wrap64 ◌-ℤ◌ add64 ◌+ℤ◌
refund_rest = refl
