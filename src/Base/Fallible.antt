-- ===== src/Base/Fallible.antt =====
-- Errors as values, and stateful code that may fail.
use Prim.Native.String.{String, ◌++◌ as ◌<>◌}
use mathlib.Core.Path.{◌≡◌, refl}
use mathlib.Core.Logic.{◌⊎◌, inl, inr}

-- The sentinel errors of the packages, an error of an outer system with its text, and
-- `fmt.Errorf("…: %w", err)`.
pub data Error : Type 0 where
  not_found invalid_amount currency_required invalid_status invalid_installments : Error
  invalid_capture_method invalid_transition invalid_refund_amount refund_exceeds_amount : Error
  invalid_url invalid_event_type : Error
  already_processing invalid_key key_already_exists : Error
  no_rows : Error
  other : String → Error
  wrapped : String → Error → Error

-- `err.Error()`
unfoldable pub message : Error → String
message not_found = "payment not found"
message invalid_amount = "amount must be greater than zero"
message currency_required = "currency is required"
message invalid_status = "invalid payment status"
message invalid_installments = "installments must be between 1 and 12"
message invalid_capture_method = "capture method must be automatic or manual"
message invalid_transition = "invalid payment state transition"
message invalid_refund_amount = "refund amount must be greater than zero"
message refund_exceeds_amount = "refund amount exceeds refundable balance"
message invalid_url = "webhook url is required and must be http or https"
message invalid_event_type = "webhook event_type is required"
message already_processing = "request already processing"
message invalid_key = "invalid idempotency key"
message key_already_exists = "idempotency key already exists"
message no_rows = "no rows in result set"
message (other text) = text
message (wrapped text e) = text <> ": " <> message e

-- The innermost error, which `errors.Is` compares with a sentinel.
unfoldable pub cause : Error → Error
cause (wrapped _ e) = cause e
cause e = e

pub data Result {ℓ} (A : Type ℓ) : Type ℓ where
  ok : A → Result A
  err : Error → Result A

-- Code that reads and writes a world `W`.
abbrev pub M : Type 0 → Type 0 → Type 0
M W A = W → Result A × W

abbrev pub after_call : {W A B : Type 0} → Result A × W → (A → M W B) → Result B × W
after_call (ok a, w) f = f a w
after_call (err e, w) f = (err e, w)

infixl 5 ◌>>=◌ ◌>>◌
abbrev pub ◌>>=◌ : {W A B : Type 0} → M W A → (A → M W B) → M W B
◌>>=◌ m f w = after_call (m w) f

abbrev pub ◌>>◌ : {W B : Type 0} → M W (Unit {0}) → M W B → M W B
m >> k = m >>= λ _. k

abbrev pub pure : {W A : Type 0} → A → M W A
pure a w = (ok a, w)

-- A read of the world that cannot fail, such as the clock.
abbrev pub value : {W A : Type 0} → (W → A × W) → M W A
value f w = (ok (f w).0, (f w).1)

-- A check that touches no state.
abbrev pub lift : {W A : Type 0} → Result A → M W A
lift r w = (r, w)

abbrev pub add_text : {W A : Type 0} → String → Result A × W → Result A × W
add_text text (ok a, w) = (ok a, w)
add_text text (err e, w) = (err (wrapped text e), w)

-- `fmt.Errorf(text + ": %w", err)` around a failed call.
abbrev pub wrap_error : {W A : Type 0} → String → M W A → M W A
wrap_error text m w = add_text text (m w)

-- To split on a computed result and keep the equation.
pub Result-cases {ℓ} :
    {A : Type ℓ} (r : Result A) → ((e : Error) × (r ≡ err e)) ⊎ ((a : A) × (r ≡ ok a))
Result-cases (ok a) = inr (a, refl)
Result-cases (err e) = inl (e, refl)
