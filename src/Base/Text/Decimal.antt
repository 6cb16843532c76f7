-- ===== src/Base/Text/Decimal.antt =====
-- strconv.Atoi reads what the verb %d of fmt.Sprintf writes.
use Prim.Native.Char.{Char, code}
use text.Mathlib.TextLemmas.{nil-append, cons-append}
use payment_service.Base.{
  ℕ, zero, suc, ◌+◌, ◌-◌, ◌*◌, ◌/◌, ◌%◌, ◌^◌, ◌<◌, ◌≡◌, ◌≢◌, refl, ap, ◌∙◌, ◌⊎◌, inl, inr,
  Bool-cases, false, String, ◌<>◌, some, str_eq, arith, ltb,
}
use payment_service.Base.Int.{ℤ, pos, negsuc, InInt64}
use payment_service.Base.Text.{
  atoi, decimal, digits, digit, digits_value, unsigned, positive, negative,
}

pub digits_value-append :
    (n : ℕ) (s t : String) (k : ℕ)
    → digits_value n s ≡ some k
    → digits_value n (s <> t) ≡ digits_value k t
unfolding digits_value
digits_value-append n String.[] t k h = rw (nil-append t) (ground arith)
digits_value-append n (String.◌∷◌ c s) t k h =
    rw (cons-append c s t) (ground (arith, digits_value-append (n * 10 + (code c - b'0')) s t k))

digits_value-digit : (n d : ℕ) → d < 10 → digits_value n (digit d) ≡ some (n * 10 + d)
unfolding digits_value
digits_value-digit n zero h = ap some (omega arith)
digits_value-digit n (suc zero) h = ap some (omega arith)
digits_value-digit n (suc (suc zero)) h = ap some (omega arith)
digits_value-digit n (suc (suc (suc zero))) h = ap some (omega arith)
digits_value-digit n (suc (suc (suc (suc zero)))) h = ap some (omega arith)
digits_value-digit n (suc (suc (suc (suc (suc zero))))) h = ap some (omega arith)
digits_value-digit n (suc (suc (suc (suc (suc (suc zero)))))) h = ap some (omega arith)
digits_value-digit n (suc (suc (suc (suc (suc (suc (suc zero))))))) h = ap some (omega arith)
digits_value-digit n (suc (suc (suc (suc (suc (suc (suc (suc zero)))))))) h = ap some (omega arith)
digits_value-digit n (suc (suc (suc (suc (suc (suc (suc (suc (suc zero))))))))) h =
    ap some (omega arith)
digits_value-digit n (suc (suc (suc (suc (suc (suc (suc (suc (suc (suc d)))))))))) h =
    absurd (omega arith)

pub digits_value-digits : (f n : ℕ) → n < f → digits_value 0 (digits f n) ≡ some n
unfolding digits
digits_value-digits zero n h = absurd (omega arith)
digits_value-digits (suc f) n h = elim (Bool-cases (ltb n 10)) [
  | inl small ↦ rw small (digits_value-digit 0 n (ground arith) ∙ ap some (omega arith))
  | inr large ↦
      let front = digits_value-digits f (n / 10) (ground arith) in
      rw large (
        digits_value-append 0 (digits f (n / 10)) (digit (n % 10)) (n / 10) front
        ∙ digits_value-digit (n / 10) (n % 10) (omega arith)
        ∙ ap some (omega arith))
]

cons_of_false : (s : String) → (s ≡ "") ⊎ ((c : Char) × (t : String) × (s ≡ String.◌∷◌ c t))
cons_of_false String.[] = inl refl
cons_of_false (String.◌∷◌ c s) = inr (c, s, refl)

nil_value : (s : String) (n : ℕ) → s ≡ "" → digits_value 0 s ≡ some n → n ≡ 0
unfolding digits_value
nil_value String.[] n e h = ground arith
nil_value (String.◌∷◌ c s) n e h = cc e

-- A number is written with a digit at least, and a digit comes first.
pub digits-ne-nil : (f n : ℕ) → n < f → digits f n ≢ ""
unfolding digits digits_value
digits-ne-nil zero n h e = absurd (omega arith)
digits-ne-nil (suc f) n h e =
    let none_left = nil_value (digits (suc f) n) n e (digits_value-digits (suc f) n h) in
    cc (rw none_left at e)

pub atoi_digits :
    (s : String) (n : ℕ) → s ≢ "" → digits_value 0 s ≡ some n → atoi s ≡ positive (some n)
unfolding atoi digits_value
atoi_digits String.[] n some_digit h = absurd (some_digit refl)
atoi_digits (String.◌∷◌ c s) n some_digit h = ground arith

pub atoi-digits : (f n : ℕ) → n < f → n < 2 ^ 63 → atoi (digits f n) ≡ some (pos n)
atoi-digits f n h small =
    atoi_digits (digits f n) n (digits-ne-nil f n h) (digits_value-digits f n h)
    ∙ ground (arith, small)

pub one_char : (c : Char) (s : String) → String.◌∷◌ c "" <> s ≡ String.◌∷◌ c s
one_char c s = cons-append c "" s ∙ ap (String.◌∷◌ c) (nil-append s)

unsigned-eq : (s : String) → s ≢ "" → unsigned s ≡ digits_value 0 s
unfolding digits_value
unsigned-eq String.[] h = absurd (h refl)
unsigned-eq (String.◌∷◌ c s) h = refl

atoi_minus :
    (s : String) (n : ℕ) → s ≢ "" → digits_value 0 s ≡ some n → atoi ("-" <> s) ≡ negative (some n)
unfolding atoi
atoi_minus s n h e = rw (one_char _ s) (ap negative (unsigned-eq s h ∙ e))

-- Atoi of what %d writes for an int64 is that number.
pub atoi-decimal : (n : ℤ) → InInt64 n → atoi (decimal n) ≡ some n
unfolding decimal
atoi-decimal (pos n) fits = atoi-digits (suc n) n (omega arith) (ground arith)
atoi-decimal (negsuc n) fits =
    atoi_minus (digits (suc (suc n)) (suc n)) (suc n)
      (digits-ne-nil (suc (suc n)) (suc n) (omega arith))
      (digits_value-digits (suc (suc n)) (suc n) (omega arith))
    ∙ ground arith

-- The text of a number is not empty.
pub decimal-ne-nil : (n : ℕ) → str_eq (decimal (pos n)) "" ≡ false
unfolding decimal
decimal-ne-nil n = ground (arith, digits-ne-nil (suc n) n)
