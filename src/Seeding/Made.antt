-- ===== src/Seeding/Made.antt =====
-- What the factory of internal/database/factory/payment_factory.go makes.
use payment_service.Base.{
  ℕ, zero, suc, ◌+◌, ◌≤◌, ◌<◌, ◌≡◌, ◌≢◌, refl, ap, inl, inr, Bool-cases, false, String, All, length,
  arith, ◌==◌,
}
use payment_service.Base.Int.{ℤ, pos}
use payment_service.Base.Text.{is_empty}
use payment_service.Payment.{capture_method_is_valid}
use payment_service.Payment.Balance.{IsValid, Balanced}
use payment_service.Seeding.{new_payment_factory, Source, make, make_many, currency_at, status_at}

abbrev pub Bounded : {W : Type 0} → Source W → Type 0
Bounded {W} from = (n : ℕ) (w : W) → 1 ≤ n → (from.intn n w).0 < n

named : (s : String) → s ≡ "" → is_empty s ≡ false → ⊥
named s e h = cc (rw e at h)

currency_named : (n : ℕ) → currency_at n ≢ ""
currency_named n = elim (Bool-cases (n == 0)) [
  | inl brl ↦ rw brl (λ e. named "BRL" e refl)
  | inr b ↦ elim (Bool-cases (n == 1)) [
    | inl usd ↦ rw (b, usd) (λ e. named "USD" e refl)
    | inr c ↦ rw (b, c) (λ e. named "EUR" e refl)
  ]
]

status-Balanced : (n : ℕ) (amount : ℤ) → Balanced (status_at n) (pos 0) amount
status-Balanced n amount = elim (Bool-cases (n == 0)) [
  | inl a ↦ rw a refl
  | inr b ↦ elim (Bool-cases (n == 1)) [ inl c ↦ rw (b, c) refl | inr d ↦ rw (b, d) refl ]
]

module _ {W : Type 0} (from : Source W) (bounded : Bounded from) where
  make-IsValid : (w : W) → IsValid (make from new_payment_factory w).0
  unfolding make capture_method_is_valid
  make-IsValid w =
      let amount = from.intn 990000 w in
      let currency = from.intn 3 amount.1 in
      let status = from.intn 3 currency.1 in
      record {
        priced = omega arith;
        amount_fits = (omega arith, omega (arith, bounded 990000 w (omega arith)));
        has_currency = currency_named currency.0;
        least = omega arith;
        most = omega (arith, bounded 12 _ (omega arith));
        known_method = refl;
        balanced = status-Balanced status.0 (pos (amount.0 + 1000));
      }

  -- The factory on which nothing is fixed, with random numbers that are below their bounds, makes as
  -- many payments as it is asked for, and each of them is well-formed.
  pub make_many-IsValid :
      (count : ℕ) (w : W)
      → (length (make_many from new_payment_factory count w).0 ≡ count)
        × All IsValid (make_many from new_payment_factory count w).0
  unfolding make_many
  make_many-IsValid zero w = (refl, tt)
  make_many-IsValid (suc count) w =
      let rest = make_many-IsValid count (make from new_payment_factory w).1 in
      (ap suc rest.0, (make-IsValid w, rest.1))
