-- ===== src/Seeding.antt =====
-- internal/database/factory/payment_factory.go and internal/database/seeder: made-up payments, and the
-- seeders that store them. The random numbers, the clock and the uuids are parameters.
pub mod Made
use payment_service.Base.{
  ℕ, zero, suc, ◌+◌, ◌*◌, ◌%◌, Bool, String, ◌<>◌, Option, none, some, List, [], ◌∷◌, M, Result, ok,
  err, Error, other, wrapped, ◌>>=◌, ◌>>◌, pure, lift, wrap_error, after_call, if◌then◌else◌, ◌==◌,
}
use payment_service.Base.Int.{ℤ, pos, ◌-ℤ◌}
use payment_service.Payment.{Payment, Money, Status, pending, completed, failed, automatic, Time}

-- PaymentFactory: what was fixed by WithAmount, WithCurrency, WithStatus and WithCreatedAt.
pub record PaymentFactory : Type 0 where
  pub amount : Option ℤ
  pub currency : Option String
  pub status : Option Status
  pub created : Option Time

-- NewPaymentFactory
abbrev pub new_payment_factory : PaymentFactory
new_payment_factory = record { amount = none; currency = none; status = none; created = none }

-- WithAmount
unfoldable pub with_amount : ℤ → PaymentFactory → PaymentFactory
with_amount amount f = record f { amount = some amount }

-- WithCurrency
unfoldable pub with_currency : String → PaymentFactory → PaymentFactory
with_currency currency f = record f { currency = some currency }

-- WithStatus
unfoldable pub with_status : Status → PaymentFactory → PaymentFactory
with_status status f = record f { status = some status }

-- WithCreatedAt
unfoldable pub with_created_at : Time → PaymentFactory → PaymentFactory
with_created_at created f = record f { created = some created }

-- What the factory draws from: rng.Intn, time.Now and uuid.New.
pub record Source (W : Type 0) : Type 0 where
  pub intn : ℕ → W → ℕ × W
  pub now : W → Time × W
  pub uuid : W → String × W

-- currencies[n]
abbrev pub currency_at : ℕ → String
currency_at n = if n == 0 then "BRL" else if n == 1 then "USD" else "EUR"

-- statuses[n]
abbrev pub status_at : ℕ → Status
status_at n = if n == 0 then pending else if n == 1 then completed else failed

abbrev map_first : {A B W : Type 0} → (A → B) → A × W → B × W
map_first f (a, w) = (f a, w)

-- AddDate(0, 0, -days), in UTC.
abbrev pub days_before : ℕ → Time → Time
days_before days t = t -ℤ pos (days * (24 * 3600 * 1000000000))

module _ {W : Type 0} (from : Source W) where
  -- resolveAmount
  abbrev pub resolve_amount : Option ℤ → W → ℤ × W
  resolve_amount (some amount) w = (amount, w)
  resolve_amount none w = map_first (λ n. pos (n + 1000)) (from.intn 990000 w)

  -- resolveCurrency
  abbrev pub resolve_currency : Option String → W → String × W
  resolve_currency (some currency) w = (currency, w)
  resolve_currency none w = map_first currency_at (from.intn 3 w)

  -- resolveStatus
  abbrev pub resolve_status : Option Status → W → Status × W
  resolve_status (some status) w = (status, w)
  resolve_status none w = map_first status_at (from.intn 3 w)

  -- resolveCreatedAt
  abbrev pub resolve_created_at : Option Time → W → Time × W
  resolve_created_at (some created) w = (created, w)
  resolve_created_at none w =
      let (days, w1) = from.intn 90 w in map_first (days_before days) (from.now w1)

  -- Make
  unfoldable pub make : PaymentFactory → W → Payment × W
  make f w =
      let (amount, w1) = resolve_amount f.amount w in
      let (currency, w2) = resolve_currency f.currency w1 in
      let (status, w3) = resolve_status f.status w2 in
      let (created, w4) = resolve_created_at f.created w3 in
      let (id, w5) = from.uuid w4 in
      let (n, w6) = from.intn 12 w5 in
      (
        record {
          id = id;
          money = record { amount = amount; currency = currency };
          status = status;
          capture_method = automatic;
          installments = pos (n + 1);
          refunded_amount = pos 0;
          created_at = created;
        },
        w6,
      )

  -- MakeMany
  unfoldable pub make_many : PaymentFactory → ℕ → W → List Payment × W
  make_many f zero w = ([], w)
  make_many f (suc count) w =
      let (p, w1) = make f w in map_first (λ ps. p ∷ ps) (make_many f count w1)

  -- for _, p := range payments
  abbrev save_all : (Payment → M W (Unit {0})) → List Payment → M W (Unit {0})
  save_all save [] = pure tt
  save_all save (p ∷ ps) = do wrap_error ("seed payment " <> p.id) (save p); save_all save ps

  -- PaymentSeeder.truncate, of a repository that has the method or not.
  abbrev truncate : Option (M W (Unit {0})) → M W (Unit {0})
  truncate none = lift (err (other "repository does not support truncate"))
  truncate (some t) = t

  -- PaymentSeeder.Run
  unfoldable pub run :
      (Payment → M W (Unit {0}))
      → Option (M W (Unit {0}))
      → PaymentFactory
      → ℕ
      → Bool
      → M W (Unit {0})
  unfolding make_many
  run save truncater factory count fresh = do
    if fresh then truncate truncater else pure tt
    payments ← λ w. (ok (make_many factory count w).0, (make_many factory count w).1)
    save_all save payments

-- Registry.RunAll
unfoldable pub run_all : {W : Type 0} → List (M W (Unit {0})) → M W (Unit {0})
run_all [] = pure tt
run_all (seeder ∷ seeders) = do seeder; run_all seeders
