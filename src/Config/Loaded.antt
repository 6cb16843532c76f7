-- ===== src/Config/Loaded.antt =====
-- What internal/infrastructure/config/config.go guarantees of the numbers that it loads, whatever is in
-- the environment.
use Prim.Native.Char.{code}
use payment_service.Base.{
  ℕ, zero, suc, ◌^◌, ◌≤◌, ◌<◌, ◌==◌, ◌≡◌, refl, ◌⊎◌, inl, inr, Bool, Bool-cases, String, Option,
  none, some, List, [], ◌∷◌, All, str_eq, arith, M, Result, ok, err, Error,
}
use payment_service.Base.Int.{ℤ, pos, negsuc}
use payment_service.Base.Text.{atoi, decimal, positive, negative, unsigned}
use payment_service.Base.Text.Decimal.{atoi-decimal, decimal-ne-nil}
use payment_service.Config.{Config, int_or_default, load, at_least_one}
use payment_service.Messaging.{Verdict, handle_message, ack, dead_letter}
use payment_service.Messaging.Retry.{Calls}
use payment_service.Messaging.Handle.{handle_message_lem}

-- A positive number of int64.
abbrev pub Counts : ℤ → Type 0
Counts n = (k : ℕ) × (n ≡ pos (suc k)) × (suc k < 2 ^ 63)

positive_below : (o : Option ℕ) (n : ℕ) → positive o ≡ some (pos n) → n < 2 ^ 63
positive_below none n h = cc h
positive_below (some m) n h = ground arith

negative_below : (o : Option ℕ) (n : ℕ) → negative o ≡ some (pos n) → n ≡ 0
negative_below none n h = cc h
negative_below (some zero) n h = ground arith
negative_below (some (suc m)) n h = ground arith

atoi_below : (s : String) (n : ℕ) → atoi s ≡ some (pos n) → n < 2 ^ 63
unfolding atoi
atoi_below String.[] n h = cc h
atoi_below (String.◌∷◌ c s) n h = elim (Bool-cases (code c == b'-')) [
  | inl minus ↦ omega (arith, negative_below (unsigned s) n (rw minus at h))
  | inr other ↦ elim (Bool-cases (code c == b'+')) [
    | inl plus ↦ positive_below (unsigned s) n (rw plus at (rw other at h))
    | inr bare ↦ positive_below (unsigned (String.◌∷◌ c s)) n (rw bare at (rw other at h))
  ]
]

counted :
    (fallback : ℕ) (o : Option ℤ)
    → ((n : ℕ) → o ≡ some (pos n) → n < 2 ^ 63)
    → suc fallback < 2 ^ 63
    → Counts (at_least_one (pos (suc fallback)) o)
counted fallback none below small = (fallback, refl, small)
counted fallback (some (pos zero)) below small = (fallback, refl, small)
counted fallback (some (pos (suc n))) below small = (n, ground arith, below (suc n) refl)
counted fallback (some (negsuc n)) below small = (fallback, ground arith, small)

-- A message that was handled by a call at least, and what became of it.
abbrev pub HandledOnce : {W : Type 0} → M W (Unit {0}) → W → Verdict × W → Type 0
HandledOnce handler w out =
    (calls : ℕ) × (r : Result (Unit {0})) × Calls handler calls w r out.1
    × (1 ≤ calls)
    × (((r ≡ ok tt) × (out.0 ≡ ack)) ⊎ ((e : Error) × (r ≡ err e) × (out.0 ≡ dead_letter)))

handled :
    {W : Type 0} (cancelled : ℕ → Bool) (handler : M W (Unit {0})) (w : W) (retries : ℤ)
    → Counts retries
    → HandledOnce handler w (handle_message cancelled retries handler w)
handled cancelled handler w retries (k, same, _) =
    let (calls, r, made, once, _, verdict) = handle_message_lem cancelled (suc k) handler w in
    rw same (calls, r, made, once, verdict)

-- The numbers that the services count with.
abbrev pub counts : Config → List ℤ
counts c =
    c.outbox.batch_size ∷ c.webhook.retry.max_attempts ∷ c.webhook.retry.batch_size
    ∷ c.rabbit_mq.max_retries ∷ []

module _ (getenv : String → String) (parse_duration : String → Option ℤ) where
  int_or_default-Counts :
      (key : String) (fallback : ℕ)
      → suc fallback < 2 ^ 63
      → Counts (int_or_default getenv parse_duration key (pos (suc fallback)))
  unfolding int_or_default
  int_or_default-Counts key fallback small = elim (Bool-cases (str_eq (getenv key) "")) [
    | inl unset ↦ rw unset (fallback, refl, small)
    | inr set ↦
        rw set (counted fallback (atoi (getenv key)) (λ n h. atoi_below (getenv key) n h) small)
  ]

  -- Whatever is in the environment, the batch sizes of the outbox and of the retries, the most
  -- attempts of a webhook and the retries of a message, as Load gives them, are from 1 on and fit
  -- in an int64.
  pub load-Counts : All Counts (counts (load getenv parse_duration))
  unfolding load
  load-Counts = (
    int_or_default-Counts "OUTBOX_BATCH_SIZE" 99 (omega arith),
    (
      int_or_default-Counts "WEBHOOK_RETRY_MAX_ATTEMPTS" 4 (omega arith),
      (
        int_or_default-Counts "WEBHOOK_RETRY_BATCH_SIZE" 99 (omega arith),
        (int_or_default-Counts "RABBITMQ_MAX_RETRIES" 2 (omega arith), tt),
      ),
    ),
  )

  decimal_read :
      (n : ℕ) (fallback : ℤ)
      → suc n < 2 ^ 63
      → at_least_one fallback (atoi (decimal (pos (suc n)))) ≡ pos (suc n)
  decimal_read n fallback small = rw (atoi-decimal (pos (suc n)) (ground arith)) (ground arith)

  -- An integer setting whose variable holds the decimal text of a number from 1 on that fits in an
  -- int64 is read as that number, whatever its default.
  pub int_or_default-decimal :
      (key : String) (fallback : ℤ) (n : ℕ)
      → getenv key ≡ decimal (pos (suc n))
      → suc n < 2 ^ 63
      → int_or_default getenv parse_duration key fallback ≡ pos (suc n)
  unfolding int_or_default
  int_or_default-decimal key fallback n set small =
      rw (set, decimal-ne-nil (suc n)) (decimal_read n fallback small)

  -- A message that a subscriber with the loaded number of retries takes is handled by at least one
  -- call of its handler, and acknowledged only if the last of these calls succeeded.
  pub handle_message_loaded :
      {W : Type 0} (cancelled : ℕ → Bool) (handler : M W (Unit {0})) (w : W)
      → let retries = (load getenv parse_duration).rabbit_mq.max_retries in
        HandledOnce handler w (handle_message cancelled retries handler w)
  handle_message_loaded cancelled handler w =
      handled cancelled handler w (load getenv parse_duration).rabbit_mq.max_retries
        (load-Counts.1.1.1.0)
