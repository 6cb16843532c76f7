-- ===== src/Postgres/Retries.antt =====
-- What webhook_delivery_repository.go of internal/infrastructure/persistence/postgres keeps and gives out.
use mathlib.Core.Path.{subst}
use payment_service.Base.{
  ℕ, zero, suc, ◌≡◌, refl, ap, ◌∙◌, Bool, ◌⊎◌, inl, inr, true, false, ◌&&◌, String, Option, none,
  some, List, [], ◌∷◌, map, take, All, All-append, ok, err, Error, arith, Option-cases, Bool-cases,
  str_eq, if◌then◌else◌,
}
use payment_service.Base.Int.{◌≤ℤ◌, eqb_ℤ}
use payment_service.Base.Dict.{Dict, lookup}
use payment_service.Payment.{Time}
use payment_service.Webhook.{Subscription, Delivery, failed, RetriableDelivery, zero_time}
use payment_service.Webhook.Memory.{Ready}
use payment_service.Postgres.{
  DeliveryRow, Database, Executor, ExecutorLaws, Operators, OperatorsLaws,
}
use payment_service.Postgres.Logs.{dropped, null_string}
use payment_service.Postgres.Agreement.{OrWrapped}
use payment_service.Postgres.Reading.{reading-Answered}
use payment_service.Postgres.Deliveries.{
  row_of, merged, same_target, row_at, merge_row, upsert_delivery, RetriableRow, retriable_rows,
  next_of, select_retriable, scan_retriable, save, fetch_retriable, joined, is_failed, due,
  text_or_empty, time_or_zero, null_time,
}

-- What a save leaves for its subscription and event.
abbrev pub merged_into : Option DeliveryRow → DeliveryRow → DeliveryRow
merged_into none new = new
merged_into (some old) new = merged old new

row_at-merge_row :
    (sub event : String) (new : DeliveryRow) (rows : List DeliveryRow)
    → row_at sub event (merge_row new rows) ≡ (
        if same_target sub event new
        then some (merged_into (row_at sub event rows) new)
        else row_at sub event rows)
unfolding row_at merge_row
row_at-merge_row sub event new [] = refl
row_at-merge_row sub event new (row ∷ rows) = ground (arith, row_at-merge_row sub event new rows)

-- At most one row for a subscription and an event.
abbrev pub OneEach : List DeliveryRow → Type 0
OneEach [] = Unit {0}
OneEach (row ∷ rows) = (row_at row.subscription_id row.event_id rows ≡ none) × OneEach rows

merge_row-OneEach :
    (new : DeliveryRow) (rows : List DeliveryRow) → OneEach rows → OneEach (merge_row new rows)
unfolding merge_row row_at
merge_row-OneEach new [] h = (refl, tt)
merge_row-OneEach new (row ∷ rows) h = ground (
  arith,
  merge_row-OneEach new rows h.1,
  row_at-merge_row row.subscription_id row.event_id new rows,
)

upsert-rows :
    (keep : Time → Time) (d : Delivery) (db : Database) (n : ℕ) (db' : Database)
    → upsert_delivery keep d db ≡ some (n, db')
    → db'.deliveries ≡ merge_row (row_of keep d) db.deliveries
unfolding upsert_delivery
upsert-rows keep d db n db' ran = ground arith

-- A row as FetchRetriable scans it.
abbrev pub read_row : DeliveryRow → Delivery
read_row row = (scan_retriable (record { row = row; url = ""; secret = "" })).delivery

abbrev read_rows_at : Option DeliveryRow → Option Delivery
read_rows_at none = none
read_rows_at (some row) = some (read_row row)

-- The delivery that the table holds for a subscription and an event.
abbrev pub delivery_at : String → String → List DeliveryRow → Option Delivery
delivery_at sub event rows = read_rows_at (row_at sub event rows)

-- The zero time is no time; another one is kept as its column keeps it.
abbrev pub kept_next : (Time → Time) → Time → Time
kept_next keep t = if eqb_ℤ t zero_time then zero_time else keep t

-- What is held after a save of `d`, beside what was: the new delivery, or the old one with the state,
-- the attempts, the error, the next attempt and the time of the change of the new one.
abbrev pub saved : (Time → Time) → Delivery → Option Delivery → Delivery
saved keep d none = record d {
  next_attempt_at = kept_next keep d.next_attempt_at;
  created_at = keep d.created_at;
  updated_at = keep d.updated_at;
}
saved keep d (some old) = record old {
  status = d.status;
  attempts = d.attempts;
  last_error = d.last_error;
  next_attempt_at = kept_next keep d.next_attempt_at;
  updated_at = keep d.updated_at;
}

read-null_string : (s : String) → text_or_empty (null_string s) ≡ s
unfolding null_string
read-null_string s = ground arith

read-null_time :
    (keep : Time → Time) (t : Time) → time_or_zero (null_time keep t) ≡ kept_next keep t
unfolding null_time
read-null_time keep t = ground arith

read-merged :
    (keep : Time → Time) (d : Delivery) (old : Option DeliveryRow)
    → read_row (merged_into old (row_of keep d)) ≡ saved keep d (read_rows_at old)
unfolding scan_retriable row_of
read-merged keep d none =
    rw (read-null_string d.last_error, read-null_time keep d.next_attempt_at) refl
read-merged keep d (some old) =
    rw (read-null_string d.last_error, read-null_time keep d.next_attempt_at) refl

read_rows_at-if :
    (b : Bool) (x : DeliveryRow) (y : Option DeliveryRow)
    → read_rows_at (if b then some x else y) ≡ (if b then some (read_row x) else read_rows_at y)
read_rows_at-if true x y = refl
read_rows_at-if false x y = refl

upserted :
    (keep : Time → Time) (d : Delivery) (sub event : String) (db : Database) (n : ℕ)
    (db' : Database)
    → OneEach db.deliveries
    → upsert_delivery keep d db ≡ some (n, db')
    → (delivery_at sub event db'.deliveries ≡ (
        if str_eq d.subscription_id sub && str_eq d.event_id event
        then some (saved keep d (delivery_at sub event db.deliveries))
        else delivery_at sub event db.deliveries))
      × OneEach db'.deliveries
unfolding row_of
upserted keep d sub event db n db' one ran = rw (upsert-rows keep d db n db' ran) (
  ap read_rows_at (row_at-merge_row sub event (row_of keep d) db.deliveries)
      ∙ read_rows_at-if (str_eq d.subscription_id sub && str_eq d.event_id event)
          (merged_into (row_at sub event db.deliveries) (row_of keep d))
          (row_at sub event db.deliveries)
      ∙ ap
          (λ m.
            if str_eq d.subscription_id sub && str_eq d.event_id event
            then some m
            else delivery_at sub event db.deliveries)
          (read-merged keep d (row_at sub event db.deliveries)),
  merge_row-OneEach (row_of keep d) db.deliveries one,
)

take-All : {A : Type 0} (P : A → Type 0) (n : ℕ) (xs : List A) → All P xs → All P (take n xs)
take-All P zero xs h = tt
take-All P (suc n) [] h = tt
take-All P (suc n) (x ∷ xs) h = (h.0, take-All P n xs h.1)

All-map :
    {A B : Type 0} (P : B → Type 0) (f : A → B) (xs : List A)
    → All (λ x. P (f x)) xs
    → All P (map f xs)
All-map P f [] h = tt
All-map P f (x ∷ xs) h = (h.0, All-map P f xs h.1)

abbrev pub ReadyRow : Time → RetriableRow → Type 0
ReadyRow now r = Ready now (scan_retriable r)

due_sound :
    (now : Time) (row : DeliveryRow)
    → is_failed row.status && due now row.next_attempt_at ≡ true
    → (row.status ≡ failed)
      × ((scan_retriable (record { row = row; url = ""; secret = "" })).delivery.next_attempt_at
          ≤ℤ now)
unfolding scan_retriable
due_sound now row h = elim (Option-cases row.next_attempt_at) [
  | inl none_at ↦ absurd (ground (arith, none_at))
  | inr (t, at) ↦ ground (arith, at)
]

joined-Ready :
    (now : Time) (row : DeliveryRow) (found : Option Subscription)
    → All (ReadyRow now) (joined (is_failed row.status && due now row.next_attempt_at) row found)
unfolding scan_retriable
joined-Ready now row none =
    elim (Bool-cases (is_failed row.status && due now row.next_attempt_at)) [
      | inl ready ↦ rw ready tt
      | inr not_yet ↦ rw not_yet tt
    ]
joined-Ready now row (some sub) =
    elim (Bool-cases (is_failed row.status && due now row.next_attempt_at)) [
      | inr not_yet ↦ rw not_yet tt
      | inl ready ↦ rw ready (elim (Bool-cases (str_eq sub.id row.subscription_id && sub.active)) [
        | inr off ↦ rw off tt
        | inl on ↦ rw on ((sub, ground (arith, on, due_sound now row ready)), tt)
      ])
    ]

retriable_rows-Ready :
    (now : Time) (subs : Dict Subscription) (rows : List DeliveryRow)
    → All (ReadyRow now) (retriable_rows now subs rows)
retriable_rows-Ready now subs [] = tt
retriable_rows-Ready now subs (row ∷ rows) =
    All-append (ReadyRow now)
      (joined (is_failed row.status && due now row.next_attempt_at) row
        (lookup row.subscription_id subs))
      (retriable_rows now subs rows) (joined-Ready now row (lookup row.subscription_id subs))
      (retriable_rows-Ready now subs rows)

abbrev AllSome : {A : Type 0} → (A → Type 0) → Option (List A) → Type 0
AllSome P none = Unit {0}
AllSome P (some xs) = All P xs

selected-Ready :
    (sql : Operators) (O : OperatorsLaws sql) (limit : ℕ) (now : Time) (db : Database)
    (rs : List RetriableRow)
    → select_retriable sql limit now db ≡ some rs
    → All (Ready now) (map scan_retriable rs)
unfolding select_retriable
selected-Ready sql O limit now db rs h = All-map (Ready now) scan_retriable rs (
    subst (λ o. AllSome (ReadyRow now) o) h
      (take-All (ReadyRow now) limit _ (
        O.order_by_time-All (ReadyRow now) next_of false
          (retriable_rows now db.subscriptions db.deliveries)
          (retriable_rows-Ready now db.subscriptions db.deliveries))))

module _ {W : Type 0} (view : W → Database) (db : Executor W) (L : ExecutorLaws view db) where
  -- Save of a webhook delivery in PostgreSQL, over a driver that keeps its documented laws and a
  -- table with at most one row for a subscription and an event, fails with the driver's error; or
  -- it succeeds, that is still so, and the row for its subscription and event reads as the
  -- delivery that was saved, if there was none, and else as the old one with the status, the
  -- attempts, the last error, the next attempt and the time of the change of the saved one, times
  -- as their columns keep them; while the row for any other pair reads as before.
  pub save_delivery-OneEach :
      (d : Delivery) (sub event : String) (w : W)
      → OneEach (view w).deliveries
      → let out = save db d w in
        OrWrapped "save webhook delivery" out.0 (
          (out.0 ≡ ok tt)
          × (delivery_at sub event (view out.1).deliveries ≡ (
              if str_eq d.subscription_id sub && str_eq d.event_id event
              then some (saved db.timestamptz d (delivery_at sub event (view w).deliveries))
              else delivery_at sub event (view w).deliveries))
          × OneEach (view out.1).deliveries)
  unfolding save
  save_delivery-OneEach d sub event w one =
      elim (dropped "save webhook delivery" view db L (upsert_delivery db.timestamptz d) w
        (λ after.
          (delivery_at sub event after.deliveries ≡ (
            if str_eq d.subscription_id sub && str_eq d.event_id event
            then some (saved db.timestamptz d (delivery_at sub event (view w).deliveries))
            else delivery_at sub event (view w).deliveries))
          × OneEach after.deliveries)
        (λ n after ran. upserted db.timestamptz d sub event (view w) n after one ran)) [
          | inl bad ↦ inl bad
          | inr (good, kept) ↦ inr (good, kept.0, kept.1)
        ]

  -- FetchRetriable in PostgreSQL, over a driver that keeps its documented laws and an ORDER BY that
  -- loses and makes up no row, changes nothing; and it fails or gives out deliveries of which each
  -- failed, is due, and goes out under the address and secret of its subscription, which is active.
  pub fetch_retriable-postgres :
      (sql : Operators) (O : OperatorsLaws sql) (limit : ℕ) (now : Time) (w : W)
      → let out = fetch_retriable db sql limit now w in
        (view out.1 ≡ view w)
        × (((e : Error) × (out.0 ≡ err e))
            ⊎ ((xs : List RetriableDelivery) × (out.0 ≡ ok xs) × All (Ready now) xs))
  unfolding fetch_retriable
  fetch_retriable-postgres sql O limit now w =
      reading-Answered view db L "fetch retriable deliveries" "scan retriable delivery"
        "iterate retriable deliveries" scan_retriable (select_retriable sql limit now)
        (All (Ready now)) w λ rs all. selected-Ready sql O limit now (view w) rs all
