-- ===== src/Postgres/Deliveries.antt =====
-- internal/infrastructure/persistence/postgres/webhook_delivery_repository.go.
use payment_service.Base.{
  ℕ, Bool, true, false, ◌&&◌, ◌||◌, String, Option, none, some, List, [], ◌∷◌, ◌++◌, take, M, ◌>>=◌,
  pure, lift, wrap_error, str_eq, if◌then◌else◌,
}
use payment_service.Base.Int.{eqb_ℤ, leb_ℤ}
use payment_service.Base.Dict.{Dict, lookup}
use payment_service.Payment.{Time}
use payment_service.Webhook.{
  Subscription, Delivery, DeliveryStatus, failed, RetriableDelivery, zero_time,
}
use payment_service.Postgres.{DeliveryRow, Command, Query, Executor, Operators, read_rows}
use payment_service.Postgres.Logs.{null_string}

-- nullTime, and what the column keeps of the time.
unfoldable pub null_time : (Time → Time) → Time → Option Time
null_time keep t = if eqb_ℤ t zero_time then none else some (keep t)

-- The columns of a delivery, those of time as TIMESTAMPTZ keeps them.
unfoldable pub row_of : (Time → Time) → Delivery → DeliveryRow
row_of keep d = record {
  id = d.id;
  subscription_id = d.subscription_id;
  event_id = d.event_id;
  event_type = d.event_type;
  payload = d.payload;
  status = d.status;
  attempts = d.attempts;
  last_error = null_string d.last_error;
  next_attempt_at = null_time keep d.next_attempt_at;
  created_at = keep d.created_at;
  updated_at = keep d.updated_at;
}

-- DO UPDATE SET … = EXCLUDED.…
abbrev pub merged : DeliveryRow → DeliveryRow → DeliveryRow
merged old new = record old {
  status = new.status;
  attempts = new.attempts;
  last_error = new.last_error;
  next_attempt_at = new.next_attempt_at;
  updated_at = new.updated_at;
}

-- The unique index on (subscription_id, event_id).
abbrev pub same_target : String → String → DeliveryRow → Bool
same_target subscription_id event_id row =
    str_eq row.subscription_id subscription_id && str_eq row.event_id event_id

unfoldable pub row_at : String → String → List DeliveryRow → Option DeliveryRow
row_at sub event [] = none
row_at sub event (row ∷ rows) =
    if same_target sub event row then some row else row_at sub event rows

unfoldable pub merge_row : DeliveryRow → List DeliveryRow → List DeliveryRow
merge_row new [] = new ∷ []
merge_row new (row ∷ rows) =
    if same_target new.subscription_id new.event_id row
    then merged row new ∷ rows
    else row ∷ merge_row new rows

abbrev pub has_id : String → List DeliveryRow → Bool
has_id id [] = false
has_id id (row ∷ rows) = str_eq row.id id || has_id id rows

-- INSERT INTO webhook_deliveries … ON CONFLICT (subscription_id, event_id) DO UPDATE. A new row
-- needs an id of its own and a subscription that there is.
unfoldable pub upsert_delivery : (Time → Time) → Delivery → Command
upsert_delivery keep d db =
    let done = some (1, record db { deliveries = merge_row (row_of keep d) db.deliveries }) in
    elim (row_at d.subscription_id d.event_id db.deliveries) [
      | some old ↦ done
      | none ↦ elim (lookup d.subscription_id db.subscriptions) [
        | none ↦ none
        | some sub ↦ if has_id d.id db.deliveries then none else done
      ]
    ]

-- The columns of FetchRetriable: those of the delivery, and url and secret of its subscription.
pub record RetriableRow : Type 0 where
  pub row : DeliveryRow
  pub url : String
  pub secret : String

abbrev pub is_failed : DeliveryStatus → Bool
is_failed failed = true
is_failed _ = false

abbrev pub due : Time → Option Time → Bool
due now none = false
due now (some t) = leb_ℤ t now

abbrev pub joined : Bool → DeliveryRow → Option Subscription → List RetriableRow
joined true row (some sub) =
    if str_eq sub.id row.subscription_id && sub.active
    then record { row = row; url = sub.url; secret = sub.secret } ∷ []
    else []
joined _ row _ = []

-- JOIN webhook_subscriptions s ON s.id = d.subscription_id WHERE …
abbrev pub retriable_rows : Time → Dict Subscription → List DeliveryRow → List RetriableRow
retriable_rows now subs [] = []
retriable_rows now subs (row ∷ rows) =
    joined (is_failed row.status && due now row.next_attempt_at) row
      (lookup row.subscription_id subs)
    ++ retriable_rows now subs rows

-- ORDER BY d.next_attempt_at, of rows where it is not NULL.
abbrev pub next_of : RetriableRow → Time
next_of r = elim r.row.next_attempt_at [ none ↦ zero_time | some t ↦ t ]

unfoldable pub select_retriable : Operators → ℕ → Time → Query RetriableRow
select_retriable sql limit now db = some (
    take limit
      (sql.order_by_time next_of false (retriable_rows now db.subscriptions db.deliveries)))

abbrev pub text_or_empty : Option String → String
text_or_empty none = ""
text_or_empty (some s) = s

abbrev pub time_or_zero : Option Time → Time
time_or_zero none = zero_time
time_or_zero (some t) = t

-- The body of the loop of FetchRetriable.
unfoldable pub scan_retriable : RetriableRow → RetriableDelivery
scan_retriable r = record {
  delivery = record {
    id = r.row.id;
    subscription_id = r.row.subscription_id;
    event_id = r.row.event_id;
    event_type = r.row.event_type;
    payload = r.row.payload;
    status = r.row.status;
    attempts = r.row.attempts;
    last_error = text_or_empty r.row.last_error;
    next_attempt_at = time_or_zero r.row.next_attempt_at;
    created_at = r.row.created_at;
    updated_at = r.row.updated_at;
  };
  url = r.url;
  secret = r.secret;
}

module _ {W : Type 0} (db : Executor W) where
  -- Save
  unfoldable pub save : Delivery → M W (Unit {0})
  save d = do
    n ← wrap_error "save webhook delivery" (db.exec (upsert_delivery db.timestamptz d))
    pure tt

  -- FetchRetriable, for a limit that is not negative.
  unfoldable pub fetch_retriable : Operators → ℕ → Time → M W (List RetriableDelivery)
  fetch_retriable sql limit now = do
    rows ← wrap_error "fetch retriable deliveries" (db.query (select_retriable sql limit now))
    lift (read_rows "scan retriable delivery" "iterate retriable deliveries" scan_retriable rows)
