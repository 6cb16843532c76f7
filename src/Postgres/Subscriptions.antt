-- ===== src/Postgres/Subscriptions.antt =====
-- internal/infrastructure/persistence/postgres/webhook_subscription_repository.go.
use payment_service.Base.{
  ◌≡◌, refl, ◌∙◌, ◌⊎◌, true, ◌&&◌, String, none, some, List, [], ◌∷◌, map, M, ok, err, Error, ◌>>=◌,
  pure, lift, wrap_error, arith, str_eq, if◌then◌else◌,
}
use payment_service.Base.Dict.{Dict, lookup, insert}
use payment_service.Payment.{Time}
use payment_service.Webhook.{Subscription}
use payment_service.Webhook.Memory
use payment_service.Postgres.Reading.{reading-eq}
use payment_service.Postgres.{
  Database, Command, Query, Executor, ExecutorLaws, Operators, read_rows,
}

-- INSERT INTO webhook_subscriptions; created_at is kept as its column keeps it.
unfoldable pub insert_subscription : (Time → Time) → Subscription → Command
insert_subscription keep sub d = elim (lookup sub.id d.subscriptions) [
  | some old ↦ none
  | none ↦ some (
    1,
    record d {
      subscriptions =
          insert sub.id (record sub { created_at = keep sub.created_at }) d.subscriptions;
    },
  )
]

abbrev pub rows_of : Dict Subscription → List Subscription
rows_of [] = []
rows_of ((id, sub) ∷ rows) = sub ∷ rows_of rows

abbrev created_at_of : Subscription → Time
created_at_of sub = sub.created_at

-- SELECT … ORDER BY created_at DESC
unfoldable pub select_all : Operators → Query Subscription
select_all sql d = some (sql.order_by_time created_at_of true (rows_of d.subscriptions))

abbrev active_for : String → List Subscription → List Subscription
active_for event_type [] = []
active_for event_type (s ∷ subs) =
    let rest = active_for event_type subs in
    if s.active && str_eq s.event_type event_type then s ∷ rest else rest

-- SELECT … WHERE active AND event_type = $1
unfoldable pub select_active : String → Query Subscription
select_active event_type d = some (active_for event_type (rows_of d.subscriptions))

-- scanSubscriptions: a row is scanned into the fields as it is.
abbrev as_is : Subscription → Subscription
as_is sub = sub

module _ {W : Type 0} (db : Executor W) where
  -- Save
  unfoldable pub save : Subscription → M W (Unit {0})
  save sub = do
    n ← wrap_error "save webhook subscription" (db.exec (insert_subscription db.timestamptz sub))
    pure tt

  -- FindAll
  unfoldable pub find_all : Operators → M W (List Subscription)
  find_all sql = do
    rows ← wrap_error "find webhook subscriptions" (db.query (select_all sql))
    lift (read_rows "scan webhook subscription" "iterate webhook subscriptions" as_is rows)

  -- FindActiveByEventType
  unfoldable pub find_active_by_event_type : String → M W (List Subscription)
  find_active_by_event_type event_type = do
    rows ← wrap_error "find active webhook subscriptions" (db.query (select_active event_type))
    lift (read_rows "scan webhook subscription" "iterate webhook subscriptions" as_is rows)

map_id : (xs : List Subscription) → map as_is xs ≡ xs
map_id [] = refl
map_id (x ∷ xs) = rw (map_id xs) refl

active-memory :
    (event_type : String) (subs : List Subscription)
    → active_for event_type subs ≡ Memory.find_active_by_event_type event_type subs
unfolding Memory.find_active_by_event_type
active-memory event_type [] = refl
active-memory event_type (s ∷ subs) = ground (arith, active-memory event_type subs)

selected :
    (event_type : String) (d : Database) (xs : List Subscription)
    → select_active event_type d ≡ some xs
    → xs ≡ active_for event_type (rows_of d.subscriptions)
unfolding select_active
selected event_type d xs h = cc h

module _ {W : Type 0} (view : W → Database) (db : Executor W) (L : ExecutorLaws view db) where
  -- FindActiveByEventType in PostgreSQL, over a driver that keeps its documented laws, changes
  -- nothing, and fails or answers exactly what the repository in memory does for the same
  -- subscriptions.
  pub find_active-memory :
      (event_type : String) (w : W)
      → let out = find_active_by_event_type db event_type w in
        (view out.1 ≡ view w)
        × (((e : Error) × (out.0 ≡ err e))
            ⊎ (out.0
                ≡ ok
                    (Memory.find_active_by_event_type event_type (rows_of (view w).subscriptions))))
  unfolding find_active_by_event_type
  find_active-memory event_type w =
      reading-eq view db L "find active webhook subscriptions" "scan webhook subscription"
        "iterate webhook subscriptions" as_is (select_active event_type)
        (Memory.find_active_by_event_type event_type (rows_of (view w).subscriptions)) w
        λ rs all.
          map_id rs
          ∙ selected event_type (view w) rs all
          ∙ active-memory event_type (rows_of (view w).subscriptions)
