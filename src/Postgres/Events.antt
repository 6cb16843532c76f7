-- ===== src/Postgres/Events.antt =====
-- internal/infrastructure/persistence/postgres/outbox_repository.go: its SQL statements and its methods.
-- The server's NOW() is an argument.
use payment_service.Base.{
  ℕ, ◌==◌, Bool, true, false, String, ◌<>◌, Option, none, some, List, [], ◌∷◌, take, M, err, other,
  ok, ◌>>=◌, pure, lift, wrap_error, if◌then◌else◌,
}
use payment_service.Base.Dict.{Dict, lookup, insert}
use payment_service.Payment.{Time}
use payment_service.Outbox.{Event, Repository}
use payment_service.Postgres.{
  OutboxRow, Database, Command, Query, Executor, Operators, exec_from_context, read_rows,
}

-- The columns that INSERT names; published_at is NULL.
unfoldable pub row_of : (Time → Time) → Event → OutboxRow
row_of keep e = record {
  aggregate_id = e.aggregate_id;
  event_type = e.type;
  payload = e.payload;
  created_at = keep e.created_at;
  published_at = none;
}

-- rows.Scan of FetchUnpublished; PublishedAt is left nil.
unfoldable pub scan_event : String × OutboxRow → Event
scan_event (id, row) = record {
  id = id;
  aggregate_id = row.aggregate_id;
  type = row.event_type;
  payload = row.payload;
  created_at = row.created_at;
  published_at = none;
}

abbrev pub with_events : Database → Dict OutboxRow → Database
with_events d rows = record d { outbox_events = rows }

-- INSERT INTO outbox_events
unfoldable pub insert_event : (Time → Time) → Event → Command
insert_event keep e d = elim (lookup e.id d.outbox_events) [
  | some row ↦ none
  | none ↦ some (1, with_events d (insert e.id (row_of keep e) d.outbox_events))
]

abbrev pub is_null : {A : Type 0} → Option A → Bool
is_null none = true
is_null (some a) = false

abbrev pub unpublished : Dict OutboxRow → List (String × OutboxRow)
unpublished [] = []
unpublished ((id, row) ∷ rows) =
    let rest = unpublished rows in if is_null row.published_at then (id, row) ∷ rest else rest

abbrev pub created_at_of : String × OutboxRow → Time
created_at_of (id, row) = row.created_at

-- SELECT … WHERE published_at IS NULL ORDER BY created_at LIMIT $1
unfoldable pub select_unpublished : Operators → ℕ → Query (String × OutboxRow)
select_unpublished sql limit d =
    some (take limit (sql.order_by_time created_at_of false (unpublished d.outbox_events)))

-- UPDATE outbox_events SET published_at = NOW() WHERE id = $1
unfoldable pub update_published : String → Time → Command
update_published id now d = elim (lookup id d.outbox_events) [
  | none ↦ some (0, d)
  | some row ↦
      some (1, with_events d (insert id (record row { published_at = some now }) d.outbox_events))
]

module _ {W : Type 0} where
  -- Add, in the transaction of the context or on the pool.
  unfoldable pub add : Executor W → Event → M W (Unit {0})
  add db e = do n ← wrap_error "add outbox event" (db.exec (insert_event db.timestamptz e)); pure tt

  -- FetchUnpublished, for a limit that is not negative.
  unfoldable pub fetch_unpublished : Operators → Executor W → ℕ → M W (List Event)
  fetch_unpublished sql pool limit = do
    rows ← wrap_error "fetch unpublished" (pool.query (select_unpublished sql limit))
    lift (read_rows "scan outbox event" "iterate outbox events" scan_event rows)

  -- MarkPublished
  unfoldable pub mark_published : Executor W → Time → String → M W (Unit {0})
  mark_published pool now id = do
    n ← wrap_error "mark published" (pool.exec (update_published id now))
    lift (if n == 0 then err (other ("outbox event " <> id <> " not found")) else ok tt)

  -- The repository: Add alone takes the transaction of its context.
  unfoldable pub repository :
      {H : Type 0} → Operators → Time → (H → Executor W) → Executor W → Option H → Repository W
  repository sql now in_tx pool ctx = record {
    add = add (exec_from_context in_tx pool ctx);
    fetch_unpublished = fetch_unpublished sql pool;
    mark_published = mark_published pool now;
  }
