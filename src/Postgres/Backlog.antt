-- ===== src/Postgres/Backlog.antt =====
-- FetchUnpublished and MarkPublished of
-- internal/infrastructure/persistence/postgres/outbox_repository.go beside the repository in memory.
use payment_service.Base.{
  ℕ, zero, suc, ◌==◌, ◌≤◌, ◌≡◌, refl, ap, sym, ◌∙◌, ◌⊎◌, inl, inr, false, String, ◌<>◌, Option,
  none, some, List, [], ◌∷◌, map, take, Result, ok, err, other, Error, arith, Option-cases,
  Result-cases, if◌then◌else◌,
}
use payment_service.Base.Dict.{Dict, lookup}
use payment_service.Payment.{Time}
use payment_service.Outbox.Memory
use payment_service.Postgres.{OutboxRow, Database, Executor, ExecutorLaws, Operators}
use payment_service.Postgres.Reading.{reading-eq}
use payment_service.Postgres.Agreement.{OrWrapped}
use payment_service.Postgres.Events
use payment_service.Postgres.Tables.{tables_of, events_of, mark-events_of}

map-take : {A B : Type 0} (f : A → B) (n : ℕ) (xs : List A) → map f (take n xs) ≡ take n (map f xs)
map-take f zero xs = refl
map-take f (suc n) [] = refl
map-take f (suc n) (x ∷ xs) = rw (map-take f n xs) refl

unpublished-pending :
    (rows : Dict OutboxRow)
    → map Events.scan_event (Events.unpublished rows) ≡ Memory.pending (events_of rows)
unfolding events_of Events.scan_event
unpublished-pending [] = refl
unpublished-pending ((id, row) ∷ rows) = elim (Option-cases row.published_at) [
  | inl new ↦ ground (arith, new, unpublished-pending rows)
  | inr (t, old) ↦ ground (arith, old, unpublished-pending rows)
]

mark_absent :
    (id : String) (now : Time) (rows : Dict OutboxRow)
    → lookup id rows ≡ none
    → Memory.mark_published id now (events_of rows) ≡ events_of rows
unfolding events_of lookup Memory.mark_published
mark_absent id now [] h = refl
mark_absent id now ((j, row) ∷ rows) h = ground (arith, mark_absent id now rows)

-- What MarkPublished answers where no driver fails.
abbrev pub mark_answer : String → Option OutboxRow → Result (Unit {0})
mark_answer id none = err (other ("outbox event " <> id <> " not found"))
mark_answer id (some row) = ok tt

marked_cases :
    (id : String) (now : Time) (d : Database) (n : ℕ) (d' : Database)
    → Events.update_published id now d ≡ some (n, d')
    → ((if n == 0 then err (other ("outbox event " <> id <> " not found")) else ok tt)
        ≡ mark_answer id (lookup id d.outbox_events))
      × ((tables_of d').events ≡ Memory.mark_published id now (tables_of d).events)
      × ((tables_of d').payments ≡ (tables_of d).payments)
unfolding Events.update_published
marked_cases id now d n d' ran = elim (Option-cases (lookup id d.outbox_events)) [
  | inl missing ↦ ground (arith, missing, mark_absent id now d.outbox_events missing)
  | inr (row, there) ↦ ground (arith, there, mark-events_of id now d.outbox_events row there)
]

some_eq : {A : Type 0} {a b : A} → some a ≡ some b → b ≡ a
some_eq h = cc h

fetched :
    (sql : Operators) (limit : ℕ) (d : Database) (rs : List (String × OutboxRow))
    → 1 ≤ limit
    → sql.order_by_time Events.created_at_of false (Events.unpublished d.outbox_events)
      ≡ Events.unpublished d.outbox_events
    → Events.select_unpublished sql limit d ≡ some rs
    → map Events.scan_event rs ≡ Memory.fetch_unpublished limit (tables_of d).events
unfolding Events.select_unpublished
fetched sql limit d rs least ordered h =
    ap (map Events.scan_event) (some_eq h ∙ ap (take limit) ordered)
    ∙ map-take Events.scan_event limit (Events.unpublished d.outbox_events)
    ∙ ap (take limit) (unpublished-pending d.outbox_events)
    ∙ sym (Memory.fetch_unpublished-eq-take limit (tables_of d).events least)

module _ {W : Type 0} (view : W → Database) (db : Executor W) (L : ExecutorLaws view db)
    (sql : Operators) where
  -- MarkPublished, over a driver that keeps its documented laws, fails with the driver's error; or it
  -- leaves the payments as they are and the events exactly as the repository in memory does, and
  -- answers an error of its own exactly if no event has the id.
  pub mark_published-memory :
      (id : String) (now : Time) (w : W)
      → let out = Events.mark_published db now id w in
        OrWrapped "mark published" out.0 (
          (out.0 ≡ mark_answer id (lookup id (view w).outbox_events))
          × ((tables_of (view out.1)).events
              ≡ Memory.mark_published id now (tables_of (view w)).events)
          × ((tables_of (view out.1)).payments ≡ (tables_of (view w)).payments))
  unfolding Events.mark_published
  mark_published-memory id now w =
      let command = Events.update_published id now in
      elim (Result-cases (db.exec command w).0) [
        | inl (e, bad) ↦ inl (e, rw (Events.mark_published, bad) refl)
        | inr (n, ran) ↦ inr (
            rw ran (
              marked_cases id now (view w) n (view (db.exec command w).1)
                (L.exec-runs command w n ran)))
      ]

  -- FetchUnpublished in PostgreSQL with a limit from 1 on, over a driver that keeps its documented
  -- laws and pending rows whose order by creation is that in which they were added, changes
  -- nothing, and fails or answers exactly what the outbox in memory does for the same events.
  pub fetch_unpublished-memory :
      (limit : ℕ) (w : W)
      → 1 ≤ limit
      → sql.order_by_time Events.created_at_of false (Events.unpublished (view w).outbox_events)
        ≡ Events.unpublished (view w).outbox_events
      → let out = Events.fetch_unpublished sql db limit w in
        (view out.1 ≡ view w)
        × (((e : Error) × (out.0 ≡ err e))
            ⊎ (out.0 ≡ ok (Memory.fetch_unpublished limit (tables_of (view w)).events)))
  unfolding Events.fetch_unpublished
  fetch_unpublished-memory limit w least ordered =
      reading-eq view db L "fetch unpublished" "scan outbox event" "iterate outbox events"
        Events.scan_event (Events.select_unpublished sql limit)
        (Memory.fetch_unpublished limit (tables_of (view w)).events) w
        (λ rs all. fetched sql limit (view w) rs least ordered all)
