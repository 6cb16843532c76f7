-- ===== src/Postgres/Tables.antt =====
-- The tables of PostgreSQL as the use cases see them: payments by their ids, and outbox events in the
-- order in which they were added (payment_repository.go, outbox_repository.go of
-- internal/infrastructure/persistence/postgres).
use payment_service.Base.{
  ◌≡◌, refl, true, String, Option, none, some, List, [], ◌∷◌, ◌++◌, arith, Option-cases, inl, inr,
  string_discrete,
}
use payment_service.Base.Dict.{Dict, lookup, insert, erase}
use payment_service.Payment.{
  Payment, Time, Status, pending, authorized, completed, failed, refunded, partially_refunded,
  unknown, CaptureMethod, automatic, manual, other_method, status_text, status_of, status_is_valid,
  capture_method_text, capture_method_of, capture_method_is_valid,
}
use payment_service.Payment.Lifecycle.{SameOrder}
use payment_service.Outbox.{Event}
use payment_service.Outbox.Memory
use payment_service.Usecase.Laws.{Tables, IsKnown}
use payment_service.Postgres.{PaymentRow, OutboxRow, Database}
use payment_service.Postgres.Payments.{row_of, scan_payment, updated_row}
use payment_service.Postgres.Events

status_of-text : (s : Status) → status_is_valid s ≡ true → status_of (status_text s) ≡ s
unfolding status_of status_text status_is_valid string_discrete
status_of-text pending h = refl
status_of-text authorized h = refl
status_of-text completed h = refl
status_of-text failed h = refl
status_of-text refunded h = refl
status_of-text partially_refunded h = refl
status_of-text (unknown s) h = cc h

capture_method_of-text :
    (m : CaptureMethod)
    → capture_method_is_valid m ≡ true
    → capture_method_of (capture_method_text m) ≡ m
unfolding capture_method_of capture_method_text capture_method_is_valid string_discrete
capture_method_of-text automatic h = refl
capture_method_of-text manual h = refl
capture_method_of-text (other_method s) h = cc h

-- What the columns of time keep of a payment and of an event.
abbrev pub kept_payment : (Time → Time) → Payment → Payment
kept_payment keep p = record p { created_at = keep p.created_at }

abbrev pub kept_event : (Time → Time) → Event → Event
kept_event keep e = record e { created_at = keep e.created_at }

-- What is saved is what is read back, with the time that its column keeps.
pub scan_payment-row_of :
    (keep : Time → Time) (p : Payment)
    → IsKnown p
    → scan_payment (p.id, row_of keep p) ≡ kept_payment keep p
unfolding scan_payment row_of
scan_payment-row_of keep p (known, method) =
    ground (arith, status_of-text p.status known, capture_method_of-text p.capture_method method)

-- A row that is updated by a payment of the same order reads as that payment.
pub scan_payment-updated_row :
    (id : String) (row : PaymentRow) (q : Payment)
    → SameOrder (scan_payment (id, row)) q
    → status_is_valid q.status ≡ true
    → scan_payment (q.id, updated_row q row) ≡ q
unfolding scan_payment updated_row
scan_payment-updated_row id row q same known = ground (arith, status_of-text q.status known)

unfoldable pub payments_of : Dict PaymentRow → Dict Payment
payments_of [] = []
payments_of ((id, row) ∷ rows) = (id, scan_payment (id, row)) ∷ payments_of rows

abbrev pub read_at : String → Option PaymentRow → Option Payment
read_at id none = none
read_at id (some row) = some (scan_payment (id, row))

pub lookup-payments_of :
    (id : String) (rows : Dict PaymentRow)
    → lookup id (payments_of rows) ≡ read_at id (lookup id rows)
unfolding lookup payments_of
lookup-payments_of id [] = refl
lookup-payments_of id ((j, row) ∷ rows) = ground (arith, lookup-payments_of id rows)

pub insert-payments_of :
    (id : String) (row : PaymentRow) (rows : Dict PaymentRow)
    → payments_of (insert id row rows) ≡ insert id (scan_payment (id, row)) (payments_of rows)
unfolding insert payments_of
insert-payments_of id row [] = refl
insert-payments_of id row ((j, old) ∷ rows) = ground (arith, insert-payments_of id row rows)

pub erase-payments_of :
    (id : String) (rows : Dict PaymentRow)
    → payments_of (erase id rows) ≡ erase id (payments_of rows)
unfolding erase payments_of
erase-payments_of id [] = refl
erase-payments_of id ((j, row) ∷ rows) = ground (arith, erase-payments_of id rows)

pub erase_absent :
    (id : String) (rows : Dict PaymentRow) → lookup id rows ≡ none → erase id rows ≡ rows
unfolding erase lookup
erase_absent id [] h = refl
erase_absent id ((j, row) ∷ rows) h = ground (arith, erase_absent id rows)

-- A payment that is found under an id has it.
pub id_of_found :
    (id : String) (rows : Dict PaymentRow) (p : Payment)
    → lookup id (payments_of rows) ≡ some p
    → (row : PaymentRow) × (lookup id rows ≡ some row) × (p ≡ scan_payment (id, row)) × (p.id ≡ id)
unfolding scan_payment
id_of_found id rows p h = elim (Option-cases (lookup id rows)) [
  | inl missing ↦ absurd (ground (arith, missing, lookup-payments_of id rows))
  | inr (row, there) ↦ (
    row,
    there,
    ground (arith, there, lookup-payments_of id rows),
    ground (arith, there, lookup-payments_of id rows),
  )
]

-- A row of the outbox as the event that it holds, with its publication.
abbrev pub event_of : String → OutboxRow → Event
event_of id row = record {
  id = id;
  aggregate_id = row.aggregate_id;
  type = row.event_type;
  payload = row.payload;
  created_at = row.created_at;
  published_at = row.published_at;
}

unfoldable pub events_of : Dict OutboxRow → List Event
events_of [] = []
events_of ((id, row) ∷ rows) = event_of id row ∷ events_of rows

pub insert-events_of :
    (keep : Time → Time) (e : Event) (rows : Dict OutboxRow)
    → lookup e.id rows ≡ none
    → e.published_at ≡ none
    → events_of (insert e.id (Events.row_of keep e) rows)
      ≡ events_of rows ++ (kept_event keep e ∷ [])
unfolding insert lookup events_of Events.row_of
insert-events_of keep e [] absent new = ground arith
insert-events_of keep e ((j, old) ∷ rows) absent new = ground (arith, insert-events_of keep e rows)

-- To stamp a row that is there is what MarkPublished does in memory.
pub mark-events_of :
    (id : String) (now : Time) (rows : Dict OutboxRow) (row : OutboxRow)
    → lookup id rows ≡ some row
    → events_of (insert id (record row { published_at = some now }) rows)
      ≡ Memory.mark_published id now (events_of rows)
unfolding insert lookup events_of Memory.mark_published
mark-events_of id now [] row stored = cc stored
mark-events_of id now ((j, old) ∷ rows) row stored = ground (arith, mark-events_of id now rows row)

abbrev pub tables_of : Database → Tables
tables_of d = record { payments = payments_of d.payments; events = events_of d.outbox_events }
