-- ===== src/Outbox/Memory.antt =====
-- internal/infrastructure/persistence/memory/outbox_repository.go: the events in the order in which
-- they were added. The mutex makes each method one step.
use payment_service.Base.{
  ℕ, ◌≤◌, ◌≡◌, refl, ◌≢◌, inl, inr, Bool-cases, Bool, true, false, String, none, some, List, [],
  ◌∷◌, ◌++◌, take, All, Option, collect, select_all, collect-eq-take, ap, ◌∙◌, str_eq,
  if◌then◌else◌, arith,
}
use payment_service.Payment.{Time}
use payment_service.Outbox.{Event}

abbrev pub is_published : Event → Bool
is_published e = elim e.published_at [ none ↦ false | some t ↦ true ]

-- Add
unfoldable pub add : Event → List Event → List Event
add e events = events ++ (e ∷ [])

abbrev unpublished : Event → Option Event
unpublished e = if is_published e then none else some e

-- FetchUnpublished, for a limit that is not negative.
unfoldable pub fetch_unpublished : ℕ → List Event → List Event
unfolding collect
fetch_unpublished limit events = collect unpublished limit events

-- MarkPublished: the first event with the id; an unknown id is ignored.
unfoldable pub mark_published : String → Time → List Event → List Event
mark_published id now [] = []
mark_published id now (e ∷ events) =
    if str_eq e.id id
    then record e { published_at = some now } ∷ events
    else e ∷ mark_published id now events

-- The specification: the events still to be published, oldest first.
abbrev pub pending : List Event → List Event
pending [] = []
pending (e ∷ events) = if is_published e then pending events else e ∷ pending events

pending-eq-select_all : (events : List Event) → select_all unpublished events ≡ pending events
pending-eq-select_all [] = refl
pending-eq-select_all (e ∷ events) = ground (arith, pending-eq-select_all events)

-- A limit from 1 on takes the oldest pending events.
pub fetch_unpublished-eq-take :
    (limit : ℕ) (events : List Event)
    → 1 ≤ limit
    → fetch_unpublished limit events ≡ take limit (pending events)
unfolding fetch_unpublished
fetch_unpublished-eq-take limit events h =
    collect-eq-take unpublished limit events h ∙ ap (take limit) (pending-eq-select_all events)

-- The ids are uuids, hence distinct.
abbrev pub Fresh : String → List Event → Type 0
Fresh id = All (λ e. e.id ≢ id)

abbrev pub DistinctIds : List Event → Type 0
DistinctIds [] = Unit {0}
DistinctIds (e ∷ events) = Fresh e.id events × DistinctIds events

pending-Fresh :
    (id : String) (events : List Event) (e : Event) (rest : List Event)
    → pending events ≡ e ∷ rest
    → Fresh id events
    → e.id ≢ id
pending-Fresh id [] e rest h f = cc h
pending-Fresh id (x ∷ events) e rest h f = elim (Bool-cases (is_published x)) [
  | inl old ↦ pending-Fresh id events e rest (rw old at h) f.1
  | inr due ↦ ground (arith, f.0)
]

-- To mark the oldest pending event takes it off the pending ones and touches no other.
pub pending-mark_published :
    (now : Time) (events : List Event) (e : Event) (rest : List Event)
    → DistinctIds events
    → pending events ≡ e ∷ rest
    → pending (mark_published e.id now events) ≡ rest
unfolding mark_published
pending-mark_published now [] e rest d h = cc h
pending-mark_published now (x ∷ events) e rest d h = elim (Bool-cases (is_published x)) [
  | inl old ↦ ground (
    arith,
    old,
    pending-Fresh x.id events e rest (rw old at h) d.0,
    pending-mark_published now events e rest d.1 (rw old at h),
  )
  | inr due ↦ ground (arith, due)
]

mark_published-Fresh :
    (id other : String) (now : Time) (events : List Event)
    → Fresh other events
    → Fresh other (mark_published id now events)
unfolding mark_published
mark_published-Fresh id other now [] f = tt
mark_published-Fresh id other now (x ∷ events) f =
    ground (arith, mark_published-Fresh id other now events f.1)

pub mark_published-DistinctIds :
    (id : String) (now : Time) (events : List Event)
    → DistinctIds events
    → DistinctIds (mark_published id now events)
unfolding mark_published
mark_published-DistinctIds id now [] d = tt
mark_published-DistinctIds id now (x ∷ events) d = ground (
  arith,
  mark_published-Fresh id x.id now events d.0,
  mark_published-DistinctIds id now events d.1,
)
