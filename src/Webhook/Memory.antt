-- ===== src/Webhook/Memory.antt =====
-- internal/infrastructure/persistence/memory/webhook_repository.go. Go walks a map in no fixed
-- order; the model walks the entries as they are listed.
use payment_service.Base.{
  ℕ, Bool, true, false, not, ◌&&◌, ◌||◌, String, ◌<>◌, Option, none, some, List, [], ◌∷◌, ◌++◌,
  str_eq, if◌then◌else◌, collect, ◌≡◌, arith, All, take, select_all, collect-eq-take, collect-All,
  inl, inr, Bool-cases, Option-cases, ◌≤◌,
}
use payment_service.Base.Int.{eqb_ℤ, ltb_ℤ, ◌≤ℤ◌}
use payment_service.Base.Dict.{Dict, insert}
use payment_service.Payment.{Time}
use payment_service.Webhook.{
  Subscription, Delivery, DeliveryStatus, failed, RetriableDelivery, zero_time,
}

-- WebhookSubscriptionRepository.Save
unfoldable pub save_subscription : Subscription → List Subscription → List Subscription
save_subscription sub subs = subs ++ (sub ∷ [])

-- WebhookSubscriptionRepository.FindAll
unfoldable pub find_all : List Subscription → List Subscription
find_all subs = subs

-- FindActiveByEventType
unfoldable pub find_active_by_event_type : String → List Subscription → List Subscription
find_active_by_event_type event_type [] = []
find_active_by_event_type event_type (s ∷ subs) =
    let rest = find_active_by_event_type event_type subs in
    if s.active && str_eq s.event_type event_type then s ∷ rest else rest

-- findActiveByID
unfoldable pub find_active_by_id : String → List Subscription → Option Subscription
find_active_by_id id [] = none
find_active_by_id id (s ∷ subs) =
    if str_eq s.id id && s.active then some s else find_active_by_id id subs

abbrev pub delivery_key : Delivery → String
delivery_key d = d.subscription_id <> ":" <> d.event_id

-- WebhookDeliveryRepository.Save
unfoldable pub save_delivery : Delivery → Dict Delivery → Dict Delivery
save_delivery d deliveries = insert (delivery_key d) d deliveries

-- WebhookDeliveryRepository.All, in the order of the entries.
unfoldable pub all_deliveries : Dict Delivery → List Delivery
all_deliveries [] = []
all_deliveries ((key, d) ∷ deliveries) = d ∷ all_deliveries deliveries

abbrev is_failed : DeliveryStatus → Bool
is_failed failed = true
is_failed _ = false

-- The test at the head of the loop of FetchRetriable, negated.
abbrev pub is_due : Time → Delivery → Bool
is_due now d =
    not
      (not (is_failed d.status) || eqb_ℤ d.next_attempt_at zero_time || ltb_ℤ now d.next_attempt_at)

abbrev joined : Delivery → Option Subscription → Option RetriableDelivery
joined d none = none
joined d (some sub) = some (record { delivery = d; url = sub.url; secret = sub.secret })

-- What the loop of FetchRetriable collects for an entry.
abbrev pub retriable : Time → List Subscription → String × Delivery → Option RetriableDelivery
retriable now subs (key, d) =
    if is_due now d then joined d (find_active_by_id d.subscription_id subs) else none

-- FetchRetriable, for a limit that is not negative.
unfoldable pub fetch_retriable :
    ℕ → Time → List Subscription → Dict Delivery → List RetriableDelivery
unfolding collect find_active_by_id
fetch_retriable limit now subs deliveries = collect (retriable now subs) limit deliveries

-- What may be sent again at the time `now`: an entry that failed and is due, under the address and the
-- secret of its subscription, which is active.
abbrev pub ReadyFor : Time → RetriableDelivery → Subscription → Type 0
ReadyFor now r sub =
    (sub.active ≡ true)
    × (sub.id ≡ r.delivery.subscription_id)
    × (r.url ≡ sub.url)
    × (r.secret ≡ sub.secret)
    × (r.delivery.status ≡ failed)
    × (r.delivery.next_attempt_at ≤ℤ now)

abbrev pub Ready : Time → RetriableDelivery → Type 0
Ready now r = (sub : Subscription) × ReadyFor now r sub

find_active_by_id_sound :
    (id : String) (subs : List Subscription) (sub : Subscription)
    → find_active_by_id id subs ≡ some sub
    → (sub.active ≡ true) × (sub.id ≡ id)
unfolding find_active_by_id
find_active_by_id_sound id [] sub h = cc h
find_active_by_id_sound id (s ∷ subs) sub h = ground (arith, find_active_by_id_sound id subs sub)

is_due_sound :
    (now : Time) (d : Delivery)
    → is_due now d ≡ true
    → (d.status ≡ failed) × (d.next_attempt_at ≤ℤ now)
is_due_sound now d h = ground arith

retriable-Ready :
    (now : Time) (subs : List Subscription) (entry : String × Delivery) (r : RetriableDelivery)
    → retriable now subs entry ≡ some r
    → Ready now r
retriable-Ready now subs (key, d) r h = elim (Bool-cases (is_due now d)) [
  | inr late ↦ absurd (ground (arith, late))
  | inl due ↦ elim (Option-cases (find_active_by_id d.subscription_id subs)) [
    | inl missing ↦ absurd (ground (arith, due, missing))
    | inr (sub, found) ↦ (
      sub,
      ground (
        arith,
        due,
        found,
        is_due_sound now d due,
        find_active_by_id_sound d.subscription_id subs sub found,
      ),
    )
  ]
]

-- With a limit from 1 on, the deliveries that are fetched for a retry are the first of those that
-- can be retried, up to the limit, and each of them failed, is due, and goes out under the address
-- and the secret of its subscription, which is active.
pub fetch_retriable-Ready :
    (limit : ℕ) (now : Time) (subs : List Subscription) (deliveries : Dict Delivery)
    → 1 ≤ limit
    → (fetch_retriable limit now subs deliveries
        ≡ take limit (select_all (retriable now subs) deliveries))
      × All (Ready now) (fetch_retriable limit now subs deliveries)
unfolding fetch_retriable
fetch_retriable-Ready limit now subs deliveries h = (
  collect-eq-take (retriable now subs) limit deliveries h,
  collect-All (retriable now subs) limit deliveries (retriable-Ready now subs),
)
