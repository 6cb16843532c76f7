-- ===== src/Outbox/Relay/Delivery.antt =====
-- Delivery by the relay of internal/application/outbox/relay.go, over the outbox in memory and any
-- broker.
use mathlib.Core.List.{append-nil, append_assoc, map-append}
use mathlib.Core.Path.{subst, ap₂}
use payment_service.Base.{
  ℕ, zero, suc, ◌*◌, ◌≤◌, ◌≡◌, refl, ap, sym, ◌∙◌, ◌⊎◌, inl, inr, String, List, [], ◌∷◌, ◌++◌, map,
  take, drop, length, take-append-drop, length-drop, nil_of_length, Result, Error, ok, err, arith,
}
use payment_service.Payment.{Time}
use payment_service.Json.{Body}
use payment_service.Outbox.{Event, Repository, Publisher}
use payment_service.Outbox.Memory
use payment_service.Outbox.Memory.{
  pending, DistinctIds, fetch_unpublished-eq-take, pending-mark_published,
  mark_published-DistinctIds,
}
use payment_service.Outbox.Relay.{send_all, dispatch, ticks}

pair_path {ℓ κ} :
    {A : Type ℓ} {B : Type κ} (x : A × B) {a : A} {b : B} → x.0 ≡ a → x.1 ≡ b → x ≡ (a, b)
pair_path x p q = λ i. (p i, q i)

-- What the broker was given.
pub record Message : Type 0 where
  pub routing_key : String
  pub message_id : String
  pub body : Body

abbrev pub message_of : Event → Message
message_of e = record { routing_key = e.type; message_id = e.id; body = e.payload }

pub record Station : Type 0 where
  pub events : List Event
  pub sent : List Message

-- The repository in memory, when its clock shows `now`.
abbrev pub outbox_at : Time → Repository Station
outbox_at now = record {
  add = λ e s. (ok tt, record s { events = Memory.add e s.events });
  fetch_unpublished = λ limit s. (ok (Memory.fetch_unpublished limit s.events), s);
  mark_published = λ id s. (ok tt, record s { events = Memory.mark_published id now s.events });
}

-- A broker that leaves the outbox alone. If it reports success it has taken the message; if it
-- reports an error it may have taken it as well.
abbrev pub PublisherLaws : Publisher Station → Type 0
PublisherLaws publish =
    (e : Event) (s : Station)
    → let out = publish e.type e.id e.payload s in
      ((out.0 ≡ ok tt) × (out.1 ≡ record s { sent = s.sent ++ (message_of e ∷ []) }))
      ⊎ ((reason : Error) × (out.0 ≡ err reason)
          × ((out.1 ≡ s) ⊎ (out.1 ≡ record s { sent = s.sent ++ (message_of e ∷ []) })))

-- A run that was given `batch`, with `rest` pending behind it: it sent the events of `done` in order
-- and marked them, and stopped with an error at the first of `left`, if there is one. That event
-- may have been sent too, and it stays pending.
abbrev pub Sent : List Event → List Event → Station → Result (Unit {0}) × Station → Type 0
Sent batch rest s (r, s') =
    (done : List Event) × (left : List Event) × (extra : List Message) × (batch ≡ done ++ left)
    × (pending s'.events ≡ left ++ rest)
    × (s'.sent ≡ s.sent ++ (map message_of done ++ extra))
    × DistinctIds s'.events
    × (((r ≡ ok tt) × (left ≡ []) × (extra ≡ []))
        ⊎ ((reason : Error) × (next : Event) × (later : List Event) × (r ≡ err reason)
            × (left ≡ next ∷ later)
            × ((extra ≡ []) ⊎ (extra ≡ message_of next ∷ []))))

Sent-cons :
    (e : Event) (batch rest : List Event) (s s' : Station) (x : Result (Unit {0}) × Station)
    → s'.sent ≡ s.sent ++ (message_of e ∷ [])
    → Sent batch rest s' x
    → Sent (e ∷ batch) rest s x
Sent-cons e batch rest s s' x sent (done, left, extra, parts, still, all, distinct, end) = (
  e ∷ done,
  left,
  extra,
  ap (◌∷◌ e) parts,
  still,
  all
      ∙ ap (λ l. l ++ (map message_of done ++ extra)) sent
      ∙ append_assoc s.sent (message_of e ∷ []) (map message_of done ++ extra),
  distinct,
  end,
)

-- An event that could not be sent.
Sent-stop :
    (e : Event) (batch rest : List Event) (s s' : Station) (reason : Error)
    → DistinctIds s.events
    → pending s.events ≡ e ∷ (batch ++ rest)
    → (s' ≡ s) ⊎ (s' ≡ record s { sent = s.sent ++ (message_of e ∷ []) })
    → Sent (e ∷ batch) rest s (err reason, s')
Sent-stop e batch rest s s' reason d h (inl same) = (
  [],
  e ∷ batch,
  [],
  refl,
  ap (λ t. pending t.events) same ∙ h,
  ap (λ t. t.sent) same ∙ sym (append-nil s.sent),
  subst (λ t. DistinctIds t.events) (sym same) d,
  inr (reason, e, batch, refl, refl, inl refl),
)
Sent-stop e batch rest s s' reason d h (inr lost) = (
  [],
  e ∷ batch,
  message_of e ∷ [],
  refl,
  ap (λ t. pending t.events) lost ∙ h,
  ap (λ t. t.sent) lost,
  subst (λ t. DistinctIds t.events) (sym lost) d,
  inr (reason, e, batch, refl, refl, inr refl),
)

Sent-accepted :
    (batch rest : List Event) (s : Station) (x : Result (Unit {0}) × Station)
    → x.0 ≡ ok tt
    → Sent batch rest s x
    → DistinctIds x.1.events
      × (pending x.1.events ≡ rest)
      × (x.1.sent ≡ s.sent ++ map message_of batch)
Sent-accepted batch rest s x fine
      (done, left, extra, parts, still, all, d, inl (_, none_left, exact)) =
    (
      d,
      still ∙ ap (λ l. l ++ rest) none_left,
      all
          ∙ ap (◌++◌ s.sent) (
              ap (◌++◌ (map message_of done)) exact
              ∙ append-nil (map message_of done)
              ∙ ap (map message_of)
                  (sym (append-nil done) ∙ ap (◌++◌ done) (sym none_left) ∙ sym parts)),
    )
Sent-accepted batch rest s x fine
      (done, left, extra, parts, still, all, d, inr (_, _, _, failed, _, _)) =
    cc (fine, failed)

module _ (publish : Publisher Station) (P : PublisherLaws publish) (now : Time) where
  send_all-Sent :
      (batch rest : List Event) (s : Station)
      → DistinctIds s.events
      → pending s.events ≡ batch ++ rest
      → Sent batch rest s (send_all (outbox_at now) publish batch s)
  unfolding send_all
  send_all-Sent [] rest s d h =
      ([], [], [], refl, h, sym (append-nil s.sent), d, inl (refl, refl, refl))
  send_all-Sent (e ∷ batch) rest s d h = elim (P e s) [
    | inl (done, taken) ↦
        let s' : Station = record {
          events = Memory.mark_published e.id now s.events;
          sent = s.sent ++ (message_of e ∷ []);
        } in
        let out = pair_path (publish e.type e.id e.payload s) done taken in
        rw (out, send_all)
          (Sent-cons e batch rest s s' (send_all (outbox_at now) publish batch s') refl (
            send_all-Sent batch rest s' (mark_published-DistinctIds e.id now s.events d)
              (pending-mark_published now s.events e (batch ++ rest) d h)))
    | inr (reason, failed, either) ↦
        let out = pair_path (publish e.type e.id e.payload s) failed refl in
        rw (out, send_all) (Sent-stop e batch rest s _ _ d h either)
  ]

  -- One dispatch of the relay over the outbox in memory, with a batch size from 1 on, event ids
  -- that differ, and a broker that takes the message whenever it reports success: it works on the
  -- oldest pending events, sends and marks a prefix of them in order, and stops with an error at
  -- the first that could not be sent, which may have reached the broker once and stays pending, as
  -- do all behind it.
  pub dispatch-Sent :
      (batch_size : ℕ) (s : Station)
      → 1 ≤ batch_size
      → DistinctIds s.events
      → Sent
          (take batch_size (pending s.events))
          (drop batch_size (pending s.events))
          s
          (dispatch (outbox_at now) publish batch_size s)
  unfolding dispatch
  dispatch-Sent batch_size s h d = rw (fetch_unpublished-eq-take batch_size s.events h) (
      send_all-Sent (take batch_size (pending s.events)) (drop batch_size (pending s.events)) s d
        (sym (take-append-drop batch_size (pending s.events))))

  abbrev pub Accepts : Publisher Station → Type 0
  Accepts broker = (e : Event) (s : Station) → (broker e.type e.id e.payload s).0 ≡ ok tt

  send_all_accepted :
      Accepts publish
      → (batch : List Event) (s : Station) → (send_all (outbox_at now) publish batch s).0 ≡ ok tt
  unfolding send_all
  send_all_accepted accepts [] s = refl
  send_all_accepted accepts (e ∷ batch) s =
      rw (pair_path (publish e.type e.id e.payload s) (accepts e s) refl, send_all)
        (send_all_accepted accepts batch _)

  -- A tick while the broker accepts: the whole batch is gone.
  dispatch_accepted :
      Accepts publish
      → (batch_size : ℕ) (s : Station) → 1 ≤ batch_size
      → DistinctIds s.events
      → let s' = (dispatch (outbox_at now) publish batch_size s).1 in
        DistinctIds s'.events
        × (pending s'.events ≡ drop batch_size (pending s.events))
        × (s'.sent ≡ s.sent ++ map message_of (take batch_size (pending s.events)))
  unfolding dispatch
  dispatch_accepted accepts batch_size s h d =
      Sent-accepted (take batch_size (pending s.events)) (drop batch_size (pending s.events)) s
        (dispatch (outbox_at now) publish batch_size s)
        (send_all_accepted accepts (Memory.fetch_unpublished batch_size s.events) s)
        (dispatch-Sent batch_size s h d)

  -- With a broker that accepts every message, a batch size from 1 on and event ids that differ, n
  -- ticks of the relay, where n batches hold all pending events, leave nothing pending and have
  -- sent each pending event once, in order.
  pub ticks_drain :
      Accepts publish
      → (batch_size : ℕ) → 1 ≤ batch_size
      → (n : ℕ) (s : Station) → DistinctIds s.events
      → length (pending s.events) ≤ n * batch_size
      → let s' = ticks (outbox_at now) publish batch_size n s in
        (pending s'.events ≡ []) × (s'.sent ≡ s.sent ++ map message_of (pending s.events))
  unfolding ticks
  ticks_drain accepts batch_size h zero s d enough =
      let none_left = nil_of_length (pending s.events) (omega arith) in
      (none_left, rw none_left (sym (append-nil s.sent)))
  ticks_drain accepts batch_size h (suc n) s d enough =
      let s' = (dispatch (outbox_at now) publish batch_size s).1 in
      let due = pending s.events in
      let (distinct, still, sent) = dispatch_accepted accepts batch_size s h d in
      let (drained, all) =
        ticks_drain accepts batch_size h n s' distinct
          (omega (arith, ap length still, length-drop batch_size due)) in
      (
        drained,
        all
            ∙ ap₂ (λ a b. a ++ map message_of b) sent still
            ∙ append_assoc s.sent (map message_of (take batch_size due))
                (map message_of (drop batch_size due))
            ∙ ap (◌++◌ s.sent) (
                sym (map-append message_of (take batch_size due) (drop batch_size due))
                ∙ ap (map message_of) (take-append-drop batch_size due)),
      )
