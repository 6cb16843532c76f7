-- ===== src/Postgres/Relayed.antt =====
-- The relay of internal/application/outbox/relay.go over
-- internal/infrastructure/persistence/postgres/outbox_repository.go, as cmd/outbox wires them.
use mathlib.Core.List.{append-nil, append_assoc}
use mathlib.Core.Path.{subst, ap₂}
use payment_service.Base.{
  ℕ, ◌≤◌, ◌≡◌, refl, ap, sym, ◌∙◌, inl, inr, String, ◌<>◌, Option, List, [], ◌∷◌, ◌++◌, map, take,
  drop, take-append-drop, Result, ok, err, false, after_call, add_text, lift, other, ◌==◌,
  if◌then◌else◌,
}
use payment_service.Payment.{Time}
use payment_service.Outbox.{Event, Repository, Publisher}
use payment_service.Outbox.Memory as OutboxMemory
use payment_service.Outbox.Memory.{
  pending, DistinctIds, fetch_unpublished-eq-take, pending-mark_published,
  mark_published-DistinctIds,
}
use payment_service.Outbox.Relay.{send_all, dispatch}
use payment_service.Outbox.Relay.Delivery.{Message, message_of}
use payment_service.Postgres.{
  Database, OutboxRow, read_rows, Command, Query, Executor, ExecutorLaws, Operators, Rows,
}
use payment_service.Postgres.Events
use payment_service.Postgres.Tables.{tables_of}
use payment_service.Postgres.Refinement.{wrapped-ok}
use payment_service.Postgres.Backlog.{mark_published-memory, fetch_unpublished-memory}

-- The calls of the driver send nothing, and the broker leaves the tables alone and has taken a message
-- if it reports success.
pub record RelayLaws {W : Type 0} (view : W → Database) (log : W → List Message) (pool : Executor W)
    (publish : Publisher W) : Type 1 where
  pub exec-quiet : (c : Command) (w : W) → log (pool.exec c w).1 ≡ log w
  pub query-quiet : {R : Type 0} (q : Query R) (w : W) → log (pool.query q w).1 ≡ log w
  pub publish-keeps : (e : Event) (w : W) → view (publish e.type e.id e.payload w).1 ≡ view w
  pub publish-sends :
      (e : Event) (w : W)
      → (publish e.type e.id e.payload w).0 ≡ ok tt
      → log (publish e.type e.id e.payload w).1 ≡ log w ++ (message_of e ∷ [])

module _ {W : Type 0} (view : W → Database) (log : W → List Message) (pool : Executor W)
    (publish : Publisher W) (L : ExecutorLaws view pool) (R : RelayLaws view log pool publish)
    (sql : Operators) (now : Time) {H : Type 0} (in_tx : H → Executor W) (ctx : Option H) where
  abbrev pub outbox : Repository W
  outbox = Events.repository sql now in_tx pool ctx

  abbrev pub events_at : W → List Event
  events_at w = (tables_of (view w)).events

  marked :
      (id : String) (w : W)
      → (Events.mark_published pool now id w).0 ≡ ok tt
      → events_at (Events.mark_published pool now id w).1
        ≡ OutboxMemory.mark_published id now (events_at w)
  marked id w done = elim (mark_published-memory view pool L sql id now w) [
    | inl (e, bad) ↦ cc (done, bad)
    | inr (_, same, _) ↦ same
  ]

  log_of_mark :
      (id : String) (x : Result ℕ × W)
      → log
          (after_call (add_text "mark published" x) λ n.
            lift (if n == 0 then err (other ("outbox event " <> id <> " not found")) else ok tt)).1
        ≡ log x.1
  log_of_mark id (ok n, w) = refl
  log_of_mark id (err e, w) = refl

  marked-quiet : (id : String) (w : W) → log (Events.mark_published pool now id w).1 ≡ log w
  unfolding Events.mark_published
  marked-quiet id w =
      log_of_mark id (pool.exec (Events.update_published id now) w)
      ∙ R.exec-quiet (Events.update_published id now) w

  send_all-sent :
      (batch rest : List Event) (w : W)
      → DistinctIds (events_at w)
      → pending (events_at w) ≡ batch ++ rest
      → (send_all outbox publish batch w).0 ≡ ok tt
      → let w' = (send_all outbox publish batch w).1 in
        (pending (events_at w') ≡ rest) × (log w' ≡ log w ++ map message_of batch)
  unfolding send_all Events.repository
  send_all-sent [] rest w distinct due done = (due, sym (append-nil (log w)))
  send_all-sent (e ∷ batch) rest w distinct due done =
      let (_, sent, to_mark) =
        wrapped-ok ("publish event " <> e.id) (publish e.type e.id e.payload w) _ tt done in
      let w1 = (publish e.type e.id e.payload w).1 in
      let done1 = sym (ap (λ out. out.0) to_mark) ∙ done in
      let (_, ran, to_rest) =
        wrapped-ok ("mark published " <> e.id) (Events.mark_published pool now e.id w1) _ tt
          done1 in
      let w2 = (Events.mark_published pool now e.id w1).1 in
      let stamped =
        marked e.id w1 ran
        ∙ ap (λ d. OutboxMemory.mark_published e.id now (tables_of d).events)
            (R.publish-keeps e w) in
      let taken = marked-quiet e.id w1 ∙ R.publish-sends e w sent in
      let (still, all) =
        send_all-sent batch rest w2
          (subst DistinctIds (sym stamped)
            (mark_published-DistinctIds e.id now (events_at w) distinct))
          (ap pending stamped
            ∙ pending-mark_published now (events_at w) e (batch ++ rest) distinct due)
          (sym (ap (λ out. out.0) to_rest) ∙ done1) in
      let whole = to_mark ∙ to_rest in
      (
        ap (λ out. pending (events_at out.1)) whole ∙ still,
        ap (λ out. log out.1) whole
            ∙ all
            ∙ ap (λ l. l ++ map message_of batch) taken
            ∙ append_assoc (log w) (message_of e ∷ []) (map message_of batch),
      )

  log_of_fetch :
      (x : Result (Rows (String × OutboxRow)) × W)
      → log
          (after_call (add_text "fetch unpublished" x) λ rows.
            lift (read_rows "scan outbox event" "iterate outbox events" Events.scan_event rows)).1
        ≡ log x.1
  log_of_fetch (ok rows, w) = refl
  log_of_fetch (err e, w) = refl

  fetched-quiet : (limit : ℕ) (w : W) → log (Events.fetch_unpublished sql pool limit w).1 ≡ log w
  unfolding Events.fetch_unpublished
  fetched-quiet limit w =
      log_of_fetch (pool.query (Events.select_unpublished sql limit) w)
      ∙ R.query-quiet (Events.select_unpublished sql limit) w

  -- What a fetch that succeeded answers.
  fetched :
      (limit : ℕ) (w : W) (es : List Event)
      → 1 ≤ limit
      → sql.order_by_time Events.created_at_of false (Events.unpublished (view w).outbox_events)
        ≡ Events.unpublished (view w).outbox_events
      → (Events.fetch_unpublished sql pool limit w).0 ≡ ok es
      → (view (Events.fetch_unpublished sql pool limit w).1 ≡ view w)
        × (es ≡ take limit (pending (events_at w)))
  fetched limit w es least ordered done =
      let (same, answer) = fetch_unpublished-memory view pool L sql limit w least ordered in
      elim answer [
        | inl (e, bad) ↦ cc (done, bad)
        | inr good ↦ (same, cc (done, good) ∙ fetch_unpublished-eq-take limit (events_at w) least)
      ]

  -- A dispatch of the relay that succeeds, over PostgreSQL with a driver that keeps its documented
  -- laws and sends nothing, a broker that leaves the tables alone and has taken a message if it
  -- reports success, a batch size from 1 on, events whose ids differ and pending rows whose order
  -- by creation is that in which they were added: the oldest pending events, up to the batch size,
  -- have each been sent once and in order, and exactly those that were behind them are still
  -- pending.
  pub dispatch_in_postgres :
      (batch_size : ℕ) (w : W)
      → 1 ≤ batch_size
      → DistinctIds (events_at w)
      → sql.order_by_time Events.created_at_of false (Events.unpublished (view w).outbox_events)
        ≡ Events.unpublished (view w).outbox_events
      → (dispatch outbox publish batch_size w).0 ≡ ok tt
      → let w' = (dispatch outbox publish batch_size w).1 in
        (pending (events_at w') ≡ drop batch_size (pending (events_at w)))
        × (log w' ≡ log w ++ map message_of (take batch_size (pending (events_at w))))
  unfolding dispatch Events.repository
  dispatch_in_postgres batch_size w least distinct ordered done =
      let due = pending (events_at w) in
      let (es, read, to_send) =
        wrapped-ok "fetch unpublished" (Events.fetch_unpublished sql pool batch_size w) _ tt done in
      let w1 = (Events.fetch_unpublished sql pool batch_size w).1 in
      let (same, oldest) = fetched batch_size w es least ordered read in
      let events_same = ap (λ d. (tables_of d).events) same in
      let (still, all) =
        send_all-sent es (drop batch_size due) w1 (subst DistinctIds (sym events_same) distinct)
          (ap pending events_same
            ∙ sym (take-append-drop batch_size due)
            ∙ ap (λ l. l ++ drop batch_size due) (sym oldest))
          (sym (ap (λ out. out.0) to_send) ∙ done) in
      (
        ap (λ out. pending (events_at out.1)) to_send ∙ still,
        ap (λ out. log out.1) to_send
            ∙ all
            ∙ ap₂ (λ l m. l ++ map message_of m) (fetched-quiet batch_size w) oldest,
      )
