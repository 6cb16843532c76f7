-- ===== src/Postgres/Logs.antt =====
-- internal/infrastructure/persistence/postgres: audit_repository.go and notification_repository.go.
use payment_service.Base.{
  ℕ, ◌≡◌, refl, inl, inr, String, Option, none, some, List, M, Result, ok, ◌>>=◌, pure, wrap_error,
  arith, Option-cases, Result-cases, str_eq, if◌then◌else◌,
}
use payment_service.Base.Dict.{lookup, insert, lookup-insert}
use payment_service.Payment.{Time}
use payment_service.Audit.{AuditEntry, append_entry}
use payment_service.Notification.{Notification, Status, pending, sent, failed}
use payment_service.Postgres.{NotificationRow, Database, Command, Executor, ExecutorLaws}
use payment_service.Postgres.Agreement.{OrWrapped}

-- An entry with the time that its column keeps.
abbrev pub kept_entry : (Time → Time) → AuditEntry → AuditEntry
kept_entry keep e = record e { recorded_at = keep e.recorded_at }

-- INSERT INTO audit_logs … ON CONFLICT (id) DO NOTHING
unfoldable pub insert_entry : (Time → Time) → AuditEntry → Command
insert_entry keep e d = elim (lookup e.id d.audit_logs) [
  | some old ↦ some (0, d)
  | none ↦ some (1, record d { audit_logs = insert e.id (kept_entry keep e) d.audit_logs })
]

-- nullString of webhook_delivery_repository.go
unfoldable pub null_string : String → Option String
null_string s = if str_eq s "" then none else some s

-- string(n.Status)
unfoldable pub status_text : Status → String
status_text pending = "pending"
status_text sent = "sent"
status_text failed = "failed"

unfoldable pub notification_row : (Time → Time) → Notification → NotificationRow
notification_row keep n = record {
  payment_id = n.payment_id;
  event_type = n.event_type;
  channel = n.channel;
  recipient = n.recipient;
  message_text = n.message_text;
  status = status_text n.status;
  last_error = null_string n.last_error;
  created_at = keep n.created_at;
  updated_at = keep n.updated_at;
}

-- SET status, last_error and updated_at, from EXCLUDED.
abbrev pub merged : Option NotificationRow → NotificationRow → NotificationRow
merged none new = new
merged (some old) new = record old {
  status = new.status;
  last_error = new.last_error;
  updated_at = new.updated_at;
}

-- INSERT INTO notifications … ON CONFLICT (id) DO UPDATE
unfoldable pub upsert_notification : (Time → Time) → Notification → Command
upsert_notification keep n d = some (
  1,
  record d {
    notifications =
        insert n.id (merged (lookup n.id d.notifications) (notification_row keep n))
          d.notifications;
  },
)

module _ {W : Type 0} (db : Executor W) where
  -- AuditRepository.Append
  unfoldable pub append : AuditEntry → M W (Unit {0})
  append e = do
    n ← wrap_error "append audit entry" (db.exec (insert_entry db.timestamptz e))
    pure tt

  -- NotificationRepository.Save
  unfoldable pub save_notification : Notification → M W (Unit {0})
  save_notification n = do
    rows ← wrap_error "save notification" (db.exec (upsert_notification db.timestamptz n))
    pure tt

-- A command whose count is dropped: it failed, or ran and did as it says.
pub dropped :
    {W : Type 0} (text : String) (view : W → Database) (db : Executor W) (L : ExecutorLaws view db)
    (c : Command) (w : W) (P : Database → Type 0)
    → ((n : ℕ) (d : Database) → c (view w) ≡ some (n, d) → P d)
    → let out : Result (Unit {0}) × W = (do n ← wrap_error text (db.exec c); pure tt) w in
      OrWrapped text out.0 ((out.0 ≡ ok tt) × P (view out.1))
dropped text view db L c w P h = elim (Result-cases (db.exec c w).0) [
  | inl (e, bad) ↦ inl (e, rw bad refl)
  | inr (n, ran) ↦ inr (rw ran (refl, h n (view (db.exec c w).1) (L.exec-runs c w n ran)))
]

appended :
    (keep : Time → Time) (e : AuditEntry) (order : List String) (d : Database) (n : ℕ)
    (d' : Database)
    → insert_entry keep e d ≡ some (n, d')
    → d'.audit_logs
      ≡ (append_entry
          (kept_entry keep e)
          (record { entries = d.audit_logs; order = order })).1.entries
unfolding insert_entry append_entry
appended keep e order d n d' ran = elim (Option-cases (lookup e.id d.audit_logs)) [
  | inl new ↦ ground (arith, new)
  | inr (old, there) ↦ ground (arith, there)
]

upserted :
    (keep : Time → Time) (n : Notification) (d : Database) (rows : ℕ) (d' : Database)
    → upsert_notification keep n d ≡ some (rows, d')
    → (id : String)
    → lookup id d'.notifications ≡ (
        if str_eq n.id id
        then some (merged (lookup n.id d.notifications) (notification_row keep n))
        else lookup id d.notifications)
unfolding upsert_notification
upserted keep n d rows d' ran id = ground (
  arith,
  lookup-insert id n.id (merged (lookup n.id d.notifications) (notification_row keep n))
      d.notifications,
)

module _ {W : Type 0} (view : W → Database) (db : Executor W) (L : ExecutorLaws view db) where
  -- Append to the audit trail in PostgreSQL, over a driver that keeps its documented laws, fails with
  -- the driver's error, or succeeds and leaves the entries exactly as the trail in memory does: an
  -- entry whose id is there is not touched, and another one is added, with the time that its column keeps.
  pub append-memory :
      (e : AuditEntry) (order : List String) (w : W)
      → let out = append db e w in
        OrWrapped "append audit entry" out.0 (
          (out.0 ≡ ok tt)
          × ((view out.1).audit_logs
              ≡ (append_entry
                  (kept_entry db.timestamptz e)
                  (record { entries = (view w).audit_logs; order = order })).1.entries))
  unfolding append
  append-memory e order w =
      dropped "append audit entry" view db L (insert_entry db.timestamptz e) w
        (λ d.
          d.audit_logs
          ≡ (append_entry (kept_entry db.timestamptz e)
              (record { entries = (view w).audit_logs; order = order })).1.entries)
        (appended db.timestamptz e order (view w))

  -- Save of a notification in PostgreSQL, over a driver that keeps its documented laws, fails with the
  -- driver's error; or it succeeds, no other notification is touched, and the one with its id is the
  -- new one if there was none, and else the old one with the status, the last error and the time of
  -- the update of the new one, times as their columns keep them.
  pub save_notification-merged :
      (n : Notification) (id : String) (w : W)
      → let out = save_notification db n w in
        OrWrapped "save notification" out.0 (
          (out.0 ≡ ok tt)
          × (lookup id (view out.1).notifications ≡ (
              if str_eq n.id id
              then some
                  (merged (lookup n.id (view w).notifications) (notification_row db.timestamptz n))
              else lookup id (view w).notifications)))
  unfolding save_notification
  save_notification-merged n id w =
      dropped "save notification" view db L (upsert_notification db.timestamptz n) w
        (λ d. lookup id d.notifications ≡ (
          if str_eq n.id id
          then some
              (merged (lookup n.id (view w).notifications) (notification_row db.timestamptz n))
          else lookup id (view w).notifications))
        (λ rows d ran. upserted db.timestamptz n (view w) rows d ran id)
