-- ===== src/Audit.antt =====
-- The audit trail: internal/domain/audit/entry.go, internal/application/audit/record.go and
-- internal/infrastructure/persistence/memory/audit_repository.go.
pub mod Trail
use payment_service.Base.{
  Bool, String, Option, none, some, List, [], ◌∷◌, ◌++◌, M, ok, err, pure, wrap_error, str_eq,
  if◌then◌else◌,
}
use payment_service.Base.Dict.{Dict, lookup, insert}
use payment_service.Payment.{Time}
use payment_service.Json.{Body, json_error, unmarshal_id}

pub record AuditEntry : Type 0 where
  pub id : String
  pub aggregate_type : String
  pub aggregate_id : String
  pub event_type : String
  pub payload : Body
  pub recorded_at : Time

abbrev pub aggregate_payment : String
aggregate_payment = "payment"

-- NewAuditEntry
unfoldable pub new_audit_entry : String → String → String → String → Body → Time → AuditEntry
new_audit_entry id aggregate_type aggregate_id event_type payload now = record {
  id = id;
  aggregate_type = aggregate_type;
  aggregate_id = aggregate_id;
  event_type = event_type;
  payload = payload;
  recorded_at = now;
}

-- The hexadecimal SHA-256 of an event type, a colon and a body.
abbrev pub Digest : Type 0
Digest = String → Body → String

-- auditID
unfoldable pub audit_id : Digest → String → String → Body → String
audit_id digest event_id event_type payload =
    if str_eq event_id "" then digest event_type payload else event_id

module _ {W : Type 0} (digest : Digest) (append : AuditEntry → M W (Unit {0})) where
  -- RecordAudit.Execute, at the time `now`.
  unfoldable pub execute : String → String → Body → Time → M W (Unit {0})
  unfolding audit_id new_audit_entry
  execute event_id event_type payload now w =
      let ref = unmarshal_id payload in
      if ref.1
      then wrap_error "append audit entry"
          (append (
            new_audit_entry (audit_id digest event_id event_type payload) aggregate_payment ref.0
              event_type payload now))
          w
      else wrap_error "unmarshal audit event" (λ w. (err json_error, w)) w

-- memory.AuditRepository
pub record AuditRepository : Type 0 where
  pub entries : Dict AuditEntry
  pub order : List String

-- AuditRepository.Append
unfoldable pub append_entry : AuditEntry → M AuditRepository (Unit {0})
unfolding lookup insert
append_entry entry r = elim (lookup entry.id r.entries) [
  | some _ ↦ (ok tt, r)
  | none ↦ (
    ok tt,
    record { entries = insert entry.id entry r.entries; order = r.order ++ (entry.id ∷ []) },
  )
]

abbrev all_from : Dict AuditEntry → List String → List (Option AuditEntry)
all_from entries [] = []
all_from entries (id ∷ order) = lookup id entries ∷ all_from entries order

-- AuditRepository.All: Go's nil for an id without an entry is `none`.
unfoldable pub all : AuditRepository → List (Option AuditEntry)
unfolding lookup
all r = all_from r.entries r.order
