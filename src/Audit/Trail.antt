-- ===== src/Audit/Trail.antt =====
-- RecordAudit.Execute of internal/application/audit/record.go, over the repository of
-- internal/infrastructure/persistence/memory/audit_repository.go.
use payment_service.Base.{
  add_text, Result, ◌≡◌, refl, ap, ◌∙◌, inl, inr, String, some, List, [], ◌∷◌, ok, err, true,
  Bool-cases, Option-cases, arith,
}
use payment_service.Base.Dict.{lookup, lookup-insert}
use payment_service.Payment.{Time}
use payment_service.Json.{Body, unmarshal_id}
use payment_service.Audit.{
  AuditEntry, AuditRepository, append_entry, Digest, audit_id, new_audit_entry, aggregate_payment,
  execute,
}

-- A message as the subscriber hands it over, with the time of its handling.
pub record Received : Type 0 where
  pub event_id : String
  pub event_type : String
  pub payload : Body
  pub now : Time

module _ (digest : Digest) where
  abbrev pub id_of : Received → String
  id_of m = audit_id digest m.event_id m.event_type m.payload

  abbrev pub handle : Received → AuditRepository → AuditRepository
  handle m r = (execute digest append_entry m.event_id m.event_type m.payload m.now r).1

  abbrev pub handle_all : List Received → AuditRepository → AuditRepository
  handle_all [] r = r
  handle_all (m ∷ ms) r = handle_all ms (handle m r)

append_entry-keeps :
    (e : AuditEntry) (r : AuditRepository) (id : String) (x : AuditEntry)
    → lookup id r.entries ≡ some x
    → lookup id (append_entry e r).1.entries ≡ some x
unfolding append_entry
append_entry-keeps e r id x h = ground (arith, lookup-insert id e.id e r.entries)

append_entry_again :
    (e : AuditEntry) (r : AuditRepository) (x : AuditEntry)
    → lookup e.id r.entries ≡ some x
    → append_entry e r ≡ (ok tt, r)
unfolding append_entry
append_entry_again e r x h = rw (append_entry, h) refl

append_entry_stored :
    (e : AuditEntry) (r : AuditRepository)
    → (x : AuditEntry) × (lookup e.id (append_entry e r).1.entries ≡ some x)
unfolding append_entry
append_entry_stored e r = elim (Option-cases (lookup e.id r.entries)) [
  | inl new ↦ (e, ground (arith, new, lookup-insert e.id e.id e r.entries))
  | inr (x, old) ↦ (x, ground (arith, old))
]

add_text-world : {W A : Type 0} (text : String) (x : Result A × W) → (add_text text x).1 ≡ x.1
add_text-world text (ok a, w) = refl
add_text-world text (err e, w) = refl

-- The entry of a message.
abbrev pub entry_of : Digest → Received → AuditEntry
entry_of digest m =
    new_audit_entry (id_of digest m) aggregate_payment (unmarshal_id m.payload).0 m.event_type
      m.payload m.now

handle-eq :
    (digest : Digest) (m : Received) (r : AuditRepository)
    → (unmarshal_id m.payload).1 ≡ true
    → handle digest m r ≡ (append_entry (entry_of digest m) r).1
unfolding execute
handle-eq digest m r good =
    rw (handle, execute, good) (add_text-world _ (append_entry (entry_of digest m) r))

handle-keeps :
    (digest : Digest) (m : Received) (r : AuditRepository) (id : String) (x : AuditEntry)
    → lookup id r.entries ≡ some x
    → lookup id (handle digest m r).entries ≡ some x
unfolding execute
handle-keeps digest m r id x h = elim (Bool-cases (unmarshal_id m.payload).1) [
  | inl good ↦ rw (handle-eq digest m r good) (append_entry-keeps (entry_of digest m) r id x h)
  | inr bad ↦ ground (arith, bad)
]

-- An entry of the audit trail in memory is there unchanged after any list of messages is handled.
pub handle_all-keeps :
    (digest : Digest) (ms : List Received) (r : AuditRepository) (id : String) (x : AuditEntry)
    → lookup id r.entries ≡ some x
    → lookup id (handle_all digest ms r).entries ≡ some x
handle_all-keeps digest [] r id x h = h
handle_all-keeps digest (m ∷ ms) r id x h =
    handle_all-keeps digest ms (handle digest m r) id x (handle-keeps digest m r id x h)

handle_stored :
    (digest : Digest) (m : Received) (r : AuditRepository)
    → (unmarshal_id m.payload).1 ≡ true
    → (x : AuditEntry) × (lookup (id_of digest m) (handle digest m r).entries ≡ some x)
unfolding new_audit_entry
handle_stored digest m r good =
    rw (handle-eq digest m r good) (append_entry_stored (entry_of digest m) r)

handle_known :
    (digest : Digest) (m : Received) (r : AuditRepository) (x : AuditEntry)
    → (unmarshal_id m.payload).1 ≡ true
    → lookup (id_of digest m) r.entries ≡ some x
    → handle digest m r ≡ r
unfolding new_audit_entry
handle_known digest m r x good known =
    handle-eq digest m r good ∙ ap (λ v. v.1) (append_entry_again (entry_of digest m) r x known)

-- A message whose id can be read, handled again after any other messages and at any later time,
-- leaves the audit trail in memory as it is.
pub handle_again :
    (digest : Digest) (m : Received) (ms : List Received) (later : Time) (r : AuditRepository)
    → (unmarshal_id m.payload).1 ≡ true
    → handle digest (record m { now = later }) (handle_all digest ms (handle digest m r))
      ≡ handle_all digest ms (handle digest m r)
handle_again digest m ms later r good =
    let (x, stored) = handle_stored digest m r good in
    handle_known digest (record m { now = later }) (handle_all digest ms (handle digest m r)) x good
      (handle_all-keeps digest ms (handle digest m r) (id_of digest m) x stored)
