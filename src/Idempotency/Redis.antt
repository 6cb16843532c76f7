-- ===== src/Idempotency/Redis.antt =====
-- internal/infrastructure/cache/redis/idempotency_repository.go, over a Redis that answers. What a
-- command does to the keys is Redis's documented behaviour; no key expires during a run.
use text.Mathlib.TextEquality.{eq_iff}
use text.Mathlib.TextLemmas.{append_inj}
use payment_service.Base.{
  ◌≡◌, refl, arith, Bool, true, false, String, ◌<>◌, Option, none, some, M, Result, ok, err, Error,
  other, str_eq, if◌then◌else◌,
}
use payment_service.Base.Dict.{Dict, lookup, insert, erase}
use payment_service.Json.{Body, object, null_body, no_object, json_error}
use payment_service.Idempotency.{CachedResponse, Repository}

-- A value under a key: a plain text, or the JSON of a response.
pub data Entry : Type 0 where
  marker : String → Entry
  json : CachedResponse → Entry

-- The keys of Redis, beside the state of the rest of the service.
pub record World (X : Type 0) : Type 0 where
  pub keys : Dict Entry
  pub app : X

abbrev pub lock_key : String → String
lock_key key = "idempotency:lock:" <> key

abbrev pub data_key : String → String
data_key key = "idempotency:data:" <> key

-- SETNX: sets the key if it is not there, and tells whether it did.
abbrev set_nx : {X : Type 0} → Option Entry → String → Entry → World X → Result Bool × World X
set_nx none key v w = (ok true, record w { keys = insert key v w.keys })
set_nx (some old) key v w = (ok false, w)

abbrev unmarshal : Option Entry → Result (Option CachedResponse)
unmarshal none = ok none
unmarshal (some (json response)) = ok (some response)
unmarshal (some (marker s)) = err json_error

-- What json.Marshal makes of a text that is given as JSON: its compact form, or `none` if it is no JSON.
abbrev pub Compact : Type 0
Compact = String → Option String

abbrev compacted : Option String → Option Body
compacted none = none
compacted (some s) = some (no_object s)

-- The body of a response as json.Marshal writes it; the empty text is a body that was never set, and
-- becomes null.
abbrev pub written_body : Compact → Body → Option Body
written_body compact (object fields) = some (object fields)
written_body compact null_body = some null_body
written_body compact (no_object s) = if str_eq s "" then some null_body else compacted (compact s)

abbrev pub marshal_error : Error
marshal_error = other "json: error calling MarshalJSON"

module _ {X : Type 0} where
  -- Lock
  unfoldable pub lock : String → M (World X) Bool
  lock key w = set_nx (lookup (lock_key key) w.keys) (lock_key key) (marker "processing") w

  -- Unlock
  unfoldable pub unlock : String → M (World X) (Unit {0})
  unlock key w = (ok tt, record w { keys = erase (lock_key key) w.keys })

  -- Save
  unfoldable pub save : Compact → String → CachedResponse → M (World X) (Unit {0})
  save compact key response w = elim (written_body compact response.body) [
    | none ↦ (err marshal_error, w)
    | some body ↦ (
      ok tt,
      record w { keys = insert (data_key key) (json (record response { body = body })) w.keys },
    )
  ]

  -- Find
  unfoldable pub find : String → M (World X) (Option CachedResponse)
  find key w = (unmarshal (lookup (data_key key) w.keys), w)

  abbrev pub redis : Compact → Repository (World X)
  redis compact = record { lock = lock; unlock = unlock; save = save compact; find = find }

prefixes_differ : ¬ ◌≡◌ {A = String} "idempotency:lock:" "idempotency:data:"
prefixes_differ = ground (arith, eq_iff "idempotency:lock:" "idempotency:data:")

-- The two kinds of keys never meet.
pub lock_key-ne-data_key : (j k : String) → ¬ (lock_key j ≡ data_key k)
lock_key-ne-data_key j k e = prefixes_differ (append_inj e refl).0
