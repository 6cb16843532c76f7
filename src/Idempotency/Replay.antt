-- ===== src/Idempotency/Replay.antt =====
-- Requests that are sent again: Service.Execute of internal/application/idempotency/service.go over
-- the keys of Redis.
use payment_service.Base.{
  true, ◌≡◌, refl, ◌≢◌, ap, sym, ◌∙◌, String, none, some, M, ok, err, Error, already_processing,
  key_already_exists, arith, inl, inr, Bool-cases, ◌&&◌, if◌then◌else◌, str_eq,
}
use payment_service.Base.Int.{pos, ◌≤ℤ◌, ◌<ℤ◌}
use payment_service.Base.Dict.{Dict, lookup, insert, erase, lookup-insert, lookup-erase}
use payment_service.Json.{Body}
use payment_service.Idempotency.{
  CachedResponse, validate_key, match_or_conflict, is_success, execute, acquire_and_run, run_locked,
}
use payment_service.Idempotency.Redis.{
  Entry, marker, json, World, lock_key, data_key, lock_key-ne-data_key, redis, lock, unlock, save,
  find, Compact, written_body, marshal_error,
}

module _ (key : String) (keys keys' : Dict Entry)
    (taken : keys' ≡ insert (lock_key key) (marker "processing") keys)
    (free : lookup (lock_key key) keys ≡ none) where
  -- The lock that was taken is gone again.
  lookup-unlocked : (k : String) → lookup k (erase (lock_key key) keys') ≡ lookup k keys
  lookup-unlocked k = rw taken (
      ground (
        arith,
        lookup-erase k (lock_key key) (insert (lock_key key) (marker "processing") keys),
        lookup-insert k (lock_key key) (marker "processing") keys,
      ))

  lookup-stored :
      (v : Entry) (k : String)
      → lookup k (erase (lock_key key) (insert (data_key key) v keys'))
        ≡ (if str_eq (data_key key) k then some v else lookup k keys)
  lookup-stored v k = ground (
    arith,
    lock_key-ne-data_key key key,
    lookup-erase k (lock_key key) (insert (data_key key) v keys'),
    lookup-insert k (data_key key) v keys',
    lookup-unlocked k,
    lookup-erase k (lock_key key) keys',
  )

-- The function keeps its hands off the keys.
abbrev pub KeepsKeys : {X : Type 0} → M (World X) CachedResponse → Type 0
KeepsKeys {X} fn = (w : World X) → (fn w).1.keys ≡ w.keys

-- The world in which a request's function runs.
abbrev pub locked : {X : Type 0} → String → World X → World X
locked key w = record w { keys = insert (lock_key key) (marker "processing") w.keys }

abbrev pub SameKeys : {X : Type 0} → World X → World X → Type 0
SameKeys w w' = (k : String) → lookup k w'.keys ≡ lookup k w.keys

module _ {X : Type 0} (compact : Compact) (key request_hash : String)
    (valid : validate_key key ≡ ok tt) where
  -- A stored answer is given to a request with the same hash, and a request with another is
  -- refused. The request's own function is not run, and nothing is changed.
  pub execute_stored :
      (fn : M (World X) CachedResponse) (w : World X) (r : CachedResponse)
      → lookup (data_key key) w.keys ≡ some (json r)
      → execute (redis compact) key request_hash fn w ≡ (match_or_conflict r request_hash, w)
  unfolding execute find
  execute_stored fn w r stored = rw (valid, execute, stored) refl

  pub execute_busy :
      (fn : M (World X) CachedResponse) (w : World X) (held : Entry)
      → lookup (data_key key) w.keys ≡ none
      → lookup (lock_key key) w.keys ≡ some held
      → execute (redis compact) key request_hash fn w ≡ (err already_processing, w)
  unfolding execute find lock acquire_and_run
  execute_busy fn w held missing busy =
      rw (valid, execute, missing, acquire_and_run, busy, missing) refl

  -- A request under a valid key that is neither stored nor locked, whose function keeps off the
  -- keys of Redis and fails: the failure is returned, the function has run once, and no key
  -- differs from before, so that the request may be sent again.
  pub execute_failed :
      (fn : M (World X) CachedResponse) (w w' : World X) (e : Error)
      → KeepsKeys fn
      → lookup (data_key key) w.keys ≡ none
      → lookup (lock_key key) w.keys ≡ none
      → fn (locked key w) ≡ (err e, w')
      → let out = execute (redis compact) key request_hash fn w in
        (out.0 ≡ err e) × SameKeys w out.1 × (out.1.app ≡ w'.app)
  unfolding execute find lock acquire_and_run run_locked unlock
  execute_failed fn w w' e keeps missing free failed =
      rw (valid, execute, missing, acquire_and_run, free, failed, run_locked)
        (
          refl,
          lookup-unlocked key w.keys w'.keys
              (sym (ap (λ o. o.1.keys) failed) ∙ keeps (locked key w)) free,
          refl,
        )

  -- A request under a valid key that is neither stored nor locked, whose function keeps off the
  -- keys of Redis and answers with a body that json.Marshal writes: the answer is returned with
  -- the request's hash, the function has run once, with the lock held, and afterwards the lock is
  -- gone and the only key that differs is the stored answer, with the body as it was written,
  -- which is there exactly if its status is from 200 to 299.
  pub execute_answered :
      (fn : M (World X) CachedResponse) (w w' : World X) (answer : CachedResponse) (body : Body)
      → written_body compact answer.body ≡ some body
      → KeepsKeys fn
      → lookup (data_key key) w.keys ≡ none
      → lookup (lock_key key) w.keys ≡ none
      → fn (locked key w) ≡ (ok answer, w')
      → let out = execute (redis compact) key request_hash fn w in
        let response = record answer { request_hash = request_hash } in
        (out.0 ≡ ok response)
        × (out.1.app ≡ w'.app)
        × ((k : String)
            → lookup k out.1.keys ≡ (
                if is_success answer && str_eq (data_key key) k
                then some (json (record response { body = body }))
                else lookup k w.keys))
  unfolding execute find lock acquire_and_run run_locked unlock save
  execute_answered fn w w' answer body written keeps missing free answered =
      rw (valid, execute, missing, acquire_and_run, free, answered, run_locked)
        (let taken = sym (ap (λ o. o.1.keys) answered) ∙ keeps (locked key w) in
          elim (Bool-cases (is_success answer)) [
            | inl good ↦
                rw (good, save, written) (refl, refl, lookup-stored key w.keys w'.keys taken free _)
            | inr bad ↦ rw bad (refl, refl, lookup-unlocked key w.keys w'.keys taken free)
          ])

  -- An answer with a status from 200 to 299 whose body is no JSON is not kept: the error of its
  -- encoding is returned, the function has run, and the lock is gone again.
  pub execute_unwritten :
      (fn : M (World X) CachedResponse) (w w' : World X) (answer : CachedResponse)
      → written_body compact answer.body ≡ none
      → is_success answer ≡ true
      → KeepsKeys fn
      → lookup (data_key key) w.keys ≡ none
      → lookup (lock_key key) w.keys ≡ none
      → fn (locked key w) ≡ (ok answer, w')
      → let out = execute (redis compact) key request_hash fn w in
        (out.0 ≡ err marshal_error) × SameKeys w out.1 × (out.1.app ≡ w'.app)
  unfolding execute find lock acquire_and_run run_locked unlock save
  execute_unwritten fn w w' answer unwritten good keeps missing free answered =
      rw
        (
          valid, execute, missing, acquire_and_run, free, answered, run_locked, good, save,
          unwritten,
        )
        (
          refl,
          lookup-unlocked key w.keys w'.keys
              (sym (ap (λ o. o.1.keys) answered) ∙ keeps (locked key w)) free,
          refl,
        )

abbrev pub HasSuccess : CachedResponse → Type 0
HasSuccess r = (pos 200 ≤ℤ r.status_code) × (r.status_code <ℤ pos 300)

-- A request under a valid and free key, whose function keeps off the keys of Redis and answers
-- with a status from 200 to 299 and a body that json.Marshal writes as it is, and whose hash is
-- not empty: when a request comes under the key again nothing is changed and no function is run;
-- with the same hash it gets the same answer, with another it is refused with ErrKeyAlreadyExists.
pub execute_again :
    {X : Type 0} (compact : Compact) (key first second : String)
    (fn fn' : M (World X) CachedResponse) (w w' : World X) (answer : CachedResponse)
    → validate_key key ≡ ok tt
    → KeepsKeys fn
    → lookup (data_key key) w.keys ≡ none
    → lookup (lock_key key) w.keys ≡ none
    → fn (locked key w) ≡ (ok answer, w')
    → HasSuccess answer
    → written_body compact answer.body ≡ some answer.body
    → first ≢ ""
    → let out = execute (redis compact) key first fn w in
      let again = execute (redis compact) key second fn' out.1 in
      (again.1 ≡ out.1)
      × (again.0 ≡ (if str_eq second first then out.0 else err key_already_exists))
unfolding match_or_conflict
execute_again compact key first second fn fn' w w' answer valid keeps missing free answered good
      written some_hash =
    let out = execute (redis compact) key first fn w in
    let response : CachedResponse = record answer { request_hash = first } in
    let (fine, _, keys) =
      execute_answered compact key first valid fn w w' answer answer.body written keeps missing free
        answered in
    let stored : lookup (data_key key) out.1.keys ≡ some (json response) =
      keys (data_key key) ∙ ground arith in
    rw (execute_stored compact key second valid fn' out.1 response stored, fine)
      (refl, ground arith)
