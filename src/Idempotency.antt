-- ===== src/Idempotency.antt =====
-- internal/application/idempotency: the response of a request is kept under the key that the client
-- chose. `Redis` holds the repository.
pub mod Redis
pub mod Replay
pub mod Race
use Prim.Native.String.{len}
use payment_service.Base.{
  Bool, true, false, not, ◌&&◌, ◌||◌, String, Option, none, some, M, Result, ok, err, Error,
  invalid_key, already_processing, key_already_exists, pure, lift, ◌>>=◌, ◌>>◌, ltb, str_eq,
  if◌then◌else◌,
}
use payment_service.Base.Int.{ℤ, pos, leb_ℤ, ltb_ℤ}
use payment_service.Base.Text.{trim_space, is_empty}
use payment_service.Json.{Body}

pub record CachedResponse : Type 0 where
  pub status_code : ℤ
  pub body : Body
  pub request_hash : String

-- idempotency.Repository. Find returns no value where its Boolean is false.
pub record Repository (W : Type 0) : Type 0 where
  pub lock : String → M W Bool
  pub unlock : String → M W (Unit {0})
  pub save : String → CachedResponse → M W (Unit {0})
  pub find : String → M W (Option CachedResponse)

-- validateKey: the length is counted in bytes.
unfoldable pub validate_key : String → Result (Unit {0})
validate_key key =
    let trimmed = trim_space key in
    if is_empty trimmed || ltb 255 (len trimmed) then err invalid_key else ok tt

-- matchOrConflict
unfoldable pub match_or_conflict : CachedResponse → String → Result CachedResponse
match_or_conflict cached request_hash =
    if not (str_eq cached.request_hash "") && not (str_eq cached.request_hash request_hash)
    then err key_already_exists
    else ok cached

abbrev pub is_success : CachedResponse → Bool
is_success response = leb_ℤ (pos 200) response.status_code && ltb_ℤ response.status_code (pos 300)

abbrev pub with_hash : CachedResponse → String → CachedResponse
with_hash response request_hash = record response { request_hash = request_hash }

module _ {W : Type 0} (repository : Repository W) where
  -- `defer Unlock(key)` around what follows; its error is dropped.
  abbrev pub then_unlock : {A : Type 0} → String → M W A → M W A
  then_unlock key body w = ((body w).0, (repository.unlock key (body w).1).1)

  -- Only a success is kept.
  abbrev keep : String → CachedResponse → M W CachedResponse
  keep key response =
      if is_success response then (repository.save key response >> pure response) else pure response

  -- Execute after the lock is taken.
  unfoldable pub run_locked : String → String → M W CachedResponse → M W CachedResponse
  run_locked key request_hash fn = do answer ← fn; keep key (with_hash answer request_hash)

  abbrev found_or : Option CachedResponse → String → M W CachedResponse → M W CachedResponse
  found_or none request_hash miss = miss
  found_or (some cached) request_hash miss = lift (match_or_conflict cached request_hash)

  abbrev locked_or : Bool → M W CachedResponse → M W CachedResponse → M W CachedResponse
  locked_or true run busy = run
  locked_or false run busy = busy

  -- Execute from the call of Lock on.
  unfoldable pub acquire_and_run : String → String → M W CachedResponse → M W CachedResponse
  unfolding run_locked match_or_conflict
  acquire_and_run key request_hash fn = do
    acquired ← repository.lock key
    locked_or acquired (then_unlock key (run_locked key request_hash fn)) (do
      cached ← repository.find key
      found_or cached request_hash (lift (err already_processing)))

  -- Service.Execute
  unfoldable pub execute : String → String → M W CachedResponse → M W CachedResponse
  unfolding match_or_conflict
  execute key request_hash fn = do
    _ ← lift (validate_key key)
    cached ← repository.find key
    found_or cached request_hash (acquire_and_run key request_hash fn)
