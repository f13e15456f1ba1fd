-- ===== src/RwClient.antt =====
-- src/rw-write-preferred-client.ts: `RWLockWritePrefClient`, the readers and writers of a key. A method is the
-- task that it starts: requests to the broker, each with what follows its reply. Options have passed the parsers.
pub mod Sessions
use live_mutex.Prelude.{
  ℕ, Bool, true, false, ◌||◌, Option, none, some, List, [], ◌∷◌, if◌then◌else◌,
}

-- What the client asks for on its key. `lock` and `unlock` are those of `Client`. Whether the broker queued a check of the
-- writer flag is known when the check is over.
pub data Ask : Type 0 where
  lock : (max max_read max_write : Option ℕ) → Ask
  unlock register_write_flag_and_readers_check : Ask
  register_write_flag_check : (was_queued : Bool) → Ask
  increment_readers decrement_readers set_write_flag_to_false : Ask

-- The `type` of a frame, as far as `registerWriteFlagCheck` tells them apart; `no_data` is a reply without one.
pub data ReplyType : Type 0 where
  register_write_flag_success register_write_flag_check_queued no_data other_type : ReplyType

pub record Reply : Type 0 where
  pub error : Bool
  pub type_ : ReplyType

-- How the callback of a method is called, and whether the release function has an `_unlock` then.
pub record Result : Type 0 where
  pub failed : Bool
  pub releasable : Bool

-- `request` goes on by whether there was an error. `await_flag` is `registerWriteFlagCheck`, which
-- goes on at one type of frame. `finish` calls the callback, after requests whose replies do not matter.
pub data Task : Type 0 where
  finish : List Ask → Result → Task
  request : Ask → (Bool → Task) → Task
  await_flag : (was_queued : Bool) → (Bool → Task) → Task

-- The options of the methods that acquire.
pub record RwOptions : Type 0 where
  pub max : Option ℕ
  pub max_read : Option ℕ
  pub max_write : Option ℕ

abbrev pub or_limit : Option ℕ → Option ℕ → Option ℕ
or_limit none m = m
or_limit (some n) m = some n

abbrev pub gave_up : List Ask → Task
gave_up asks = finish asks (record { failed = true; releasable = false })

abbrev pub holding : Task
holding = finish [] (record { failed = false; releasable = true })

-- `acquireWriteLock`
unfoldable pub acquire_write_lock : RwOptions → Task
acquire_write_lock o = request (lock (some 1) o.max_read (or_limit o.max_write (some 1))) λ err.
    if err
    then gave_up []
    else request register_write_flag_and_readers_check
        λ err'. if err' then request unlock (λ _. gave_up []) else holding

-- `releaseWriteLock` with an `_unlock`; the reply of `setWriteFlagToFalse` is not looked at.
unfoldable pub release_write_lock : Task
release_write_lock = request unlock λ err.
    if err
    then gave_up []
    else request set_write_flag_to_false
        λ _. finish [] (record { failed = false; releasable = false })

-- `acquireReadLock`; after an error of `incrementReaders` it does not wait for the `unlock`.
unfoldable pub acquire_read_lock : RwOptions → Task
acquire_read_lock o = await_flag false λ err.
    if err
    then gave_up []
    else let limit = or_limit o.max (some 10) in
      request (lock limit (or_limit o.max_read limit) o.max_write) λ err'.
        if err'
        then gave_up []
        else request increment_readers λ err''. if err'' then gave_up (unlock ∷ []) else holding

-- `releaseReadLock` with an `_unlock`, which stays if `decrementReaders` fails.
unfoldable pub release_read_lock : Task
release_read_lock = request decrement_readers λ err.
    if err
    then finish [] (record { failed = true; releasable = true })
    else request unlock λ err'. finish [] (record { failed = err'; releasable = false })

-- `releaseWriteLock` and `releaseReadLock` without an `_unlock`: lock first.
unfoldable pub release_write_lock_anew : RwOptions → Task
unfolding release_write_lock
release_write_lock_anew o =
    request (lock (some 1) o.max_read o.max_write)
      λ err. if err then gave_up [] else release_write_lock

unfoldable pub release_read_lock_anew : RwOptions → Task
unfolding release_read_lock
release_read_lock_anew o =
    request (lock (some 1) o.max_read o.max_write)
      λ err. if err then gave_up [] else release_read_lock

-- `val && val.type !== 'register-write-flag-success'`
abbrev pub is_passed_over : ReplyType → Bool
is_passed_over register_write_flag_success = false
is_passed_over no_data = false
is_passed_over register_write_flag_check_queued = true
is_passed_over other_type = true

abbrev pub is_queued : ReplyType → Bool
is_queued register_write_flag_check_queued = true
is_queued _ = false

-- The requests that were answered, each with whether by an error, and those that need no answer.
abbrev pub Trace : Type 0
Trace = List (Ask × Bool)

abbrev pub unanswered : List Ask → Trace
unanswered [] = []
unanswered (a ∷ asks) = (a, false) ∷ unanswered asks

-- A task meets its replies, one after the other. Without a result it still waits.
unfoldable pub run : Task → List Reply → Trace × Option Result
run (finish asks r) xs = (unanswered asks, some r)
run (request a k) [] = ([], none)
run (request a k) (x ∷ xs) =
    let (trace, result) = run (k x.error) xs in ((a, x.error) ∷ trace, result)
run (await_flag q k) [] = ([], none)
run (await_flag q k) (x ∷ xs) =
    let again = run (await_flag (q || is_queued x.type_) k) xs in
    let (trace, result) = run (k x.error) xs in
    if is_passed_over x.type_
    then again
    else ((register_write_flag_check q, x.error) ∷ trace, result)
