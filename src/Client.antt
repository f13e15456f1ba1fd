-- ===== src/Client.antt =====
-- The lock and unlock requests of src/client.ts (`Client`): the tables under the uuids of the requests, the timer of
-- each, and what becomes of the frames of the broker. A request's uuid is drawn anew for it. A callback is the log
-- `settled`, the latest first; one that `process.nextTick` puts off counts as called. A callback may call the client.
-- In `close`, `endCurrentConnection` and `recover` the code goes on after the loop that calls the callbacks: the
-- calls of `lock` and `unlock` that these callbacks make are an argument, and run when the loop is over, before what
-- follows it, since the rest of the loop is about other uuids; a callback that closes the client within its loop is
-- left out. Elsewhere nothing follows a callback, and its calls are steps of their own. Only requests to lock and to
-- unlock are in the tables, without `rwStatus`. `timers` are those that run. The socket takes what is written.
pub mod Events
pub mod Tables
pub mod Timeouts
pub mod Replies
pub mod Failures
pub mod Callbacks
pub mod Requests
pub mod Deadlines
pub mod Options
pub mod Checks
use live_mutex.Prelude.{
  ℕ, ◌+◌, Bool, true, false, ◌&&◌, Option, none, some, List, [], ◌∷◌, ◌==◌, leb, if◌then◌else◌, add,
  contains, discard,
}
use live_mutex.Dict.{Dict, get, set, erase}
use live_mutex.LinkedQueue.{Ttl}

-- The errors of `LMXLockRequestError` that end a lock request.
pub data Code : Type 0 where
  connection_closed connection_recovering cannot_continue_ max_retries_attempted : Code
  request_timeout unknown_exception internal_error generic_lock_error : Code
  wait_option_set_to_false : Code

-- `LMXUnlockRequestError`, as far as `unlock` uses it.
pub data UnlockCode : Type 0 where
  bad_or_mismatched_id internal_unlock_error general_unlock_error : UnlockCode

pub data Outcome : Type 0 where
  acquired_with : (fencing_token : Option ℕ) → Outcome
  failed : Code → Outcome
  misused : Outcome
  unlocked : Outcome
  unlock_failed : UnlockCode → Outcome

-- The options of a lock request, as `lock` leaves them.
pub record Request : Type 0 where
  pub key : ℕ
  pub ttl : Ttl
  pub max : Option ℕ
  pub wait : Bool
  pub max_retries : ℕ
  pub retry_count : ℕ
  pub keep_locks_after_death : Bool

-- What the function in `resolutions` under a uuid, and the timer, are for.
pub data Pending : Type 0 where
  locking : Request → Pending
  unlocking : (key : ℕ) → Pending

-- What the client writes.
pub data Frame : Type 0 where
  lock_frame : (uuid key : ℕ) → Ttl → (max : Option ℕ) → (retry_count : ℕ) → (keep : Bool) → Frame
  lock_received lock_received_rejected lock_client_timeout lock_client_error :
      (uuid key : ℕ) → Frame
  unlock_frame : (uuid key : ℕ) → (holder : Option ℕ) → (force : Bool) → Frame
  version_mismatch_confirmed : Frame

-- A frame of the broker, by the fields that the client reads.
pub record Data : Type 0 where
  pub uuid : Option ℕ
  pub key : ℕ
  pub is_version_mismatch : Bool
  pub is_lock_type : Bool
  pub error : Bool
  pub acquired : Option Bool
  pub unlocked : Option Bool
  pub reelection : Bool
  pub fencing_token : Option ℕ

pub record Client : Type 0 where
  pub is_open : Bool
  pub recovering : Bool
  pub no_recover : Bool
  pub cannot_continue : Bool
  pub timers : Dict Pending
  pub resolutions : Dict Pending
  pub timeouts : List ℕ
  pub giveups : List ℕ
  pub sent : List Frame
  pub settled : List (ℕ × Outcome)

-- A client with a connection and no requests.
unfoldable pub new_client : Client
new_client = record {
  is_open = true;
  recovering = false;
  no_recover = false;
  cannot_continue = false;
  timers = [];
  resolutions = [];
  timeouts = [];
  giveups = [];
  sent = [];
  settled = [];
}

-- `write`
abbrev pub write : Frame → Client → Client
write f c = record c { sent = f ∷ c.sent }

-- `cleanUp`
unfoldable pub clean_up_request : ℕ → Client → Client
clean_up_request u c = record c {
  timers = erase u c.timers;
  resolutions = erase u c.resolutions;
  timeouts = discard u c.timeouts;
}

abbrev pub call_back : ℕ → Outcome → Client → Client
call_back u o c = record c { settled = (u, o) ∷ c.settled }

-- `fireLockCallbackWithError`, with an exception that has the uuid of the request.
unfoldable pub fire_error : ℕ → Code → Client → Client
unfolding clean_up_request
fire_error u e c = call_back u (failed e) (clean_up_request u c)

-- `lockInternal`. The exceptions in the second and the third case have no uuid, so nothing is cleaned up.
unfoldable pub lock_internal : ℕ → Request → Client → Client
unfolding fire_error
lock_internal u r c =
    if c.is_open
    then (if c.recovering
        then call_back u (failed connection_recovering) c
        else (if c.cannot_continue
            then call_back u (failed cannot_continue_) c
            else (if leb r.max_retries r.retry_count
                then fire_error u max_retries_attempted c
                else write (lock_frame u r.key r.ttl r.max r.retry_count r.keep_locks_after_death)
                    (record c {
                      timers = set u (locking r) c.timers;
                      resolutions = set u (locking r) c.resolutions;
                    }))))
    else fire_error u connection_closed c

-- The body of the timer of a request.
unfoldable pub time_out : ℕ → Request → Client → Client
unfolding fire_error lock_internal
time_out u r c₀ =
    let c : Client = record c₀ {
      timers = erase u c₀.timers;
      resolutions = erase u c₀.resolutions;
    } in
    let n = r.retry_count + 1 in
    let marked : Client = record c { timeouts = add u c.timeouts } in
    if c.is_open
    then (if leb r.max_retries n
        then fire_error u request_timeout (write (lock_client_timeout u r.key) marked)
        else lock_internal u (record r { retry_count = n }) c)
    else fire_error u connection_closed (write (lock_client_error u r.key) marked)

-- `fireUnlockCallbackWithError`
unfoldable pub fire_unlock_error : ℕ → UnlockCode → Client → Client
unfolding clean_up_request
fire_unlock_error u e c = call_back u (unlock_failed e) (clean_up_request u c)

-- The end of `unlock`, when its options are checked.
unfoldable pub unlock_internal : (uuid key : ℕ) → Option ℕ → Bool → Client → Client
unlock_internal u k holder force c = write (unlock_frame u k holder force) (record c {
  timers = set u (unlocking k) c.timers;
  resolutions = set u (unlocking k) c.resolutions;
})

-- The body of a timer.
unfoldable pub expire : ℕ → Pending → Client → Client
unfolding time_out fire_unlock_error
expire u (locking r) c = time_out u r c
expire u (unlocking k) c =
    fire_unlock_error u bad_or_mismatched_id (record c { timeouts = add u c.timeouts })

-- A timer fires, if it runs.
unfoldable pub timer_fires : ℕ → Client → Client
unfolding expire
timer_fires u c = elim (get u c.timers) [ none ↦ c | some p ↦ expire u p c ]

-- `acquired === true`
abbrev pub is_true : Option Bool → Bool
is_true (some true) = true
is_true _ = false

-- The end of the function that `resolutions` has for a request: `acquired` is `false`, or neither.
unfoldable pub not_acquired : ℕ → Request → Option Bool → Client → Client
unfolding fire_error
not_acquired u r (some false) c =
    if r.wait
    then c
    else fire_error u wait_option_set_to_false (record c { giveups = add u c.giveups })
not_acquired u r _ c = fire_error u internal_error c

-- The function that `resolutions` has for a request. It is called by the uuid of `data`.
unfoldable pub resolve : ℕ → Request → (err : Bool) → Data → Client → Client
unfolding fire_error clean_up_request lock_internal not_acquired
resolve u r err data_ c =
    if err
    then fire_error u unknown_exception c
    else (if r.key == data_.key
        then (if is_true data_.acquired
            then call_back u (acquired_with data_.fencing_token)
                (write (lock_received u r.key) (clean_up_request u c))
            else (if data_.reelection
                then lock_internal u r (clean_up_request u c)
                else not_acquired u r data_.acquired c))
        else fire_error u internal_error c)

-- The function that `resolutions` has for an `unlock`. A reply that says `unlocked: false`, and one that says neither,
-- end alike.
unfoldable pub resolve_unlock : ℕ → (key : ℕ) → (err : Bool) → Data → Client → Client
unfolding fire_unlock_error clean_up_request
resolve_unlock u k err data_ c₀ =
    let c : Client = record c₀ { timeouts = discard u c₀.timeouts } in
    if err
    then fire_unlock_error u internal_unlock_error c
    else (if k == data_.key
        then (if is_true data_.unlocked
            then call_back u unlocked (clean_up_request u c)
            else fire_unlock_error u general_unlock_error c)
        else fire_unlock_error u internal_unlock_error c)

-- `fn.call(this, data.error, data)`
unfoldable pub call_resolution : ℕ → Pending → Data → Client → Client
unfolding resolve resolve_unlock
call_resolution u (locking r) data_ c = resolve u r data_.error data_ c
call_resolution u (unlocking k) data_ c = resolve_unlock u k data_.error data_ c

-- How a function in `resolutions` ends when it is called with an error.
abbrev pub premature : Pending → Outcome
premature (locking r) = failed unknown_exception
premature (unlocking k) = unlock_failed internal_unlock_error

-- The loops of `_fireCallbacksPrematurely` and `recover` over the entries of `resolutions`; the latter
-- gives them up as well.
unfoldable pub fail_each : (give_up : Bool) → Dict Pending → Client → Client
unfolding clean_up_request
fail_each give_up [] c = c
fail_each give_up ((u, p) ∷ d) c = fail_each give_up d (
    call_back u (premature p) (
      clean_up_request u (record c {
        giveups = if give_up then add u c.giveups else c.giveups;
        timers = erase u c.timers;
        resolutions = erase u c.resolutions;
      })))

-- `_fireCallbacksPrematurely`
unfoldable pub fire_callbacks_prematurely : Client → Client
unfolding fail_each
fire_callbacks_prematurely c = fail_each false c.resolutions (record c { timers = [] })

-- A call of the client that a callback makes.
pub data Call : Type 0 where
  lock_call : (uuid : ℕ) → Request → Call
  unlock_call : (uuid key : ℕ) → (holder : Option ℕ) → (force : Bool) → Call

unfoldable pub make : Call → Client → Client
unfolding lock_internal unlock_internal
make (lock_call u r) c = lock_internal u r c
make (unlock_call u k holder force) c = unlock_internal u k holder force c

unfoldable pub make_all : List Call → Client → Client
unfolding make
make_all [] c = c
make_all (x ∷ xs) c = make_all xs (make x c)

-- `recover`, with its loop.
unfoldable pub give_up_all : Client → Client
unfolding fail_each
give_up_all c =
    if c.no_recover then c else fail_each true c.resolutions (record c { recovering = true })

-- `recover`; the `ensure` at its end puts `recovering` down again. Without a recovery it is down.
unfoldable pub recover : List Call → Client → Client
unfolding give_up_all make_all
recover calls c = record (make_all calls (give_up_all c)) { recovering = false }

-- `endCurrentConnection`
unfoldable pub end_current_connection : List Call → Client → Client
unfolding fire_callbacks_prematurely make_all
end_current_connection calls c = record (make_all calls (fire_callbacks_prematurely c)) {
  is_open = false;
}

-- `close`. What the callbacks registered is thrown away with the rest.
unfoldable pub close : List Call → Client → Client
unfolding fire_callbacks_prematurely make_all
close calls c =
    record (make_all calls (fire_callbacks_prematurely (record c { no_recover = true }))) {
      timers = [];
      timeouts = [];
      resolutions = [];
      giveups = [];
    }

-- The answer to a grant that nobody waits for.
abbrev pub reject_grant : ℕ → Data → Client → Client
reject_grant u data_ c =
    if is_true data_.acquired && data_.is_lock_type
    then write (lock_received_rejected u data_.key) c
    else c

-- `onData`
unfoldable pub on_uuid : ℕ → Data → Client → Client
unfolding call_resolution
on_uuid u data_ c₀ =
    let c : Client = record c₀ { timeouts = discard u c₀.timeouts } in
    if contains u c.giveups
    then record c {
      timers = erase u c.timers;
      giveups = discard u c.giveups;
      resolutions = erase u c.resolutions;
    }
    else (if contains u c₀.timeouts then reject_grant u data_ c else elim (get u c.resolutions) [
      | none ↦ reject_grant u data_ c
      | some p ↦ call_resolution u p data_ c
    ])

unfoldable pub on_data : Data → Client → Client
unfolding on_uuid fire_callbacks_prematurely
on_data data_ c =
    if data_.is_version_mismatch
    then fire_callbacks_prematurely
        (write version_mismatch_confirmed (record c { cannot_continue = true }))
    else elim (data_.uuid) [ none ↦ c | some u ↦ on_uuid u data_ c ]
