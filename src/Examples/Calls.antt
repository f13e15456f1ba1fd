-- ===== src/Examples/Calls.antt =====
-- The theorems on the client's lock requests at concrete inputs.
use live_mutex.Prelude.{
  ℕ, ◌+◌, ◌≤◌, ◌≡◌, ◌⊎◌, refl, true, false, none, some, List, [], ◌∷◌, ◌++◌, arith, Every, max,
}
use live_mutex.Dict.{get, set, erase, times}
use live_mutex.LinkedQueue.{millis}
use live_mutex.Broker.Lock.{absent, whole}
use live_mutex.Client.{Code, lock_call, misused, failed, Request, Data, new_client}
use live_mutex.Client.Events.{
  happen_all, Happening, locks, unlocks, receives, fires, loses_connection, closes,
}
use live_mutex.Client.Requests.{requested, overlooked, happen_all-settles}
use live_mutex.Client.Deadlines.{firings, happen_all-ends}
use live_mutex.Client.Options.{
  LockOptions, Defaults, missing, integer, no_flag, flag, read_options, lock,
}
use live_mutex.Client.Checks.{IsTtl, read_options_bounds, lock-retry}

abbrev request_for : ℕ → Request
request_for k = record {
  key = k;
  ttl = millis 4000;
  max = none;
  wait = true;
  max_retries = 3;
  retry_count = 0;
  keep_locks_after_death = false;
}

-- A grant of key 1 for the request 31.
abbrev grant_frame : Data
grant_frame = record {
  uuid = some 31;
  key = 1;
  is_version_mismatch = false;
  is_lock_type = true;
  error = false;
  acquired = some true;
  unlocked = none;
  reelection = false;
  fencing_token = some 1;
}

-- One lock is granted, one times out once and then loses the connection, whereupon its callback asks
-- for another in vain; one still waits, as does an unlock.
abbrev happenings : List Happening
happenings =
    locks 31 (request_for 1)
    ∷ locks 32 (request_for 2)
    ∷ receives grant_frame
    ∷ fires 32
    ∷ loses_connection (lock_call 35 (request_for 1) ∷ [])
    ∷ locks 33 (request_for 1)
    ∷ unlocks 34 1 (some 31) false
    ∷ []

happenings_distinct : (u : ℕ) → requested u happenings ≤ 1
happenings_distinct u = ground arith

-- At the end the client is closed, and a callback asks for one lock more.
abbrev closing : List Happening
closing = happenings ++ closes (lock_call 36 (request_for 1) ∷ []) ∷ []

closing_distinct : (u : ℕ) → requested u closing ≤ 1
closing_distinct u = ground arith

happen_all-settles_example :
    ((u : ℕ)
      → (times u (happen_all closing new_client).resolutions
            + times u (happen_all closing new_client).settled
          ≤ requested u closing)
        × (requested u closing
            ≤ times u (happen_all closing new_client).resolutions
              + times u (happen_all closing new_client).settled
              + overlooked u closing))
    × ((happen_all closing new_client).timers ≡ (happen_all closing new_client).resolutions)
happen_all-settles_example = happen_all-settles closing closing_distinct

happen_all-ends_example :
    times 33 (happen_all (firings 3 33) (happen_all happenings new_client)).settled ≡ 1
unfolding get set erase happen_all new_client
happen_all-ends_example =
    happen_all-ends happenings 3 33 (request_for 1) happenings_distinct refl (omega arith)
      (omega arith)

abbrev defaults : Defaults
defaults = record { ttl = millis 7050; lock_retry_max = 3 }

-- The options `{max: 2, ttl: 5000, retry: true}`.
abbrev retrying : LockOptions
retrying = record {
  max_holders = whole 2;
  semaphore = absent;
  force = no_flag;
  retry = flag true;
  max_retries = absent;
  max_retry = absent;
  retry_max = absent;
  ttl = integer 5000;
  lock_request_timeout = missing;
  wait = true;
  keep_locks_after_death = false;
}

read_options_bounds_example :
    Every
      (λ r.
        Every (λ n. 1 ≤ n) r.max
        × (r.max_retries ≤ max 20 defaults.lock_retry_max)
        × (r.retry_count ≡ 0)
        × IsTtl defaults.ttl r.ttl)
      (read_options defaults 1 retrying)
read_options_bounds_example = read_options_bounds defaults 1 retrying

lock-retry_example :
    ((lock defaults 34 1 retrying new_client).sent ≡ new_client.sent)
    × (((lock defaults 34 1 retrying new_client).settled ≡ (34, misused) ∷ new_client.settled)
        ⊎ ((e : Code) × ((lock defaults 34 1 retrying new_client).settled
              ≡ (34, failed e) ∷ new_client.settled)))
lock-retry_example = lock-retry defaults 34 1 retrying new_client (λ h. cc)
