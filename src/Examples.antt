-- ===== src/Examples.antt =====
-- Concrete inputs: a queue that is a list, brokers in small states, requests and runs.
pub mod Streams
pub mod Calls
pub mod Sharing
pub mod Pages
pub mod Fences
pub mod Witnesses
use live_mutex.Prelude.{
  ℕ, zero, suc, ◌+◌, ◌≡◌, refl, ap, true, false, Option, none, some, List, [], ◌∷◌, ◌++◌, arith,
  ◌==◌, if◌then◌else◌, length, Every, contains, ◌⊎◌,
}
use live_mutex.Dict.{get, set, erase}
use live_mutex.LinkedQueue.{LinkedQueue, Notify, millis}
use live_mutex.Broker.Types.{Env, Holder, LockObj, Broker}
use live_mutex.Broker.Attempt.{lock_or_default}
use live_mutex.Broker.Lock.{LockRequest, no_status, absent, whole}
use live_mutex.Broker.Unlock.{UnlockRequest, unlock}
use live_mutex.Broker.Composite.{
  ManyRequest, text, validate_keys, key_strings, insert_key, sorted_keys, acquire_many,
}
use live_mutex.Broker.Atomic.{holders_at}
use live_mutex.Broker.Atomic.Attempts.{IsFreshSupply}
use live_mutex.Broker.Atomic.Keys.{IsAscending, validate_keys-IsAscending}
use live_mutex.Broker.Atomic.Requests.{IsGranted, acquire_many-atomic}
use live_mutex.Broker.Drain.{capacity_of, drain, next_waiter, serve_next, again}
use live_mutex.Broker.Events.{
  Event, lock_frame, unlock_frame, sweep, socket_closed, run, new_broker,
}
use live_mutex.Broker.Closure.{Holds}
use live_mutex.Broker.Semaphore.{IsBounded, Respects, run-IsBounded}
use live_mutex.Broker.Fencing.{IsFenced, run-IsFenced}
use live_mutex.Broker.Rendezvous.{
  Rw, set_flag, add_reader, set_write_flag_to_false_and_broadcast, decrement_readers,
}
use live_mutex.Broker.Wakeups.{
  IsAwake, set_write_flag_to_false_and_broadcast-IsAwake, decrement_readers-IsAwake,
}
use live_mutex.Broker.Lock.{clean_up_locks}
use live_mutex.Broker.Retention.{is_held, clean_up_locks-keeps}
use live_mutex.Broker.Serving.{next_waiter-first}
use live_mutex.Broker.Serving.Rounds.{drain-IsServed, IsServed, serve_next-dead}

abbrev pub Items : Type 0
Items = List (ℕ × Notify)

abbrev pub take_waiters : ℕ → Items → List Notify × Items
take_waiters zero q = ([], q)
take_waiters (suc n) [] = ([], [])
take_waiters (suc n) ((u, m) ∷ q) = let (ms, rest) = take_waiters n q in (m ∷ ms, rest)

abbrev pub uncons : Items → Option (Notify × Items)
uncons [] = none
uncons ((u, n) ∷ q) = some (n, q)

pub uncons_nil : (q : Items) → q ≡ [] → uncons q ≡ none
uncons_nil q e = ap uncons e

pub uncons_cons :
    (q : Items) (u : ℕ) (n : Notify) (rest : Items)
    → q ≡ (u, n) ∷ rest
    → (q' : Items) × (uncons q ≡ some (n, q')) × (q' ≡ rest)
uncons_cons q u n rest e = (rest, ap uncons e, refl)

instance abbrev pub list_queue : LinkedQueue Items
list_queue = record {
  empty = [];
  enqueue = λ u n q. q ++ (u, n) ∷ [];
  add_to_front = λ u n q. (u, n) ∷ q;
  dequeue = uncons;
  remove = erase;
  find = get;
  count = length;
  deq = take_waiters;
  entries = λ q. q;
  entries_empty = refl;
  count_entries = λ q. refl;
  find_entries = λ u q. refl;
  dequeue_nil = uncons_nil;
  dequeue_cons = uncons_cons;
  entries_enqueue = λ u n q e. refl;
  entries_add_to_front = λ u n q e. refl;
  entries_remove = λ u q. refl;
}

-- At time `t`, with socket 9 gone.
abbrev pub at : ℕ → Env
at t = record {
  now = t;
  writable = λ ws. if ws == 9 then false else true;
  uuid_v4 = λ n. 1000 + n;
  lock_expires_after = 5000;
  we_are_debugging = false;
}

-- Request `uuid` for key 1 from process 1, for two holders at most.
abbrev pub ask : ℕ → LockRequest
ask uuid = record {
  key = 1;
  uuid = uuid;
  pid = 1;
  ttl = millis 100;
  max = whole 2;
  max_read = absent;
  max_write = absent;
  rw_status = no_status;
  force = false;
  wait = true;
  retry_count = 0;
  keep_locks_after_death = false;
}

abbrev pub give_back : ℕ → UnlockRequest
give_back uuid = record {
  key = 1;
  uuid = some 77;
  holder = some uuid;
  force = false;
  keep_locks_after_death = false;
}

-- Three requests for two slots, an unlock, a closed socket and a sweep.
abbrev pub busy_day : List (Env × Event)
busy_day =
    (at 10, lock_frame (ask 11) 1)
    ∷ (at 11, lock_frame (ask 12) 2)
    ∷ (at 12, lock_frame (ask 13) 3)
    ∷ (at 13, unlock_frame (give_back 11) 1)
    ∷ (at 14, socket_closed 2)
    ∷ (at 500, sweep)
    ∷ []

abbrev pub two : ℕ → ℕ
two k = 2

abbrev pub respects : (uuid : ℕ) → Respects two (ask uuid)
respects uuid = record { reads = refl; writes = refl; asks = omega arith }

-- Waiter `uuid` on socket `ws`, for one key.
abbrev pub waits : ℕ → ℕ → Notify
waits uuid ws = record {
  ws = ws;
  uuid = uuid;
  pid = 1;
  ttl = millis 100;
  keep_locks_after_death = false;
  acquire_many = none;
}

-- Key 1 with no holder.
abbrev pub free_lock : Items → LockObj Items
free_lock q = record {
  readers = 0;
  max = 1;
  max_read = none;
  max_write = none;
  next_fencing_token = 5;
  lockholder_timeouts = [];
  lockholders_all_released = [];
  lockholders = [];
  notify = q;
  key = 1;
  keep_locks_after_death = false;
  writer_flag = false;
  timestamp_emptied = none;
  is_via_shell = false;
}

abbrev pub queue_of_two : Items
queue_of_two = (21, waits 21 9) ∷ (22, waits 22 4) ∷ []

abbrev pub idle_broker : Items → Broker Items
idle_broker q = record {
  locks = (1, free_lock q) ∷ [];
  holder_deadlines = [];
  composite_locks = [];
  timeouts = [];
  rejected = [];
  ws_to_keys = [];
  ws_to_uuids = [];
  connected_clients = [];
  lmx_closed = [];
  lock_counts = 0;
  ttl_evictions_total = 0;
  drawn = 0;
  sent = [];
}

-- Key 1 held by request 20, with two waiters.
abbrev pub held_lock : LockObj Items
held_lock = record (free_lock queue_of_two) {
  lockholders =
      (
        20,
        record {
          pid = 1;
          ws = 3;
          uuid = 20;
          fencing_token = 5;
          composite_lock_uuid = none;
          expires_at = none;
        },
      )
      ∷ [];
}

abbrev pub held_broker : Broker Items
held_broker = record (idle_broker []) { locks = (1, held_lock) ∷ [] }

-- A forced unlock under the uuid of a request that holds nothing.
abbrev pub force_back : UnlockRequest
force_back = record (give_back 19) { force = true }

-- Keys 3 and 2, the first twice.
abbrev pub ask_many : ManyRequest
ask_many = record {
  uuid = 31;
  keys = some (text 3 ∷ text 2 ∷ text 3 ∷ []);
  ttl = millis 100;
  pid = 1;
  wait = true;
  keep_locks_after_death = false;
}

-- A reader and a writer wait for key 1.
abbrev pub waiting_rw : Rw Items
waiting_rw = record {
  broker = idle_broker [];
  registered_listeners =
      (
        1,
        record { ws = 4; uuid = 41; fn = set_flag; orphan = none }
            ∷ record { ws = 5; uuid = 42; fn = add_reader; orphan = none }
            ∷ [],
      )
      ∷ [];
  replies = [];
  orphans = [];
}
