-- ===== src/Broker/Lock.antt =====
-- src/broker-1.ts: `lock`, with `validateMaxField` and `cleanUpLocks`.
use live_mutex.Prelude.{
  ℕ, ◌+◌, ◌-◌, Bool, true, false, not, ◌&&◌, Option, none, some, [], ◌∷◌, leb, ltb, ◌==◌,
  if◌then◌else◌,
}
use live_mutex.Dict.{Dict, get, set, has, size}
use live_mutex.LinkedQueue.{LinkedQueue, Ttl, Notify}
use live_mutex.Broker.Types.{Env, LockObj, Broker, lock_granted, lock_queued, lock_invalid}
use live_mutex.Broker.Grant.{
  put_lock, send, mark_key, or_default_ttl, default_lock_object, grant_lock,
}

-- A field `max`, `maxRead` or `maxWrite` of a request: missing or null, a number that is not
-- negative and whole, or anything else.
pub data Limit : Type 0 where
  absent : Limit
  whole : ℕ → Limit
  malformed : Limit

-- `RWStatus`, or no such field.
pub data RwStatus : Type 0 where
  no_status begin_read begin_write end_read end_write locking_write_key unlocking_write_key :
      RwStatus

-- The request of `lock`; `wait` is false for `wait === false` only.
pub record LockRequest : Type 0 where
  pub key : ℕ
  pub uuid : ℕ
  pub pid : ℕ
  pub ttl : Ttl
  pub max : Limit
  pub max_read : Limit
  pub max_write : Limit
  pub rw_status : RwStatus
  pub force : Bool
  pub wait : Bool
  pub retry_count : ℕ
  pub keep_locks_after_death : Bool

-- `Number.isInteger(v) && v >= 1`, or missing
unfoldable pub is_valid_limit : Limit → Bool
is_valid_limit absent = true
is_valid_limit (whole n) = leb 1 n
is_valid_limit malformed = false

-- The loop of `validateMaxField` over the three fields.
unfoldable pub validate_max_field : LockRequest → Bool
unfolding is_valid_limit
validate_max_field r =
    is_valid_limit r.max && is_valid_limit r.max_read && is_valid_limit r.max_write

-- `Number.isInteger(v) ? v : undefined`
abbrev pub integer : Limit → Option ℕ
integer absent = none
integer (whole n) = some n
integer malformed = none

abbrev pub or_else {ℓ} : {A : Type ℓ} → Option A → Option A → Option A
or_else none b = b
or_else (some a) b = some a

abbrev pub or_value : Option ℕ → ℕ → ℕ
or_value none d = d
or_value (some n) d = n

abbrev pub is_begin_read : RwStatus → Bool
is_begin_read begin_read = true
is_begin_read _ = false

abbrev pub is_begin_write : RwStatus → Bool
is_begin_write begin_write = true
is_begin_write _ = false

unfoldable pub waiter : LockRequest → ℕ → Ttl → Notify
waiter r ws ttl = record {
  ws = ws;
  uuid = r.uuid;
  pid = r.pid;
  ttl = ttl;
  keep_locks_after_death = r.keep_locks_after_death;
  acquire_many = none;
}

-- `maxRead` and `maxWrite` of an existing lock object under a request: an RW request sets its own
-- limit, by its field, else by `max`, else to what it was, else to the default.
abbrev pub read_limit : LockRequest → Option ℕ → Option ℕ
read_limit r old = elim r.rw_status [
  | begin_read ↦ some (or_value (or_else (integer r.max_read) (integer r.max)) (or_value old 10))
  | _ ↦ old
]

abbrev pub write_limit : LockRequest → Option ℕ → Option ℕ
write_limit r old = elim r.rw_status [
  | begin_write ↦ some (or_value (or_else (integer r.max_write) (integer r.max)) (or_value old 1))
  | _ ↦ old
]

-- `if (beginRead) lck.readers++; if (endRead) lck.readers = Math.max(0, --lck.readers)`
abbrev pub readers_after : LockRequest → ℕ → ℕ
readers_after r n = elim r.rw_status [ begin_read ↦ n + 1 | end_read ↦ n - 1 | _ ↦ n ]

module _ {Q : Type 0} where
  -- The update of `max`, `maxRead` and `maxWrite` of an existing lock object.
  unfoldable pub update_limits : LockRequest → LockObj Q → LockObj Q
  update_limits r lck = record lck {
    max = or_value (integer r.max) lck.max;
    max_read = read_limit r lck.max_read;
    max_write = write_limit r lck.max_write;
  }

  -- `effectiveCount`, on the updated lock object.
  unfoldable pub effective_count : LockRequest → LockObj Q → ℕ
  effective_count r lck =
      if is_begin_read r.rw_status then lck.readers + 1 else size lck.lockholders

  -- `effectiveMax`
  unfoldable pub effective_max : LockRequest → LockObj Q → ℕ
  effective_max r lck = elim r.rw_status [
    | begin_read ↦ or_value lck.max_read 10
    | begin_write ↦ or_value lck.max_write 1
    | _ ↦ or_value (integer r.max) lck.max
  ]

  unfoldable pub count_reader : LockRequest → LockObj Q → LockObj Q
  count_reader r lck = record lck { readers = readers_after r lck.readers }

module _ {Q : Type 0} ⦃lq : LinkedQueue Q⦄ where
  -- The entries of `locks` that `cleanUpLocks` leaves: not those emptied two seconds ago or more,
  -- with no holder and no waiter. A `timestampEmptied` of 0 counts as none.
  unfoldable pub is_stale : Env → LockObj Q → Bool
  is_stale e lck = elim lck.timestamp_emptied [
    | none ↦ false
    | some t ↦
        not (t == 0)
        && not (ltb (e.now - t) 2000)
        && size lck.lockholders == 0
        && lq.count lck.notify == 0
  ]

  unfoldable pub clean_up : Env → Dict (LockObj Q) → Dict (LockObj Q)
  unfolding is_stale
  clean_up e [] = []
  clean_up e ((k, lck) ∷ d) = if is_stale e lck then clean_up e d else (k, lck) ∷ clean_up e d

  unfoldable pub clean_up_locks : Env → Broker Q → Broker Q
  unfolding clean_up
  clean_up_locks e b = record b { lock_counts = 0; locks = clean_up e b.locks }

  -- `lck.timestampEmptied = null`, before the clean-up.
  unfoldable pub touch : ℕ → Broker Q → Broker Q
  touch k b = elim (get k b.locks) [
    | none ↦ b
    | some lck ↦ put_lock k (record lck { timestamp_emptied = none }) b
  ]

  -- `if (++this.lockCounts > 3) this.cleanUpLocks()`
  unfoldable pub count_request : Env → Broker Q → Broker Q
  unfolding clean_up_locks
  count_request e b =
      if ltb 3 (b.lock_counts + 1)
      then clean_up_locks e b
      else record b { lock_counts = b.lock_counts + 1 }

  -- The uuid and the keys of the socket.
  unfoldable pub note_request : LockRequest → ℕ → Broker Q → Broker Q
  note_request r ws b = record b {
    ws_to_uuids = mark_key ws r.uuid b.ws_to_uuids;
    ws_to_keys = if has ws b.ws_to_keys then b.ws_to_keys else set ws [] b.ws_to_keys;
  }

  -- Where a request that must wait goes in the queue.
  unfoldable pub queue_request : LockRequest → Notify → Q → Q
  queue_request r n q =
      if r.force then lq.add_to_front r.uuid n (lq.remove r.uuid q) else elim (lq.find r.uuid q) [
        | some _ ↦ q
        | none ↦ if ltb 0 r.retry_count then lq.add_to_front r.uuid n q else lq.enqueue r.uuid n q
      ]

  -- The lock object exists, and `lck` has its limits updated.
  unfoldable pub lock_existing : Env → LockRequest → ℕ → Ttl → LockObj Q → Broker Q → Broker Q
  unfolding effective_count effective_max count_reader queue_request waiter
  lock_existing e r ws ttl lck b =
      let ln = lq.count lck.notify in
      let queued = record lck { notify = queue_request r (waiter r ws ttl) lck.notify } in
      let counted = count_reader r lck in
      if leb (effective_max r lck) (effective_count r lck)
      then (if r.wait
          then send e ws (lock_queued r.key r.uuid lck.readers ln) (put_lock r.key queued b)
          else send e ws (lock_queued r.key r.uuid lck.readers ln) (put_lock r.key lck b))
      else send e ws (lock_granted r.key r.uuid counted.readers ln (counted.next_fencing_token + 1))
          (grant_lock e counted ws r.uuid r.pid ttl r.key b)

  -- The limits of a new lock object for a request.
  unfoldable pub new_lock_object : Env → LockRequest → LockObj Q
  unfolding default_lock_object
  new_lock_object e r =
      default_lock_object e r.key r.keep_locks_after_death (integer r.max) for_read for_write
    where
      for_read : Option ℕ
      for_read =
          if is_begin_read r.rw_status
          then some (or_value (or_else (integer r.max_read) (integer r.max)) 10)
          else none

      for_write : Option ℕ
      for_write =
          if is_begin_write r.rw_status
          then some (or_value (or_else (integer r.max_write) (integer r.max)) 1)
          else none

  unfoldable pub lock_new : Env → LockRequest → ℕ → Ttl → Broker Q → Broker Q
  unfolding new_lock_object count_reader
  lock_new e r ws ttl b =
      let counted = count_reader r (new_lock_object e r) in
      send e ws (lock_granted r.key r.uuid counted.readers 0 (counted.next_fencing_token + 1))
        (grant_lock e counted ws r.uuid r.pid ttl r.key b)

  -- The lock object of a request, once it is validated, counted and noted.
  unfoldable pub lock_valid : Env → LockRequest → ℕ → Broker Q → Broker Q
  unfolding touch count_request note_request lock_existing lock_new update_limits
  lock_valid e r ws b =
      let ttl = or_default_ttl e 500000000 r.ttl in
      let noted = note_request r ws (count_request e (touch r.key b)) in
      elim (get r.key noted.locks) [
        | none ↦ lock_new e r ws ttl noted
        | some lck ↦ lock_existing e r ws ttl (update_limits r lck) noted
      ]

  unfoldable pub lock : Env → LockRequest → ℕ → Broker Q → Broker Q
  unfolding validate_max_field lock_valid
  lock e r ws b =
      if validate_max_field r then lock_valid e r ws b else send e ws (lock_invalid r.key r.uuid) b
