-- ===== src/Broker/Drain.antt =====
-- src/broker-1.ts: `ensureNewLockHolder`, which hands the freed slots of a key to its waiters.
-- Its `while` loop runs on fuel, one unit for each round; `none` means that the fuel ran out.
use live_mutex.Prelude.{
  ℕ, zero, suc, ◌+◌, true, false, Option, none, some, leb, ◌==◌, if◌then◌else◌, ◌&&◌, max,
}
use live_mutex.Dict.{get, set, erase, size}
use live_mutex.LinkedQueue.{LinkedQueue, Notify}
use live_mutex.Broker.Types.{Env, LockObj, Broker, lock_granted}
use live_mutex.Broker.Grant.{put_lock, send, grant_lock}
use live_mutex.Broker.Attempt.{try_grant_acquire_many}

-- `x !== undefined ? x : 0`
abbrev pub or_zero : Option ℕ → ℕ
or_zero none = 0
or_zero (some n) = n

-- `maxCapacity1` and `maxCapacity2` of the fields `max`, `maxRead` and `maxWrite`: the first alone, or
-- for an RW lock the largest of the three.
unfoldable pub capacity_of : ℕ → Option ℕ → Option ℕ → ℕ
capacity_of limit none none = if limit == 0 then 1 else limit
capacity_of limit none (some w) = max 0 (max w (if limit == 0 then 1 else limit))
capacity_of limit (some r) w = max r (max (or_zero w) (if limit == 0 then 1 else limit))

abbrev pub capacity : {Q : Type 0} → LockObj Q → ℕ
capacity lck = capacity_of lck.max lck.max_read lck.max_write

-- What a round of the loop does next.
pub data Round (Q : Type 0) : Type 0 where
  stop : Broker Q → Round Q
  again : Broker Q → Round Q

module _ {Q : Type 0} ⦃lq : LinkedQueue Q⦄ where
  -- `while (lqValue = notifyList.dequeue()) …`: `n` is the waiter taken last. One round for each
  -- queued waiter, and the one that finds the queue empty.
  unfoldable pub next_waiter : Env → ℕ → Option Notify → Q → Option Notify × Q
  next_waiter e zero n q = (n, q)
  next_waiter e (suc rounds) n q = elim (lq.dequeue q) [
    | none ↦ (n, q)
    | some (m, q') ↦ elim (e.writable m.ws) [
      | true ↦ (some m, q')
      | false ↦ next_waiter e rounds (some m) q'
    ]
  ]

  -- The grant to a waiter of its own, and the re-election timer.
  unfoldable pub grant_waiter : Env → ℕ → LockObj Q → Notify → Broker Q → Broker Q
  grant_waiter e k lck n b =
      let kept : LockObj Q = record lck { keep_locks_after_death = n.keep_locks_after_death } in
      let granted = grant_lock e kept n.ws n.uuid n.pid n.ttl k b in
      let told =
        send e n.ws
          (lock_granted k n.uuid lck.readers (lq.count lck.notify) (lck.next_fencing_token + 1))
          granted in
      record told { timeouts = set k (record { ws = n.ws; uuid = n.uuid }) told.timeouts }

  -- The waiter `n` has left the queue of `lck`: it is served if there is still room.
  unfoldable pub serve : Env → ℕ → LockObj Q → Notify → Broker Q → Round Q
  serve e k lck n b =
      if leb (capacity lck) (size lck.lockholders)
      then stop (put_lock k (record lck { notify = lq.enqueue n.uuid n lck.notify }) b)
      else elim n.acquire_many [
        | some m ↦ again (try_grant_acquire_many e n m (put_lock k lck b))
        | none ↦ again (grant_waiter e k lck n (put_lock k lck b))
      ]

  unfoldable pub serve_taken : Env → ℕ → LockObj Q → Option Notify × Q → Broker Q → Round Q
  unfolding serve
  serve_taken e k lck (none, q) b = stop (put_lock k (record lck { notify = q }) b)
  serve_taken e k lck (some n, q) b = serve e k (record lck { notify = q }) n b

  -- One round of the loop, on the lock object of `k`.
  unfoldable pub serve_next : Env → ℕ → LockObj Q → Broker Q → Round Q
  unfolding serve_taken
  serve_next e k lck b =
      if lq.count lck.notify == 0
      then stop b
      else if leb (capacity lck) (size lck.lockholders)
      then stop b
      else serve_taken e k lck (next_waiter e (suc (lq.count lck.notify)) none lck.notify) b

  unfoldable pub drain : Env → ℕ → ℕ → Broker Q → Option (Broker Q)
  drain e zero k b = none
  drain e (suc fuel) k b = elim (get k b.locks) [
    | none ↦ some b
    | some lck ↦ elim (serve_next e k lck b) [ stop b' ↦ some b' | again b' ↦ drain e fuel k b' ]
  ]

  -- `if (data._uuid) …; lck.keepLocksAfterDeath = null`
  unfoldable pub release_holder : ℕ → LockObj Q → Option ℕ → Broker Q → Broker Q
  release_holder k lck none b = put_lock k (record lck { keep_locks_after_death = false }) b
  release_holder k lck (some u) b = record b {
    holder_deadlines = erase u b.holder_deadlines;
    locks =
        set k (record lck { lockholders = erase u lck.lockholders; keep_locks_after_death = false })
          b.locks;
  }

  -- Nobody holds the lock and nobody waits: `lck.timestampEmptied = Date.now()`.
  unfoldable pub refill : Env → ℕ → ℕ → Broker Q → Option (Broker Q)
  refill e fuel k b = elim (get k b.locks) [
    | none ↦ some b
    | some lck ↦ elim (size lck.lockholders == 0 && lq.count lck.notify == 0) [
      | true ↦ some (put_lock k (record lck { timestamp_emptied = some e.now }) b)
      | false ↦ drain e fuel k b
    ]
  ]

  unfoldable pub ensure_new_lock_holder : Env → ℕ → ℕ → Option ℕ → Broker Q → Option (Broker Q)
  unfolding release_holder refill
  ensure_new_lock_holder e fuel k u b = elim (get k b.locks) [
    | none ↦ some b
    | some lck ↦ refill e fuel k (release_holder k lck u b)
  ]
