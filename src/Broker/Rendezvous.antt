-- ===== src/Broker/Rendezvous.antt =====
-- src/broker-1.ts: the counters that the RW clients keep in the broker (`broadcast`, `incrementReaders`,
-- `decrementReaders`, `setWriteFlagToFalseAndBroadcast`, `registerWriteFlagCheck` and
-- `registerWriteFlagAndReadersCheck`). A listener's closure refers to the lock object that its key had when it was
-- registered: the entry of `locks` under the key, or an orphan after `cleanUpLocks` has deleted the entry.
use live_mutex.Prelude.{
  ℕ, ◌+◌, ◌-◌, Bool, true, false, ◌||◌, Option, none, some, List, [], ◌∷◌, ltb, ◌==◌, if◌then◌else◌,
}
use live_mutex.Dict.{Dict, get, set}
use live_mutex.LinkedQueue.{LinkedQueue}
use live_mutex.Broker.Types.{Env, LockObj, Broker}
use live_mutex.Broker.Grant.{put_lock}
use live_mutex.Broker.Attempt.{lock_or_default}

-- What `RegisteredListener.fn` does: `lck.writerFlag = true`, or `lck.readers++` with a frame.
pub data Delayed : Type 0 where
  set_flag add_reader : Delayed

-- `RegisteredListener`, without its key; `orphan` tells which orphan its closure refers to, if not to the entry.
pub record Listener : Type 0 where
  pub ws : ℕ
  pub uuid : ℕ
  pub fn : Delayed
  pub orphan : Option ℕ

pub data RwReply : Type 0 where
  broadcast_result broadcast_success increment_success decrement_success flag_false_success :
      (key uuid : ℕ) → RwReply
  flag_success flag_queued flag_readers_success :
      (key uuid readers : ℕ) → (writer_flag : Bool) → RwReply

-- The broker with `registeredListeners`: under each key the one pushed last comes first. `replies` holds
-- the frames of these handlers, the latest first. `orphans` holds the lock objects that closures keep alive.
pub record Rw (Q : Type 0) : Type 0 where
  pub broker : Broker Q
  pub registered_listeners : Dict (List Listener)
  pub replies : List (ℕ × RwReply)
  pub orphans : Dict (LockObj Q)

abbrev pub listeners : {Q : Type 0} → ℕ → Rw Q → List Listener
listeners k s = elim (get k s.registered_listeners) [ none ↦ [] | some v ↦ v ]

module _ {Q : Type 0} where
  unfoldable pub reply_to : Env → ℕ → RwReply → Rw Q → Rw Q
  reply_to e ws r s = if e.writable ws then record s { replies = (ws, r) ∷ s.replies } else s

  abbrev pub put_rw : ℕ → LockObj Q → Rw Q → Rw Q
  put_rw k l s = record s { broker = put_lock k l s.broker }

  abbrev pub push_listener : ℕ → Listener → Rw Q → Rw Q
  push_listener k p s = record s {
    registered_listeners = set k (p ∷ listeners k s) s.registered_listeners;
  }

  -- The lock object of a closure is written back where it is.
  unfoldable pub put_captured : Option ℕ → ℕ → LockObj Q → Rw Q → Rw Q
  put_captured none k l s = put_rw k l s
  put_captured (some i) k l s = record s { orphans = set i l s.orphans }

  -- `p.fn()`, whose `lck` is the lock object.
  unfoldable pub call_fn : Env → ℕ → Listener → LockObj Q → Rw Q → Rw Q
  unfolding reply_to put_captured
  call_fn e k p l s = elim p.fn [
    | set_flag ↦ put_captured p.orphan k (record l { writer_flag = true }) s
    | add_reader ↦
        reply_to e p.ws (flag_success k p.uuid (l.readers + 1) false)
          (put_captured p.orphan k (record l { readers = l.readers + 1 }) s)
  ]

  -- The lock object to which a closure refers.
  unfoldable pub captured : Option ℕ → ℕ → Rw Q → Option (LockObj Q)
  captured none k s = get k s.broker.locks
  captured (some i) k s = get i s.orphans

  unfoldable pub call_listener : Env → ℕ → Listener → Rw Q → Rw Q
  unfolding call_fn reply_to captured
  call_listener e k p s = elim (captured p.orphan k s) [
    | none ↦ s
    | some l ↦ reply_to e p.ws (broadcast_result k p.uuid) (call_fn e k p l s)
  ]

  -- `while (v.length > 0) …`
  unfoldable pub call_all : Env → ℕ → List Listener → Rw Q → Rw Q
  unfolding call_listener
  call_all e k [] s = s
  call_all e k (p ∷ v) s = call_all e k v (call_listener e k p s)

  -- `broadcast`: the last argument is the socket of the request with its uuid, if there is one.
  unfoldable pub broadcast : Env → ℕ → Option (ℕ × ℕ) → Rw Q → Rw Q
  unfolding call_all
  broadcast e k from s =
      let called : Rw Q = call_all e k (listeners k s) s in
      let emptied : Rw Q = record called {
        registered_listeners = set k [] called.registered_listeners;
      } in
      elim from [
        | none ↦ emptied
        | some (ws, uuid) ↦ reply_to e ws (broadcast_success k uuid) emptied
      ]

module _ {Q : Type 0} ⦃lq : LinkedQueue Q⦄ where
  -- `if (!this.locks.has(key)) this.locks.set(key, this.getDefaultLockObject(key, false, 1))`
  abbrev pub rw_lock : Env → ℕ → Rw Q → LockObj Q
  rw_lock e k s = lock_or_default e false k s.broker

  unfoldable pub increment_readers : Env → ℕ → ℕ → ℕ → Rw Q → Rw Q
  unfolding reply_to
  increment_readers e k uuid ws s =
      let l = rw_lock e k s in
      reply_to e ws (increment_success k uuid) (put_rw k (record l { readers = l.readers + 1 }) s)

  -- The last reader to go wakes those that wait.
  unfoldable pub decrement_readers : Env → ℕ → ℕ → ℕ → Rw Q → Rw Q
  unfolding reply_to broadcast
  decrement_readers e k uuid ws s =
      let l = rw_lock e k s in
      let left = put_rw k (record l { readers = l.readers - 1 }) s in
      reply_to e ws (decrement_success k uuid)
        (if l.readers - 1 == 0 then broadcast e k none left else left)

  unfoldable pub set_write_flag_to_false_and_broadcast : Env → ℕ → ℕ → ℕ → Rw Q → Rw Q
  unfolding reply_to broadcast
  set_write_flag_to_false_and_broadcast e k uuid ws s =
      reply_to e ws (flag_false_success k uuid)
        (broadcast e k none (put_rw k (record (rw_lock e k s) { writer_flag = false }) s))

  unfoldable pub register_write_flag_and_readers_check : Env → ℕ → ℕ → ℕ → Rw Q → Rw Q
  unfolding reply_to
  register_write_flag_and_readers_check e k uuid ws s =
      let l = rw_lock e k s in
      if l.writer_flag || ltb 1 l.readers
      then push_listener k (record { ws = ws; uuid = uuid; fn = set_flag; orphan = none })
          (put_rw k l s)
      else reply_to e ws (flag_readers_success k uuid l.readers l.writer_flag)
          (put_rw k (record l { writer_flag = true }) s)

  unfoldable pub register_write_flag_check : Env → ℕ → ℕ → ℕ → Rw Q → Rw Q
  unfolding reply_to
  register_write_flag_check e k uuid ws s =
      let l = rw_lock e k s in
      if l.writer_flag
      then reply_to e ws (flag_queued k uuid l.readers true) (
          push_listener k (record { ws = ws; uuid = uuid; fn = add_reader; orphan = none })
            (put_rw k l s))
      else reply_to e ws (flag_success k uuid l.readers l.writer_flag) (put_rw k l s)
