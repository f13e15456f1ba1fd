-- ===== src/Broker/Events.antt =====
-- src/broker-1.ts: the frames that `dispatchRequest` hands to a handler or handles itself, the
-- re-election timer of `ensureNewLockHolder`, and runs of the broker over a list of events.
use live_mutex.Prelude.{
  ℕ, Bool, true, false, not, ◌&&◌, Option, none, some, List, [], ◌∷◌, if◌then◌else◌, contains, add,
  ◌>>=◌,
}
use live_mutex.Dict.{get, erase, has}
use live_mutex.LinkedQueue.{LinkedQueue, Notify}
use live_mutex.Broker.Types.{Env, LockObj, Broker, lock_reelection}
use live_mutex.Broker.Grant.{put_lock, send}
use live_mutex.Broker.Drain.{ensure_new_lock_holder}
use live_mutex.Broker.Lock.{LockRequest, lock}
use live_mutex.Broker.Unlock.{UnlockRequest, unlock, forget_member}
use live_mutex.Broker.Composite.{ManyRequest, acquire_many, release_many}
use live_mutex.Broker.Sweep.{tick_ttl}
use live_mutex.Broker.Connection.{cleanup_connection}

-- What the event loop hands to the broker: a frame with its socket, a closed socket, a timer.
pub data Event : Type 0 where
  lock_frame : LockRequest → (ws : ℕ) → Event
  unlock_frame : UnlockRequest → (ws : ℕ) → Event
  acquire_many_frame : ManyRequest → (ws : ℕ) → Event
  release_many_frame : (uuid : ℕ) → (lock_uuid : Option ℕ) → (ws : ℕ) → Event
  lock_received : (key : ℕ) → Event
  lock_client_gone : (key uuid : ℕ) → Event
  lock_received_rejected : (key uuid : ℕ) → (holder : Option ℕ) → Event
  socket_closed : (ws : ℕ) → Event
  sweep : Event
  reelection : (key : ℕ) → Event

module _ {Q : Type 0} where
  -- `clearTimeout(this.timeouts[k]); delete this.timeouts[k]`
  unfoldable pub confirm : ℕ → Broker Q → Broker Q
  confirm k b = record b { timeouts = erase k b.timeouts }

  -- The `reelection` frame to each waiter that was taken from the queue.
  unfoldable pub tell_reelection : Env → ℕ → ℕ → List Notify → Broker Q → Broker Q
  tell_reelection e k ln [] b = b
  tell_reelection e k ln (n ∷ ns) b =
      tell_reelection e k ln ns (send e n.ws (lock_reelection k n.uuid ln) b)

module _ {Q : Type 0} ⦃lq : LinkedQueue Q⦄ where
  -- `LockClientTimeout` and `LockClientError`: the waiter leaves the queue.
  unfoldable pub forget_waiter : ℕ → ℕ → Broker Q → Broker Q
  forget_waiter k uuid b = elim (get k b.locks) [
    | none ↦ b
    | some lck ↦ put_lock k (record lck { notify = lq.remove uuid lck.notify }) b
  ]

  -- `LockReceivedRejected`
  unfoldable pub reject : Env → ℕ → ℕ → ℕ → Option ℕ → Broker Q → Option (Broker Q)
  reject e fuel k uuid holder b = elim (get k b.locks) [
    | none ↦ some b
    | some _ ↦ ensure_new_lock_holder e fuel k holder (record b { rejected = add uuid b.rejected })
  ]

  -- Up to five waiters leave the queue and are told to try again.
  unfoldable pub tell_five : Env → ℕ → ℕ → LockObj Q → Broker Q → Broker Q
  unfolding tell_reelection
  tell_five e k ln lck b =
      tell_reelection e k ln (lq.deq 5 lck.notify).0
        (put_lock k (record lck { notify = (lq.deq 5 lck.notify).1 }) b)

  -- `notifyList.contains(uuid)`
  abbrev pub is_queued : ℕ → Q → Bool
  is_queued uuid q = elim (lq.find uuid q) [ none ↦ false | some _ ↦ true ]

  -- A holder that was there, did not reject and does not wait again costs five more waiters.
  unfoldable pub tell_first : Env → ℕ → ℕ → LockObj Q → Broker Q → Broker Q
  unfolding tell_five
  tell_first e k uuid lck b =
      let left = record lck { lockholders = erase uuid lck.lockholders } in
      if has uuid lck.lockholders
        && not (contains uuid b.rejected)
        && not (is_queued uuid lck.notify)
      then tell_five e k (lq.count lck.notify) left b
      else put_lock k left b

  unfoldable pub reelect_lock : Env → ℕ → ℕ → LockObj Q → Broker Q → Broker Q
  unfolding tell_first tell_five
  reelect_lock e k uuid lck b =
      let told = tell_first e k uuid lck b in
      elim (get k told.locks) [ none ↦ told | some l ↦ tell_five e k (lq.count lck.notify) l told ]

  -- The timer of `k` fires.
  unfoldable pub reelect : Env → ℕ → Broker Q → Broker Q
  unfolding reelect_lock
  reelect e k b = elim (get k b.timeouts) [
    | none ↦ b
    | some t ↦
        let b' : Broker Q = record b {
          ws_to_keys = forget_member t.ws k b.ws_to_keys;
          timeouts = erase k b.timeouts;
        } in
        elim (get k b'.locks) [ none ↦ b' | some lck ↦ reelect_lock e k t.uuid lck b' ]
  ]

  unfoldable pub step : ℕ → Env × Event → Broker Q → Option (Broker Q)
  step fuel (e, lock_frame r ws) b = some (lock e r ws b)
  step fuel (e, unlock_frame r ws) b = unlock e fuel r (some ws) b
  step fuel (e, acquire_many_frame r ws) b = some (acquire_many e r ws b)
  step fuel (e, release_many_frame uuid lock_uuid ws) b = release_many e fuel uuid lock_uuid ws b
  step fuel (e, lock_received k) b = some (confirm k b)
  step fuel (e, lock_client_gone k uuid) b = some (forget_waiter k uuid b)
  step fuel (e, lock_received_rejected k uuid holder) b = reject e fuel k uuid holder b
  step fuel (e, socket_closed ws) b = cleanup_connection e fuel ws b
  step fuel (e, sweep) b = tick_ttl e fuel b >>= λ r. some r.0
  step fuel (e, reelection k) b = some (reelect e k b)

  -- The events in turn, each at its own time.
  unfoldable pub run : ℕ → List (Env × Event) → Broker Q → Option (Broker Q)
  run fuel [] b = some b
  run fuel (x ∷ xs) b = step fuel x b >>= λ b'. run fuel xs b'

  -- The broker as it starts.
  unfoldable pub new_broker : Broker Q
  new_broker = record {
    locks = [];
    holder_deadlines = [];
    composite_locks = [];
    timeouts = [];
    rejected = [];
    ws_to_keys = [];
    ws_to_uuids = [];
    connected_clients = [];
    lmx_closed = [];
    lock_counts = 0;
    ttl_evictions_total = 0;
    drawn = 0;
    sent = [];
  }
