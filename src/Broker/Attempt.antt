-- ===== src/Broker/Attempt.antt =====
-- src/broker-1.ts: one attempt to take all keys of an `acquire-many` request, and its rollback; the
-- loops of `acquireMany` and of `tryGrantAcquireManyFromQueue`.
use live_mutex.Prelude.{ℕ, ◌+◌, Bool, Option, none, some, List, [], ◌∷◌, ◌++◌, leb, if◌then◌else◌}
use live_mutex.Dict.{Dict, get, set, erase, has, size}
use live_mutex.LinkedQueue.{LinkedQueue, Notify, AcquireMany}
use live_mutex.Broker.Types.{Env, LockObj, Broker, many_granted}
use live_mutex.Broker.Grant.{
  put_lock, send, mark_key, default_lock_object, expiry, schedule_deadline, add_holder,
}

-- The local variables of an attempt.
pub record Attempt (Q : Type 0) : Type 0 where
  pub broker : Broker Q
  pub granted_keys : List ℕ
  pub fencing_tokens : Dict ℕ
  pub holder_uuids : Dict ℕ
  pub contended_key : Option ℕ

module _ {Q : Type 0} where
  abbrev pub start : Broker Q → Attempt Q
  start b = record {
    broker = b;
    granted_keys = [];
    fencing_tokens = [];
    holder_uuids = [];
    contended_key = none;
  }

  -- The provisional grant of `k` under a fresh holder uuid.
  unfoldable pub provisional_grant : Env → Notify → ℕ → ℕ → LockObj Q → Attempt Q → Attempt Q
  provisional_grant e n composite k lck a = record a {
    broker = record b {
      locks = set k granted b.locks;
      holder_deadlines = schedule_deadline k holder_uuid (expiry e n.ttl) b.holder_deadlines;
      ws_to_keys = mark_key n.ws k b.ws_to_keys;
      drawn = b.drawn + 1;
    };
    granted_keys = a.granted_keys ++ k ∷ [];
    fencing_tokens = set k granted.next_fencing_token a.fencing_tokens;
    holder_uuids = set k holder_uuid a.holder_uuids;
  }
    where
      b : Broker Q
      b = a.broker

      holder_uuid : ℕ
      holder_uuid = e.uuid_v4 b.drawn

      granted : LockObj Q
      granted =
          add_holder n.ws holder_uuid n.pid (some composite) (expiry e n.ttl)
            (record lck { timestamp_emptied = none })

  -- `this.holderDeadlines.delete(h); lck.lockholders.delete(h)`
  abbrev pub drop_holder : ℕ → LockObj Q → ℕ → Broker Q → Broker Q
  drop_holder k lck h b = record b {
    locks = set k (record lck { lockholders = erase h lck.lockholders }) b.locks;
    holder_deadlines = erase h b.holder_deadlines;
  }

  -- One key of the rollback in `tryGrantAcquireManyFromQueue`.
  unfoldable pub rollback_queued_key : Dict ℕ → ℕ → Broker Q → Broker Q
  rollback_queued_key hs gk b = elim (get gk b.locks) [
    | none ↦ b
    | some lck ↦ elim (get gk hs) [ none ↦ b | some h ↦ drop_holder gk lck h b ]
  ]

  unfoldable pub rollback_queued : Dict ℕ → List ℕ → Broker Q → Broker Q
  unfolding rollback_queued_key
  rollback_queued hs [] b = b
  rollback_queued hs (gk ∷ gks) b = rollback_queued hs gks (rollback_queued_key hs gk b)

  -- One key of the rollback in `acquireMany`, which looks for the holder first.
  unfoldable pub rollback_key : Dict ℕ → ℕ → Broker Q → Broker Q
  rollback_key hs gk b = elim (get gk b.locks) [
    | none ↦ b
    | some lck ↦ elim (get gk hs) [
      | none ↦ b
      | some h ↦ if has h lck.lockholders then drop_holder gk lck h b else b
    ]
  ]

  unfoldable pub rollback : Dict ℕ → List ℕ → Broker Q → Broker Q
  unfolding rollback_key
  rollback hs [] b = b
  rollback hs (gk ∷ gks) b = rollback hs gks (rollback_key hs gk b)

module _ {Q : Type 0} ⦃lq : LinkedQueue Q⦄ where
  -- `existing ? existing : this.getDefaultLockObject(k, keepLocksAfterDeath, 1)`
  unfoldable pub lock_or_default : Env → Bool → ℕ → Broker Q → LockObj Q
  lock_or_default e keep k b = elim (get k b.locks) [
    | none ↦ default_lock_object e k keep (some 1) none none
    | some lck ↦ lck
  ]

  -- `count >= max` in `acquireMany`; a key without a lock object has room for one.
  unfoldable pub is_contended : ℕ → Broker Q → Bool
  is_contended k b = elim (get k b.locks) [
    | none ↦ leb 1 0
    | some lck ↦ leb lck.max (size lck.lockholders)
  ]

  -- The loop of `acquireMany` over the sorted keys, up to the first contended one.
  unfoldable pub grab_keys : Env → Notify → ℕ → List ℕ → Attempt Q → Attempt Q
  grab_keys e n composite [] a = a
  grab_keys e n composite (k ∷ ks) a =
      let lck = lock_or_default e n.keep_locks_after_death k a.broker in
      let rest = grab_keys e n composite ks (provisional_grant e n composite k lck a) in
      if is_contended k a.broker then record a { contended_key = some k } else rest

  -- The loop of `tryGrantAcquireManyFromQueue`, which makes a missing lock object first.
  unfoldable pub regrab_keys : Env → Notify → ℕ → List ℕ → Attempt Q → Attempt Q
  regrab_keys e n composite [] a = a
  regrab_keys e n composite (k ∷ ks) a =
      let lck = lock_or_default e n.keep_locks_after_death k a.broker in
      let made : Attempt Q = record a { broker = put_lock k lck a.broker } in
      let rest = regrab_keys e n composite ks (provisional_grant e n composite k lck made) in
      if leb lck.max (size lck.lockholders) then record made { contended_key = some k } else rest

  -- Put a waiter at the end of the queue of `k`, unless its uuid is there already.
  unfoldable pub enqueue_waiter : Env → Notify → ℕ → Broker Q → Broker Q
  enqueue_waiter e n k b =
      let lck = lock_or_default e n.keep_locks_after_death k b in
      elim (lq.find n.uuid lck.notify) [
        | none ↦ put_lock k (record lck { notify = lq.enqueue n.uuid n lck.notify }) b
        | some _ ↦ put_lock k lck b
      ]

  unfoldable pub register_composite : Env → Notify → AcquireMany → Attempt Q → Broker Q
  register_composite e n m a =
      send e n.ws (many_granted n.uuid m.all_keys m.composite_lock_uuid a.fencing_tokens)
        (record (a.broker) {
          composite_locks =
              set m.composite_lock_uuid
                (record {
                  keys = m.all_keys;
                  holder_uuids = a.holder_uuids;
                  fencing_tokens = a.fencing_tokens;
                })
                a.broker.composite_locks;
        })

  unfoldable pub try_grant_acquire_many : Env → Notify → AcquireMany → Broker Q → Broker Q
  unfolding register_composite
  try_grant_acquire_many e n m b =
      let a = regrab_keys e n m.composite_lock_uuid m.all_keys (start b) in
      elim a.contended_key [
        | none ↦ register_composite e n m a
        | some c ↦ enqueue_waiter e n c (rollback_queued a.holder_uuids a.granted_keys a.broker)
      ]
