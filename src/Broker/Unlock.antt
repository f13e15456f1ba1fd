-- ===== src/Broker/Unlock.antt =====
-- src/broker-1.ts: `unlock`. A handler that wakes waiters returns `none` if the fuel of
-- `ensureNewLockHolder` runs out.
use live_mutex.Prelude.{
  ℕ, Bool, false, ◌||◌, Option, none, some, List, [], ◌∷◌, if◌then◌else◌, contains, add, discard,
}
use live_mutex.Dict.{Dict, get, set, erase, has}
use live_mutex.LinkedQueue.{LinkedQueue}
use live_mutex.Broker.Types.{
  Env, Holder, LockObj, Deadline, Reply, Broker, unlocked, unlock_no_such_lock, unlock_wrong_uuid,
  force_unlock_mismatch,
}
use live_mutex.Broker.Grant.{put_lock, send}
use live_mutex.Broker.Drain.{ensure_new_lock_holder}

-- The request of `unlock`. Calls from inside the broker have no `uuid`; `holder` is `_uuid`, the
-- uuid of the lock request.
pub record UnlockRequest : Type 0 where
  pub key : ℕ
  pub uuid : Option ℕ
  pub holder : Option ℕ
  pub force : Bool
  pub keep_locks_after_death : Bool

-- `delete this.wsToKeys.get(ws)[key]`
abbrev pub forget_member : ℕ → ℕ → Dict (List ℕ) → Dict (List ℕ)
forget_member ws x d = elim (get ws d) [ none ↦ d | some xs ↦ set ws (discard x xs) d ]

-- `lck.lockholderTimeouts[_uuid] || lck.lockholdersAllReleased[_uuid]`, and `lockholders.has(_uuid)`
abbrev pub contains? : Option ℕ → List ℕ → Bool
contains? none xs = false
contains? (some u) xs = contains u xs

abbrev pub has? {ℓ} : {V : Type ℓ} → Option ℕ → Dict V → Bool
has? none d = false
has? (some u) d = has u d

abbrev pub discard? : Option ℕ → List ℕ → List ℕ
discard? none xs = xs
discard? (some u) xs = discard u xs

-- The branch without `_uuid` of a forced unlock: all holders are marked, and their deadlines go.
abbrev pub add_all : Dict Holder → List ℕ → List ℕ
add_all [] xs = xs
add_all ((u, h) ∷ hs) xs = add_all hs (add u xs)

abbrev pub erase_all : Dict Holder → Dict Deadline → Dict Deadline
erase_all [] d = d
erase_all ((u, h) ∷ hs) d = erase_all hs (erase u d)

module _ {Q : Type 0} where
  -- What the socket no longer owns.
  unfoldable pub disown : UnlockRequest → Option ℕ → Broker Q → Broker Q
  disown r none b = b
  disown r (some ws) b = record b {
    ws_to_keys =
        if r.keep_locks_after_death then b.ws_to_keys else forget_member ws r.key b.ws_to_keys;
    ws_to_uuids = elim r.holder [
      | none ↦ b.ws_to_uuids
      | some u ↦ forget_member ws u b.ws_to_uuids
    ];
  }

  -- `if (uuid && ws) this.send(ws, …)`
  unfoldable pub answer : Env → Option ℕ → Option ℕ → (ℕ → Reply) → Broker Q → Broker Q
  answer e (some ws) (some uuid) reply b = send e ws (reply uuid) b
  answer e _ _ reply b = b

  -- Phase 1: the caller's own hold goes.
  unfoldable pub remove_holder : ℕ → LockObj Q → ℕ → Broker Q → Broker Q
  remove_holder k lck u b = record b {
    holder_deadlines = erase u b.holder_deadlines;
    locks =
        set k
          (record lck {
            lockholders = erase u lck.lockholders;
            lockholders_all_released = add u lck.lockholders_all_released;
          })
          b.locks;
  }

  -- Phase 2 (a): everyone's hold on the key goes.
  unfoldable pub wipe_holders : ℕ → LockObj Q → Broker Q → Broker Q
  wipe_holders k lck b = record b {
    holder_deadlines = erase_all lck.lockholders b.holder_deadlines;
    locks =
        set k
          (record lck {
            lockholders = [];
            lockholders_all_released = add_all lck.lockholders lck.lockholders_all_released;
          })
          b.locks;
  }

module _ {Q : Type 0} ⦃lq : LinkedQueue Q⦄ where
  -- `lck && (same || force)`
  unfoldable pub unlock_held :
      Env → ℕ → UnlockRequest → Option ℕ → LockObj Q → Broker Q → Option (Broker Q)
  unfolding answer remove_holder wipe_holders
  unlock_held e fuel r ws lck b =
      let ln = lq.count lck.notify in
      let report = answer e ws r.uuid (λ uuid. unlocked r.key uuid ln) in
      let wake = ensure_new_lock_holder e fuel r.key r.holder in
      elim r.holder [
        | none ↦ wake (report (wipe_holders r.key lck b))
        | some u ↦
            if has u lck.lockholders
            then wake (report (remove_holder r.key lck u b))
            else some (answer e ws r.uuid (λ uuid. force_unlock_mismatch r.key uuid ln) b)
      ]

  -- A lock object whose holder is not the caller, and no force: a late unlock is confirmed once.
  unfoldable pub unlock_other :
      Env → ℕ → UnlockRequest → Option ℕ → LockObj Q → Broker Q → Option (Broker Q)
  unfolding answer
  unlock_other e fuel r ws lck b =
      let ln = lq.count lck.notify in
      let forgotten = record lck {
        lockholder_timeouts = discard? r.holder lck.lockholder_timeouts;
        lockholders_all_released = discard? r.holder lck.lockholders_all_released;
      } in
      if contains? r.holder lck.lockholder_timeouts
        || contains? r.holder lck.lockholders_all_released
      then ensure_new_lock_holder e fuel r.key r.holder
          (answer e ws r.uuid (λ uuid. unlocked r.key uuid ln) (put_lock r.key forgotten b))
      else some (answer e ws r.uuid (λ uuid. unlock_wrong_uuid r.key uuid ln) b)

  unfoldable pub unlock : Env → ℕ → UnlockRequest → Option ℕ → Broker Q → Option (Broker Q)
  unfolding disown unlock_held unlock_other answer
  unlock e fuel r ws b =
      let b' = disown r ws b in
      elim (get r.key b'.locks) [
        | none ↦ some (answer e ws r.uuid (λ uuid. unlock_no_such_lock r.key uuid) b')
        | some lck ↦
            if has? r.holder lck.lockholders || r.force
            then unlock_held e fuel r ws lck b'
            else unlock_other e fuel r ws lck b'
      ]
