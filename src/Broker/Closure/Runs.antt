-- ===== src/Broker/Closure/Runs.antt =====
-- Every run of the broker keeps a closed statement of the lock objects.
use live_mutex.Prelude.{
  ℕ, refl, not, ◌&&◌, inl, inr, Option, some, List, [], ◌∷◌, All, contains, Bool-cases,
  Option-cases, Every, Every->>=,
}
use live_mutex.Dict.{get, has}
use live_mutex.LinkedQueue.{LinkedQueue, Notify}
use live_mutex.Broker.Types.{Env, LockObj, Broker}
use live_mutex.Broker.Grant.{put_lock}
use live_mutex.Broker.Lock.{LockRequest}
use live_mutex.Broker.Sweep.{tick_ttl}
use live_mutex.Broker.Events.{
  Event, lock_frame, unlock_frame, acquire_many_frame, release_many_frame, lock_received,
  lock_client_gone, lock_received_rejected, socket_closed, sweep, reelection, confirm,
  tell_reelection, forget_waiter, reject, tell_five, is_queued, tell_first, reelect_lock, reelect,
  step, run, new_broker,
}
use live_mutex.Broker.Closure.{
  Core, core, Holds, IsClosed, send-Holds, Holds-get, Holds-put, Holds-locks,
}
use live_mutex.Broker.Closure.Handlers.{ensure_new_lock_holder-Holds}
use live_mutex.Broker.Closure.Requests.{unlock-Holds, acquire_many-Holds, release_many-Holds}
use live_mutex.Broker.Closure.Cleanup.{tick_ttl-Holds, cleanup_connection-Holds}
use live_mutex.Broker.Closure.Locking.{IsLockClosed, lock-Holds}

-- The lock requests among the events are allowed.
abbrev pub Allows : (LockRequest → Type 0) → Env × Event → Type 0
Allows Ok (e, lock_frame r ws) = Ok r
Allows Ok (e, _) = Unit

module _ {Q : Type 0} {P : ℕ → Core → Type 0} where
  tell_reelection-Holds :
      (e : Env) (k ln : ℕ) (ns : List Notify) (b : Broker Q)
      → Holds P b
      → Holds P (tell_reelection e k ln ns b)
  unfolding tell_reelection
  tell_reelection-Holds e k ln [] b h = h
  tell_reelection-Holds e k ln (n ∷ ns) b h =
      tell_reelection-Holds e k ln ns _ (send-Holds e n.ws _ b h)

module _ {Q : Type 0} ⦃lq : LinkedQueue Q⦄ {P : ℕ → Core → Type 0} where
  forget_waiter-Holds : (k uuid : ℕ) (b : Broker Q) → Holds P b → Holds P (forget_waiter k uuid b)
  unfolding forget_waiter
  forget_waiter-Holds k uuid b h = elim (Option-cases (get k b.locks)) [
    | inl absent ↦ rw (absent, forget_waiter) h
    | inr (l, found) ↦
        rw (found, forget_waiter) (Holds-put k _ b _ refl h (Holds-get b k l h found))
  ]

  tell_five-Holds :
      (e : Env) (k ln : ℕ) (l : LockObj Q) (b : Broker Q)
      → P k (core l)
      → Holds P b
      → Holds P (tell_five e k ln l b)
  unfolding tell_five
  tell_five-Holds e k ln l b p h =
      tell_reelection-Holds e k ln (lq.deq 5 l.notify).0
        (put_lock k (record l { notify = (lq.deq 5 l.notify).1 }) b) (Holds-put k _ b _ refl h p)

module _ {Q : Type 0} ⦃lq : LinkedQueue Q⦄ {P : ℕ → Core → Type 0} (closed : IsClosed P) where
  reject-Holds :
      (e : Env) (fuel k uuid : ℕ) (holder : Option ℕ) (b : Broker Q)
      → Holds P b
      → Every (Holds P) (reject e fuel k uuid holder b)
  unfolding reject
  reject-Holds e fuel k uuid holder b h = elim (Option-cases (get k b.locks)) [
    | inl absent ↦ rw (absent, reject) h
    | inr (l, found) ↦
        rw (found, reject)
          (ensure_new_lock_holder-Holds closed e fuel k holder _ (Holds-locks b _ refl h))
  ]

  tell_first-Holds :
      (e : Env) (k uuid : ℕ) (l : LockObj Q) (b : Broker Q)
      → P k (core l)
      → Holds P b
      → Holds P (tell_first e k uuid l b)
  unfolding tell_first
  tell_first-Holds e k uuid l b p h =
      let left = closed.remove k uuid (core l) p in
      elim (Bool-cases (
        has uuid l.lockholders
        && not (contains uuid b.rejected)
        && not (is_queued uuid l.notify))) [
          | inl again ↦ rw again (tell_five-Holds e k _ _ b left h)
          | inr once ↦ rw once (Holds-put k _ b _ refl h left)
        ]

  reelect_lock-Holds :
      (e : Env) (k uuid : ℕ) (l : LockObj Q) (b : Broker Q)
      → P k (core l)
      → Holds P b
      → Holds P (reelect_lock e k uuid l b)
  unfolding reelect_lock
  reelect_lock-Holds e k uuid l b p h =
      let told = tell_first e k uuid l b in
      let h' = tell_first-Holds e k uuid l b p h in
      elim (Option-cases (get k told.locks)) [
        | inl absent ↦ rw (absent, reelect_lock) h'
        | inr (l', found) ↦
            rw (found, reelect_lock)
              (tell_five-Holds e k (lq.count l.notify) l' told (Holds-get told k l' h' found) h')
      ]

  reelect-Holds : (e : Env) (k : ℕ) (b : Broker Q) → Holds P b → Holds P (reelect e k b)
  unfolding reelect
  reelect-Holds e k b h = elim (Option-cases (get k b.timeouts)) [
    | inl idle ↦ rw (idle, reelect) h
    | inr (t, armed) ↦ elim (Option-cases (get k b.locks)) [
      | inl absent ↦ rw (armed, absent, reelect) (Holds-locks b _ refl h)
      | inr (l, found) ↦
          rw (armed, found, reelect)
            (reelect_lock-Holds e k t.uuid l _ (Holds-get b k l h found) (Holds-locks b _ refl h))
    ]
  ]

module _ {Q : Type 0} ⦃lq : LinkedQueue Q⦄ {P : ℕ → Core → Type 0} {Ok : LockRequest → Type 0}
    (closed : IsClosed P) (lock_closed : IsLockClosed Q P Ok) where
  pub step-Holds :
      (fuel : ℕ) (x : Env × Event) (b : Broker Q)
      → Allows Ok x
      → Holds P b
      → Every (Holds P) (step fuel x b)
  unfolding step confirm
  step-Holds fuel (e, lock_frame r ws) b ok h = lock-Holds lock_closed e r ws b (λ _. ok) h
  step-Holds fuel (e, unlock_frame r ws) b ok h = unlock-Holds closed e fuel r (some ws) b h
  step-Holds fuel (e, acquire_many_frame r ws) b ok h = acquire_many-Holds closed e r ws b h
  step-Holds fuel (e, release_many_frame uuid lock_uuid ws) b ok h =
      release_many-Holds closed e fuel uuid lock_uuid ws b h
  step-Holds fuel (e, lock_received k) b ok h = Holds-locks b _ refl h
  step-Holds fuel (e, lock_client_gone k uuid) b ok h = forget_waiter-Holds k uuid b h
  step-Holds fuel (e, lock_received_rejected k uuid holder) b ok h =
      reject-Holds closed e fuel k uuid holder b h
  step-Holds fuel (e, socket_closed ws) b ok h = cleanup_connection-Holds closed e fuel ws b h
  step-Holds fuel (e, sweep) b ok h =
      Every->>= (λ r. Holds P r.0) (Holds P) (tick_ttl e fuel b) _
        (tick_ttl-Holds closed e fuel b h) (λ r h'. h')
  step-Holds fuel (e, reelection k) b ok h = reelect-Holds closed e k b h

  pub run-Holds :
      (fuel : ℕ) (xs : List (Env × Event)) (b : Broker Q)
      → All (Allows Ok) xs
      → Holds P b
      → Every (Holds P) (run fuel xs b)
  unfolding run
  run-Holds fuel [] b ok h = h
  run-Holds fuel (x ∷ xs) b ok h =
      Every->>= (Holds P) (Holds P) (step fuel x b) _ (step-Holds fuel x b ok.0 h)
        (λ b' h'. run-Holds fuel xs b' ok.1 h')

pub new_broker-Holds :
    (Q : Type 0) ⦃lq : LinkedQueue Q⦄ (P : ℕ → Core → Type 0) → Holds P (new_broker {Q = Q})
unfolding new_broker
new_broker-Holds Q P = record { each = tt }
