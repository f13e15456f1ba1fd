-- ===== src/Broker/Closure/Attempts.antt =====
-- The attempts at an `acquire-many` request keep a closed statement of the lock objects.
use live_mutex.Prelude.{
  ℕ, ◌<◌, ◌≡◌, refl, sym, ◌∙◌, Bool, inl, inr, some, List, [], ◌∷◌, arith, leb, leb→lt, Bool-cases,
  Option-cases,
}
use live_mutex.Dict.{Dict, get, size, has}
use live_mutex.LinkedQueue.{LinkedQueue, Notify, AcquireMany}
use live_mutex.Broker.Types.{Env, LockObj, Broker}
use live_mutex.Broker.Grant.{put_lock, default_lock_object}
use live_mutex.Broker.Attempt.{
  Attempt, start, provisional_grant, rollback_queued_key, rollback_queued, rollback_key, rollback,
  lock_or_default, is_contended, grab_keys, regrab_keys, enqueue_waiter, register_composite,
  try_grant_acquire_many, drop_holder,
}
use live_mutex.Broker.Closure.{
  Core, core, Holds, IsClosed, max-le-capacity_of, send-Holds, Holds-get, Holds-put, Holds-locks,
  lock_or_default-Holds,
}

module _ {Q : Type 0} ⦃lq : LinkedQueue Q⦄ {P : ℕ → Core → Type 0} (closed : IsClosed P) where
  provisional_grant-Holds :
      (e : Env) (n : Notify) (composite k : ℕ) (l : LockObj Q) (a : Attempt Q)
      → Holds P a.broker
      → P k (core l)
      → size l.lockholders < l.max
      → Holds P (provisional_grant e n composite k l a).broker
  unfolding provisional_grant
  provisional_grant-Holds e n composite k l a h p room = Holds-put k _ a.broker _ refl h (
      closed.admit k _ _ (core l) p (omega (arith, max-le-capacity_of l.max l.max_read l.max_write))
        refl)

  is_contended-eq :
      (e : Env) (keep : Bool) (k : ℕ) (b : Broker Q)
      → let l = lock_or_default e keep k b in is_contended k b ≡ leb l.max (size l.lockholders)
  unfolding is_contended lock_or_default default_lock_object
  is_contended-eq e keep k b = ground arith

  pub grab_keys-Holds :
      (e : Env) (n : Notify) (composite : ℕ) (ks : List ℕ) (a : Attempt Q)
      → Holds P a.broker
      → Holds P (grab_keys e n composite ks a).broker
  unfolding grab_keys
  grab_keys-Holds e n composite [] a h = h
  grab_keys-Holds e n composite (k ∷ ks) a h =
      let keep = n.keep_locks_after_death in
      let l = lock_or_default e keep k a.broker in
      elim (Bool-cases (is_contended k a.broker)) [
        | inl full ↦ rw full h
        | inr room ↦ rw room (
            grab_keys-Holds e n composite ks (provisional_grant e n composite k l a) (
              provisional_grant-Holds e n composite k l a h
                (lock_or_default-Holds closed e keep k a.broker h)
                (leb→lt _ _ (sym (is_contended-eq e keep k a.broker) ∙ room))))
      ]

  pub regrab_keys-Holds :
      (e : Env) (n : Notify) (composite : ℕ) (ks : List ℕ) (a : Attempt Q)
      → Holds P a.broker
      → Holds P (regrab_keys e n composite ks a).broker
  unfolding regrab_keys
  regrab_keys-Holds e n composite [] a h = h
  regrab_keys-Holds e n composite (k ∷ ks) a h =
      let keep = n.keep_locks_after_death in
      let l = lock_or_default e keep k a.broker in
      let made : Attempt Q = record a { broker = put_lock k l a.broker } in
      let p = lock_or_default-Holds closed e keep k a.broker h in
      let h' = Holds-put k l a.broker (put_lock k l a.broker) refl h p in
      elim (Bool-cases (leb l.max (size l.lockholders))) [
        | inl full ↦ rw full h'
        | inr room ↦ rw room (
            regrab_keys-Holds e n composite ks (provisional_grant e n composite k l made)
              (provisional_grant-Holds e n composite k l made h' p (leb→lt _ _ room)))
      ]

  drop_holder-Holds :
      (k : ℕ) (l : LockObj Q) (u : ℕ) (b : Broker Q)
      → Holds P b
      → get k b.locks ≡ some l
      → Holds P (drop_holder k l u b)
  drop_holder-Holds k l u b h e =
      Holds-put k _ b _ refl h (closed.remove k u (core l) (Holds-get b k l h e))

  rollback_queued_key-Holds :
      (hs : Dict ℕ) (gk : ℕ) (b : Broker Q) → Holds P b → Holds P (rollback_queued_key hs gk b)
  unfolding rollback_queued_key
  rollback_queued_key-Holds hs gk b h = elim (Option-cases (get gk b.locks)) [
    | inl absent ↦ rw (absent, rollback_queued_key) h
    | inr (l, found) ↦ elim (Option-cases (get gk hs)) [
      | inl unknown ↦ rw (found, unknown, rollback_queued_key) h
      | inr (u, known) ↦ rw (found, known, rollback_queued_key) (drop_holder-Holds gk l u b h found)
    ]
  ]

  rollback_queued-Holds :
      (hs : Dict ℕ) (gks : List ℕ) (b : Broker Q) → Holds P b → Holds P (rollback_queued hs gks b)
  unfolding rollback_queued
  rollback_queued-Holds hs [] b h = h
  rollback_queued-Holds hs (gk ∷ gks) b h =
      rollback_queued-Holds hs gks _ (rollback_queued_key-Holds hs gk b h)

  rollback_key-Holds :
      (hs : Dict ℕ) (gk : ℕ) (b : Broker Q) → Holds P b → Holds P (rollback_key hs gk b)
  unfolding rollback_key
  rollback_key-Holds hs gk b h = elim (Option-cases (get gk b.locks)) [
    | inl absent ↦ rw (absent, rollback_key) h
    | inr (l, found) ↦ elim (Option-cases (get gk hs)) [
      | inl unknown ↦ rw (found, unknown, rollback_key) h
      | inr (u, known) ↦ elim (Bool-cases (has u l.lockholders)) [
        | inl held ↦ rw (found, known, held, rollback_key) (drop_holder-Holds gk l u b h found)
        | inr gone ↦ rw (found, known, gone, rollback_key) h
      ]
    ]
  ]

  pub rollback-Holds :
      (hs : Dict ℕ) (gks : List ℕ) (b : Broker Q) → Holds P b → Holds P (rollback hs gks b)
  unfolding rollback
  rollback-Holds hs [] b h = h
  rollback-Holds hs (gk ∷ gks) b h = rollback-Holds hs gks _ (rollback_key-Holds hs gk b h)

  pub enqueue_waiter-Holds :
      (e : Env) (n : Notify) (k : ℕ) (b : Broker Q) → Holds P b → Holds P (enqueue_waiter e n k b)
  unfolding enqueue_waiter
  enqueue_waiter-Holds e n k b h =
      let l = lock_or_default e n.keep_locks_after_death k b in
      let p = lock_or_default-Holds closed e n.keep_locks_after_death k b h in
      elim (Option-cases (lq.find n.uuid l.notify)) [
        | inl new ↦ rw (new, enqueue_waiter) (Holds-put k _ b _ refl h p)
        | inr (_, old) ↦ rw (old, enqueue_waiter) (Holds-put k _ b _ refl h p)
      ]

  pub register_composite-Holds :
      (e : Env) (n : Notify) (m : AcquireMany) (a : Attempt Q)
      → Holds P a.broker
      → Holds P (register_composite e n m a)
  unfolding register_composite
  register_composite-Holds e n m a h = send-Holds e n.ws _ _ (Holds-locks a.broker _ refl h)

  pub try_grant_acquire_many-Holds :
      (e : Env) (n : Notify) (m : AcquireMany) (b : Broker Q)
      → Holds P b
      → Holds P (try_grant_acquire_many e n m b)
  unfolding try_grant_acquire_many
  try_grant_acquire_many-Holds e n m b h =
      let a = regrab_keys e n m.composite_lock_uuid m.all_keys (start b) in
      let kept = regrab_keys-Holds e n m.composite_lock_uuid m.all_keys (start b) h in
      elim (Option-cases a.contended_key) [
        | inl free ↦ rw (free, try_grant_acquire_many) (register_composite-Holds e n m a kept)
        | inr (c, taken) ↦
            rw (taken, try_grant_acquire_many)
              (enqueue_waiter-Holds e n c _ (rollback_queued-Holds _ _ _ kept))
      ]
