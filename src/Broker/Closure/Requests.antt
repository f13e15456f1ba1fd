-- ===== src/Broker/Closure/Requests.antt =====
-- `unlock`, `acquireMany`, `releaseMany`, `tickTtl` and `cleanupConnection` keep a closed statement of
-- the lock objects.
use live_mutex.Prelude.{
  ℕ, ◌+◌, ◌≡◌, refl, Bool, true, false, ◌||◌, inl, inr, Option, none, some, List, [], ◌∷◌,
  Bool-cases, Option-cases, Every, Every->>=,
}
use live_mutex.Dict.{get, has}
use live_mutex.LinkedQueue.{LinkedQueue, Notify, AcquireMany}
use live_mutex.Broker.Types.{Env, LockObj, Reply, Composite, Broker}
use live_mutex.Broker.Attempt.{start, grab_keys}
use live_mutex.Broker.Unlock.{
  UnlockRequest, contains?, has?, disown, answer, remove_holder, wipe_holders, unlock_held,
  unlock_other, unlock,
}
use live_mutex.Broker.Composite.{
  ManyRequest, validate_keys, refuse_many, many_waiter, acquire_keys, acquire_many, release_key,
  release_keys, release_many,
}
use live_mutex.Broker.Closure.{
  Core, core, Holds, IsClosed, send-Holds, Holds-get, Holds-put, Holds-locks,
}
use live_mutex.Broker.Closure.Attempts.{
  grab_keys-Holds, rollback-Holds, enqueue_waiter-Holds, register_composite-Holds,
}
use live_mutex.Broker.Closure.Handlers.{ensure_new_lock_holder-Holds}

module _ {Q : Type 0} {P : ℕ → Core → Type 0} where
  pub answer-Holds :
      (e : Env) (ws uuid : Option ℕ) (reply : ℕ → Reply) (b : Broker Q)
      → Holds P b
      → Holds P (answer e ws uuid reply b)
  unfolding answer
  answer-Holds e (some ws) (some uuid) reply b h = send-Holds e ws (reply uuid) b h
  answer-Holds e (some ws) none reply b h = h
  answer-Holds e none _ reply b h = h

  pub disown-Holds :
      (r : UnlockRequest) (ws : Option ℕ) (b : Broker Q) → Holds P b → Holds P (disown r ws b)
  unfolding disown
  disown-Holds r none b h = h
  disown-Holds r (some ws) b h = Holds-locks b _ refl h

module _ {Q : Type 0} ⦃lq : LinkedQueue Q⦄ {P : ℕ → Core → Type 0} (closed : IsClosed P) where
  unlock_held-Holds :
      (e : Env) (fuel : ℕ) (r : UnlockRequest) (ws u : Option ℕ) (l : LockObj Q) (b : Broker Q)
      → r.holder ≡ u
      → get r.key b.locks ≡ some l
      → Holds P b
      → Every (Holds P) (unlock_held e fuel r ws l b)
  unfolding unlock_held remove_holder wipe_holders
  unlock_held-Holds e fuel r ws none l b e₁ found h =
      rw (e₁, unlock_held)
        (ensure_new_lock_holder-Holds closed e fuel r.key _ _ (
          answer-Holds e ws r.uuid _ _ (
            Holds-put r.key _ b _ refl h
              (closed.clear r.key (core l) (Holds-get b r.key l h found)))))
  unlock_held-Holds e fuel r ws (some u) l b e₁ found h = elim (Bool-cases (has u l.lockholders)) [
    | inl held ↦
        rw (e₁, held, unlock_held)
          (ensure_new_lock_holder-Holds closed e fuel r.key _ _ (
            answer-Holds e ws r.uuid _ _ (
              Holds-put r.key _ b _ refl h
                (closed.remove r.key u (core l) (Holds-get b r.key l h found)))))
    | inr other ↦ rw (e₁, other, unlock_held) (answer-Holds e ws r.uuid _ b h)
  ]

  unlock_other-Holds :
      (e : Env) (fuel : ℕ) (r : UnlockRequest) (ws : Option ℕ) (l : LockObj Q) (b : Broker Q)
      → get r.key b.locks ≡ some l
      → Holds P b
      → Every (Holds P) (unlock_other e fuel r ws l b)
  unfolding unlock_other
  unlock_other-Holds e fuel r ws l b found h =
      elim (Bool-cases (
        contains? r.holder l.lockholder_timeouts
        || contains? r.holder l.lockholders_all_released)) [
          | inl late ↦ rw late (
              ensure_new_lock_holder-Holds closed e fuel r.key r.holder _ (
                answer-Holds e ws r.uuid _ _
                  (Holds-put r.key _ b _ refl h (Holds-get b r.key l h found))))
          | inr wrong ↦ rw wrong (answer-Holds e ws r.uuid _ b h)
        ]

  pub unlock-Holds :
      (e : Env) (fuel : ℕ) (r : UnlockRequest) (ws : Option ℕ) (b : Broker Q)
      → Holds P b
      → Every (Holds P) (unlock e fuel r ws b)
  unfolding unlock
  unlock-Holds e fuel r ws b h =
      let b' = disown r ws b in
      let h' = disown-Holds r ws b h in
      elim (Option-cases (get r.key b'.locks)) [
        | inl absent ↦ rw (absent, unlock) (answer-Holds e ws r.uuid _ b' h')
        | inr (l, found) ↦ elim (Bool-cases (has? r.holder l.lockholders || r.force)) [
          | inl may ↦
              rw (found, may, unlock) (unlock_held-Holds e fuel r ws r.holder l b' refl found h')
          | inr other ↦ rw (found, other, unlock) (unlock_other-Holds e fuel r ws l b' found h')
        ]
      ]

  refuse_many-Holds :
      (e : Env) (n : Notify) (keys : List ℕ) (wait : Bool) (k : ℕ) (b : Broker Q)
      → Holds P b
      → Holds P (refuse_many e n keys wait k b)
  unfolding refuse_many
  refuse_many-Holds e n keys true k b h =
      send-Holds e n.ws _ _ (enqueue_waiter-Holds closed e n k b h)
  refuse_many-Holds e n keys false k b h = send-Holds e n.ws _ b h

  acquire_keys-Holds :
      (e : Env) (r : ManyRequest) (ws : ℕ) (keys : List ℕ) (b : Broker Q)
      → Holds P b
      → Holds P (acquire_keys e r ws keys b)
  unfolding acquire_keys
  acquire_keys-Holds e r ws keys b h =
      let m : AcquireMany = record { all_keys = keys; composite_lock_uuid = e.uuid_v4 b.drawn } in
      let n = many_waiter e r ws m in
      let b₁ : Broker Q = record b { drawn = b.drawn + 1 } in
      let a = grab_keys e n m.composite_lock_uuid keys (start b₁) in
      let h₁ =
        grab_keys-Holds closed e n m.composite_lock_uuid keys (start b₁)
          (Holds-locks b b₁ refl h) in
      elim (Option-cases a.contended_key) [
        | inl free ↦ rw (free, acquire_keys) (register_composite-Holds closed e n m a h₁)
        | inr (k, taken) ↦
            rw (taken, acquire_keys)
              (refuse_many-Holds e n keys r.wait k _ (rollback-Holds closed _ _ _ h₁))
      ]

  pub acquire_many-Holds :
      (e : Env) (r : ManyRequest) (ws : ℕ) (b : Broker Q)
      → Holds P b
      → Holds P (acquire_many e r ws b)
  unfolding acquire_many
  acquire_many-Holds e r ws b h = elim (Option-cases (validate_keys r.keys)) [
    | inl invalid ↦ rw (invalid, acquire_many) (send-Holds e ws _ b h)
    | inr (keys, ok) ↦ rw (ok, acquire_many) (acquire_keys-Holds e r ws keys b h)
  ]

  release_key-Holds :
      (e : Env) (fuel : ℕ) (c : Composite) (k : ℕ) (b : Broker Q)
      → Holds P b
      → Every (Holds P) (release_key e fuel c k b)
  unfolding release_key
  release_key-Holds e fuel c k b h = elim (Option-cases (get k c.holder_uuids)) [
    | inl unknown ↦ rw (unknown, release_key) h
    | inr (u, known) ↦ elim (Option-cases (get k b.locks)) [
      | inl absent ↦ rw (known, absent, release_key) h
      | inr (l, found) ↦
          rw (known, found, release_key)
            (ensure_new_lock_holder-Holds closed e fuel k _ _
              (Holds-put k _ b _ refl h (closed.remove k u (core l) (Holds-get b k l h found))))
    ]
  ]

  release_keys-Holds :
      (e : Env) (fuel : ℕ) (c : Composite) (ks : List ℕ) (b : Broker Q)
      → Holds P b
      → Every (Holds P) (release_keys e fuel c ks b)
  unfolding release_keys
  release_keys-Holds e fuel c [] b h = h
  release_keys-Holds e fuel c (k ∷ ks) b h =
      Every->>= (Holds P) (Holds P) (release_key e fuel c k b) _ (release_key-Holds e fuel c k b h)
        (λ b' h'. release_keys-Holds e fuel c ks b' h')

  pub release_many-Holds :
      (e : Env) (fuel uuid : ℕ) (lock_uuid : Option ℕ) (ws : ℕ) (b : Broker Q)
      → Holds P b
      → Every (Holds P) (release_many e fuel uuid lock_uuid ws b)
  unfolding release_many
  release_many-Holds e fuel uuid none ws b h = send-Holds e ws _ b h
  release_many-Holds e fuel uuid (some u) ws b h = elim (Option-cases (get u b.composite_locks)) [
    | inl unknown ↦ rw (unknown, release_many) (send-Holds e ws _ b h)
    | inr (c, known) ↦
        rw (known, release_many)
          (Every->>= (Holds P) (Holds P) (release_keys e fuel c c.keys b) _
            (release_keys-Holds e fuel c c.keys b h)
            (λ b' h'. send-Holds e ws _ _ (Holds-locks b' _ refl h')))
  ]
