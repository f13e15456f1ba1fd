-- ===== src/Broker/Closure/Cleanup.antt =====
-- `tickTtl` and `cleanupConnection` keep a closed statement of the lock objects.
use live_mutex.Prelude.{
  ℕ, zero, suc, ◌≡◌, refl, not, ◌||◌, inl, inr, some, List, [], ◌∷◌, arith, Bool-cases,
  Option-cases, Every, Every->>=, contains,
}
use live_mutex.Dict.{Dict, get, has, AllEntries}
use live_mutex.LinkedQueue.{LinkedQueue}
use live_mutex.Broker.Types.{Env, LockObj, Broker}
use live_mutex.Broker.Unlock.{unlock}
use live_mutex.Broker.Sweep.{expired, evict_holder, evict, evict_all, tick_ttl}
use live_mutex.Broker.Connection.{
  members, entry_at, forget_socket, unlock_each, clean_key, clean_keys, cleanup_connection,
}
use live_mutex.Broker.Closure.{Core, core, Holds, IsClosed, Holds-get, Holds-put, Holds-locks}
use live_mutex.Broker.Closure.Handlers.{ensure_new_lock_holder-Holds}
use live_mutex.Broker.Closure.Requests.{unlock-Holds}

module _ {Q : Type 0} ⦃lq : LinkedQueue Q⦄ {P : ℕ → Core → Type 0} (closed : IsClosed P) where
  evict-Holds :
      (e : Env) (fuel : ℕ) (x : ℕ × ℕ) (b : Broker Q)
      → Holds P b
      → Every (Holds P) (evict e fuel x b)
  unfolding evict evict_holder
  evict-Holds e fuel (u, k) b h = elim (Option-cases (get k b.locks)) [
    | inl absent ↦ rw (absent, evict) (Holds-locks b _ refl h)
    | inr (l, found) ↦ elim (Bool-cases (has u l.lockholders)) [
      | inl held ↦
          rw (found, held, evict)
            (ensure_new_lock_holder-Holds closed e fuel k _ _
              (Holds-put k _ b _ refl h (closed.remove k u (core l) (Holds-get b k l h found))))
      | inr gone ↦ rw (found, gone, evict) (Holds-locks b _ refl h)
    ]
  ]

  evict_all-Holds :
      (e : Env) (fuel : ℕ) (xs : List (ℕ × ℕ)) (b : Broker Q)
      → Holds P b
      → Every (Holds P) (evict_all e fuel xs b)
  unfolding evict_all
  evict_all-Holds e fuel [] b h = h
  evict_all-Holds e fuel (x ∷ xs) b h =
      Every->>= (Holds P) (Holds P) (evict e fuel x b) _ (evict-Holds e fuel x b h)
        (λ b' h'. evict_all-Holds e fuel xs b' h')

  pub tick_ttl-Holds :
      (e : Env) (fuel : ℕ) (b : Broker Q) → Holds P b → Every (λ r. Holds P r.0) (tick_ttl e fuel b)
  unfolding tick_ttl
  tick_ttl-Holds e fuel b h =
      Every->>= (Holds P) (λ r. Holds P r.0) (evict_all e fuel (expired e.now b.holder_deadlines) b)
        _ (evict_all-Holds e fuel _ b h) (λ b' h'. h')

  unlock_each-Holds :
      (e : Env) (fuel ws k : ℕ) (us : List ℕ) (b : Broker Q)
      → Holds P b
      → Every (Holds P) (unlock_each e fuel ws k us b)
  unfolding unlock_each
  unlock_each-Holds e fuel ws k [] b h = h
  unlock_each-Holds e fuel ws k (u ∷ us) b h =
      Every->>= (Holds P) (Holds P) (unlock e fuel _ (some ws) b) _
        (unlock-Holds closed e fuel _ (some ws) b h)
        (λ b' h'. unlock_each-Holds e fuel ws k us b' h')

  clean_key-Holds :
      (e : Env) (fuel ws : ℕ) (uuids : List ℕ) (k : ℕ) (l : LockObj Q) (b : Broker Q)
      → P k (core l)
      → Holds P b
      → Every (Holds P) (clean_key e fuel ws uuids k l b)
  unfolding clean_key
  clean_key-Holds e fuel ws uuids k l b p h =
      let scrubbed = Holds-put k _ b _ refl h p in
      elim (Bool-cases (not l.is_via_shell || not l.keep_locks_after_death)) [
        | inl release ↦ rw release (unlock_each-Holds e fuel ws k _ _ scrubbed)
        | inr keep ↦ rw keep scrubbed
      ]

  entry_at-Holds :
      (i k : ℕ) (l : LockObj Q) (d : Dict (LockObj Q))
      → AllEntries (λ k l. P k (core l)) d
      → entry_at i d ≡ some (k, l)
      → P k (core l)
  entry_at-Holds i k l [] all e = cc
  entry_at-Holds zero k l ((j, w) ∷ d) all e = ground arith
  entry_at-Holds (suc i) k l ((j, w) ∷ d) all e = entry_at-Holds i k l d all.1 e

  clean_keys-Holds :
      (e : Env) (fuel ws : ℕ) (uuids : List ℕ) (rounds i : ℕ) (b : Broker Q)
      → Holds P b
      → Every (Holds P) (clean_keys e fuel ws uuids rounds i b)
  unfolding clean_keys
  clean_keys-Holds e fuel ws uuids zero i b h = tt
  clean_keys-Holds e fuel ws uuids (suc rounds) i b h = elim (Option-cases (entry_at i b.locks)) [
    | inl past ↦ rw (past, clean_keys) h
    | inr ((k, l), found) ↦
        rw (found, clean_keys)
          (Every->>= (Holds P) (Holds P) (clean_key e fuel ws uuids k l b) _
            (clean_key-Holds e fuel ws uuids k l b (entry_at-Holds i k l b.locks h.each found) h)
            (λ b' h'. clean_keys-Holds e fuel ws uuids rounds (suc i) b' h'))
  ]

  forget_socket-Holds : (ws : ℕ) (b : Broker Q) → Holds P b → Holds P (forget_socket ws b)
  unfolding forget_socket
  forget_socket-Holds ws b h = Holds-locks b _ refl h

  pub cleanup_connection-Holds :
      (e : Env) (fuel ws : ℕ) (b : Broker Q)
      → Holds P b
      → Every (Holds P) (cleanup_connection e fuel ws b)
  unfolding cleanup_connection
  cleanup_connection-Holds e fuel ws b h = elim (Bool-cases (contains ws b.lmx_closed)) [
    | inl closed_before ↦ rw closed_before h
    | inr live ↦ rw live (
        clean_keys-Holds e fuel ws (members ws b.ws_to_uuids) fuel 0 _ (forget_socket-Holds ws b h))
  ]
