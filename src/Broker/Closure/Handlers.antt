-- ===== src/Broker/Closure/Handlers.antt =====
-- `ensureNewLockHolder` and the handlers that release holds keep a closed statement of the lock objects.
use live_mutex.Prelude.{
  ℕ, zero, suc, ◌<◌, refl, inl, inr, Option, none, some, leb, leb→lt, ◌==◌, ◌&&◌, Bool-cases,
  Option-cases, Every,
}
use live_mutex.Dict.{get, size}
use live_mutex.LinkedQueue.{LinkedQueue, Notify}
use live_mutex.Broker.Types.{Env, LockObj, Broker}
use live_mutex.Broker.Grant.{put_lock, grant_lock}
use live_mutex.Broker.Drain.{
  capacity, Round, stop, again, grant_waiter, serve, serve_taken, serve_next, drain, release_holder,
  refill, ensure_new_lock_holder,
}
use live_mutex.Broker.Closure.{
  Core, core, Holds, IsClosed, send-Holds, Holds-get, Holds-put, Holds-locks,
}
use live_mutex.Broker.Closure.Attempts.{try_grant_acquire_many-Holds}

-- `P` holds of the broker that a round leaves.
abbrev pub RoundHolds : {Q : Type 0} → (ℕ → Core → Type 0) → Round Q → Type 0
RoundHolds P (stop b) = Holds P b
RoundHolds P (again b) = Holds P b

module _ {Q : Type 0} ⦃lq : LinkedQueue Q⦄ {P : ℕ → Core → Type 0} (closed : IsClosed P) where
  grant_waiter-Holds :
      (e : Env) (k : ℕ) (l : LockObj Q) (n : Notify) (b : Broker Q)
      → Holds P b
      → P k (core l)
      → size l.lockholders < capacity l
      → Holds P (grant_waiter e k l n b)
  unfolding grant_waiter grant_lock
  grant_waiter-Holds e k l n b h p room =
      Holds-locks _ _ refl
        (send-Holds e n.ws _ _ (Holds-put k _ b _ refl h (closed.admit k _ _ (core l) p room refl)))

  serve-Holds :
      (e : Env) (k : ℕ) (l : LockObj Q) (n : Notify) (b : Broker Q)
      → Holds P b
      → P k (core l)
      → RoundHolds P (serve e k l n b)
  unfolding serve
  serve-Holds e k l n b h p = elim (Bool-cases (leb (capacity l) (size l.lockholders))) [
    | inl full ↦ rw full (Holds-put k _ b _ refl h p)
    | inr room ↦
        let h' = Holds-put k l b (put_lock k l b) refl h p in
        elim (Option-cases n.acquire_many) [
          | inl single ↦
              rw (room, single, serve) (grant_waiter-Holds e k l n _ h' p (leb→lt _ _ room))
          | inr (m, many) ↦ rw (room, many, serve) (try_grant_acquire_many-Holds closed e n m _ h')
        ]
  ]

  serve_taken-Holds :
      (e : Env) (k : ℕ) (l : LockObj Q) (t : Option Notify × Q) (b : Broker Q)
      → Holds P b
      → P k (core l)
      → RoundHolds P (serve_taken e k l t b)
  unfolding serve_taken
  serve_taken-Holds e k l (none, q) b h p = Holds-put k _ b _ refl h p
  serve_taken-Holds e k l (some n, q) b h p = serve-Holds e k (record l { notify = q }) n b h p

  pub serve_next-Holds :
      (e : Env) (k : ℕ) (l : LockObj Q) (b : Broker Q)
      → Holds P b
      → P k (core l)
      → RoundHolds P (serve_next e k l b)
  unfolding serve_next
  serve_next-Holds e k l b h p = elim (Bool-cases (lq.count l.notify == 0)) [
    | inl idle ↦ rw idle h
    | inr waiting ↦ elim (Bool-cases (leb (capacity l) (size l.lockholders))) [
      | inl full ↦ rw (waiting, full) h
      | inr room ↦ rw (waiting, room) (serve_taken-Holds e k l _ b h p)
    ]
  ]

  drain_round :
      (e : Env) (fuel k : ℕ) (r : Round Q)
      → RoundHolds P r
      → ((b : Broker Q) → Holds P b → Every (Holds P) (drain e fuel k b))
      → Every (Holds P) (elim r [ stop b' ↦ some b' | again b' ↦ drain e fuel k b' ])
  drain_round e fuel k (stop b) h ih = h
  drain_round e fuel k (again b) h ih = ih b h

  pub drain-Holds :
      (e : Env) (fuel k : ℕ) (b : Broker Q) → Holds P b → Every (Holds P) (drain e fuel k b)
  unfolding drain
  drain-Holds e zero k b h = tt
  drain-Holds e (suc fuel) k b h = elim (Option-cases (get k b.locks)) [
    | inl absent ↦ rw (absent, drain) h
    | inr (l, found) ↦
        rw (found, drain)
          (drain_round e fuel k (serve_next e k l b)
            (serve_next-Holds e k l b h (Holds-get b k l h found))
            (λ b' h'. drain-Holds e fuel k b' h'))
  ]

  release_holder-Holds :
      (k : ℕ) (l : LockObj Q) (u : Option ℕ) (b : Broker Q)
      → Holds P b
      → P k (core l)
      → Holds P (release_holder k l u b)
  unfolding release_holder
  release_holder-Holds k l none b h p = Holds-put k _ b _ refl h p
  release_holder-Holds k l (some u) b h p = Holds-put k _ b _ refl h (closed.remove k u (core l) p)

  refill-Holds :
      (e : Env) (fuel k : ℕ) (b : Broker Q) → Holds P b → Every (Holds P) (refill e fuel k b)
  unfolding refill
  refill-Holds e fuel k b h = elim (Option-cases (get k b.locks)) [
    | inl absent ↦ rw (absent, refill) h
    | inr (l, found) ↦ elim (Bool-cases (size l.lockholders == 0 && lq.count l.notify == 0)) [
      | inl empty ↦ rw (found, empty, refill) (Holds-put k _ b _ refl h (Holds-get b k l h found))
      | inr live ↦ rw (found, live, refill) (drain-Holds e fuel k b h)
    ]
  ]

  pub ensure_new_lock_holder-Holds :
      (e : Env) (fuel k : ℕ) (u : Option ℕ) (b : Broker Q)
      → Holds P b
      → Every (Holds P) (ensure_new_lock_holder e fuel k u b)
  unfolding ensure_new_lock_holder
  ensure_new_lock_holder-Holds e fuel k u b h = elim (Option-cases (get k b.locks)) [
    | inl absent ↦ rw (absent, ensure_new_lock_holder) h
    | inr (l, found) ↦
        rw (found, ensure_new_lock_holder)
          (refill-Holds e fuel k _ (release_holder-Holds k l u b h (Holds-get b k l h found)))
  ]
