-- ===== src/Broker/Closure/Locking.antt =====
-- `lock` keeps a closed statement of the lock objects, for the requests that the statement allows.
use live_mutex.Prelude.{
  ℕ, ◌+◌, ◌<◌, ◌≡◌, refl, Bool, true, false, inl, inr, [], ◌∷◌, leb, ltb, leb→lt, Bool-cases,
  Option-cases, if◌then◌else◌,
}
use live_mutex.Dict.{Dict, get, set, AllEntries}
use live_mutex.LinkedQueue.{LinkedQueue, Ttl}
use live_mutex.Broker.Types.{Env, Holder, LockObj, Broker, lock_granted}
use live_mutex.Broker.Grant.{send, grant_lock, or_default_ttl}
use live_mutex.Broker.Lock.{
  LockRequest, validate_max_field, update_limits, effective_count, effective_max, count_reader,
  is_stale, clean_up, clean_up_locks, touch, count_request, note_request, lock_existing,
  new_lock_object, lock_new, lock_valid, lock,
}
use live_mutex.Broker.Closure.{Core, core, Holds, send-Holds, Holds-get, Holds-put, Holds-locks}

-- What `lock` does to a lock object, for the requests that `Ok` allows.
pub record IsLockClosed (Q : Type 0) ⦃lq : LinkedQueue Q⦄ (P : ℕ → Core → Type 0)
    (Ok : LockRequest → Type 0) : Type 0 where
  pub new :
      (e : Env) (r : LockRequest) (h : Holder)
      → Ok r
      → h.fencing_token ≡ e.now + 1
      → P r.key (record (core (new_lock_object {Q = Q} e r)) {
        next_fencing_token = e.now + 1;
        lockholders = (r.uuid, h) ∷ [];
      })
  pub update :
      (r : LockRequest) (l : LockObj Q)
      → Ok r
      → P r.key (core l)
      → P r.key (core (update_limits r l))
  pub grant :
      (r : LockRequest) (l : LockObj Q) (h : Holder)
      → Ok r
      → P r.key (core l)
      → effective_count r (update_limits r l) < effective_max r (update_limits r l)
      → h.fencing_token ≡ l.next_fencing_token + 1
      → P r.key (record (core (update_limits r l)) {
        next_fencing_token = l.next_fencing_token + 1;
        lockholders = set r.uuid h l.lockholders;
      })

module _ {Q : Type 0} ⦃lq : LinkedQueue Q⦄ (P : ℕ → Core → Type 0) where
  clean_up-AllEntries :
      (e : Env) (d : Dict (LockObj Q))
      → AllEntries (λ k l. P k (core l)) d
      → AllEntries (λ k l. P k (core l)) (clean_up e d)
  unfolding clean_up
  clean_up-AllEntries e [] all = tt
  clean_up-AllEntries e ((k, l) ∷ d) all = elim (Bool-cases (is_stale e l)) [
    | inl stale ↦ rw stale (clean_up-AllEntries e d all.1)
    | inr live ↦ rw live (all.0, clean_up-AllEntries e d all.1)
  ]

module _ {Q : Type 0} ⦃lq : LinkedQueue Q⦄ {P : ℕ → Core → Type 0} where
  touch-Holds : (k : ℕ) (b : Broker Q) → Holds P b → Holds P (touch k b)
  unfolding touch
  touch-Holds k b h = elim (Option-cases (get k b.locks)) [
    | inl absent ↦ rw (absent, touch) h
    | inr (l, found) ↦ rw (found, touch) (Holds-put k _ b _ refl h (Holds-get b k l h found))
  ]

  count_request-Holds : (e : Env) (b : Broker Q) → Holds P b → Holds P (count_request e b)
  unfolding count_request clean_up_locks
  count_request-Holds e b h = elim (Bool-cases (ltb 3 (b.lock_counts + 1))) [
    | inl due ↦ rw due (record { each = clean_up-AllEntries P e b.locks h.each })
    | inr early ↦ rw early (Holds-locks b _ refl h)
  ]

  if-Holds : (c : Bool) (b b' : Broker Q) → Holds P b → Holds P b' → Holds P (if c then b else b')
  if-Holds true b b' h h' = h
  if-Holds false b b' h h' = h'

  note_request-Holds :
      (r : LockRequest) (ws : ℕ) (b : Broker Q) → Holds P b → Holds P (note_request r ws b)
  unfolding note_request
  note_request-Holds r ws b h = Holds-locks b _ refl h

module _ {Q : Type 0} ⦃lq : LinkedQueue Q⦄ {P : ℕ → Core → Type 0} {Ok : LockRequest → Type 0}
    (closed : IsLockClosed Q P Ok) where
  grant_kept :
      (e : Env) (r : LockRequest) (ws : ℕ) (ttl : Ttl) (l : LockObj Q) (readers ln : ℕ)
      (b : Broker Q)
      → Holds P b
      → ((h : Holder)
          → h.fencing_token ≡ l.next_fencing_token + 1
          → P r.key (record (core (update_limits r l)) {
            next_fencing_token = l.next_fencing_token + 1;
            lockholders = set r.uuid h l.lockholders;
          }))
      → let counted = count_reader r (update_limits r l) in
        Holds P (
          send e ws
            (lock_granted r.key r.uuid readers ln (counted.next_fencing_token + 1))
            (grant_lock e counted ws r.uuid r.pid ttl r.key b))
  unfolding grant_lock count_reader update_limits
  grant_kept e r ws ttl l readers ln b h p =
      send-Holds e ws _ _ (Holds-put r.key _ b _ refl h (p _ refl))

  lock_existing-Holds :
      (e : Env) (r : LockRequest) (ws : ℕ) (ttl : Ttl) (l : LockObj Q) (b : Broker Q)
      → Ok r
      → Holds P b
      → P r.key (core l)
      → Holds P (lock_existing e r ws ttl (update_limits r l) b)
  unfolding lock_existing
  lock_existing-Holds e r ws ttl l b ok h p =
      let l' = update_limits r l in
      let p' = closed.update r l ok p in
      elim (Bool-cases (leb (effective_max r l') (effective_count r l'))) [
        | inl full ↦ rw full (
            if-Holds r.wait _ _ (send-Holds e ws _ _ (Holds-put r.key _ b _ refl h p'))
              (send-Holds e ws _ _ (Holds-put r.key _ b _ refl h p')))
        | inr room ↦ rw room (
            grant_kept e r ws ttl l _ _ b h
              (λ holder token. closed.grant r l holder ok p (leb→lt _ _ room) token))
      ]

  lock_new-Holds :
      (e : Env) (r : LockRequest) (ws : ℕ) (ttl : Ttl) (b : Broker Q)
      → Ok r
      → Holds P b
      → Holds P (lock_new e r ws ttl b)
  unfolding lock_new grant_lock set
  lock_new-Holds e r ws ttl b ok h =
      send-Holds e ws _ _ (Holds-put r.key _ b _ refl h (closed.new e r _ ok refl))

  lock_valid-Holds :
      (e : Env) (r : LockRequest) (ws : ℕ) (b : Broker Q)
      → Ok r
      → Holds P b
      → Holds P (lock_valid e r ws b)
  unfolding lock_valid
  lock_valid-Holds e r ws b ok h =
      let noted = note_request r ws (count_request e (touch r.key b)) in
      let ttl = or_default_ttl e 500000000 r.ttl in
      let h' : Holds P noted =
        note_request-Holds r ws _ (count_request-Holds e _ (touch-Holds r.key b h)) in
      elim (Option-cases (get r.key noted.locks)) [
        | inl absent ↦ rw (absent, lock_valid) (lock_new-Holds e r ws ttl noted ok h')
        | inr (l, found) ↦
            rw (found, lock_valid)
              (lock_existing-Holds e r ws ttl l noted ok h' (Holds-get noted r.key l h' found))
      ]

  -- The limits of an invalid request are not looked at.
  pub lock-Holds :
      (e : Env) (r : LockRequest) (ws : ℕ) (b : Broker Q)
      → (validate_max_field r ≡ true → Ok r)
      → Holds P b
      → Holds P (lock e r ws b)
  unfolding lock
  lock-Holds e r ws b ok h = elim (Bool-cases (validate_max_field r)) [
    | inl valid ↦ rw valid (lock_valid-Holds e r ws b (ok valid) h)
    | inr invalid ↦ rw invalid (send-Holds e ws _ b h)
  ]
