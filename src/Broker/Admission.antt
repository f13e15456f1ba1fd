-- ===== src/Broker/Admission.antt =====
-- `lock` on a key that has a lock object, for a request that is no RW request and says how many holders it bears:
-- which limit counts.
use live_mutex.Prelude.{
  ℕ, ◌+◌, ◌≤◌, ◌<◌, ◌≡◌, refl, ap, ◌∙◌, inl, inr, Bool, true, false, none, some, arith, leb, ltb,
  if◌then◌else◌, Bool-cases,
}
use live_mutex.Dict.{Dict, get, set, size, get-set_self}
use live_mutex.LinkedQueue.{LinkedQueue, Ttl}
use live_mutex.Broker.Types.{Env, Holder, LockObj, Reply, Broker}
use live_mutex.Broker.Grant.{send, grant_lock, or_default_ttl, put_lock}
use live_mutex.Broker.Lock.{
  LockRequest, whole, no_status, validate_max_field, touch, count_request, note_request,
  update_limits, effective_max, effective_count, lock_existing, lock_valid, lock, count_reader,
}
use live_mutex.Broker.Retention.{is_occupied, clean_up_locks-keeps}
use live_mutex.Broker.Serving.Rounds.{send-locks}

module _ {Q : Type 0} ⦃lq : LinkedQueue Q⦄ where
  -- The lock object of `k` has the holders `before`, with one more for the request if it is admitted.
  pub record IsDecided (r : LockRequest) (ws m : ℕ) (before : Dict Holder) (b : Broker Q)
      : Type 0 where
    pub after : LockObj Q
    pub found : get r.key b.locks ≡ some after
    pub admitted :
        size before < m → (h : Holder) × (h.ws ≡ ws) × (after.lockholders ≡ set r.uuid h before)
    pub refused : m ≤ size before → after.lockholders ≡ before

  get-send :
      (e : Env) (ws k : ℕ) (reply : Reply) (b : Broker Q)
      → get k (send e ws reply b).locks ≡ get k b.locks
  get-send e ws k reply b = ap (get k) (send-locks e ws reply b)

  count_request-keeps :
      (e : Env) (k : ℕ) (l : LockObj Q) (b : Broker Q)
      → get k b.locks ≡ some l
      → l.timestamp_emptied ≡ none
      → get k (count_request e b).locks ≡ some l
  unfolding count_request
  count_request-keeps e k l b found occupied = elim (Bool-cases (ltb 3 (b.lock_counts + 1))) [
    | inl many ↦ rw many (clean_up_locks-keeps e k l b found (is_occupied occupied))
    | inr few ↦ rw few found
  ]

  touched-get :
      (e : Env) (r : LockRequest) (ws : ℕ) (l : LockObj Q) (b : Broker Q)
      → get r.key b.locks ≡ some l
      → get r.key (note_request r ws (count_request e (touch r.key b))).locks
        ≡ some (record l { timestamp_emptied = none })
  unfolding note_request touch
  touched-get e r ws l b found =
      let l' : LockObj Q = record l { timestamp_emptied = none } in
      count_request-keeps e r.key l' (touch r.key b)
        (rw (found, touch) (get-set_self r.key l' b.locks)) refl

  queued-IsDecided :
      (e : Env) (r : LockRequest) (ws m : ℕ) (reply : Reply) (l l' : LockObj Q) (b : Broker Q)
      → m ≤ size l.lockholders
      → l'.lockholders ≡ l.lockholders
      → IsDecided r ws m l.lockholders (send e ws reply (put_lock r.key l' b))
  queued-IsDecided e r ws m reply l l' b full same = record {
    after = l';
    found = get-send e ws r.key reply (put_lock r.key l' b) ∙ get-set_self r.key l' b.locks;
    admitted = λ room. absurd (omega arith);
    refused = λ _. same;
  }

  granted-IsDecided :
      (e : Env) (r : LockRequest) (ws m : ℕ) (ttl : Ttl) (reply : Reply) (l l' : LockObj Q)
      (b : Broker Q)
      → size l.lockholders < m
      → l'.lockholders ≡ l.lockholders
      → IsDecided r ws m l.lockholders
          (send e ws reply (grant_lock e l' ws r.uuid r.pid ttl r.key b))
  unfolding grant_lock
  granted-IsDecided e r ws m ttl reply l l' b room same = record {
    after = _;
    found =
        get-send e ws r.key reply (grant_lock e l' ws r.uuid r.pid ttl r.key b)
        ∙ get-set_self r.key _ b.locks;
    admitted = λ _. (_, refl, ap (set r.uuid _) same);
    refused = λ full. absurd (omega arith);
  }

  if-IsDecided :
      (p : Bool) (r : LockRequest) (ws m : ℕ) (before : Dict Holder) (b b' : Broker Q)
      → IsDecided r ws m before b
      → IsDecided r ws m before b'
      → IsDecided r ws m before (if p then b else b')
  if-IsDecided true r ws m before b b' h h' = h
  if-IsDecided false r ws m before b b' h h' = h'

  lock_existing-IsDecided :
      (e : Env) (r : LockRequest) (ws m : ℕ) (ttl : Ttl) (l : LockObj Q) (b : Broker Q)
      → effective_max r l ≡ m
      → effective_count r l ≡ size l.lockholders
      → IsDecided r ws m l.lockholders (lock_existing e r ws ttl l b)
  unfolding lock_existing effective_count count_reader
  lock_existing-IsDecided e r ws m ttl l b limit count =
      elim (Bool-cases (leb (effective_max r l) (effective_count r l))) [
        | inl full ↦
            let over : m ≤ size l.lockholders = ground (arith, limit, count) in
            rw full (
              if-IsDecided r.wait r ws m l.lockholders _ _
                (queued-IsDecided e r ws m _ l _ b over refl)
                (queued-IsDecided e r ws m _ l l b over refl))
        | inr room ↦
            let under : size l.lockholders < m = ground (arith, limit, count) in
            rw room (granted-IsDecided e r ws m ttl _ l _ b under refl)
      ]

  effective_max-own :
      (r : LockRequest) (m : ℕ) (l : LockObj Q)
      → r.rw_status ≡ no_status
      → r.max ≡ whole m
      → effective_max r l ≡ m
  unfolding effective_max
  effective_max-own r m l plain limit = rw (plain, limit) refl

  effective_count-own :
      (r : LockRequest) (l : LockObj Q)
      → r.rw_status ≡ no_status
      → effective_count r l ≡ size l.lockholders
  unfolding effective_count
  effective_count-own r l plain = rw plain refl

  -- A request whose fields are valid, that is no RW request and asks for at most `m` holders is granted at once on a
  -- key with a lock object if the key has fewer than `m` holders, and changes no holder if it has `m` or
  -- more. What limit the key had, its readers and its writer flag do not matter.
  pub lock-IsDecided :
      (e : Env) (r : LockRequest) (ws m : ℕ) (l : LockObj Q) (b : Broker Q)
      → validate_max_field r ≡ true
      → r.rw_status ≡ no_status
      → r.max ≡ whole m
      → get r.key b.locks ≡ some l
      → IsDecided r ws m l.lockholders (lock e r ws b)
  unfolding lock lock_valid update_limits
  lock-IsDecided e r ws m l b valid plain limit found =
      let l' = update_limits r (record l { timestamp_emptied = none }) in
      let b' = note_request r ws (count_request e (touch r.key b)) in
      rw valid (
        rw (touched-get e r ws l b found, lock_valid)
          (lock_existing-IsDecided e r ws m (or_default_ttl e 500000000 r.ttl) l' b'
            (effective_max-own r m l' plain limit) (effective_count-own r l' plain)))
