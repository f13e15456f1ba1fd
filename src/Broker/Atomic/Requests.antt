-- ===== src/Broker/Atomic/Requests.antt =====
-- What `acquireMany` does to the holders of every key.
use live_mutex.Prelude.{
  ℕ, ◌+◌, ◌≡◌, refl, sym, ap, subst, ◌∙◌, ◌⊎◌, inl, inr, Bool, true, false, some, List, arith, ◌==◌,
  contains, Bool-cases, Option-cases, none,
}
use live_mutex.Dict.{Dict, get, get-set_self}
use live_mutex.LinkedQueue.{LinkedQueue, Notify, AcquireMany}
use live_mutex.Broker.Types.{Env, LockObj, Broker, Composite, Reply}
use live_mutex.Broker.Grant.{send, put_lock}
use live_mutex.Broker.Attempt.{
  Attempt, start, rollback, lock_or_default, grab_keys, enqueue_waiter, register_composite,
}
use live_mutex.Broker.Composite.{
  ManyRequest, validate_keys, refuse_many, many_waiter, acquire_keys, acquire_many,
}
use live_mutex.Broker.Atomic.{
  NoRepeat, holders_in, holders_at, eq_of_test, holders_in-set, Taken, TrackAt, rollback-restores,
}
use live_mutex.Broker.Atomic.Attempts.{
  IsFreshSupply, lock_or_default-holders, untaken, IsAttempt, grab_keys-IsAttempt,
}
use live_mutex.Broker.Atomic.Keys.{validate_keys-NoRepeat}

module _ {Q : Type 0} ⦃lq : LinkedQueue Q⦄ where
  put-holders :
      (k j : ℕ) (l : LockObj Q) (b : Broker Q)
      → l.lockholders ≡ holders_at k b
      → holders_at j (put_lock k l b) ≡ holders_at j b
  put-holders k j l b same = holders_in-set j k l b.locks ∙ elim (Bool-cases (k == j)) [
    | inl here ↦ rw here (same ∙ ap (λ i. holders_at i b) (eq_of_test k j here))
    | inr there ↦ rw there refl
  ]

  enqueue_waiter-holders :
      (e : Env) (n : Notify) (k j : ℕ) (b : Broker Q)
      → holders_at j (enqueue_waiter e n k b) ≡ holders_at j b
  unfolding enqueue_waiter
  enqueue_waiter-holders e n k j b =
      let l = lock_or_default e n.keep_locks_after_death k b in
      let same = lock_or_default-holders e n.keep_locks_after_death k b in
      elim (Option-cases (lq.find n.uuid l.notify)) [
        | inl new ↦ rw (new, enqueue_waiter) (put-holders k j _ b same)
        | inr (_, old) ↦ rw (old, enqueue_waiter) (put-holders k j l b same)
      ]

  send-holders :
      (e : Env) (ws : ℕ) (r : Reply) (j : ℕ) (b : Broker Q)
      → holders_at j (send e ws r b) ≡ holders_at j b
  unfolding send
  send-holders e ws r j b = ground arith

  refuse_many-holders :
      (e : Env) (n : Notify) (keys : List ℕ) (wait : Bool) (k j : ℕ) (b : Broker Q)
      → holders_at j (refuse_many e n keys wait k b) ≡ holders_at j b
  unfolding refuse_many
  refuse_many-holders e n keys true k j b =
      send-holders e n.ws _ j (enqueue_waiter e n k b) ∙ enqueue_waiter-holders e n k j b
  refuse_many-holders e n keys false k j b = send-holders e n.ws _ j b

  pub send-locks : (e : Env) (ws : ℕ) (r : Reply) (b : Broker Q) → (send e ws r b).locks ≡ b.locks
  unfolding send
  send-locks e ws r b = ground arith

  pub send-composites :
      (e : Env) (ws : ℕ) (r : Reply) (b : Broker Q)
      → (send e ws r b).composite_locks ≡ b.composite_locks
  unfolding send
  send-composites e ws r b = ground arith

  register_composite-holders :
      (e : Env) (n : Notify) (m : AcquireMany) (a : Attempt Q) (j : ℕ)
      → holders_at j (register_composite e n m a) ≡ holders_at j a.broker
  unfolding register_composite
  register_composite-holders e n m a j = ap (holders_in j) (send-locks e n.ws _ _)

  register_composite-get :
      (e : Env) (n : Notify) (m : AcquireMany) (a : Attempt Q)
      → get m.composite_lock_uuid (register_composite e n m a).composite_locks
        ≡ some (record {
          keys = m.all_keys;
          holder_uuids = a.holder_uuids;
          fencing_tokens = a.fencing_tokens;
        })
  unfolding register_composite
  register_composite-get e n m a =
      ap (get m.composite_lock_uuid) (send-composites e n.ws _ _)
      ∙ get-set_self m.composite_lock_uuid _ a.broker.composite_locks

  -- All keys are held: `b'` has the holders of `b`, with one more on each key of `keys`, of socket `ws`
  -- and marked as a member of the composite, whose row lists the keys and the uuids of these holders.
  pub record IsGranted (ws composite : ℕ) (keys : List ℕ) (b b' : Broker Q) : Type 0 where
    pub row : Composite
    pub registered : get composite b'.composite_locks ≡ some row
    pub row_keys : row.keys ≡ keys
    pub taken :
        (j : ℕ)
        → contains j keys ≡ true
        → Taken ws composite row.holder_uuids j (holders_at j b) (holders_at j b')
    pub others : (j : ℕ) → contains j keys ≡ false → holders_at j b' ≡ holders_at j b

  track-Taken :
      (n : Notify) (composite j : ℕ) (b₀ : Broker Q) (hs : Dict ℕ) (taken : List ℕ)
      (b b' : Broker Q)
      → holders_at j b' ≡ holders_at j b
      → contains j taken ≡ true
      → TrackAt n composite b₀ hs taken b j
      → Taken n.ws composite hs j (holders_at j b₀) (holders_at j b')
  track-Taken n composite j b₀ hs taken b b' same is_in (inl (_, t)) =
      subst (Taken n.ws composite hs j (holders_at j b₀)) (sym same) t
  track-Taken n composite j b₀ hs taken b b' same is_in (inr (absent, _)) = absurd (ground arith)

  -- What `acquireMany` works with once the keys are checked.
  abbrev pub many_attempt : Env → ManyRequest → ℕ → List ℕ → Broker Q → Notify × Attempt Q
  many_attempt e r ws keys b =
      let m : AcquireMany = record { all_keys = keys; composite_lock_uuid = e.uuid_v4 b.drawn } in
      let n = many_waiter e r ws m in
      (n, grab_keys e n m.composite_lock_uuid keys (start (record b { drawn = b.drawn + 1 })))

  many_attempt-IsAttempt :
      (e : Env) (r : ManyRequest) (ws : ℕ) (keys : List ℕ) (b : Broker Q)
      → NoRepeat keys
      → IsFreshSupply e b
      → let (n, a) = many_attempt e r ws keys b in IsAttempt n (e.uuid_v4 b.drawn) b keys a
  many_attempt-IsAttempt e r ws keys b once supply =
      grab_keys-IsAttempt e (many_attempt e r ws keys b).0 (e.uuid_v4 b.drawn) b keys
        (start (record b { drawn = b.drawn + 1 })) supply (omega arith) once (λ j. inr (refl, refl))

  -- A request that met no contended key is granted.
  pub acquire_keys-IsGranted :
      (e : Env) (r : ManyRequest) (ws : ℕ) (keys : List ℕ) (b : Broker Q)
      → NoRepeat keys
      → IsFreshSupply e b
      → (many_attempt e r ws keys b).1.contended_key ≡ none
      → IsGranted ws (e.uuid_v4 b.drawn) keys b (acquire_keys e r ws keys b)
  unfolding acquire_keys many_waiter
  acquire_keys-IsGranted e r ws keys b once supply free =
      let composite = e.uuid_v4 b.drawn in
      let m : AcquireMany = record { all_keys = keys; composite_lock_uuid = composite } in
      let (n, a) = many_attempt e r ws keys b in
      let done = many_attempt-IsAttempt e r ws keys b once supply in
      rw (free, acquire_keys)
        (record {
          row = _;
          registered = register_composite-get e n m a;
          row_keys = refl;
          taken = λ j is_in.
              track-Taken n composite j b a.holder_uuids a.granted_keys a.broker
                (register_composite e n m a) (register_composite-holders e n m a j)
                (ap (contains j) (done.complete free) ∙ is_in) (done.tracked j);
          others = λ j is_out.
              register_composite-holders e n m a j
              ∙ untaken n composite j b a.holder_uuids a.granted_keys a.broker
                  (ap (contains j) (done.complete free) ∙ is_out) (done.tracked j);
        })

  acquire_keys-atomic :
      (e : Env) (r : ManyRequest) (ws : ℕ) (keys : List ℕ) (b : Broker Q)
      → NoRepeat keys
      → IsFreshSupply e b
      → IsGranted ws (e.uuid_v4 b.drawn) keys b (acquire_keys e r ws keys b)
        ⊎ ((j : ℕ) → holders_at j (acquire_keys e r ws keys b) ≡ holders_at j b)
  unfolding acquire_keys many_waiter
  acquire_keys-atomic e r ws keys b once supply =
      let (n, a) = many_attempt e r ws keys b in
      let done = many_attempt-IsAttempt e r ws keys b once supply in
      elim (Option-cases a.contended_key) [
        | inl free ↦ inl (acquire_keys-IsGranted e r ws keys b once supply free)
        | inr (k, full) ↦
            rw (full, acquire_keys)
              (inr λ j.
                refuse_many-holders e n keys r.wait k j
                  (rollback a.holder_uuids a.granted_keys a.broker)
                ∙ rollback-restores n (e.uuid_v4 b.drawn) b a.holder_uuids a.granted_keys a.broker
                    done.once done.tracked j)
      ]

  -- Suppose a request passes the checks, and no uuid that is still to be drawn is that of a
  -- holder. Then `acquire-many` either gives the socket one more hold on each of its keys, all of them
  -- members of the composite that it registers, and touches the holders of no other key; or it leaves
  -- the holders of every key as they were.
  pub acquire_many-atomic :
      (e : Env) (r : ManyRequest) (ws : ℕ) (keys : List ℕ) (b : Broker Q)
      → validate_keys r.keys ≡ some keys
      → IsFreshSupply e b
      → IsGranted ws (e.uuid_v4 b.drawn) keys b (acquire_many e r ws b)
        ⊎ ((j : ℕ) → holders_at j (acquire_many e r ws b) ≡ holders_at j b)
  unfolding acquire_many
  acquire_many-atomic e r ws keys b valid supply =
      rw (valid, acquire_many)
        (acquire_keys-atomic e r ws keys b (validate_keys-NoRepeat r.keys keys valid) supply)
