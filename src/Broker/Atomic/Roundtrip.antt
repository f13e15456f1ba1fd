-- ===== src/Broker/Atomic/Roundtrip.antt =====
-- `acquireMany` and then `releaseMany`.
use live_mutex.Prelude.{
  ℕ, suc, ◌+◌, ◌≡◌, refl, sym, ap, subst, ◌∙◌, inl, inr, Bool, Option, true, false, none, some,
  List, leb, [], ◌∷◌, arith, ◌==◌, ==_refl, contains, Bool-cases, Option-cases, length,
}
use live_mutex.Dict.{get, set, erase, size, get-set_ne, erase-set_new}
use live_mutex.LinkedQueue.{LinkedQueue, Notify}
use live_mutex.Broker.Types.{Env, LockObj, Broker, Composite, many_released}
use live_mutex.Broker.Grant.{send, default_lock_object}
use live_mutex.Broker.Attempt.{
  Attempt, start, provisional_grant, lock_or_default, is_contended, grab_keys, register_composite,
}
use live_mutex.Broker.Composite.{
  ManyRequest, validate_keys, many_waiter, acquire_keys, acquire_many, release_many,
}
use live_mutex.Broker.Atomic.{NoRepeat, holders_in, holders_at, eq_of_test, ne_of_test, Track}
use live_mutex.Broker.Atomic.Attempts.{IsFreshSupply}
use live_mutex.Broker.Atomic.Keys.{validate_keys-NoRepeat}
use live_mutex.Broker.Atomic.Requests.{
  IsGranted, many_attempt, acquire_keys-IsGranted, send-locks, send-composites,
}
use live_mutex.Broker.Atomic.Release.{
  waiting_in, waiting_at, waiting_in-set, release_keys-IsRestored,
}

module _ {Q : Type 0} ⦃lq : LinkedQueue Q⦄ where
  lock_or_default-waiting :
      (e : Env) (keep : Bool) (k : ℕ) (b : Broker Q)
      → lq.count (lock_or_default e keep k b).notify ≡ waiting_at k b
  unfolding lock_or_default default_lock_object
  lock_or_default-waiting e keep k b = elim (Option-cases (get k b.locks)) [
    | inl absent ↦
        rw (absent, lock_or_default)
          (rw (absent, waiting_in) (lq.count_entries lq.empty ∙ ap length lq.entries_empty))
    | inr (l, found) ↦ rw (found, lock_or_default) (rw (found, waiting_in) refl)
  ]

  provisional_grant-waiting :
      (e : Env) (n : Notify) (composite k : ℕ) (keep : Bool) (a : Attempt Q) (j : ℕ)
      → let l = lock_or_default e keep k a.broker in
        waiting_at j (provisional_grant e n composite k l a).broker ≡ waiting_at j a.broker
  unfolding provisional_grant
  provisional_grant-waiting e n composite k keep a j =
      waiting_in-set j k _ a.broker.locks ∙ elim (Bool-cases (k == j)) [
        | inl here ↦ rw here (
            lock_or_default-waiting e keep k a.broker
            ∙ ap (λ i. waiting_at i a.broker) (eq_of_test k j here))
        | inr there ↦ rw there refl
      ]

  provisional_grant-is_contended :
      (e : Env) (n : Notify) (composite k : ℕ) (l : LockObj Q) (a : Attempt Q) (j : ℕ)
      → (k == j) ≡ false
      → is_contended j (provisional_grant e n composite k l a).broker ≡ is_contended j a.broker
  unfolding provisional_grant is_contended
  provisional_grant-is_contended e n composite k l a j other =
      ap is_full (get-set_ne j k _ a.broker.locks (ne_of_test k j other))
    where
      is_full : Option (LockObj Q) → Bool
      is_full none = leb 1 0
      is_full (some l') = leb l'.max (size l'.lockholders)

  grab_keys-waiting :
      (e : Env) (n : Notify) (composite : ℕ) (ks : List ℕ) (a : Attempt Q) (j : ℕ)
      → waiting_at j (grab_keys e n composite ks a).broker ≡ waiting_at j a.broker
  unfolding grab_keys
  grab_keys-waiting e n composite [] a j = refl
  grab_keys-waiting e n composite (k ∷ ks) a j =
      let keep = n.keep_locks_after_death in
      let l = lock_or_default e keep k a.broker in
      elim (Bool-cases (is_contended k a.broker)) [
        | inl full ↦ rw full refl
        | inr room ↦ rw room (
            grab_keys-waiting e n composite ks (provisional_grant e n composite k l a) j
            ∙ provisional_grant-waiting e n composite k keep a j)
      ]

  -- If no key is contended, the loop of `acquireMany` meets none.
  grab_keys-free :
      (e : Env) (n : Notify) (composite : ℕ) (ks : List ℕ) (a : Attempt Q)
      → NoRepeat ks
      → a.contended_key ≡ none
      → ((k : ℕ) → contains k ks ≡ true → is_contended k a.broker ≡ false)
      → (grab_keys e n composite ks a).contended_key ≡ none
  unfolding grab_keys provisional_grant
  grab_keys-free e n composite [] a once free room = free
  grab_keys-free e n composite (k ∷ ks) a once free room =
      let l = lock_or_default e n.keep_locks_after_death k a.broker in
      rw (room k (rw (==_refl k) refl)) (
        grab_keys-free e n composite ks (provisional_grant e n composite k l a) once.1 free
          (λ j is_in. elim (Bool-cases (k == j)) [
            | inl same ↦ absurd (ground (arith, once.0))
            | inr other ↦
                provisional_grant-is_contended e n composite k l a j other ∙ room j (ground arith)
          ]))

  -- The loop of `releaseMany` on a composite that was granted.
  granted-Track :
      (n : Notify) (composite : ℕ) (keys : List ℕ) (b₀ b : Broker Q)
      → (g : IsGranted n.ws composite keys b₀ b) → Track n composite b₀ g.row.holder_uuids keys b
  granted-Track n composite keys b₀ b g j = elim (Bool-cases (contains j keys)) [
    | inl is_in ↦ inl (is_in, g.taken j is_in)
    | inr is_out ↦ inr (is_out, g.others j is_out)
  ]

  release_many-restores :
      (e : Env) (fuel uuid composite : ℕ) (n : Notify) (keys : List ℕ) (b₀ b : Broker Q)
      → NoRepeat keys
      → IsGranted n.ws composite keys b₀ b
      → ((j : ℕ) → contains j keys ≡ true → waiting_at j b ≡ 0)
      → (b' : Broker Q) × (release_many e (suc fuel) uuid (some composite) n.ws b ≡ some b')
        × ((j : ℕ) → holders_at j b' ≡ holders_at j b₀)
        × (b'.composite_locks ≡ erase composite b.composite_locks)
  unfolding release_many
  release_many-restores e fuel uuid composite n keys b₀ b once g quiet =
      let (b₁, loop, restored) =
        release_keys-IsRestored e fuel composite n g.row g.row.keys b₀ b
          (subst NoRepeat (sym g.row_keys) once)
          (subst (λ ks. Track n composite b₀ g.row.holder_uuids ks b) (sym g.row_keys)
            (granted-Track n composite keys b₀ b g))
          (λ j is_in. quiet j (ap (contains j) (sym g.row_keys) ∙ is_in)) in
      let b₂ : Broker Q = record b₁ { composite_locks = erase composite b₁.composite_locks } in
      let reply = many_released uuid composite g.row.keys in
      (
        send e n.ws reply b₂,
        rw (g.registered, release_many) (rw loop refl),
        λ j. ap (holders_in j) (send-locks e n.ws reply b₂) ∙ restored.holders j,
        send-composites e n.ws reply b₂ ∙ ap (erase composite) restored.composites,
      )

  grab_keys-composites :
      (e : Env) (n : Notify) (composite : ℕ) (ks : List ℕ) (a : Attempt Q)
      → (grab_keys e n composite ks a).broker.composite_locks ≡ a.broker.composite_locks
  unfolding grab_keys provisional_grant
  grab_keys-composites e n composite [] a = refl
  grab_keys-composites e n composite (k ∷ ks) a =
      let l = lock_or_default e n.keep_locks_after_death k a.broker in
      elim (Bool-cases (is_contended k a.broker)) [
        | inl full ↦ rw full refl
        | inr room ↦
            rw room (grab_keys-composites e n composite ks (provisional_grant e n composite k l a))
      ]

  -- A granted request leaves the waiters as they are, and adds the row of its composite.
  record IsRegistered (composite : ℕ) (b b' : Broker Q) : Type 0 where
    row : Composite
    waiting : (j : ℕ) → waiting_at j b' ≡ waiting_at j b
    composites : b'.composite_locks ≡ set composite row b.composite_locks

  acquire_keys-IsRegistered :
      (e : Env) (r : ManyRequest) (ws : ℕ) (keys : List ℕ) (b : Broker Q)
      → (many_attempt e r ws keys b).1.contended_key ≡ none
      → IsRegistered (e.uuid_v4 b.drawn) b (acquire_keys e r ws keys b)
  unfolding acquire_keys register_composite many_waiter
  acquire_keys-IsRegistered e r ws keys b free =
      let composite = e.uuid_v4 b.drawn in
      let b₁ : Broker Q = record b { drawn = b.drawn + 1 } in
      let (n, a) = many_attempt e r ws keys b in
      rw (free, acquire_keys)
        (record {
          row = _;
          waiting = λ j.
              ap (waiting_in j) (send-locks e n.ws _ _)
              ∙ grab_keys-waiting e n composite keys (start b₁) j;
          composites =
              send-composites e n.ws _ _
              ∙ ap (set composite _) (grab_keys-composites e n composite keys (start b₁));
        })

  -- Suppose a request passes the checks, none of its keys is contended or waited for, and the uuids that are still
  -- to be drawn are new. Then `acquire-many` gives its socket one hold on each key, and a release of the
  -- composite returns and leaves the holders of every key and the composites as they were before.
  pub release_many-acquire_many :
      (e e' : Env) (fuel uuid ws : ℕ) (r : ManyRequest) (keys : List ℕ) (b : Broker Q)
      → validate_keys r.keys ≡ some keys
      → IsFreshSupply e b
      → get (e.uuid_v4 b.drawn) b.composite_locks ≡ none
      → ((k : ℕ) → contains k keys ≡ true → is_contended k b ≡ false)
      → ((k : ℕ) → contains k keys ≡ true → waiting_at k b ≡ 0)
      → let composite = e.uuid_v4 b.drawn in
        let granted = acquire_many e r ws b in
        IsGranted ws composite keys b granted
        × (b' : Broker Q) × (release_many e' (suc fuel) uuid (some composite) ws granted ≡ some b')
        × ((j : ℕ) → holders_at j b' ≡ holders_at j b)
        × (b'.composite_locks ≡ b.composite_locks)
  unfolding acquire_many many_waiter is_contended
  release_many-acquire_many e e' fuel uuid ws r keys b valid supply new room quiet =
      let composite = e.uuid_v4 b.drawn in
      let b₁ : Broker Q = record b { drawn = b.drawn + 1 } in
      let once = validate_keys-NoRepeat r.keys keys valid in
      let n = (many_attempt e r ws keys b).0 in
      let free = grab_keys-free e n composite keys (start b₁) once refl room in
      let granted = acquire_keys-IsGranted e r ws keys b once supply free in
      let made = acquire_keys-IsRegistered e r ws keys b free in
      let (b', released, same, gone) =
        release_many-restores e' fuel uuid composite n keys b (acquire_keys e r ws keys b) once
          granted (λ j is_in. made.waiting j ∙ quiet j is_in) in
      rw (valid, acquire_many)
        (
          granted,
          b',
          released,
          same,
          gone
              ∙ ap (erase composite) made.composites
              ∙ erase-set_new composite made.row b.composite_locks new,
        )
