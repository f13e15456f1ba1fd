-- ===== src/Broker/Atomic/Attempts.antt =====
-- What `acquireMany` does to the holders of every key.
use mathlib.Core.List.{append_assoc, append-nil}
use live_mutex.Prelude.{
  ℕ, ◌+◌, ◌≤◌, ◌≡◌, refl, sym, ap, subst, ◌∙◌, inl, inr, Bool, true, false, none, some, List, [],
  ◌∷◌, ◌++◌, arith, ◌==◌, ==_refl, contains, Bool-cases,
}
use live_mutex.Dict.{Dict, get, set, get-set_self, get-set_ne}
use live_mutex.LinkedQueue.{LinkedQueue, Notify}
use live_mutex.Broker.Types.{Env, LockObj, Broker}
use live_mutex.Broker.Grant.{expiry, new_holder, default_lock_object}
use live_mutex.Broker.Attempt.{Attempt, provisional_grant, lock_or_default, is_contended, grab_keys}
use live_mutex.Broker.Atomic.{
  NoRepeat, holders_at, eq_of_test, ne_of_test, contains-append, NoRepeat-prefix,
  not-contains-middle, holders_in-set, Taken, TrackAt, Track,
}

module _ {Q : Type 0} ⦃lq : LinkedQueue Q⦄ where
  -- The uuids that are still to be drawn are not those of any holder.
  abbrev pub IsFreshSupply : Env → Broker Q → Type 0
  IsFreshSupply e b = (i j : ℕ) → b.drawn ≤ i → get (e.uuid_v4 i) (holders_at j b) ≡ none

  pub lock_or_default-holders :
      (e : Env) (keep : Bool) (k : ℕ) (b : Broker Q)
      → (lock_or_default e keep k b).lockholders ≡ holders_at k b
  unfolding lock_or_default default_lock_object
  lock_or_default-holders e keep k b = ground arith

  pub untaken :
      (n : Notify) (composite k : ℕ) (b₀ : Broker Q) (hs : Dict ℕ) (taken : List ℕ) (b : Broker Q)
      → contains k taken ≡ false
      → TrackAt n composite b₀ hs taken b k
      → holders_at k b ≡ holders_at k b₀
  untaken n composite k b₀ hs taken b new (inl (in_list, t)) = absurd (ground arith)
  untaken n composite k b₀ hs taken b new (inr (_, same)) = same

  granted-contains :
      (e : Env) (n : Notify) (composite k : ℕ) (l : LockObj Q) (a : Attempt Q)
      → contains k (provisional_grant e n composite k l a).granted_keys ≡ true
  unfolding provisional_grant
  granted-contains e n composite k l a = contains-append k k a.granted_keys ∙ rw (==_refl k) refl

  provisional_grant-here :
      (e : Env) (n : Notify) (composite k : ℕ) (keep : Bool) (b₀ : Broker Q) (a : Attempt Q)
      → get (e.uuid_v4 a.broker.drawn) (holders_at k b₀) ≡ none
      → holders_at k a.broker ≡ holders_at k b₀
      → let a' = provisional_grant e n composite k (lock_or_default e keep k a.broker) a in
        Taken n.ws composite a'.holder_uuids k (holders_at k b₀) (holders_at k a'.broker)
  unfolding provisional_grant
  provisional_grant-here e n composite k keep b₀ a unused same =
      let u = e.uuid_v4 a.broker.drawn in
      let token = (lock_or_default e keep k a.broker).next_fencing_token + 1 in
      let h = new_holder n.ws u n.pid token (some composite) (expiry e n.ttl) in
      record {
        uuid = u;
        holder = h;
        known = get-set_self k u a.holder_uuids;
        fresh = unused;
        held =
            holders_in-set k k _ a.broker.locks
            ∙ rw (==_refl k) (ap (set u h) (lock_or_default-holders e keep k a.broker ∙ same));
        socket = refl;
        member = refl;
      }

  provisional_grant-there :
      (e : Env) (n : Notify) (composite k : ℕ) (l : LockObj Q) (b₀ : Broker Q) (a : Attempt Q)
      (j : ℕ)
      → (k == j) ≡ false
      → TrackAt n composite b₀ a.holder_uuids a.granted_keys a.broker j
      → let a' = provisional_grant e n composite k l a in
        TrackAt n composite b₀ a'.holder_uuids a'.granted_keys a'.broker j
  unfolding provisional_grant
  provisional_grant-there e n composite k l b₀ a j other (inl (in_list, t)) = inl (
    contains-append j k a.granted_keys ∙ ground arith,
    record {
      uuid = t.uuid;
      holder = t.holder;
      known = get-set_ne j k _ a.holder_uuids (ne_of_test k j other) ∙ t.known;
      fresh = t.fresh;
      held = holders_in-set j k _ a.broker.locks ∙ rw other t.held;
      socket = t.socket;
      member = t.member;
    },
  )
  provisional_grant-there e n composite k l b₀ a j other (inr (absent, same)) = inr (
    contains-append j k a.granted_keys ∙ ground arith,
    holders_in-set j k _ a.broker.locks ∙ rw other same,
  )

  -- A provisional grant of a key that was not taken yet.
  provisional_grant-Track :
      (e : Env) (n : Notify) (composite k : ℕ) (keep : Bool) (b₀ : Broker Q) (a : Attempt Q)
      → IsFreshSupply e b₀
      → b₀.drawn ≤ a.broker.drawn
      → contains k a.granted_keys ≡ false
      → Track n composite b₀ a.holder_uuids a.granted_keys a.broker
      → let a' = provisional_grant e n composite k (lock_or_default e keep k a.broker) a in
        Track n composite b₀ a'.holder_uuids a'.granted_keys a'.broker
  provisional_grant-Track e n composite k keep b₀ a supply later new track j =
      let l = lock_or_default e keep k a.broker in
      let a' = provisional_grant e n composite k l a in
      elim (Bool-cases (k == j)) [
        | inl same ↦
            subst (TrackAt n composite b₀ a'.holder_uuids a'.granted_keys a'.broker)
              (eq_of_test k j same)
              (inl (
                granted-contains e n composite k l a,
                provisional_grant-here e n composite k keep b₀ a (supply a.broker.drawn k later)
                    (untaken n composite k b₀ a.holder_uuids a.granted_keys a.broker new (track k)),
              ))
        | inr other ↦ provisional_grant-there e n composite k l b₀ a j other (track j)
      ]

  provisional_grant-drawn :
      (e : Env) (n : Notify) (composite k : ℕ) (l : LockObj Q) (a : Attempt Q)
      → (provisional_grant e n composite k l a).broker.drawn ≡ a.broker.drawn + 1
  unfolding provisional_grant
  provisional_grant-drawn e n composite k l a = refl

  provisional_grant-keys :
      (e : Env) (n : Notify) (composite k : ℕ) (l : LockObj Q) (a : Attempt Q) (ks : List ℕ)
      → (provisional_grant e n composite k l a).granted_keys ++ ks ≡ a.granted_keys ++ k ∷ ks
  unfolding provisional_grant
  provisional_grant-keys e n composite k l a ks = append_assoc a.granted_keys (k ∷ []) ks

  provisional_grant-contended :
      (e : Env) (n : Notify) (composite k : ℕ) (l : LockObj Q) (a : Attempt Q)
      → (provisional_grant e n composite k l a).contended_key ≡ a.contended_key
  unfolding provisional_grant
  provisional_grant-contended e n composite k l a = refl

  -- What the loop of `acquireMany` leaves: it tracks its grants, and has all keys unless it met a
  -- contended one.
  pub record IsAttempt (n : Notify) (composite : ℕ) (b₀ : Broker Q) (keys : List ℕ) (a : Attempt Q)
      : Type 0 where
    pub tracked : Track n composite b₀ a.holder_uuids a.granted_keys a.broker
    pub once : NoRepeat a.granted_keys
    pub complete : a.contended_key ≡ none → a.granted_keys ≡ keys

  pub grab_keys-IsAttempt :
      (e : Env) (n : Notify) (composite : ℕ) (b₀ : Broker Q) (ks : List ℕ) (a : Attempt Q)
      → IsFreshSupply e b₀
      → b₀.drawn ≤ a.broker.drawn
      → NoRepeat (a.granted_keys ++ ks)
      → Track n composite b₀ a.holder_uuids a.granted_keys a.broker
      → IsAttempt n composite b₀ (a.granted_keys ++ ks) (grab_keys e n composite ks a)
  unfolding grab_keys
  grab_keys-IsAttempt e n composite b₀ [] a supply later once track = record {
    tracked = track;
    once = NoRepeat-prefix a.granted_keys [] once;
    complete = λ free. sym (append-nil a.granted_keys);
  }
  grab_keys-IsAttempt e n composite b₀ (k ∷ ks) a supply later once track =
      let keep = n.keep_locks_after_death in
      let l = lock_or_default e keep k a.broker in
      let a' = provisional_grant e n composite k l a in
      let same = provisional_grant-keys e n composite k l a ks in
      elim (Bool-cases (is_contended k a.broker)) [
        | inl full ↦ rw full (record {
          tracked = track;
          once = NoRepeat-prefix a.granted_keys (k ∷ ks) once;
          complete = λ free. cc;
        })
        | inr room ↦ rw room (
            subst (λ keys. IsAttempt n composite b₀ keys (grab_keys e n composite ks a')) same
              (grab_keys-IsAttempt e n composite b₀ ks a' supply
                (omega (arith, provisional_grant-drawn e n composite k l a))
                (subst NoRepeat (sym same) once)
                (provisional_grant-Track e n composite k keep b₀ a supply later
                  (not-contains-middle k a.granted_keys ks once) track)))
      ]
