-- ===== src/Broker/Wakeups.antt =====
-- What the end of a write, and of the last read, does to the RW clients that wait for it.
use live_mutex.Prelude.{
  ℕ, ◌+◌, ◌-◌, ◌≤◌, ◌≡◌, refl, sym, ap, subst, ◌∙◌, ◌⊎◌, inl, inr, Bool, true, false, ◌||◌, Option,
  none, All, Bool-cases, Option-cases, some, List, [], ◌∷◌, arith, ◌==◌, if◌then◌else◌,
}
use live_mutex.Dict.{Dict, get, get-set_self}
use live_mutex.LinkedQueue.{LinkedQueue}
use live_mutex.Broker.Types.{Env, Holder, LockObj}
use live_mutex.Broker.Rendezvous.{
  Delayed, set_flag, add_reader, Listener, RwReply, Rw, listeners, reply_to, put_rw, call_fn,
  call_listener, call_all, broadcast, rw_lock, broadcast_result, flag_success, put_captured,
  captured, decrement_readers, set_write_flag_to_false_and_broadcast,
}

-- How many of the listeners are readers, and whether one is a writer.
abbrev pub readers_in : List Listener → ℕ
readers_in [] = 0
readers_in (p ∷ v) = elim p.fn [ set_flag ↦ readers_in v | add_reader ↦ readers_in v + 1 ]

abbrev pub writer_in : List Listener → Bool
writer_in [] = false
writer_in (p ∷ v) = elim p.fn [ set_flag ↦ true | add_reader ↦ writer_in v ]

Delayed-cases : (d : Delayed) → (d ≡ set_flag) ⊎ (d ≡ add_reader)
Delayed-cases set_flag = inl refl
Delayed-cases add_reader = inr refl

if_zero : {A : Type 0} (n : ℕ) (a b : A) → n ≡ 0 → (if n == 0 then a else b) ≡ a
if_zero n a b e = rw e refl

-- These listeners refer to the lock object that is under the key now.
abbrev pub AllCurrent : List Listener → Type 0
AllCurrent v = All (λ p. p.orphan ≡ none) v

-- Such a frame is among those sent.
abbrev pub Sent : ℕ × RwReply → List (ℕ × RwReply) → Type 0
Sent x [] = ⊥
Sent x (y ∷ ys) = (x ≡ y) ⊎ Sent x ys

-- If its socket is there, the listener has got the frame that its request is through, and a waiting reader the one that it
-- waits for, with a positive number of readers.
abbrev pub IsTold : Env → ℕ → List (ℕ × RwReply) → Listener → Type 0
IsTold e k sent p =
    e.writable p.ws ≡ true
    → Sent (p.ws, broadcast_result k p.uuid) sent
      × (p.fn ≡ add_reader → (n : ℕ) × Sent (p.ws, flag_success k p.uuid (n + 1) false) sent)

IsTold-more :
    (e : Env) (k : ℕ) (x : ℕ × RwReply) (sent : List (ℕ × RwReply)) (p : Listener)
    → IsTold e k sent p
    → IsTold e k (x ∷ sent) p
IsTold-more e k x sent p h = λ there.
    let (result, success) = h there in
    (inr result, λ reads. let (n, found) = success reads in (n, inr found))

module _ {Q : Type 0} where
  -- The key `k` has `readers` readers, `flag` as its writer flag, the holders `holders`, nobody
  -- waits for it, and those of `v` have been told.
  pub record IsAwake (e : Env) (k readers : ℕ) (flag : Bool) (holders : Dict Holder)
      (v : List Listener) (s : Rw Q) : Type 0 where
    pub lock_object : LockObj Q
    pub found : get k s.broker.locks ≡ some lock_object
    pub counted : lock_object.readers ≡ readers
    pub flagged : lock_object.writer_flag ≡ flag
    pub held : lock_object.lockholders ≡ holders
    pub nobody : listeners k s ≡ []
    pub told : All (IsTold e k s.replies) v

  -- A listener that has been told stays so.
  reply_to-IsTold :
      (e : Env) (ws : ℕ) (r : RwReply) (k : ℕ) (p : Listener) (s : Rw Q)
      → IsTold e k s.replies p
      → IsTold e k (reply_to e ws r s).replies p
  unfolding reply_to
  reply_to-IsTold e ws r k p s h = elim (Bool-cases (e.writable ws)) [
    | inl there ↦ rw there (IsTold-more e k (ws, r) s.replies p h)
    | inr gone ↦ rw gone h
  ]

  put_captured-replies :
      (o : Option ℕ) (k : ℕ) (l : LockObj Q) (s : Rw Q) → (put_captured o k l s).replies ≡ s.replies
  unfolding put_captured
  put_captured-replies none k l s = refl
  put_captured-replies (some i) k l s = refl

  call_fn-IsTold :
      (e : Env) (k : ℕ) (p q : Listener) (l : LockObj Q) (s : Rw Q)
      → IsTold e k s.replies q
      → IsTold e k (call_fn e k p l s).replies q
  unfolding call_fn
  call_fn-IsTold e k p q l s h =
      let kept = λ (l' : LockObj Q).
        subst (λ x. IsTold e k x q) (sym (put_captured-replies p.orphan k l' s)) h in
      elim (Delayed-cases p.fn) [
        | inl writer ↦ rw (writer, call_fn) (kept (record l { writer_flag = true }))
        | inr reader ↦
            let counted : LockObj Q = record l { readers = l.readers + 1 } in
            rw (reader, call_fn)
              (reply_to-IsTold e p.ws _ k q (put_captured p.orphan k counted s) (kept counted))
      ]

  call_listener-IsTold :
      (e : Env) (k : ℕ) (p q : Listener) (s : Rw Q)
      → IsTold e k s.replies q
      → IsTold e k (call_listener e k p s).replies q
  unfolding call_listener
  call_listener-IsTold e k p q s h = elim (Option-cases (captured p.orphan k s)) [
    | inl absent ↦ rw (absent, call_listener) h
    | inr (l, found) ↦
        rw (found, call_listener)
          (reply_to-IsTold e p.ws _ k q (call_fn e k p l s) (call_fn-IsTold e k p q l s h))
  ]

  call_all-IsTold :
      (e : Env) (k : ℕ) (v : List Listener) (q : Listener) (s : Rw Q)
      → IsTold e k s.replies q
      → IsTold e k (call_all e k v s).replies q
  unfolding call_all
  call_all-IsTold e k [] q s h = h
  call_all-IsTold e k (p ∷ v) q s h =
      call_all-IsTold e k v q (call_listener e k p s) (call_listener-IsTold e k p q s h)

  AllTold-reply :
      (e : Env) (ws : ℕ) (r : RwReply) (k : ℕ) (v : List Listener) (s : Rw Q)
      → All (IsTold e k s.replies) v
      → All (IsTold e k (reply_to e ws r s).replies) v
  AllTold-reply e ws r k [] s h = tt
  AllTold-reply e ws r k (p ∷ v) s h =
      (reply_to-IsTold e ws r k p s h.0, AllTold-reply e ws r k v s h.1)

  call_fn-success :
      (e : Env) (k : ℕ) (p : Listener) (l : LockObj Q) (s : Rw Q)
      → e.writable p.ws ≡ true
      → p.fn ≡ add_reader
      → Sent (p.ws, flag_success k p.uuid (l.readers + 1) false) (call_fn e k p l s).replies
  unfolding call_fn reply_to
  call_fn-success e k p l s there reads = rw (reads, call_fn) (rw there (inl refl))

  call_listener-tells :
      (e : Env) (k : ℕ) (p : Listener) (l : LockObj Q) (s : Rw Q)
      → captured p.orphan k s ≡ some l
      → IsTold e k (call_listener e k p s).replies p
  unfolding call_listener reply_to
  call_listener-tells e k p l s found = λ there.
      rw (found, call_listener)
        (rw there (inl refl, λ reads. (l.readers, inr (call_fn-success e k p l s there reads))))

  reply_to-broker :
      (e : Env) (ws : ℕ) (r : RwReply) (s : Rw Q) → (reply_to e ws r s).broker ≡ s.broker
  unfolding reply_to
  reply_to-broker e ws r s = ground arith

  reply_to-listeners :
      (e : Env) (ws : ℕ) (r : RwReply) (s : Rw Q)
      → (reply_to e ws r s).registered_listeners ≡ s.registered_listeners
  unfolding reply_to
  reply_to-listeners e ws r s = ground arith

  reply_to-IsAwake :
      (e : Env) (ws : ℕ) (r : RwReply) (k n : ℕ) (flag : Bool) (hs : Dict Holder)
      (v : List Listener) (s : Rw Q)
      → IsAwake e k n flag hs v s
      → IsAwake e k n flag hs v (reply_to e ws r s)
  reply_to-IsAwake e ws r k n flag hs v s a = record {
    lock_object = a.lock_object;
    found = ap (λ b. get k b.locks) (reply_to-broker e ws r s) ∙ a.found;
    counted = a.counted;
    flagged = a.flagged;
    held = a.held;
    nobody =
        ap (λ d. elim (get k d) [ none ↦ [] | some v ↦ v ]) (reply_to-listeners e ws r s)
        ∙ a.nobody;
    told = AllTold-reply e ws r k v s a.told;
  }

  put_captured-get :
      (o : Option ℕ) (k : ℕ) (l : LockObj Q) (s : Rw Q)
      → o ≡ none
      → get k (put_captured o k l s).broker.locks ≡ some l
  unfolding put_captured
  put_captured-get none k l s current = get-set_self k l s.broker.locks
  put_captured-get (some i) k l s current = absurd (ground arith)

  -- One listener.
  call_fn-get :
      (e : Env) (k : ℕ) (p : Listener) (l : LockObj Q) (s : Rw Q)
      → p.orphan ≡ none
      → (l' : LockObj Q) × (get k (call_fn e k p l s).broker.locks ≡ some l')
        × (l'.readers ≡ l.readers + readers_in (p ∷ []))
        × (l'.writer_flag ≡ l.writer_flag || writer_in (p ∷ []))
        × (l'.lockholders ≡ l.lockholders)
  unfolding call_fn
  call_fn-get e k p l s current = elim (Delayed-cases p.fn) [
    | inl writer ↦
        rw (writer, call_fn)
          (
            _,
            put_captured-get p.orphan k (record l { writer_flag = true }) s current,
            omega arith,
            ground arith,
            refl,
          )
    | inr reader ↦
        rw (reader, call_fn)
          (
            record l { readers = l.readers + 1 },
            ap (λ b. get k b.locks) (reply_to-broker e p.ws _ _)
                ∙ put_captured-get p.orphan k (record l { readers = l.readers + 1 }) s current,
            omega arith,
            ground arith,
            refl,
          )
  ]

  captured-entry :
      (o : Option ℕ) (k : ℕ) (s : Rw Q) → o ≡ none → captured o k s ≡ get k s.broker.locks
  unfolding captured
  captured-entry none k s current = refl
  captured-entry (some i) k s current = absurd (ground arith)

  call_listener-get :
      (e : Env) (k : ℕ) (p : Listener) (l : LockObj Q) (s : Rw Q)
      → p.orphan ≡ none
      → get k s.broker.locks ≡ some l
      → (l' : LockObj Q) × (get k (call_listener e k p s).broker.locks ≡ some l')
        × (l'.readers ≡ l.readers + readers_in (p ∷ []))
        × (l'.writer_flag ≡ l.writer_flag || writer_in (p ∷ []))
        × (l'.lockholders ≡ l.lockholders)
        × IsTold e k (call_listener e k p s).replies p
  unfolding call_listener
  call_listener-get e k p l s current found =
      let (l', there, n, f, h) = call_fn-get e k p l s current in
      let its : captured p.orphan k s ≡ some l = captured-entry p.orphan k s current ∙ found in
      (
        l',
        rw (its, call_listener)
            (ap (λ b. get k b.locks) (reply_to-broker e p.ws _ (call_fn e k p l s)) ∙ there),
        n,
        f,
        h,
        call_listener-tells e k p l s its,
      )

  call_all-get :
      (e : Env) (k : ℕ) (v : List Listener) (l : LockObj Q) (s : Rw Q)
      → AllCurrent v
      → get k s.broker.locks ≡ some l
      → (l' : LockObj Q) × (get k (call_all e k v s).broker.locks ≡ some l')
        × (l'.readers ≡ l.readers + readers_in v)
        × (l'.writer_flag ≡ l.writer_flag || writer_in v)
        × (l'.lockholders ≡ l.lockholders)
        × All (IsTold e k (call_all e k v s).replies) v
  unfolding call_all
  call_all-get e k [] l s current found = (l, found, omega arith, ground arith, refl, tt)
  call_all-get e k (p ∷ v) l s current found =
      let (l₁, there, n₁, f₁, h₁, one) = call_listener-get e k p l s current.0 found in
      let s₁ = call_listener e k p s in
      let (l₂, then_, n₂, f₂, h₂, others) = call_all-get e k v l₁ s₁ current.1 there in
      (
        l₂,
        then_,
        ground (arith, n₁, n₂),
        ground (arith, f₁, f₂),
        h₂ ∙ h₁,
        (call_all-IsTold e k v p s₁ one, others),
      )

  broadcast-IsAwake :
      (e : Env) (k : ℕ) (l : LockObj Q) (s : Rw Q)
      → AllCurrent (listeners k s)
      → get k s.broker.locks ≡ some l
      → IsAwake e k
          (l.readers + readers_in (listeners k s))
          (l.writer_flag || writer_in (listeners k s))
          l.lockholders
          (listeners k s)
          (broadcast e k none s)
  unfolding broadcast
  broadcast-IsAwake e k l s current found =
      let (l', there, n, f, h, told) = call_all-get e k (listeners k s) l s current found in
      record {
        lock_object = l';
        found = there;
        counted = n;
        flagged = f;
        held = h;
        nobody =
            ap (λ o. elim o [ none ↦ [] | some v ↦ v ])
              (get-set_self k [] (call_all e k (listeners k s) s).registered_listeners);
        told = told;
      }

module _ {Q : Type 0} ⦃lq : LinkedQueue Q⦄ where
  -- Let those that wait for a key refer to the lock object that it has now. The end of a write wakes them all at
  -- once: each whose socket is there gets the frame of the broadcast, and a reader the one that lets it go ahead; each
  -- waiting reader is counted, the writer flag is up again exactly when some waiter is a writer, the holders of
  -- the key are as they were, and no listener is left.
  pub set_write_flag_to_false_and_broadcast-IsAwake :
      (e : Env) (k uuid ws : ℕ) (s : Rw Q)
      → AllCurrent (listeners k s)
      → IsAwake e k
          ((rw_lock e k s).readers + readers_in (listeners k s))
          (writer_in (listeners k s))
          (rw_lock e k s).lockholders
          (listeners k s)
          (set_write_flag_to_false_and_broadcast e k uuid ws s)
  unfolding set_write_flag_to_false_and_broadcast
  set_write_flag_to_false_and_broadcast-IsAwake e k uuid ws s current =
      let l = record (rw_lock e k s) { writer_flag = false } in
      reply_to-IsAwake e ws _ k _ _ _ (listeners k s) _
        (broadcast-IsAwake e k l (put_rw k l s) current (get-set_self k l s.broker.locks))

  -- Under the same condition, when the last reader of a key leaves, or one leaves a key that has none, everyone who
  -- waits for the key is woken and gets the same frames: the readers are those among the waiters, the writer
  -- flag goes up if a waiter is a writer, and no listener is left.
  pub decrement_readers-IsAwake :
      (e : Env) (k uuid ws : ℕ) (s : Rw Q)
      → AllCurrent (listeners k s)
      → (rw_lock e k s).readers ≤ 1
      → IsAwake e k
          (readers_in (listeners k s))
          ((rw_lock e k s).writer_flag || writer_in (listeners k s))
          (rw_lock e k s).lockholders
          (listeners k s)
          (decrement_readers e k uuid ws s)
  unfolding decrement_readers
  decrement_readers-IsAwake e k uuid ws s current last =
      let l = rw_lock e k s in
      let l' = record l { readers = l.readers - 1 } in
      let none_left : l.readers - 1 ≡ 0 = omega arith in
      let v = listeners k s in
      let flag = l.writer_flag || writer_in v in
      let only : l.readers - 1 + readers_in v ≡ readers_in v = omega (arith, last) in
      let woken = broadcast e k none (put_rw k l' s) in
      let awake =
        broadcast-IsAwake e k l' (put_rw k l' s) current (get-set_self k l' s.broker.locks) in
      reply_to-IsAwake e ws _ k _ _ _ v _ (
        subst (IsAwake e k (readers_in v) flag l.lockholders v)
          (sym (if_zero (l.readers - 1) woken (put_rw k l' s) none_left))
          (subst (λ n. IsAwake e k n flag l.lockholders v woken) only awake))
