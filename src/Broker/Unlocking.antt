-- ===== src/Broker/Unlocking.antt =====
-- What `unlock` does for the caller and to the others on the key.
use live_mutex.Prelude.{
  ℕ, zero, suc, ◌<◌, ◌≡◌, refl, sym, ap, subst, false, ◌++◌, List, [], ◌∷◌, length, contains, ◌-◌,
  add, ◌∙◌, inl, inr, true, ◌&&◌, ◌||◌, Option, none, some, arith, ◌==◌, Bool-cases,
}
use mathlib.Core.List.{append-nil}
use live_mutex.Dict.{get, has, erase, Dict, size, get-set_self}
use live_mutex.LinkedQueue.{LinkedQueue}
use live_mutex.Broker.Types.{Env, Holder, LockObj, Reply, Broker, unlocked, force_unlock_mismatch}
use live_mutex.Broker.Grant.{send, put_lock}
use live_mutex.Broker.Drain.{release_holder, refill, ensure_new_lock_holder}
use live_mutex.Broker.Unlock.{
  UnlockRequest, has?, disown, answer, remove_holder, unlock_held, unlock,
}
use live_mutex.Broker.Serving.{AllSingle}
use live_mutex.Broker.Drain.{capacity}
use live_mutex.Broker.Atomic.{NoRepeat, NoRepeat-prefix, eq_of_test}
use live_mutex.LinkedQueue.{Notify}
use live_mutex.Broker.Fifo.{
  keys, waiters, AllLive, IsFifo, drain-IsFifo, room, take-none, take, drop,
}

in_front : (x : ℕ) (ys zs : List ℕ) → contains x (ys ++ zs) ≡ (contains x ys || contains x zs)
in_front x [] zs = refl
in_front x (y ∷ ys) zs = ground (arith, in_front x ys zs)

contains-keys_erase :
    (x u : ℕ) (d : Dict Holder)
    → contains x (keys d) ≡ false
    → contains x (keys (erase u d)) ≡ false
unfolding erase
contains-keys_erase x u [] h = h
contains-keys_erase x u ((v, a) ∷ d) h = ground (arith, contains-keys_erase x u d)

NoRepeat-erase :
    (u : ℕ) (d : Dict Holder) (ws : List ℕ)
    → NoRepeat (keys d ++ ws)
    → NoRepeat (keys (erase u d) ++ ws)
unfolding erase
NoRepeat-erase u [] ws once = once
NoRepeat-erase u ((v, a) ∷ d) ws once = elim (Bool-cases (u == v)) [
  | inl same ↦ rw same once.1
  | inr other ↦ rw other (
    ground (
      arith,
      in_front v (keys d) ws,
      in_front v (keys (erase u d)) ws,
      contains-keys_erase v u d,
      once.0,
    ),
    NoRepeat-erase u d ws once.1,
  )
]

erase-absent : (u : ℕ) (d : Dict Holder) → contains u (keys d) ≡ false → erase u d ≡ d
unfolding erase
erase-absent u [] h = refl
erase-absent u ((v, a) ∷ d) h = ground (arith, erase-absent u d)

erase-gone : (u : ℕ) (d : Dict Holder) → NoRepeat (keys d) → contains u (keys (erase u d)) ≡ false
unfolding erase
erase-gone u [] once = refl
erase-gone u ((v, a) ∷ d) once = elim (Bool-cases (u == v)) [
  | inl same ↦ rw same (rw (eq_of_test u v same) once.0)
  | inr other ↦ rw other (rw other (erase-gone u d once.1))
]

apart :
    (u : ℕ) (ys zs : List ℕ) → NoRepeat (ys ++ zs) → contains u ys ≡ true → contains u zs ≡ false
apart u [] zs once h = absurd (ground arith)
apart u (y ∷ ys) zs once h = elim (Bool-cases (u == y)) [
  | inl same ↦ ground (arith, in_front y ys zs, once.0, eq_of_test u y same)
  | inr other ↦ apart u ys zs once.1 (ground arith)
]

contains-take : (u n : ℕ) (ys : List ℕ) → contains u ys ≡ false → contains u (take n ys) ≡ false
contains-take u zero ys h = refl
contains-take u (suc n) [] h = refl
contains-take u (suc n) (y ∷ ys) h = ground (arith, contains-take u n ys)

has-keys : (u : ℕ) (d : Dict Holder) → has u d ≡ true → contains u (keys d) ≡ true
unfolding get
has-keys u [] h = h
has-keys u ((v, a) ∷ d) h = ground (arith, has-keys u d)

no_waiters : (xs : List (ℕ × Notify)) → length xs ≡ 0 → waiters xs ≡ []
no_waiters [] h = refl
no_waiters (x ∷ xs) h = absurd (omega arith)

module _ {Q : Type 0} ⦃lq : LinkedQueue Q⦄ where
  -- A key with no holder and no waiter is served in this way too.
  refill-IsFifo :
      (e : Env) (fuel k : ℕ) (l : LockObj Q) (xs : List (ℕ × Notify)) (b : Broker Q)
      → get k b.locks ≡ some l
      → lq.entries l.notify ≡ xs
      → AllSingle xs
      → AllLive e xs
      → NoRepeat (keys l.lockholders ++ waiters xs)
      → length xs < fuel
      → (b' : Broker Q) × (refill e fuel k b ≡ some b') × IsFifo k l xs b'
  unfolding refill
  refill-IsFifo e fuel k l xs b found same single live distinct enough =
      elim (Bool-cases (size l.lockholders == 0 && lq.count l.notify == 0)) [
        | inl empty ↦
            let l' : LockObj Q = record l { timestamp_emptied = some e.now } in
            let nobody : waiters xs ≡ [] =
              no_waiters xs (ground (arith, empty, lq.count_entries l.notify, ap length same)) in
            let (first, others) = take-none (room l) (waiters xs) (inr nobody) in
            (
              put_lock k l' b,
              rw (found, refill) (rw empty refl),
              record {
                lock_object = l';
                found = get-set_self k l' b.locks;
                held =
                    sym (append-nil (keys l.lockholders))
                    ∙ ap (λ us. keys l.lockholders ++ us) (sym first);
                left = ap waiters same ∙ sym others;
              },
            )
        | inr busy ↦
            let (b', returns, fifo) =
              drain-IsFifo e fuel k l xs b found same single live distinct enough in
            (b', rw (found, refill) (rw busy returns), fifo)
      ]

  -- The lock object without the holder `u`.
  abbrev pub given_back : ℕ → LockObj Q → LockObj Q
  given_back u l = record l { lockholders = erase u l.lockholders }

  answer-locks :
      (e : Env) (ws uuid : Option ℕ) (reply : ℕ → Reply) (b : Broker Q)
      → (answer e ws uuid reply b).locks ≡ b.locks
  unfolding answer send
  answer-locks e ws uuid reply b = ground arith

  disown-locks :
      (r : UnlockRequest) (ws : Option ℕ) (b : Broker Q) → (disown r ws b).locks ≡ b.locks
  unfolding disown
  disown-locks r none b = refl
  disown-locks r (some ws) b = refl

  disown-deadlines :
      (r : UnlockRequest) (ws : Option ℕ) (b : Broker Q)
      → (disown r ws b).holder_deadlines ≡ b.holder_deadlines
  unfolding disown
  disown-deadlines r none b = refl
  disown-deadlines r (some ws) b = refl

  answer-deadlines :
      (e : Env) (ws uuid : Option ℕ) (reply : ℕ → Reply) (b : Broker Q)
      → (answer e ws uuid reply b).holder_deadlines ≡ b.holder_deadlines
  unfolding answer send
  answer-deadlines e ws uuid reply b = ground arith

  unlock-unlock_held :
      (e : Env) (fuel : ℕ) (r : UnlockRequest) (ws : Option ℕ) (l : LockObj Q) (b : Broker Q)
      → get r.key b.locks ≡ some l
      → (has? r.holder l.lockholders || r.force) ≡ true
      → unlock e fuel r ws b ≡ unlock_held e fuel r ws l (disown r ws b)
  unfolding unlock
  unlock-unlock_held e fuel r ws l b found may =
      rw (ap (get r.key) (disown-locks r ws b) ∙ found, unlock) (rw may refl)

  unlock_held-holder :
      (e : Env) (fuel u : ℕ) (r : UnlockRequest) (ws : Option ℕ) (l : LockObj Q) (b : Broker Q)
      → r.holder ≡ some u
      → has u l.lockholders ≡ true
      → unlock_held e fuel r ws l b
        ≡ ensure_new_lock_holder e fuel r.key (some u) (
            answer e ws r.uuid
              (λ uuid. unlocked r.key uuid (lq.count l.notify))
              (remove_holder r.key l u b))
  unfolding unlock_held
  unlock_held-holder e fuel u r ws l b names held =
      rw (names, unlock_held)
        (rw held (
          ap
            (λ h. ensure_new_lock_holder e fuel r.key h (
              answer e ws r.uuid (λ uuid. unlocked r.key uuid (lq.count l.notify))
                (remove_holder r.key l u b)))
            names))

  unlock_held-mismatch :
      (e : Env) (fuel u : ℕ) (r : UnlockRequest) (ws : Option ℕ) (l : LockObj Q) (b : Broker Q)
      → r.holder ≡ some u
      → has u l.lockholders ≡ false
      → unlock_held e fuel r ws l b
        ≡ some (answer e ws r.uuid (λ uuid. force_unlock_mismatch r.key uuid (lq.count l.notify)) b)
  unfolding unlock_held
  unlock_held-mismatch e fuel u r ws l b names other = rw (names, unlock_held) (rw other refl)

  -- What `remove_holder` and then `ensureNewLockHolder` do on the key.
  handed_over :
      (e : Env) (fuel k u : ℕ) (l l₁ : LockObj Q) (xs : List (ℕ × Notify)) (b : Broker Q)
      → get k b.locks ≡ some l₁
      → l₁.lockholders ≡ erase u l.lockholders
      → capacity l₁ ≡ capacity l
      → lq.entries l₁.notify ≡ xs
      → AllSingle xs
      → AllLive e xs
      → NoRepeat (keys l.lockholders ++ waiters xs)
      → length xs < fuel
      → (b' : Broker Q) × (ensure_new_lock_holder e fuel k (some u) b ≡ some b')
        × IsFifo k (given_back u l) xs b'
  unfolding ensure_new_lock_holder release_holder
  handed_over e fuel k u l l₁ xs b found gone limit queue single live distinct enough =
      let l₂ : LockObj Q = record l₁ {
        lockholders = erase u l₁.lockholders;
        keep_locks_after_death = false;
      } in
      let b₂ = release_holder k l₁ (some u) b in
      let gone' : l₂.lockholders ≡ erase u l.lockholders =
        ap (erase u) gone
        ∙ erase-absent u (erase u l.lockholders) (
            erase-gone u l.lockholders
              (NoRepeat-prefix (keys l.lockholders) (waiters xs) distinct)) in
      let same_room : room l₂ ≡ room (given_back u l) =
        ap (λ c. c - size l₂.lockholders) limit ∙ ap (λ d. capacity l - size d) gone' in
      let (b', returns, fifo) =
        refill-IsFifo e fuel k l₂ xs b₂ (get-set_self k l₂ b.locks) queue single live
          (subst (λ d. NoRepeat (keys d ++ waiters xs)) (sym gone')
            (NoRepeat-erase u l.lockholders (waiters xs) distinct))
          enough in
      (
        b',
        rw (found, ensure_new_lock_holder) returns,
        record {
          lock_object = fifo.lock_object;
          found = fifo.found;
          held =
              fifo.held
              ∙ ap (λ d. keys d ++ take (room l₂) (waiters xs)) gone'
              ∙ ap (λ n. keys (erase u l.lockholders) ++ take n (waiters xs)) same_room;
          left = fifo.left ∙ ap (λ n. drop n (waiters xs)) same_room;
        },
      )

  -- Let the caller name a holder `u` that is there, on a key whose waiters want one key each and have their sockets,
  -- with no uuid twice among the holders and the waiters, and with fuel for one round more than there are waiters. Then
  -- `unlock` returns, `u` holds the key no more, the slots that are free without it go to the first waiters in their
  -- order, behind the other holders, and the other waiters keep waiting in theirs.
  pub unlock-IsFifo :
      (e : Env) (fuel u : ℕ) (r : UnlockRequest) (ws : Option ℕ) (l : LockObj Q)
      (xs : List (ℕ × Notify)) (b : Broker Q)
      → r.holder ≡ some u
      → get r.key b.locks ≡ some l
      → has u l.lockholders ≡ true
      → lq.entries l.notify ≡ xs
      → AllSingle xs
      → AllLive e xs
      → NoRepeat (keys l.lockholders ++ waiters xs)
      → length xs < fuel
      → (b' : Broker Q) × (l' : LockObj Q) × (unlock e fuel r ws b ≡ some b')
        × (get r.key b'.locks ≡ some l')
        × (contains u (keys l'.lockholders) ≡ false)
        × IsFifo r.key (given_back u l) xs b'
  unfolding remove_holder
  unlock-IsFifo e fuel u r ws l xs b names found held queue single live distinct enough =
      let b₁ = disown r ws b in
      let l₁ : LockObj Q = record l {
        lockholders = erase u l.lockholders;
        lockholders_all_released = add u l.lockholders_all_released;
      } in
      let told =
        answer e ws r.uuid (λ uuid. unlocked r.key uuid (lq.count l.notify))
          (remove_holder r.key l u b₁) in
      let (b', returns, fifo) =
        handed_over e fuel r.key u l l₁ xs told
          (ap (get r.key) (answer-locks e ws r.uuid _ _) ∙ get-set_self r.key l₁ b₁.locks) refl refl
          queue single live distinct enough in
      let may : (has? r.holder l.lockholders || r.force) ≡ true =
        ap (λ h. has? h l.lockholders || r.force) names ∙ ap (λ c. c || r.force) held in
      let once = NoRepeat-prefix (keys l.lockholders) (waiters xs) distinct in
      let waits_not =
        apart u (keys l.lockholders) (waiters xs) distinct (has-keys u l.lockholders held) in
      (
        b',
        fifo.lock_object,
        unlock-unlock_held e fuel r ws l b found may
            ∙ unlock_held-holder e fuel u r ws l b₁ names held
            ∙ returns,
        fifo.found,
        ap (contains u) fifo.held
            ∙ in_front u (keys (erase u l.lockholders)) _
            ∙ rw (erase-gone u l.lockholders once)
                (contains-take u (room (given_back u l)) (waiters xs) waits_not),
        fifo,
      )

  -- A forced unlock that names a uuid which holds nothing returns, and leaves the locks and the
  -- deadlines as they were: no other holder of the key is put out, and no waiter is served.
  pub unlock-mismatch :
      (e : Env) (fuel u : ℕ) (r : UnlockRequest) (ws : Option ℕ) (l : LockObj Q) (b : Broker Q)
      → r.holder ≡ some u
      → r.force ≡ true
      → get r.key b.locks ≡ some l
      → has u l.lockholders ≡ false
      → (b' : Broker Q) × (unlock e fuel r ws b ≡ some b')
        × (b'.locks ≡ b.locks)
        × (b'.holder_deadlines ≡ b.holder_deadlines)
  unlock-mismatch e fuel u r ws l b names forced found other =
      let b₁ = disown r ws b in
      let may : (has? r.holder l.lockholders || r.force) ≡ true =
        ap (λ h. has? h l.lockholders || r.force) names
        ∙ ap (λ c. has u l.lockholders || c) forced
        ∙ ground arith in
      (
        _,
        unlock-unlock_held e fuel r ws l b found may
            ∙ unlock_held-mismatch e fuel u r ws l b₁ names other,
        answer-locks e ws r.uuid _ b₁ ∙ disown-locks r ws b,
        answer-deadlines e ws r.uuid _ b₁ ∙ disown-deadlines r ws b,
      )
