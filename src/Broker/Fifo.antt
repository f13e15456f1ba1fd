-- ===== src/Broker/Fifo.antt =====
-- In which order the waiters of a key are served: the loop of `ensureNewLockHolder` against the service of
-- a semaphore with a queue, `take` and `drop` of the free slots.
use mathlib.Core.List.{append_assoc, append-nil}
use live_mutex.Prelude.{
  ℕ, zero, suc, ◌+◌, ◌-◌, ◌<◌, ◌≡◌, refl, sym, ap, subst, ◌∙◌, ◌⊎◌, inl, inr, true, false, none,
  some, List, [], ◌∷◌, ◌++◌, arith, leb, leb→lt, length-append, length, All, contains, Bool-cases,
}
use live_mutex.Dict.{Dict, get, set, size, get-set_self}
use live_mutex.LinkedQueue.{LinkedQueue, Notify}
use live_mutex.Broker.Types.{Env, Holder, LockObj, Broker}
use live_mutex.Broker.Grant.{put_lock, grant_lock, expiry, or_default_ttl, add_holder}
use live_mutex.Broker.Drain.{capacity, stop, again, grant_waiter, serve_next, drain}
use live_mutex.Broker.Atomic.{NoRepeat, not-contains-middle}
use live_mutex.Broker.Serving.{AllSingle, next_waiter-first}
use live_mutex.Broker.Serving.Rounds.{serve_next-grants, send-locks}

-- The first `n`, and the others.
abbrev pub take {ℓ} : {A : Type ℓ} → ℕ → List A → List A
take zero xs = []
take (suc n) [] = []
take (suc n) (x ∷ xs) = x ∷ take n xs

abbrev pub drop {ℓ} : {A : Type ℓ} → ℕ → List A → List A
drop zero xs = xs
drop (suc n) [] = []
drop (suc n) (x ∷ xs) = drop n xs

abbrev pub keys {ℓ} : {V : Type ℓ} → Dict V → List ℕ
keys [] = []
keys ((u, v) ∷ d) = u ∷ keys d

-- The uuids of the waiters, the front first.
abbrev pub waiters : List (ℕ × Notify) → List ℕ
waiters [] = []
waiters ((u, n) ∷ xs) = n.uuid ∷ waiters xs

-- The sockets of these waiters are there.
abbrev pub AllLive : Env → List (ℕ × Notify) → Type 0
AllLive e xs = All (λ x. e.writable x.1.ws ≡ true) xs

keys-set :
    (u : ℕ) (h : Holder) (d : Dict Holder)
    → contains u (keys d) ≡ false
    → keys (set u h d) ≡ keys d ++ u ∷ []
unfolding set
keys-set u h [] new = refl
keys-set u h ((v, g) ∷ d) new = ground (arith, keys-set u h d)

length-keys : (d : Dict Holder) → length (keys d) ≡ size d
length-keys [] = refl
length-keys ((u, h) ∷ d) = omega (arith, length-keys d)

pub take-none : (n : ℕ) (us : List ℕ) → (n ≡ 0) ⊎ (us ≡ []) → (take n us ≡ []) × (drop n us ≡ us)
take-none zero us h = (refl, refl)
take-none (suc n) [] h = (refl, refl)
take-none (suc n) (u ∷ us) h = absurd (ground arith)

take-cons :
    (n m u : ℕ) (us : List ℕ)
    → n ≡ m + 1
    → (take n (u ∷ us) ≡ u ∷ take m us) × (drop n (u ∷ us) ≡ drop m us)
take-cons zero m u us e = absurd (omega arith)
take-cons (suc n) m u us e = let same : n ≡ m = omega arith in rw same (refl, refl)

module _ {Q : Type 0} ⦃lq : LinkedQueue Q⦄ where
  -- The free slots of a lock object.
  abbrev pub room : LockObj Q → ℕ
  room l = capacity l - size l.lockholders

  -- How a drain of the queue `xs` of `k` comes out: the free slots go to the first waiters in their order,
  -- behind the holders that are there, and the others keep waiting.
  pub record IsFifo (k : ℕ) (l : LockObj Q) (xs : List (ℕ × Notify)) (b : Broker Q) : Type 0 where
    pub lock_object : LockObj Q
    pub found : get k b.locks ≡ some lock_object
    pub held : keys lock_object.lockholders ≡ keys l.lockholders ++ take (room l) (waiters xs)
    pub left : waiters (lq.entries lock_object.notify) ≡ drop (room l) (waiters xs)

  grant_waiter-slot :
      (e : Env) (k : ℕ) (l : LockObj Q) (n : Notify) (b : Broker Q)
      → contains n.uuid (keys l.lockholders) ≡ false
      → (l' : LockObj Q) × (get k (grant_waiter e k l n b).locks ≡ some l')
        × (keys l'.lockholders ≡ keys l.lockholders ++ n.uuid ∷ [])
        × (capacity l' ≡ capacity l)
        × (l'.notify ≡ l.notify)
  unfolding grant_waiter grant_lock
  grant_waiter-slot e k l n b new =
      let kept : LockObj Q = record l { keep_locks_after_death = n.keep_locks_after_death } in
      let expires = expiry e (or_default_ttl e 50000000 n.ttl) in
      let l' = add_holder n.ws n.uuid n.pid none expires kept in
      (
        l',
        ap (get k) (send-locks e n.ws _ (grant_lock e kept n.ws n.uuid n.pid n.ttl k b))
            ∙ get-set_self k l' b.locks,
        keys-set n.uuid _ l.lockholders new,
        refl,
        refl,
      )

  -- The loop stops at once: there is no waiter, or no free slot.
  stopped :
      (e : Env) (fuel k : ℕ) (l : LockObj Q) (xs : List (ℕ × Notify)) (b : Broker Q)
      → get k b.locks ≡ some l
      → lq.entries l.notify ≡ xs
      → serve_next e k l b ≡ stop b
      → (take (room l) (waiters xs) ≡ []) × (drop (room l) (waiters xs) ≡ waiters xs)
      → (b' : Broker Q) × (drain e (suc fuel) k b ≡ some b') × IsFifo k l xs b'
  unfolding drain
  stopped e fuel k l xs b found same stops (nobody, all) = (
    b,
    rw (found, drain) (rw stops refl),
    record {
      lock_object = l;
      found = found;
      held =
          sym (append-nil (keys l.lockholders)) ∙ ap (λ us. keys l.lockholders ++ us) (sym nobody);
      left = ap waiters same ∙ sym all;
    },
  )

  serve_next-empty :
      (e : Env) (k : ℕ) (l : LockObj Q) (b : Broker Q)
      → lq.count l.notify ≡ 0
      → serve_next e k l b ≡ stop b
  unfolding serve_next
  serve_next-empty e k l b idle = rw idle refl

  serve_next-full :
      (e : Env) (k : ℕ) (l : LockObj Q) (b : Broker Q)
      → leb (capacity l) (size l.lockholders) ≡ true
      → serve_next e k l b ≡ stop b
  unfolding serve_next
  serve_next-full e k l b full = rw full (ground arith)

  -- A round with a free slot and a live waiter at the front grants to that waiter.
  serve_next-front :
      (e : Env) (k : ℕ) (l : LockObj Q) (b : Broker Q) (u : ℕ) (m : Notify) (xs : List (ℕ × Notify))
      → lq.entries l.notify ≡ (u, m) ∷ xs
      → m.acquire_many ≡ none
      → e.writable m.ws ≡ true
      → leb (capacity l) (size l.lockholders) ≡ false
      → contains m.uuid (keys l.lockholders) ≡ false
      → (b' : Broker Q) × (l' : LockObj Q) × (serve_next e k l b ≡ again b')
        × (get k b'.locks ≡ some l')
        × (keys l'.lockholders ≡ keys l.lockholders ++ m.uuid ∷ [])
        × (room l ≡ room l' + 1)
        × (lq.entries l'.notify ≡ xs)
  serve_next-front e k l b u m xs same single live free new =
      let (q', taken, left) =
        next_waiter-first e (suc (lq.count l.notify)) none l.notify [] u m xs same tt live
          (omega arith) in
      let some_wait : lq.count l.notify ≡ suc (length xs) =
        lq.count_entries l.notify ∙ ap length same in
      let rest : LockObj Q = record l { notify = q' } in
      let (l', there, names, cap_same, queue) =
        grant_waiter-slot e k rest m (put_lock k rest b) new in
      (
        grant_waiter e k rest m (put_lock k rest b),
        l',
        serve_next-grants e k l b m q' (rw some_wait (ground arith)) free taken single,
        there,
        names,
        omega (
          arith,
          cap_same,
          length-keys l.lockholders,
          length-keys l'.lockholders,
          ap length names,
          length-append (keys l.lockholders) (m.uuid ∷ []),
          leb→lt (capacity l) (size l.lockholders) free,
        ),
        ap lq.entries queue ∙ left,
      )

  -- Let every waiter of `k` want one key only and have its socket, and let no uuid be twice among the holders and
  -- the waiters. With fuel for one round more than there are waiters, the loop of `ensureNewLockHolder`
  -- returns, and does what a semaphore with a queue does: the free slots go to the first waiters, in their order,
  -- each behind the holders before it, and the others keep waiting in their order.
  pub drain-IsFifo :
      (e : Env) (fuel k : ℕ) (l : LockObj Q) (xs : List (ℕ × Notify)) (b : Broker Q)
      → get k b.locks ≡ some l
      → lq.entries l.notify ≡ xs
      → AllSingle xs
      → AllLive e xs
      → NoRepeat (keys l.lockholders ++ waiters xs)
      → length xs < fuel
      → (b' : Broker Q) × (drain e fuel k b ≡ some b') × IsFifo k l xs b'
  unfolding drain
  drain-IsFifo e zero k l xs b found same single live distinct enough = absurd (omega arith)
  drain-IsFifo e (suc fuel) k l [] b found same single live distinct enough =
      stopped e fuel k l [] b found same
        (serve_next-empty e k l b (lq.count_entries l.notify ∙ ap length same))
        (take-none (room l) [] (inr refl))
  drain-IsFifo e (suc fuel) k l ((u, m) ∷ xs) b found same single live distinct enough =
      elim (Bool-cases (leb (capacity l) (size l.lockholders))) [
        | inl full ↦
            stopped e fuel k l ((u, m) ∷ xs) b found same (serve_next-full e k l b full)
              (take-none (room l) (waiters ((u, m) ∷ xs)) (inl (ground arith)))
        | inr free ↦
            let (b₁, l', grants, there, names, one_less, kept) =
              serve_next-front e k l b u m xs same single.0 live.0 free
                (not-contains-middle m.uuid (keys l.lockholders) (waiters xs) distinct) in
            let regroup = append_assoc (keys l.lockholders) (m.uuid ∷ []) (waiters xs) in
            let (b', returns, fifo) =
              drain-IsFifo e fuel k l' xs b₁ there kept single.1 live.1
                (subst NoRepeat (sym (ap (λ ks. ks ++ waiters xs) names ∙ regroup)) distinct)
                (omega arith) in
            let (first, others) = take-cons (room l) (room l') m.uuid (waiters xs) one_less in
            (
              b',
              rw (found, drain) (rw grants returns),
              record {
                lock_object = fifo.lock_object;
                found = fifo.found;
                held =
                    fifo.held
                    ∙ ap (λ ks. ks ++ take (room l') (waiters xs)) names
                    ∙ append_assoc (keys l.lockholders) (m.uuid ∷ []) (take (room l') (waiters xs))
                    ∙ ap (λ us. keys l.lockholders ++ us) (sym first);
                left = fifo.left ∙ sym others;
              },
            )
      ]
