-- ===== src/Broker/Serving.antt =====
-- Whom `ensureNewLockHolder` takes from a queue.
pub mod Rounds
use live_mutex.Prelude.{
  ℕ, zero, suc, ◌+◌, ◌≤◌, ◌<◌, ◌≡◌, refl, ap, ◌∙◌, ◌⊎◌, inl, inr, true, false, Option, none, some,
  List, [], ◌∷◌, ◌++◌, arith, leb, leb→le, ◌==◌, length, length-append, All, Bool-cases,
}
use live_mutex.Dict.{get, set, size, get-set_self}
use live_mutex.LinkedQueue.{LinkedQueue, Notify}
use live_mutex.Broker.Types.{Env, Holder, LockObj, Reply, Broker}
use live_mutex.Broker.Grant.{put_lock, send, expiry, or_default_ttl, add_holder, grant_lock}
use live_mutex.Broker.Drain.{
  capacity, stop, again, next_waiter, grant_waiter, serve, serve_taken, serve_next, drain,
}

-- The sockets of these waiters are gone.
abbrev pub AllDead : Env → List (ℕ × Notify) → Type 0
AllDead e xs = All (λ x. e.writable x.1.ws ≡ false) xs

-- These waiters want one key each.
abbrev pub AllSingle : List (ℕ × Notify) → Type 0
AllSingle xs = All (λ x. x.1.acquire_many ≡ none) xs

module _ {Q : Type 0} ⦃lq : LinkedQueue Q⦄ where
  -- If the queue is some waiters whose sockets are gone, then one that is writable, then others, the
  -- search takes that one, drops those before it and keeps those after it.
  pub next_waiter-first :
      (e : Env) (rounds : ℕ) (n : Option Notify) (q : Q) (dead : List (ℕ × Notify)) (u : ℕ)
      (m : Notify) (rest : List (ℕ × Notify))
      → lq.entries q ≡ dead ++ (u, m) ∷ rest
      → AllDead e dead
      → e.writable m.ws ≡ true
      → length dead < rounds
      → (q' : Q) × (next_waiter e rounds n q ≡ (some m, q')) × (lq.entries q' ≡ rest)
  unfolding next_waiter
  next_waiter-first e zero n q dead u m rest split gone live enough = absurd (omega arith)
  next_waiter-first e (suc rounds) n q [] u m rest split gone live enough =
      let (q', taken, left) = lq.dequeue_cons q u m rest split in
      (q', rw (taken, next_waiter) (rw live refl), left)
  next_waiter-first e (suc rounds) n q ((v, x) ∷ dead) u m rest split gone live enough =
      let (q', taken, left) = lq.dequeue_cons q v x (dead ++ (u, m) ∷ rest) split in
      let (q'', found, kept) =
        next_waiter-first e rounds (some x) q' dead u m rest left gone.1 live (omega arith) in
      (q'', rw (taken, next_waiter) (rw gone.0 found), kept)

  -- If every queued waiter's socket is gone, the search does not come back with nothing: it takes the
  -- last of them.
  pub next_waiter-dead :
      (e : Env) (rounds : ℕ) (n : Option Notify) (q : Q) (dead : List (ℕ × Notify)) (u : ℕ)
      (m : Notify)
      → lq.entries q ≡ dead ++ (u, m) ∷ []
      → AllDead e dead
      → e.writable m.ws ≡ false
      → length dead + 1 < rounds
      → (q' : Q) × (next_waiter e rounds n q ≡ (some m, q')) × (lq.entries q' ≡ [])
  unfolding next_waiter
  next_waiter-dead e zero n q dead u m split gone live enough = absurd (omega arith)
  next_waiter-dead e (suc zero) n q dead u m split gone live enough = absurd (omega arith)
  next_waiter-dead e (suc (suc rounds)) n q [] u m split gone live enough =
      let (q', taken, left) = lq.dequeue_cons q u m [] split in
      (q', rw (taken, next_waiter) (rw live (rw (lq.dequeue_nil q' left, next_waiter) refl)), left)
  next_waiter-dead e (suc (suc rounds)) n q ((v, x) ∷ dead) u m split gone live enough =
      let (q', taken, left) = lq.dequeue_cons q v x (dead ++ (u, m) ∷ []) split in
      let (q'', found, kept) =
        next_waiter-dead e (suc rounds) (some x) q' dead u m left gone.1 live (omega arith) in
      (q'', rw (taken, next_waiter) (rw gone.0 found), kept)

  -- The same once a waiter is in hand.
  next_waiter-rest :
      (e : Env) (rounds : ℕ) (q : Q) (u : ℕ) (m : Notify) (xs : List (ℕ × Notify))
      → lq.entries q ≡ xs
      → m.acquire_many ≡ none
      → AllSingle xs
      → (w : Notify) × (q' : Q) × (next_waiter e rounds (some m) q ≡ (some w, q'))
        × (w.acquire_many ≡ none)
        × AllSingle (lq.entries q')
        × (length (lq.entries q') ≤ length xs)
  unfolding next_waiter
  next_waiter-rest e zero q u m xs same single all =
      (m, q, refl, single, rw same all, rw same (omega arith))
  next_waiter-rest e (suc rounds) q u m [] same single all = (
    m,
    q,
    rw (lq.dequeue_nil q same, next_waiter) refl,
    single,
    rw same tt,
    rw same (omega arith),
  )
  next_waiter-rest e (suc rounds) q u m ((v, x) ∷ xs) same single all =
      let (q', taken, left) = lq.dequeue_cons q v x xs same in
      elim (Bool-cases (e.writable x.ws)) [
        | inl live ↦ (
          x,
          q',
          rw (taken, next_waiter) (rw live refl),
          all.0,
          rw left all.1,
          rw left (omega arith),
        )
        | inr gone ↦
            let (w, q'', found, one, singles, fewer) =
              next_waiter-rest e rounds q' v x xs left all.0 all.1 in
            (w, q'', rw (taken, next_waiter) (rw gone found), one, singles, omega (arith, fewer))
      ]

  -- From a queue of single-key waiters the search takes one, and leaves fewer.
  pub next_waiter-single :
      (e : Env) (rounds : ℕ) (n : Option Notify) (q : Q) (u : ℕ) (m : Notify)
      (xs : List (ℕ × Notify))
      → lq.entries q ≡ (u, m) ∷ xs
      → m.acquire_many ≡ none
      → AllSingle xs
      → (w : Notify) × (q' : Q) × (next_waiter e (suc rounds) n q ≡ (some w, q'))
        × (w.acquire_many ≡ none)
        × AllSingle (lq.entries q')
        × (length (lq.entries q') ≤ length xs)
  unfolding next_waiter
  next_waiter-single e rounds n q u m xs same single all =
      let (q', taken, left) = lq.dequeue_cons q u m xs same in
      elim (Bool-cases (e.writable m.ws)) [
        | inl live ↦ (
          m,
          q',
          rw (taken, next_waiter) (rw live refl),
          single,
          rw left all,
          rw left (omega arith),
        )
        | inr gone ↦
            let (w, q'', found, one, singles, fewer) =
              next_waiter-rest e rounds q' u m xs left single all in
            (w, q'', rw (taken, next_waiter) (rw gone found), one, singles, fewer)
      ]
