-- ===== src/Broker/Serving/Rounds.antt =====
-- The rounds of `ensureNewLockHolder`: what one does, and that the loop comes to an end.
use live_mutex.Prelude.{
  ℕ, zero, suc, ◌+◌, ◌≤◌, ◌<◌, ◌≡◌, refl, ap, ◌∙◌, ◌⊎◌, inl, inr, false, none, some, List, [], ◌∷◌,
  ◌++◌, arith, leb, leb→le, ◌==◌, length, length-append, Bool-cases,
}
use live_mutex.Dict.{get, set, size, get-set_self}
use live_mutex.LinkedQueue.{LinkedQueue, Notify}
use live_mutex.Broker.Types.{Env, Holder, LockObj, Reply, Broker}
use live_mutex.Broker.Grant.{put_lock, send, expiry, or_default_ttl, add_holder, grant_lock}
use live_mutex.Broker.Drain.{
  capacity, stop, again, next_waiter, grant_waiter, serve, serve_taken, serve_next, drain,
}
use live_mutex.Broker.Serving.{AllDead, AllSingle, next_waiter-dead, next_waiter-single}

module _ {Q : Type 0} ⦃lq : LinkedQueue Q⦄ where
  pub send-locks : (e : Env) (ws : ℕ) (r : Reply) (b : Broker Q) → (send e ws r b).locks ≡ b.locks
  unfolding send
  send-locks e ws r b = ground arith

  -- A served waiter is a holder of the lock object under the key, which keeps its queue.
  pub grant_waiter-get :
      (e : Env) (k : ℕ) (l : LockObj Q) (n : Notify) (b : Broker Q)
      → (l' : LockObj Q) × (h : Holder) × (get k (grant_waiter e k l n b).locks ≡ some l')
        × (l'.lockholders ≡ set n.uuid h l.lockholders)
        × (h.ws ≡ n.ws)
        × (l'.notify ≡ l.notify)
  unfolding grant_waiter grant_lock
  grant_waiter-get e k l n b =
      let kept : LockObj Q = record l { keep_locks_after_death = n.keep_locks_after_death } in
      let expires = expiry e (or_default_ttl e 50000000 n.ttl) in
      let l' = add_holder n.ws n.uuid n.pid none expires kept in
      (
        l',
        _,
        ap (get k) (send-locks e n.ws _ (grant_lock e kept n.ws n.uuid n.pid n.ttl k b))
            ∙ get-set_self k l' b.locks,
        refl,
        refl,
        refl,
      )

  -- A round with room that finds a single-key waiter grants to it.
  pub serve_next-grants :
      (e : Env) (k : ℕ) (l : LockObj Q) (b : Broker Q) (w : Notify) (q : Q)
      → (lq.count l.notify == 0) ≡ false
      → leb (capacity l) (size l.lockholders) ≡ false
      → next_waiter e (suc (lq.count l.notify)) none l.notify ≡ (some w, q)
      → w.acquire_many ≡ none
      → let left : LockObj Q = record l { notify = q } in
        serve_next e k l b ≡ again (grant_waiter e k left w (put_lock k left b))
  unfolding serve_next serve_taken serve
  serve_next-grants e k l b w q waiting room taken one =
      rw waiting (rw room (rw (taken, serve_taken) (rw room (simp one))))

  -- How a drain of the queue of `k` comes out: the queue is empty, or every slot is taken.
  pub record IsServed (k : ℕ) (b : Broker Q) : Type 0 where
    pub lock_object : LockObj Q
    pub found : get k b.locks ≡ some lock_object
    pub busy :
        (lq.count lock_object.notify ≡ 0) ⊎ (capacity lock_object ≤ size lock_object.lockholders)

  -- One round on a queue of single-key waiters stops with the key served, or grants to one of them.
  serve_next-single :
      (e : Env) (k : ℕ) (l : LockObj Q) (b : Broker Q) (xs : List (ℕ × Notify))
      → get k b.locks ≡ some l
      → lq.entries l.notify ≡ xs
      → AllSingle xs
      → ((serve_next e k l b ≡ stop b) × IsServed k b)
        ⊎ ((b' : Broker Q) × (l' : LockObj Q) × (serve_next e k l b ≡ again b')
            × (get k b'.locks ≡ some l')
            × AllSingle (lq.entries l'.notify)
            × (length (lq.entries l'.notify) < length xs))
  unfolding serve_next serve_taken serve
  serve_next-single e k l b [] found same all =
      let idle : lq.count l.notify ≡ 0 = lq.count_entries l.notify ∙ ap length same in
      inl (rw idle refl, record { lock_object = l; found = found; busy = inl idle })
  serve_next-single e k l b ((u, m) ∷ xs) found same all =
      let some_wait : lq.count l.notify ≡ suc (length xs) =
        lq.count_entries l.notify ∙ ap length same in
      elim (Bool-cases (leb (capacity l) (size l.lockholders))) [
        | inl full ↦ inl (
          rw (some_wait, full) (ground arith),
          record { lock_object = l; found = found; busy = inr (leb→le _ _ full) },
        )
        | inr room ↦
            let (w, q', taken, one, singles, fewer) =
              next_waiter-single e (lq.count l.notify) none l.notify u m xs same all.0 all.1 in
            let left : LockObj Q = record l { notify = q' } in
            let (l', h, there, _, _, queue) = grant_waiter-get e k left w (put_lock k left b) in
            inr (
              grant_waiter e k left w (put_lock k left b),
              l',
              serve_next-grants e k l b w q' (rw some_wait (ground arith)) room taken one,
              there,
              rw queue singles,
              rw queue (omega (arith, fewer)),
            )
      ]

  -- Take a key whose waiters want one key each, and fuel for one round more than there are waiters.
  -- Then the loop of `ensureNewLockHolder` returns, and leaves no waiter of the key behind while the
  -- key has a free slot: its queue is empty, or it has as many holders as it may have, or more.
  pub drain-IsServed :
      (e : Env) (fuel k : ℕ) (l : LockObj Q) (b : Broker Q)
      → get k b.locks ≡ some l
      → AllSingle (lq.entries l.notify)
      → lq.count l.notify < fuel
      → (b' : Broker Q) × (drain e fuel k b ≡ some b') × IsServed k b'
  unfolding drain
  drain-IsServed e zero k l b found all enough = absurd (omega arith)
  drain-IsServed e (suc fuel) k l b found all enough =
      elim (serve_next-single e k l b (lq.entries l.notify) found refl all) [
        | inl (stops, served) ↦ (b, rw (found, drain) (rw stops refl), served)
        | inr (b₁, l₁, goes_on, found₁, all₁, fewer) ↦
            let (b', returns, served) =
              drain-IsServed e fuel k l₁ b₁ found₁ all₁
                (omega (arith, lq.count_entries l.notify, lq.count_entries l₁.notify)) in
            (b', rw (found, drain) (rw goes_on returns), served)
      ]

  -- The last waiter of a queue of dead sockets is granted the lock, if there is room and it wants one
  -- key: it becomes a holder although nobody can be told.
  pub serve_next-dead :
      (e : Env) (k : ℕ) (l : LockObj Q) (b : Broker Q) (dead : List (ℕ × Notify)) (u : ℕ)
      (m : Notify)
      → lq.entries l.notify ≡ dead ++ (u, m) ∷ []
      → AllDead e dead
      → e.writable m.ws ≡ false
      → m.acquire_many ≡ none
      → size l.lockholders < capacity l
      → (b' : Broker Q) × (l' : LockObj Q) × (h : Holder) × (serve_next e k l b ≡ again b')
        × (get k b'.locks ≡ some l')
        × (l'.lockholders ≡ set m.uuid h l.lockholders)
        × (h.ws ≡ m.ws)
  serve_next-dead e k l b dead u m split gone dead_too one room =
      let counted : lq.count l.notify ≡ length dead + 1 =
        lq.count_entries l.notify ∙ ap length split ∙ length-append dead ((u, m) ∷ []) in
      let (q', taken, _) =
        next_waiter-dead e (suc (lq.count l.notify)) none l.notify dead u m split gone dead_too
          (omega arith) in
      let left : LockObj Q = record l { notify = q' } in
      let (l', h, there, held, socket, _) = grant_waiter-get e k left m (put_lock k left b) in
      (
        grant_waiter e k left m (put_lock k left b),
        l',
        h,
        serve_next-grants e k l b m q' (ground arith) (ground arith) taken one,
        there,
        held,
        socket,
      )
