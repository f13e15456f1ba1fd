-- ===== src/Broker/Retention.antt =====
-- What `cleanUpLocks` may not delete.
use live_mutex.Prelude.{
  ℕ, ◌+◌, ◌≤◌, ◌<◌, ◌≡◌, sym, ap, ◌∙◌, inl, inr, true, false, none, some, [], ◌∷◌, arith, ◌==◌,
  Bool-cases,
}
use live_mutex.Dict.{Dict, get, size}
use live_mutex.LinkedQueue.{LinkedQueue}
use live_mutex.Broker.Types.{Env, LockObj, Broker}
use live_mutex.Broker.Lock.{is_stale, clean_up, clean_up_locks}

module _ {Q : Type 0} ⦃lq : LinkedQueue Q⦄ where
  -- The lock object is in use: held, awaited, not known to be empty, or empty for less than two seconds.
  pub data InUse (e : Env) (l : LockObj Q) : Type 0 where
    is_held : 1 ≤ size l.lockholders → InUse e l
    is_awaited : 1 ≤ lq.count l.notify → InUse e l
    is_occupied : l.timestamp_emptied ≡ none → InUse e l
    is_recent : (t : ℕ) → l.timestamp_emptied ≡ some t → e.now < t + 2000 → InUse e l

  InUse-stale : (e : Env) (l : LockObj Q) → InUse e l → is_stale e l ≡ false
  unfolding is_stale
  InUse-stale e l (is_held h) = ground arith
  InUse-stale e l (is_awaited h) = ground arith
  InUse-stale e l (is_occupied h) = ground arith
  InUse-stale e l (is_recent t h late) = ground arith

  get_first :
      (k j : ℕ) (l m : LockObj Q) (d : Dict (LockObj Q))
      → (k == j) ≡ true
      → get k ((j, m) ∷ d) ≡ some l
      → m ≡ l
  unfolding get
  get_first k j l m d same found = ground arith

  get_any_tail :
      (k j : ℕ) (l m : LockObj Q) (d d' : Dict (LockObj Q))
      → (k == j) ≡ true
      → get k ((j, m) ∷ d) ≡ some l
      → get k ((j, m) ∷ d') ≡ some l
  unfolding get
  get_any_tail k j l m d d' same found = ground arith

  get_later :
      (k j : ℕ) (m : LockObj Q) (d : Dict (LockObj Q))
      → (k == j) ≡ false
      → get k ((j, m) ∷ d) ≡ get k d
  unfolding get
  get_later k j m d other = ground arith

  clean_up-get :
      (e : Env) (k : ℕ) (l : LockObj Q) (d : Dict (LockObj Q))
      → get k d ≡ some l
      → is_stale e l ≡ false
      → get k (clean_up e d) ≡ some l
  unfolding clean_up
  clean_up-get e k l [] found fresh = found
  clean_up-get e k l ((j, m) ∷ d) found fresh = elim (Bool-cases (k == j)) [
    | inl same ↦
        let here : is_stale e m ≡ false =
          ap (is_stale e) (get_first k j l m d same found) ∙ fresh in
        rw (here, clean_up) (get_any_tail k j l m d (clean_up e d) same found)
    | inr other ↦
        let rest = clean_up-get e k l d (sym (get_later k j m d other) ∙ found) fresh in
        elim (Bool-cases (is_stale e m)) [
          | inl stale ↦ rw (stale, clean_up) rest
          | inr kept ↦ rw (kept, clean_up) (get_later k j m (clean_up e d) other ∙ rest)
        ]
  ]

  -- The clean-up keeps every lock object, as it is, that is held, that is awaited, that is not known to
  -- be empty, or that was found empty less than two seconds ago.
  pub clean_up_locks-keeps :
      (e : Env) (k : ℕ) (l : LockObj Q) (b : Broker Q)
      → get k b.locks ≡ some l
      → InUse e l
      → get k (clean_up_locks e b).locks ≡ some l
  unfolding clean_up_locks
  clean_up_locks-keeps e k l b found used = clean_up-get e k l b.locks found (InUse-stale e l used)
