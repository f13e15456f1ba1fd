-- ===== src/LinkedQueue.antt =====
-- What the broker relies on of the npm package `@oresoftware/linked-queue` (`LinkedQueue<NotifyObj,
-- string>`, the field `notify` of `LockObj` in src/broker-1.ts): its operations, and their documented
-- behaviour in terms of `entries`, the queued pairs with the front first.
use live_mutex.Prelude.{ℕ, ◌≡◌, Bool, Option, none, some, List, [], ◌∷◌, ◌++◌, length}
use live_mutex.Dict.{get, erase}

-- `ttl`: `Infinity`, or a number of milliseconds (0 also stands for a missing one).
pub data Ttl : Type 0 where
  infinite : Ttl
  millis : ℕ → Ttl

-- `NotifyObj.acquireMany`
pub record AcquireMany : Type 0 where
  pub all_keys : List ℕ
  pub composite_lock_uuid : ℕ

-- `NotifyObj`: a queued request, with the socket that made it.
pub record Notify : Type 0 where
  pub ws : ℕ
  pub uuid : ℕ
  pub pid : ℕ
  pub ttl : Ttl
  pub keep_locks_after_death : Bool
  pub acquire_many : Option AcquireMany

pub record LinkedQueue (Q : Type 0) : Type 0 where
  pub empty : Q
  pub enqueue : ℕ → Notify → Q → Q
  pub add_to_front : ℕ → Notify → Q → Q
  -- `none` is `[IsVoid]`.
  pub dequeue : Q → Option (Notify × Q)
  pub remove : ℕ → Q → Q
  pub find : ℕ → Q → Option Notify
  pub count : Q → ℕ
  -- `deq(n)`: up to `n` waiters, with the ones that are left.
  pub deq : ℕ → Q → List Notify × Q
  pub entries : Q → List (ℕ × Notify)
  pub entries_empty : entries empty ≡ []
  pub count_entries : (q : Q) → count q ≡ length (entries q)
  pub find_entries : (u : ℕ) (q : Q) → find u q ≡ get u (entries q)
  pub dequeue_nil : (q : Q) → entries q ≡ [] → dequeue q ≡ none
  pub dequeue_cons :
      (q : Q) (u : ℕ) (n : Notify) (rest : List (ℕ × Notify))
      → entries q ≡ (u, n) ∷ rest
      → (q' : Q) × (dequeue q ≡ some (n, q')) × (entries q' ≡ rest)
  pub entries_enqueue :
      (u : ℕ) (n : Notify) (q : Q)
      → find u q ≡ none
      → entries (enqueue u n q) ≡ entries q ++ (u, n) ∷ []
  pub entries_add_to_front :
      (u : ℕ) (n : Notify) (q : Q)
      → find u q ≡ none
      → entries (add_to_front u n q) ≡ (u, n) ∷ entries q
  pub entries_remove : (u : ℕ) (q : Q) → entries (remove u q) ≡ erase u (entries q)
