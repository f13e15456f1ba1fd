-- ===== src/Broker/Closure.antt =====
-- Invariants of single lock objects. A statement of what each key holds is kept by a handler once it
-- is kept by the updates that the handlers are made of.
pub mod Attempts
pub mod Handlers
pub mod Requests
pub mod Cleanup
pub mod Locking
pub mod Runs
use live_mutex.Prelude.{
  ℕ, ◌+◌, ◌≤◌, ◌<◌, ◌≡◌, sym, subst, Bool, inl, inr, Option, none, some, [], arith, Option-cases,
}
use live_mutex.Dict.{Dict, get, set, erase, size, AllEntries, AllEntries-get, AllEntries-set}
use live_mutex.LinkedQueue.{LinkedQueue}
use live_mutex.Broker.Types.{Env, Holder, LockObj, Reply, Broker}
use live_mutex.Broker.Grant.{send, default_lock_object, put_lock}
use live_mutex.Broker.Attempt.{lock_or_default}
use live_mutex.Broker.Drain.{capacity_of}

-- The fields of a lock object that such a statement is about.
pub record Core : Type 0 where
  pub max : ℕ
  pub max_read : Option ℕ
  pub max_write : Option ℕ
  pub next_fencing_token : ℕ
  pub lockholders : Dict Holder

abbrev pub core : {Q : Type 0} → LockObj Q → Core
core l = record {
  max = l.max;
  max_read = l.max_read;
  max_write = l.max_write;
  next_fencing_token = l.next_fencing_token;
  lockholders = l.lockholders;
}

-- `P` holds of every lock object.
pub record Holds {Q : Type 0} (P : ℕ → Core → Type 0) (b : Broker Q) : Type 0 where
  pub each : AllEntries (λ k l. P k (core l)) b.locks

-- The updates: a new lock object for one holder, a holder that goes, all that go, and a holder that
-- comes under the next token while there is room.
pub record IsClosed (P : ℕ → Core → Type 0) : Type 0 where
  pub fresh :
      (k now : ℕ)
      → P k (record {
        max = 1;
        max_read = none;
        max_write = none;
        next_fencing_token = now;
        lockholders = [];
      })
  pub remove : (k u : ℕ) (c : Core) → P k c → P k (record c { lockholders = erase u c.lockholders })
  pub clear : (k : ℕ) (c : Core) → P k c → P k (record c { lockholders = [] })
  pub admit :
      (k u : ℕ) (h : Holder) (c : Core)
      → P k c
      → size c.lockholders < capacity_of c.max c.max_read c.max_write
      → h.fencing_token ≡ c.next_fencing_token + 1
      → P k (record c {
        next_fencing_token = c.next_fencing_token + 1;
        lockholders = set u h c.lockholders;
      })

-- A single-key limit never exceeds the capacity.
pub max-le-capacity_of : (m : ℕ) (r w : Option ℕ) → m ≤ capacity_of m r w
unfolding capacity_of
max-le-capacity_of m none none = ground arith
max-le-capacity_of m none (some w) = ground arith
max-le-capacity_of m (some r) w = ground arith

module _ {Q : Type 0} {P : ℕ → Core → Type 0} where
  pub Holds-locks : (b b' : Broker Q) → b'.locks ≡ b.locks → Holds P b → Holds P b'
  Holds-locks b b' same h = record {
    each = subst (AllEntries (λ k l. P k (core l))) (sym same) h.each;
  }

  pub send-Holds :
      (e : Env) (ws : ℕ) (r : Reply) (b : Broker Q) → Holds P b → Holds P (send e ws r b)
  unfolding send
  send-Holds e ws r b h = Holds-locks b _ (ground arith) h

  pub Holds-get :
      (b : Broker Q) (k : ℕ) (l : LockObj Q) → Holds P b → get k b.locks ≡ some l → P k (core l)
  Holds-get b k l h e = AllEntries-get (λ k l. P k (core l)) k l b.locks h.each e

  pub Holds-put :
      (k : ℕ) (l : LockObj Q) (b b' : Broker Q)
      → b'.locks ≡ set k l b.locks
      → Holds P b
      → P k (core l)
      → Holds P b'
  Holds-put k l b b' e h p =
      Holds-locks (put_lock k l b) b' e
        (record { each = AllEntries-set (λ k l. P k (core l)) k l b.locks h.each p })

module _ {Q : Type 0} ⦃lq : LinkedQueue Q⦄ {P : ℕ → Core → Type 0} (closed : IsClosed P) where
  pub lock_or_default-Holds :
      (e : Env) (keep : Bool) (k : ℕ) (b : Broker Q)
      → Holds P b
      → P k (core (lock_or_default e keep k b))
  unfolding lock_or_default default_lock_object
  lock_or_default-Holds e keep k b h = elim (Option-cases (get k b.locks)) [
    | inl absent ↦ rw (absent, lock_or_default) (closed.fresh k e.now)
    | inr (l, found) ↦ rw (found, lock_or_default) (Holds-get b k l h found)
  ]
