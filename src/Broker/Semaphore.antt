-- ===== src/Broker/Semaphore.antt =====
-- Mutual exclusion: how many holders a key can have when its clients agree on the limit.
use live_mutex.Prelude.{
  ℕ, ◌+◌, ◌≤◌, ◌<◌, ◌≡◌, refl, false, Option, none, List, [], ◌∷◌, arith, All, Every,
}
use live_mutex.Dict.{set, size, size-set-le, size-erase-le}
use live_mutex.LinkedQueue.{LinkedQueue}
use live_mutex.Broker.Types.{Env, Holder, LockObj}
use live_mutex.Broker.Grant.{or_one}
use live_mutex.Broker.Drain.{capacity_of}
use live_mutex.Broker.Lock.{
  LockRequest, Limit, integer, or_value, read_limit, write_limit, is_begin_read, is_begin_write,
  update_limits, effective_count, effective_max, new_lock_object,
}
use live_mutex.Broker.Events.{Event, run, new_broker}
use live_mutex.Broker.Closure.{Core, core, Holds, IsClosed}
use live_mutex.Broker.Closure.Locking.{IsLockClosed}
use live_mutex.Broker.Closure.Runs.{Allows, run-Holds, new_broker-Holds}

-- The lock object of `k` has no RW limits, and at most `limit k` holders.
pub record IsBounded (limit : ℕ → ℕ) (k : ℕ) (c : Core) : Type 0 where
  pub no_read : c.max_read ≡ none
  pub no_write : c.max_write ≡ none
  pub limited : c.max ≤ limit k
  pub held : size c.lockholders ≤ limit k

-- A plain lock request whose `max` is at most the limit of its key.
pub record Respects (limit : ℕ → ℕ) (r : LockRequest) : Type 0 where
  pub reads : is_begin_read r.rw_status ≡ false
  pub writes : is_begin_write r.rw_status ≡ false
  pub asks : or_one (integer r.max) ≤ limit r.key

capacity_of-plain :
    (m n : ℕ) (r w : Option ℕ) → r ≡ none → w ≡ none → m ≤ n → 1 ≤ n → capacity_of m r w ≤ n
unfolding capacity_of
capacity_of-plain m n r w hr hw h one = rw (hr, hw) (ground arith)

module _ (limit : ℕ → ℕ) (positive : (k : ℕ) → 1 ≤ limit k) where
  pub IsBounded-closed : IsClosed (IsBounded limit)
  IsBounded-closed = record {
    fresh = λ k now. record {
      no_read = refl;
      no_write = refl;
      limited = positive k;
      held = omega (arith, positive k);
    };
    remove = λ k u c p. record {
      no_read = p.no_read;
      no_write = p.no_write;
      limited = p.limited;
      held = omega (arith, p.held, size-erase-le u c.lockholders);
    };
    clear = λ k c p. record {
      no_read = p.no_read;
      no_write = p.no_write;
      limited = p.limited;
      held = omega arith;
    };
    admit = λ k u h c p room token. record {
      no_read = p.no_read;
      no_write = p.no_write;
      limited = p.limited;
      held = omega (
        arith,
        room,
        size-set-le u h c.lockholders,
        capacity_of-plain c.max (limit k) c.max_read c.max_write p.no_read p.no_write p.limited
            (positive k),
      );
    };
  }

read_limit-plain :
    (r : LockRequest) (old : Option ℕ) → is_begin_read r.rw_status ≡ false → read_limit r old ≡ old
read_limit-plain r old plain = ground arith

write_limit-plain :
    (r : LockRequest) (old : Option ℕ)
    → is_begin_write r.rw_status ≡ false
    → write_limit r old ≡ old
write_limit-plain r old plain = ground arith

or_value-le : (x : Limit) (m n : ℕ) → or_one (integer x) ≤ n → m ≤ n → or_value (integer x) m ≤ n
or_value-le x m n asks h = ground arith

module _ {Q : Type 0} where
  effective_max-plain :
      (r : LockRequest) (l : LockObj Q)
      → is_begin_read r.rw_status ≡ false
      → is_begin_write r.rw_status ≡ false
      → effective_max r l ≡ or_value (integer r.max) l.max
  unfolding effective_max
  effective_max-plain r l reads writes = ground arith

  effective_count-plain :
      (r : LockRequest) (l : LockObj Q)
      → is_begin_read r.rw_status ≡ false
      → effective_count r l ≡ size l.lockholders
  unfolding effective_count
  effective_count-plain r l reads = ground arith

new-IsBounded :
    (Q : Type 0) ⦃lq : LinkedQueue Q⦄ (limit : ℕ → ℕ) (e : Env) (r : LockRequest) (h : Holder)
    → Respects limit r
    → 1 ≤ limit r.key
    → IsBounded limit r.key (record (core (new_lock_object {Q = Q} e r)) {
      next_fencing_token = e.now + 1;
      lockholders = (r.uuid, h) ∷ [];
    })
unfolding new_lock_object
new-IsBounded Q limit e r h ok positive = record {
  no_read = rw ok.reads refl;
  no_write = rw ok.writes refl;
  limited = ok.asks;
  held = positive;
}

module _ {Q : Type 0} ⦃lq : LinkedQueue Q⦄ (limit : ℕ → ℕ) where
  update_limits-IsBounded :
      (r : LockRequest) (l : LockObj Q)
      → Respects limit r
      → IsBounded limit r.key (core l)
      → IsBounded limit r.key (core (update_limits r l))
  unfolding update_limits
  update_limits-IsBounded r l ok p = record {
    no_read = rw (read_limit-plain r l.max_read ok.reads) p.no_read;
    no_write = rw (write_limit-plain r l.max_write ok.writes) p.no_write;
    limited = or_value-le r.max l.max (limit r.key) ok.asks p.limited;
    held = p.held;
  }

  grant-IsBounded :
      (r : LockRequest) (l : LockObj Q) (h : Holder)
      → Respects limit r
      → IsBounded limit r.key (core l)
      → effective_count r (update_limits r l) < effective_max r (update_limits r l)
      → IsBounded limit r.key (record (core (update_limits r l)) {
        next_fencing_token = l.next_fencing_token + 1;
        lockholders = set r.uuid h l.lockholders;
      })
  unfolding update_limits
  grant-IsBounded r l h ok p room =
      let l' = update_limits r l in
      let p' = update_limits-IsBounded r l ok p in
      record {
        no_read = p'.no_read;
        no_write = p'.no_write;
        limited = p'.limited;
        held = omega (
          arith,
          room,
          effective_max-plain r l' ok.reads ok.writes,
          effective_count-plain r l' ok.reads,
          or_value-le r.max l'.max (limit r.key) ok.asks p'.limited,
          size-set-le r.uuid h l.lockholders,
        );
      }

  pub IsBounded-lock_closed :
      ((k : ℕ) → 1 ≤ limit k) → IsLockClosed Q (IsBounded limit) (Respects limit)
  IsBounded-lock_closed positive = record {
    new = λ e r h ok token. new-IsBounded Q limit e r h ok (positive r.key);
    update = update_limits-IsBounded;
    grant = λ r l h ok p room token. grant-IsBounded r l h ok p room;
  }

-- Let every lock request be a plain one (not a read or write request) whose `max`, 1 if it is
-- missing, is at most `limit` of its key, where `limit` is positive. Then whatever events the broker
-- handles from its start (the constructors of `Event`, `acquire-many` among them), in whatever order
-- and at whatever times: if the fuel is enough for the run to end, no key has more holders than its limit.
pub run-IsBounded :
    (Q : Type 0) ⦃lq : LinkedQueue Q⦄ (limit : ℕ → ℕ) (fuel : ℕ) (xs : List (Env × Event))
    → ((k : ℕ) → 1 ≤ limit k)
    → All (Allows (Respects limit)) xs
    → Every (Holds (IsBounded limit)) (run fuel xs (new_broker {Q = Q}))
run-IsBounded Q limit fuel xs positive ok =
    run-Holds (IsBounded-closed limit positive) (IsBounded-lock_closed limit positive) fuel xs
      new_broker ok (new_broker-Holds Q _)
