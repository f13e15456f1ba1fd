-- ===== src/Broker/Sweep.antt =====
-- src/broker-1.ts: `tickTtl`, the sweep over the deadlines of the holders.
use live_mutex.Prelude.{
  ℕ, ◌+◌, Option, none, some, List, [], ◌∷◌, leb, if◌then◌else◌, length, add, ◌>>=◌,
}
use live_mutex.Dict.{Dict, get, set, erase, has}
use live_mutex.LinkedQueue.{LinkedQueue}
use live_mutex.Broker.Types.{Env, LockObj, Deadline, Broker}
use live_mutex.Broker.Drain.{ensure_new_lock_holder}

-- The snapshot of the rows that are due: pairs of a holder's uuid and its key.
unfoldable pub expired : ℕ → Dict Deadline → List (ℕ × ℕ)
expired now [] = []
expired now ((u, row) ∷ d) =
    if leb row.expires_at now then (u, row.key) ∷ expired now d else expired now d

module _ {Q : Type 0} where
  -- The eviction of a holder that is still there.
  unfoldable pub evict_holder : ℕ → ℕ → LockObj Q → Broker Q → Broker Q
  evict_holder k u lck b = record b {
    ttl_evictions_total = b.ttl_evictions_total + 1;
    locks =
        set k
          (record lck {
            lockholders = erase u lck.lockholders;
            lockholder_timeouts = add u lck.lockholder_timeouts;
          })
          b.locks;
  }

module _ {Q : Type 0} ⦃lq : LinkedQueue Q⦄ where
  unfoldable pub evict : Env → ℕ → ℕ × ℕ → Broker Q → Option (Broker Q)
  unfolding evict_holder
  evict e fuel (u, k) b =
      let b' : Broker Q = record b { holder_deadlines = erase u b.holder_deadlines } in
      elim (get k b.locks) [
        | none ↦ some b'
        | some lck ↦
            if has u lck.lockholders
            then ensure_new_lock_holder e fuel k (some u) (evict_holder k u lck b')
            else some b'
      ]

  unfoldable pub evict_all : Env → ℕ → List (ℕ × ℕ) → Broker Q → Option (Broker Q)
  unfolding evict
  evict_all e fuel [] b = some b
  evict_all e fuel (x ∷ xs) b = evict e fuel x b >>= λ b'. evict_all e fuel xs b'

  unfoldable pub tick_ttl : Env → ℕ → Broker Q → Option (Broker Q × ℕ)
  unfolding expired evict_all
  tick_ttl e fuel b =
      let due = expired e.now b.holder_deadlines in
      evict_all e fuel due b >>= λ b'. some (b', length due)
