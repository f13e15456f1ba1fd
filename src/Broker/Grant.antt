-- ===== src/Broker/Grant.antt =====
-- src/broker-1.ts: `getDefaultLockObject`, `send`, `scheduleDeadline` and `grantLock`.
-- A handler's reference to a `LockObj` is the entry of `locks` under its key: `put_lock` writes back.
use live_mutex.Prelude.{
  ℕ, ◌+◌, Bool, false, Option, none, some, List, [], ◌∷◌, ◌==◌, if◌then◌else◌, add,
}
use live_mutex.Dict.{Dict, get, set}
use live_mutex.LinkedQueue.{LinkedQueue, Ttl, infinite, millis}
use live_mutex.Broker.Types.{Env, Holder, LockObj, Deadline, Reply, Broker}

module _ {Q : Type 0} where
  abbrev pub put_lock : ℕ → LockObj Q → Broker Q → Broker Q
  put_lock k lck b = record b { locks = set k lck b.locks }

  -- A frame for a socket that is not writable is dropped, with a warning.
  unfoldable pub send : Env → ℕ → Reply → Broker Q → Broker Q
  send e ws reply b = if e.writable ws then record b { sent = (ws, reply) ∷ b.sent } else b

-- `if (!this.wsToKeys.get(ws)) this.wsToKeys.set(ws, {}); this.wsToKeys.get(ws)[key] = true`
abbrev pub mark_key : ℕ → ℕ → Dict (List ℕ) → Dict (List ℕ)
mark_key ws k d = elim (get ws d) [ none ↦ set ws (k ∷ []) d | some ks ↦ set ws (add k ks) d ]

-- `max || 1`
abbrev pub or_one : Option ℕ → ℕ
or_one none = 1
or_one (some n) = if n == 0 then 1 else n

module _ {Q : Type 0} ⦃lq : LinkedQueue Q⦄ where
  unfoldable pub default_lock_object : Env → ℕ → Bool → Option ℕ → Option ℕ → Option ℕ → LockObj Q
  default_lock_object e k keep max_holders max_read max_write = record {
    readers = 0;
    max = or_one max_holders;
    max_read = max_read;
    max_write = max_write;
    next_fencing_token = e.now;
    lockholder_timeouts = [];
    lockholders_all_released = [];
    lockholders = [];
    notify = lq.empty;
    key = k;
    keep_locks_after_death = keep;
    writer_flag = false;
    timestamp_emptied = none;
    is_via_shell = false;
  }

-- `ttl === Infinity ? Infinity : Date.now() + ttl`
abbrev pub expiry : Env → Ttl → Option ℕ
expiry e infinite = none
expiry e (millis t) = some (e.now + t)

-- `if (ttl !== Infinity) ttl = weAreDebugging ? debugging : (ttl || this.lockExpiresAfter)`
abbrev pub or_default_ttl : Env → ℕ → Ttl → Ttl
or_default_ttl e debugging infinite = infinite
or_default_ttl e debugging (millis t) =
    millis (if e.we_are_debugging then debugging else if t == 0 then e.lock_expires_after else t)

-- The row that a grant adds to `holderDeadlines`; `Infinity` adds none.
unfoldable pub schedule_deadline : ℕ → ℕ → Option ℕ → Dict Deadline → Dict Deadline
schedule_deadline k uuid none d = d
schedule_deadline k uuid (some t) d = set uuid (record { key = k; expires_at = t }) d

-- The value that a grant puts into `lockholders`.
abbrev pub new_holder : (ws uuid pid token : ℕ) → Option ℕ → Option ℕ → Holder
new_holder ws uuid pid token composite expires = record {
  pid = pid;
  ws = ws;
  uuid = uuid;
  fencing_token = token;
  composite_lock_uuid = composite;
  expires_at = expires;
}

module _ {Q : Type 0} where
  -- The lock object with a new holder under the next fencing token.
  abbrev pub add_holder : (ws uuid pid : ℕ) → Option ℕ → Option ℕ → LockObj Q → LockObj Q
  add_holder ws uuid pid composite expires lck = record lck {
    next_fencing_token = lck.next_fencing_token + 1;
    lockholders =
        set uuid (new_holder ws uuid pid (lck.next_fencing_token + 1) composite expires)
          lck.lockholders;
  }

  -- The token that the grant returns is the new `next_fencing_token` of the lock object.
  unfoldable pub grant_lock : Env → LockObj Q → (ws uuid pid : ℕ) → Ttl → ℕ → Broker Q → Broker Q
  unfolding schedule_deadline
  grant_lock e lck ws uuid pid ttl k b = record b {
    locks = set k (add_holder ws uuid pid none expires lck) b.locks;
    holder_deadlines = schedule_deadline k uuid expires b.holder_deadlines;
    ws_to_keys = mark_key ws k b.ws_to_keys;
  }
    where
      expires : Option ℕ
      expires = expiry e (or_default_ttl e 50000000 ttl)
