-- ===== src/Broker/Types.antt =====
-- The state of `Broker1` and its messages: src/broker-1.ts, the interfaces at the top and the fields.
use live_mutex.Prelude.{ℕ, Bool, Option, List}
use live_mutex.Dict.{Dict}

-- What a handler reads of its surroundings: `Date.now()`, `ws.writable`, the uuids that `uuidV4()`
-- gives in turn, and the constants of the process.
pub record Env : Type 0 where
  pub now : ℕ
  pub writable : ℕ → Bool
  pub uuid_v4 : ℕ → ℕ
  pub lock_expires_after : ℕ
  pub we_are_debugging : Bool

-- A value of `LockholdersType`; `none` is an `expiresAt` of `Infinity`.
pub record Holder : Type 0 where
  pub pid : ℕ
  pub ws : ℕ
  pub uuid : ℕ
  pub fencing_token : ℕ
  pub composite_lock_uuid : Option ℕ
  pub expires_at : Option ℕ

-- `LockObj`
pub record LockObj (Q : Type 0) : Type 0 where
  pub readers : ℕ
  pub max : ℕ
  pub max_read : Option ℕ
  pub max_write : Option ℕ
  pub next_fencing_token : ℕ
  pub lockholder_timeouts : List ℕ
  pub lockholders_all_released : List ℕ
  pub lockholders : Dict Holder
  pub notify : Q
  pub key : ℕ
  pub keep_locks_after_death : Bool
  pub writer_flag : Bool
  pub timestamp_emptied : Option ℕ
  pub is_via_shell : Bool

-- A row of `holderDeadlines`, keyed by the holder's uuid.
pub record Deadline : Type 0 where
  pub key : ℕ
  pub expires_at : ℕ

-- A row of `compositeLocks`.
pub record Composite : Type 0 where
  pub keys : List ℕ
  pub holder_uuids : Dict ℕ
  pub fencing_tokens : Dict ℕ

-- What a pending timer in `timeouts` was armed for: the granted waiter.
pub record Election : Type 0 where
  pub ws : ℕ
  pub uuid : ℕ

-- The frames that the handlers send, with the fields that tell their outcomes apart.
pub data Reply : Type 0 where
  lock_granted : (key uuid readers requests fencing_token : ℕ) → Reply
  lock_queued : (key uuid readers requests : ℕ) → Reply
  lock_reelection : (key uuid requests : ℕ) → Reply
  lock_invalid : (key uuid : ℕ) → Reply
  unlocked : (key uuid requests : ℕ) → Reply
  unlock_no_such_lock : (key uuid : ℕ) → Reply
  unlock_wrong_uuid : (key uuid requests : ℕ) → Reply
  force_unlock_mismatch : (key uuid requests : ℕ) → Reply
  many_granted : (uuid : ℕ) → List ℕ → (lock_uuid : ℕ) → Dict ℕ → Reply
  many_queued : (uuid : ℕ) → List ℕ → (contended_key requests : ℕ) → Reply
  many_invalid : (uuid : ℕ) → Reply
  many_released : (uuid lock_uuid : ℕ) → List ℕ → Reply
  many_unknown : (uuid : ℕ) → Reply

-- The fields of `Broker1` that the handlers change. `drawn` counts the calls of `uuidV4()`, and
-- `sent` holds the frames sent, each with its socket, the latest first.
pub record Broker (Q : Type 0) : Type 0 where
  pub locks : Dict (LockObj Q)
  pub holder_deadlines : Dict Deadline
  pub composite_locks : Dict Composite
  pub timeouts : Dict Election
  pub rejected : List ℕ
  pub ws_to_keys : Dict (List ℕ)
  pub ws_to_uuids : Dict (List ℕ)
  pub connected_clients : List ℕ
  pub lmx_closed : List ℕ
  pub lock_counts : ℕ
  pub ttl_evictions_total : ℕ
  pub drawn : ℕ
  pub sent : List (ℕ × Reply)
