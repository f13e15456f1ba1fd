-- ===== src/Broker/Composite.antt =====
-- src/broker-1.ts: `acquireMany` and `releaseMany`.
use mathlib.Core.Option
use live_mutex.Prelude.{
  ℕ, ◌+◌, Bool, Option, none, some, List, [], ◌∷◌, ltb, ◌==◌, if◌then◌else◌, length, add, ◌>>=◌,
}
use live_mutex.Dict.{get, set, erase, has}
use live_mutex.LinkedQueue.{LinkedQueue, Ttl, Notify, AcquireMany, infinite, millis}
use live_mutex.Broker.Types.{
  Env, Broker, Composite, many_queued, many_invalid, many_released, many_unknown,
}
use live_mutex.Broker.Grant.{send}
use live_mutex.Broker.Attempt.{start, grab_keys, rollback, enqueue_waiter, register_composite}
use live_mutex.Broker.Drain.{ensure_new_lock_holder}

-- An entry of `keys`: a string (0 is the empty one), or another value.
pub data RawKey : Type 0 where
  text : ℕ → RawKey
  not_text : RawKey

-- The request of `acquireMany`; `keys` is `none` if it is no array, `wait` is false for
-- `wait === false` only.
pub record ManyRequest : Type 0 where
  pub uuid : ℕ
  pub keys : Option (List RawKey)
  pub ttl : Ttl
  pub pid : ℕ
  pub wait : Bool
  pub keep_locks_after_death : Bool

-- The strings of a list of keys, if every entry is a string that is not empty.
unfoldable pub key_strings : List RawKey → Option (List ℕ)
key_strings [] = some []
key_strings (not_text ∷ ks) = none
key_strings (text k ∷ ks) = elim (key_strings ks) [
  | none ↦ none
  | some l ↦ if k == 0 then none else some (k ∷ l)
]

-- `new Set(keys)`, and its elements in order: the insertion keeps one of equal keys.
unfoldable pub insert_key : ℕ → List ℕ → List ℕ
insert_key k [] = k ∷ []
insert_key k (j ∷ js) =
    if k == j then j ∷ js else if ltb k j then k ∷ j ∷ js else j ∷ insert_key k js

unfoldable pub sorted_keys : List ℕ → List ℕ
unfolding insert_key
sorted_keys [] = []
sorted_keys (k ∷ ks) = insert_key k (sorted_keys ks)

-- The checks of the request: an array of 1 to 64 strings, none of them empty.
unfoldable pub validate_keys : Option (List RawKey) → Option (List ℕ)
unfolding key_strings sorted_keys
validate_keys none = none
validate_keys (some ks) =
    if length ks == 0
    then none
    else if ltb 64 (length ks)
    then none
    else Option.map sorted_keys (key_strings ks)

-- `data.ttl === null ? Infinity : (… data.ttl > 0 ? data.ttl : this.lockExpiresAfter)`
unfoldable pub many_ttl : Env → Ttl → Ttl
many_ttl e infinite = infinite
many_ttl e (millis t) = millis (if t == 0 then e.lock_expires_after else t)

unfoldable pub many_waiter : Env → ManyRequest → ℕ → AcquireMany → Notify
unfolding many_ttl
many_waiter e r ws m = record {
  ws = ws;
  uuid = r.uuid;
  pid = r.pid;
  ttl = many_ttl e r.ttl;
  keep_locks_after_death = r.keep_locks_after_death;
  acquire_many = some m;
}

module _ {Q : Type 0} ⦃lq : LinkedQueue Q⦄ where
  -- The reply to a request that found `k` taken: it fails at once, or waits in the queue of `k`.
  unfoldable pub refuse_many : Env → Notify → List ℕ → Bool → ℕ → Broker Q → Broker Q
  refuse_many e n keys wait k b =
      let b' = if wait then enqueue_waiter e n k b else b in
      let ln : ℕ = elim (get k b'.locks) [ none ↦ 0 | some lck ↦ lq.count lck.notify ] in
      send e n.ws (many_queued n.uuid keys k ln) b'

  unfoldable pub acquire_keys : Env → ManyRequest → ℕ → List ℕ → Broker Q → Broker Q
  unfolding refuse_many many_waiter register_composite
  acquire_keys e r ws keys b =
      let m : AcquireMany = record { all_keys = keys; composite_lock_uuid = e.uuid_v4 b.drawn } in
      let n = many_waiter e r ws m in
      let a = grab_keys e n m.composite_lock_uuid keys (start (record b { drawn = b.drawn + 1 })) in
      elim a.contended_key [
        | none ↦ register_composite e n m a
        | some k ↦ refuse_many e n keys r.wait k (rollback a.holder_uuids a.granted_keys a.broker)
      ]

  unfoldable pub acquire_many : Env → ManyRequest → ℕ → Broker Q → Broker Q
  unfolding validate_keys acquire_keys
  acquire_many e r ws b = elim (validate_keys r.keys) [
    | none ↦ send e ws (many_invalid r.uuid) b
    | some keys ↦ acquire_keys e r ws keys b
  ]

  -- One key of `releaseMany`.
  unfoldable pub release_key : Env → ℕ → Composite → ℕ → Broker Q → Option (Broker Q)
  release_key e fuel c k b = elim (get k c.holder_uuids) [
    | none ↦ some b
    | some h ↦ elim (get k b.locks) [
      | none ↦ some b
      | some lck ↦
          let released =
            if has h lck.lockholders
            then add h lck.lockholders_all_released
            else lck.lockholders_all_released in
          ensure_new_lock_holder e fuel k (some h) (record b {
            holder_deadlines = erase h b.holder_deadlines;
            locks =
                set k
                  (record lck {
                    lockholders = erase h lck.lockholders;
                    lockholders_all_released = released;
                  })
                  b.locks;
          })
    ]
  ]

  unfoldable pub release_keys : Env → ℕ → Composite → List ℕ → Broker Q → Option (Broker Q)
  unfolding release_key
  release_keys e fuel c [] b = some b
  release_keys e fuel c (k ∷ ks) b = release_key e fuel c k b >>= λ b'. release_keys e fuel c ks b'

  -- `uuid` and `lockUuid` are the fields of the request.
  unfoldable pub release_many : Env → ℕ → ℕ → Option ℕ → ℕ → Broker Q → Option (Broker Q)
  unfolding release_keys
  release_many e fuel uuid none ws b = some (send e ws (many_unknown uuid) b)
  release_many e fuel uuid (some lock_uuid) ws b = elim (get lock_uuid b.composite_locks) [
    | none ↦ some (send e ws (many_unknown uuid) b)
    | some c ↦ release_keys e fuel c c.keys b >>= λ b'. some (
        send e ws (many_released uuid lock_uuid c.keys)
          (record b' { composite_locks = erase lock_uuid b'.composite_locks }))
  ]
