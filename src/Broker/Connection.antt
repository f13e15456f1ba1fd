-- ===== src/Broker/Connection.antt =====
-- src/broker-1.ts: `cleanupConnection`. Its loop visits the entries of `locks` by their position, those
-- that are added on the way too, as the iteration of a `Map` does.
use live_mutex.Prelude.{
  ℕ, zero, suc, true, false, not, ◌||◌, Option, none, some, List, [], ◌∷◌, ◌==◌, if◌then◌else◌,
  contains, add, discard, ◌>>=◌,
}
use live_mutex.Dict.{Dict, get, set, erase}
use live_mutex.LinkedQueue.{LinkedQueue}
use live_mutex.Broker.Types.{Env, Holder, LockObj, Broker}
use live_mutex.Broker.Unlock.{unlock}

abbrev pub erase_list {ℓ} : {V : Type ℓ} → List ℕ → Dict V → Dict V
erase_list [] d = d
erase_list (k ∷ ks) d = erase_list ks (erase k d)

abbrev pub members : ℕ → Dict (List ℕ) → List ℕ
members ws d = elim (get ws d) [ none ↦ [] | some xs ↦ xs ]

-- `myHolderUuids`
unfoldable pub holders_of : ℕ → Dict Holder → List ℕ
holders_of ws [] = []
holders_of ws ((u, h) ∷ hs) = if h.ws == ws then u ∷ holders_of ws hs else holders_of ws hs

abbrev pub entry_at {ℓ} : {V : Type ℓ} → ℕ → Dict V → Option (ℕ × V)
entry_at i [] = none
entry_at zero (x ∷ d) = some x
entry_at (suc i) (x ∷ d) = entry_at i d

module _ {Q : Type 0} where
  -- What goes at once: the socket's records, and the timers of its keys.
  unfoldable pub forget_socket : ℕ → Broker Q → Broker Q
  forget_socket ws b = record b {
    lmx_closed = add ws b.lmx_closed;
    connected_clients = discard ws b.connected_clients;
    timeouts = erase_list (members ws b.ws_to_keys) b.timeouts;
    ws_to_keys = erase ws b.ws_to_keys;
    ws_to_uuids = erase ws b.ws_to_uuids;
  }

module _ {Q : Type 0} ⦃lq : LinkedQueue Q⦄ where
  unfoldable pub remove_waiters : List ℕ → Q → Q
  remove_waiters [] q = q
  remove_waiters (u ∷ us) q = remove_waiters us (lq.remove u q)

  -- The forced unlock of each hold of the socket on `k`.
  unfoldable pub unlock_each : Env → ℕ → ℕ → ℕ → List ℕ → Broker Q → Option (Broker Q)
  unlock_each e fuel ws k [] b = some b
  unlock_each e fuel ws k (u ∷ us) b =
      unlock e fuel
        (record {
          key = k;
          uuid = none;
          holder = some u;
          force = true;
          keep_locks_after_death = false;
        })
        (some ws) b
      >>= λ b'. unlock_each e fuel ws k us b'

  -- The body of the loop: the queued requests and the holds of the socket on `k`.
  unfoldable pub clean_key : Env → ℕ → ℕ → List ℕ → ℕ → LockObj Q → Broker Q → Option (Broker Q)
  unfolding remove_waiters unlock_each holders_of
  clean_key e fuel ws uuids k lck b =
      let mine = holders_of ws lck.lockholders in
      let scrubbed : Broker Q = record b {
        locks = set k (record lck { notify = remove_waiters uuids lck.notify }) b.locks;
        holder_deadlines = erase_list mine b.holder_deadlines;
      } in
      if not lck.is_via_shell || not lck.keep_locks_after_death
      then unlock_each e fuel ws k mine scrubbed
      else some scrubbed

  unfoldable pub clean_keys : Env → ℕ → ℕ → List ℕ → ℕ → ℕ → Broker Q → Option (Broker Q)
  clean_keys e fuel ws uuids zero i b = none
  clean_keys e fuel ws uuids (suc rounds) i b = elim (entry_at i b.locks) [
    | none ↦ some b
    | some (k, lck) ↦
        clean_key e fuel ws uuids k lck b >>= λ b'. clean_keys e fuel ws uuids rounds (suc i) b'
  ]

  unfoldable pub cleanup_connection : Env → ℕ → ℕ → Broker Q → Option (Broker Q)
  unfolding clean_key clean_keys
  cleanup_connection e fuel ws b =
      if contains ws b.lmx_closed
      then some b
      else clean_keys e fuel ws (members ws b.ws_to_uuids) fuel 0 (forget_socket ws b)
