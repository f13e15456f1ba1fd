-- ===== src/Client/Timeouts.antt =====
-- The timer of a lock request (`lockInternal` of src/client.ts).
use live_mutex.Prelude.{
  ℕ, ◌+◌, ◌≡◌, sym, ap, ◌∙◌, inl, inr, none, some, ◌∷◌, leb, add, Option-cases,
}
use live_mutex.Dict.{get, erase}
use live_mutex.Client.{
  Pending, locking, unlocking, unlock_failed, bad_or_mismatched_id, expire, fire_unlock_error,
  Frame, lock_client_timeout, lock_client_error, Request, Client, write, connection_closed,
  request_timeout, time_out, timer_fires,
}
use live_mutex.Client.Tables.{
  Keeps, if-Keeps, IsSound, fire_error-new, lock_internal-new, without, without-absent, renew-Keeps,
  from-Keeps, same-Keeps, finish_marked-Keeps,
}

pub time_out-Keeps :
    (v : ℕ) (r : Request) (c : Client)
    → IsSound c
    → get v c.resolutions ≡ some (locking r)
    → Keeps none c (time_out v r c)
unfolding time_out
time_out-Keeps v r c h found =
    let absent = without-absent v (locking r) c h found in
    let synced = ap (erase v) h.in_step in
    let ts = add v c.timeouts in
    let telling : Frame → Client = λ f. write f (record (without v c) { timeouts = ts }) in
    renew-Keeps v (locking r) c _ found (
      if-Keeps (some v) (without v c) c.is_open _ _
        (λ open_.
          if-Keeps (some v) (without v c) (leb r.max_retries (r.retry_count + 1)) _ _
            (λ last. from-Keeps (some v) (without v c) _ ts (lock_client_timeout v r.key ∷ c.sent) (
              fire_error-new v request_timeout (telling (lock_client_timeout v r.key)) synced h.told
                absent))
            (λ more.
              lock_internal-new v (record r { retry_count = r.retry_count + 1 }) (without v c)
                synced h.told absent))
        (λ shut. from-Keeps (some v) (without v c) _ ts (lock_client_error v r.key ∷ c.sent) (
          fire_error-new v connection_closed (telling (lock_client_error v r.key)) synced h.told
            absent)))

expire-Keeps :
    (v : ℕ) (p : Pending) (c : Client)
    → IsSound c
    → get v c.resolutions ≡ some p
    → Keeps none c (expire v p c)
unfolding expire fire_unlock_error
expire-Keeps v (locking r) c h found = time_out-Keeps v r c h found
expire-Keeps v (unlocking k) c h found =
    finish_marked-Keeps v (unlocking k) (unlock_failed bad_or_mismatched_id) c (add v c.timeouts) h
      found

pub timer_fires-Keeps : (v : ℕ) (c : Client) → IsSound c → Keeps none c (timer_fires v c)
unfolding timer_fires
timer_fires-Keeps v c h = elim (Option-cases (get v c.timers)) [
  | inl absent ↦ rw (absent, timer_fires) (same-Keeps c h)
  | inr (p, found) ↦
      rw (found, timer_fires) (expire-Keeps v p c h (ap (get v) (sym h.in_step) ∙ found))
]
