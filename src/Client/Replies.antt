-- ===== src/Client/Replies.antt =====
-- The frames of the broker that answer a request (`onData` of src/client.ts).
use live_mutex.Prelude.{
  ℕ, ◌≡◌, ap, Bool, true, false, inl, inr, ◌&&◌, Option, none, some, arith, ◌==◌, add, contains,
  discard, Option-cases,
}
use live_mutex.Dict.{get, erase, times, times-erase, erase-new}
use live_mutex.Client.{
  Outcome, Pending, locking, unlocking, unlocked, unlock_failed, internal_unlock_error,
  general_unlock_error, fire_unlock_error, resolve_unlock, call_resolution, failed, Request, Data,
  Client, write, clean_up_request, call_back, fire_error, lock_internal, internal_error,
  unknown_exception, wait_option_set_to_false, acquired_with, lock_received, is_true, not_acquired,
  resolve, reject_grant, on_uuid,
}
use live_mutex.Client.Tables.{
  Keeps, if-Keeps, IsSound, lock_internal-new, finish-Keeps, without-absent, renew-Keeps,
  from-Keeps, contains-add, contains-discard, same-Keeps, finish_marked-Keeps,
}

give_up-Keeps :
    (v : ℕ) (r : Request) (c : Client)
    → IsSound c
    → get v c.resolutions ≡ some (locking r)
    → Keeps none c (fire_error v wait_option_set_to_false (record c { giveups = add v c.giveups }))
unfolding fire_error clean_up_request
give_up-Keeps v r c h found = record {
  counted = λ u. ground (arith, times-erase u v (locking r) c.resolutions found);
  synced = ap (erase v) h.in_step;
  given = λ u k. ground (arith, h.told u, contains-add u v c.giveups k);
}

not_acquired-Keeps :
    (v : ℕ) (r : Request) (a : Option Bool) (c : Client)
    → IsSound c
    → get v c.resolutions ≡ some (locking r)
    → Keeps none c (not_acquired v r a c)
unfolding not_acquired fire_error
not_acquired-Keeps v r none c h found = finish-Keeps v (locking r) (failed internal_error) c h found
not_acquired-Keeps v r (some true) c h found =
    finish-Keeps v (locking r) (failed internal_error) c h found
not_acquired-Keeps v r (some false) c h found =
    if-Keeps none c r.wait _ _ (λ on. same-Keeps c h) (λ off. give_up-Keeps v r c h found)

granted-Keeps :
    (v : ℕ) (r : Request) (d : Data) (c : Client)
    → IsSound c
    → get v c.resolutions ≡ some (locking r)
    → Keeps none c (
        call_back v
          (acquired_with d.fencing_token)
          (write (lock_received v r.key) (clean_up_request v c)))
unfolding clean_up_request
granted-Keeps v r d c h found =
    let k = finish-Keeps v (locking r) (acquired_with d.fencing_token) c h found in
    record { counted = k.counted; synced = k.synced; given = k.given }

reelected-Keeps :
    (v : ℕ) (r : Request) (c : Client)
    → IsSound c
    → get v c.resolutions ≡ some (locking r)
    → Keeps none c (lock_internal v r (clean_up_request v c))
unfolding clean_up_request
reelected-Keeps v r c h found =
    let k =
      lock_internal-new v r (clean_up_request v c) (ap (erase v) h.in_step) h.told
        (without-absent v (locking r) c h found) in
    renew-Keeps v (locking r) c _ found
      (record { counted = k.counted; synced = k.synced; given = k.given })

resolve-Keeps :
    (v : ℕ) (r : Request) (err : Bool) (d : Data) (c : Client)
    → IsSound c
    → get v c.resolutions ≡ some (locking r)
    → Keeps none c (resolve v r err d c)
unfolding resolve fire_error
resolve-Keeps v r err d c h found =
    if-Keeps none c err _ _ (λ on. finish-Keeps v (locking r) (failed unknown_exception) c h found)
      (λ off.
        if-Keeps none c (r.key == d.key) _ _
          (λ same.
            if-Keeps none c (is_true d.acquired) _ _ (λ yes_. granted-Keeps v r d c h found)
              (λ no_.
                if-Keeps none c d.reelection _ _ (λ again_. reelected-Keeps v r c h found)
                  (λ waits. not_acquired-Keeps v r d.acquired c h found)))
          (λ other. finish-Keeps v (locking r) (failed internal_error) c h found))

resolve_unlock-Keeps :
    (v k : ℕ) (err : Bool) (d : Data) (c : Client)
    → IsSound c
    → get v c.resolutions ≡ some (unlocking k)
    → Keeps none c (resolve_unlock v k err d c)
unfolding resolve_unlock fire_unlock_error
resolve_unlock-Keeps v k err d c h found =
    let ends =
      λ (o : Outcome). finish_marked-Keeps v (unlocking k) o c (discard v c.timeouts) h found in
    if-Keeps none c err _ _ (λ on. ends (unlock_failed internal_unlock_error))
      (λ off.
        if-Keeps none c (k == d.key) _ _
          (λ same.
            if-Keeps none c (is_true d.unlocked) _ _ (λ yes_. ends unlocked)
              (λ no_. ends (unlock_failed general_unlock_error)))
          (λ other. ends (unlock_failed internal_unlock_error)))

call_resolution-Keeps :
    (v : ℕ) (p : Pending) (d : Data) (c : Client)
    → IsSound c
    → get v c.resolutions ≡ some p
    → Keeps none c (call_resolution v p d c)
unfolding call_resolution
call_resolution-Keeps v (locking r) d c h found = resolve-Keeps v r d.error d c h found
call_resolution-Keeps v (unlocking k) d c h found = resolve_unlock-Keeps v k d.error d c h found

-- Frames.
reject_grant-Keeps :
    (v : ℕ) (d : Data) (c₀ c : Client) → Keeps none c₀ c → Keeps none c₀ (reject_grant v d c)
reject_grant-Keeps v d c₀ c k =
    if-Keeps none c₀ (is_true d.acquired && d.is_lock_type) _ _
      (λ on. record { counted = k.counted; synced = k.synced; given = k.given }) (λ off. k)

pub on_uuid-Keeps : (v : ℕ) (d : Data) (c : Client) → IsSound c → Keeps none c (on_uuid v d c)
unfolding on_uuid
on_uuid-Keeps v d c h =
    let cleared : Client = record c { timeouts = discard v c.timeouts } in
    let sound : IsSound cleared = record { once = h.once; in_step = h.in_step; told = h.told } in
    let unchanged : Keeps none c cleared =
      from-Keeps none c cleared cleared.timeouts c.sent (same-Keeps cleared sound) in
    if-Keeps none c (contains v c.giveups) _ _
      (λ gone. record {
        counted = λ u. omega (
          arith,
          ap (times {A = Pending} u)
              (erase-new v c.resolutions (omega (arith, h.told v gone, h.once v))),
        );
        synced = ap (erase v) h.in_step;
        given = λ u k. h.told u (contains-discard u v c.giveups k);
      })
      (λ waiting.
        if-Keeps none c (contains v c.timeouts) _ _
          (λ late. reject_grant-Keeps v d c cleared unchanged)
          (λ early. elim (Option-cases (get v c.resolutions)) [
            | inl absent ↦ rw absent (reject_grant-Keeps v d c cleared unchanged)
            | inr (p, found) ↦ rw found (
                from-Keeps none c _ cleared.timeouts c.sent
                  (call_resolution-Keeps v p d cleared sound found))
          ]))
