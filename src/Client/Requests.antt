-- ===== src/Client/Requests.antt =====
-- What becomes of the requests of the client (src/client.ts): which wait with their timers running, and whose callbacks were
-- called.
use live_mutex.Prelude.{
  ℕ, ◌+◌, ◌≤◌, ◌≡◌, refl, true, inl, inr, Option, none, some, List, [], ◌∷◌, arith, Option-cases,
}
use live_mutex.Dict.{times, asked}
use live_mutex.Client.{version_mismatch_confirmed, Data, Client, new_client, write, on_data}
use live_mutex.Client.Events.{
  Happening, locks, unlocks, receives, fires, loses_connection, connects, ends_connection, closes,
  happen, happen_all,
}
use live_mutex.Client.Tables.{
  known, Keeps, if-Keeps, IsSound, IsGiven, lock_internal-new, unlock_internal-new, same-Keeps,
}
use live_mutex.Client.Timeouts.{timer_fires-Keeps}
use live_mutex.Client.Replies.{on_uuid-Keeps}
use live_mutex.Client.Failures.{failed-Keeps, fire-IsFailed}
use live_mutex.Client.Callbacks.{
  made, Adds, recover-Adds, end_current_connection-Adds, close-bounds, close-synced, close-IsGiven,
}

-- How often a happening, and how often a list of them, makes a request of a uuid.
abbrev pub requested_by : ℕ → Happening → ℕ
requested_by u (locks v r) = asked u (some v)
requested_by u (unlocks v k holder force) = asked u (some v)
requested_by u (loses_connection calls) = made u calls
requested_by u (ends_connection calls) = made u calls
requested_by u (closes calls) = made u calls
requested_by u _ = 0

abbrev pub requested : ℕ → List Happening → ℕ
requested u [] = 0
requested u (x ∷ xs) = requested_by u x + requested u xs

-- How often a callback that `close` calls makes a request of a uuid.
abbrev pub overlooked_by : ℕ → Happening → ℕ
overlooked_by u (closes calls) = made u calls
overlooked_by u _ = 0

abbrev pub overlooked : ℕ → List Happening → ℕ
overlooked u [] = 0
overlooked u (x ∷ xs) = overlooked_by u x + overlooked u xs

on_data-Keeps : (d : Data) (c : Client) → IsSound c → Keeps none c (on_data d c)
unfolding on_data
on_data-Keeps d c h =
    let warned : Client = write version_mismatch_confirmed (record c { cannot_continue = true }) in
    let sound : IsSound warned = record { once = h.once; in_step = h.in_step; told = h.told } in
    if-Keeps none c d.is_version_mismatch _ _
      (λ on.
        let k = failed-Keeps warned _ (fire-IsFailed warned sound) in
        record { counted = k.counted; synced = k.synced; given = k.given })
      (λ off. elim (Option-cases d.uuid) [
        | inl absent ↦ rw absent (same-Keeps c h)
        | inr (u, found) ↦ rw found (on_uuid-Keeps u d c h)
      ])

-- From `c` to `c'` no request is lost but those that `x` overlooks.
record Passes (x : Happening) (c c' : Client) : Type 0 where
  at_most : (u : ℕ) → known u c' ≤ known u c + requested_by u x
  at_least : (u : ℕ) → known u c + requested_by u x ≤ known u c' + overlooked_by u x
  synced : c'.timers ≡ c'.resolutions
  given : IsGiven c'

Keeps-Passes :
    (r : Option ℕ) (x : Happening) (c c' : Client)
    → ((u : ℕ) → requested_by u x ≡ asked u r)
    → Keeps r c c'
    → Passes x c c'
Keeps-Passes r x c c' same k = record {
  at_most = λ u. omega (arith, k.counted u, same u);
  at_least = λ u. omega (arith, k.counted u, same u);
  synced = k.synced;
  given = k.given;
}

Adds-Passes : (x : Happening) (c c' : Client) → Adds (λ u. requested_by u x) c c' → Passes x c c'
Adds-Passes x c c' k = record {
  at_most = λ u. omega (arith, k.counted u);
  at_least = λ u. omega (arith, k.counted u);
  synced = k.synced;
  given = k.given;
}

happen-Passes :
    (x : Happening) (c : Client)
    → IsSound c
    → ((u : ℕ) → known u c + requested_by u x ≤ 1)
    → Passes x c (happen x c)
unfolding happen
happen-Passes (locks v r) c h new =
    Keeps-Passes (some v) (locks v r) c _ (λ u. refl)
      (lock_internal-new v r c h.in_step h.told (ground (arith, new v)))
happen-Passes (unlocks v k holder force) c h new =
    Keeps-Passes (some v) (unlocks v k holder force) c _ (λ u. refl)
      (unlock_internal-new v k holder force c h.in_step h.told (ground (arith, new v)))
happen-Passes (receives d) c h new =
    Keeps-Passes none (receives d) c _ (λ u. refl) (on_data-Keeps d c h)
happen-Passes (fires v) c h new =
    Keeps-Passes none (fires v) c _ (λ u. refl) (timer_fires-Keeps v c h)
happen-Passes connects c h new =
    Keeps-Passes none connects c _ (λ u. refl)
      (record { counted = λ u. omega arith; synced = h.in_step; given = h.told })
happen-Passes (loses_connection calls) c h new =
    Adds-Passes (loses_connection calls) c _ (recover-Adds calls c h new)
happen-Passes (ends_connection calls) c h new =
    Adds-Passes (ends_connection calls) c _ (end_current_connection-Adds calls c h new)
happen-Passes (closes calls) c h new =
    let within = close-bounds calls c h new in
    record {
      at_most = λ u. (within u).1;
      at_least = λ u. omega (arith, (within u).0);
      synced = close-synced calls c;
      given = close-IsGiven calls c;
    }

Passes-IsSound :
    (x : Happening) (c c' : Client)
    → Passes x c c'
    → ((u : ℕ) → known u c + requested_by u x ≤ 1)
    → IsSound c'
Passes-IsSound x c c' k new = record {
  once = λ u. omega (arith, k.at_most u, new u);
  in_step = k.synced;
  told = k.given;
}

pub happen_all-IsSound :
    (xs : List Happening) (c : Client)
    → IsSound c
    → ((u : ℕ) → known u c + requested u xs ≤ 1)
    → ((u : ℕ)
        → (known u (happen_all xs c) ≤ known u c + requested u xs)
          × (known u c + requested u xs ≤ known u (happen_all xs c) + overlooked u xs))
      × IsSound (happen_all xs c)
unfolding happen_all
happen_all-IsSound [] c h new = (λ u. (omega arith, omega arith), h)
happen_all-IsSound (x ∷ xs) c h new =
    let one : (u : ℕ) → known u c + requested_by u x ≤ 1 = λ u. omega (arith, new u) in
    let k = happen-Passes x c h one in
    let (within, sound) =
      happen_all-IsSound xs (happen x c) (Passes-IsSound x c (happen x c) k one)
        (λ u. omega (arith, k.at_most u, new u)) in
    (
      λ u. (omega (arith, (within u).0, k.at_most u), omega (arith, (within u).1, k.at_least u)),
      sound,
    )

pub new_client-IsSound : IsSound new_client
unfolding new_client
new_client-IsSound = record {
  once = λ u. omega arith;
  in_step = refl;
  told = λ u absent. absurd (ground arith);
}

-- Let a client begin without requests, and let the uuids of its requests to lock and unlock be all different, those
-- included that its callbacks make, and let a callback that a loop calls do nothing to the client but lock and unlock. Whatever frames come, whichever timers fire, and whether it loses its
-- connection, ends it or is closed: a uuid is waiting or has had its callback called, once in all, only if it was
-- requested; and it is, if it was requested, but for those which callbacks request that `close`
-- calls. Those that wait are those whose timers run.
pub happen_all-settles :
    (xs : List Happening)
    → ((u : ℕ) → requested u xs ≤ 1)
    → ((u : ℕ)
        → (times u (happen_all xs new_client).resolutions
              + times u (happen_all xs new_client).settled
            ≤ requested u xs)
          × (requested u xs
              ≤ times u (happen_all xs new_client).resolutions
                + times u (happen_all xs new_client).settled
                + overlooked u xs))
      × ((happen_all xs new_client).timers ≡ (happen_all xs new_client).resolutions)
unfolding new_client
happen_all-settles xs distinct =
    let (within, sound) =
      happen_all-IsSound xs new_client new_client-IsSound (λ u. omega (arith, distinct u)) in
    (λ u. (omega (arith, (within u).0), omega (arith, (within u).1)), sound.in_step)
