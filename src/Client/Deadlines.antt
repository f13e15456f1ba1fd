-- ===== src/Client/Deadlines.antt =====
-- A lock request that the broker does not answer (src/client.ts): how many timeouts it lasts.
use live_mutex.Prelude.{
  ℕ, zero, suc, ◌+◌, ◌≤◌, ◌≡◌, refl, sym, ap, subst, ◌<◌, ◌⊎◌, Bool, true, false, inl, inr, some,
  List, [], ◌∷◌, arith, if◌then◌else◌, leb, Option-cases,
}
use live_mutex.Dict.{get, erase, times, times-erase, get-set_self}
use live_mutex.Client.{
  Request, Pending, locking, expire, Client, new_client, fire_error, clean_up_request,
  lock_internal, time_out, timer_fires,
}
use live_mutex.Client.Events.{Happening, fires, happen, happen_all}
use live_mutex.Client.Tables.{known, IsSound}
use live_mutex.Client.Timeouts.{timer_fires-Keeps}
use live_mutex.Client.Requests.{requested, happen_all-IsSound, new_client-IsSound}

-- The timer of `v` fires `n` times.
abbrev pub firings : ℕ → ℕ → List Happening
firings zero v = []
firings (suc n) v = fires v ∷ firings n v

-- After a timeout the callback was called, or the request waits with one more retry, fewer than allowed.
IsNext : ℕ → Request → Client → Type 0
IsNext v r c =
    (1 ≤ times v c.settled)
    ⊎ ((get v c.timers ≡ some (locking (record r { retry_count = r.retry_count + 1 })))
        × (r.retry_count + 1 < r.max_retries))

if-IsNext :
    (v : ℕ) (r : Request) (b : Bool) (x y : Client)
    → (b ≡ true → IsNext v r x)
    → (b ≡ false → IsNext v r y)
    → IsNext v r (if b then x else y)
if-IsNext v r true x y h k = h refl
if-IsNext v r false x y h k = k refl

time_out-IsNext : (v : ℕ) (r : Request) (c : Client) → IsNext v r (time_out v r c)
unfolding time_out lock_internal fire_error clean_up_request IsNext
time_out-IsNext v r c =
    if-IsNext v r c.is_open _ _
      (λ open_.
        if-IsNext v r (leb r.max_retries (r.retry_count + 1)) _ _ (λ last. inl (ground arith))
          (λ more.
            if-IsNext v r c.is_open _ _
              (λ open'.
                if-IsNext v r c.recovering _ _ (λ on. inl (ground arith))
                  (λ off.
                    if-IsNext v r c.cannot_continue _ _ (λ on. inl (ground arith))
                      (λ off'.
                        if-IsNext v r (leb r.max_retries (r.retry_count + 1)) _ _
                          (λ last. inl (ground arith))
                          (λ room. inr (
                            get-set_self v (locking (record r { retry_count = r.retry_count + 1 }))
                                (erase v c.timers),
                            ground arith,
                          )))))
              (λ shut. inl (ground arith))))
      (λ shut. inl (ground arith))

timer_fires-done : (v : ℕ) (c : Client) → IsSound c → 1 ≤ times v c.settled → timer_fires v c ≡ c
unfolding timer_fires
timer_fires-done v c h called = elim (Option-cases (get v c.timers)) [
  | inl absent ↦ rw (absent, timer_fires) refl
  | inr (r, found) ↦ absurd (
      ground (
        arith,
        times-erase v v r c.timers found,
        ap (times {A = Pending} v) h.in_step,
        h.once v,
        called,
      ))
]

IsSound-timer_fires : (v : ℕ) (c : Client) → IsSound c → IsSound (timer_fires v c)
IsSound-timer_fires v c h =
    let k = timer_fires-Keeps v c h in
    record { once = λ u. omega (arith, k.counted u, h.once u); in_step = k.synced; told = k.given }

firings-done :
    (n v : ℕ) (c : Client)
    → IsSound c
    → 1 ≤ times v c.settled
    → 1 ≤ times v (happen_all (firings n v) c).settled
unfolding happen_all happen
firings-done zero v c h called = called
firings-done (suc n) v c h called =
    firings-done n v (timer_fires v c) (IsSound-timer_fires v c h)
      (subst (λ x. 1 ≤ times v x.settled) (sym (timer_fires-done v c h called)) called)

firings-end :
    (n v : ℕ) (r : Request) (c : Client)
    → IsSound c
    → get v c.timers ≡ some (locking r)
    → r.max_retries ≤ r.retry_count + n
    → 1 ≤ n
    → 1 ≤ times v (happen_all (firings n v) c).settled
unfolding happen_all happen IsNext timer_fires expire
firings-end zero v r c h found enough positive = absurd (omega arith)
firings-end (suc n) v r c h found enough positive =
    let fired : timer_fires v c ≡ time_out v r c = rw (found, timer_fires) refl in
    let sound = IsSound-timer_fires v c h in
    elim (subst (IsNext v r) (sym fired) (time_out-IsNext v r c)) [
      | inl called ↦ firings-done n v (timer_fires v c) sound called
      | inr (waits, few) ↦
          firings-end n v (record r { retry_count = r.retry_count + 1 }) (timer_fires v c) sound
            waits (omega (arith, enough)) (omega (arith, enough, few))
    ]

start : (u : ℕ) → known u new_client ≡ 0
unfolding new_client
start u = omega arith

requested-firings : (u n v : ℕ) → requested u (firings n v) ≡ 0
requested-firings u zero v = refl
requested-firings u (suc n) v = omega (arith, requested-firings u n v)

-- After any happenings from the start, with uuids that are all different, let a lock request wait. If nothing but its
-- timer goes on, its callback is called, once only, by the time that the timer has fired as often
-- as it has retries left, and once at least.
pub happen_all-ends :
    (xs : List Happening) (n v : ℕ) (r : Request)
    → ((u : ℕ) → requested u xs ≤ 1)
    → get v (happen_all xs new_client).timers ≡ some (locking r)
    → r.max_retries ≤ r.retry_count + n
    → 1 ≤ n
    → times v (happen_all (firings n v) (happen_all xs new_client)).settled ≡ 1
happen_all-ends xs n v r distinct waits enough positive =
    let (within, sound) =
      happen_all-IsSound xs new_client new_client-IsSound
        (λ u. omega (arith, distinct u, start u)) in
    let (kept, after) =
      happen_all-IsSound (firings n v) (happen_all xs new_client) sound
        (λ u. omega (arith, sound.once u, requested-firings u n v)) in
    omega (
      arith,
      firings-end n v r (happen_all xs new_client) sound waits enough positive,
      after.once v,
    )
