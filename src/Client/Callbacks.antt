-- ===== src/Client/Callbacks.antt =====
-- What the callbacks of the client (src/client.ts) ask for while a loop over the requests calls them.
use live_mutex.Prelude.{
  ℕ, ◌+◌, ◌≤◌, ◌≡◌, refl, Bool, true, false, Option, none, some, List, [], ◌∷◌, arith,
  if◌then◌else◌, leb,
}
use live_mutex.Dict.{times, asked}
use live_mutex.Client.{
  Client, Call, lock_call, unlock_call, make, make_all, recover, end_current_connection, close,
  fire_callbacks_prematurely, give_up_all, lock_internal, unlock_internal, fire_error,
  clean_up_request,
}
use live_mutex.Client.Tables.{
  known, Keeps, IsSound, IsGiven, lock_internal-new, unlock_internal-new,
}
use live_mutex.Client.Failures.{failed-Keeps, fire-IsFailed, give_up_all-Keeps}

-- The uuid of the request that a call makes.
abbrev pub call_uuid : Call → ℕ
call_uuid (lock_call u r) = u
call_uuid (unlock_call u k holder force) = u

-- How often calls make a request of a uuid.
abbrev pub made : ℕ → List Call → ℕ
made u [] = 0
made u (x ∷ xs) = asked u (some (call_uuid x)) + made u xs

-- From `c` to `c'`, with `n` for the new requests of each uuid, no request is lost, and the timers are those of the
-- requests that wait.
pub record Adds (n : ℕ → ℕ) (c c' : Client) : Type 0 where
  pub counted : (u : ℕ) → known u c' ≡ known u c + n u
  pub synced : c'.timers ≡ c'.resolutions
  pub given : IsGiven c'

pub Keeps-IsSound :
    (r : Option ℕ) (c c' : Client)
    → Keeps r c c'
    → ((u : ℕ) → known u c + asked u r ≤ 1)
    → IsSound c'
Keeps-IsSound r c c' k new = record {
  once = λ u. omega (arith, k.counted u, new u);
  in_step = k.synced;
  told = k.given;
}

make-Keeps :
    (x : Call) (c : Client)
    → IsSound c
    → ((u : ℕ) → known u c + asked u (some (call_uuid x)) ≤ 1)
    → Keeps (some (call_uuid x)) c (make x c)
unfolding make
make-Keeps (lock_call v r) c h new =
    lock_internal-new v r c h.in_step h.told (ground (arith, new v))
make-Keeps (unlock_call v k holder force) c h new =
    unlock_internal-new v k holder force c h.in_step h.told (ground (arith, new v))

make_all-Adds :
    (xs : List Call) (c : Client)
    → IsSound c
    → ((u : ℕ) → known u c + made u xs ≤ 1)
    → Adds (λ u. made u xs) c (make_all xs c)
unfolding make_all
make_all-Adds [] c h new = record { counted = λ u. omega arith; synced = h.in_step; given = h.told }
make_all-Adds (x ∷ xs) c h new =
    let one : (u : ℕ) → known u c + asked u (some (call_uuid x)) ≤ 1 = λ u. omega (arith, new u) in
    let k = make-Keeps x c h one in
    let rest =
      make_all-Adds xs (make x c) (Keeps-IsSound (some (call_uuid x)) c (make x c) k one)
        (λ u. omega (arith, k.counted u, new u)) in
    record {
      counted = λ u. omega (arith, rest.counted u, k.counted u);
      synced = rest.synced;
      given = rest.given;
    }

-- The calls that come after a loop.
after-Adds :
    (calls : List Call) (c c' : Client)
    → Keeps none c c'
    → ((u : ℕ) → known u c + made u calls ≤ 1)
    → Adds (λ u. made u calls) c (make_all calls c')
after-Adds calls c c' k new =
    let rest =
      make_all-Adds calls c' (Keeps-IsSound none c c' k (λ u. omega (arith, new u)))
        (λ u. omega (arith, k.counted u, new u)) in
    record {
      counted = λ u. omega (arith, rest.counted u, k.counted u);
      synced = rest.synced;
      given = rest.given;
    }

pub recover-Adds :
    (calls : List Call) (c : Client)
    → IsSound c
    → ((u : ℕ) → known u c + made u calls ≤ 1)
    → Adds (λ u. made u calls) c (recover calls c)
unfolding recover
recover-Adds calls c h new =
    let k = after-Adds calls c (give_up_all c) (give_up_all-Keeps c h) new in
    record { counted = k.counted; synced = k.synced; given = k.given }

pub end_current_connection-Adds :
    (calls : List Call) (c : Client)
    → IsSound c
    → ((u : ℕ) → known u c + made u calls ≤ 1)
    → Adds (λ u. made u calls) c (end_current_connection calls c)
unfolding end_current_connection
end_current_connection-Adds calls c h new =
    let k =
      after-Adds calls c (fire_callbacks_prematurely c) (failed-Keeps c _ (fire-IsFailed c h))
        new in
    record { counted = k.counted; synced = k.synced; given = k.given }

if-settled :
    (u : ℕ) (c : Client) (b : Bool) (x y : Client)
    → times u c.settled ≤ times u x.settled
    → times u c.settled ≤ times u y.settled
    → times u c.settled ≤ times u (if b then x else y).settled
if-settled u c true x y h k = h
if-settled u c false x y h k = k

-- What has been called back stays so.
make-settled : (u : ℕ) (x : Call) (c : Client) → times u c.settled ≤ times u (make x c).settled
unfolding make lock_internal unlock_internal fire_error clean_up_request
make-settled u (lock_call v r) c =
    if-settled u c c.is_open _ _
      (if-settled u c c.recovering _ _ (ground arith) (
        if-settled u c c.cannot_continue _ _ (ground arith)
          (if-settled u c (leb r.max_retries r.retry_count) _ _ (ground arith) (omega arith))))
      (ground arith)
make-settled u (unlock_call v k holder force) c = omega arith

make_all-settled :
    (u : ℕ) (xs : List Call) (c : Client) → times u c.settled ≤ times u (make_all xs c).settled
unfolding make_all
make_all-settled u [] c = omega arith
make_all-settled u (x ∷ xs) c = omega (arith, make-settled u x c, make_all-settled u xs (make x c))

-- `close` keeps every request but those that its callbacks make.
pub close-bounds :
    (calls : List Call) (c : Client)
    → IsSound c
    → ((u : ℕ) → known u c + made u calls ≤ 1)
    → (u : ℕ)
    → (known u c ≤ known u (close calls c)) × (known u (close calls c) ≤ known u c + made u calls)
unfolding close
close-bounds calls c h new u =
    let shut : Client = record c { no_recover = true } in
    let sound : IsSound shut = record { once = h.once; in_step = h.in_step; told = h.told } in
    let fired = fire-IsFailed shut sound in
    let k = after-Adds calls shut _ (failed-Keeps shut _ fired) new in
    (
      omega (arith, fired.all_told u, make_all-settled u calls (fire_callbacks_prematurely shut)),
      omega (arith, k.counted u),
    )

pub close-synced :
    (calls : List Call) (c : Client) → (close calls c).timers ≡ (close calls c).resolutions
unfolding close
close-synced calls c = refl

pub close-IsGiven : (calls : List Call) (c : Client) → IsGiven (close calls c)
unfolding close
close-IsGiven calls c = λ u absent. absurd (ground arith)
