-- ===== src/Client/Tables.antt =====
-- The tables of the client (src/client.ts) under the uuids of its requests, and what a step keeps of them.
use live_mutex.Prelude.{
  ℕ, ◌+◌, ◌≤◌, ◌≡◌, refl, ap, ◌||◌, Bool, true, false, Option, none, some, List, [], ◌∷◌, arith,
  ◌==◌, if◌then◌else◌, leb, add, contains, discard,
}
use live_mutex.Dict.{get, set, erase, times, asked, times-set, times-erase, erase-new}
use live_mutex.Client.{
  Code, Frame, Outcome, Request, Pending, locking, unlocking, unlock_internal, Client,
  clean_up_request, call_back, fire_error, lock_internal, connection_closed, max_retries_attempted,
}

-- How often the client knows a request: it waits, or its callback was called.
abbrev pub known : ℕ → Client → ℕ
known u c = times u c.resolutions + times u c.settled

-- A request that is given up has had its callback called.
abbrev pub IsGiven : Client → Type 0
IsGiven c = (u : ℕ) → contains u c.giveups ≡ true → 1 ≤ times u c.settled

pub contains-add :
    (u v : ℕ) (xs : List ℕ) → contains u (add v xs) ≡ true → (contains u xs || (u == v)) ≡ true
contains-add u v xs h = ground arith

pub contains-discard :
    (u v : ℕ) (xs : List ℕ) → contains u (discard v xs) ≡ true → contains u xs ≡ true
contains-discard u v [] h = h
contains-discard u v (x ∷ xs) h = ground (arith, contains-discard u v xs)

-- From `c` to `c'` the requests are kept, with the one in `r` for a new one, and the timers
-- are those of the requests that wait.
pub record Keeps (r : Option ℕ) (c c' : Client) : Type 0 where
  pub counted : (u : ℕ) → known u c' ≡ known u c + asked u r
  pub synced : c'.timers ≡ c'.resolutions
  pub given : IsGiven c'

pub if-Keeps :
    (r : Option ℕ) (c : Client) (b : Bool) (x y : Client)
    → (b ≡ true → Keeps r c x)
    → (b ≡ false → Keeps r c y)
    → Keeps r c (if b then x else y)
if-Keeps r c true x y h k = h refl
if-Keeps r c false x y h k = k refl

-- A client at rest with its requests.
pub record IsSound (c : Client) : Type 0 where
  pub once : (u : ℕ) → known u c ≤ 1
  pub in_step : c.timers ≡ c.resolutions
  pub told : IsGiven c

-- A new request whose callback is called at once.
pub call_back-new :
    (v : ℕ) (o : Outcome) (c : Client)
    → c.timers ≡ c.resolutions
    → IsGiven c
    → Keeps (some v) c (call_back v o c)
call_back-new v o c synced given = record {
  counted = λ u. ground arith;
  synced = synced;
  given = λ u h. ground (arith, given u h);
}

pub fire_error-new :
    (v : ℕ) (e : Code) (c : Client)
    → c.timers ≡ c.resolutions
    → IsGiven c
    → times v c.resolutions ≡ 0
    → Keeps (some v) c (fire_error v e c)
unfolding fire_error clean_up_request
fire_error-new v e c synced given new = record {
  counted = λ u. ground (arith, ap (times {A = Pending} u) (erase-new v c.resolutions new));
  synced = ap (erase v) synced;
  given = λ u h. ground (arith, given u h);
}

pub lock_internal-new :
    (v : ℕ) (r : Request) (c : Client)
    → c.timers ≡ c.resolutions
    → IsGiven c
    → times v c.resolutions ≡ 0
    → Keeps (some v) c (lock_internal v r c)
unfolding lock_internal
lock_internal-new v r c synced given new =
    if-Keeps (some v) c c.is_open _ _
      (λ open_.
        if-Keeps (some v) c c.recovering _ _ (λ on. call_back-new v _ c synced given)
          (λ off.
            if-Keeps (some v) c c.cannot_continue _ _ (λ on. call_back-new v _ c synced given)
              (λ off'.
                if-Keeps (some v) c (leb r.max_retries r.retry_count) _ _
                  (λ full. fire_error-new v max_retries_attempted c synced given new)
                  (λ room. record {
                    counted = λ u. omega (arith, times-set u v (locking r) c.resolutions new);
                    synced = ap (set v (locking r)) synced;
                    given = given;
                  }))))
      (λ shut. fire_error-new v connection_closed c synced given new)

-- A request that waits has its callback called.
pub finish-Keeps :
    (v : ℕ) (p : Pending) (o : Outcome) (c : Client)
    → IsSound c
    → get v c.resolutions ≡ some p
    → Keeps none c (call_back v o (clean_up_request v c))
unfolding clean_up_request
finish-Keeps v p o c h found = record {
  counted = λ u. ground (arith, times-erase u v p c.resolutions found);
  synced = ap (erase v) h.in_step;
  given = λ u k. ground (arith, h.told u k);
}

-- `c` without the request `v`.
abbrev pub without : ℕ → Client → Client
without v c = record c { timers = erase v c.timers; resolutions = erase v c.resolutions }

pub without-absent :
    (v : ℕ) (p : Pending) (c : Client)
    → IsSound c
    → get v c.resolutions ≡ some p
    → times v (erase v c.resolutions) ≡ 0
without-absent v p c h found = ground (arith, times-erase v v p c.resolutions found, h.once v)

-- A request that waits is taken out and made anew.
pub renew-Keeps :
    (v : ℕ) (p : Pending) (c c' : Client)
    → get v c.resolutions ≡ some p
    → Keeps (some v) (without v c) c'
    → Keeps none c c'
renew-Keeps v p c c' found k = record {
  counted = λ u. omega (arith, k.counted u, times-erase u v p c.resolutions found);
  synced = k.synced;
  given = k.given;
}

pub same-Keeps : (c : Client) → IsSound c → Keeps none c c
same-Keeps c h = record { counted = λ u. omega arith; synced = h.in_step; given = h.told }

-- What the client wrote and which requests ran out of time does not matter.
pub from-Keeps :
    (r : Option ℕ) (c c' : Client) (ts : List ℕ) (fs : List Frame)
    → Keeps r (record c { timeouts = ts; sent = fs }) c'
    → Keeps r c c'
from-Keeps r c c' ts fs k = record { counted = k.counted; synced = k.synced; given = k.given }

pub unlock_internal-new :
    (v k : ℕ) (holder : Option ℕ) (force : Bool) (c : Client)
    → c.timers ≡ c.resolutions
    → IsGiven c
    → times v c.resolutions ≡ 0
    → Keeps (some v) c (unlock_internal v k holder force c)
unfolding unlock_internal
unlock_internal-new v k holder force c synced given new = record {
  counted = λ u. omega (arith, times-set u v (unlocking k) c.resolutions new);
  synced = ap (set v (unlocking k)) synced;
  given = given;
}

-- The same for a request whose mark in `timeouts` was changed before.
pub finish_marked-Keeps :
    (v : ℕ) (p : Pending) (o : Outcome) (c : Client) (ts : List ℕ)
    → IsSound c
    → get v c.resolutions ≡ some p
    → Keeps none c (call_back v o (clean_up_request v (record c { timeouts = ts })))
finish_marked-Keeps v p o c ts h found = from-Keeps none c _ ts c.sent (
    finish-Keeps v p o (record c { timeouts = ts })
      (record { once = h.once; in_step = h.in_step; told = h.told }) found)
