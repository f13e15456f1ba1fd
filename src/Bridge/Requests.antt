-- ===== src/Bridge/Requests.antt =====
-- No request of the bridge is lost, and none is settled twice.
use live_mutex.Prelude.{
  ℕ, ◌+◌, ◌≤◌, ◌≡◌, refl, ap, Bool, true, false, inl, inr, Option, none, some, List, [], ◌∷◌, ◌++◌,
  arith, if◌then◌else◌, Every, Every->>=, ◌>>=◌, Option-cases,
}
use live_mutex.Dict.{Dict, get, set, erase, times, asked, times-set, times-erase}
use live_mutex.LinkedQueue.{LinkedQueue}
use live_mutex.Broker.Types.{Env, Reply, Broker}
use live_mutex.Broker.Lock.{lock}
use live_mutex.Broker.Unlock.{unlock}
use live_mutex.Broker.Composite.{acquire_many, release_many}
use live_mutex.Broker.Connection.{cleanup_connection}
use live_mutex.Socket.{
  Task, deliver, answer, finalize_later, finalize, close_after_end, close_destroyed, tick, destroy,
}
use live_mutex.Bridge.{
  Json, Outcome, resolved, timed_out, shut_down, refused, Bridge, new_bridge, reply_uuid,
  settle_pending, write_frames, frames_for, call_broker, seen_by_broker, dispatch, on_broker_frame,
  lock_payload, unlock_payload, acquire_many_payload, react, reject_all, shutdown, Call, lock_call,
  unlock_call, acquire_many_call, release_many_call, timer_fires, turn, shutdown_call, call, calls,
}

-- The uuid of a call that makes a request, and how often a list of calls makes it.
abbrev pub request : Call → Option ℕ
request (lock_call u k t m f p) = some u
request (unlock_call u k l f) = some u
request (acquire_many_call u ks t) = some u
request (release_many_call u l) = some u
request _ = none

abbrev pub requested : ℕ → List (Env × Call) → ℕ
requested u [] = 0
requested u ((e, c) ∷ xs) = asked u (request c) + requested u xs

Every-if {ℓ κ} :
    {A : Type ℓ} (P : A → Type κ) (b : Bool) (x y : Option A)
    → (b ≡ true → Every P x)
    → (b ≡ false → Every P y)
    → Every P (if b then x else y)
Every-if P true x y h k = h refl
Every-if P false x y h k = k refl

Every-mono {ℓ κ ι} :
    {A : Type ℓ} (P : A → Type κ) (R : A → Type ι) (m : Option A)
    → Every P m
    → ((a : A) → P a → Every R (some a))
    → Every R m
Every-mono P R none h k = tt
Every-mono P R (some a) h k = k a h

-- The requests that are waiting or settled.
abbrev pub known : {Q : Type 0} → ℕ → Bridge Q → ℕ
known u br = times u br.inflight + times u br.settled

times-reject_all :
    (u : ℕ) (d : Dict ℕ) (xs : List (ℕ × Outcome))
    → times u (reject_all d xs) ≡ times u d + times u xs
unfolding reject_all
times-reject_all u [] xs = omega arith
times-reject_all u ((v, t) ∷ d) xs = ground (arith, times-reject_all u d ((v, shut_down) ∷ xs))

module _ {Q : Type 0} where
  settle_pending-known :
      (u v : ℕ) (o : Outcome) (br : Bridge Q) → known u (settle_pending v o br) ≡ known u br
  unfolding settle_pending
  settle_pending-known u v o br = elim (Option-cases (get v br.inflight)) [
    | inl absent ↦ rw (absent, settle_pending) refl
    | inr (t, found) ↦ rw (found, settle_pending) (ground (arith, times-erase u v t br.inflight))
  ]

  abbrev IsIdle : Bridge Q → Type 0
  IsIdle br = br.closed ≡ true → br.inflight ≡ []

  settle_pending-IsIdle :
      (v : ℕ) (o : Outcome) (br : Bridge Q) → IsIdle br → IsIdle (settle_pending v o br)
  unfolding settle_pending erase
  settle_pending-IsIdle v o br idle = elim (Option-cases (get v br.inflight)) [
    | inl absent ↦ rw (absent, settle_pending) idle
    | inr (t, found) ↦ rw (found, settle_pending) (λ shut. rw (idle shut) refl)
  ]

  -- What a step makes of the requests: those that it asks for are added, and a closed bridge has none waiting.
  abbrev Keeps : Option ℕ → Bridge Q → Bridge Q → Type 0
  Keeps r br br' =
      ((u : ℕ) → known u br' ≡ known u br + asked u r) × (br'.closed ≡ true → br'.inflight ≡ [])

  done-Keeps :
      (j : Json) (r : Option ℕ) (br₀ br : Bridge Q) (m : Option (Broker Q))
      → Keeps r br₀ br
      → Every (Keeps r br₀) (
          m >>= λ b. some (record br {
            broker = record b { sent = b.sent ++ br.broker.sent };
            socket = write_frames j (frames_for br.ws b.sent) br.socket;
          }))
  done-Keeps j r br₀ br none h = tt
  done-Keeps j r br₀ br (some b) h = h

  call_broker-Keeps :
      (j : Json) (handler : Broker Q → Option (Broker Q)) (r : Option ℕ) (br₀ br : Bridge Q)
      → Keeps r br₀ br
      → Every (Keeps r br₀) (call_broker j handler br)
  unfolding call_broker
  call_broker-Keeps j handler r br₀ br h =
      done-Keeps j r br₀ br (handler (record (br.broker) { sent = [] })) h

  dispatch-Keeps :
      (j : Json) (e : Env) (v : ℕ) (handler : Broker Q → Option (Broker Q)) (br : Bridge Q)
      → known v br ≡ 0
      → IsIdle br
      → Every (Keeps (some v) br) (dispatch j e v handler br)
  unfolding dispatch
  dispatch-Keeps j e v handler br new idle =
      let waiting : Bridge Q = record br {
        inflight = set v (e.now + br.default_timeout_ms) br.inflight;
      } in
      Every-if (Keeps (some v) br) br.closed
        (some (record br { settled = (v, refused) ∷ br.settled })) (call_broker j handler waiting)
        (λ shut. (λ u. ground arith, idle))
        (λ open_. call_broker-Keeps j handler (some v) br waiting (
          λ u. omega (
            arith,
            times-set u v (e.now + br.default_timeout_ms) br.inflight (omega (arith, new)),
          ),
          λ shut. absurd (ground arith),
        ))

  settle_pending-Keeps :
      (v : ℕ) (o : Outcome) (br : Bridge Q) → IsIdle br → Keeps none br (settle_pending v o br)
  settle_pending-Keeps v o br idle =
      (λ u. omega (arith, settle_pending-known u v o br), settle_pending-IsIdle v o br idle)

  choose-Keeps :
      (r : Option ℕ) (br x y : Bridge Q) (b : Bool)
      → Keeps r br x
      → Keeps r br y
      → Keeps r br (if b then x else y)
  choose-Keeps r br x y true h k = h
  choose-Keeps r br x y false h k = k

  react-Keeps : (ts : List (Task Reply)) (br : Bridge Q) → IsIdle br → Keeps none br (react ts br)
  unfolding react on_broker_frame
  react-Keeps [] br idle = (λ u. omega arith, idle)
  react-Keeps (deliver r ∷ ts) br idle =
      let ticked : Bridge Q = record br { socket = tick br.socket } in
      choose-Keeps none br ticked (settle_pending (reply_uuid r) (resolved r) ticked)
        br.socket.destroyed (λ u. omega arith, idle)
        (settle_pending-Keeps (reply_uuid r) (resolved r) ticked idle)
  react-Keeps (answer c x ∷ ts) br idle = (λ u. omega arith, idle)
  react-Keeps (finalize_later c ∷ ts) br idle = (λ u. omega arith, idle)
  react-Keeps (finalize c ∷ ts) br idle = (λ u. omega arith, idle)
  react-Keeps (close_after_end c ∷ ts) br idle = (λ u. omega arith, idle)
  react-Keeps (close_destroyed w ∷ ts) br idle = (λ u. omega arith, idle)

module _ {Q : Type 0} ⦃lq : LinkedQueue Q⦄ where
  shutdown-Keeps :
      (j : Json) (e : Env) (fuel : ℕ) (br : Bridge Q)
      → IsIdle br
      → Every (Keeps none br) (shutdown j e fuel br)
  unfolding shutdown
  shutdown-Keeps j e fuel br idle =
      let emptied : Bridge Q = record br {
        closed = true;
        inflight = [];
        settled = reject_all br.inflight br.settled;
      } in
      Every-if (Keeps none br) br.closed (some br) _ (λ shut. (λ u. omega arith, idle))
        (λ open_.
          Every->>= (Keeps none br) (Keeps none br)
            (call_broker j (cleanup_connection (seen_by_broker e br) fuel br.ws) emptied)
            (λ br'. some (record br' { socket = destroy false br'.socket }))
            (call_broker-Keeps j (cleanup_connection (seen_by_broker e br) fuel br.ws) none br
              emptied (λ u. omega (arith, times-reject_all u br.inflight br.settled), λ shut. refl))
            (λ br' h. h))

  unknown : (v : ℕ) (br : Bridge Q) → known v br + asked v (some v) ≤ 1 → known v br ≡ 0
  unknown v br new = ground arith

  call-Keeps :
      (j : Json) (fuel pid : ℕ) (e : Env) (c : Call) (br : Bridge Q)
      → ((u : ℕ) → known u br + asked u (request c) ≤ 1)
      → IsIdle br
      → Every (Keeps (request c) br) (call j fuel pid (e, c) br)
  unfolding call
  call-Keeps j fuel pid e (lock_call v k t m f p) br new idle =
      dispatch-Keeps j e v
        (λ b. some (lock (seen_by_broker e br) (lock_payload pid v k t m f p) br.ws b)) br
        (unknown v br (new v)) idle
  call-Keeps j fuel pid e (unlock_call v k l f) br new idle =
      dispatch-Keeps j e v (unlock (seen_by_broker e br) fuel (unlock_payload v k l f) (some br.ws))
        br (unknown v br (new v)) idle
  call-Keeps j fuel pid e (acquire_many_call v ks t) br new idle =
      dispatch-Keeps j e v
        (λ b. some (acquire_many (seen_by_broker e br) (acquire_many_payload pid v ks t) br.ws b))
        br (unknown v br (new v)) idle
  call-Keeps j fuel pid e (release_many_call v l) br new idle =
      dispatch-Keeps j e v (release_many (seen_by_broker e br) fuel v (some l) br.ws) br
        (unknown v br (new v)) idle
  call-Keeps j fuel pid e (timer_fires v) br new idle = settle_pending-Keeps v timed_out br idle
  call-Keeps j fuel pid e turn br new idle = react-Keeps br.socket.tasks br idle
  call-Keeps j fuel pid e shutdown_call br new idle = shutdown-Keeps j e fuel br idle

  -- The requests after a list of calls, none of whose uuids is known before.
  calls-Keeps :
      (j : Json) (fuel pid : ℕ) (xs : List (Env × Call)) (br : Bridge Q)
      → ((u : ℕ) → known u br + requested u xs ≤ 1)
      → IsIdle br
      → Every
          (λ br'. ((u : ℕ) → known u br' ≡ known u br + requested u xs) × IsIdle br')
          (calls j fuel pid xs br)
  unfolding calls
  calls-Keeps j fuel pid [] br new idle = (λ u. omega arith, idle)
  calls-Keeps j fuel pid ((e, c) ∷ xs) br new idle =
      Every->>= (Keeps (request c) br)
        (λ br'.
          ((u : ℕ) → known u br' ≡ known u br + (asked u (request c) + requested u xs))
          × IsIdle br')
        (call j fuel pid (e, c) br) (calls j fuel pid xs)
        (call-Keeps j fuel pid e c br (λ u. omega (arith, new u)) idle)
        λ br₁ kept.
          Every-mono _ _ (calls j fuel pid xs br₁)
            (calls-Keeps j fuel pid xs br₁ (λ u. omega (arith, new u, kept.0 u)) kept.1)
            (λ br' h. (λ u. omega (arith, h.0 u, kept.0 u), h.1))

  -- Let a new bridge be called with uuids that are all different, whatever the calls, the timers, the turns of
  -- the event loop and the shutdowns among them. If the fuel is enough, then in the end each request is
  -- either waiting or settled, and settled once only; no other request is; and if the bridge is closed then
  -- none is waiting.
  pub calls-settles :
      (j : Json) (fuel pid ws timeout : ℕ) (xs : List (Env × Call)) (b : Broker Q)
      → ((u : ℕ) → requested u xs ≤ 1)
      → Every
          (λ br.
            ((u : ℕ) → times u br.inflight + times u br.settled ≡ requested u xs)
            × (br.closed ≡ true → (u : ℕ) → times u br.settled ≡ requested u xs))
          (calls j fuel pid xs (new_bridge ws timeout b))
  unfolding new_bridge
  calls-settles j fuel pid ws timeout xs b distinct =
      Every-mono _ _ (calls j fuel pid xs (new_bridge ws timeout b))
        (calls-Keeps j fuel pid xs (new_bridge ws timeout b) (λ u. omega (arith, distinct u))
          (λ shut. refl))
        (λ br h. (
          λ u. omega (arith, h.0 u),
          λ shut u. omega (arith, h.0 u, ap (times {A = ℕ} u) (h.1 shut)),
        ))
