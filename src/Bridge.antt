-- ===== src/Bridge.antt =====
-- The bridge of src/in-process-bridge.ts (`InProcessBridge`), over which the HTTP server calls the handlers of
-- the broker in the same process. Each request waits under its uuid for the first frame that carries
-- it. A handler runs with no frame sent yet; what it sends to the bridge's socket goes through `write`.
-- The uuid of a request is an argument, and so is JSON. `onFrame` and the handlers do not throw.
pub mod Requests
use live_mutex.Prelude.{
  ℕ, zero, ◌+◌, ◌≡◌, Bool, true, false, Option, none, some, List, [], ◌∷◌, ◌++◌, ◌==◌,
  if◌then◌else◌, add, contains, ◌>>=◌,
}
use live_mutex.Dict.{Dict, get, set, erase}
use live_mutex.LinkedQueue.{LinkedQueue, infinite, millis}
use live_mutex.Framing.{Text}
use live_mutex.Socket.{
  Codec, text, VirtualSocket, Task, deliver, new_socket, write, destroy, run_task, tick,
}
use live_mutex.Broker.Types.{
  Env, Reply, Broker, lock_granted, lock_queued, lock_reelection, lock_invalid, unlocked,
  unlock_no_such_lock, unlock_wrong_uuid, force_unlock_mismatch, many_granted, many_queued,
  many_invalid, many_released, many_unknown,
}
use live_mutex.Broker.Lock.{Limit, absent, no_status, LockRequest, lock}
use live_mutex.Broker.Unlock.{UnlockRequest, unlock}
use live_mutex.Broker.Composite.{RawKey, ManyRequest, acquire_many, release_many}
use live_mutex.Broker.Connection.{cleanup_connection}

pub record Json : Type 0 where
  pub codec : Codec Reply
  pub stringify : Reply → Text

-- How the promise of a request is settled.
pub data Outcome : Type 0 where
  resolved : Reply → Outcome
  refused timed_out shut_down : Outcome

-- `ws` is the bridge's socket as the broker knows it. `inflight` has the time at which each waiting request
-- gives up; `settled` has the requests that are done, the latest first.
pub record Bridge (Q : Type 0) : Type 0 where
  pub broker : Broker Q
  pub socket : VirtualSocket Reply
  pub ws : ℕ
  pub inflight : Dict ℕ
  pub default_timeout_ms : ℕ
  pub closed : Bool
  pub settled : List (ℕ × Outcome)

-- `frame.uuid`
abbrev pub reply_uuid : Reply → ℕ
reply_uuid (lock_granted k u r n t) = u
reply_uuid (lock_queued k u r n) = u
reply_uuid (lock_reelection k u n) = u
reply_uuid (lock_invalid k u) = u
reply_uuid (unlocked k u n) = u
reply_uuid (unlock_no_such_lock k u) = u
reply_uuid (unlock_wrong_uuid k u n) = u
reply_uuid (force_unlock_mismatch k u n) = u
reply_uuid (many_granted u ks l ts) = u
reply_uuid (many_queued u ks k n) = u
reply_uuid (many_invalid u) = u
reply_uuid (many_released u l ks) = u
reply_uuid (many_unknown u) = u

-- The frames for one socket, the earliest first.
unfoldable pub frames_for : ℕ → List (ℕ × Reply) → List Reply
frames_for ws [] = []
frames_for ws ((w, r) ∷ sent) =
    let earlier = frames_for ws sent in if w == ws then earlier ++ r ∷ [] else earlier

unfoldable pub write_frames : Json → List Reply → VirtualSocket Reply → VirtualSocket Reply
write_frames j [] s = s
write_frames j (r ∷ rs) s =
    write_frames j rs (write j.codec (text (j.stringify r ++ 10 ∷ [])) none s).0

-- `pending.reject` for all that are waiting.
unfoldable pub reject_all : Dict ℕ → List (ℕ × Outcome) → List (ℕ × Outcome)
reject_all [] done_ = done_
reject_all ((u, t) ∷ d) done_ = reject_all d ((u, shut_down) ∷ done_)

module _ {Q : Type 0} where
  -- The bridge as its constructor leaves it.
  unfoldable pub new_bridge : ℕ → ℕ → Broker Q → Bridge Q
  unfolding new_socket
  new_bridge ws timeout b = record {
    broker = record b {
      connected_clients = add ws b.connected_clients;
      ws_to_keys = set ws [] b.ws_to_keys;
      ws_to_uuids = set ws [] b.ws_to_uuids;
    };
    socket = new_socket;
    ws = ws;
    inflight = [];
    default_timeout_ms = timeout;
    closed = false;
    settled = [];
  }

  abbrev pub settle : ℕ → Outcome → Bridge Q → Bridge Q
  settle uuid o br = record br {
    inflight = erase uuid br.inflight;
    settled = (uuid, o) ∷ br.settled;
  }

  -- Settle a request that is still waiting.
  unfoldable pub settle_pending : ℕ → Outcome → Bridge Q → Bridge Q
  settle_pending uuid o br = elim (get uuid br.inflight) [ none ↦ br | some t ↦ settle uuid o br ]

  -- The surroundings of a handler: the bridge's socket is writable as its state says.
  abbrev pub seen_by_broker : Env → Bridge Q → Env
  seen_by_broker e br = record e {
    writable = λ w. if w == br.ws then br.socket.writable else e.writable w;
  }

  -- A handler on the broker, and its frames to the bridge's socket.
  unfoldable pub call_broker : Json → (Broker Q → Option (Broker Q)) → Bridge Q → Option (Bridge Q)
  unfolding write_frames frames_for
  call_broker j handler br = handler (record (br.broker) { sent = [] }) >>= λ b. some (record br {
    broker = record b { sent = b.sent ++ br.broker.sent };
    socket = write_frames j (frames_for br.ws b.sent) br.socket;
  })

  -- `dispatch`
  unfoldable pub dispatch :
      Json → Env → ℕ → (Broker Q → Option (Broker Q)) → Bridge Q → Option (Bridge Q)
  unfolding call_broker
  dispatch j e uuid handler br =
      if br.closed
      then some (record br { settled = (uuid, refused) ∷ br.settled })
      else call_broker j handler
          (record br { inflight = set uuid (e.now + br.default_timeout_ms) br.inflight })

  -- `onBrokerFrame`
  unfoldable pub on_broker_frame : Reply → Bridge Q → Bridge Q
  unfolding settle_pending
  on_broker_frame r br = settle_pending (reply_uuid r) (resolved r) br

  -- A task of the socket, and what the bridge does with a frame that it hands over.
  unfoldable pub react : List (Task Reply) → Bridge Q → Bridge Q
  unfolding on_broker_frame
  react (deliver r ∷ ts) br =
      let ticked : Bridge Q = record br { socket = tick br.socket } in
      if br.socket.destroyed then ticked else on_broker_frame r ticked
  react ts br = record br { socket = tick br.socket }

module _ {Q : Type 0} ⦃lq : LinkedQueue Q⦄ where
  unfoldable pub shutdown : Json → Env → ℕ → Bridge Q → Option (Bridge Q)
  unfolding call_broker reject_all
  shutdown j e fuel br =
      if br.closed
      then some br
      else call_broker j (cleanup_connection (seen_by_broker e br) fuel br.ws)
          (record br { closed = true; inflight = []; settled = reject_all br.inflight br.settled })
        >>= λ br'. some (record br' { socket = destroy false br'.socket })

-- What reaches a bridge: calls of its methods, with the uuid that each draws, the timers of its requests, and
-- turns of the event loop. A `ttl` that is missing is `none`.
pub data Call : Type 0 where
  lock_call : (uuid key : ℕ) → (ttl : Option ℕ) → (max : Limit) → (force keep : Bool) → Call
  unlock_call : (uuid key : ℕ) → (lock_uuid : Option ℕ) → (force : Bool) → Call
  acquire_many_call : (uuid : ℕ) → (keys : List RawKey) → (ttl : Option ℕ) → Call
  release_many_call : (uuid lock_uuid : ℕ) → Call
  timer_fires : (uuid : ℕ) → Call
  turn : Call
  shutdown_call : Call

-- The payload of `lock`: the broker takes a `ttl` of null for a missing one.
unfoldable pub lock_payload : ℕ → ℕ → ℕ → Option ℕ → Limit → Bool → Bool → LockRequest
lock_payload pid uuid key ttl limit force keep = record {
  key = key;
  uuid = uuid;
  pid = pid;
  ttl = elim ttl [ none ↦ millis 0 | some t ↦ millis t ];
  max = limit;
  max_read = absent;
  max_write = absent;
  rw_status = no_status;
  force = force;
  wait = true;
  retry_count = 0;
  keep_locks_after_death = keep;
}

unfoldable pub unlock_payload : ℕ → ℕ → Option ℕ → Bool → UnlockRequest
unlock_payload uuid key lock_uuid force = record {
  key = key;
  uuid = some uuid;
  holder = lock_uuid;
  force = force;
  keep_locks_after_death = false;
}

-- The payload of `acquireMany`: the broker takes a `ttl` of null for `Infinity`.
unfoldable pub acquire_many_payload : ℕ → ℕ → List RawKey → Option ℕ → ManyRequest
acquire_many_payload pid uuid keys ttl = record {
  uuid = uuid;
  keys = some keys;
  ttl = elim ttl [ none ↦ infinite | some t ↦ millis t ];
  pid = pid;
  wait = true;
  keep_locks_after_death = false;
}

module _ {Q : Type 0} ⦃lq : LinkedQueue Q⦄ where
  unfoldable pub call : Json → ℕ → ℕ → Env × Call → Bridge Q → Option (Bridge Q)
  unfolding dispatch shutdown settle_pending react lock_payload unlock_payload acquire_many_payload
  call j fuel pid (e, lock_call uuid key ttl limit force keep) br =
      dispatch j e uuid
        (λ b.
          some
            (lock (seen_by_broker e br) (lock_payload pid uuid key ttl limit force keep) br.ws b))
        br
  call j fuel pid (e, unlock_call uuid key lock_uuid force) br =
      dispatch j e uuid
        (unlock (seen_by_broker e br) fuel (unlock_payload uuid key lock_uuid force) (some br.ws))
        br
  call j fuel pid (e, acquire_many_call uuid keys ttl) br =
      dispatch j e uuid
        (λ b.
          some
            (acquire_many (seen_by_broker e br) (acquire_many_payload pid uuid keys ttl) br.ws b))
        br
  call j fuel pid (e, release_many_call uuid lock_uuid) br =
      dispatch j e uuid (release_many (seen_by_broker e br) fuel uuid (some lock_uuid) br.ws) br
  call j fuel pid (e, timer_fires uuid) br = some (settle_pending uuid timed_out br)
  call j fuel pid (e, turn) br = some (react br.socket.tasks br)
  call j fuel pid (e, shutdown_call) br = shutdown j e fuel br

  unfoldable pub calls : Json → ℕ → ℕ → List (Env × Call) → Bridge Q → Option (Bridge Q)
  calls j fuel pid [] br = some br
  calls j fuel pid (x ∷ xs) br = call j fuel pid x br >>= calls j fuel pid xs
