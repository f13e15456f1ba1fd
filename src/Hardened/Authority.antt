-- ===== src/Hardened/Authority.antt =====
-- src/broker-1-hardened.ts: the high-watermark of `Broker1`, its lock objects and the guards of its handlers. Of a lock
-- object only `nextFencingToken` is kept, in `counters` under its key. What a handler of src/broker-1.ts
-- does in between enters as the keys that it grants. What was done before an exception stays done.
use live_mutex.Prelude.{
  ℕ, ◌+◌, ◌-◌, Bool, true, false, ◌&&◌, Option, none, some, List, [], ◌∷◌, leb, ltb, if◌then◌else◌,
  length, max,
}
use live_mutex.Dict.{Dict, get, set, erase}
use live_mutex.Broker.Composite.{RawKey, text, not_text, sorted_keys}
use live_mutex.Hardened.Watermark.{max_fencing_token}
use live_mutex.Hardened.Storage.{
  Storage, read_persisted_watermark, persist_watermark_atomically, interrupted,
}

-- `FencingTokenExhaustedError` and `FencingTokenPersistenceError`
pub data Failure : Type 0 where
  fencing_token_exhausted fencing_token_persistence_failed : Failure

-- `durable` is whether there is a state path. `tokens` are those granted, each with its key, the latest
-- first, over all processes that had this file.
pub record Authority (F : Type 0) : Type 0 where
  pub fencing_token_floor : ℕ
  pub durable : Bool
  pub fencing_watermark : ℕ
  pub counters : Dict ℕ
  pub files : F
  pub tokens : List (ℕ × ℕ)

-- `MAX_COMPOSITE_KEYS`
abbrev pub max_composite_keys : ℕ
max_composite_keys = 64

-- `data.keys.filter(k => typeof k === 'string')`
unfoldable pub string_keys : List RawKey → List ℕ
string_keys [] = []
string_keys (text k ∷ ks) = k ∷ string_keys ks
string_keys (not_text ∷ ks) = string_keys ks

-- `required` of `acquireMany`: the size of the set of keys, or 1 if there is no array.
unfoldable pub required_tokens : Option (List RawKey) → ℕ
unfolding string_keys
required_tokens none = 1
required_tokens (some ks) = length (sorted_keys (string_keys ks))

-- A handler that may throw.
abbrev pub Exec : Type 0 → Type 0
Exec F = Authority F × Option Failure

module _ {F : Type 0} where
  -- What follows if nothing was thrown.
  abbrev pub after : Exec F → (Authority F → Exec F) → Exec F
  after (a, none) f = f a
  after (a, some e) f = (a, some e)

  -- `hasHeadroom`
  unfoldable pub has_headroom : ℕ → Authority F → Bool
  has_headroom required a =
      leb required max_composite_keys && leb a.fencing_watermark (max_fencing_token - required)

module _ {F : Type 0} ⦃st : Storage F⦄ where
  -- `if (value > fencingWatermark) { persistFencingWatermark(value); fencingWatermark = value; }`
  unfoldable pub persisted : ℕ → F × Bool → Authority F → Exec F
  persisted v (f, true) a = (record a { files = f; fencing_watermark = v }, none)
  persisted v (f, false) a = (record a { files = f }, some fencing_token_persistence_failed)

  unfoldable pub raise_watermark : ℕ → Authority F → Exec F
  unfolding persisted
  raise_watermark v a =
      if ltb a.fencing_watermark v
      then (if a.durable
          then persisted v (persist_watermark_atomically v a.files) a
          else (record a { fencing_watermark = v }, none))
      else (a, none)

  abbrev pub put_counter : ℕ → ℕ → Authority F → Authority F
  put_counter k n a = record a { counters = set k n a.counters }

  -- `getDefaultLockObject`, whose result goes into `locks`.
  unfoldable pub get_default_lock_object : (now key : ℕ) → Authority F → Exec F
  unfolding raise_watermark
  get_default_lock_object now k a =
      let seed = max now (max a.fencing_token_floor a.fencing_watermark) in
      if ltb max_fencing_token seed
      then (a, some fencing_token_exhausted)
      else after (raise_watermark seed a) (λ a'. (put_counter k seed a', none))

  -- `lck.nextFencingToken++` through the proxy, and the grant under the new token.
  unfoldable pub next_fencing_token : (key current : ℕ) → Authority F → Exec F
  unfolding raise_watermark
  next_fencing_token k current a =
      if ltb max_fencing_token (current + 1)
      then (a, some fencing_token_exhausted)
      else after (raise_watermark (current + 1) a) (λ a'. (
        record a' {
          counters = set k (current + 1) a'.counters;
          tokens = (k, current + 1) ∷ a'.tokens;
        },
        none,
      ))

  -- A grant of `k` on its lock object.
  unfoldable pub grant : ℕ → Authority F → Exec F
  unfolding next_fencing_token
  grant k a = elim (get k a.counters) [ none ↦ (a, none) | some n ↦ next_fencing_token k n a ]

  -- `if (!this.locks.has(key)) this.locks.set(key, this.getDefaultLockObject(…))` of the other handlers.
  unfoldable pub touch : (now key : ℕ) → Authority F → Exec F
  unfolding get_default_lock_object
  touch now k a = elim (get k a.counters) [
    | none ↦ get_default_lock_object now k a
    | some n ↦ (a, none)
  ]

  -- A grant of `k`, with a new lock object if it has none.
  unfoldable pub obtain : (now key : ℕ) → Authority F → Exec F
  unfolding get_default_lock_object grant
  obtain now k a = elim (get k a.counters) [
    | none ↦ after (get_default_lock_object now k a) (grant k)
    | some n ↦ grant k a
  ]

  unfoldable pub obtain_all : ℕ → List ℕ → Authority F → Exec F
  unfolding obtain
  obtain_all now [] a = (a, none)
  obtain_all now (k ∷ ks) a = after (obtain now k a) (obtain_all now ks)

  -- `lock`: a key without a lock object is granted, another one only if the handler has room.
  unfoldable pub lock : (now key : ℕ) → (has_room : Bool) → Authority F → Exec F
  unfolding obtain has_headroom
  lock now k has_room a =
      if has_headroom 1 a
      then (elim (get k a.counters) [
        | none ↦ obtain now k a
        | some n ↦ if has_room then obtain now k a else (a, none)
      ])
      else (a, some fencing_token_exhausted)

  -- `acquireMany`, of whose keys the handler gets as far as `ks`.
  unfoldable pub acquire_many : (now : ℕ) → Option (List RawKey) → List ℕ → Authority F → Exec F
  unfolding obtain_all has_headroom required_tokens
  acquire_many now keys ks a =
      if has_headroom (required_tokens keys) a
      then obtain_all now ks a
      else (a, some fencing_token_exhausted)

  -- `ensureNewLockHolder`, whose grants are `ks`. Its errors end as warnings.
  unfoldable pub ensure_new_lock_holder : ℕ → List ℕ → Authority F → Authority F
  unfolding obtain_all has_headroom
  ensure_new_lock_holder now ks a =
      if has_headroom max_composite_keys a then (obtain_all now ks a).0 else a

  -- The fields of the class, with what the file says.
  abbrev pub started :
      (floor : ℕ) → (durable : Bool) → (persisted : ℕ) → F → List (ℕ × ℕ) → Authority F
  started floor durable persisted f granted = record {
    fencing_token_floor = floor;
    durable = durable;
    fencing_watermark = max floor persisted;
    counters = [];
    files = f;
    tokens = granted;
  }

  -- The process starts. `none` is an error of `readPersistedWatermark`.
  unfoldable pub create : (floor : ℕ) → (durable : Bool) → F → List (ℕ × ℕ) → Option (Authority F)
  create floor durable f granted =
      if durable
      then (elim (read_persisted_watermark f) [
        | none ↦ none
        | some w ↦ some (started floor durable w f granted)
      ])
      else some (started floor durable 0 f granted)

-- What happens to the authority: calls of the handlers, the deletion of an idle lock object by `cleanUpLocks`, and
-- the death of the process between two handlers or within the write of a watermark, after which it starts again.
pub data Event : Type 0 where
  locks : (now key : ℕ) → (has_room : Bool) → Event
  touches : (now key : ℕ) → Event
  acquires : (now : ℕ) → Option (List RawKey) → List ℕ → Event
  wakes : (now : ℕ) → List ℕ → Event
  cleans_up : (key : ℕ) → Event
  dies : (floor : ℕ) → Event
  dies_writing : (watermark steps floor : ℕ) → Event

module _ {F : Type 0} ⦃st : Storage F⦄ where
  unfoldable pub step : Event → Authority F → Option (Authority F)
  unfolding lock touch acquire_many ensure_new_lock_holder create
  step (locks now k has_room) a = some (lock now k has_room a).0
  step (touches now k) a = some (touch now k a).0
  step (acquires now keys ks) a = some (acquire_many now keys ks a).0
  step (wakes now ks) a = some (ensure_new_lock_holder now ks a)
  step (cleans_up k) a = some (record a { counters = erase k a.counters })
  step (dies floor) a = create floor a.durable a.files a.tokens
  step (dies_writing w steps floor) a =
      if a.durable && ltb a.fencing_watermark w && leb w max_fencing_token
      then create floor a.durable (interrupted steps w a.files) a.tokens
      else create floor a.durable a.files a.tokens

  unfoldable pub run : List Event → Authority F → Option (Authority F)
  unfolding step
  run [] a = some a
  run (x ∷ xs) a = elim (step x a) [ none ↦ none | some a' ↦ run xs a' ]
