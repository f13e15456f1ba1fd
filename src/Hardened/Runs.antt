-- ===== src/Hardened/Runs.antt =====
-- The tokens that the hardened broker (src/broker-1-hardened.ts) mints over its handlers, its crashes and restarts.
use live_mutex.Prelude.{
  ℕ, ◌+◌, ◌≤◌, ◌<◌, ◌≡◌, refl, sym, ap, subst, ◌∙◌, inl, inr, Bool, true, false, ◌&&◌, Option, none,
  some, List, [], ◌∷◌, arith, leb, ltb, if◌then◌else◌, max, Bool-cases, Option-cases,
}
use live_mutex.Dict.{get, erase, times-erase-le, get-erase-some}
use live_mutex.Hardened.Watermark.{max_fencing_token}
use live_mutex.Hardened.Storage.{
  Storage, read_persisted_watermark, interrupted, interrupted-IsOldOrNew,
}
use live_mutex.Broker.Composite.{RawKey}
use live_mutex.Hardened.Authority.{
  required_tokens, Authority, max_composite_keys, Exec, after, has_headroom, raise_watermark,
  get_default_lock_object, next_fencing_token, grant, touch, obtain, obtain_all, lock, acquire_many,
  ensure_new_lock_holder, started, create, Event, locks, touches, acquires, wakes, cleans_up, dies,
  dies_writing, step, run,
}
use live_mutex.Hardened.Monotone.{
  Below, Below-le, IsRising, IsSound, raise_watermark-IsRaised, put_counter-IsSound, mint-IsSound,
}

module _ {F : Type 0} ⦃st : Storage F⦄ where
  after-IsSound :
      (x : Exec F) (f : Authority F → Exec F)
      → IsSound x.0
      → (x.1 ≡ none → IsSound (f x.0).0)
      → IsSound (after x f).0
  after-IsSound (a, none) f h k = k refl
  after-IsSound (a, some e) f h k = h

  if-IsSound :
      (b : Bool) (x y : Exec F)
      → (b ≡ true → IsSound x.0)
      → (b ≡ false → IsSound y.0)
      → IsSound (if b then x else y).0
  if-IsSound true x y h k = h refl
  if-IsSound false x y h k = k refl

  get_default_lock_object-IsSound :
      (now k : ℕ) (a : Authority F) → IsSound a → IsSound (get_default_lock_object now k a).0
  unfolding get_default_lock_object
  get_default_lock_object-IsSound now k a h =
      let seed = max now (max a.fencing_token_floor a.fencing_watermark) in
      if-IsSound (ltb max_fencing_token seed) _ _ (λ over. h)
        (λ under.
          let r = raise_watermark-IsRaised seed a h (ground arith) in
          after-IsSound (raise_watermark seed a) _ r.sound (λ done.
            put_counter-IsSound k seed (raise_watermark seed a).0 r.sound
              (omega (arith, r.reaches done))))

  next_fencing_token-IsSound :
      (k n : ℕ) (a : Authority F)
      → IsSound a
      → get k a.counters ≡ some n
      → IsSound (next_fencing_token k n a).0
  unfolding next_fencing_token
  next_fencing_token-IsSound k n a h stands =
      if-IsSound (ltb max_fencing_token (n + 1)) _ _ (λ over. h)
        (λ under.
          let r = raise_watermark-IsRaised (n + 1) a h (ground arith) in
          after-IsSound (raise_watermark (n + 1) a) _ r.sound (λ done.
            mint-IsSound k n (raise_watermark (n + 1) a).0 r.sound (ap (get k) r.counters ∙ stands)
              (omega (arith, r.reaches done))))

  grant-IsSound : (k : ℕ) (a : Authority F) → IsSound a → IsSound (grant k a).0
  unfolding grant
  grant-IsSound k a h = elim (Option-cases (get k a.counters)) [
    | inl absent ↦ rw (absent, grant) h
    | inr (n, stands) ↦ rw (stands, grant) (next_fencing_token-IsSound k n a h stands)
  ]

  touch-IsSound : (now k : ℕ) (a : Authority F) → IsSound a → IsSound (touch now k a).0
  unfolding touch
  touch-IsSound now k a h = elim (Option-cases (get k a.counters)) [
    | inl absent ↦ rw (absent, touch) (get_default_lock_object-IsSound now k a h)
    | inr (n, stands) ↦ rw (stands, touch) h
  ]

  obtain-IsSound : (now k : ℕ) (a : Authority F) → IsSound a → IsSound (obtain now k a).0
  unfolding obtain
  obtain-IsSound now k a h =
      let made = get_default_lock_object-IsSound now k a h in
      elim (Option-cases (get k a.counters)) [
        | inl absent ↦
            rw (absent, obtain)
              (after-IsSound (get_default_lock_object now k a) (grant k) made
                (λ done. grant-IsSound k (get_default_lock_object now k a).0 made))
        | inr (n, stands) ↦ rw (stands, obtain) (grant-IsSound k a h)
      ]

  obtain_all-IsSound :
      (now : ℕ) (ks : List ℕ) (a : Authority F) → IsSound a → IsSound (obtain_all now ks a).0
  unfolding obtain_all
  obtain_all-IsSound now [] a h = h
  obtain_all-IsSound now (k ∷ ks) a h =
      let got = obtain-IsSound now k a h in
      after-IsSound (obtain now k a) (obtain_all now ks) got
        (λ done. obtain_all-IsSound now ks (obtain now k a).0 got)

  lock-IsSound :
      (now k : ℕ) (room : Bool) (a : Authority F) → IsSound a → IsSound (lock now k room a).0
  unfolding lock
  lock-IsSound now k room a h =
      if-IsSound (has_headroom 1 a) _ _
        (λ ample. elim (Option-cases (get k a.counters)) [
          | inl absent ↦ rw absent (obtain-IsSound now k a h)
          | inr (n, stands) ↦
              rw stands (if-IsSound room _ _ (λ on. obtain-IsSound now k a h) (λ off. h))
        ])
        (λ scarce. h)

  acquire_many-IsSound :
      (now : ℕ) (keys : Option (List RawKey)) (ks : List ℕ) (a : Authority F)
      → IsSound a
      → IsSound (acquire_many now keys ks a).0
  unfolding acquire_many
  acquire_many-IsSound now keys ks a h =
      if-IsSound (has_headroom (required_tokens keys) a) _ _
        (λ ample. obtain_all-IsSound now ks a h) (λ scarce. h)

  ensure_new_lock_holder-IsSound :
      (now : ℕ) (ks : List ℕ) (a : Authority F)
      → IsSound a
      → IsSound (ensure_new_lock_holder now ks a)
  unfolding ensure_new_lock_holder
  ensure_new_lock_holder-IsSound now ks a h =
      elim (Bool-cases (has_headroom max_composite_keys a)) [
        | inl ample ↦ rw (ample, ensure_new_lock_holder) (obtain_all-IsSound now ks a h)
        | inr scarce ↦ rw (scarce, ensure_new_lock_holder) h
      ]

  clean_up-IsSound :
      (k : ℕ) (a : Authority F) → IsSound a → IsSound (record a { counters = erase k a.counters })
  clean_up-IsSound k a h =
      let kept : (j n : ℕ) → get j (erase k a.counters) ≡ some n → get j a.counters ≡ some n =
        λ j n found. get-erase-some j k n a.counters (h.once k) found in
      record {
        disk = h.disk;
        durable = h.durable;
        stored = h.stored;
        on_disk = h.on_disk;
        in_memory = h.in_memory;
        reached = elim h.reached [
          | inl safe ↦ inl safe
          | inr high ↦ inr (λ j n found. high j n (kept j n found))
        ];
        low = λ j n found. h.low j n (kept j n found);
        past = λ j n found. h.past j n (kept j n found);
        rising = h.rising;
        once = λ u. omega (arith, times-erase-le u k a.counters, h.once u);
      }

  -- It comes out sound.
  Starts : Option (Authority F) → Type 0
  Starts m = (a : Authority F) × (m ≡ some a) × IsSound a

  -- A start on a file whose watermark bounds the tokens that were granted.
  create-Starts :
      (floor w : ℕ) (durable : Bool) (f : F) (granted : List (ℕ × ℕ))
      → durable ≡ true
      → read_persisted_watermark f ≡ some w
      → Below w granted
      → IsRising granted
      → Starts (create floor durable f granted)
  unfolding create get Starts
  create-Starts floor w durable f granted on stored below rising =
      subst (λ d. Starts (create floor d f granted)) (sym on)
        (
          started floor true w f granted,
          rw (stored, create) refl,
          record {
            disk = w;
            durable = refl;
            stored = stored;
            on_disk = below;
            in_memory = Below-le w (max floor w) granted (omega arith) below;
            reached = inr (λ k n absent. absurd (ground arith));
            low = λ k n absent. absurd (ground arith);
            past = λ k n absent. absurd (ground arith);
            rising = rising;
            once = λ u. omega arith;
          },
        )

  dies-Starts :
      (floor : ℕ) (a : Authority F) → IsSound a → Starts (create floor a.durable a.files a.tokens)
  dies-Starts floor a h =
      create-Starts floor h.disk a.durable a.files a.tokens h.durable h.stored h.on_disk h.rising

  dies_writing-Starts :
      (w steps floor : ℕ) (a : Authority F)
      → IsSound a
      → a.fencing_watermark < w
      → w ≤ max_fencing_token
      → Starts (create floor a.durable (interrupted steps w a.files) a.tokens)
  dies_writing-Starts w steps floor a h above small =
      let from : (d : ℕ)
          → read_persisted_watermark (interrupted steps w a.files) ≡ some d
          → Below d a.tokens
          → Starts (create floor a.durable (interrupted steps w a.files) a.tokens) =
        λ d stored below.
          create-Starts floor d a.durable (interrupted steps w a.files) a.tokens h.durable stored
            below h.rising in
      elim (interrupted-IsOldOrNew steps w a.files small) [
        | inl new ↦ from w new (Below-le a.fencing_watermark w a.tokens (omega arith) h.in_memory)
        | inr old ↦ from h.disk (old ∙ h.stored) h.on_disk
      ]

  some-Starts : (a : Authority F) → IsSound a → Starts (some a)
  unfolding Starts
  some-Starts a h = (a, refl, h)

  if-Starts :
      (b : Bool) (x y : Option (Authority F))
      → (b ≡ true → Starts x)
      → (b ≡ false → Starts y)
      → Starts (if b then x else y)
  if-Starts true x y h k = h refl
  if-Starts false x y h k = k refl

  step-Starts : (x : Event) (a : Authority F) → IsSound a → Starts (step x a)
  unfolding step
  step-Starts (locks now k room) a h = some-Starts _ (lock-IsSound now k room a h)
  step-Starts (touches now k) a h = some-Starts _ (touch-IsSound now k a h)
  step-Starts (acquires now keys ks) a h = some-Starts _ (acquire_many-IsSound now keys ks a h)
  step-Starts (wakes now ks) a h = some-Starts _ (ensure_new_lock_holder-IsSound now ks a h)
  step-Starts (cleans_up k) a h = some-Starts _ (clean_up-IsSound k a h)
  step-Starts (dies floor) a h = dies-Starts floor a h
  step-Starts (dies_writing w steps floor) a h =
      if-Starts (a.durable && ltb a.fencing_watermark w && leb w max_fencing_token) _ _
        (λ writing. dies_writing-Starts w steps floor a h (ground arith) (ground arith))
        (λ idle. dies-Starts floor a h)

  run-Starts : (xs : List Event) (a : Authority F) → IsSound a → Starts (run xs a)
  unfolding run Starts
  run-Starts [] a h = (a, refl, h)
  run-Starts (x ∷ xs) a h =
      let (a₁, steps, sound) = step-Starts x a h in
      let (a₂, runs, safe) = run-Starts xs a₁ sound in (a₂, rw (steps, run) runs, safe)

  -- Let a broker with a state path start on a file that it can read. Then, whatever its handlers do, whichever lock
  -- objects are deleted, whatever the clock says, whichever writes fail and wherever its process dies, it
  -- always starts again, and each fencing token that it minted is above all earlier ones of its key.
  pub run-IsRising :
      (floor w : ℕ) (f : F) (xs : List Event)
      → read_persisted_watermark f ≡ some w
      → (a a' : Authority F) × (create floor true f [] ≡ some a)
        × (run xs a ≡ some a')
        × IsRising a'.tokens
  unfolding Starts
  run-IsRising floor w f xs stored =
      let (a, starts, sound) = create-Starts floor w true f [] refl stored tt tt in
      let (a', runs, safe) = run-Starts xs a sound in (a, a', starts, runs, safe.rising)
