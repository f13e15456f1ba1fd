-- ===== src/Hardened/Headroom.antt =====
-- The headroom that the hardened broker (src/broker-1-hardened.ts) asks for before it hands a request to its handler.
use live_mutex.Prelude.{
  ℕ, ◌+◌, ◌≤◌, ◌<◌, ◌≡◌, ◌≢◌, refl, sym, ap, subst, ◌∙◌, inl, inr, Bool, true, false, Option, none,
  some, List, [], ◌∷◌, arith, ltb, ◌==◌, if◌then◌else◌, length, max, Bool-cases, Option-cases,
}
use live_mutex.Dict.{get, get-set}
use live_mutex.Hardened.Watermark.{max_fencing_token}
use live_mutex.Hardened.Storage.{Storage, persist_watermark_atomically}
use live_mutex.Broker.Composite.{RawKey, text, not_text, key_strings, validate_keys}
use live_mutex.Hardened.Authority.{
  string_keys, required_tokens, fencing_token_exhausted, Authority, Exec, after, has_headroom,
  persisted, raise_watermark, put_counter, get_default_lock_object, next_fencing_token, grant,
  obtain, obtain_all, acquire_many,
}

key_strings-string_keys :
    (ks : List RawKey) (l : List ℕ) → key_strings ks ≡ some l → string_keys ks ≡ l
unfolding key_strings string_keys
key_strings-string_keys [] l h = ground arith
key_strings-string_keys (not_text ∷ ks) l h = cc
key_strings-string_keys (text k ∷ ks) l h = elim (Option-cases (key_strings ks)) [
  | inl bad ↦ ground arith
  | inr (l', good) ↦ ground (arith, key_strings-string_keys ks l')
]

validate_keys-required_tokens :
    (raw : Option (List RawKey)) (keys : List ℕ)
    → validate_keys raw ≡ some keys
    → required_tokens raw ≡ length keys
unfolding validate_keys required_tokens
validate_keys-required_tokens none keys h = cc
validate_keys-required_tokens (some ks) keys h = elim (Option-cases (key_strings ks)) [
  | inl bad ↦ ground arith
  | inr (l, good) ↦ ground (arith, key_strings-string_keys ks l good)
]

module _ {F : Type 0} ⦃st : Storage F⦄ where
  -- No counter and no floor is above the watermark, which is at most `m`.
  pub record IsLow (m : ℕ) (a : Authority F) : Type 0 where
    pub floor_low : a.fencing_token_floor ≤ a.fencing_watermark
    pub counters_low : (k n : ℕ) → get k a.counters ≡ some n → n ≤ a.fencing_watermark
    pub watermark_low : a.fencing_watermark ≤ m

  -- The tokens are not exhausted, and if nothing else failed the watermark is at most `m`.
  record IsAmple (m : ℕ) (x : Exec F) : Type 0 where
    enough : x.1 ≢ some fencing_token_exhausted
    later : x.1 ≡ none → IsLow m x.0

  after-enough :
      (x : Exec F) (f : Authority F → Exec F)
      → x.1 ≢ some fencing_token_exhausted
      → (x.1 ≡ none → (f x.0).1 ≢ some fencing_token_exhausted)
      → (after x f).1 ≢ some fencing_token_exhausted
  after-enough (a, none) f h k = k refl
  after-enough (a, some e) f h k = h

  -- What raising the watermark to `v` leaves.
  record IsRaised (v m : ℕ) (a : Authority F) (x : Exec F) : Type 0 where
    ample : IsAmple m x
    counters : x.0.counters ≡ a.counters
    reached : x.1 ≡ none → v ≤ x.0.fencing_watermark

  if-IsRaised :
      (v m : ℕ) (a : Authority F) (b : Bool) (x y : Exec F)
      → (b ≡ true → IsRaised v m a x)
      → (b ≡ false → IsRaised v m a y)
      → IsRaised v m a (if b then x else y)
  if-IsRaised v m a true x y h k = h refl
  if-IsRaised v m a false x y h k = k refl

  to :
      (v m : ℕ) (f : F) (a : Authority F)
      → IsLow m a
      → a.fencing_watermark < v
      → v ≤ m
      → IsRaised v m a (record a { files = f; fencing_watermark = v }, none)
  to v m f a h above small = record {
    ample = record {
      enough = λ x. cc;
      later = λ x. record {
        floor_low = omega (arith, h.floor_low);
        counters_low = λ k n found. omega (arith, h.counters_low k n found);
        watermark_low = small;
      };
    };
    counters = refl;
    reached = λ x. omega arith;
  }

  persisted-IsRaised :
      (v m : ℕ) (x : F × Bool) (a : Authority F)
      → IsLow m a
      → a.fencing_watermark < v
      → v ≤ m
      → IsRaised v m a (persisted v x a)
  unfolding persisted
  persisted-IsRaised v m (f, true) a h above small = to v m f a h above small
  persisted-IsRaised v m (f, false) a h above small = record {
    ample = record { enough = λ x. cc; later = λ x. cc };
    counters = refl;
    reached = λ x. cc;
  }

  raise_watermark-IsRaised :
      (v m : ℕ) (a : Authority F) → IsLow m a → v ≤ m → IsRaised v m a (raise_watermark v a)
  unfolding raise_watermark
  raise_watermark-IsRaised v m a h small =
      if-IsRaised v m a (ltb a.fencing_watermark v) _ _
        (λ above.
          if-IsRaised v m a a.durable _ _
            (λ on.
              persisted-IsRaised v m (persist_watermark_atomically v a.files) a h (ground arith)
                small)
            (λ off. to v m a.files a h (ground arith) small))
        (λ below. record {
          ample = record { enough = λ x. cc; later = λ x. h };
          counters = refl;
          reached = λ x. ground arith;
        })

  after-IsAmple :
      (m : ℕ) (x : Exec F) (f : Authority F → Exec F)
      → x.1 ≢ some fencing_token_exhausted
      → (x.1 ≡ none → IsAmple m (f x.0))
      → IsAmple m (after x f)
  after-IsAmple m (a, none) f h k = k refl
  after-IsAmple m (a, some e) f h k = record { enough = h; later = λ failed. cc }

  over :
      (m : ℕ) (b : Bool) (x y : Exec F) → b ≡ false → IsAmple m y → IsAmple m (if b then x else y)
  over m b x y no_ h = subst (λ c. IsAmple m (if c then x else y)) (sym no_) h

  put_counter-IsLow :
      (k n m : ℕ) (a : Authority F)
      → IsLow m a
      → n ≤ a.fencing_watermark
      → IsLow m (put_counter k n a)
  put_counter-IsLow k n m a h small = record {
    floor_low = h.floor_low;
    counters_low = λ j i found. elim (Bool-cases (k == j)) [
      | inl same ↦ ground (arith, get-set j k n a.counters)
      | inr other ↦ omega (arith, h.counters_low j i (ground (arith, get-set j k n a.counters)))
    ];
    watermark_low = h.watermark_low;
  }

  next_fencing_token-IsAmple :
      (k n m : ℕ) (a : Authority F)
      → IsLow m a
      → n + 1 ≤ m
      → m ≤ max_fencing_token
      → IsAmple m (next_fencing_token k n a)
  unfolding next_fencing_token
  next_fencing_token-IsAmple k n m a h small safe =
      let r = raise_watermark-IsRaised (n + 1) m a h small in
      over m (ltb max_fencing_token (n + 1)) _ _ (ground arith) (
        after-IsAmple m (raise_watermark (n + 1) a) _ r.ample.enough (λ done.
          let low =
            put_counter-IsLow k (n + 1) m (raise_watermark (n + 1) a).0 (r.ample.later done)
              (r.reached done) in
          record {
            enough = λ x. cc;
            later = λ x. record {
              floor_low = low.floor_low;
              counters_low = low.counters_low;
              watermark_low = low.watermark_low;
            };
          }))

  grant-IsAmple :
      (k m : ℕ) (a : Authority F)
      → IsLow m a
      → m + 1 ≤ max_fencing_token
      → IsAmple (m + 1) (grant k a)
  unfolding grant
  grant-IsAmple k m a h safe =
      let wide : IsLow (m + 1) a = record {
        floor_low = h.floor_low;
        counters_low = h.counters_low;
        watermark_low = omega (arith, h.watermark_low);
      } in
      elim (Option-cases (get k a.counters)) [
        | inl absent ↦ rw (absent, grant) (record { enough = λ x. cc; later = λ x. wide })
        | inr (n, stands) ↦
            rw (stands, grant)
              (next_fencing_token-IsAmple k n (m + 1) a wide
                (omega (arith, h.counters_low k n stands, h.watermark_low)) safe)
      ]

  get_default_lock_object-IsAmple :
      (now k m : ℕ) (a : Authority F)
      → IsLow m a
      → now ≤ m
      → m ≤ max_fencing_token
      → IsAmple m (get_default_lock_object now k a)
  unfolding get_default_lock_object
  get_default_lock_object-IsAmple now k m a h early safe =
      let seed = max now (max a.fencing_token_floor a.fencing_watermark) in
      let r = raise_watermark-IsRaised seed m a h (omega (arith, h.floor_low, h.watermark_low)) in
      over m (ltb max_fencing_token seed) _ _ (ground (arith, h.floor_low, h.watermark_low)) (
        after-IsAmple m (raise_watermark seed a) _ r.ample.enough (λ done. record {
          enough = λ x. cc;
          later = λ x.
              put_counter-IsLow k seed m (raise_watermark seed a).0 (r.ample.later done)
                (r.reached done);
        }))

  obtain-IsAmple :
      (now k m : ℕ) (a : Authority F)
      → IsLow m a
      → now ≤ m
      → m + 1 ≤ max_fencing_token
      → IsAmple (m + 1) (obtain now k a)
  unfolding obtain
  obtain-IsAmple now k m a h early safe =
      let made = get_default_lock_object-IsAmple now k m a h early (omega arith) in
      elim (Option-cases (get k a.counters)) [
        | inl absent ↦
            rw (absent, obtain)
              (after-IsAmple (m + 1) (get_default_lock_object now k a) (grant k) made.enough
                (λ done.
                  grant-IsAmple k m (get_default_lock_object now k a).0 (made.later done) safe))
        | inr (n, stands) ↦ rw (stands, obtain) (grant-IsAmple k m a h safe)
      ]

  obtain_all-ample :
      (now m : ℕ) (ks : List ℕ) (a : Authority F)
      → IsLow m a
      → now ≤ m
      → m + length ks ≤ max_fencing_token
      → (obtain_all now ks a).1 ≢ some fencing_token_exhausted
  unfolding obtain_all
  obtain_all-ample now m [] a h early safe = λ x. cc
  obtain_all-ample now m (k ∷ ks) a h early safe =
      let got = obtain-IsAmple now k m a h early (omega arith) in
      after-enough (obtain now k a) (obtain_all now ks) got.enough (λ done.
        obtain_all-ample now (m + 1) ks (obtain now k a).0 (got.later done) (omega arith)
          (omega arith))

  -- Let a request pass the checks of `acquireMany`, no counter and no floor be above the watermark, and the clock
  -- stay below the largest token by what the request needs. If there is headroom, then up to as many tokens as
  -- the request has keys are minted without coming to the end of them on the way.
  pub acquire_many-ample :
      (now : ℕ) (raw : Option (List RawKey)) (keys ks : List ℕ) (a : Authority F)
      → validate_keys raw ≡ some keys
      → IsLow a.fencing_watermark a
      → has_headroom (length keys) a ≡ true
      → now + length keys ≤ max_fencing_token
      → length ks ≤ length keys
      → (acquire_many now raw ks a).1 ≢ some fencing_token_exhausted
  unfolding acquire_many has_headroom
  acquire_many-ample now raw keys ks a valid h room early few =
      let wide : IsLow (max now a.fencing_watermark) a = record {
        floor_low = h.floor_low;
        counters_low = h.counters_low;
        watermark_low = omega arith;
      } in
      subst
        (λ c.
          (if c then obtain_all now ks a else (a, some fencing_token_exhausted)).1
          ≢ some fencing_token_exhausted)
        (sym (ap (λ n. has_headroom n a) (validate_keys-required_tokens raw keys valid) ∙ room))
        (obtain_all-ample now (max now a.fencing_watermark) ks a wide (omega arith) (ground arith))
