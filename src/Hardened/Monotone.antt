-- ===== src/Hardened/Monotone.antt =====
-- The hardened broker never mints a fencing token of a key twice, nor a lower one: not after the lock object was
-- deleted, nor when the clock goes back, nor when the process dies.
use live_mutex.Prelude.{
  ℕ, ◌+◌, ◌≤◌, ◌<◌, ◌≡◌, ◌≢◌, ◌==◌, ◌⊎◌, refl, sym, subst, ◌∙◌, inl, inr, Bool, true, false, none,
  some, List, [], ◌∷◌, arith, ltb, if◌then◌else◌, max, Bool-cases,
}
use live_mutex.Dict.{get, set, times, get-set, times-set_once}
use live_mutex.Hardened.Watermark.{max_fencing_token}
use live_mutex.Hardened.Storage.{
  Storage, read_persisted_watermark, persist_watermark_atomically, Installs,
  persist_watermark_atomically-Installs,
}
use live_mutex.Hardened.Authority.{
  fencing_token_persistence_failed, Authority, Exec, persisted, raise_watermark, put_counter,
}

-- No token is above `n`.
abbrev pub Below : ℕ → List (ℕ × ℕ) → Type 0
Below n [] = Unit
Below n ((k, t) ∷ xs) = (t ≤ n) × Below n xs

-- No token of `k` is above `n`.
abbrev pub BelowAt : ℕ → ℕ → List (ℕ × ℕ) → Type 0
BelowAt k n [] = Unit
BelowAt k n ((j, t) ∷ xs) = (j ≡ k → t ≤ n) × BelowAt k n xs

-- Every token of `k` is below `n`.
abbrev pub LowerAt : ℕ → ℕ → List (ℕ × ℕ) → Type 0
LowerAt k n [] = Unit
LowerAt k n ((j, t) ∷ xs) = (j ≡ k → t < n) × LowerAt k n xs

-- Each token is above all earlier ones of its key.
abbrev pub IsRising : List (ℕ × ℕ) → Type 0
IsRising [] = Unit
IsRising ((k, t) ∷ xs) = LowerAt k t xs × IsRising xs

BelowAt-LowerAt : (k n : ℕ) (xs : List (ℕ × ℕ)) → BelowAt k n xs → LowerAt k (n + 1) xs
BelowAt-LowerAt k n [] h = tt
BelowAt-LowerAt k n ((j, t) ∷ xs) h = (λ e. omega (arith, h.0 e), BelowAt-LowerAt k n xs h.1)

pub Below-le : (m n : ℕ) (xs : List (ℕ × ℕ)) → m ≤ n → Below m xs → Below n xs
Below-le m n [] le h = tt
Below-le m n ((k, t) ∷ xs) le h = (omega (arith, h.0), Below-le m n xs le h.1)

BelowAt-le : (k m n : ℕ) (xs : List (ℕ × ℕ)) → m ≤ n → BelowAt k m xs → BelowAt k n xs
BelowAt-le k m n [] le h = tt
BelowAt-le k m n ((j, t) ∷ xs) le h = (λ e. omega (arith, h.0 e), BelowAt-le k m n xs le h.1)

Below-BelowAt : (k n : ℕ) (xs : List (ℕ × ℕ)) → Below n xs → BelowAt k n xs
Below-BelowAt k n [] h = tt
Below-BelowAt k n ((j, t) ∷ xs) h = (λ e. h.0, Below-BelowAt k n xs h.1)

module _ {F : Type 0} ⦃st : Storage F⦄ where
  -- A durable authority: what its file says, `disk`, bounds every token; a lock object that has not reached
  -- the watermark has one that is on the disk.
  pub record IsSound (a : Authority F) : Type 0 where
    pub disk : ℕ
    pub durable : a.durable ≡ true
    pub stored : read_persisted_watermark a.files ≡ some disk
    pub on_disk : Below disk a.tokens
    pub in_memory : Below a.fencing_watermark a.tokens
    pub reached :
        (a.fencing_watermark ≤ disk)
        ⊎ ((k n : ℕ) → get k a.counters ≡ some n → a.fencing_watermark ≤ n)
    pub low : (k n : ℕ) → get k a.counters ≡ some n → n ≤ a.fencing_watermark
    pub past : (k n : ℕ) → get k a.counters ≡ some n → BelowAt k n a.tokens
    pub rising : IsRising a.tokens
    pub once : (u : ℕ) → times u a.counters ≤ 1

  -- What raising the watermark to `v` leaves.
  pub record IsRaised (v : ℕ) (a : Authority F) (x : Exec F) : Type 0 where
    pub sound : IsSound x.0
    pub counters : x.0.counters ≡ a.counters
    pub tokens : x.0.tokens ≡ a.tokens
    pub reaches : x.1 ≡ none → x.0.fencing_watermark ≡ max a.fencing_watermark v

  persisted-IsRaised :
      (v : ℕ) (x : F × Bool) (a : Authority F)
      → IsSound a
      → a.fencing_watermark < v
      → Installs v a.files x
      → IsRaised v a (persisted v x a)
  unfolding persisted
  persisted-IsRaised v (f, true) a h above i = record {
    sound = record {
      disk = v;
      durable = h.durable;
      stored = i.complete refl;
      on_disk = Below-le a.fencing_watermark v a.tokens (omega arith) h.in_memory;
      in_memory = Below-le a.fencing_watermark v a.tokens (omega arith) h.in_memory;
      reached = inl (omega arith);
      low = λ k n found. omega (arith, h.low k n found);
      past = h.past;
      rising = h.rising;
      once = h.once;
    };
    counters = refl;
    tokens = refl;
    reaches = λ done. omega arith;
  }
  persisted-IsRaised v (f, false) a h above i =
      let rest : (d : ℕ)
          → read_persisted_watermark f ≡ some d
          → Below d a.tokens
          → ((a.fencing_watermark ≤ d)
              ⊎ ((k n : ℕ) → get k a.counters ≡ some n → a.fencing_watermark ≤ n))
          → IsRaised v a (record a { files = f }, some fencing_token_persistence_failed) =
        λ d stored below reached. record {
          sound = record {
            disk = d;
            durable = h.durable;
            stored = stored;
            on_disk = below;
            in_memory = h.in_memory;
            reached = reached;
            low = h.low;
            past = h.past;
            rising = h.rising;
            once = h.once;
          };
          counters = refl;
          tokens = refl;
          reaches = λ failed. cc;
        } in
      elim i.either [
        | inl new ↦
            rest v new (Below-le a.fencing_watermark v a.tokens (omega arith) h.in_memory)
              (inl (omega arith))
        | inr old ↦ rest h.disk (old ∙ h.stored) h.on_disk h.reached
      ]

  pub raise_watermark-IsRaised :
      (v : ℕ) (a : Authority F)
      → IsSound a
      → v ≤ max_fencing_token
      → IsRaised v a (raise_watermark v a)
  unfolding raise_watermark
  raise_watermark-IsRaised v a h small = elim (Bool-cases (ltb a.fencing_watermark v)) [
    | inl above ↦ rw above (
        subst
          (λ d. IsRaised v a (
            if d
            then persisted v (persist_watermark_atomically v a.files) a
            else (record a { fencing_watermark = v }, none)))
          (sym h.durable)
          (persisted-IsRaised v (persist_watermark_atomically v a.files) a h (ground arith)
            (persist_watermark_atomically-Installs v a.files small)))
    | inr below ↦
        rw below
          (record { sound = h; counters = refl; tokens = refl; reaches = λ done. ground arith })
  ]

  at_or_old :
      (j k n m : ℕ) (a : Authority F)
      → get j (set k n a.counters) ≡ some m
      → ((j ≡ k) × (m ≡ n)) ⊎ ((j ≢ k) × (get j a.counters ≡ some m))
  at_or_old j k n m a found = elim (Bool-cases (j == k)) [
    | inl same ↦ inl (ground arith, ground (arith, get-set j k n a.counters))
    | inr other ↦ inr (λ e. ground arith, ground (arith, get-set j k n a.counters))
  ]

  -- A lock object whose counter starts at the watermark, or above it.
  pub put_counter-IsSound :
      (k n : ℕ) (a : Authority F)
      → IsSound a
      → n ≡ a.fencing_watermark
      → IsSound (put_counter k n a)
  put_counter-IsSound k n a h at = record {
    disk = h.disk;
    durable = h.durable;
    stored = h.stored;
    on_disk = h.on_disk;
    in_memory = h.in_memory;
    reached = elim h.reached [
      | inl safe ↦ inl safe
      | inr high ↦ inr (λ j m found. elim (at_or_old j k n m a found) [
        | inl (_, new) ↦ omega (arith, new, at)
        | inr old ↦ high j m old.1
      ])
    ];
    low = λ j m found. elim (at_or_old j k n m a found) [
      | inl (_, new) ↦ omega (arith, new, at)
      | inr old ↦ h.low j m old.1
    ];
    past = λ j m found. elim (at_or_old j k n m a found) [
      | inl (_, new) ↦
          Below-BelowAt j m a.tokens
            (Below-le a.fencing_watermark m a.tokens (omega (arith, new, at)) h.in_memory)
      | inr old ↦ h.past j m old.1
    ];
    rising = h.rising;
    once = λ u. times-set_once u k n a.counters (h.once u);
  }

  -- A grant on the lock object of `k`, which stands at `n`, when the watermark has been raised to `n + 1`.
  pub mint-IsSound :
      (k n : ℕ) (a : Authority F)
      → IsSound a
      → get k a.counters ≡ some n
      → n + 1 ≤ a.fencing_watermark
      → IsSound (record a { counters = set k (n + 1) a.counters; tokens = (k, n + 1) ∷ a.tokens })
  mint-IsSound k n a h stands raised =
      let safe : a.fencing_watermark ≤ h.disk = elim h.reached [
        | inl safe ↦ safe
        | inr high ↦ absurd (omega (arith, high k n stands))
      ] in
      record {
        disk = h.disk;
        durable = h.durable;
        stored = h.stored;
        on_disk = (omega arith, h.on_disk);
        in_memory = (raised, h.in_memory);
        reached = inl safe;
        low = λ j m found. elim (at_or_old j k (n + 1) m a found) [
          | inl (_, new) ↦ omega (arith, new)
          | inr old ↦ h.low j m old.1
        ];
        past = λ j m found. elim (at_or_old j k (n + 1) m a found) [
          | inl (same, new) ↦ (
            λ e. omega (arith, new),
            subst (λ i. BelowAt i m a.tokens) (sym same)
                (BelowAt-le k n m a.tokens (omega (arith, new)) (h.past k n stands)),
          )
          | inr old ↦ (λ e. absurd (old.0 (sym e)), h.past j m old.1)
        ];
        rising = (BelowAt-LowerAt k n a.tokens (h.past k n stands), h.rising);
        once = λ u. times-set_once u k (n + 1) a.counters (h.once u);
      }
