-- ===== src/Broker/Atomic/Release.antt =====
-- What `releaseMany` gives back: the release of a composite whose keys nobody waits for.
use live_mutex.Prelude.{
  ℕ, suc, ◌≡◌, refl, sym, ap, subst, ◌∙◌, inl, inr, true, false, none, some, List, [], ◌∷◌, arith,
  ◌==◌, ==_refl, if◌then◌else◌, contains, add, Bool-cases, Option-cases,
}
use live_mutex.Dict.{Dict, get, set, erase, has, size, get-set, get-set_self, erase-set_new}
use live_mutex.LinkedQueue.{LinkedQueue, Notify}
use live_mutex.Broker.Types.{Env, Holder, LockObj, Broker, Composite}
use live_mutex.Broker.Grant.{put_lock}
use live_mutex.Broker.Drain.{serve_next, drain, release_holder, refill, ensure_new_lock_holder}
use live_mutex.Broker.Composite.{release_key, release_keys}
use live_mutex.Broker.Atomic.{
  NoRepeat, holders_in, holders_at, eq_of_test, holders_in-set, Taken, TrackAt, Track, set-ne-nil,
  rollback_there,
}

erase-unheld : (u : ℕ) (d : Dict Holder) → get u d ≡ none → erase u d ≡ d
unfolding get erase
erase-unheld u [] new = refl
erase-unheld u ((v, h) ∷ d) new = ground (arith, erase-unheld u d)

module _ {Q : Type 0} ⦃lq : LinkedQueue Q⦄ where
  -- How many wait for a key.
  abbrev pub waiting_in : ℕ → Dict (LockObj Q) → ℕ
  waiting_in k d = elim (get k d) [ none ↦ 0 | some l ↦ lq.count l.notify ]

  abbrev pub waiting_at : ℕ → Broker Q → ℕ
  waiting_at k b = waiting_in k b.locks

  pub waiting_in-set :
      (j k : ℕ) (l : LockObj Q) (d : Dict (LockObj Q))
      → waiting_in j (set k l d) ≡ (if k == j then lq.count l.notify else waiting_in j d)
  waiting_in-set j k l d = ground (arith, get-set j k l d)

  -- The same holders and waiters on each key, and the same composites.
  record IsAlike (b b' : Broker Q) : Type 0 where
    holders : (j : ℕ) → holders_at j b' ≡ holders_at j b
    waiting : (j : ℕ) → waiting_at j b' ≡ waiting_at j b
    composites : b'.composite_locks ≡ b.composite_locks

  put_lock-IsAlike :
      (k : ℕ) (l l' : LockObj Q) (b : Broker Q)
      → get k b.locks ≡ some l
      → l'.lockholders ≡ l.lockholders
      → l'.notify ≡ l.notify
      → IsAlike b (put_lock k l' b)
  put_lock-IsAlike k l l' b found same queue = record {
    holders = λ j. holders_in-set j k l' b.locks ∙ elim (Bool-cases (k == j)) [
      | inl here ↦
          rw here (same ∙ sym (rw (sym (eq_of_test k j here)) (rw (found, holders_in) refl)))
      | inr there ↦ rw there refl
    ];
    waiting = λ j. waiting_in-set j k l' b.locks ∙ elim (Bool-cases (k == j)) [
      | inl here ↦
          rw here
            (ap lq.count queue ∙ sym (rw (sym (eq_of_test k j here)) (rw (found, waiting_in) refl)))
      | inr there ↦ rw there refl
    ];
    composites = refl;
  }

  -- The end of `ensureNewLockHolder` on a key that nobody waits for.
  refill-quiet :
      (e : Env) (fuel k : ℕ) (l : LockObj Q) (b : Broker Q)
      → get k b.locks ≡ some l
      → lq.count l.notify ≡ 0
      → (b' : Broker Q) × (refill e (suc fuel) k b ≡ some b') × IsAlike b b'
  unfolding refill drain serve_next
  refill-quiet e fuel k l b found quiet = elim (Bool-cases (size l.lockholders == 0)) [
    | inl empty ↦ (
      _,
      rw (found, refill) (rw empty (rw quiet refl)),
      put_lock-IsAlike k l (record l { timestamp_emptied = some e.now }) b found refl refl,
    )
    | inr held ↦ (
      b,
      rw (found, refill) (rw held (rw (found, drain) (rw quiet refl))),
      record { holders = λ j. refl; waiting = λ j. refl; composites = refl },
    )
  ]

  -- The lock object when `releaseMany` has taken the holder `h` from it, and `ensureNewLockHolder` once more.
  abbrev both_ways : ℕ → List ℕ → LockObj Q → LockObj Q
  both_ways h released l = record l {
    lockholders = erase h (erase h l.lockholders);
    lockholders_all_released = released;
    keep_locks_after_death = false;
  }

  -- What `releaseMany` does to one key that nobody waits for.
  record IsReleased (g : ℕ) (u : ℕ) (b b' : Broker Q) : Type 0 where
    here : holders_at g b' ≡ erase u (erase u (holders_at g b))
    others : (j : ℕ) → (g == j) ≡ false → holders_at j b' ≡ holders_at j b
    waiting : (j : ℕ) → waiting_at j b' ≡ waiting_at j b
    composites : b'.composite_locks ≡ b.composite_locks

  twice-IsReleased :
      (g u : ℕ) (l : LockObj Q) (l₁ l₂ : LockObj Q) (b b₂ b' : Broker Q)
      → get g b.locks ≡ some l
      → b₂.locks ≡ set g l₂ (set g l₁ b.locks)
      → b₂.composite_locks ≡ b.composite_locks
      → l₂.lockholders ≡ erase u (erase u l.lockholders)
      → l₂.notify ≡ l.notify
      → IsAlike b₂ b'
      → IsReleased g u b b'
  twice-IsReleased g u l l₁ l₂ b b₂ b' found locks composites gone queue like = record {
    here =
        like.holders g
        ∙ ap (holders_in g) locks
        ∙ holders_in-set g g l₂ (set g l₁ b.locks)
        ∙ rw (==_refl g) (gone ∙ sym (rw (found, holders_in) refl));
    others = λ j other.
        like.holders j
        ∙ ap (holders_in j) locks
        ∙ holders_in-set j g l₂ (set g l₁ b.locks)
        ∙ rw other (holders_in-set j g l₁ b.locks ∙ rw other refl);
    waiting = λ j.
        like.waiting j
        ∙ ap (waiting_in j) locks
        ∙ waiting_in-set j g l₂ (set g l₁ b.locks)
        ∙ elim (Bool-cases (g == j)) [
          | inl here ↦ rw here (
              ap lq.count queue
              ∙ sym (rw (sym (eq_of_test g j here)) (rw (found, waiting_in) refl)))
          | inr there ↦ rw there (waiting_in-set j g l₁ b.locks ∙ rw there refl)
        ];
    composites = like.composites ∙ composites;
  }

  release_key-IsReleased :
      (e : Env) (fuel : ℕ) (c : Composite) (g u : ℕ) (l : LockObj Q) (b : Broker Q)
      → get g c.holder_uuids ≡ some u
      → get g b.locks ≡ some l
      → lq.count l.notify ≡ 0
      → (b' : Broker Q) × (release_key e (suc fuel) c g b ≡ some b') × IsReleased g u b b'
  unfolding release_key ensure_new_lock_holder release_holder
  release_key-IsReleased e fuel c g u l b known found quiet =
      let released =
        if has u l.lockholders
        then add u l.lockholders_all_released
        else l.lockholders_all_released in
      let l₁ : LockObj Q = record l {
        lockholders = erase u l.lockholders;
        lockholders_all_released = released;
      } in
      let l₂ = both_ways u released l in
      let b₁ : Broker Q = record b {
        holder_deadlines = erase u b.holder_deadlines;
        locks = set g l₁ b.locks;
      } in
      let b₂ = release_holder g l₁ (some u) b₁ in
      let (b', filled, like) = refill-quiet e fuel g l₂ b₂ (get-set_self g l₂ b₁.locks) quiet in
      (
        b',
        rw (known, release_key)
            (rw (found, release_key)
              (rw (get-set_self g l₁ b.locks, ensure_new_lock_holder) filled)),
        twice-IsReleased g u l l₁ l₂ b b₂ b' found refl refl refl refl like,
      )

  Taken-lock :
      (ws composite : ℕ) (hs : Dict ℕ) (g : ℕ) (before : Dict Holder) (b : Broker Q)
      → Taken ws composite hs g before (holders_at g b)
      → (l : LockObj Q) × (get g b.locks ≡ some l)
  Taken-lock ws composite hs g before b t = elim (Option-cases (get g b.locks)) [
    | inl absent ↦
        absurd (set-ne-nil t.uuid t.holder before (sym t.held ∙ rw (absent, holders_in) refl))
    | inr found ↦ found
  ]

  -- A key that was taken gets back the holders that it had.
  release_key-restores :
      (e : Env) (fuel ws composite : ℕ) (c : Composite) (g : ℕ) (before : Dict Holder)
      (b : Broker Q)
      → Taken ws composite c.holder_uuids g before (holders_at g b)
      → waiting_at g b ≡ 0
      → (b' : Broker Q) × (u : ℕ) × (release_key e (suc fuel) c g b ≡ some b')
        × IsReleased g u b b'
        × (holders_at g b' ≡ before)
  release_key-restores e fuel ws composite c g before b t quiet =
      let (l, found) = Taken-lock ws composite c.holder_uuids g before b t in
      let (b', released, done) =
        release_key-IsReleased e fuel c g t.uuid l b t.known found
          (sym (rw (found, waiting_in) refl) ∙ quiet) in
      (
        b',
        t.uuid,
        released,
        done,
        done.here
            ∙ ap (erase t.uuid)
                (ap (erase t.uuid) t.held ∙ erase-set_new t.uuid t.holder before t.fresh)
            ∙ erase-unheld t.uuid before t.fresh,
      )

  released-Track :
      (n : Notify) (composite : ℕ) (b₀ : Broker Q) (hs : Dict ℕ) (g u : ℕ) (gs : List ℕ)
      (b b' : Broker Q)
      → contains g gs ≡ false
      → Track n composite b₀ hs (g ∷ gs) b
      → IsReleased g u b b'
      → holders_at g b' ≡ holders_at g b₀
      → Track n composite b₀ hs gs b'
  released-Track n composite b₀ hs g u gs b b' once track done back j = elim (Bool-cases (g == j)) [
    | inl same ↦ subst (TrackAt n composite b₀ hs gs b') (eq_of_test g j same) (inr (once, back))
    | inr other ↦ rollback_there n composite b₀ hs g j gs b b' other (done.others j other) (track j)
  ]

  track_first :
      (n : Notify) (composite : ℕ) (b₀ : Broker Q) (hs : Dict ℕ) (g : ℕ) (gs : List ℕ)
      (b : Broker Q)
      → TrackAt n composite b₀ hs (g ∷ gs) b g
      → Taken n.ws composite hs g (holders_at g b₀) (holders_at g b)
  track_first n composite b₀ hs g gs b (inl (_, t)) = t
  track_first n composite b₀ hs g gs b (inr (absent, _)) = absurd (ground arith)

  -- What the loop of `releaseMany` leaves of `b`, which is `b₀` with the keys taken.
  pub record IsRestored (b₀ b b' : Broker Q) : Type 0 where
    pub holders : (j : ℕ) → holders_at j b' ≡ holders_at j b₀
    pub composites : b'.composite_locks ≡ b.composite_locks

  pub release_keys-IsRestored :
      (e : Env) (fuel composite : ℕ) (n : Notify) (c : Composite) (ks : List ℕ) (b₀ b : Broker Q)
      → NoRepeat ks
      → Track n composite b₀ c.holder_uuids ks b
      → ((j : ℕ) → contains j ks ≡ true → waiting_at j b ≡ 0)
      → (b' : Broker Q) × (release_keys e (suc fuel) c ks b ≡ some b') × IsRestored b₀ b b'
  unfolding release_keys
  release_keys-IsRestored e fuel composite n c [] b₀ b once track quiet = (
    b,
    refl,
    record {
      holders = λ j. elim (track j) [ inl (in_list, t) ↦ cc | inr (_, same) ↦ same ];
      composites = refl;
    },
  )
  release_keys-IsRestored e fuel composite n c (k ∷ ks) b₀ b once track quiet =
      let t = track_first n composite b₀ c.holder_uuids k ks b (track k) in
      let (b₁, u, first, done, back) =
        release_key-restores e fuel n.ws composite c k (holders_at k b₀) b t
          (quiet k (rw (==_refl k) refl)) in
      let (b', rest, restored) =
        release_keys-IsRestored e fuel composite n c ks b₀ b₁ once.1
          (released-Track n composite b₀ c.holder_uuids k u ks b b₁ once.0 track done back)
          (λ j is_in. done.waiting j ∙ quiet j (ground arith)) in
      (
        b',
        rw (first, release_keys) rest,
        record { holders = restored.holders; composites = restored.composites ∙ done.composites },
      )
