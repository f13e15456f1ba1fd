-- ===== src/Broker/Atomic.antt =====
-- `acquire-many` takes all of its keys or none: what an attempt did to the holders of each key, and
-- that the rollback of `acquireMany` undoes it.
pub mod Keys
pub mod Attempts
pub mod Requests
pub mod Release
pub mod Roundtrip
use mathlib.Core.List.{append_assoc}
use live_mutex.Prelude.{
  ℕ, suc, ◌+◌, ◌≤◌, ◌<◌, ◌≡◌, ◌≢◌, refl, sym, ap, subst, ◌∙◌, ◌⊎◌, inl, inr, Bool, true, false,
  Option, none, some, List, [], ◌∷◌, ◌++◌, arith, leb, ◌==◌, ==_refl, if◌then◌else◌, contains,
  Bool-cases, Option-cases,
}
use live_mutex.Dict.{Dict, get, set, erase, has, get-set, get-set_self, get-set_ne, erase-set_new}
use live_mutex.LinkedQueue.{LinkedQueue, Notify}
use live_mutex.Broker.Types.{Env, Holder, LockObj, Broker}
use live_mutex.Broker.Grant.{expiry, new_holder, default_lock_object}
use live_mutex.Broker.Attempt.{
  Attempt, start, provisional_grant, drop_holder, rollback_key, rollback, lock_or_default,
  is_contended, grab_keys,
}

-- No key twice.
abbrev pub NoRepeat : List ℕ → Type 0
NoRepeat [] = Unit
NoRepeat (x ∷ xs) = (contains x xs ≡ false) × NoRepeat xs

has_of_get : (u : ℕ) (h : Holder) (d : Dict Holder) → get u d ≡ some h → has u d ≡ true
has_of_get u h d e = ground arith

pub set-ne-nil : (u : ℕ) (h : Holder) (d : Dict Holder) → set u h d ≢ []
unfolding set
set-ne-nil u h [] e = cc
set-ne-nil u h ((v, g) ∷ d) e = ground arith

-- The holders of a key; none if it has no lock object.
abbrev pub holders_in : {Q : Type 0} → ℕ → Dict (LockObj Q) → Dict Holder
holders_in k d = elim (get k d) [ none ↦ [] | some l ↦ l.lockholders ]

abbrev pub holders_at : {Q : Type 0} → ℕ → Broker Q → Dict Holder
holders_at k b = holders_in k b.locks

pub eq_of_test : (a b : ℕ) → (a == b) ≡ true → a ≡ b
eq_of_test a b h = ground arith

pub ne_of_test : (a b : ℕ) → (a == b) ≡ false → b ≢ a
ne_of_test a b h = ground arith

pub contains-append :
    (x y : ℕ) (xs : List ℕ) → contains x (xs ++ y ∷ []) ≡ (if x == y then true else contains x xs)
contains-append x y [] = refl
contains-append x y (z ∷ xs) = ground (arith, contains-append x y xs)

pub NoRepeat-prefix : (xs ys : List ℕ) → NoRepeat (xs ++ ys) → NoRepeat xs
NoRepeat-prefix [] ys h = tt
NoRepeat-prefix (x ∷ xs) ys h = (not_in xs h.0, NoRepeat-prefix xs ys h.1)
  where
    not_in : (zs : List ℕ) → contains x (zs ++ ys) ≡ false → contains x zs ≡ false
    not_in [] e = refl
    not_in (z ∷ zs) e = ground (arith, not_in zs)

pub not-contains-middle : (x : ℕ) (xs ys : List ℕ) → NoRepeat (xs ++ x ∷ ys) → contains x xs ≡ false
not-contains-middle x [] ys h = refl
not-contains-middle x (z ∷ xs) ys h =
    ground (arith, not-contains-middle x xs ys h.1, contains-mid z xs h.0)
  where
    contains-mid : (z : ℕ) (zs : List ℕ) → contains z (zs ++ x ∷ ys) ≡ false → (z == x) ≡ false
    contains-mid z [] e = ground arith
    contains-mid z (w ∷ zs) e = ground (arith, contains-mid z zs)

-- The attempt of socket `ws` under `composite` has taken `j`: the holders were `before`, and now there is
-- one more, under the uuid that `hs` has for `j`.
pub record Taken (ws composite : ℕ) (hs : Dict ℕ) (j : ℕ) (before now : Dict Holder) : Type 0 where
  pub uuid : ℕ
  pub holder : Holder
  pub known : get j hs ≡ some uuid
  pub fresh : get uuid before ≡ none
  pub held : now ≡ set uuid holder before
  pub socket : holder.ws ≡ ws
  pub member : holder.composite_lock_uuid ≡ some composite

-- `b` is `b₀` with the keys of `taken` taken.
module _ {Q : Type 0} where
  pub holders_in-set :
      (j k : ℕ) (l : LockObj Q) (d : Dict (LockObj Q))
      → holders_in j (set k l d) ≡ (if k == j then l.lockholders else holders_in j d)
  holders_in-set j k l d = ground (arith, get-set j k l d)

  -- What an attempt did to the holders of `j`: they are those of `b₀`, with one more if `j` is among
  -- the keys `taken`.
  abbrev pub TrackAt : Notify → ℕ → Broker Q → Dict ℕ → List ℕ → Broker Q → ℕ → Type 0
  TrackAt n composite b₀ hs taken b j =
      ((contains j taken ≡ true) × Taken n.ws composite hs j (holders_at j b₀) (holders_at j b))
      ⊎ ((contains j taken ≡ false) × (holders_at j b ≡ holders_at j b₀))

  abbrev pub Track : Notify → ℕ → Broker Q → Dict ℕ → List ℕ → Broker Q → Type 0
  Track n composite b₀ hs taken b = (j : ℕ) → TrackAt n composite b₀ hs taken b j

  rollback_key-drops :
      (hs : Dict ℕ) (g u : ℕ) (l : LockObj Q) (b : Broker Q)
      → get g b.locks ≡ some l
      → get g hs ≡ some u
      → has u l.lockholders ≡ true
      → rollback_key hs g b ≡ drop_holder g l u b
  unfolding rollback_key
  rollback_key-drops hs g u l b found known held =
      rw (found, rollback_key) (rw (known, rollback_key) (rw held refl))

  rollback_key-others :
      (hs : Dict ℕ) (g j : ℕ) (b : Broker Q)
      → (g == j) ≡ false
      → holders_at j (rollback_key hs g b) ≡ holders_at j b
  unfolding rollback_key
  rollback_key-others hs g j b ne = elim (Option-cases (get g b.locks)) [
    | inl absent ↦ rw (absent, rollback_key) refl
    | inr (l, found) ↦ elim (Option-cases (get g hs)) [
      | inl unknown ↦ rw (found, rollback_key) (rw (unknown, rollback_key) refl)
      | inr (u, known) ↦ elim (Bool-cases (has u l.lockholders)) [
        | inl held ↦
            ap (holders_at j) (rollback_key-drops hs g u l b found known held)
            ∙ holders_in-set j g (record l { lockholders = erase u l.lockholders }) b.locks
            ∙ rw ne refl
        | inr gone ↦ rw (found, rollback_key) (rw (known, rollback_key) (rw gone refl))
      ]
    ]
  ]

  -- The rollback of a key that was taken puts its holders back.
  rollback_key-restores :
      (n : Notify) (composite : ℕ) (hs : Dict ℕ) (g : ℕ) (before : Dict Holder) (b : Broker Q)
      → Taken n.ws composite hs g before (holders_at g b)
      → holders_at g (rollback_key hs g b) ≡ before
  rollback_key-restores n composite hs g before b t = elim (Option-cases (get g b.locks)) [
    | inl absent ↦
        absurd (set-ne-nil t.uuid t.holder before (sym t.held ∙ rw (absent, holders_in) refl))
    | inr (l, found) ↦
        let holds : l.lockholders ≡ set t.uuid t.holder before =
          sym (rw (found, holders_in) refl) ∙ t.held in
        let held : get t.uuid l.lockholders ≡ some t.holder =
          ap (get t.uuid) holds ∙ get-set_self t.uuid t.holder before in
        ap (holders_at g) (
          rollback_key-drops hs g t.uuid l b found t.known (has_of_get t.uuid _ l.lockholders held))
        ∙ holders_in-set g g (record l { lockholders = erase t.uuid l.lockholders }) b.locks
        ∙ rw (==_refl g) (ap (erase t.uuid) holds ∙ erase-set_new t.uuid t.holder before t.fresh)
  ]

  rollback_here :
      (n : Notify) (composite : ℕ) (b₀ : Broker Q) (hs : Dict ℕ) (g : ℕ) (gs : List ℕ)
      (b : Broker Q)
      → TrackAt n composite b₀ hs (g ∷ gs) b g
      → holders_at g (rollback_key hs g b) ≡ holders_at g b₀
  rollback_here n composite b₀ hs g gs b (inl (_, t)) =
      rollback_key-restores n composite hs g (holders_at g b₀) b t
  rollback_here n composite b₀ hs g gs b (inr (absent, _)) = absurd (ground arith)

  pub rollback_there :
      (n : Notify) (composite : ℕ) (b₀ : Broker Q) (hs : Dict ℕ) (g j : ℕ) (gs : List ℕ)
      (b b' : Broker Q)
      → (g == j) ≡ false
      → holders_at j b' ≡ holders_at j b
      → TrackAt n composite b₀ hs (g ∷ gs) b j
      → TrackAt n composite b₀ hs gs b' j
  rollback_there n composite b₀ hs g j gs b b' other same (inl (in_list, t)) =
      inl (ground arith, subst (Taken n.ws composite hs j (holders_at j b₀)) (sym same) t)
  rollback_there n composite b₀ hs g j gs b b' other same (inr (absent, e)) =
      inr (ground arith, same ∙ e)

  rollback_key-Track :
      (n : Notify) (composite : ℕ) (b₀ : Broker Q) (hs : Dict ℕ) (g : ℕ) (gs : List ℕ)
      (b : Broker Q)
      → contains g gs ≡ false
      → Track n composite b₀ hs (g ∷ gs) b
      → Track n composite b₀ hs gs (rollback_key hs g b)
  rollback_key-Track n composite b₀ hs g gs b once track j = elim (Bool-cases (g == j)) [
    | inl same ↦
        subst (TrackAt n composite b₀ hs gs (rollback_key hs g b)) (eq_of_test g j same)
          (inr (once, rollback_here n composite b₀ hs g gs b (track g)))
    | inr other ↦
        rollback_there n composite b₀ hs g j gs b (rollback_key hs g b) other
          (rollback_key-others hs g j b other) (track j)
  ]

  -- The rollback of all keys that were taken puts every holder back.
  pub rollback-restores :
      (n : Notify) (composite : ℕ) (b₀ : Broker Q) (hs : Dict ℕ) (gs : List ℕ) (b : Broker Q)
      → NoRepeat gs
      → Track n composite b₀ hs gs b
      → (j : ℕ) → holders_at j (rollback hs gs b) ≡ holders_at j b₀
  unfolding rollback
  rollback-restores n composite b₀ hs [] b once track j = elim (track j) [
    | inl (in_list, t) ↦ cc
    | inr (_, same) ↦ same
  ]
  rollback-restores n composite b₀ hs (g ∷ gs) b once track j =
      rollback-restores n composite b₀ hs gs (rollback_key hs g b) once.1
        (rollback_key-Track n composite b₀ hs g gs b once.0 track) j
