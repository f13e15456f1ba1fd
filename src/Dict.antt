-- ===== src/Dict.antt =====
-- A JavaScript `Map` in insertion order, as an association list. Keys are numbers (see Lib).
use live_mutex.Prelude.{
  ℕ, ◌+◌, ◌≤◌, ◌≡◌, ◌≢◌, refl, Bool, true, false, Option, none, some, List, [], ◌∷◌, arith, ◌==◌,
  if◌then◌else◌, length, suc, inl, inr, ap, Bool-cases, ==_refl,
}

abbrev pub Dict {ℓ} : Type ℓ → Type ℓ
Dict V = List (ℕ × V)

module _ {ℓ} {V : Type ℓ} where
  -- `m.get(k)`
  unfoldable pub get : ℕ → Dict V → Option V
  get k [] = none
  get k ((j, v) ∷ d) = if k == j then some v else get k d

  -- `m.set(k, v)`: a new key goes to the end.
  unfoldable pub set : ℕ → V → Dict V → Dict V
  set k v [] = (k, v) ∷ []
  set k v ((j, w) ∷ d) = if k == j then (k, v) ∷ d else (j, w) ∷ set k v d

  -- `m.delete(k)`
  unfoldable pub erase : ℕ → Dict V → Dict V
  erase k [] = []
  erase k ((j, w) ∷ d) = if k == j then d else (j, w) ∷ erase k d

  -- `m.has(k)`
  abbrev pub has : ℕ → Dict V → Bool
  has k d = elim (get k d) [ none ↦ false | some _ ↦ true ]

  -- `m.size`
  abbrev pub size : Dict V → ℕ
  size d = length d

  -- A statement of every entry.
  abbrev pub AllEntries {κ} : (ℕ → V → Type κ) → Dict V → Type κ
  AllEntries P [] = Unit
  AllEntries P ((k, v) ∷ d) = P k v × AllEntries P d

  pub get-set :
      (j k : ℕ) (v : V) (d : Dict V) → get j (set k v d) ≡ (if k == j then some v else get j d)
  unfolding get set
  get-set j k v [] = ground arith
  get-set j k v ((i, w) ∷ d) = ground (arith, get-set j k v d)

  pub get-set_self : (k : ℕ) (v : V) (d : Dict V) → get k (set k v d) ≡ some v
  get-set_self k v d = ground (arith, get-set k k v d)

  pub get-set_ne : (j k : ℕ) (v : V) (d : Dict V) → j ≢ k → get j (set k v d) ≡ get j d
  get-set_ne j k v d h = ground (arith, get-set j k v d)

  pub get-erase_ne : (j k : ℕ) (d : Dict V) → j ≢ k → get j (erase k d) ≡ get j d
  unfolding get erase
  get-erase_ne j k [] h = refl
  get-erase_ne j k ((i, w) ∷ d) h = ground (arith, get-erase_ne j k d h)

  pub size-set-le : (k : ℕ) (v : V) (d : Dict V) → size (set k v d) ≤ size d + 1
  unfolding set
  size-set-le k v [] = omega arith
  size-set-le k v ((i, w) ∷ d) = ground (arith, size-set-le k v d)

  pub size-erase-le : (k : ℕ) (d : Dict V) → size (erase k d) ≤ size d
  unfolding erase
  size-erase-le k [] = omega arith
  size-erase-le k ((i, w) ∷ d) = ground (arith, size-erase-le k d)

  -- A new key adds one entry, which `erase` takes away again.
  pub erase-set_new : (k : ℕ) (v : V) (d : Dict V) → get k d ≡ none → erase k (set k v d) ≡ d
  unfolding get set erase
  erase-set_new k v [] h = ground arith
  erase-set_new k v ((i, w) ∷ d) h = ground (arith, erase-set_new k v d)

  module _ {κ} (P : ℕ → V → Type κ) where
    pub AllEntries-get : (k : ℕ) (v : V) (d : Dict V) → AllEntries P d → get k d ≡ some v → P k v
    unfolding get
    AllEntries-get k v [] all h = ground arith
    AllEntries-get k v ((i, w) ∷ d) all h = ground (arith, AllEntries-get k v d all.1)

    pub AllEntries-set :
        (k : ℕ) (v : V) (d : Dict V) → AllEntries P d → P k v → AllEntries P (set k v d)
    unfolding set
    AllEntries-set k v [] all p = (p, tt)
    AllEntries-set k v ((i, w) ∷ d) all p = ground (arith, AllEntries-set k v d all.1 p)

    pub AllEntries-erase : (k : ℕ) (d : Dict V) → AllEntries P d → AllEntries P (erase k d)
    unfolding erase
    AllEntries-erase k [] all = tt
    AllEntries-erase k ((i, w) ∷ d) all = ground (arith, AllEntries-erase k d all.1)

eq_of : (a b : ℕ) → (a == b) ≡ true → a ≡ b
eq_of a b h = ground arith

-- How often `u` stands before an entry.
abbrev pub times {ℓ} : {A : Type ℓ} → ℕ → List (ℕ × A) → ℕ
times u [] = 0
times u ((v, a) ∷ xs) = if u == v then suc (times u xs) else times u xs

-- `u`, once, if it is the number given.
abbrev pub asked : ℕ → Option ℕ → ℕ
asked u none = 0
asked u (some v) = if u == v then 1 else 0

module _ {ℓ} {A : Type ℓ} where
  pub times-set :
      (u v : ℕ) (a : A) (d : Dict A)
      → times v d ≡ 0
      → times u (set v a d) ≡ times u d + asked u (some v)
  unfolding set
  times-set u v a [] new = ground arith
  times-set u v a ((w, b) ∷ d) new = ground (arith, times-set u v a d)

  pub times-erase :
      (u v : ℕ) (a : A) (d : Dict A)
      → get v d ≡ some a
      → times u (erase v d) + asked u (some v) ≡ times u d
  unfolding get erase
  times-erase u v a [] found = ground arith
  times-erase u v a ((w, b) ∷ d) found = ground (arith, times-erase u v a d)

  pub erase-new : (v : ℕ) (d : Dict A) → times v d ≡ 0 → erase v d ≡ d
  unfolding erase
  erase-new v [] new = refl
  erase-new v ((w, b) ∷ d) new = elim (Bool-cases (v == w)) [
    | inl same ↦ absurd (ground arith)
    | inr other ↦ rw other (ap (λ x. (w, b) ∷ x) (erase-new v d (ground arith)))
  ]

  pub erase-head : (v : ℕ) (b : A) (d : Dict A) → erase v ((v, b) ∷ d) ≡ d
  unfolding erase
  erase-head v b d = rw (==_refl v) refl

  pub times-get : (v : ℕ) (a : A) (d : Dict A) → get v d ≡ some a → 1 ≤ times v d
  unfolding get
  times-get v a [] found = ground arith
  times-get v a ((w, b) ∷ d) found = ground (arith, times-get v a d)

  -- Keys that stand once still do after a write or a deletion.
  times-set_ne : (u v : ℕ) (a : A) (d : Dict A) → u ≢ v → times u (set v a d) ≡ times u d
  unfolding set
  times-set_ne u v a [] other = ground arith
  times-set_ne u v a ((w, b) ∷ d) other = ground (arith, times-set_ne u v a d)

  times-set_self : (v : ℕ) (a : A) (d : Dict A) → times v d ≤ 1 → times v (set v a d) ≤ 1
  unfolding set
  times-set_self v a [] once = ground arith
  times-set_self v a ((w, b) ∷ d) once = ground (arith, times-set_self v a d)

  pub times-set_once : (u v : ℕ) (a : A) (d : Dict A) → times u d ≤ 1 → times u (set v a d) ≤ 1
  times-set_once u v a d once = elim (Bool-cases (u == v)) [
    | inl same ↦ ground (
      arith,
      times-set_self v a d,
      ap (λ x. times x (set v a d)) (eq_of u v same),
      ap (λ x. times x d) (eq_of u v same),
    )
    | inr other ↦ ground (arith, times-set_ne u v a d)
  ]

  pub times-erase-le : (u v : ℕ) (d : Dict A) → times u (erase v d) ≤ times u d
  unfolding erase
  times-erase-le u v [] = omega arith
  times-erase-le u v ((w, b) ∷ d) = ground (arith, times-erase-le u v d)

  pub get-erase-some :
      (j k : ℕ) (a : A) (d : Dict A) → times k d ≤ 1 → get j (erase k d) ≡ some a → get j d ≡ some a
  unfolding get erase
  get-erase-some j k a [] once found = found
  get-erase-some j k a ((w, b) ∷ d) once found = elim (Bool-cases (k == w)) [
    | inl here ↦ elim (Bool-cases (j == w)) [
      | inl same ↦ absurd (
          ground (
            arith,
            times-get j a d,
            ap (λ x. times x d) (eq_of k w here),
            ap (λ x. times x d) (eq_of j w same),
          ))
      | inr other ↦ ground arith
    ]
    | inr there ↦ ground (arith, get-erase-some j k a d)
  ]
