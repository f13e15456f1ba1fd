-- ===== src/Broker/Atomic/Keys.antt =====
-- `acquireMany` works on the keys of its request in ascending order, each once.
use live_mutex.Prelude.{
  ℕ, ◌<◌, ◌≡◌, ◌≢◌, refl, ap, sym, subst, ◌∙◌, true, false, inl, inr, Option, none, some, List, [],
  ◌∷◌, arith, ◌==◌, if◌then◌else◌, All, contains, Option-cases,
}
use live_mutex.Broker.Composite.{RawKey, key_strings, insert_key, sorted_keys, validate_keys}
use live_mutex.Broker.Atomic.{NoRepeat}

-- Each key is less than all that follow.
abbrev pub IsAscending : List ℕ → Type 0
IsAscending [] = Unit
IsAscending (x ∷ xs) = All (λ y. x < y) xs × IsAscending xs

All-trans : (x y : ℕ) (zs : List ℕ) → x < y → All (λ z. y < z) zs → All (λ z. x < z) zs
All-trans x y [] lt all = tt
All-trans x y (z ∷ zs) lt all = (omega (arith, all.0), All-trans x y zs lt all.1)

All-insert_key :
    (x k : ℕ) (ks : List ℕ) → x < k → All (λ z. x < z) ks → All (λ z. x < z) (insert_key k ks)
unfolding insert_key
All-insert_key x k [] lt all = (lt, tt)
All-insert_key x k (j ∷ js) lt all = ground (arith, All-insert_key x k js lt all.1)

insert_key-IsAscending : (k : ℕ) (ks : List ℕ) → IsAscending ks → IsAscending (insert_key k ks)
unfolding insert_key
insert_key-IsAscending k [] asc = (tt, tt)
insert_key-IsAscending k (j ∷ js) asc =
    ground (arith, All-trans k j js, All-insert_key j k js, insert_key-IsAscending k js asc.1)

sorted_keys-IsAscending : (ks : List ℕ) → IsAscending (sorted_keys ks)
unfolding sorted_keys
sorted_keys-IsAscending [] = tt
sorted_keys-IsAscending (k ∷ ks) =
    insert_key-IsAscending k (sorted_keys ks) (sorted_keys-IsAscending ks)

contains-insert_key :
    (x k : ℕ) (ks : List ℕ)
    → contains x (insert_key k ks) ≡ (if x == k then true else contains x ks)
unfolding insert_key
contains-insert_key x k [] = refl
contains-insert_key x k (j ∷ js) = ground (arith, contains-insert_key x k js)

contains-sorted_keys : (x : ℕ) (ks : List ℕ) → contains x (sorted_keys ks) ≡ contains x ks
unfolding sorted_keys
contains-sorted_keys x [] = refl
contains-sorted_keys x (k ∷ ks) =
    contains-insert_key x k (sorted_keys ks) ∙ ground (arith, contains-sorted_keys x ks)

sorted_of_valid :
    (raw : List RawKey) (keys : List ℕ)
    → validate_keys (some raw) ≡ some keys
    → (given : List ℕ) × (key_strings raw ≡ some given) × (sorted_keys given ≡ keys)
unfolding validate_keys
sorted_of_valid raw keys valid = elim (Option-cases (key_strings raw)) [
  | inl bad ↦ absurd (ground arith)
  | inr (given, good) ↦ (given, good, ground arith)
]

-- If a request passes the checks, the keys that it is about are in strictly ascending order, so none
-- stands twice, and a key is among them exactly when it is in the array of the request.
pub validate_keys-IsAscending :
    (raw : List RawKey) (keys : List ℕ)
    → validate_keys (some raw) ≡ some keys
    → (given : List ℕ) × (key_strings raw ≡ some given)
      × IsAscending keys
      × ((x : ℕ) → contains x keys ≡ contains x given)
validate_keys-IsAscending raw keys valid =
    let (given, good, same) = sorted_of_valid raw keys valid in
    (
      given,
      good,
      subst IsAscending same (sorted_keys-IsAscending given),
      λ x. ap (contains x) (sym same) ∙ contains-sorted_keys x given,
    )

not-contains_of_lt : (x : ℕ) (ys : List ℕ) → All (λ y. x < y) ys → contains x ys ≡ false
not-contains_of_lt x [] all = refl
not-contains_of_lt x (y ∷ ys) all = ground (arith, not-contains_of_lt x ys all.1)

NoRepeat-of_ascending : (xs : List ℕ) → IsAscending xs → NoRepeat xs
NoRepeat-of_ascending [] asc = tt
NoRepeat-of_ascending (x ∷ xs) asc = (not-contains_of_lt x xs asc.0, NoRepeat-of_ascending xs asc.1)

not_array : (keys : List ℕ) → validate_keys none ≢ some keys
unfolding validate_keys
not_array keys valid = cc

pub validate_keys-NoRepeat :
    (raw : Option (List RawKey)) (keys : List ℕ) → validate_keys raw ≡ some keys → NoRepeat keys
validate_keys-NoRepeat none keys valid = absurd (not_array keys valid)
validate_keys-NoRepeat (some raw) keys valid =
    NoRepeat-of_ascending keys (validate_keys-IsAscending raw keys valid).2
