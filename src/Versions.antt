-- ===== src/Versions.antt =====
-- src/compare-versions.ts: the check of a client's version against the broker's. A version is a text in
-- UTF-16 code units; `none` stands for a value that is not a string.
use live_mutex.Prelude.{
  ℕ, ◌-◌, ◌≡◌, ◌≢◌, refl, ap, ◌∙◌, Bool, true, false, inl, inr, ◌&&◌, Option, none, some, List, [],
  ◌∷◌, ◌++◌, arith, leb, ◌==◌, if◌then◌else◌, contains, ==_refl, Bool-cases,
}
use live_mutex.Framing.{Text, extend, split}

-- How the comparison comes out: it returns, or throws one of its errors, or fails on `minorA.charAt` where
-- there is no minor version.
pub data Verdict : Type 0 where
  compatible client_not_defined broker_not_defined majors_differ minors_differ no_minor : Verdict

abbrev dot : ℕ
dot = 46

-- `v && typeof v === 'string'`
abbrev is_defined : Option Text → Bool
is_defined none = false
is_defined (some []) = false
is_defined (some (c ∷ s)) = true

-- `const [major, minor] = v.split('.')`
abbrev major : List Text → Text
major [] = []
major (m ∷ ps) = m

abbrev minor : List Text → Option Text
minor [] = none
minor (m ∷ []) = none
minor (m ∷ n ∷ ps) = some n

-- `Number.parseInt(minor.charAt(0))`; `none` is `NaN`.
unfoldable pub first_digit : Text → Option ℕ
first_digit [] = none
first_digit (c ∷ s) = if leb 48 c && leb c 57 then some (c - 48) else none

-- The comparison of texts by `!==`.
unfoldable pub same_text : Text → Text → Bool
same_text [] [] = true
same_text [] (d ∷ t) = false
same_text (c ∷ s) [] = false
same_text (c ∷ s) (d ∷ t) = c == d && same_text s t

-- `Math.abs(a - b) > 0`, which is false if one of them is `NaN`.
abbrev digits_differ : Option ℕ → Option ℕ → Bool
digits_differ none b = false
digits_differ (some m) none = false
digits_differ (some m) (some n) = if m == n then false else true

unfoldable pub compare_minors : Option Text → Option Text → Verdict
unfolding first_digit
compare_minors none b = no_minor
compare_minors (some a) none = no_minor
compare_minors (some a) (some b) =
    if digits_differ (first_digit a) (first_digit b) then minors_differ else compatible

unfoldable pub compare_parts : List Text → List Text → Verdict
unfolding same_text compare_minors
compare_parts as_ bs =
    if same_text (major as_) (major bs)
    then compare_minors (minor as_) (minor bs)
    else majors_differ

abbrev or_empty : Option Text → Text
or_empty none = []
or_empty (some s) = s

unfoldable pub compare_versions : Option Text → Option Text → Verdict
unfolding compare_parts
compare_versions client broker =
    if is_defined client
    then (if is_defined broker
        then compare_parts (split dot (or_empty client)) (split dot (or_empty broker))
        else broker_not_defined)
    else client_not_defined

same_text_refl : (s : Text) → same_text s s ≡ true
unfolding same_text
same_text_refl [] = refl
same_text_refl (c ∷ s) = rw (==_refl c) (same_text_refl s)

same_text_sym : (s t : Text) → same_text s t ≡ same_text t s
unfolding same_text
same_text_sym [] [] = refl
same_text_sym [] (d ∷ t) = refl
same_text_sym (c ∷ s) [] = refl
same_text_sym (c ∷ s) (d ∷ t) = ground (arith, same_text_sym s t)

digits_differ_sym : (a b : Option ℕ) → digits_differ a b ≡ digits_differ b a
digits_differ_sym none none = refl
digits_differ_sym none (some n) = refl
digits_differ_sym (some m) none = refl
digits_differ_sym (some m) (some n) = ground arith

compare_minors_sym : (a b : Option Text) → compare_minors a b ≡ compare_minors b a
unfolding compare_minors
compare_minors_sym none none = refl
compare_minors_sym none (some t) = refl
compare_minors_sym (some s) none = refl
compare_minors_sym (some s) (some t) = rw (digits_differ_sym (first_digit s) (first_digit t)) refl

compare_parts_sym : (a b : List Text) → compare_parts a b ≡ compare_parts b a
unfolding compare_parts
compare_parts_sym a b =
    rw (same_text_sym (major a) (major b), compare_minors_sym (minor a) (minor b)) refl

-- Between two strings that are not empty it does not matter which is the client's.
pub compare_versions_sym :
    (a b : Text)
    → a ≢ []
    → b ≢ []
    → compare_versions (some a) (some b) ≡ compare_versions (some b) (some a)
unfolding compare_versions
compare_versions_sym [] b full full' = absurd (full refl)
compare_versions_sym (c ∷ a) [] full full' = absurd (full' refl)
compare_versions_sym (c ∷ a) (d ∷ b) full full' =
    compare_parts_sym (split dot (c ∷ a)) (split dot (d ∷ b))

split-part :
    (d : ℕ) (l rest : Text) → contains d l ≡ false → split d (l ++ d ∷ rest) ≡ l ∷ split d rest
unfolding split
split-part d [] rest free = rw (==_refl d) refl
split-part d (c ∷ l) rest free = elim (Bool-cases (c == d)) [
  | inl e ↦ absurd (ground arith)
  | inr e ↦ rw e (ap (extend c) (split-part d l rest (ground arith)))
]

digits_alike : (d : Option ℕ) → digits_differ d d ≡ false
digits_alike none = refl
digits_alike (some n) = rw (==_refl n) refl

same_start :
    (m x y : Text) (ps qs : List Text) (c : ℕ)
    → compare_parts (m ∷ (c ∷ x) ∷ ps) (m ∷ (c ∷ y) ∷ qs) ≡ compatible
unfolding compare_parts first_digit
same_start m x y ps qs c =
    rw (same_text_refl m)
      (rw (digits_alike (if leb 48 c && leb c 57 then some (c - 48) else none)) refl)

-- Two versions `m.x.…` and `m.y.…` whose minor versions begin with the same character are compatible, so
-- minor versions of more than one digit are not told apart by the others.
pub compare_versions-first_digit :
    (m x y rest rest' : Text) (c : ℕ)
    → m ≢ []
    → contains dot m ≡ false
    → contains dot (c ∷ x) ≡ false
    → contains dot (c ∷ y) ≡ false
    → compare_versions
        (some (m ++ dot ∷ ((c ∷ x) ++ dot ∷ rest)))
        (some (m ++ dot ∷ ((c ∷ y) ++ dot ∷ rest')))
      ≡ compatible
unfolding compare_versions
compare_versions-first_digit [] x y rest rest' c full free free_x free_y = absurd (full refl)
compare_versions-first_digit (a ∷ m) x y rest rest' c full free free_x free_y =
    let first =
      split-part dot (a ∷ m) ((c ∷ x) ++ dot ∷ rest) free
      ∙ ap (λ ps. (a ∷ m) ∷ ps) (split-part dot (c ∷ x) rest free_x) in
    let second =
      split-part dot (a ∷ m) ((c ∷ y) ++ dot ∷ rest') free
      ∙ ap (λ ps. (a ∷ m) ∷ ps) (split-part dot (c ∷ y) rest' free_y) in
    ap (λ ps. compare_parts ps (split dot ((a ∷ m) ++ dot ∷ ((c ∷ y) ++ dot ∷ rest')))) first
    ∙ ap (compare_parts ((a ∷ m) ∷ (c ∷ x) ∷ split dot rest)) second
    ∙ same_start (a ∷ m) x y (split dot rest) (split dot rest') c
