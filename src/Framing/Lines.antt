-- ===== src/Framing/Lines.antt =====
-- Cutting a text into its lines and what follows the last delimiter.
use live_mutex.Prelude.{
  ℕ, ◌≡◌, ◌≢◌, refl, sym, ap, ◌∙◌, false, inl, inr, List, [], ◌∷◌, ◌++◌, arith, ◌==◌, if◌then◌else◌,
  All, contains, ==_refl, Bool-cases,
}
use live_mutex.Framing.{Text, extend, split, pop}

-- A line before all others, and a character before all others.
abbrev pub push : Text → List Text × Text → List Text × Text
push l (ls, tail) = (l ∷ ls, tail)

abbrev pub prepend : ℕ → List Text × Text → List Text × Text
prepend c ([], tail) = ([], c ∷ tail)
prepend c (l ∷ ls, tail) = ((c ∷ l) ∷ ls, tail)

-- The lines of a text, and the tail after its last delimiter.
pub cut : ℕ → Text → List Text × Text
cut d [] = ([], [])
cut d (c ∷ cs) = let r = cut d cs in if c == d then push [] r else prepend c r

extend-ne-nil : (c : ℕ) (ls : List Text) → extend c ls ≢ []
extend-ne-nil c [] h = cc
extend-ne-nil c (l ∷ ls) h = cc

split-ne-nil : (d : ℕ) (s : Text) → split d s ≢ []
unfolding split
split-ne-nil d [] = λ h. cc
split-ne-nil d (c ∷ cs) = elim (Bool-cases (c == d)) [
  | inl e ↦ rw e (λ h. cc)
  | inr e ↦ rw e (extend-ne-nil c (split d cs))
]

pop-cons : (l : Text) (ls : List Text) → ls ≢ [] → pop (l ∷ ls) ≡ push l (pop ls)
unfolding pop
pop-cons l [] ne = absurd (ne refl)
pop-cons l (m ∷ ls) ne = refl

pop-extend : (c : ℕ) (ls : List Text) → ls ≢ [] → pop (extend c ls) ≡ prepend c (pop ls)
unfolding pop
pop-extend c [] ne = absurd (ne refl)
pop-extend c (l ∷ []) ne = refl
pop-extend c (l ∷ m ∷ ls) ne = refl

-- `pop` of `split` is the cut.
pub pop-split : (d : ℕ) (s : Text) → pop (split d s) ≡ cut d s
unfolding split cut
pop-split d [] = unfold pop in refl
pop-split d (c ∷ cs) = elim (Bool-cases (c == d)) [
  | inl e ↦ rw e (pop-cons [] (split d cs) (split-ne-nil d cs) ∙ ap (push []) (pop-split d cs))
  | inr e ↦ rw e (pop-extend c (split d cs) (split-ne-nil d cs) ∙ ap (prepend c) (pop-split d cs))
]

-- The cut of a text and a continuation.
abbrev pub join : List Text → List Text × Text → List Text × Text
join ls (ms, tail) = (ls ++ ms, tail)

push-join : (ls : List Text) (r : List Text × Text) → push [] (join ls r) ≡ join ([] ∷ ls) r
push-join ls (ms, tail) = refl

prepend-join :
    (c : ℕ) (l : Text) (ls : List Text) (r : List Text × Text)
    → prepend c (join (l ∷ ls) r) ≡ join ((c ∷ l) ∷ ls) r
prepend-join c l ls (ms, tail) = refl

join-nil : (r : List Text × Text) → join [] r ≡ r
join-nil (ms, tail) = refl

-- A text cut in one piece is cut as its first part, and then as the rest with the tail that was kept.
pub cut-append : (d : ℕ) (s t : Text) → cut d (s ++ t) ≡ join (cut d s).0 (cut d ((cut d s).1 ++ t))
unfolding cut
cut-append d [] t = sym (join-nil (cut d t))
cut-append d (c ∷ s) t = elim (Bool-cases (c == d)) [
  | inl e ↦ rw e (ap (push []) (cut-append d s t) ∙ push-join (cut d s).0 _)
  | inr e ↦ rw e (ap (prepend c) (cut-append d s t) ∙ kept e (cut d s))
]
  where
    kept :
        (c == d) ≡ false
        → (r : List Text × Text)
        → prepend c (join r.0 (cut d (r.1 ++ t)))
          ≡ join (prepend c r).0 (cut d ((prepend c r).1 ++ t))
    kept e ([], tail) = rw e (ap (prepend c) (join-nil (cut d (tail ++ t))) ∙ sym (join-nil _))
    kept e (l ∷ ls, tail) = prepend-join c l ls (cut d (tail ++ t))

-- The lines, each with a delimiter behind it.
unfoldable pub encode : ℕ → List Text → Text
encode d [] = []
encode d (l ∷ ls) = l ++ d ∷ encode d ls

cut-line :
    (d : ℕ) (l rest : Text) → contains d l ≡ false → cut d (l ++ d ∷ rest) ≡ push l (cut d rest)
unfolding cut
cut-line d [] rest free = rw (==_refl d) refl
cut-line d (c ∷ l) rest free = elim (Bool-cases (c == d)) [
  | inl e ↦ absurd (ground arith)
  | inr e ↦ rw e (ap (prepend c) (cut-line d l rest (ground arith)))
]

-- Lines without a delimiter inside come back, with no tail.
pub cut-encode :
    (d : ℕ) (ls : List Text) → All (λ l. contains d l ≡ false) ls → cut d (encode d ls) ≡ (ls, [])
unfolding encode
cut-encode d [] free = unfold cut in refl
cut-encode d (l ∷ ls) free =
    cut-line d l (encode d ls) free.0 ∙ ap (push l) (cut-encode d ls free.1)
