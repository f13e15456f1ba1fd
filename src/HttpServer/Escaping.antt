-- ===== src/HttpServer/Escaping.antt =====
-- What `esc` of src/http-server.ts lets through.
use live_mutex.Prelude.{
  ℕ, ◌≡◌, ◌≢◌, refl, subst, sym, ap, ◌∙◌, [], ◌∷◌, ◌++◌, arith, ◌==◌, if◌then◌else◌, All,
}
use mathlib.Core.List.{append_assoc}
use live_mutex.Framing.{Text}
use live_mutex.HttpServer.{replace, amp, lt, gt, quot, apos, esc}

replace-append : (c : ℕ) (t s s' : Text) → replace c t (s ++ s') ≡ replace c t s ++ replace c t s'
unfolding replace
replace-append c t [] s' = refl
replace-append c t (x ∷ s) s' =
    ap (λ r. (if x == c then t else x ∷ []) ++ r) (replace-append c t s s')
    ∙ sym (append_assoc (if x == c then t else x ∷ []) (replace c t s) (replace c t s'))

esc-append : (s s' : Text) → esc (s ++ s') ≡ esc s ++ esc s'
unfolding esc
esc-append s s' =
    let (a, a') : Text × Text = (replace 38 amp s, replace 38 amp s') in
    let (b, b') : Text × Text = (replace 60 lt a, replace 60 lt a') in
    let (c, c') : Text × Text = (replace 62 gt b, replace 62 gt b') in
    let (d, d') : Text × Text = (replace 34 quot c, replace 34 quot c') in
    ap (λ x. replace 39 apos (replace 34 quot (replace 62 gt (replace 60 lt x))))
      (replace-append 38 amp s s')
    ∙ ap (λ x. replace 39 apos (replace 34 quot (replace 62 gt x))) (replace-append 60 lt a a')
    ∙ ap (λ x. replace 39 apos (replace 34 quot x)) (replace-append 62 gt b b')
    ∙ ap (λ x. replace 39 apos x) (replace-append 34 quot c c')
    ∙ replace-append 39 apos d d'

-- The text for one character.
abbrev pub entity : ℕ → Text
entity c =
    if c == 38
    then amp
    else (if c == 60
        then lt
        else (if c == 62
            then gt
            else (if c == 34 then quot else (if c == 39 then apos else c ∷ []))))

-- Each character becomes its entity, in one pass.
pub escape_each : Text → Text
escape_each [] = []
escape_each (c ∷ s) = entity c ++ escape_each s

-- No character that opens or closes a tag or an attribute.
abbrev pub IsInert : Text → Type 0
IsInert s = All (λ c. (c ≢ 60) × (c ≢ 62) × (c ≢ 34) × (c ≢ 39)) s

esc_one : (c : ℕ) → esc (c ∷ []) ≡ entity c
unfolding esc replace
esc_one c = ground arith

entity-IsInert : (c : ℕ) → IsInert (entity c)
entity-IsInert c = ground arith

append-IsInert : (s s' : Text) → IsInert s → IsInert s' → IsInert (s ++ s')
append-IsInert [] s' h h' = h'
append-IsInert (c ∷ s) s' h h' = (h.0, append-IsInert s s' h.1 h')

escape_each-IsInert : (s : Text) → IsInert (escape_each s)
unfolding escape_each
escape_each-IsInert [] = tt
escape_each-IsInert (c ∷ s) =
    append-IsInert (entity c) (escape_each s) (entity-IsInert c) (escape_each-IsInert s)

esc-escape_each : (s : Text) → esc s ≡ escape_each s
unfolding esc replace escape_each
esc-escape_each [] = refl
esc-escape_each (c ∷ s) =
    esc-append (c ∷ []) s
    ∙ ap (λ t. t ++ esc s) (esc_one c)
    ∙ ap (λ t. entity c ++ t) (esc-escape_each s)

-- Each character becomes its entity or stays, the five that matter in HTML and no others, and the result has no
-- character that opens or closes a tag or the value of an attribute.
pub esc-IsInert : (s : Text) → (esc s ≡ escape_each s) × IsInert (esc s)
esc-IsInert s = (esc-escape_each s, subst IsInert (sym (esc-escape_each s)) (escape_each-IsInert s))
