-- ===== src/Client/Failures.antt =====
-- The loops of src/client.ts that end all requests (`_fireCallbacksPrematurely`, `recover`), without what their callbacks do.
use live_mutex.Prelude.{
  ℕ, ◌+◌, ◌≤◌, ◌≡◌, refl, sym, ap, subst, ◌∙◌, ◌⊎◌, Bool, true, false, inl, inr, none, [], ◌∷◌,
  arith, if◌then◌else◌, add, contains,
}
use live_mutex.Dict.{Dict, erase, times, erase-new, erase-head}
use live_mutex.Client.{
  Pending, premature, call_back, Client, clean_up_request, fail_each, fire_callbacks_prematurely,
  give_up_all,
}
use live_mutex.Client.Tables.{IsGiven, Keeps, if-Keeps, IsSound, contains-add, same-Keeps}

-- `_fireCallbacksPrematurely` and `recover` empty the tables, and call every callback.
pub record IsFailed (d : Dict Pending) (c c' : Client) : Type 0 where
  pub all_told : (u : ℕ) → times u c'.settled ≡ times u d + times u c.settled
  pub no_resolution : c'.resolutions ≡ []
  pub no_timer : c'.timers ≡ []
  pub still_given : IsGiven c'

erase-twice :
    (v : ℕ) (r : Pending) (x d : Dict Pending)
    → x ≡ (v, r) ∷ d
    → times v d ≡ 0
    → erase v (erase v x) ≡ d
erase-twice v r x d same new =
    ap (λ y. erase v (erase v y)) same ∙ ap (erase v) (erase-head v r d) ∙ erase-new v d new

given_up :
    (g : Bool) (v : ℕ) (p : Pending) (c : Client)
    → IsGiven c
    → (u : ℕ) → contains u (if g then add v c.giveups else c.giveups) ≡ true
    → 1 ≤ times u ((v, premature p) ∷ c.settled)
given_up true v p c given u h = ground (arith, given u, contains-add u v c.giveups h)
given_up false v p c given u h = ground (arith, given u h)

fail_each-IsFailed :
    (g : Bool) (d : Dict Pending) (c : Client)
    → c.resolutions ≡ d
    → (c.timers ≡ d) ⊎ (c.timers ≡ [])
    → ((u : ℕ) → times u d ≤ 1)
    → IsGiven c
    → IsFailed d c (fail_each g d c)
unfolding fail_each clean_up_request erase
fail_each-IsFailed g [] c same timers distinct given = record {
  all_told = λ u. omega arith;
  no_resolution = same;
  no_timer = elim timers [ inl e ↦ e | inr e ↦ e ];
  still_given = given;
}
fail_each-IsFailed g ((v, r) ∷ d) c same timers distinct given =
    let new : times v d ≡ 0 = ground (arith, distinct v) in
    let k =
      fail_each-IsFailed g d
        (call_back v (premature r) (
          clean_up_request v (record c {
            giveups = if g then add v c.giveups else c.giveups;
            timers = erase v c.timers;
            resolutions = erase v c.resolutions;
          })))
        (erase-twice v r c.resolutions d same new)
        (elim timers [
          | inl e ↦ inl (erase-twice v r c.timers d e new)
          | inr e ↦ inr (ap (λ y. erase v (erase v y)) e)
        ])
        (λ u. ground (arith, distinct u)) (given_up g v r c given) in
    record {
      all_told = λ u. ground (arith, k.all_told u);
      no_resolution = k.no_resolution;
      no_timer = k.no_timer;
      still_given = k.still_given;
    }

pub failed-Keeps : (c c' : Client) → IsFailed c.resolutions c c' → Keeps none c c'
failed-Keeps c c' k = record {
  counted = λ u. omega (arith, k.all_told u, ap (times {A = Pending} u) k.no_resolution);
  synced = k.no_timer ∙ sym k.no_resolution;
  given = k.still_given;
}

all_fail :
    (g : Bool) (c c' : Client)
    → IsSound c
    → c'.resolutions ≡ c.resolutions
    → (c'.timers ≡ c.resolutions) ⊎ (c'.timers ≡ [])
    → c'.settled ≡ c.settled
    → c'.giveups ≡ c.giveups
    → IsFailed c.resolutions c (fail_each g c.resolutions c')
all_fail g c c' h same timers told gone =
    let k =
      fail_each-IsFailed g c.resolutions c' same timers (λ u. omega (arith, h.once u))
        (λ u k.
          subst (λ xs. 1 ≤ times u xs) (sym told) (h.told u (ap (contains u) (sym gone) ∙ k))) in
    record {
      all_told = λ u. k.all_told u ∙ ap (λ xs. times u c.resolutions + times u xs) told;
      no_resolution = k.no_resolution;
      no_timer = k.no_timer;
      still_given = k.still_given;
    }

pub fire-IsFailed :
    (c : Client) → IsSound c → IsFailed c.resolutions c (fire_callbacks_prematurely c)
unfolding fire_callbacks_prematurely
fire-IsFailed c h = all_fail false c (record c { timers = [] }) h refl (inr refl) refl refl

pub give_up_all-Keeps : (c : Client) → IsSound c → Keeps none c (give_up_all c)
unfolding give_up_all
give_up_all-Keeps c h =
    if-Keeps none c c.no_recover _ _ (λ on. same-Keeps c h)
      (λ off.
        failed-Keeps c _
          (all_fail true c (record c { recovering = true }) h refl (inl h.in_step) refl refl))
