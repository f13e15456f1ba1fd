-- ===== src/Client/Checks.antt =====
-- What the checks of a lock request's options (`lock` of src/client.ts) let through.
use live_mutex.Prelude.{
  ℕ, zero, suc, ◌≤◌, ◌≡◌, ◌≢◌, ◌⊎◌, refl, Bool, true, false, inl, inr, ◌&&◌, Option, none, some,
  ◌∷◌, arith, leb, ◌==◌, max, Bool-cases, Every, Every->>=, ap, ◌∙◌,
}
use live_mutex.LinkedQueue.{Ttl, infinite, millis}
use live_mutex.Broker.Lock.{Limit, absent, malformed, whole}
use live_mutex.Client.{
  Code, connection_closed, connection_recovering, cannot_continue_, max_retries_attempted, misused,
  failed, Request, Client, fire_error, clean_up_request, lock_internal,
}
use live_mutex.Client.Options.{
  Flag, no_flag, not_boolean, flag, TtlOption, missing, null_, other, integer, LockOptions,
  Defaults, positive_option, is_flag, retry_option, agrees, retries_option, or_default, ttl_option,
  is_timeout, retries, only_if, read_options, lock_or_misuse, lock,
}

-- `retry`, if it is there, leaves 0, and so do the others after it.
IsZero : Option ℕ → Type 0
IsZero a = a ≡ some 0

retry_option-IsZero : (f : Flag) → f ≢ no_flag → Every IsZero (retry_option f)
unfolding retry_option IsZero
retry_option-IsZero no_flag there = absurd (there refl)
retry_option-IsZero not_boolean there = tt
retry_option-IsZero (flag b) there = refl

retries_option-IsZero : (l : Limit) (a : Option ℕ) → IsZero a → Every IsZero (retries_option l a)
unfolding retries_option IsZero
retries_option-IsZero absent a h = h
retries_option-IsZero malformed a h = tt
retries_option-IsZero (whole n) a h = rw h (elim (Bool-cases (leb n 20 && (0 == n))) [
  | inl same ↦ rw same (ap some (ground arith))
  | inr other_ ↦ rw other_ tt
])

-- An option of retries is at most 20.
IsFew : Option ℕ → Type 0
IsFew a = Every (λ n. n ≤ 20) a

retry_option-IsFew : (f : Flag) → Every IsFew (retry_option f)
unfolding retry_option IsFew
retry_option-IsFew no_flag = tt
retry_option-IsFew not_boolean = tt
retry_option-IsFew (flag b) = omega arith

retries_option-IsFew : (l : Limit) (a : Option ℕ) → IsFew a → Every IsFew (retries_option l a)
unfolding retries_option IsFew
retries_option-IsFew absent a h = h
retries_option-IsFew malformed a h = tt
retries_option-IsFew (whole n) a h = elim (Bool-cases (leb n 20 && agrees n a)) [
  | inl small ↦ rw small (ground arith)
  | inr large ↦ rw large tt
]

-- What holds of the retries read so far, and is kept by each option, holds in the end.
retries-Every {ℓ} :
    (P : Option ℕ → Type ℓ) (d : Defaults) (o : LockOptions)
    → Every P (retry_option o.retry)
    → ((l : Limit) (a : Option ℕ) → P a → Every P (retries_option l a))
    → Every (λ n. (a : Option ℕ) × P a × (n ≡ or_default d.lock_retry_max a)) (retries d o)
unfolding retries
retries-Every P d o h k = Every->>= P _ (retry_option o.retry) _ h (λ a₁ h₁.
    Every->>= P _ (retries_option o.max_retries a₁) _ (k o.max_retries a₁ h₁) (λ a₂ h₂.
      Every->>= P _ (retries_option o.max_retry a₂) _ (k o.max_retry a₂ h₂) (λ a₃ h₃.
        Every->>= P _ (retries_option o.retry_max a₃) _ (k o.retry_max a₃ h₃)
          (λ a₄ h₄. (a₄, h₄, refl)))))

positive_option-Every : (l : Limit) → Every (λ m. Every (λ n. 1 ≤ n) m) (positive_option l)
unfolding positive_option
positive_option-Every absent = tt
positive_option-Every malformed = tt
positive_option-Every (whole zero) = tt
positive_option-Every (whole (suc n)) = omega arith

-- A ttl that is the default, none at all, or between 3 and 800000 milliseconds.
abbrev pub IsTtl : Ttl → Ttl → Type 0
IsTtl d t = (t ≡ d) ⊎ ((t ≡ infinite) ⊎ ((n : ℕ) × (t ≡ millis n) × (3 ≤ n) × (n ≤ 800000)))

ttl_option-IsTtl : (d : Ttl) (t : TtlOption) → Every (IsTtl d) (ttl_option d t)
unfolding ttl_option
ttl_option-IsTtl d missing = inl refl
ttl_option-IsTtl d null_ = inr (inl refl)
ttl_option-IsTtl d other = tt
ttl_option-IsTtl d (integer n) = elim (Bool-cases (leb 3 n && leb n 800000)) [
  | inl inside ↦ rw inside (inr (inr (n, refl, ground arith, ground arith)))
  | inr outside ↦ rw outside tt
]

only_if-Every {ℓ} : (P : Request → Type ℓ) (b : Bool) (r : Request) → P r → Every P (only_if b r)
only_if-Every P true r h = h
only_if-Every P false r h = tt

few_max : (d n : ℕ) (a : Option ℕ) → IsFew a → n ≡ or_default d a → n ≤ max 20 d
unfolding IsFew
few_max d n none few same = omega (arith, same)
few_max d n (some m) few same = omega (arith, few, same)

-- A request that passes the checks asks for at least one holder if it says how many, makes at most 20
-- attempts or as many as the client's default, has made none, and its ttl is the default, none at all, or
-- between 3 and 800000 milliseconds.
pub read_options_bounds :
    (d : Defaults) (key : ℕ) (o : LockOptions)
    → Every
        (λ r.
          Every (λ n. 1 ≤ n) r.max
          × (r.max_retries ≤ max 20 d.lock_retry_max)
          × (r.retry_count ≡ 0)
          × IsTtl d.ttl r.ttl)
        (read_options d key o)
unfolding read_options IsFew
read_options_bounds d key o =
    Every->>= _ _ (positive_option o.max_holders) _ (positive_option-Every o.max_holders)
      (λ m some_.
        Every->>= _ _ (positive_option o.semaphore) _ (positive_option-Every o.semaphore) (λ m' _.
          Every->>= _ _ (retries d o) _
            (retries-Every IsFew d o (retry_option-IsFew o.retry) retries_option-IsFew)
            (λ n few.
              Every->>= _ _ (ttl_option d.ttl o.ttl) _ (ttl_option-IsTtl d.ttl o.ttl) (λ t ok.
                only_if-Every _ (is_flag o.force && is_timeout o.lock_request_timeout) _
                  (some_, few_max d.lock_retry_max n few.0 few.1 few.2, refl, ok)))))

none_full : (r : Request) → r.max_retries ≡ 0 → leb r.max_retries r.retry_count ≡ true
none_full r none_ = ground arith

Every-any {ℓ} : {A : Type ℓ} (m : Option A) → Every (λ a. Unit {0}) m
Every-any none = tt
Every-any (some a) = tt

lock_internal-none :
    (u : ℕ) (r : Request) (c : Client)
    → r.max_retries ≡ 0
    → ((lock_internal u r c).sent ≡ c.sent)
      × (e : Code) × ((lock_internal u r c).settled ≡ (u, failed e) ∷ c.settled)
unfolding lock_internal fire_error clean_up_request
lock_internal-none u r c none_ = elim (Bool-cases c.is_open) [
  | inr shut ↦ rw shut (refl, connection_closed, refl)
  | inl open_ ↦ rw open_ (elim (Bool-cases c.recovering) [
    | inl on ↦ rw on (refl, connection_recovering, refl)
    | inr off ↦ rw off (elim (Bool-cases c.cannot_continue) [
      | inl on ↦ rw on (refl, cannot_continue_, refl)
      | inr off' ↦ rw (off', none_full r none_) (refl, max_retries_attempted, refl)
    ])
  ])
]

lock_or_misuse-none :
    (u : ℕ) (m : Option Request) (c : Client)
    → Every (λ r. r.max_retries ≡ 0) m
    → ((lock_or_misuse u m c).sent ≡ c.sent)
      × (((lock_or_misuse u m c).settled ≡ (u, misused) ∷ c.settled)
          ⊎ ((e : Code) × ((lock_or_misuse u m c).settled ≡ (u, failed e) ∷ c.settled)))
lock_or_misuse-none u none c h = (refl, inl refl)
lock_or_misuse-none u (some r) c h = let k = lock_internal-none u r c h in (k.0, inr (k.1, k.2))

read_options-none :
    (d : Defaults) (key : ℕ) (o : LockOptions)
    → o.retry ≢ no_flag
    → Every (λ r. r.max_retries ≡ 0) (read_options d key o)
unfolding read_options IsZero
read_options-none d key o there =
    Every->>= (λ m. Unit) _ (positive_option o.max_holders) _
      (Every-any (positive_option o.max_holders))
      (λ m h₁.
        Every->>= (λ m. Unit) _ (positive_option o.semaphore) _
          (Every-any (positive_option o.semaphore))
          (λ m' h₂.
            Every->>= _ _ (retries d o) _
              (retries-Every IsZero d o (retry_option-IsZero o.retry there) retries_option-IsZero)
              (λ n zero_.
                Every->>= (λ t. Unit) _ (ttl_option d.ttl o.ttl) _
                  (Every-any (ttl_option d.ttl o.ttl))
                  (λ t h₃.
                    only_if-Every _ (is_flag o.force && is_timeout o.lock_request_timeout) _
                      (zero_.2 ∙ ap (or_default d.lock_retry_max) zero_.1)))))

-- A `lock` with the option `retry`, whatever its value, sends nothing, and its callback gets an error.
pub lock-retry :
    (d : Defaults) (u key : ℕ) (o : LockOptions) (c : Client)
    → o.retry ≢ no_flag
    → ((lock d u key o c).sent ≡ c.sent)
      × (((lock d u key o c).settled ≡ (u, misused) ∷ c.settled)
          ⊎ ((e : Code) × ((lock d u key o c).settled ≡ (u, failed e) ∷ c.settled)))
unfolding lock
lock-retry d u key o c there =
    lock_or_misuse-none u (read_options d key o) c (read_options-none d key o there)
