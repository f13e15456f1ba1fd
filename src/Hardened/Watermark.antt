-- ===== src/Hardened/Watermark.antt =====
-- src/broker-1-hardened.ts: `parseWatermarkText`, and the decimal text that `String` gives a number. A text is a list
-- of UTF-16 code units.
use live_mutex.Prelude.{
  ℕ, zero, suc, ◌+◌, ◌-◌, ◌≤◌, ◌<◌, ◌≡◌, ◌⊎◌, ◌∙◌, refl, ap, inl, inr, Bool, true, false, ◌&&◌,
  Option, none, some, [], ◌∷◌, arith, leb, ltb, if◌then◌else◌, Bool-cases,
}
use Prim.Native.Nat.{◌*◌, ◌/◌, ◌%◌}
use live_mutex.Framing.{Text}

-- `Number.MAX_SAFE_INTEGER`
abbrev pub max_fencing_token : ℕ
max_fencing_token = 9007199254740991

abbrev pub is_digit : ℕ → Bool
is_digit c = leb 48 c && leb c 57

unfoldable pub all_digits : Text → Bool
all_digits [] = true
all_digits (c ∷ s) = is_digit c && all_digits s

-- `/^(0|[1-9][0-9]*)$/`
unfoldable pub is_canonical : Text → Bool
unfolding all_digits
is_canonical [] = false
is_canonical (c ∷ []) = is_digit c
is_canonical (c ∷ d ∷ s) = leb 49 c && leb c 57 && all_digits (d ∷ s)

-- The number that digits stand for, behind those that stand for `v`.
unfoldable pub value : ℕ → Text → ℕ
value v [] = v
value v (c ∷ s) = value (v * 10 + (c - 48)) s

-- `parseWatermarkText`; `none` is a value that is no string, and the error. A number above the bound
-- is not rounded to one that is not.
unfoldable pub parse_watermark_text : Option Text → Option ℕ
unfolding is_canonical value
parse_watermark_text none = none
parse_watermark_text (some s) =
    if is_canonical s && leb (value 0 s) max_fencing_token then some (value 0 s) else none

unfoldable pub digits : ℕ → ℕ → Text → Text
digits zero n s = s
digits (suc fuel) n s =
    let rest = digits fuel (n / 10) ((48 + n % 10) ∷ s) in if ltb n 10 then (48 + n) ∷ s else rest

-- `String(n)`
unfoldable pub decimal : ℕ → Text
unfolding digits
decimal n = digits (suc n) n []

value-digits : (fuel n : ℕ) (s : Text) → n < fuel → value 0 (digits fuel n s) ≡ value n s
unfolding value digits
value-digits zero n s enough = absurd (omega arith)
value-digits (suc fuel) n s enough = elim (Bool-cases (ltb n 10)) [
  | inl small ↦ rw small (ap (λ v. value v s) (omega arith))
  | inr large ↦ rw large (
      value-digits fuel (n / 10) ((48 + n % 10) ∷ s) (ground arith)
      ∙ ap (λ v. value v s) (omega arith))
]

is_canonical-digits :
    (fuel n : ℕ) (s : Text)
    → n < fuel
    → all_digits s ≡ true
    → (1 ≤ n) ⊎ (s ≡ [])
    → is_canonical (digits fuel n s) ≡ true
unfolding digits is_canonical all_digits
is_canonical-digits zero n s enough all first = absurd (omega arith)
is_canonical-digits (suc fuel) n [] enough all first = elim (Bool-cases (ltb n 10)) [
  | inl small ↦ rw small (ground arith)
  | inr large ↦ rw large (
      is_canonical-digits fuel (n / 10) ((48 + n % 10) ∷ []) (ground arith) (ground arith)
        (inl (ground arith)))
]
is_canonical-digits (suc fuel) n (c ∷ s) enough all first = elim (Bool-cases (ltb n 10)) [
  | inl small ↦ rw small (ground arith)
  | inr large ↦ rw large (
      is_canonical-digits fuel (n / 10) ((48 + n % 10) ∷ c ∷ s) (ground arith) (ground arith)
        (inl (ground arith)))
]

parse_canonical :
    (s : Text) (n : ℕ)
    → is_canonical s ≡ true
    → value 0 s ≡ n
    → n ≤ max_fencing_token
    → parse_watermark_text (some s) ≡ some n
unfolding parse_watermark_text
parse_canonical s n good read small = rw good (
    rw read (elim (Bool-cases (leb n max_fencing_token)) [
      | inl below ↦ rw below refl
      | inr above ↦ absurd (ground arith)
    ]))

-- A watermark up to the largest safe integer that is written as decimal text is read back as it was.
pub parse_watermark_text-decimal :
    (n : ℕ) → n ≤ max_fencing_token → parse_watermark_text (some (decimal n)) ≡ some n
unfolding decimal all_digits value
parse_watermark_text-decimal n small =
    parse_canonical (digits (suc n) n []) n
      (is_canonical-digits (suc n) n [] (omega arith) refl (inr refl))
      (value-digits (suc n) n [] (omega arith)) small
