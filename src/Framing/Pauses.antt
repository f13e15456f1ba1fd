-- ===== src/Framing/Pauses.antt =====
-- A parser with `delay` lets the event loop turn: how many frames it hands over between two pauses.
use native.Mathlib.Nat.{mod_self, zero-mod}
use live_mutex.Prelude.{
  ℕ, suc, ◌+◌, ◌%◌, ◌≤◌, ◌<◌, ◌≡◌, ◌≢◌, ◌⊎◌, inl, inr, true, false, not, ◌&&◌, List, [], ◌∷◌, ◌++◌,
  arith, ◌==◌, Bool-cases,
}
use live_mutex.Framing.{
  Text, StringDecoder, Chunk, Options, Output, frame, pause, Parser, split, pop, after_frame,
  process_lines, add_text, decode_chunk, transform, transform_all,
}

-- The frames since the last pause.
abbrev pub burst : List Output → ℕ
burst [] = 0
burst (pause ∷ log) = 0
burst (frame s ∷ log) = suc (burst log)

-- There were never more than `n` frames without a pause.
abbrev pub AtMost : ℕ → List Output → Type 0
AtMost n [] = Unit
AtMost n (x ∷ log) = (burst (x ∷ log) ≤ n) × AtMost n log

-- The counter of the parser is one ahead of the frames, once there was a pause.
pub record IsPaced {D : Type 0} (every : ℕ) (p : Parser D) : Type 0 where
  pub bounded : AtMost every p.log
  pub ahead :
      ((p.count ≡ 0) × (burst p.log ≡ 0)) ⊎ ((p.count ≡ burst p.log + 1) × (p.count ≤ every))

-- The test of the counter, and where the counter may stand when it fails.
pause_due :
    (every n : ℕ) → 0 < every → (n ≡ 0) ⊎ (n ≡ every) → (not (every == 0) && n % every == 0) ≡ true
pause_due every n positive at = ground (arith, mod_self every, zero-mod every)

not_due :
    (every n : ℕ) → 0 < every → (not (every == 0) && n % every == 0) ≡ false → (n ≢ 0) × (n ≢ every)
not_due every n positive no_pause = (
  λ e. absurd (ground (arith, pause_due every n)),
  λ e. absurd (ground (arith, pause_due every n)),
)

module _ {D : Type 0} where
  after_frame-IsPaced :
      (o : Options) (s : Text) (p : Parser D)
      → o.delay ≡ true
      → 0 < o.delay_every
      → IsPaced o.delay_every p
      → IsPaced o.delay_every (after_frame o (record p { log = frame s ∷ p.log }))
  unfolding after_frame
  after_frame-IsPaced o s p on positive h =
      elim (Bool-cases (not (o.delay_every == 0) && p.count % o.delay_every == 0)) [
        | inl due ↦ rw on (
            rw due (record {
              bounded = (omega (arith), (omega (arith, h.ahead), h.bounded));
              ahead = inr (omega arith, omega arith);
            }))
        | inr later ↦
            let (started, below) = not_due o.delay_every p.count positive later in
            rw on (
              rw later (record {
                bounded = (ground arith, h.bounded);
                ahead = inr (ground arith, ground arith);
              }))
      ]

  process_lines-IsPaced :
      (o : Options) (ls : List Text) (p : Parser D)
      → o.delay ≡ true
      → 0 < o.delay_every
      → IsPaced o.delay_every p
      → IsPaced o.delay_every (process_lines o ls p)
  unfolding process_lines
  process_lines-IsPaced o [] p on positive h = h
  process_lines-IsPaced o ([] ∷ ls) p on positive h = process_lines-IsPaced o ls p on positive h
  process_lines-IsPaced o ((c ∷ l) ∷ ls) p on positive h =
      process_lines-IsPaced o ls _ on positive (after_frame-IsPaced o (c ∷ l) p on positive h)

module _ {D : Type 0} ⦃sd : StringDecoder D⦄ where
  add_text-IsPaced :
      (o : Options) (s : Text) (p : Parser D)
      → o.delay ≡ true
      → 0 < o.delay_every
      → IsPaced o.delay_every p
      → IsPaced o.delay_every (add_text o s p)
  unfolding add_text
  add_text-IsPaced o s p on positive h =
      let (lines, last) = pop (split o.delimiter (p.last_line_data ++ s)) in
      process_lines-IsPaced o lines (record p { last_line_data = last }) on positive
        (record { bounded = h.bounded; ahead = h.ahead })

  transform-IsPaced :
      (o : Options) (c : Chunk) (p : Parser D)
      → o.delay ≡ true
      → 0 < o.delay_every
      → IsPaced o.delay_every p
      → IsPaced o.delay_every (transform o c p)
  unfolding transform
  transform-IsPaced o c p on positive h =
      add_text-IsPaced o (decode_chunk c p.decoder).0 _ on positive
        (record { bounded = h.bounded; ahead = h.ahead })

  -- Let a parser with `delay` and a positive `delay_every` be paced, as a new one is. Then it is paced after
  -- any chunks: it has at no point handed over more than `delay_every` frames since it last let the event
  -- loop turn.
  pub transform_all-IsPaced :
      (o : Options) (cs : List Chunk) (p : Parser D)
      → o.delay ≡ true
      → 0 < o.delay_every
      → IsPaced o.delay_every p
      → IsPaced o.delay_every (transform_all o cs p)
  unfolding transform_all
  transform_all-IsPaced o [] p on positive h = h
  transform_all-IsPaced o (c ∷ cs) p on positive h =
      transform_all-IsPaced o cs (transform o c p) on positive
        (transform-IsPaced o c p on positive h)
