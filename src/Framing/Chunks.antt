-- ===== src/Framing/Chunks.antt =====
-- The frames that a parser hands over do not depend on how the bytes were cut into chunks.
use mathlib.Core.List.{append_assoc, append-nil, map}
use live_mutex.Prelude.{
  ℕ, ◌≡◌, refl, sym, ap, ◌∙◌, false, inl, inr, List, [], ◌∷◌, ◌++◌, ◌==◌, All, contains, Bool-cases,
  not, ◌&&◌, ◌≢◌, ◌%◌,
}
use live_mutex.Framing.{
  Text, StringDecoder, bytes, Options, Output, frame, pause, Parser, split, pop, after_frame,
  process_lines, add_text, decode_chunk, transform, transform_all,
}
use live_mutex.Framing.Lines.{cut, join, pop-split, cut-append, encode, cut-encode}

-- The calls of `handleJSON`, in their order.
abbrev pub frames : List Output → List Text
frames [] = []
frames (frame s ∷ log) = frames log ++ s ∷ []
frames (pause ∷ log) = frames log

-- Empty lines are skipped.
pub nonempty : List Text → List Text
nonempty [] = []
nonempty ([] ∷ ls) = nonempty ls
nonempty ((c ∷ l) ∷ ls) = (c ∷ l) ∷ nonempty ls

nonempty-append : (ls ms : List Text) → nonempty (ls ++ ms) ≡ nonempty ls ++ nonempty ms
unfolding nonempty
nonempty-append [] ms = refl
nonempty-append ([] ∷ ls) ms = nonempty-append ls ms
nonempty-append ((c ∷ l) ∷ ls) ms = ap (λ xs. (c ∷ l) ∷ xs) (nonempty-append ls ms)

nonempty-All : (ls : List Text) → All (λ l. l ≢ []) ls → nonempty ls ≡ ls
unfolding nonempty
nonempty-All [] full = refl
nonempty-All ([] ∷ ls) full = absurd (full.0 refl)
nonempty-All ((c ∷ l) ∷ ls) full = ap (λ xs. (c ∷ l) ∷ xs) (nonempty-All ls full.1)

-- All chunks as one.
abbrev pub joined : List ℕ → List (List ℕ) → List ℕ
joined bs [] = bs
joined bs (cs ∷ css) = bs ++ joined cs css

-- What a client of the parser can tell: the frames, the text kept back and the decoder.
abbrev pub View : Type 0 → Type 0
View D = List Text × Text × D

module _ {D : Type 0} where
  abbrev pub view : Parser D → View D
  view p = (frames p.log, p.last_line_data, p.decoder)

  abbrev add_frames : List Text → View D → View D
  add_frames ls (fs, last, d) = (fs ++ ls, last, d)

  after_frame-view : (o : Options) (p : Parser D) → view (after_frame o p) ≡ view p
  unfolding after_frame
  after_frame-view o p = elim (Bool-cases o.delay) [
    | inl late ↦ elim (Bool-cases (not (o.delay_every == 0) && p.count % o.delay_every == 0)) [
      | inl now ↦ rw late (rw now refl)
      | inr later ↦ rw late (rw later refl)
    ]
    | inr never ↦ rw never refl
  ]

  process_lines-view :
      (o : Options) (ls : List Text) (p : Parser D)
      → view (process_lines o ls p) ≡ add_frames (nonempty ls) (view p)
  unfolding process_lines nonempty
  process_lines-view o [] p =
      ap (λ fs. (fs, p.last_line_data, p.decoder)) (sym (append-nil (frames p.log)))
  process_lines-view o ([] ∷ ls) p = process_lines-view o ls p
  process_lines-view o ((c ∷ l) ∷ ls) p =
      let handed : Parser D = record p { log = frame (c ∷ l) ∷ p.log } in
      process_lines-view o ls (after_frame o handed)
      ∙ ap (add_frames (nonempty ls)) (after_frame-view o handed)
      ∙ ap (λ fs. (fs, p.last_line_data, p.decoder))
          (append_assoc (frames p.log) ((c ∷ l) ∷ []) (nonempty ls))

  -- The effect of a text, and of bytes, on the view.
  advance : ℕ → Text → View D → View D
  advance d s (fs, last, dec) = let (ls, tail) = cut d (last ++ s) in (fs ++ nonempty ls, tail, dec)

  advance-append :
      (d : ℕ) (s t : Text) (v : View D) → advance d t (advance d s v) ≡ advance d (s ++ t) v
  unfolding advance
  advance-append d s t (fs, last, dec) =
      let first = cut d (last ++ s) in
      let then_ = cut d (first.1 ++ t) in
      let whole : cut d (last ++ (s ++ t)) ≡ join first.0 then_ =
        ap (cut d) (sym (append_assoc last s t)) ∙ cut-append d (last ++ s) t in
      ap (λ xs. (xs, then_.1, dec))
        (append_assoc fs (nonempty first.0) (nonempty then_.0)
          ∙ ap (λ xs. fs ++ xs) (sym (nonempty-append first.0 then_.0)))
      ∙ ap (λ (r : List Text × Text). (fs ++ nonempty r.0, r.1, dec)) (sym whole)

module _ {D : Type 0} ⦃sd : StringDecoder D⦄ where
  add_text-view :
      (o : Options) (s : Text) (p : Parser D)
      → view (add_text o s p) ≡ advance o.delimiter s (view p)
  unfolding add_text advance
  add_text-view o s p =
      let whole = p.last_line_data ++ s in
      process_lines-view o (pop (split o.delimiter whole)).0 _
      ∙ ap (λ (r : List Text × Text). (frames p.log ++ nonempty r.0, r.1, p.decoder))
          (pop-split o.delimiter whole)

  receive : ℕ → List ℕ → View D → View D
  receive d bs (fs, last, dec) = advance d (sd.write dec bs).0 (fs, last, (sd.write dec bs).1)

  receive-append :
      (d : ℕ) (xs ys : List ℕ) (v : View D) → receive d ys (receive d xs v) ≡ receive d (xs ++ ys) v
  unfolding receive advance
  receive-append d xs ys (fs, last, dec) =
      let (s, d₁) = sd.write dec xs in
      let (t, d₂) = sd.write d₁ ys in
      advance-append d s t (fs, last, d₂)
      ∙ ap (λ (r : Text × D). advance d r.0 (fs, last, r.1)) (sym (sd.write_append dec xs ys))

  transform-view :
      (o : Options) (bs : List ℕ) (p : Parser D)
      → view (transform o (bytes bs) p) ≡ receive o.delimiter bs (view p)
  unfolding transform receive decode_chunk
  transform-view o bs p = add_text-view o (sd.write p.decoder bs).0 _

  -- However the bytes of a stream are cut into chunks, at least one: the frames that are handed over, the
  -- text that is kept back and the state of the decoder are those of the whole stream as one chunk.
  pub transform_all-joined :
      (o : Options) (bs : List ℕ) (css : List (List ℕ)) (p : Parser D)
      → view (transform_all o (map bytes (bs ∷ css)) p)
        ≡ view (transform o (bytes (joined bs css)) p)
  unfolding transform_all
  transform_all-joined o bs [] p = refl
  transform_all-joined o bs (cs ∷ css) p =
      transform_all-joined o cs css (transform o (bytes bs) p)
      ∙ transform-view o (joined cs css) (transform o (bytes bs) p)
      ∙ ap (receive o.delimiter (joined cs css)) (transform-view o bs p)
      ∙ receive-append o.delimiter bs (joined cs css) (view p)
      ∙ sym (transform-view o (bs ++ joined cs css) p)

  receive-encode :
      (d : ℕ) (ls : List Text) (bs : List ℕ) (fs : List Text) (dec dec' : D)
      → All (λ l. contains d l ≡ false) ls
      → All (λ l. l ≢ []) ls
      → sd.write dec bs ≡ (encode d ls, dec')
      → receive d bs (fs, [], dec) ≡ (fs ++ ls, [], dec')
  unfolding receive advance
  receive-encode d ls bs fs dec dec' free full decoded =
      ap (λ (r : Text × D). advance d r.0 (fs, [], r.1)) decoded
      ∙ ap (λ (r : List Text × Text). (fs ++ nonempty r.0, r.1, dec')) (cut-encode d ls free)
      ∙ ap (λ xs. (fs ++ xs, [], dec')) (nonempty-All ls full)

  -- Let the peer send lines that are not empty and have no delimiter inside, each with a delimiter behind
  -- it, and let the decoder read the bytes as that text. Then a parser that keeps nothing back hands over
  -- exactly these lines in their order, however the bytes were cut into chunks, and keeps nothing back.
  pub transform_all-encode :
      (o : Options) (ls : List Text) (bs : List ℕ) (css : List (List ℕ)) (p : Parser D) (d : D)
      → p.last_line_data ≡ []
      → All (λ l. contains o.delimiter l ≡ false) ls
      → All (λ l. l ≢ []) ls
      → sd.write p.decoder (joined bs css) ≡ (encode o.delimiter ls, d)
      → view (transform_all o (map bytes (bs ∷ css)) p) ≡ (frames p.log ++ ls, [], d)
  transform_all-encode o ls bs css p d empty free full decoded =
      transform_all-joined o bs css p
      ∙ transform-view o (joined bs css) p
      ∙ ap (λ s. receive o.delimiter (joined bs css) (frames p.log, s, p.decoder)) empty
      ∙ receive-encode o.delimiter ls (joined bs css) (frames p.log) p.decoder d free full decoded
