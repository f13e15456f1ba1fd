-- ===== src/Framing.antt =====
-- The stream parser of src/json-parser.ts (`LiveMutexJSONParser`), which cuts the bytes of a socket into
-- lines and hands each one to `handleJSON`. Text is a list of UTF-16 code units; the delimiter is one of
-- them. What Node gives is a parameter: the `StringDecoder`, and `Buffer.byteLength` of a string.
pub mod Lines
pub mod Chunks
pub mod Pauses
use live_mutex.Prelude.{
  ℕ, zero, suc, ◌+◌, ◌≡◌, Bool, not, ◌&&◌, List, [], ◌∷◌, ◌++◌, ◌==◌, ◌%◌, if◌then◌else◌, length,
}

abbrev pub Text : Type 0
Text = List ℕ

-- `string_decoder`: bytes that end inside a character wait for the next write.
pub record StringDecoder (D : Type 0) : Type 0 where
  pub write : D → List ℕ → Text × D
  pub finish : D → Text × D
  pub write_nil : (d : D) → write d [] ≡ ([], d)
  pub write_append :
      (d : D) (xs ys : List ℕ)
      → write d (xs ++ ys)
        ≡ ((write d xs).0 ++ (write (write d xs).1 ys).0, (write (write d xs).1 ys).1)

-- A chunk of the stream: null or undefined, bytes, or a string.
pub data Chunk : Type 0 where
  nothing : Chunk
  bytes : List ℕ → Chunk
  chars : Text → Chunk

-- The options and the constants of a parser.
pub record Options : Type 0 where
  pub delimiter : ℕ
  pub delay : Bool
  pub delay_every : ℕ
  pub is_track_bytes_read : Bool
  pub byte_length : Text → ℕ

-- What a parser does: a call of `handleJSON`, or a pause until the next turn of the event loop.
pub data Output : Type 0 where
  frame : Text → Output
  pause : Output

-- The fields of a parser; `log` has its outputs, the latest first.
pub record Parser (D : Type 0) : Type 0 where
  pub decoder : D
  pub last_line_data : Text
  pub jp_bytes_read : ℕ
  pub count : ℕ
  pub log : List Output

-- A character goes before the first of the lines.
abbrev pub extend : ℕ → List Text → List Text
extend c [] = (c ∷ []) ∷ []
extend c (l ∷ ls) = (c ∷ l) ∷ ls

-- `s.split(delimiter)`
unfoldable pub split : ℕ → Text → List Text
split d [] = [] ∷ []
split d (c ∷ cs) = let ls = split d cs in if c == d then [] ∷ ls else extend c ls

-- `lines.pop()`, with the lines that are left.
unfoldable pub pop : List Text → List Text × Text
pop [] = ([], [])
pop (l ∷ []) = ([], l)
pop (l ∷ m ∷ ls) = let (rest, last) = pop (m ∷ ls) in (l ∷ rest, last)

-- `process.env.LMX_JSON_PARSE_DELAY_EVERY`, as `Number` reads it: the parser's default if it is missing,
-- no integer, or less than 2.
abbrev pub json_parse_delay_every : (raw : ℕ) → ℕ
json_parse_delay_every zero = 1024
json_parse_delay_every (suc zero) = 1024
json_parse_delay_every (suc (suc n)) = suc (suc n)

-- `getChunkByteLength`
unfoldable pub chunk_byte_length : Options → Chunk → ℕ
chunk_byte_length o nothing = 0
chunk_byte_length o (bytes bs) = length bs
chunk_byte_length o (chars s) = o.byte_length s

module _ {D : Type 0} where
  -- `this.delay && (this.count++ % this.delayEvery) === 0`; `% 0` is not a number.
  unfoldable pub after_frame : Options → Parser D → Parser D
  after_frame o p =
      if o.delay
      then (if not (o.delay_every == 0) && p.count % o.delay_every == 0
          then record p { count = 1; log = pause ∷ p.log }
          else record p { count = p.count + 1 })
      else p

  unfoldable pub process_lines : Options → List Text → Parser D → Parser D
  unfolding after_frame
  process_lines o [] p = p
  process_lines o ([] ∷ ls) p = process_lines o ls p
  process_lines o ((c ∷ l) ∷ ls) p =
      process_lines o ls (after_frame o (record p { log = frame (c ∷ l) ∷ p.log }))

module _ {D : Type 0} ⦃sd : StringDecoder D⦄ where
  unfoldable pub decode_chunk : Chunk → D → Text × D
  decode_chunk nothing d = ([], d)
  decode_chunk (bytes bs) d = sd.write d bs
  decode_chunk (chars s) d = (s, d)

  -- The lines of `last_line_data` with `s`; the last one is kept back.
  unfoldable pub add_text : Options → Text → Parser D → Parser D
  unfolding process_lines
  add_text o s p =
      let (lines, last) = pop (split o.delimiter (p.last_line_data ++ s)) in
      process_lines o lines (record p { last_line_data = last })

  unfoldable pub transform : Options → Chunk → Parser D → Parser D
  unfolding decode_chunk add_text chunk_byte_length
  transform o c p =
      let (s, d) = decode_chunk c p.decoder in
      add_text o s (record p {
        decoder = d;
        jp_bytes_read =
            if o.is_track_bytes_read
            then p.jp_bytes_read + chunk_byte_length o c
            else p.jp_bytes_read;
      })

  -- `_flush`: the tail of the decoder, and all lines that are left.
  unfoldable pub flush : Options → Parser D → Parser D
  unfolding process_lines
  flush o p =
      let (tail, d) = sd.finish p.decoder in
      let rest = p.last_line_data ++ tail in
      let cleared : Parser D = record p { decoder = d; last_line_data = [] } in
      elim rest [ [] ↦ cleared | c ∷ cs ↦ process_lines o (split o.delimiter (c ∷ cs)) cleared ]

  unfoldable pub transform_all : Options → List Chunk → Parser D → Parser D
  transform_all o [] p = p
  transform_all o (c ∷ cs) p = transform_all o cs (transform o c p)
