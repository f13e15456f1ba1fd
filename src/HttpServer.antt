-- ===== src/HttpServer.antt =====
-- src/http-server.ts: the escaping of what goes into the status page, the reading of a body, and the fields of the
-- bodies of `/admin/*`. Text is a list of UTF-16 code units, bytes are numbers.
pub mod Escaping
pub mod Bodies
pub mod Admin
pub mod Guard
use live_mutex.Prelude.{
  ℕ, ◌+◌, Bool, true, false, ◌&&◌, ◌||◌, Option, none, some, List, [], ◌∷◌, ◌++◌, leb, ltb, ◌==◌,
  if◌then◌else◌, length,
}
use live_mutex.Framing.{Text}

-- `replace(/c/g, t)`
unfoldable pub replace : ℕ → Text → Text → Text
replace c t [] = []
replace c t (x ∷ s) = (if x == c then t else x ∷ []) ++ replace c t s

-- `&amp;`, `&lt;`, `&gt;`, `&quot;` and `&#39;`
abbrev pub amp : Text
amp = 38 ∷ 97 ∷ 109 ∷ 112 ∷ 59 ∷ []

abbrev pub lt : Text
lt = 38 ∷ 108 ∷ 116 ∷ 59 ∷ []

abbrev pub gt : Text
gt = 38 ∷ 103 ∷ 116 ∷ 59 ∷ []

abbrev pub quot : Text
quot = 38 ∷ 113 ∷ 117 ∷ 111 ∷ 116 ∷ 59 ∷ []

abbrev pub apos : Text
apos = 38 ∷ 35 ∷ 51 ∷ 57 ∷ 59 ∷ []

-- `esc` of a string
unfoldable pub esc : Text → Text
unfolding replace
esc s = replace 39 apos (replace 34 quot (replace 62 gt (replace 60 lt (replace 38 amp s))))

-- The loop of `readJsonBody` and `readPostBody` over the chunks, from those read so far. `none` is the reply 413.
unfoldable pub read_chunks : ℕ → List (List ℕ) → (total : ℕ) → List ℕ → Option (List ℕ)
read_chunks max_body_bytes [] total bytes = some bytes
read_chunks max_body_bytes (chunk ∷ chunks) total bytes =
    let now = total + length chunk in
    let rest = read_chunks max_body_bytes chunks now (bytes ++ chunk) in
    if ltb max_body_bytes now then none else rest

unfoldable pub read_body : ℕ → List (List ℕ) → Option (List ℕ)
unfolding read_chunks
read_body max_body_bytes chunks = read_chunks max_body_bytes chunks 0 []
