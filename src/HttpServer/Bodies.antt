-- ===== src/HttpServer/Bodies.antt =====
-- How much of a body src/http-server.ts keeps.
use mathlib.Core.List.{append_assoc, append-nil}
use live_mutex.Prelude.{
  ℕ, ◌+◌, ◌≤◌, ◌≡◌, refl, sym, ap, ◌∙◌, inl, inr, true, false, none, some, List, [], ◌∷◌, ◌++◌,
  arith, ltb, if◌then◌else◌, Bool-cases, length, length-append,
}
use live_mutex.HttpServer.{read_chunks, read_body}

-- The chunks as one.
abbrev pub joined : List (List ℕ) → List ℕ
joined [] = []
joined (c ∷ cs) = c ++ joined cs

read_chunks-joined :
    (n : ℕ) (cs : List (List ℕ)) (bytes : List ℕ)
    → length bytes ≤ n
    → read_chunks n cs (length bytes) bytes
      ≡ (if ltb n (length (bytes ++ joined cs)) then none else some (bytes ++ joined cs))
unfolding read_chunks
read_chunks-joined n [] bytes fits =
    let small : ltb n (length bytes) ≡ false = ground arith in rw (append-nil bytes) (rw small refl)
read_chunks-joined n (c ∷ cs) bytes fits = elim (Bool-cases (ltb n (length bytes + length c))) [
  | inl over ↦
      let big : ltb n (length (bytes ++ (c ++ joined cs))) ≡ true =
        ground (arith, length-append bytes (c ++ joined cs), length-append c (joined cs)) in
      rw over (rw big refl)
  | inr under ↦
      let rest = read_chunks-joined n cs (bytes ++ c) (ground (arith, length-append bytes c)) in
      rw under (
        ap (λ k. read_chunks n cs k (bytes ++ c)) (sym (length-append bytes c))
        ∙ rest
        ∙ ap (λ t. if ltb n (length t) then none else some t) (append_assoc bytes c (joined cs)))
]

-- A body is read as a whole if it has at most as many bytes as are allowed, and refused otherwise, however it is cut.
pub read_body-joined :
    (n : ℕ) (cs : List (List ℕ))
    → read_body n cs ≡ (if ltb n (length (joined cs)) then none else some (joined cs))
unfolding read_body
read_body-joined n cs = read_chunks-joined n cs [] (omega arith)
