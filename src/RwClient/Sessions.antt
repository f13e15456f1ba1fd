-- ===== src/RwClient/Sessions.antt =====
-- What a reader or a writer of src/rw-write-preferred-client.ts leaves at the broker: one acquisition, and the call of
-- its release function if it came through.
use live_mutex.Prelude.{
  ℕ, ◌+◌, ◌-◌, ◌≡◌, refl, sym, subst, ◌||◌, inl, inr, Bool, true, false, Option, some, List, [],
  ◌∷◌, arith, if◌then◌else◌, Bool-cases,
}
use live_mutex.RwClient.{
  Ask, lock, unlock, register_write_flag_check, register_write_flag_and_readers_check,
  increment_readers, decrement_readers, set_write_flag_to_false, Reply, Result, Task, finish,
  request, await_flag, RwOptions, acquire_write_lock, release_write_lock, acquire_read_lock,
  release_read_lock, is_passed_over, is_queued, Trace, run, unanswered,
}

-- The lock or the release, if there is an `_unlock` to call.
unfoldable pub and_release : Task → List Ask → Result → Task
and_release release asks r = if r.releasable then release else finish asks r

unfoldable pub then_release : Task → Task → Task
unfolding and_release
then_release (finish asks r) release = and_release release asks r
then_release (request a k) release = request a (λ err. then_release (k err) release)
then_release (await_flag q k) release = await_flag q (λ err. then_release (k err) release)

unfoldable pub write_session : RwOptions → Task
unfolding then_release acquire_write_lock
write_session o = then_release (acquire_write_lock o) release_write_lock

unfoldable pub read_session : RwOptions → Task
unfolding then_release acquire_read_lock
read_session o = then_release (acquire_read_lock o) release_read_lock

-- What the client has at the broker on its key. A check of the writer flag that was queued counts a reader when it goes
-- through: `lck.readers++` in the function that `registerWriteFlagCheck` of src/broker-1.ts registers.
pub record Account : Type 0 where
  pub holds : ℕ
  pub readers : ℕ
  pub writing : Bool

unfoldable pub effect : Ask → Account → Account
effect (lock m r w) x = record x { holds = x.holds + 1 }
effect unlock x = record x { holds = x.holds - 1 }
effect (register_write_flag_check false) x = x
effect (register_write_flag_check true) x = record x { readers = x.readers + 1 }
effect register_write_flag_and_readers_check x = record x { writing = true }
effect increment_readers x = record x { readers = x.readers + 1 }
effect decrement_readers x = record x { readers = x.readers - 1 }
effect set_write_flag_to_false x = record x { writing = false }

-- A request that was answered by an error changes nothing.
unfoldable pub effects : Trace → Account → Account
unfolding effect
effects [] x = x
effects ((a, true) ∷ t) x = effects t x
effects ((a, false) ∷ t) x = effects t (effect a x)

-- The requests that give something back.
abbrev pub gives_back : Ask → Bool
gives_back unlock = true
gives_back decrement_readers = true
gives_back set_write_flag_to_false = true
gives_back _ = false

-- None of these was answered by an error.
abbrev pub IsUndisturbed : Trace → Type 0
IsUndisturbed [] = Unit
IsUndisturbed ((a, err) ∷ t) = ((gives_back a ≡ true) → err ≡ false) × IsUndisturbed t

-- Whatever the replies, the account `now` ends as `goal` if nothing that gives something back fails.
Settles : Task → Account → Account → Type 0
Settles (finish asks r) now goal = effects (unanswered asks) now ≡ goal
Settles (request a k) now goal =
    (gives_back a ≡ false → Settles (k true) now goal) × Settles (k false) (effect a now) goal
Settles (await_flag q k) now goal = ⊥

answered-effects :
    (a : Ask) (k : Bool → Task) (err : Bool) (t : Trace) (now goal : Account)
    → Settles (request a k) now goal
    → (gives_back a ≡ true → err ≡ false)
    → ((now' : Account) → Settles (k err) now' goal → effects t now' ≡ goal)
    → effects ((a, err) ∷ t) now ≡ goal
unfolding Settles effects
answered-effects a k true t now goal h calm rest = elim (Bool-cases (gives_back a)) [
  | inl back ↦ absurd (ground (arith, calm back))
  | inr forth ↦ rest now (h.0 forth)
]
answered-effects a k false t now goal h calm rest = rest (effect a now) h.1

-- A run that has ended without a disturbance leaves `goal`.
Leaves : Account → Account → Result → Trace × Option Result → Type 0
Leaves now goal r (t, ended) = ended ≡ some r → IsUndisturbed t → effects t now ≡ goal

Settles-Leaves :
    (t : Task) (xs : List Reply) (r : Result) (now goal : Account)
    → Settles t now goal
    → Leaves now goal r (run t xs)
unfolding Settles Leaves run effects
Settles-Leaves (finish asks q) xs r now goal h = λ ended calm. h
Settles-Leaves (request a k) [] r now goal h = λ ended calm. absurd (ground arith)
Settles-Leaves (request a k) (x ∷ xs) r now goal h = λ ended calm.
    answered-effects a k x.error (run (k x.error) xs).0 now goal h calm.0
      (λ now' h'. Settles-Leaves (k x.error) xs r now' goal h' ended calm.1)
Settles-Leaves (await_flag q k) xs r now goal h = absurd h

given_back :
    (x : Account) (w : Bool)
    → x.writing ≡ w
    → (m n : ℕ) → m ≡ x.holds
    → n ≡ x.readers
    → record { holds = m; readers = n; writing = w } ≡ x
given_back x w same m n holds readers = cc

write_session-Settles :
    (o : RwOptions) (x : Account) → x.writing ≡ false → Settles (write_session o) x x
unfolding Settles write_session acquire_write_lock then_release and_release release_write_lock
    effects effect
write_session-Settles o x quiet =
    let back : x.holds + 1 - 1 ≡ x.holds = omega arith in
    let dropped = given_back x x.writing refl (x.holds + 1 - 1) x.readers back refl in
    let lowered = given_back x false quiet (x.holds + 1 - 1) x.readers back refl in
    (λ _. refl, (λ _. (λ wrong. cc, dropped), (λ wrong. cc, (λ wrong. cc, lowered))))

-- What follows the check of a reader.
abbrev after_check : RwOptions → Bool → Task
after_check o err = elim (acquire_read_lock o) [
  | finish asks r ↦ finish asks r
  | request a k ↦ request a k
  | await_flag q k ↦ then_release (k err) release_read_lock
]

read_session-run :
    (o : RwOptions) (xs : List Reply)
    → run (read_session o) xs ≡ run (await_flag false (after_check o)) xs
unfolding read_session acquire_read_lock then_release
read_session-run o xs = refl

after_check-Settles : (o : RwOptions) (err : Bool) (x : Account) → Settles (after_check o err) x x
unfolding Settles acquire_read_lock then_release and_release release_read_lock effects effect
after_check-Settles o true x = refl
after_check-Settles o false x =
    let back : x.holds + 1 - 1 ≡ x.holds = omega arith in
    let uncounted : x.readers + 1 - 1 ≡ x.readers = omega arith in
    let dropped = given_back x x.writing refl (x.holds + 1 - 1) x.readers back refl in
    let left = given_back x x.writing refl (x.holds + 1 - 1) (x.readers + 1 - 1) back uncounted in
    (λ _. refl, (λ _. dropped, (λ wrong. cc, (λ wrong. cc, left))))

-- Whether the check with which a trace begins was queued and went through.
abbrev pub was_queued : Trace → Bool
was_queued ((register_write_flag_check true, false) ∷ t) = true
was_queued _ = false

-- `x`, with one reader more after a check that was queued.
abbrev pub counted_twice : Bool → Account → Account
counted_twice true x = record x { readers = x.readers + 1 }
counted_twice false x = x

-- A run of a reader that has ended without a disturbance.
Counts : Account → Result → Trace × Option Result → Type 0
Counts x r (t, ended) =
    ended ≡ some r → IsUndisturbed t → effects t x ≡ counted_twice (was_queued t) x

if-Counts :
    (p : Bool) (x : Account) (r : Result) (y z : Trace × Option Result)
    → Counts x r y
    → Counts x r z
    → Counts x r (if p then y else z)
if-Counts true x r y z h k = h
if-Counts false x r y z h k = k

checked-effects :
    (q err : Bool) (t : Trace) (x : Account)
    → ((now : Account) → effects t now ≡ now)
    → effects ((register_write_flag_check q, err) ∷ t) x
      ≡ counted_twice (was_queued ((register_write_flag_check q, err) ∷ t)) x
unfolding effects effect
checked-effects true true t x same = same x
checked-effects false true t x same = same x
checked-effects true false t x same = same (record x { readers = x.readers + 1 })
checked-effects false false t x same = same x

await-Counts :
    (o : RwOptions) (q : Bool) (xs : List Reply) (r : Result) (x : Account)
    → Counts x r (run (await_flag q (after_check o)) xs)
unfolding Counts Leaves run
await-Counts o q [] r x = λ ended calm. absurd (ground arith)
await-Counts o q (y ∷ xs) r x =
    let (t, ended) = run (after_check o y.error) xs in
    if-Counts (is_passed_over y.type_) x r
      (run (await_flag (q || is_queued y.type_) (after_check o)) xs)
      ((register_write_flag_check q, y.error) ∷ t, ended)
      (await-Counts o (q || is_queued y.type_) xs r x)
      (λ over calm. checked-effects q y.error t x (λ now.
        Settles-Leaves (after_check o y.error) xs r now now (after_check-Settles o y.error now) over
          calm.1))

-- Let a writer acquire the lock and release it if that comes through, and let none of its requests that give something
-- back be answered by an error. Whatever else is answered, when the last callback is called it holds
-- and counts for what it did before, and its write flag is down, provided that it was down before.
pub write_session-IsBalanced :
    (o : RwOptions) (xs : List Reply) (r : Result) (x : Account)
    → x.writing ≡ false
    → (run (write_session o) xs).1 ≡ some r
    → IsUndisturbed (run (write_session o) xs).0
    → effects (run (write_session o) xs).0 x ≡ x
unfolding Leaves
write_session-IsBalanced o xs r x quiet =
    Settles-Leaves (write_session o) xs r x x (write_session-Settles o x quiet)

-- The same for a reader, who does not touch the write flag: it holds what it did before. It counts for as many
-- readers as before if the check of the writer flag was not queued, or failed. A check that was queued and went through
-- leaves one reader more, since it counts one and `incrementReaders` another.
pub read_session-Counts :
    (o : RwOptions) (xs : List Reply) (r : Result) (x : Account)
    → (run (read_session o) xs).1 ≡ some r
    → IsUndisturbed (run (read_session o) xs).0
    → effects (run (read_session o) xs).0 x
      ≡ counted_twice (was_queued (run (read_session o) xs).0) x
unfolding Counts
read_session-Counts o xs r x =
    subst (Counts x r) (sym (read_session-run o xs)) (await-Counts o false xs r x)
