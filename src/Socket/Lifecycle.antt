-- ===== src/Socket/Lifecycle.antt =====
-- The order in which an in-process socket emits its events, whatever is called on it and whenever the event
-- loop turns.
use live_mutex.Prelude.{
  ℕ, ◌≡◌, refl, Bool, true, false, inl, inr, not, ◌&&◌, ◌||◌, Option, none, some, List, [], ◌∷◌,
  ◌++◌, arith, if◌then◌else◌, All, Option-cases,
}
use live_mutex.Framing.{Text, split}
use live_mutex.Socket.{
  Codec, Payload, text, unsupported, Callback, Task, deliver, answer, finalize_later, finalize,
  close_after_end, close_destroyed, Signal, finished, ended, errored, closed, on_frame,
  VirtualSocket, new_socket, next_tick, emit, answer_later, read_lines, accept, write,
  write_and_end, end, destroy, emit_finish, emit_end, emit_close, perform, run_task, tick, Action,
  writes, ends, destroys, ticks, act, act_all,
}

module _ {F : Type 0} where
  abbrev pub has_finished : List (Signal F) → Bool
  has_finished [] = false
  has_finished (finished ∷ log) = true
  has_finished (_ ∷ log) = has_finished log

  abbrev pub has_ended : List (Signal F) → Bool
  has_ended [] = false
  has_ended (ended ∷ log) = true
  has_ended (_ ∷ log) = has_ended log

  abbrev pub has_closed : List (Signal F) → Bool
  has_closed [] = false
  has_closed (closed w ∷ log) = true
  has_closed (_ ∷ log) = has_closed log

  -- What may come after the signals of `log`.
  abbrev pub Fits : Signal F → List (Signal F) → Type 0
  Fits finished log =
      (has_finished log ≡ false) × (has_ended log ≡ false) × (has_closed log ≡ false)
  Fits ended log = (has_finished log ≡ true) × (has_ended log ≡ false) × (has_closed log ≡ false)
  Fits (closed w) log = has_closed log ≡ false
  Fits (on_frame f) log = has_closed log ≡ false
  Fits _ log = Unit

  -- `finish`, `end` and `close` come at most once; `end` comes after `finish`; and neither they nor a frame
  -- come after `close`.
  abbrev pub IsOrderly : List (Signal F) → Type 0
  IsOrderly [] = Unit
  IsOrderly (x ∷ log) = Fits x log × IsOrderly log

  -- The closing tasks wait only on a socket that is closed for writing, that of `destroy` on a destroyed one.
  abbrev MayWait : (destroyed writable : Bool) → Task F → Type 0
  MayWait d w (close_destroyed x) = d ≡ true
  MayWait d w (close_after_end cb) = w ≡ false
  MayWait d w _ = Unit

  pub record IsSound (s : VirtualSocket F) : Type 0 where
    pub orderly : IsOrderly s.log
    pub finish_told : s.finish_emitted ≡ has_finished s.log
    pub end_told : s.end_emitted ≡ has_ended s.log
    pub close_told : s.close_emitted ≡ has_closed s.log
    pub together : s.end_emitted ≡ s.finish_emitted
    pub gone : (s.destroyed && s.writable) ≡ false
    pub half_closed : (s.finish_emitted && s.writable) ≡ false
    pub close_last : (s.close_emitted && not s.destroyed) ≡ false

  abbrev Waits : VirtualSocket F → Type 0
  Waits s = All (MayWait s.destroyed s.writable) s.tasks

  All-snoc :
      (d w : Bool) (ts : List (Task F)) (t : Task F)
      → All (MayWait d w) ts
      → MayWait d w t
      → All (MayWait d w) (ts ++ t ∷ [])
  All-snoc d w [] t all last = (last, tt)
  All-snoc d w (x ∷ ts) t all last = (all.0, All-snoc d w ts t all.1 last)

  MayWait-shut : (d w : Bool) (t : Task F) → MayWait d w t → MayWait d false t × MayWait true w t
  MayWait-shut d w (close_destroyed x) h = (h, refl)
  MayWait-shut d w (close_after_end cb) h = (refl, h)
  MayWait-shut d w (deliver f) h = (tt, tt)
  MayWait-shut d w (answer c x) h = (tt, tt)
  MayWait-shut d w (finalize_later c) h = (tt, tt)
  MayWait-shut d w (finalize c) h = (tt, tt)

  -- Tasks that may wait on a socket may wait on one that is shut, and on one that is destroyed.
  All-shut :
      (d w : Bool) (ts : List (Task F))
      → All (MayWait d w) ts
      → All (MayWait d false) ts × All (MayWait true w) ts
  All-shut d w [] all = (tt, tt)
  All-shut d w (t ∷ ts) all =
      let (shut, dead) = MayWait-shut d w t all.0 in
      let (shuts, deads) = All-shut d w ts all.1 in ((shut, shuts), (dead, deads))

  -- A socket that differs in its counters and its queue only.
  IsSound-tasks :
      (s : VirtualSocket F) (n m : ℕ) (ts : List (Task F))
      → IsSound s
      → IsSound (record s { bytes_read = n; bytes_written = m; tasks = ts })
  IsSound-tasks s n m ts h = record {
    orderly = h.orderly;
    finish_told = h.finish_told;
    end_told = h.end_told;
    close_told = h.close_told;
    together = h.together;
    gone = h.gone;
    half_closed = h.half_closed;
    close_last = h.close_last;
  }

  abbrev Good : VirtualSocket F → Type 0
  Good s = IsSound s × Waits s

  next_tick-Good :
      (t : Task F) (s : VirtualSocket F)
      → MayWait s.destroyed s.writable t
      → Good s
      → Good (next_tick t s)
  next_tick-Good t s may h = (
    IsSound-tasks s s.bytes_read s.bytes_written _ h.0,
    All-snoc s.destroyed s.writable s.tasks t h.1 may,
  )

  answer_later-Good :
      (cb : Callback) (x : Bool) (s : VirtualSocket F) → Good s → Good (answer_later cb x s)
  answer_later-Good none x s h = h
  answer_later-Good (some c) x s h = next_tick-Good (answer c x) s tt h

  read_lines-Good :
      (cd : Codec F) (ls : List Text) (s : VirtualSocket F) → Good s → Good (read_lines cd ls s)
  unfolding read_lines
  read_lines-Good cd [] s h = h
  read_lines-Good cd ([] ∷ ls) s h = read_lines-Good cd ls s h
  read_lines-Good cd ((c ∷ l) ∷ ls) s h = elim (Option-cases (cd.parse (c ∷ l))) [
    | inl bad ↦ rw (bad, read_lines) (read_lines-Good cd ls s h)
    | inr (f, good) ↦
        rw (good, read_lines)
          (read_lines-Good cd ls _ (
            IsSound-tasks s _ s.bytes_written _ h.0,
            All-snoc s.destroyed s.writable s.tasks (deliver f) h.1 tt,
          ))
  ]

  choose-Good : (b : Bool) (s t : VirtualSocket F) → Good s → Good t → Good (if b then s else t)
  choose-Good true s t h k = h
  choose-Good false s t h k = k

  choose-Waits : (b : Bool) (s t : VirtualSocket F) → Waits s → Waits t → Waits (if b then s else t)
  choose-Waits true s t h k = h
  choose-Waits false s t h k = k

  choose_write-Good :
      (b : Bool) (s t : VirtualSocket F × Bool)
      → Good s.0
      → Good t.0
      → Good ((if b then s else t).0)
  choose_write-Good true s t h k = h
  choose_write-Good false s t h k = k

  write-Good :
      (cd : Codec F) (p : Payload) (cb : Callback) (s : VirtualSocket F)
      → Good s
      → Good (write cd p cb s).0
  unfolding write accept
  write-Good cd unsupported cb s h =
      choose_write-Good (s.destroyed || not s.writable) (answer_later cb true s, false)
        (answer_later cb true s, false) (answer_later-Good cb true s h)
        (answer_later-Good cb true s h)
  write-Good cd (text t) cb s h =
      choose_write-Good (s.destroyed || not s.writable) (answer_later cb true s, false)
        (answer_later cb false (accept cd t s), true) (answer_later-Good cb true s h)
        (answer_later-Good cb false (accept cd t s)
          (read_lines-Good cd (split 10 t) _ (IsSound-tasks s s.bytes_read _ s.tasks h.0, h.1)))

  end-Good :
      (cd : Codec F) (p : Option Payload) (cb : Callback) (s : VirtualSocket F)
      → Good s
      → Good (end cd p cb s)
  unfolding end write_and_end
  end-Good cd none cb s h =
      choose-Good s.destroyed (answer_later cb false s) (next_tick (finalize cb) s)
        (answer_later-Good cb false s h) (next_tick-Good (finalize cb) s tt h)
  end-Good cd (some p) cb s h =
      choose-Good s.destroyed (answer_later cb false s) (write_and_end cd p cb s)
        (answer_later-Good cb false s h)
        (next_tick-Good (finalize_later cb) (write cd p none s).0 tt (write-Good cd p none s h))

  destroy-IsSound : (w : Bool) (s : VirtualSocket F) → IsSound s → IsSound (destroy w s)
  unfolding destroy
  destroy-IsSound w s h = ground arith

  destroy-Waits : (w : Bool) (s : VirtualSocket F) → Waits s → Waits (destroy w s)
  unfolding destroy
  destroy-Waits w s h = choose-Waits s.destroyed s _ h (
      All-snoc true false s.tasks (close_destroyed w)
        (All-shut s.destroyed false s.tasks (All-shut s.destroyed s.writable s.tasks h).0).1 refl)

  perform-IsSound :
      (t : Task F) (s : VirtualSocket F)
      → MayWait s.destroyed s.writable t
      → IsSound s
      → IsSound (perform t s)
  unfolding perform emit_finish emit_end emit_close
  perform-IsSound (close_after_end none) s may h = ground arith
  perform-IsSound (close_after_end (some c)) s may h = ground arith
  perform-IsSound t s may h = ground arith

  emit_close-Waits : (w : Bool) (s : VirtualSocket F) → Waits s → Waits (emit_close w s)
  unfolding emit_close
  emit_close-Waits w s h = choose-Waits s.close_emitted s _ h h

  emit_both-Waits : (s : VirtualSocket F) → Waits s → Waits (emit_end (emit_finish s))
  unfolding emit_end emit_finish
  emit_both-Waits s h =
      choose-Waits (emit_finish s).end_emitted (emit_finish s) _
        (choose-Waits s.finish_emitted s _ h h) (choose-Waits s.finish_emitted s _ h h)

  emit_both-writable : (s : VirtualSocket F) → (emit_end (emit_finish s)).writable ≡ s.writable
  unfolding emit_end emit_finish
  emit_both-writable s = ground arith

  perform-Waits : (t : Task F) (s : VirtualSocket F) → Waits s → Waits (perform t s)
  unfolding perform
  perform-Waits (deliver f) s h = choose-Waits s.destroyed s _ h h
  perform-Waits (answer c x) s h = h
  perform-Waits (finalize_later cb) s h = All-snoc s.destroyed s.writable s.tasks (finalize cb) h tt
  perform-Waits (finalize cb) s h =
      let shut : VirtualSocket F = record s { writable = false } in
      let told = emit_end (emit_finish shut) in
      choose-Waits s.writable (next_tick (close_after_end cb) told) s
        (All-snoc told.destroyed told.writable told.tasks (close_after_end cb)
          (emit_both-Waits shut (All-shut s.destroyed s.writable s.tasks h).0)
          (emit_both-writable shut))
        h
  perform-Waits (close_after_end none) s h =
      emit_close-Waits false (record s { readable = false; destroyed = true; lmx_closed = true })
        (All-shut s.destroyed s.writable s.tasks h).1
  perform-Waits (close_after_end (some c)) s h =
      emit_close-Waits false (record s { readable = false; destroyed = true; lmx_closed = true })
        (All-shut s.destroyed s.writable s.tasks h).1
  perform-Waits (close_destroyed w) s h =
      emit_close-Waits w (if w then emit errored s else s) (choose-Waits w (emit errored s) s h h)

  run_task-Good :
      (ts : List (Task F)) (s : VirtualSocket F)
      → All (MayWait s.destroyed s.writable) ts
      → Good s
      → Good (run_task ts s)
  unfolding run_task
  run_task-Good [] s all h = h
  run_task-Good (t ∷ ts) s all h =
      let left : VirtualSocket F = record s { tasks = ts } in
      (
        perform-IsSound t left all.0 (IsSound-tasks s s.bytes_read s.bytes_written ts h.0),
        perform-Waits t left all.1,
      )

  act-Good : (cd : Codec F) (a : Action) (s : VirtualSocket F) → Good s → Good (act cd a s)
  unfolding act tick
  act-Good cd (writes p cb) s h = write-Good cd p cb s h
  act-Good cd (ends p cb) s h = end-Good cd p cb s h
  act-Good cd (destroys w) s h = (destroy-IsSound w s h.0, destroy-Waits w s h.1)
  act-Good cd ticks s h = run_task-Good s.tasks s h.1 h

  act_all-Good :
      (cd : Codec F) (xs : List Action) (s : VirtualSocket F) → Good s → Good (act_all cd xs s)
  unfolding act_all
  act_all-Good cd [] s h = h
  act_all-Good cd (a ∷ xs) s h = act_all-Good cd xs (act cd a s) (act-Good cd a s h)

  -- Whatever is written to a new socket, and whenever it is ended, destroyed or the event loop turns: it
  -- emits `finish`, `end` and `close` at most once each, `end` only after `finish`, and neither of these two
  -- nor a frame after `close`.
  pub act_all-IsOrderly :
      (cd : Codec F) (xs : List Action) → IsOrderly (act_all cd xs (new_socket {F = F})).log
  unfolding new_socket
  act_all-IsOrderly cd xs =
      (act_all-Good cd xs new_socket (
        record {
          orderly = tt;
          finish_told = refl;
          end_told = refl;
          close_told = refl;
          together = refl;
          gone = refl;
          half_closed = refl;
          close_last = refl;
        },
        tt,
      )).0.orderly
