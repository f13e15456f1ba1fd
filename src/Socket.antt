-- ===== src/Socket.antt =====
-- The in-process socket of src/in-process-bridge.ts (`VirtualSocket`): the broker writes frames to it as to a
-- network socket. `process.nextTick` is a queue of tasks, the next one first; what the socket emits, and the
-- frames and callbacks that it hands over, are logs with the latest first. `JSON.parse` and
-- the length of a text in bytes are parameters.
pub mod Lifecycle
use live_mutex.Prelude.{
  ℕ, ◌+◌, Bool, true, false, not, ◌||◌, Option, none, some, List, [], ◌∷◌, ◌++◌, if◌then◌else◌,
  length,
}
use live_mutex.Framing.{Text, split}

pub record Codec (F : Type 0) : Type 0 where
  pub parse : Text → Option F
  pub byte_length : Text → ℕ

-- The argument `data` of `write`: a string or bytes, as the text that they stand for, or another value.
pub data Payload : Type 0 where
  text : Text → Payload
  unsupported : Payload

-- A callback of the caller, by a number that tells it apart.
abbrev pub Callback : Type 0
Callback = Option ℕ

-- What a task on the queue does.
pub data Task (F : Type 0) : Type 0 where
  deliver : F → Task F
  answer : (callback : ℕ) → (failed : Bool) → Task F
  finalize_later : Callback → Task F
  finalize : Callback → Task F
  close_after_end : Callback → Task F
  close_destroyed : (with_error : Bool) → Task F

-- The events of the socket, and its calls of `onFrame` and of callbacks.
pub data Signal (F : Type 0) : Type 0 where
  finished ended errored : Signal F
  closed : (with_error : Bool) → Signal F
  on_frame : F → Signal F
  called_back : (callback : ℕ) → (failed : Bool) → Signal F

pub record VirtualSocket (F : Type 0) : Type 0 where
  pub writable : Bool
  pub readable : Bool
  pub destroyed : Bool
  pub bytes_read : ℕ
  pub bytes_written : ℕ
  pub lmx_closed : Bool
  pub finish_emitted : Bool
  pub end_emitted : Bool
  pub close_emitted : Bool
  pub tasks : List (Task F)
  pub log : List (Signal F)

abbrev newline : ℕ
newline = 10

module _ {F : Type 0} where
  unfoldable pub new_socket : VirtualSocket F
  new_socket = record {
    writable = true;
    readable = true;
    destroyed = false;
    bytes_read = 0;
    bytes_written = 0;
    lmx_closed = false;
    finish_emitted = false;
    end_emitted = false;
    close_emitted = false;
    tasks = [];
    log = [];
  }

  abbrev pub next_tick : Task F → VirtualSocket F → VirtualSocket F
  next_tick t s = record s { tasks = s.tasks ++ t ∷ [] }

  abbrev pub emit : Signal F → VirtualSocket F → VirtualSocket F
  emit x s = record s { log = x ∷ s.log }

  -- `if (callback) NEXT_TICK(callback, …)`
  abbrev pub answer_later : Callback → Bool → VirtualSocket F → VirtualSocket F
  answer_later none failed s = s
  answer_later (some c) failed s = next_tick (answer c failed) s

  -- The frames of the lines: those that are empty or do not parse are dropped.
  unfoldable pub read_lines : Codec F → List Text → VirtualSocket F → VirtualSocket F
  read_lines cd [] s = s
  read_lines cd ([] ∷ ls) s = read_lines cd ls s
  read_lines cd ((c ∷ l) ∷ ls) s = read_lines cd ls (elim (cd.parse (c ∷ l)) [
    | none ↦ s
    | some f ↦ next_tick (deliver f) (record s { bytes_read = s.bytes_read + (length (c ∷ l) + 1) })
  ])

  -- The lines of a text that is accepted.
  unfoldable pub accept : Codec F → Text → VirtualSocket F → VirtualSocket F
  unfolding read_lines
  accept cd t s =
      read_lines cd (split newline t)
        (record s { bytes_written = s.bytes_written + cd.byte_length t })

  -- `write`; its result is whether the data were accepted.
  unfoldable pub write : Codec F → Payload → Callback → VirtualSocket F → VirtualSocket F × Bool
  unfolding accept
  write cd p cb s =
      if s.destroyed || not s.writable then (answer_later cb true s, false) else elim p [
        | unsupported ↦ (answer_later cb true s, false)
        | text t ↦ (answer_later cb false (accept cd t s), true)
      ]

  -- The `write` inside `end`, whose callback queues `finalize`, whether or not the write was accepted.
  unfoldable pub write_and_end : Codec F → Payload → Callback → VirtualSocket F → VirtualSocket F
  unfolding write
  write_and_end cd p cb s = next_tick (finalize_later cb) (write cd p none s).0

  -- `end`, with or without a payload.
  unfoldable pub end : Codec F → Option Payload → Callback → VirtualSocket F → VirtualSocket F
  unfolding write_and_end
  end cd p cb s =
      if s.destroyed
      then answer_later cb false s
      else elim p [ none ↦ next_tick (finalize cb) s | some data_ ↦ write_and_end cd data_ cb s ]

  unfoldable pub destroy : Bool → VirtualSocket F → VirtualSocket F
  destroy with_error s =
      if s.destroyed
      then s
      else next_tick (close_destroyed with_error)
          (record s { writable = false; readable = false; destroyed = true; lmx_closed = true })

  unfoldable pub emit_finish : VirtualSocket F → VirtualSocket F
  emit_finish s = if s.finish_emitted then s else emit finished (record s { finish_emitted = true })

  unfoldable pub emit_end : VirtualSocket F → VirtualSocket F
  emit_end s = if s.end_emitted then s else emit ended (record s { end_emitted = true })

  unfoldable pub emit_close : Bool → VirtualSocket F → VirtualSocket F
  emit_close with_error s =
      if s.close_emitted then s else emit (closed with_error) (record s { close_emitted = true })

  abbrev pub call_back : Callback → VirtualSocket F → VirtualSocket F
  call_back none s = s
  call_back (some c) s = emit (called_back c false) s

  unfoldable pub perform : Task F → VirtualSocket F → VirtualSocket F
  unfolding emit_finish emit_end emit_close
  perform (deliver f) s = if s.destroyed then s else emit (on_frame f) s
  perform (answer c failed) s = emit (called_back c failed) s
  perform (finalize_later cb) s = next_tick (finalize cb) s
  perform (finalize cb) s =
      if s.writable
      then next_tick (close_after_end cb) (emit_end (emit_finish (record s { writable = false })))
      else s
  perform (close_after_end cb) s =
      call_back cb
        (emit_close false (record s { readable = false; destroyed = true; lmx_closed = true }))
  perform (close_destroyed with_error) s =
      emit_close with_error (if with_error then emit errored s else s)

  unfoldable pub run_task : List (Task F) → VirtualSocket F → VirtualSocket F
  unfolding perform
  run_task [] s = s
  run_task (t ∷ ts) s = perform t (record s { tasks = ts })

  -- The event loop takes the next task.
  unfoldable pub tick : VirtualSocket F → VirtualSocket F
  unfolding run_task
  tick s = run_task s.tasks s

-- What can happen to a socket.
pub data Action : Type 0 where
  writes : Payload → Callback → Action
  ends : Option Payload → Callback → Action
  destroys : (with_error : Bool) → Action
  ticks : Action

module _ {F : Type 0} where
  unfoldable pub act : Codec F → Action → VirtualSocket F → VirtualSocket F
  unfolding write end destroy tick
  act cd (writes p cb) s = (write cd p cb s).0
  act cd (ends p cb) s = end cd p cb s
  act cd (destroys with_error) s = destroy with_error s
  act cd ticks s = tick s

  unfoldable pub act_all : Codec F → List Action → VirtualSocket F → VirtualSocket F
  act_all cd [] s = s
  act_all cd (a ∷ as_) s = act_all cd as_ (act cd a s)
