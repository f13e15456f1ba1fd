-- ===== src/Examples/Fences.antt =====
-- The theorems on the fencing tokens of the hardened broker at concrete inputs. The disk keeps the two files,
-- and its file format is the watermark itself.
use live_mutex.Prelude.{
  ℕ, ◌≤◌, ◌≡◌, ◌≢◌, refl, true, false, Option, none, some, List, [], ◌∷◌, arith,
}
use live_mutex.Dict.{get}
use live_mutex.Framing.{Text}
use live_mutex.Broker.Composite.{text, validate_keys}
use live_mutex.Hardened.Watermark.{parse_watermark_text, decimal, parse_watermark_text-decimal}
use live_mutex.Hardened.Storage.{Storage, watermark_v1, read_persisted_watermark}
use live_mutex.Hardened.Authority.{
  Authority, Event, locks, acquires, wakes, cleans_up, dies, dies_writing, fencing_token_exhausted,
  create, run, acquire_many, started, has_headroom,
}
use live_mutex.Hardened.Monotone.{IsRising}
use live_mutex.Hardened.Runs.{run-IsRising}
use live_mutex.Hardened.Headroom.{IsLow, acquire_many-ample}

-- The file at the state path and the temporary one.
abbrev Disk : Type 0
Disk = Option Text × Option Text

not_failed : (f : Disk) → true ≡ false → f.1 ≡ f.0
not_failed f p = cc

instance abbrev disk_storage : Storage Disk
disk_storage = record {
  stringify = λ w. w;
  parse = λ t. watermark_v1 (some t);
  read = λ f. f.0;
  temp = λ f. f.1;
  write_temp = λ t f. ((f.0, some t), true);
  rename = λ f. ((f.1, none), true);
  fsync_directory = λ f. (f, true);
  unlink_temp = λ f. (f.0, none);
  parse_stringify = λ w. refl;
  temp_write = λ t f p. refl;
  read_write = λ t f. refl;
  read_rename = λ f p. refl;
  read_failed = not_failed;
  read_fsync = λ f. refl;
  read_unlink = λ f. refl;
}

parse_watermark_text-decimal_example : parse_watermark_text (some (decimal 1024)) ≡ some 1024
parse_watermark_text-decimal_example = parse_watermark_text-decimal 1024 (omega arith)

-- A disk whose file says 41.
abbrev disk : Disk
disk = (some (52 ∷ 49 ∷ []), none)

-- Two grants, a crash, a grant after it at an earlier time, a crash in the write of 70, grants of two keys.
abbrev events : List Event
events =
    locks 10 1 false
    ∷ locks 11 1 true
    ∷ dies 0
    ∷ locks 5 1 false
    ∷ dies_writing 70 2 0
    ∷ cleans_up 1
    ∷ acquires 12 (some (text 2 ∷ text 1 ∷ [])) (1 ∷ 2 ∷ [])
    ∷ wakes 13 (1 ∷ [])
    ∷ []

run-IsRising_example :
    (a a' : Authority Disk) × (create 3 true disk [] ≡ some a)
    × (run events a ≡ some a')
    × IsRising a'.tokens
unfolding read_persisted_watermark parse_watermark_text
run-IsRising_example = run-IsRising 3 41 disk events refl

no_counters : (k n : ℕ) → get {V = ℕ} k [] ≡ some n → n ≤ 41
unfolding get
no_counters k n p = grind arith

low : IsLow 41 (started 3 true 41 disk [])
low = record { floor_low = omega arith; counters_low = no_counters; watermark_low = omega arith }

acquire_many-ample_example :
    (acquire_many 10 (some (text 2 ∷ text 1 ∷ [])) (1 ∷ 2 ∷ []) (started 3 true 41 disk [])).1
    ≢ some fencing_token_exhausted
unfolding validate_keys has_headroom
acquire_many-ample_example =
    acquire_many-ample 10 (some (text 2 ∷ text 1 ∷ [])) (1 ∷ 2 ∷ []) (1 ∷ 2 ∷ [])
      (started 3 true 41 disk []) refl low refl (omega arith) (omega arith)
