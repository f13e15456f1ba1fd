-- ===== src/Examples/Sharing.antt =====
-- The theorems on readers and writers, and on who is admitted, at concrete inputs.
use live_mutex.Prelude.{◌≡◌, refl, true, false, none, List, [], ◌∷◌}
use live_mutex.Dict.{get}
use live_mutex.Broker.Lock.{lock, validate_max_field}
use live_mutex.Broker.Admission.{IsDecided, lock-IsDecided}
use live_mutex.RwClient.{
  Reply, register_write_flag_success, register_write_flag_check_queued, no_data, other_type, Result,
  RwOptions, run, acquire_read_lock, acquire_write_lock, release_write_lock, release_read_lock,
}
use live_mutex.RwClient.Sessions.{
  Account, write_session, read_session, effects, and_release, then_release,
  write_session-IsBalanced, read_session-Counts, counted_twice, was_queued,
}
use live_mutex.Examples.{list_queue, at, ask, held_lock, held_broker}

lock-IsDecided_example :
    IsDecided (ask 50) 4 2 held_lock.lockholders (lock (at 10) (ask 50) 4 held_broker)
unfolding get validate_max_field
lock-IsDecided_example =
    lock-IsDecided (at 10) (ask 50) 4 2 held_lock held_broker refl refl refl refl

abbrev options : RwOptions
options = record { max = none; max_read = none; max_write = none }

abbrev fine : Reply
fine = record { error = false; type_ = no_data }

abbrev bad : Reply
bad = record { error = true; type_ = other_type }

abbrev go_ahead : Reply
go_ahead = record { error = false; type_ = register_write_flag_success }

-- The client holds the key twice already, and reads once.
abbrev account : Account
account = record { holds = 2; readers = 1; writing = false }

abbrev over : Result
over = record { failed = false; releasable = false }

-- The check of the readers fails, and the lock is given back.
abbrev failed_over : Result
failed_over = record { failed = true; releasable = false }

write_session-IsBalanced_example :
    effects (run (write_session options) (fine ∷ bad ∷ fine ∷ [])).0 account ≡ account
unfolding run write_session acquire_write_lock then_release and_release release_write_lock
write_session-IsBalanced_example =
    write_session-IsBalanced options (fine ∷ bad ∷ fine ∷ []) failed_over account refl refl
      (λ e. cc, (λ e. cc, (λ e. refl, tt)))

-- The check of the reader is queued, and goes through later.
abbrev queued : Reply
queued = record { error = false; type_ = register_write_flag_check_queued }

abbrev queued_first : List Reply
queued_first = queued ∷ go_ahead ∷ fine ∷ fine ∷ fine ∷ fine ∷ []

read_session-Counts_example :
    effects (run (read_session options) queued_first).0 account
    ≡ counted_twice (was_queued (run (read_session options) queued_first).0) account
unfolding run read_session acquire_read_lock then_release and_release release_read_lock
read_session-Counts_example =
    read_session-Counts options queued_first over account refl
      (λ e. refl, (λ e. refl, (λ e. refl, (λ e. refl, (λ e. refl, tt)))))
