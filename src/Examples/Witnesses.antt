-- ===== src/Examples/Witnesses.antt =====
-- The theorems on the broker at concrete inputs.
use live_mutex.Prelude.{
  ℕ, ◌≡◌, refl, true, none, some, List, [], ◌∷◌, arith, Every, contains, ◌⊎◌, false,
}
use live_mutex.Dict.{get, set}
use live_mutex.Broker.Types.{Holder, LockObj, Broker}
use live_mutex.Broker.Attempt.{lock_or_default, is_contended}
use live_mutex.Broker.Unlock.{unlock}
use live_mutex.Broker.Unlocking.{unlock-IsFifo, unlock-mismatch, given_back}
use live_mutex.Broker.Fifo.{keys, IsFifo}
use live_mutex.Broker.Composite.{
  text, validate_keys, key_strings, insert_key, sorted_keys, acquire_many, release_many,
}
use live_mutex.Broker.Atomic.{holders_at}
use live_mutex.Broker.Atomic.Attempts.{IsFreshSupply}
use live_mutex.Broker.Atomic.Keys.{IsAscending, validate_keys-IsAscending}
use live_mutex.Broker.Atomic.Requests.{IsGranted, acquire_many-atomic}
use live_mutex.Broker.Atomic.Release.{waiting_at}
use live_mutex.Broker.Atomic.Roundtrip.{release_many-acquire_many}
use live_mutex.Broker.Drain.{capacity_of, drain, next_waiter, serve_next, again}
use live_mutex.Broker.Events.{run, new_broker}
use live_mutex.Broker.Closure.{Holds}
use live_mutex.Broker.Semaphore.{IsBounded, run-IsBounded}
use live_mutex.Broker.Fencing.{IsFenced, run-IsFenced}
use live_mutex.Broker.Rendezvous.{
  set_write_flag_to_false_and_broadcast, decrement_readers, listeners,
}
use live_mutex.Broker.Wakeups.{
  IsAwake, set_write_flag_to_false_and_broadcast-IsAwake, decrement_readers-IsAwake,
}
use live_mutex.Broker.Lock.{clean_up_locks}
use live_mutex.Broker.Retention.{is_held, clean_up_locks-keeps}
use live_mutex.Broker.Serving.{next_waiter-first}
use live_mutex.Broker.Serving.Rounds.{drain-IsServed, IsServed, serve_next-dead}
use live_mutex.Examples.{
  Items, list_queue, at, give_back, busy_day, two, respects, waits, free_lock, queue_of_two,
  idle_broker, held_lock, held_broker, force_back, ask_many, waiting_rw,
}

run-IsBounded_example : Every (Holds (IsBounded two)) (run {Q = Items} 9 busy_day new_broker)
run-IsBounded_example =
    run-IsBounded Items two 9 busy_day (λ k. omega arith)
      (respects 11, (respects 12, (respects 13, (tt, (tt, (tt, tt))))))

run-IsFenced_example : Every (Holds IsFenced) (run {Q = Items} 9 busy_day new_broker)
run-IsFenced_example = run-IsFenced Items 9 busy_day

next_waiter-first_example :
    (q' : Items) × (next_waiter (at 10) 3 none queue_of_two ≡ (some (waits 22 4), q')) × (q' ≡ [])
next_waiter-first_example =
    next_waiter-first (at 10) 3 none queue_of_two ((21, waits 21 9) ∷ []) 22 (waits 22 4) [] refl
      (refl, tt) refl (omega arith)

drain-IsServed_example :
    (b' : Broker Items) × (drain (at 10) 3 1 (idle_broker queue_of_two) ≡ some b') × IsServed 1 b'
unfolding get
drain-IsServed_example =
    drain-IsServed (at 10) 3 1 (free_lock queue_of_two) (idle_broker queue_of_two) refl
      (refl, (refl, tt)) (omega arith)

serve_next-dead_example :
    (b' : Broker Items) × (l' : LockObj Items) × (h : Holder) × (serve_next
        (at 10)
        1
        (free_lock ((21, waits 21 9) ∷ []))
        (idle_broker ((21, waits 21 9) ∷ []))
      ≡ again b')
    × (get 1 b'.locks ≡ some l')
    × (l'.lockholders ≡ set 21 h [])
    × (h.ws ≡ 9)
unfolding capacity_of
serve_next-dead_example =
    serve_next-dead (at 10) 1 (free_lock ((21, waits 21 9) ∷ []))
      (idle_broker ((21, waits 21 9) ∷ [])) [] 21 (waits 21 9) refl tt refl refl (omega arith)

-- Key 1 held by request 20, with two waiters whose sockets are there.
abbrev live_queue : Items
live_queue = (22, waits 22 4) ∷ (23, waits 23 5) ∷ []

abbrev awaited_lock : LockObj Items
awaited_lock = record held_lock { notify = live_queue }

abbrev awaited_broker : Broker Items
awaited_broker = record held_broker { locks = (1, awaited_lock) ∷ [] }

unlock-IsFifo_example :
    (b' : Broker Items) × (l' : LockObj Items) × (unlock
        (at 10)
        3
        (give_back 20)
        (some 3)
        awaited_broker
      ≡ some b')
    × (get 1 b'.locks ≡ some l')
    × (contains 20 (keys l'.lockholders) ≡ false)
    × IsFifo 1 (given_back 20 awaited_lock) live_queue b'
unfolding get
unlock-IsFifo_example =
    unlock-IsFifo (at 10) 3 20 (give_back 20) (some 3) awaited_lock live_queue awaited_broker refl
      refl refl refl (refl, (refl, tt)) (refl, (refl, tt)) (refl, (refl, (refl, tt))) (omega arith)

unlock-mismatch_example :
    (b' : Broker Items) × (unlock (at 10) 3 force_back (some 3) held_broker ≡ some b')
    × (b'.locks ≡ held_broker.locks)
    × (b'.holder_deadlines ≡ held_broker.holder_deadlines)
unfolding get
unlock-mismatch_example =
    unlock-mismatch (at 10) 3 19 force_back (some 3) held_lock held_broker refl refl refl refl

validate_keys-IsAscending_example :
    (given : List ℕ) × (key_strings (text 3 ∷ text 2 ∷ text 3 ∷ []) ≡ some given)
    × IsAscending (2 ∷ 3 ∷ [])
    × ((x : ℕ) → contains x (2 ∷ 3 ∷ []) ≡ contains x given)
unfolding validate_keys key_strings sorted_keys insert_key
validate_keys-IsAscending_example =
    validate_keys-IsAscending (text 3 ∷ text 2 ∷ text 3 ∷ []) (2 ∷ 3 ∷ []) refl

new_broker-IsFreshSupply : IsFreshSupply (at 10) (new_broker {Q = Items})
unfolding new_broker get
new_broker-IsFreshSupply = λ i j le. refl

acquire_many-atomic_example :
    IsGranted 4 1000
      (2 ∷ 3 ∷ [])
      (new_broker {Q = Items})
      (acquire_many (at 10) ask_many 4 new_broker)
    ⊎ ((j : ℕ)
        → holders_at j (acquire_many (at 10) ask_many 4 (new_broker {Q = Items}))
          ≡ holders_at j (new_broker {Q = Items}))
unfolding validate_keys key_strings sorted_keys insert_key new_broker
acquire_many-atomic_example =
    acquire_many-atomic (at 10) ask_many 4 (2 ∷ 3 ∷ []) new_broker refl new_broker-IsFreshSupply

new_broker-roomy :
    (k : ℕ) → contains k (2 ∷ 3 ∷ []) ≡ true → is_contended k (new_broker {Q = Items}) ≡ false
unfolding new_broker get is_contended
new_broker-roomy = λ k is_in. refl

new_broker-quiet :
    (k : ℕ) → contains k (2 ∷ 3 ∷ []) ≡ true → waiting_at k (new_broker {Q = Items}) ≡ 0
unfolding new_broker get
new_broker-quiet = λ k is_in. refl

release_many-acquire_many_example :
    IsGranted 4 1000
      (2 ∷ 3 ∷ [])
      (new_broker {Q = Items})
      (acquire_many (at 10) ask_many 4 new_broker)
    × (b' : Broker Items) × (release_many
          (at 20)
          1
          71
          (some 1000)
          4
          (acquire_many (at 10) ask_many 4 new_broker)
        ≡ some b')
    × ((j : ℕ) → holders_at j b' ≡ holders_at j (new_broker {Q = Items}))
    × (b'.composite_locks ≡ [])
unfolding validate_keys key_strings sorted_keys insert_key new_broker get
release_many-acquire_many_example =
    release_many-acquire_many (at 10) (at 20) 0 71 4 ask_many (2 ∷ 3 ∷ []) new_broker refl
      new_broker-IsFreshSupply refl new_broker-roomy new_broker-quiet

set_write_flag_to_false_and_broadcast-IsAwake_example :
    IsAwake
      (at 10)
      1
      1
      true
      []
      (listeners 1 waiting_rw)
      (set_write_flag_to_false_and_broadcast (at 10) 1 77 3 waiting_rw)
unfolding get lock_or_default
set_write_flag_to_false_and_broadcast-IsAwake_example =
    set_write_flag_to_false_and_broadcast-IsAwake (at 10) 1 77 3 waiting_rw (refl, (refl, tt))

decrement_readers-IsAwake_example :
    IsAwake
      (at 10)
      1
      1
      true
      []
      (listeners 1 waiting_rw)
      (decrement_readers (at 10) 1 77 3 waiting_rw)
unfolding get lock_or_default
decrement_readers-IsAwake_example =
    decrement_readers-IsAwake (at 10) 1 77 3 waiting_rw (refl, (refl, tt)) (omega arith)

clean_up_locks-keeps_example : get 1 (clean_up_locks (at 9000) held_broker).locks ≡ some held_lock
unfolding get
clean_up_locks-keeps_example =
    clean_up_locks-keeps (at 9000) 1 held_lock held_broker refl (is_held (omega arith))
