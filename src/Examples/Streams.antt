-- ===== src/Examples/Streams.antt =====
-- The theorems on streams of frames, the bridge and the queries at concrete inputs.
use mathlib.Core.List.{map, Perm}
use live_mutex.Prelude.{
  ℕ, ◌+◌, ◌≤◌, ◌≡◌, refl, true, false, none, some, List, [], ◌∷◌, ◌++◌, arith, Every, All, length,
  ltb, if◌then◌else◌,
}
use live_mutex.Dict.{get, times}
use live_mutex.Broker.Types.{Env, Broker, many_unknown}
use live_mutex.Broker.Lock.{absent, whole}
use live_mutex.Broker.Drain.{drain}
use live_mutex.Broker.Fifo.{IsFifo, drain-IsFifo}
use live_mutex.Broker.Queries.{
  KeyRow, weight, rows, build_stats_snapshot, top_keys-most, clamp_max, clamp_max_bounds,
}
use live_mutex.Framing.{Text, StringDecoder, bytes, Options, Parser, transform, transform_all}
use live_mutex.Framing.Lines.{encode}
use live_mutex.Framing.Chunks.{view, transform_all-joined, transform_all-encode}
use live_mutex.Framing.Pauses.{IsPaced, transform_all-IsPaced}
use live_mutex.Versions.{
  compare_versions, compatible, compare_versions_sym, compare_versions-first_digit,
}
use live_mutex.Socket.{text, act_all, new_socket, writes, ends, destroys, ticks}
use live_mutex.Socket.Lifecycle.{IsOrderly, act_all-IsOrderly}
use live_mutex.Bridge.{
  Json, new_bridge, reply_uuid, lock_call, unlock_call, turn, shutdown_call, timer_fires, Call,
  calls,
}
use live_mutex.Bridge.Requests.{requested, calls-settles}
use live_mutex.Examples.{Items, list_queue, at, waits, free_lock, idle_broker, held_broker}

-- Two waiters with their sockets, for one slot.
abbrev live_queue : Items
live_queue = (22, waits 22 4) ∷ (23, waits 23 5) ∷ []

drain-IsFifo_example :
    (b' : Broker Items) × (drain (at 10) 3 1 (idle_broker live_queue) ≡ some b')
    × IsFifo 1 (free_lock live_queue) live_queue b'
unfolding get
drain-IsFifo_example =
    drain-IsFifo (at 10) 3 1 (free_lock live_queue) live_queue (idle_broker live_queue) refl refl
      (refl, (refl, tt)) (refl, (refl, tt)) (refl, (refl, tt)) (omega arith)

top_keys-most_example :
    (others : List KeyRow) × Perm
      ((build_stats_snapshot held_broker).top_keys ++ others)
      (rows held_broker.locks)
    × (length (build_stats_snapshot held_broker).top_keys ≤ 10)
    × All (λ r. All (λ s. weight s ≤ weight r) others) (build_stats_snapshot held_broker).top_keys
top_keys-most_example = top_keys-most held_broker

clamp_max_bounds_example :
    (1 ≤ (clamp_max 1000 (whole 5000) 7).0)
    × ((clamp_max 1000 (whole 5000) 7).0 ≤ 1000)
    × ((clamp_max 1000 (whole 5000) 7).1 ≡ (if ltb 1000 5000 then 7 + 1 else 7))
clamp_max_bounds_example = clamp_max_bounds 1000 (whole 5000) 7 (omega arith)

-- A decoder of single bytes.
abbrev latin1 : (u : Unit {0}) → List ℕ → Text × Unit {0}
latin1 u bs = (bs, u)

latin1-append :
    (d : Unit {0}) (xs ys : List ℕ)
    → latin1 d (xs ++ ys)
      ≡ ((latin1 d xs).0 ++ (latin1 (latin1 d xs).1 ys).0, (latin1 (latin1 d xs).1 ys).1)
latin1-append d xs ys = refl

instance abbrev latin1_decoder : StringDecoder (Unit {0})
latin1_decoder = record {
  write = latin1;
  finish = λ d. ([], d);
  write_nil = λ d. refl;
  write_append = latin1-append;
}

abbrev options : Options
options = record {
  delimiter = 10;
  delay = true;
  delay_every = 2;
  is_track_bytes_read = true;
  byte_length = length;
}

abbrev new_parser : Parser (Unit {0})
new_parser = record { decoder = tt; last_line_data = []; jp_bytes_read = 0; count = 0; log = [] }

-- The lines 65 66 and 67, cut inside the first and before the last delimiter.
transform_all-joined_example :
    view (
      transform_all options
        (map bytes ((65 ∷ []) ∷ (66 ∷ 10 ∷ 67 ∷ []) ∷ (10 ∷ []) ∷ []))
        new_parser)
    ≡ view (transform options (bytes (65 ∷ 66 ∷ 10 ∷ 67 ∷ 10 ∷ [])) new_parser)
transform_all-joined_example =
    transform_all-joined options (65 ∷ []) ((66 ∷ 10 ∷ 67 ∷ []) ∷ (10 ∷ []) ∷ []) new_parser

transform_all-encode_example :
    view (
      transform_all options
        (map bytes ((65 ∷ []) ∷ (66 ∷ 10 ∷ 67 ∷ []) ∷ (10 ∷ []) ∷ []))
        new_parser)
    ≡ ((65 ∷ 66 ∷ []) ∷ (67 ∷ []) ∷ [], [], tt)
unfolding encode
transform_all-encode_example =
    transform_all-encode options ((65 ∷ 66 ∷ []) ∷ (67 ∷ []) ∷ []) (65 ∷ [])
      ((66 ∷ 10 ∷ 67 ∷ []) ∷ (10 ∷ []) ∷ []) new_parser tt refl (refl, (refl, tt))
      ((λ h. cc), ((λ h. cc), tt)) refl

transform_all-IsPaced_example :
    IsPaced 2 (transform_all options (bytes (65 ∷ 10 ∷ 66 ∷ 10 ∷ 67 ∷ 10 ∷ []) ∷ []) new_parser)
transform_all-IsPaced_example =
    transform_all-IsPaced options (bytes (65 ∷ 10 ∷ 66 ∷ 10 ∷ 67 ∷ 10 ∷ []) ∷ []) new_parser refl
      (omega arith) (omega arith)

-- `1.12.0` and `2.0.0`
compare_versions_sym_example :
    compare_versions (some (49 ∷ 46 ∷ 49 ∷ 50 ∷ [])) (some (50 ∷ 46 ∷ 48 ∷ []))
    ≡ compare_versions (some (50 ∷ 46 ∷ 48 ∷ [])) (some (49 ∷ 46 ∷ 49 ∷ 50 ∷ []))
compare_versions_sym_example =
    compare_versions_sym (49 ∷ 46 ∷ 49 ∷ 50 ∷ []) (50 ∷ 46 ∷ 48 ∷ []) (λ h. cc) (λ h. cc)

-- `0.2.1` and `0.25.3`
compare_versions-first_digit_example :
    compare_versions (some (48 ∷ 46 ∷ 50 ∷ 46 ∷ 49 ∷ [])) (some (48 ∷ 46 ∷ 50 ∷ 53 ∷ 46 ∷ 51 ∷ []))
    ≡ compatible
compare_versions-first_digit_example =
    compare_versions-first_digit (48 ∷ []) [] (53 ∷ []) (49 ∷ []) (51 ∷ []) 50 (λ h. cc) refl refl
      refl

-- A frame stands for its uuid alone.
abbrev uuid_json : Json
uuid_json = record {
  codec = record {
    parse = λ t. elim t [ [] ↦ none | c ∷ s ↦ some (many_unknown c) ];
    byte_length = length;
  };
  stringify = λ r. reply_uuid r ∷ [];
}

act_all-IsOrderly_example :
    IsOrderly
      (act_all
        (uuid_json.codec)
        (writes (text (65 ∷ 10 ∷ [])) none
          ∷ ends none (some 1)
          ∷ ticks
          ∷ destroys true
          ∷ ticks
          ∷ ticks
          ∷ [])
        new_socket).log
act_all-IsOrderly_example = act_all-IsOrderly uuid_json.codec (
    writes (text (65 ∷ 10 ∷ [])) none
    ∷ ends none (some 1)
    ∷ ticks
    ∷ destroys true
    ∷ ticks
    ∷ ticks
    ∷ [])

-- A lock that is granted, an unlock whose timer fires, and a shutdown.
abbrev bridge_calls : List (Env × Call)
bridge_calls =
    (at 10, lock_call 71 1 none absent false false)
    ∷ (at 11, turn)
    ∷ (at 12, unlock_call 72 1 (some 71) false)
    ∷ (at 13, timer_fires 72)
    ∷ (at 14, shutdown_call)
    ∷ []

bridge_calls_distinct : (u : ℕ) → requested u bridge_calls ≤ 1
bridge_calls_distinct u = ground arith

calls-settles_example :
    Every
      (λ br.
        ((u : ℕ) → times u br.inflight + times u br.settled ≡ requested u bridge_calls)
        × (br.closed ≡ true → (u : ℕ) → times u br.settled ≡ requested u bridge_calls))
      (calls uuid_json 9 1 bridge_calls (new_bridge 6 60000 (idle_broker [])))
calls-settles_example =
    calls-settles uuid_json 9 1 6 60000 bridge_calls (idle_broker []) bridge_calls_distinct
