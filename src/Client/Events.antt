-- ===== src/Client/Events.antt =====
-- What happens to a client (src/client.ts): its calls, the frames of the broker, its timers, its connection.
use live_mutex.Prelude.{ℕ, Bool, true, Option, List, [], ◌∷◌}
use live_mutex.Client.{
  Call, Request, Data, Client, lock_internal, unlock_internal, on_data, timer_fires, recover,
  end_current_connection, close,
}

-- What happens to a client. The calls are those that the callbacks make which a loop over the requests calls.
pub data Happening : Type 0 where
  locks : (uuid : ℕ) → Request → Happening
  unlocks : (uuid key : ℕ) → (holder : Option ℕ) → (force : Bool) → Happening
  receives : Data → Happening
  fires : (uuid : ℕ) → Happening
  connects : Happening
  loses_connection ends_connection closes : List Call → Happening

unfoldable pub happen : Happening → Client → Client
unfolding lock_internal unlock_internal on_data timer_fires recover end_current_connection close
happen (locks u r) c = lock_internal u r c
happen (unlocks u k holder force) c = unlock_internal u k holder force c
happen (receives data_) c = on_data data_ c
happen (fires u) c = timer_fires u c
happen (loses_connection calls) c = recover calls c
happen connects c = record c { is_open = true }
happen (ends_connection calls) c = end_current_connection calls c
happen (closes calls) c = close calls c

unfoldable pub happen_all : List Happening → Client → Client
unfolding happen
happen_all [] c = c
happen_all (x ∷ xs) c = happen_all xs (happen x c)
