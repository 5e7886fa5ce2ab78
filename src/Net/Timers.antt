-- ===== src/Net/Timers.antt =====
-- c++/base/EventDispatch.cpp: the timers. None of the three callbacks of the programs,
-- worker_timer_callback of c++/client/client.cpp, client_conn_timer_callback and
-- server_conn_timer_callback, adds or removes a timer, so the calls of a check are listed.
use postfix_edm.Prelude.{
  ℕ, ◌+◌, ◌%◌, ◌^◌, List, [], ◌∷◌, ◌++◌, Bool, ◌&&◌, ◌==◌, leb, if◌then◌else◌,
}

-- `TimerItem`; a callback and its data are pointers, and a tick is a uint64_t.
pub record TimerItem : Type 0 where
  pub callback : ℕ
  pub user_data : ℕ
  pub interval : ℕ
  pub next_tick : ℕ

abbrev pub add64 : ℕ → ℕ → ℕ
add64 a b = (a + b) % 2 ^ 64

abbrev pub is_for : ℕ → ℕ → TimerItem → Bool
is_for callback user_data t = t.callback == callback && t.user_data == user_data

-- `AddTimer` at time `now`: the item for the callback and the data starts again, or there is a new one
-- at the end.
unfoldable pub add_timer : ℕ → ℕ → ℕ → ℕ → List TimerItem → List TimerItem
add_timer now callback user_data interval [] =
    record {
      callback = callback;
      user_data = user_data;
      interval = interval;
      next_tick = add64 now interval;
    }
    ∷ []
add_timer now callback user_data interval (t ∷ ts) =
    if is_for callback user_data t
    then record t { interval = interval; next_tick = add64 now interval } ∷ ts
    else t ∷ add_timer now callback user_data interval ts

-- `RemoveTimer`: the first item for the callback and the data goes.
unfoldable pub remove_timer : ℕ → ℕ → List TimerItem → List TimerItem
remove_timer callback user_data [] = []
remove_timer callback user_data (t ∷ ts) =
    if is_for callback user_data t then ts else t ∷ remove_timer callback user_data ts

-- A call that a timer makes.
pub record Fired : Type 0 where
  pub callback : ℕ
  pub user_data : ℕ

abbrev pub fired_by : TimerItem → Fired
fired_by t = record { callback = t.callback; user_data = t.user_data }

abbrev pub advanced : TimerItem → TimerItem
advanced t = record t { next_tick = add64 t.next_tick t.interval }

-- `_CheckTimer` at time `curr_tick`: the calls, in order, and the timers after it.
unfoldable pub check_timer : ℕ → List TimerItem → List Fired × List TimerItem
check_timer curr_tick [] = ([], [])
check_timer curr_tick (t ∷ ts) =
    let rest = check_timer curr_tick ts in
    if leb t.next_tick curr_tick
    then (fired_by t ∷ rest.0, advanced t ∷ rest.1)
    else (rest.0, t ∷ rest.1)

-- The checks of the rounds of `StartDispatch`, at the times `ticks`.
unfoldable pub check_rounds : List ℕ → List TimerItem → List Fired × List TimerItem
check_rounds [] ts = ([], ts)
check_rounds (tick ∷ ticks) ts =
    let now = check_timer tick ts in
    let later = check_rounds ticks now.1 in (now.0 ++ later.0, later.1)
