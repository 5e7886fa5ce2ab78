-- ===== src/Net/Tests.antt =====
-- The sockets and the timers at concrete inputs.
use postfix_edm.Prelude.{
  ℕ, ◌≡◌, refl, List, [], ◌∷◌, none, some, Bool, true, false, arith, get_elem?,
}
use postfix_edm.Prelude.Int.{negsuc}
use postfix_edm.Prelude.Memory.{◌>>=◌}
use postfix_edm.Net.{
  BaseSocket, new_socket, Net, connected, make_socket, add_base_socket, put_socket,
  find_base_socket, add_ref, release_ref, remove_base_socket,
}
use postfix_edm.Net.BaseSockets.{Calls, close, on_read, on_write, on_close}
use postfix_edm.Net.Netlib.{netlib_close, netlib_send, with_socket, close_ok}
use postfix_edm.Net.Dispatch.{EpollEvent, handle_event, handle_events, run_handlers}
use postfix_edm.Net.Timers.{TimerItem, add_timer, remove_timer, check_timer, check_rounds}
use postfix_edm.Net.Counts.{IsNet}
use postfix_edm.Net.Balance.{Ends}
use postfix_edm.Net.Rounds.{Keeps, IsNet-new, then-Ends, handle_events_lem}
use postfix_edm.Net.Keeping.{
  netlib_close-IsNet, without, netlib_close_lem, netlib_send_lem, close_code, told, socket_of,
}
use postfix_edm.Net.Firing.{IsUnique, IsUnique-timers, count_for}
use postfix_edm.Net.Apart.{calls_for}
use postfix_edm.Net.Schedule.{
  IsOnSchedule, AreAtMost, AreAtLeast, repeat, after_firing, check_rounds-IsOnSchedule,
  check_rounds-every,
}

-- A callback that closes its socket whatever it is told, as the connections do on an error.
abbrev closer : Calls
closer callback user_data msg none net = some net
closer callback user_data msg (some handle) net = do
  (ret, net') ← netlib_close handle net
  some net'

closer-Keeps : Keeps closer
closer-Keeps extra net callback user_data msg none net_ok = record {
  result = net;
  returns = refl;
  holds = net_ok;
}
closer-Keeps extra net callback user_data msg (some handle) net_ok =
    then-Ends (netlib_close-IsNet handle net_ok)
      (λ r ok. record { result = r.1; returns = refl; holds = ok.1 })

-- A connected socket at address 0 with the handle 5.
abbrev empty_net : Net
empty_net = record { heap = λ p. none; next = 0; socket_map = λ h. none }

abbrev nobody : ℕ → ℕ
nobody p = 0

empty_net-IsNet : IsNet nobody empty_net
empty_net-IsNet = record {
  mapped = λ h p e. absurd (cc);
  held = λ p pos. absurd (omega arith);
  fresh = λ p le. refl;
}

abbrev peer : BaseSocket
peer = record new_socket { fd = some 5; state = connected }

abbrev one_net : Net
one_net = add_base_socket 0 (some 5) (put_socket 0 peer (make_socket empty_net).1)

one_net-IsNet : IsNet nobody one_net
unfolding make_socket
one_net-IsNet = IsNet-new 5 peer empty_net-IsNet refl refl

abbrev event : Bool → Bool → Bool → EpollEvent
event readable writable closed = record {
  fd = 5;
  readable = readable;
  writable = writable;
  closed = closed;
  peers = [];
  avail = false;
  failed = false;
}

-- The callback closes the socket as it is told of the end; the later tests of the same event still use it.
handle_events_lem_example :
    Ends
      (IsNet nobody)
      (handle_events closer (event true true true ∷ event true false false ∷ []) one_net)
handle_events_lem_example =
    handle_events_lem closer closer-Keeps (event true true true ∷ event true false false ∷ [])
      one_net-IsNet

netlib_close_lem_example :
    netlib_close 5 one_net ≡ some (close_code (one_net.socket_map 5), without 5 one_net)
netlib_close_lem_example = netlib_close_lem 5 one_net-IsNet

netlib_send_lem_example :
    netlib_send 5 (negsuc 0) true one_net
    ≡ some (told (socket_of 5 one_net) (negsuc 0) true, one_net)
netlib_send_lem_example = netlib_send_lem 5 (negsuc 0) true one_net-IsNet

-- A socket is freed when the last reference goes, and not before.
freed :
    (handle_events closer (event true true true ∷ []) one_net >>= λ net'. some (net'.heap 0))
    ≡ some none
unfolding handle_events handle_event run_handlers on_read on_write on_close find_base_socket add_ref
    release_ref remove_base_socket add_base_socket make_socket netlib_close with_socket close_ok
    close
freed = refl

abbrev ticking : TimerItem
ticking = record { callback = 1; user_data = 7; interval = 1000; next_tick = 5000 }

one_timer-IsUnique : IsUnique (ticking ∷ [])
unfolding IsUnique count_for
one_timer-IsUnique c u = ground arith

IsUnique-timers_example :
    (IsUnique (add_timer 4200 1 8 500 (ticking ∷ []))
      × (count_for 1 8 (add_timer 4200 1 8 500 (ticking ∷ [])) ≡ 1))
    × ((IsUnique (remove_timer 1 8 (ticking ∷ []))
          × (count_for 1 8 (remove_timer 1 8 (ticking ∷ [])) ≡ 0))
        × IsUnique (check_timer 5100 (ticking ∷ [])).1)
IsUnique-timers_example = IsUnique-timers 4200 5100 1 8 500 (ticking ∷ []) one_timer-IsUnique

abbrev late_ticks : List ℕ
late_ticks = 5100 ∷ 5900 ∷ 6000 ∷ 6100 ∷ []

late_ticks-AreAtMost : AreAtMost 6100 late_ticks
unfolding AreAtMost
late_ticks-AreAtMost = (omega arith, (omega arith, (omega arith, (omega arith, tt))))

abbrev other_timer : TimerItem
other_timer = record { callback = 2; user_data = 7; interval = 300; next_tick = 5050 }

two_timers-IsUnique : IsUnique (other_timer ∷ ticking ∷ [])
unfolding IsUnique count_for
two_timers-IsUnique c u = ground arith

check_rounds-IsOnSchedule_example :
    IsOnSchedule ticking 6100 4
      (calls_for 1 7 (check_rounds late_ticks (other_timer ∷ ticking ∷ [])).0)
      (get_elem? (check_rounds late_ticks (other_timer ∷ ticking ∷ [])).1 1)
check_rounds-IsOnSchedule_example =
    check_rounds-IsOnSchedule late_ticks 6100 (other_timer ∷ ticking ∷ []) 1 ticking
      two_timers-IsUnique refl late_ticks-AreAtMost (omega arith)

-- The first round is two intervals late.
abbrev later_ticks : List ℕ
later_ticks = 7300 ∷ 7310 ∷ 7320 ∷ []

later_ticks-AreAtLeast : AreAtLeast 5000 1000 later_ticks
unfolding AreAtLeast
later_ticks-AreAtLeast = (omega arith, (omega arith, (omega arith, tt)))

check_rounds-every_example :
    (calls_for 1 7 (check_rounds later_ticks (other_timer ∷ ticking ∷ [])).0
      ≡ repeat 3 (record { callback = 1; user_data = 7 }))
    × (get_elem? (check_rounds later_ticks (other_timer ∷ ticking ∷ [])).1 1
        ≡ some (after_firing 3 ticking))
check_rounds-every_example =
    check_rounds-every later_ticks (other_timer ∷ ticking ∷ []) 1 ticking two_timers-IsUnique refl
      later_ticks-AreAtLeast (omega arith)
