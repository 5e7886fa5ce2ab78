-- ===== src/Client/Timing.antt =====
-- c++/client/clientConn.cpp: the timer of the client's connections, and what is sent on one. The JSON of
-- the client's status and what netlib_connect returns are arguments.
use postfix_edm.Prelude.{
  ℕ, List, [], ◌∷◌, map, Option, none, some, Bool, true, false, ltb, if◌then◌else◌,
}
use postfix_edm.Pdu.Message.{client_beat}
use postfix_edm.Net.Timers.{add64}
use postfix_edm.Server.{Packet, plain}
use postfix_edm.Client.{ClientConn, Client, send_pdu, connect_server, has_handle, close_conn}

-- `send_server_pdu`.
unfoldable pub send_server_pdu : ℕ → Packet → Client → Client
send_server_pdu now packet client = record client { conns = map (send_pdu now packet) client.conns }

abbrev pub client_heartbeat_interval : ℕ
client_heartbeat_interval = 5000

abbrev pub server_timeout : ℕ
server_timeout = 30000

abbrev pub wants_beat : ℕ → ClientConn → Bool
wants_beat now c = ltb (add64 c.last_send_tick client_heartbeat_interval) now

abbrev pub is_timed_out : ℕ → ClientConn → Bool
is_timed_out now c = ltb (add64 c.last_recv_tick server_timeout) now

-- A connection of the map is found by its handle.
abbrev pub beat_on : ℕ → List ℕ → Option ℕ → ClientConn → ClientConn
beat_on now json none d = d
beat_on now json (some h) d =
    if has_handle d.handle h then send_pdu now (plain (client_beat json)) d else d

abbrev pub is_alone : List ClientConn → Bool
is_alone [] = true
is_alone (c ∷ cs) = false

-- The end of `OnTimer`.
abbrev pub reconnect : ℕ → Option ℕ → Client → Client
reconnect now made client = if is_alone client.conns then connect_server now made client else client

-- `OnTimer`.
unfoldable pub on_timer : ℕ → List ℕ → Option ℕ → ClientConn → Client → Client
on_timer now json made c client =
    let client' : Client =
      if wants_beat now c
      then record client { conns = map (beat_on now json c.handle) client.conns }
      else client in
    if is_timed_out now c then reconnect now made (close_conn c client') else client'

-- `client_conn_timer_callback`, over the connections there are at its start.
unfoldable pub timer_loop : ℕ → List ℕ → Option ℕ → List ClientConn → Client → Client
timer_loop now json made [] client = client
timer_loop now json made (c ∷ cs) client =
    timer_loop now json made cs (on_timer now json made c client)

unfoldable pub client_conn_timer : ℕ → List ℕ → Option ℕ → Client → Client
client_conn_timer now json made client = timer_loop now json made client.conns client
