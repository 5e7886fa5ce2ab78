-- ===== src/Server/Handling.antt =====
-- c++/server/servConn.cpp: the connections of the server, and what it does with each packet.
use postfix_edm.Prelude.{
  ℕ, ◌+◌, ◌%◌, ◌^◌, List, [], ◌∷◌, ◌++◌, map, Option, none, some, Bool, ◌==◌, ltb, if◌then◌else◌,
}
use postfix_edm.Pdu.Types.{
  cid_command_start, cid_command_stop, cid_command_pause, cid_command_resume,
}
use postfix_edm.Pdu.Message.{beat, answer, status_answer}
use postfix_edm.Net.Timers.{add64}
use postfix_edm.Server.{
  ClientStatus, ServerStatus, client_php, Packet, plain, all_status, ServConn, Server, Answers,
  update_client_status, remove_client_status, sent_email_num, send_pdu, start, stop, pause, resume,
  adjust_send_rate,
}

-- The connection of a handle in the map.
unfoldable pub conn_of : ℕ → List ServConn → Option ServConn
conn_of handle [] = none
conn_of handle (c ∷ cs) =
    let rest = conn_of handle cs in if c.handle == handle then some c else rest

-- `onConnect2`; `unset` is what stands in the client type, and an insert keeps what is there. What
-- netlib_option does to the socket is the matter of Net.
unfoldable pub on_connect2 : ℕ → ℕ → List ℕ → ℕ → Server → Server
on_connect2 now handle ip unset srv = elim (conn_of handle srv.conns) [
  | some c ↦ srv
  | none ↦ record srv {
    conns =
        record {
          handle = handle;
          ip = ip;
          client_type = unset;
          last_send_tick = now;
          last_recv_tick = now;
          sent = [];
        }
        ∷ srv.conns;
  }
]

unfoldable pub erase_conn : ℕ → List ServConn → List ServConn
erase_conn handle [] = []
erase_conn handle (c ∷ cs) =
    let rest = erase_conn handle cs in if c.handle == handle then rest else c ∷ rest

-- `close`, also by `OnClose`.
unfoldable pub close_conn : ServConn → Server → Server
close_conn c srv =
    let srv' = remove_client_status c.ip srv in
    record srv' { closed = srv'.closed ++ (c.handle ∷ []); conns = erase_conn c.handle srv'.conns }

abbrev pub server_heartbeat_interval : ℕ
server_heartbeat_interval = 5000

abbrev pub client_timeout : ℕ
client_timeout = 30000

abbrev pub change_conn : ℕ → (ServConn → ServConn) → ServConn → ServConn
change_conn handle f c = if c.handle == handle then f c else c

-- A connection's own members change.
unfoldable pub on_conn : ℕ → (ServConn → ServConn) → Server → Server
on_conn handle f srv = record srv { conns = map (change_conn handle f) srv.conns }

-- What `OnRead` notes when bytes come in.
unfoldable pub receive : ℕ → ℕ → Server → Server
receive now handle srv = on_conn handle (λ c. record c { last_recv_tick = now }) srv

abbrev pub is_timed_out : ℕ → ServConn → Bool
is_timed_out now c = ltb (add64 c.last_recv_tick client_timeout) now

abbrev pub wants_beat : ℕ → ServConn → Bool
wants_beat now c = ltb (add64 c.last_send_tick server_heartbeat_interval) now

-- `OnTimer`.
unfoldable pub on_timer : ℕ → ServConn → Server → Server
on_timer now c srv =
    let srv' = if wants_beat now c then on_conn c.handle (send_pdu now (plain beat)) srv else srv in
    if is_timed_out now c then close_conn c srv' else srv'

-- The first loop of `server_conn_timer_callback`, over the connections there are at its start.
unfoldable pub timer_loop : ℕ → List ServConn → Server → Server
timer_loop now [] srv = srv
timer_loop now (c ∷ cs) srv =
    timer_loop now cs (if c.client_type == client_php then srv else on_timer now c srv)

-- The second.
unfoldable pub count_online : List ServConn → ℕ
count_online [] = 0
count_online (c ∷ cs) =
    let rest = count_online cs in if c.client_type == client_php then rest else (1 + rest) % 2 ^ 16

unfoldable pub server_conn_timer : ℕ → Server → Server
server_conn_timer now srv =
    let srv' = timer_loop now srv.conns srv in
    record srv' { online_client_num = count_online srv'.conns }

-- A packet that the server handles: the status in a heartbeat, where its JSON can be read, and the
-- fields of the others.
pub data Request : Type 0 where
  heartbeat_request : Option ClientStatus → Request
  data_request : List ℕ → Request
  command_request : ℕ → Request
  rate_request : ℕ → ℕ → Request
  reg_request : ℕ → Request
  status_request : Request
  all_status_request : Request
  done_request : Request
  other_request : Request

-- The two texts of the responses, in UTF-8, and -1 as a uint16_t.
abbrev pub success_text : List ℕ
success_text = 230 ∷ 147 ∷ 141 ∷ 228 ∷ 189 ∷ 156 ∷ 230 ∷ 136 ∷ 144 ∷ 229 ∷ 138 ∷ 159 ∷ []

abbrev pub failure_text : List ℕ
failure_text = 230 ∷ 147 ∷ 141 ∷ 228 ∷ 189 ∷ 156 ∷ 229 ∷ 164 ∷ 177 ∷ 232 ∷ 180 ∷ 165 ∷ []

abbrev pub success : Packet
success = plain (answer 0 success_text)

abbrev pub failure : Packet
failure = plain (answer 65535 failure_text)

unfoldable pub reply : ℕ → ℕ → Packet → Server → Server
reply now handle packet srv = on_conn handle (send_pdu now packet) srv

-- `_HandleServerCommand`: a command that is none of the four is answered with a failure.
unfoldable pub handle_server_command : ℕ → ℕ → Answers → ℕ → Server → Server
handle_server_command now handle db c srv =
    if c == cid_command_start
    then reply now handle success (start now db srv)
    else if c == cid_command_stop
    then reply now handle success (stop now srv)
    else if c == cid_command_pause
    then reply now handle success (pause now srv)
    else if c == cid_command_resume
    then reply now handle success (resume now srv)
    else reply now handle failure srv

-- `_HandleHeartBeat`: unserialize returns 0 also where the JSON cannot be read, and the address that
-- is looked up is then a null pointer.
unfoldable pub handle_heart_beat : Option ClientStatus → Server → Option Server
handle_heart_beat none srv = none
handle_heart_beat (some s) srv = some (update_client_status s srv)

-- `_HandleClientDone`.
unfoldable pub handle_client_done : ℕ → Answers → Server → Server
handle_client_done now db srv = if sent_email_num db == 0 then pause now srv else srv

abbrev pub status_of : Server → ServerStatus
status_of srv = record {
  status = srv.status;
  delay = srv.delay;
  multi = srv.multi;
  total_num = srv.total_num;
  online_client_num = srv.online_client_num;
}

-- What cJSON prints of the two kinds of status.
module _ (print_status : ServerStatus → List ℕ) (print_all : List ClientStatus → List ℕ) where
  -- `HandlePdu` of the connection with the handle, at time `now`.
  unfoldable pub handle_pdu : ℕ → ℕ → Answers → Request → Server → Option Server
  handle_pdu now handle db (heartbeat_request parsed) srv = handle_heart_beat parsed srv
  handle_pdu now handle db (data_request text) srv = some (reply now handle success srv)
  handle_pdu now handle db (command_request c) srv =
      some (handle_server_command now handle db c srv)
  handle_pdu now handle db (rate_request delay multi) srv =
      some (reply now handle success (adjust_send_rate now delay multi srv))
  handle_pdu now handle db (reg_request t) srv =
      some (on_conn handle (λ c. record c { client_type = t }) srv)
  handle_pdu now handle db status_request srv =
      some (reply now handle (plain (status_answer (print_status (status_of srv)))) srv)
  handle_pdu now handle db all_status_request srv =
      some (reply now handle (all_status (print_all srv.client_statuses)) srv)
  handle_pdu now handle db done_request srv = some (handle_client_done now db srv)
  handle_pdu now handle db other_request srv = some srv
