-- ===== src/Server.antt =====
-- c++/server/manager.h, manager.cpp, monitoring.h, monitoring.cpp and the status structs of
-- c++/base/ImPduClient.h: what the server keeps, and the commands that change it. What the database
-- answers is an argument. The children: servConn.cpp, and what is proved.
pub mod Handling
pub mod Agreement
pub mod Small
pub mod Steps
pub mod Commands
pub mod Timeouts
pub mod Eviction
mod Tests
use postfix_edm.Prelude.{
  ℕ, ◌+◌, ◌%◌, ◌^◌, List, [], ◌∷◌, ◌++◌, map, Option, none, some, Bool, true, false, not, ◌==◌,
  if◌then◌else◌,
}
use postfix_edm.Pdu.Types.{
  cid_command_start, cid_command_stop, cid_command_pause, cid_command_resume,
}
use postfix_edm.Pdu.Message.{Message, command, rate}
use postfix_edm.Config.{same_text}

-- `client_status_info`, once it is filled; the copy that is printed is not kept.
pub record ClientStatus : Type 0 where
  pub ip : List ℕ
  pub email_from_addr : List ℕ
  pub have_push_num : ℕ
  pub mailq_num : ℕ

-- `server_status_info`.
pub record ServerStatus : Type 0 where
  pub status : ℕ
  pub delay : ℕ
  pub multi : ℕ
  pub total_num : ℕ
  pub online_client_num : ℕ

-- `CLIENT_PHP`.
abbrev pub client_php : ℕ
client_php = 2

-- What a connection is told: a message, or the answer with the statuses of all clients.
pub data Packet : Type 0 where
  plain : Message → Packet
  all_status : List ℕ → Packet

-- `cServConn`, with the address of its socket's peer and the packets passed to `SendPdu`. The client
-- type has no first value. The socket of a connection in the map is open.
pub record ServConn : Type 0 where
  pub handle : ℕ
  pub ip : List ℕ
  pub client_type : ℕ
  pub last_send_tick : ℕ
  pub last_recv_tick : ℕ
  pub sent : List Packet

-- `cManager` and `cMonitoring`, with `g_client_conn_map` and the handles passed to netlib_close. The two
-- maps are lists; their order shows in nothing but the printed text.
pub record Server : Type 0 where
  pub status : ℕ
  pub delay : ℕ
  pub multi : ℕ
  pub total_num : ℕ
  pub online_client_num : ℕ
  pub client_statuses : List ClientStatus
  pub conns : List ServConn
  pub closed : List ℕ

-- The two constructors. (The number of the clients on line has no first value.)
abbrev pub new_server : ℕ → Server
new_server online = record {
  status = cid_command_stop;
  delay = 0;
  multi = 1;
  total_num = 0;
  online_client_num = online;
  client_statuses = [];
  conns = [];
  closed = [];
}

unfoldable pub find_status : List ℕ → List ClientStatus → Option ClientStatus
find_status ip [] = none
find_status ip (s ∷ ss) = let rest = find_status ip ss in if same_text s.ip ip then some s else rest

unfoldable pub erase_status : List ℕ → List ClientStatus → List ClientStatus
erase_status ip [] = []
erase_status ip (s ∷ ss) =
    let rest = erase_status ip ss in if same_text s.ip ip then rest else s ∷ rest

-- `UpdateClientStatus`.
unfoldable pub update_client_status : ClientStatus → Server → Server
update_client_status s srv = elim (find_status s.ip srv.client_statuses) [
  | none ↦ record srv { client_statuses = s ∷ srv.client_statuses }
  | some old ↦ record srv { client_statuses = s ∷ erase_status s.ip srv.client_statuses }
]

-- `removeClientStauts`, whose result no caller reads.
unfoldable pub remove_client_status : List ℕ → Server → Server
remove_client_status ip srv = record srv { client_statuses = erase_status ip srv.client_statuses }

-- What the two queries find: atoi of the first value, where there is a row.
pub record Answers : Type 0 where
  pub total : Option ℕ
  pub sent_num : Option ℕ

-- `_getTotalNum` casts to a uint16_t.
unfoldable pub total_num_of : Answers → ℕ
total_num_of db = elim db.total [ none ↦ 0 | some n ↦ n % 2 ^ 16 ]

-- `getSentEmailNum`.
unfoldable pub sent_email_num : Answers → ℕ
sent_email_num db = elim db.sent_num [ none ↦ 0 | some n ↦ n % 2 ^ 64 ]

-- `SendPdu` at time `now`.
abbrev pub send_pdu : ℕ → Packet → ServConn → ServConn
send_pdu now packet c = record c { last_send_tick = now; sent = c.sent ++ (packet ∷ []) }

abbrev pub tell_client : ℕ → Packet → ServConn → ServConn
tell_client now packet c = if c.client_type == client_php then c else send_pdu now packet c

-- `send_all_client_pdu`.
unfoldable pub send_all_client_pdu : ℕ → Packet → Server → Server
send_all_client_pdu now packet srv = record srv { conns = map (tell_client now packet) srv.conns }

-- `start`, `stop`, `pause` and `resume`, which all return 0.
unfoldable pub start : ℕ → Answers → Server → Server
start now db srv =
    record (send_all_client_pdu now (plain (command cid_command_start))
      (record srv { total_num = total_num_of db })) { status = cid_command_start }

unfoldable pub stop : ℕ → Server → Server
stop now srv = record (send_all_client_pdu now (plain (command cid_command_stop)) srv) {
  status = cid_command_stop;
}

unfoldable pub pause : ℕ → Server → Server
pause now srv = record (send_all_client_pdu now (plain (command cid_command_pause)) srv) {
  status = cid_command_pause;
}

unfoldable pub resume : ℕ → Server → Server
resume now srv = record (send_all_client_pdu now (plain (command cid_command_resume)) srv) {
  status = cid_command_resume;
}

-- `adjustSendRate`.
unfoldable pub adjust_send_rate : ℕ → ℕ → ℕ → Server → Server
adjust_send_rate now delay multi srv =
    send_all_client_pdu now (plain (rate delay multi)) (record srv { delay = delay; multi = multi })
