-- ===== src/Client.antt =====
-- c++/client/clientConn.h, clientConn.cpp, and `cWorker` of worker.h and worker.cpp: the client's
-- connection, and what the server's packets make of the worker. The JSON readers and what netlib_connect
-- returns are arguments.
pub mod Timing
pub mod Processes
pub mod Pool
pub mod Mail
pub mod Locks
pub mod Pulling
pub mod Headers
pub mod Reconnecting
mod Tests
use postfix_edm.Prelude.{
  ℕ, ◌+◌, ◌%◌, ◌/◌, ◌^◌, List, [], ◌∷◌, ◌++◌, Option, none, some, Bool, true, false, ◌||◌, ◌==◌,
  ltb, if◌then◌else◌,
}
use postfix_edm.Pdu.Message.{
  Message, command, rate, text, status_request, status_answer, beat, client_beat, answer,
  registration,
}
use postfix_edm.Net.Timers.{add64}
use postfix_edm.Server.{ServerStatus, Packet, plain, all_status}

-- `cWorker` and the words of the shared memory, with a count of the wake-ups of the worker thread.
pub record Worker : Type 0 where
  pub status : ℕ
  pub delay : ℕ
  pub multi : ℕ
  pub shm_status : ℕ
  pub shm_delay : ℕ
  pub shm_multi : ℕ
  pub woken : ℕ

-- The constructor, and the shared memory that is filled from it.
abbrev pub new_worker : Worker
new_worker = record {
  status = 0;
  delay = 0;
  multi = 1;
  shm_status = 0;
  shm_delay = 0;
  shm_multi = 1;
  woken = 0;
}

-- `CHECK_CAN_START`: the bit of START or that of RESUME.
abbrev pub check_can_start : ℕ → Bool
check_can_start status = status % 2 == 1 || (status / 8) % 2 == 1

unfoldable pub set_status : ℕ → Worker → Worker
set_status status w = record w {
  status = status;
  shm_status = status;
  woken = if check_can_start status then w.woken + 1 else w.woken;
}

unfoldable pub set_delay : ℕ → Worker → Worker
set_delay delay w = record w { delay = delay; shm_delay = delay }

unfoldable pub set_multi : ℕ → Worker → Worker
set_multi multi w = record w { multi = multi; shm_multi = multi }

-- `server_status_info()`, which unserialize leaves where the JSON cannot be read. It casts the numbers
-- that the JSON has to 16 bits.
abbrev pub default_status : ServerStatus
default_status = record { status = 2; delay = 0; multi = 1; total_num = 0; online_client_num = 0 }

abbrev pub unserialized : Option ServerStatus → ServerStatus
unserialized none = default_status
unserialized (some s) = record s {
  status = s.status % 2 ^ 16;
  delay = s.delay % 2 ^ 16;
  multi = s.multi % 2 ^ 16;
  online_client_num = s.online_client_num % 2 ^ 16;
}

module _ (parse_status : List ℕ → Option ServerStatus) where
  -- `_HandleServerStatusInfo`, on the JSON.
  unfoldable pub handle_server_status_info : List ℕ → Worker → Worker
  handle_server_status_info json w =
      let s = unserialized (parse_status json) in
      set_delay s.delay (set_multi s.multi (set_status s.status w))

  -- `HandlePdu`. The server sends no status request, and no statuses of all clients but to a PHP client.
  unfoldable pub handle_pdu : Packet → Worker → Worker
  handle_pdu (all_status json) w = w
  handle_pdu (plain (command c)) w = set_status c w
  handle_pdu (plain (rate delay multi)) w = set_delay delay (set_multi multi w)
  handle_pdu (plain (status_answer json)) w = handle_server_status_info json w
  handle_pdu (plain status_request) w = w
  handle_pdu (plain (text t)) w = w
  handle_pdu (plain beat) w = w
  handle_pdu (plain (client_beat json)) w = w
  handle_pdu (plain (answer status message)) w = w
  handle_pdu (plain (registration t)) w = w

  -- The packets that arrive, one after the other.
  unfoldable pub obey : List Packet → Worker → Worker
  obey [] w = w
  obey (p ∷ ps) w = obey ps (handle_pdu p w)

-- `cClientConn`, with the packets passed to `SendPdu`. A handle of -1 is `none`.
pub record ClientConn : Type 0 where
  pub handle : Option ℕ
  pub last_send_tick : ℕ
  pub last_recv_tick : ℕ
  pub sent : List Packet

-- `g_serv_conn_map`, with the handles passed to netlib_close.
pub record Client : Type 0 where
  pub conns : List ClientConn
  pub closed : List ℕ

unfoldable pub send_pdu : ℕ → Packet → ClientConn → ClientConn
send_pdu now packet c = record c { last_send_tick = now; sent = c.sent ++ (packet ∷ []) }

-- `connect_server` and `connect`; `made` is the handle that netlib_connect returns.
unfoldable pub connect_server : ℕ → Option ℕ → Client → Client
connect_server now none client = client
connect_server now (some h) client = record client {
  conns =
      record { handle = some h; last_send_tick = now; last_recv_tick = now; sent = [] }
      ∷ client.conns;
}

-- `OnConfirm`: the type `CLIENT_CPP`, and a text.
abbrev pub client_cpp : ℕ
client_cpp = 1

abbrev pub hello_world : List ℕ
hello_world = 104 ∷ 101 ∷ 108 ∷ 108 ∷ 111 ∷ 32 ∷ 119 ∷ 111 ∷ 114 ∷ 108 ∷ 100 ∷ []

unfoldable pub on_confirm : ℕ → ClientConn → ClientConn
on_confirm now c =
    send_pdu now (plain (text hello_world)) (send_pdu now (plain (registration client_cpp)) c)

abbrev pub has_handle : Option ℕ → ℕ → Bool
has_handle none h = false
has_handle (some k) h = k == h

unfoldable pub erase_conn : ℕ → List ClientConn → List ClientConn
erase_conn h [] = []
erase_conn h (c ∷ cs) =
    let rest = erase_conn h cs in if has_handle c.handle h then rest else c ∷ rest

-- `close`, also by `OnClose`.
unfoldable pub close_conn : ClientConn → Client → Client
close_conn c client = elim c.handle [
  | none ↦ client
  | some h ↦ record client { closed = client.closed ++ (h ∷ []); conns = erase_conn h client.conns }
]
