-- ===== src/Net/BaseSockets.antt =====
-- c++/base/BaseSocket.cpp: the methods of `CBaseSocket`. What a system call returns is an argument.
use postfix_edm.Prelude.{
  ℕ, List, [], ◌∷◌, Option, none, some, Bool, true, false, ◌&&◌, ◌==◌, if◌then◌else◌,
}
use postfix_edm.Prelude.Int.{ℤ, pos, negsuc}
use postfix_edm.Prelude.Memory.{◌>>=◌}
use postfix_edm.Net.{
  SocketState, listening, connecting, connected, closing, BaseSocket, Net, put_socket, make_socket,
  release_ref, add_base_socket, remove_base_socket,
}

-- `NETLIB_OK` and `NETLIB_ERROR`.
pub data Code : Type 0 where
  netlib_ok netlib_error : Code

-- What socket, bind and listen return.
pub record ListenCalls : Type 0 where
  pub socket : Option ℕ
  pub bound : Bool
  pub listens : Bool

-- `Listen`. Where bind or listen fails the descriptor is closed, and the member keeps it.
unfoldable pub listen : ℕ → List ℕ → ℕ → ℕ → ℕ → ListenCalls → Net → Option (Code × Net)
listen p server_ip port callback callback_data calls net = do
  s ← net.heap p
  let s' : BaseSocket = record s {
    local_ip = server_ip;
    local_port = port;
    callback = callback;
    callback_data = callback_data;
    fd = calls.socket;
  }
  elim calls.socket [
    | none ↦ some (netlib_error, put_socket p s' net)
    | some fd ↦ some (
        if calls.bound && calls.listens
        then (
          netlib_ok,
          add_base_socket p (some fd) (put_socket p (record s' { state = listening }) net),
        )
        else (netlib_error, put_socket p s' net))
  ]

-- What socket and connect return; `refused` is an error that is not EINPROGRESS or EWOULDBLOCK.
pub record ConnectCalls : Type 0 where
  pub socket : Option ℕ
  pub refused : Bool

-- `Connect`; an invalid handle is `none`.
unfoldable pub connect : ℕ → List ℕ → ℕ → ℕ → ℕ → ConnectCalls → Net → Option (Option ℕ × Net)
connect p server_ip port callback callback_data calls net = do
  s ← net.heap p
  let s' : BaseSocket = record s {
    remote_ip = server_ip;
    remote_port = port;
    callback = callback;
    callback_data = callback_data;
    fd = calls.socket;
  }
  elim calls.socket [
    | none ↦ some (none, put_socket p s' net)
    | some fd ↦ some (
        if calls.refused then (none, put_socket p s' net) else (
          some fd,
          add_base_socket p (some fd) (put_socket p (record s' { state = connecting }) net),
        ))
  ]

abbrev pub is_connected : SocketState → Bool
is_connected connected = true
is_connected _ = false

abbrev pub is_listening : SocketState → Bool
is_listening listening = true
is_listening _ = false

abbrev pub is_connecting : SocketState → Bool
is_connecting connecting = true
is_connecting _ = false

abbrev pub socket_error : ℤ
socket_error = negsuc 0

-- `Send`: `ret` is what send returns, and `blocked` says whether its error is EINPROGRESS or
-- EWOULDBLOCK.
unfoldable pub send_result : ℤ → Bool → ℤ
send_result (pos n) blocked = pos n
send_result (negsuc n) blocked = if n == 0 && blocked then pos 0 else negsuc n

unfoldable pub send : ℕ → ℤ → Bool → Net → Option (ℤ × Net)
send p ret blocked net = do
  s ← net.heap p
  some (if is_connected s.state then send_result ret blocked else socket_error, net)

-- `Recv`.
unfoldable pub recv : ℕ → ℤ → Net → Option (ℤ × Net)
recv p ret net = do s ← net.heap p; some (ret, net)

-- `Close`.
unfoldable pub close : ℕ → Net → Option Net
close p net = do s ← net.heap p; release_ref p (remove_base_socket s.fd net)

-- `NETLIB_MSG_*`.
pub data Msg : Type 0 where
  msg_connect msg_confirm msg_read msg_write msg_close msg_timer : Msg

-- What calling a pointer to a function does: the function, its data, the message and the handle.
abbrev pub Calls : Type 0
Calls = ℕ → ℕ → Msg → Option ℕ → Net → Option Net

-- A connection that accept returns.
pub record Accepted : Type 0 where
  pub fd : ℕ
  pub ip : List ℕ
  pub port : ℕ

module _ (call : Calls) where
  -- A round of `_AcceptNewSocket`, on the listening socket at `p`.
  unfoldable pub accept_one : ℕ → Accepted → Net → Option Net
  accept_one p peer net = do
    s ← net.heap p
    let made = make_socket net
    s' ← made.1.heap made.0
    call s.callback s.callback_data msg_connect (some peer.fd) (
        add_base_socket made.0 (some peer.fd) (
          put_socket made.0
            (record s' {
              fd = some peer.fd;
              callback = s.callback;
              callback_data = s.callback_data;
              state = connected;
              remote_ip = peer.ip;
              remote_port = peer.port;
            })
            made.1))

  unfoldable pub accept_new_socket : ℕ → List Accepted → Net → Option Net
  accept_new_socket p [] net = some net
  accept_new_socket p (peer ∷ peers) net = do
    net' ← accept_one p peer net
    accept_new_socket p peers net'

  -- `OnRead`: `peers` are the connections to accept, and `avail` says whether ioctl finds bytes.
  unfoldable pub on_read : ℕ → List Accepted → Bool → Net → Option Net
  on_read p peers avail net = do
    s ← net.heap p
    if is_listening s.state
        then accept_new_socket p peers net
        else call s.callback s.callback_data (if avail then msg_read else msg_close) s.fd net

  -- `OnWrite`: `failed` is what getsockopt finds in SO_ERROR.
  unfoldable pub on_write : ℕ → Bool → Net → Option Net
  on_write p failed net = do
    s ← net.heap p
    if is_connecting s.state
        then (if failed
            then call s.callback s.callback_data msg_close s.fd net
            else call s.callback s.callback_data msg_confirm s.fd
                (put_socket p (record s { state = connected }) net))
        else call s.callback s.callback_data msg_write s.fd net

  -- `OnClose`.
  unfoldable pub on_close : ℕ → Net → Option Net
  on_close p net = do
    s ← net.heap p
    call s.callback s.callback_data msg_close s.fd (put_socket p (record s { state = closing }) net)
