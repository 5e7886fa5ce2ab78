-- ===== src/Net/Netlib.antt =====
-- c++/base/netlib.cpp: the functions by which the programs use sockets, by handle.
use postfix_edm.Prelude.{
  ℕ, List, Option, none, some, Bool, true, false, ◌&&◌, leb, ◌==◌, if◌then◌else◌,
}
use postfix_edm.Prelude.Int.{ℤ}
use postfix_edm.Prelude.Memory.{◌>>=◌}
use postfix_edm.Net.{
  BaseSocket, Net, put_socket, delete_socket, make_socket, release_ref, find_base_socket,
}
use postfix_edm.Net.BaseSockets.{
  Code, netlib_ok, netlib_error, ListenCalls, ConnectCalls, listen, connect, send, recv, close,
  socket_error,
}

unfoldable pub netlib_listen : List ℕ → ℕ → ℕ → ℕ → ListenCalls → Net → Option (Code × Net)
netlib_listen server_ip port callback callback_data calls net = do
  let made = make_socket net
  (ret, net') ← listen made.0 server_ip port callback callback_data calls made.1
  elim ret [
    | netlib_error ↦ some (netlib_error, delete_socket made.0 net')
    | netlib_ok ↦ some (netlib_ok, net')
  ]

unfoldable pub netlib_connect : List ℕ → ℕ → ℕ → ℕ → ConnectCalls → Net → Option (Option ℕ × Net)
netlib_connect server_ip port callback callback_data calls net = do
  let made = make_socket net
  (handle, net') ← connect made.0 server_ip port callback callback_data calls made.1
  elim handle [ none ↦ some (none, delete_socket made.0 net') | some fd ↦ some (some fd, net') ]

-- The shape of the others: a socket is found, used and released.
unfoldable pub with_socket {ℓ} :
    {A : Type ℓ} → A → (ℕ → Net → Option (A × Net)) → ℕ → Net → Option (A × Net)
with_socket missing use_it handle net = do
  (found, net') ← find_base_socket handle net
  elim found [
    | none ↦ some (missing, net')
    | some p ↦ do (ret, net'') ← use_it p net'; last ← release_ref p net''; some (ret, last)
  ]

unfoldable pub netlib_send : ℕ → ℤ → Bool → Net → Option (ℤ × Net)
netlib_send handle ret blocked net = with_socket socket_error (λ p. send p ret blocked) handle net

unfoldable pub netlib_recv : ℕ → ℤ → Net → Option (ℤ × Net)
netlib_recv handle ret net = with_socket socket_error (λ p. recv p ret) handle net

unfoldable pub close_ok : ℕ → Net → Option (Code × Net)
close_ok p net = do net' ← close p net; some (netlib_ok, net')

unfoldable pub netlib_close : ℕ → Net → Option (Code × Net)
netlib_close handle net = with_socket netlib_error close_ok handle net

-- What netlib_option writes to where `optval` points.
pub data Answer : Type 0 where
  nothing : Answer
  text : List ℕ → Answer
  number : ℕ → Answer

-- The `switch`; the two options on the sizes of the system's buffers change nothing here.
unfoldable pub answer : ℕ → BaseSocket → Answer
answer opt s =
    if opt == 3
    then text s.remote_ip
    else if opt == 4
    then number s.remote_port
    else if opt == 5
    then text s.local_ip
    else if opt == 6
    then number s.local_port
    else nothing

-- A null pointer is the function or the data 0.
abbrev pointer : Option ℕ → ℕ
pointer none = 0
pointer (some v) = v

unfoldable pub set_option : ℕ → Option ℕ → BaseSocket → BaseSocket
set_option opt optval s =
    if opt == 1
    then record s { callback = pointer optval }
    else if opt == 2
    then record s { callback_data = pointer optval }
    else s

abbrev pub is_null : Option ℕ → Bool
is_null none = true
is_null (some v) = false

-- `NETLIB_OPT_GET_REMOTE_IP`, the first of the options that write.
abbrev pub opt_get_remote_ip : ℕ
opt_get_remote_ip = 3

unfoldable pub netlib_option : ℕ → ℕ → Option ℕ → Net → Option (Code × Answer × Net)
netlib_option handle opt optval net = do
  (found, net') ← find_base_socket handle net
  elim found [
    | none ↦ some (netlib_error, nothing, net')
    | some p ↦
        if leb opt_get_remote_ip opt && is_null optval
        then some (netlib_error, nothing, net')
        else (do
          s ← net'.heap p
          last ← release_ref p (put_socket p (set_option opt optval s) net')
          some (netlib_ok, answer opt s, last))
  ]
