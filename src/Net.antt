-- ===== src/Net.antt =====
-- c++/base/BaseSocket.h, BaseSocket.cpp, netlib.h, netlib.cpp, EventDispatch.h, EventDispatch.cpp and
-- `CRefObject` of util.h: sockets as objects with counted references, and the map that finds them. An
-- access to an object that has been deleted is `none`. The children: the sockets' methods, the
-- functions of netlib, and the loop that dispatches events; then what is proved of them.
pub mod BaseSockets
pub mod Netlib
pub mod Dispatch
pub mod Timers
pub mod Counts
pub mod Balance
pub mod Closing
pub mod Making
pub mod Rounds
pub mod Keeping
pub mod Firing
pub mod Apart
pub mod Schedule
mod Tests
use postfix_edm.Prelude.{
  ℕ, zero, suc, ◌+◌, ◌-◌, List, [], ◌∷◌, Option, none, some, Bool, true, false, ◌==◌, if◌then◌else◌,
}
use postfix_edm.Prelude.Memory.{◌>>=◌}

-- `SOCKET_STATE_*`.
pub data SocketState : Type 0 where
  idle listening connecting connected closing : SocketState

-- `CBaseSocket` with the count of `CRefObject`, whose lock nothing sets. A handle of -1 is `none`. A
-- callback and its data are pointers.
pub record BaseSocket : Type 0 where
  pub ref_count : ℕ
  pub state : SocketState
  pub fd : Option ℕ
  pub callback : ℕ
  pub callback_data : ℕ
  pub remote_ip : List ℕ
  pub remote_port : ℕ
  pub local_ip : List ℕ
  pub local_port : ℕ

-- The constructors of `CBaseSocket` and `CRefObject`. (The callback and the ports are left unset.)
abbrev pub new_socket : BaseSocket
new_socket = record {
  ref_count = 1;
  state = idle;
  fd = none;
  callback = 0;
  callback_data = 0;
  remote_ip = [];
  remote_port = 0;
  local_ip = [];
  local_port = 0;
}

-- The objects by their addresses, the next free address, and `g_socket_map`.
pub record Net : Type 0 where
  pub heap : ℕ → Option BaseSocket
  pub next : ℕ
  pub socket_map : ℕ → Option ℕ

abbrev pub update {ℓ} : {A : Type ℓ} → ℕ → A → (ℕ → A) → ℕ → A
update k v f j = if k == j then v else f j

abbrev pub put_socket : ℕ → BaseSocket → Net → Net
put_socket p s net = record net { heap = update p (some s) net.heap }

-- `delete`.
abbrev pub delete_socket : ℕ → Net → Net
delete_socket p net = record net { heap = update p none net.heap }

-- `new CBaseSocket()`.
unfoldable pub make_socket : Net → ℕ × Net
make_socket net = (net.next, record (put_socket net.next new_socket net) { next = suc net.next })

-- `AddRef` and `ReleaseRef` of `CRefObject`. (An object with no reference left does not live.)
unfoldable pub add_ref : ℕ → Net → Option Net
add_ref p net = do
  s ← net.heap p
  some (put_socket p (record s { ref_count = s.ref_count + 1 }) net)

unfoldable pub release_ref : ℕ → Net → Option Net
release_ref p net = do
  s ← net.heap p
  some (
      if s.ref_count == 1
      then delete_socket p net
      else put_socket p (record s { ref_count = s.ref_count - 1 }) net)

-- `AddBaseSocket`: an insert into a hash map keeps what is there.
unfoldable pub add_base_socket : ℕ → Option ℕ → Net → Net
add_base_socket p none net = net
add_base_socket p (some fd) net = elim (net.socket_map fd) [
  | none ↦ record net { socket_map = update fd (some p) net.socket_map }
  | some q ↦ net
]

-- `RemoveBaseSocket`.
unfoldable pub remove_base_socket : Option ℕ → Net → Net
remove_base_socket none net = net
remove_base_socket (some fd) net = record net { socket_map = update fd none net.socket_map }

-- `FindBaseSocket`: the socket is found with a reference more.
unfoldable pub find_base_socket : ℕ → Net → Option (Option ℕ × Net)
find_base_socket fd net = elim (net.socket_map fd) [
  | none ↦ some (none, net)
  | some p ↦ do net' ← add_ref p net; some (some p, net')
]
