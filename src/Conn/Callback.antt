-- ===== src/Conn/Callback.antt =====
-- c++/base/imconn.cpp, `FindImConn` and `imconn_callback`: the connections in memory, with their counted
-- references and the map from handles, and `close` of c++/server/servConn.cpp and c++/client/clientConn.cpp.
-- A use of a connection that was deleted is `none`.
pub mod Counts
pub mod Alive
mod Runs
use postfix_edm.Prelude.{ℕ, ◌+◌, ◌-◌, Option, none, some, Bool, true, false, ◌==◌, if◌then◌else◌}
use postfix_edm.Prelude.Memory.{◌>>=◌}
use postfix_edm.Net.{update}
use postfix_edm.Net.BaseSockets.{
  Msg, msg_connect, msg_confirm, msg_read, msg_write, msg_close, msg_timer,
}

-- `m_handle`, and the count of `CRefObject`.
pub record Conn : Type 0 where
  pub handle : ℕ
  pub ref_count : ℕ

pub record Conns : Type 0 where
  pub objects : ℕ → Option Conn
  pub conn_map : ℕ → Option ℕ

abbrev pub put_conn : ℕ → Option Conn → Conns → Conns
put_conn p o s = record s { objects = update p o s.objects }

unfoldable pub grasp : ℕ → Conns → Option Conns
grasp p s = do
  c ← s.objects p
  some (put_conn p (some (record c { ref_count = c.ref_count + 1 })) s)

unfoldable pub let_loose : ℕ → Conns → Option Conns
let_loose p s = do
  c ← s.objects p
  some (
      if c.ref_count == 1
      then put_conn p none s
      else put_conn p (some (record c { ref_count = c.ref_count - 1 })) s)

-- `FindImConn`, where the map has the handle.
abbrev pub find_im_conn : ℕ → Conns → Option ℕ
find_im_conn handle s = s.conn_map handle

-- What the virtual functions do with the connection at an address.
pub record Handlers : Type 0 where
  pub on_confirm : ℕ → Conns → Option Conns
  pub on_read : ℕ → Conns → Option Conns
  pub on_write : ℕ → Conns → Option Conns
  pub on_close : ℕ → Conns → Option Conns

abbrev pub handle_msg : Handlers → Msg → ℕ → Conns → Option Conns
handle_msg v msg_confirm p s = v.on_confirm p s
handle_msg v msg_read p s = v.on_read p s
handle_msg v msg_write p s = v.on_write p s
handle_msg v msg_close p s = v.on_close p s
handle_msg v msg_connect p s = some s
handle_msg v msg_timer p s = some s

abbrev pub on_found : Handlers → Msg → Option ℕ → Conns → Option Conns
on_found v msg none s = some s
on_found v msg (some p) s = do s ← grasp p s; s ← handle_msg v msg p s; let_loose p s

unfoldable pub imconn_callback : Handlers → Bool → Msg → ℕ → Conns → Option Conns
imconn_callback v has_data msg handle s =
    if has_data then on_found v msg (find_im_conn handle s) s else some s

-- `close`, of a connection that has its handle.
unfoldable pub close_found : ℕ → Conns → Option Conns
close_found p s = do
  c ← s.objects p
  let_loose p (record s { conn_map = update c.handle none s.conn_map })
