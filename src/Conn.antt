-- ===== src/Conn.antt =====
-- c++/base/imconn.h and imconn.cpp: CImConn, one connection with its two buffers. What a call of
-- netlib_send or netlib_recv returns is up to the socket, so the socket carries the results of the
-- calls to come.
pub mod Sending
pub mod Flushing
pub mod Delivery
pub mod Receiving
pub mod Framing
pub mod Arriving
pub mod Reception
pub mod Spinning
pub mod Callback
mod Tests
use postfix_edm.Prelude.{
  leb, ℕ, zero, suc, ◌+◌, ◌-◌, ◌*◌, ◌%◌, ◌^◌, ◌≡◌, List, [], ◌∷◌, ◌++◌, Option, none, some, Bool,
  true, false, ltb, ◌==◌, if◌then◌else◌, length, take, drop, min,
}
use postfix_edm.Prelude.Memory.{fetch, ◌>>=◌}
use postfix_edm.Buffer.{SimpleBuffer, Allocator, add32, empty, write, read}
use postfix_edm.Pdu.Read.{Incoming, read_pdu}
use postfix_edm.Pdu.Types.{PduException, Outcome, ok, thrown, fault}

abbrev pub max_socket_buf_size : ℕ
max_socket_buf_size = 128 * 1024

-- `takes` is how many bytes the next calls of netlib_send are willing to take, 0 for a result that is
-- not positive; with none left the socket takes nothing more. `wire` is what it has taken. `coming` is
-- what the peer has sent and no call of netlib_recv has returned yet.
pub record Socket : Type 0 where
  pub takes : List ℕ
  pub wire : List ℕ
  pub coming : List ℕ

-- netlib_send takes at most what it is given.
unfoldable pub netlib_send : Socket → List ℕ → ℕ × Socket
netlib_send s bytes = elim s.takes [
  | [] ↦ (0, s)
  | k ∷ later ↦
      let n = min k (length bytes) in (n, record s { takes = later; wire = s.wire ++ take n bytes })
]

-- The members that sending and receiving use. The two packet counts are globals of the program, kept
-- with the connection here.
pub record ImConn : Type 0 where
  pub busy : Bool
  pub in_buf : SimpleBuffer
  pub out_buf : SimpleBuffer
  pub policy_conn : Bool
  pub recv_bytes : ℕ
  pub last_send_tick : ℕ
  pub last_recv_tick : ℕ
  pub send_pkt_cnt : ℕ
  pub recv_pkt_cnt : ℕ
  pub socket : Socket

-- The constructor, at time `now`.
unfoldable pub connection : ℕ → Socket → ImConn
connection now s = record {
  busy = false;
  in_buf = empty;
  out_buf = empty;
  policy_conn = false;
  recv_bytes = 0;
  last_send_tick = now;
  last_recv_tick = now;
  send_pkt_cnt = 0;
  recv_pkt_cnt = 0;
  socket = s;
}

-- The loop of `Send` over what remains of the data. Each round that goes on takes a byte at least, so
-- the length of the data is fuel enough.
unfoldable pub send_loop : ℕ → Socket → List ℕ → List ℕ × Socket
send_loop zero s rest = (rest, s)
send_loop (suc fuel) s [] = ([], s)
send_loop (suc fuel) s (x ∷ rest) =
    let sent = netlib_send s (take max_socket_buf_size (x ∷ rest)) in
    let more = send_loop fuel sent.1 (drop sent.0 (x ∷ rest)) in
    if sent.0 == 0 then (x ∷ rest, sent.1) else more

-- The end of `Send`: what is left goes to the buffer.
unfoldable pub queue_rest : Allocator → ImConn → ℕ → List ℕ × Socket → Option (ℕ × ImConn)
queue_rest a c len ([], s) = some (len, record c { socket = s })
queue_rest a c len (x ∷ rest, s) = do
  (n, b) ← write a c.out_buf (some (x ∷ rest)) (length (x ∷ rest))
  some (len, record c { busy = true; out_buf = b; socket = s })

-- `Send` at time `now`; the data is `bytes`, and the result its length. Where that is negative as an int,
-- the loop and what follows it pass the data by.
unfoldable pub send : Allocator → ImConn → ℕ → List ℕ → Option (ℕ × ImConn)
send a c now bytes =
    let c' : ImConn = record c { last_send_tick = now; send_pkt_cnt = add32 c.send_pkt_cnt 1 } in
    if c.busy
    then (do
      (n, b) ← write a c'.out_buf (some bytes) (length bytes)
      some (length bytes, record c' { out_buf = b }))
    else if leb (2 ^ 31) (length bytes)
    then some (length bytes, c')
    else queue_rest a c' (length bytes) (send_loop (length bytes) c.socket bytes)

-- The rest of a round of `OnWrite`, after netlib_send.
unfoldable pub after_send :
    (SimpleBuffer → Socket → Option (SimpleBuffer × Socket))
    → SimpleBuffer
    → ℕ × Socket
    → Option (SimpleBuffer × Socket)
after_send again b (zero, s) = some (b, s)
after_send again b (suc k, s) = do (out, n, b') ← read b false (suc k); again b' s

-- `OnWrite` sends from the front of the buffer while there is something in it and the socket takes it.
-- Where `send_size` is negative as an int, netlib_send is given a length outside the block: `none`. Each
-- round that goes on takes a byte off the buffer.
unfoldable pub flush_loop : ℕ → SimpleBuffer → Socket → Option (SimpleBuffer × Socket)
flush_loop zero b s = some (b, s)
flush_loop (suc fuel) b s =
    if b.write_offset == 0
    then some (b, s)
    else if leb (2 ^ 31) b.write_offset
    then none
    else elim (fetch b.buffer 0 (min b.write_offset max_socket_buf_size)) [
      | none ↦ none
      | some front ↦ after_send (flush_loop fuel) b (netlib_send s front)
    ]

unfoldable pub on_write : ImConn → Option ImConn
on_write c =
    if c.busy
    then (do
      (b, s) ← flush_loop c.out_buf.write_offset c.out_buf c.socket
      let still : Bool = if b.write_offset == 0 then false else c.busy
      some (record c { busy = still; out_buf = b; socket = s }))
    else some c
