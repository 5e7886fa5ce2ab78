-- ===== src/Conn/Receiving.antt =====
-- c++/base/imconn.cpp, `OnRead`: bytes come in from the socket, and the packets among them are handed
-- to `HandlePdu`. What that virtual function does is up to the subclass; here the packets handed to
-- it are listed.
use postfix_edm.Prelude.{
  ℕ, zero, suc, List, [], ◌∷◌, Option, none, some, true, false, ltb, ◌==◌, if◌then◌else◌, length,
  take, drop, min,
}
use postfix_edm.Prelude.Memory.{fetch, store, ◌>>=◌}
use postfix_edm.Buffer.{SimpleBuffer, Allocator, add32, extend, inc_write_offset, read}
use postfix_edm.Pdu.Types.{PduException, Outcome, ok, thrown, fault}
use postfix_edm.Pdu.Read.{Incoming, read_pdu, sub32}
use postfix_edm.Conn.{Socket, ImConn, send}

abbrev pub read_buf_size : ℕ
read_buf_size = 2048

-- netlib_recv returns at most what there is room for; `k` is how much it is willing to return.
unfoldable pub netlib_recv : ℕ → Socket → ℕ → List ℕ × Socket
netlib_recv k s room =
    let n = min k room in (take n s.coming, record s { coming = drop n s.coming })

-- The first `if` of the loop that reads.
unfoldable pub read_room : Allocator → SimpleBuffer → SimpleBuffer
read_room a b =
    if ltb (sub32 b.alloc_size b.write_offset) read_buf_size then extend a b read_buf_size else b

-- netlib_recv puts the bytes at the end of the buffer.
unfoldable pub take_in : ℕ → ImConn → List ℕ × Socket → Option ImConn
take_in now c (bytes, s) = do
  m ← store c.in_buf.buffer c.in_buf.write_offset bytes
  some (record c {
    in_buf = inc_write_offset (record c.in_buf { buffer = m }) (length bytes);
    recv_bytes = add32 c.recv_bytes (length bytes);
    last_recv_tick = now;
    socket = s;
  })

-- The loop that reads, at time `now`. The list says how much each call of netlib_recv is willing to
-- return; behind its end there is nothing.
unfoldable pub recv_loop : Allocator → ℕ → List ℕ → ImConn → Option ImConn
recv_loop a now [] c = some (record c { in_buf = read_room a c.in_buf })
recv_loop a now (k ∷ later) c =
    let c' : ImConn = record c { in_buf = read_room a c.in_buf } in
    let got = netlib_recv k c.socket read_buf_size in
    let more = take_in now c' got >>= recv_loop a now later in
    if length got.0 == 0 then some c' else more

-- How the loop that parses ends: the next packet is not whole; an exception closes the connection; an
-- access outside the block; or the rounds allowed are used up.
pub data End : Type 0 where
  waiting : End
  closed : PduException → End
  faulted : End
  running : End

pub record Drained : Type 0 where
  pub handed : List Incoming
  pub buf : SimpleBuffer
  pub end : End

unfoldable pub hand : Incoming → Drained → Drained
hand pdu d = record d { handed = pdu ∷ d.handed }

-- What follows a call of `ReadPdu`.
unfoldable pub after_read :
    (SimpleBuffer → Drained) → SimpleBuffer → Outcome (Option Incoming) → Drained
after_read again b (ok none) = record { handed = []; buf = b; end = waiting }
after_read again b (ok (some pdu)) = hand pdu (elim (read b false pdu.length) [
  | none ↦ record { handed = []; buf = b; end = faulted }
  | some (out, n, b') ↦ again b'
])
after_read again b (thrown e) = record { handed = []; buf = b; end = closed e }
after_read again b fault = record { handed = []; buf = b; end = faulted }

-- The loop that parses.
unfoldable pub drain : (ℕ → List ℕ) → ℕ → SimpleBuffer → Drained
drain stack zero b = record { handed = []; buf = b; end = running }
drain stack (suc fuel) b = after_read (drain stack fuel) b (read_pdu stack b.buffer b.write_offset)

-- `g_policy_content`, which nothing sets: the null pointer.
abbrev pub policy_content : Option (List ℕ)
policy_content = none

abbrev pub left_angle : ℕ
left_angle = 60

-- The answer to what comes first in the buffer, if that begins a request for the policy.
unfoldable pub answer_to : List ℕ → Option (List ℕ)
answer_to [] = none
answer_to (x ∷ _) = if x == left_angle then policy_content else none

-- The answer, on a connection from which no packet has been read.
unfoldable pub policy_answer : ImConn → Option (Option (List ℕ))
policy_answer c =
    if c.recv_bytes == c.in_buf.write_offset
    then (do first ← fetch c.in_buf.buffer 0 1; some (answer_to first))
    else some none

-- The rest of `OnRead` after the loop that reads. Every packet takes a byte at least, so that a
-- round more than there are bytes is enough.
unfoldable pub parse : Allocator → (ℕ → List ℕ) → ℕ → ImConn → Option (List Incoming × End × ImConn)
parse a stack now c = if c.policy_conn then some ([], waiting, c) else (do
  answer ← policy_answer c
  elim answer [
    | some content ↦ do
      (n, c') ← send a (record c { policy_conn = true }) now content
      some ([], waiting, c')
    | none ↦
        let d = drain stack (suc c.in_buf.write_offset) c.in_buf in
        some (
          d.handed,
          d.end,
          record c { in_buf = d.buf; recv_pkt_cnt = add32 c.recv_pkt_cnt (length d.handed) },
        )
  ])

unfoldable pub on_read :
    Allocator → (ℕ → List ℕ) → ℕ → List ℕ → ImConn → Option (List Incoming × End × ImConn)
on_read a stack now gives c = do c' ← recv_loop a now gives c; parse a stack now c'
