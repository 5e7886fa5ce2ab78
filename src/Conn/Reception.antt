-- ===== src/Conn/Reception.antt =====
-- Calls of `OnRead`, one after the other: however the stream is cut into the pieces that netlib_recv
-- returns, its packets are handed over in order.
use mathlib.Core.Path.{subst}
use postfix_edm.Prelude.{
  ℕ, suc, ◌+◌, ◌^◌, ◌≤◌, ◌<◌, ◌≡◌, refl, sym, ap, ◌∙◌, List, [], ◌∷◌, ◌++◌, map, Option, none, some,
  false, arith, ◌==◌, length, take, append_assoc, length-append, inl, inr, Bool-cases,
}
use postfix_edm.Prelude.Memory.{fetch_of_le, ◌>>=◌}
use postfix_edm.Buffer.{Allocator, add32}
use postfix_edm.Buffer.Laws.{IsValid, contents, Grants}
use postfix_edm.Stream.Laws.{quarter_more}
use postfix_edm.Pdu.Read.{Incoming}
use postfix_edm.Pdu.Message.{Message}
use postfix_edm.Pdu.RoundTrip.{received}
use postfix_edm.Conn.{ImConn}
use postfix_edm.Conn.Sending.{if_false}
use postfix_edm.Conn.Receiving.{
  Drained, End, waiting, read_buf_size, answer_to, policy_answer, parse, on_read, drain,
}
use postfix_edm.Conn.Framing.{packet, packets, AreSendable, IsCut, drain-Parses}
use postfix_edm.Conn.Arriving.{recv_loop-Arrives}

-- `OnRead` at each time, with what netlib_recv is willing to return; a connection that is closed is
-- read no more.
unfoldable pub receive :
    Allocator → (ℕ → List ℕ) → List (ℕ × List ℕ) → ImConn → Option (List Incoming × End × ImConn)
receive a stack [] c = some ([], waiting, c)
receive a stack ((now, gives) ∷ calls) c = do
  (first, end, c') ← on_read a stack now gives c
  elim end [
    | waiting ↦ do
      (others, end', last) ← receive a stack calls c'
      some (first ++ others, end', last)
    | other ↦ some (first, other, c')
  ]

-- The stream that is in the buffer and to come is the packets of `ms`.
pub record Expects (c : ImConn) (ms : List Message) : Type 0 where
  pub valid : IsValid c.in_buf
  pub no_policy : c.policy_conn ≡ false
  pub stream : contents c.in_buf ++ c.socket.coming ≡ packets ms
  pub sendable : AreSendable ms

no_answer : (first : List ℕ) → answer_to first ≡ none
unfolding answer_to
no_answer [] = refl
no_answer (x ∷ first) = elim (Bool-cases (x == 60)) [ inl e ↦ rw e | inr e ↦ rw e ]

asks_nothing :
    (c : ImConn)
    → IsValid c.in_buf
    → c.in_buf.write_offset + read_buf_size ≤ c.in_buf.alloc_size
    → policy_answer c ≡ some none
unfolding policy_answer
asks_nothing c v room = elim (Bool-cases (c.recv_bytes == c.in_buf.write_offset)) [
  | inl e ↦
      rw (e, fetch_of_le c.in_buf.buffer 0 1 (omega (arith, v, room)), ◌>>=◌)
        (ap some (no_answer (take 1 c.in_buf.buffer)))
  | inr e ↦ rw e
]

-- The connection after the loop that parses.
abbrev parsed : ImConn → Drained → ImConn
parsed c d = record c { in_buf = d.buf; recv_pkt_cnt = add32 c.recv_pkt_cnt (length d.handed) }

parse_runs :
    (a : Allocator) (stack : ℕ → List ℕ) (now : ℕ) (c : ImConn)
    → c.policy_conn ≡ false
    → policy_answer c ≡ some none
    → let d = drain stack (suc c.in_buf.write_offset) c.in_buf in
      parse a stack now c ≡ some (d.handed, d.end, parsed c d)
unfolding parse
parse_runs a stack now c off asks = if_false _ _ _ off ∙ rw (asks, ◌>>=◌)

AreSendable-right : (l r : List Message) → AreSendable (l ++ r) → AreSendable r
AreSendable-right [] r s = s
AreSendable-right (m ∷ l) r s = AreSendable-right l r s.1

length-packets : (l r : List Message) → length (packets r) ≤ length (packets (l ++ r))
length-packets [] r = omega arith
length-packets (m ∷ l) r =
    omega (arith, length-packets l r, length-append (packet m) (packets (l ++ r)))

map-append : (l r : List Message) → map received (l ++ r) ≡ map received l ++ map received r
map-append [] r = refl
map-append (m ∷ l) r = ap (λ t. received m ∷ t) (map-append l r)

-- What calls of `OnRead` come to, on a connection that expects `ms`.
pub record HandsOver (ms : List Message) (o : Option (List Incoming × End × ImConn)) : Type 0 where
  pub taken : List Message
  pub left : List Message
  pub after : ImConn
  pub all : ms ≡ taken ++ left
  pub returns : o ≡ some (map received taken, waiting, after)
  pub expects : Expects after left

-- And of one call, which leaves no whole packet.
pub record ReadsWhole (ms : List Message) (o : Option (List Incoming × End × ImConn)) : Type 0 where
  pub hands_over : HandsOver ms o
  pub cut : IsCut hands_over.left (contents hands_over.after.in_buf)

module _ (a : Allocator) (limit : ℕ) (stack : ℕ → List ℕ) (g : Grants a limit)
    (small : limit ≤ 2 ^ 32) where
  on_read-ReadsWhole :
      (now : ℕ) (gives : List ℕ) (c : ImConn) (ms : List Message)
      → Expects c ms
      → quarter_more (read_buf_size + length (packets ms)) < limit
      → ReadsWhole ms (on_read a stack now gives c)
  unfolding on_read
  on_read-ReadsWhole now gives c ms x fits =
      let (c', ran, w) = recv_loop-Arrives a limit g small now gives c x.valid (
        omega
          (arith, ap length x.stream, length-append (contents c.in_buf) c.socket.coming, fits)) in
      let p =
        drain-Parses stack (suc c'.in_buf.write_offset) c'.in_buf c'.socket.coming ms w.valid
          x.sendable (w.in_order ∙ x.stream) (omega (arith, fits)) (omega arith) in
      let d = drain stack (suc c'.in_buf.write_offset) c'.in_buf in
      record {
        hands_over = record {
          taken = p.taken;
          left = p.left;
          after = parsed c' d;
          all = p.all;
          returns =
              rw (ran, ◌>>=◌)
                (parse_runs a stack now c' (w.same_policy ∙ x.no_policy)
                    (asks_nothing c' w.valid w.room)
                  ∙ λ i. some (p.handed i, p.waits i, parsed c' d));
          expects = record {
            valid = p.valid;
            no_policy = w.same_policy ∙ x.no_policy;
            stream = p.follows;
            sendable = AreSendable-right p.taken p.left (subst AreSendable p.all x.sendable);
          };
        };
        cut = p.cut;
      }

  receive-HandsOver :
      (calls : List (ℕ × List ℕ)) (c : ImConn) (ms : List Message)
      → Expects c ms
      → quarter_more (read_buf_size + length (packets ms)) < limit
      → HandsOver ms (receive a stack calls c)
  unfolding receive
  receive-HandsOver [] c ms x fits = record {
    taken = [];
    left = ms;
    after = c;
    all = refl;
    returns = refl;
    expects = x;
  }
  receive-HandsOver ((now, gives) ∷ calls) c ms x fits =
      let r = (on_read-ReadsWhole now gives c ms x fits).hands_over in
      let s =
        receive-HandsOver calls r.after r.left r.expects (
          omega (arith, length-packets r.taken r.left, ap (λ l. length (packets l)) r.all, fits)) in
      record {
        taken = r.taken ++ s.taken;
        left = s.left;
        after = s.after;
        all = r.all ∙ ap (λ l. r.taken ++ l) s.all ∙ sym (append_assoc r.taken s.taken s.left);
        returns =
            rw (r.returns, ◌>>=◌, s.returns)
              (ap (λ l. some (l, waiting, s.after)) (sym (map-append r.taken s.taken)));
        expects = s.expects;
      }

-- The stream that the peer sends is the packets of `ms`, of which some bytes may have come in. However
-- netlib_recv cuts it, over any calls of `OnRead` nothing faults and no exception closes the
-- connection; the packets handed to `HandlePdu` are those of the first messages of `ms`, in order;
-- and what is left in the buffer and to come is the packets of the others. The buffer is valid
-- before and after; the size of the stream and of one more read, with a quarter on top, is below
-- `limit`, where `realloc` does not fail.
pub receive_hands_over :
    (a : Allocator) (limit : ℕ) (stack : ℕ → List ℕ) (calls : List (ℕ × List ℕ)) (c : ImConn)
    (ms : List Message)
    → Grants a limit
    → limit ≤ 2 ^ 32
    → Expects c ms
    → quarter_more (read_buf_size + length (packets ms)) < limit
    → (taken : List Message) × (left : List Message) × (after : ImConn) × (ms ≡ taken ++ left)
      × (receive a stack calls c ≡ some (map received taken, waiting, after))
      × Expects after left
receive_hands_over a limit stack calls c ms g small x fits =
    let r = receive-HandsOver a limit stack g small calls c ms x fits in
    (r.taken, r.left, r.after, r.all, r.returns, r.expects)

-- A call of `OnRead` leaves no whole packet behind: on such a stream it waits, having handed over the
-- packets of the first messages of `ms`, in order, and the buffer holds less than the next packet, or
-- nothing if there is none. The bounds are those of `receive_hands_over`.
pub on_read_leaves_part :
    (a : Allocator) (limit : ℕ) (stack : ℕ → List ℕ) (now : ℕ) (gives : List ℕ) (c : ImConn)
    (ms : List Message)
    → Grants a limit
    → limit ≤ 2 ^ 32
    → Expects c ms
    → quarter_more (read_buf_size + length (packets ms)) < limit
    → (taken : List Message) × (left : List Message) × (after : ImConn) × (ms ≡ taken ++ left)
      × (on_read a stack now gives c ≡ some (map received taken, waiting, after))
      × IsCut left (contents after.in_buf)
on_read_leaves_part a limit stack now gives c ms g small x fits =
    let w = on_read-ReadsWhole a limit stack g small now gives c ms x fits in
    let r = w.hands_over in (r.taken, r.left, r.after, r.all, r.returns, w.cut)
