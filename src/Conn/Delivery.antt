-- ===== src/Conn/Delivery.antt =====
-- Calls of `Send` and `OnWrite` in any order, against any socket.
use postfix_edm.Prelude.{
  ℕ, ◌+◌, ◌^◌, ◌≤◌, ◌<◌, ◌≡◌, refl, ap, sym, ◌∙◌, List, [], ◌∷◌, ◌++◌, Option, some, arith, length,
  append_assoc, append-nil, length-append,
}
use postfix_edm.Prelude.Memory.{◌>>=◌}
use postfix_edm.Buffer.{Allocator}
use postfix_edm.Buffer.Laws.{Grants, contents}
use postfix_edm.Stream.Laws.{quarter_more}
use postfix_edm.Conn.{ImConn, send, on_write}
use postfix_edm.Conn.Sending.{IsConn, handed_over, send-Keeps}
use postfix_edm.Conn.Flushing.{on_write-Keeps}

-- A call of `Send` at a time, or of `OnWrite`.
pub data Event : Type 0 where
  sending : ℕ → List ℕ → Event
  writable : Event

unfoldable pub run : Allocator → ImConn → List Event → Option ImConn
run a c [] = some c
run a c (sending now bytes ∷ events) = do (n, c') ← send a c now bytes; run a c' events
run a c (writable ∷ events) = do c' ← on_write c; run a c' events

-- The data of all the calls of `Send`.
abbrev pub sent_in : List Event → List ℕ
sent_in [] = []
sent_in (sending now bytes ∷ events) = bytes ++ sent_in events
sent_in (writable ∷ events) = sent_in events

-- Whatever the socket takes or refuses: while the bytes that wait in the buffer and those that are handed
-- over, with a quarter on top, stay below `limit`, which is at most 2^31 and below which `realloc` does
-- not fail, no call of `Send` or `OnWrite` faults, and what has gone to the socket followed by what still
-- waits is what had been handed over before, followed by the data of the calls in their order; nothing
-- waits while the connection is not busy.
pub run_delivers :
    (a : Allocator) (limit : ℕ) (c : ImConn) (events : List Event)
    → Grants a limit
    → limit ≤ 2 ^ 31
    → IsConn c
    → quarter_more (length (contents c.out_buf) + length (sent_in events)) < limit
    → (c' : ImConn) × (run a c events ≡ some c')
      × IsConn c'
      × (handed_over c' ≡ handed_over c ++ sent_in events)
unfolding run
run_delivers a limit c [] g small v fits = (c, refl, v, sym (append-nil (handed_over c)))
run_delivers a limit c (sending now bytes ∷ events) g small v fits =
    let (c', ran, k) =
      send-Keeps a limit g small c now bytes v
        (omega (arith, length-append bytes (sent_in events), fits)) in
    let (last, ran', v', e) =
      run_delivers a limit c' events g small k.is_conn
        (omega (arith, length-append bytes (sent_in events), fits, k.bounded)) in
    (
      last,
      rw (ran, ◌>>=◌) ran',
      v',
      e
          ∙ ap (λ l. l ++ sent_in events) k.in_order
          ∙ append_assoc (handed_over c) bytes (sent_in events),
    )
run_delivers a limit c (writable ∷ events) g small v fits =
    let (c', ran, k) = on_write-Keeps c v (omega (arith, fits, small)) in
    let (last, ran', v', e) =
      run_delivers a limit c' events g small k.is_conn (omega (arith, fits, k.bounded)) in
    (
      last,
      rw (ran, ◌>>=◌) ran',
      v',
      e ∙ ap (λ l. l ++ sent_in events) (k.in_order ∙ append-nil (handed_over c)),
    )
