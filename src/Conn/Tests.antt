-- ===== src/Conn/Tests.antt =====
-- Runs of a connection, and its theorems at concrete inputs.
use postfix_edm.Prelude.{ℕ, ◌+◌, ◌≡◌, refl, List, [], ◌∷◌, Option, some, true, false, arith}
use postfix_edm.Buffer.{empty}
use postfix_edm.Buffer.Sample.{giving, giving-Grants}
use postfix_edm.Buffer.Laws.{contents}
use postfix_edm.Conn.{ImConn, Socket, connection, send_loop}
use postfix_edm.Conn.Sending.{IsConn, handed_over, send_loop_fuel}
use postfix_edm.Conn.{flush_loop}
use postfix_edm.Conn.Flushing.{flush_loop_fuel}
use postfix_edm.Conn.Delivery.{Event, sending, writable, run, run_delivers}
use postfix_edm.Prelude.{map, ◌++◌, length, replicate}
use postfix_edm.Buffer.{SimpleBuffer}
use postfix_edm.Buffer.Laws.{IsValid}
use postfix_edm.Pdu.Types.{PduHeader}
use postfix_edm.Pdu.ReadFrame.{HeaderFits}
use postfix_edm.Pdu.Message.{Message, command, beat, text}
use postfix_edm.Pdu.RoundTrip.{received}
use postfix_edm.Conn.Receiving.{waiting, running, on_read, drain}
use postfix_edm.Conn.Framing.{packets, IsCut}
use postfix_edm.Conn.Reception.{receive, Expects, receive_hands_over, on_read_leaves_part}
use postfix_edm.Conn.Spinning.{hollow, hollow_pdu, drain_spins}

-- A socket that takes two bytes, then refuses, then takes one, then refuses again.
abbrev slow : Socket
slow = record { takes = 2 ∷ 0 ∷ 1 ∷ 0 ∷ []; wire = []; coming = [] }

abbrev fresh : ImConn
fresh = connection 0 slow

fresh-IsConn : IsConn fresh
unfolding empty connection
fresh-IsConn = record { valid = omega arith; idle = λ h. refl }

abbrev calls : List Event
calls = sending 5 (1 ∷ 2 ∷ 3 ∷ []) ∷ sending 6 (4 ∷ []) ∷ writable ∷ []

run_delivers_example :
    (c : ImConn) × (run (giving 100) fresh calls ≡ some c)
    × IsConn c
    × (handed_over c ≡ 1 ∷ 2 ∷ 3 ∷ 4 ∷ [])
unfolding empty connection
run_delivers_example =
    run_delivers (giving 100) 100 fresh calls (giving-Grants 100) (omega arith) fresh-IsConn
      (omega arith)

abbrev waiting_bytes : SimpleBuffer
waiting_bytes = record { buffer = 1 ∷ 2 ∷ 3 ∷ 0 ∷ []; alloc_size = 4; write_offset = 3 }

waiting_bytes-IsValid : IsValid waiting_bytes
waiting_bytes-IsValid = omega arith

send_loop_fuel_example : send_loop 3 slow (1 ∷ 2 ∷ 3 ∷ []) ≡ send_loop 7 slow (1 ∷ 2 ∷ 3 ∷ [])
send_loop_fuel_example = send_loop_fuel 3 7 slow (1 ∷ 2 ∷ 3 ∷ []) (omega arith) (omega arith)

flush_loop_fuel_example : flush_loop 3 waiting_bytes slow ≡ flush_loop 9 waiting_bytes slow
flush_loop_fuel_example =
    flush_loop_fuel 3 9 waiting_bytes slow waiting_bytes-IsValid (omega arith) (omega arith)

-- The socket has taken three bytes, and one waits.
run_runs :
    run (giving 100) fresh calls
    ≡ some (record fresh {
      busy = true;
      out_buf = record { buffer = 4 ∷ 4 ∷ []; alloc_size = 2; write_offset = 1 };
      last_send_tick = 6;
      send_pkt_cnt = 2;
      socket = record { takes = []; wire = 1 ∷ 2 ∷ 3 ∷ []; coming = [] };
    })
unfolding run empty connection postfix_edm.Conn.send postfix_edm.Conn.send_loop
    postfix_edm.Conn.netlib_send postfix_edm.Conn.queue_rest postfix_edm.Conn.on_write
    postfix_edm.Conn.flush_loop postfix_edm.Conn.after_send postfix_edm.Buffer.write
    postfix_edm.Buffer.make_room postfix_edm.Buffer.extend postfix_edm.Buffer.inc_write_offset
    postfix_edm.Buffer.read postfix_edm.Buffer.read_front postfix_edm.Prelude.Memory.fetch
    postfix_edm.Prelude.Memory.store
run_runs = refl

-- Three messages, whose packets are 14, 12 and 18 bytes, and the start of a connection to which they
-- come.
abbrev messages : List Message
messages = command 2 ∷ beat ∷ text (65 ∷ 66 ∷ []) ∷ []

abbrev arriving : ImConn
arriving = connection 0 (record { takes = []; wire = []; coming = packets messages })

arriving-Expects : Expects arriving messages
unfolding empty connection
arriving-Expects = record {
  valid = omega arith;
  no_policy = refl;
  stream = refl;
  sendable = (omega arith, (tt, (tt, tt)));
}

abbrev sevens : ℕ → List ℕ
sevens i = 7 ∷ 7 ∷ 7 ∷ 7 ∷ []

receive_hands_over_example :
    (taken : List Message) × (left : List Message) × (after : ImConn) × (messages ≡ taken ++ left)
    × (receive (giving 4000) sevens ((1, 5 ∷ 3 ∷ 0 ∷ []) ∷ (2, 30 ∷ []) ∷ []) arriving
        ≡ some (map received taken, waiting, after))
    × Expects after left
receive_hands_over_example =
    receive_hands_over (giving 4000) 4000 sevens ((1, 5 ∷ 3 ∷ 0 ∷ []) ∷ (2, 30 ∷ []) ∷ []) arriving
      messages (giving-Grants 4000) (omega arith) arriving-Expects (omega arith)

on_read_leaves_part_example :
    (taken : List Message) × (left : List Message) × (after : ImConn) × (messages ≡ taken ++ left)
    × (on_read (giving 4000) sevens 1 (20 ∷ 7 ∷ []) arriving
        ≡ some (map received taken, waiting, after))
    × IsCut left (contents after.in_buf)
on_read_leaves_part_example =
    on_read_leaves_part (giving 4000) 4000 sevens 1 (20 ∷ 7 ∷ []) arriving messages
      (giving-Grants 4000) (omega arith) arriving-Expects (omega arith)

-- A data packet that claims no bytes.
abbrev data_header : PduHeader
data_header = record { length = 0; module_id = 2; command_id = 1; version = 1; reserved = 0 }

abbrev hollow_buffer : SimpleBuffer
hollow_buffer = record { buffer = hollow data_header (5 ∷ []); alloc_size = 17; write_offset = 17 }

hollow_buffer-IsValid : IsValid hollow_buffer
hollow_buffer-IsValid = omega arith

data_header-HeaderFits : HeaderFits data_header
data_header-HeaderFits = omega arith

drain_spins_example :
    ((drain sevens 3 hollow_buffer).handed ≡ replicate 3 (hollow_pdu data_header))
    × ((drain sevens 3 hollow_buffer).end ≡ running)
drain_spins_example =
    drain_spins sevens data_header 3 hollow_buffer (5 ∷ []) hollow_buffer-IsValid
      data_header-HeaderFits refl refl refl
