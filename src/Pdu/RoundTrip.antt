-- ===== src/Pdu/RoundTrip.antt =====
-- Reading a composed message gives the message back.
use postfix_edm.Prelude.{
  ℕ, ◌+◌, ◌^◌, ◌≤◌, ◌<◌, ◌≡◌, refl, ap, ◌∙◌, List, ◌++◌, some, arith, length, lt→ltb, drop,
}
use postfix_edm.Buffer.{Allocator}
use postfix_edm.Buffer.Laws.{Grants, contents}
use postfix_edm.Stream.{ByteStream, read_string}
use postfix_edm.Stream.Words.{bytes16}
use postfix_edm.Stream.Laws.{at, quarter_more, get16_within, read_string_within}
use postfix_edm.Pdu.Types.{Body, Outcome, ok, checked, ◌>>=◌}
use postfix_edm.Pdu.Read.{
  Incoming, initial_header, dispatch, read_pdu, unpack, read_pdu_command, read_pdu_msg,
  read_pdu_other, read_server_command, read_adjust_rate, read_client_data, read_server_status_info,
  read_heartbeat, read_response, read_reg_client_type,
}
use postfix_edm.Pdu.Compose.{Outgoing, header_for}
use postfix_edm.Pdu.Frame.{frame}
use postfix_edm.Pdu.ReadFrame.{HeaderFits, unpack_runs, read_pdu_runs}
use postfix_edm.Pdu.SendFrame.{send-frame}
use postfix_edm.Pdu.Message.{
  Message, command, rate, text, status_request, status_answer, beat, client_beat, answer,
  registration, send, header, payload, body, counted, IsSendable,
}

-- The packet that the receiver gets for a message.
abbrev pub received : Message → Incoming
received m = record {
  header = record (header m) { length = 12 + length (payload m) };
  body = body m;
  length = 12 + length (payload m);
}

module _ (stack : ℕ → List ℕ) (rest : List ℕ) where
  -- What each reader makes of its payload.
  abbrev Reads : Message → (ByteStream → Outcome (Body × ByteStream)) → Type 0
  Reads m read_body =
      read_body (at (payload m ++ rest) (length (payload m)) 0)
      ≡ ok (body m, at (payload m ++ rest) (length (payload m)) (length (payload m)))

  Reads-command : (c : ℕ) → c < 2 ^ 16 → Reads (command c) (read_server_command stack)
  unfolding read_server_command
  Reads-command c h = rw (
    get16_within (bytes16 c ++ rest) 2 0 (stack 0) (omega arith) c rest refl h (omega arith),
    checked,
  )

  Reads-rate : (d m : ℕ) → d < 2 ^ 16 → m < 2 ^ 16 → Reads (rate d m) (read_adjust_rate stack)
  unfolding read_adjust_rate
  Reads-rate d m hd hm = rw (
    get16_within mem 4 0 (stack 0) (omega arith) d (bytes16 m ++ rest) refl hd (omega arith),
    checked,
    ◌>>=◌,
    get16_within mem 4 2 (stack 1) (omega arith) m rest refl hm (omega arith),
  )
    where
      mem : List ℕ
      mem = bytes16 d ++ (bytes16 m ++ rest)

  -- A counted text that ends the packet is read to the end of the stream.
  read_counted :
      (mem t array : List ℕ) (end pos : ℕ)
      → drop pos mem ≡ counted t ++ rest
      → end ≡ pos + 4 + length t
      → end < 2 ^ 32
      → read_string (at mem end pos) array
        ≡ some (record { place = pos + 4; size = length t }, at mem end end)
  read_counted mem t array end pos e stop small =
      read_string_within mem end pos array small (length t) (t ++ rest) e (omega arith)
        (omega arith)
      ∙ ap (λ (k : ℕ). some (record { place = pos + 4; size = length t }, at mem end k))
          (omega arith)

  Reads-text : (t : List ℕ) → 4 + length t < 2 ^ 32 → Reads (text t) (read_client_data stack)
  unfolding read_client_data
  Reads-text t h = rw (
    read_counted (counted t ++ rest) t (stack 0) (length (counted t)) 0 refl (omega arith)
        (omega arith),
    checked,
  )

  Reads-status_request : Reads status_request (read_server_status_info stack 12)
  unfolding read_server_status_info
  Reads-status_request = refl

  Reads-status_answer :
      (t : List ℕ)
      → 4 + length t < 2 ^ 32
      → Reads (status_answer t) (read_server_status_info stack (12 + length (counted t)))
  unfolding read_server_status_info
  Reads-status_answer t h = rw (
    lt→ltb 12 (12 + length (counted t)) (omega arith),
    read_counted (counted t ++ rest) t (stack 0) (length (counted t)) 0 refl (omega arith)
        (omega arith),
    checked,
  )

  Reads-beat : Reads beat (read_heartbeat stack 12)
  unfolding read_heartbeat
  Reads-beat = refl

  Reads-client_beat :
      (t : List ℕ)
      → 4 + length t < 2 ^ 32
      → Reads (client_beat t) (read_heartbeat stack (12 + length (counted t)))
  unfolding read_heartbeat
  Reads-client_beat t h = rw (
    lt→ltb 12 (12 + length (counted t)) (omega arith),
    read_counted (counted t ++ rest) t (stack 0) (length (counted t)) 0 refl (omega arith)
        (omega arith),
    checked,
  )

  Reads-answer :
      (d : ℕ) (t : List ℕ)
      → d < 2 ^ 16
      → 6 + length t < 2 ^ 32
      → Reads (answer d t) (read_response stack)
  unfolding read_response
  Reads-answer d t hd h = rw (
    get16_within mem end 0 (stack 0) (omega arith) d (counted t ++ rest) refl hd (omega arith),
    checked,
    ◌>>=◌,
    read_counted mem t (stack 1) end 2 refl (omega arith) (omega arith),
  )
    where
      mem : List ℕ
      mem = bytes16 d ++ (counted t ++ rest)

      end : ℕ
      end = length (bytes16 d ++ counted t)

  Reads-registration : (c : ℕ) → c < 2 ^ 16 → Reads (registration c) (read_reg_client_type stack)
  unfolding read_reg_client_type
  Reads-registration c h = rw (
    get16_within (bytes16 c ++ rest) 2 0 (stack 0) (omega arith) c rest refl h (omega arith),
    checked,
  )

  -- The ids of each message lead to its reader.
  module _ (m : Message) (ok_ids : HeaderFits (header m)) (len : ℕ)
      (fit : 12 + length (payload m) ≤ len) (small : len < 2 ^ 32) where
    lands :
        (read_body : ByteStream → Outcome (Body × ByteStream))
        → Reads m read_body
        → dispatch stack
            (header m).module_id
            (header m).command_id
            (frame (header m) (payload m) ++ rest)
            (12 + length (payload m))
          ≡ unpack stack (frame (header m) (payload m) ++ rest) (12 + length (payload m)) read_body
        → read_pdu stack (frame (header m) (payload m) ++ rest) len ≡ ok (some (received m))
    lands read_body reads chosen =
        read_pdu_runs stack (header m) ok_ids (payload m) rest len fit small
        ∙ rw (
          chosen,
          unpack_runs stack (header m) ok_ids (payload m) rest (body m) read_body (omega arith)
              reads,
        )

header-HeaderFits : (m : Message) → IsSendable m → HeaderFits (header m)
unfolding header_for initial_header
header-HeaderFits (command c) s = omega arith
header-HeaderFits _ s = omega arith

chosen_command :
    (stack : ℕ → List ℕ) (c : ℕ) (mem : List ℕ) (len : ℕ)
    → IsSendable (command c)
    → dispatch stack 1 c mem len ≡ unpack stack mem len (read_server_command stack)
unfolding dispatch read_pdu_command
chosen_command stack c mem len s = ground arith

-- The parser takes a message's packet off the front of what has come in, whatever follows it.
pub read-frame :
    (stack : ℕ → List ℕ) (m : Message) (rest : List ℕ) (len : ℕ)
    → IsSendable m
    → 12 + length (payload m) ≤ len
    → len < 2 ^ 32
    → read_pdu stack (frame (header m) (payload m) ++ rest) len ≡ ok (some (received m))
unfolding dispatch read_pdu_command read_pdu_msg read_pdu_other header_for initial_header
read-frame stack (command c) rest len s fit small =
    lands stack rest (command c) (header-HeaderFits (command c) s) len fit small
      (read_server_command stack) (Reads-command stack rest c (omega arith))
      (chosen_command stack c (frame (header (command c)) (bytes16 c) ++ rest) 14 s)
read-frame stack (rate d m) rest len s fit small =
    lands stack rest (rate d m) (header-HeaderFits (rate d m) s) len fit small
      (read_adjust_rate stack) (Reads-rate stack rest d m s.0 s.1) refl
read-frame stack (text t) rest len s fit small =
    lands stack rest (text t) (header-HeaderFits (text t) s) len fit small (read_client_data stack)
      (Reads-text stack rest t (omega arith)) refl
read-frame stack status_request rest len s fit small =
    lands stack rest status_request (header-HeaderFits status_request s) len fit small
      (read_server_status_info stack 12) (Reads-status_request stack rest) refl
read-frame stack (status_answer t) rest len s fit small =
    lands stack rest (status_answer t) (header-HeaderFits (status_answer t) s) len fit small
      (read_server_status_info stack (12 + length (counted t)))
      (Reads-status_answer stack rest t (omega arith)) refl
read-frame stack beat rest len s fit small =
    lands stack rest beat (header-HeaderFits beat s) len fit small (read_heartbeat stack 12)
      (Reads-beat stack rest) refl
read-frame stack (client_beat t) rest len s fit small =
    lands stack rest (client_beat t) (header-HeaderFits (client_beat t) s) len fit small
      (read_heartbeat stack (12 + length (counted t)))
      (Reads-client_beat stack rest t (omega arith)) refl
read-frame stack (answer d t) rest len s fit small =
    lands stack rest (answer d t) (header-HeaderFits (answer d t) s) len fit small
      (read_response stack) (Reads-answer stack rest d t s (omega arith)) refl
read-frame stack (registration c) rest len s fit small =
    lands stack rest (registration c) (header-HeaderFits (registration c) s) len fit small
      (read_reg_client_type stack) (Reads-registration stack rest c s) refl

-- A message that one program composes, of any kind but `CImPduAllClientStatusInfo` and `CImPduClientDone`,
-- is what the other reads: composing succeeds while the packet, with a quarter on top, stays below
-- `limit`, where `realloc` does not fail; and `ReadPdu` over any memory that begins with the packet, once
-- `len` bytes of it have come in and the packet is among them, returns the same message, takes exactly the
-- packet's length, and throws nothing.
pub read_pdu-send :
    (a : Allocator) (limit : ℕ) (stack : ℕ → List ℕ) (m : Message) (rest : List ℕ) (len : ℕ)
    → Grants a limit
    → limit ≤ 2 ^ 32
    → IsSendable m
    → quarter_more (12 + length (payload m)) < limit
    → 12 + length (payload m) ≤ len
    → len < 2 ^ 32
    → (p : Outgoing) × (send a m ≡ some p)
      × (length (contents p.buf) ≡ (received m).length)
      × (read_pdu stack (contents p.buf ++ rest) len ≡ ok (some (received m)))
read_pdu-send a limit stack m rest len g small s room fit word =
    let (p, ran, v, e) = send-frame a limit g small m room in
    (
      p,
      ran,
      ap length e ∙ omega arith,
      ap (λ l. read_pdu stack (l ++ rest) len) e ∙ read-frame stack m rest len s fit word,
    )
