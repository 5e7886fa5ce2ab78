-- ===== src/Pdu/Compose.antt =====
-- c++/base/ImPduBase.cpp, ImPduClient.cpp: a packet is composed in its own buffer.
use postfix_edm.Prelude.{ℕ, List, Option, none, some}
use postfix_edm.Prelude.Memory.{◌>>=◌}
use postfix_edm.Buffer.{SimpleBuffer, Allocator, empty, write}
use postfix_edm.Stream.{ByteStream, simple, raw, over_buffer, put16, write_data, write_string}
use postfix_edm.Stream.Words.{write_uint16, write_uint32}
use postfix_edm.Pdu.Types.{
  PduHeader, header_len, sid_command, sid_msg, sid_other, cid_command_adjust_rate, cid_msg_data,
  cid_msg_server_status_info, cid_msg_all_client_status_info, cid_other_heartbeat,
  cid_other_response, cid_other_reg_client_type,
}
use postfix_edm.Pdu.Read.{initial_header}

-- `m_pdu_header` and `m_buf` of a packet with no `m_incoming_buf`: `GetBuffer` and `GetLength` are
-- those of `m_buf`.
pub record Outgoing : Type 0 where
  pub header : PduHeader
  pub buf : SimpleBuffer

-- `WriteHeader`.
unfoldable pub write_header : Outgoing → Option Outgoing
write_header p = do
  mem ← write_uint32 p.buf.buffer 0 p.buf.write_offset
  mem ← write_uint16 mem 4 p.header.module_id
  mem ← write_uint16 mem 6 p.header.command_id
  mem ← write_uint16 mem 8 p.header.version
  mem ← write_uint16 mem 10 p.header.reserved
  some (record p { buf = record (p.buf) { buffer = mem } })

-- `SetVersion` and `SetReserved` write to the bytes, not to the member.
unfoldable pub set_version : Outgoing → ℕ → Option Outgoing
set_version p version = do
  mem ← write_uint16 p.buf.buffer 8 version
  some (record p { buf = record (p.buf) { buffer = mem } })

unfoldable pub set_reserved : Outgoing → ℕ → Option Outgoing
set_reserved p reserved = do
  mem ← write_uint16 p.buf.buffer 10 reserved
  some (record p { buf = record (p.buf) { buffer = mem } })

-- The stream of a constructor writes to `m_buf` itself.
unfoldable pub buffer_of : ByteStream → Option SimpleBuffer
buffer_of s = elim s.target [ simple b ↦ some b | raw mem ↦ none ]

unfoldable pub header_for : ℕ → ℕ → PduHeader
unfolding initial_header
header_for module_id command_id = record initial_header {
  module_id = module_id;
  command_id = command_id;
}

module _ (a : Allocator) where
  -- The constructors that compose ("组包"): room for the header, the body, then the header.
  unfoldable pub compose : PduHeader → (ByteStream → Option ByteStream) → Option Outgoing
  compose header write_body = do
    (n, b) ← write a empty none header_len
    os ← write_body (over_buffer b header_len)
    buf ← buffer_of os
    write_header (record { header = header; buf = buf })

  unfoldable pub server_command_pdu : ℕ → Option Outgoing
  unfolding header_for
  server_command_pdu c = compose (header_for sid_command c) (λ os. put16 a os c)

  unfoldable pub adjust_rate_pdu : ℕ → ℕ → Option Outgoing
  unfolding header_for
  adjust_rate_pdu delay multi =
      compose (header_for sid_command cid_command_adjust_rate)
        (λ os. do os ← put16 a os delay; put16 a os multi)

  unfoldable pub client_data_pdu : List ℕ → ℕ → Option Outgoing
  unfolding header_for
  client_data_pdu bytes len =
      compose (header_for sid_msg cid_msg_data) (λ os. write_data a os (some bytes) len)

  -- The request, and the answer with its JSON text.
  unfoldable pub server_status_request_pdu : Option Outgoing
  unfolding header_for
  server_status_request_pdu = compose (header_for sid_msg cid_msg_server_status_info) some

  unfoldable pub server_status_info_pdu : List ℕ → Option Outgoing
  unfolding header_for
  server_status_info_pdu json =
      compose (header_for sid_msg cid_msg_server_status_info) (λ os. write_string a os (some json))

  unfoldable pub all_client_status_info_pdu : List ℕ → Option Outgoing
  unfolding header_for
  all_client_status_info_pdu json =
      compose (header_for sid_msg cid_msg_all_client_status_info)
        (λ os. write_string a os (some json))

  unfoldable pub heartbeat_pdu : Option Outgoing
  unfolding header_for
  heartbeat_pdu = compose (header_for sid_other cid_other_heartbeat) some

  unfoldable pub client_heartbeat_pdu : List ℕ → Option Outgoing
  unfolding header_for
  client_heartbeat_pdu json =
      compose (header_for sid_other cid_other_heartbeat) (λ os. write_string a os (some json))

  unfoldable pub response_pdu : ℕ → List ℕ → Option Outgoing
  unfolding header_for
  response_pdu status message =
      compose (header_for sid_other cid_other_response)
        (λ os. do os ← put16 a os status; write_string a os (some message))

  unfoldable pub reg_client_type_pdu : ℕ → Option Outgoing
  unfolding header_for
  reg_client_type_pdu t =
      compose (header_for sid_other cid_other_reg_client_type) (λ os. put16 a os t)

  -- The command id is that of the registration, as in the source.
  unfoldable pub client_done_pdu : ℕ → Option Outgoing
  unfolding header_for
  client_done_pdu t = compose (header_for sid_other cid_other_reg_client_type) some
