-- ===== src/Pdu/Read.antt =====
-- c++/base/ImPduBase.cpp, ImPduClient.cpp: a packet is read from the bytes that have come in.
use Prim.Native.String.{String}
use postfix_edm.Prelude.{
  ℕ, ◌+◌, ◌-◌, ◌%◌, ◌^◌, List, Option, none, some, ◌||◌, ltb, ◌==◌, if◌then◌else◌, drop,
}
use postfix_edm.Stream.{ByteStream, over_memory, get16, get32, read_string}
use postfix_edm.Stream.Words.{read_uint16, read_uint32}
use postfix_edm.Pdu.Types.{
  PduHeader, Body, server_command, adjust_rate, client_data, server_status_info,
  all_client_status_info, heartbeat, response, reg_client_type, client_done, PduException, Outcome,
  ok, thrown, ◌>>=◌, checked, header_len, pdu_version, sid_command, sid_msg, sid_other,
  cid_command_start, cid_command_stop, cid_command_pause, cid_command_resume,
  cid_command_adjust_rate, cid_msg_data, cid_msg_server_status_info, cid_msg_all_client_status_info,
  cid_other_heartbeat, cid_other_response, cid_other_reg_client_type, cid_other_client_done,
  parse_failed, wrong_service_id, wrong_command_id,
}

-- uint32_t subtraction.
abbrev pub sub32 : ℕ → ℕ → ℕ
sub32 a b = (a + 2 ^ 32 - b) % 2 ^ 32

-- A packet that has been read: `m_pdu_header`, the subclass, and `m_incoming_len`.
pub record Incoming : Type 0 where
  pub header : PduHeader
  pub body : Body
  pub length : ℕ

-- What the constructor of `CImPdu` sets; it leaves the length unset.
unfoldable pub initial_header : PduHeader
initial_header = record {
  length = 0;
  module_id = sid_other;
  command_id = 0;
  version = pdu_version;
  reserved = 0;
}

unfoldable pub wrong_command : ℕ → ℕ → String → PduException
wrong_command sid cid msg = record {
  module_id = sid;
  command_id = cid;
  error_code = wrong_command_id;
  error_msg = msg;
}

-- `_IsPduAvailable`: the length of the packet, if it has come in whole.
unfoldable pub is_pdu_available : List ℕ → ℕ → Outcome (Option ℕ)
is_pdu_available mem len = if ltb len header_len then ok none else (do
  pdu_len ← checked (read_uint32 mem 0)
  if ltb len pdu_len then ok none else ok (some pdu_len))

-- `stack i` is what the local array of a `>>` holds before it is read into, at the `i`-th `>>` of a
-- constructor: the operators do not set it, and a read that is cut off does not either.
module _ (stack : ℕ → List ℕ) where
  -- `ReadPduHeader`; `none` is its result -1.
  unfoldable pub read_pdu_header : List ℕ → ℕ → Outcome (Option PduHeader)
  read_pdu_header mem len = if ltb len header_len then ok none else (do
    (length, is) ← checked (get32 (over_memory mem len) (stack 0))
    (module_id, is) ← checked (get16 is (stack 0))
    (command_id, is) ← checked (get16 is (stack 0))
    (version, is) ← checked (get16 is (stack 0))
    (reserved, is) ← checked (get16 is (stack 0))
    ok (
        some (record {
          length = length;
          module_id = module_id;
          command_id = command_id;
          version = version;
          reserved = reserved;
        })))

  -- The constructors that read ("解包"): what stands behind the header, then `PARSE_PACKET_ASSERT`.
  unfoldable pub unpack : List ℕ → ℕ → (ByteStream → Outcome (Body × ByteStream)) → Outcome Incoming
  unpack mem len read_body = do
    found ← read_pdu_header mem header_len
    let header : PduHeader = elim found [ none ↦ initial_header | some h ↦ h ]
    (body, is) ← read_body (over_memory (drop header_len mem) (sub32 len header_len))
    if is.pos == sub32 len header_len
        then ok (record { header = header; body = body; length = len })
        else thrown (record {
          module_id = header.module_id;
          command_id = header.command_id;
          error_code = parse_failed;
          error_msg = "parse packet failed";
        })

  -- The bodies, class by class.
  unfoldable pub read_server_command : ByteStream → Outcome (Body × ByteStream)
  read_server_command is = do (c, is) ← checked (get16 is (stack 0)); ok (server_command c, is)

  unfoldable pub read_adjust_rate : ByteStream → Outcome (Body × ByteStream)
  read_adjust_rate is = do
    (delay, is) ← checked (get16 is (stack 0))
    (multi, is) ← checked (get16 is (stack 1))
    ok (adjust_rate delay multi, is)

  unfoldable pub read_client_data : ByteStream → Outcome (Body × ByteStream)
  read_client_data is = do (s, is) ← checked (read_string is (stack 0)); ok (client_data s, is)

  unfoldable pub read_server_status_info : ℕ → ByteStream → Outcome (Body × ByteStream)
  read_server_status_info len is =
      if ltb header_len len
      then (do (s, is) ← checked (read_string is (stack 0)); ok (server_status_info (some s), is))
      else ok (server_status_info none, is)

  unfoldable pub read_all_client_status_info : ByteStream → Outcome (Body × ByteStream)
  read_all_client_status_info is = ok (all_client_status_info, is)

  unfoldable pub read_heartbeat : ℕ → ByteStream → Outcome (Body × ByteStream)
  read_heartbeat len is =
      if ltb header_len len
      then (do (s, is) ← checked (read_string is (stack 0)); ok (heartbeat (some s), is))
      else ok (heartbeat none, is)

  unfoldable pub read_response : ByteStream → Outcome (Body × ByteStream)
  read_response is = do
    (status, is) ← checked (get16 is (stack 0))
    (s, is) ← checked (read_string is (stack 1))
    ok (response status s, is)

  unfoldable pub read_reg_client_type : ByteStream → Outcome (Body × ByteStream)
  read_reg_client_type is = do (t, is) ← checked (get16 is (stack 0)); ok (reg_client_type t, is)

  unfoldable pub read_client_done : ByteStream → Outcome (Body × ByteStream)
  read_client_done is = ok (client_done, is)

  -- `ReadPduCommand`, `ReadPduMsg` and `ReadPduOther`.
  unfoldable pub read_pdu_command : ℕ → List ℕ → ℕ → Outcome Incoming
  read_pdu_command command_id mem len =
      if command_id == cid_command_start
        || command_id == cid_command_stop
        || command_id == cid_command_pause
        || command_id == cid_command_resume
      then unpack mem len read_server_command
      else if command_id == cid_command_adjust_rate
      then unpack mem len read_adjust_rate
      else thrown (wrong_command sid_command command_id "wrong command id")

  unfoldable pub read_pdu_msg : ℕ → List ℕ → ℕ → Outcome Incoming
  read_pdu_msg command_id mem len =
      if command_id == cid_msg_data
      then unpack mem len read_client_data
      else if command_id == cid_msg_server_status_info
      then unpack mem len (read_server_status_info len)
      else if command_id == cid_msg_all_client_status_info
      then unpack mem len read_all_client_status_info
      else thrown (wrong_command sid_msg command_id "wrong command id")

  unfoldable pub read_pdu_other : ℕ → List ℕ → ℕ → Outcome Incoming
  read_pdu_other command_id mem len =
      if command_id == cid_other_heartbeat
      then unpack mem len (read_heartbeat len)
      else if command_id == cid_other_response
      then unpack mem len read_response
      else if command_id == cid_other_reg_client_type
      then unpack mem len read_reg_client_type
      else if command_id == cid_other_client_done
      then unpack mem len read_client_done
      else thrown (wrong_command sid_other command_id "wrong packet type")

  -- The `switch` of `ReadPdu`.
  unfoldable pub dispatch : ℕ → ℕ → List ℕ → ℕ → Outcome Incoming
  dispatch service_id command_id mem len =
      if service_id == sid_command
      then read_pdu_command command_id mem len
      else if service_id == sid_msg
      then read_pdu_msg command_id mem len
      else if service_id == sid_other
      then read_pdu_other command_id mem len
      else thrown (record {
        module_id = service_id;
        command_id = command_id;
        error_code = wrong_service_id;
        error_msg = "wrong service id";
      })

  -- `ReadPdu`; `none` is the null pointer, when the packet has not come in whole.
  unfoldable pub read_pdu : List ℕ → ℕ → Outcome (Option Incoming)
  read_pdu mem len = do
    available ← is_pdu_available mem len
    elim available [
      | none ↦ ok none
      | some pdu_len ↦ do
        service_id ← checked (read_uint16 mem 4)
        command_id ← checked (read_uint16 mem 6)
        pdu ← dispatch service_id command_id mem pdu_len
        ok (some pdu)
    ]
