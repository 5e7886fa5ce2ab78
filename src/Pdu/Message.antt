-- ===== src/Pdu/Message.antt =====
-- What the two programs say to one another: messages with their headers, their payloads, and what stands
-- in a packet that carries them. Two that the programs compose as well are left out, since no parser reads
-- them as what they are: `CImPduAllClientStatusInfo` and `CImPduClientDone`.
use postfix_edm.Prelude.{ℕ, ◌^◌, ◌<◌, ◌≡◌, ◌⊎◌, List, [], ◌++◌, Option, none, some, length}
use postfix_edm.Buffer.{Allocator}
use postfix_edm.Stream.{Slice}
use postfix_edm.Stream.Words.{bytes16, bytes32}
use postfix_edm.Pdu.Types.{
  PduHeader, Body, server_command, adjust_rate, client_data, server_status_info, heartbeat,
  response, reg_client_type, sid_command, sid_msg, sid_other, cid_command_start, cid_command_stop,
  cid_command_pause, cid_command_resume, cid_command_adjust_rate, cid_msg_data,
  cid_msg_server_status_info, cid_other_heartbeat, cid_other_response, cid_other_reg_client_type,
}
use postfix_edm.Pdu.Compose.{
  Outgoing, header_for, server_command_pdu, adjust_rate_pdu, client_data_pdu,
  server_status_request_pdu, server_status_info_pdu, heartbeat_pdu, client_heartbeat_pdu,
  response_pdu, reg_client_type_pdu,
}

pub data Message : Type 0 where
  command : ℕ → Message
  rate : ℕ → ℕ → Message
  text : List ℕ → Message
  status_request : Message
  status_answer : List ℕ → Message
  beat : Message
  client_beat : List ℕ → Message
  answer : ℕ → List ℕ → Message
  registration : ℕ → Message

-- The constructor that composes the message.
abbrev pub send : Allocator → Message → Option Outgoing
send a (command c) = server_command_pdu a c
send a (rate d m) = adjust_rate_pdu a d m
send a (text t) = client_data_pdu a t (length t)
send a status_request = server_status_request_pdu a
send a (status_answer json) = server_status_info_pdu a json
send a beat = heartbeat_pdu a
send a (client_beat json) = client_heartbeat_pdu a json
send a (answer status t) = response_pdu a status t
send a (registration t) = reg_client_type_pdu a t

abbrev pub header : Message → PduHeader
header (command c) = header_for sid_command c
header (rate d m) = header_for sid_command cid_command_adjust_rate
header (text t) = header_for sid_msg cid_msg_data
header status_request = header_for sid_msg cid_msg_server_status_info
header (status_answer json) = header_for sid_msg cid_msg_server_status_info
header beat = header_for sid_other cid_other_heartbeat
header (client_beat json) = header_for sid_other cid_other_heartbeat
header (answer status t) = header_for sid_other cid_other_response
header (registration t) = header_for sid_other cid_other_reg_client_type

-- A text goes with its length in front.
abbrev pub counted : List ℕ → List ℕ
counted t = bytes32 (length t) ++ t

abbrev pub payload : Message → List ℕ
payload (command c) = bytes16 c
payload (rate d m) = bytes16 d ++ bytes16 m
payload (text t) = counted t
payload status_request = []
payload (status_answer json) = counted json
payload beat = []
payload (client_beat json) = counted json
payload (answer status t) = bytes16 status ++ counted t
payload (registration t) = bytes16 t

abbrev text_at : ℕ → List ℕ → Slice
text_at i t = record { place = i; size = length t }

abbrev pub body : Message → Body
body (command c) = server_command c
body (rate d m) = adjust_rate d m
body (text t) = client_data (text_at 4 t)
body status_request = server_status_info none
body (status_answer json) = server_status_info (some (text_at 4 json))
body beat = heartbeat none
body (client_beat json) = heartbeat (some (text_at 4 json))
body (answer status t) = response status (text_at 6 t)
body (registration t) = reg_client_type t

-- The command is one of the four, and a number fits its word.
abbrev pub IsSendable : Message → Type 0
IsSendable (command c) =
    (c ≡ cid_command_start)
    ⊎ (c ≡ cid_command_stop)
    ⊎ (c ≡ cid_command_pause)
    ⊎ (c ≡ cid_command_resume)
IsSendable (rate d m) = (d < 2 ^ 16) × (m < 2 ^ 16)
IsSendable (answer status t) = status < 2 ^ 16
IsSendable (registration t) = t < 2 ^ 16
IsSendable (text t) = Unit
IsSendable status_request = Unit
IsSendable (status_answer json) = Unit
IsSendable beat = Unit
IsSendable (client_beat json) = Unit
