-- ===== src/Pdu/Types.antt =====
-- c++/base/ImPduBase.h, ImPduClient.h: headers, ids and packets, and the exception of the parser.
use Prim.Native.String.{String}
use postfix_edm.Prelude.{ℕ, ◌+◌, ◌*◌, ◌^◌, Option, none, some}
use postfix_edm.Stream.{Slice}

abbrev pub header_len : ℕ
header_len = 12

abbrev pub pdu_version : ℕ
pdu_version = 1

-- Module ids.
abbrev pub sid_command : ℕ
sid_command = 1

abbrev pub sid_msg : ℕ
sid_msg = 2

abbrev pub sid_other : ℕ
sid_other = 3

-- Command ids.
abbrev pub cid_command_start : ℕ
cid_command_start = 1

abbrev pub cid_command_stop : ℕ
cid_command_stop = 2

abbrev pub cid_command_pause : ℕ
cid_command_pause = 4

abbrev pub cid_command_resume : ℕ
cid_command_resume = 8

abbrev pub cid_command_adjust_rate : ℕ
cid_command_adjust_rate = 16

abbrev pub cid_msg_data : ℕ
cid_msg_data = 1

abbrev pub cid_msg_server_status_info : ℕ
cid_msg_server_status_info = 2

abbrev pub cid_msg_all_client_status_info : ℕ
cid_msg_all_client_status_info = 3

abbrev pub cid_other_heartbeat : ℕ
cid_other_heartbeat = 1

abbrev pub cid_other_response : ℕ
cid_other_response = 2

abbrev pub cid_other_reg_client_type : ℕ
cid_other_reg_client_type = 3

abbrev pub cid_other_client_done : ℕ
cid_other_client_done = 4

-- Error codes.
abbrev pub parse_failed : ℕ
parse_failed = 1

abbrev pub wrong_service_id : ℕ
wrong_service_id = 2

abbrev pub wrong_command_id : ℕ
wrong_command_id = 3

-- `PduHeader_t`.
pub record PduHeader : Type 0 where
  pub length : ℕ
  pub module_id : ℕ
  pub command_id : ℕ
  pub version : ℕ
  pub reserved : ℕ

-- The subclasses of `CImPdu` with their fields. A text is a pointer into the packet behind the
-- header, and a length; `none` where the two members are never set.
pub data Body : Type 0 where
  server_command : ℕ → Body
  adjust_rate : ℕ → ℕ → Body
  client_data : Slice → Body
  server_status_info : Option Slice → Body
  all_client_status_info : Body
  heartbeat : Option Slice → Body
  response : ℕ → Slice → Body
  reg_client_type : ℕ → Body
  client_done : Body

-- `GetPduType`.
unfoldable pub pdu_type : Body → ℕ
pdu_type (server_command c) = 1
pdu_type (adjust_rate d m) = 2
pdu_type (client_data s) = 2 ^ 8 + 1
pdu_type (server_status_info s) = 2 ^ 8 + 2
pdu_type all_client_status_info = 2 ^ 8 + 3
pdu_type (heartbeat s) = 2 * 2 ^ 8 + 1
pdu_type (response c s) = 2 * 2 ^ 8 + 2
pdu_type (reg_client_type t) = 2 * 2 ^ 8 + 3
pdu_type client_done = 2 * 2 ^ 8 + 4

-- `CPduException`.
pub record PduException : Type 0 where
  pub module_id : ℕ
  pub command_id : ℕ
  pub error_code : ℕ
  pub error_msg : String

-- What a call comes to: a value, an exception, or an access outside the memory.
pub data Outcome {ℓ} (A : Type ℓ) : Type ℓ where
  ok : A → Outcome A
  thrown : PduException → Outcome A
  fault : Outcome A

infixl 5 ◌>>=◌
abbrev pub ◌>>=◌ {ℓ κ} : {A : Type ℓ} {B : Type κ} → Outcome A → (A → Outcome B) → Outcome B
ok a >>= f = f a
thrown e >>= f = thrown e
fault >>= f = fault

-- A memory access, as a step.
abbrev pub checked {ℓ} : {A : Type ℓ} → Option A → Outcome A
checked none = fault
checked (some a) = ok a
