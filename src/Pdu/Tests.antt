-- ===== src/Pdu/Tests.antt =====
-- The theorems about packets, at concrete packets.
use postfix_edm.Prelude.{
  ℕ, ◌-◌, ◌^◌, ◌≡◌, refl, List, [], ◌∷◌, ◌++◌, none, some, arith, length, take,
}
use postfix_edm.Buffer.Laws.{contents}
use postfix_edm.Buffer.Sample.{giving, giving-Grants}
use postfix_edm.Stream.{Slice}
use postfix_edm.Stream.Words.{bytes16, bytes32, be16}
use postfix_edm.Pdu.Types.{PduHeader, client_data, reg_client_type, ok, thrown}
use postfix_edm.Pdu.Read.{read_pdu}
use postfix_edm.Pdu.Compose.{Outgoing, header_for, client_done_pdu, all_client_status_info_pdu}
use postfix_edm.Pdu.Frame.{frame, header_bytes}
use postfix_edm.Pdu.ReadFrame.{HeaderFits}
use postfix_edm.Pdu.Message.{command, text, send, body}
use postfix_edm.Pdu.RoundTrip.{received, read_pdu-send}
use postfix_edm.Pdu.Texts.{text_of, slice_of, text_of-send}
use postfix_edm.Pdu.Reject.{
  refusal, parse_error, read_pdu_incomplete, read_pdu_refuses, all_client_status_info_unreadable,
  client_done-misread,
}
use postfix_edm.Pdu.Undersized.{runaway, read_pdu_undersized}

-- A stack that holds the byte 7 everywhere.
abbrev sevens : ℕ → List ℕ
sevens i = 7 ∷ 7 ∷ 7 ∷ 7 ∷ []

abbrev header : ℕ → ℕ → PduHeader
header sid cid = record { length = 0; module_id = sid; command_id = cid; version = 1; reserved = 0 }

header-HeaderFits : HeaderFits (header 2 1)
header-HeaderFits = omega arith

unknown-HeaderFits : HeaderFits (header 3 9)
unknown-HeaderFits = omega arith

read_pdu-send_example :
    (p : Outgoing) × (send (giving 100) (command 4) ≡ some p)
    × (length (contents p.buf) ≡ 14)
    × (read_pdu sevens (contents p.buf ++ (1 ∷ 2 ∷ [])) 15 ≡ ok (some (received (command 4))))
read_pdu-send_example =
    read_pdu-send (giving 100) 100 sevens (command 4) (1 ∷ 2 ∷ []) 15 (giving-Grants 100)
      (omega arith) (omega arith) (omega arith) (omega arith) (omega arith)

text_of-send_example :
    (p : Outgoing) × (send (giving 100) (text (104 ∷ 105 ∷ [])) ≡ some p)
    × ((s : Slice) × (slice_of (body (text (104 ∷ 105 ∷ []))) ≡ some s)
        × (text_of (contents p.buf ++ (9 ∷ [])) s ≡ some (104 ∷ 105 ∷ [])))
text_of-send_example =
    text_of-send (giving 100) 100 (text (104 ∷ 105 ∷ [])) (9 ∷ []) (104 ∷ 105 ∷ [])
      (giving-Grants 100) (omega arith) (omega arith) refl

read_pdu_incomplete_example :
    read_pdu sevens (take 13 (frame (header 1 2) (bytes16 2)) ++ (8 ∷ [])) 13 ≡ ok none
read_pdu_incomplete_example =
    read_pdu_incomplete sevens (header 1 2) (bytes16 2) (8 ∷ []) 13 (omega arith) (omega arith)

read_pdu_refuses_example :
    read_pdu sevens (frame (header 3 9) (5 ∷ []) ++ (6 ∷ [])) 14 ≡ thrown (refusal 3 9)
read_pdu_refuses_example =
    read_pdu_refuses sevens (header 3 9) (5 ∷ []) (6 ∷ []) 14 unknown-HeaderFits (omega arith)
      (omega arith) (λ k. omega arith)

all_client_status_info_unreadable_example :
    (p : Outgoing) × (all_client_status_info_pdu (giving 100) (123 ∷ 125 ∷ []) ≡ some p)
    × (read_pdu sevens (contents p.buf ++ []) 18 ≡ thrown (parse_error (header_for 2 3)))
all_client_status_info_unreadable_example =
    all_client_status_info_unreadable (giving 100) 100 sevens (123 ∷ 125 ∷ []) [] 18
      (giving-Grants 100) (omega arith) (omega arith) (omega arith) (omega arith)

client_done-misread_example :
    (p : Outgoing) × (client_done_pdu (giving 100) 1 ≡ some p)
    × (read_pdu sevens (contents p.buf ++ []) 12
        ≡ ok (
            some (record {
              header = record (header_for 3 3) { length = 12 };
              body = reg_client_type (be16 (sevens 0));
              length = 12;
            })))
client_done-misread_example =
    client_done-misread (giving 100) 100 sevens 1 [] 12 (giving-Grants 100) (omega arith)
      (omega arith) (omega arith) (omega arith)

read_pdu_undersized_example :
    let mem = header_bytes (header 2 1) 0 (bytes32 (2 ^ 32 - 16) ++ (5 ∷ [])) in
    (read_pdu sevens mem (length mem)
      ≡ ok (some (record { header = header 2 1; body = client_data (runaway 0); length = 0 })))
    × (text_of mem (runaway 0) ≡ none)
read_pdu_undersized_example =
    read_pdu_undersized sevens (header 2 1) 0 17 (5 ∷ []) header-HeaderFits refl refl (omega arith)
      (omega arith) (omega arith)
