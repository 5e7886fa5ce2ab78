-- ===== src/Pdu/Reject.antt =====
-- What the parser does with packets that are cut off, unknown, or lie about their length.
use postfix_edm.Prelude.{
  ℕ, suc, ◌+◌, ◌-◌, ◌^◌, ◌≤◌, ◌<◌, ◌≡◌, ◌≢◌, refl, ap, ◌∙◌, List, [], ◌++◌, none, some, arith,
  length, take, ◌⊎◌, ◌&&◌, ◌==◌, Bool, if◌then◌else◌, lt→ltb, Bool-cases, inl, inr, ltb,
}
use postfix_edm.Buffer.{Allocator, add32}
use postfix_edm.Buffer.Laws.{Grants, contents}
use postfix_edm.Stream.{ByteStream, over_memory}
use postfix_edm.Stream.Words.{bytes32, be16, read_uint32-append}
use postfix_edm.Stream.Laws.{at, get16_past, read_string_within, quarter_more}
use postfix_edm.Pdu.Types.{
  PduHeader, PduException, Body, reg_client_type, client_data, all_client_status_info, Outcome, ok,
  thrown, checked, ◌>>=◌, header_len, wrong_service_id, wrong_command_id, parse_failed,
}
use postfix_edm.Pdu.Read.{
  initial_header, wrong_command, is_pdu_available, dispatch, read_pdu, unpack, sub32,
  read_pdu_command, read_pdu_msg, read_pdu_other, read_client_data, read_reg_client_type,
  read_all_client_status_info,
}
use postfix_edm.Pdu.Compose.{Outgoing, header_for, client_done_pdu, all_client_status_info_pdu}
use postfix_edm.Pdu.Frame.{frame, header_bytes, compose-frame}
use postfix_edm.Pdu.Message.{counted}
use postfix_edm.Pdu.SendFrame.{nothing_Writes, string_Writes}
use postfix_edm.Pdu.ReadFrame.{HeaderFits, read_pdu_header_runs, unpack_runs, read_pdu_runs}

-- A prefix of a packet that holds the header.
take-frame :
    (h : PduHeader) (payload : List ℕ) (k : ℕ)
    → 12 ≤ k
    → take k (frame h payload) ≡ header_bytes h (12 + length payload) (take (k - 12) payload)
take-frame h payload k long = ap (λ (i : ℕ). take i (frame h payload)) twelve
  where
    twelve : k ≡ suc (suc (suc (suc (suc (suc (suc (suc (suc (suc (suc (suc (k - 12))))))))))))
    twelve = omega arith

waits :
    (h : PduHeader) (payload junk : List ℕ) (k : ℕ)
    → length (frame h payload) < 2 ^ 32
    → k < length (frame h payload)
    → is_pdu_available (take k (frame h payload) ++ junk) k ≡ ok none
unfolding is_pdu_available
waits h payload junk k small cut = elim (Bool-cases (ltb k header_len)) [
  | inl e ↦ rw e
  | inr e ↦
      let long : 12 ≤ k = ground arith in
      rw (
        e,
        take-frame h payload k long,
        read_uint32-append 0 [] _ (12 + length payload) refl (omega arith),
        checked,
        ◌>>=◌,
        lt→ltb k (12 + length payload) (omega arith),
      )
]

-- While a packet has not come in whole the parser waits: on every proper prefix of a packet of fewer
-- than 2^32 bytes, whatever its ids and whatever old bytes follow in the block, it returns the null
-- pointer.
pub read_pdu_incomplete :
    (stack : ℕ → List ℕ) (h : PduHeader) (payload junk : List ℕ) (k : ℕ)
    → length (frame h payload) < 2 ^ 32
    → k < length (frame h payload)
    → read_pdu stack (take k (frame h payload) ++ junk) k ≡ ok none
unfolding read_pdu
read_pdu_incomplete stack h payload junk k small cut = rw (waits h payload junk k small cut, ◌>>=◌)

-- The ids that a packet may have, by module.
abbrev pub IsKnown : ℕ → ℕ → Type 0
IsKnown sid cid =
    ((sid ≡ 1) × ((cid ≡ 1) ⊎ (cid ≡ 2) ⊎ (cid ≡ 4) ⊎ (cid ≡ 8) ⊎ (cid ≡ 16)))
    ⊎ ((sid ≡ 2) × ((cid ≡ 1) ⊎ (cid ≡ 2) ⊎ (cid ≡ 3)))
    ⊎ ((sid ≡ 3) × ((cid ≡ 1) ⊎ (cid ≡ 2) ⊎ (cid ≡ 3) ⊎ (cid ≡ 4)))

-- The exception that goes with unknown ids.
unfoldable pub refusal : ℕ → ℕ → PduException
refusal sid cid =
    let known : Bool = ltb 0 sid && ltb sid 4 in
    record {
      module_id = sid;
      command_id = cid;
      error_code = if known then wrong_command_id else wrong_service_id;
      error_msg =
          if sid == 3
          then "wrong packet type"
          else if known
          then "wrong command id"
          else "wrong service id";
    }

dispatch_refuses :
    (stack : ℕ → List ℕ) (sid cid : ℕ) (mem : List ℕ) (len : ℕ)
    → ¬ IsKnown sid cid
    → dispatch stack sid cid mem len ≡ thrown (refusal sid cid)
unfolding dispatch read_pdu_command read_pdu_msg read_pdu_other wrong_command refusal
dispatch_refuses stack sid cid mem len unknown = ground arith

-- A packet that has come in whole and whose two ids name no class is refused with an exception that
-- carries the ids and says which of the two is unknown: the service id if it is not 1, 2 or 3, else
-- the command id.
pub read_pdu_refuses :
    (stack : ℕ → List ℕ) (h : PduHeader) (payload rest : List ℕ) (len : ℕ)
    → HeaderFits h
    → 12 + length payload ≤ len
    → len < 2 ^ 32
    → ¬ IsKnown h.module_id h.command_id
    → read_pdu stack (frame h payload ++ rest) len ≡ thrown (refusal h.module_id h.command_id)
read_pdu_refuses stack h payload rest len fits fit small unknown =
    read_pdu_runs stack h fits payload rest len fit small
    ∙ rw (
        dispatch_refuses stack h.module_id h.command_id (frame h payload ++ rest)
          (12 + length payload) unknown)

-- The exception of `PARSE_PACKET_ASSERT`.
abbrev pub parse_error : PduHeader → PduException
parse_error h = record {
  module_id = h.module_id;
  command_id = h.command_id;
  error_code = parse_failed;
  error_msg = "parse packet failed";
}

-- A constructor that reads throws if its reader stops anywhere but at the payload's end.
unpack_throws :
    (stack : ℕ → List ℕ) (h : PduHeader) (payload rest : List ℕ) (b : Body) (pos : ℕ)
    (read_body : ByteStream → Outcome (Body × ByteStream))
    → HeaderFits h
    → 12 + length payload < 2 ^ 32
    → read_body (at (payload ++ rest) (length payload) 0)
      ≡ ok (b, at (payload ++ rest) (length payload) pos)
    → pos ≢ length payload
    → unpack stack (frame h payload ++ rest) (12 + length payload) read_body
      ≡ thrown (parse_error h)
unfolding unpack over_memory
unpack_throws stack h payload rest b pos read_body fits small e off =
    rw
      (
        read_pdu_header_runs stack h fits (12 + length payload) 12 (payload ++ rest) small
            (omega arith) (omega arith),
        ◌>>=◌,
        back,
        e,
      )
      (ground arith)
  where
    back : sub32 (12 + length payload) header_len ≡ length payload
    back = omega arith

chosen_data :
    (stack : ℕ → List ℕ) (mem : List ℕ) (len : ℕ)
    → dispatch stack 2 1 mem len ≡ unpack stack mem len (read_client_data stack)
unfolding dispatch read_pdu_msg
chosen_data stack mem len = refl

-- The length in front of a client's text must be the text's: a data packet whose count is anything
-- else (below 2^32 - 4, so that the position does not wrap) fails to parse, and nothing of it is used.
pub client_data_miscounted :
    (stack : ℕ → List ℕ) (h : PduHeader) (count : ℕ) (t rest : List ℕ) (len : ℕ)
    → HeaderFits h
    → h.module_id ≡ 2
    → h.command_id ≡ 1
    → 16 + length t ≤ len
    → len < 2 ^ 32
    → 4 + count < 2 ^ 32
    → count ≢ length t
    → read_pdu stack (frame h (bytes32 count ++ t) ++ rest) len ≡ thrown (parse_error h)
client_data_miscounted stack h count t rest len fits sid cid fit small bound off =
    read_pdu_runs stack h fits payload rest len (omega arith) small
    ∙ (λ i. dispatch stack (sid i) (cid i) mem size >>= λ pdu. ok (some pdu))
    ∙ rw (
      chosen_data stack mem size,
      unpack_throws stack h payload rest _ (add32 4 count) (read_client_data stack) fits
          (omega arith) reads (omega arith),
    )
  where
    payload : List ℕ
    payload = bytes32 count ++ t

    mem : List ℕ
    mem = frame h payload ++ rest

    size : ℕ
    size = 12 + length payload

    reads :
        read_client_data stack (at (payload ++ rest) (length payload) 0)
        ≡ ok (
          client_data (record { place = 4; size = count }),
          at (payload ++ rest) (length payload) (add32 4 count),
        )
    reads =
        unfold read_client_data in
        rw (
          read_string_within (payload ++ rest) (length payload) 0 (stack 0) (omega arith) count
              (t ++ rest) refl (omega arith) (omega arith),
          checked,
        )

-- The answer to a request for all clients' states cannot be read by the same class: whatever JSON
-- text it carries, composing succeeds (while the packet, with a quarter on top, stays below `limit`,
-- where `realloc` does not fail) and `ReadPdu` throws "parse packet failed".
pub all_client_status_info_unreadable :
    (a : Allocator) (limit : ℕ) (stack : ℕ → List ℕ) (json rest : List ℕ) (len : ℕ)
    → Grants a limit
    → limit ≤ 2 ^ 32
    → quarter_more (16 + length json) < limit
    → 16 + length json ≤ len
    → len < 2 ^ 32
    → (p : Outgoing) × (all_client_status_info_pdu a json ≡ some p)
      × (read_pdu stack (contents p.buf ++ rest) len ≡ thrown (parse_error (header_for 2 3)))
unfolding all_client_status_info_pdu header_for initial_header read_all_client_status_info
all_client_status_info_unreadable a limit stack json rest len g small room fit word =
    let (p, ran, v, e) =
      compose-frame a limit (header_for 2 3) _ (counted json) g (omega arith) small
        (string_Writes a limit g small json (omega arith)) in
    (
      p,
      ran,
      ap (λ l. read_pdu stack (l ++ rest) len) e
          ∙ read_pdu_runs stack (header_for 2 3) (omega arith) (counted json) rest len (omega arith)
              word
          ∙ unfold dispatch read_pdu_msg in
            rw (
              unpack_throws stack (header_for 2 3) (counted json) rest all_client_status_info 0
                read_all (omega arith) (omega arith) refl (omega arith)),
    )
  where
    read_all : ByteStream → Outcome (Body × ByteStream)
    read_all = read_all_client_status_info stack

-- `CImPduClientDone` composes the command id of a registration: the receiver takes the packet for one,
-- and sets the client's type to what its local array happened to hold.
pub client_done-misread :
    (a : Allocator) (limit : ℕ) (stack : ℕ → List ℕ) (t : ℕ) (rest : List ℕ) (len : ℕ)
    → Grants a limit
    → 15 < limit
    → limit ≤ 2 ^ 32
    → 12 ≤ len
    → len < 2 ^ 32
    → (p : Outgoing) × (client_done_pdu a t ≡ some p)
      × (read_pdu stack (contents p.buf ++ rest) len
          ≡ ok (
              some (record {
                header = record (header_for 3 3) { length = 12 };
                body = reg_client_type (be16 (stack 0));
                length = 12;
              })))
unfolding client_done_pdu header_for initial_header
client_done-misread a limit stack t rest len g room small fit word =
    let (p, ran, v, e) =
      compose-frame a limit (header_for 3 3) some [] g room small
        (nothing_Writes a limit g small) in
    (
      p,
      ran,
      ap (λ l. read_pdu stack (l ++ rest) len) e
          ∙ read_pdu_runs stack (header_for 3 3) (omega arith) [] rest len fit word
          ∙ unfold dispatch read_pdu_other in
            rw (
              unpack_runs stack (header_for 3 3) (omega arith) [] rest _
                (read_reg_client_type stack) (omega arith) reads),
    )
  where
    reads :
        read_reg_client_type stack (at rest 0 0)
        ≡ ok (reg_client_type (be16 (stack 0)), at rest 0 0)
    reads =
        unfold read_reg_client_type in
        rw (get16_past rest 0 0 (stack 0) (omega arith) (omega arith) (omega arith), checked)
