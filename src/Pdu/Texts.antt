-- ===== src/Pdu/Texts.antt =====
-- The texts of a packet, as the handlers read them.
use mathlib.Core.Path.{subst}
use postfix_edm.Prelude.{
  ℕ, ◌+◌, ◌^◌, ◌≤◌, ◌<◌, ◌≡◌, refl, ap, ◌∙◌, List, ◌++◌, Option, none, some, length,
}
use postfix_edm.Prelude.Memory.{fetch, fetch-append}
use postfix_edm.Buffer.{Allocator}
use postfix_edm.Buffer.Laws.{Grants, contents}
use postfix_edm.Stream.{Slice}
use postfix_edm.Stream.Words.{bytes16, bytes32}
use postfix_edm.Stream.Laws.{quarter_more}
use postfix_edm.Pdu.Types.{
  Body, server_command, adjust_rate, client_data, server_status_info, all_client_status_info,
  heartbeat, response, reg_client_type, client_done, header_len,
}
use postfix_edm.Pdu.Compose.{Outgoing}
use postfix_edm.Pdu.Frame.{frame, header_bytes}
use postfix_edm.Pdu.SendFrame.{send-frame}
use postfix_edm.Pdu.Message.{
  Message, command, rate, text, status_request, status_answer, beat, client_beat, answer,
  registration, send, header, payload, body, counted,
}

-- The bytes that `string(pointer, length)` copies from a packet in memory.
unfoldable pub text_of : List ℕ → Slice → Option (List ℕ)
text_of mem s = fetch mem (header_len + s.place) s.size

-- `GetData`, `GetMessage` or `GetJsonData`, with the length.
unfoldable pub slice_of : Body → Option Slice
slice_of (client_data s) = some s
slice_of (server_status_info s) = s
slice_of (heartbeat s) = s
slice_of (response status s) = some s
slice_of (server_command c) = none
slice_of (adjust_rate d m) = none
slice_of all_client_status_info = none
slice_of (reg_client_type t) = none
slice_of client_done = none

-- The text that a message carries.
abbrev pub carried : Message → Option (List ℕ)
carried (text t) = some t
carried (status_answer t) = some t
carried (client_beat t) = some t
carried (answer d t) = some t
carried _ = none

-- The slice of a received message, in a packet with `rest` behind it.
HasText : Message → List ℕ → List ℕ → Type 0
HasText m rest t =
    (s : Slice) × (slice_of (body m) ≡ some s)
    × (text_of (frame (header m) (payload m) ++ rest) s ≡ some t)

-- A counted text behind the header, or behind one more word.
first_text :
    (m : Message) (rest t : List ℕ)
    → payload m ≡ counted t
    → slice_of (body m) ≡ some (record { place = 4; size = length t })
    → HasText m rest t
unfolding HasText text_of
first_text m rest t e shape = (
  record { place = 4; size = length t },
  shape,
  ap (λ l. fetch (frame (header m) l ++ rest) 16 (length t)) e
      ∙ fetch-append 16 (length t)
          (header_bytes (header m) (12 + length (counted t)) (bytes32 (length t))) t rest refl refl,
)

same_text : (t t' : List ℕ) → some t ≡ some t' → t ≡ t'
same_text t t' e = cc

frame-HasText : (m : Message) (rest t : List ℕ) → carried m ≡ some t → HasText m rest t
unfolding slice_of
frame-HasText (text t') rest t e =
    subst (HasText (text t') rest) (same_text t' t e) (first_text (text t') rest t' refl refl)
frame-HasText (status_answer t') rest t e =
    subst (HasText (status_answer t') rest) (same_text t' t e)
      (first_text (status_answer t') rest t' refl refl)
frame-HasText (client_beat t') rest t e =
    subst (HasText (client_beat t') rest) (same_text t' t e)
      (first_text (client_beat t') rest t' refl refl)
frame-HasText (answer d t') rest t e = subst (HasText (answer d t') rest) (same_text t' t e) (
    unfold HasText text_of in
    (
      record { place = 6; size = length t' },
      refl,
      fetch-append 18 (length t')
          (header_bytes (header (answer d t')) (12 + length (bytes16 d ++ counted t'))
            (bytes16 d ++ bytes32 (length t')))
          t' rest refl refl,
    ))
frame-HasText (command c) rest t e = cc
frame-HasText (rate d m) rest t e = cc
frame-HasText status_request rest t e = cc
frame-HasText beat rest t e = cc
frame-HasText (registration c) rest t e = cc

-- The text of a composed message is what the receiver finds through the pointer and the length of
-- the packet's class, inside the packet, whatever follows it; composing succeeds while the packet,
-- with a quarter on top, stays below `limit`, where `realloc` does not fail.
pub text_of-send :
    (a : Allocator) (limit : ℕ) (m : Message) (rest t : List ℕ)
    → Grants a limit
    → limit ≤ 2 ^ 32
    → quarter_more (12 + length (payload m)) < limit
    → carried m ≡ some t
    → (p : Outgoing) × (send a m ≡ some p)
      × ((s : Slice) × (slice_of (body m) ≡ some s) × (text_of (contents p.buf ++ rest) s ≡ some t))
unfolding HasText
text_of-send a limit m rest t g small room e =
    let (p, ran, v, bytes) = send-frame a limit g small m room in
    let (s, shape, found) = frame-HasText m rest t e in
    (p, ran, (s, shape, ap (λ l. text_of (l ++ rest) s) bytes ∙ found))
