-- ===== src/Pdu/Undersized.antt =====
-- Packets that claim to be shorter than their own header.
use postfix_edm.Prelude.{
  ℕ, ◌+◌, ◌-◌, ◌^◌, ◌≤◌, ◌<◌, ◌≡◌, refl, ap, ◌∙◌, List, [], ◌++◌, none, some, arith, length,
  le→ltb-false,
}
use postfix_edm.Prelude.Memory.{fetch_short}
use postfix_edm.Buffer.{add32}
use postfix_edm.Stream.{Slice, over_memory}
use postfix_edm.Stream.Words.{bytes16, bytes32, read_uint16-append, read_uint32-append}
use postfix_edm.Stream.Laws.{at, read_string_within}
use postfix_edm.Pdu.Types.{PduHeader, client_data, ok, checked, ◌>>=◌, header_len}
use postfix_edm.Pdu.Read.{
  is_pdu_available, dispatch, read_pdu, unpack, sub32, read_pdu_msg, read_client_data,
}
use postfix_edm.Pdu.Frame.{header_bytes}
use postfix_edm.Pdu.ReadFrame.{HeaderFits, read_pdu_header_runs}
use postfix_edm.Pdu.Texts.{text_of}

-- The slice that the packet below leaves behind: its length is close to 2^32.
abbrev pub runaway : ℕ → Slice
runaway n = record { place = 4; size = 2 ^ 32 + n - 16 }

reads_runaway :
    (stack : ℕ → List ℕ) (n : ℕ) (rest : List ℕ)
    → n < 12
    → read_client_data stack (at (bytes32 (2 ^ 32 + n - 16) ++ rest) (sub32 n 12) 0)
      ≡ ok (
        client_data (runaway n),
        at (bytes32 (2 ^ 32 + n - 16) ++ rest) (sub32 n 12) (sub32 n 12),
      )
unfolding read_client_data
reads_runaway stack n rest short =
    rw
      (
        read_string_within mem (sub32 n 12) 0 (stack 0) (omega arith) count rest refl (omega arith)
            (omega arith),
        checked,
      )
      (ap (λ (k : ℕ). ok (client_data (runaway n), at mem (sub32 n 12) k)) wraps)
  where
    count : ℕ
    count = 2 ^ 32 + n - 16

    mem : List ℕ
    mem = bytes32 count ++ rest

    wraps : add32 (0 + 4) count ≡ sub32 n 12
    wraps = omega arith

unpacks_runaway :
    (stack : ℕ → List ℕ) (h : PduHeader) (n : ℕ) (rest : List ℕ)
    → HeaderFits h
    → n < 12
    → unpack stack (header_bytes h n (bytes32 (2 ^ 32 + n - 16) ++ rest)) n (read_client_data stack)
      ≡ ok (record { header = record h { length = n }; body = client_data (runaway n); length = n })
unfolding unpack over_memory
unpacks_runaway stack h n rest fits short =
    rw
      (
        read_pdu_header_runs stack h fits n 12 (bytes32 (2 ^ 32 + n - 16) ++ rest) (omega arith)
            (omega arith) (omega arith),
        ◌>>=◌,
        reads_runaway stack n rest short,
      )
      (ground arith)

chosen_data :
    (stack : ℕ → List ℕ) (mem : List ℕ) (len : ℕ)
    → dispatch stack 2 1 mem len ≡ unpack stack mem len (read_client_data stack)
unfolding dispatch read_pdu_msg
chosen_data stack mem len = refl

-- A data packet that claims `n < 12` bytes and counts its text as `2 ^ 32 + n - 16`: `len - 12` and
-- the position wrap together, so that the parser accepts it as a packet of `n` bytes, once 12 bytes
-- have come in; and the text that it points to does not lie in the memory, if that is smaller than
-- 2^32 bytes.
pub read_pdu_undersized :
    (stack : ℕ → List ℕ) (h : PduHeader) (n len : ℕ) (rest : List ℕ)
    → HeaderFits h
    → h.module_id ≡ 2
    → h.command_id ≡ 1
    → n < 12
    → 12 ≤ len
    → 16 + length rest < 2 ^ 32
    → let mem = header_bytes h n (bytes32 (2 ^ 32 + n - 16) ++ rest) in
      (read_pdu stack mem len
        ≡ ok (
            some (record {
              header = record h { length = n };
              body = client_data (runaway n);
              length = n;
            })))
      × (text_of mem (runaway n) ≡ none)
unfolding read_pdu text_of
read_pdu_undersized stack h n len rest fits sid cid short long small = (
  rw
      (
        whole,
        ◌>>=◌,
        read_uint16-append 4 (bytes32 n) _ h.module_id refl fits.module_id,
        checked,
        read_uint16-append 6 (bytes32 n ++ bytes16 h.module_id) _ h.command_id refl fits.command_id,
      )
      ((λ i. dispatch stack (sid i) (cid i) mem n >>= λ pdu. ok (some pdu))
        ∙ rw (chosen_data stack mem n, unpacks_runaway stack h n rest fits short)),
  fetch_short mem 16 (2 ^ 32 + n - 16) (omega arith),
)
  where
    mem : List ℕ
    mem = header_bytes h n (bytes32 (2 ^ 32 + n - 16) ++ rest)

    whole : is_pdu_available mem len ≡ ok (some n)
    whole =
        unfold is_pdu_available in
        rw (
          le→ltb-false len header_len long,
          read_uint32-append 0 [] _ n refl (omega arith),
          checked,
          ◌>>=◌,
          le→ltb-false len n (omega arith),
        )
