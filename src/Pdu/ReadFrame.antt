-- ===== src/Pdu/ReadFrame.antt =====
-- What the parser does with a header and a payload laid out as `Frame` says.
use postfix_edm.Prelude.{
  ℕ, ◌+◌, ◌^◌, ◌≤◌, ◌<◌, ◌≡◌, refl, List, [], ◌++◌, some, arith, length, le→ltb-false,
}
use postfix_edm.Stream.{ByteStream, over_memory}
use postfix_edm.Stream.Words.{bytes16, bytes32, read_uint16-append, read_uint32-append}
use postfix_edm.Stream.Laws.{at, get16_within, get32_within}
use postfix_edm.Pdu.Types.{PduHeader, Body, Outcome, ok, ◌>>=◌, checked, header_len}
use postfix_edm.Pdu.Read.{sub32, read_pdu_header, unpack, is_pdu_available, dispatch, read_pdu}
use postfix_edm.Pdu.Frame.{header_bytes, frame}

-- The four words of a header fit sixteen bits.
pub record HeaderFits (h : PduHeader) : Type 0 where
  pub module_id : h.module_id < 2 ^ 16
  pub command_id : h.command_id < 2 ^ 16
  pub version : h.version < 2 ^ 16
  pub reserved : h.reserved < 2 ^ 16

module _ (stack : ℕ → List ℕ) (h : PduHeader) (fits : HeaderFits h) where
  -- `ReadPduHeader` reads back the length and the four words.
  pub read_pdu_header_runs :
      (n len : ℕ) (rest : List ℕ)
      → n < 2 ^ 32
      → 12 ≤ len
      → len < 2 ^ 32
      → read_pdu_header stack (header_bytes h n rest) len ≡ ok (some (record h { length = n }))
  unfolding read_pdu_header over_memory
  read_pdu_header_runs n len rest small long w = rw (
    le→ltb-false len header_len long,
    get32_within mem len 0 (stack 0) w n _ refl small (omega arith),
    ◌>>=◌,
    get16_within mem len 4 (stack 0) w h.module_id _ refl fits.module_id (omega arith),
    get16_within mem len 6 (stack 0) w h.command_id _ refl fits.command_id (omega arith),
    get16_within mem len 8 (stack 0) w h.version _ refl fits.version (omega arith),
    get16_within mem len 10 (stack 0) w h.reserved rest refl fits.reserved (omega arith),
  )
    where
      mem : List ℕ
      mem = header_bytes h n rest

  -- A constructor that reads accepts the packet if its reader stops where the payload ends.
  pub unpack_runs :
      (payload rest : List ℕ) (b : Body) (read_body : ByteStream → Outcome (Body × ByteStream))
      → 12 + length payload < 2 ^ 32
      → read_body (at (payload ++ rest) (length payload) 0)
        ≡ ok (b, at (payload ++ rest) (length payload) (length payload))
      → unpack stack (frame h payload ++ rest) (12 + length payload) read_body
        ≡ ok (record {
          header = record h { length = 12 + length payload };
          body = b;
          length = 12 + length payload;
        })
  unfolding unpack over_memory
  unpack_runs payload rest b read_body small e =
      rw
        (
          read_pdu_header_runs (12 + length payload) 12 (payload ++ rest) small (omega arith)
              (omega arith),
          ◌>>=◌,
          back,
          e,
        )
        (ground arith)
    where
      back : sub32 (12 + length payload) header_len ≡ length payload
      back = omega arith

  -- `ReadPdu` goes to the class by the two ids, with the length in the packet.
  pub read_pdu_runs :
      (payload rest : List ℕ) (len : ℕ)
      → 12 + length payload ≤ len
      → len < 2 ^ 32
      → read_pdu stack (frame h payload ++ rest) len ≡ (
          dispatch stack h.module_id h.command_id (frame h payload ++ rest) (12 + length payload)
          >>= λ pdu. ok (some pdu))
  unfolding read_pdu
  read_pdu_runs payload rest len fit small = rw (
    whole,
    ◌>>=◌,
    read_uint16-append 4 (bytes32 n) _ h.module_id refl fits.module_id,
    checked,
    read_uint16-append 6 (bytes32 n ++ bytes16 h.module_id) _ h.command_id refl fits.command_id,
  )
    where
      n : ℕ
      n = 12 + length payload

      mem : List ℕ
      mem = frame h payload ++ rest

      whole : is_pdu_available mem len ≡ ok (some n)
      whole =
          unfold is_pdu_available in
          rw (
            le→ltb-false len header_len (omega arith),
            read_uint32-append 0 [] _ n refl (omega arith),
            checked,
            ◌>>=◌,
            le→ltb-false len n fit,
          )
