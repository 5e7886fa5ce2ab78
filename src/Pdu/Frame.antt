-- ===== src/Pdu/Frame.antt =====
-- The bytes of a packet as the constructors that compose leave them.
use postfix_edm.Prelude.{
  ℕ, ◌+◌, ◌^◌, ◌≤◌, ◌<◌, ◌≡◌, refl, sym, ap, ◌∙◌, List, [], ◌++◌, Option, some, arith, length, take,
  drop, length-append, length-drop, take-append-drop,
}
use postfix_edm.Prelude.Memory.{
  store-append, ◌>>=◌, drop-drop, drop-take, drop_prefix, take_prefix, length-take_of_le,
}
use postfix_edm.Buffer.{SimpleBuffer, Allocator, empty}
use postfix_edm.Buffer.Laws.{IsValid, contents, Grants, length-contents, write_null}
use postfix_edm.Stream.{ByteStream, simple, over_buffer}
use postfix_edm.Stream.Words.{bytes16, bytes32, write_uint16, write_uint32}
use postfix_edm.Stream.Laws.{Holds}
use postfix_edm.Pdu.Types.{PduHeader, header_len}
use postfix_edm.Pdu.Compose.{Outgoing, write_header, compose, buffer_of}

-- A header before `rest`, for a packet of `n` bytes.
abbrev pub header_bytes : PduHeader → ℕ → List ℕ → List ℕ
header_bytes h n rest =
    bytes32 n
    ++ (bytes16 h.module_id
        ++ (bytes16 h.command_id ++ (bytes16 h.version ++ (bytes16 h.reserved ++ rest))))

-- The whole packet: its length, the four words of the header, the payload.
abbrev pub frame : PduHeader → List ℕ → List ℕ
frame h payload = header_bytes h (12 + length payload) payload

-- The stores of `WriteHeader` over a block that is cut into their places.
module _ (p : Outgoing) (m0 m4 m6 m8 m10 rest : List ℕ) where
  header_stores :
      p.buf.buffer ≡ m0 ++ (m4 ++ (m6 ++ (m8 ++ (m10 ++ rest))))
      → length m0 ≡ 4
      → length m4 ≡ 2
      → length m6 ≡ 2
      → length m8 ≡ 2
      → length m10 ≡ 2
      → write_header p
        ≡ some (record p {
          buf = record (p.buf) { buffer = header_bytes p.header p.buf.write_offset rest };
        })
  unfolding write_header write_uint32 write_uint16
  header_stores e l0 l4 l6 l8 l10 = rw (
    e,
    store-append 0 [] m0 len (m4 ++ (m6 ++ (m8 ++ (m10 ++ rest)))) refl (sym l0),
    ◌>>=◌,
    store-append 4 len m4 mid (m6 ++ (m8 ++ (m10 ++ rest))) refl (sym l4),
    store-append 6 (len ++ mid) m6 cid (m8 ++ (m10 ++ rest)) refl (sym l6),
    store-append 8 (len ++ (mid ++ cid)) m8 ver (m10 ++ rest) refl (sym l8),
    store-append 10 (len ++ (mid ++ (cid ++ ver))) m10 res rest refl (sym l10),
  )
    where
      len : List ℕ
      len = bytes32 p.buf.write_offset

      mid : List ℕ
      mid = bytes16 p.header.module_id

      cid : List ℕ
      cid = bytes16 p.header.command_id

      ver : List ℕ
      ver = bytes16 p.header.version

      res : List ℕ
      res = bytes16 p.header.reserved

cut : (mem : List ℕ) (i n : ℕ) → drop i mem ≡ take n (drop i mem) ++ drop (i + n) mem
cut mem i n =
    sym (take-append-drop n (drop i mem)) ∙ ap (λ l. take n (drop i mem) ++ l) (drop-drop n i mem)

length-cut : (mem : List ℕ) (i n : ℕ) → i + n ≤ length mem → length (take n (drop i mem)) ≡ n
length-cut mem i n h = length-take_of_le n (drop i mem) (omega (arith, length-drop i mem))

-- `WriteHeader` puts the header over the first twelve bytes.
write_header_runs :
    (p : Outgoing)
    → 12 ≤ length p.buf.buffer
    → write_header p
      ≡ some (record p {
        buf = record (p.buf) {
          buffer = header_bytes p.header p.buf.write_offset (drop 12 p.buf.buffer);
        };
      })
write_header_runs p h =
    header_stores p (take 4 mem) (take 2 (drop 4 mem)) (take 2 (drop 6 mem)) (take 2 (drop 8 mem))
      (take 2 (drop 10 mem)) (drop 12 mem) pieces (length-cut mem 0 4 (omega arith))
      (length-cut mem 4 2 (omega arith)) (length-cut mem 6 2 (omega arith))
      (length-cut mem 8 2 (omega arith)) (length-cut mem 10 2 (omega arith))
  where
    mem : List ℕ
    mem = p.buf.buffer

    pieces :
        mem
        ≡ take 4 mem
          ++ (take 2 (drop 4 mem)
              ++ (take 2 (drop 6 mem)
                  ++ (take 2 (drop 8 mem) ++ (take 2 (drop 10 mem) ++ drop 12 mem))))
    pieces =
        cut mem 0 4
        ∙ ap (λ l. take 4 mem ++ l)
            (cut mem 4 2
              ∙ ap (λ l. take 2 (drop 4 mem) ++ l)
                  (cut mem 6 2
                    ∙ ap (λ l. take 2 (drop 6 mem) ++ l)
                        (cut mem 8 2 ∙ ap (λ l. take 2 (drop 8 mem) ++ l) (cut mem 10 2))))

-- What lies behind the first part `c` of a valid buffer that holds `c ++ payload`.
behind :
    (b : SimpleBuffer) (c payload : List ℕ)
    → IsValid b
    → contents b ≡ c ++ payload
    → length c ≡ 12
    → drop 12 b.buffer ≡ payload ++ drop (length payload) (drop 12 b.buffer)
behind b c payload v e n =
    sym (take-append-drop (length payload) (drop 12 b.buffer))
    ∙ ap (λ l. l ++ drop (length payload) (drop 12 b.buffer)) front
  where
    front : take (length payload) (drop 12 b.buffer) ≡ payload
    front =
        sym (
          drop-take 12 (length payload) b.write_offset b.buffer
            (omega (arith, length-contents v, ap length e, length-append c payload)))
        ∙ ap (drop 12) e
        ∙ drop_prefix 12 c payload (sym n)

empty-IsValid : IsValid empty
unfolding empty
empty-IsValid = omega arith

buffer_of-simple : (s : ByteStream) {b : SimpleBuffer} → s.target ≡ simple b → buffer_of s ≡ some b
unfolding buffer_of
buffer_of-simple s e = rw e

-- The body writer appends `payload` behind any twelve bytes.
abbrev pub Writes : (ByteStream → Option ByteStream) → List ℕ → Type 0
Writes f payload =
    (s : ByteStream) (c : List ℕ)
    → length c ≡ 12
    → Holds s c
    → (s' : ByteStream) × (f s ≡ some s') × Holds s' (c ++ payload)

write_header-frame :
    (h : PduHeader) (b : SimpleBuffer) (c payload : List ℕ)
    → IsValid b
    → contents b ≡ c ++ payload
    → length c ≡ 12
    → (p : Outgoing) × (write_header (record { header = h; buf = b }) ≡ some p)
      × IsValid p.buf
      × (contents p.buf ≡ frame h payload)
write_header-frame h b c payload v e n = (
  record { header = h; buf = b' },
  write_header_runs (record { header = h; buf = b }) (omega (arith, off)),
  record { block = omega (arith, length-drop 12 b.buffer, off); within = v.within; word = v.word },
  ap (λ l. take b.write_offset (header_bytes h b.write_offset l)) (behind b c payload v e n)
      ∙ take_prefix b.write_offset (header_bytes h b.write_offset payload) _ (omega (arith, off))
      ∙ ap (λ k. header_bytes h k payload) off,
)
  where
    off : b.write_offset ≡ 12 + length payload
    off = omega (arith, length-contents v, ap length e, length-append c payload)

    b' : SimpleBuffer
    b' = record b { buffer = header_bytes h b.write_offset (drop 12 b.buffer) }

-- A composed packet is its header and its payload.
pub compose-frame :
    (a : Allocator) (limit : ℕ) (h : PduHeader) (f : ByteStream → Option ByteStream)
    (payload : List ℕ)
    → Grants a limit
    → 15 < limit
    → limit ≤ 2 ^ 32
    → Writes f payload
    → (p : Outgoing) × (compose a h f ≡ some p) × IsValid p.buf × (contents p.buf ≡ frame h payload)
unfolding compose empty
compose-frame a limit h f payload g room small writes =
    let (b, made, v, off, front) =
      write_null a empty 12 limit empty-IsValid g (omega arith) small in
    let n : length (contents b) ≡ 12 = length-contents v ∙ off in
    let (s, wrote, holds) =
      writes (over_buffer b header_len) (contents b) n
        (unfold over_buffer in record { buffer = b; over = refl; valid = v; bytes = refl }) in
    let (p, ran, v', e) =
      write_header-frame h holds.buffer (contents b) payload holds.valid holds.bytes n in
    (p, rw (made, ◌>>=◌, wrote) (rw (buffer_of-simple s holds.over, ◌>>=◌) ran), v', e)
