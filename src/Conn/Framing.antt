-- ===== src/Conn/Framing.antt =====
-- The loop of `OnRead` that parses takes the packets off the front of what has come in.
use postfix_edm.Prelude.{
  ℕ, zero, suc, ◌+◌, ◌^◌, ◌≤◌, ◌<◌, ◌≡◌, refl, sym, ap, ◌∙◌, List, [], ◌∷◌, ◌++◌, map, none, some,
  false, arith, ltb, length, take, drop, append_assoc, take-append-drop, length-append, length-drop,
  inl, inr, Bool-cases,
}
use postfix_edm.Prelude.Memory.{take_prefix, drop_prefix, take-append_of_le}
use postfix_edm.Buffer.{SimpleBuffer}
use postfix_edm.Buffer.Laws.{IsValid, contents, length-contents, read_lem}
use postfix_edm.Pdu.Types.{ok}
use postfix_edm.Pdu.Read.{read_pdu, is_pdu_available}
use postfix_edm.Pdu.Frame.{frame}
use postfix_edm.Pdu.Message.{Message, header, payload, IsSendable}
use postfix_edm.Pdu.RoundTrip.{received, read-frame}
use postfix_edm.Pdu.Reject.{read_pdu_incomplete}
use postfix_edm.Conn.Receiving.{Drained, waiting, hand, after_read, drain}

abbrev pub packet : Message → List ℕ
packet m = frame (header m) (payload m)

-- The packets of some messages, one behind the other.
abbrev pub packets : List Message → List ℕ
packets [] = []
packets (m ∷ ms) = packet m ++ packets ms

abbrev pub AreSendable : List Message → Type 0
AreSendable [] = Unit
AreSendable (m ∷ ms) = IsSendable m × AreSendable ms

-- No packet more is whole in `bytes`, when the next are those of `ms`.
abbrev pub IsCut : List Message → List ℕ → Type 0
IsCut [] bytes = bytes ≡ []
IsCut (m ∷ ms) bytes = length bytes < length (packet m)

-- What the loop leaves, when the packets of `ms` stand in the buffer and in what is to come.
pub record Parses (coming : List ℕ) (ms : List Message) (d : Drained) : Type 0 where
  pub taken : List Message
  pub left : List Message
  pub all : ms ≡ taken ++ left
  pub handed : d.handed ≡ map received taken
  pub waits : d.end ≡ waiting
  pub valid : IsValid d.buf
  pub follows : contents d.buf ++ coming ≡ packets left
  pub cut : IsCut left (contents d.buf)

-- The shorter of two fronts of a list is a front of the longer.
short_front : (l r f g : List ℕ) → l ++ r ≡ f ++ g → length l ≤ length f → l ≡ take (length l) f
short_front l r f g e h =
    sym (take_prefix (length l) l r refl)
    ∙ ap (take (length l)) e
    ∙ take-append_of_le (length l) f g h

long_front : (l r f g : List ℕ) → l ++ r ≡ f ++ g → length f ≤ length l → l ≡ f ++ drop (length f) l
long_front l r f g e h =
    sym (take-append-drop (length f) l)
    ∙ ap (λ x. x ++ drop (length f) l) (sym (short_front f g l r (sym e) h))

behind : (l r f g : List ℕ) → l ++ r ≡ f ++ g → length f ≤ length l → drop (length f) l ++ r ≡ g
behind l r f g e h =
    sym (drop_prefix (length f) f (drop (length f) l ++ r) refl)
    ∙ ap (drop (length f)) (
        sym (append_assoc f (drop (length f) l) r)
        ∙ ap (λ x. x ++ r) (sym (long_front l r f g e h))
        ∙ e)
    ∙ drop_prefix (length f) f g refl

-- The block is what is held and what lies behind.
block : (b : SimpleBuffer) → b.buffer ≡ contents b ++ drop b.write_offset b.buffer
block b = sym (take-append-drop b.write_offset b.buffer)

module _ (stack : ℕ → List ℕ) (b : SimpleBuffer) (v : IsValid b) where
  -- `ReadPdu` over a buffer that holds nothing, a part of a packet, or a packet and more.
  reads_nothing : contents b ≡ [] → read_pdu stack b.buffer b.write_offset ≡ ok none
  unfolding read_pdu is_pdu_available
  reads_nothing e =
      let zero_offset : b.write_offset ≡ 0 = sym (length-contents v) ∙ ap length e in rw zero_offset

  module _ (m : Message) (coming after : List ℕ)
      (e : contents b ++ coming ≡ packet m ++ after) where
    reads_part :
        length (packet m) < 2 ^ 32
        → length (contents b) < length (packet m)
        → read_pdu stack b.buffer b.write_offset ≡ ok none
    reads_part small short =
        ap (λ l. read_pdu stack l b.write_offset)
          (block b
            ∙ ap (λ l. l ++ junk)
                (short_front (contents b) coming (packet m) after e (omega (arith, short))
                  ∙ ap (λ (k : ℕ). take k (packet m)) (length-contents v)))
        ∙ read_pdu_incomplete stack (header m) (payload m) junk b.write_offset small
            (omega (arith, length-contents v, short))
      where
        junk : List ℕ
        junk = drop b.write_offset b.buffer

    reads_packet :
        IsSendable m
        → length (packet m) ≤ length (contents b)
        → read_pdu stack b.buffer b.write_offset ≡ ok (some (received m))
    reads_packet sendable whole =
        ap (λ l. read_pdu stack l b.write_offset)
          (block b
            ∙ ap (λ l. l ++ junk) (long_front (contents b) coming (packet m) after e whole)
            ∙ append_assoc (packet m) _ junk)
        ∙ read-frame stack m _ b.write_offset sendable (omega (arith, length-contents v, whole))
            (omega (arith, v))
      where
        junk : List ℕ
        junk = drop b.write_offset b.buffer

-- With fuel for a round more than there are bytes, the loop hands over the whole packets, in order,
-- and waits for the next.
pub drain-Parses :
    (stack : ℕ → List ℕ) (fuel : ℕ) (b : SimpleBuffer) (coming : List ℕ) (ms : List Message)
    → IsValid b
    → AreSendable ms
    → contents b ++ coming ≡ packets ms
    → length (packets ms) < 2 ^ 32
    → b.write_offset < fuel
    → Parses coming ms (drain stack fuel b)
unfolding drain after_read hand
drain-Parses stack zero b coming ms v s e small enough = absurd (omega arith)
drain-Parses stack (suc fuel) b coming [] v s e small enough =
    rw (reads_nothing stack b v none_left) (record {
      taken = [];
      left = [];
      all = refl;
      handed = refl;
      waits = refl;
      valid = v;
      follows = e;
      cut = none_left;
    })
  where
    none_left : contents b ≡ []
    none_left = front (contents b) coming e
      where
        front : (l r : List ℕ) → l ++ r ≡ [] → l ≡ []
        front [] r h = refl
        front (x ∷ l) r h = cc
drain-Parses stack (suc fuel) b coming (m ∷ ms) v s e small enough =
    elim (Bool-cases (ltb (length (contents b)) (length (packet m)))) [
      | inl short ↦
          let part : length (contents b) < length (packet m) = ground arith in
          rw (reads_part stack b v m coming (packets ms) e (omega (arith, total)) part) (record {
            taken = [];
            left = m ∷ ms;
            all = refl;
            handed = refl;
            waits = refl;
            valid = v;
            follows = e;
            cut = part;
          })
      | inr long ↦
          let whole : length (packet m) ≤ length (contents b) = ground arith in
          let (b', ran, v', holds) = read_lem b false (12 + length (payload m)) v in
          let p =
            drain-Parses stack fuel b' coming ms v' s.1
              (ap (λ l. l ++ coming) holds
                ∙ ap (λ (k : ℕ). drop k (contents b) ++ coming) size
                ∙ behind (contents b) coming (packet m) (packets ms) e whole)
              (omega (arith, total))
              (omega (
                arith,
                length-contents v,
                length-contents v',
                ap length holds,
                length-drop (12 + length (payload m)) (contents b),
                enough,
                whole,
              )) in
          rw (reads_packet stack b v m coming (packets ms) e s.0 whole, ran)
            (record {
              taken = m ∷ p.taken;
              left = p.left;
              all = ap (λ l. m ∷ l) p.all;
              handed = ap (λ l. received m ∷ l) p.handed;
              waits = p.waits;
              valid = p.valid;
              follows = p.follows;
              cut = p.cut;
            })
    ]
  where
    size : 12 + length (payload m) ≡ length (packet m)
    size = omega arith

    total : length (packets (m ∷ ms)) ≡ length (packet m) + length (packets ms)
    total = length-append (packet m) (packets ms)
