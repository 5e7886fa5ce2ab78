-- ===== src/Conn/Sending.antt =====
-- Nothing that is sent is lost, repeated or put out of order.
use postfix_edm.Prelude.{
  leb, ℕ, zero, suc, ◌+◌, ◌^◌, ◌≤◌, ◌<◌, ◌≡◌, refl, sym, ap, ◌∙◌, List, [], ◌∷◌, ◌++◌, some, Bool,
  true, false, arith, length, take, drop, min, append_assoc, append-nil, take-append-drop,
  length-append, length-take, length-drop, ◌==◌, if◌then◌else◌, inl, inr, Bool-cases,
}
use postfix_edm.Prelude.Memory.{take-take_of_le, take_all, ◌>>=◌}
use postfix_edm.Buffer.{SimpleBuffer, Allocator, add32, write}
use postfix_edm.Buffer.Laws.{IsValid, contents, Grants, length-contents, write_lem}
use postfix_edm.Stream.Laws.{quarter_more}
use postfix_edm.Conn.{Socket, ImConn, netlib_send, send_loop, send, queue_rest, max_socket_buf_size}

pub if_true : {A : Type 0} (b : Bool) (x y : A) → b ≡ true → (if b then x else y) ≡ x
if_true true x y h = refl
if_true false x y h = cc

pub if_false : {A : Type 0} (b : Bool) (x y : A) → b ≡ false → (if b then x else y) ≡ y
if_false true x y h = cc
if_false false x y h = refl

resume :
    (wire rest : List ℕ) (room n : ℕ)
    → n ≤ length (take room rest)
    → (wire ++ take n (take room rest)) ++ drop n rest ≡ wire ++ rest
resume wire rest room n h =
    ap (λ l. (wire ++ l) ++ drop n rest)
      (take-take_of_le n room rest (omega (arith, length-take room rest)))
    ∙ append_assoc wire (take n rest) (drop n rest)
    ∙ ap (λ l. wire ++ l) (take-append-drop n rest)

-- Of the first bytes of `rest` the socket takes some, and the others stay.
pub netlib_send-keeps :
    (s : Socket) (rest : List ℕ) (room : ℕ)
    → ((netlib_send s (take room rest)).1.wire ++ drop (netlib_send s (take room rest)).0 rest
        ≡ s.wire ++ rest)
      × ((netlib_send s (take room rest)).0 ≤ length (take room rest))
unfolding netlib_send
netlib_send-keeps s rest room = go s.takes s.wire
  where
    go :
        (takes wire : List ℕ)
        → let t : Socket = record s { takes = takes; wire = wire } in
          ((netlib_send t (take room rest)).1.wire ++ drop (netlib_send t (take room rest)).0 rest
            ≡ wire ++ rest)
          × ((netlib_send t (take room rest)).0 ≤ length (take room rest))
    go [] wire = (refl, omega arith)
    go (k ∷ later) wire =
        (resume wire rest room (min k (length (take room rest))) (omega arith), omega arith)

-- The bytes that have gone out and those that are still to go, in order.
abbrev onward : List ℕ × Socket → List ℕ
onward r = r.1.wire ++ r.0

send_loop-keeps :
    (fuel : ℕ) (s : Socket) (rest : List ℕ) → onward (send_loop fuel s rest) ≡ s.wire ++ rest
unfolding send_loop
send_loop-keeps zero s rest = refl
send_loop-keeps (suc fuel) s [] = refl
send_loop-keeps (suc fuel) s (x ∷ rest) = elim (Bool-cases (sent.0 == 0)) [
  | inl e ↦
      let none_taken : 0 ≡ sent.0 = ground arith in
      rw e (ap (λ (k : ℕ). sent.1.wire ++ drop k (x ∷ rest)) none_taken ∙ kept)
  | inr e ↦ rw e (send_loop-keeps fuel sent.1 (drop sent.0 (x ∷ rest)) ∙ kept)
]
  where
    sent : ℕ × Socket
    sent = netlib_send s (take max_socket_buf_size (x ∷ rest))

    kept : sent.1.wire ++ drop sent.0 (x ∷ rest) ≡ s.wire ++ (x ∷ rest)
    kept = (netlib_send-keeps s (x ∷ rest) max_socket_buf_size).0

length-drop-le :
    (n x : ℕ) (rest : List ℕ) → (n == 0) ≡ false → length (drop n (x ∷ rest)) ≤ length rest
length-drop-le zero x rest e = cc
length-drop-le (suc n) x rest e = omega (arith, length-drop n rest)

length-send_loop :
    (fuel : ℕ) (s : Socket) (rest : List ℕ) → length (send_loop fuel s rest).0 ≤ length rest
unfolding send_loop
length-send_loop zero s rest = omega arith
length-send_loop (suc fuel) s [] = omega arith
length-send_loop (suc fuel) s (x ∷ rest) = elim (Bool-cases (sent.0 == 0)) [
  | inl e ↦ rw e (omega arith)
  | inr e ↦ rw e (
      omega (
        arith,
        length-send_loop fuel sent.1 (drop sent.0 (x ∷ rest)),
        length-drop-le sent.0 x rest e,
      ))
]
  where
    sent : ℕ × Socket
    sent = netlib_send s (take max_socket_buf_size (x ∷ rest))

-- Fuel beyond the length of what is to be sent changes nothing.
pub send_loop_fuel :
    (n m : ℕ) (s : Socket) (rest : List ℕ)
    → length rest ≤ n
    → length rest ≤ m
    → send_loop n s rest ≡ send_loop m s rest
unfolding send_loop
send_loop_fuel zero zero s rest h k = refl
send_loop_fuel zero (suc m) s [] h k = refl
send_loop_fuel (suc n) zero s [] h k = refl
send_loop_fuel (suc n) (suc m) s [] h k = refl
send_loop_fuel zero m s (x ∷ rest) h k = absurd (omega arith)
send_loop_fuel (suc n) zero s (x ∷ rest) h k = absurd (omega arith)
send_loop_fuel (suc n) (suc m) s (x ∷ rest) h k = elim (Bool-cases (sent.0 == 0)) [
  | inl e ↦ rw e
  | inr more ↦
      let shorter : length (drop sent.0 (x ∷ rest)) ≤ length rest =
        length-drop-le sent.0 x rest more in
      rw more (
        send_loop_fuel n m sent.1 (drop sent.0 (x ∷ rest)) (omega (arith, shorter))
          (omega (arith, shorter)))
]
  where
    sent : ℕ × Socket
    sent = netlib_send s (take max_socket_buf_size (x ∷ rest))

-- `m_out_buf` is valid, and holds something only while the connection is busy.
pub record IsConn (c : ImConn) : Type 0 where
  pub valid : IsValid c.out_buf
  pub idle : c.busy ≡ false → contents c.out_buf ≡ []

-- All that has been given to `Send` and not been lost: on the wire, then in the buffer.
abbrev pub handed_over : ImConn → List ℕ
handed_over c = c.socket.wire ++ contents c.out_buf

drained :
    (c : ImConn) (bytes : List ℕ)
    → contents c.out_buf ≡ []
    → handed_over c ++ bytes ≡ c.socket.wire ++ bytes
drained c bytes e =
    ap (λ l. (c.socket.wire ++ l) ++ bytes) e ∙ ap (λ l. l ++ bytes) (append-nil c.socket.wire)

-- What a call leaves, with `bytes` handed over on top.
pub record Keeps (c : ImConn) (bytes : List ℕ) (c' : ImConn) : Type 0 where
  pub is_conn : IsConn c'
  pub in_order : handed_over c' ≡ handed_over c ++ bytes
  pub bounded : length (contents c'.out_buf) ≤ length (contents c.out_buf) + length bytes

module _ (a : Allocator) (limit : ℕ) (g : Grants a limit) (small : limit ≤ 2 ^ 31) where
  write_whole :
      (b : SimpleBuffer) (bytes : List ℕ)
      → IsValid b
      → quarter_more (length (contents b) + length bytes) < limit
      → (b' : SimpleBuffer) × (write a b (some bytes) (length bytes) ≡ some (length bytes, b'))
        × IsValid b'
        × (contents b' ≡ contents b ++ bytes)
  write_whole b bytes v fits =
      let (b', ran, v', holds) =
        write_lem a b bytes (length bytes) limit v g (omega (arith, length-contents v, fits))
          (omega (arith, small)) (omega arith) in
      (b', ran, v', holds ∙ ap (λ l. contents b ++ l) (take_all (length bytes) bytes (omega arith)))

  queue_rest_lem :
      (c : ImConn) (len : ℕ) (r : List ℕ × Socket) (bytes : List ℕ)
      → IsConn c
      → c.busy ≡ false
      → quarter_more (length (contents c.out_buf) + length bytes) < limit
      → length r.0 ≤ length bytes
      → onward r ≡ c.socket.wire ++ bytes
      → (c' : ImConn) × (queue_rest a c len r ≡ some (len, c')) × Keeps c bytes c'
  unfolding queue_rest
  queue_rest_lem c len ([], s) bytes v free fits short e = (
    record c { socket = s },
    refl,
    record {
      is_conn = record { valid = v.valid; idle = v.idle };
      in_order = ap (λ l. s.wire ++ l) (v.idle free) ∙ e ∙ sym (drained c bytes (v.idle free));
      bounded = omega arith;
    },
  )
  queue_rest_lem c len (x ∷ rest, s) bytes v free fits short e =
      let (b', ran, v', holds) = write_whole c.out_buf (x ∷ rest) v.valid (omega arith) in
      (
        record c { busy = true; out_buf = b'; socket = s },
        rw (ran, ◌>>=◌),
        record {
          is_conn = record { valid = v'; idle = λ h. cc };
          in_order =
              ap (λ l. s.wire ++ l) (holds ∙ ap (λ l. l ++ (x ∷ rest)) (v.idle free))
              ∙ e
              ∙ sym (drained c bytes (v.idle free));
          bounded =
              omega (arith, ap length holds, length-append (contents c.out_buf) (x ∷ rest), short);
        },
      )

  -- `Send` succeeds, returns the length of its data, and hands all of it over, in order.
  pub send-Keeps :
      (c : ImConn) (now : ℕ) (bytes : List ℕ)
      → IsConn c
      → quarter_more (length (contents c.out_buf) + length bytes) < limit
      → (c' : ImConn) × (send a c now bytes ≡ some (length bytes, c')) × Keeps c bytes c'
  unfolding send
  send-Keeps c now bytes v fits = elim (Bool-cases c.busy) [
    | inl e ↦
        let (b', ran, v', holds) = write_whole c.out_buf bytes v.valid fits in
        (
          record c { last_send_tick = now; send_pkt_cnt = add32 c.send_pkt_cnt 1; out_buf = b' },
          rw e (rw (ran, ◌>>=◌)),
          record {
            is_conn = record { valid = v'; idle = λ h. cc };
            in_order =
                ap (λ l. c.socket.wire ++ l) holds
                ∙ sym (append_assoc c.socket.wire (contents c.out_buf) bytes);
            bounded = omega (arith, ap length holds, length-append (contents c.out_buf) bytes);
          },
        )
    | inr e ↦
        let short : leb (2 ^ 31) (length bytes) ≡ false = ground arith in
        let (c', ran, keeps) =
          queue_rest_lem (record c { last_send_tick = now; send_pkt_cnt = add32 c.send_pkt_cnt 1 })
            (length bytes) (send_loop (length bytes) c.socket bytes) bytes
            (record { valid = v.valid; idle = v.idle }) e fits
            (length-send_loop (length bytes) c.socket bytes)
            (send_loop-keeps (length bytes) c.socket bytes) in
        (
          c',
          if_false c.busy _ _ e ∙ if_false (leb (2 ^ 31) (length bytes)) _ _ short ∙ ran,
          record { is_conn = keeps.is_conn; in_order = keeps.in_order; bounded = keeps.bounded },
        )
  ]
