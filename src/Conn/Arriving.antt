-- ===== src/Conn/Arriving.antt =====
-- The loop of `OnRead` that reads: what comes in goes behind what the buffer holds.
use postfix_edm.Prelude.{
  ℕ, ◌+◌, ◌^◌, ◌≤◌, ◌<◌, ◌≡◌, refl, ap, ◌∙◌, List, [], ◌∷◌, ◌++◌, some, arith, ltb, ◌==◌, length,
  take, drop, min, append_assoc, take-append-drop, length-append, length-take, inl, inr, Bool-cases,
}
use postfix_edm.Prelude.Memory.{store_of_le, ◌>>=◌}
use postfix_edm.Buffer.{SimpleBuffer, Allocator, add32, inc_write_offset}
use postfix_edm.Buffer.Laws.{
  IsValid, contents, Grants, grown, length-contents, HasRoom, extend-HasRoom, filled,
  filled-IsValid, contents-filled,
}
use postfix_edm.Stream.Laws.{quarter_more}
use postfix_edm.Pdu.Read.{sub32}
use postfix_edm.Conn.{Socket, ImConn}
use postfix_edm.Conn.Sending.{if_false}
use postfix_edm.Conn.Receiving.{read_buf_size, netlib_recv, read_room, take_in, recv_loop}

-- What the calls of netlib_recv leave: the stream is the same, and the other half of the connection.
pub record Arrives (c c' : ImConn) : Type 0 where
  pub valid : IsValid c'.in_buf
  pub in_order : contents c'.in_buf ++ c'.socket.coming ≡ contents c.in_buf ++ c.socket.coming
  pub room : c'.in_buf.write_offset + read_buf_size ≤ c'.in_buf.alloc_size
  pub same_policy : c'.policy_conn ≡ c.policy_conn
  pub same_busy : c'.busy ≡ c.busy
  pub same_out : c'.out_buf ≡ c.out_buf
  pub same_wire : c'.socket.wire ≡ c.socket.wire

module _ (a : Allocator) (limit : ℕ) (g : Grants a limit) (small : limit ≤ 2 ^ 32) where
  read_room-HasRoom :
      (b : SimpleBuffer)
      → IsValid b
      → grown b.write_offset read_buf_size < limit
      → HasRoom b (read_room a b) read_buf_size
  unfolding read_room
  read_room-HasRoom b v fits =
      elim (Bool-cases (ltb (sub32 b.alloc_size b.write_offset) read_buf_size)) [
        | inl e ↦
            let few : sub32 b.alloc_size b.write_offset < 2048 = ground arith in
            rw e (extend-HasRoom a b read_buf_size limit v g fits small (omega (arith, few, v)))
        | inr e ↦
            let many : 2048 ≤ sub32 b.alloc_size b.write_offset = ground arith in
            rw e (record {
              valid = v;
              same_offset = refl;
              same_contents = refl;
              room = omega (arith, many, v);
            })
      ]

  -- The connection after some bytes have come into its buffer.
  abbrev taken_in : ℕ → ImConn → List ℕ → Socket → ImConn
  taken_in now c bytes s = record c {
    in_buf = filled c.in_buf bytes;
    recv_bytes = add32 c.recv_bytes (length bytes);
    last_recv_tick = now;
    socket = s;
  }

  take_in_runs :
      (now : ℕ) (c : ImConn) (bytes : List ℕ) (s : Socket)
      → IsValid c.in_buf
      → c.in_buf.write_offset + length bytes ≤ c.in_buf.alloc_size
      → take_in now c (bytes, s) ≡ some (taken_in now c bytes s)
  unfolding take_in inc_write_offset
  take_in_runs now c bytes s v h =
      rw (store_of_le c.in_buf.buffer c.in_buf.write_offset bytes (omega (arith, h, v)), ◌>>=◌)
        (ap
          (λ (k : ℕ). some (record (taken_in now c bytes s) {
            in_buf = record (filled c.in_buf bytes) { write_offset = k };
          }))
          sum)
    where
      sum : add32 c.in_buf.write_offset (length bytes) ≡ c.in_buf.write_offset + length bytes
      sum = omega (arith, h, v)

  pub recv_loop-Arrives :
      (now : ℕ) (gives : List ℕ) (c : ImConn)
      → IsValid c.in_buf
      → quarter_more (read_buf_size + (length (contents c.in_buf) + length c.socket.coming)) < limit
      → (c' : ImConn) × (recv_loop a now gives c ≡ some c') × Arrives c c'
  unfolding recv_loop netlib_recv
  recv_loop-Arrives now [] c v fits =
      let r = read_room-HasRoom c.in_buf v (omega (arith, length-contents v, fits)) in
      (
        record c { in_buf = read_room a c.in_buf },
        refl,
        record {
          valid = r.valid;
          in_order = ap (λ l. l ++ c.socket.coming) r.same_contents;
          room = omega (arith, r.room, r.same_offset);
          same_policy = refl;
          same_busy = refl;
          same_out = refl;
          same_wire = refl;
        },
      )
  recv_loop-Arrives now (k ∷ later) c v fits = elim (Bool-cases (length got == 0)) [
    | inl e ↦ (
      c',
      rw e,
      record {
        valid = r.valid;
        in_order = ap (λ l. l ++ c.socket.coming) r.same_contents;
        room = omega (arith, r.room, r.same_offset);
        same_policy = refl;
        same_busy = refl;
        same_out = refl;
        same_wire = refl;
      },
    )
    | inr e ↦
        let (last, ran, w) =
          recv_loop-Arrives now later next (filled-IsValid c'.in_buf got r.valid room) (
            omega (
              arith,
              ap length onward,
              length-append (contents c.in_buf) c.socket.coming,
              length-append (contents next.in_buf) next.socket.coming,
              fits,
            )) in
        (
          last,
          if_false _ _ _ e ∙ rw (take_in_runs now c' got s r.valid room, ◌>>=◌) ran,
          record {
            valid = w.valid;
            in_order = w.in_order ∙ onward;
            room = w.room;
            same_policy = w.same_policy;
            same_busy = w.same_busy;
            same_out = w.same_out;
            same_wire = w.same_wire;
          },
        )
  ]
    where
      n : ℕ
      n = min k read_buf_size

      got : List ℕ
      got = take n c.socket.coming

      s : Socket
      s = record c.socket { coming = drop n c.socket.coming }

      c' : ImConn
      c' = record c { in_buf = read_room a c.in_buf }

      r : HasRoom c.in_buf c'.in_buf read_buf_size
      r = read_room-HasRoom c.in_buf v (omega (arith, length-contents v, fits))

      room : c'.in_buf.write_offset + length got ≤ c'.in_buf.alloc_size
      room = omega (arith, r.room, r.same_offset, length-take n c.socket.coming)

      next : ImConn
      next = taken_in now c' got s

      onward : contents next.in_buf ++ next.socket.coming ≡ contents c.in_buf ++ c.socket.coming
      onward =
          ap (λ l. l ++ s.coming)
            (contents-filled c'.in_buf got r.valid ∙ ap (λ l. l ++ got) r.same_contents)
          ∙ append_assoc (contents c.in_buf) got s.coming
          ∙ ap (λ l. contents c.in_buf ++ l) (take-append-drop n c.socket.coming)
