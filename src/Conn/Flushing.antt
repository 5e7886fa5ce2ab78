-- ===== src/Conn/Flushing.antt =====
-- `OnWrite`: what waits in the buffer goes out from its front.
use postfix_edm.Prelude.{
  ◌<◌, ◌^◌, leb, ℕ, zero, suc, ◌≤◌, ◌≡◌, refl, sym, ap, ◌∙◌, List, [], ◌∷◌, ◌++◌, Option, some,
  Bool, true, false, arith, length, take, drop, min, append-nil, length-drop, ◌==◌, if◌then◌else◌,
  inl, inr, Bool-cases,
}
use postfix_edm.Prelude.Memory.{fetch, ◌>>=◌, fetch_of_le}
use postfix_edm.Buffer.{SimpleBuffer}
use postfix_edm.Buffer.Laws.{IsValid, contents, length-contents, read_lem}
use postfix_edm.Conn.{
  Socket, ImConn, netlib_send, flush_loop, after_send, on_write, max_socket_buf_size,
}
use postfix_edm.Conn.Sending.{if_true, netlib_send-keeps, if_false, IsConn, handed_over, Keeps}

-- What a flush leaves: the bytes that went out and those that stay are those there were.
record Flushed (b : SimpleBuffer) (s : Socket) (r : SimpleBuffer × Socket) : Type 0 where
  valid : IsValid r.0
  in_order : r.1.wire ++ contents r.0 ≡ s.wire ++ contents b
  bounded : length (contents r.0) ≤ length (contents b)

Flushes : SimpleBuffer → Socket → Option (SimpleBuffer × Socket) → Type 0
Flushes b s o = (r : SimpleBuffer × Socket) × (o ≡ some r) × Flushed b s r

after_send-Flushes :
    (again : SimpleBuffer → Socket → Option (SimpleBuffer × Socket)) (b : SimpleBuffer) (s : Socket)
    (sent : ℕ × Socket)
    → ((b' : SimpleBuffer) (s' : Socket)
        → IsValid b'
        → length (contents b') ≤ length (contents b)
        → Flushes b' s' (again b' s'))
    → IsValid b
    → sent.1.wire ++ drop sent.0 (contents b) ≡ s.wire ++ contents b
    → Flushes b s (after_send again b sent)
unfolding Flushes after_send
after_send-Flushes again b s (zero, s') flushes v e =
    ((b, s'), refl, record { valid = v; in_order = e; bounded = omega arith })
after_send-Flushes again b s (suc k, s') flushes v e =
    let (b', ran, v', holds) = read_lem b false (suc k) v in
    let (r, ran', f) =
      flushes b' s' v' (omega (arith, ap length holds, length-drop (suc k) (contents b))) in
    (
      r,
      rw (ran, ◌>>=◌) ran',
      record {
        valid = f.valid;
        in_order = f.in_order ∙ ap (λ l. s'.wire ++ l) holds ∙ e;
        bounded = omega (arith, f.bounded, ap length holds, length-drop (suc k) (contents b));
      },
    )

-- What a round hands to netlib_send.
front :
    (b : SimpleBuffer)
    → IsValid b
    → fetch b.buffer 0 (min b.write_offset max_socket_buf_size)
      ≡ some (take max_socket_buf_size (contents b))
front b v =
    fetch_of_le b.buffer 0 (min b.write_offset max_socket_buf_size) (omega (arith, v))
    ∙ ap some (sym (shorter b.write_offset max_socket_buf_size b.buffer))
  where
    none_taken : (n m : ℕ) (l : List ℕ) → 0 ≡ min n m → [] ≡ take (min n m) l
    none_taken n m l h = ap (λ (k : ℕ). take k l) h

    take-nil : (k : ℕ) → take {A = ℕ} k [] ≡ []
    take-nil zero = refl
    take-nil (suc k) = refl

    one_more : (n m : ℕ) → suc (min n m) ≡ min (suc n) (suc m)
    one_more n m = omega arith

    shorter : (n m : ℕ) (l : List ℕ) → take m (take n l) ≡ take (min n m) l
    shorter zero zero l = none_taken 0 0 l (omega arith)
    shorter zero (suc m) l = none_taken 0 (suc m) l (omega arith)
    shorter (suc n) zero l = none_taken (suc n) 0 l (omega arith)
    shorter (suc n) (suc m) [] = sym (take-nil (min (suc n) (suc m)))
    shorter (suc n) (suc m) (x ∷ l) =
        ap (λ t. x ∷ t) (shorter n m l) ∙ ap (λ (k : ℕ). take k (x ∷ l)) (one_more n m)

flush_loop-Flushes :
    (fuel : ℕ) (b : SimpleBuffer) (s : Socket)
    → IsValid b
    → length (contents b) < 2 ^ 31
    → Flushes b s (flush_loop fuel b s)
unfolding Flushes flush_loop
flush_loop-Flushes zero b s v short =
    ((b, s), refl, record { valid = v; in_order = refl; bounded = omega arith })
flush_loop-Flushes (suc fuel) b s v short = elim (Bool-cases (b.write_offset == 0)) [
  | inl e ↦ ((b, s), rw e, record { valid = v; in_order = refl; bounded = omega arith })
  | inr e ↦
      let fits : leb (2 ^ 31) b.write_offset ≡ false = let n = length-contents v in ground arith in
      let (r, ran, f) =
        after_send-Flushes (flush_loop fuel) b s
          (netlib_send s (take max_socket_buf_size (contents b)))
          (λ b' s' v' fewer. flush_loop-Flushes fuel b' s' v' (omega (arith, short, fewer))) v
          (netlib_send-keeps s (contents b) max_socket_buf_size).0 in
      (r, if_false _ _ _ e ∙ if_false _ _ _ fits ∙ rw (front b v) ran, f)
]

-- `OnWrite` succeeds, and keeps what has been handed over.
pub on_write-Keeps :
    (c : ImConn)
    → IsConn c
    → length (contents c.out_buf) < 2 ^ 31
    → (c' : ImConn) × (on_write c ≡ some c') × Keeps c [] c'
unfolding on_write Flushes
on_write-Keeps c v short = elim (Bool-cases c.busy) [
  | inl e ↦
      let ((b, s), ran, f) =
        flush_loop-Flushes c.out_buf.write_offset c.out_buf c.socket v.valid short in
      let still : Bool = if b.write_offset == 0 then false else c.busy in
      (
        record c { busy = still; out_buf = b; socket = s },
        rw (e, ran, ◌>>=◌),
        record {
          is_conn = record { valid = f.valid; idle = emptied b f.valid e };
          in_order = f.in_order ∙ sym (append-nil (handed_over c));
          bounded = omega (arith, f.bounded);
        },
      )
  | inr e ↦ (
    c,
    rw e,
    record { is_conn = v; in_order = sym (append-nil (handed_over c)); bounded = omega arith },
  )
]
  where
    nothing : (l : List ℕ) → length l ≡ 0 → l ≡ []
    nothing [] h = refl
    nothing (x ∷ l) h = absurd (omega arith)

    emptied :
        (b : SimpleBuffer)
        → IsValid b
        → c.busy ≡ true
        → (if b.write_offset == 0 then false else c.busy) ≡ false
        → contents b ≡ []
    emptied b vb e h = nothing (contents b) (ground (arith, length-contents vb, e, h))

after_send-same :
    (again again' : SimpleBuffer → Socket → Option (SimpleBuffer × Socket)) (b : SimpleBuffer)
    (sent : ℕ × Socket)
    → ((b' : SimpleBuffer) (s' : Socket)
        → IsValid b'
        → b'.write_offset < b.write_offset
        → again b' s' ≡ again' b' s')
    → IsValid b
    → (b.write_offset == 0) ≡ false
    → after_send again b sent ≡ after_send again' b sent
unfolding after_send
after_send-same again again' b (zero, s) agree v e = refl
after_send-same again again' b (suc k, s) agree v e =
    let (b', ran, v', holds) = read_lem b false (suc k) v in
    let some_left : 0 < b.write_offset = ground arith in
    rw (ran, ◌>>=◌)
      (agree b' s v' (
        omega (
          arith,
          length-contents v,
          length-contents v',
          ap length holds,
          length-drop (suc k) (contents b),
          some_left,
        )))

-- Fuel beyond the number of bytes in the buffer changes nothing for the loop of `OnWrite`.
pub flush_loop_fuel :
    (n m : ℕ) (b : SimpleBuffer) (s : Socket)
    → IsValid b
    → b.write_offset ≤ n
    → b.write_offset ≤ m
    → flush_loop n b s ≡ flush_loop m b s
unfolding flush_loop
flush_loop_fuel zero zero b s v h k = refl
flush_loop_fuel zero (suc m) b s v h k = let e : (b.write_offset == 0) ≡ true = ground arith in rw e
flush_loop_fuel (suc n) zero b s v h k = let e : (b.write_offset == 0) ≡ true = ground arith in rw e
flush_loop_fuel (suc n) (suc m) b s v h k = elim (Bool-cases (b.write_offset == 0)) [
  | inl e ↦ rw e
  | inr e ↦ elim (Bool-cases (leb (2 ^ 31) b.write_offset)) [
    | inl f ↦ if_false _ _ _ e ∙ if_true _ _ _ f ∙ sym (if_true _ _ _ f) ∙ sym (if_false _ _ _ e)
    | inr f ↦
        if_false _ _ _ e
        ∙ if_false _ _ _ f
        ∙ rw (front b v) (
            after_send-same (flush_loop n) (flush_loop m) b
              (netlib_send s (take max_socket_buf_size (contents b)))
              (λ b' s' v' less. flush_loop_fuel n m b' s' v' (omega arith) (omega arith)) v e)
        ∙ sym (if_false _ _ _ f)
        ∙ sym (if_false _ _ _ e)
  ]
]
