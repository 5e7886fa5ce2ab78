-- ===== src/Pdu/SendFrame.antt =====
-- What a composed message looks like.
use postfix_edm.Prelude.{
  ℕ, ◌+◌, ◌^◌, ◌≤◌, ◌<◌, ◌≡◌, refl, List, [], ◌++◌, some, arith, length, length-append, append-nil,
  append_assoc,
}
use postfix_edm.Prelude.Memory.{◌>>=◌}
use postfix_edm.Buffer.{Allocator}
use postfix_edm.Buffer.Laws.{Grants, contents, IsValid}
use postfix_edm.Stream.{put16, write_data, write_string}
use postfix_edm.Stream.Words.{bytes16}
use postfix_edm.Stream.Laws.{quarter_more, put16_appends, write_data_appends, write_string_appends}
use postfix_edm.Pdu.Compose.{
  Outgoing, server_command_pdu, adjust_rate_pdu, client_data_pdu, server_status_request_pdu,
  server_status_info_pdu, heartbeat_pdu, client_heartbeat_pdu, response_pdu, reg_client_type_pdu,
}
use postfix_edm.Pdu.Frame.{frame, Writes, compose-frame}
use postfix_edm.Pdu.Message.{
  Message, command, rate, text, status_request, status_answer, beat, client_beat, answer,
  registration, send, header, payload, counted,
}

-- Composing: each constructor's writer appends the message's payload.
module _ (a : Allocator) (limit : ℕ) (g : Grants a limit) (small : limit ≤ 2 ^ 32) where
  pub nothing_Writes : Writes some []
  nothing_Writes s c n h = (s, refl, rw append-nil h)

  put16-Writes : (d : ℕ) → quarter_more 14 < limit → Writes (λ os. put16 a os d) (bytes16 d)
  put16-Writes d room s c n h = put16_appends a limit g small s c d h (omega (arith, n, room))

  two_Writes :
      (d m : ℕ)
      → quarter_more 16 < limit
      → Writes (λ os. put16 a os d >>= λ os'. put16 a os' m) (bytes16 d ++ bytes16 m)
  two_Writes d m room s c n h =
      let (s', ran, h') = put16_appends a limit g small s c d h (omega (arith, n, room)) in
      let (s'', ran', h'') =
        put16_appends a limit g small s' (c ++ bytes16 d) m h'
          (omega (arith, n, room, length-append c (bytes16 d))) in
      (s'', rw (ran, ◌>>=◌) ran', rw (append_assoc c (bytes16 d) (bytes16 m)) at h'')

  data_Writes :
      (t : List ℕ)
      → quarter_more (16 + length t) < limit
      → Writes (λ os. write_data a os (some t) (length t)) (counted t)
  data_Writes t room s c n h = write_data_appends a limit g small s c t h (omega (arith, n, room))

  pub string_Writes :
      (t : List ℕ)
      → quarter_more (16 + length t) < limit
      → Writes (λ os. write_string a os (some t)) (counted t)
  string_Writes t room s c n h =
      write_string_appends a limit g small s c t h (omega (arith, n, room))

  answer_Writes :
      (d : ℕ) (t : List ℕ)
      → quarter_more (18 + length t) < limit
      → Writes (λ os. put16 a os d >>= λ os'. write_string a os' (some t)) (bytes16 d ++ counted t)
  answer_Writes d t room s c n h =
      let (s', ran, h') = put16_appends a limit g small s c d h (omega (arith, n, room)) in
      let (s'', ran', h'') =
        write_string_appends a limit g small s' (c ++ bytes16 d) t h'
          (omega (arith, n, room, length-append c (bytes16 d))) in
      (s'', rw (ran, ◌>>=◌) ran', rw (append_assoc c (bytes16 d) (counted t)) at h'')

  -- Composing any message succeeds while there is room for it, and leaves its header and payload.
  pub send-frame :
      (m : Message)
      → quarter_more (12 + length (payload m)) < limit
      → (p : Outgoing) × (send a m ≡ some p)
        × IsValid p.buf
        × (contents p.buf ≡ frame (header m) (payload m))
  unfolding server_command_pdu adjust_rate_pdu client_data_pdu server_status_request_pdu
      server_status_info_pdu heartbeat_pdu client_heartbeat_pdu response_pdu reg_client_type_pdu
  send-frame (command c) room =
      compose-frame a limit _ _ _ g (omega arith) small (put16-Writes c (omega arith))
  send-frame (rate d m) room =
      compose-frame a limit _ _ _ g (omega arith) small (two_Writes d m (omega arith))
  send-frame (text t) room =
      compose-frame a limit _ _ _ g (omega arith) small (data_Writes t (omega arith))
  send-frame status_request room = compose-frame a limit _ _ _ g (omega arith) small nothing_Writes
  send-frame (status_answer json) room =
      compose-frame a limit _ _ _ g (omega arith) small (string_Writes json (omega arith))
  send-frame beat room = compose-frame a limit _ _ _ g (omega arith) small nothing_Writes
  send-frame (client_beat json) room =
      compose-frame a limit _ _ _ g (omega arith) small (string_Writes json (omega arith))
  send-frame (answer status t) room =
      compose-frame a limit _ _ _ g (omega arith) small (answer_Writes status t (omega arith))
  send-frame (registration t) room =
      compose-frame a limit _ _ _ g (omega arith) small (put16-Writes t (omega arith))
