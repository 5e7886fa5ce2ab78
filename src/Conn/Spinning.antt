-- ===== src/Conn/Spinning.antt =====
-- A packet that claims no bytes at all keeps the loop of `OnRead` going for ever.
use postfix_edm.Prelude.{
  ℕ, zero, suc, ◌-◌, ◌^◌, ◌≡◌, refl, sym, ap, ◌∙◌, List, ◌∷◌, ◌++◌, some, false, arith, length,
  drop, replicate, take-append-drop,
}
use postfix_edm.Buffer.{SimpleBuffer}
use postfix_edm.Buffer.Laws.{IsValid, contents, length-contents, read_lem}
use postfix_edm.Stream.Words.{bytes32}
use postfix_edm.Pdu.Types.{PduHeader, ok, client_data}
use postfix_edm.Pdu.Read.{Incoming, read_pdu}
use postfix_edm.Pdu.Frame.{header_bytes}
use postfix_edm.Pdu.ReadFrame.{HeaderFits}
use postfix_edm.Pdu.Undersized.{runaway, read_pdu_undersized}
use postfix_edm.Conn.Receiving.{running, hand, after_read, drain}

-- The data packet of no bytes, and what the parser makes of it.
abbrev pub hollow : PduHeader → List ℕ → List ℕ
hollow h rest = header_bytes h 0 (bytes32 (2 ^ 32 - 16) ++ rest)

abbrev pub hollow_pdu : PduHeader → Incoming
hollow_pdu h = record {
  header = record h { length = 0 };
  body = client_data (runaway 0);
  length = 0;
}

reads_hollow :
    (stack : ℕ → List ℕ) (h : PduHeader) (b : SimpleBuffer) (rest : List ℕ)
    → IsValid b
    → HeaderFits h
    → h.module_id ≡ 2
    → h.command_id ≡ 1
    → contents b ≡ hollow h rest
    → read_pdu stack b.buffer b.write_offset ≡ ok (some (hollow_pdu h))
reads_hollow stack h b rest v fits sid cid e =
    ap (λ l. read_pdu stack l b.write_offset) block
    ∙ (read_pdu_undersized stack h 0 b.write_offset (rest ++ junk) fits sid cid (omega arith)
        (omega (arith, length-contents v, ap length e)) (omega (arith, v, ap length block))).0
  where
    junk : List ℕ
    junk = drop b.write_offset b.buffer

    block : b.buffer ≡ hollow h (rest ++ junk)
    block = sym (take-append-drop b.write_offset b.buffer) ∙ ap (λ l. l ++ junk) e

-- Once a buffer begins with a data packet that claims 0 bytes (and whose count of the text is
-- 2^32 - 16), the loop does not end: every round hands over the same packet and leaves the bytes, so
-- that after any number of rounds it is still running.
pub drain_spins :
    (stack : ℕ → List ℕ) (h : PduHeader) (fuel : ℕ) (b : SimpleBuffer) (rest : List ℕ)
    → IsValid b
    → HeaderFits h
    → h.module_id ≡ 2
    → h.command_id ≡ 1
    → contents b ≡ hollow h rest
    → ((drain stack fuel b).handed ≡ replicate fuel (hollow_pdu h))
      × ((drain stack fuel b).end ≡ running)
unfolding drain after_read hand
drain_spins stack h zero b rest v fits sid cid e = (refl, refl)
drain_spins stack h (suc fuel) b rest v fits sid cid e =
    let (b', ran, v', holds) = read_lem b false 0 v in
    let (same, still) = drain_spins stack h fuel b' rest v' fits sid cid (holds ∙ e) in
    rw (reads_hollow stack h b rest v fits sid cid e, ran) (ap (λ l. hollow_pdu h ∷ l) same, still)
