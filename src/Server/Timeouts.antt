-- ===== src/Server/Timeouts.antt =====
-- What the timer of the server does to its connections.
use postfix_edm.Prelude.{
  ℕ, ◌≡◌, refl, sym, ap, ◌∙◌, List, [], ◌∷◌, ◌++◌, map, false, ◌==◌, if◌then◌else◌, arith, inl, inr,
  Bool-cases, ==_iff, append-nil,
}
use postfix_edm.Pdu.Message.{beat}
use postfix_edm.Server.{client_php, plain, ServConn, Server, send_pdu, remove_client_status}
use postfix_edm.Server.Handling.{
  change_conn, on_conn, erase_conn, close_conn, is_timed_out, wants_beat, on_timer,
}

abbrev pub handles : List ServConn → List ℕ
handles [] = []
handles (c ∷ cs) = c.handle ∷ handles cs

abbrev pub IsUnused : ℕ → List ℕ → Type 0
IsUnused h [] = Unit
IsUnused h (k ∷ ks) = ((k == h) ≡ false) × IsUnused h ks

abbrev pub AreDistinct : List ℕ → Type 0
AreDistinct [] = Unit
AreDistinct (k ∷ ks) = IsUnused k ks × AreDistinct ks

-- No two connections have a handle, as the connections of a map.
unfoldable pub HasDistinct : List ServConn → Type 0
unfolding AreDistinct
HasDistinct cs = AreDistinct (handles cs)

-- What a pass leaves of a connection: a PHP client is passed over, a silent client goes, and one that
-- has not been written to for a while is sent a heartbeat.
abbrev pub kept : ℕ → ServConn → List ServConn
kept now c =
    if c.client_type == client_php
    then c ∷ []
    else if is_timed_out now c
    then []
    else if wants_beat now c
    then send_pdu now (plain beat) c ∷ []
    else c ∷ []

abbrev pub examined : ℕ → List ServConn → List ServConn
examined now [] = []
examined now (c ∷ cs) = kept now c ++ examined now cs

-- The handles that are closed.
abbrev pub gone : ℕ → ServConn → List ℕ
gone now c =
    if c.client_type == client_php then [] else if is_timed_out now c then c.handle ∷ [] else []

abbrev pub expired : ℕ → List ServConn → List ℕ
expired now [] = []
expired now (c ∷ cs) = gone now c ++ expired now cs

IsUnused-append : (h : ℕ) (xs ys : List ℕ) → IsUnused h (xs ++ ys) → IsUnused h xs × IsUnused h ys
IsUnused-append h [] ys u = (tt, u)
IsUnused-append h (x ∷ xs) ys (e, u) = let both = IsUnused-append h xs ys u in ((e, both.0), both.1)

IsUnused-both : (h : ℕ) (xs ys : List ℕ) → IsUnused h xs → IsUnused h ys → IsUnused h (xs ++ ys)
IsUnused-both h [] ys u v = v
IsUnused-both h (x ∷ xs) ys (e, u) v = (e, IsUnused-both h xs ys u v)

flip : (x h : ℕ) → (h == x) ≡ false → (x == h) ≡ false
flip x h e = ground arith

pub AreDistinct-append :
    (h : ℕ) (xs ys : List ℕ)
    → AreDistinct (xs ++ (h ∷ ys))
    → (IsUnused h xs × IsUnused h ys) × AreDistinct (xs ++ ys)
AreDistinct-append h [] ys (u, d) = ((tt, u), d)
AreDistinct-append h (x ∷ xs) ys (u, d) =
    let rest = AreDistinct-append h xs ys d in
    let parts = IsUnused-append x xs (h ∷ ys) u in
    (((flip x h parts.1.0, rest.0.0), rest.0.1), (IsUnused-both x xs ys parts.0 parts.1.1, rest.1))

pub handles-append : (xs ys : List ServConn) → handles (xs ++ ys) ≡ handles xs ++ handles ys
handles-append [] ys = refl
handles-append (c ∷ cs) ys = ap (λ t. c.handle ∷ t) (handles-append cs ys)

change-unused :
    (h : ℕ) (f : ServConn → ServConn) (cs : List ServConn)
    → IsUnused h (handles cs)
    → map (change_conn h f) cs ≡ cs
change-unused h f [] u = refl
change-unused h f (c ∷ cs) (e, u) = rw (e, change-unused h f cs u) refl

erase-unused : (h : ℕ) (cs : List ServConn) → IsUnused h (handles cs) → erase_conn h cs ≡ cs
unfolding erase_conn
erase-unused h [] u = refl
erase-unused h (c ∷ cs) (e, u) = rw (e, erase-unused h cs u) refl

change_middle :
    (f : ServConn → ServConn) (xs cs : List ServConn) (c : ServConn)
    → IsUnused c.handle (handles xs)
    → IsUnused c.handle (handles cs)
    → map (change_conn c.handle f) (xs ++ (c ∷ cs)) ≡ xs ++ (f c ∷ cs)
change_middle f [] cs c u v =
    rw ((==_iff c.handle c.handle).1 refl, change-unused c.handle f cs v) refl
change_middle f (x ∷ xs) cs c (e, u) v = rw (e, change_middle f xs cs c u v) refl

erase_middle :
    (h : ℕ) (xs cs : List ServConn) (c : ServConn)
    → c.handle ≡ h
    → IsUnused h (handles xs)
    → IsUnused h (handles cs)
    → erase_conn h (xs ++ (c ∷ cs)) ≡ xs ++ cs
unfolding erase_conn
erase_middle h [] cs c same u v = rw ((==_iff c.handle h).1 same, erase-unused h cs v) refl
erase_middle h (x ∷ xs) cs c same (e, u) v = rw (e, erase_middle h xs cs c same u v) refl

abbrev pub examine : ℕ → ServConn → Server → Server
examine now c srv = if c.client_type == client_php then srv else on_timer now c srv

-- One connection, where those before it have been examined.
pub examine_lem :
    (now : ℕ) (c : ServConn) (xs cs : List ServConn) (srv : Server)
    → srv.conns ≡ xs ++ (c ∷ cs)
    → IsUnused c.handle (handles xs)
    → IsUnused c.handle (handles cs)
    → ((examine now c srv).conns ≡ xs ++ (kept now c ++ cs))
      × ((examine now c srv).closed ≡ srv.closed ++ gone now c)
unfolding on_timer on_conn close_conn remove_client_status
examine_lem now c xs cs srv e u v = elim (Bool-cases (c.client_type == client_php)) [
  | inl php ↦ rw php (e, sym (append-nil srv.closed))
  | inr not_php ↦ elim (Bool-cases (wants_beat now c)) [
    | inl beats ↦
        let told : map (change_conn c.handle (send_pdu now (plain beat))) srv.conns
            ≡ xs ++ (send_pdu now (plain beat) c ∷ cs) =
          ap (λ l. map (change_conn c.handle (send_pdu now (plain beat))) l) e
          ∙ change_middle (send_pdu now (plain beat)) xs cs c u v in
        elim (Bool-cases (is_timed_out now c)) [
          | inl out ↦
              rw (not_php, beats, out)
                (
                  ap (λ l. erase_conn c.handle l) told
                      ∙ erase_middle c.handle xs cs (send_pdu now (plain beat) c) refl u v,
                  refl,
                )
          | inr stays ↦ rw (not_php, beats, stays) (told, sym (append-nil srv.closed))
        ]
    | inr quiet ↦ elim (Bool-cases (is_timed_out now c)) [
      | inl out ↦
          rw (not_php, quiet, out)
            (ap (λ l. erase_conn c.handle l) e ∙ erase_middle c.handle xs cs c refl u v, refl)
      | inr stays ↦ rw (not_php, quiet, stays) (e, sym (append-nil srv.closed))
    ]
  ]
]
