-- ===== src/Title/Renaming.antt =====
-- What is in memory after the process was given a name.
use postfix_edm.Prelude.{
  ℕ, zero, suc, ◌+◌, ◌-◌, ◌≤◌, ◌<◌, ◌≡◌, refl, sym, ap, ◌∙◌, List, [], ◌∷◌, ◌++◌, map, some, true,
  false, ltb, inl, inr, Bool-cases, length, take, drop, replicate, append_assoc, take-append-drop,
  arith, length-append, length-take, length-drop, append-nil,
}
use postfix_edm.Prelude.Memory.{
  ◌>>=◌, store, store_of_le, store-append, take-append_of_le, length-take_of_le, take_all,
}
use postfix_edm.Prelude.Text.{has, has-append, c_string, c_string-ended}
use postfix_edm.Title.{
  Process, string_at, last_string, prename_setproctitle_init, clear, cut_title,
  prename_setproctitle, max_line,
}
use postfix_edm.Title.Layout.{
  laid_out, places, AreStrings, started, laid_out-append, map-places, last_of-places,
  AreStrings-left, AreStrings-right, laid_out-ends, memory-split,
}

clear-append :
    (n p : ℕ) (l m r : List ℕ)
    → p ≡ length l
    → n ≡ length m
    → clear n p (l ++ (m ++ r)) ≡ some (l ++ (replicate n 0 ++ r))
unfolding clear
clear-append zero p l [] r e h = refl
clear-append zero p l (x ∷ m) r e h = absurd (omega arith)
clear-append (suc n) p l [] r e h = absurd (omega arith)
clear-append (suc n) p l (x ∷ m) r e h =
    let next =
      clear-append n (suc p) (l ++ (0 ∷ [])) m r (omega (arith, length-append l (0 ∷ [])))
        (omega arith) in
    let first = store-append p l (x ∷ []) (0 ∷ []) (m ++ r) e refl in
    ap (λ o. o >>= clear n (suc p)) first
    ∙ ap (clear n (suc p)) (sym (append_assoc l (0 ∷ []) (m ++ r)))
    ∙ next
    ∙ ap some (append_assoc l (0 ∷ []) (replicate n 0 ++ r))

has-take : (n : ℕ) (s : List ℕ) → has 0 s ≡ false → has 0 (take n s) ≡ false
has-take n s h = elim (Bool-cases (has 0 (take n s))) [
  | inl e ↦
      let split : has 0 s ≡ true =
        ap (has 0) (sym (take-append-drop n s)) ∙ has-append 0 (take n s) (drop n s) ∙ rw e refl in
      cc
  | inr e ↦ e
]

-- What there is room for.
abbrev pub shown : ℕ → List ℕ → List ℕ
shown room title = take (room - 2) title

cut_title-shown :
    (room : ℕ) (title rest : List ℕ)
    → 2 ≤ room
    → has 0 title ≡ false
    → (buf : List ℕ) × (cut_title room (title ++ (0 ∷ rest))
        ≡ some (buf, length (shown room title)))
      × (c_string buf ≡ shown room title)
unfolding cut_title
cut_title-shown room title rest h free = elim (Bool-cases (ltb room (length title + 2))) [
  | inl e ↦
      let over : room < length title + 2 = ground arith in
      let room_2 : ltb room 2 ≡ false = ground arith in
      let n : length (shown room title) ≡ room - 2 =
        length-take_of_le (room - 2) title (omega arith) in
      let fits : (room - 2) + 1 ≤ length (title ++ (0 ∷ rest)) =
        omega (arith, length-append title (0 ∷ rest)) in
      let behind = drop ((room - 2) + 1) (title ++ (0 ∷ rest)) in
      (
        take (room - 2) (title ++ (0 ∷ rest)) ++ (0 ∷ behind),
        rw (whole, e, room_2, store_of_le (title ++ (0 ∷ rest)) (room - 2) (0 ∷ []) fits, n) refl,
        rw (take-append_of_le (room - 2) title (0 ∷ rest) (omega arith))
            (c_string-ended (shown room title) behind (has-take (room - 2) title free)),
      )
  | inr e ↦
      let fits : shown room title ≡ title = take_all (room - 2) title (ground arith) in
      (title ++ (0 ∷ rest), rw (whole, e, fits) refl, whole ∙ sym fits)
]
  where
    whole : c_string (title ++ (0 ∷ rest)) ≡ title
    whole = c_string-ended title rest free

-- A process whose area is `body`, with the 0 at its end.
pub prename_setproctitle-area :
    (buf title body rest : List ℕ) (s : Process)
    → s.memory ≡ body ++ (0 ∷ rest)
    → s.last_argv ≡ length body
    → 2 ≤ length body
    → length title < max_line
    → has 0 title ≡ false
    → length buf ≡ max_line
    → prename_setproctitle buf title s
      ≡ some (record s {
        memory =
            shown (length body) title
            ++ (replicate (length body - length (shown (length body) title)) 0 ++ (0 ∷ rest));
        argv = take 1 s.argv;
      })
unfolding prename_setproctitle
prename_setproctitle-area buf title body rest s memory last room short free all =
    let behind = drop (0 + length (title ++ (0 ∷ []))) buf in
    let printed : store buf 0 (title ++ (0 ∷ [])) ≡ some (title ++ (0 ∷ behind)) =
      store_of_le buf 0 (title ++ (0 ∷ [])) (omega (arith, length-append title (0 ∷ [])))
      ∙ ap some (append_assoc title (0 ∷ []) behind) in
    let (cut, cuts, text) = cut_title-shown (length body) title behind room free in
    let k = length (shown (length body) title) in
    let m = take (k + 1) body in
    let r = drop (k + 1) body in
    let bound : k + 2 ≤ length body = omega (arith, length-take (length body - 2) title) in
    let copied : store (body ++ (0 ∷ rest)) 0 (shown (length body) title ++ (0 ∷ []))
        ≡ some (shown (length body) title ++ (0 ∷ (r ++ (0 ∷ rest)))) =
      ap (λ b. store b 0 (shown (length body) title ++ (0 ∷ [])))
        (ap (λ b. b ++ (0 ∷ rest)) (sym (take-append-drop (k + 1) body))
          ∙ append_assoc m r (0 ∷ rest))
      ∙ store-append 0 [] m (shown (length body) title ++ (0 ∷ [])) (r ++ (0 ∷ rest)) refl (
          omega
            (arith, length-append (shown (length body) title) (0 ∷ []), length-take (k + 1) body))
      ∙ ap some (append_assoc (shown (length body) title) (0 ∷ []) (r ++ (0 ∷ rest))) in
    let cleared =
      clear-append (length body - k) k (shown (length body) title) (0 ∷ r) (0 ∷ rest) refl
        (omega (arith, length-drop (k + 1) body)) in
    rw (printed, last, cuts, text, memory, copied, cleared) refl

-- `environ` and the end of the area, as they are found at the start.
found_area : List ℕ → List (List ℕ) → List (List ℕ) → List ℕ → Process
found_area arg args envs rest = record (started (arg ∷ args) envs rest) {
  environ = envs;
  last_argv = length (laid_out ((arg ∷ args) ++ envs)) - 1;
}

init-last :
    (s : Process) (q : ℕ)
    → last_string s.argv s.envp ≡ some q
    → prename_setproctitle_init s
      ≡ some (record s {
        environ = map (string_at s.memory) s.envp;
        last_argv = q + length (string_at s.memory q);
      })
unfolding prename_setproctitle_init
init-last s q e = rw e refl

init-area :
    (arg : List ℕ) (args envs : List (List ℕ)) (rest : List ℕ)
    → AreStrings ((arg ∷ args) ++ envs)
    → prename_setproctitle_init (started (arg ∷ args) envs rest)
      ≡ some (found_area arg args envs rest)
unfolding found_area
init-area arg args [] rest strings =
    let (q, last, ends) =
      last_of-places arg args [] rest 0 refl (AreStrings-left (arg ∷ args) [] strings) in
    let n : q + length (string_at (laid_out ((arg ∷ args) ++ []) ++ rest) q)
        ≡ length (laid_out ((arg ∷ args) ++ [])) - 1 =
      rw (append-nil args) (omega (arith, ends)) in
    init-last (started (arg ∷ args) [] rest) q last ∙ rw n refl
init-area arg args (env ∷ envs) rest strings =
    let (q, last, ends) =
      last_of-places env envs (laid_out (arg ∷ args)) rest (length (laid_out (arg ∷ args))) refl
        (AreStrings-right (arg ∷ args) (env ∷ envs) strings) in
    let copies =
      map-places (env ∷ envs) (laid_out (arg ∷ args)) rest (length (laid_out (arg ∷ args))) refl
        (AreStrings-right (arg ∷ args) (env ∷ envs) strings) in
    let moved : length (string_at (laid_out ((arg ∷ args) ++ (env ∷ envs)) ++ rest) q)
        ≡ length (string_at (laid_out (arg ∷ args) ++ (laid_out (env ∷ envs) ++ rest)) q) =
      ap (λ x. length (string_at x q)) (memory-split (arg ∷ args) (env ∷ envs) rest) in
    let all : length (laid_out ((arg ∷ args) ++ (env ∷ envs)))
        ≡ length (laid_out (arg ∷ args)) + length (laid_out (env ∷ envs)) =
      ap length (laid_out-append (arg ∷ args) (env ∷ envs))
      ∙ length-append (laid_out (arg ∷ args)) (laid_out (env ∷ envs)) in
    let n : q + length (string_at (laid_out ((arg ∷ args) ++ (env ∷ envs)) ++ rest) q)
        ≡ length (laid_out ((arg ∷ args) ++ (env ∷ envs))) - 1 =
      omega (arith, ends, moved, all) in
    let copied : map (string_at (laid_out ((arg ∷ args) ++ (env ∷ envs)) ++ rest))
          (places (length (laid_out (arg ∷ args))) (env ∷ envs))
        ≡ env ∷ envs =
      ap (λ x. map (string_at x) (places (length (laid_out (arg ∷ args))) (env ∷ envs)))
        (memory-split (arg ∷ args) (env ∷ envs) rest)
      ∙ copies in
    init-last (started (arg ∷ args) (env ∷ envs) rest) q last ∙ rw (n, copied) refl

-- A process that has an argument, and whose arguments and environment are strings that take up three bytes
-- at least, gets a name that is shorter than the buffer: the memory then begins with as much of the
-- name as leaves room for two bytes, and zeros up to the end of the environment; what lies behind is as it
-- was, and `environ` has the environment.
pub prename_setproctitle_lem :
    (buf title arg : List ℕ) (args envs : List (List ℕ)) (rest : List ℕ)
    → AreStrings ((arg ∷ args) ++ envs)
    → has 0 title ≡ false
    → length title < max_line
    → length buf ≡ max_line
    → 3 ≤ length (laid_out ((arg ∷ args) ++ envs))
    → (prename_setproctitle_init (started (arg ∷ args) envs rest)
        >>= prename_setproctitle buf title)
      ≡ some (
          let n = length (laid_out ((arg ∷ args) ++ envs)) - 1 in
          record {
            memory = shown n title ++ (replicate (n - length (shown n title)) 0 ++ (0 ∷ rest));
            argv = 0 ∷ [];
            envp = places (length (laid_out (arg ∷ args))) envs;
            environ = envs;
            last_argv = n;
          })
unfolding found_area
prename_setproctitle_lem buf title arg args envs rest strings free short all room =
    let (body, e) = laid_out-ends arg (args ++ envs) in
    let n : length (laid_out ((arg ∷ args) ++ envs)) - 1 ≡ length body =
      omega (arith, ap length e, length-append body (0 ∷ [])) in
    ap (λ o. o >>= prename_setproctitle buf title) (init-area arg args envs rest strings)
    ∙ prename_setproctitle-area buf title body rest (found_area arg args envs rest)
        (ap (λ x. x ++ rest) e ∙ append_assoc body (0 ∷ []) rest) n (omega (arith, n)) short free
        all
    ∙ rw n refl
