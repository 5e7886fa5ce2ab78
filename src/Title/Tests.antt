-- ===== src/Title/Tests.antt =====
-- The name of a process at concrete inputs.
use postfix_edm.Prelude.{◌≡◌, refl, arith, List, ℕ, [], ◌∷◌, some, none, replicate}
use postfix_edm.Prelude.Memory.{◌>>=◌}
use postfix_edm.Title.{prename_setproctitle_init, prename_setproctitle}
use postfix_edm.Title.Layout.{started}
use postfix_edm.Title.Renaming.{prename_setproctitle_lem}

abbrev worker : List ℕ
worker = b'w' ∷ b'o' ∷ b'r' ∷ b'k' ∷ b'e' ∷ b'r' ∷ []

abbrev run : List ℕ
run = b'.' ∷ b'/' ∷ b's' ∷ []

abbrev setting : List ℕ
setting = b'A' ∷ b'=' ∷ b'b' ∷ []

-- ./s with A=b, and the name worker, of which there is room for four (b's' ∷ [])s.
prename_setproctitle_lem_example :
    (prename_setproctitle_init (started (run ∷ []) (setting ∷ []) (7 ∷ []))
      >>= prename_setproctitle (replicate 2048 9) worker)
    ≡ some (record {
      memory = b'w' ∷ b'o' ∷ b'r' ∷ b'k' ∷ b'e' ∷ 0 ∷ 0 ∷ 0 ∷ 7 ∷ [];
      argv = 0 ∷ [];
      envp = 4 ∷ [];
      environ = setting ∷ [];
      last_argv = 7;
    })
prename_setproctitle_lem_example =
    prename_setproctitle_lem (replicate 2048 9) worker run [] (setting ∷ []) (7 ∷ [])
      (refl, (refl, tt)) refl (omega arith) refl (omega arith)

-- A process without an environment whose only argument is a letter has no room.
no_room :
    (prename_setproctitle_init (started ((b's' ∷ []) ∷ []) [] (7 ∷ []))
      >>= prename_setproctitle (replicate 2048 9) worker)
    ≡ none
unfolding prename_setproctitle_init prename_setproctitle postfix_edm.Title.cut_title
    postfix_edm.Prelude.Memory.store
no_room = refl

-- A title of the length of the buffer is written over what lies behind it.
overflow :
    (prename_setproctitle_init (started (run ∷ []) (setting ∷ []) (7 ∷ []))
      >>= prename_setproctitle (replicate 2048 9) (replicate 2048 b'w'))
    ≡ none
unfolding prename_setproctitle_init prename_setproctitle postfix_edm.Prelude.Memory.store
overflow = refl
