-- ===== src/Title.antt =====
-- c++/base/prename.c: the name of the process in the lists of the system, which is written over the arguments
-- and the environment. The memory is the list of its bytes from the first argument on, and a pointer the
-- place of a byte; what vsprintf prints, without a 0 at its end, is given.
pub mod Layout
pub mod Renaming
mod Tests
use postfix_edm.Prelude.{
  ℕ, zero, suc, ◌+◌, ◌-◌, List, [], ◌∷◌, ◌++◌, map, Option, none, some, ◌==◌, ltb, if◌then◌else◌,
  length, take, drop,
}
use postfix_edm.Prelude.Memory.{◌>>=◌, store}
use postfix_edm.Prelude.Text.{c_string}

abbrev pub max_line : ℕ
max_line = 2048

-- `environ` has the copies of the strings of the environment.
pub record Process : Type 0 where
  pub memory : List ℕ
  pub argv : List ℕ
  pub envp : List ℕ
  pub environ : List (List ℕ)
  pub last_argv : ℕ

abbrev pub string_at : List ℕ → ℕ → List ℕ
string_at memory place = c_string (drop place memory)

abbrev pub last_of : List ℕ → Option ℕ
last_of [] = none
last_of (p ∷ []) = some p
last_of (p ∷ q ∷ ps) = last_of (q ∷ ps)

-- The last string of the environment, or of the arguments where that is empty.
abbrev pub last_string : List ℕ → List ℕ → Option ℕ
last_string argv [] = last_of argv
last_string argv (p ∷ ps) = last_of (p ∷ ps)

unfoldable pub prename_setproctitle_init : Process → Option Process
prename_setproctitle_init s = do
  last ← last_string s.argv s.envp
  some (record s {
    environ = map (string_at s.memory) s.envp;
    last_argv = last + length (string_at s.memory last);
  })

-- The loop that writes a 0 to `n` places from `p` on.
unfoldable pub clear : ℕ → ℕ → List ℕ → Option (List ℕ)
clear zero p memory = some memory
clear (suc n) p memory = store memory p (0 ∷ []) >>= clear n (suc p)

-- The buffer and `i` after the title is cut to the room there is. With less room than two bytes `i` is
-- negative, and the 0 goes before the buffer.
unfoldable pub cut_title : ℕ → List ℕ → Option (List ℕ × ℕ)
cut_title room buf =
    let i = length (c_string buf) in
    if ltb room (i + 2)
    then (if ltb room 2
        then none
        else store buf (room - 2) (0 ∷ []) >>= (λ cut. some (cut, room - 2)))
    else some (buf, i)

-- `buf` is what the stack holds in the place of the buffer.
unfoldable pub prename_setproctitle : List ℕ → List ℕ → Process → Option Process
prename_setproctitle buf title s = do
  printed ← store buf 0 (title ++ (0 ∷ []))
  cut ← cut_title s.last_argv printed
  memory ← store s.memory 0 (c_string cut.0 ++ (0 ∷ []))
  memory ← clear (s.last_argv - cut.1) cut.1 memory
  some (record s { memory = memory; argv = take 1 s.argv })
