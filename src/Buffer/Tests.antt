-- ===== src/Buffer/Tests.antt =====
-- Runs of `CSimpleBuffer`, and its theorems at concrete inputs.
use postfix_edm.Prelude.{
  ℕ, ◌+◌, ◌≤◌, ◌^◌, ◌<◌, ◌≡◌, refl, ap, ◌∙◌, List, [], ◌∷◌, ◌++◌, Option, none, some, true, false,
  arith, length, take, drop, replicate, length-replicate, length-append, length-take, min, ltb,
  if◌then◌else◌,
}
use postfix_edm.Buffer.{SimpleBuffer, Allocator, empty, write, read}
use postfix_edm.Buffer.Laws.{IsValid, contents, write_overruns}
use postfix_edm.Buffer.Refine.{put, get, run, served, left, run_refines}
use postfix_edm.Buffer.Sample.{giving, giving-Grants}
use postfix_edm.Prelude.Memory.{take-append_of_le, take-take_of_le}

abbrev held : SimpleBuffer
held = record { buffer = 1 ∷ 2 ∷ 3 ∷ 9 ∷ []; alloc_size = 4; write_offset = 3 }

held-IsValid : IsValid held
held-IsValid = omega arith

write_grows :
    write (giving 100) held (some (4 ∷ 5 ∷ 6 ∷ [])) 2
    ≡ some (2, record { buffer = 1 ∷ 2 ∷ 3 ∷ 4 ∷ 5 ∷ 0 ∷ []; alloc_size = 6; write_offset = 5 })
unfolding write postfix_edm.Buffer.make_room postfix_edm.Buffer.extend
    postfix_edm.Buffer.inc_write_offset postfix_edm.Prelude.Memory.fetch
    postfix_edm.Prelude.Memory.store
write_grows = refl

run_refines_example :
    (b' : SimpleBuffer) × (run (giving 100) held (put (4 ∷ 5 ∷ []) ∷ get 4 ∷ get 7 ∷ [])
      ≡ some ((1 ∷ 2 ∷ 3 ∷ 4 ∷ []) ∷ (5 ∷ []) ∷ [], b'))
    × IsValid b'
    × (contents b' ≡ [])
unfolding served left
run_refines_example =
    run_refines (giving 100) 100 held (put (4 ∷ 5 ∷ []) ∷ get 4 ∷ get 7 ∷ []) (giving-Grants 100)
      (omega arith) held-IsValid (omega arith)

write_overruns_example : write (giving 6) held (some (4 ∷ 5 ∷ 6 ∷ [])) 2 ≡ none
write_overruns_example =
    write_overruns (giving 6) held (4 ∷ 5 ∷ 6 ∷ []) 2 held-IsValid (omega arith) (omega arith)
      (omega arith) refl
