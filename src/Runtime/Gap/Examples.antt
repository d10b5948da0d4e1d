-- ===== src/Runtime/Gap/Examples.antt =====
-- The gap buffer on a small text, "ab\ncd" in a block of ten bytes.
use tiny_cplus.Prelude.{
  ℕ, ◌+◌, ◌≤◌, ◌≡◌, ◌⊎◌, true, false, List, [], ◌∷◌, some, arith, min, length, get_or,
}
use tiny_cplus.Prelude.Int.{negsuc}
use tiny_cplus.Machine.Block.{Malloc, read}
use tiny_cplus.Runtime.Gap.{Gap, limit, seek, insert}
use tiny_cplus.Runtime.Gap.Valid.{IsValid, contents}
use tiny_cplus.Runtime.Gap.Seek.{Sought, seek_lem}
use tiny_cplus.Runtime.Gap.Edit.{Inserted, Refused, insert_lem}
use tiny_cplus.Runtime.Gap.Cursor.{previous, next, backspace}
use tiny_cplus.Runtime.Gap.Cursor.Motion.{
  StartsBefore, EndsAfter, StartsBefore-previous, EndsAfter-next,
}
use tiny_cplus.Runtime.Gap.Cursor.Deletion.{Removed, backspace_lem}
use tiny_cplus.Runtime.Gap.Lines.{line_start, target_line, vertical, find, cut_end, cut_line}
use tiny_cplus.Runtime.Gap.Lines.Bounds.{BeginsLine}
use tiny_cplus.Runtime.Gap.Lines.Vertical.{Target, Lands, vertical_lem}
use tiny_cplus.Runtime.Gap.Lines.Find.{Finds, find_lem}
use tiny_cplus.Runtime.Gap.Lines.Cut.{ClosesLine, Cuts, cut_line_lem}

abbrev bytes : List ℕ
bytes = b'a' ∷ b'b' ∷ b'\n' ∷ b'c' ∷ 0 ∷ 0 ∷ 0 ∷ 0 ∷ 0 ∷ b'd' ∷ []

-- The cursor stands before the d.
abbrev sample : Gap
sample = record { block = λ i. get_or bytes i 0; start = 4; stop = 9; capacity = 10; dirty = false }

abbrev granting : Malloc
granting n = some (λ _. 0)

sample-IsValid : IsValid sample
sample-IsValid = omega arith

seek_lem_example : Sought sample (min 2 (length (contents sample))) (seek sample 2)
seek_lem_example = seek_lem sample 2 sample-IsValid

insert_lem_example :
    ((insert granting sample (b'x' ∷ []) ≡ (8, sample)) × Refused granting sample (b'x' ∷ []))
    ⊎ (((insert granting sample (b'x' ∷ [])).0 ≡ 0)
        × Inserted sample (b'x' ∷ []) (insert granting sample (b'x' ∷ [])).1
        × (length (contents sample) + 1 ≤ limit))
insert_lem_example = insert_lem granting sample (b'x' ∷ []) sample-IsValid

StartsBefore-previous_example : StartsBefore (contents sample) (previous sample 4) 4
unfolding read
StartsBefore-previous_example =
    StartsBefore-previous sample sample-IsValid 4 (omega arith) (omega arith)

EndsAfter-next_example : EndsAfter (contents sample) 4 (next sample 4)
unfolding read
EndsAfter-next_example = EndsAfter-next sample sample-IsValid 4 (omega arith)

backspace_lem_example :
    StartsBefore (contents sample) (previous sample 4) 4
    × Removed sample (previous sample 4) 4 (backspace sample)
backspace_lem_example = backspace_lem sample sample-IsValid (omega arith)

vertical_lem_example :
    Target (contents sample) 4 true (target_line sample (negsuc 0))
    × ((h : Gap) × (vertical sample (negsuc 0) ≡ some h)
        × Lands sample h (target_line sample (negsuc 0)))
vertical_lem_example = vertical_lem sample (negsuc 0) sample-IsValid

find_lem_example : Finds (contents sample) (b'c' ∷ b'd' ∷ []) 1 (find sample (b'c' ∷ b'd' ∷ []) 1)
find_lem_example = find_lem sample (b'c' ∷ b'd' ∷ []) 1 sample-IsValid

cut_line_lem_example :
    BeginsLine (contents sample) (line_start sample 4) 4
    × ClosesLine (contents sample) 4 (cut_end sample)
    × Cuts granting sample (cut_line granting sample)
cut_line_lem_example = cut_line_lem granting sample sample-IsValid
