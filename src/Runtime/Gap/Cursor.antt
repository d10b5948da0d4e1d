-- ===== src/Runtime/Gap/Cursor.antt =====
-- runtime/gapbuffer.c: the moves and deletions of one UTF-8 character at the cursor.
pub mod Motion
pub mod Deletion
use Prim.Native.Nat.{bit_and}
use tiny_cplus.Prelude.{ℕ, zero, suc, ◌+◌, ◌-◌, Bool, true, false, ltb, ◌==◌, if◌then◌else◌}
use tiny_cplus.Machine.{add_size, sub_size}
use tiny_cplus.Runtime.Gap.{Gap, size, byte, seek}

-- (byte & 0xc0) == 0x80
unfoldable pub continues : ℕ → Bool
continues b = bit_and b 0xc0 == 0x80

-- `while (position && (tc_gap_byte(g, position) & 0xc0) == 0x80) position--;`
pub back : Gap → ℕ → ℕ
back g zero = zero
back g (suc p) = elim (continues (byte g (suc p))) [ true ↦ back g p | false ↦ suc p ]

pub previous : Gap → ℕ → ℕ
previous g zero = zero
previous g (suc p) = back g p

-- `while (position < size && (tc_gap_byte(g, position) & 0xc0) == 0x80) position++;`, with the
-- number of rounds left, which is size - position.
pub forth : Gap → ℕ → ℕ → ℕ
forth g zero p = p
forth g (suc left) p = elim (continues (byte g p)) [ true ↦ forth g left (p + 1) | false ↦ p ]

pub next : Gap → ℕ → ℕ
next g position =
    if ltb position (size g) then forth g (size g - (position + 1)) (position + 1) else position

pub left : Gap → Gap
left g = seek g (previous g g.start)

pub right : Gap → Gap
right g = seek g (next g g.start)

pub backspace : Gap → Gap
backspace g =
    let start = previous g g.start in
    if start == g.start then g else record g { start = start; dirty = true }

pub delete : Gap → Gap
delete g =
    let n = sub_size (next g g.start) g.start in
    if n == 0
    then record g { stop = add_size g.stop n }
    else record g { stop = add_size g.stop n; dirty = true }
