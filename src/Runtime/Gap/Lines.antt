-- ===== src/Runtime/Gap/Lines.antt =====
-- runtime/gapbuffer.c: lines and columns, searching, and cutting a line.
pub mod Bounds
pub mod Columns
pub mod Vertical
pub mod Find
pub mod Cut
pub mod GoTo
use tiny_cplus.Prelude.{
  ℕ, zero, suc, ◌+◌, ◌-◌, Bool, true, false, not, ◌&&◌, ◌||◌, List, [], ◌∷◌, Option, none, some,
  ltb, leb, ◌==◌, if◌then◌else◌, length,
}
use tiny_cplus.Prelude.Int.{ℤ, pos, negsuc, ltb_ℤ}
use tiny_cplus.Machine.{add_size, sub_size}
use tiny_cplus.Machine.Block.{Malloc, read}
use tiny_cplus.Runtime.Gap.{Gap, size, byte, seek}
use tiny_cplus.Runtime.Gap.Cursor.{next}

-- `while (p && tc_gap_byte(g, p - 1) != '\n') p--;`
pub line_start : Gap → ℕ → ℕ
line_start g zero = zero
line_start g (suc p) = elim (byte g p == b'\n') [ true ↦ suc p | false ↦ line_start g p ]

-- `while (p < n && tc_gap_byte(g, p) != '\n') p++;`, with the rounds left, n - p.
pub to_newline : Gap → ℕ → ℕ → ℕ
to_newline g zero p = p
to_newline g (suc left) p = elim (byte g p == b'\n') [
  | true ↦ p
  | false ↦ to_newline g left (p + 1)
]

pub line_end : Gap → ℕ → ℕ
line_end g p = to_newline g (size g - p) p

pub home : Gap → Gap
home g = seek g (line_start g g.start)

pub to_end : Gap → Gap
to_end g = seek g (line_end g g.start)

-- The loop of `tc_gap_line` from position `p` on, with the rounds left.
pub count_lines : Gap → ℕ → ℕ → ℕ → ℕ
count_lines g zero p line = line
count_lines g (suc left) p line =
    count_lines g left (p + 1) (if byte g p == b'\n' then line + 1 else line)

-- The text has at most 2^26 bytes, so that the int of the count cannot overflow.
pub line : Gap → ℕ
line g = count_lines g g.start 0 0

-- `while (p < g->start) { p = tc_gap_next(g, p); column++; }` on fuel.
pub count_columns : Gap → ℕ → ℕ → ℕ → Option ℕ
count_columns g zero p column = none
count_columns g (suc fuel) p column = elim (ltb p g.start) [
  | true ↦ count_columns g fuel (next g p) (column + 1)
  | false ↦ some column
]

-- Each round moves `p` up, so that one round for each byte before the cursor is enough.
pub column : Gap → Option ℕ
column g = count_columns g (g.start + 1) (line_start g g.start) 0

-- `for (i = 0; i < column && p < end; i++) p = tc_gap_next(g, p);`, with column - i rounds left.
pub advance : Gap → ℕ → ℕ → ℕ → ℕ
advance g end_ zero p = p
advance g end_ (suc left) p = elim (ltb p end_) [
  | true ↦ advance g end_ left (next g p)
  | false ↦ p
]

-- The start of the line that `tc_gap_vertical` goes to; `none` where it returns at once.
pub target_line : Gap → ℤ → Option ℕ
target_line g direction =
    let p = line_start g g.start in
    if ltb_ℤ direction (pos 0)
    then (if p == 0 then none else some (line_start g (p - 1)))
    else (let stop = line_end g p in if stop == size g then none else some (stop + 1))

settle : Gap → Option ℕ → Option ℕ → Option Gap
settle g (some col) (some p) = some (seek g (advance g (line_end g p) col p))
settle g (some col) none = some g
settle g none target = none

-- `none` if the loop of the column had run out of fuel.
pub vertical : Gap → ℤ → Option Gap
unfolding settle
vertical g direction = settle g (column g) (target_line g direction)

-- The loop of `tc_gap_goto_line`, with the rounds left, n - p.
pub find_line : Gap → ℤ → ℕ → ℕ → ℕ → ℕ
find_line g target zero p current = p
find_line g target (suc left) p current = elim (ltb_ℤ (pos current) target) [
  | true ↦ find_line g target left (p + 1) (if byte g p == b'\n' then current + 1 else current)
  | false ↦ p
]

pub goto_line : Gap → ℤ → Gap
goto_line g target = seek g (find_line g target (size g) 0 0)

-- The inner loop of `tc_gap_find`: how many bytes of the needle stand from `p` on.
pub matched : Gap → ℕ → List ℕ → ℕ
matched g p [] = 0
matched g p (c ∷ needle) =
    let more = matched g (p + 1) needle in if byte g p == c then suc more else 0

-- The outer loop, with the rounds left, n - needle.length + 1 - p.
pub search_from : Gap → List ℕ → ℕ → ℕ → ℤ
search_from g needle zero p = negsuc 0
search_from g needle (suc left) p = elim (matched g p needle == length needle) [
  | true ↦ pos p
  | false ↦ search_from g needle left (p + 1)
]

pub find : Gap → List ℕ → ℕ → ℤ
find g needle start =
    if length needle == 0 || ltb (size g) start || ltb (size g) (length needle)
    then negsuc 0
    else search_from g needle (size g - length needle + 1 - start) start

-- The line that `tc_gap_cut_line` takes, as its start and its end.
pub cut_end : Gap → ℕ
cut_end g = let stop = line_end g g.start in if ltb stop (size g) then stop + 1 else stop

pub cut_line : Malloc → Gap → Option (List ℕ) × Gap
cut_line malloc g =
    let start = line_start g g.start in
    let n = cut_end g - start in
    elim (malloc (n + 1)) [
      | none ↦ (none, g)
      | some fresh ↦ (
        some (read (byte g) start n),
        let h = seek g start in
            record h { stop = add_size h.stop n; dirty = if ltb 0 n then true else h.dirty },
      )
    ]
