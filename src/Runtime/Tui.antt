-- ===== src/Runtime/Tui.antt =====
-- runtime/tui.c: the UTF-8 of the terminal and the cells of a window. The numbers of type int are
-- taken to stay within 32 bits.
pub mod Code
pub mod Clip
pub mod Examples
use Prim.Native.Nat.{bit_and, bit_or}
use tiny_cplus.Prelude.{
  ℕ, zero, suc, ◌+◌, ◌-◌, ◌*◌, ◌/◌, ◌%◌, ◌^◌, Bool, true, false, ◌&&◌, ◌||◌, not, Option, none,
  some, List, [], ◌∷◌, length, ltb, leb, ◌==◌, if◌then◌else◌,
}
use tiny_cplus.Prelude.Int.{ℤ, pos, negsuc, ltb_ℤ, pos_part}
use tiny_cplus.Runtime.Protobuf.Utf8.{lead_byte, following}

abbrev pub replacement : ℕ
replacement = 65533

-- The bytes that `tc_utf8_encode` writes for a code point once it is known to be valid
unfoldable pub encode_valid : ℕ → List ℕ
encode_valid cp =
    if ltb cp 128
    then cp ∷ []
    else if ltb cp 2048
    then bit_or 192 (cp / 2 ^ 6) ∷ bit_or 128 (bit_and cp 63) ∷ []
    else if ltb cp 65536
    then bit_or 224 (cp / 2 ^ 12)
      ∷ bit_or 128 (bit_and (cp / 2 ^ 6) 63)
      ∷ bit_or 128 (bit_and cp 63)
      ∷ []
    else bit_or 240 (cp / 2 ^ 18)
      ∷ bit_or 128 (bit_and (cp / 2 ^ 12) 63)
      ∷ bit_or 128 (bit_and (cp / 2 ^ 6) 63)
      ∷ bit_or 128 (bit_and cp 63)
      ∷ []

-- `tc_utf8_encode`: the bytes that it writes
unfoldable pub encode_utf8 : ℕ → List ℕ
encode_utf8 cp =
    encode_valid (if ltb 1114111 cp || (leb 55296 cp && leb cp 57343) then replacement else cp)

-- The test after the loop of `tc_utf8_decode`
unfoldable pub misfit : ℕ → ℕ → Bool
misfit continuation cp =
    (continuation == 1 && ltb cp 128)
    || (continuation == 2 && ltb cp 2048)
    || (continuation == 3 && ltb cp 65536)
    || ltb 1114111 cp
    || (leb 55296 cp && leb cp 57343)

unfoldable pub decode_tail : ℕ → Option (ℕ × List ℕ) → List ℕ → ℕ × List ℕ
decode_tail continuation none text = (replacement, text)
decode_tail continuation (some (cp, rest)) text =
    if misfit continuation cp then (replacement, text) else (cp, rest)

unfoldable pub decode_lead : Option (ℕ × ℕ) → List ℕ → ℕ × List ℕ
decode_lead none text = (replacement, text)
decode_lead (some (continuation, cp)) text =
    if ltb (length text) continuation
    then (replacement, text)
    else decode_tail continuation (following continuation cp text) text

-- `tc_utf8_decode` on the text from its position on: the code point, and the text from the new
-- position on. The first byte and the loop are those of `tc_pb_valid_utf8`.
unfoldable pub decode_utf8 : List ℕ → ℕ × List ℕ
decode_utf8 [] = (0, [])
decode_utf8 (first ∷ text) =
    if ltb first 128 then (first, text) else decode_lead (lead_byte first) text

abbrev pub within : ℕ → ℕ → ℕ → Bool
within cp low high = leb low cp && leb cp high

-- `tc_ui_width`
unfoldable pub width_of : ℕ → ℕ
width_of cp =
    if leb 4352 cp
      && (leb cp 4447
          || within cp 9001 9002
          || within cp 11904 42191
          || within cp 44032 55203
          || within cp 63744 64255
          || within cp 65040 65049
          || within cp 65072 65135
          || within cp 65280 65376
          || within cp 65504 65510
          || within cp 127744 129791
          || within cp 131072 262141)
    then 2
    else 1

-- `TcUiCell`, less `attributes`, which is never other than 0
pub record Cell : Type 0 where
  pub codepoint : ℕ
  pub foreground : ℕ
  pub background : ℕ
  pub width : ℕ

-- The part of `TcUi` that holds the cells to be shown
pub record Ui : Type 0 where
  pub columns : ℕ
  pub rows : ℕ
  pub cells : ℕ → Cell

unfoldable pub set_cell : ℕ → Cell → Ui → Ui
set_cell i cell ui = record ui { cells = λ j. if j == i then cell else ui.cells j }

-- `tc_ui_clear`
unfoldable pub clear : ℕ → ℕ → Ui → Ui
clear foreground background ui = record ui {
  cells = λ i.
      if ltb i (ui.columns * ui.rows)
      then record { codepoint = 32; foreground = foreground; background = background; width = 1 }
      else ui.cells i;
}

-- The code point that `tc_ui_put` shows, and its width
unfoldable pub shown : Ui → ℕ → ℕ → ℕ × ℕ
shown ui x codepoint =
    let visible =
      if ltb codepoint 32 || (leb 127 codepoint && ltb codepoint 160) then 32 else codepoint in
    if width_of codepoint == 2 && leb ui.columns (x + 1)
    then (32, 1)
    else (visible, width_of codepoint)

-- The assignments of `tc_ui_put` to a cell of the window, and to the next one where it is wide
unfoldable pub put_shown : ℕ × ℕ → ℕ → ℕ → ℕ → Ui → Ui
put_shown (codepoint, width) i foreground background ui =
    let cell : Cell = record {
      codepoint = codepoint;
      foreground = foreground;
      background = background;
      width = width;
    } in
    let one : Ui = set_cell i cell ui in
    if width == 2 then set_cell (i + 1) (record cell { codepoint = 0; width = 0 }) one else one

-- `tc_ui_put`
unfoldable pub put : ℤ → ℤ → ℕ → ℕ → ℕ → Ui → Ui
put x y codepoint foreground background ui =
    if ltb_ℤ x (pos 0)
      || not (ltb_ℤ x (pos ui.columns))
      || ltb_ℤ y (pos 0)
      || not (ltb_ℤ y (pos ui.rows))
    then ui
    else put_shown (shown ui (pos_part x) codepoint) (pos_part y * ui.columns + pos_part x)
        foreground background ui

-- `x + k`
abbrev pub shift : ℤ → ℕ → ℤ
shift (pos a) k = pos (a + k)
shift (negsuc a) k = if leb k a then negsuc (a - k) else pos (k - a - 1)

-- What `tc_ui_text_clip` keeps fixed
pub record Line : Type 0 where
  pub start : ℤ
  pub y : ℤ
  pub foreground : ℕ
  pub background : ℕ
  pub room : ℤ

unfoldable pub put_on : Line → ℕ → ℕ → Ui → Ui
put_on l k codepoint ui = put (shift l.start k) l.y codepoint l.foreground l.background ui

-- The loop over the spaces of a tab from column `start + k` on: the column after it, less start
unfoldable pub put_spaces : Line → ℕ → ℕ → Ui → ℕ × Ui
put_spaces l zero k ui = (k, ui)
put_spaces l (suc spaces) k ui =
    let rest = put_spaces l spaces (k + 1) (put_on l k 32 ui) in
    if ltb_ℤ (pos k) l.room then rest else (k, ui)

-- The loop of `tc_ui_text_clip` from column `start + k` on, on fuel
unfoldable pub clip : ℕ → Line → List ℕ → ℕ → Ui → Ui
clip fuel l [] k ui = ui
clip zero l (b ∷ text) k ui = ui
clip (suc fuel) l (b ∷ text) k ui =
    let r = decode_utf8 (b ∷ text) in
    let tab = put_spaces l (4 - k % 4) k ui in
    let after_tab = clip fuel l r.1 tab.0 tab.1 in
    let after = clip fuel l r.1 (k + width_of r.0) (put_on l k r.0 ui) in
    if not (ltb_ℤ (pos k) l.room)
    then ui
    else if r.0 == 10
    then ui
    else if r.0 == 9
    then after_tab
    else if ltb_ℤ l.room (pos (k + width_of r.0))
    then ui
    else after

-- `tc_ui_text_clip`: each round takes a byte, so that as many rounds as bytes are enough.
unfoldable pub text_clip : Line → List ℕ → Ui → Ui
text_clip l text ui = clip (length text) l text 0 ui

-- `ui->width - x`
abbrev pub room_from : ℕ → ℤ → ℤ
room_from columns (pos x) = if leb x columns then pos (columns - x) else negsuc (x - columns - 1)
room_from columns (negsuc x) = pos (columns + x + 1)

-- `tc_ui_text`
unfoldable pub ui_text : ℤ → ℤ → List ℕ → ℕ → ℕ → Ui → Ui
ui_text x y text foreground background ui =
    text_clip
      (record {
        start = x;
        y = y;
        foreground = foreground;
        background = background;
        room = room_from ui.columns x;
      })
      text ui
