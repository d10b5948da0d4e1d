-- ===== src/Runtime/Tui/Examples.antt =====
-- A text on a window of four columns.
use tiny_cplus.Prelude.{ℕ, ◌+◌, ◌≡◌, refl, inl, List, [], ◌∷◌, ◌++◌, arith}
use tiny_cplus.Prelude.Int.{pos, negsuc}
use tiny_cplus.Runtime.Protobuf.Utf8.{lead_byte, shift_in, following}
use tiny_cplus.Runtime.Tui.{
  Ui, Line, encode_utf8, decode_utf8, decode_lead, misfit, decode_tail, width_of, set_cell, shown,
  put_shown, put, put_on, clip, text_clip, clear, ui_text,
}
use tiny_cplus.Runtime.Tui.Code.{decode_utf8-encode_utf8}
use tiny_cplus.Runtime.Tui.Clip.{Kept, IsAway, text_clip_lem}

abbrev small : Ui
small = record {
  columns = 4;
  rows = 2;
  cells = λ i. record { codepoint = 32; foreground = 0; background = 0; width = 1 };
}

abbrev place : Line
place = record { start = pos 1; y = pos 1; foreground = 7; background = 0; room = pos 2 }

abbrev words : List ℕ
words = 104 ∷ 105 ∷ 106 ∷ []

text_clip_lem_example :
    ((more : ℕ) → clip (3 + more) place words 0 small ≡ text_clip place words small)
    × ((n : ℕ) → IsAway place 4 n → Kept n small (text_clip place words small))
text_clip_lem_example = text_clip_lem place words small

decode_utf8-encode_utf8_example : decode_utf8 (encode_utf8 8364 ++ 33 ∷ []) ≡ (8364, 33 ∷ [])
decode_utf8-encode_utf8_example = decode_utf8-encode_utf8 8364 (33 ∷ []) (inl (omega arith))

test_text : ((text_clip place words small).cells 6).codepoint ≡ 105
unfolding text_clip clip put_on put put_shown shown set_cell decode_utf8 width_of
test_text = refl

test_clipped : ((text_clip place words small).cells 7).codepoint ≡ 32
unfolding text_clip clip put_on put put_shown shown set_cell decode_utf8 width_of
test_clipped = refl

test_bad : decode_utf8 (237 ∷ 160 ∷ 128 ∷ []) ≡ (65533, 160 ∷ 128 ∷ [])
unfolding decode_utf8 decode_lead lead_byte following shift_in decode_tail misfit
test_bad = refl

test_left : ((ui_text (negsuc 0) (pos 0) words 7 0 small).cells 0).codepoint ≡ 105
unfolding ui_text text_clip clip put_on put put_shown shown set_cell decode_utf8 width_of
test_left = refl

test_clear : ((clear 7 0 small).cells 7).foreground ≡ 7
unfolding clear
test_clear = refl
