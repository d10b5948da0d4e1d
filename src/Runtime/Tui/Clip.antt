-- ===== src/Runtime/Tui/Clip.antt =====
-- A text that is clipped to a line writes nowhere else.
use mathlib.Core.Path.{subst}
use tiny_cplus.Prelude.{
  ℕ, zero, suc, ◌+◌, ◌-◌, ◌*◌, ◌%◌, ◌<◌, ◌≤◌, ◌≡◌, ◌≢◌, refl, sym, ap, ◌∙◌, inl, inr, true, false,
  ◌&&◌, ◌||◌, not, List, [], ◌∷◌, length, leb, ◌==◌, ==_iff, if_cases, Bool-cases, arith,
}
use tiny_cplus.Prelude.Int.{ℤ, pos, negsuc, ltb_ℤ}
use tiny_cplus.Runtime.Tui.{
  Cell, Ui, Line, decode_utf8, width_of, set_cell, shown, put_shown, put, shift, put_on, put_spaces,
  clip, text_clip,
}
use tiny_cplus.Runtime.Tui.Code.{decode_utf8-length}

-- A cell and the width of the window are as before.
pub record Kept (n : ℕ) (ui u : Ui) : Type 0 where
  pub same_cell : u.cells n ≡ ui.cells n
  pub same_columns : u.columns ≡ ui.columns

unchanged : (n : ℕ) (ui : Ui) → Kept n ui ui
unchanged n ui = record { same_cell = refl; same_columns = refl }

Kept-trans : (n : ℕ) (a b c : Ui) → Kept n a b → Kept n b c → Kept n a c
Kept-trans n a b c h k = record {
  same_cell = k.same_cell ∙ h.same_cell;
  same_columns = k.same_columns ∙ h.same_columns;
}

Kept-set_cell : (n i : ℕ) (cell : Cell) (ui : Ui) → n ≢ i → Kept n ui (set_cell i cell ui)
unfolding set_cell
Kept-set_cell n i cell ui h = record {
  same_cell =
      if_cases (λ c. c ≡ ui.cells n) (n == i) (λ e. absurd (h ((==_iff n i).0 e))) (λ e. refl);
  same_columns = refl;
}

not_at_end : (w c n : ℕ) → w ≡ 2 → (w == 2 && leb c n) ≡ false → n < c
not_at_end w c n e f = ground arith

not_two : (n : ℕ) → n ≡ 1 → n ≢ 2
not_two n e f = omega arith

IsWide : Ui → ℕ → ℕ → ℕ × ℕ → Type 0
IsWide ui x cp r = r.1 ≡ 2 → (width_of cp ≡ 2) × (x + 1 < ui.columns)

shown-wide : (ui : Ui) (x cp : ℕ) → (shown ui x cp).1 ≡ 2 → (width_of cp ≡ 2) × (x + 1 < ui.columns)
unfolding shown IsWide
shown-wide ui x cp =
    if_cases (IsWide ui x cp) (width_of cp == 2 && leb ui.columns (x + 1))
      (λ e f. absurd (not_two 1 refl f))
      (λ e f. (f, not_at_end (width_of cp) ui.columns (x + 1) f e))

Kept-put_shown :
    (n : ℕ) (s : ℕ × ℕ) (i fg bg : ℕ) (ui : Ui)
    → n ≢ i
    → (s.1 ≡ 2 → n ≢ i + 1)
    → Kept n ui (put_shown s i fg bg ui)
unfolding put_shown
Kept-put_shown n (cp, w) i fg bg ui h k =
    if_cases (Kept n ui) (w == 2)
      (λ e.
        Kept-trans n ui _ _ (Kept-set_cell n i _ ui h)
          (Kept-set_cell n (i + 1) _ _ (k ((==_iff w 2).0 e))))
      (λ e. Kept-set_cell n i _ ui h)

-- A put leaves every cell but the one at its place, and the next one where the code point is wide.
Kept-put :
    (n : ℕ) (x y : ℤ) (cp fg bg : ℕ) (ui : Ui)
    → ((a b : ℕ) → x ≡ pos a → y ≡ pos b → a < ui.columns → n ≢ b * ui.columns + a)
    → ((a b : ℕ)
        → width_of cp ≡ 2
        → x ≡ pos a
        → y ≡ pos b
        → a + 1 < ui.columns
        → n ≢ b * ui.columns + (a + 1))
    → Kept n ui (put x y cp fg bg ui)
unfolding put
Kept-put n (pos a) (pos b) cp fg bg ui h k =
    if_cases (Kept n ui)
      (ltb_ℤ (pos a) (pos 0)
        || not (ltb_ℤ (pos a) (pos ui.columns))
        || ltb_ℤ (pos b) (pos 0)
        || not (ltb_ℤ (pos b) (pos ui.rows)))
      (λ e. unchanged n ui)
      (λ e.
        Kept-put_shown n (shown ui a cp) (b * ui.columns + a) fg bg ui
          (h a b refl refl (ground arith))
          (λ w f. let (v, l) = shown-wide ui a cp w in k a b v refl refl l (f ∙ omega arith)))
Kept-put n (negsuc a) y cp fg bg ui h k =
    if_cases (Kept n ui)
      (ltb_ℤ (negsuc a) (pos 0)
        || not (ltb_ℤ (negsuc a) (pos ui.columns))
        || ltb_ℤ y (pos 0)
        || not (ltb_ℤ y (pos ui.rows)))
      (λ e. unchanged n ui) (λ e. absurd (ground arith))
Kept-put n (pos a) (negsuc b) cp fg bg ui h k =
    if_cases (Kept n ui)
      (ltb_ℤ (pos a) (pos 0)
        || not (ltb_ℤ (pos a) (pos ui.columns))
        || ltb_ℤ (negsuc b) (pos 0)
        || not (ltb_ℤ (negsuc b) (pos ui.rows)))
      (λ e. unchanged n ui) (λ e. absurd (ground arith))

beyond_at : (k a x : ℕ) → k - a - 1 ≡ x → leb k a ≡ false → k + 1 - a - 1 ≡ x + 1
beyond_at k a x e f = ground arith

shift-next : (start : ℤ) (k x : ℕ) → shift start k ≡ pos x → shift start (k + 1) ≡ pos (x + 1)
shift-next (pos a) k x e = let f : a + k ≡ x = cc e in ap pos (omega arith)
shift-next (negsuc a) k x e =
    if_cases (λ z. z ≡ pos x → shift (negsuc a) (k + 1) ≡ pos (x + 1)) (leb k a)
      (λ f g. absurd (cc g))
      (λ f g.
        let same_x : k - a - 1 ≡ x = cc g in
        let beyond : leb (k + 1) a ≡ false = ground arith in
        rw beyond (ap pos (beyond_at k a x same_x f)))
      e

-- The cell stands outside the row of a line or outside its room.
pub IsAway : Line → ℕ → ℕ → Type 0
IsAway l columns n =
    (k a b : ℕ)
    → ltb_ℤ (pos k) l.room ≡ true
    → shift l.start k ≡ pos a
    → l.y ≡ pos b
    → a < columns
    → n ≢ b * columns + a

-- A put on a line, where the code point fits into the room
Kept-put_on :
    (n columns : ℕ) (l : Line) (k cp : ℕ) (ui : Ui)
    → IsAway l columns n
    → ui.columns ≡ columns
    → ltb_ℤ (pos k) l.room ≡ true
    → (width_of cp ≡ 2 → ltb_ℤ (pos (k + 1)) l.room ≡ true)
    → Kept n ui (put_on l k cp ui)
unfolding put_on IsAway
Kept-put_on n columns l k cp ui away c r w =
    let same_width = sym c in
    Kept-put n (shift l.start k) l.y cp l.foreground l.background ui
      (subst (λ z. (a b : ℕ) → shift l.start k ≡ pos a → l.y ≡ pos b → a < z → n ≢ b * z + a)
        same_width (λ a b e f g. away k a b r e f g))
      (subst
        (λ z.
          (a b : ℕ)
          → width_of cp ≡ 2
          → shift l.start k ≡ pos a
          → l.y ≡ pos b
          → a + 1 < z
          → n ≢ b * z + (a + 1))
        same_width (λ a b h e f g. away (k + 1) (a + 1) b (w h) (shift-next l.start k a e) f g))

narrow : width_of 32 ≢ 2
unfolding width_of
narrow e = not_two 1 refl e

Spaced : ℕ → Ui → ℕ × Ui → Type 0
Spaced n ui r = Kept n ui r.1

Kept-put_spaces :
    (n columns : ℕ) (l : Line) (spaces k : ℕ) (ui : Ui)
    → IsAway l columns n
    → ui.columns ≡ columns
    → Kept n ui (put_spaces l spaces k ui).1
unfolding put_spaces Spaced
Kept-put_spaces n columns l zero k ui away c = unchanged n ui
Kept-put_spaces n columns l (suc spaces) k ui away c =
    if_cases (Spaced n ui) (ltb_ℤ (pos k) l.room)
      (λ e.
        let one = Kept-put_on n columns l k 32 ui away c e (λ w. absurd (narrow w)) in
        Kept-trans n ui _ _ one
          (Kept-put_spaces n columns l spaces (k + 1) _ away (one.same_columns ∙ c)))
      (λ e. unchanged n ui)

inside : (room : ℤ) (k : ℕ) → not (ltb_ℤ (pos k) room) ≡ false → ltb_ℤ (pos k) room ≡ true
inside room k e = elim (Bool-cases (ltb_ℤ (pos k) room)) [
  | inl f ↦ f
  | inr f ↦ absurd (cc (sym e ∙ ap not f))
]

wide_inside :
    (room : ℤ) (k w : ℕ)
    → ltb_ℤ room (pos (k + w)) ≡ false
    → w ≡ 2
    → ltb_ℤ (pos (k + 1)) room ≡ true
wide_inside (pos n) k w e f = ground arith
wide_inside (negsuc n) k w e f = absurd (ground arith)

Kept-clip :
    (n columns fuel : ℕ) (l : Line) (text : List ℕ) (k : ℕ) (ui : Ui)
    → IsAway l columns n
    → ui.columns ≡ columns
    → Kept n ui (clip fuel l text k ui)
unfolding clip
Kept-clip n columns fuel l [] k ui away c = unchanged n ui
Kept-clip n columns zero l (b ∷ text) k ui away c = unchanged n ui
Kept-clip n columns (suc fuel) l (b ∷ text) k ui away c =
    let r = decode_utf8 (b ∷ text) in
    let tab = Kept-put_spaces n columns l (4 - k % 4) k ui away c in
    if_cases (Kept n ui) (not (ltb_ℤ (pos k) l.room)) (λ e. unchanged n ui)
      (λ e.
        if_cases (Kept n ui) (r.0 == 10) (λ f. unchanged n ui)
          (λ f.
            if_cases (Kept n ui) (r.0 == 9)
              (λ g.
                Kept-trans n ui _ _ tab
                  (Kept-clip n columns fuel l r.1 _ _ away (tab.same_columns ∙ c)))
              (λ g.
                if_cases (Kept n ui) (ltb_ℤ l.room (pos (k + width_of r.0))) (λ h. unchanged n ui)
                  (λ h.
                    let one =
                      Kept-put_on n columns l k r.0 ui away c (inside l.room k e)
                        (wide_inside l.room k (width_of r.0) h) in
                    Kept-trans n ui _ _ one
                      (Kept-clip n columns fuel l r.1 _ _ away (one.same_columns ∙ c))))))

-- Rounds beyond the number of bytes change nothing.
clip-enough :
    (f g : ℕ) (l : Line) (text : List ℕ) (k : ℕ) (ui : Ui)
    → length text ≤ f
    → length text ≤ g
    → clip f l text k ui ≡ clip g l text k ui
unfolding clip
clip-enough f g l [] k ui h h' = refl
clip-enough zero g l (b ∷ text) k ui h h' = absurd (omega arith)
clip-enough (suc f) zero l (b ∷ text) k ui h h' = absurd (omega arith)
clip-enough (suc f) (suc g) l (b ∷ text) k ui h h' =
    let less = decode_utf8-length b text in
    let r = decode_utf8 (b ∷ text) in
    let tab = put_spaces l (4 - k % 4) k ui in
    let e = clip-enough f g l r.1 tab.0 tab.1 (omega arith) (omega arith) in
    let e' =
      clip-enough f g l r.1 (k + width_of r.0) (put_on l k r.0 ui) (omega arith) (omega arith) in
    rw (e, e') refl

-- `tc_ui_text_clip` ends on every text, and changes no cell outside the room of its line: none of
-- another row, none before the line's start and none from its room on.
pub text_clip_lem :
    (l : Line) (text : List ℕ) (ui : Ui)
    → ((more : ℕ) → clip (length text + more) l text 0 ui ≡ text_clip l text ui)
      × ((n : ℕ) → IsAway l ui.columns n → Kept n ui (text_clip l text ui))
unfolding text_clip
text_clip_lem l text ui = (
  λ more. clip-enough (length text + more) (length text) l text 0 ui (omega arith) (omega arith),
  λ n away. Kept-clip n ui.columns (length text) l text 0 ui away refl,
)
