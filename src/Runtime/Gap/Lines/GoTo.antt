-- ===== src/Runtime/Gap/Lines/GoTo.antt =====
-- `tc_gap_goto_line`: the cursor goes to the beginning of the line with a number, from 0.
use tiny_cplus.Prelude.{
  ℕ, zero, suc, ◌+◌, ◌-◌, ◌<◌, ◌≤◌, ◌≡◌, refl, sym, ap, ◌∙◌, inl, inr, ◌⊎◌, false, Bool-cases, List,
  arith, length, take, get_or, ◌==◌, if◌then◌else◌,
}
use mathlib.Core.Path.{subst}
use tiny_cplus.Prelude.Int.{ℤ, pos, negsuc, pos_part, ltb_ℤ}
use tiny_cplus.Machine.Block.{read}
use tiny_cplus.Runtime.Gap.{Gap, byte, size, seek}
use tiny_cplus.Runtime.Gap.Valid.{IsValid, contents, size-length, byte-contents, read-byte}
use tiny_cplus.Runtime.Gap.Seek.{Sought, seek_to}
use tiny_cplus.Runtime.Gap.Lines.{find_line, goto_line}
use tiny_cplus.Runtime.Gap.Lines.Bounds.{newline, newlines}

-- From `p` on, with `cur` newlines passed: `k` bytes further all `t` are passed, the last one just
-- now, or the text has ended.
record Passes (g : Gap) (t left p cur q : ℕ) : Type 0 where
  k : ℕ
  at_k : q ≡ p + k
  within : k ≤ left
  stop :
      ((cur + newlines (read (byte g) p k) ≡ t) × ((k ≡ 0) ⊎ (byte g (q - 1) ≡ newline)))
      ⊎ ((k ≡ left) × (cur + newlines (read (byte g) p k) < t))

Passes-here :
    (g : Gap) (t left p cur : ℕ) → (cur ≡ t) ⊎ ((left ≡ 0) × (cur < t)) → Passes g t left p cur p
unfolding newlines read
Passes-here g t left p cur h = record {
  k = 0;
  at_k = omega arith;
  within = omega arith;
  stop = ground (arith, h);
}

Passes-further :
    (g : Gap) (t left p cur q : ℕ)
    → cur < t
    → Passes g t left (p + 1) (if byte g p == newline then cur + 1 else cur) q
    → Passes g t (suc left) p cur q
unfolding newlines read
Passes-further g t left p cur q less r = record {
  k = suc r.k;
  at_k = omega (arith, r.at_k);
  within = omega (arith, r.within);
  stop =
      ground (
        arith,
        r.stop,
        r.at_k,
        ap (λ j. byte g j) {x = q - 1} {y = p + r.k} (omega (arith, r.at_k)),
      );
}

Passes-find_line :
    (g : Gap) (t left p cur : ℕ) → cur ≤ t → Passes g t left p cur (find_line g (pos t) left p cur)
unfolding find_line
Passes-find_line g t zero p cur h = Passes-here g t 0 p cur (ground arith)
Passes-find_line g t (suc left) p cur h = elim (Bool-cases (ltb_ℤ (pos cur) (pos t))) [
  | inl less ↦
      rw (less, find_line)
        (Passes-further g t left p cur _ (ground arith) (
          Passes-find_line g t left (p + 1) (if byte g p == newline then cur + 1 else cur)
            (ground arith)))
  | inr more ↦ rw (more, find_line) (Passes-here g t (suc left) p cur (inl (ground arith)))
]

-- The place `q` is the beginning of the line `t`, or the end of a text that has fewer lines.
pub record OnLine (l : List ℕ) (t q : ℕ) : Type 0 where
  pub upto : q ≤ length l
  pub number :
      ((newlines (take q l) ≡ t) × ((q ≡ 0) ⊎ (get_or l (q - 1) 0 ≡ newline)))
      ⊎ ((q ≡ length l) × (newlines (take q l) < t))

OnLine-Passes :
    (g : Gap) (t q : ℕ) → IsValid g → Passes g t (size g) 0 0 q → OnLine (contents g) t q
OnLine-Passes g t q v r =
    let e : q ≡ r.k = omega (arith, r.at_k) in
    let le : q ≤ length (contents g) = omega (arith, r.within, size-length g v) in
    let same : newlines (read (byte g) 0 r.k) ≡ newlines (take q (contents g)) =
      ap (λ j. newlines (read (byte g) 0 j)) (sym e)
      ∙ ap newlines (read-byte g 0 q v (omega arith)) in
    record {
      upto = le;
      number = elim r.stop [
        | inl (a, inl z) ↦ inl (omega (arith, same), inl (omega arith))
        | inl (a, inr b) ↦ elim (Bool-cases (q == 0)) [
          | inl z ↦ inl (omega (arith, same), inl (ground arith))
          | inr z ↦
              inl (omega (arith, same), inr (sym (byte-contents g (q - 1) v (ground arith)) ∙ b))
        ]
        | inr (a, b) ↦ inr (omega (arith, size-length g v), omega (arith, same))
      ];
    }

find_line-negsuc : (g : Gap) (n left : ℕ) → find_line g (negsuc n) left 0 0 ≡ 0
unfolding find_line
find_line-negsuc g n zero = refl
find_line-negsuc g n (suc left) =
    let e : ltb_ℤ (pos 0) (negsuc n) ≡ false = ground arith in rw (e, find_line) refl

-- On a valid buffer `tc_gap_goto_line` moves the cursor, and nothing else, to the beginning of the
-- line with that number, counted from 0 by the newlines before it; to the end of the text if it
-- has fewer lines; and to its start for a negative number.
pub goto_line_lem :
    (g : Gap) (target : ℤ)
    → IsValid g
    → (q : ℕ) × OnLine (contents g) (pos_part target) q × Sought g q (goto_line g target)
unfolding goto_line
goto_line_lem g (pos t) v =
    let q = find_line g (pos t) (size g) 0 0 in
    let o = OnLine-Passes g t q v (Passes-find_line g t (size g) 0 0 (omega arith)) in
    (q, o, seek_to g q v o.upto)
goto_line_lem g (negsuc n) v =
    let o = OnLine-Passes g 0 0 v (Passes-here g 0 (size g) 0 0 (inl refl)) in
    (
      0,
      o,
      subst (λ p. Sought g 0 (seek g p)) (sym (find_line-negsuc g n (size g)))
          (seek_to g 0 v o.upto),
    )
