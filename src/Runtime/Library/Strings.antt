-- ===== src/Runtime/Library/Strings.antt =====
-- What the searches in strings find.
use tiny_cplus.Prelude.{
  ℕ, zero, suc, ◌+◌, ◌<◌, ◌≤◌, ◌≡◌, refl, sym, ap, ◌∙◌, ◌↔◌, Bool, true, false, ◌&&◌, List, [], ◌∷◌,
  ◌++◌, length, length-append, length-drop, take, drop, take-append, take-append-drop, ltb, leb,
  ◌==◌, if_cases, ltb→lt, ltb→ge, arith,
}
use tiny_cplus.Prelude.Int.{ℤ, pos, negsuc}
use tiny_cplus.Prelude.Text.{same, same_self, same_is}
use tiny_cplus.Runtime.Library.{starts_with, find_from, string_find}

second : (a b : Bool) → (a && b) ≡ true → b ≡ true
second true b e = e
second false b e = absurd (cc e)

-- `tc_string_starts` tells whether a text is the prefix and something more.
pub starts_with_lem :
    (text prefix : List ℕ)
    → (starts_with text prefix ≡ true) ↔ ((rest : List ℕ) × (text ≡ prefix ++ rest))
unfolding starts_with
starts_with_lem text prefix = (
  λ e. (
    drop (length prefix) text,
    sym (take-append-drop (length prefix) text)
        ∙ ap (λ z. z ++ drop (length prefix) text)
            (same_is (take (length prefix) text) prefix (second _ _ e)),
  ),
  λ (rest, e).
      let long : leb (length prefix) (length text) ≡ true =
        ground (arith, ap length e, length-append prefix rest) in
      let front : take (length prefix) text ≡ prefix =
        ap (take (length prefix)) e ∙ take-append prefix rest (length prefix) refl in
      rw (long, front) (same_self prefix),
)

-- Where a search from i on finds a needle in a text: at the first place where the rest starts with
-- it, or nowhere.
pub data Search (needle text : List ℕ) (i : ℕ) : ℤ → Type 0 where
  found :
      (k : ℕ) {z : ℤ}
      → z ≡ pos (i + k)
      → starts_with (drop k text) needle ≡ true
      → ((j : ℕ) → j < k → starts_with (drop j text) needle ≡ false)
      → Search needle text i z
  missing :
      {z : ℤ}
      → z ≡ negsuc 0
      → ((j : ℕ) → starts_with (drop j text) needle ≡ false)
      → Search needle text i z

starts-short :
    (text needle : List ℕ) → length text < length needle → starts_with text needle ≡ false
unfolding starts_with
starts-short text needle h =
    let short : leb (length needle) (length text) ≡ false = ground arith in rw short refl

starts-same :
    (text needle : List ℕ)
    → length needle ≤ length text
    → starts_with text needle ≡ same (take (length needle) text) needle
unfolding starts_with
starts-same text needle h =
    let long : leb (length needle) (length text) ≡ true = ground arith in rw long refl

starts-nil : (needle : List ℕ) → (length needle == 0) ≡ true → starts_with [] needle ≡ true
unfolding starts_with same
starts-nil [] e = refl
starts-nil (x ∷ needle) e = absurd (ground arith)

drop-nil : (j : ℕ) → drop {A = ℕ} j [] ≡ []
drop-nil zero = refl
drop-nil (suc j) = refl

earlier :
    (needle text : List ℕ) (c k : ℕ)
    → starts_with (c ∷ text) needle ≡ false
    → ((j : ℕ) → j < k → starts_with (drop j text) needle ≡ false)
    → (j : ℕ) → j < suc k
    → starts_with (drop j (c ∷ text)) needle ≡ false
earlier needle text c k e h zero l = e
earlier needle text c k e h (suc j) l = h j (omega arith)

nowhere :
    (needle text : List ℕ) (c : ℕ)
    → starts_with (c ∷ text) needle ≡ false
    → ((j : ℕ) → starts_with (drop j text) needle ≡ false)
    → (j : ℕ) → starts_with (drop j (c ∷ text)) needle ≡ false
nowhere needle text c e h zero = e
nowhere needle text c e h (suc j) = h j

later_on :
    (needle text : List ℕ) (c i : ℕ) (z : ℤ)
    → starts_with (c ∷ text) needle ≡ false
    → Search needle text (i + 1) z
    → Search needle (c ∷ text) i z
later_on needle text c i z e (found k f g h) =
    found (suc k) (f ∙ ap pos (omega arith)) g (λ j l. earlier needle text c k e h j l)
later_on needle text c i z e (missing f h) = missing f (λ j. nowhere needle text c e h j)

find_from-Search : (i : ℕ) (needle text : List ℕ) → Search needle text i (find_from i needle text)
unfolding find_from
find_from-Search i needle [] =
    if_cases (Search needle [] i) (length needle == 0)
      (λ e. found 0 (ap pos (omega arith)) (starts-nil needle e) (λ j l. absurd (omega arith)))
      (λ e.
        missing refl (λ j.
          ap (λ t. starts_with t needle) (drop-nil j) ∙ starts-short [] needle (ground arith)))
find_from-Search i needle (c ∷ text) =
    if_cases (Search needle (c ∷ text) i) (ltb (length (c ∷ text)) (length needle))
      (λ e. missing refl (λ j.
        starts-short (drop j (c ∷ text)) needle
          (omega (arith, length-drop j (c ∷ text), ltb→lt _ _ e))))
      (λ e.
        let long = starts-same (c ∷ text) needle (ltb→ge _ _ e) in
        if_cases (Search needle (c ∷ text) i) (same (take (length needle) (c ∷ text)) needle)
          (λ f. found 0 (ap pos (omega arith)) (long ∙ f) (λ j l. absurd (omega arith)))
          (λ f. later_on needle text c i _ (long ∙ f) (find_from-Search (i + 1) needle text)))

-- `tc_string_find` gives the first place at which the haystack goes on with the needle, or -1 where
-- there is none.
pub string_find-Search :
    (haystack needle : List ℕ) → Search needle haystack 0 (string_find haystack needle)
unfolding string_find
string_find-Search haystack needle =
    if_cases (Search needle haystack 0) (ltb (length haystack) (length needle))
      (λ e. missing refl (λ j.
        starts-short (drop j haystack) needle
          (omega (arith, length-drop j haystack, ltb→lt _ _ e))))
      (λ e. find_from-Search 0 needle haystack)
