-- ===== src/Compiler/Parser/Integer.antt =====
-- strtoull with base 0, of the text of a number: hexadecimal behind 0x, octal behind 0, or decimal,
-- up to the first byte that is no digit. Past 2^64 - 1 it gives that, with errno set.
use tiny_cplus.Prelude.{
  ℕ, ◌+◌, ◌-◌, ◌*◌, ◌^◌, Bool, ◌||◌, List, [], ◌∷◌, ltb, leb, ◌&&◌, ◌==◌, if◌then◌else◌, min,
}

unfoldable pub digit : ℕ → ℕ
digit b =
    if leb b'0' b && leb b b'9'
    then b - b'0'
    else if leb b'a' b && leb b b'f'
    then b - b'a' + 10
    else if leb b'A' b && leb b b'F'
    then b - b'A' + 10
    else 99

unfoldable pub in_base : ℕ → ℕ → List ℕ → ℕ
in_base base acc [] = acc
in_base base acc (b ∷ bs) =
    let more = in_base base (acc * base + digit b) bs in if ltb (digit b) base then more else acc

unfoldable pub value : List ℕ → ℕ
value [] = 0
value (b ∷ []) = in_base 10 0 (b ∷ [])
value (b ∷ x ∷ bs) =
    if b == b'0' && (x == b'x' || x == b'X')
    then in_base 16 0 bs
    else if b == b'0'
    then in_base 8 0 (x ∷ bs)
    else in_base 10 0 (b ∷ x ∷ bs)

-- errno is set
unfoldable pub overflows : List ℕ → Bool
unfolding value
overflows text = ltb (2 ^ 64 - 1) (value text)

unfoldable pub strtoull : List ℕ → ℕ
unfolding value
strtoull text = min (value text) (2 ^ 64 - 1)
