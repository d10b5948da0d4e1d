-- ===== src/Runtime/Library.antt =====
-- runtime/library.c and runtime/tiny_runtime.h: strings, and the checks of indices. A TinyString is the
-- list of its bytes, whose data is NULL only where it is empty; a result without data is none.
pub mod Strings
pub mod Examples
use Prim.Native.Nat.{bit_xor}
use tiny_cplus.Prelude.{
  ℕ, ◌+◌, ◌-◌, ◌/◌, ◌%◌, ◌^◌, Bool, true, false, ◌&&◌, ◌||◌, not, Option, none, some, List, [], ◌∷◌,
  ◌++◌, length, take, drop, ltb, leb, ◌==◌, if◌then◌else◌,
}
use tiny_cplus.Prelude.Int.{ℤ, pos, negsuc, ltb_ℤ, pos_part}
use tiny_cplus.Prelude.Text.{same}
use tiny_cplus.Machine.{word, mul_size}

-- memchr(s.data, 0, s.length)
unfoldable pub has_zero : List ℕ → Bool
has_zero [] = false
has_zero (c ∷ cs) = c == 0 || has_zero cs

-- `tc_cstring`, where `malloc` is whether there are so many bytes
unfoldable pub cstring : (ℕ → Bool) → List ℕ → Option (List ℕ)
cstring malloc s =
    if length s == word - 1 || has_zero s
    then none
    else if malloc (length s + 1)
    then some (s ++ 0 ∷ [])
    else none

-- `tc_string_copy`
unfoldable pub string_copy : (ℕ → Bool) → List ℕ → Option (List ℕ)
string_copy malloc source =
    if length source == word - 1
    then none
    else if malloc (length source + 1)
    then some source
    else none

-- `tc_string_concat`
unfoldable pub string_concat : (ℕ → Bool) → List ℕ → List ℕ → Option (List ℕ)
string_concat malloc a b =
    if leb (word - 1 - length a) (length b)
    then none
    else if malloc (length a + length b + 1)
    then some (a ++ b)
    else none

-- `tc_string_starts`
unfoldable pub starts_with : List ℕ → List ℕ → Bool
starts_with text prefix =
    leb (length prefix) (length text) && same (take (length prefix) text) prefix

-- `tc_string_ends`
unfoldable pub ends_with : List ℕ → List ℕ → Bool
ends_with text suffix =
    leb (length suffix) (length text) && same (drop (length text - length suffix) text) suffix

-- The loop of `tc_string_find` from i on, where `text` is what is left of the haystack
unfoldable pub find_from : ℕ → List ℕ → List ℕ → ℤ
find_from i needle [] = if length needle == 0 then pos i else negsuc 0
find_from i needle (c ∷ text) =
    let rest = find_from (i + 1) needle text in
    if ltb (length (c ∷ text)) (length needle)
    then negsuc 0
    else if same (take (length needle) (c ∷ text)) needle
    then pos i
    else rest

-- `tc_string_find`
unfoldable pub string_find : List ℕ → List ℕ → ℤ
string_find haystack needle =
    if ltb (length haystack) (length needle) then negsuc 0 else find_from 0 needle haystack

-- `tc_string_equal`
unfoldable pub string_equal : List ℕ → List ℕ → Bool
string_equal a b = length a == length b && same a b

-- `tc_index`; none where it ends the process
unfoldable pub checked_index : ℤ → ℕ → Option ℕ
checked_index i n = if ltb_ℤ i (pos 0) || leb n (pos_part i) then none else some (pos_part i)

-- `tc_slice_check`: whether it lets the program go on
unfoldable pub slice_fits : ℤ → ℤ → ℕ → Bool
slice_fits lo hi n = not (ltb_ℤ lo (pos 0) || ltb_ℤ hi lo || ltb n (pos_part hi))

-- `tc_hash_u64`
unfoldable pub hash_word : ℕ → ℕ
hash_word x =
    let a = mul_size (bit_xor x (x / 2 ^ 30)) 13787848793156543929 in
    let b = mul_size (bit_xor a (a / 2 ^ 27)) 10723151780598845931 in bit_xor b (b / 2 ^ 31)

-- The loop of `tc_hash_string`
unfoldable pub hash_bytes : ℕ → List ℕ → ℕ
hash_bytes h [] = h
hash_bytes h (c ∷ cs) = hash_bytes (mul_size (bit_xor h c) 1099511628211) cs

-- `tc_hash_string`
unfoldable pub hash_string : List ℕ → ℕ
hash_string s = hash_word (hash_bytes 14695981039346656037 s)
