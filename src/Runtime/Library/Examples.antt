-- ===== src/Runtime/Library/Examples.antt =====
-- Strings of a few bytes.
use tiny_cplus.Prelude.{◌≡◌, refl, true, false, none, some, ltb}
use tiny_cplus.Prelude.Int.{pos, negsuc}
use tiny_cplus.Prelude.Text.{codes, same}
use tiny_cplus.Runtime.Library.{
  has_zero, cstring, string_copy, string_concat, ends_with, find_from, string_find, string_equal,
  checked_index, slice_fits,
}

test_found : string_find (codes "banana") (codes "nan") ≡ pos 2
unfolding string_find find_from same
test_found = refl

test_missing : string_find (codes "banana") (codes "nab") ≡ negsuc 0
unfolding string_find find_from same
test_missing = refl

test_ends : ends_with (codes "a.tc") (codes ".tc") ≡ true
unfolding ends_with same
test_ends = refl

test_concat : string_concat (λ n. ltb n 8) (codes "ab") (codes "cd") ≡ some (codes "abcd")
unfolding string_concat
test_concat = refl

test_memory : string_copy (λ n. ltb n 2) (codes "abc") ≡ none
unfolding string_copy
test_memory = refl

test_zero : cstring (λ n. true) (codes "a\0") ≡ none
unfolding cstring has_zero
test_zero = refl

test_equal : string_equal (codes "ab") (codes "abc") ≡ false
unfolding string_equal
test_equal = refl

test_index : checked_index (negsuc 0) 4 ≡ none
unfolding checked_index
test_index = refl

test_slice : slice_fits (pos 1) (pos 4) 4 ≡ true
unfolding slice_fits
test_slice = refl
