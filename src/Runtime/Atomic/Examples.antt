-- ===== src/Runtime/Atomic/Examples.antt =====
-- Two additions to an atomic.
use tiny_cplus.Prelude.{◌≡◌, refl, true, some, List, [], ◌∷◌}
use tiny_cplus.Prelude.Int.{ℤ, pos, negsuc}
use tiny_cplus.Machine.{add_size}
use tiny_cplus.Runtime.Atomic.{Atomic, to_uint64, to_int64, create, load, store, add, add_all}

abbrev five : Atomic
five = record { value = pos 5 }

abbrev changes : List ℤ
changes = negsuc 6 ∷ pos 1 ∷ []

test_add : (add_all changes five).1 ≡ record { value = negsuc 0 }
unfolding add to_int64 to_uint64 add_size
test_add = refl

test_store : load (store (pos 9) five) ≡ pos 9
unfolding load store
test_store = refl

test_create : create true (pos 5) ≡ some five
unfolding create
test_create = refl
