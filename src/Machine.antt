-- ===== src/Machine.antt =====
-- The parts of C that the runtime stands on: size_t arithmetic, blocks of bytes, memcpy and
-- memmove, the allocator, and the TinyString of runtime/tiny_runtime.h.
pub mod Bits
pub mod Block
use tiny_cplus.Prelude.{ℕ, ◌+◌, ◌-◌, ◌*◌, ◌%◌, ◌^◌, ◌<◌, ◌≤◌, ◌≡◌, arith}

abbrev pub word : ℕ
word = 2 ^ 64

-- size_t arithmetic wraps at 2^64.
unfoldable pub add_size : ℕ → ℕ → ℕ
add_size a b = (a + b) % word

unfoldable pub sub_size : ℕ → ℕ → ℕ
sub_size a b = (a + word - b) % word

unfoldable pub mul_size : ℕ → ℕ → ℕ
mul_size a b = a * b % word

pub add_size-eq : (a b : ℕ) → a + b < word → add_size a b ≡ a + b
unfolding add_size
add_size-eq a b h = omega arith

pub sub_size-eq : (a b : ℕ) → b ≤ a → a < word → sub_size a b ≡ a - b
unfolding sub_size
sub_size-eq a b h k = omega arith
