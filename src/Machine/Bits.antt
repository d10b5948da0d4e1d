-- ===== src/Machine/Bits.antt =====
-- C's `&`, `|` and `^` on unsigned words are the native bit operations; here is what they come to
-- on masks and on fields that do not overlap.
use Prim.Native.Nat.{max, digits, bit_and, bit_or, bit_and-bitwise, bit_or-bitwise}
use native.Mathlib.Nat.{pow-suc, one-le-pow, le_refl, div-add-mod}
use tiny_cplus.Prelude.{
  ℕ, zero, suc, ◌+◌, ◌-◌, ◌*◌, ◌/◌, ◌%◌, ◌^◌, ◌<◌, ◌≤◌, ◌≡◌, refl, ap, ◌∙◌, arith, min,
}

-- More fuel than the number needs changes no digit.
module _ (rest : ℕ → ℕ) (bit : ℕ → ℕ → ℕ) where
  more_fuel :
      (need given a b : ℕ)
      → a ≤ need
      → need ≤ given
      → digits rest bit given a b ≡ digits rest bit need a b
  more_fuel zero zero zero b h k = refl
  more_fuel zero (suc given) zero b h k = refl
  more_fuel zero _ (suc a) b h k = absurd (omega arith)
  more_fuel (suc need) zero a b h k = absurd (omega arith)
  more_fuel (suc need) (suc given) zero b h k = refl
  more_fuel (suc need) (suc given) (suc a) b h k =
      ap (λ d. d * 2 + bit (suc a % 2) (b % 2))
        (more_fuel need given (suc a / 2) (b / 2) (omega arith) (omega arith))

-- The lowest digit apart from the others.
pub bit_or-halves : (a b : ℕ) → bit_or a b ≡ bit_or (a / 2) (b / 2) * 2 + max (a % 2) (b % 2)
bit_or-halves zero b = omega (arith, bit_or-bitwise 0 b, bit_or-bitwise (0 / 2) (b / 2))
bit_or-halves (suc a) b = omega (
  arith,
  bit_or-bitwise (suc a) b,
  bit_or-bitwise (suc a / 2) (b / 2),
  more_fuel (λ y. y) max (suc a / 2) a (suc a / 2) (b / 2) (omega arith) (omega arith),
)

pub bit_and-halves : (a b : ℕ) → bit_and a b ≡ bit_and (a / 2) (b / 2) * 2 + min (a % 2) (b % 2)
bit_and-halves zero b = omega (arith, bit_and-bitwise 0 b, bit_and-bitwise (0 / 2) (b / 2))
bit_and-halves (suc a) b = omega (
  arith,
  bit_and-bitwise (suc a) b,
  bit_and-bitwise (suc a / 2) (b / 2),
  more_fuel (λ y. 0) min (suc a / 2) a (suc a / 2) (b / 2) (omega arith) (omega arith),
)

-- Zero on the right, for numbers below a bound that the recursion halves.
or_zero_below : (n a : ℕ) → a ≤ n → bit_or a 0 ≡ a
or_zero_below n zero h = refl
or_zero_below zero (suc a) h = absurd (omega arith)
or_zero_below (suc n) (suc a) h =
    omega (arith, bit_or-halves (suc a) 0, or_zero_below n (suc a / 2) (omega arith))

and_zero_below : (n a : ℕ) → a ≤ n → bit_and a 0 ≡ 0
and_zero_below n zero h = refl
and_zero_below zero (suc a) h = absurd (omega arith)
and_zero_below (suc n) (suc a) h =
    omega (arith, bit_and-halves (suc a) 0, and_zero_below n (suc a / 2) (omega arith))

-- Multiples of a higher power of two shift down by one digit.
half_multiple : (high k : ℕ) → high * 2 ^ suc k ≡ high * 2 ^ k * 2
half_multiple high k = omega (arith, ap (λ (t : ℕ). high * t) (pow-suc 2 k))

-- `low | high << k` is a sum where `low` has no more than k bits.
pub bit_or-disjoint :
    (k low high : ℕ) → low < 2 ^ k → bit_or low (high * 2 ^ k) ≡ low + high * 2 ^ k
bit_or-disjoint zero low high h =
    let e : low ≡ 0 = omega arith in rw e (bit_or-bitwise 0 (high * 1) ∙ omega arith)
bit_or-disjoint (suc k) low high h = ground (
  arith,
  half_multiple high k,
  pow-suc 2 k,
  bit_or-halves low (high * 2 ^ suc k),
  bit_or-disjoint k (low / 2) high (omega (arith, pow-suc 2 k)),
)

and_fields : (k low high : ℕ) → low < 2 ^ k → bit_and (low + high * 2 ^ k) (2 ^ k - 1) ≡ low
and_fields zero low high h = and_zero_below _ (low + high * 1) (le_refl _) ∙ omega arith
and_fields (suc k) low high h = ground (
  arith,
  half_multiple high k,
  pow-suc 2 k,
  one-le-pow k 2,
  bit_and-halves (low + high * 2 ^ suc k) (2 ^ suc k - 1),
  and_fields k (low / 2) high (omega (arith, pow-suc 2 k)),
)

-- A mask of k ones keeps the remainder by 2^k.
pub bit_and-mask : (k a : ℕ) → bit_and a (2 ^ k - 1) ≡ a % 2 ^ k
bit_and-mask k a =
    ground (arith, one-le-pow k 2, div-add-mod a (2 ^ k), and_fields k (a % 2 ^ k) (a / 2 ^ k))

-- A mask whose low k bits are 0 reads only what stands above them.
pub bit_and-above :
    (k low high m : ℕ)
    → low < 2 ^ k
    → bit_and (low + high * 2 ^ k) (m * 2 ^ k) ≡ bit_and high m * 2 ^ k
bit_and-above zero low high m h =
    let e : low + high * 1 ≡ high = omega arith in
    let e' : m * 1 ≡ m = omega arith in rw (e, e') (omega arith)
bit_and-above (suc k) low high m h = ground (
  arith,
  half_multiple high k,
  half_multiple m k,
  half_multiple (bit_and high m) k,
  pow-suc 2 k,
  bit_and-halves (low + high * 2 ^ suc k) (m * 2 ^ suc k),
  bit_and-above k (low / 2) high m (omega (arith, pow-suc 2 k)),
)

or_comm_below : (n a b : ℕ) → a ≤ n → b ≤ n → bit_or a b ≡ bit_or b a
or_comm_below n zero zero h k = refl
or_comm_below zero (suc a) b h k = absurd (omega arith)
or_comm_below zero zero (suc b) h k = absurd (omega arith)
or_comm_below (suc n) a b h k = omega (
  arith,
  bit_or-halves a b,
  bit_or-halves b a,
  or_comm_below n (a / 2) (b / 2) (omega arith) (omega arith),
)

pub bit_or_comm : (a b : ℕ) → bit_or a b ≡ bit_or b a
bit_or_comm a b = or_comm_below (a + b) a b (omega arith) (omega arith)
