-- ===== src/Machine/Block.antt =====
-- A block of memory is the function from offsets to its bytes; the routines that use it keep the
-- capacity beside it, and their invariants keep every offset inside it.
use tiny_cplus.Prelude.{
  ℕ, zero, suc, ◌+◌, ◌-◌, ◌<◌, ◌≤◌, ◌≡◌, refl, ap, sym, ◌∙◌, ◌⊎◌, inl, inr, ◌&&◌, List, [], ◌∷◌,
  ◌++◌, Option, arith, leb, ltb, if◌then◌else◌, length, get_or, get_or-append_right, take, drop,
  take-append, drop-append,
}
use mathlib.Core.Path.{ap₂}

abbrev pub Block : Type 0
Block = ℕ → ℕ

-- What the C allocator answers to a request of so many bytes: NULL, or a block.
abbrev pub Malloc : Type 0
Malloc = ℕ → Option Block

-- memcpy(d + dst, s + src, n); memmove is the case of one block.
unfoldable pub copy_block : Block → ℕ → Block → ℕ → ℕ → Block
copy_block d dst s src n i = if leb dst i && ltb i (dst + n) then s (src + (i - dst)) else d i

-- memcpy(d + dst, bytes, length bytes)
unfoldable pub copy_bytes : Block → ℕ → List ℕ → Block
copy_bytes d dst bytes i =
    if leb dst i && ltb i (dst + length bytes) then get_or bytes (i - dst) 0 else d i

-- The `n` bytes from offset `lo` on.
unfoldable pub read : Block → ℕ → ℕ → List ℕ
read m lo zero = []
read m lo (suc n) = m lo ∷ read m (lo + 1) n

pub length-read : (m : Block) (lo n : ℕ) → length (read m lo n) ≡ n
unfolding read
length-read m lo zero = refl
length-read m lo (suc n) = ap suc (length-read m (lo + 1) n)

-- Blocks that agree on a range read the same there.
pub read_congr :
    (m m' : Block) (lo lo' n : ℕ)
    → ((i : ℕ) → i < n → m (lo + i) ≡ m' (lo' + i))
    → read m lo n ≡ read m' lo' n
unfolding read
read_congr m m' lo lo' zero h = refl
read_congr m m' lo lo' (suc n) h =
    ap₂ ◌∷◌ (ground (arith, h 0))
      (read_congr m m' (lo + 1) (lo' + 1) n (λ i lt. ground (arith, h (suc i))))

pub read-append : (m : Block) (lo n k : ℕ) → read m lo (n + k) ≡ read m lo n ++ read m (lo + n) k
unfolding read
read-append m lo zero k =
    let e : zero + k ≡ k = omega arith in rw e (ap (λ j. read m j k) (omega arith))
read-append m lo (suc n) k =
    let e : suc n + k ≡ suc (n + k) = omega arith in
    let e' : lo + suc n ≡ lo + 1 + n = omega arith in
    rw (e, e') (ap (◌∷◌ (m lo)) (read-append m (lo + 1) n k))

pub get_or-read : (m : Block) (lo n i : ℕ) → i < n → get_or (read m lo n) i 0 ≡ m (lo + i)
unfolding read
get_or-read m lo zero i h = absurd (omega arith)
get_or-read m lo (suc n) zero h = ap m (omega arith)
get_or-read m lo (suc n) (suc i) h = get_or-read m (lo + 1) n i (omega arith) ∙ ap m (omega arith)

-- The copied range reads as its source did.
pub read-copy_block :
    (d : Block) (dst : ℕ) (s : Block) (src n : ℕ)
    → read (copy_block d dst s src n) dst n ≡ read s src n
unfolding copy_block
read-copy_block d dst s src n =
    read_congr _ s dst src n
      (λ i lt. ground (arith, ap s {x = src + (dst + i - dst)} {y = src + i} (omega arith)))

-- A range that the copy does not meet reads as before.
pub read-copy_block_apart :
    (d : Block) (dst : ℕ) (s : Block) (src n lo k : ℕ)
    → (lo + k ≤ dst) ⊎ (dst + n ≤ lo)
    → read (copy_block d dst s src n) lo k ≡ read d lo k
unfolding copy_block
read-copy_block_apart d dst s src n lo k (inl h) = read_congr _ d lo lo k (λ i lt. ground arith)
read-copy_block_apart d dst s src n lo k (inr h) = read_congr _ d lo lo k (λ i lt. ground arith)

pub read_of_list : (bytes : List ℕ) → read (λ i. get_or bytes i 0) 0 (length bytes) ≡ bytes
unfolding read
read_of_list [] = refl
read_of_list (b ∷ bytes) = ap (◌∷◌ b) (
    read_congr (λ i. get_or (b ∷ bytes) i 0) (λ i. get_or bytes i 0) (0 + 1) 0 (length bytes)
      (λ i lt. get_or-append_right (b ∷ []) bytes (0 + 1 + i) (0 + i) 0 (omega arith))
    ∙ read_of_list bytes)

pub read-copy_bytes :
    (d : Block) (dst : ℕ) (bytes : List ℕ)
    → read (copy_bytes d dst bytes) dst (length bytes) ≡ bytes
unfolding copy_bytes
read-copy_bytes d dst bytes =
    read_congr _ (λ i. get_or bytes i 0) dst 0 (length bytes)
      (λ i lt.
        ground (arith, ap (λ j. get_or bytes j 0) {x = dst + i - dst} {y = 0 + i} (omega arith)))
    ∙ read_of_list bytes

pub read-copy_bytes_apart :
    (d : Block) (dst : ℕ) (bytes : List ℕ) (lo k : ℕ)
    → (lo + k ≤ dst) ⊎ (dst + length bytes ≤ lo)
    → read (copy_bytes d dst bytes) lo k ≡ read d lo k
unfolding copy_bytes
read-copy_bytes_apart d dst bytes lo k (inl h) = read_congr _ d lo lo k (λ i lt. ground arith)
read-copy_bytes_apart d dst bytes lo k (inr h) = read_congr _ d lo lo k (λ i lt. ground arith)

pub take-read : (m : Block) (lo k n : ℕ) → n ≤ k → take n (read m lo k) ≡ read m lo n
take-read m lo k n h =
    ap (λ j. take n (read m lo j)) {x = k} {y = n + (k - n)} (omega arith)
    ∙ ap (take n) (read-append m lo n (k - n))
    ∙ take-append (read m lo n) (read m (lo + n) (k - n)) n (sym (length-read m lo n))

pub drop-read : (m : Block) (lo k n : ℕ) → n ≤ k → drop n (read m lo k) ≡ read m (lo + n) (k - n)
drop-read m lo k n h =
    ap (λ j. drop n (read m lo j)) {x = k} {y = n + (k - n)} (omega arith)
    ∙ ap (drop n) (read-append m lo n (k - n))
    ∙ drop-append (read m lo n) (read m (lo + n) (k - n)) n (sym (length-read m lo n))

-- Reading a list byte by byte gives its slices.
pub read-get_or :
    (l : List ℕ) (lo n : ℕ) → lo + n ≤ length l → read (λ i. get_or l i 0) lo n ≡ take n (drop lo l)
read-get_or l lo n h = sym (
    ap (λ k. take n (drop lo k)) (sym (read_of_list l))
    ∙ ap (take n) (drop-read (λ i. get_or l i 0) 0 (length l) lo (omega arith))
    ∙ take-read (λ i. get_or l i 0) (0 + lo) (length l - lo) n (omega arith)
    ∙ ap (λ k. read (λ i. get_or l i 0) k n) {x = 0 + lo} {y = lo} (omega arith))
