-- ===== src/Compiler/Buffer/Grows.antt =====
-- `buf_add` appends all of a text, with room for the zero behind it.
use native.Mathlib.Nat.{pow-suc}
use tiny_cplus.Prelude.{
  ℕ, zero, suc, ◌+◌, ◌-◌, ◌*◌, ◌/◌, ◌%◌, ◌^◌, ◌<◌, ◌≤◌, ◌≡◌, refl, ap, Bool, false, Bool-cases, inl,
  inr, List, ◌++◌, ◌⊎◌, arith, length, length-append, ltb, leb, ltb→lt, ltb→ge, leb→le, ◌==◌,
  if◌then◌else◌, if_cases,
}
use tiny_cplus.Machine.{word, add_size, sub_size, mul_size}
use tiny_cplus.Compiler.Buffer.{
  Buffer, Growth, overflow, no_memory, ready, grown, room, buf_grow, put_in, buf_add,
}

-- The text and its zero are in the block, or nothing was added yet.
pub record IsBuffer (b : Buffer) : Type 0 where
  pub inside : (length b.bytes + 1 ≤ b.capacity) ⊎ ((b.capacity ≡ 0) × (length b.bytes ≡ 0))
  pub small : b.capacity < word

grown_lem :
    (fuel cap need : ℕ)
    → need ≤ cap * 2 ^ fuel
    → need < word
    → cap < word
    → (need ≤ grown fuel cap need) × (grown fuel cap need < word) × (cap ≤ grown fuel cap need)
unfolding grown mul_size
grown_lem zero cap need h n c = (omega arith, c, omega arith)
grown_lem (suc fuel) cap need h n c = elim (Bool-cases (ltb cap need)) [
  | inr stop ↦ rw (stop, grown) (ltb→ge cap need stop, c, omega arith)
  | inl more ↦ elim (Bool-cases (ltb ((word - 1) / 2) cap)) [
    | inl large ↦
        let lt = ltb→lt cap need more in rw (more, large, grown) (omega arith, n, omega arith)
    | inr fits ↦
        let ge = ltb→ge ((word - 1) / 2) cap fits in
        let e : cap * 2 % word ≡ cap * 2 = omega arith in
        let (enough, below, grew) =
          grown_lem fuel (cap * 2) need (omega (arith, h, ap (λ (t : ℕ). cap * t) (pow-suc 2 fuel)))
            n (omega arith) in
        rw (more, fits, e, grown) (enough, below, omega arith)
  ]
]

room_lem :
    (b : Buffer) (need : ℕ)
    → b.capacity < word
    → need < word
    → (need ≤ room b need) × (room b need < word) × (b.capacity ≤ room b need)
unfolding room
room_lem b need c n =
    let (enough, below, grew) =
      grown_lem 64 (if b.capacity == 0 then 256 else b.capacity) need (ground arith) n
        (ground arith) in
    (enough, below, ground arith)

-- How `buf_add` ends.
abbrev pub Adds : (ℕ → Bool) → Buffer → List ℕ → Growth → Type 0
Adds realloc b s overflow = word ≤ length b.bytes + length s + 1
Adds realloc b s no_memory = (n : ℕ) × (length b.bytes + length s + 1 ≤ n) × (realloc n ≡ false)
Adds realloc b s (ready c) =
    IsBuffer c
    × (c.bytes ≡ b.bytes ++ s)
    × (length c.bytes + 1 ≤ c.capacity)
    × (b.capacity ≤ c.capacity)

Adds-ready :
    (realloc : ℕ → Bool) (b : Buffer) (s : List ℕ) (cap : ℕ)
    → length b.bytes + length s + 1 ≤ cap
    → cap < word
    → b.capacity ≤ cap
    → Adds realloc b s (ready (record { bytes = b.bytes ++ s; capacity = cap }))
Adds-ready realloc b s cap h w c =
    let e = length-append b.bytes s in
    (record { inside = inl (omega (arith, e)); small = w }, refl, omega (arith, e), c)

short : (b : Buffer) → IsBuffer b → length b.bytes + 1 < word
short b v = ground (arith, v.inside, v.small)

guard : (len : ℕ) → len + 1 < word → sub_size (sub_size (word - 1) len) 1 ≡ word - 2 - len
unfolding sub_size
guard len h = omega arith

needed : (len n : ℕ) → len + n + 1 < word → add_size (add_size len n) 1 ≡ len + n + 1
unfolding add_size
needed len n h = omega arith

-- `buf_add` of a text on a sound buffer leaves with "buffer overflow" only where the text and the zero
-- behind it pass 2^64 - 1 bytes, and with "out of memory" only where realloc refuses a size that is
-- enough for them. Else the whole text stands behind what there was, with room for its zero, in a
-- sound buffer that is not smaller.
pub buf_add_lem :
    (realloc : ℕ → Bool) (b : Buffer) (s : List ℕ)
    → IsBuffer b
    → length s < word
    → Adds realloc b s (buf_add realloc b s)
unfolding buf_add buf_grow
buf_add_lem realloc b s v h =
    let len = length b.bytes in
    let n = length s in
    let g = guard len (short b v) in
    if_cases (λ o. Adds realloc b s (put_in s o)) (ltb (sub_size (sub_size (word - 1) len) 1) n)
      (λ e. let lt = ltb→lt _ n e in omega (arith, g, lt, short b v))
      (λ e.
        let all : len + n + 1 < word = (let ge = ltb→ge _ n e in omega (arith, g, ge, short b v)) in
        let (enough, below, grew) = room_lem b (len + n + 1) v.small all in
        rw (needed len n all) (
          if_cases (λ o. Adds realloc b s (put_in s o)) (leb (len + n + 1) b.capacity)
            (λ k. Adds-ready realloc b s b.capacity (leb→le _ _ k) v.small (omega arith))
            (λ k.
              if_cases (λ o. Adds realloc b s (put_in s o)) (realloc (room b (len + n + 1)))
                (λ _. Adds-ready realloc b s (room b (len + n + 1)) enough below grew)
                (λ r. (room b (len + n + 1), enough, r)))))
