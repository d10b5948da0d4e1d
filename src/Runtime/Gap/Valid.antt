-- ===== src/Runtime/Gap/Valid.antt =====
-- The representation invariant of the gap buffer, and the text that it stands for.
use tiny_cplus.Prelude.{
  ℕ, ◌+◌, ◌-◌, ◌*◌, ◌<◌, ◌≤◌, ◌≡◌, sym, ap, ◌∙◌, List, ◌++◌, arith, length, get_or, take, drop,
  length-append, get_or-append_left, get_or-append_right, Bool-cases, inl, inr, ltb, ltb→lt, ltb→ge,
  true, false,
}
use tiny_cplus.Machine.{add_size, sub_size}
use tiny_cplus.Machine.Block.{read, length-read, get_or-read, read_congr, read-get_or}
use tiny_cplus.Runtime.Gap.{Gap, limit, size, byte}

pub record IsValid (g : Gap) : Type 0 where
  pub gap : g.start ≤ g.stop
  pub inside : g.stop ≤ g.capacity
  pub small : g.capacity ≤ 2 * limit
  pub short : g.start + (g.capacity - g.stop) ≤ limit

-- The bytes before the cursor, and those behind it.
abbrev pub before : Gap → List ℕ
before g = read g.block 0 g.start

abbrev pub after : Gap → List ℕ
after g = read g.block g.stop (g.capacity - g.stop)

abbrev pub contents : Gap → List ℕ
contents g = before g ++ after g

pub length-contents : (g : Gap) → length (contents g) ≡ g.start + (g.capacity - g.stop)
length-contents g = omega (
  arith,
  length-append (before g) (after g),
  length-read g.block 0 g.start,
  length-read g.block g.stop (g.capacity - g.stop),
)

-- The arithmetic of the size does not wrap.
pub size-eq : (g : Gap) → IsValid g → size g ≡ g.start + (g.capacity - g.stop)
unfolding size add_size sub_size
size-eq g v = omega arith

pub size-length : (g : Gap) → IsValid g → size g ≡ length (contents g)
size-length g v = size-eq g v ∙ sym (length-contents g)

byte_low : (g : Gap) (p : ℕ) → ltb p g.start ≡ true → byte g p ≡ g.block (0 + p)
unfolding byte
byte_low g p low = rw (low, byte) (ap g.block (omega arith))

byte_high :
    (g : Gap) (p : ℕ)
    → IsValid g
    → p < length (contents g)
    → ltb p g.start ≡ false
    → byte g p ≡ g.block (g.stop + (p - g.start))
unfolding byte add_size sub_size
byte_high g p v h high =
    rw (high, byte) (ap g.block (omega (arith, length-contents g, ltb→ge p g.start high)))

-- `tc_gap_byte` reads the byte of the text at that position.
pub byte-contents :
    (g : Gap) (p : ℕ) → IsValid g → p < length (contents g) → byte g p ≡ get_or (contents g) p 0
byte-contents g p v h = elim (Bool-cases (ltb p g.start)) [
  | inl low ↦
      byte_low g p low
      ∙ sym (
          get_or-append_left (before g) (after g) p 0
            (omega (arith, length-read g.block 0 g.start, ltb→lt p g.start low))
          ∙ get_or-read g.block 0 g.start p (ltb→lt p g.start low))
  | inr high ↦
      byte_high g p v h high
      ∙ sym (
          get_or-append_right (before g) (after g) p (p - g.start) 0
            (omega (arith, length-read g.block 0 g.start, ltb→ge p g.start high))
          ∙ get_or-read g.block g.stop (g.capacity - g.stop) (p - g.start)
              (omega (arith, length-contents g, ltb→ge p g.start high)))
]

pub read-byte :
    (g : Gap) (lo n : ℕ)
    → IsValid g
    → lo + n ≤ length (contents g)
    → read (byte g) lo n ≡ take n (drop lo (contents g))
read-byte g lo n v h =
    read_congr (byte g) (λ i. get_or (contents g) i 0) lo lo n
      (λ i lt. byte-contents g (lo + i) v (omega arith))
    ∙ read-get_or (contents g) lo n h
