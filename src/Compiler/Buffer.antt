-- ===== src/Compiler/Buffer.antt =====
-- compiler/util.c: the buffer that the generated code is written into.
pub mod Grows
use tiny_cplus.Prelude.{
  ℕ, zero, suc, ◌-◌, ◌/◌, ◌^◌, Bool, true, false, List, [], ◌++◌, ltb, leb, ◌==◌, if◌then◌else◌,
  length,
}
use tiny_cplus.Machine.{word, add_size, sub_size, mul_size}

-- `Buffer`: `bytes` is data[0 .. len); once something was added, a zero follows.
pub record Buffer : Type 0 where
  pub bytes : List ℕ
  pub capacity : ℕ

-- The messages with which the process exits, or the buffer.
pub data Growth : Type 0 where
  overflow no_memory : Growth
  ready : Buffer → Growth

-- The loop over `cap`, on fuel
unfoldable pub grown : ℕ → ℕ → ℕ → ℕ
grown zero cap need = cap
grown (suc fuel) cap need = elim (ltb cap need) [
  | true ↦ elim (ltb ((word - 1) / 2) cap) [
    | true ↦ need
    | false ↦ grown fuel (mul_size cap 2) need
  ]
  | false ↦ cap
]

-- From 1 on, 64 doublings reach any size.
unfoldable pub room : Buffer → ℕ → ℕ
room b need = grown 64 (if b.capacity == 0 then 256 else b.capacity) need

-- `realloc` says whether it grants so many bytes; it keeps what was there.
unfoldable pub buf_grow : (ℕ → Bool) → Buffer → ℕ → Growth
buf_grow realloc b n =
    let need = add_size (add_size (length b.bytes) n) 1 in
    if ltb (sub_size (sub_size (word - 1) (length b.bytes)) 1) n
    then overflow
    else if leb need b.capacity
    then ready b
    else if realloc (room b need)
    then ready (record b { capacity = room b need })
    else no_memory

abbrev pub put_in : List ℕ → Growth → Growth
put_in s overflow = overflow
put_in s no_memory = no_memory
put_in s (ready b) = ready (record b { bytes = b.bytes ++ s })

-- The bytes of the text before its zero
unfoldable pub buf_add : (ℕ → Bool) → Buffer → List ℕ → Growth
buf_add realloc b s = put_in s (buf_grow realloc b (length s))
