-- ===== src/Runtime/Grpc/Packed.antt =====
-- The frame around a message is taken off again.
use mathlib.Core.Path.{subst}
use tiny_cplus.Prelude.{
  ℕ, ◌+◌, ◌*◌, ◌/◌, ◌%◌, ◌^◌, ◌<◌, ◌≤◌, ◌≡◌, refl, sym, ap, ◌∙◌, ◌↔◌, Bool, true, false, ◌||◌, not,
  List, [], ◌∷◌, ◌++◌, length, length-append, ltb, ◌==◌, if_cases, arith,
}
use tiny_cplus.Runtime.Protobuf.Utf8.{Bytes}
use tiny_cplus.Runtime.Grpc.{limit}
use tiny_cplus.Runtime.Grpc.Message.{Buffer, buffer_add, header, pack, size_field, unpack}
use tiny_cplus.Runtime.Grpc.Frame.{IsSound, too_long, no_memory, appended, buffer_add-Adds}

abbrev pub frame : List ℕ → List ℕ
frame text = header (length text) ++ text

abbrev pub Ample : (ℕ → Bool) → Type 0
Ample realloc = (n : ℕ) → realloc n ≡ true

-- With memory enough, what fits is appended.
pub add-Ample :
    (realloc : ℕ → Bool) (b : Buffer) (text : List ℕ)
    → Ample realloc
    → IsSound b
    → length b.bytes + length text ≤ limit + 5
    → ((buffer_add realloc b text).0 ≡ false)
      × ((buffer_add realloc b text).1.bytes ≡ b.bytes ++ text)
      × IsSound (buffer_add realloc b text).1
add-Ample realloc b text m s l = elim (buffer_add-Adds realloc b text s (omega arith)) [
  | too_long h e ↦ absurd (omega arith)
  | no_memory n h e f ↦ absurd (cc (sym (m n) ∙ e))
  | appended h e f g ↦ (e, f, g)
]

length-header : (n : ℕ) → length (header n) ≡ 5
unfolding header
length-header n = refl

pub length-frame : (text : List ℕ) → length (frame text) ≡ 5 + length text
length-frame text =
    omega (arith, length-append (header (length text)) text, length-header (length text))

pub pack-frame :
    (realloc : ℕ → Bool) (b : Buffer) (text : List ℕ)
    → Ample realloc
    → IsSound b
    → b.bytes ≡ []
    → length text ≤ limit
    → ((pack realloc b text).0 ≡ false)
      × ((pack realloc b text).1.bytes ≡ frame text)
      × IsSound (pack realloc b text).1
unfolding pack
pack-frame realloc b text m s e l =
    let start : length b.bytes ≡ 0 = ap length e in
    let (f, g, h) =
      add-Ample realloc b (header (length text)) m s (omega (arith, length-header (length text))) in
    let begun : (buffer_add realloc b (header (length text))).1.bytes ≡ header (length text) =
      g ∙ ap (λ z. z ++ header (length text)) e in
    let (f', g', h') =
      add-Ample realloc (buffer_add realloc b (header (length text))).1 text m h
        (omega (arith, ap length begun, length-header (length text))) in
    let small : ltb limit (length text) ≡ false = ground arith in
    rw (small, f) (f', g' ∙ ap (λ z. z ++ text) begun, h')

size_field-fields :
    (n : ℕ)
    → n < 2 ^ 32
    → size_field (n / 2 ^ 24 % 256) (n / 2 ^ 16 % 256) (n / 2 ^ 8 % 256) (n % 256) ≡ n
unfolding size_field
size_field-fields n h = omega arith

pub unpack-frame : (text : List ℕ) → length text ≤ limit → unpack (frame text) ≡ (0, text)
unfolding unpack header
unpack-frame text l =
    let small : ltb limit (length text) ≡ false = ground arith in
    let same_size : (length text + 5 == length text + 5) ≡ true = ground arith in
    rw (size_field-fields (length text) (omega arith), small, same_size) refl

-- What a buffer that `tc_grpc_unpack` accepts holds
unpack-Framed :
    (bytes text : List ℕ)
    → Bytes bytes
    → unpack bytes ≡ (0, text)
    → (bytes ≡ frame text) × (length text ≤ limit)
unfolding unpack header size_field
unpack-Framed [] text h e = absurd (cc e)
unpack-Framed (a ∷ []) text h e = absurd (cc e)
unpack-Framed (a ∷ b ∷ []) text h e = absurd (cc e)
unpack-Framed (a ∷ b ∷ c ∷ []) text h e = absurd (cc e)
unpack-Framed (a ∷ b ∷ c ∷ d ∷ []) text h e = absurd (cc e)
unpack-Framed (f ∷ a ∷ b ∷ c ∷ d ∷ more) text (hf, (ha, (hb, (hc, (hd, hm))))) e =
    if_cases (λ r. r ≡ (0, text) → (f ∷ a ∷ b ∷ c ∷ d ∷ more ≡ frame text) × (length text ≤ limit))
      (not (f == 0)) (λ x k. absurd (cc k))
      (λ x.
        if_cases
          (λ r. r ≡ (0, text) → (f ∷ a ∷ b ∷ c ∷ d ∷ more ≡ frame text) × (length text ≤ limit))
          (ltb limit (size_field a b c d) || not (length more + 5 == size_field a b c d + 5))
          (λ y k. absurd (cc k))
          (λ y k.
            let same_text : more ≡ text = cc k in
            let zero_flag : f ≡ 0 = ground arith in
            let size : length more ≡ a * 2 ^ 24 + b * 2 ^ 16 + c * 2 ^ 8 + d = ground arith in
            let within : length more ≤ limit = ground arith in
            let field_1 : a ≡ length more / 2 ^ 24 % 256 = omega arith in
            let field_2 : b ≡ length more / 2 ^ 16 % 256 = omega arith in
            let field_3 : c ≡ length more / 2 ^ 8 % 256 = omega arith in
            let field_4 : d ≡ length more % 256 = omega arith in
            let whole : f ∷ a ∷ b ∷ c ∷ d ∷ more ≡ frame more =
              cc (zero_flag, field_1, field_2, field_3, field_4) in
            (whole ∙ ap frame same_text, subst (λ t. length t ≤ limit) same_text within)))
      e

-- `tc_grpc_unpack` accepts a buffer of bytes with a message exactly where the message is within the
-- limit and the buffer holds its frame and nothing else.
pub unpack_lem :
    (bytes text : List ℕ)
    → Bytes bytes
    → (unpack bytes ≡ (0, text)) ↔ ((bytes ≡ frame text) × (length text ≤ limit))
unpack_lem bytes text h = (unpack-Framed bytes text h, λ (e, l). ap unpack e ∙ unpack-frame text l)
