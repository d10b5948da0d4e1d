-- ===== src/Compiler/Loop.antt =====
-- How the parts of the compiler end, and their loops. `stuck` is a loop whose fuel has run out.
use tiny_cplus.Prelude.{ℕ, zero, suc, ◌<◌, List, ◌⊎◌, inl, inr, arith}

-- `Loc`, less the file's name, which is the same in every token
pub record Loc : Type 0 where
  pub line : ℕ
  pub col : ℕ

-- The messages that the lexer and the parser give to tc_error, which does not return.
pub data Fault : Type 0 where
  token_limit out_of_memory unterminated_comment hex_digits exponent_digits numeric_suffix : Fault
  newline_in_literal hex_escape unterminated_literal one_character : Fault
  unsupported_escape unexpected_byte : ℕ → Fault
  unexpected_eof expected_identifier nesting_limit one_slice_type array_integer : Fault
  array_length expected_expression unterminated_block unterminated_switch : Fault
  second_default expected_case enum_integer enum_range destructor_name expected_c : Fault
  expected duplicate_type unknown_annotation : List ℕ → Fault

pub data Result {ℓ} (A : Type ℓ) : Type ℓ where
  stuck : Result A
  error : Loc → Fault → Result A
  ok : A → Result A

abbrev pub and_then {ℓ κ} : {A : Type ℓ} {B : Type κ} → Result A → (A → Result B) → Result B
and_then stuck f = stuck
and_then (error l e) f = error l e
and_then (ok a) f = f a

-- What the body of a loop gives is the next state, or what the loop ends with.
abbrev pub resume {ℓ κ} : {A : Type ℓ} {B : Type κ} → (A → Result B) → Result (A ⊎ B) → Result B
resume loop stuck = stuck
resume loop (error l e) = error l e
resume loop (ok (inl a)) = loop a
resume loop (ok (inr b)) = ok b

-- A loop, on fuel.
abbrev pub iterate {ℓ κ} : {A : Type ℓ} {B : Type κ} → (A → Result (A ⊎ B)) → ℕ → A → Result B
iterate body zero a = stuck
iterate body (suc n) a = resume (iterate body n) (body a)

-- Ends with an error, or with a result as wanted; never stuck.
abbrev pub Ends {ℓ} : {V : Type ℓ} → (V → Type 0) → Result V → Type 0
Ends Good (ok v) = Good v
Ends Good (error l e) = Unit
Ends Good stuck = ⊥

pub Ends-and_then {ℓ κ} :
    {V : Type ℓ} {W : Type κ} (Good : V → Type 0) (Fine : W → Type 0) (r : Result V)
    (f : V → Result W)
    → Ends Good r
    → ((v : V) → Good v → Ends Fine (f v))
    → Ends Fine (and_then r f)
Ends-and_then Good Fine (ok v) f h k = k v h
Ends-and_then Good Fine (error l e) f h k = tt
Ends-and_then Good Fine stuck f h k = absurd h

pub Ends-le {ℓ} :
    {A : Type ℓ} (P Q : A → Type 0) (r : Result A) → ((a : A) → P a → Q a) → Ends P r → Ends Q r
Ends-le P Q stuck f h = h
Ends-le P Q (error l e) f h = h
Ends-le P Q (ok a) f h = f a h

pub Ends-both {ℓ} :
    {A : Type ℓ} (P Q S : A → Type 0) (r : Result A)
    → ((a : A) → P a → Q a → S a)
    → Ends P r
    → Ends Q r
    → Ends S r
Ends-both P Q S stuck f h k = h
Ends-both P Q S (error l e) f h k = h
Ends-both P Q S (ok a) f h k = f a h k

module _ {ℓ κ} {A : Type ℓ} {B : Type κ} (measure : A → ℕ) (P : A → Type 0) (Q : B → Type 0) where
  abbrev pub Next : A → A ⊎ B → Type 0
  Next a (inl b) = (measure b < measure a) × P b
  Next a (inr b) = Q b

  Ends-resume :
      (a : A) (loop : A → Result B) (r : Result (A ⊎ B))
      → ((b : A) → measure b < measure a → P b → Ends Q (loop b))
      → Ends (Next a) r
      → Ends Q (resume loop r)
  Ends-resume a loop stuck h e = absurd e
  Ends-resume a loop (error l f) h e = tt
  Ends-resume a loop (ok (inl b)) h e = h b e.0 e.1
  Ends-resume a loop (ok (inr b)) h e = e

  -- A loop whose measure falls ends with fuel above the measure.
  pub Ends-iterate :
      (body : A → Result (A ⊎ B))
      → ((a : A) → P a → Ends (Next a) (body a))
      → (n : ℕ) (a : A) → measure a < n
      → P a
      → Ends Q (iterate body n a)
  Ends-iterate body h zero a less p = absurd (omega arith)
  Ends-iterate body h (suc n) a less p =
      Ends-resume a (iterate body n) (body a) (λ b lt q. Ends-iterate body h n b (omega arith) q)
        (h a p)

-- If there is a result, it is as wanted.
abbrev pub WhenOk {ℓ} : {V : Type ℓ} → (V → Type 0) → Result V → Type 0
WhenOk Good stuck = Unit
WhenOk Good (error l e) = Unit
WhenOk Good (ok v) = Good v

pub WhenOk-and_then {ℓ κ} :
    {V : Type ℓ} {W : Type κ} (Good : V → Type 0) (Fine : W → Type 0) (r : Result V)
    (f : V → Result W)
    → WhenOk Good r
    → ((v : V) → Good v → WhenOk Fine (f v))
    → WhenOk Fine (and_then r f)
WhenOk-and_then Good Fine stuck f h k = tt
WhenOk-and_then Good Fine (error l e) f h k = tt
WhenOk-and_then Good Fine (ok v) f h k = k v h

pub WhenOk-le {ℓ} :
    {V : Type ℓ} (Good Fine : V → Type 0) (r : Result V)
    → WhenOk Good r
    → ((v : V) → Good v → Fine v)
    → WhenOk Fine r
WhenOk-le Good Fine stuck h k = tt
WhenOk-le Good Fine (error l e) h k = tt
WhenOk-le Good Fine (ok v) h k = k v h

pub WhenOk-any {ℓ} : {V : Type ℓ} (r : Result V) → WhenOk (λ _. Unit) r
WhenOk-any stuck = tt
WhenOk-any (error l e) = tt
WhenOk-any (ok v) = tt

pub Ends-when {ℓ} :
    {V : Type ℓ} (P Q : V → Type 0) (r : Result V) → Ends P r → WhenOk Q r → Ends (λ v. P v × Q v) r
Ends-when P Q stuck h k = h
Ends-when P Q (error l e) h k = tt
Ends-when P Q (ok v) h k = (h, k)

-- What holds when a round leaves a loop.
abbrev pub Leaves {ℓ κ} : {A : Type ℓ} {B : Type κ} → (B → Type 0) → A ⊎ B → Type 0
Leaves Good (inl a) = Unit
Leaves Good (inr b) = Good b

WhenOk-resume {ℓ κ} :
    {A : Type ℓ} {B : Type κ} (Good : B → Type 0) (loop : A → Result B) (r : Result (A ⊎ B))
    → WhenOk (Leaves Good) r
    → ((a : A) → WhenOk Good (loop a))
    → WhenOk Good (resume loop r)
WhenOk-resume Good loop stuck h k = tt
WhenOk-resume Good loop (error l e) h k = tt
WhenOk-resume Good loop (ok (inl a)) h k = k a
WhenOk-resume Good loop (ok (inr b)) h k = h

pub WhenOk-iterate {ℓ κ} :
    {A : Type ℓ} {B : Type κ} (Good : B → Type 0) (body : A → Result (A ⊎ B))
    → ((a : A) → WhenOk (Leaves Good) (body a))
    → (n : ℕ) (a : A) → WhenOk Good (iterate body n a)
WhenOk-iterate Good body h zero a = tt
WhenOk-iterate Good body h (suc n) a =
    WhenOk-resume Good (iterate body n) (body a) (h a) (λ b. WhenOk-iterate Good body h n b)
