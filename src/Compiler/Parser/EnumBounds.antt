-- ===== src/Compiler/Parser/EnumBounds.antt =====
-- The values of an enum lie within 32 bits.
use tiny_cplus.Prelude.{
  ℕ, zero, suc, ◌≤◌, ◌≡◌, refl, sym, ap, ◌∙◌, inl, inr, Bool, true, false, Bool-cases, not, ◌||◌,
  List, get_or, drop, Option, none, some, ltb, if◌then◌else◌, if_cases, arith,
}
use mathlib.Core.Path.{subst}
use tiny_cplus.Prelude.Text.{codes, same}
use tiny_cplus.Prelude.Int.{ℤ, pos, negsuc, ltb_ℤ}
use tiny_cplus.Compiler.Loop.{WhenOk, WhenOk-and_then, WhenOk-any, WhenOk-le}
use tiny_cplus.Compiler.Lexer.{Token, TokenKind}
use tiny_cplus.Compiler.Parser.{
  State, Parser, ◌>>=◌, pure, fail, nothing, token_at, advance, is_token, peek, ask, eat, take,
  expect, ident,
}
use tiny_cplus.Compiler.Parser.Integer.{overflows, strtoull}
use tiny_cplus.Compiler.Parser.Tree.{Node, absent, node, set_info, add_body}
use tiny_cplus.Compiler.Parser.Lambda.{new_node}
use tiny_cplus.Compiler.Parser.Declaration.{
  signed, next_ℤ, decimal_ℤ, enum_literal, enum_number, EnumState, enum_end, enum_value,
}

-- Not below the range, and in it.
abbrev pub AboveMin : ℤ → Type 0
AboveMin (pos n) = Unit
AboveMin (negsuc n) = n ≤ 2147483647

abbrev pub InRange : ℤ → Type 0
InRange (pos n) = n ≤ 2147483647
InRange (negsuc n) = n ≤ 2147483647

-- A part of the parser gives such a result, if any.
abbrev Gives {ℓ} : {A : Type ℓ} → (A → Type 0) → Parser A → Type 0
Gives Good m = (s : State) → WhenOk (λ r. Good r.0) (m s)

Gives-bind {ℓ κ} :
    {A : Type ℓ} {B : Type κ} (P : A → Type 0) (Q : B → Type 0) (m : Parser A) (f : A → Parser B)
    → Gives P m
    → ((a : A) → P a → Gives Q (f a))
    → Gives Q (m >>= f)
unfolding ◌>>=◌
Gives-bind P Q m f h k s =
    WhenOk-and_then (λ r. P r.0) (λ r. Q r.0) (m s) (λ r. f r.0 r.1) (h s) (λ r p. k r.0 p r.1)

Gives-then {ℓ κ} :
    {A : Type ℓ} {B : Type κ} (Q : B → Type 0) (m : Parser A) (f : A → Parser B)
    → ((a : A) → Gives Q (f a))
    → Gives Q (m >>= f)
Gives-then Q m f k = Gives-bind (λ _. Unit) Q m f (λ s. WhenOk-any (m s)) (λ a _. k a)

Gives-weaken {ℓ} :
    {A : Type ℓ} (P Q : A → Type 0) (m : Parser A) → Gives P m → ((a : A) → P a → Q a) → Gives Q m
Gives-weaken P Q m h k s = WhenOk-le (λ r. P r.0) (λ r. Q r.0) (m s) (h s) (λ r p. k r.0 p)

AboveMin-signed :
    (negative : Bool) (n : ℕ)
    → ltb (if negative then 2147483648 else 2147483647) n ≡ false
    → AboveMin (signed negative n)
AboveMin-signed false n h = tt
AboveMin-signed true zero h = tt
AboveMin-signed true (suc n) h = ground arith

abbrev first : List Token → List ℕ
first ts = (get_or ts 0 nothing).text

-- The value that these tokens write: a literal, or a minus and a literal.
abbrev pub given : List Token → ℤ
given ts =
    if same (first ts) (codes "-")
    then signed true (strtoull (first (drop 1 ts)))
    else signed false (strtoull (first ts))

-- The value for these tokens behind a name: what is written behind an equals sign, or else the next.
abbrev pub chosen : ℤ → List Token → ℤ
chosen next ts = if same (first ts) (codes "=") then given (drop 1 ts) else next

abbrev Value : ℤ → ℤ → Type 0
Value w v = AboveMin v × (v ≡ w)

Took-take :
    (s : State) → WhenOk (λ r. (r.0.text ≡ first s.rest) × (r.1.rest ≡ drop 1 s.rest)) (take s)
unfolding take token_at
Took-take s =
    if_cases (WhenOk (λ r. (r.0.text ≡ first s.rest) × (r.1.rest ≡ drop 1 s.rest)))
      (is_token (get_or s.rest 0 nothing).kind TokenKind.eof) (λ _. tt) (λ _. (refl, refl))

Took-ident : (s : State) → WhenOk (λ r. r.1.rest ≡ drop 1 s.rest) (ident s)
unfolding ident ◌>>=◌ pure fail
Took-ident s =
    let P : List ℕ × State → Type 0 = λ r. r.1.rest ≡ drop 1 s.rest in
    WhenOk-and_then (λ r. (r.0.text ≡ first s.rest) × (r.1.rest ≡ drop 1 s.rest)) P (take s) _
      (Took-take s)
      (λ r e.
        if_cases (λ (m : Parser (List ℕ)). WhenOk P (m r.1)) (is_token r.0.kind TokenKind.id)
          (λ _. e.1) (λ _. tt))

Value-enum_literal :
    (negative : Bool) (s : State)
    → WhenOk (λ r. Value (signed negative (strtoull (first s.rest))) r.0) (enum_literal negative s)
unfolding enum_literal ◌>>=◌ pure fail
Value-enum_literal negative s =
    let P : ℤ × State → Type 0 = λ r. Value (signed negative (strtoull (first s.rest))) r.0 in
    WhenOk-and_then (λ r. (r.0.text ≡ first s.rest) × (r.1.rest ≡ drop 1 s.rest)) P (take s) _
      (Took-take s)
      (λ (t, s') e.
        if_cases (λ (m : Parser ℤ). WhenOk P (m s')) (not (is_token t.kind TokenKind.int)) (λ _. tt)
          (λ _.
            if_cases (λ (m : Parser ℤ). WhenOk P (m s'))
              (overflows t.text
                || ltb (if negative then 2147483648 else 2147483647) (strtoull t.text))
              (λ _. tt)
              (λ f. (
                AboveMin-signed negative (strtoull t.text) (grind arith),
                ap (λ w. signed negative (strtoull w)) e.0,
              ))))

Value-given :
    (s : State)
    → WhenOk
        (λ r. Value (given s.rest) r.0)
        ((do negative ← eat (codes "-"); enum_literal negative) s)
unfolding ◌>>=◌ eat token_at
Value-given s = elim (Bool-cases (same (first s.rest) (codes "-"))) [
  | inl e ↦ rw e (Value-enum_literal true (advance s))
  | inr e ↦ rw e (Value-enum_literal false s)
]

Value-enum_number :
    (next : ℤ) (s : State)
    → AboveMin next
    → WhenOk (λ r. Value (chosen next s.rest) r.0) (enum_number next s)
unfolding enum_number ◌>>=◌ eat token_at pure
Value-enum_number next s h = elim (Bool-cases (same (first s.rest) (codes "="))) [
  | inl e ↦ rw e (Value-given (advance s))
  | inr e ↦ rw e (h, refl)
]

InRange-below : (v : ℤ) → AboveMin v → ltb_ℤ (pos 2147483647) v ≡ false → InRange v
InRange-below (pos n) a h = ground arith
InRange-below (negsuc n) a h = a

AboveMin-next_ℤ : (v : ℤ) → InRange v → AboveMin (next_ℤ v)
AboveMin-next_ℤ (pos n) h = tt
AboveMin-next_ℤ (negsuc zero) h = tt
AboveMin-next_ℤ (negsuc (suc n)) h = omega arith

abbrev pub text_of : Node → Option (List ℕ)
text_of absent = none
text_of (node i a b c body params args next) = i.text

-- One more value, for the tokens that begin with its name: it is the chosen one, lies in the range and
-- is written in decimal, and the next one follows it.
pub record Valued (ts : List Token) (e f : EnumState) : Type 0 where
  pub value : ℤ
  pub item : Node
  pub picked : value ≡ chosen e.next (drop 1 ts)
  pub in_range : InRange value
  pub written : text_of item ≡ some (decimal_ℤ value)
  pub appended : f.tree ≡ add_body item e.tree
  pub follows : f.next ≡ next_ℤ value
  pub ready : AboveMin f.next

Gives-enum_end : (n : Node) (v : ℤ) → Gives (λ f. (f.tree ≡ n) × (f.next ≡ next_ℤ v)) (enum_end n v)
unfolding enum_end pure
Gives-enum_end n v =
    Gives-then (λ (f : EnumState). (f.tree ≡ n) × (f.next ≡ next_ℤ v)) (eat (codes ",")) _
      (λ comma.
        if_cases (Gives (λ (f : EnumState). (f.tree ≡ n) × (f.next ≡ next_ℤ v))) comma
          (λ _ s. (refl, refl))
          (λ _.
            Gives-then (λ (f : EnumState). (f.tree ≡ n) × (f.next ≡ next_ℤ v)) (expect (codes "}"))
              _ (λ _ s. (refl, refl))))

pub Valued-enum_value :
    (flags t : ℕ) (e : EnumState) (s : State)
    → AboveMin e.next
    → WhenOk (λ r. Valued s.rest e r.0) (enum_value flags t e s)
unfolding enum_value ◌>>=◌ peek new_node ask fail set_info
Valued-enum_value flags t e s h =
    let P : EnumState × State → Type 0 = λ r. Valued s.rest e r.0 in
    WhenOk-and_then (λ r. r.1.rest ≡ drop 1 s.rest) P (ident _) _ (Took-ident _)
      (λ (w, s1) behind.
        WhenOk-and_then (λ r. Value (chosen e.next s1.rest) r.0) P (enum_number e.next s1) _
          (Value-enum_number e.next s1 h)
          (λ (v, s2) a.
            if_cases (λ (m : Parser EnumState). WhenOk P (m s2)) (ltb_ℤ (pos 2147483647) v)
              (λ _. tt)
              (λ less.
                WhenOk-le (λ r. (r.0.tree ≡ _) × (r.0.next ≡ next_ℤ v)) P _ (Gives-enum_end _ v s2)
                  (λ f g. record {
                    value = v;
                    item = _;
                    picked = a.1 ∙ ap (chosen e.next) behind;
                    in_range = InRange-below v a.0 less;
                    written = refl;
                    appended = g.0;
                    follows = g.1;
                    ready = subst AboveMin (sym g.1) (AboveMin-next_ℤ v (InRange-below v a.0 less));
                  }))))
