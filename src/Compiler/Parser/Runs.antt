-- ===== src/Compiler/Parser/Runs.antt =====
-- What every part of the parser keeps: it comes to an end, it stays before the end of the file, it
-- leaves the nesting depth as it was, and the table of types stays sound.
use tiny_cplus.Prelude.{
  ℕ, suc, ◌+◌, ◌<◌, ◌≤◌, ◌≡◌, refl, true, false, List, [], ◌∷◌, ltb, if_cases, length, arith,
}
use tiny_cplus.Prelude.Text.{same}
use tiny_cplus.Compiler.Loop.{Loc, Fault, Ends, Ends-and_then, Ends-le}
use tiny_cplus.Compiler.Lexer.{Token, eof}
use tiny_cplus.Compiler.Types.Closed.{IsSound, function_name}
use tiny_cplus.Compiler.Parser.{State, Parser, ◌>>=◌, pure, fail, is_token, ask, nested}

-- The tokens end with the end of the file and hold no other; none is the name of functions' types.
abbrev pub WellEnded : List Token → Type 0
WellEnded [] = ⊥
WellEnded (t ∷ []) = (is_token t.kind eof ≡ true) × (t.text ≡ [])
WellEnded (t ∷ u ∷ ts) =
    (is_token t.kind eof ≡ false) × (same t.text function_name ≡ false) × WellEnded (u ∷ ts)

pub record IsSoundState (s : State) : Type 0 where
  pub tokens : WellEnded s.rest
  pub table : IsSound s.table

-- How many types there are.
abbrev pub size : State → ℕ
size s = length s.table.types

-- What a part has done that began in `s`: it has taken `e` tokens at least, and `V` holds of its
-- result in the table that is there now.
pub record Post {ℓ} {A : Type ℓ} (s : State) (e : A → ℕ) (V : ℕ → A → Type 0) (r : A × State)
    : Type 0 where
  pub sound : IsSoundState r.1
  pub same_depth : r.1.depth ≡ s.depth
  pub grows : size s ≤ size r.1
  pub eaten : length r.1.rest + e r.0 ≤ length s.rest
  pub value : V (size r.1) r.0

-- The part behaves so with at most `k` tokens left and `n` types at least.
pub record Runs {ℓ} {A : Type ℓ} (k n : ℕ) (e : A → ℕ) (V : ℕ → A → Type 0) (m : Parser A)
    : Type ℓ where
  pub run : (s : State) → IsSoundState s → length s.rest ≤ k → n ≤ size s → Ends (Post s e V) (m s)

abbrev pub none_ {ℓ} : {A : Type ℓ} → A → ℕ
none_ a = 0

abbrev pub one {ℓ} : {A : Type ℓ} → A → ℕ
one a = 1

-- Nothing is said of the result.
abbrev pub Any {ℓ} : {A : Type ℓ} → ℕ → A → Type 0
Any n a = Unit

abbrev pub Named : ℕ → List ℕ → Type 0
Named n w = same w function_name ≡ false

abbrev pub Worded : ℕ → Token → Type 0
Worded n t = same t.text function_name ≡ false

-- An address in the table.
abbrev pub Address : ℕ → ℕ → Type 0
Address n a = a < n

pub Post-trans {ℓ κ} :
    {A : Type ℓ} {B : Type κ} {s : State} {r : A × State} {q : B × State} {e : A → ℕ} {f g : B → ℕ}
    {V : ℕ → A → Type 0} {W : ℕ → B → Type 0}
    → g q.0 ≤ e r.0 + f q.0
    → Post s e V r
    → Post r.1 f W q
    → Post s g W q
Post-trans h p q = record {
  sound = q.sound;
  same_depth = omega (arith, p.same_depth, q.same_depth);
  grows = omega (arith, p.grows, q.grows);
  eaten = omega (arith, p.eaten, q.eaten);
  value = q.value;
}

module _ {ℓ} {A : Type ℓ} {k n : ℕ} where
  pub Runs-none : {V : ℕ → A → Type 0} {m : Parser A} → Runs k n one V m → Runs k n none_ V m
  Runs-none {V} {m} r = record {
    run = λ s h less more.
        Ends-le (Post s one V) (Post s none_ V) (m s)
          (λ q p. record {
            sound = p.sound;
            same_depth = p.same_depth;
            grows = p.grows;
            eaten = omega (arith, p.eaten);
            value = p.value;
          })
          (r.run s h less more);
  }

  pub Runs-le :
      {j : ℕ} {e : A → ℕ} {V : ℕ → A → Type 0} {m : Parser A}
      → j ≤ k
      → Runs k n e V m
      → Runs j n e V m
  Runs-le h r = record { run = λ s i less more. r.run s i (omega arith) more }

  pub Runs-types :
      {l : ℕ} {e : A → ℕ} {V : ℕ → A → Type 0} {m : Parser A}
      → n ≤ l
      → Runs k n e V m
      → Runs k l e V m
  Runs-types h r = record { run = λ s i less more. r.run s i less (omega arith) }

  pub Runs-pure :
      {e : A → ℕ} {V : ℕ → A → Type 0} (a : A)
      → e a ≤ 0
      → ((j : ℕ) → n ≤ j → V j a)
      → Runs k n e V (pure a)
  unfolding pure
  Runs-pure a h v = record {
    run = λ s i less more. record {
      sound = i;
      same_depth = refl;
      grows = omega arith;
      eaten = omega arith;
      value = v (size s) more;
    };
  }

  pub Runs-fail : {e : A → ℕ} {V : ℕ → A → Type 0} (l : Loc) (f : Fault) → Runs k n e V (fail l f)
  unfolding fail
  Runs-fail l f = record { run = λ s i less more. tt }

  pub Runs-ask : (f : State → A) → Runs k n none_ Any (ask f)
  unfolding ask
  Runs-ask f = record {
    run = λ s i less more. record {
      sound = i;
      same_depth = refl;
      grows = omega arith;
      eaten = omega arith;
      value = tt;
    };
  }

  pub Runs-nested :
      {e : A → ℕ} {V : ℕ → A → Type 0} {m : Parser A} → Runs k n e V m → Runs k n e V (nested m)
  unfolding nested
  Runs-nested {e} {V} {m} r = record {
    run = λ s i less more.
        if_cases (Ends (Post s e V)) (ltb 256 (s.depth + 1)) (λ _. tt)
          (λ _.
            let d : State = record s { depth = s.depth + 1 } in
            let j : IsSoundState d = record { tokens = i.tokens; table = i.table } in
            Ends-and_then (Post d e V) (Post s e V) (m d) _ (r.run d j less more) (λ q p. record {
              sound = record { tokens = p.sound.tokens; table = p.sound.table };
              same_depth = omega (arith, p.same_depth);
              grows = p.grows;
              eaten = p.eaten;
              value = p.value;
            }));
  }

module _ {ℓ κ} {A : Type ℓ} {B : Type κ} {n : ℕ} {V : ℕ → A → Type 0} {W : ℕ → B → Type 0}
    {m : Parser A} {f : A → Parser B} where
  pub Runs-bind :
      {k : ℕ} {e : B → ℕ}
      → Runs k n none_ V m
      → ((a : A) (j : ℕ) → n ≤ j → V j a → Runs k j e W (f a))
      → Runs k n e W (m >>= f)
  unfolding ◌>>=◌
  Runs-bind {k} {e} r g = record {
    run = λ s i less more.
        Ends-and_then (Post s none_ V) (Post s e W) (m s) _ (r.run s i less more) (λ q p.
          Ends-le (Post q.1 e W) (Post s e W) (f q.0 q.1) (λ t u. Post-trans (omega arith) p u)
            ((g q.0 (size q.1) (omega (arith, p.grows)) p.value).run q.1 p.sound
              (omega (arith, p.eaten)) (omega arith)));
  }

  -- Behind a part that has taken a token, there is one less.
  pub Runs-then :
      {k : ℕ} {e : B → ℕ}
      → ((b : B) → e b ≤ 1)
      → Runs (suc k) n one V m
      → ((a : A) (j : ℕ) → n ≤ j → V j a → Runs k j none_ W (f a))
      → Runs (suc k) n e W (m >>= f)
  unfolding ◌>>=◌
  Runs-then {k} {e} small r g = record {
    run = λ s i less more.
        Ends-and_then (Post s one V) (Post s e W) (m s) _ (r.run s i less more) (λ q p.
          Ends-le (Post q.1 none_ W) (Post s e W) (f q.0 q.1)
            (λ t u. Post-trans (omega (arith, small t.0)) p u)
            ((g q.0 (size q.1) (omega (arith, p.grows)) p.value).run q.1 p.sound
              (omega (arith, p.eaten)) (omega arith)));
  }

  -- The same with the bound as it was.
  pub Runs-after :
      {k : ℕ} {e : B → ℕ}
      → ((b : B) → e b ≤ 1)
      → Runs k n one V m
      → ((a : A) (j : ℕ) → n ≤ j → V j a → Runs k j none_ W (f a))
      → Runs k n e W (m >>= f)
  unfolding ◌>>=◌
  Runs-after {k} {e} small r g = record {
    run = λ s i less more.
        Ends-and_then (Post s one V) (Post s e W) (m s) _ (r.run s i less more) (λ q p.
          Ends-le (Post q.1 none_ W) (Post s e W) (f q.0 q.1)
            (λ t u. Post-trans (omega (arith, small t.0)) p u)
            ((g q.0 (size q.1) (omega (arith, p.grows)) p.value).run q.1 p.sound
              (omega (arith, p.eaten)) (omega arith)));
  }
