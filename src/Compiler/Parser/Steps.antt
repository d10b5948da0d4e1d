-- ===== src/Compiler/Parser/Steps.antt =====
-- The parser's functions on the next token, and on the table of types.
use tiny_cplus.Prelude.{
  ℕ, suc, ◌+◌, ◌≤◌, ◌≡◌, refl, Bool, true, false, List, [], ◌∷◌, if_cases, Bool-cases, inl, inr,
  length, drop, get_or, arith,
}
use tiny_cplus.Prelude.Text.{same}
use tiny_cplus.Compiler.Loop.{
  Result, and_then, expected_identifier, expected, Ends, Ends-and_then, Ends-le,
}
use tiny_cplus.Compiler.Lexer.{Token, eof, id}
use tiny_cplus.Compiler.Types.{Table}
use tiny_cplus.Compiler.Types.Closed.{IsSound, function_name}
use tiny_cplus.Compiler.Types.Keeps.{Makes}
use tiny_cplus.Compiler.Parser.{
  State, Parser, ◌>>=◌, nothing, token_at, is_token, peek, at, eat, keyword, take, expect, ident,
  typed, typed_result, advance,
}
use tiny_cplus.Compiler.Parser.Runs.{
  WellEnded, IsSoundState, size, Post, Runs, none_, one, Any, Named, Worded, Address, Post-trans,
  Runs-bind, Runs-after, Runs-pure, Runs-fail,
}

WellEnded-drop :
    (ts : List Token)
    → WellEnded ts
    → is_token (get_or ts 0 nothing).kind eof ≡ false
    → WellEnded (drop 1 ts) × (length (drop 1 ts) + 1 ≤ length ts)
WellEnded-drop [] w h = absurd w
WellEnded-drop (t ∷ []) w h = absurd (cc (w.0, h))
WellEnded-drop (t ∷ u ∷ ts) w h = (w.2, omega arith)

Worded-head :
    (ts : List Token) → WellEnded ts → same (get_or ts 0 nothing).text function_name ≡ false
unfolding same
Worded-head [] w = absurd w
Worded-head (t ∷ []) w = rw w.1
Worded-head (t ∷ u ∷ ts) w = w.1

-- Some text.
abbrev pub Word : List ℕ → Type 0
Word [] = ⊥
Word (x ∷ xs) = Unit

pub same-nil : (w : List ℕ) → Word w → same [] w ≡ false
unfolding same
same-nil [] h = absurd h
same-nil (x ∷ xs) h = refl

-- Only the end of the file has an empty text.
not_eof :
    (ts : List Token) (w : List ℕ)
    → WellEnded ts
    → Word w
    → same (get_or ts 0 nothing).text w ≡ true
    → is_token (get_or ts 0 nothing).kind eof ≡ false
not_eof [] w h e f = absurd h
not_eof (t ∷ []) w h e f = absurd (cc (h.1, same-nil w e, f))
not_eof (t ∷ u ∷ ts) w h e f = h.0

pub Post-here {ℓ} :
    {A : Type ℓ} {V : ℕ → A → Type 0} (s : State) (a : A)
    → IsSoundState s
    → V (size s) a
    → Post s none_ V (a, s)
Post-here s a i v = record {
  sound = i;
  same_depth = refl;
  grows = omega arith;
  eaten = omega arith;
  value = v;
}

-- A token that is not the end of the file has another behind it.
pub Post-advance {ℓ} :
    {A : Type ℓ} {V : ℕ → A → Type 0} (s : State) (a : A)
    → IsSoundState s
    → is_token (token_at 0 s).kind eof ≡ false
    → V (size s) a
    → Post s one V (a, advance s)
unfolding token_at
Post-advance s a i h v =
    let (w, less) = WellEnded-drop s.rest i.tokens h in
    record {
      sound = record { tokens = w; table = i.table };
      same_depth = refl;
      grows = omega arith;
      eaten = less;
      value = v;
    }

module _ {k n : ℕ} where
  pub Runs-peek : Runs k n none_ Worded peek
  unfolding peek token_at
  Runs-peek = record { run = λ s i less more. Post-here s _ i (Worded-head s.rest i.tokens) }

  pub Runs-at : (w : List ℕ) → Runs k n none_ Any (at w)
  unfolding at
  Runs-at w = record { run = λ s i less more. Post-here s _ i tt }

  pub Runs-keyword : (w : List ℕ) → Runs k n none_ Any (keyword w)
  unfolding keyword
  Runs-keyword w = record { run = λ s i less more. Post-here s _ i tt }

  pub Runs-take : Runs k n one Worded take
  unfolding take
  Runs-take = record {
    run = λ s i less more.
        if_cases (Ends (Post s one Worded)) (is_token (token_at 0 s).kind eof) (λ _. tt)
          (λ e. Post-advance s _ i e (unfold token_at in Worded-head s.rest i.tokens));
  }

  pub Runs-ident : Runs k n one Named ident
  unfolding ident
  Runs-ident =
      Runs-after (λ _. omega arith) Runs-take
        (λ t j more v.
          if_cases (Runs k j none_ Named) (is_token t.kind id)
            (λ _. Runs-pure t.text (omega arith) (λ _ _. v))
            (λ _. Runs-fail t.loc expected_identifier))

  pub Runs-typed :
      (f : Table → ℕ × Table)
      → ((c : Table) → IsSound c → n ≤ length c.types → Makes c (f c))
      → Runs k n none_ Address (typed f)
  unfolding typed
  Runs-typed f h = record {
    run = λ s i less more.
        let m = h s.table i.table more in
        record {
          sound = record { tokens = i.tokens; table = m.sound };
          same_depth = refl;
          grows = m.more;
          eaten = omega arith;
          value = m.in_table;
        };
  }

  pub Runs-typed_result :
      (f : Table → Result (ℕ × Table))
      → ((c : Table) → IsSound c → n ≤ length c.types → Ends (Makes c) (f c))
      → Runs k n none_ Address (typed_result f)
  unfolding typed_result
  Runs-typed_result f h = record {
    run = λ s i less more.
        Ends-and_then (Makes s.table) (Post s none_ Address) (f s.table) _ (h s.table i.table more)
          (λ r m. record {
            sound = record { tokens = i.tokens; table = m.sound };
            same_depth = refl;
            grows = m.more;
            eaten = omega arith;
            value = m.in_table;
          });
  }

-- `eat` and what follows it on either answer.
pub Ends-eat {ℓ} :
    {B : Type ℓ} (w : List ℕ) (f : Bool × State → Result B) (g : B → Type 0) (s : State)
    → IsSoundState s
    → Word w
    → (is_token (token_at 0 s).kind eof ≡ false → Ends g (f (true, advance s)))
    → Ends g (f (false, s))
    → Ends g (and_then (eat w s) f)
unfolding eat token_at
Ends-eat w f g s i h yes_ no_ = elim (Bool-cases (same (get_or s.rest 0 nothing).text w)) [
  | inl e ↦ rw e (yes_ (not_eof s.rest w i.tokens h e))
  | inr e ↦ rw e no_
]

module _ {ℓ} {A : Type ℓ} {n : ℕ} {W : ℕ → A → Type 0} {e : A → ℕ} (w : List ℕ)
    (f : Bool → Parser A) where
  pub Runs-eat :
      {k : ℕ}
      → Word w
      → ((a : A) → e a ≤ 1)
      → Runs k n none_ W (f true)
      → Runs (suc k) n e W (f false)
      → Runs (suc k) n e W (eat w >>= f)
  unfolding ◌>>=◌
  Runs-eat h small a b = record {
    run = λ s i less more.
        Ends-eat w (λ q. f q.0 q.1) (Post s e W) s i h
          (λ not_end.
            let p = Post-advance {A = Unit {0}} {V = Any} s tt i not_end tt in
            Ends-le (Post (advance s) none_ W) (Post s e W) (f true (advance s))
              (λ q u. Post-trans (omega (arith, small q.0)) p u)
              (a.run (advance s) p.sound (omega (arith, p.eaten)) more))
          (b.run s i less more);
  }

  pub Runs-eat_any :
      {k : ℕ}
      → Word w
      → ((a : A) → e a ≤ 1)
      → Runs k n none_ W (f true)
      → Runs k n e W (f false)
      → Runs k n e W (eat w >>= f)
  unfolding ◌>>=◌
  Runs-eat_any h small a b = record {
    run = λ s i less more.
        Ends-eat w (λ q. f q.0 q.1) (Post s e W) s i h
          (λ not_end.
            let p = Post-advance {A = Unit {0}} {V = Any} s tt i not_end tt in
            Ends-le (Post (advance s) none_ W) (Post s e W) (f true (advance s))
              (λ q u. Post-trans (omega (arith, small q.0)) p u)
              (a.run (advance s) p.sound (omega (arith, p.eaten)) more))
          (b.run s i less more);
  }

module _ {k n : ℕ} where
  pub Runs-expect : (w : List ℕ) → Word w → Runs k n one Any (expect w)
  unfolding expect
  Runs-expect w h = Runs-bind Runs-peek (λ t j more v.
      Runs-eat_any w _ h (λ _. omega arith) (Runs-pure tt (omega arith) (λ _ _. tt))
        (Runs-fail t.loc (expected w)))
