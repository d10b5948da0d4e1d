-- ===== src/Compiler/Parser/Loops.antt =====
-- The parser's loops: they end, since each round takes a token.
use tiny_cplus.Prelude.{ℕ, suc, ◌≤◌, List, Option, none, some, length, arith, ◌⊎◌, inl, inr}
use tiny_cplus.Prelude.Text.{codes}
use tiny_cplus.Compiler.Loop.{Result, Ends, Ends-and_then, Ends-le, Next, Ends-iterate}
use tiny_cplus.Compiler.Parser.{
  State, Parser, advance, onwards, comma_round, comma_list, while_round, while_eat, until_round,
  until_eat, more_or, repeat_round, repeat,
}
use tiny_cplus.Compiler.Parser.Runs.{IsSoundState, size, Post, Runs, none_, one, Post-trans}
use tiny_cplus.Compiler.Parser.Steps.{Word, Post-here, Post-advance, Ends-eat}

module _ {ℓ} {A : Type ℓ} (e : A → ℕ) (V : ℕ → A → Type 0) where
  -- A round takes a token and goes on, or ends.
  abbrev pub Round : State → (A × State) ⊎ (A × State) → Type 0
  Round s (inl r) = Post s one V r
  Round s (inr r) = Post s e V r

  Next-Round :
      (s : State) (a : A × State)
      → Post s none_ V a
      → (r : (A × State) ⊎ (A × State)) → Round a.1 r
      → Next (λ b. length b.1.rest) (λ b. Post s none_ V b) (λ b. Post s e V b) a r
  Next-Round s a p (inl r) q = (omega (arith, q.eaten), Post-trans (omega arith) p q)
  Next-Round s a p (inr r) q = Post-trans (omega arith) p q

  pub Runs-onwards :
      {k n : ℕ} (round : A × State → Result ((A × State) ⊎ (A × State))) (a : A)
      → ((j : ℕ) → n ≤ j → V j a)
      → ((b : A) (s : State)
          → IsSoundState s
          → length s.rest ≤ k
          → n ≤ size s
          → V (size s) b
          → Ends (Round s) (round (b, s)))
      → Runs k n e V (onwards round a)
  Runs-onwards round a v h = record {
    run = λ s i less more.
        Ends-iterate (λ (b : A × State). length b.1.rest) (Post s none_ V) (Post s e V) round
          (λ b p.
            Ends-le (Round b.1) (Next (λ d. length d.1.rest) (Post s none_ V) (Post s e V) b)
              (round b) (Next-Round s b p)
              (h b.0 b.1 p.sound (omega (arith, p.eaten)) (omega (arith, p.grows)) p.value))
          (suc (length s.rest)) (a, s) (omega arith) (Post-here s a i (v (size s) more));
  }

module _ {ℓ} {A : Type ℓ} {k n : ℕ} {V : ℕ → A → Type 0} where
  pub Runs-comma_list :
      {e : A → ℕ} (body : A → Parser A) (a : A)
      → ((b : A) → e b ≤ 1)
      → ((j : ℕ) → n ≤ j → V j a)
      → ((b : A) (j : ℕ) → n ≤ j → V j b → Runs k j e V (body b))
      → Runs k n e V (comma_list body a)
  unfolding comma_list comma_round
  Runs-comma_list {e} body a small v h =
      Runs-onwards e V (comma_round body) a v (λ b s i less more vb.
        Ends-and_then (Post s e V) (Round e V s) (body b s) _
          ((h b (size s) more vb).run s i less (omega arith))
          (λ r p.
            Ends-eat (codes ",") _ (Round e V s) r.1 p.sound tt
              (λ not_end. Post-trans (omega arith) p (Post-advance r.1 r.0 p.sound not_end p.value))
              p))

  pub Runs-while_eat :
      (w : List ℕ) (body : A → Parser A) (a : A)
      → Word w
      → ((j : ℕ) → n ≤ j → V j a)
      → ((b : A) (j : ℕ) → n ≤ j → V j b → Runs k j none_ V (body b))
      → Runs k n none_ V (while_eat w body a)
  unfolding while_eat while_round
  Runs-while_eat w body a some_word v h =
      Runs-onwards none_ V (while_round w body) a v (λ b s i less more vb.
        Ends-eat w _ (Round none_ V s) s i some_word
          (λ not_end.
            let p = Post-advance {V = V} s b i not_end vb in
            Ends-and_then (Post (advance s) none_ V) (Round none_ V s) (body b (advance s)) _
              ((h b (size s) more vb).run (advance s) p.sound (omega (arith, p.eaten))
                (omega arith))
              (λ r q. Post-trans (omega arith) p q))
          (Post-here s b i vb))

  pub Runs-until_eat :
      (w : List ℕ) (body : A → Parser A) (a : A)
      → Word w
      → ((j : ℕ) → n ≤ j → V j a)
      → ((b : A) (j : ℕ) → n ≤ j → V j b → Runs k j one V (body b))
      → Runs k n one V (until_eat w body a)
  unfolding until_eat until_round
  Runs-until_eat w body a some_word v h =
      Runs-onwards one V (until_round w body) a v (λ b s i less more vb.
        Ends-eat w _ (Round one V s) s i some_word (λ not_end. Post-advance s b i not_end vb)
          (Ends-and_then (Post s one V) (Round one V s) (body b s) _
            ((h b (size s) more vb).run s i less (omega arith)) (λ r q. q)))

-- A round that goes on with some state has taken a token.
abbrev pub onward {ℓ} : {A : Type ℓ} → Option A → ℕ
onward none = 0
onward (some a) = 1

abbrev pub Onward {ℓ} : {A : Type ℓ} → (ℕ → A → Type 0) → ℕ → Option A → Type 0
Onward V n none = Unit
Onward V n (some a) = V n a

pub onward-le {ℓ} : {A : Type ℓ} (o : Option A) → onward o ≤ 1
onward-le none = omega arith
onward-le (some a) = omega arith

module _ {ℓ} {A : Type ℓ} {V : ℕ → A → Type 0} where
  -- A property of a value that stays as the table grows.
  Round-more_or :
      (s : State) (a : A) (r : Option A × State)
      → ((j : ℕ) → size s ≤ j → V j a)
      → Post s onward (Onward V) r
      → Round none_ V s (more_or a r)
  Round-more_or s a (none, t) v p = record {
    sound = p.sound;
    same_depth = p.same_depth;
    grows = p.grows;
    eaten = p.eaten;
    value = v (size t) p.grows;
  }
  Round-more_or s a (some b, t) v p = record {
    sound = p.sound;
    same_depth = p.same_depth;
    grows = p.grows;
    eaten = p.eaten;
    value = p.value;
  }

  pub Runs-repeat :
      {k n : ℕ} (body : A → Parser (Option A)) (a : A)
      → ((b : A) (i j : ℕ) → i ≤ j → V i b → V j b)
      → ((j : ℕ) → n ≤ j → V j a)
      → ((b : A) (j : ℕ) → n ≤ j → V j b → Runs k j onward (Onward V) (body b))
      → Runs k n none_ V (repeat body a)
  unfolding repeat repeat_round
  Runs-repeat body a mono v h = Runs-onwards none_ V (repeat_round body) a v (λ b s i less more vb.
      Ends-and_then (Post s onward (Onward V)) (Round none_ V s) (body b s) _
        ((h b (size s) more vb).run s i less (omega arith))
        (λ r p. Round-more_or s b r (λ j m. mono b (size s) j m vb) p))
