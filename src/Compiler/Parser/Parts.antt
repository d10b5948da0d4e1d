-- ===== src/Compiler/Parser/Parts.antt =====
-- Parts of the parser whose result is not spoken of, and the rules that put them together.
use tiny_cplus.Prelude.{
  ℕ, suc, ◌≤◌, refl, Bool, true, false, List, Option, none, some, if◌then◌else◌, if_cases, arith,
}
use tiny_cplus.Compiler.Loop.{Loc, Fault, Ends-le}
use tiny_cplus.Compiler.Types.{TypeKind}
use tiny_cplus.Compiler.Types.Create.{type_primitive}
use tiny_cplus.Compiler.Types.Keeps.{Makes-type_primitive}
use tiny_cplus.Compiler.Parser.{
  State, Parser, ◌>>=◌, pure, fail, peek, ask, at, eat, keyword, take, expect, ident, nested, typed,
  comma_list, while_eat, until_eat, repeat,
}
use tiny_cplus.Compiler.Parser.Tree.{NodeKind}
use tiny_cplus.Compiler.Parser.Lambda.{new_node}
use tiny_cplus.Compiler.Parser.Runs.{
  Runs, size, Post, none_, one, Any, Runs-none, Runs-le, Runs-pure, Runs-fail, Runs-ask,
  Runs-nested, Runs-bind, Runs-then, Runs-after,
}
use tiny_cplus.Compiler.Parser.Steps.{
  Word, Post-here, Runs-at, Runs-keyword, Runs-take, Runs-ident, Runs-typed, Runs-eat, Runs-eat_any,
  Runs-expect,
}
use tiny_cplus.Compiler.Parser.Loops.{
  onward, Onward, onward-le, Runs-comma_list, Runs-while_eat, Runs-until_eat, Runs-repeat,
}

-- It comes to an end with `k` tokens.
pub record Part {A : Type 0} (k : ℕ) (m : Parser A) : Type 0 where
  pub part_runs : (n : ℕ) → Runs k n none_ Any m

-- And takes a token.
pub record Eats {A : Type 0} (k : ℕ) (m : Parser A) : Type 0 where
  pub eats_runs : (n : ℕ) → Runs k n one Any m

-- A round that takes a token where it goes on.
pub record Rounds {A : Type 0} (k : ℕ) (m : Parser (Option A)) : Type 0 where
  pub rounds_runs : (n : ℕ) → Runs k n onward Any m

pub Runs-weaken :
    {A : Type 0} {k n : ℕ} {e : A → ℕ} {V W : ℕ → A → Type 0} {m : Parser A}
    → ((j : ℕ) (a : A) → V j a → W j a)
    → Runs k n e V m
    → Runs k n e W m
Runs-weaken {A} {k} {n} {e} {V} {W} {m} h r = record {
  run = λ s i less more.
      Ends-le (Post s e V) (Post s e W) (m s)
        (λ q p. record {
          sound = p.sound;
          same_depth = p.same_depth;
          grows = p.grows;
          eaten = p.eaten;
          value = h (size q.1) q.0 p.value;
        })
        (r.run s i less more);
}

pub Runs-Any :
    {A : Type 0} {k n : ℕ} {e : A → ℕ} {V : ℕ → A → Type 0} {m : Parser A}
    → Runs k n e V m
    → Runs k n e Any m
Runs-Any r = Runs-weaken (λ _ _ _. tt) r

Onward-Any : {A : Type 0} (j : ℕ) (o : Option A) → Any j o → Onward Any j o
Onward-Any j none h = tt
Onward-Any j (some a) h = tt

pub to_part : {A : Type 0} {k : ℕ} {m : Parser A} → Eats k m → Part k m
to_part p = record { part_runs = λ n. Runs-none (p.eats_runs n) }

pub Eats-le : {A : Type 0} {j k : ℕ} {m : Parser A} → j ≤ k → Eats k m → Eats j m
Eats-le h p = record { eats_runs = λ n. Runs-le h (p.eats_runs n) }

module _ {A B : Type 0} {m : Parser A} {f : A → Parser B} where
  pub Part-bind : {k : ℕ} → Part k m → ((a : A) → Part k (f a)) → Part k (m >>= f)
  Part-bind p q = record {
    part_runs = λ n. Runs-bind (p.part_runs n) (λ a j h _. (q a).part_runs j);
  }

  pub Eats-bind : {k : ℕ} → Part k m → ((a : A) → Eats k (f a)) → Eats k (m >>= f)
  Eats-bind p q = record {
    eats_runs = λ n. Runs-bind (p.part_runs n) (λ a j h _. (q a).eats_runs j);
  }

  pub Eats-then : {k : ℕ} → Eats (suc k) m → ((a : A) → Part k (f a)) → Eats (suc k) (m >>= f)
  Eats-then p q = record {
    eats_runs = λ n. Runs-then (λ _. omega arith) (p.eats_runs n) (λ a j h _. (q a).part_runs j);
  }

  pub Eats-after : {k : ℕ} → Eats k m → ((a : A) → Part k (f a)) → Eats k (m >>= f)
  Eats-after p q = record {
    eats_runs = λ n. Runs-after (λ _. omega arith) (p.eats_runs n) (λ a j h _. (q a).part_runs j);
  }

module _ {A : Type 0} {k : ℕ} (w : List ℕ) (f : Bool → Parser A) where
  pub Part-eat : Word w → Part k (f true) → Part k (f false) → Part k (eat w >>= f)
  Part-eat h p q = record {
    part_runs = λ n. Runs-eat_any w f h (λ _. omega arith) (p.part_runs n) (q.part_runs n);
  }

  pub Eats-eat : Word w → Part k (f true) → Eats (suc k) (f false) → Eats (suc k) (eat w >>= f)
  Eats-eat h p q = record {
    eats_runs = λ n. Runs-eat w f h (λ _. omega arith) (p.part_runs n) (q.eats_runs n);
  }

  pub Eats-eat_any : Word w → Part k (f true) → Eats k (f false) → Eats k (eat w >>= f)
  Eats-eat_any h p q = record {
    eats_runs = λ n. Runs-eat_any w f h (λ _. omega arith) (p.part_runs n) (q.eats_runs n);
  }

module _ {A : Type 0} {k : ℕ} where
  pub Part-pure : (a : A) → Part k (pure a)
  Part-pure a = record { part_runs = λ n. Runs-pure a (omega arith) (λ _ _. tt) }

  pub Part-fail : (l : Loc) (e : Fault) → Part {A = A} k (fail l e)
  Part-fail l e = record { part_runs = λ n. Runs-fail l e }

  pub Eats-fail : (l : Loc) (e : Fault) → Eats {A = A} k (fail l e)
  Eats-fail l e = record { eats_runs = λ n. Runs-fail l e }

  pub Part-ask : (f : State → A) → Part k (ask f)
  Part-ask f = record { part_runs = λ n. Runs-ask f }

  pub Part-nested : {m : Parser A} → Part k m → Part k (nested m)
  Part-nested p = record { part_runs = λ n. Runs-nested (p.part_runs n) }

  pub Eats-nested : {m : Parser A} → Eats k m → Eats k (nested m)
  Eats-nested p = record { eats_runs = λ n. Runs-nested (p.eats_runs n) }

  pub Part-if : {m n : Parser A} (b : Bool) → Part k m → Part k n → Part k (if b then m else n)
  Part-if b p q = if_cases (Part k) b (λ _. p) (λ _. q)

  pub Eats-if : {m n : Parser A} (b : Bool) → Eats k m → Eats k n → Eats k (if b then m else n)
  Eats-if b p q = if_cases (Eats k) b (λ _. p) (λ _. q)

module _ {k : ℕ} where
  pub Part-new_node : (t : NodeKind) (l : Loc) → Part k (new_node t l)
  unfolding new_node
  Part-new_node t l = record {
    part_runs = λ n. record {
      run = λ s i less more. record {
        sound = record {
          tokens = i.tokens;
          table = record { closed = i.table.closed; builtin_below = i.table.builtin_below };
        };
        same_depth = refl;
        grows = omega arith;
        eaten = omega arith;
        value = tt;
      };
    };
  }

  pub Part-peek : Part k peek
  unfolding peek
  Part-peek = record { part_runs = λ n. record { run = λ s i less more. Post-here s _ i tt } }

  pub Part-at : (w : List ℕ) → Part k (at w)
  Part-at w = record { part_runs = λ n. Runs-at w }

  pub Part-keyword : (w : List ℕ) → Part k (keyword w)
  Part-keyword w = record { part_runs = λ n. Runs-keyword w }

  pub Eats-expect : (w : List ℕ) → Word w → Eats k (expect w)
  Eats-expect w h = record { eats_runs = λ n. Runs-expect w h }

  pub Eats-take : Eats k take
  Eats-take = record { eats_runs = λ n. Runs-Any Runs-take }

  pub Eats-ident : Eats k ident
  Eats-ident = record { eats_runs = λ n. Runs-Any Runs-ident }

  pub Part-type_primitive : (t : TypeKind) → Part k (typed (type_primitive t))
  Part-type_primitive t = record {
    part_runs = λ n. Runs-Any (Runs-typed _ (λ c s more. Makes-type_primitive t c s));
  }

-- The loops.
module _ {A : Type 0} {k : ℕ} where
  pub Eats-comma_list :
      (body : A → Parser A) (a : A) → ((b : A) → Eats k (body b)) → Eats k (comma_list body a)
  Eats-comma_list body a h = record {
    eats_runs =
        λ n. Runs-comma_list body a (λ _. omega arith) (λ _ _. tt) (λ b j _ _. (h b).eats_runs j);
  }

  pub Part-while_eat :
      (w : List ℕ) (body : A → Parser A) (a : A)
      → Word w
      → ((b : A) → Part k (body b))
      → Part k (while_eat w body a)
  Part-while_eat w body a word h = record {
    part_runs = λ n. Runs-while_eat w body a word (λ _ _. tt) (λ b j _ _. (h b).part_runs j);
  }

  pub Eats-until_eat :
      (w : List ℕ) (body : A → Parser A) (a : A)
      → Word w
      → ((b : A) → Eats k (body b))
      → Eats k (until_eat w body a)
  Eats-until_eat w body a word h = record {
    eats_runs = λ n. Runs-until_eat w body a word (λ _ _. tt) (λ b j _ _. (h b).eats_runs j);
  }

  pub Part-repeat :
      (body : A → Parser (Option A)) (a : A)
      → ((b : A) → Rounds k (body b))
      → Part k (repeat body a)
  Part-repeat body a h = record {
    part_runs = λ n.
        Runs-repeat body a (λ _ _ _ _ _. tt) (λ _ _. tt)
          (λ b j _ _. Runs-weaken Onward-Any ((h b).rounds_runs j));
  }

  pub Rounds-none : Rounds {A = A} k (pure none)
  Rounds-none = record { rounds_runs = λ n. Runs-pure none (omega arith) (λ _ _. tt) }

  pub Rounds-fail : (l : Loc) (e : Fault) → Rounds {A = A} k (fail l e)
  Rounds-fail l e = record { rounds_runs = λ n. Runs-fail l e }

  pub Rounds-if :
      {m n : Parser (Option A)} (b : Bool) → Rounds k m → Rounds k n → Rounds k (if b then m else n)
  Rounds-if b p q = if_cases (Rounds k) b (λ _. p) (λ _. q)

  pub Rounds-eat :
      (w : List ℕ) (f : Bool → Parser (Option A))
      → Word w
      → Part k (f true)
      → Rounds k (f false)
      → Rounds k (eat w >>= f)
  Rounds-eat w f h p q = record {
    rounds_runs = λ n. Runs-eat_any w f h onward-le (p.part_runs n) (q.rounds_runs n);
  }

module _ {A B : Type 0} {k : ℕ} {m : Parser A} {f : A → Parser (Option B)} where
  pub Rounds-bind : Part k m → ((a : A) → Rounds k (f a)) → Rounds k (m >>= f)
  Rounds-bind p q = record {
    rounds_runs = λ n. Runs-bind (p.part_runs n) (λ a j h _. (q a).rounds_runs j);
  }

  pub Rounds-after : Eats k m → ((a : A) → Part k (f a)) → Rounds k (m >>= f)
  Rounds-after p q = record {
    rounds_runs = λ n. Runs-after onward-le (p.eats_runs n) (λ a j h _. (q a).part_runs j);
  }

-- For a part of which it is not asked whether it takes a token.
pub ruleset straight = (
  Part-bind, Part-eat, Part-pure, Part-fail, Part-ask, Part-nested, Part-if, Part-new_node,
  Part-peek, Part-at, Part-keyword, Eats-expect, Eats-take, Eats-ident, Part-type_primitive,
  Eats-comma_list, Part-while_eat, Eats-until_eat, Part-repeat, to_part,
)

pub ruleset parts = (
  Rounds-none, Rounds-fail, Rounds-if, Rounds-eat, Rounds-bind, Rounds-after, Eats-bind, Eats-then,
  Eats-after, Eats-eat, Eats-eat_any, Eats-fail, Eats-nested, Eats-if, straight,
)
