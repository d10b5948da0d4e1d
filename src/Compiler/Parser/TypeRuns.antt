-- ===== src/Compiler/Parser/TypeRuns.antt =====
-- `parse_type` comes to an end, with an address in the table.
use tiny_cplus.Prelude.{
  ℕ, suc, ◌<◌, ◌≤◌, ◌≡◌, refl, Bool, true, false, not, ◌&&◌, ◌||◌, List, [], ◌∷◌, ◌++◌, none, some,
  if_cases, arith, ltb, ◌==◌,
}
use tiny_cplus.Prelude.Text.{codes, same}
use tiny_cplus.Compiler.Loop.{array_integer, array_length, one_slice_type}
use tiny_cplus.Compiler.Lexer.{TokenKind}
use tiny_cplus.Compiler.Types.{slice, array, ptr}
use tiny_cplus.Compiler.Types.Closed
use tiny_cplus.Compiler.Types.Closed.{IsSound, function_name, Refers, Below-le, PairsBelow-le}
use tiny_cplus.Compiler.Types.Keeps.{
  Makes-type_named, Makes-type_tuple, Makes-type_generic, Makes-type_derive, Makes-type_const,
}
use tiny_cplus.Compiler.Parser.{◌>>=◌, expect, typed_result, is_token}
use tiny_cplus.Compiler.Parser.Tree.{Node}
use tiny_cplus.Compiler.Parser.Integer.{strtoull, overflows}
use tiny_cplus.Compiler.Parser.TypeName.{
  Below, type_item, type_items, type_function, function_params, function_type, slice_type,
  generic_type, dotted_part, dotted_name, named_type, array_count, array_suffix, type_suffix,
  tuple_type, type_core, qualify, type_body, parse_type,
}
use tiny_cplus.Compiler.Parser.Runs.{
  Runs, none_, one, Any, Named, Address, Runs-none, Runs-pure, Runs-fail, Runs-nested, Runs-bind,
  Runs-then, Runs-after,
}
use tiny_cplus.Compiler.Parser.Steps.{
  Word, Runs-peek, Runs-take, Runs-ident, Runs-typed, Runs-typed_result, Runs-eat, Runs-eat_any,
  Runs-expect,
}
use tiny_cplus.Compiler.Parser.Loops.{
  Runs-comma_list, Runs-while_eat, Runs-repeat, onward, Onward, onward-le,
}
use tiny_cplus.Compiler.Parser.FunctionRuns.{Runs-split_shift, Makes-type_function}

-- Addresses in the table.
abbrev pub Addresses : ℕ → List ℕ → Type 0
Addresses n l = Closed.Below n l

-- The functions below run with `k` tokens.
pub record RunsBelow (k : ℕ) (r : Below) : Type 0 where
  pub type_runs : (n : ℕ) → Runs k n one Address r.type
  pub expr_runs : (n p : ℕ) → Runs k n one Any (r.expr p)
  pub stmt_runs : (n : ℕ) → Runs k n one Any r.stmt
  pub declaration_runs : (n flags : ℕ) (owner : Node) → Runs k n one Any (r.declaration flags owner)

Below-append :
    (n : ℕ) (l : List ℕ) (a : ℕ) → Closed.Below n l → a < n → Closed.Below n (l ++ a ∷ [])
Below-append n [] a h lt = (lt, tt)
Below-append n (x ∷ l) a h lt = (h.0, Below-append n l a h.1 lt)

abbrev Dotless : List ℕ → Type 0
Dotless [] = Unit
Dotless (x ∷ xs) = ((46 == x) ≡ false) × Dotless xs

-- A name with a dot in it is none without.
same-dotted : (v w t : List ℕ) → Dotless t → same (v ++ 46 ∷ w) t ≡ false
unfolding same
same-dotted [] w [] h = refl
same-dotted [] w (x ∷ t) h = rw h.0 refl
same-dotted (a ∷ v) w [] h = refl
same-dotted (a ∷ v) w (x ∷ t) h =
    rw (same-dotted v w t h.1)
      (elim (a == x) as (λ b. (b && false) ≡ false) [ true ↦ refl | false ↦ refl ])

module _ {k : ℕ} where
  Runs-dotted_part : (n : ℕ) (name : List ℕ) → Runs k n none_ Named (dotted_part name)
  unfolding dotted_part
  Runs-dotted_part n name = Runs-bind (Runs-none Runs-ident) (λ part j m _.
      Runs-pure _ (omega arith) (λ _ _.
        same-dotted name part function_name
          (refl, (refl, (refl, (refl, (refl, (refl, (refl, (refl, tt))))))))))

  pub Runs-dotted_name : (n : ℕ) → Runs k n one Named dotted_name
  unfolding dotted_name
  Runs-dotted_name n =
      Runs-after (λ _. omega arith) Runs-ident
        (λ first j m h.
          Runs-while_eat (codes ".") dotted_part first tt (λ _ _. h)
            (λ name i more _. Runs-dotted_part i name))

  Runs-array_count : (n : ℕ) → Runs k n one Any array_count
  unfolding array_count
  Runs-array_count n =
      Runs-after (λ _. omega arith) Runs-take
        (λ t j m _.
          if_cases (Runs k j none_ Any) (not (is_token t.kind TokenKind.int))
            (λ _. Runs-fail t.loc array_integer)
            (λ _.
              if_cases (Runs k j none_ Any)
                (overflows t.text || strtoull t.text == 0 || ltb 10000000 (strtoull t.text))
                (λ _. Runs-fail t.loc array_length)
                (λ _.
                  Runs-bind (Runs-none (Runs-expect (codes "]") tt))
                    (λ _ i more _. Runs-pure (strtoull t.text) (omega arith) (λ _ _. tt)))))

  Runs-array_suffix : (n t : ℕ) → t < n → Runs k n none_ (Onward Address) (array_suffix t)
  unfolding array_suffix
  Runs-array_suffix n t h = Runs-bind (Runs-none (Runs-array_count n)) (λ count j m _.
      Runs-bind (Runs-typed _ (λ c s more. Makes-type_derive array t count c s (omega arith)))
        (λ u i more g. Runs-pure (some u) (omega arith) (λ o over. omega arith)))

  Runs-type_suffix : (n t : ℕ) → t < n → Runs k n onward (Onward Address) (type_suffix t)
  unfolding type_suffix
  Runs-type_suffix n t h =
      Runs-eat_any (codes "*") _ tt onward-le
        (Runs-bind (Runs-typed _ (λ c s more. Makes-type_derive ptr t 0 c s (omega arith)))
          (λ u i more g. Runs-pure (some u) (omega arith) (λ o over. omega arith)))
        (Runs-eat_any (codes "[") _ tt onward-le (Runs-array_suffix n t h)
          (Runs-pure none (omega arith) (λ _ _. tt)))

  Runs-qualify : (n : ℕ) (cn : Bool) (t : ℕ) → t < n → Runs k n none_ Address (qualify cn t)
  unfolding qualify
  Runs-qualify n true t h = Runs-typed _ (λ c s more. Makes-type_const t c s (omega arith))
  Runs-qualify n false t h = Runs-pure t (omega arith) (λ j m. omega arith)

-- The parts that go down only behind a token.
module _ {k : ℕ} (r : Below) (b : RunsBelow k r) where
  Runs-type_item :
      (j n : ℕ) (l : List ℕ) → j ≤ n → Addresses j l → Runs k n one Addresses (type_item r l)
  unfolding type_item
  Runs-type_item j n l m h =
      Runs-after (λ _. omega arith) (b.type_runs n)
        (λ t i more lt.
          Runs-pure _ (omega arith)
            (λ o over. Below-append o l t (Below-le j o l (omega arith) h) (omega arith)))

  pub Runs-type_items : (n : ℕ) (w : List ℕ) → Word w → Runs k n one Addresses (type_items r w)
  unfolding type_items
  Runs-type_items n w word =
      Runs-after (λ _. omega arith)
        (Runs-comma_list (type_item r) [] (λ _. omega arith) (λ _ _. tt)
          (λ l j m h. Runs-type_item j j l (omega arith) h))
        (λ l j m h. Runs-bind (Runs-split_shift k j w) (λ halved i more _.
          if_cases (Runs k i none_ Addresses) halved
            (λ _. Runs-pure l (omega arith) (λ o over. Below-le j o l (omega arith) h))
            (λ _.
              Runs-bind (Runs-none (Runs-expect w word)) (λ _ o over _.
                Runs-pure l (omega arith) (λ p up. Below-le j p l (omega arith) h)))))

  Runs-function_params : (n : ℕ) (empty : Bool) → Runs k n none_ Addresses (function_params r empty)
  unfolding function_params
  Runs-function_params n true = Runs-pure [] (omega arith) (λ _ _. tt)
  Runs-function_params n false = Runs-none (Runs-type_items n (codes ")") tt)

  Runs-function_end :
      (n ret : ℕ) (is_closure empty : Bool)
      → ret < n
      → Runs k n none_ Address (
          function_params r empty >>= λ params.
          expect (codes ">") >>= λ _. typed_result (type_function is_closure ret params))
  Runs-function_end n ret is_closure empty h =
      Runs-bind (Runs-function_params n empty) (λ params j m l.
        Runs-bind (Runs-none (Runs-expect (codes ">") tt)) (λ _ i more _.
          Runs-typed_result _ (λ c s over.
            Makes-type_function is_closure ret params c s (omega arith)
              (Below-le j _ params (omega arith) l))))

  Runs-function_type : (n : ℕ) (name : List ℕ) → Runs k n none_ Address (function_type r name)
  unfolding function_type
  Runs-function_type n name = Runs-bind (Runs-none (b.type_runs n)) (λ ret j m h.
      Runs-bind (Runs-none (Runs-expect (codes "(") tt)) (λ _ i more _.
        let end = λ (empty : Bool).
          Runs-function_end i ret (same name (codes "closure")) empty (omega arith) in
        Runs-eat_any (codes ")") _ tt (λ _. omega arith) (end true) (end false)))

  Runs-slice_type : (n : ℕ) (l : List ℕ) → Addresses n l → Runs k n none_ Address (slice_type l)
  unfolding slice_type
  Runs-slice_type n [] h = Runs-bind Runs-peek (λ t j m _. Runs-fail t.loc one_slice_type)
  Runs-slice_type n (t ∷ []) h =
      Runs-typed _ (λ c s more. Makes-type_derive slice t 0 c s (omega (arith, h.0)))
  Runs-slice_type n (t ∷ u ∷ l) h = Runs-bind Runs-peek (λ t j m _. Runs-fail t.loc one_slice_type)

  Runs-generic_type :
      (n : ℕ) (name : List ℕ) → Named n name → Runs k n none_ Address (generic_type r name)
  unfolding generic_type
  Runs-generic_type n name e = Runs-bind (Runs-none (Runs-type_items n (codes ">") tt)) (λ l j m h.
      if_cases (Runs k j none_ Address) (same name (codes "Slice")) (λ _. Runs-slice_type j l h)
        (λ _.
          Runs-typed_result _
            (λ c s more. Makes-type_generic name l c s (Below-le j _ l more h) e)))

  Runs-named_type : (n : ℕ) → Runs (suc k) n one Address (named_type r)
  unfolding named_type
  Runs-named_type n =
      Runs-then (λ _. omega arith) (Runs-dotted_name n)
        (λ name j m e.
          Runs-eat_any (codes "<") _ tt (λ _. omega arith)
            (if_cases (Runs k j none_ Address)
              (same name (codes "func") || same name (codes "closure"))
              (λ _. Runs-function_type j name) (λ _. Runs-generic_type j name e))
            (Runs-typed _ (λ c s more. Makes-type_named name c s)))

  Runs-tuple_type : (n : ℕ) → Runs k n none_ Address (tuple_type r)
  unfolding tuple_type
  Runs-tuple_type n =
      Runs-bind (Runs-none (Runs-type_items n (codes ")") tt)) (λ l j m h.
        Runs-typed_result _ (λ c s more. Makes-type_tuple l c s (Below-le j _ l more h)))

  Runs-type_core : (n : ℕ) → Runs (suc k) n one Address (type_core r)
  unfolding type_core
  Runs-type_core n =
      Runs-eat (codes "(") _ tt (λ _. omega arith) (Runs-tuple_type n) (Runs-named_type n)

  Runs-type_body : (n : ℕ) (cn : Bool) → Runs (suc k) n one Address (type_body r cn)
  unfolding type_body
  Runs-type_body n cn =
      Runs-after (λ _. omega arith) (Runs-type_core n)
        (λ t j m h. Runs-bind (Runs-qualify j cn t h) (λ u i more h2.
          Runs-repeat type_suffix u (λ v o p up h3. omega arith) (λ o over. omega arith)
            (λ v o over h3. Runs-type_suffix o v h3)))

  -- `parse_type` on a token more than the functions below it are known to end with.
  pub Runs-parse_type : (n : ℕ) → Runs (suc k) n one Address (parse_type r)
  unfolding parse_type
  Runs-parse_type n =
      Runs-eat_any (codes "const") _ tt (λ _. omega arith)
        (Runs-nested (Runs-none (Runs-type_body n true))) (Runs-nested (Runs-type_body n false))
