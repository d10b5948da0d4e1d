-- ===== src/Compiler/Parser/FunctionRuns.antt =====
-- The types of functions in a sound table, and the split of `>>`.
use tiny_cplus.Prelude.{
  ℕ, suc, ◌+◌, ◌<◌, ◌≤◌, ◌≡◌, refl, Bool, true, false, ◌&&◌, List, [], ◌∷◌, none, if◌then◌else◌,
  if_cases, length, ==_iff, drop, get_or, arith,
}
use tiny_cplus.Prelude.Text.{codes, same}
use tiny_cplus.Compiler.Loop.{ok, Ends}
use tiny_cplus.Compiler.Lexer.{Token}
use tiny_cplus.Compiler.Types.{named, is, Table, CType, add_type, func, closure, update}
use tiny_cplus.Compiler.Types.Create.{search_types, is_generic, type_generic}
use tiny_cplus.Compiler.Types.Equal.{Compare, equal_items, type_equal}
use tiny_cplus.Compiler.Types.Closed
use tiny_cplus.Compiler.Types.Closed.{IsSound, function_name, Refers, Below-le, PairsBelow-le}
use tiny_cplus.Compiler.Types.Keeps.{Makes, is_generic-kind}
use tiny_cplus.Compiler.Parser.{nothing, token_at}
use tiny_cplus.Compiler.Parser.TypeName.{split_shift, type_function}
use tiny_cplus.Compiler.Parser.Runs.{WellEnded, Post, Runs, none_, Any}
use tiny_cplus.Compiler.Parser.Steps.{same-nil, Post-here}

-- The head's text is changed.
WellEnded-halved :
    (ts : List Token)
    → WellEnded ts
    → same (get_or ts 0 nothing).text (codes ">>") ≡ true
    → WellEnded (record (get_or ts 0 nothing) { text = codes ">" } ∷ drop 1 ts)
      × (length (drop 1 ts) + 1 ≤ length ts)
unfolding same
WellEnded-halved [] w e = absurd w
WellEnded-halved (t ∷ []) w e = absurd (cc (w.1, e, same-nil (codes ">>") tt))
WellEnded-halved (t ∷ u ∷ ts) w e = ((w.0, refl, w.2), omega arith)

pub Runs-split_shift : (k n : ℕ) (w : List ℕ) → Runs k n none_ Any (split_shift w)
unfolding split_shift token_at
Runs-split_shift k n w = record {
  run = λ s i less more.
      if_cases (Ends (Post s none_ Any))
        (same w (codes ">") && same (get_or s.rest 0 nothing).text (codes ">>"))
        (λ e.
          let (h, l) = WellEnded-halved s.rest i.tokens (grind arith) in
          record {
            sound = record { tokens = h; table = i.table };
            same_depth = refl;
            grows = omega arith;
            eaten = omega (arith, l);
            value = tt;
          })
        (λ _. Post-here s false i tt);
}

-- No type of a sound table is a type of functions that the parser has made.
search_types-function :
    (equal : Compare) (items : List ℕ) (ts : List CType)
    → Closed.Closed ts
    → search_types
        (λ t. if is_generic function_name t then equal_items equal t.items items else ok false)
        ts
      ≡ ok none
unfolding search_types
search_types-function equal items [] c = refl
search_types-function equal items (t ∷ ts) (r, c) =
    rw r.not_function (search_types-function equal items ts c)

-- A new type of functions.
Makes-function :
    (c : Table) (t : CType)
    → IsSound c
    → Refers (length c.types) t
    → (d : ℕ) → Makes c (length c.types, record c { types = t ∷ c.types; next_id = d })
Makes-function c t s r d = record {
  sound = record {
    closed = (r, s.closed);
    builtin_below =
        PairsBelow-le (length c.types) (suc (length c.types)) c.builtin (omega arith)
          s.builtin_below;
  };
  more = omega arith;
  in_table = omega arith;
}

function_kind : (b : Bool) → is (if b then closure else func) named ≡ false
function_kind true = refl
function_kind false = refl

pub Makes-type_function :
    (b : Bool) (ret : ℕ) (params : List ℕ) (c : Table)
    → IsSound c
    → ret < length c.types
    → Closed.Below (length c.types) params
    → Ends (Makes c) (type_function b ret params c)
unfolding type_function type_generic add_type update
Makes-type_function b ret params c s h l =
    let here = (==_iff (length c.types) (length c.types)).1 refl in
    rw
      (
        search_types-function (type_equal (suc (length c.types)) c.types) params c.types s.closed,
        here,
      )
      (Makes-function c _ s
        (record {
          base_below = h;
          items_below = l;
          not_function = is_generic-kind _ (function_kind b);
        })
        (c.next_id + 1))
