-- ===== src/Compiler/Types/Keeps.antt =====
-- What finds or makes a type keeps the table sound, and gives an address in it.
use tiny_cplus.Prelude.{
  ℕ, suc, ◌+◌, ◌<◌, ◌≤◌, ◌≡◌, refl, sym, Bool, false, List, [], ◌∷◌, Option, none, some, ◌==◌,
  if_cases, length, arith,
}
use mathlib.Core.Path.{subst}
use tiny_cplus.Prelude.Text.{codes, same}
use tiny_cplus.Compiler.Loop.{Result, Ends, Ends-and_then, Ends-le}
use tiny_cplus.Compiler.Types
use tiny_cplus.Compiler.Types.{
  TypeKind, ptr, array, slice, tuple, func, closure, named, enum, index, is, u64, primitive_name,
  primitive_cname, CType, Table, fetch, zeroed, add_type, lookup,
}
use tiny_cplus.Compiler.Types.Equal.{type_equal}
use tiny_cplus.Compiler.Types.Create.{
  known, type_primitive, type_size, type_class, type_alias, named_as, type_named, type_derive,
  search_types, type_tuple, type_generic, is_generic, type_const, kind_of, primitives, aliases,
}
use tiny_cplus.Compiler.Types.Closed.{
  BaseBelow, Below, function_name, Refers, Closed, PairsBelow, IsSound, PairsBelow-le, Refers-fetch,
  BaseBelow-le, Below-le,
}
use tiny_cplus.Compiler.Types.Finishes.{
  Finishes, Finishes-equal_types, Finishes-equal_items, Finishes-type_equal, Closed-Older,
}

-- From a table to a later one, with an address in it.
pub record Makes (c : Table) (r : ℕ × Table) : Type 0 where
  pub sound : IsSound r.1
  pub more : length c.types ≤ length r.1.types
  pub in_table : r.0 < length r.1.types

Makes-known :
    (found : Option ℕ) (c : Table) (made : ℕ × Table)
    → IsSound c
    → BaseBelow (length c.types) found
    → Makes c made
    → Makes c (known found c made)
Makes-known none c made s h m = m
Makes-known (some a) c made s h m = record { sound = s; more = omega arith; in_table = h }

BaseBelow-find : (p : CType → Bool) (ts : List CType) → BaseBelow (length ts) (Types.find p ts)
unfolding Types.find
BaseBelow-find p [] = tt
BaseBelow-find p (t ∷ ts) =
    if_cases (BaseBelow (suc (length ts))) (p t) (λ _. omega arith)
      (λ _.
        BaseBelow-le (length ts) (suc (length ts)) (Types.find p ts) (omega arith)
          (BaseBelow-find p ts))

BaseBelow-lookup : (n k : ℕ) (l : List (ℕ × ℕ)) → PairsBelow n l → BaseBelow n (lookup k l)
unfolding lookup
BaseBelow-lookup n k [] h = tt
BaseBelow-lookup n k ((j, a) ∷ l) (h, r) =
    if_cases (BaseBelow n) (j == k) (λ _. h) (λ _. BaseBelow-lookup n k l r)

pub Makes-add_type :
    (c : Table) (fields : ℕ → CType)
    → IsSound c
    → Refers (length c.types) (fields (c.next_id + 1))
    → Makes c (add_type fields c)
unfolding add_type
Makes-add_type c fields s r = record {
  sound = record {
    closed = (r, s.closed);
    builtin_below =
        PairsBelow-le (length c.types) (suc (length c.types)) c.builtin (omega arith)
          s.builtin_below;
  };
  more = omega arith;
  in_table = omega arith;
}

is_generic-plain : (t : CType) → t.items ≡ [] → is_generic function_name t ≡ false
unfolding is_generic
is_generic-plain t e = ground arith

is_generic-ne : (t : CType) → same t.name function_name ≡ false → is_generic function_name t ≡ false
unfolding is_generic
is_generic-ne t e = ground arith

pub is_generic-kind : (t : CType) → is t.kind named ≡ false → is_generic function_name t ≡ false
unfolding is_generic
is_generic-kind t e = ground arith

-- A type without items.
Refers-plain : (n : ℕ) (t : CType) → BaseBelow n t.base → t.items ≡ [] → Refers n t
Refers-plain n t b e = record {
  base_below = b;
  items_below = subst (Below n) (sym e) tt;
  not_function = is_generic-plain t e;
}

pub Makes-type_primitive : (k : TypeKind) (c : Table) → IsSound c → Makes c (type_primitive k c)
unfolding type_primitive
Makes-type_primitive k c s =
    let fields : ℕ → CType =
      λ id. record (zeroed k id) { name = primitive_name k; cname = primitive_cname k } in
    let m =
      Makes-add_type c fields s (Refers-plain (length c.types) (fields (c.next_id + 1)) tt refl) in
    Makes-known (lookup (index k) c.builtin) c _ s
      (BaseBelow-lookup (length c.types) (index k) c.builtin s.builtin_below)
      (record {
        sound = record {
          closed = m.sound.closed;
          builtin_below = (m.in_table, m.sound.builtin_below);
        };
        more = m.more;
        in_table = m.in_table;
      })

-- A copy of a type of the table, under a name that is not that of functions.
Makes-copy :
    (c d : Table) (a : ℕ) (t : CType)
    → Makes c (a, d)
    → BaseBelow a t.base
    → Below a t.items
    → same t.name function_name ≡ false
    → Refers (length d.types) t
Makes-copy c d a t m b i e = record {
  base_below = BaseBelow-le a (length d.types) t.base (omega (arith, m.in_table)) b;
  items_below = Below-le a (length d.types) t.items (omega (arith, m.in_table)) i;
  not_function = is_generic-ne t e;
}

Makes-type_size : (c : Table) → IsSound c → Makes c (type_size c)
unfolding type_size same
Makes-type_size c s =
    let r = type_primitive u64 c in
    let m = Makes-type_primitive u64 c s in
    let f = Refers-fetch r.1.types r.0 m.sound.closed in
    Makes-known _ c _ s (BaseBelow-find _ c.types) (record {
      sound = record {
        closed = (Makes-copy c r.1 r.0 _ m f.base_below f.items_below refl, m.sound.closed);
        builtin_below =
            PairsBelow-le (length r.1.types) (suc (length r.1.types)) r.1.builtin (omega arith)
              m.sound.builtin_below;
      };
      more = omega (arith, m.more);
      in_table = omega arith;
    })

Makes-type_class : (name : List ℕ) (c : Table) → IsSound c → Makes c (type_class name c)
unfolding type_class
Makes-type_class name c s =
    Makes-known _ c _ s (BaseBelow-find _ c.types)
      (Makes-add_type c _ s (Refers-plain (length c.types) _ tt refl))

Makes-type_alias :
    (name : List ℕ) (k : Option TypeKind) (c : Table) → IsSound c → Makes c (type_alias name k c)
unfolding type_alias
Makes-type_alias name none c s = Makes-type_class name c s
Makes-type_alias name (some k) c s = Makes-type_primitive k c s

Makes-named_as :
    (name : List ℕ) (k : Option TypeKind) (c : Table) → IsSound c → Makes c (named_as name k c)
unfolding named_as
Makes-named_as name (some k) c s = Makes-type_primitive k c s
Makes-named_as name none c s =
    if_cases (Makes c) (same name (codes "size_t")) (λ _. Makes-type_size c s)
      (λ _. Makes-type_alias name (kind_of name aliases) c s)

-- On every sound table and for every name `type_named` gives an address in a sound table that has at
-- least as many types.
pub Makes-type_named : (name : List ℕ) (c : Table) → IsSound c → Makes c (type_named name c)
unfolding type_named
Makes-type_named name c s = Makes-named_as name (kind_of name primitives) c s

pub Makes-type_derive :
    (k : TypeKind) (base count : ℕ) (c : Table)
    → IsSound c
    → base < length c.types
    → Makes c (type_derive k base count c)
unfolding type_derive
Makes-type_derive k base count c s h =
    Makes-known _ c _ s (BaseBelow-find _ c.types)
      (Makes-add_type c _ s (Refers-plain (length c.types) _ h refl))

pub Makes-type_const :
    (base : ℕ) (c : Table) → IsSound c → base < length c.types → Makes c (type_const base c)
unfolding type_const same
Makes-type_const base c s h =
    let here : Makes c (base, c) = record { sound = s; more = omega arith; in_table = h } in
    let f = Refers-fetch c.types base s.closed in
    if_cases (Makes c) (fetch c.types base).qualified (λ _. here)
      (λ _.
        Makes-known _ c _ s (BaseBelow-find _ c.types)
          (Makes-add_type c _ s (Makes-copy c c base _ here f.base_below f.items_below refl)))

abbrev FoundBelow : ℕ → Result (Option ℕ) → Type 0
FoundBelow n r = Ends (BaseBelow n) r

Finishes-search_types :
    (accepts : CType → Result Bool) (ts : List CType)
    → ((t : CType) (n : ℕ) → n < length ts → Refers n t → Finishes (accepts t))
    → Closed ts
    → FoundBelow (length ts) (search_types accepts ts)
unfolding search_types
Finishes-search_types accepts [] h k = tt
Finishes-search_types accepts (t ∷ ts) h (r, k) =
    let n = length ts in
    Ends-and_then (λ _. Unit) (BaseBelow (suc n)) (accepts t) _ (h t n (omega arith) r)
      (λ b _.
        if_cases (FoundBelow (suc n)) b (λ _. omega arith)
          (λ _.
            Ends-le (BaseBelow n) (BaseBelow (suc n)) (search_types accepts ts)
              (λ o q. BaseBelow-le n (suc n) o (omega arith) q)
              (Finishes-search_types accepts ts (λ u m less. h u m (omega arith)) k)))

-- On every sound table and for items in it, the search of `type_tuple` ends and it gives an address
-- in a sound table that has at least as many types.
pub Makes-type_tuple :
    (items : List ℕ) (c : Table)
    → IsSound c
    → Below (length c.types) items
    → Ends (Makes c) (type_tuple items c)
unfolding type_tuple
Makes-type_tuple items c s b =
    let n = length c.types in
    Ends-and_then (BaseBelow n) (Makes c) _ _
      (Finishes-search_types _ c.types
        (λ t m less r.
          Finishes-equal_types n (type_equal (suc n) c.types) t _
            (Finishes-type_equal n c.types (Closed-Older c.types s.closed))
            (BaseBelow-le m n t.base (omega arith) r.base_below)
            (Below-le m n t.items (omega arith) r.items_below))
        s.closed)
      (λ found h. Makes-known found c _ s h (
        Makes-add_type c _ s
          (record { base_below = tt; items_below = b; not_function = is_generic-kind _ refl })))

-- On every sound table, for items in it and a name other than "Function", the search of
-- `type_generic` ends and it gives an address in a sound table that has at least as many types.
pub Makes-type_generic :
    (name items : List ℕ) (c : Table)
    → IsSound c
    → Below (length c.types) items
    → same name function_name ≡ false
    → Ends (Makes c) (type_generic name items c)
unfolding type_generic
Makes-type_generic name items c s b e =
    let n = length c.types in
    Ends-and_then (BaseBelow n) (Makes c) _ _
      (Finishes-search_types _ c.types
        (λ t m less r.
          if_cases Finishes (is_generic name t)
            (λ _.
              Finishes-equal_items n (type_equal (suc n) c.types) t.items items
                (Finishes-type_equal n c.types (Closed-Older c.types s.closed))
                (Below-le m n t.items (omega arith) r.items_below))
            (λ _. tt))
        s.closed)
      (λ found h. Makes-known found c _ s h (
        Makes-add_type c _ s
          (record { base_below = tt; items_below = b; not_function = is_generic-ne _ e })))
