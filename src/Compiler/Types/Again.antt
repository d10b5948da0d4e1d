-- ===== src/Compiler/Types/Again.antt =====
-- A type that is asked for twice is made once.
use tiny_cplus.Prelude.{
  ℕ, ◌+◌, ◌≡◌, refl, Bool, true, false, ◌&&◌, ◌||◌, List, ◌∷◌, ◌++◌, Option, none, some, ◌==◌,
  ==_iff,
}
use tiny_cplus.Prelude.Text.{codes, same, same_self}
use tiny_cplus.Compiler.Types
use tiny_cplus.Compiler.Types.{
  TypeKind, index, is, named, enum, CType, Table, zeroed, fetch, add_type, lookup,
}
use tiny_cplus.Compiler.Types.Create.{
  known, type_primitive, type_class, type_alias, named_as, type_named, same_base, type_derive,
  derived_name, derived_cname, kind_of, primitives, aliases, no_items,
}

eq_self : (n : ℕ) → (n == n) ≡ true
eq_self n = (==_iff n n).1 refl

-- A test that the new type passes finds it, whatever would be made in its stead.
known_again :
    (p : CType → Bool) (fields : ℕ → CType) (c : Table) (other : ℕ × Table) (found : Option ℕ)
    → p (fields (c.next_id + 1)) ≡ true
    → Types.find p c.types ≡ found
    → known
        (Types.find p (known found c (add_type fields c)).1.types)
        (known found c (add_type fields c)).1
        other
      ≡ known found c (add_type fields c)
unfolding Types.find add_type
known_again p fields c other none h e = rw h refl
known_again p fields c other (some a) h e = rw e refl

-- A pointer, an array or a slice of the same type and length that is asked for twice is one type,
-- and the second time the table stays as it is.
pub type_derive-again :
    (k : TypeKind) (base count : ℕ) (c : Table)
    → type_derive k base count (type_derive k base count c).1 ≡ type_derive k base count c
unfolding type_derive
type_derive-again k base count c =
    known_again (λ t. is t.kind k && same_base t.base (some base) && t.count == count)
      (λ id. record (zeroed k id) {
        base = some base;
        count = count;
        name = derived_name k (fetch c.types base).name count;
        cname = derived_cname k (fetch c.types base).cname id;
      })
      c _
      (Types.find (λ t. is t.kind k && same_base t.base (some base) && t.count == count) c.types)
      (rw (eq_self (index k), eq_self base, eq_self count) refl) refl

primitive_again :
    (k : TypeKind) (c d : Table) (a : ℕ) (other : ℕ × Table) (found : Option ℕ)
    → lookup (index k) c.builtin ≡ found
    → known
        (lookup
          (index k)
          (known found c (a, record d { builtin = (index k, a) ∷ d.builtin })).1.builtin)
        (known found c (a, record d { builtin = (index k, a) ∷ d.builtin })).1
        other
      ≡ known found c (a, record d { builtin = (index k, a) ∷ d.builtin })
unfolding lookup
primitive_again k c d a other none e = rw (eq_self (index k)) refl
primitive_again k c d a other (some b) e = rw e refl

type_primitive-again :
    (k : TypeKind) (c : Table) → type_primitive k (type_primitive k c).1 ≡ type_primitive k c
unfolding type_primitive
type_primitive-again k c = primitive_again k c _ _ _ (lookup (index k) c.builtin) refl

type_class-again :
    (name : List ℕ) (c : Table) → type_class name (type_class name c).1 ≡ type_class name c
unfolding type_class
type_class-again name c =
    known_again (λ t. (is t.kind named || is t.kind enum) && no_items t.items && same t.name name)
      (λ id. record (zeroed named id) { name = name; cname = codes "tc_" ++ name }) c _
      (Types.find (λ t. (is t.kind named || is t.kind enum) && no_items t.items && same t.name name)
        c.types)
      (rw (same_self name) refl) refl

type_alias-again :
    (name : List ℕ) (k : Option TypeKind) (c : Table)
    → type_alias name k (type_alias name k c).1 ≡ type_alias name k c
unfolding type_alias
type_alias-again name none c = type_class-again name c
type_alias-again name (some k) c = type_primitive-again k c

named_as-again :
    (name : List ℕ) (k : Option TypeKind) (c : Table)
    → same name (codes "size_t") ≡ false
    → named_as name k (named_as name k c).1 ≡ named_as name k c
unfolding named_as
named_as-again name (some k) c h = type_primitive-again k c
named_as-again name none c h = rw h (type_alias-again name (kind_of name aliases) c)

-- A name other than size_t, be it of a primitive type, an alias, or of a class, that is asked for twice
-- stands for one type, and the second time the table stays as it is.
pub type_named-again :
    (name : List ℕ) (c : Table)
    → same name (codes "size_t") ≡ false
    → type_named name (type_named name c).1 ≡ type_named name c
unfolding type_named
type_named-again name c h = named_as-again name (kind_of name primitives) c h
