-- ===== src/Compiler/Semantic/Paths.antt =====
-- What `returns` decides, by the ways through a statement.
use tiny_cplus.Prelude.{
  ◌≡◌, ◌≢◌, refl, sym, ap, ◌∙◌, ◌⊎◌, ◌↔◌, inl, inr, Bool, true, false, ◌&&◌, ◌||◌, Bool-cases,
}
use tiny_cplus.Compiler.Parser.Tree.{NodeKind, return, block, if_, switch, Info, Node, absent, node}
use tiny_cplus.Compiler.Semantic.{exhaustive, Verdict, judge, verdict, returns}

-- A statement by itself, statements one after another, and the cases of a switch
pub data Mode : Type 0 where
  alone sequence cases : Mode

-- There is a way through it other than by a return statement: through every statement of a block in
-- turn, through one branch of an if, through one case of a switch or past the cases where they are
-- not exhaustive, and through every statement of another kind; a break or a continue is taken for
-- one of these.
pub data Through : Mode → Node → Type 0 where
  nothing : Through alone absent
  other :
      (i : Info) (a b c body params args next : Node)
      → i.kind ≢ return
      → i.kind ≢ block
      → i.kind ≢ if_
      → i.kind ≢ switch
      → Through alone (node i a b c body params args next)
  in_block :
      (i : Info) (a b c body params args next : Node)
      → i.kind ≡ block
      → Through sequence body
      → Through alone (node i a b c body params args next)
  by_then :
      (i : Info) (a b c body params args next : Node)
      → i.kind ≡ if_
      → Through alone body
      → Through alone (node i a b c body params args next)
  by_else :
      (i : Info) (a b c body params args next : Node)
      → i.kind ≡ if_
      → Through alone b
      → Through alone (node i a b c body params args next)
  by_case :
      (i : Info) (a b c body params args next : Node)
      → i.kind ≡ switch
      → Through cases body
      → Through alone (node i a b c body params args next)
  past_cases :
      (i : Info) (a b c body params args next : Node)
      → i.kind ≡ switch
      → exhaustive i ≡ false
      → Through alone (node i a b c body params args next)
  at_end : Through sequence absent
  in_turn :
      (i : Info) (a b c body params args next : Node)
      → Through alone (node i a b c body params args next)
      → Through sequence next
      → Through sequence (node i a b c body params args next)
  this_case :
      (i : Info) (a b c body params args next : Node)
      → Through alone body
      → Through cases (node i a b c body params args next)
  later_case :
      (i : Info) (a b c body params args next : Node)
      → Through cases next
      → Through cases (node i a b c body params args next)

abbrev pub says : Mode → Verdict → Bool
says alone v = v.alone
says sequence v = v.some_of
says cases v = v.all_bodies

both_hold : (x y : Bool) → (x && y) ≡ true → (x ≡ true) × (y ≡ true)
both_hold true true e = (refl, refl)
both_hold true false e = absurd (cc e)
both_hold false y e = absurd (cc e)

one_holds : (x y : Bool) → (x || y) ≡ true → (x ≡ true) ⊎ (y ≡ true)
one_holds true y e = inl refl
one_holds false y e = inr e

one_fails : (x y : Bool) → (x && y) ≡ false → (x ≡ false) ⊎ (y ≡ false)
one_fails true y e = inr e
one_fails false y e = inl refl

both_fail : (x y : Bool) → (x || y) ≡ false → (x ≡ false) × (y ≡ false)
both_fail false false e = (refl, refl)
both_fail false true e = absurd (cc e)
both_fail true y e = absurd (cc e)

judge-other :
    (k : NodeKind) (i : Info) (v w : Verdict)
    → k ≢ return
    → k ≢ block
    → k ≢ if_
    → k ≢ switch
    → judge k i v w ≡ true
    → ⊥
unfolding judge
judge-other return i v w r s t u e = r refl
judge-other block i v w r s t u e = s refl
judge-other if_ i v w r s t u e = t refl
judge-other switch i v w r s t u e = u refl
judge-other _ i v w r s t u e = absurd (cc e)

-- Where `returns` holds there is no way through.
no_way : (m : Mode) (n : Node) → says m (verdict n) ≡ true → Through m n → ⊥
unfolding verdict judge
no_way m n e nothing = absurd (cc e)
no_way m n e (other i a b c body params args next r s t u) =
    judge-other i.kind i (verdict body) (verdict b) r s t u e
no_way m n e (in_block i a b c body params args next k w) =
    no_way sequence body (ap (λ z. judge z i (verdict body) (verdict b)) (sym k) ∙ e) w
no_way m n e (by_then i a b c body params args next k w) =
    no_way alone body (both_hold _ _ (ap (λ z. judge z i (verdict body) (verdict b)) (sym k) ∙ e)).0
      w
no_way m n e (by_else i a b c body params args next k w) =
    no_way alone b (both_hold _ _ (ap (λ z. judge z i (verdict body) (verdict b)) (sym k) ∙ e)).1 w
no_way m n e (by_case i a b c body params args next k w) =
    no_way cases body (both_hold _ _ (ap (λ z. judge z i (verdict body) (verdict b)) (sym k) ∙ e)).1
      w
no_way m n e (past_cases i a b c body params args next k w) =
    absurd
      (cc (sym (both_hold _ _ (ap (λ z. judge z i (verdict body) (verdict b)) (sym k) ∙ e)).0 ∙ w))
no_way m n e at_end = absurd (cc e)
no_way m n e (in_turn i a b c body params args next v w) = elim (one_holds _ _ e) [
  | inl f ↦ no_way alone (node i a b c body params args next) f v
  | inr f ↦ no_way sequence next f w
]
no_way m n e (this_case i a b c body params args next w) = no_way alone body (both_hold _ _ e).0 w
no_way m n e (later_case i a b c body params args next w) = no_way cases next (both_hold _ _ e).1 w

-- The way through a node of this kind, from the ways through its parts
way_of :
    (k : NodeKind) (i : Info) (a b c body params args next : Node)
    → i.kind ≡ k
    → judge k i (verdict body) (verdict b) ≡ false
    → ((m : Mode) → says m (verdict body) ≡ false → Through m body)
    → ((verdict b).alone ≡ false → Through alone b)
    → Through alone (node i a b c body params args next)
unfolding judge
way_of return i a b c body params args next k e f g = absurd (cc e)
way_of block i a b c body params args next k e f g =
    in_block i a b c body params args next k (f sequence e)
way_of if_ i a b c body params args next k e f g = elim (one_fails _ _ e) [
  | inl h ↦ by_then i a b c body params args next k (f alone h)
  | inr h ↦ by_else i a b c body params args next k (g h)
]
way_of switch i a b c body params args next k e f g = elim (one_fails _ _ e) [
  | inl h ↦ past_cases i a b c body params args next k h
  | inr h ↦ by_case i a b c body params args next k (f cases h)
]
way_of _ i a b c body params args next k e f g =
    other i a b c body params args next (λ h. absurd (cc (sym k ∙ h)))
      (λ h. absurd (cc (sym k ∙ h))) (λ h. absurd (cc (sym k ∙ h))) (λ h. absurd (cc (sym k ∙ h)))

-- Where `returns` does not hold there is a way through.
a_way : (m : Mode) (n : Node) → says m (verdict n) ≡ false → Through m n
unfolding verdict
a_way alone absent e = nothing
a_way sequence absent e = at_end
a_way cases absent e = absurd (cc e)
a_way alone (node i a b c body params args next) e =
    way_of i.kind i a b c body params args next refl e (λ m. a_way m body) (a_way alone b)
a_way sequence (node i a b c body params args next) e =
    let (f, g) = both_fail _ _ e in
    in_turn i a b c body params args next
      (way_of i.kind i a b c body params args next refl f (λ m. a_way m body) (a_way alone b))
      (a_way sequence next g)
a_way cases (node i a b c body params args next) e = elim (one_fails _ _ e) [
  | inl f ↦ this_case i a b c body params args next (a_way alone body f)
  | inr f ↦ later_case i a b c body params args next (a_way cases next f)
]

-- `returns` holds of a statement exactly where there is no way through it other than by a return
-- statement.
pub returns_lem : (n : Node) → (returns n ≡ true) ↔ (Through alone n → ⊥)
unfolding returns
returns_lem n = (
  no_way alone n,
  λ none_through. elim (Bool-cases (verdict n).alone) [
    | inl e ↦ e
    | inr e ↦ absurd (none_through (a_way alone n e))
  ],
)
