-- ===== src/Audience/Lookup.antt =====
-- How internal/postgres/segments.go finds a profile by its key, and the conditions on which it agrees with internal/audience/evaluate.go.
use openjourney.Common.{
  guard_step, ok_inj, ◌≡◌, refl, sym, ap, ◌∙◌, Bool, true, false, not, ◌&&◌, ◌||◌, List, [], ◌∷◌,
  Option, none, some, String, ◌==◌, eq_iff, eq_refl, arith, contains, In, inl, inr, Option-cases,
  ok, err, >>=-eq-ok, is_empty,
}
use openjourney.Audience.Ast.{AstNode, AstNodes, ProfileAttribute, Score, Consent}
use openjourney.Audience.Sql.{Sql}
use openjourney.Audience.Shift.{shifted}
use openjourney.Audience.Compile.{
  Output, Compiled, is_safe, tested, attribute_test, score_test, compile_node, compile_attribute,
  compile_score,
}
use openjourney.Audience.Truth.{Truth, holds}
use openjourney.Audience.Matches.{Evaluated, compiled, stop_or}
use openjourney.Audience.Segment.{ProfileKey, lookup_id, all_ids}

abbrev pub is_holds : Truth → Bool
is_holds holds = true
is_holds _ = false

-- The texts that one attribute or one score has.
abbrev pub is_comparison : Sql → Bool
is_comparison (Sql.attribute name test n) = true
is_comparison (Sql.score m s test n) = true
is_comparison _ = false

-- Conditions without events and without a group that is empty.
mutual
  pub data IsStored : AstNode → Type 0 where
    every :
        {n : AstNode} {ns : AstNodes}
        → AreStored (AstNodes.cons n ns)
        → IsStored (AstNode.and (AstNodes.cons n ns))
    some_of : {ns : AstNodes} → AreStored ns → IsStored (AstNode.or ns)
    negated : {n : AstNode} → IsStored n → IsStored (AstNode.not n)
    attribute : {a : ProfileAttribute} → IsStored (AstNode.profile_attribute a)
    score : {s : Score} → IsStored (AstNode.score s)
    consent : {c : Consent} → IsStored (AstNode.consent c)

  pub data AreStored : AstNodes → Type 0 where
    nil : AreStored AstNodes.nil
    cons :
        {n : AstNode} {ns : AstNodes} → IsStored n → AreStored ns → AreStored (AstNodes.cons n ns)

absent : (o : Option String) (id : String) → o ≡ none → o ≡ some id → ⊥
absent none id missing found = ground arith
absent (some i) id missing found = ground arith

-- A profile's key finds it among rows that hold no other profile with that key.
pub lookup-In :
    (key : String → String) (ps : List ProfileKey) (wanted id : String)
    → lookup_id key ps wanted ≡ some id
    → (p : ProfileKey) × In p ps × (p.id ≡ id) × (key p.external_id ≡ wanted)
unfolding lookup_id
lookup-In key [] wanted id h = absurd (ground arith)
lookup-In key (p ∷ ps) wanted id h = elim (Option-cases (lookup_id key ps wanted)) [
  | inr (i, later) ↦
      let (q, member, e, k) = lookup-In key ps wanted i later in
      (q, inr member, e ∙ ground arith, k)
  | inl none_later ↦ (p, inl refl, ground arith, ground (arith, eq_iff (key p.external_id) wanted))
]

pub lookup-own :
    (ps : List ProfileKey) (p : ProfileKey)
    → In p ps
    → is_empty p.external_id ≡ false
    → ((q : ProfileKey) → In q ps → q.external_id ≡ p.external_id → q.id ≡ p.id)
    → lookup_id (λ e. e) ps p.external_id ≡ some p.id
unfolding lookup_id
lookup-own [] p member named own = absurd member
lookup-own (q ∷ ps) p member named own = elim (Option-cases (lookup_id (λ e. e) ps p.external_id)) [
  | inr (i, later) ↦
      let (r, r_in, e, k) = lookup-In (λ e. e) ps p.external_id i later in
      rw (later, sym e, own r (inr r_in) k)
  | inl none_later ↦ elim member [
    | inl first ↦ rw (none_later, sym first, named, eq_refl p.external_id)
    | inr rest ↦ absurd (
        absent (lookup_id (λ e. e) ps p.external_id) p.id none_later
          (lookup-own ps p rest named λ r r_in. own r (inr r_in)))
  ]
]

pub compiled-ok : {A : Type 0} (r : Compiled A) (a : A) → compiled r ≡ ok a → r ≡ ok a
compiled-ok (ok b) a h = ap ok (ok_inj h)
compiled-ok (err e) a h = absurd (ground arith)

-- The condition has the text of one comparison.
unfoldable pub IsLeaf : AstNode → Type 0
IsLeaf n =
    (out : Output)
    → compile_node n [] ≡ ok out
    → (e : Sql) × (out.0 ≡ some e) × (is_comparison e ≡ true)

pub attribute-IsLeaf : (a : ProfileAttribute) → IsLeaf (AstNode.profile_attribute a)
unfolding IsLeaf compile_node compile_attribute
attribute-IsLeaf a out h =
    let (_, h1) = guard_step (is_safe a.field_name) _ _ h in
    let (test, _, h2) = >>=-eq-ok (tested a.operator (attribute_test a.operator)) _ h1 in
    (_, ap (λ o. o.0) (sym (ok_inj h2)), refl)

pub score-IsLeaf : (s : Score) → IsLeaf (AstNode.score s)
unfolding IsLeaf compile_node compile_score
score-IsLeaf s out h =
    let (_, h1) = guard_step (not (is_empty s.model)) _ _ h in
    let (_, h2) = guard_step (not (is_empty s.score_name)) _ _ h1 in
    let (test, _, h3) = >>=-eq-ok (tested s.operator (score_test s.operator)) _ h2 in
    (_, ap (λ o. o.0) (sym (ok_inj h3)), refl)

pub and_true : (b : Bool) → (b && true) ≡ b
and_true true = refl
and_true false = refl

pub and_assoc : (a b c : Bool) → ((a && b) && c) ≡ (a && (b && c))
and_assoc a b c = ground arith

pub or_swap : (a b c : Bool) → ((a || b) || c) ≡ (b || (a || c))
or_swap a b c = ground arith

pub contains_nil : (id : String) (b : Bool) → (contains [] id || b) ≡ b
unfolding contains
contains_nil id b = refl

pub or_false : (b : Bool) → (b || false) ≡ b
or_false true = refl
or_false false = refl

or-true : (b : Bool) → (b || true) ≡ true
or-true true = refl
or-true false = refl

pub contains-all_ids :
    (ps : List ProfileKey) (p : ProfileKey) → In p ps → contains (all_ids ps) p.id ≡ true
unfolding contains
contains-all_ids [] p member = absurd member
contains-all_ids (q ∷ ps) p (inl first) = rw (sym first, eq_refl p.id)
contains-all_ids (q ∷ ps) p (inr rest) = rw (contains-all_ids ps p rest) (or-true (q.id == p.id))

pub stop_or-and : (m b : Bool) (r : Evaluated Bool) → r ≡ ok b → stop_or m false r ≡ ok (m && b)
stop_or-and true b r h = h
stop_or-and false b r h = refl

pub stop_or-or : (m b : Bool) (r : Evaluated Bool) → r ≡ ok b → stop_or (not m) true r ≡ ok (m || b)
stop_or-or true b r h = refl
stop_or-or false b r h = h

pub is_comparison-shifted : (e : Sql) → is_comparison e ≡ true → is_comparison (shifted e) ≡ true
unfolding shifted
is_comparison-shifted (Sql.attribute name test n) one = refl
is_comparison-shifted (Sql.score m s test n) one = refl
is_comparison-shifted (Sql.company name test n) one = absurd (ground arith)
is_comparison-shifted (Sql.consent c t s) one = absurd (ground arith)
is_comparison-shifted (Sql.every parts) one = absurd (ground arith)
is_comparison-shifted (Sql.some_of parts) one = absurd (ground arith)
is_comparison-shifted (Sql.negated part) one = absurd (ground arith)
