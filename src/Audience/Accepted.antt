-- ===== src/Audience/Accepted.antt =====
-- Which errors of internal/audience/compile_pg.go remain for a condition that internal/audience/parse.go
-- accepts.
use openjourney.Common.{
  ◌≡◌, ◌≢◌, refl, sym, subst, ◌⊎◌, inl, inr, false, not, List, [], String, eq_iff, arith, In,
  Bool-cases, ok, err, ◌>>=◌, guard, is_empty,
}
use openjourney.Json.{RawMessage}
use openjourney.Audience.Ast.{AstNode, AstNodes, ProfileAttribute, Company, Score}
use openjourney.Audience.Parse.{parse}
use openjourney.Audience.RawNode.{attribute_operators, company_operators, score_operators}
use openjourney.Audience.WellFormed.{parse-IsWellFormed}
use openjourney.Audience.Decoding.{IsWellFormed, AreWellFormed, IsAttribute, IsCompany, IsScore}
use openjourney.Audience.Sql.{Test}
use openjourney.Audience.Compile.{
  Arg, CompileError, Compiled, is_safe, tested, attribute_test, company_test, score_test,
  compile_node, compile_parts, compile_attribute, compile_consent, compile_score, compile_company,
  SqlQuery, compile_profile,
}

-- An output, or the error that a field name has.
abbrev IsFine : {A : Type 0} → Compiled A → Type 0
IsFine {A} r =
    ((a : A) × (r ≡ ok a)) ⊎ ((name : String) × (r ≡ err (CompileError.unsafe_field name)))

>>=-IsFine :
    {A B : Type 0} (r : Compiled A) (k : A → Compiled B)
    → IsFine r
    → ((a : A) → IsFine (k a))
    → IsFine (r >>= k)
>>=-IsFine r k (inl (a, e)) rest = elim (rest a) [
  | inl (b, e') ↦ inl (b, rw (e, e'))
  | inr (name, e') ↦ inr (name, rw (e, e'))
]
>>=-IsFine r k (inr (name, e)) rest = inr (name, rw e)

ok-IsFine : {A : Type 0} (a : A) → IsFine (ok a)
ok-IsFine a = inl (a, refl)

safe_guard-IsFine : (name : String) → IsFine (guard (is_safe name) (CompileError.unsafe_field name))
safe_guard-IsFine name = elim (Bool-cases (is_safe name)) [
  | inl safe ↦ inl (tt, rw safe)
  | inr unsafe ↦ inr (name, rw unsafe)
]

attribute-tested :
    (operator : String)
    → In operator attribute_operators
    → IsFine (tested operator (attribute_test operator))
unfolding tested attribute_test
attribute-tested operator known =
    let of_name : (name : String)
        → operator ≡ name
        → IsFine (tested name (attribute_test name))
        → IsFine (tested operator (attribute_test operator)) =
      λ name e. subst (λ o. IsFine (tested o (attribute_test o))) (sym e) in
    elim known [
      | inl e ↦ of_name "equals" e (ok-IsFine Test.equal)
      | inr (inl e) ↦ of_name "contains" e (ok-IsFine Test.like)
      | inr (inr (inl e)) ↦ of_name "in" e (ok-IsFine Test.any_of)
      | inr (inr (inr (inl e))) ↦ of_name "greater_than" e (ok-IsFine Test.greater)
      | inr (inr (inr (inr (inl e)))) ↦ of_name "less_than" e (ok-IsFine Test.less)
      | inr (inr (inr (inr (inr e)))) ↦ absurd e
    ]

company-tested :
    (operator : String)
    → In operator company_operators
    → IsFine (tested operator (company_test operator))
unfolding tested company_test
company-tested operator known =
    let of_name : (name : String)
        → operator ≡ name
        → IsFine (tested name (company_test name))
        → IsFine (tested operator (company_test operator)) =
      λ name e. subst (λ o. IsFine (tested o (company_test o))) (sym e) in
    elim known [
      | inl e ↦ of_name "equals" e (ok-IsFine Test.equal)
      | inr (inl e) ↦ of_name "contains" e (ok-IsFine Test.like)
      | inr (inr (inl e)) ↦ of_name "in" e (ok-IsFine Test.any_of)
      | inr (inr (inr e)) ↦ absurd e
    ]

score-tested :
    (operator : String)
    → In operator score_operators
    → IsFine (tested operator (score_test operator))
unfolding tested score_test
score-tested operator known =
    let of_name : (name : String)
        → operator ≡ name
        → IsFine (tested name (score_test name))
        → IsFine (tested operator (score_test operator)) =
      λ name e. subst (λ o. IsFine (tested o (score_test o))) (sym e) in
    elim known [
      | inl e ↦ of_name "greater_than" e (ok-IsFine Test.greater)
      | inr (inl e) ↦ of_name "less_than" e (ok-IsFine Test.less)
      | inr (inr (inl e)) ↦ of_name "equals" e (ok-IsFine Test.equal)
      | inr (inr (inr e)) ↦ absurd e
    ]

attribute-IsFine :
    (a : ProfileAttribute) (args : List Arg) → IsAttribute a → IsFine (compile_attribute a args)
unfolding compile_attribute
attribute-IsFine a args (_, _, known, _) =
    >>=-IsFine _ _ (safe_guard-IsFine a.field_name)
      λ passed. >>=-IsFine _ _ (attribute-tested a.operator known) λ test. ok-IsFine _

company-IsFine : (c : Company) (args : List Arg) → IsCompany c → IsFine (compile_company c args)
unfolding compile_company
company-IsFine c args (_, _, known, _) =
    >>=-IsFine _ _ (safe_guard-IsFine c.field_name)
      λ passed. >>=-IsFine _ _ (company-tested c.operator known) λ test. ok-IsFine _

there_guard-IsFine : (s : String) (e : CompileError) → s ≢ "" → IsFine (guard (not (is_empty s)) e)
there_guard-IsFine s e there =
    let l : is_empty s ≡ false = ground (arith, eq_iff s "") in inl (tt, rw l)

score-IsFine : (s : Score) (args : List Arg) → IsScore s → IsFine (compile_score s args)
unfolding compile_score
score-IsFine s args (model, named, _, known, _) =
    >>=-IsFine _ _ (there_guard-IsFine s.model CompileError.no_model model) λ passed.
      >>=-IsFine _ _ (there_guard-IsFine s.score_name CompileError.no_score_name named)
        λ passed'. >>=-IsFine _ _ (score-tested s.operator known) λ test. ok-IsFine _

mutual
  unfolding compile_node compile_consent

  node-IsFine : (n : AstNode) (args : List Arg) → IsWellFormed n → IsFine (compile_node n args)
  node-IsFine (AstNode.and ns) args (IsWellFormed.and all) =
      >>=-IsFine _ _ (parts-IsFine ns args all) λ out. ok-IsFine _
  node-IsFine (AstNode.or ns) args (IsWellFormed.or all) =
      >>=-IsFine _ _ (parts-IsFine ns args all) λ out. ok-IsFine _
  node-IsFine (AstNode.not n) args (IsWellFormed.negated w) =
      >>=-IsFine _ _ (node-IsFine n args w) λ out. ok-IsFine _
  node-IsFine (AstNode.profile_attribute a) args (IsWellFormed.attribute w) =
      attribute-IsFine a args w
  node-IsFine (AstNode.event_history e) args w = ok-IsFine _
  node-IsFine (AstNode.consent c) args w = ok-IsFine _
  node-IsFine (AstNode.score s) args (IsWellFormed.score w) = score-IsFine s args w
  node-IsFine (AstNode.company c) args (IsWellFormed.company w) = company-IsFine c args w

  parts-IsFine :
      (ns : AstNodes) (args : List Arg) → AreWellFormed ns → IsFine (compile_parts ns args)
  parts-IsFine AstNodes.nil args w = ok-IsFine _
  parts-IsFine (AstNodes.cons n ns) args (AreWellFormed.cons w ws) =
      >>=-IsFine _ _ (node-IsFine n args w)
        λ first. >>=-IsFine _ _ (parts-IsFine ns first.1 ws) λ rest. ok-IsFine _

-- A condition that `Parse` accepts compiles to a query, or compiling it names a field that is unsafe:
-- no other error of `CompileProfile` is possible for it.
pub compile_profile-parse :
    (raw : RawMessage) (n : AstNode)
    → parse raw ≡ ok n
    → ((query : SqlQuery) × (compile_profile n ≡ ok query))
      ⊎ ((name : String) × (compile_profile n ≡ err (CompileError.unsafe_field name)))
unfolding compile_profile
compile_profile-parse raw n h =
    >>=-IsFine (compile_node n []) _ (node-IsFine n [] (parse-IsWellFormed raw n h))
      λ out. ok-IsFine _
