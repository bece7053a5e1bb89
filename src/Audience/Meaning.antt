-- ===== src/Audience/Meaning.antt =====
-- The text that `compileProfileNode` of internal/audience/compile_pg.go writes, under the arguments that
-- it collects, against the meaning of the condition.
use openjourney.Common.{
  eq_iff, Bool-cases, inl, inr, ◌==◌, guard_step, ok_inj, ℕ, suc, ◌+◌, ◌≡◌, refl, sym, ap, subst,
  ◌∙◌, not, List, [], ◌∷◌, ◌++◌, Option, none, some, String, arith, ok, >>=-eq-ok, is_empty, length,
  length-append,
}
use openjourney.Audience.Ast.{AstNode, AstNodes, ProfileAttribute, Consent, Score, Company}
use openjourney.Audience.Sql.{Test, Sqls}
use openjourney.Audience.Compile.{
  Arg, string, any, float, Output, is_safe, tested, attribute_test, company_test, score_test,
  with_part, compile_attribute, compile_consent, compile_score, compile_company, compile_node,
  compile_parts,
}
use openjourney.Audience.Truth.{
  Truth, holds, fails, conj, disj, Row, bound, sql_value, join_truth, meaning, group_meaning,
  asked_test,
}
use openjourney.Audience.Agreeing.{
  append_assoc, append-nil, tested-some, bound_after, Agrees, opposite-Agrees, GroupAgrees,
  with_part-GroupAgrees, every-Agrees, some_of-Agrees, conj-holds, disj-fails,
}

-- The compiler's comparisons are those that the operators name.
attribute_test-asked :
    (operator : String) (test : Test)
    → attribute_test operator ≡ some test
    → asked_test operator ≡ some test
unfolding attribute_test
attribute_test-asked operator test h = ground arith

company_test-asked :
    (operator : String) (test : Test)
    → company_test operator ≡ some test
    → asked_test operator ≡ some test
unfolding company_test
company_test-asked operator test h = ground arith

score_asked_at :
    (literal operator : String) (test : Test)
    → operator ≡ literal
    → (score_test literal ≡ some test → asked_test literal ≡ some test)
    → score_test operator ≡ some test
    → asked_test operator ≡ some test
score_asked_at literal operator test is_it at h =
    subst (λ o. score_test o ≡ some test → asked_test o ≡ some test) (sym is_it) at h

score_test-asked :
    (operator : String) (test : Test)
    → score_test operator ≡ some test
    → asked_test operator ≡ some test
unfolding score_test
score_test-asked operator test h = elim (Bool-cases (operator == "greater_than")) [
  | inl is_it ↦
      score_asked_at "greater_than" operator test (ground (arith, eq_iff operator "greater_than"))
        (λ k. k) h
  | inr no_greater ↦ elim (Bool-cases (operator == "less_than")) [
    | inl is_it ↦
        score_asked_at "less_than" operator test (ground (arith, eq_iff operator "less_than"))
          (λ k. k) h
    | inr no_less ↦ elim (Bool-cases (operator == "equals")) [
      | inl is_it ↦
          score_asked_at "equals" operator test (ground (arith, eq_iff operator "equals")) (λ k. k)
            h
      | inr no_equal ↦ absurd (ground arith)
    ]
  ]
]

module _ (row : Row) (tenant workspace : String) where
  abbrev pub bindings : List Arg → List Arg
  bindings args = string tenant ∷ string workspace ∷ args

  -- A text with the arguments so far: they extend those before, and whatever is appended later the
  -- text has the meaning.
  abbrev pub Meets : List Arg → Option Truth → Output → Type 0
  Meets args m out =
      (new : List Arg) × (out.1 ≡ args ++ new)
      × ((later : List Arg) → Agrees row (bindings (out.1 ++ later)) out.0 m)

  abbrev GroupMeets :
      (Truth → Truth → Truth) → Truth → List Arg → Option Truth → Sqls × List Arg → Type 0
  GroupMeets f unit args m out =
      (new : List Arg) × (out.1 ≡ args ++ new)
      × ((later : List Arg) → GroupAgrees row (bindings (out.1 ++ later)) f unit out.0 m)

  bound_at :
      (n : ℕ) (args before later : List Arg) (a : Arg)
      → n ≡ length before + 3
      → args ≡ before ++ a ∷ later
      → bound n (bindings args) ≡ some a
  bound_at n args before later a at made =
      let n_eq : n ≡ suc (suc (suc (length before))) = omega arith in
      rw (n_eq, made, bound_after before a later)

  -- The values of a tests's text and of its meaning.
  attribute-Meets :
      (a : ProfileAttribute) (args : List Arg) (out : Output)
      → compile_attribute a args ≡ ok out
      → Meets args (meaning row tenant workspace (AstNode.profile_attribute a)) out
  unfolding compile_attribute Agrees meaning sql_value
  attribute-Meets a args out h =
      let (_, h1) = guard_step (is_safe a.field_name) _ _ h in
      let (test, test_eq, h2) = >>=-eq-ok (tested a.operator (attribute_test a.operator)) _ h1 in
      let known = attribute_test-asked a.operator test (tested-some _ _ test test_eq) in
      let after = args ++ any a.val ∷ [] in
      subst (λ o. Meets args (meaning row tenant workspace (AstNode.profile_attribute a)) o)
        (ok_inj h2)
        (
          any a.val ∷ [],
          refl,
          λ later. (
            row.attribute a.field_name test (any a.val),
            rw known,
            rw (
                bound_at (length after + 2) (after ++ later) args later (any a.val)
                  (let l : length after ≡ length args + 1 = length-append args _ in omega arith)
                  (append_assoc args _ later)),
          ),
        )

  company-Meets :
      (c : Company) (args : List Arg) (out : Output)
      → compile_company c args ≡ ok out
      → Meets args (meaning row tenant workspace (AstNode.company c)) out
  unfolding compile_company Agrees meaning sql_value
  company-Meets c args out h =
      let (_, h1) = guard_step (is_safe c.field_name) _ _ h in
      let (test, test_eq, h2) = >>=-eq-ok (tested c.operator (company_test c.operator)) _ h1 in
      let known = company_test-asked c.operator test (tested-some _ _ test test_eq) in
      let after = args ++ any c.val ∷ [] in
      subst (λ o. Meets args (meaning row tenant workspace (AstNode.company c)) o) (ok_inj h2)
        (
          any c.val ∷ [],
          refl,
          λ later. (
            row.company (string tenant) (string tenant) (string workspace) c.field_name test
                (any c.val),
            rw known,
            rw (
                bound_at (length after + 2) (after ++ later) args later (any c.val)
                  (let l : length after ≡ length args + 1 = length-append args _ in omega arith)
                  (append_assoc args _ later)),
          ),
        )

  consent-Meets :
      (c : Consent) (args : List Arg) (out : Output)
      → compile_consent c args ≡ ok out
      → Meets args (meaning row tenant workspace (AstNode.consent c)) out
  unfolding compile_consent Agrees meaning sql_value
  consent-Meets c args out h =
      let new = string c.channel ∷ string c.topic ∷ string c.state ∷ [] in
      let after = args ++ new in
      let l : length after ≡ length args + 3 = length-append args _ in
      subst (λ o. Meets args (meaning row tenant workspace (AstNode.consent c)) o) (ok_inj h)
        (
          new,
          refl,
          λ later. (
            row.consent (string c.channel) (string c.topic) (string c.state),
            refl,
            rw (
              bound_at (length after) (after ++ later) args
                  (string c.topic ∷ string c.state ∷ later) (string c.channel) l
                  (append_assoc args new later),
              bound_at (length after + 1) (after ++ later) (args ++ string c.channel ∷ [])
                  (string c.state ∷ later) (string c.topic)
                  (let l1 : length (args ++ string c.channel ∷ []) ≡ length args + 1 =
                      length-append args _ in
                    omega arith)
                  (append_assoc args new later ∙ sym (append_assoc args (string c.channel ∷ []) _)),
              bound_at (length after + 2) (after ++ later)
                  (args ++ string c.channel ∷ string c.topic ∷ []) later (string c.state)
                  (let l2 : length (args ++ string c.channel ∷ string c.topic ∷ [])
                        ≡ length args + 2 =
                      length-append args _ in
                    omega arith)
                  (append_assoc args new later
                    ∙ sym (append_assoc args (string c.channel ∷ string c.topic ∷ []) _)),
            ),
          ),
        )

  score-Meets :
      (s : Score) (args : List Arg) (out : Output)
      → compile_score s args ≡ ok out
      → Meets args (meaning row tenant workspace (AstNode.score s)) out
  unfolding compile_score Agrees meaning sql_value
  score-Meets s args out h =
      let (_, h1) = guard_step (not (is_empty s.model)) _ _ h in
      let (_, h2) = guard_step (not (is_empty s.score_name)) _ _ h1 in
      let (test, test_eq, h3) = >>=-eq-ok (tested s.operator (score_test s.operator)) _ h2 in
      let known = score_test-asked s.operator test (tested-some _ _ test test_eq) in
      let m = string s.model in
      let n = string s.score_name in
      let v = float s.val in
      let after_model = args ++ m ∷ [] in
      let after_name = after_model ++ n ∷ [] in
      let after = after_name ++ v ∷ [] in
      let l1 : length after_model ≡ length args + 1 = length-append args _ in
      let l2 : length after_name ≡ length after_model + 1 = length-append after_model _ in
      let l3 : length after ≡ length after_name + 1 = length-append after_name _ in
      let at_name : (later : List Arg) → after ++ later ≡ after_name ++ v ∷ later =
        λ later. append_assoc after_name _ later in
      let at_model : (later : List Arg) → after ++ later ≡ after_model ++ n ∷ v ∷ later =
        λ later. at_name later ∙ append_assoc after_model _ _ in
      let at_args : (later : List Arg) → after ++ later ≡ args ++ m ∷ n ∷ v ∷ later =
        λ later. at_model later ∙ append_assoc args _ _ in
      subst (λ o. Meets args (meaning row tenant workspace (AstNode.score s)) o) (ok_inj h3)
        (
          m ∷ n ∷ v ∷ [],
          append_assoc after_model _ _ ∙ append_assoc args _ _,
          λ later. (
            row.score (string tenant) (string workspace) m n test v,
            rw known,
            rw (
              bound_at (length after_model + 2) (after ++ later) args _ m (omega arith)
                  (at_args later),
              bound_at (length after_name + 2) (after ++ later) after_model _ n (omega arith)
                  (at_model later),
              bound_at (length after + 2) (after ++ later) after_name _ v (omega arith)
                  (at_name later),
            ),
          ),
        )

  -- What one condition of a group adds to the rest.
  cons-GroupMeets :
      (f : Truth → Truth → Truth) (unit : Truth)
      → ((a : Truth) → f a unit ≡ a)
      → (args : List Arg) (first : Output) (rest : Sqls × List Arg) (m ms : Option Truth)
      → Meets args m first
      → GroupMeets f unit first.1 ms rest
      → GroupMeets f unit args (join_truth f m ms) (with_part first.0 rest.0, rest.1)
  cons-GroupMeets f unit right args first rest m ms (new, extends, agrees)
        (new', extends', agrees') =
      (
        new ++ new',
        extends' ∙ ap (λ l. l ++ new') extends ∙ append_assoc args new new',
        λ later.
            let all : rest.1 ++ later ≡ first.1 ++ (new' ++ later) =
              ap (λ l. l ++ later) extends' ∙ append_assoc first.1 new' later in
            with_part-GroupAgrees row (bindings (rest.1 ++ later)) f unit right first.0 m rest.0 ms
              (subst (λ l. Agrees row (bindings l) first.0 m) (sym all) (agrees (new' ++ later)))
              (agrees' later),
      )

  mutual
    unfolding compile_node meaning Agrees GroupAgrees

    pub node-Meets :
        (n : AstNode) (args : List Arg) (out : Output)
        → compile_node n args ≡ ok out
        → Meets args (meaning row tenant workspace n) out
    node-Meets (AstNode.and ns) args out h =
        let (parts, parts_eq, made) = >>=-eq-ok (compile_parts ns args) _ h in
        let (new, extends, agrees) = parts-Meet conj holds conj-holds ns args parts parts_eq in
        subst (λ o. Meets args (meaning row tenant workspace (AstNode.and ns)) o) (ok_inj made)
          (new, extends, λ later. every-Agrees row _ parts.0 _ (agrees later))
    node-Meets (AstNode.or ns) args out h =
        let (parts, parts_eq, made) = >>=-eq-ok (compile_parts ns args) _ h in
        let (new, extends, agrees) = parts-Meet disj fails disj-fails ns args parts parts_eq in
        subst (λ o. Meets args (meaning row tenant workspace (AstNode.or ns)) o) (ok_inj made)
          (new, extends, λ later. some_of-Agrees row _ parts.0 _ (agrees later))
    node-Meets (AstNode.not n) args out h =
        let (part, part_eq, made) = >>=-eq-ok (compile_node n args) _ h in
        let (new, extends, agrees) = node-Meets n args part part_eq in
        subst (λ o. Meets args (meaning row tenant workspace (AstNode.not n)) o) (ok_inj made)
          (new, extends, λ later. opposite-Agrees row _ part.0 _ (agrees later))
    node-Meets (AstNode.profile_attribute a) args out h = attribute-Meets a args out h
    node-Meets (AstNode.consent c) args out h = consent-Meets c args out h
    node-Meets (AstNode.score s) args out h = score-Meets s args out h
    node-Meets (AstNode.company c) args out h = company-Meets c args out h
    node-Meets (AstNode.event_history e) args out h =
        subst (λ o. Meets args none o) (ok_inj h) ([], sym (append-nil args), λ later. refl)

    parts-Meet :
        (f : Truth → Truth → Truth) (unit : Truth)
        → ((a : Truth) → f a unit ≡ a)
        → (ns : AstNodes) (args : List Arg) (out : Sqls × List Arg) → compile_parts ns args ≡ ok out
        → GroupMeets f unit args (group_meaning row tenant workspace f ns) out
    parts-Meet f unit right AstNodes.nil args out h =
        subst (λ o. GroupMeets f unit args none o) (ok_inj h)
          ([], sym (append-nil args), λ later. refl)
    parts-Meet f unit right (AstNodes.cons n ns) args out h =
        let (first, first_eq, h1) = >>=-eq-ok (compile_node n args) _ h in
        let (rest, rest_eq, made) = >>=-eq-ok (compile_parts ns first.1) _ h1 in
        subst
          (λ o.
            GroupMeets f unit args (group_meaning row tenant workspace f (AstNodes.cons n ns)) o)
          (ok_inj made)
          (cons-GroupMeets f unit right args first rest _ _ (node-Meets n args first first_eq)
            (parts-Meet f unit right ns first.1 rest rest_eq))
