-- ===== src/Audience/Safety.antt =====
-- What of a condition reaches the text of a query in internal/audience/compile_pg.go.
use openjourney.Common.{
  guard_step, ok_inj, ℕ, ◌≡◌, refl, sym, subst, ap, ◌≢◌, inl, inr, true, not, List, [], ◌∷◌, Option,
  none, some, String, ok, >>=-eq-ok, All, All-map, All-at, is_empty, Distinct, In, contains,
  In-contains, arith,
}
use openjourney.Audience.Ast.{AstNode, AstNodes, ProfileAttribute, Company, Consent, Score}
use openjourney.Audience.Sql.{Test, equal, like, any_of, greater, less, Sql, Sqls, Token, sign}
use openjourney.Audience.Reading.{sign_test}
use openjourney.Audience.Agreeing.{tested-some}
use openjourney.Audience.Compile.{
  Arg, Output, Compiled, expression, rows_of, is_safe, tested, attribute_test, company_test,
  score_test, with_part, grouped, opposite, compile_node, compile_parts, compile_attribute,
  compile_consent, compile_score, compile_company, compile_profile_rows, columns,
}

abbrev Safe : String → Type 0
Safe name = is_safe name ≡ true

-- A text whose field names are safe, whose groups have parts, and whose scores are compared with a
-- sign that is their test's.
mutual
  pub data IsSafeSql : Sql → Type 0 where
    attribute :
        {name : String} {test : _} {n : ℕ} → Safe name → IsSafeSql (Sql.attribute name test n)
    company : {name : String} {test : _} {n : ℕ} → Safe name → IsSafeSql (Sql.company name test n)
    consent : {c t s : ℕ} → IsSafeSql (Sql.consent c t s)
    score :
        {m s : ℕ} {test : _} {n : ℕ}
        → sign_test (sign test) ≡ some test
        → IsSafeSql (Sql.score m s test n)
    every :
        {part : Sql} {parts : Sqls}
        → AreSafeSqls (Sqls.cons part parts)
        → IsSafeSql (Sql.every (Sqls.cons part parts))
    some_of :
        {part : Sql} {parts : Sqls}
        → AreSafeSqls (Sqls.cons part parts)
        → IsSafeSql (Sql.some_of (Sqls.cons part parts))
    negated : {part : Sql} → IsSafeSql part → IsSafeSql (Sql.negated part)

  pub data AreSafeSqls : Sqls → Type 0 where
    nil : AreSafeSqls Sqls.nil
    cons :
        {part : Sql} {parts : Sqls}
        → IsSafeSql part
        → AreSafeSqls parts
        → AreSafeSqls (Sqls.cons part parts)

abbrev pub IsSafeText : Option Sql → Type 0
IsSafeText none = Unit {0}
IsSafeText (some e) = IsSafeSql e

made_safe :
    {c : Option Sql} {args : List Arg} (out : Output)
    → (let r : Compiled Output = ok (c, args) in r) ≡ ok out
    → IsSafeText c
    → IsSafeText out.0
made_safe out h safe = subst (λ o. IsSafeText o.0) (ok_inj h) safe

opposite-IsSafeText : (c : Option Sql) → IsSafeText c → IsSafeText (opposite c)
opposite-IsSafeText none safe = tt
opposite-IsSafeText (some e) safe = IsSafeSql.negated safe

with_part-AreSafeSqls :
    (c : Option Sql) (parts : Sqls)
    → IsSafeText c
    → AreSafeSqls parts
    → AreSafeSqls (with_part c parts)
with_part-AreSafeSqls none parts safe all = all
with_part-AreSafeSqls (some e) parts safe all = AreSafeSqls.cons safe all

every-IsSafeText : (parts : Sqls) → AreSafeSqls parts → IsSafeText (grouped Sql.every parts)
every-IsSafeText Sqls.nil all = tt
every-IsSafeText (Sqls.cons p parts) all = IsSafeSql.every all

some_of-IsSafeText : (parts : Sqls) → AreSafeSqls parts → IsSafeText (grouped Sql.some_of parts)
some_of-IsSafeText Sqls.nil all = tt
some_of-IsSafeText (Sqls.cons p parts) all = IsSafeSql.some_of all

-- A score is compared with the sign that its test is written as.
score_test-sign :
    (operator : String) (test : Test)
    → score_test operator ≡ some test
    → sign_test (sign test) ≡ some test
unfolding score_test
score_test-sign operator equal h = refl
score_test-sign operator greater h = refl
score_test-sign operator less h = refl
score_test-sign operator like h = absurd (ground arith)
score_test-sign operator any_of h = absurd (ground arith)

module _ (args : List Arg) (out : Output) where
  attribute-IsSafeText :
      (a : ProfileAttribute) → compile_attribute a args ≡ ok out → IsSafeText out.0
  unfolding compile_attribute
  attribute-IsSafeText a h =
      let (safe, h1) = guard_step (is_safe a.field_name) _ _ h in
      let (test, _, h2) = >>=-eq-ok (tested a.operator (attribute_test a.operator)) _ h1 in
      made_safe out h2 (IsSafeSql.attribute safe)

  company-IsSafeText : (c : Company) → compile_company c args ≡ ok out → IsSafeText out.0
  unfolding compile_company
  company-IsSafeText c h =
      let (safe, h1) = guard_step (is_safe c.field_name) _ _ h in
      let (test, _, h2) = >>=-eq-ok (tested c.operator (company_test c.operator)) _ h1 in
      made_safe out h2 (IsSafeSql.company safe)

  consent-IsSafeText : (c : Consent) → compile_consent c args ≡ ok out → IsSafeText out.0
  unfolding compile_consent
  consent-IsSafeText c h = made_safe out h IsSafeSql.consent

  score-IsSafeText : (s : Score) → compile_score s args ≡ ok out → IsSafeText out.0
  unfolding compile_score
  score-IsSafeText s h =
      let (_, h1) = guard_step (not (is_empty s.model)) _ _ h in
      let (_, h2) = guard_step (not (is_empty s.score_name)) _ _ h1 in
      let (test, test_eq, h3) = >>=-eq-ok (tested s.operator (score_test s.operator)) _ h2 in
      made_safe out h3
        (IsSafeSql.score (score_test-sign s.operator test (tested-some _ _ test test_eq)))

mutual
  unfolding compile_node

  pub node-IsSafeText :
      (n : AstNode) (args : List Arg) (out : Output)
      → compile_node n args ≡ ok out
      → IsSafeText out.0
  node-IsSafeText (AstNode.and ns) args out h =
      let (parts, parts_eq, made) = >>=-eq-ok (compile_parts ns args) _ h in
      made_safe out made (every-IsSafeText parts.0 (parts-AreSafeSqls ns args parts parts_eq))
  node-IsSafeText (AstNode.or ns) args out h =
      let (parts, parts_eq, made) = >>=-eq-ok (compile_parts ns args) _ h in
      made_safe out made (some_of-IsSafeText parts.0 (parts-AreSafeSqls ns args parts parts_eq))
  node-IsSafeText (AstNode.not n) args out h =
      let (part, part_eq, made) = >>=-eq-ok (compile_node n args) _ h in
      made_safe out made (opposite-IsSafeText part.0 (node-IsSafeText n args part part_eq))
  node-IsSafeText (AstNode.profile_attribute a) args out h = attribute-IsSafeText args out a h
  node-IsSafeText (AstNode.consent c) args out h = consent-IsSafeText args out c h
  node-IsSafeText (AstNode.score s) args out h = score-IsSafeText args out s h
  node-IsSafeText (AstNode.company c) args out h = company-IsSafeText args out c h
  node-IsSafeText (AstNode.event_history e) args out h = made_safe out h tt

  parts-AreSafeSqls :
      (ns : AstNodes) (args : List Arg) (out : Sqls × List Arg)
      → compile_parts ns args ≡ ok out
      → AreSafeSqls out.0
  parts-AreSafeSqls AstNodes.nil args out h =
      subst (λ o. AreSafeSqls o.0) (ok_inj h) AreSafeSqls.nil
  parts-AreSafeSqls (AstNodes.cons n ns) args out h =
      let (first, first_eq, h1) = >>=-eq-ok (compile_node n args) _ h in
      let (rest, rest_eq, made) = >>=-eq-ok (compile_parts ns first.1) _ h1 in
      subst (λ o. AreSafeSqls o.0) (ok_inj made)
        (with_part-AreSafeSqls first.0 rest.0 (node-IsSafeText n args first first_eq)
          (parts-AreSafeSqls ns first.1 rest rest_eq))

-- The columns of a projection, after those that were seen.
columns_lem :
    (names seen : List String) (selected : List Token)
    → columns names seen ≡ ok selected
    → All Safe names × Distinct names × All (λ name. ¬ In name seen) names
unfolding columns
columns_lem [] seen selected h = (tt, tt, tt)
columns_lem (name ∷ names) seen selected h =
    let (safe, h1) = guard_step (is_safe name) _ _ h in
    let (new, h2) = guard_step (not (contains seen name)) _ _ h1 in
    let (rest, rest_eq, _) = >>=-eq-ok (columns names (name ∷ seen)) _ h2 in
    let (all_safe, distinct, unseen) = columns_lem names (name ∷ seen) rest rest_eq in
    (
      (safe, all_safe),
      ((λ again. All-at _ name names unseen again (inl refl)), distinct),
      (
        (λ m. ground (arith, In-contains seen name m)),
        All-map (λ a out m. out (inr m)) names unseen,
      ),
    )

-- A projection that `CompileProfileRows` accepts has at least one field, every field is a safe name
-- and no two are the same, and every field name that the text of the condition holds is safe: letters
-- of ASCII, digits and underscores, at least one. No group of that text is empty, and a score is
-- compared with the sign of its test.
pub compile_profile_rows-IsSafeText :
    (n : AstNode) (fields : List String) (text : List Token) (args : List Arg)
    → compile_profile_rows n fields ≡ ok (text, args)
    → (fields ≢ [])
      × All (λ name. is_safe name ≡ true) fields
      × Distinct fields
      × ((selected : List Token) × (c : Option Sql) × (text ≡ rows_of selected (expression c))
          × IsSafeText c)
unfolding compile_profile_rows
compile_profile_rows-IsSafeText n [] text args h = absurd (ground arith)
compile_profile_rows-IsSafeText n (name ∷ names) text args h =
    let (selected, selected_eq, h1) = >>=-eq-ok (columns (name ∷ names) []) _ h in
    let (out, out_eq, made) = >>=-eq-ok (compile_node n []) _ h1 in
    let (all_safe, distinct, _) = columns_lem (name ∷ names) [] selected selected_eq in
    (
      λ e. ground arith,
      all_safe,
      distinct,
      (selected, out.0, ap (λ q. q.0) (sym (ok_inj made)), node-IsSafeText n [] out out_eq),
    )
