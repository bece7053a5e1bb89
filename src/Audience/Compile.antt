-- ===== src/Audience/Compile.antt =====
-- internal/audience/compile_pg.go, and `CompileProfileSingle` of internal/audience/evaluate.go.
use openjourney.Common.{
  ℕ, ◌+◌, Bool, not, ◌&&◌, ◌||◌, List, [], ◌∷◌, ◌++◌, Option, none, some, String, ◌==◌, leb, nat_eq,
  if◌then◌else◌, is_empty, Result, ok, err, ◌>>=◌, ◌>>◌, guard, contains, codes, all, length,
}
use openjourney.Common.Int.{ℤ}
use openjourney.Json.{Json}
use openjourney.Audience.Ast.{AstNode, AstNodes, ProfileAttribute, Consent, Score, Company}
use openjourney.Audience.Sql.{
  Test, equal, like, any_of, greater, less, Sql, Sqls, Token, word, param, render, shift, joined,
}

-- A value bound to a placeholder: a string, an int, what a condition compares with, or a score's
-- float64.
pub data Arg : Type 0 where
  string : String → Arg
  number : ℤ → Arg
  any : Option Json → Arg
  float : Json → Arg

pub data CompileError : Type 0 where
  unsafe_field unsupported_operator duplicate_field : String → CompileError
  no_model no_score_name no_fields : CompileError

abbrev pub Compiled : Type 0 → Type 0
Compiled A = Result CompileError A

-- `fieldSafetyRegex`: `^[a-zA-Z0-9_]+$`.
abbrev pub safe_code : ℕ → Bool
safe_code c =
    (leb b'a' c && leb c b'z')
    || (leb b'A' c && leb c b'Z')
    || (leb b'0' c && leb c b'9')
    || nat_eq c b'_'

unfoldable pub is_safe : String → Bool
is_safe s = not (is_empty s) && all safe_code (codes s)

-- The operators, as the comparisons that they are written as.
abbrev pub shared_test : String → Option Test → Option Test
shared_test operator other =
    if operator == "equals"
    then some equal
    else if operator == "contains"
    then some like
    else if operator == "in"
    then some any_of
    else other

abbrev pub order_test : String → Option Test
order_test operator =
    if operator == "greater_than"
    then some greater
    else if operator == "less_than"
    then some less
    else none

unfoldable pub attribute_test : String → Option Test
attribute_test operator = shared_test operator (order_test operator)

unfoldable pub company_test : String → Option Test
company_test operator = shared_test operator none

unfoldable pub score_test : String → Option Test
score_test operator = elim (order_test operator) [
  | some test ↦ some test
  | none ↦ if operator == "equals" then some equal else none
]

unfoldable pub tested : String → Option Test → Compiled Test
tested operator none = err (unsupported_operator operator)
tested operator (some test) = ok test

-- The text of a condition, if there is one, and the arguments so far.
abbrev pub Output : Type 0
Output = Option Sql × List Arg

-- The parts of a group, unless there are none.
abbrev pub grouped : (Sqls → Sql) → Sqls → Option Sql
grouped make Sqls.nil = none
grouped make parts = some (make parts)

abbrev pub opposite : Option Sql → Option Sql
opposite none = none
opposite (some part) = some (Sql.negated part)

abbrev pub with_part : Option Sql → Sqls → Sqls
with_part none parts = parts
with_part (some part) parts = Sqls.cons part parts

unfoldable pub compile_attribute : ProfileAttribute → List Arg → Compiled Output
compile_attribute a args = do
  guard (is_safe a.field_name) (unsafe_field a.field_name)
  let after = args ++ any a.val ∷ []
  test ← tested a.operator (attribute_test a.operator)
  ok (some (Sql.attribute a.field_name test (length after + 2)), after)

unfoldable pub compile_consent : Consent → List Arg → Compiled Output
compile_consent c args =
    let after = args ++ string c.channel ∷ string c.topic ∷ string c.state ∷ [] in
    ok (some (Sql.consent (length after) (length after + 1) (length after + 2)), after)

unfoldable pub compile_score : Score → List Arg → Compiled Output
compile_score s args = do
  guard (not (is_empty s.model)) no_model
  guard (not (is_empty s.score_name)) no_score_name
  test ← tested s.operator (score_test s.operator)
  let after_model = args ++ string s.model ∷ []
  let after_name = after_model ++ string s.score_name ∷ []
  let after = after_name ++ float s.val ∷ []
  ok (
    some (Sql.score (length after_model + 2) (length after_name + 2) test (length after + 2)),
    after,
  )

unfoldable pub compile_company : Company → List Arg → Compiled Output
compile_company c args = do
  guard (is_safe c.field_name) (unsafe_field c.field_name)
  let after = args ++ any c.val ∷ []
  test ← tested c.operator (company_test c.operator)
  ok (some (Sql.company c.field_name test (length after + 2)), after)

-- `compileProfileNode`. A condition on events has no text.
unfoldable mutual
  pub compile_node : AstNode → List Arg → Compiled Output
  compile_node (AstNode.and ns) args =
      compile_parts ns args >>= λ out. ok (grouped Sql.every out.0, out.1)
  compile_node (AstNode.or ns) args =
      compile_parts ns args >>= λ out. ok (grouped Sql.some_of out.0, out.1)
  compile_node (AstNode.not n) args = compile_node n args >>= λ out. ok (opposite out.0, out.1)
  compile_node (AstNode.profile_attribute a) args = compile_attribute a args
  compile_node (AstNode.consent c) args = compile_consent c args
  compile_node (AstNode.score s) args = compile_score s args
  compile_node (AstNode.company c) args = compile_company c args
  compile_node (AstNode.event_history e) args = ok (none, args)

  -- The loop over the conditions of a group.
  pub compile_parts : AstNodes → List Arg → Compiled (Sqls × List Arg)
  compile_parts AstNodes.nil args = ok (Sqls.nil, args)
  compile_parts (AstNodes.cons n ns) args = compile_node n args >>= λ first.
      compile_parts ns first.1 >>= λ rest. ok (with_part first.0 rest.0, rest.1)

-- `if expr == "" { expr = "TRUE" }`.
abbrev pub expression : Option Sql → List Token
expression none = word "TRUE" ∷ []
expression (some e) = render e

abbrev pub SqlQuery : Type 0
SqlQuery = List Token × List Arg

abbrev pub rows_of : List Token → List Token → List Token
rows_of columns where_text =
    word "SELECT "
    ∷ (columns
        ++ word " FROM profiles WHERE tenant_id="
          ∷ param 1
          ∷ word " AND workspace_id="
          ∷ param 2
          ∷ word " AND ("
          ∷ (where_text ++ word ")" ∷ []))

-- `CompileProfile`.
unfoldable pub compile_profile : AstNode → Compiled SqlQuery
unfolding compile_node render
compile_profile n =
    compile_node n [] >>= λ out. ok (rows_of (word "external_id" ∷ []) (expression out.0), out.1)

-- `CompileProfileRows`: the columns, each one safe and not seen before, then the condition.
abbrev own_columns : List String
own_columns = "id" ∷ "external_id" ∷ "anonymous_id" ∷ "created_at" ∷ "updated_at" ∷ []

abbrev pub column : String → List Token
column name =
    if contains own_columns name
    then word name ∷ []
    else word "attributes->>'" ∷ word name ∷ word "' AS " ∷ word name ∷ []

unfoldable pub columns : List String → List String → Compiled (List Token)
columns [] seen = ok []
columns (name ∷ names) seen = do
  guard (is_safe name) (unsafe_field name)
  guard (not (contains seen name)) (duplicate_field name)
  rest ← columns names (name ∷ seen)
  ok (joined (column name) ", " rest)

unfoldable pub compile_profile_rows : AstNode → List String → Compiled SqlQuery
unfolding compile_node render columns
compile_profile_rows n [] = err no_fields
compile_profile_rows n fields = do
  selected ← columns fields []
  out ← compile_node n []
  ok (rows_of selected (expression out.0), out.1)

abbrev pub row_of : List Token → List Token
row_of where_text =
    word "SELECT 1 FROM profiles WHERE tenant_id="
    ∷ param 1
    ∷ word " AND workspace_id="
    ∷ param 2
    ∷ word " AND id="
    ∷ param 3
    ∷ word " AND ("
    ∷ (where_text ++ word ")" ∷ [])

-- `CompileProfileSingle`.
unfoldable pub compile_profile_single : AstNode → Compiled SqlQuery
unfolding compile_node render
compile_profile_single n =
    compile_node n [] >>= λ out. ok (row_of (shift (expression out.0)), out.1)
