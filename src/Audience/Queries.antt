-- ===== src/Audience/Queries.antt =====
-- The queries of `CompileProfile` and `CompileProfileSingle` in internal/audience, under the arguments
-- they return.
use openjourney.Common.{
  ◌≡◌, refl, sym, subst, ap, ◌∙◌, List, [], ◌∷◌, ◌++◌, Option, none, some, String, ok, >>=-eq-ok,
}
use openjourney.Audience.Ast.{AstNode}
use openjourney.Audience.Sql.{Sql, Token, word}
use openjourney.Audience.Compile.{
  Arg, string, Compiled, compile_node, compile_profile, compile_profile_single, rows_of, row_of,
}
use openjourney.Audience.Truth.{Truth, holds, Row, sql_value, meaning}
use openjourney.Audience.Meaning.{node-Meets}
use openjourney.Audience.Reading.{read, condition, rows_query, row_query}
use openjourney.Audience.ReadBack.{condition-expression, shifted-IsSafeText}
use openjourney.Audience.Safety.{node-IsSafeText}
use openjourney.Audience.Agreeing.{Agrees, append-nil}
use openjourney.Audience.Shift.{shifted_opt, shift-expression, sql_value-shifted}

-- The value of a query's condition, TRUE if it has none, and what a condition asks of a row.
abbrev pub where_value : Row → List Arg → Option Sql → Option Truth
where_value row args none = some holds
where_value row args (some e) = sql_value row args e

abbrev pub asked : Option Truth → Truth
asked none = holds
asked (some t) = t

Agrees-where_value :
    (row : Row) (args : List Arg) (c : Option Sql) (m : Option Truth)
    → Agrees row args c m
    → where_value row args c ≡ some (asked m)
unfolding Agrees
Agrees-where_value row args none m h = rw h
Agrees-where_value row args (some e) m (t, means, computes) = rw (means, computes)

pub where_value-shifted :
    (row : Row) (tenant workspace : String) (c : Option Sql) (args : List Arg) (profile : String)
    → where_value row (string tenant ∷ string workspace ∷ string profile ∷ args) (shifted_opt c)
      ≡ where_value row (string tenant ∷ string workspace ∷ args) c
where_value-shifted row tenant workspace none args profile = refl
where_value-shifted row tenant workspace (some e) args profile = sql_value-shifted _ _ _ _ _ e

query_inj :
    {A : Type 0} {a a' : A} {args args' : List Arg}
    → (let r : Compiled (A × List Arg) = ok (a, args) in r) ≡ ok (a', args')
    → (a ≡ a') × (args ≡ args')
query_inj h = (cc, cc)

pub compile_node-where_value :
    (row : Row) (tenant workspace : String) (n : AstNode) (out : Option Sql × List Arg)
    → compile_node n [] ≡ ok out
    → where_value row (string tenant ∷ string workspace ∷ out.1) out.0
      ≡ some (asked (meaning row tenant workspace n))
compile_node-where_value row tenant workspace n out h =
    let (_, _, agrees) = node-Meets row tenant workspace n [] out h in
    Agrees-where_value row _ out.0 _ (
      subst
        (λ l.
          Agrees row (string tenant ∷ string workspace ∷ l) out.0 (meaning row tenant workspace n))
        (append-nil out.1) (agrees []))

-- What is read of a query of many rows, and of one row, whose condition has a value.
rows_query-rows_of :
    (row : Row) (tenant workspace : Arg) (args : List Arg) (where_text : List Token) (v : Truth)
    → condition row (tenant ∷ workspace ∷ args) (where_text ++ word ")" ∷ []) ≡ some v
    → rows_query row (tenant ∷ workspace ∷ args) (rows_of (word "external_id" ∷ []) where_text)
      ≡ some (tenant, workspace, v)
unfolding rows_query read
rows_query-rows_of row tenant workspace args where_text v h = rw (h, rows_query)

row_query-row_of :
    (row : Row) (tenant workspace profile : Arg) (args : List Arg) (where_text : List Token)
    (v : Truth)
    → condition row (tenant ∷ workspace ∷ profile ∷ args) (where_text ++ word ")" ∷ []) ≡ some v
    → row_query row (tenant ∷ workspace ∷ profile ∷ args) (row_of where_text)
      ≡ some (tenant, workspace, profile, v)
unfolding row_query read
row_query-row_of row tenant workspace profile args where_text v h = rw (h, row_query)

module _ (row : Row) (tenant workspace : String) (n : AstNode) (text : List Token)
    (args : List Arg) where
  -- If `CompileProfile` accepts a condition, the text of its query, read as SQL under the tenant, the
  -- workspace and the arguments returned, selects external ids of rows of that tenant and workspace by
  -- a condition, whose truth value for a row is the one that the condition has by SQL's three-valued
  -- logic. NOT, AND, OR and the parentheses of the text, the comparisons and the placeholders are
  -- read back from its words.
  pub compile_profile-meaning :
      compile_profile n ≡ ok (text, args)
      → rows_query row (string tenant ∷ string workspace ∷ args) text
        ≡ some (string tenant, string workspace, asked (meaning row tenant workspace n))
  unfolding compile_profile
  compile_profile-meaning h =
      let (out, compiled, made) = >>=-eq-ok (compile_node n []) _ h in
      let (text_eq, args_eq) = query_inj made in
      let value = compile_node-where_value row tenant workspace n out compiled in
      subst
        (λ t.
          rows_query row (string tenant ∷ string workspace ∷ args) t
          ≡ some (string tenant, string workspace, asked (meaning row tenant workspace n)))
        text_eq
        (rows_query-rows_of row _ _ args _ _ (
          condition-expression row _ out.0 _ (node-IsSafeText n [] out compiled) (
            subst
              (λ l.
                where_value row (string tenant ∷ string workspace ∷ l) out.0
                ≡ some (asked (meaning row tenant workspace n)))
              args_eq value)))

  -- The same of `CompileProfileSingle`: the text of its query, read as SQL under the tenant, the
  -- workspace, the profile and the arguments returned, asks of the row with that id in that tenant
  -- and workspace what the condition does. The placeholders are those of the text after they were moved
  -- in it.
  pub compile_profile_single-meaning :
      (profile : String)
      → compile_profile_single n ≡ ok (text, args)
      → row_query row (string tenant ∷ string workspace ∷ string profile ∷ args) text
        ≡ some (
          string tenant,
          string workspace,
          string profile,
          asked (meaning row tenant workspace n),
        )
  unfolding compile_profile_single
  compile_profile_single-meaning profile h =
      let (out, compiled, made) = >>=-eq-ok (compile_node n []) _ h in
      let (text_eq, args_eq) = query_inj made in
      let all = string tenant ∷ string workspace ∷ string profile ∷ args in
      let value =
        where_value-shifted row tenant workspace out.0 args profile
        ∙ subst
            (λ l.
              where_value row (string tenant ∷ string workspace ∷ l) out.0
              ≡ some (asked (meaning row tenant workspace n)))
            args_eq (compile_node-where_value row tenant workspace n out compiled) in
      let moved = ap row_of (sym (shift-expression out.0)) ∙ text_eq in
      subst
        (λ t.
          row_query row all t
          ≡ some (
            string tenant,
            string workspace,
            string profile,
            asked (meaning row tenant workspace n),
          ))
        moved
        (row_query-row_of row _ _ _ args _ _ (
          condition-expression row _ (shifted_opt out.0) _
            (shifted-IsSafeText out.0 (node-IsSafeText n [] out compiled)) value))
