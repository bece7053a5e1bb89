-- ===== src/Audience/Shift.antt =====
-- The placeholders of internal/audience/evaluate.go, moved in a text that is written already, against
-- the condition with every placeholder moved.
use openjourney.Common.{
  ℕ, zero, suc, ◌≡◌, refl, ap, ◌∙◌, List, [], ◌∷◌, ◌++◌, Option, none, some, String, arith,
}
use openjourney.Audience.Sql.{
  Test, equal, like, any_of, greater, less, Sql, Sqls, Token, word, render, render_all, compared,
  shift, moved_param, moved_token,
}
use openjourney.Audience.Compile.{Arg, expression}
use openjourney.Audience.Truth.{Truth, Row, bound, sql_value, group_value}

unfoldable mutual
  pub shifted : Sql → Sql
  shifted (Sql.attribute name test n) = Sql.attribute name test (moved_param n)
  shifted (Sql.company name test n) = Sql.company name test (moved_param n)
  shifted (Sql.consent c t s) = Sql.consent (moved_param c) (moved_param t) (moved_param s)
  shifted (Sql.score m s test n) = Sql.score (moved_param m) (moved_param s) test (moved_param n)
  shifted (Sql.every parts) = Sql.every (shifted_all parts)
  shifted (Sql.some_of parts) = Sql.some_of (shifted_all parts)
  shifted (Sql.negated part) = Sql.negated (shifted part)

  pub shifted_all : Sqls → Sqls
  shifted_all Sqls.nil = Sqls.nil
  shifted_all (Sqls.cons part parts) = Sqls.cons (shifted part) (shifted_all parts)

abbrev pub shifted_opt : Option Sql → Option Sql
shifted_opt none = none
shifted_opt (some e) = some (shifted e)

shift-append : (a b : List Token) → shift (a ++ b) ≡ shift a ++ shift b
shift-append [] b = refl
shift-append (t ∷ a) b = ap (λ l. moved_token t ∷ l) (shift-append a b)

shift-compared :
    (column cast name : String) (test : Test) (n : ℕ)
    → shift (compared column cast name test n) ≡ compared column cast name test (moved_param n)
shift-compared column cast name equal n = refl
shift-compared column cast name like n = refl
shift-compared column cast name any_of n = refl
shift-compared column cast name greater n = refl
shift-compared column cast name less n = refl

wrapped :
    (before after : String) (a b : List Token)
    → shift a ≡ b
    → shift (word before ∷ (a ++ word after ∷ [])) ≡ word before ∷ (b ++ word after ∷ [])
wrapped before after a b h =
    ap (λ l. word before ∷ l) (shift-append a _ ∙ ap (λ l. l ++ word after ∷ []) h)

mutual
  unfolding render shifted

  pub shift-render : (e : Sql) → shift (render e) ≡ render (shifted e)
  shift-render (Sql.attribute name test n) = shift-compared _ _ name test n
  shift-render (Sql.company name test n) = rw (
    shift-append (compared "c.attributes->>'" "(c.attributes->>'" name test n) (word ")" ∷ []),
    shift-compared "c.attributes->>'" "(c.attributes->>'" name test n,
  )
  shift-render (Sql.consent c t s) = refl
  shift-render (Sql.score m s test n) = refl
  shift-render (Sql.every parts) = wrapped "(" ")" _ _ (shift-render_all " AND " parts)
  shift-render (Sql.some_of parts) = wrapped "(" ")" _ _ (shift-render_all " OR " parts)
  shift-render (Sql.negated part) = wrapped "NOT (" ")" _ _ (shift-render part)

  shift-render_all :
      (separator : String) (parts : Sqls)
      → shift (render_all separator parts) ≡ render_all separator (shifted_all parts)
  shift-render_all separator Sqls.nil = refl
  shift-render_all separator (Sqls.cons part Sqls.nil) = shift-render part
  shift-render_all separator (Sqls.cons part (Sqls.cons next parts)) =
      shift-append (render part) _
      ∙ rw (shift-render part, shift-render_all separator (Sqls.cons next parts))

-- The text of the whole condition.
pub shift-expression : (c : Option Sql) → shift (expression c) ≡ expression (shifted_opt c)
shift-expression none = refl
shift-expression (some e) = shift-render e

module _ (row : Row) (tenant workspace profile : Arg) (args : List Arg) where
  bound-moved_param :
      (n : ℕ)
      → bound (moved_param n) (tenant ∷ workspace ∷ profile ∷ args)
        ≡ bound n (tenant ∷ workspace ∷ args)
  bound-moved_param zero = refl
  bound-moved_param (suc zero) = refl
  bound-moved_param (suc (suc zero)) = refl
  bound-moved_param (suc (suc (suc n))) =
      let e : moved_param (suc (suc (suc n))) ≡ suc (suc (suc (suc n))) = ground arith in rw e

  mutual
    unfolding sql_value shifted

    pub sql_value-shifted :
        (e : Sql)
        → sql_value row (tenant ∷ workspace ∷ profile ∷ args) (shifted e)
          ≡ sql_value row (tenant ∷ workspace ∷ args) e
    sql_value-shifted (Sql.attribute name test n) = rw (bound-moved_param n)
    sql_value-shifted (Sql.company name test n) = rw (bound-moved_param n)
    sql_value-shifted (Sql.consent c t s) =
        rw (bound-moved_param c, bound-moved_param t, bound-moved_param s)
    sql_value-shifted (Sql.score m s test n) =
        rw (bound-moved_param m, bound-moved_param s, bound-moved_param n)
    sql_value-shifted (Sql.every parts) = group_value-shifted _ _ parts
    sql_value-shifted (Sql.some_of parts) = group_value-shifted _ _ parts
    sql_value-shifted (Sql.negated part) = rw (sql_value-shifted part)

    group_value-shifted :
        (f : Truth → Truth → Truth) (unit : Truth) (parts : Sqls)
        → group_value f unit row (tenant ∷ workspace ∷ profile ∷ args) (shifted_all parts)
          ≡ group_value f unit row (tenant ∷ workspace ∷ args) parts
    group_value-shifted f unit Sqls.nil = refl
    group_value-shifted f unit (Sqls.cons part parts) =
        rw (sql_value-shifted part, group_value-shifted f unit parts)
