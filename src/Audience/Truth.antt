-- ===== src/Audience/Truth.antt =====
-- SQL's three truth values, and what a condition means for one row of `profiles`, whatever the
-- database does with one comparison.
use openjourney.Common.{
  ℕ, zero, suc, List, [], ◌∷◌, Option, none, some, String, ◌==◌, if◌then◌else◌,
}
use openjourney.Audience.Ast.{AstNode, AstNodes}
use openjourney.Audience.Sql.{Test, equal, like, any_of, greater, less, Sql, Sqls}
use openjourney.Audience.Compile.{Arg, string, any, float}

pub data Truth : Type 0 where
  holds fails unknown : Truth

abbrev pub conj : Truth → Truth → Truth
conj fails b = fails
conj holds b = b
conj unknown fails = fails
conj unknown b = unknown

abbrev pub disj : Truth → Truth → Truth
disj holds b = holds
disj fails b = b
disj unknown holds = holds
disj unknown b = unknown

abbrev pub neg : Truth → Truth
neg holds = fails
neg fails = holds
neg unknown = unknown

-- What the database answers for one row: each comparison with the values that are bound.
pub record Row : Type 0 where
  pub attribute : String → Test → Arg → Truth
  pub company : (member_tenant tenant workspace : Arg) → String → Test → Arg → Truth
  pub consent : (channel topic state : Arg) → Truth
  pub score : (tenant workspace model name : Arg) → Test → Arg → Truth

-- The value of `$n`, if the query has that many.
abbrev pub bound : ℕ → List Arg → Option Arg
bound n [] = none
bound zero (a ∷ args) = none
bound (suc zero) (a ∷ args) = some a
bound (suc (suc n)) (a ∷ args) = bound (suc n) args

abbrev pub with_arg : {A : Type 0} → Option Arg → (Arg → Option A) → Option A
with_arg none f = none
with_arg (some a) f = f a

abbrev pub both : (Truth → Truth → Truth) → Option Truth → Option Truth → Option Truth
both f (some a) (some b) = some (f a b)
both f _ _ = none

abbrev pub opposite_truth : Option Truth → Option Truth
opposite_truth none = none
opposite_truth (some a) = some (neg a)

-- The value of a text under bound values: none if a placeholder has no value.
unfoldable mutual
  pub sql_value : Row → List Arg → Sql → Option Truth
  sql_value row args (Sql.attribute name test n) =
      with_arg (bound n args) λ v. some (row.attribute name test v)
  sql_value row args (Sql.company name test n) = with_arg (bound 1 args) λ member_tenant.
      with_arg (bound 1 args) λ tenant. with_arg (bound 2 args) λ workspace.
        with_arg (bound n args) λ v. some (row.company member_tenant tenant workspace name test v)
  sql_value row args (Sql.consent channel topic state) = with_arg (bound channel args) λ c.
      with_arg (bound topic args) λ t. with_arg (bound state args) λ s. some (row.consent c t s)
  sql_value row args (Sql.score model name test n) = with_arg (bound 1 args) λ tenant.
      with_arg (bound 2 args) λ workspace. with_arg (bound model args) λ m.
        with_arg (bound name args)
          λ s. with_arg (bound n args) λ v. some (row.score tenant workspace m s test v)
  sql_value row args (Sql.every parts) = group_value conj holds row args parts
  sql_value row args (Sql.some_of parts) = group_value disj fails row args parts
  sql_value row args (Sql.negated part) = opposite_truth (sql_value row args part)

  pub group_value : (Truth → Truth → Truth) → Truth → Row → List Arg → Sqls → Option Truth
  group_value f unit row args Sqls.nil = some unit
  group_value f unit row args (Sqls.cons part parts) =
      both f (sql_value row args part) (group_value f unit row args parts)

-- The operators of conditions, and the comparison that each names.
abbrev pub operator_of : Test → String
operator_of equal = "equals"
operator_of like = "contains"
operator_of any_of = "in"
operator_of greater = "greater_than"
operator_of less = "less_than"

abbrev pub named : String → List Test → Option Test
named operator [] = none
named operator (t ∷ ts) = if operator == operator_of t then some t else named operator ts

abbrev pub asked_test : String → Option Test
asked_test operator = named operator (equal ∷ like ∷ any_of ∷ greater ∷ less ∷ [])

-- A comparison that an operator does not name holds of nothing.
abbrev pub if_test : Option Test → (Test → Truth) → Truth
if_test none f = fails
if_test (some test) f = f test

abbrev pub join_truth : (Truth → Truth → Truth) → Option Truth → Option Truth → Option Truth
join_truth f none b = b
join_truth f (some a) none = some a
join_truth f (some a) (some b) = some (f a b)

-- The meaning of a condition for a row of a workspace, and none if it asks nothing of the database's
-- profiles: a condition on events, or a group of such.
module _ (row : Row) (tenant workspace : String) where
  unfoldable mutual
    pub meaning : AstNode → Option Truth
    meaning (AstNode.and ns) = group_meaning conj ns
    meaning (AstNode.or ns) = group_meaning disj ns
    meaning (AstNode.not n) = opposite_truth (meaning n)
    meaning (AstNode.profile_attribute a) =
        some (if_test (asked_test a.operator) λ test. row.attribute a.field_name test (any a.val))
    meaning (AstNode.company c) = some (
        if_test (asked_test c.operator) λ test.
          row.company (string tenant) (string tenant) (string workspace) c.field_name test
            (any c.val))
    meaning (AstNode.consent c) =
        some (row.consent (string c.channel) (string c.topic) (string c.state))
    meaning (AstNode.score s) = some (
        if_test (asked_test s.operator) λ test.
          row.score (string tenant) (string workspace) (string s.model) (string s.score_name) test
            (float s.val))
    meaning (AstNode.event_history e) = none

    pub group_meaning : (Truth → Truth → Truth) → AstNodes → Option Truth
    group_meaning f AstNodes.nil = none
    group_meaning f (AstNodes.cons n ns) = join_truth f (meaning n) (group_meaning f ns)
