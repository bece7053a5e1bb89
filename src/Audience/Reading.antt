-- ===== src/Audience/Reading.antt =====
-- A reader of the queries that internal/audience writes: what PostgreSQL makes of their text, for one
-- row of `profiles`. NOT binds the closest, then AND, then OR, and a parenthesis groups.
use openjourney.Common.{
  ℕ, zero, suc, ◌+◌, Bool, true, false, ◌&&◌, List, [], ◌∷◌, Option, none, some, String, ◌==◌,
  if◌then◌else◌,
}
use openjourney.Audience.Sql.{Test, equal, like, any_of, greater, less, Token, word, param}
use openjourney.Audience.Compile.{Arg, is_safe}
use openjourney.Audience.Truth.{
  Truth, holds, fails, conj, disj, Row, bound, with_arg, both, opposite_truth,
}

-- What stands next in a text: an operand with its value, none where a placeholder has no value, a
-- parenthesis, after NOT or not, or one of the words between operands.
pub data TextEvent : Type 0 where
  operand : Option Truth → TextEvent
  opened : (is_negated : Bool) → TextEvent
  closing and_word or_word : TextEvent

-- A group that is open: the ORs before it, the ANDs since the last of them, and a NOT in front.
pub record Frame : Type 0 where
  pub is_negated : Bool
  pub ors : Option Truth
  pub ands : Option Truth

-- An operand is expected, or one has been read.
pub data State : Type 0 where
  before after : (ors ands : Option Truth) → List Frame → State

abbrev pub closed : Bool → Option Truth → Option Truth
closed true v = opposite_truth v
closed false v = v

abbrev pub step : TextEvent → State → Option State
step (operand v) (before ors ands frames) = some (after ors (both conj ands v) frames)
step (opened is_negated) (before ors ands frames) = some (
    before (some fails) (some holds)
      (record { is_negated = is_negated; ors = ors; ands = ands } ∷ frames))
step closing (after ors ands (f ∷ frames)) =
    some (after f.ors (both conj f.ands (closed f.is_negated (both disj ors ands))) frames)
step and_word (after ors ands frames) = some (before ors ands frames)
step or_word (after ors ands frames) = some (before (both disj ors ands) (some holds) frames)
step _ _ = none

abbrev is_word : String → List Token → Bool
is_word s (word t ∷ text) = t == s
is_word s _ = false

-- A comparison of a column after its name: the column may be cast to numeric. How many tokens it is.
pub record Comparison : Type 0 where
  pub name : String
  pub test : Test
  pub value_at : ℕ
  pub size : ℕ

abbrev made : String → Test → ℕ → ℕ → Option Comparison
made name test n size =
    if is_safe name
    then some (record { name = name; test = test; value_at = n; size = size })
    else none

abbrev if_word : {A : Type 0} → String → List Token → Option A → Option A
if_word s text o = if is_word s text then o else none

abbrev comparison : (is_cast : Bool) → List Token → Option Comparison
comparison false (word name ∷ word op ∷ param n ∷ text) =
    if op == "' = "
    then made name equal n 3
    else if op == "' LIKE '%' || "
    then if_word " || '%'" text (made name like n 4)
    else if op == "' = ANY("
    then if_word ")" text (made name any_of n 4)
    else none
comparison true (word name ∷ word op ∷ param n ∷ text) =
    if op == "')::numeric > ("
    then if_word ")::numeric" text (made name greater n 4)
    else if op == "')::numeric < ("
    then if_word ")::numeric" text (made name less n 4)
    else none
comparison _ _ = none

abbrev dropped_tokens : ℕ → List Token → List Token
dropped_tokens zero text = text
dropped_tokens (suc n) [] = []
dropped_tokens (suc n) (t ∷ text) = dropped_tokens n text

abbrev pub sign_test : String → Option Test
sign_test s =
    if s == "="
    then some equal
    else if s == ">"
    then some greater
    else if s == "<"
    then some less
    else none

module _ (row : Row) (args : List Arg) where
  -- What is next, and how many tokens it has after its first.
  abbrev Next : Type 0
  Next = Option (TextEvent × ℕ)

  abbrev attribute_next : Option Comparison → Next
  attribute_next none = none
  attribute_next (some c) =
      some (
        operand (with_arg (bound c.value_at args) λ v. some (row.attribute c.name c.test v)),
        c.size,
      )

  abbrev company_value : (member_tenant tenant workspace : ℕ) → Comparison → Option Truth
  company_value m t w c = with_arg (bound m args) λ member_tenant. with_arg (bound t args) λ tenant.
      with_arg (bound w args) λ workspace.
        with_arg (bound c.value_at args)
          λ v. some (row.company member_tenant tenant workspace c.name c.test v)

  abbrev company_compared :
      (member_tenant tenant workspace : ℕ) → Option Comparison → List Token → Next
  company_compared m t w none text = none
  company_compared m t w (some c) text =
      if_word ")" (dropped_tokens c.size text) (some (operand (company_value m t w c), 8 + c.size))

  -- The rest of the subquery of companies.
  abbrev company_next : List Token → Next
  company_next (param m ∷ word a ∷ param t ∷ word b ∷ param w ∷ word c ∷ word column ∷ text) =
      if (a == " AND c.tenant_id=") && (b == " AND c.workspace_id=") && (c == " AND ")
      then (if column == "c.attributes->>'"
          then company_compared m t w (comparison false text) text
          else if column == "(c.attributes->>'"
          then company_compared m t w (comparison true text) text
          else none)
      else none
  company_next _ = none

  -- The rest of the subquery of the consent ledger.
  abbrev consent_next : List Token → Next
  consent_next (param channel ∷ word a ∷ param topic ∷ word b ∷ param state ∷ text) =
      if (a == " AND cl.topic = ")
        && (b == " ORDER BY cl.profile_id, cl.occurred_at DESC) latest WHERE latest.state = ")
      then if_word ")" text (
          some (
            operand (
                with_arg (bound channel args) λ c.
                  with_arg (bound topic args)
                    λ t. with_arg (bound state args) λ s. some (row.consent c t s)),
            6,
          ))
      else none
  consent_next _ = none

  abbrev score_value : (tenant workspace model name : ℕ) → Option Test → ℕ → Next
  score_value t w m s none n = none
  score_value t w m s (some test) n = some (
    operand (
        with_arg (bound t args) λ tenant. with_arg (bound w args) λ workspace.
          with_arg (bound m args) λ model. with_arg (bound s args) λ name.
            with_arg (bound n args) λ v. some (row.score tenant workspace model name test v)),
    12,
  )

  -- The rest of the subquery of scores.
  abbrev score_compared : (tenant workspace model name : ℕ) → List Token → Next
  score_compared t w m s (word d ∷ word sign ∷ word e ∷ param n ∷ text) =
      if (d == " AND value ") && (e == " ")
      then if_word ")" text (score_value t w m s (sign_test sign) n)
      else none
  score_compared t w m s _ = none

  abbrev score_next : List Token → Next
  score_next (param t ∷ word a ∷ param w ∷ word b ∷ param m ∷ word c ∷ param s ∷ text) =
      if (a == " AND workspace_id = ")
        && (b == " AND scoring_model_id = ")
        && (c == " AND score_name = ")
      then score_compared t w m s text
      else none
  score_next _ = none

  abbrev next : Token → List Token → Next
  next (param n) text = none
  next (word s) text =
      if s == "("
      then some (opened false, 0)
      else if s == "NOT ("
      then some (opened true, 0)
      else if s == ")"
      then some (closing, 0)
      else if s == " AND "
      then some (and_word, 0)
      else if s == " OR "
      then some (or_word, 0)
      else if s == "TRUE"
      then some (operand (some holds), 0)
      else if s == "attributes->>'"
      then attribute_next (comparison false text)
      else if s == "(attributes->>'"
      then attribute_next (comparison true text)
      else if s
          == "id IN (SELECT m.profile_id FROM company_members m JOIN companies c ON c.id=m.company_id WHERE m.tenant_id="
      then company_next text
      else if s
          == "id IN (SELECT latest.profile_id FROM (SELECT DISTINCT ON (cl.profile_id) cl.profile_id, cl.state FROM consent_ledger cl WHERE cl.tenant_id = profiles.tenant_id AND cl.app_id = profiles.app_id AND cl.channel = "
      then consent_next text
      else if s == "id IN (SELECT profile_id FROM profile_scores WHERE tenant_id = "
      then score_next text
      else none

  abbrev finished : State → Option Truth
  finished (after ors ands []) = both disj ors ands
  finished _ = none

  -- The truth value of a text, of which `skip` tokens belong to what was read last.
  unfoldable pub read : (skip : ℕ) → List Token → State → Option Truth
  read skip [] state = finished state
  read (suc skip) (t ∷ text) state = read skip text state
  read zero (t ∷ text) state = elim (next t text) [
    | none ↦ none
    | some (event, size) ↦ elim (step event state) [
      | none ↦ none
      | some state' ↦ read size text state'
    ]
  ]

  -- The condition of a query: its text after ` AND (`, up to the parenthesis that ends the query.
  abbrev pub condition : List Token → Option Truth
  unfolding read
  condition text = read 0 text (
      before (some fails) (some holds)
        (record { is_negated = false; ors = some fails; ands = some holds } ∷ []))

  -- What a query of many rows asks: the tenant and the workspace that it selects the rows of, and
  -- the value of its condition for one of these rows.
  unfoldable pub rows_query : List Token → Option (Arg × Arg × Truth)
  unfolding read
  rows_query (word a ∷ word column ∷ word b ∷ param t ∷ word c ∷ param w ∷ word d ∷ text) =
      if (a == "SELECT ")
        && (column == "external_id")
        && (b == " FROM profiles WHERE tenant_id=")
        && (c == " AND workspace_id=")
        && (d == " AND (")
      then (with_arg (bound t args) λ tenant.
          with_arg (bound w args) λ workspace. elim (condition text) [
            | none ↦ none
            | some v ↦ some (tenant, workspace, v)
          ])
      else none
  rows_query _ = none

  -- What a query of one row asks, with the id that it selects as the third value.
  unfoldable pub row_query : List Token → Option (Arg × Arg × Arg × Truth)
  unfolding read
  row_query (word a ∷ param t ∷ word b ∷ param w ∷ word c ∷ param i ∷ word d ∷ text) =
      if (a == "SELECT 1 FROM profiles WHERE tenant_id=")
        && (b == " AND workspace_id=")
        && (c == " AND id=")
        && (d == " AND (")
      then (with_arg (bound t args) λ tenant. with_arg (bound w args) λ workspace.
          with_arg (bound i args)
            λ id. elim (condition text) [ none ↦ none | some v ↦ some (tenant, workspace, id, v) ])
      else none
  row_query _ = none
