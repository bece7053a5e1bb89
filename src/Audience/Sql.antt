-- ===== src/Audience/Sql.antt =====
-- The conditions that internal/audience/compile_pg.go writes, as trees, and their text. A piece of
-- text is a word, or the placeholder `$n`: no word has a `$`, since a field is checked first. The
-- line breaks of the source are single spaces.
use openjourney.Common.{ℕ, ◌+◌, List, [], ◌∷◌, ◌++◌, map, String, ltb, if◌then◌else◌}

-- The comparisons: `=`, LIKE, `= ANY`, `>` and `<`.
pub data Test : Type 0 where
  equal like any_of greater less : Test

mutual
  pub data Sql : Type 0 where
    -- An attribute of the profile, or of a company that the profile is a member of.
    attribute : (name : String) → Test → (value_at : ℕ) → Sql
    company : (name : String) → Test → (value_at : ℕ) → Sql
    consent : (channel_at topic_at state_at : ℕ) → Sql
    score : (model_at name_at : ℕ) → Test → (value_at : ℕ) → Sql
    every some_of : Sqls → Sql
    negated : Sql → Sql

  pub data Sqls : Type 0 where
    nil : Sqls
    cons : Sql → Sqls → Sqls

pub data Token : Type 0 where
  word : String → Token
  param : ℕ → Token

-- The text of a comparison of a column, for `attributes->>'field'` and `c.attributes->>'field'`.
-- `cast` is the column in front of a cast to numeric, with its parenthesis.
abbrev pub compared : (column cast : String) → String → Test → ℕ → List Token
compared column cast name equal n = word column ∷ word name ∷ word "' = " ∷ param n ∷ []
compared column cast name like n =
    word column ∷ word name ∷ word "' LIKE '%' || " ∷ param n ∷ word " || '%'" ∷ []
compared column cast name any_of n =
    word column ∷ word name ∷ word "' = ANY(" ∷ param n ∷ word ")" ∷ []
compared column cast name greater n =
    word cast ∷ word name ∷ word "')::numeric > (" ∷ param n ∷ word ")::numeric" ∷ []
compared column cast name less n =
    word cast ∷ word name ∷ word "')::numeric < (" ∷ param n ∷ word ")::numeric" ∷ []

abbrev pub sign : Test → String
sign greater = ">"
sign less = "<"
sign _ = "="

-- `strings.Join` of columns, of which the first is in front of the others joined.
abbrev pub joined : List Token → String → List Token → List Token
joined first separator [] = first
joined first separator rest = first ++ word separator ∷ rest

unfoldable mutual
  pub render : Sql → List Token
  render (attribute name test n) = compared "attributes->>'" "(attributes->>'" name test n
  render (consent channel topic state) =
      word
        "id IN (SELECT latest.profile_id FROM (SELECT DISTINCT ON (cl.profile_id) cl.profile_id, cl.state FROM consent_ledger cl WHERE cl.tenant_id = profiles.tenant_id AND cl.app_id = profiles.app_id AND cl.channel = "
      ∷ param channel
      ∷ word " AND cl.topic = "
      ∷ param topic
      ∷ word " ORDER BY cl.profile_id, cl.occurred_at DESC) latest WHERE latest.state = "
      ∷ param state
      ∷ word ")"
      ∷ []
  render (score model name test n) =
      word "id IN (SELECT profile_id FROM profile_scores WHERE tenant_id = "
      ∷ param 1
      ∷ word " AND workspace_id = "
      ∷ param 2
      ∷ word " AND scoring_model_id = "
      ∷ param model
      ∷ word " AND score_name = "
      ∷ param name
      ∷ word " AND value "
      ∷ word (sign test)
      ∷ word " "
      ∷ param n
      ∷ word ")"
      ∷ []
  render (company name test n) =
      word
        "id IN (SELECT m.profile_id FROM company_members m JOIN companies c ON c.id=m.company_id WHERE m.tenant_id="
      ∷ param 1
      ∷ word " AND c.tenant_id="
      ∷ param 1
      ∷ word " AND c.workspace_id="
      ∷ param 2
      ∷ word " AND "
      ∷ (compared "c.attributes->>'" "(c.attributes->>'" name test n ++ word ")" ∷ [])
  render (every parts) = word "(" ∷ (render_all " AND " parts ++ word ")" ∷ [])
  render (some_of parts) = word "(" ∷ (render_all " OR " parts ++ word ")" ∷ [])
  render (negated part) = word "NOT (" ∷ (render part ++ word ")" ∷ [])

  -- `strings.Join`.
  pub render_all : String → Sqls → List Token
  render_all separator nil = []
  render_all separator (cons part nil) = render part
  render_all separator (cons part (cons next parts)) =
      render part ++ word separator ∷ render_all separator (cons next parts)

-- `ReplaceAllStringFunc`, over the placeholders: each above 2 moves up by one.
abbrev pub moved_param : ℕ → ℕ
moved_param n = if ltb 2 n then n + 1 else n

abbrev pub moved_token : Token → Token
moved_token (word s) = word s
moved_token (param n) = param (moved_param n)

abbrev pub shift : List Token → List Token
shift text = map moved_token text
