-- ===== src/Audience/Matches.antt =====
-- internal/audience/evaluate.go, and `EvaluateAudience` of internal/postgres/journey_runtime.go: does
-- one profile match a condition? The store and the hash are the databases' and crypto/sha256's.
use openjourney.Common.{
  Bool, true, false, not, List, [], ◌∷◌, String, ◌==◌, is_empty, if◌then◌else◌, Result, ok, err,
  ◌>>=◌,
}
use openjourney.Common.Int.{ℤ, pos, is_positive}
use openjourney.Json.{RawMessage, empty, value, null, obj, end}
use openjourney.Audience.Ast.{AstNode, AstNodes, EventHistory, Consent}
use openjourney.Audience.Parse.{parse}
use openjourney.Audience.RawNode.{ParseError}
use openjourney.Audience.Sql.{Token, word, param}
use openjourney.Audience.Compile.{
  Arg, string, number, SqlQuery, CompileError, Compiled, compile_profile_single,
}

-- An error: of the parser, of the compiler, of the store, or of a node that no case handles.
pub data EvaluateError : Type 0 where
  parsing : ParseError → EvaluateError
  compiling : CompileError → EvaluateError
  store : String → EvaluateError
  unknown_node : EvaluateError

abbrev pub Evaluated : Type 0 → Type 0
Evaluated A = Result EvaluateError A

abbrev pub compiled : {A : Type 0} → Compiled A → Evaluated A
compiled (ok a) = ok a
compiled (err e) = err (compiling e)

abbrev pub parsed : {A : Type 0} → Result ParseError A → Evaluated A
parsed (ok a) = ok a
parsed (err e) = err (parsing e)

-- `EvaluatorStore`.
pub record EvaluatorStore : Type 0 where
  pub query_profile_matches : List Token → List Arg → Evaluated Bool
  pub query_consent_matches : List Token → List Arg → Evaluated Bool
  pub query_click_house_matches : List Token → List Arg → Evaluated Bool
  pub get_profile_external_id : (tenant workspace profile : String) → Evaluated String

-- `CompileConsentSingle`.
unfoldable pub compile_consent_single : Consent → (tenant app profile : String) → SqlQuery
compile_consent_single c tenant app profile = (
  word "SELECT 1 FROM (SELECT state FROM consent_ledger WHERE tenant_id = "
      ∷ param 1
      ∷ word " AND app_id = "
      ∷ param 2
      ∷ word " AND profile_id = "
      ∷ param 3
      ∷ word " AND channel = "
      ∷ param 4
      ∷ word " AND topic = "
      ∷ param 5
      ∷ word " ORDER BY occurred_at DESC LIMIT 1) latest WHERE state = "
      ∷ param 6
      ∷ [],
  string tenant
      ∷ string app
      ∷ string profile
      ∷ string c.channel
      ∷ string c.topic
      ∷ string c.state
      ∷ [],
)

-- `if minCount <= 0 { minCount = 1 }`.
abbrev pub at_least_one : ℤ → ℤ
at_least_one n = if is_positive n then n else pos 1

-- `CompileClickHouseSingle`, whose placeholders have no number.
unfoldable pub compile_click_house_single :
    EventHistory → (tenant workspace app subject_hash : String) → SqlQuery
compile_click_house_single e tenant workspace app subject_hash = (
  word
        "SELECT 1 FROM behavior_events WHERE tenant_id = ? AND workspace_id = ? AND app_id = ? AND event_type = ? AND occurred_at >= now() - INTERVAL ? DAY AND subject_hash = ? GROUP BY subject_hash HAVING count() >= ?"
      ∷ [],
  string tenant
      ∷ string workspace
      ∷ string app
      ∷ string e.event_type
      ∷ number e.time_window_days
      ∷ string subject_hash
      ∷ number (at_least_one e.min_count)
      ∷ [],
)

-- No condition, or the texts `{}` and `null`: a message is taken as the database prints it, with no
-- space between the braces.
abbrev pub is_unconditional : RawMessage → Bool
is_unconditional empty = true
is_unconditional (value null) = true
is_unconditional (value (obj end)) = true
is_unconditional _ = false

-- The rest of a loop, or its answer.
abbrev pub stop_or : Bool → Bool → Evaluated Bool → Evaluated Bool
stop_or true answer rest = rest
stop_or false answer rest = ok answer

module _ (db : EvaluatorStore) (sha256_hex : String → String)
    (tenant workspace app profile : String) where
  unfoldable pub match_compiled : AstNode → Evaluated Bool
  match_compiled n = compiled (compile_profile_single n) >>= λ query.
      db.query_profile_matches query.0 (string tenant ∷ string workspace ∷ string profile ∷ query.1)

  unfoldable pub match_consent : Consent → Evaluated Bool
  unfolding compile_consent_single
  match_consent c =
      let query = compile_consent_single c tenant app profile in
      db.query_consent_matches query.0 query.1

  unfoldable pub match_events : EventHistory → Evaluated Bool
  unfolding compile_click_house_single
  match_events e = db.get_profile_external_id tenant workspace profile >>= λ external_id.
      if is_empty external_id
      then ok (e.operator == "has_not_occurred")
      else (let query =
            compile_click_house_single e tenant workspace app (sha256_hex external_id) in
          db.query_click_house_matches query.0 query.1 >>= λ matched.
          ok (if e.operator == "has_not_occurred" then not matched else matched))

  -- `Matches`.
  unfoldable mutual
    pub matches : AstNode → Evaluated Bool
    matches (AstNode.and ns) = match_every ns
    matches (AstNode.or ns) = match_some ns
    matches (AstNode.not n) = matches n >>= λ matched. ok (not matched)
    matches (AstNode.profile_attribute a) = match_compiled (AstNode.profile_attribute a)
    matches (AstNode.score s) = match_compiled (AstNode.score s)
    matches (AstNode.consent c) = match_consent c
    matches (AstNode.event_history e) = match_events e
    matches (AstNode.company c) = err unknown_node

    -- The loops over the conditions, which return early.
    pub match_every : AstNodes → Evaluated Bool
    match_every AstNodes.nil = ok true
    match_every (AstNodes.cons n ns) =
        matches n >>= λ matched. stop_or matched false (match_every ns)

    pub match_some : AstNodes → Evaluated Bool
    match_some AstNodes.nil = ok false
    match_some (AstNodes.cons n ns) =
        matches n >>= λ matched. stop_or (not matched) true (match_some ns)

  -- `EvaluateAudience`.
  unfoldable pub evaluate_audience : RawMessage → Evaluated Bool
  unfolding matches
  evaluate_audience dsl =
      if is_unconditional dsl then ok true else parsed (parse dsl) >>= λ n. matches n
