-- ===== src/Audience/Segment.antt =====
-- `resolveSegmentIDs` of internal/postgres/segments.go, from the profiles that its paging loop reads:
-- the set of the profiles in a segment. A Go map from ids to true is the list of its ids.
use openjourney.Common.{
  ℕ, ◌+◌, List, [], ◌∷◌, Option, none, some, String, ◌==◌, is_empty, if◌then◌else◌, ok, err, ◌>>=◌,
  contains, length, map,
}
use openjourney.Json.{RawMessage}
use openjourney.Audience.Ast.{AstNode, AstNodes, EventHistory, Consent}
use openjourney.Audience.Parse.{parse}
use openjourney.Audience.Sql.{Token, word, param}
use openjourney.Audience.Compile.{Arg, string, number, SqlQuery, compile_profile}
use openjourney.Audience.Matches.{
  EvaluateError, Evaluated, compiled, parsed, at_least_one, is_unconditional,
}

-- A row of the paging query; no external id is the empty string.
pub record ProfileKey : Type 0 where
  pub id : String
  pub external_id : String

pub record Member : Type 0 where
  pub profile_id : String
  pub membership : String

-- The queries of the store: external ids, profile ids and subject hashes.
pub record SegmentStore : Type 0 where
  pub query_external_ids : List Token → List Arg → Evaluated (List String)
  pub query_profile_ids : List Token → List Arg → Evaluated (List String)
  pub query_subject_hashes : Option (List Token → List Arg → Evaluated (List String))
  pub segment_members : (tenant segment : String) → Evaluated (List Member)

-- `perLegCounts`.
pub record LegCounts : Type 0 where
  pub profile_attributes : ℕ
  pub scores : ℕ
  pub consents : ℕ
  pub events : ℕ

abbrev pub IdSet : Type 0
IdSet = List String

-- `set[id] = true` and `delete(set, id)`.
unfoldable pub put : String → IdSet → IdSet
put id ids = if contains ids id then ids else id ∷ ids

unfoldable pub remove : String → IdSet → IdSet
remove id [] = []
remove id (x ∷ ids) = let rest = remove id ids in if x == id then rest else x ∷ rest

unfoldable pub union : IdSet → IdSet → IdSet
unfolding put
union [] ids = ids
union (x ∷ xs) ids = put x (union xs ids)

-- The ids of one set that the other has, and that it lacks.
unfoldable pub kept_ids : IdSet → IdSet → IdSet
kept_ids [] other = []
kept_ids (x ∷ xs) other =
    let rest = kept_ids xs other in if contains other x then x ∷ rest else rest

unfoldable pub dropped : IdSet → IdSet → IdSet
dropped [] other = []
dropped (x ∷ xs) other = let rest = dropped xs other in if contains other x then rest else x ∷ rest

-- `externalIDToProfileID` and `hashToProfileID`: a later row with the same key wins.
unfoldable pub lookup_id : (String → String) → List ProfileKey → String → Option String
lookup_id key [] wanted = none
lookup_id key (p ∷ ps) wanted = elim (lookup_id key ps wanted) [
  | some id ↦ some id
  | none ↦
      if is_empty p.external_id
      then none
      else if key p.external_id == wanted
      then some p.id
      else none
]

-- The profiles that the rows of a query name.
unfoldable pub found_ids : (String → Option String) → List String → IdSet
unfolding put
found_ids find [] = []
found_ids find (row ∷ rows) = elim (find row) [
  | none ↦ found_ids find rows
  | some id ↦ put id (found_ids find rows)
]

-- `CompileConsent`.
unfoldable pub compile_consent_ids : Consent → (tenant app : String) → SqlQuery
compile_consent_ids c tenant app = (
  word
        "SELECT profile_id FROM (SELECT DISTINCT ON (profile_id) profile_id, state FROM consent_ledger WHERE tenant_id = "
      ∷ param 1
      ∷ word " AND app_id = "
      ∷ param 2
      ∷ word " AND channel = "
      ∷ param 3
      ∷ word " AND topic = "
      ∷ param 4
      ∷ word " ORDER BY profile_id, occurred_at DESC) latest WHERE state = "
      ∷ param 5
      ∷ [],
  string tenant ∷ string app ∷ string c.channel ∷ string c.topic ∷ string c.state ∷ [],
)

-- `CompileClickHouse`.
unfoldable pub compile_click_house : EventHistory → (tenant : String) → SqlQuery
compile_click_house e tenant = (
  word
        "SELECT subject_hash FROM behavior_events WHERE tenant_id = ? AND event_type = ? AND occurred_at >= now() - INTERVAL ? DAY GROUP BY subject_hash HAVING count() >= ?"
      ∷ [],
  string tenant
      ∷ string e.event_type
      ∷ number e.time_window_days
      ∷ number (at_least_one e.min_count)
      ∷ [],
)

-- `allProfileIDs`.
abbrev pub all_ids : List ProfileKey → IdSet
all_ids profiles = map (λ p. p.id) profiles

-- The loop over the segment's own members, after the conditions.
unfoldable pub with_member : List ProfileKey → Member → IdSet → IdSet
unfolding put remove
with_member profiles m ids =
    if contains (all_ids profiles) m.profile_id
    then (if m.membership == "exclude"
        then remove m.profile_id ids
        else if m.membership == "include"
        then put m.profile_id ids
        else ids)
    else ids

unfoldable pub with_members : List ProfileKey → List Member → IdSet → IdSet
unfolding with_member
with_members profiles [] ids = ids
with_members profiles (m ∷ ms) ids = with_members profiles ms (with_member profiles m ids)

module _ (db : SegmentStore) (sha256_hex : String → String) (tenant workspace app : String)
    (profiles : List ProfileKey) where
  abbrev pub Leg : Type 0
  Leg = Evaluated (IdSet × LegCounts)

  unfoldable pub compiled_ids : AstNode → Evaluated IdSet
  unfolding lookup_id found_ids
  compiled_ids n = compiled (compile_profile n) >>= λ query.
      db.query_external_ids query.0 (string tenant ∷ string workspace ∷ query.1) >>= λ rows.
      ok (found_ids (lookup_id (λ e. e) profiles) rows)

  unfoldable pub consent_ids : Consent → Evaluated IdSet
  unfolding kept_ids compile_consent_ids
  consent_ids c =
      let query = compile_consent_ids c tenant app in
      db.query_profile_ids query.0 query.1 >>= λ rows. ok (kept_ids rows (all_ids profiles))

  unfoldable pub event_ids : EventHistory → Evaluated IdSet
  unfolding lookup_id found_ids dropped compile_click_house
  event_ids e = elim db.query_subject_hashes [
    | none ↦
        err (EvaluateError.store "ClickHouse connection not available for event-history evaluation")
    | some run ↦
        let query = compile_click_house e tenant in
        run query.0 query.1 >>= λ rows.
        let matching = found_ids (lookup_id sha256_hex profiles) rows in
        ok (
          if e.operator == "has_not_occurred"
          then dropped (all_ids profiles) matching
          else matching)
  ]

  -- `eval`, which adds to the counts as it goes.
  unfoldable mutual
    pub eval : AstNode → LegCounts → Leg
    eval (AstNode.and ns) counts = eval_every ns none counts
    eval (AstNode.or ns) counts = eval_some ns [] counts
    eval (AstNode.not n) counts =
        eval n counts >>= λ out. ok (dropped (all_ids profiles) out.0, out.1)
    eval (AstNode.profile_attribute a) counts =
        compiled_ids (AstNode.profile_attribute a) >>= λ ids.
        ok (ids, record counts { profile_attributes = counts.profile_attributes + length ids })
    eval (AstNode.score s) counts = compiled_ids (AstNode.score s) >>= λ ids.
        ok (ids, record counts { scores = counts.scores + length ids })
    eval (AstNode.consent c) counts =
        consent_ids c >>= λ ids. ok (ids, record counts { consents = counts.consents + length ids })
    eval (AstNode.event_history e) counts =
        event_ids e >>= λ ids. ok (ids, record counts { events = counts.events + length ids })
    eval (AstNode.company c) counts = err EvaluateError.unknown_node

    -- The loop over the conditions of an AND, with the set so far, if this is not the first.
    pub eval_every : AstNodes → Option IdSet → LegCounts → Leg
    eval_every AstNodes.nil none counts = ok ([], counts)
    eval_every AstNodes.nil (some ids) counts = ok (ids, counts)
    eval_every (AstNodes.cons n ns) none counts =
        eval n counts >>= λ out. eval_every ns (some out.0) out.1
    eval_every (AstNodes.cons n ns) (some ids) counts =
        eval n counts >>= λ out. eval_every ns (some (kept_ids ids out.0)) out.1

    pub eval_some : AstNodes → IdSet → LegCounts → Leg
    eval_some AstNodes.nil ids counts = ok (ids, counts)
    eval_some (AstNodes.cons n ns) ids counts =
        eval n counts >>= λ out. eval_some ns (union out.0 ids) out.1

  abbrev no_counts : LegCounts
  no_counts = record { profile_attributes = 0; scores = 0; consents = 0; events = 0 }

  unfoldable pub resolve_segment_ids : (segment : String) → RawMessage → Leg
  unfolding eval with_members
  resolve_segment_ids segment dsl =
      (if is_unconditional dsl
        then ok ([], no_counts)
        else parsed (parse dsl) >>= λ n. eval n no_counts)
      >>= λ out.
          db.segment_members tenant segment >>= λ ms. ok (with_members profiles ms out.0, out.1)
