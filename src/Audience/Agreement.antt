-- ===== src/Audience/Agreement.antt =====
-- `resolveSegmentIDs` of internal/postgres/segments.go against `Matches` of
-- internal/audience/evaluate.go, for one profile.
use openjourney.Common.{
  ok_inj, ◌≡◌, refl, sym, ap, ◌∙◌, Bool, true, false, ◌&&◌, ◌||◌, List, [], ◌∷◌, some, String,
  contains, In, ok, >>=-eq-ok, is_empty,
}
use openjourney.Audience.Ast.{AstNode, AstNodes, Consent}
use openjourney.Audience.Sql.{Sql, word, shift}
use openjourney.Audience.Shift.{shift-expression, shifted}
use openjourney.Audience.Compile.{
  Arg, string, compile_node, compile_profile, compile_profile_single, rows_of, row_of, expression,
}
use openjourney.Audience.Truth.{Truth, Row, meaning, sql_value}
use openjourney.Audience.Queries.{asked, compile_node-where_value, where_value-shifted}
use openjourney.Audience.Matches.{
  Evaluated, EvaluatorStore, compiled, compile_consent_single, match_compiled, match_consent,
  matches, match_every, match_some, is_unconditional, evaluate_audience,
}
use openjourney.Audience.Segment.{
  IdSet, SegmentStore, ProfileKey, LegCounts, lookup_id, found_ids, all_ids, compile_consent_ids,
  compiled_ids, consent_ids, eval, eval_every, eval_some, Member, resolve_segment_ids, kept_ids,
  dropped, union,
}
use openjourney.Json.{RawMessage}
use openjourney.Audience.Parse.{parse}
use openjourney.Audience.Members.{last_word, decided, contains-with_members}
use openjourney.Audience.Sets.{
  contains-found_ids, contains-kept_ids, contains-dropped, contains-union,
}
use openjourney.Audience.Lookup.{
  is_holds, is_comparison, IsStored, AreStored, lookup-In, lookup-own, compiled-ok, IsLeaf,
  attribute-IsLeaf, score-IsLeaf, and_true, and_assoc, or_swap, contains_nil, or_false,
  contains-all_ids, stop_or-and, stop_or-or, is_comparison-shifted,
}

module _ (db : SegmentStore) (single : EvaluatorStore) (sha256_hex : String → String)
    (tenant workspace app : String) (profiles : List ProfileKey) (p : ProfileKey) (row : Row)
    (state_of : Consent → Bool) (member : In p profiles) (named : is_empty p.external_id ≡ false)
    (own_key : (q : ProfileKey) → In q profiles → q.external_id ≡ p.external_id → q.id ≡ p.id)
    (own_id : (q : ProfileKey) → In q profiles → q.id ≡ p.id → q.external_id ≡ p.external_id)
    (one_row : (e : Sql) (args : List Arg) (t : Truth)
      → is_comparison e ≡ true
      → sql_value row (string tenant ∷ string workspace ∷ string p.id ∷ args) e ≡ some t
      → single.query_profile_matches
          (row_of (expression (some e)))
          (string tenant ∷ string workspace ∷ string p.id ∷ args)
        ≡ ok (is_holds t))
    (all_rows : (e : Sql) (args : List Arg) (t : Truth) (rows : List String)
      → is_comparison e ≡ true
      → sql_value row (string tenant ∷ string workspace ∷ args) e ≡ some t
      → db.query_external_ids
          (rows_of (word "external_id" ∷ []) (expression (some e)))
          (string tenant ∷ string workspace ∷ args)
        ≡ ok rows
      → contains rows p.external_id ≡ is_holds t)
    (one_state : (c : Consent)
      → single.query_consent_matches
          (compile_consent_single c tenant app p.id).0
          (compile_consent_single c tenant app p.id).1
        ≡ ok (state_of c))
    (all_states : (c : Consent) (rows : List String)
      → db.query_profile_ids
          (compile_consent_ids c tenant app).0
          (compile_consent_ids c tenant app).1
        ≡ ok rows
      → contains rows p.id ≡ state_of c) where
  abbrev live : AstNode → Evaluated Bool
  live n = matches single sha256_hex tenant workspace app p.id n

  contains-compiled :
      (rows : List String)
      → contains (found_ids (lookup_id (λ e. e) profiles) rows) p.id ≡ contains rows p.external_id
  contains-compiled rows =
      contains-found_ids (lookup_id (λ e. e) profiles) p.external_id p.id
        (lookup-own profiles p member named own_key)
        (λ k found.
          let (q, q_in, e, own) = lookup-In (λ e. e) profiles k p.id found in
          sym own ∙ own_id q q_in e)
        rows

  leaf_values :
      (n : AstNode) (e : Sql) (args : List Arg) (rows : List String)
      → compile_node n [] ≡ ok (some e, args)
      → is_comparison e ≡ true
      → db.query_external_ids
          (rows_of (word "external_id" ∷ []) (expression (some e)))
          (string tenant ∷ string workspace ∷ args)
        ≡ ok rows
      → match_compiled single sha256_hex tenant workspace app p.id n
        ≡ ok (contains rows p.external_id)
  unfolding match_compiled compile_profile_single
  leaf_values n e args rows h one found =
      let t = asked (meaning row tenant workspace n) in
      let ps = string tenant ∷ string workspace ∷ string p.id ∷ args in
      let computes : sql_value row (string tenant ∷ string workspace ∷ args) e ≡ some t =
        compile_node-where_value row tenant workspace n (some e, args) h in
      let asks : match_compiled single sha256_hex tenant workspace app p.id n
          ≡ single.query_profile_matches (row_of (shift (expression (some e)))) ps =
        rw h in
      asks
      ∙ ap (λ text. single.query_profile_matches (row_of text) ps) (shift-expression (some e))
      ∙ one_row (shifted e) args t (is_comparison-shifted e one)
          (where_value-shifted row tenant workspace (some e) args p.id ∙ computes)
      ∙ ap ok (sym (all_rows e args t rows one computes found))

  leaf_agrees :
      (n : AstNode)
      → IsLeaf n
      → (ids : IdSet) → compiled_ids db sha256_hex tenant workspace app profiles n ≡ ok ids
      → match_compiled single sha256_hex tenant workspace app p.id n ≡ ok (contains ids p.id)
  unfolding compiled_ids compile_profile IsLeaf
  leaf_agrees n leaf ids h =
      let (query, query_eq, h1) = >>=-eq-ok (compiled (compile_profile n)) _ h in
      let (rows, rows_eq, made) =
        >>=-eq-ok (db.query_external_ids query.0 (string tenant ∷ string workspace ∷ query.1)) _
          h1 in
      let (out, out_eq, written) = >>=-eq-ok (compile_node n []) _ (compiled-ok _ query query_eq) in
      let (e, e_eq, one) = leaf out out_eq in
      leaf_values n e out.1 rows (out_eq ∙ ap (λ c. ok (c, out.1)) e_eq) one (
        ap
          (λ c.
            db.query_external_ids (rows_of (word "external_id" ∷ []) (expression c))
              (string tenant ∷ string workspace ∷ out.1))
          (sym e_eq)
        ∙ ap (λ q. db.query_external_ids q.0 (string tenant ∷ string workspace ∷ q.1))
            (ok_inj written)
        ∙ rows_eq)
      ∙ ap ok (sym (contains-compiled rows) ∙ ap (λ s. contains s p.id) (ok_inj made))

  consent_agrees :
      (c : Consent) (ids : IdSet)
      → consent_ids db sha256_hex tenant workspace app profiles c ≡ ok ids
      → match_consent single sha256_hex tenant workspace app p.id c ≡ ok (contains ids p.id)
  unfolding consent_ids match_consent
  consent_agrees c ids h =
      let query = compile_consent_ids c tenant app in
      let (rows, rows_eq, made) = >>=-eq-ok (db.query_profile_ids query.0 query.1) _ h in
      let e : contains ids p.id ≡ (contains rows p.id && contains (all_ids profiles) p.id) =
        ap (λ s. contains s p.id) (sym (ok_inj made))
        ∙ contains-kept_ids rows (all_ids profiles) p.id in
      one_state c
      ∙ ap ok (
          rw (e, all_states c rows rows_eq, contains-all_ids profiles p member)
            (sym (and_true (state_of c))))

  abbrev live_every : AstNodes → Evaluated Bool
  live_every ns = match_every single sha256_hex tenant workspace app p.id ns

  abbrev live_some : AstNodes → Evaluated Bool
  live_some ns = match_some single sha256_hex tenant workspace app p.id ns

  mutual
    unfolding matches eval

    node_agrees :
        (n : AstNode)
        → IsStored n
        → (counts : LegCounts) (out : IdSet × LegCounts)
        → eval db sha256_hex tenant workspace app profiles n counts ≡ ok out
        → matches single sha256_hex tenant workspace app p.id n ≡ ok (contains out.0 p.id)
    node_agrees (AstNode.and (AstNodes.cons n ns)) (IsStored.every (AreStored.cons w ws)) counts out
          h =
        let (first, first_eq, h1) =
          >>=-eq-ok (eval db sha256_hex tenant workspace app profiles n counts) _ h in
        let (b, all, means) = every_agrees ns ws first.0 first.1 out h1 in
        rw (
          node_agrees n w counts first first_eq,
          stop_or-and (contains first.0 p.id) b (live_every ns) all,
          means,
        )
    node_agrees (AstNode.or ns) (IsStored.some_of ws) counts out h =
        let (b, any, means) = some_agrees ns ws [] counts out h in
        any ∙ ap ok (sym (means ∙ contains_nil p.id b))
    node_agrees (AstNode.not n) (IsStored.negated w) counts out h =
        let (part, part_eq, made) =
          >>=-eq-ok (eval db sha256_hex tenant workspace app profiles n counts) _ h in
        let e : contains out.0 p.id ≡ contains (dropped (all_ids profiles) part.0) p.id =
          ap (λ o. contains o.0 p.id) (sym (ok_inj made)) in
        rw (
          node_agrees n w counts part part_eq,
          e,
          contains-dropped (all_ids profiles) part.0 p.id,
          contains-all_ids profiles p member,
        )
    node_agrees (AstNode.profile_attribute a) w counts out h =
        let (ids, ids_eq, made) =
          >>=-eq-ok
            (compiled_ids db sha256_hex tenant workspace app profiles (AstNode.profile_attribute a))
            _ h in
        leaf_agrees _ (attribute-IsLeaf a) ids ids_eq
        ∙ ap (λ o. ok (contains o.0 p.id)) (ok_inj made)
    node_agrees (AstNode.score s) w counts out h =
        let (ids, ids_eq, made) =
          >>=-eq-ok (compiled_ids db sha256_hex tenant workspace app profiles (AstNode.score s)) _
            h in
        leaf_agrees _ (score-IsLeaf s) ids ids_eq ∙ ap (λ o. ok (contains o.0 p.id)) (ok_inj made)
    node_agrees (AstNode.consent c) w counts out h =
        let (ids, ids_eq, made) =
          >>=-eq-ok (consent_ids db sha256_hex tenant workspace app profiles c) _ h in
        consent_agrees c ids ids_eq ∙ ap (λ o. ok (contains o.0 p.id)) (ok_inj made)
    node_agrees (AstNode.and AstNodes.nil) w counts out h = elim w [ ]
    node_agrees (AstNode.event_history e) w counts out h = elim w [ ]
    node_agrees (AstNode.company c) w counts out h = elim w [ ]

    every_agrees :
        (ns : AstNodes)
        → AreStored ns
        → (ids : IdSet) (counts : LegCounts) (out : IdSet × LegCounts)
        → eval_every db sha256_hex tenant workspace app profiles ns (some ids) counts ≡ ok out
        → (b : Bool) × (match_every single sha256_hex tenant workspace app p.id ns ≡ ok b)
          × (contains out.0 p.id ≡ (contains ids p.id && b))
    every_agrees AstNodes.nil ws ids counts out h = (
      true,
      refl,
      ap (λ o. contains o.0 p.id) (sym (ok_inj h)) ∙ sym (and_true (contains ids p.id)),
    )
    every_agrees (AstNodes.cons n ns) (AreStored.cons w ws) ids counts out h =
        let (next, next_eq, h1) =
          >>=-eq-ok (eval db sha256_hex tenant workspace app profiles n counts) _ h in
        let (b, all, means) = every_agrees ns ws (kept_ids ids next.0) next.1 out h1 in
        (
          (contains next.0 p.id && b),
          rw (
            node_agrees n w counts next next_eq,
            stop_or-and (contains next.0 p.id) b (live_every ns) all,
          ),
          means
              ∙ ap (λ x. x && b) (contains-kept_ids ids next.0 p.id)
              ∙ and_assoc (contains ids p.id) (contains next.0 p.id) b,
        )

    some_agrees :
        (ns : AstNodes)
        → AreStored ns
        → (ids : IdSet) (counts : LegCounts) (out : IdSet × LegCounts)
        → eval_some db sha256_hex tenant workspace app profiles ns ids counts ≡ ok out
        → (b : Bool) × (match_some single sha256_hex tenant workspace app p.id ns ≡ ok b)
          × (contains out.0 p.id ≡ (contains ids p.id || b))
    some_agrees AstNodes.nil ws ids counts out h = (
      false,
      refl,
      ap (λ o. contains o.0 p.id) (sym (ok_inj h)) ∙ sym (or_false (contains ids p.id)),
    )
    some_agrees (AstNodes.cons n ns) (AreStored.cons w ws) ids counts out h =
        let (next, next_eq, h1) =
          >>=-eq-ok (eval db sha256_hex tenant workspace app profiles n counts) _ h in
        let (b, any, means) = some_agrees ns ws (union next.0 ids) next.1 out h1 in
        (
          (contains next.0 p.id || b),
          rw (
            node_agrees n w counts next next_eq,
            stop_or-or (contains next.0 p.id) b (live_some ns) any,
          ),
          means
              ∙ ap (λ x. x || b) (contains-union next.0 ids p.id)
              ∙ or_swap (contains next.0 p.id) (contains ids p.id) b,
        )

  -- Let the databases answer for one row of `profiles` as SQL does, the external ids and the ids of
  -- the workspace's profiles be distinct, and the profile be one of them, with an external id. For a
  -- condition with no events and no AND of nothing, whenever `eval` returns a set, `Matches` returns no
  -- error, and says that the profile matches if and only if it is in the set.
  pub matches-eval :
      (n : AstNode)
      → IsStored n
      → (counts : LegCounts) (out : IdSet × LegCounts)
      → eval db sha256_hex tenant workspace app profiles n counts ≡ ok out
      → matches single sha256_hex tenant workspace app p.id n ≡ ok (contains out.0 p.id)
  matches-eval n w counts out h = node_agrees n w counts out h

  -- The same of the whole: where `Parse` gives such a condition and `resolveSegmentIDs` returns a set,
  -- `EvaluateAudience` returns an answer for the same text, and the profile is in the segment if and
  -- only if the last of the segment's rows that includes or excludes it says so or, where no row does,
  -- the answer is true.
  pub evaluate_audience-resolve_segment_ids :
      (segment : String) (dsl : RawMessage) (n : AstNode) (ms : List Member)
      (out : IdSet × LegCounts)
      → is_unconditional dsl ≡ false
      → parse dsl ≡ ok n
      → IsStored n
      → db.segment_members tenant segment ≡ ok ms
      → resolve_segment_ids db sha256_hex tenant workspace app profiles segment dsl ≡ ok out
      → (b : Bool) × (evaluate_audience single sha256_hex tenant workspace app p.id dsl ≡ ok b)
        × (contains out.0 p.id ≡ decided (last_word ms p.id) b)
  unfolding resolve_segment_ids evaluate_audience
  evaluate_audience-resolve_segment_ids segment dsl n ms out asks read w by_hand h =
      let h0 = rw (asks, read, by_hand) at h in
      let (chosen, chosen_eq, made) =
        >>=-eq-ok (eval db sha256_hex tenant workspace app profiles n _) _ h0 in
      (
        contains chosen.0 p.id,
        rw (asks, read) (node_agrees n w _ chosen chosen_eq),
        ap (λ o. contains o.0 p.id) (sym (ok_inj made))
            ∙ contains-with_members profiles ms chosen.0 p.id (contains-all_ids profiles p member),
      )
