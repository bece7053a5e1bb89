-- ===== src/Audience/Examples.antt =====
-- The audiences of internal/audience on small conditions.
use openjourney.Common.{
  ok_inj, ◌≡◌, ◌≢◌, refl, sym, ap, subst, ◌∙◌, ◌⊎◌, inl, inr, Bool, true, false, List, [], ◌∷◌,
  Option, none, some, String, ok, err, In, All, Distinct, contains, ◌==◌, eq_iff, arith,
}
use openjourney.Json.Float.{any_json}
use openjourney.Json.{
  Json, str, obj, arr, Items, end, field, value, decode_field, same_key, same_codes,
  unmarshal_struct,
}
use openjourney.Audience.Ast.{AstNode, AstNodes, ProfileAttribute, Consent}
use openjourney.Audience.RawNode.{ParseError, want, want_in, raw_fields, opt_bind}
use openjourney.Audience.Parse.{
  parse, parse_fuel, to_node, parse_all, parse_leaf, parse_attribute, parse_consent, depth,
  items_depth, fields_depth,
}
use openjourney.Audience.Decoding.{IsWellFormed}
use openjourney.Audience.WellFormed.{parse-IsWellFormed}
use openjourney.Audience.Fuel.{parse-ne-out_of_fuel}
use openjourney.Audience.Sql.{Test, Sql, Sqls, Token, word, render, shift}
use openjourney.Audience.Compile.{
  Arg, string, any, SqlQuery, CompileError, is_safe, tested, attribute_test, compile_node,
  compile_attribute, compile_consent, compile_profile, compile_profile_single, compile_profile_rows,
  columns, rows_of, row_of, expression,
}
use openjourney.Audience.Truth.{
  Truth, holds, fails, unknown, Row, bound, with_arg, sql_value, meaning,
}
use openjourney.Audience.Reading.{read, rows_query, row_query}
use openjourney.Audience.Queries.{asked, compile_profile-meaning, compile_profile_single-meaning}
use openjourney.Audience.Safety.{IsSafeText, compile_profile_rows-IsSafeText}
use openjourney.Audience.Accepted.{compile_profile-parse}
use openjourney.Audience.Matches.{EvaluatorStore, Evaluated, matches, evaluate_audience}
use openjourney.Audience.Segment.{
  SegmentStore, ProfileKey, Member, LegCounts, all_ids, with_members, eval, resolve_segment_ids,
  compiled_ids, consent_ids, found_ids, lookup_id, put, kept_ids, dropped, remove, with_member,
}
use openjourney.Audience.Members.{decided, last_word, contains-with_members}
use openjourney.Audience.Lookup.{is_holds, is_comparison, IsStored, AreStored}
use openjourney.Audience.Agreement.{matches-eval, evaluate_audience-resolve_segment_ids}

-- Everyone in Paris who has subscribed to the news.
abbrev paris : ProfileAttribute
paris = record { field_name = "city"; operator = "equals"; val = some (str "Paris") }

abbrev news : Consent
news = record { channel = "email"; topic = "news"; state = "subscribed" }

abbrev parisians : AstNode
parisians = AstNode.and (
    AstNodes.cons (AstNode.profile_attribute paris)
      (AstNodes.cons (AstNode.not (AstNode.consent news)) AstNodes.nil))

abbrev dsl : Json
dsl = obj (
    field "logic" (str "and") (
      field "conditions"
        (arr (
          Items.cons
            (obj (
              field "type" (str "profile_attribute") (
                field "field" (str "city")
                  (field "operator" (str "equals") (field "value" (str "Paris") end)))))
            (Items.cons
              (obj (
                field "logic" (str "not") (
                  field "condition"
                    (obj (
                      field "type" (str "consent") (
                        field "channel" (str "email")
                          (field "topic" (str "news") (field "state" (str "subscribed") end)))))
                    end)))
              Items.nil)))
        end))

parsed_parisians : parse (value dsl) ≡ ok parisians
unfolding parse parse_fuel to_node parse_all parse_leaf parse_attribute parse_consent want want_in
    raw_fields opt_bind decode_field same_key same_codes unmarshal_struct depth items_depth
    fields_depth contains any_json
parsed_parisians = refl

parisians-IsWellFormed : IsWellFormed parisians
parisians-IsWellFormed = parse-IsWellFormed (value dsl) parisians parsed_parisians

parse-IsWellFormed_example : IsWellFormed parisians
parse-IsWellFormed_example = parse-IsWellFormed (value dsl) parisians parsed_parisians

parse-ne-out_of_fuel_example : parse (value dsl) ≢ err ParseError.out_of_fuel
parse-ne-out_of_fuel_example = parse-ne-out_of_fuel (value dsl)

abbrev parisian_sql : Sql
parisian_sql = Sql.every (
    Sqls.cons (Sql.attribute "city" Test.equal 3)
      (Sqls.cons (Sql.negated (Sql.consent 4 5 6)) Sqls.nil))

abbrev parisian_args : List Arg
parisian_args = any (some (str "Paris")) ∷ string "email" ∷ string "news" ∷ string "subscribed" ∷ []

abbrev every_parisian : List Token
every_parisian = rows_of (word "external_id" ∷ []) (expression (some parisian_sql))

abbrev one_parisian : List Token
one_parisian = row_of (shift (expression (some parisian_sql)))

-- A row of someone in Paris whose scores pass every test and who has subscribed to nothing.
abbrev parisian : Row
parisian = record {
  attribute = λ name test v. holds;
  company = λ member_tenant tenant workspace name test v. unknown;
  consent = λ channel topic state. fails;
  score = λ tenant workspace model name test v. holds;
}

compiled_parisians : compile_profile parisians ≡ ok (every_parisian, parisian_args)
unfolding compile_profile compile_node compile_attribute compile_consent is_safe tested
    attribute_test render
compiled_parisians = refl

compiled_parisian : compile_profile_single parisians ≡ ok (one_parisian, parisian_args)
unfolding compile_profile_single compile_node compile_attribute compile_consent is_safe tested
    attribute_test render
compiled_parisian = refl

-- Its condition holds: the city is the one that is asked for, and the consent is not there.
read_parisian :
    rows_query parisian (string "t" ∷ string "w" ∷ parisian_args) every_parisian
    ≡ some (string "t", string "w", holds)
unfolding rows_query read render is_safe
read_parisian = refl

compile_profile-meaning_example :
    rows_query parisian (string "t" ∷ string "w" ∷ parisian_args) every_parisian
    ≡ some (string "t", string "w", asked (meaning parisian "t" "w" parisians))
compile_profile-meaning_example =
    compile_profile-meaning parisian "t" "w" parisians every_parisian parisian_args
      compiled_parisians

compile_profile_single-meaning_example :
    row_query parisian (string "t" ∷ string "w" ∷ string "p1" ∷ parisian_args) one_parisian
    ≡ some (string "t", string "w", string "p1", asked (meaning parisian "t" "w" parisians))
compile_profile_single-meaning_example =
    compile_profile_single-meaning parisian "t" "w" parisians one_parisian parisian_args "p1"
      compiled_parisian

compile_profile-parse_example :
    ((query : SqlQuery) × (compile_profile parisians ≡ ok query))
    ⊎ ((name : String) × (compile_profile parisians ≡ err (CompileError.unsafe_field name)))
compile_profile-parse_example = compile_profile-parse (value dsl) parisians parsed_parisians

abbrev two_columns : List String
two_columns = "external_id" ∷ "city" ∷ []

abbrev selected : List Token
selected =
    word "external_id"
    ∷ word ", "
    ∷ word "attributes->>'"
    ∷ word "city"
    ∷ word "' AS "
    ∷ word "city"
    ∷ []

compiled_rows :
    compile_profile_rows parisians two_columns
    ≡ ok (rows_of selected (expression (some parisian_sql)), parisian_args)
unfolding compile_profile_rows columns compile_node compile_attribute compile_consent is_safe tested
    attribute_test render contains
compiled_rows = refl

compile_profile_rows-IsSafeText_example :
    (two_columns ≢ [])
    × All (λ name. is_safe name ≡ true) two_columns
    × Distinct two_columns
    × ((selected' : List Token) × (c : Option Sql) × (rows_of selected
            (expression (some parisian_sql))
          ≡ rows_of selected' (expression c))
        × IsSafeText c)
compile_profile_rows-IsSafeText_example =
    compile_profile_rows-IsSafeText parisians two_columns
      (rows_of selected (expression (some parisian_sql))) parisian_args compiled_rows

-- Two profiles of a workspace. The databases find the first in Paris, and the second subscribed.
abbrev first_profile : ProfileKey
first_profile = record { id = "p1"; external_id = "e1" }

abbrev both_profiles : List ProfileKey
both_profiles = first_profile ∷ record { id = "p2"; external_id = "e2" } ∷ []

abbrev without_first : List Member
without_first = record { profile_id = "p1"; membership = "exclude" } ∷ []

first_known : contains (all_ids both_profiles) "p1" ≡ true
unfolding contains
first_known = refl

contains-with_members_example :
    contains (with_members both_profiles without_first ("p1" ∷ [])) "p1"
    ≡ decided (last_word without_first "p1") (contains ("p1" ∷ []) "p1")
contains-with_members_example =
    contains-with_members both_profiles without_first ("p1" ∷ []) "p1" first_known

abbrev segment_store : SegmentStore
segment_store = record {
  query_external_ids = λ text args. ok ("e1" ∷ []);
  query_profile_ids = λ text args. ok ("p2" ∷ []);
  query_subject_hashes = none;
  segment_members = λ tenant segment. ok without_first;
}

abbrev live_store : EvaluatorStore
live_store = record {
  query_profile_matches = λ text args. ok true;
  query_consent_matches = λ text args. ok false;
  query_click_house_matches = λ text args. ok false;
  get_profile_external_id = λ tenant workspace profile. ok "e1";
}

always : (o : Option Arg) (t : Truth) → with_arg o (λ v. some holds) ≡ some t → is_holds t ≡ true
always none t h = absurd (ground arith)
always (some v) holds h = refl
always (some v) fails h = absurd (ground arith)
always (some v) unknown h = absurd (ground arith)

all_always :
    (a b c d e : Option Arg) (t : Truth)
    → with_arg a
        (λ va. with_arg b λ vb. with_arg c λ vc. with_arg d λ vd. with_arg e λ ve. some holds)
      ≡ some t
    → is_holds t ≡ true
all_always none b c d e t h = absurd (ground arith)
all_always (some v) none c d e t h = absurd (ground arith)
all_always (some v) (some w) none d e t h = absurd (ground arith)
all_always (some v) (some w) (some x) none e t h = absurd (ground arith)
all_always (some v) (some w) (some x) (some y) e t h = always e t h

comparison_holds :
    (e : Sql) (args : List Arg) (t : Truth)
    → is_comparison e ≡ true
    → sql_value parisian args e ≡ some t
    → is_holds t ≡ true
unfolding sql_value
comparison_holds (Sql.attribute name test n) args t one h = always (bound n args) t h
comparison_holds (Sql.score m s test n) args t one h =
    all_always (bound 1 args) (bound 2 args) (bound m args) (bound s args) (bound n args) t h
comparison_holds (Sql.company name test n) args t one h = absurd (ground arith)
comparison_holds (Sql.consent c u s) args t one h = absurd (ground arith)
comparison_holds (Sql.every parts) args t one h = absurd (ground arith)
comparison_holds (Sql.some_of parts) args t one h = absurd (ground arith)
comparison_holds (Sql.negated part) args t one h = absurd (ground arith)

parisians-IsStored : IsStored parisians
parisians-IsStored = IsStored.every (
    AreStored.cons IsStored.attribute
      (AreStored.cons (IsStored.negated IsStored.consent) AreStored.nil))

other_text : (x y : String) → (x == y) ≡ false → x ≡ y → ⊥
other_text x y apart e = ground (arith, eq_iff x y)

first_own_key : (q : ProfileKey) → In q both_profiles → q.external_id ≡ "e1" → q.id ≡ "p1"
first_own_key q (inl e) k = ap ProfileKey.id e
first_own_key q (inr (inl e)) k =
    absurd (other_text "e2" "e1" refl (sym (ap ProfileKey.external_id e) ∙ k))
first_own_key q (inr (inr end_of)) k = absurd end_of

first_own_id : (q : ProfileKey) → In q both_profiles → q.id ≡ "p1" → q.external_id ≡ "e1"
first_own_id q (inl e) k = ap ProfileKey.external_id e
first_own_id q (inr (inl e)) k = absurd (other_text "p2" "p1" refl (sym (ap ProfileKey.id e) ∙ k))
first_own_id q (inr (inr end_of)) k = absurd end_of

some_row :
    (args : List Arg) (e : Sql) (t : Truth)
    → is_comparison e ≡ true
    → sql_value parisian args e ≡ some t
    → (let answer : Evaluated Bool = ok true in answer) ≡ ok (is_holds t)
some_row args e t one h = ap ok (sym (comparison_holds e args t one h))

found_rows :
    (args : List Arg) (e : Sql) (t : Truth) (rows : List String)
    → is_comparison e ≡ true
    → sql_value parisian args e ≡ some t
    → (let answer : Evaluated (List String) = ok ("e1" ∷ []) in answer) ≡ ok rows
    → contains rows "e1" ≡ is_holds t
unfolding contains
found_rows args e t rows one h answered =
    subst (λ rs. contains rs "e1" ≡ is_holds t) (ok_inj answered)
      (sym (comparison_holds e args t one h))

subscribed_rows :
    (rows : List String)
    → (let answer : Evaluated (List String) = ok ("p2" ∷ []) in answer) ≡ ok rows
    → contains rows "p1" ≡ false
unfolding contains
subscribed_rows rows answered = subst (λ rs. contains rs "p1" ≡ false) (ok_inj answered) refl

abbrev no_hash : String → String
no_hash s = s

abbrev counted : LegCounts
counted = record { profile_attributes = 1; scores = 0; consents = 1; events = 0 }

abbrev none_counted : LegCounts
none_counted = record { profile_attributes = 0; scores = 0; consents = 0; events = 0 }

evaluated_parisians :
    eval segment_store no_hash "t" "w" "a" both_profiles parisians none_counted
    ≡ ok ("p1" ∷ [], counted)
unfolding eval compiled_ids consent_ids compile_profile compile_node compile_attribute is_safe
    tested attribute_test found_ids lookup_id put kept_ids dropped contains
evaluated_parisians = refl

resolved_parisians :
    resolve_segment_ids segment_store no_hash "t" "w" "a" both_profiles "s" (value dsl)
    ≡ ok ([], counted)
unfolding resolve_segment_ids with_members with_member remove contains
resolved_parisians = rw (parsed_parisians, evaluated_parisians)

matches-eval_example :
    matches live_store no_hash "t" "w" "a" "p1" parisians ≡ ok (contains ("p1" ∷ []) "p1")
matches-eval_example =
    matches-eval segment_store live_store no_hash "t" "w" "a" both_profiles first_profile parisian
      (λ c. false) (inl refl) refl first_own_key first_own_id
      (λ e args t one h. some_row _ e t one h)
      (λ e args t rows one h answered. found_rows _ e t rows one h answered) (λ c. refl)
      (λ c rows answered. subscribed_rows rows answered) parisians parisians-IsStored none_counted
      ("p1" ∷ [], counted) evaluated_parisians

evaluate_audience-resolve_segment_ids_example :
    (b : Bool) × (evaluate_audience live_store no_hash "t" "w" "a" "p1" (value dsl) ≡ ok b)
    × (contains [] "p1" ≡ decided (last_word without_first "p1") b)
evaluate_audience-resolve_segment_ids_example =
    evaluate_audience-resolve_segment_ids segment_store live_store no_hash "t" "w" "a" both_profiles
      first_profile parisian (λ c. false) (inl refl) refl first_own_key first_own_id
      (λ e args t one h. some_row _ e t one h)
      (λ e args t rows one h answered. found_rows _ e t rows one h answered) (λ c. refl)
      (λ c rows answered. subscribed_rows rows answered) "s" (value dsl) parisians without_first
      ([], counted) refl parsed_parisians parisians-IsStored refl resolved_parisians
