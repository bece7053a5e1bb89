-- ===== src/Audience/Fuel.antt =====
-- The fuel of `Parse` of internal/audience/parse.go, at every step of the parser.
use openjourney.Common.{
  ℕ, zero, suc, ◌≤◌, ◌≡◌, ◌≢◌, subst, inl, inr, Bool, true, false, List, [], ◌∷◌, Option, none,
  some, String, arith, ok, err, ◌>>=◌, Option-cases, All, All-map, guard, not, ◌||◌, is_empty, ◌==◌,
  if◌then◌else◌,
}
use native.Mathlib.Nat.{le_trans}
use openjourney.Json.Float.{float_int, fits_float, any_json}
use openjourney.Json.{
  null, bool, int, dec, str, arr, obj, RawMessage, empty, malformed, value, is_absent,
  unmarshal_struct,
}
use openjourney.Common.Int.{is_negative}
use openjourney.Audience.Ast.{AstNode}
use openjourney.Audience.Parse.{
  parse_leaf, parse_attribute, parse_event_history, parse_consent, parse_score, parse_company,
  parse_all, to_node, parse_fuel, depth, fields_depth, raw_depth, parse,
}
use openjourney.Audience.RawNode.{
  bad_json, out_of_fuel, RawNode, Parsed, ParseError, raw_fields, zero_node, want, want_in,
  any_value, float_value,
}
use openjourney.Audience.Shallow.{some_inj, raw_fields-Shallow}

-- Parsing that does not run out of fuel.
abbrev Runs : {A : Type 0} → Parsed A → Type 0
Runs r = r ≢ err out_of_fuel

>>=-Runs :
    {A B : Type 0} (r : Parsed A) (f : A → Parsed B)
    → Runs r
    → ((a : A) → Runs (f a))
    → Runs (r >>= f)
>>=-Runs (ok a) f h k = k a
>>=-Runs (err e) f h k = λ e. h (cc)

if-Runs : {A : Type 0} (b : Bool) {x y : Parsed A} → Runs x → Runs y → Runs (if b then x else y)
if-Runs true h k = h
if-Runs false h k = k

want-Runs : (type name s : String) → Runs (want type name s)
unfolding want
want-Runs type name s h = ground arith

want_in-Runs : (known : List String) (type name s : String) → Runs (want_in known type name s)
unfolding want_in
want_in-Runs known type name s h = ground arith

guard-Runs : (b : Bool) (e : ParseError) → e ≢ out_of_fuel → Runs (guard b e)
guard-Runs true e h = λ p. cc
guard-Runs false e h = λ p. h (cc)

decoded-Runs :
    {A B : Type 0} (o : Option B) (f : B → A)
    → Runs (let d : Parsed A = elim o [ none ↦ err bad_json | some b ↦ ok (f b) ] in d)
decoded-Runs none f h = cc
decoded-Runs (some b) f h = cc

any_value-Runs : (raw : RawMessage) → Runs (any_value raw)
any_value-Runs empty h = cc
any_value-Runs malformed h = cc
any_value-Runs (value null) h = cc
any_value-Runs (value (bool b)) h = decoded-Runs (any_json (bool b)) some h
any_value-Runs (value (int n)) h = decoded-Runs (any_json (int n)) some h
any_value-Runs (value (dec s)) h = decoded-Runs (any_json (dec s)) some h
any_value-Runs (value (str s)) h = decoded-Runs (any_json (str s)) some h
any_value-Runs (value (arr vs)) h = decoded-Runs (any_json (arr vs)) some h
any_value-Runs (value (obj fs)) h = decoded-Runs (any_json (obj fs)) some h

float_value-Runs : (raw : RawMessage) → Runs (float_value raw)
float_value-Runs empty h = cc
float_value-Runs malformed h = cc
float_value-Runs (value null) h = cc
float_value-Runs (value (int n)) h = decoded-Runs (float_int n) int h
float_value-Runs (value (dec s)) h = if-Runs (fits_float s) (λ h. cc) (λ h. cc) h
float_value-Runs (value (bool b)) h = cc
float_value-Runs (value (str s)) h = cc
float_value-Runs (value (arr vs)) h = cc
float_value-Runs (value (obj fs)) h = cc

-- The leaves run no parser.
module _ (rn : RawNode) where
  parse_attribute-Runs : Runs (parse_attribute rn)
  unfolding parse_attribute
  parse_attribute-Runs = >>=-Runs _ _ (want-Runs _ _ _) λ _.
      >>=-Runs _ _ (want-Runs _ _ _)
        λ _. >>=-Runs _ _ (want_in-Runs _ _ _ _) λ _. >>=-Runs _ _ (any_value-Runs rn.val) λ v h. cc

  parse_event_history-Runs : Runs (parse_event_history rn)
  unfolding parse_event_history
  parse_event_history-Runs = >>=-Runs _ _ (want-Runs _ _ _) λ _. >>=-Runs _ _ (want-Runs _ _ _) λ _.
      >>=-Runs _ _ (want_in-Runs _ _ _ _) λ _.
        >>=-Runs _ _ (guard-Runs (not (is_negative rn.time_window_days)) _ (λ h. cc))
          λ _. >>=-Runs _ _ (guard-Runs (not (is_negative rn.min_count)) _ (λ h. cc)) λ _ h. cc

  parse_consent-Runs : Runs (parse_consent rn)
  unfolding parse_consent
  parse_consent-Runs =
      >>=-Runs _ _ (want-Runs _ _ _)
        λ _. >>=-Runs _ _ (want-Runs _ _ _) λ _. >>=-Runs _ _ (want_in-Runs _ _ _ _) λ _ h. cc

  parse_score-Runs : Runs (parse_score rn)
  unfolding parse_score
  parse_score-Runs = >>=-Runs _ _ (want-Runs _ _ _) λ _. >>=-Runs _ _ (want-Runs _ _ _) λ _.
      >>=-Runs _ _ (want-Runs _ _ _) λ _.
        >>=-Runs _ _ (want_in-Runs _ _ _ _) λ _. >>=-Runs _ _ (float_value-Runs rn.val) λ v h. cc

  parse_company-Runs : Runs (parse_company rn)
  unfolding parse_company
  parse_company-Runs =
      >>=-Runs _ _ (guard-Runs (not (is_empty rn.field_name || is_empty rn.operator)) _ (λ h. cc))
        λ _. >>=-Runs _ _ (want_in-Runs _ _ _ _) λ _. >>=-Runs _ _ (any_value-Runs rn.val) λ v h. cc

  parse_leaf-Runs : Runs (parse_leaf rn)
  unfolding parse_leaf
  parse_leaf-Runs =
      if-Runs (is_empty rn.type) (λ h. cc)
        (if-Runs (rn.type == "profile_attribute") parse_attribute-Runs (
          if-Runs (rn.type == "event_history") parse_event_history-Runs (
            if-Runs (rn.type == "consent") parse_consent-Runs (
              if-Runs (rn.type == "score") parse_score-Runs
                (if-Runs (rn.type == "company") parse_company-Runs (λ h. cc))))))

-- The parser of the parts runs on all parts that are no deeper than the bound.
module _ (p : RawMessage → Parsed AstNode) (d : ℕ)
    (runs : (c : RawMessage) → raw_depth c ≤ d → Runs (p c)) where
  parse_all-Runs : (cs : List RawMessage) → All (λ c. raw_depth c ≤ d) cs → Runs (parse_all p cs)
  unfolding parse_all
  parse_all-Runs [] s = λ h. cc
  parse_all-Runs (c ∷ cs) (s, ss) =
      >>=-Runs (p c) _ (runs c s) λ n. >>=-Runs (parse_all p cs) _ (parse_all-Runs cs ss) λ ns h. cc

  to_node-Runs :
      (rn : RawNode)
      → All (λ c. raw_depth c ≤ d) rn.conditions
      → raw_depth rn.condition ≤ d
      → Runs (to_node p rn)
  unfolding to_node
  to_node-Runs rn all one =
      let parts = parse_all-Runs rn.conditions all in
      if-Runs (is_empty rn.logic) (parse_leaf-Runs rn) (
        if-Runs (rn.logic == "and") (>>=-Runs (parse_all p rn.conditions) _ parts (λ ns h. cc)) (
          if-Runs (rn.logic == "or") (>>=-Runs (parse_all p rn.conditions) _ parts (λ ns h. cc)) (
            if-Runs (rn.logic == "not")
              (if-Runs (is_absent rn.condition) (λ h. cc)
                (>>=-Runs (p rn.condition) _ (runs rn.condition one) (λ n h. cc)))
              (λ h. cc))))

raw_depth_pos : (raw : RawMessage) → ¬ (raw_depth raw ≤ 0)
raw_depth_pos (value v) h = omega arith
raw_depth_pos empty h = omega arith
raw_depth_pos malformed h = omega arith

zero_shallow :
    (d : ℕ)
    → 1 ≤ d
    → All (λ c. raw_depth c ≤ d) zero_node.conditions × (raw_depth zero_node.condition ≤ d)
zero_shallow d h = (tt, h)

-- The parts of a message that is an object are less deep than the message.
unmarshal_shallow :
    (raw : RawMessage) (rn : RawNode) (fuel : ℕ)
    → raw_depth raw ≤ suc fuel
    → unmarshal_struct zero_node raw_fields raw ≡ some rn
    → All (λ c. raw_depth c ≤ fuel) rn.conditions × (raw_depth rn.condition ≤ fuel)
unfolding unmarshal_struct depth
unmarshal_shallow empty rn fuel h e = cc
unmarshal_shallow malformed rn fuel h e = cc
unmarshal_shallow (value null) rn fuel h e =
    let z = zero_shallow fuel (ground arith) in
    (
      subst (λ r. All (λ c. raw_depth c ≤ fuel) (RawNode.conditions r)) (some_inj e) z.0,
      subst (λ r. raw_depth (RawNode.condition r) ≤ fuel) (some_inj e) z.1,
    )
unmarshal_shallow (value (obj fs)) rn fuel h e =
    let (parts, part) = raw_fields-Shallow fs rn e in
    let low : suc (fields_depth fs) ≤ fuel = ground arith in
    (All-map (λ c k. le_trans k low) rn.conditions parts, le_trans part low)
unmarshal_shallow (value (bool b)) rn fuel h e = cc
unmarshal_shallow (value (int n)) rn fuel h e = cc
unmarshal_shallow (value (dec s)) rn fuel h e = cc
unmarshal_shallow (value (str s)) rn fuel h e = cc
unmarshal_shallow (value (arr vs)) rn fuel h e = cc

parse_fuel-Runs : (fuel : ℕ) (raw : RawMessage) → raw_depth raw ≤ fuel → Runs (parse_fuel fuel raw)
unfolding parse_fuel
parse_fuel-Runs zero raw h = absurd (raw_depth_pos raw h)
parse_fuel-Runs (suc fuel) raw h = elim (Option-cases (unmarshal_struct zero_node raw_fields raw)) [
  | inl bad ↦ rw (bad, parse_fuel) (λ e. cc)
  | inr (rn, read) ↦
      let (parts, part) = unmarshal_shallow raw rn fuel h read in
      rw (read, parse_fuel)
        (to_node-Runs (parse_fuel fuel) fuel (parse_fuel-Runs fuel) rn parts part)
]

-- `Parse` ends: as much fuel as the message is deep is enough, whatever the message is.
pub parse-ne-out_of_fuel : (raw : RawMessage) → parse raw ≢ err out_of_fuel
unfolding parse
parse-ne-out_of_fuel raw = parse_fuel-Runs (raw_depth raw) raw (omega arith)
