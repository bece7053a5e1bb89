-- ===== src/Audience/WellFormed.antt =====
-- What `Parse` of internal/audience/parse.go guarantees of the conditions that it accepts.
use mathlib.Core.Bool.{not}
use mathlib.Core.Option.{some-injective}
use openjourney.Common.{
  guard_step, ◌≡◌, refl, subst, inl, inr, ◌||◌, List, [], ◌∷◌, Option, none, some, ◌==◌, eq_iff,
  arith, is_empty, ok, >>=-eq-ok, Bool-cases, ℕ, zero, suc, Option-cases,
}
use openjourney.Common.Int.{pos, is_negative}
use openjourney.Json.{
  null, bool, int, dec, str, arr, obj, Fields, RawMessage, unmarshal_struct, is_absent,
}
use openjourney.Audience.Ast.{AstNode, AstNodes}
use openjourney.Audience.Parse.{
  parse_attribute, parse_event_history, parse_consent, parse_score, parse_company, parse_leaf,
  parse_all, to_node, parse_fuel, parse,
}
use openjourney.Audience.RawNode.{
  RawNode, Parsed, any_value, float_value, zero_node, raw_fields, opt_bind,
}
use openjourney.Audience.Decoding.{
  IsWellFormed, AreWellFormed, want-ok, want_in-ok, same_node, any_value-is_any,
  float_value-is_number, FitsInts, decode_field-fits_int,
}

module _ (rn : RawNode) {n : AstNode} where
  parse_attribute-IsWellFormed : parse_attribute rn ≡ ok n → IsWellFormed n
  unfolding parse_attribute
  parse_attribute-IsWellFormed h =
      let (named, h1) = want-ok _ _ _ _ h in
      let (operator, h2) = want-ok _ _ _ _ h1 in
      let (known, h3) = want_in-ok _ _ _ _ _ h2 in
      let (val, read, h4) = >>=-eq-ok (any_value rn.val) _ h3 in
      same_node h4
        (IsWellFormed.attribute (named, operator, known, any_value-is_any rn.val val read))

  parse_event_history-IsWellFormed : FitsInts rn → parse_event_history rn ≡ ok n → IsWellFormed n
  unfolding parse_event_history
  parse_event_history-IsWellFormed (fit_days, fit_count) h =
      let (named, h1) = want-ok _ _ _ _ h in
      let (operator, h2) = want-ok _ _ _ _ h1 in
      let (known, h3) = want_in-ok _ _ _ _ _ h2 in
      let (days, h4) = guard_step (not (is_negative rn.time_window_days)) _ _ h3 in
      let (count, h5) = guard_step (not (is_negative rn.min_count)) _ _ h4 in
      same_node h5 (
        IsWellFormed.event
          (named, operator, known, (ground arith, fit_days), (ground arith, fit_count)))

  parse_consent-IsWellFormed : parse_consent rn ≡ ok n → IsWellFormed n
  unfolding parse_consent
  parse_consent-IsWellFormed h =
      let (channel, h1) = want-ok _ _ _ _ h in
      let (topic, h2) = want-ok _ _ _ _ h1 in
      let (known, h3) = want_in-ok _ _ _ _ _ h2 in
      same_node h3 (IsWellFormed.consent (channel, topic, known))

  parse_score-IsWellFormed : parse_score rn ≡ ok n → IsWellFormed n
  unfolding parse_score
  parse_score-IsWellFormed h =
      let (model, h1) = want-ok _ _ _ _ h in
      let (named, h2) = want-ok _ _ _ _ h1 in
      let (operator, h3) = want-ok _ _ _ _ h2 in
      let (known, h4) = want_in-ok _ _ _ _ _ h3 in
      let (val, read, h5) = >>=-eq-ok (float_value rn.val) _ h4 in
      same_node h5
        (IsWellFormed.score (model, named, operator, known, float_value-is_number rn.val val read))

  parse_company-IsWellFormed : parse_company rn ≡ ok n → IsWellFormed n
  unfolding parse_company
  parse_company-IsWellFormed h =
      let (named, h1) = guard_step (not (is_empty rn.field_name || is_empty rn.operator)) _ _ h in
      let (known, h2) = want_in-ok _ _ _ _ _ h1 in
      let (val, read, h3) = >>=-eq-ok (any_value rn.val) _ h2 in
      same_node h3 (
        IsWellFormed.company (
          ground (arith, eq_iff rn.field_name ""),
          ground (arith, eq_iff rn.operator ""),
          known,
          any_value-is_any rn.val val read,
        ))

  parse_leaf-IsWellFormed : FitsInts rn → parse_leaf rn ≡ ok n → IsWellFormed n
  unfolding parse_leaf
  parse_leaf-IsWellFormed fit h = elim (Bool-cases (is_empty rn.type)) [
    | inl absent ↦ absurd (ground arith)
    | inr typed ↦ elim (Bool-cases (rn.type == "profile_attribute")) [
      | inl attr ↦ parse_attribute-IsWellFormed (rw (typed, attr) at h)
      | inr no_attr ↦ elim (Bool-cases (rn.type == "event_history")) [
        | inl is_event ↦ parse_event_history-IsWellFormed fit (rw (typed, no_attr, is_event) at h)
        | inr no_event ↦ elim (Bool-cases (rn.type == "consent")) [
          | inl is_consent ↦
              parse_consent-IsWellFormed (rw (typed, no_attr, no_event, is_consent) at h)
          | inr no_consent ↦ elim (Bool-cases (rn.type == "score")) [
            | inl is_score ↦
                parse_score-IsWellFormed (rw (typed, no_attr, no_event, no_consent, is_score) at h)
            | inr no_score ↦ elim (Bool-cases (rn.type == "company")) [
              | inl is_company ↦
                  parse_company-IsWellFormed
                    (rw (typed, no_attr, no_event, no_consent, no_score, is_company) at h)
              | inr other ↦ absurd (ground arith)
            ]
          ]
        ]
      ]
    ]
  ]

module _ (p : RawMessage → Parsed AstNode)
    (sound : (raw : RawMessage) (n : AstNode) → p raw ≡ ok n → IsWellFormed n) where
  parse_all-AreWellFormed :
      (cs : List RawMessage) (ns : AstNodes) → parse_all p cs ≡ ok ns → AreWellFormed ns
  unfolding parse_all
  parse_all-AreWellFormed [] ns h =
      let e : AstNodes.nil ≡ ns = cc in subst AreWellFormed e AreWellFormed.nil
  parse_all-AreWellFormed (c ∷ cs) ns h =
      let (m, first, h1) = >>=-eq-ok (p c) _ h in
      let (ms, rest, h2) = >>=-eq-ok (parse_all p cs) _ h1 in
      let made : AstNodes.cons m ms ≡ ns = cc in
      subst AreWellFormed made
        (AreWellFormed.cons (sound c m first) (parse_all-AreWellFormed cs ms rest))

  to_node-IsWellFormed :
      (rn : RawNode) (n : AstNode) → FitsInts rn → to_node p rn ≡ ok n → IsWellFormed n
  unfolding to_node
  to_node-IsWellFormed rn n fit h = elim (Bool-cases (is_empty rn.logic)) [
    | inl leaf ↦ parse_leaf-IsWellFormed rn fit (rw leaf at h)
    | inr logic ↦ elim (Bool-cases (rn.logic == "and")) [
      | inl is_and ↦
          let (ns, parts, h1) = >>=-eq-ok (parse_all p rn.conditions) _ (rw (logic, is_and) at h) in
          same_node h1 (IsWellFormed.and (parse_all-AreWellFormed rn.conditions ns parts))
      | inr no_and ↦ elim (Bool-cases (rn.logic == "or")) [
        | inl is_or ↦
            let (ns, parts, h1) =
              >>=-eq-ok (parse_all p rn.conditions) _ (rw (logic, no_and, is_or) at h) in
            same_node h1 (IsWellFormed.or (parse_all-AreWellFormed rn.conditions ns parts))
        | inr no_or ↦ elim (Bool-cases (rn.logic == "not")) [
          | inr other ↦ absurd (ground arith)
          | inl is_not ↦ elim (Bool-cases (is_absent rn.condition)) [
            | inl none_given ↦ absurd (ground arith)
            | inr given ↦
                let (m, part, h1) =
                  >>=-eq-ok (p rn.condition) _ (rw (logic, no_and, no_or, is_not, given) at h) in
                same_node h1 (IsWellFormed.negated (sound rn.condition m part))
          ]
        ]
      ]
    ]
  ]

-- `raw_fields`, one decoded field at a time.
abbrev AllFit : Option RawNode → Type 0
AllFit o = (rn : RawNode) → o ≡ some rn → FitsInts rn

each-AllFit :
    {A : Type 0} (o : Option A) (k : A → Option RawNode)
    → ((a : A) → o ≡ some a → AllFit (k a))
    → AllFit (opt_bind o k)
unfolding opt_bind
each-AllFit none k fits rn h = absurd (ground arith)
each-AllFit (some a) k fits rn h = fits a refl rn h

raw_fields-FitsInts : (fs : Fields) → AllFit (raw_fields fs)
unfolding raw_fields
raw_fields-FitsInts fs = each-AllFit _ _ λ logic _. each-AllFit _ _ λ conditions _.
    each-AllFit _ _ λ condition _. each-AllFit _ _ λ type _. each-AllFit _ _ λ field_name _.
      each-AllFit _ _ λ operator _. each-AllFit _ _ λ val _. each-AllFit _ _ λ event_type _.
        each-AllFit _ _ λ days days_read. each-AllFit _ _ λ count count_read.
          each-AllFit _ _ λ channel _. each-AllFit _ _ λ topic _. each-AllFit _ _ λ state _.
            each-AllFit _ _ λ model _. each-AllFit _ _ λ score_name _. λ rn made.
              subst FitsInts (some-injective _ _ made) (
                decode_field-fits_int "time_window_days" fs (pos 0) days refl days_read,
                decode_field-fits_int "min_count" fs (pos 0) count refl count_read,
              )

unmarshal-FitsInts :
    (raw : RawMessage) (rn : RawNode)
    → unmarshal_struct zero_node raw_fields raw ≡ some rn
    → FitsInts rn
unfolding unmarshal_struct
unmarshal-FitsInts RawMessage.empty rn h = absurd (ground arith)
unmarshal-FitsInts RawMessage.malformed rn h = absurd (ground arith)
unmarshal-FitsInts (RawMessage.value null) rn h = subst FitsInts (some-injective _ _ h) (refl, refl)
unmarshal-FitsInts (RawMessage.value (bool b)) rn h = absurd (ground arith)
unmarshal-FitsInts (RawMessage.value (int i)) rn h = absurd (ground arith)
unmarshal-FitsInts (RawMessage.value (dec s)) rn h = absurd (ground arith)
unmarshal-FitsInts (RawMessage.value (str s)) rn h = absurd (ground arith)
unmarshal-FitsInts (RawMessage.value (arr vs)) rn h = absurd (ground arith)
unmarshal-FitsInts (RawMessage.value (obj fs)) rn h = raw_fields-FitsInts fs rn h

parse_fuel-IsWellFormed :
    (fuel : ℕ) (raw : RawMessage) (n : AstNode) → parse_fuel fuel raw ≡ ok n → IsWellFormed n
unfolding parse_fuel
parse_fuel-IsWellFormed zero raw n h = absurd (ground arith)
parse_fuel-IsWellFormed (suc fuel) raw n h =
    elim (Option-cases (unmarshal_struct zero_node raw_fields raw)) [
      | inl bad ↦ absurd (ground arith)
      | inr (rn, read) ↦
          to_node-IsWellFormed (parse_fuel fuel) (parse_fuel-IsWellFormed fuel) rn n
            (unmarshal-FitsInts raw rn read) (rw (read, parse_fuel) at h)
    ]

-- Every condition that `Parse` accepts is well formed, at every level: its required fields are not
-- empty, its operator or state is one of its type's, its value is no null and a score's is a number,
-- and its window and count are not negative and fit an int of 64 bits.
pub parse-IsWellFormed : (raw : RawMessage) (n : AstNode) → parse raw ≡ ok n → IsWellFormed n
unfolding parse
parse-IsWellFormed raw n h = parse_fuel-IsWellFormed _ raw n h
