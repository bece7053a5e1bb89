-- ===== src/Audience/Decoding.antt =====
-- What makes a condition well formed, and what the decoder of internal/audience/parse.go gives for its
-- fields and values.
use mathlib.Core.Option.{some-injective}
use openjourney.Common.{
  if◌then◌else◌, ◌≡◌, ◌≢◌, subst, inl, inr, Bool, true, false, List, Option, some, String, eq_iff,
  arith, contains-In, In, ok, err, none, ok_inj, refl, ◌>>◌, Bool-cases, Option-cases, sym,
}
use openjourney.Common.Int.{ℤ, is_negative}
use openjourney.Json.Float.{float_int, fits_float, any_json, any_items, any_fields}
use openjourney.Json.{
  Json, null, bool, int, dec, str, arr, obj, Fields, end, field, RawMessage, fits_int, set_int,
  decode_field, same_key,
}
use openjourney.Audience.Ast.{
  AstNode, AstNodes, ProfileAttribute, EventHistory, Consent, Score, Company,
}
use openjourney.Audience.RawNode.{
  RawNode, Parsed, want, want_in, bad_json, any_value, float_value, attribute_operators,
  company_operators, score_operators, event_operators, consent_states,
}

-- A value of any type that is there is not null, and a score's is a number.
abbrev pub is_any : Option Json → Bool
is_any (some null) = false
is_any _ = true

abbrev pub is_number : Json → Bool
is_number (int n) = true
is_number (dec s) = true
is_number _ = false

-- The fields that a condition must have are there, and its operator or state is one of its type's.
abbrev pub IsAttribute : ProfileAttribute → Type 0
IsAttribute a =
    (a.field_name ≢ "")
    × (a.operator ≢ "")
    × In a.operator attribute_operators
    × (is_any a.val ≡ true)

abbrev pub IsEventHistory : EventHistory → Type 0
IsEventHistory e =
    (e.event_type ≢ "")
    × (e.operator ≢ "")
    × In e.operator event_operators
    × ((is_negative e.time_window_days ≡ false) × (fits_int e.time_window_days ≡ true))
    × ((is_negative e.min_count ≡ false) × (fits_int e.min_count ≡ true))

abbrev pub IsConsent : Consent → Type 0
IsConsent c = (c.channel ≢ "") × (c.topic ≢ "") × In c.state consent_states

abbrev pub IsScore : Score → Type 0
IsScore s =
    (s.model ≢ "")
    × (s.score_name ≢ "")
    × (s.operator ≢ "")
    × In s.operator score_operators
    × (is_number s.val ≡ true)

abbrev pub IsCompany : Company → Type 0
IsCompany c =
    (c.field_name ≢ "")
    × (c.operator ≢ "")
    × In c.operator company_operators
    × (is_any c.val ≡ true)

mutual
  pub data IsWellFormed : AstNode → Type 0 where
    and : {ns : AstNodes} → AreWellFormed ns → IsWellFormed (AstNode.and ns)
    or : {ns : AstNodes} → AreWellFormed ns → IsWellFormed (AstNode.or ns)
    negated : {n : AstNode} → IsWellFormed n → IsWellFormed (AstNode.not n)
    attribute : {a : ProfileAttribute} → IsAttribute a → IsWellFormed (AstNode.profile_attribute a)
    event : {e : EventHistory} → IsEventHistory e → IsWellFormed (AstNode.event_history e)
    consent : {c : Consent} → IsConsent c → IsWellFormed (AstNode.consent c)
    score : {s : Score} → IsScore s → IsWellFormed (AstNode.score s)
    company : {c : Company} → IsCompany c → IsWellFormed (AstNode.company c)

  pub data AreWellFormed : AstNodes → Type 0 where
    nil : AreWellFormed AstNodes.nil
    cons :
        {n : AstNode} {ns : AstNodes}
        → IsWellFormed n
        → AreWellFormed ns
        → AreWellFormed (AstNodes.cons n ns)

-- The guards, in front of what follows them.
module _ {A : Type 0} {n : A} (type name s : String) (k : Parsed A) where
  pub want-ok : (want type name s >> k) ≡ ok n → (s ≢ "") × (k ≡ ok n)
  unfolding want
  want-ok h = (ground (arith, eq_iff s ""), ground arith)

  pub want_in-ok :
      (known : List String) → (want_in known type name s >> k) ≡ ok n → In s known × (k ≡ ok n)
  unfolding want_in
  want_in-ok known h = (contains-In known s (ground arith), ground arith)

pub same_node :
    {m n : AstNode} → (let r : Parsed AstNode = ok m in r) ≡ ok n → IsWellFormed m → IsWellFormed n
same_node h w = subst IsWellFormed (cc) w

any_json-is_any :
    (v w : Json) → is_any (some v) ≡ true → any_json v ≡ some w → is_any (some w) ≡ true
unfolding any_json
any_json-is_any null w there h = absurd (ground arith)
any_json-is_any (bool b) w there h = subst (λ u. is_any (some u) ≡ true) (some-injective _ _ h) refl
any_json-is_any (int i) w there h = elim (Option-cases (float_int i)) [
  | inl out ↦ absurd (ground arith)
  | inr (m, made) ↦
      subst (λ u. is_any (some u) ≡ true) (some-injective _ _ (rw (made, any_json) at h)) refl
]
any_json-is_any (dec s) w there h = elim (Bool-cases (fits_float s)) [
  | inr out ↦ absurd (ground arith)
  | inl held ↦
      subst (λ u. is_any (some u) ≡ true) (some-injective _ _ (rw (held, any_json) at h)) refl
]
any_json-is_any (str s) w there h = subst (λ u. is_any (some u) ≡ true) (some-injective _ _ h) refl
any_json-is_any (arr vs) w there h = elim (Option-cases (any_items vs)) [
  | inl out ↦ absurd (ground arith)
  | inr (ws, made) ↦
      subst (λ u. is_any (some u) ≡ true) (some-injective _ _ (rw (made, any_json) at h)) refl
]
any_json-is_any (obj fs) w there h = elim (Option-cases (any_fields fs)) [
  | inl out ↦ absurd (ground arith)
  | inr (ws, made) ↦
      subst (λ u. is_any (some u) ≡ true) (some-injective _ _ (rw (made, any_json) at h)) refl
]

decoded-is_any :
    (v : Json) (r : Option Json)
    → is_any (some v) ≡ true
    → (let d : Parsed (Option Json) = elim (any_json v) [
      | none ↦ err bad_json
      | some decoded ↦ ok (some decoded)
    ] in
        d)
      ≡ ok r
    → is_any r ≡ true
decoded-is_any v r there h = elim (Option-cases (any_json v)) [
  | inl out ↦ absurd (ground arith)
  | inr (w, made) ↦
      let known : is_any (some w) ≡ true = any_json-is_any v w there made in
      subst (λ u. is_any u ≡ true) (ok_inj (rw made at h)) known
]

pub any_value-is_any : (r : RawMessage) (v : Option Json) → any_value r ≡ ok v → is_any v ≡ true
any_value-is_any RawMessage.empty v h = ground arith
any_value-is_any RawMessage.malformed v h = absurd (ground arith)
any_value-is_any (RawMessage.value null) v h = ground arith
any_value-is_any (RawMessage.value (bool b)) v h = decoded-is_any (bool b) v refl h
any_value-is_any (RawMessage.value (int i)) v h = decoded-is_any (int i) v refl h
any_value-is_any (RawMessage.value (dec s)) v h = decoded-is_any (dec s) v refl h
any_value-is_any (RawMessage.value (str s)) v h = decoded-is_any (str s) v refl h
any_value-is_any (RawMessage.value (arr vs)) v h = decoded-is_any (arr vs) v refl h
any_value-is_any (RawMessage.value (obj fs)) v h = decoded-is_any (obj fs) v refl h

decided-is_number :
    (s : String) (v : Json) (b : Bool)
    → (let d : Parsed Json = if b then ok (dec s) else err bad_json in d) ≡ ok v
    → is_number v ≡ true
decided-is_number s v true h = subst (λ u. is_number u ≡ true) (ok_inj h) refl
decided-is_number s v false h = absurd (ground arith)

rounded-is_number :
    (v : Json) (o : Option ℤ)
    → (let d : Parsed Json = elim o [ none ↦ err bad_json | some m ↦ ok (int m) ] in d) ≡ ok v
    → is_number v ≡ true
rounded-is_number v none h = absurd (ground arith)
rounded-is_number v (some m) h = subst (λ u. is_number u ≡ true) (ok_inj h) refl

pub float_value-is_number : (r : RawMessage) (v : Json) → float_value r ≡ ok v → is_number v ≡ true
float_value-is_number RawMessage.empty v h = absurd (ground arith)
float_value-is_number RawMessage.malformed v h = absurd (ground arith)
float_value-is_number (RawMessage.value null) v h = ground arith
float_value-is_number (RawMessage.value (bool b)) v h = absurd (ground arith)
float_value-is_number (RawMessage.value (int i)) v h = rounded-is_number v (float_int i) h
float_value-is_number (RawMessage.value (dec s)) v h = decided-is_number s v (fits_float s) h
float_value-is_number (RawMessage.value (str s)) v h = absurd (ground arith)
float_value-is_number (RawMessage.value (arr vs)) v h = absurd (ground arith)
float_value-is_number (RawMessage.value (obj fs)) v h = absurd (ground arith)

-- The decoder's numbers fit an int.
abbrev pub FitsInts : RawNode → Type 0
FitsInts rn = (fits_int rn.time_window_days ≡ true) × (fits_int rn.min_count ≡ true)

set_int-fits_int :
    (v : Json) (n m : ℤ) → fits_int n ≡ true → set_int v n ≡ some m → fits_int m ≡ true
set_int-fits_int null n m fits h = ground arith
set_int-fits_int (bool b) n m fits h = absurd (ground arith)
set_int-fits_int (int i) n m fits h = elim (Bool-cases (fits_int i)) [
  | inl held ↦ let e : i ≡ m = some-injective _ _ (rw held at h) in rw (sym e, held)
  | inr over ↦ absurd (ground arith)
]
set_int-fits_int (dec s) n m fits h = absurd (ground arith)
set_int-fits_int (str s) n m fits h = absurd (ground arith)
set_int-fits_int (arr vs) n m fits h = absurd (ground arith)
set_int-fits_int (obj fs) n m fits h = absurd (ground arith)

pub decode_field-fits_int :
    (name : String) (fs : Fields) (n m : ℤ)
    → fits_int n ≡ true
    → decode_field name set_int fs n ≡ some m
    → fits_int m ≡ true
unfolding decode_field
decode_field-fits_int name end n m fits h = let e : n ≡ m = some-injective _ _ h in rw (sym e, fits)
decode_field-fits_int name (field key v rest) n m fits h = elim (Bool-cases (same_key key name)) [
  | inr other ↦ decode_field-fits_int name rest n m fits (rw (other, decode_field) at h)
  | inl held ↦ elim (Option-cases (set_int v n)) [
    | inl bad ↦ absurd (ground arith)
    | inr (k, set) ↦
        decode_field-fits_int name rest k m (set_int-fits_int v n k fits set)
          (rw (held, set, decode_field) at h)
  ]
]
