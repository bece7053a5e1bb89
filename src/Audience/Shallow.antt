-- ===== src/Audience/Shallow.antt =====
-- How deep the parts of a condition are that the decoder of internal/audience/parse.go gives.
use openjourney.Common.{
  ℕ, suc, ◌≤◌, ◌≡◌, refl, ap, subst, inl, inr, List, [], Option, none, some, String, arith,
  Bool-cases, Option-cases, All,
}
use openjourney.Json.{
  Json, null, bool, int, dec, str, arr, obj, Items, nil, cons, Fields, end, field, RawMessage,
  empty, value, same_key, decode_field, set_int, set_raw,
}
use openjourney.Common.Int.{pos}
use openjourney.Audience.Parse.{depth, items_depth, fields_depth, raw_depth}
use openjourney.Audience.RawNode.{text, RawNode, set_raws, raw_items, opt_bind, raw_fields}

-- The messages in a list of parts, and the one part, are at most as deep as the bound.
abbrev Shallow : ℕ → List RawMessage → Type 0
Shallow d cs = All (λ c. raw_depth c ≤ suc d) cs

raw_items-Shallow : (vs : Items) (d : ℕ) → items_depth vs ≤ d → Shallow d (raw_items vs)
unfolding depth
raw_items-Shallow nil d h = tt
raw_items-Shallow (cons v vs) d h = (ground arith, raw_items-Shallow vs d (ground arith))

module _ (d : ℕ) where
  set_raws-Shallow :
      (v : Json) (l : List RawMessage) {r : List RawMessage}
      → depth v ≤ d
      → set_raws v l ≡ some r
      → Shallow d r
  unfolding depth
  set_raws-Shallow null l {r} h e = let n : [] ≡ r = cc in subst (Shallow d) n tt
  set_raws-Shallow (arr vs) l {r} h e =
      let n : raw_items vs ≡ r = cc in subst (Shallow d) n (raw_items-Shallow vs d (omega arith))
  set_raws-Shallow (bool b) l h e = cc
  set_raws-Shallow (int n) l h e = cc
  set_raws-Shallow (dec s) l h e = cc
  set_raws-Shallow (str s) l h e = cc
  set_raws-Shallow (obj fs) l h e = cc

  decode_raws-Shallow :
      (name : String) (fs : Fields) (l : List RawMessage) {r : List RawMessage}
      → fields_depth fs ≤ d
      → Shallow d l
      → decode_field name set_raws fs l ≡ some r
      → Shallow d r
  unfolding decode_field depth
  decode_raws-Shallow name end l {r} h s e = let n : l ≡ r = cc in subst (Shallow d) n s
  decode_raws-Shallow name (field k v fs) l h s e = elim (Bool-cases (same_key k name)) [
    | inr other ↦ decode_raws-Shallow name fs l (ground arith) s (rw other at e)
    | inl named ↦ elim (Option-cases (set_raws v l)) [
      | inl bad ↦ absurd (ground arith)
      | inr (l', made) ↦
          decode_raws-Shallow name fs l' (ground arith) (set_raws-Shallow v l (ground arith) made)
            (ground arith)
    ]
  ]

  decode_raw-depth :
      (name : String) (fs : Fields) (raw : RawMessage) {r : RawMessage}
      → fields_depth fs ≤ d
      → raw_depth raw ≤ suc d
      → decode_field name set_raw fs raw ≡ some r
      → raw_depth r ≤ suc d
  unfolding decode_field depth
  decode_raw-depth name end raw {r} h s e =
      let n : raw ≡ r = cc in subst (λ x. raw_depth x ≤ suc d) n s
  decode_raw-depth name (field k v fs) raw h s e = elim (Bool-cases (same_key k name)) [
    | inr other ↦ decode_raw-depth name fs raw (ground arith) s (rw other at e)
    | inl named ↦ decode_raw-depth name fs (value v) (ground arith) (ground arith) (rw named at e)
  ]

opt_bind-eq-some :
    {A B : Type 0} (o : Option A) (f : A → Option B) {b : B}
    → opt_bind o f ≡ some b
    → (a : A) × (o ≡ some a) × (f a ≡ some b)
unfolding opt_bind
opt_bind-eq-some none f h = cc
opt_bind-eq-some (some a) f h = (a, refl, h)

pub some_inj : {A : Type 0} {a b : A} → (let o : Option A = some a in o) ≡ some b → a ≡ b
some_inj h = cc

module _ (fs : Fields) where
  own_conditions :
      {r : List RawMessage}
      → decode_field "conditions" set_raws fs [] ≡ some r
      → Shallow (fields_depth fs) r
  own_conditions h = decode_raws-Shallow (fields_depth fs) "conditions" fs [] (omega arith) tt h

  own_condition :
      {r : RawMessage}
      → decode_field "condition" set_raw fs empty ≡ some r
      → raw_depth r ≤ suc (fields_depth fs)
  own_condition h =
      decode_raw-depth (fields_depth fs) "condition" fs empty (omega arith) (omega arith) h

pub raw_fields-Shallow :
    (fs : Fields) (rn : RawNode)
    → raw_fields fs ≡ some rn
    → Shallow (fields_depth fs) rn.conditions × (raw_depth rn.condition ≤ suc (fields_depth fs))
unfolding raw_fields
raw_fields-Shallow fs rn h =
    let (_, _, h1) = opt_bind-eq-some (text "logic" fs) _ h in
    let (cs, conditions, h2) = opt_bind-eq-some (decode_field "conditions" set_raws fs []) _ h1 in
    let (c, condition, h3) = opt_bind-eq-some (decode_field "condition" set_raw fs empty) _ h2 in
    let (_, _, h4) = opt_bind-eq-some (text "type" fs) _ h3 in
    let (_, _, h5) = opt_bind-eq-some (text "field" fs) _ h4 in
    let (_, _, h6) = opt_bind-eq-some (text "operator" fs) _ h5 in
    let (_, _, h7) = opt_bind-eq-some (decode_field "value" set_raw fs empty) _ h6 in
    let (_, _, h8) = opt_bind-eq-some (text "event_type" fs) _ h7 in
    let (_, _, h9) = opt_bind-eq-some (decode_field "time_window_days" set_int fs (pos 0)) _ h8 in
    let (_, _, h10) = opt_bind-eq-some (decode_field "min_count" set_int fs (pos 0)) _ h9 in
    let (_, _, h11) = opt_bind-eq-some (text "channel" fs) _ h10 in
    let (_, _, h12) = opt_bind-eq-some (text "topic" fs) _ h11 in
    let (_, _, h13) = opt_bind-eq-some (text "state" fs) _ h12 in
    let (_, _, h14) = opt_bind-eq-some (text "model" fs) _ h13 in
    let (_, _, made) = opt_bind-eq-some (text "score_name" fs) _ h14 in
    (
      subst (Shallow (fields_depth fs)) (ap RawNode.conditions (some_inj made))
          (own_conditions fs conditions),
      subst (λ x. raw_depth x ≤ suc (fields_depth fs)) (ap RawNode.condition (some_inj made))
          (own_condition fs condition),
    )
