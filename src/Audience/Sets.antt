-- ===== src/Audience/Sets.antt =====
-- The sets of ids that internal/postgres/segments.go keeps, by what they contain.
use openjourney.Common.{
  ◌≡◌, refl, sym, ap, ◌∙◌, eq_refl, inl, inr, true, false, not, ◌&&◌, ◌||◌, List, [], ◌∷◌, Option,
  none, some, String, ◌==◌, eq_iff, arith, contains, Option-cases, Bool-cases,
}
use openjourney.Audience.Segment.{IdSet, put, remove, union, kept_ids, dropped, found_ids}

pub ==-sound : (x y : String) → (x == y) ≡ true → x ≡ y
==-sound x y h = ground (arith, eq_iff x y)

contains-same : (x y : String) (ids : IdSet) → (x == y) ≡ true → contains ids x ≡ contains ids y
contains-same x y ids h = let e : x ≡ y = ==-sound x y h in rw e

pub contains-put :
    (x y : String) (ids : IdSet) → contains (put x ids) y ≡ (x == y || contains ids y)
unfolding put contains
contains-put x y ids = elim (Bool-cases (contains ids x)) [
  | inr out ↦ rw out
  | inl has ↦ elim (Bool-cases (x == y)) [
    | inr other ↦ rw (has, other)
    | inl same ↦ rw (has, same, sym (contains-same x y ids same), has)
  ]
]

pub contains-remove :
    (x y : String) (ids : IdSet) → contains (remove x ids) y ≡ (not (x == y) && contains ids y)
unfolding remove contains
contains-remove x y [] = ground arith
contains-remove x y (z ∷ ids) =
    let rest = contains-remove x y ids in ground (arith, eq_iff z x, eq_iff x y, eq_iff z y)

pub contains-union :
    (xs ids : IdSet) (y : String) → contains (union xs ids) y ≡ (contains xs y || contains ids y)
unfolding union contains
contains-union [] ids y = refl
contains-union (x ∷ xs) ids y =
    rw (contains-put x y (union xs ids), contains-union xs ids y) (ground arith)

pub contains-kept_ids :
    (xs other : IdSet) (y : String)
    → contains (kept_ids xs other) y ≡ (contains xs y && contains other y)
unfolding kept_ids contains
contains-kept_ids [] other y = refl
contains-kept_ids (x ∷ xs) other y =
    let rest = contains-kept_ids xs other y in
    elim (Bool-cases (x == y)) [
      | inl same ↦ let e = contains-same x y other same in ground arith
      | inr apart ↦ ground arith
    ]

pub contains-dropped :
    (xs other : IdSet) (y : String)
    → contains (dropped xs other) y ≡ (contains xs y && not (contains other y))
unfolding dropped contains
contains-dropped [] other y = refl
contains-dropped (x ∷ xs) other y =
    let rest = contains-dropped xs other y in
    elim (Bool-cases (x == y)) [
      | inl same ↦ let e = contains-same x y other same in ground arith
      | inr apart ↦ ground arith
    ]

clash : (o : Option String) (id : String) → o ≡ none → o ≡ some id → ⊥
clash none id missing found = ground arith
clash (some i) id missing found = ground arith

some_eq : {a b : String} → (let o : Option String = some a in o) ≡ some b → a ≡ b
some_eq h = cc

apart_eq : (x y : String) → (x == y) ≡ false → x ≡ y → ⊥
apart_eq x y h e = ground (arith, eq_iff x y)

-- A query that finds profiles by a key contains the profile whose key it is, if no other key finds it.
pub contains-found_ids :
    (find : String → Option String) (key id : String)
    → find key ≡ some id
    → ((k : String) → find k ≡ some id → k ≡ key)
    → (rows : List String) → contains (found_ids find rows) id ≡ contains rows key
unfolding found_ids contains
contains-found_ids find key id has only [] = refl
contains-found_ids find key id has only (row ∷ rows) =
    let rest = contains-found_ids find key id has only rows in
    elim (Option-cases (find row)) [
      | inl missing ↦ elim (Bool-cases (row == key)) [
        | inl same ↦
            let e : row ≡ key = ==-sound row key same in
            absurd (clash (find row) id missing (rw e has))
        | inr apart ↦ rw (missing, apart, found_ids, rest)
      ]
      | inr (i, found) ↦ elim (Bool-cases (row == key)) [
        | inl same ↦
            let e : row ≡ key = ==-sound row key same in
            let e' : i ≡ id = some_eq (sym found ∙ ap find e ∙ has) in
            rw (found, found_ids, contains-put i id _, same, e', eq_refl id)
        | inr apart ↦ elim (Bool-cases (i == id)) [
          | inl own ↦
              let e : i ≡ id = ==-sound i id own in
              absurd (apart_eq row key apart (only row (found ∙ ap some e)))
          | inr other ↦ rw (found, found_ids, contains-put i id _, apart, other, rest)
        ]
      ]
    ]
