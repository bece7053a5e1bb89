-- ===== src/Json/Float.antt =====
-- The float64 of encoding/json and strconv: the range of a number literal, the float64 nearest to a
-- whole one, and the decoding of a value into an `any`. A literal with a fraction or an exponent that is
-- in range is kept, and stands for the float64 nearest to it.
use openjourney.Common.{
  ℕ, zero, suc, ◌+◌, ◌-◌, ◌*◌, ◌/◌, ◌%◌, Bool, true, false, ◌&&◌, ◌||◌, List, [], ◌∷◌, Option, none,
  some, String, leb, ltb, ◌^◌, nat_eq, codes, if◌then◌else◌, ◌==◌, not,
}
use openjourney.Common.Int.{ℤ, pos, negsuc}
use openjourney.Json.{
  Json, null, bool, int, dec, str, arr, obj, Items, nil, cons, Fields, end, field,
}

-- The first number that rounds above the greatest float64: it is halfway to 2 ^ 1024, which is even.
abbrev float_limit : ℕ
float_limit = 2 ^ 1024 - 2 ^ 970

-- The nearest multiple of 2 ^ e, and the even one of two that are as near.
abbrev nearest : ℕ → ℕ → ℕ
nearest e n =
    let q = n / 2 ^ e in
    let r = n % 2 ^ e in
    (if ltb (2 ^ e) (2 * r) || (nat_eq (2 * r) (2 ^ e) && nat_eq (q % 2) 1) then q + 1 else q)
    * 2 ^ e

-- The first e from `e` on for which 53 bits hold n / 2 ^ e; no number in range needs more than 971.
unfoldable rounded : ℕ → ℕ → ℕ → ℕ
rounded zero e n = nearest e n
rounded (suc fuel) e n =
    let higher = rounded fuel (e + 1) n in if ltb (n / 2 ^ e) (2 ^ 53) then nearest e n else higher

abbrev float_nat : ℕ → Option ℕ
unfolding rounded
float_nat n =
    if ltb n (2 ^ 53) then some n else if ltb n float_limit then some (rounded 971 0 n) else none

abbrev negated_nat : ℕ → ℤ
negated_nat zero = pos 0
negated_nat (suc n) = negsuc n

-- The float64 that a whole literal becomes.
unfoldable pub float_int : ℤ → Option ℤ
unfolding rounded
float_int (pos n) = elim (float_nat n) [ none ↦ none | some m ↦ some (pos m) ]
float_int (negsuc n) = elim (float_nat (suc n)) [ none ↦ none | some m ↦ some (negated_nat m) ]

-- The digits at the front, as a number that goes on from `n`, how many they are, and what is left.
unfoldable digits : ℕ → ℕ → List ℕ → ℕ × ℕ × List ℕ
digits n count [] = (n, count, [])
digits n count (c ∷ cs) =
    let rest = digits (n * 10 + (c - b'0')) (count + 1) cs in
    if leb b'0' c && leb c b'9' then rest else (n, count, c ∷ cs)

abbrev no_more : List ℕ → Bool
no_more [] = true
no_more (c ∷ cs) = false

-- Whether `n * 10 ^ up / 10 ^ down` rounds to a float64.
abbrev in_range : ℕ → ℕ → ℕ → Bool
in_range n up down = nat_eq n 0 || ltb (n * 10 ^ up) (float_limit * 10 ^ down)

-- An exponent, and the number of digits of the fraction.
abbrev exponent : ℕ → ℕ → List ℕ → Bool
unfolding digits
exponent n down [] = in_range n 0 down
exponent n down (c ∷ []) = false
exponent n down (c ∷ d ∷ cs) =
    if not (nat_eq c b'e' || nat_eq c b'E')
    then false
    else if nat_eq d b'-'
    then (let (e, count, rest) = digits 0 0 cs in
        ltb 0 count && no_more rest && in_range n 0 (down + e))
    else (let (e, count, rest) = digits 0 0 (if nat_eq d b'+' then cs else d ∷ cs) in
        ltb 0 count && no_more rest && in_range n e down)

-- Whether the number that a literal writes is in range: an optional sign, digits, and an optional
-- fraction and exponent.
abbrev unsigned_fits : List ℕ → Bool
unfolding digits
unsigned_fits cs =
    let (n, count, rest) = digits 0 0 cs in
    ltb 0 count && elim rest [
      | [] ↦ in_range n 0 0
      | c ∷ more ↦
          if nat_eq c b'.'
          then (let (m, places, after) = digits n 0 more in ltb 0 places && exponent m places after)
          else exponent n 0 (c ∷ more)
    ]

abbrev literal_fits : List ℕ → Bool
literal_fits [] = false
literal_fits (c ∷ cs) = if nat_eq c b'-' then unsigned_fits cs else unsigned_fits (c ∷ cs)

unfoldable pub fits_float : String → Bool
unfolding digits
fits_float s = literal_fits (codes s)

-- A key that a later member of the object has again.
abbrev has_key : String → Fields → Bool
has_key key end = false
has_key key (field other v rest) = key == other || has_key key rest

abbrev map_opt : {A B : Type 0} → (A → B) → Option A → Option B
map_opt f none = none
map_opt f (some a) = some (f a)

-- The value of an `any`: every number becomes a float64, or the whole decoding is an error, and of
-- the members of an object with one key the last stays, as in the map that they are stored in.
unfoldable mutual
  pub any_json : Json → Option Json
  any_json null = some null
  any_json (bool b) = some (bool b)
  any_json (int n) = map_opt int (float_int n)
  any_json (dec s) = if fits_float s then some (dec s) else none
  any_json (str s) = some (str s)
  any_json (arr vs) = map_opt arr (any_items vs)
  any_json (obj fs) = map_opt obj (any_fields fs)

  pub any_items : Items → Option Items
  any_items nil = some nil
  any_items (cons v vs) = elim (any_json v) [
    | none ↦ none
    | some w ↦ map_opt (cons w) (any_items vs)
  ]

  pub any_fields : Fields → Option Fields
  any_fields end = some end
  any_fields (field key v rest) = elim (any_json v) [
    | none ↦ none
    | some w ↦ elim (any_fields rest) [
      | none ↦ none
      | some ws ↦ some (if has_key key rest then ws else field key w ws)
    ]
  ]
