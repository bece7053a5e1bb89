-- ===== src/Json.antt =====
-- encoding/json, as the program uses it: a `json.RawMessage` by what a decoder finds in it, and the
-- decoding of an object into the fields of a struct.
pub mod Float
mod Examples
use openjourney.Common.{
  ℕ, ◌+◌, Bool, true, false, ◌&&◌, List, [], ◌∷◌, Option, none, some, String, leb, ltb, ◌^◌, nat_eq,
  codes, map, if◌then◌else◌,
}
use openjourney.Common.Int.{ℤ, pos, negsuc}

mutual
  pub data Json : Type 0 where
    null : Json
    bool : Bool → Json
    -- A number literal with no fraction and no exponent, and any other, as its text.
    int : ℤ → Json
    dec : String → Json
    str : String → Json
    arr : Items → Json
    obj : Fields → Json

  pub data Items : Type 0 where
    nil : Items
    cons : Json → Items → Items

  pub data Fields : Type 0 where
    end : Fields
    field : String → Json → Fields → Fields

-- No bytes, bytes that are no JSON, or a JSON value.
pub data RawMessage : Type 0 where
  empty : RawMessage
  malformed : RawMessage
  value : Json → RawMessage

-- `len(raw) == 0`.
abbrev pub is_absent : RawMessage → Bool
is_absent empty = true
is_absent _ = false

-- A key names a field if the two are equal up to case. Beside the ASCII letters, two code points
-- fold to ASCII letters: U+017F to s and U+212A to k.
abbrev fold : ℕ → ℕ
fold c =
    if leb b'A' c && leb c b'Z'
    then c + 32
    else if nat_eq c 0x17f
    then b's'
    else if nat_eq c 0x212a
    then b'k'
    else c

unfoldable pub same_codes : List ℕ → List ℕ → Bool
same_codes [] [] = true
same_codes (a ∷ as') (b ∷ bs) = nat_eq a b && same_codes as' bs
same_codes _ _ = false

unfoldable pub same_key : String → String → Bool
unfolding same_codes
same_key key name = same_codes (map fold (codes key)) (map fold (codes name))

-- Decoding the members of an object into one field: each member whose key names the field is
-- decoded onto the value so far, in order; `none` is a value of the wrong kind, which makes the
-- whole `Unmarshal` return an error.
unfoldable pub decode_field {ℓ} :
    {A : Type ℓ} → String → (Json → A → Option A) → Fields → A → Option A
unfolding same_key
decode_field name set end a = some a
decode_field name set (field key v rest) a =
    if same_key key name
    then (elim (set v a) [ none ↦ none | some a' ↦ decode_field name set rest a' ])
    else decode_field name set rest a

-- The kinds of field: a JSON null leaves each as it is, or makes a slice or raw message null.
abbrev pub set_string : Json → String → Option String
set_string null s = some s
set_string (str t) s = some t
set_string _ s = none

-- A literal that an `int` of 64 bits does not hold is an error.
abbrev pub fits_int : ℤ → Bool
fits_int (pos n) = ltb n (2 ^ 63)
fits_int (negsuc n) = ltb n (2 ^ 63)

abbrev pub set_int : Json → ℤ → Option ℤ
set_int null n = some n
set_int (int m) n = if fits_int m then some m else none
set_int _ n = none

abbrev pub set_bool : Json → Bool → Option Bool
set_bool null b = some b
set_bool (bool c) b = some c
set_bool _ b = none

abbrev pub set_raw : Json → RawMessage → Option RawMessage
set_raw v r = some (value v)

abbrev string_items : Items → Option (List String)
string_items nil = some []
string_items (cons v vs) = elim (set_string v "") [
  | none ↦ none
  | some s ↦ elim (string_items vs) [ none ↦ none | some r ↦ some (s ∷ r) ]
]

abbrev pub set_strings : Json → List String → Option (List String)
set_strings null l = some []
set_strings (arr vs) l = string_items vs
set_strings _ l = none

-- `json.Unmarshal` of a message into a struct that decodes the members of an object by `decode`,
-- and whose value is `zero` where the message is null.
unfoldable pub unmarshal_struct {ℓ} : {A : Type ℓ} → A → (Fields → Option A) → RawMessage → Option A
unmarshal_struct zero decode empty = none
unmarshal_struct zero decode malformed = none
unmarshal_struct zero decode (value null) = some zero
unmarshal_struct zero decode (value (obj fs)) = decode fs
unmarshal_struct zero decode (value _) = none
