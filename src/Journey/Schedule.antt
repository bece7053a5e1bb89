-- ===== src/Journey/Schedule.antt =====
-- The schedules of internal/journey/enroll.go, `validateSchedule` and `isScheduledDue`. A schedule is
-- the list of its code points.
pub mod Due
use openjourney.Common.{
  ℕ, zero, suc, ◌+◌, ◌-◌, ◌*◌, ◌%◌, ◌^◌, Bool, true, false, ◌&&◌, ◌||◌, not, List, [], ◌∷◌, ◌++◌,
  Option, none, some, String, ltb, leb, nat_eq, if◌then◌else◌, codes, Result, ok, err, all, length,
}
use openjourney.Common.Int.{ℤ, pos, negsuc, is_negative, pos_part}
use openjourney.Json.{same_codes}

abbrev pub Codes : Type 0
Codes = List ℕ

-- `unicode.IsSpace`.
abbrev pub is_space : ℕ → Bool
is_space c =
    leb 9 c && leb c 13
    || nat_eq c 32
    || nat_eq c 0x85
    || nat_eq c 0xa0
    || nat_eq c 0x1680
    || leb 0x2000 c && leb c 0x200a
    || nat_eq c 0x2028
    || nat_eq c 0x2029
    || nat_eq c 0x202f
    || nat_eq c 0x205f
    || nat_eq c 0x3000

-- The word that is being read ends, unless it is empty.
abbrev close : Codes → List Codes → List Codes
close [] rest = rest
close (c ∷ cs) rest = (c ∷ cs) ∷ rest

-- `strings.Fields`: the words between runs of space, `word` being the part of one that is read.
unfoldable pub fields_from : Codes → Codes → List Codes
fields_from word [] = close word []
fields_from word (c ∷ cs) =
    let split = close word (fields_from [] cs) in
    let longer = fields_from (word ++ c ∷ []) cs in if is_space c then split else longer

abbrev is_digit : ℕ → Bool
is_digit c = leb b'0' c && leb c b'9'

abbrev decimal_from : ℕ → Codes → ℕ
decimal_from acc [] = acc
decimal_from acc (c ∷ cs) = decimal_from (acc * 10 + (c - b'0')) cs

-- One digit or more, and nothing else.
decimal : Codes → Option ℕ
decimal [] = none
decimal (c ∷ cs) = if all is_digit (c ∷ cs) then some (decimal_from 0 (c ∷ cs)) else none

-- `strconv.Atoi` of the digits after the sign: a number beyond 64 bits is an error.
abbrev signed : Bool → Option ℕ → Option ℤ
signed minus none = none
signed false (some n) = if ltb n (2 ^ 63) then some (pos n) else none
signed true (some zero) = some (pos 0)
signed true (some (suc n)) = if ltb n (2 ^ 63) then some (negsuc n) else none

pub atoi : Codes → Option ℤ
atoi [] = none
atoi (c ∷ cs) =
    if nat_eq c b'-'
    then signed true (decimal cs)
    else if nat_eq c b'+'
    then signed false (decimal cs)
    else signed false (decimal (c ∷ cs))

abbrev pub star : Codes
star = b'*' ∷ []

-- What follows the prefix "*/".
abbrev pub after_slash : Codes → Option Codes
after_slash (c ∷ d ∷ cs) = if nat_eq c b'*' && nat_eq d b'/' then some cs else none
after_slash _ = none

pub data ScheduleError : Type 0 where
  not_five_fields only_wildcards bad_interval bad_minute : ScheduleError

-- `err != nil || n < lo || n > 59`, negated.
abbrev pub within : ℕ → Option ℤ → Bool
within lo none = false
within lo (some (negsuc n)) = false
within lo (some (pos n)) = leb lo n && leb n 59

unfoldable pub check_minute : List Codes → Codes → Result ScheduleError (List Codes)
check_minute fields minute =
    if same_codes minute star then ok fields else elim (after_slash minute) [
      | some interval ↦ if within 1 (atoi interval) then ok fields else err bad_interval
      | none ↦ if within 0 (atoi minute) then ok fields else err bad_minute
    ]

pub check_fields : List Codes → Result ScheduleError (List Codes)
check_fields (minute ∷ hour ∷ day ∷ month ∷ weekday ∷ []) =
    if all (λ f. same_codes f star) (hour ∷ day ∷ month ∷ weekday ∷ [])
    then check_minute (minute ∷ hour ∷ day ∷ month ∷ weekday ∷ []) minute
    else err only_wildcards
check_fields _ = err not_five_fields

abbrev five_stars : List Codes
five_stars = star ∷ star ∷ star ∷ star ∷ star ∷ []

-- `validateSchedule`: a schedule of white space alone stands for five wildcards.
unfoldable pub validate_schedule : Codes → Result ScheduleError (List Codes)
unfolding check_fields fields_from check_minute atoi decimal same_codes
validate_schedule schedule =
    if all is_space schedule then ok five_stars else check_fields (fields_from [] schedule)

-- The test of `isScheduledDue` on the minute field and the minute of the hour. The interval is read
-- by `Sscanf`, which agrees with `Atoi` on what `validateSchedule` lets through.
pub minute_due : Codes → ℕ → Bool
minute_due field minute = if same_codes field star then true else elim (after_slash field) [
  | some interval ↦ elim (atoi interval) [
    | some (pos (suc k)) ↦ nat_eq (minute % suc k) 0
    | _ ↦ nat_eq minute 0
  ]
  | none ↦ elim (atoi field) [
    | some (pos n) ↦ nat_eq minute n
    | some (negsuc n) ↦ false
    | none ↦ nat_eq minute 0
  ]
]

unfoldable pub is_scheduled_due : Codes → ℕ → Bool
unfolding validate_schedule minute_due atoi same_codes
is_scheduled_due schedule minute = elim (validate_schedule schedule) [
  | ok (field ∷ _) ↦ minute_due field minute
  | ok [] ↦ false
  | err e ↦ false
]
