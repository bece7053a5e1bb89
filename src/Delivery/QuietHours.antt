-- ===== src/Delivery/QuietHours.antt =====
-- internal/journey/quiethours.go. A time zone, the calendar and the decoding of a profile's attributes
-- are parameters.
use openjourney.Common.{
  ℕ, ◌+◌, Bool, true, false, ◌&&◌, Option, none, some, String, ltb, leb, nat_eq, is_empty,
  if◌then◌else◌, Result, ok, err,
}

pub data QuietError : Type 0 where
  start_is_end : QuietError

-- A clock in a place: a number of days and the hour. `time.Date` is the way back, for a day and an
-- hour of that place.
pub record Zone (Time : Type 0) : Type 0 where
  pub day : Time → ℕ
  pub hour : Time → ℕ
  pub date : (day hour : ℕ) → Time

-- The hours, and the days to add where the interval has not ended: today's end or tomorrow's.
abbrev pub opens_after : (start end hour : ℕ) → Option ℕ
opens_after start end hour =
    if ltb start end
    then (if leb start hour && ltb hour end then some 0 else none)
    else if leb start hour
    then some 1
    else if ltb hour end
    then some 0
    else none

-- The name of the zone: the profile's, or the default, or UTC.
abbrev pub zone_name : Option String → String → String
zone_name (some name) fallback =
    if is_empty name then (if is_empty fallback then "UTC" else fallback) else name
zone_name none fallback = if is_empty fallback then "UTC" else fallback

module _ {Time : Type 0} (load_location : String → Option (Zone Time)) (utc : Zone Time) where
  abbrev pub zone_of : Option (Zone Time) → Zone Time
  zone_of none = utc
  zone_of (some zone) = zone

  abbrev pub opening : Zone Time → Time → ℕ → Option ℕ → Bool × Time
  opening zone now end none = (false, now)
  opening zone now end (some days) = (true, zone.date (zone.day now + days) end)

  -- `IsInQuietHours`, for the profile's own zone, if its attributes have one.
  unfoldable pub is_in_quiet_hours :
      Time
      → (own_zone : Option String) → (start end : Option ℕ) → (fallback : String)
      → Result QuietError (Bool × Time)
  is_in_quiet_hours now own_zone (some start) (some end) fallback =
      if nat_eq start end
      then err start_is_end
      else (let zone = zone_of (load_location (zone_name own_zone fallback)) in
          ok (opening zone now end (opens_after start end (zone.hour now))))
  is_in_quiet_hours now own_zone none end fallback = ok (false, now)
  is_in_quiet_hours now own_zone (some start) none fallback = ok (false, now)
