-- ===== src/Delivery/NextOpen.antt =====
-- The quiet hours of internal/journey/quiethours.go as an interval of the clock.
use openjourney.Common.{
  ℕ, ◌+◌, ◌%◌, ◌*◌, ◌-◌, ◌<◌, ◌≤◌, ◌≡◌, ◌≢◌, ◌⊎◌, inl, inr, Bool, true, false, ◌&&◌, ◌||◌, Option,
  none, some, String, ltb, leb, nat_eq, if◌then◌else◌, ok, arith, Bool-cases, Option-cases,
}
use openjourney.Delivery.QuietHours.{Zone, opens_after, zone_name, zone_of, is_in_quiet_hours}

-- An hour is quiet if it comes on the clock, from `start` on, before `end` does.
abbrev pub is_quiet : (start end hour : ℕ) → Bool
is_quiet start end hour = ltb ((hour + (24 - start)) % 24) ((end + (24 - start)) % 24)

quiet_by_day :
    (start end h : ℕ)
    → start < end
    → end < 24
    → h < 24
    → is_quiet start end h ≡ (leb start h && ltb h end)
quiet_by_day start end h day small hour = ground arith

quiet_by_night :
    (start end h : ℕ)
    → end < start
    → start < 24
    → h < 24
    → is_quiet start end h ≡ (leb start h || ltb h end)
quiet_by_night start end h night small hour = ground arith

-- What is found of an hour: it is not quiet, or the quiet hours that it is in end so many days on.
abbrev Opens : (start end hour : ℕ) → Option ℕ → Type 0
Opens start end hour none = is_quiet start end hour ≡ false
Opens start end hour (some days) =
    (hour < 24 * days + end)
    × ((h : ℕ) → hour ≤ h → h < 24 * days + end → is_quiet start end (h % 24) ≡ true)
    × (is_quiet start end end ≡ false)

by_day-Opens :
    (start end hour : ℕ)
    → start < end
    → end < 24
    → hour < 24
    → Opens start end hour (if leb start hour && ltb hour end then some 0 else none)
by_day-Opens start end hour day small small' = elim (Bool-cases (leb start hour && ltb hour end)) [
  | inr out ↦ rw (out, quiet_by_day start end hour day small small') out
  | inl within ↦ rw within (
    ground arith,
    (λ h after before. rw (quiet_by_day start end (h % 24) day small (omega arith)) (ground arith)),
    rw (quiet_by_day start end end day small small) (ground arith),
  )
]

by_night-Opens :
    (start end hour : ℕ)
    → end < start
    → start < 24
    → hour < 24
    → Opens start end hour
        (if leb start hour then some 1 else if ltb hour end then some 0 else none)
by_night-Opens start end hour night small small' = elim (Bool-cases (leb start hour)) [
  | inl evening ↦ rw evening (
    ground arith,
    (λ h after before.
        rw (quiet_by_night start end (h % 24) night small (omega arith)) (ground arith)),
    rw (quiet_by_night start end end night small (omega arith)) (ground arith),
  )
  | inr later ↦ elim (Bool-cases (ltb hour end)) [
    | inl morning ↦
        rw (later, morning)
          (
            ground arith,
            (λ h after before.
                rw (quiet_by_night start end (h % 24) night small (omega arith)) (ground arith)),
            rw (quiet_by_night start end end night small (omega arith)) (ground arith),
          )
    | inr open_now ↦
        rw (later, open_now, quiet_by_night start end hour night small small') (ground arith)
  ]
]

night_lem : (start end : ℕ) → start ≢ end → ltb start end ≡ false → end < start
night_lem start end differ night = ground arith

opens_after-Opens :
    (start end hour : ℕ)
    → start ≢ end
    → start < 24
    → end < 24
    → hour < 24
    → Opens start end hour (opens_after start end hour)
opens_after-Opens start end hour differ small small' small'' = elim (Bool-cases (ltb start end)) [
  | inl day ↦ rw day (by_day-Opens start end hour (ground arith) small' small'')
  | inr night ↦
      rw night (by_night-Opens start end hour (night_lem start end differ night) small small'')
]

-- For a start and an end that differ, both hours of the clock, `IsInQuietHours` returns false exactly
-- when the hour in the zone found is not quiet. Otherwise it returns the first time after the hour at
-- which no quiet hours are: every hour from this one to that one is quiet, and that one is not.
pub is_in_quiet_hours-end :
    {Time : Type 0} (load_location : String → Option (Zone Time)) (utc : Zone Time) (now : Time)
    (own_zone : Option String) (start end : ℕ) (fallback : String)
    → start ≢ end
    → start < 24
    → end < 24
    → (zone_of load_location utc (load_location (zone_name own_zone fallback))).hour now < 24
    → (let zone = zone_of load_location utc (load_location (zone_name own_zone fallback)) in
        let answer =
          is_in_quiet_hours load_location utc now own_zone (some start) (some end) fallback in
        ((answer ≡ ok (false, now)) × (is_quiet start end (zone.hour now) ≡ false))
        ⊎ ((days : ℕ) × (answer ≡ ok (true, zone.date (zone.day now + days) end))
            × (zone.hour now < 24 * days + end)
            × ((h : ℕ)
                → zone.hour now ≤ h
                → h < 24 * days + end
                → is_quiet start end (h % 24) ≡ true)
            × (is_quiet start end end ≡ false)))
unfolding is_in_quiet_hours
is_in_quiet_hours-end load_location utc now own_zone start end fallback differ small small'
      small'' =
    let zone = zone_of load_location utc (load_location (zone_name own_zone fallback)) in
    let differs : nat_eq start end ≡ false = ground arith in
    let opens = opens_after-Opens start end (zone.hour now) differ small small' small'' in
    elim (Option-cases (opens_after start end (zone.hour now))) [
      | inl open_now ↦ inl (rw (differs, open_now), rw open_now at opens)
      | inr (days, quiet) ↦
          let (soon, all, ends) = rw quiet at opens in
          inr (days, rw (differs, quiet), soon, all, ends)
    ]
