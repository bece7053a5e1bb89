-- ===== src/Delivery/Segments.antt =====
-- The segments of a text message of internal/render/sms.go, by what they can hold.
use openjourney.Common.{
  ℕ, ◌+◌, ◌*◌, ◌/◌, ◌≤◌, ◌≡◌, refl, Bool, true, false, List, [], ◌∷◌, leb, if◌then◌else◌, length,
  arith, Bool-cases, inl, inr,
}
use openjourney.Delivery.Sms.{is_gsm7_extended, is_ucs2, gsm7_count, or_one, analyze_sms}

-- How many characters so many segments hold.
abbrev pub capacity : (is_ucs2 : Bool) (segments : ℕ) → ℕ
capacity true n = if leb n 1 then 70 else 67 * n
capacity false n = if leb n 1 then 160 else 153 * n

-- The least number of segments that hold the characters.
abbrev pub IsLeast : (is_ucs2 : Bool) (count segments : ℕ) → Type 0
IsLeast ucs2 count segments =
    (1 ≤ segments)
    × (count ≤ capacity ucs2 segments)
    × ((n : ℕ) → 1 ≤ n → count ≤ capacity ucs2 n → segments ≤ n)

wide-IsLeast : (count : ℕ) → IsLeast true count (if leb count 70 then 1 else (count + 66) / 67)
wide-IsLeast count = (ground arith, ground arith, λ n one fits. ground arith)

narrow-IsLeast :
    (count : ℕ) → IsLeast false count (if leb count 160 then 1 else (count + 152) / 153)
narrow-IsLeast count = (ground arith, ground arith, λ n one fits. ground arith)

or_one_lem : (runes : List ℕ) (segments : ℕ) → 1 ≤ segments → or_one runes segments ≡ segments
or_one_lem runes segments some_part = ground arith

gsm7_count-bounds :
    (runes : List ℕ) → (length runes ≤ gsm7_count runes) × (gsm7_count runes ≤ 2 * length runes)
unfolding gsm7_count
gsm7_count-bounds [] = (omega arith, omega arith)
gsm7_count-bounds (r ∷ runes) =
    let (low, high) = gsm7_count-bounds runes in
    elim (Bool-cases (is_gsm7_extended r)) [
      | inl two ↦ rw two (omega arith, omega arith)
      | inr one ↦ rw one (omega arith, omega arith)
    ]

-- `AnalyzeSMS` returns the least number of segments, at least one, that hold the characters it counts:
-- 160 of GSM-7 in one segment and 153 in each of several, 70 and 67 of UCS-2. The count is the number
-- of runes for UCS-2, and for GSM-7 at least that and at most twice as many.
pub analyze_sms-IsLeast :
    (runes : List ℕ)
    → (let (ucs2, count, segments) = analyze_sms runes in
        IsLeast ucs2 count segments
        × ((length runes ≤ count)
            × ((count ≤ 2 * length runes) × (ucs2 ≡ true → count ≡ length runes))))
unfolding analyze_sms
analyze_sms-IsLeast runes = elim (Bool-cases (is_ucs2 runes)) [
  | inl wide ↦
      let least = wide-IsLeast (length runes) in
      rw (wide, or_one_lem runes _ least.0) (least, (omega arith, (omega arith, λ u. refl)))
  | inr narrow ↦
      let least = narrow-IsLeast (gsm7_count runes) in
      let (low, high) = gsm7_count-bounds runes in
      rw (narrow, or_one_lem runes _ least.0) (least, (low, (high, λ u. absurd (ground arith))))
]
