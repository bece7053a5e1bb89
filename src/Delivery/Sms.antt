-- ===== src/Delivery/Sms.antt =====
-- internal/render/sms.go. A string is a list of runes; a string's bytes are not counted.
use openjourney.Common.{
  ℕ, ◌+◌, ◌/◌, Bool, true, false, not, ◌&&◌, ◌||◌, List, [], ◌∷◌, leb, nat_eq, if◌then◌else◌, any,
  length, codes,
}

-- The basic and the extended characters.
abbrev pub gsm7_basic : List ℕ
gsm7_basic =
    codes
      "@£$¥èéùìòÇ\nØø\rÅåΔ_ΦΓΛΩΠΨΣΘΞÆæßÉ !\"#¤%&'()*+,-./0123456789:;<=>?¡ABCDEFGHIJKLMNOPQRSTUVWXYZÄÖÑÜ§¿abcdefghijklmnopqrstuvwxyzäöñüà"

abbrev pub gsm7_extended : List ℕ
gsm7_extended = codes "[\\]^{|}~€"

unfoldable pub is_gsm7_extended : ℕ → Bool
is_gsm7_extended r = any (nat_eq r) gsm7_extended

unfoldable pub is_gsm7 : ℕ → Bool
is_gsm7 r = any (nat_eq r) gsm7_basic || any (nat_eq r) gsm7_extended

-- The loops over the runes.
unfoldable pub is_ucs2 : List ℕ → Bool
unfolding is_gsm7
is_ucs2 runes = any (λ r. not (is_gsm7 r)) runes

unfoldable pub gsm7_count : List ℕ → ℕ
unfolding is_gsm7_extended
gsm7_count [] = 0
gsm7_count (r ∷ runes) = (if is_gsm7_extended r then 2 else 1) + gsm7_count runes

abbrev pub or_one : List ℕ → ℕ → ℕ
or_one runes segments = if nat_eq segments 0 && not (nat_eq (length runes) 0) then 1 else segments

-- `AnalyzeSMS`: is the text UCS-2, its characters and its segments.
unfoldable pub analyze_sms : List ℕ → Bool × ℕ × ℕ
unfolding is_ucs2 gsm7_count
analyze_sms runes =
    if is_ucs2 runes
    then (let count = length runes in
        (true, count, or_one runes (if leb count 70 then 1 else (count + 66) / 67)))
    else (let count = gsm7_count runes in
        (false, count, or_one runes (if leb count 160 then 1 else (count + 152) / 153)))
