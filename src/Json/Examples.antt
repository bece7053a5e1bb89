-- ===== src/Json/Examples.antt =====
-- Number literals that encoding/json decodes, and some that it refuses.
use openjourney.Common.{◌≡◌, refl, none, some, true, false, ◌+◌, ◌^◌}
use openjourney.Common.Int.{pos}
use openjourney.Json.{int, bool, end, field, obj}
use openjourney.Json.Float.{float_int, fits_float, any_json}

-- Halfway between two floats: the even one.
tie_down : float_int (pos (2 ^ 53 + 1)) ≡ some (pos (2 ^ 53))
unfolding float_int
tie_down = refl

tie_up : float_int (pos (2 ^ 53 + 3)) ≡ some (pos (2 ^ 53 + 4))
unfolding float_int
tie_up = refl

too_long : float_int (pos (10 ^ 400)) ≡ none
unfolding float_int
too_long = refl

near_the_limit : fits_float "1.7e308" ≡ true
unfolding fits_float
near_the_limit = refl

over_the_limit : fits_float "-1.8e308" ≡ false
unfolding fits_float
over_the_limit = refl

tiny : fits_float "0.5E-400" ≡ true
unfolding fits_float
tiny = refl

no_number : fits_float "not a number" ≡ false
unfolding fits_float
no_number = refl

last_key_stays :
    any_json (obj (field "a" (int (pos 1)) (field "b" (int (pos 2)) (field "a" (bool true) end))))
    ≡ some (obj (field "b" (int (pos 2)) (field "a" (bool true) end)))
unfolding any_json float_int
last_key_stays = refl
