-- ===== src/Money/Tests.antt =====
-- Runs of the money utilities, and instances of their theorems.
use Prim.Native.String.{String}
use lavish_fashion.Prelude.{◌≡◌, refl, Bool, false, ok, err, pos}
use lavish_fashion.Money.{JsNumber, nan, finite, number, too_precise, rupee_to_paise}

abbrev never_empty : String → Bool
never_empty s = false

abbrev unread : String → JsNumber
unread s = nan

-- 12.345 has a digit too many, and 12.34 has not.
precision :
    (rupee_to_paise never_empty unread (number (finite (pos 1_234_500_000))) ≡ err too_precise)
    × (rupee_to_paise never_empty unread (number (finite (pos 1_234_000_000))) ≡ ok 1234)
unfolding rupee_to_paise
precision = (refl, refl)
