-- ===== src/Money.antt =====
-- server/utils/paise.util.js: whole paise, and their conversion from and to rupees.
-- A JavaScript number is NaN, infinite, or an exact decimal with eight places, counted in units of
-- 10^-8: `finite (pos 1234000000)` is 12.34. The rounding of binary floats below 10^-8 is left out.
pub mod Laws
mod Tests
use Prim.Native.String.{String}
use lavish_fashion.Prelude.{
  ℕ, ◌+◌, ◌-◌, ◌*◌, ◌/◌, ◌%◌, ◌^◌, Bool, true, false, ◌||◌, Result, ok, err, and_then, ℤ, pos,
  negsuc, ltb, ◌==◌, if◌then◌else◌, Option, none, some,
}

pub data JsNumber : Type 0 where
  nan infinite : JsNumber
  finite : ℤ → JsNumber

pub data JsValue : Type 0 where
  absent : JsValue
  text : String → JsValue
  number : JsNumber → JsValue

pub data MoneyError : Type 0 where
  not_finite not_integer negative too_large missing too_precise would_be_negative : MoneyError

pub data OrderAmountError : Type 0 where
  malformed : MoneyError → OrderAmountError

-- One in units of 10^-8, and the units of one paisa.
abbrev pub unit : ℕ
unit = 100_000_000

abbrev pub paisa : ℕ
paisa = 1_000_000

-- Number.MAX_SAFE_INTEGER
abbrev pub max_safe_paise : ℕ
max_safe_paise = 2 ^ 53 - 1

-- The tests of `assertPaise` in their order; the value that passes is a natural number.
unfoldable pub assert_paise : JsValue → Result MoneyError ℕ
assert_paise (number (finite (pos n))) =
    if n % unit == 0
    then (if ltb max_safe_paise (n / unit) then err too_large else ok (n / unit))
    else err not_integer
assert_paise (number (finite (negsuc n))) =
    if (n + 1) % unit == 0 then err negative else err not_integer
assert_paise _ = err not_finite

-- Math.round(x * 100), with x in units of 10^-8: half up.
unfoldable pub round_to_paise : ℕ → ℕ
round_to_paise n = (n + paisa / 2) / paisa

-- |a - b|
abbrev pub distance : ℕ → ℕ → ℕ
distance a b = (a - b) + (b - a)

-- `Math.abs(rounded - numeric) > 1e-6`, where `rounded` is the whole number of paise over 100.
abbrev pub tolerance : ℕ
tolerance = 100

-- The part of `rupeeToPaise` behind `Number(…)`: for a text, `read` is what `Number(text.trim())`
-- gives.
unfoldable pub numeric_to_paise : JsNumber → Result MoneyError ℕ
unfolding assert_paise round_to_paise
numeric_to_paise (finite (pos n)) =
    let paise = round_to_paise n in
    if ltb tolerance (distance (paise * paisa) n)
    then err too_precise
    else assert_paise (number (finite (pos (paise * unit))))
numeric_to_paise (finite (negsuc n)) = err negative
numeric_to_paise _ = err not_finite

module _ (is_empty : String → Bool) (read : String → JsNumber) where
  pub rupee_to_paise : JsValue → Result MoneyError ℕ
  unfolding numeric_to_paise
  rupee_to_paise absent = err missing
  rupee_to_paise (text s) = if is_empty s then err missing else numeric_to_paise (read s)
  rupee_to_paise (number x) = numeric_to_paise x

  -- Any error is wrapped in a RangeError that keeps the cause.
  pub paise_from_order_rupees : JsValue → Result OrderAmountError ℕ
  unfolding rupee_to_paise
  paise_from_order_rupees rupees = elim (rupee_to_paise rupees) [
    | ok paise ↦ ok paise
    | err cause ↦ err (malformed cause)
  ]

-- The result is a number of rupees, in units of 10^-8: p / 100 is exact there.
unfoldable pub paise_to_rupees : JsValue → Result MoneyError ℕ
unfolding assert_paise
paise_to_rupees v = and_then (assert_paise v) (λ p. ok (p * paisa))

unfoldable pub safe_paise_add : JsValue → JsValue → Result MoneyError ℕ
unfolding assert_paise
safe_paise_add a b =
    and_then (assert_paise a)
      λ x. and_then (assert_paise b) λ y. assert_paise (number (finite (pos ((x + y) * unit))))

unfoldable pub safe_paise_sub : JsValue → JsValue → Result MoneyError ℕ
unfolding assert_paise
safe_paise_sub a b =
    and_then (assert_paise a)
      λ x. and_then (assert_paise b) λ y. if ltb x y then err would_be_negative else ok (x - y)

-- A whole number as a JavaScript number.
abbrev pub whole : ℕ → JsValue
whole p = number (finite (pos (p * unit)))
