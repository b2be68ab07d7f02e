-- ===== src/Money/Laws.antt =====
-- Conversions and sums of server/utils/paise.util.js.
use Prim.Native.String.{String}
use lavish_fashion.Prelude.{
  ℕ, ◌+◌, ◌*◌, ◌≤◌, ◌≡◌, ◌↔◌, Bool, ok, err, arith, pos, ltb, if◌then◌else◌,
}
use lavish_fashion.Money.{
  JsNumber, JsValue, number, finite, whole, paisa, tolerance, distance, max_safe_paise,
  assert_paise, rupee_to_paise, paise_to_rupees, safe_paise_add, too_large,
}

-- A whole number passes `assert_paise` exactly up to the largest safe integer.
assert_paise-whole :
    (p : ℕ) → assert_paise (whole p) ≡ (if ltb max_safe_paise p then err too_large else ok p)
unfolding assert_paise
assert_paise-whole p = ground arith

-- Whatever passes is a whole number in range.
assert_paise_sound :
    (v : JsValue) (p : ℕ) → assert_paise v ≡ ok p → (v ≡ whole p) × (p ≤ max_safe_paise)
unfolding assert_paise
assert_paise_sound v p h = ground arith

-- A safe number of paise, turned to rupees and back, is itself.
pub rupee_to_paise-paise_to_rupees :
    (is_empty : String → Bool) (read : String → JsNumber) (p r : ℕ)
    → paise_to_rupees (whole p) ≡ ok r
    → rupee_to_paise is_empty read (number (finite (pos r))) ≡ ok p
unfolding paise_to_rupees rupee_to_paise
rupee_to_paise-paise_to_rupees is_empty read p r h = ground arith

-- A finite amount that is not negative, n in units of 10^-8 of a rupee, is accepted as p paise
-- exactly when p is safe and n lies within a millionth of a rupee of p.
pub rupee_to_paise_iff :
    (is_empty : String → Bool) (read : String → JsNumber) (n p : ℕ)
    → (rupee_to_paise is_empty read (number (finite (pos n))) ≡ ok p)
      ↔ ((distance (p * paisa) n ≤ tolerance) × (p ≤ max_safe_paise))
unfolding rupee_to_paise
rupee_to_paise_iff is_empty read n p = ground arith

-- `safe_paise_add` returns the sum exactly when both operands and the sum are safe whole numbers.
pub safe_paise_add_iff :
    (x y s : ℕ)
    → (safe_paise_add (whole x) (whole y) ≡ ok s) ↔ ((s ≡ x + y) × (x + y ≤ max_safe_paise))
unfolding safe_paise_add
safe_paise_add_iff x y s = ground arith
