-- ===== src/Double.antt =====
-- `gdouble` as its IEEE 754 bit pattern. Comparisons and the CLAMP macro of GLib are computed on the
-- pattern; arithmetic and the conversions to and from text are those of the machine and of the
-- standard library, and are the parameter `Fpu`.
pub mod Order
use nsvr.Prelude.{
  ℕ, ◌+◌, ◌%◌, ◌^◌, Bool, true, false, ◌&&◌, ◌||◌, not, Option, Bytes, ltb, leb, ◌==◌,
  if◌then◌else◌,
}
use nsvr.Prelude.Int.{ℤ}

abbrev pub Double : Type 0
Double = ℕ

abbrev pub d_zero : Double
d_zero = 0

abbrev pub d_one : Double
d_one = 0x3ff0_0000_0000_0000

-- -1.
abbrev pub d_minus_one : Double
d_minus_one = 0xbff0_0000_0000_0000

abbrev pub is_negative : Double → Bool
is_negative d = leb (2 ^ 63) d

abbrev pub magnitude : Double → ℕ
magnitude d = d % 2 ^ 63

abbrev pub is_nan : Double → Bool
is_nan d = ltb 0x7ff0_0000_0000_0000 (magnitude d)

-- The order of two doubles that are numbers; the two zeros are equal.
ordered_lt : Double → Double → Bool
ordered_lt a b =
    if is_negative a
    then (if is_negative b
        then ltb (magnitude b) (magnitude a)
        else ltb 0 (magnitude a + magnitude b))
    else (if is_negative b then false else ltb (magnitude a) (magnitude b))

-- a < b, a >= b and a == b: each is false if one of the two is not a number.
unfoldable pub d_lt : Double → Double → Bool
unfolding ordered_lt
d_lt a b = not (is_nan a) && not (is_nan b) && ordered_lt a b

unfoldable pub d_ge : Double → Double → Bool
unfolding ordered_lt
d_ge a b = not (is_nan a) && not (is_nan b) && not (ordered_lt a b)

unfoldable pub d_eq : Double → Double → Bool
d_eq a b = not (is_nan a) && not (is_nan b) && (a == b || magnitude a + magnitude b == 0)

-- CLAMP(x, low, high) is ((x > high) ? high : ((x < low) ? low : x)).
unfoldable pub clamp : Double → Double → Double → Double
unfolding d_lt
clamp x low high = if d_lt high x then high else if d_lt x low then low else x

-- What the program takes from the floating-point unit and from the standard library.
pub record Fpu : Type 0 where
  -- `os << d` of a string stream, with the default format of six significant digits
  pub print : Double → Bytes
  -- std::stod; `none` is an exception
  pub stod : Bytes → Option Double
  -- `ns / gdouble(GST_SECOND)` of a signed and of an unsigned 64-bit count of nanoseconds
  pub seconds : ℤ → Double
  pub seconds_u64 : ℕ → Double
  -- gint64(d * GST_SECOND)
  pub nanoseconds : Double → ℤ
  -- GstClockTime(d * GST_SECOND)
  pub nanoseconds_u64 : Double → ℕ
  pub sub : Double → Double → Double
  -- a / float(b), for the frame rate
  pub ratio : ℕ → ℕ → Double
