-- ===== src/Double/Order.antt =====
-- Facts on the comparisons that the components' proofs use.
use nsvr.Prelude.{◌≡◌, refl, true, false, arith}
use nsvr.Double.{Double, d_zero, d_minus_one, is_nan, d_lt, d_ge, clamp}

pub d_ge_not_lt :
    (a b : Double) → is_nan a ≡ false → is_nan b ≡ false → d_lt a b ≡ false → d_ge a b ≡ true
unfolding d_lt d_ge
d_ge_not_lt a b ha hb h = ground arith

pub clamp-ge :
    (x low high : Double)
    → is_nan x ≡ false
    → is_nan low ≡ false
    → d_ge high low ≡ true
    → d_ge (clamp x low high) low ≡ true
unfolding clamp d_ge
clamp-ge x low high hx hl h = ground arith

pub clamp-le :
    (x low high : Double)
    → is_nan x ≡ false
    → is_nan high ≡ false
    → d_ge high low ≡ true
    → d_ge high (clamp x low high) ≡ true
unfolding clamp d_ge
clamp-le x low high hx hl h = ground arith

pub clamp_nan : (x low high : Double) → is_nan x ≡ true → clamp x low high ≡ x
unfolding clamp
clamp_nan x low high h = ground arith

pub lt_not_ge : (a b : Double) → d_lt a b ≡ true → d_ge a b ≡ false
unfolding d_lt d_ge
lt_not_ge a b h = ground arith

-- -1. stands for no pending seek.
pub minus_one_not_ge : d_ge d_minus_one d_zero ≡ false
unfolding d_ge
minus_one_not_ge = refl
