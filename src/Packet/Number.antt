-- ===== src/Packet/Number.antt =====
-- What `PacketHandler` uses of the standard library for integers: std::stoi, std::stoull and the
-- decimal output of a string stream, on bytes.
pub mod Laws
use nsvr.Prelude.{
  ℕ, zero, suc, ◌+◌, ◌-◌, ◌*◌, ◌/◌, ◌%◌, ◌^◌, Bool, true, false, ◌&&◌, ◌||◌, Option, none, some, [],
  ◌∷◌, Bytes, ltb, leb, ◌==◌, if◌then◌else◌,
}
use nsvr.Prelude.Int.{ℤ, pos, negsuc}

abbrev pub is_digit : ℕ → Bool
is_digit c = leb b'0' c && leb c b'9'

-- isspace, in the C locale
abbrev pub is_space : ℕ → Bool
is_space c = c == 0x20 || leb 9 c && leb c 13

pub skip_space : Bytes → Bytes
skip_space [] = []
skip_space (c ∷ s) = if is_space c then skip_space s else c ∷ s

-- The number that the digits at the front spell behind `n`, with no bound.
pub digits_value : ℕ → Bytes → ℕ
digits_value n [] = n
digits_value n (c ∷ s) =
    let rest = digits_value (n * 10 + (c - b'0')) s in if is_digit c then rest else n

-- `none` where there is no digit, which is std::invalid_argument
unfoldable pub magnitude : Bytes → Option ℕ
unfolding digits_value
magnitude [] = none
magnitude (c ∷ s) = if is_digit c then some (digits_value 0 (c ∷ s)) else none

-- An optional sign, and the magnitude; the flag is true of a minus.
unfoldable pub signed_magnitude : Bytes → Bool × Option ℕ
unfolding magnitude
signed_magnitude [] = (false, none)
signed_magnitude (c ∷ s) =
    if c == b'-'
    then (true, magnitude s)
    else if c == b'+'
    then (false, magnitude s)
    else (false, magnitude (c ∷ s))

-- A value out of the range of `int` is std::out_of_range.
in_int_range : Bool → ℕ → Option ℤ
in_int_range true zero = some (pos 0)
in_int_range true (suc n) = if ltb n (2 ^ 31) then some (negsuc n) else none
in_int_range false n = if ltb n (2 ^ 31) then some (pos n) else none

-- strtoull negates modulo 2 ^ 64.
in_u64_range : Bool → ℕ → Option ℕ
in_u64_range negative n =
    if ltb n (2 ^ 64) then some (if negative then (2 ^ 64 - n) % 2 ^ 64 else n) else none

abbrev bind_option {ℓ κ} : {A : Type ℓ} {B : Type κ} → Option A → (A → Option B) → Option B
bind_option none f = none
bind_option (some a) f = f a

unfoldable pub stoi : Bytes → Option ℤ
unfolding skip_space signed_magnitude in_int_range
stoi s =
    let (negative, n) = signed_magnitude (skip_space s) in bind_option n (in_int_range negative)

unfoldable pub stoull : Bytes → Option ℕ
unfolding skip_space signed_magnitude in_u64_range
stoull s =
    let (negative, n) = signed_magnitude (skip_space s) in bind_option n (in_u64_range negative)

-- The digits of `n` before `out`. A number above zero falls at each division by ten, so a fuel above
-- `n` is enough.
pub show_loop : ℕ → ℕ → Bytes → Bytes
show_loop zero n out = out
show_loop (suc fuel) n out = elim (ltb n 10) [
  | true ↦ (b'0' + n) ∷ out
  | false ↦ show_loop fuel (n / 10) ((b'0' + n % 10) ∷ out)
]

unfoldable pub show_ℕ : ℕ → Bytes
unfolding show_loop
show_ℕ n = show_loop (suc n) n []

unfoldable pub show_ℤ : ℤ → Bytes
unfolding show_ℕ
show_ℤ (pos n) = show_ℕ n
show_ℤ (negsuc n) = b'-' ∷ show_ℕ (suc n)
