-- ===== src/Packet/Number/Laws.antt =====
-- Reading back what was printed: integers survive the text form exactly.
use nsvr.Prelude.{
  ℕ, zero, suc, ◌+◌, ◌/◌, ◌%◌, ◌^◌, ◌<◌, ◌≡◌, refl, Bool, true, false, some, [], ◌∷◌, arith, Bytes,
  Lacks, ltb, Bool-cases, inl, inr,
}
use nsvr.Prelude.Int.{ℤ, pos, negsuc}
use nsvr.Packet.Number.{
  is_digit, skip_space, digits_value, magnitude, signed_magnitude, in_int_range, in_u64_range, stoi,
  stoull, show_loop, show_ℕ, show_ℤ,
}

-- A text that begins with a digit.
abbrev pub starts_with_digit : Bytes → Bool
starts_with_digit [] = false
starts_with_digit (c ∷ _) = is_digit c

show_loop-digits :
    (fuel n : ℕ) (out : Bytes)
    → n < fuel
    → digits_value 0 (show_loop fuel n out) ≡ digits_value n out
unfolding show_loop digits_value
show_loop-digits zero n out h = elim h [ ]
show_loop-digits (suc fuel) n out h =
    ground (arith, show_loop-digits fuel (n / 10) ((b'0' + n % 10) ∷ out))

show_loop-starts :
    (fuel n : ℕ) (out : Bytes) → n < fuel → starts_with_digit (show_loop fuel n out) ≡ true
unfolding show_loop
show_loop-starts zero n out h = elim h [ ]
show_loop-starts (suc fuel) n out h =
    ground (arith, show_loop-starts fuel (n / 10) ((b'0' + n % 10) ∷ out))

show_loop-Lacks :
    (fuel n : ℕ) (out : Bytes) → n < fuel → Lacks b'|' out → Lacks b'|' (show_loop fuel n out)
unfolding show_loop
show_loop-Lacks zero n out h l = elim h [ ]
show_loop-Lacks (suc fuel) n out h l = elim (Bool-cases (ltb n 10)) [
  | inl e ↦ rw (e, show_loop) (ground arith, l)
  | inr e ↦
      rw (e, show_loop)
        (show_loop-Lacks fuel (n / 10) ((b'0' + n % 10) ∷ out) (ground arith) (ground arith, l))
]

magnitude_of_digit :
    (s : Bytes) → starts_with_digit s ≡ true → magnitude s ≡ some (digits_value 0 s)
unfolding magnitude
magnitude_of_digit [] h = cc
magnitude_of_digit (c ∷ s) h = rw h

skip_space_of_digit : (s : Bytes) → starts_with_digit s ≡ true → skip_space s ≡ s
unfolding skip_space
skip_space_of_digit [] h = cc
skip_space_of_digit (c ∷ s) h = ground arith

signed_of_digit :
    (s : Bytes) → starts_with_digit s ≡ true → signed_magnitude s ≡ (false, magnitude s)
unfolding signed_magnitude
signed_of_digit [] h = cc
signed_of_digit (c ∷ s) h = ground arith

pub show_ℕ-starts : (n : ℕ) → starts_with_digit (show_ℕ n) ≡ true
unfolding show_ℕ
show_ℕ-starts n = show_loop-starts (suc n) n [] (omega arith)

pub show_ℕ-Lacks : (n : ℕ) → Lacks b'|' (show_ℕ n)
unfolding show_ℕ
show_ℕ-Lacks n = show_loop-Lacks (suc n) n [] (omega arith) tt

magnitude-show_ℕ : (n : ℕ) → magnitude (show_ℕ n) ≡ some n
magnitude-show_ℕ n = rw (magnitude_of_digit _ (show_ℕ-starts n)) (unfold show_ℕ in value)
  where
    value : some (digits_value 0 (show_loop (suc n) n [])) ≡ some n
    value = rw (show_loop-digits (suc n) n [] (omega arith)) (unfold digits_value in refl)

-- std::stoull reads every 64-bit number back from its decimal print.
pub stoull-show_ℕ : (n : ℕ) → n < 2 ^ 64 → stoull (show_ℕ n) ≡ some n
stoull-show_ℕ n h =
    unfold stoull in
    rw
      (
        skip_space_of_digit _ (show_ℕ-starts n),
        signed_of_digit _ (show_ℕ-starts n),
        magnitude-show_ℕ n,
      )
      (unfold in_u64_range in ground arith)

-- The values of an `int`.
abbrev pub IsInt : ℤ → Type 0
IsInt (pos n) = n < 2 ^ 31
IsInt (negsuc n) = n < 2 ^ 31

-- std::stoi reads every `int` back from its decimal print.
pub stoi-show_ℤ : (z : ℤ) → IsInt z → stoi (show_ℤ z) ≡ some z
stoi-show_ℤ (pos n) h =
    unfold stoi show_ℤ in
    rw
      (
        skip_space_of_digit _ (show_ℕ-starts n),
        signed_of_digit _ (show_ℕ-starts n),
        magnitude-show_ℕ n,
      )
      (unfold in_int_range in ground arith)
stoi-show_ℤ (negsuc n) h =
    unfold stoi show_ℤ skip_space signed_magnitude in
    rw (magnitude-show_ℕ (suc n)) (unfold in_int_range in ground arith)

pub show_ℤ-Lacks : (z : ℤ) → Lacks b'|' (show_ℤ z)
unfolding show_ℤ
show_ℤ-Lacks (pos n) = show_ℕ-Lacks n
show_ℤ-Lacks (negsuc n) = (ground arith, show_ℕ-Lacks (suc n))
