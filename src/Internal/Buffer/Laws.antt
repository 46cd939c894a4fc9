-- ===== src/Internal/Buffer/Laws.antt =====
-- Which received bytes come through as they are, and which are read beyond the end of the buffer.
use nsvr.Prelude.{
  ℕ, zero, suc, ◌≤◌, ◌≡◌, refl, ap, false, [], ◌∷◌, Bytes, Lacks, length, take, arith, ltb,
  if◌then◌else◌,
}
use nsvr.Env.{undefined, unterminated_read}
use nsvr.Env.Monad.{Sys}
use nsvr.Internal.Buffer.{until_zero, has_zero, c_string}

take_all : (size : ℕ) (s : Bytes) → length s ≤ size → take size s ≡ s
take_all zero [] h = refl
take_all zero (c ∷ s) h = absurd (omega arith)
take_all (suc n) [] h = refl
take_all (suc n) (c ∷ s) h = ap (◌∷◌ c) (take_all n s (omega arith))

until_zero_of_Lacks : (s : Bytes) → Lacks 0 s → until_zero s ≡ s
unfolding until_zero
until_zero_of_Lacks [] h = refl
until_zero_of_Lacks (c ∷ s) h = ground (arith, until_zero_of_Lacks s h.1)

has_zero_of_Lacks : (s : Bytes) → Lacks 0 s → has_zero s ≡ false
unfolding has_zero
has_zero_of_Lacks [] h = refl
has_zero_of_Lacks (c ∷ s) h = ground (arith, has_zero_of_Lacks s h.1)

module _ {A : Type 0} (size : ℕ) (bytes : Bytes) (s : Sys A) where
  -- Bytes without a zero that do not fill the buffer come through unchanged; those that fill it are
  -- read beyond its end.
  pub c_string_of_Lacks :
      Lacks 0 bytes
      → length bytes ≤ size
      → c_string size bytes s ≡ (
          if ltb (length bytes) size
          then (bytes, s)
          else (bytes, record s { trace = undefined unterminated_read ∷ s.trace }))
  unfolding c_string
  c_string_of_Lacks h l =
      rw (take_all size bytes l)
        (ground (arith, until_zero_of_Lacks bytes h, has_zero_of_Lacks bytes h))
