-- ===== src/Internal/Text.antt =====
-- `implode` and `explode` of source/nsvr/nsvr_internal.cpp, over bytes.
pub mod Laws
use nsvr.Prelude.{ℕ, true, false, List, [], ◌∷◌, ◌++◌, Bytes, ◌==◌, if◌then◌else◌}

-- std::copy of all elements but the last, each followed by the glue
copy_but_last : List Bytes → Bytes → Bytes
copy_but_last [] glue = []
copy_but_last (e ∷ []) glue = []
copy_but_last (e ∷ f ∷ es) glue = e ++ (glue ++ copy_but_last (f ∷ es) glue)

-- *elements.rbegin(), of a vector that is not empty
last_element : List Bytes → Bytes
last_element [] = []
last_element (e ∷ []) = e
last_element (e ∷ f ∷ es) = last_element (f ∷ es)

unfoldable pub implode : List Bytes → Bytes → Bytes
unfolding copy_but_last last_element
implode [] glue = []
implode (e ∷ []) glue = e
implode (e ∷ f ∷ es) glue = copy_but_last (e ∷ f ∷ es) glue ++ last_element (e ∷ f ∷ es)

-- The loop of `explode`: the bytes from `cur` on, the vector so far, and the bytes from `beg` to `cur`.
explode_loop : ℕ → Bytes → List Bytes → Bytes → List Bytes
explode_loop separator [] ret piece = ret ++ (piece ∷ [])
explode_loop separator (c ∷ rest) ret piece = elim (c == separator) [
  | true ↦ explode_loop separator rest (ret ++ (piece ∷ [])) []
  | false ↦ explode_loop separator rest ret (piece ++ (c ∷ []))
]

unfoldable pub explode : Bytes → ℕ → List Bytes
unfolding explode_loop
explode input separator = explode_loop separator input [] []
