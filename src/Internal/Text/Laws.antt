-- ===== src/Internal/Text/Laws.antt =====
-- `explode` and `implode` undo one another, and how many pieces `explode` returns.
use nsvr.Prelude.{
  ℕ, ◌≡◌, ◌≢◌, refl, ap, ◌∙◌, List, [], ◌∷◌, ◌++◌, append_assoc, append-nil, arith, Bytes, All,
  Lacks, ◌==◌, if◌then◌else◌, Bool-cases, inl, inr,
}
use nsvr.Internal.Text.{copy_but_last, last_element, implode, explode_loop, explode}

-- The pieces by recursion on the text, with no vector and no pointers: what `explode` computes.
abbrev with_front : Bytes → List Bytes → List Bytes
with_front front [] = front ∷ []
with_front front (p ∷ ps) = (front ++ p) ∷ ps

pub pieces : ℕ → Bytes → List Bytes
pieces separator [] = [] ∷ []
pieces separator (c ∷ rest) =
    if c == separator
    then [] ∷ pieces separator rest
    else with_front (c ∷ []) (pieces separator rest)

pieces-ne-nil : (separator : ℕ) (s : Bytes) → pieces separator s ≢ []
unfolding pieces
pieces-ne-nil separator [] = cc
pieces-ne-nil separator (c ∷ rest) = ground (arith, pieces-ne-nil separator rest)

with_front-with_front :
    (a b : Bytes) (ps : List Bytes) → with_front a (with_front b ps) ≡ with_front (a ++ b) ps
with_front-with_front a b [] = refl
with_front-with_front a b (p ∷ ps) = rw append_assoc

with_front-nil : (ps : List Bytes) → ps ≢ [] → with_front [] ps ≡ ps
with_front-nil [] h = absurd (h refl)
with_front-nil (p ∷ ps) h = refl

explode_loop-pieces :
    (separator : ℕ) (s : Bytes) (ret : List Bytes) (piece : Bytes)
    → explode_loop separator s ret piece ≡ ret ++ with_front piece (pieces separator s)
unfolding explode_loop pieces
explode_loop-pieces separator [] ret piece = rw append-nil
explode_loop-pieces separator (c ∷ rest) ret piece = elim (Bool-cases (c == separator)) [
  | inl e ↦
      rw (e, explode_loop, append-nil)
        (explode_loop-pieces separator rest (ret ++ (piece ∷ [])) []
          ∙ rw (with_front-nil _ (pieces-ne-nil separator rest), append_assoc))
  | inr e ↦
      rw (e, explode_loop)
        (explode_loop-pieces separator rest ret (piece ++ (c ∷ [])) ∙ rw with_front-with_front)
]

pub explode-pieces : (s : Bytes) (separator : ℕ) → explode s separator ≡ pieces separator s
unfolding explode
explode-pieces s separator =
    explode_loop-pieces separator s [] [] ∙ with_front-nil _ (pieces-ne-nil separator s)

pub implode-cons :
    (e f : Bytes) (es : List Bytes) (glue : Bytes)
    → implode (e ∷ f ∷ es) glue ≡ e ++ (glue ++ implode (f ∷ es) glue)
unfolding implode copy_but_last last_element
implode-cons e f [] glue = rw (append-nil, append_assoc)
implode-cons e f (g ∷ es) glue = simp append_assoc

implode-with_front :
    (c : ℕ) (ps : List Bytes) (glue : Bytes)
    → ps ≢ []
    → implode (with_front (c ∷ []) ps) glue ≡ c ∷ implode ps glue
implode-with_front c [] glue h = absurd (h refl)
implode-with_front c (p ∷ []) glue h = unfold implode in refl
implode-with_front c (p ∷ q ∷ ps) glue h =
    rw (implode-cons (c ∷ p) q ps glue, implode-cons p q ps glue) refl

implode-nil-cons :
    (ps : List Bytes) (glue : Bytes) → ps ≢ [] → implode ([] ∷ ps) glue ≡ glue ++ implode ps glue
implode-nil-cons [] glue h = absurd (h refl)
implode-nil-cons (p ∷ ps) glue h = implode-cons [] p ps glue

implode-pieces : (separator : ℕ) (s : Bytes) → implode (pieces separator s) (separator ∷ []) ≡ s
unfolding pieces
implode-pieces separator [] = unfold implode in refl
implode-pieces separator (c ∷ rest) = ground (
  arith,
  implode-pieces separator rest,
  pieces-ne-nil separator rest,
  implode-nil-cons (pieces separator rest) (separator ∷ []),
  implode-with_front c (pieces separator rest) (separator ∷ []),
)

-- Gluing the pieces of any text with the separator gives the text back.
implode-explode : (s : Bytes) (separator : ℕ) → implode (explode s separator) (separator ∷ []) ≡ s
implode-explode s separator = rw explode-pieces (implode-pieces separator s)

pieces_of_Lacks : (separator : ℕ) (p : Bytes) → Lacks separator p → pieces separator p ≡ p ∷ []
unfolding pieces
pieces_of_Lacks separator [] h = refl
pieces_of_Lacks separator (c ∷ p) h = ground (arith, pieces_of_Lacks separator p h.1)

pieces_at_separator :
    (separator : ℕ) (p rest : Bytes)
    → Lacks separator p
    → pieces separator (p ++ (separator ∷ rest)) ≡ p ∷ pieces separator rest
unfolding pieces
pieces_at_separator separator [] rest h = ground arith
pieces_at_separator separator (c ∷ p) rest h =
    ground (arith, pieces_at_separator separator p rest h.1)

-- Splitting glued elements at the separator gives the elements back, if there is at least one and
-- none holds the separator.
pub explode-implode :
    (ps : List Bytes) (separator : ℕ)
    → ps ≢ []
    → All (Lacks separator) ps
    → explode (implode ps (separator ∷ [])) separator ≡ ps
explode-implode [] separator h l = absurd (h refl)
explode-implode (p ∷ []) separator h l =
    rw explode-pieces (unfold implode in pieces_of_Lacks separator p l.0)
explode-implode (p ∷ q ∷ ps) separator h l =
    rw (explode-pieces, implode-cons, pieces_at_separator separator p _ l.0)
      (rw (← explode-pieces) (ap (◌∷◌ p) (explode-implode (q ∷ ps) separator (λ e. cc) l.1)))
