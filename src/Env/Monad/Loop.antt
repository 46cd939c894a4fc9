-- ===== src/Env/Monad/Loop.antt =====
-- The rules of `loop_while`: what each round keeps the loop keeps, and a loop with a measure that each
-- round lowers ends by its test.
use nsvr.Prelude.{ℕ, zero, suc, ◌<◌, ◌≡◌, refl, Bool, true, false, ◌∷◌, Bool-cases, inl, inr, arith}
use nsvr.Env.{undefined, out_of_rounds}
use nsvr.Env.Monad.{Sys, M, loop_while}

module _ {A : Type 0} (test : M A Bool) (body : M A (Unit {0})) where
  pub loop_while_keeps :
      (P : Sys A → Type 0)
      → ((s : Sys A) → P s → P (test s).1)
      → ((s : Sys A) → P s → P (body s).1)
      → ((s : Sys A) → P s → P (record s { trace = undefined out_of_rounds ∷ s.trace }))
      → (n : ℕ) (s : Sys A) → P s
      → P (loop_while n test body s).1
  unfolding loop_while
  loop_while_keeps P by_test by_body by_mark zero s p = by_mark s p
  loop_while_keeps P by_test by_body by_mark (suc n) s p =
      let t = (test s).1 in
      elim (Bool-cases (test s).0) [
        | inl again ↦
            rw (again, loop_while)
              (loop_while_keeps P by_test by_body by_mark n (body t).1 (by_body t (by_test s p)))
        | inr over ↦ rw (over, loop_while) (by_test s p)
      ]

  pub loop_while_ends :
      (measure : Sys A → ℕ)
      → ((s : Sys A) → (test s).0 ≡ true → measure (body (test s).1).1 < measure s)
      → (n : ℕ) (s : Sys A) → measure s < n
      → (w : Sys A) × ((test w).0 ≡ false) × (loop_while n test body s ≡ (tt, (test w).1))
  unfolding loop_while
  loop_while_ends measure lowers zero s enough = elim enough [ ]
  loop_while_ends measure lowers (suc n) s enough =
      let t = (test s).1 in
      elim (Bool-cases (test s).0) [
        | inl again ↦
            let (w, over, run) =
              loop_while_ends measure lowers n (body t).1 (omega (arith, lowers s again)) in
            (w, over, rw (again, loop_while) run)
        | inr over ↦ (s, over, rw (over, loop_while) refl)
      ]

  pub loop_while_stops :
      (n : ℕ) (s : Sys A) → 0 < n → (test s).0 ≡ false → loop_while n test body s ≡ (tt, (test s).1)
  unfolding loop_while
  loop_while_stops zero s some_left over = absurd (omega arith)
  loop_while_stops (suc n) s some_left over = rw (over, loop_while) refl

  pub loop_while_once :
      (n : ℕ) (s : Sys A)
      → 1 < n
      → (test s).0 ≡ true
      → let t = (body (test s).1).1 in
        (test t).0 ≡ false → loop_while n test body s ≡ (tt, (test t).1)
  unfolding loop_while
  loop_while_once zero s some_left again over = absurd (omega arith)
  loop_while_once (suc n) s some_left again over =
      rw (again, loop_while) (loop_while_stops n (body (test s).1).1 (omega arith) over)
