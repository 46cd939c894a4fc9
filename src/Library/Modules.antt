-- ===== src/Library/Modules.antt =====
-- How far `listModules` reads its array of module handles.
use nsvr.Prelude.{
  ℕ, zero, suc, ◌+◌, ◌-◌, ◌*◌, ◌/◌, ◌%◌, ◌^◌, ◌≡◌, ◌∙◌, refl, Bool, true, false, some, ◌∷◌, arith,
  leb, List, [], ◌++◌, append_assoc, ap, sym,
}
use nsvr.Env.{
  Env, Call, Trace, undefined, read_beyond_modules, enum_process_modules, get_module_file_name,
  nsvr_log,
}
use nsvr.Env.Monad.{Sys}
use nsvr.Env.Count.{one_if, count}
use nsvr.Library.{modules_room, list_one, list_from, list_modules}

abbrev pub is_read_beyond : Call → Bool
is_read_beyond (undefined read_beyond_modules) = true
is_read_beyond _ = false

-- The indices of the modules whose names were asked for, the last one first.
abbrev pub names_asked : Trace → List ℕ
names_asked [] = []
names_asked (get_module_file_name i ∷ t) = i ∷ names_asked t
names_asked (_ ∷ t) = names_asked t

-- So many indices from `i` on, the last one first.
abbrev pub countdown : ℕ → ℕ → List ℕ
countdown i zero = []
countdown i (suc n) = (i + n) ∷ countdown i n

countdown-suc : (i n : ℕ) → countdown i (suc n) ≡ countdown (suc i) n ++ (i ∷ [])
countdown-suc i zero = ap (λ (k : ℕ). k ∷ []) (omega arith)
countdown-suc i (suc n) =
    let next : i + suc n ≡ suc i + n = omega arith in
    ap (λ (k : ℕ). k ∷ countdown i (suc n)) next
    ∙ ap (λ (l : List ℕ). (suc i + n) ∷ l) (countdown-suc i n)

module _ {A : Type 0} (env : Env) where
  list_one-lem :
      (i : ℕ) (s : Sys A)
      → let t = (list_one env i s).1 in
        (count is_read_beyond t.trace ≡ count is_read_beyond s.trace + one_if (leb modules_room i))
        × (names_asked t.trace ≡ i ∷ names_asked s.trace)
        × (t.self ≡ s.self)
  unfolding list_one
  list_one-lem i s = ground arith

  list_from-lem :
      (i n : ℕ) (s : Sys A)
      → let t = (list_from env i n s).1 in
        (count is_read_beyond t.trace
          ≡ count is_read_beyond s.trace + (i + n - modules_room - (i - modules_room)))
        × (names_asked t.trace ≡ countdown i n ++ names_asked s.trace)
        × (t.self ≡ s.self)
  unfolding list_from
  list_from-lem i zero s = (omega arith, refl, refl)
  list_from-lem i (suc n) s =
      let one = list_one-lem i s in
      let rest = list_from-lem (suc i) n (list_one env i s).1 in
      let before = names_asked s.trace in
      let names =
        rest.1
        ∙ ap (λ (l : List ℕ). countdown (suc i) n ++ l) one.1
        ∙ sym (append_assoc (countdown (suc i) n) (i ∷ []) before)
        ∙ ap (λ (l : List ℕ). l ++ before) (sym (countdown-suc i n)) in
      (ground (arith, one.0, rest.0), names, rest.2 ∙ one.2)

  -- On a Windows process whose module handles take a known number of bytes, listModules asks for
  -- the name of each module index once, in order from 0; it reads as many handles beyond its
  -- array as there are modules above 2056, and so none if there are at most that many.
  pub list_modules_reads :
      (s : Sys A) (size : ℕ)
      → env.modules_size (enum_process_modules (8 * modules_room) ∷ nsvr_log ∷ s.trace) ≡ some size
      → let modules = size % 2 ^ 32 / 8 in
        let t = (list_modules env s).1 in
        (names_asked t.trace ≡ countdown 0 modules ++ names_asked s.trace)
        × (count is_read_beyond t.trace ≡ count is_read_beyond s.trace + (modules - modules_room))
        × (t.self ≡ s.self)
  unfolding list_modules
  list_modules_reads s size e =
      let s1 : Sys A = record s {
        trace = enum_process_modules (8 * modules_room) ∷ nsvr_log ∷ s.trace;
      } in
      let all = list_from-lem 0 (size % 2 ^ 32 / 8) s1 in rw e (all.1, omega (arith, all.0), all.2)
