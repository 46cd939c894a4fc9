-- ===== src/Env/Monad.antt =====
-- Methods of the program's objects: the object, the process's one static variable and the trace are
-- passed along.
pub mod Loop
use nsvr.Prelude.{ℕ, zero, suc, Bool, true, false, Option, none, some, ◌∷◌, Bytes}
use nsvr.Double.{Double}
use nsvr.Env.{Call, Trace, nsvr_log, undefined, null_error_read, out_of_rounds}

pub record Sys (A : Type 0) : Type 0 where
  pub self : A
  -- `static gdouble saved_volume` of Player::setMute, one for all players
  pub saved_volume : Double
  pub trace : Trace

abbrev pub M : Type 0 → Type 0 → Type 0
M A B = Sys A → B × Sys A

module _ {A : Type 0} where
  abbrev pub pure : {B : Type 0} → B → M A B
  pure b s = (b, s)

  infixl 5 ◌>>=◌ ◌>>◌
  abbrev pub ◌>>=◌ : {B C : Type 0} → M A B → (B → M A C) → M A C
  ◌>>=◌ m f s = let (b, s') = m s in f b s'

  abbrev pub ◌>>◌ : {C : Type 0} → M A (Unit {0}) → M A C → M A C
  m >> n = m >>= λ _. n

  abbrev pub done : M A (Unit {0})
  done = pure tt

  abbrev pub gets : {B : Type 0} → (A → B) → M A B
  gets f s = (f s.self, s)

  abbrev pub modify : (A → A) → M A (Unit {0})
  modify f s = (tt, record s { self = f s.self })

  abbrev pub when : Bool → M A (Unit {0}) → M A (Unit {0})
  when true m = m
  when false m = done

  abbrev pub saved : M A Double
  saved s = (s.saved_volume, s)

  abbrev pub save : Double → M A (Unit {0})
  save v s = (tt, record s { saved_volume = v })

  -- A call, and one whose answer is used.
  abbrev pub call : Call → M A (Unit {0})
  call c s = (tt, record s { trace = c ∷ s.trace })

  abbrev pub ask : {B : Type 0} → (Trace → B) → Call → M A B
  ask f c s = let t = c ∷ s.trace in (f t, record s { trace = t })

  -- A further answer of the last call, such as its GError.
  abbrev pub also : {B : Type 0} → (Trace → B) → M A B
  also f s = (f s.trace, s)

  abbrev pub log : M A (Unit {0})
  log = call nsvr_log

  -- A log line that reads `errors->message`.
  abbrev pub log_error : Bool → M A (Unit {0})
  log_error true = log
  log_error false = call (undefined null_error_read) >> log

  abbrev pub for_some : {B : Type 0} → Option B → (B → M A (Unit {0})) → M A (Unit {0})
  for_some none f = done
  for_some (some b) f = f b

-- `while (test()) body();`, followed for so many rounds; a loop that goes on is given up with a mark.
unfoldable pub loop_while : {A : Type 0} → ℕ → M A Bool → M A (Unit {0}) → M A (Unit {0})
loop_while zero test body s = call (undefined out_of_rounds) s
loop_while (suc n) test body s =
    let (again, t) = test s in
    elim again [ true ↦ loop_while n test body (body t).1 | false ↦ (tt, t) ]

-- A method of a base class or a member, run on the part of the object that it belongs to.
abbrev pub within : {A B R : Type 0} → (A → B) → (B → A → A) → M B R → M A R
within get put m s =
    let (r, t) = m (record { self = get s.self; saved_volume = s.saved_volume; trace = s.trace }) in
    (r, record { self = put t.self s.self; saved_volume = t.saved_volume; trace = t.trace })

-- An object of class `C` inside an object of a class derived from it, with the override of the
-- virtual `onMessage`.
pub record Part (D C : Type 0) : Type 0 where
  pub get : D → C
  pub put : C → D → D
  pub on_message : Bytes → M D (Unit {0})

abbrev pub in_part : {D C R : Type 0} → Part D C → M C R → M D R
in_part part = within part.get part.put
