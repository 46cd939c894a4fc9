-- ===== src/Player/Handshake/Safety.antt =====
-- The two threads never work on the frame together, and no sample is lost or given back twice.
use nsvr.Prelude.{ℕ, ◌+◌, ◌≡◌, Bool, true, false, Option, arith, ◌&&◌, ◌||◌, not, is_some}
use nsvr.Env.{Handle}
use nsvr.Env.Count.{one_if}
use nsvr.Player.Handshake.{
  Shared, Streaming, waiting, pulled, skipping, keeping, kept, mapped, User, showing, unmapping,
  unreffing, clearing_buffer, clearing_sample, signalling, closing, closing_sample, resetting,
  closed, State, Produce, pull, see_dirty, see_clean, skip, store_sample, store_buffer, raise_flag,
  Consume, nothing_new, found_frame, shown, unmap, unref, unref_none, clear_buffer, clear_sample,
  lower_flag, close_unmap, close_unref, close_unref_none, reset, reopen, Step, produces, uses,
  stops, Reach, start, later,
}

-- Between its test of the flag and the flag it raises, the streaming thread writes the frame.
abbrev pub writes_frame : Streaming → Bool
writes_frame (keeping _) = true
writes_frame (kept _) = true
writes_frame (mapped _) = true
writes_frame _ = false

-- From the test of the flag to the flag it lowers, `update` reads and clears the frame.
abbrev pub shows_frame : User → Bool
shows_frame showing = true
shows_frame unmapping = true
shows_frame unreffing = true
shows_frame clearing_buffer = true
shows_frame clearing_sample = true
shows_frame signalling = true
shows_frame _ = false

-- `close` behind `stop`, and behind it until `open`.
abbrev pub closes_frame : User → Bool
closes_frame closing = true
closes_frame closing_sample = true
closes_frame resetting = true
closes_frame closed = true
closes_frame _ = false

abbrev pub is_waiting : Streaming → Bool
is_waiting waiting = true
is_waiting _ = false

abbrev pub is_closed : User → Bool
is_closed closed = true
is_closed _ = false

-- Whether a sample is stored, by where the threads stand and by the flag.
abbrev pub sample_is_there : Streaming → User → Bool → Bool
sample_is_there (kept _) q d = true
sample_is_there (mapped _) q d = true
sample_is_there p signalling d = false
sample_is_there p q d = d

-- The samples that the streaming thread has in hand and not in the shared fields.
abbrev pub in_hand : Streaming → ℕ
in_hand (pulled _) = 1
in_hand (skipping _) = 1
in_hand (keeping _) = 1
in_hand _ = 0

-- Whether the user's thread has given the stored sample back already.
abbrev pub is_given_back : User → Bool
is_given_back clearing_buffer = true
is_given_back clearing_sample = true
is_given_back resetting = true
is_given_back _ = false

-- The samples in the shared fields that are not given back.
abbrev pub stored : User → Option Handle → ℕ
stored q sample = one_if (is_some sample && not (is_given_back q))

pub record Inv (s : State) : Type 0 where
  pub writer_clean : writes_frame s.streaming ≡ true → s.shared.dirty ≡ false
  pub user_dirty : shows_frame s.user ≡ true → s.shared.dirty ≡ true
  pub at_rest : closes_frame s.user ≡ true → is_waiting s.streaming ≡ true
  pub no_stream : closes_frame s.user ≡ true → s.shared.streams ≡ false
  pub cleared : is_closed s.user ≡ true → s.shared.dirty ≡ false
  pub sample : is_some s.shared.sample ≡ sample_is_there s.streaming s.user s.shared.dirty
  pub balance :
      s.shared.handed_out
      ≡ s.shared.given_back + in_hand s.streaming + stored s.user s.shared.sample

Produce-Inv :
    {m m' : Shared} {p p' : Streaming} {q : User}
    → Produce m p m' p'
    → Inv (record { shared = m; streaming = p; user = q })
    → Inv (record { shared = m'; streaming = p'; user = q })
Produce-Inv (pull h e) v = ground arith
Produce-Inv (see_dirty e) v = ground arith
Produce-Inv (see_clean e) v = ground arith
Produce-Inv skip v = ground arith
Produce-Inv store_sample v = ground arith
Produce-Inv (store_buffer b) v = ground arith
Produce-Inv raise_flag v = ground arith

Consume-Inv :
    {m m' : Shared} {p : Streaming} {q q' : User}
    → Consume m q m' q'
    → Inv (record { shared = m; streaming = p; user = q })
    → Inv (record { shared = m'; streaming = p; user = q' })
Consume-Inv (nothing_new e) v = ground arith
Consume-Inv (found_frame e) v = ground arith
Consume-Inv shown v = ground arith
Consume-Inv unmap v = ground arith
Consume-Inv (unref e) v = ground arith
Consume-Inv (unref_none e) v = ground arith
Consume-Inv clear_buffer v = ground arith
Consume-Inv clear_sample v = ground arith
Consume-Inv lower_flag v = ground arith
Consume-Inv close_unmap v = ground arith
Consume-Inv (close_unref e) v = ground arith
Consume-Inv (close_unref_none e) v = ground arith
Consume-Inv reset v = ground arith
Consume-Inv reopen v = ground arith

Step-Inv : {s t : State} → Step s t → Inv s → Inv t
Step-Inv (produces e) v = Produce-Inv e v
Step-Inv (uses e) v = Consume-Inv e v
Step-Inv (stops idles waits) v = ground arith

Reach-Inv : {s : State} → Reach s → Inv s
Reach-Inv start = ground arith
Reach-Inv (later r e) = Step-Inv e (Reach-Inv r)

-- In every state that an interleaving of the streaming thread and the user's thread reaches from
-- the start, the streaming thread is not writing the shared frame while the user's thread shows
-- it or closes the player, or while the player is closed.
pub frame_exclusive :
    {s : State}
    → Reach s
    → (writes_frame s.streaming && (shows_frame s.user || closes_frame s.user)) ≡ false
frame_exclusive {s} r =
    let v = Reach-Inv r in ground (arith, v.writer_clean, v.user_dirty, v.at_rest)

pub samples_accounted :
    {s : State}
    → Reach s
    → (s.shared.handed_out
        ≡ s.shared.given_back + in_hand s.streaming + stored s.user s.shared.sample)
      × (is_some s.shared.sample ≡ sample_is_there s.streaming s.user s.shared.dirty)
samples_accounted r = let v = Reach-Inv r in (v.balance, v.sample)

-- In every interleaving, whenever close is through, the samples that were given back are as many
-- as the sink handed out.
pub closed_leaks_nothing :
    {s : State} → Reach s → s.user ≡ closed → s.shared.given_back ≡ s.shared.handed_out
closed_leaks_nothing {s} r e =
    let v = Reach-Inv r in ground (arith, v.at_rest, v.cleared, v.sample, v.balance)
