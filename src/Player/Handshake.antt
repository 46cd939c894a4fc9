-- ===== src/Player/Handshake.antt =====
-- `mBufferDirty` as a handshake between two threads: the streaming thread of GStreamer in
-- `processSample`, and the user's thread in the part of `update` that hands a frame over and in
-- `close`, of source/nsvr/nsvr_player.cpp. A step is one access to a shared field or one call on its
-- contents, and the steps of the two threads interleave in any order. `stop` ends when the streaming
-- thread is out of its callback and calls it no more; that is what a change to READY or below does.
pub mod Safety
pub mod View
pub mod Callbacks
pub mod Schedules
use nsvr.Prelude.{ℕ, suc, ◌≡◌, Bool, true, false, Option, none, some}
use nsvr.Env.{Handle}

-- The fields that both threads use; the buffer stands for its mapping too. The last three are not the
-- program's: whether the pipeline streams, and how many samples it handed out and was given back.
pub record Shared : Type 0 where
  pub sample : Option Handle
  pub buffer : Option Handle
  pub dirty : Bool
  pub streams : Bool
  pub handed_out : ℕ
  pub given_back : ℕ

-- Where the streaming thread stands.
pub data Streaming : Type 0 where
  waiting : Streaming
  -- a sample was pulled, before `if (mBufferDirty)`
  pulled : Handle → Streaming
  -- the flag was set: before the sample is unreferenced
  skipping : Handle → Streaming
  -- the flag was clear: before `mCurrentSample = sample`, and before the two lines behind it
  keeping : Handle → Streaming
  kept : Handle → Streaming
  mapped : Handle → Streaming

-- Where the user's thread stands.
pub data User : Type 0 where
  idle : User
  -- `mBufferDirty` was read as true: in `onVideoFrame`
  showing : User
  -- before gst_buffer_unmap, before gst_sample_unref, before each of the three assignments
  unmapping : User
  unreffing : User
  clearing_buffer : User
  clearing_sample : User
  signalling : User
  -- in `close` behind `stop`: before gst_buffer_unmap, before gst_sample_unref, before `reset`
  closing : User
  closing_sample : User
  resetting : User
  closed : User

pub record State : Type 0 where
  pub shared : Shared
  pub streaming : Streaming
  pub user : User

-- One step of a callback of the sink.
pub data Produce (m : Shared) : Streaming → Shared → Streaming → Type 0 where
  pull :
      (h : Handle)
      → m.streams ≡ true
      → Produce m waiting (record m { handed_out = suc m.handed_out }) (pulled h)
  see_dirty : {h : Handle} → m.dirty ≡ true → Produce m (pulled h) m (skipping h)
  see_clean : {h : Handle} → m.dirty ≡ false → Produce m (pulled h) m (keeping h)
  skip : {h : Handle} → Produce m (skipping h) (record m { given_back = suc m.given_back }) waiting
  store_sample : {h : Handle} → Produce m (keeping h) (record m { sample = some h }) (kept h)
  store_buffer :
      {h : Handle} (b : Option Handle) → Produce m (kept h) (record m { buffer = b }) (mapped h)
  raise_flag : {h : Handle} → Produce m (mapped h) (record m { dirty = true }) waiting

-- One step of the end of `update`, or of `close` behind `stop`, or `open` with a new pipeline.
pub data Consume (m : Shared) : User → Shared → User → Type 0 where
  nothing_new : m.dirty ≡ false → Consume m idle m idle
  found_frame : m.dirty ≡ true → Consume m idle m showing
  shown : Consume m showing m unmapping
  unmap : Consume m unmapping m unreffing
  unref :
      {h : Handle}
      → m.sample ≡ some h
      → Consume m unreffing (record m { given_back = suc m.given_back }) clearing_buffer
  unref_none : m.sample ≡ none → Consume m unreffing m clearing_buffer
  clear_buffer : Consume m clearing_buffer (record m { buffer = none }) clearing_sample
  clear_sample : Consume m clearing_sample (record m { sample = none }) signalling
  lower_flag : Consume m signalling (record m { dirty = false }) idle
  close_unmap : Consume m closing m closing_sample
  close_unref :
      {h : Handle}
      → m.sample ≡ some h
      → Consume m closing_sample (record m { given_back = suc m.given_back }) resetting
  close_unref_none : m.sample ≡ none → Consume m closing_sample m resetting
  reset : Consume m resetting (record m { sample = none; buffer = none; dirty = false }) closed
  reopen : Consume m closed (record m { streams = true }) idle

-- A schedule picks one thread for each step; `stop` waits for the streaming thread.
pub data Step (s : State) : State → Type 0 where
  produces :
      {m : Shared} {p : Streaming}
      → Produce s.shared s.streaming m p
      → Step s (record { shared = m; streaming = p; user = s.user })
  uses :
      {m : Shared} {q : User}
      → Consume s.shared s.user m q
      → Step s (record { shared = m; streaming = s.streaming; user = q })
  stops :
      s.user ≡ idle
      → s.streaming ≡ waiting
      → Step s (record {
        shared = record s.shared { streams = false };
        streaming = s.streaming;
        user = closing;
      })

abbrev pub initial : State
initial = record {
  shared = record {
    sample = none;
    buffer = none;
    dirty = false;
    streams = false;
    handed_out = 0;
    given_back = 0;
  };
  streaming = waiting;
  user = closed;
}

pub data Reach : State → Type 0 where
  start : Reach initial
  later : {s t : State} → Reach s → Step s t → Reach t
