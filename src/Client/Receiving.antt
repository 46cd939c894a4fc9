-- ===== src/Client/Receiving.antt =====
-- What `incomming` and `iterate` do with what the socket gives.
use nsvr.Prelude.{
  ℕ, ◌≤◌, ◌≡◌, refl, true, false, none, some, [], ◌∷◌, Bytes, Lacks, length, ltb, arith, ap, ◌∙◌,
  if◌then◌else◌,
}
use nsvr.Env.{
  Env, Handle, undefined, null_error_read, unterminated_read, nsvr_log, g_object_ref,
  g_object_unref, g_error_free, g_socket_receive, g_main_context_iteration,
}
use nsvr.Env.Monad.Loop.{loop_while_keeps}
use nsvr.Env.Monad.{loop_while, Sys, Part, ◌>>=◌}
use nsvr.Internal.Buffer.Laws.{c_string_of_Lacks}
use nsvr.Client.{Client, is_connected, incomming, has_event, run_event}

module _ {D : Type 0} (env : Env) (part : Part D Client) where
  -- A receive that gives no byte sets no error, and the log line reads the message of a null error.
  empty_receive_reads_null :
      (socket : Handle) (s : Sys D)
      → let t = g_socket_receive socket ∷ g_object_ref socket ∷ s.trace in
        env.receive t ≡ some []
        → (incomming env part socket s).1.trace
          ≡ g_object_unref socket ∷ g_error_free false ∷ nsvr_log ∷ undefined null_error_read ∷ t
  unfolding incomming
  empty_receive_reads_null socket s e = ground arith

  -- A receive of one to 1024 bytes without a zero byte by a connected client is handed to
  -- onMessage as it came; if it fills the 1024-byte buffer the buffer has no end mark, and the
  -- message is read beyond it.
  pub incomming_delivers :
      (socket b : ℕ) (bytes : Bytes) (s : Sys D)
      → ((d : D) → part.put (part.get d) d ≡ d)
      → (part.get s.self).connected ≡ true
      → let t = g_socket_receive socket ∷ g_object_ref socket ∷ s.trace in
        env.receive t ≡ some (b ∷ bytes)
        → Lacks 0 (b ∷ bytes)
        → length (b ∷ bytes) ≤ 1024
        → let marked =
            if ltb (length (b ∷ bytes)) 1024 then t else undefined unterminated_read ∷ t in
          let w = (part.on_message (b ∷ bytes) (record s { trace = marked })).1 in
          (incomming env part socket s).1
          ≡ record w { trace = g_object_unref socket ∷ g_error_free false ∷ w.trace }
  unfolding incomming is_connected
  incomming_delivers socket b bytes s lens on e h l =
      let u = record s { trace = g_socket_receive socket ∷ g_object_ref socket ∷ s.trace } in
      rw (e, lens s.self, on, ◌>>=◌, c_string_of_Lacks 1024 (b ∷ bytes) u h l) (ground arith)

  event_without_context :
      (s : Sys D)
      → (part.get s.self).context ≡ none
      → (run_event env part s).1 ≡ record s { trace = g_main_context_iteration none ∷ s.trace }
  unfolding run_event
  event_without_context s e = ground arith

  -- Once the client has let go of its context, what is left of the loop of `iterate` leaves the object
  -- as it is: it hands on no message.
  loop_without_context :
      (n : ℕ) (s : Sys D)
      → (part.get s.self).context ≡ none
      → (loop_while n (has_event env part) (run_event env part) s).1.self ≡ s.self
  loop_without_context n s e =
      loop_while_keeps (has_event env part) (run_event env part) (λ w. w.self ≡ s.self)
        (λ w h. unfold has_event in h)
        (λ w h.
          ap (λ (t : Sys D). t.self)
            (event_without_context w (ap (λ (d : D). (part.get d).context) h ∙ e))
          ∙ h)
        (λ w h. h) n s refl
