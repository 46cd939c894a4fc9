-- ===== src/Server/Lifetime.antt =====
-- Once a client is known it keeps its endpoint for the life of the server.
use nsvr.Prelude.{
  ◌≡◌, refl, ap, sym, subst, ◌∙◌, Option, none, some, List, [], ◌∷◌, Bytes, arith, Bool-cases,
  Option-cases, inl, inr,
}
use nsvr.Env.{Env, Handle, g_io_stream_get_input_stream, g_input_stream_read}
use nsvr.Env.Monad.{Sys}
use nsvr.Internal.System.{get_ip}
use nsvr.Internal.Buffer.{c_string}
use nsvr.Server.Endpoint.{UdpEndpoint, Endpoints, bytes_eq, find}
use nsvr.Server.{Server, shutdown, remember, broadcast_to_clients, incoming}
use nsvr.Server.Listening.{listen_lem}
use nsvr.Env.Count.{push_some}
use mathlib.Core.List.{Mem, mem-cons_self, mem-cons_of_mem}
use nsvr.Server.Delivery.{
  ends, sends_of, ready_then, broadcast_reaches, find-remember, remember_known, bytes_eq_sound,
}
use nsvr.Server.Order.{IsDistinct, remember-IsDistinct}
use nsvr.Server.Runs.{own_part, Event, comes, broadcasts, listens, stops, happens, happen}
use nsvr.Server.Sending.{self-broadcast}

module _ (env : Env) (ip : Bytes) (e : UdpEndpoint) where
  -- The client is known, and no address twice.
  record Knows (s : Sys Server) : Type 0 where
    pub known : find ip s.self.endpoints ≡ some e
    pub distinct : IsDistinct s.self.endpoints

  remember-Knows : (j : Bytes) {s : Sys Server} → Knows s → Knows (remember env j s).1
  remember-Knows j {s} k = record {
    known = elim (Bool-cases (bytes_eq j ip)) [
      | inl same ↦
          subst (λ (x : Bytes). find ip (remember env x s).1.self.endpoints ≡ some e)
            (sym (bytes_eq_sound j ip same)) (rw (remember_known env ip s k.known) k.known)
      | inr other ↦ (find-remember env j ip s).1 ∙ rw other k.known
    ];
    distinct = remember-IsDistinct env j s k.distinct;
  }

  -- What leaves the endpoints alone.
  same-Knows : {s t : Sys Server} → t.self.endpoints ≡ s.self.endpoints → Knows s → Knows t
  same-Knows same k = record { known = rw same k.known; distinct = rw same k.distinct }

  self-get_ip : (s : Sys Server) → (get_ip env s).1.self ≡ s.self
  unfolding get_ip
  self-get_ip s = ground arith

  self-c_string : (bytes : Bytes) (s : Sys Server) → (c_string 16 bytes s).1.self ≡ s.self
  unfolding c_string
  self-c_string bytes s = ground arith

  incoming-Knows : (s : Sys Server) → Knows s → Knows (incoming env own_part s).1
  unfolding incoming
  incoming-Knows s k =
      let s1 : Sys Server = record s {
        trace = g_input_stream_read ∷ g_io_stream_get_input_stream ∷ s.trace;
      } in
      let (from, s2) = get_ip env s1 in
      let s3 = (remember env from s2).1 in
      let still : Knows s2 = same-Knows (rw (self-get_ip s1) refl) k in
      let k3 = remember-Knows from still in
      elim (Bool-cases (env.input_stream (g_io_stream_get_input_stream ∷ s.trace))) [
        | inr closed ↦ rw closed (same-Knows refl k)
        | inl opened ↦ elim (Option-cases (env.stream_read s1.trace)) [
          | inl failed ↦ rw (opened, failed) (same-Knows refl k)
          | inr (bytes, read) ↦ rw (opened, read) (same-Knows (rw (self-c_string bytes s3) refl) k3)
        ]
      ]

  shutdown_keeps : (s : Sys Server) → (shutdown env s).1.self.endpoints ≡ s.self.endpoints
  unfolding shutdown
  shutdown_keeps s = ground arith

  happens-Knows : (v : Event) (s : Sys Server) → Knows s → Knows (happens env v s)
  unfolding happens
  happens-Knows comes s k = incoming-Knows s k
  happens-Knows (broadcasts m) s k =
      same-Knows (ap (λ (v : Server). v.endpoints) (self-broadcast env m s)) k
  happens-Knows (listens address port) s k = same-Knows (listen_lem env address port s).2 k
  happens-Knows stops s k = same-Knows (shutdown_keeps s) k

  happen-Knows : (es : List Event) (s : Sys Server) → Knows s → Knows (happen env es s)
  unfolding happen
  happen-Knows [] s k = k
  happen-Knows (v ∷ es) s k = happen-Knows es (happens env v s) (happens-Knows v s k)

abbrev Destination : Type 0
Destination = Handle × Handle

push_some-mem :
    (o : Option Destination) {d : Destination} {l : List Destination}
    → Mem d l
    → Mem d (push_some o l)
push_some-mem none m = m
push_some-mem (some a) m = mem-cons_of_mem a m

ready_then-mem :
    (es : Endpoints) {d : Destination} {l : List Destination} → Mem d l → Mem d (ready_then es l)
ready_then-mem [] m = m
ready_then-mem ((_, e) ∷ es) m = ready_then-mem es (push_some-mem (ends e) m)

-- The endpoint that is found is among those that a broadcast sends to.
find-mem :
    (ip : Bytes) (es : Endpoints) (e : UdpEndpoint) (d : Destination) (l : List Destination)
    → find ip es ≡ some e
    → ends e ≡ some d
    → Mem d (ready_then es l)
unfolding find
find-mem ip [] e d l found ready = cc
find-mem ip ((j, e') ∷ es) e d l found ready = elim (Bool-cases (bytes_eq j ip)) [
  | inl same ↦
      let here : ends e' ≡ some d = ground (arith, found, ready) in
      ready_then-mem es (rw here mem-cons_self)
  | inr other ↦ find-mem ip es e d (push_some (ends e') l) (rw other at found) ready
]

-- A client that is known keeps its endpoint for the life of the server: over any sequence of
-- connections, broadcasts, calls of listen and of shutdown it has the same endpoint, with the
-- sockets of the port at which it was made, no address has two endpoints, and a broadcast then
-- sends the message to the address of that endpoint; if its sockets were set up, and no address
-- had two endpoints before. onMessage is one that is only called.
pub endpoint_for_life :
    (env : Env) (ip : Bytes) (e : UdpEndpoint) (d : Destination) (es : List Event) (message : Bytes)
    (s : Sys Server)
    → find ip s.self.endpoints ≡ some e
    → IsDistinct s.self.endpoints
    → ends e ≡ some d
    → let t = happen env es s in
      (find ip t.self.endpoints ≡ some e)
      × IsDistinct t.self.endpoints
      × Mem d (sends_of message (broadcast_to_clients env message t).1.trace)
endpoint_for_life env ip e d es message s known distinct ready =
    let t = happen env es s in
    let k = happen-Knows env ip e es s (record { known = known; distinct = distinct }) in
    (
      k.known,
      k.distinct,
      rw (broadcast_reaches env message t)
          (find-mem ip t.self.endpoints e d (sends_of message t.trace) k.known ready),
    )
