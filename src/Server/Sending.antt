-- ===== src/Server/Sending.antt =====
-- What a broadcast leaves as it is: the server, and all that is read off the trace but its own calls.
use nsvr.Prelude.{ℕ, Bool, ◌≡◌, refl, [], ◌∷◌, Bytes, arith}
use nsvr.Env.{
  Env, Handle, Trace, g_socket_get_timeout, g_socket_set_timeout, g_socket_send_to, g_error_free,
  nsvr_log,
}
use nsvr.Env.Monad.{Sys}
use nsvr.Server.Endpoint.{UdpEndpoint, Endpoints, send}
use nsvr.Server.{Server, send_all, broadcast_to_clients}

-- A reading of the trace that does not see the calls of a broadcast.
pub record IgnoresSends {A : Type 0} (f : Trace → A) : Type 0 where
  pub asks_timeout : (k : Handle) (t : Trace) → f (g_socket_get_timeout k ∷ t) ≡ f t
  pub sets_timeout : (k : Handle) (n : ℕ) (t : Trace) → f (g_socket_set_timeout k n ∷ t) ≡ f t
  pub sends : (k a : Handle) (m : Bytes) (t : Trace) → f (g_socket_send_to k a m ∷ t) ≡ f t
  pub frees : (set : Bool) (t : Trace) → f (g_error_free set ∷ t) ≡ f t
  pub logs : (t : Trace) → f (nsvr_log ∷ t) ≡ f t

module _ {A : Type 0} (env : Env) (f : Trace → A) (i : IgnoresSends f) where
  send_ignored :
      (e : UdpEndpoint) (message : Bytes) (n : ℕ) (s : Sys Server)
      → let t = (send env e message n s).1 in (f t.trace ≡ f s.trace) × (t.self ≡ s.self)
  unfolding send
  send_ignored e message n s =
      grind (arith, i.asks_timeout, i.sets_timeout, i.sends, i.frees, i.logs)

  send_all_ignored :
      (message : Bytes) (es : Endpoints) (s : Sys Server)
      → let t = (send_all env message es s).1 in (f t.trace ≡ f s.trace) × (t.self ≡ s.self)
  unfolding send_all
  send_all_ignored message [] s = (refl, refl)
  send_all_ignored message ((ip, e) ∷ es) s =
      let t = (send env e message 1 s).1 in
      ground (arith, send_ignored e message 1 s, send_all_ignored message es t)

  pub broadcast_ignored :
      (message : Bytes) (s : Sys Server)
      → let t = (broadcast_to_clients env message s).1 in
        (f t.trace ≡ f s.trace) × (t.self ≡ s.self)
  unfolding broadcast_to_clients
  broadcast_ignored message s = send_all_ignored message s.self.endpoints s

-- Nothing is seen by what sees nothing.
blind-IgnoresSends : IgnoresSends {A = Unit {0}} (λ t. tt)
blind-IgnoresSends = record {
  asks_timeout = λ k t. refl;
  sets_timeout = λ k n t. refl;
  sends = λ k a m t. refl;
  frees = λ b t. refl;
  logs = λ t. refl;
}

pub self-broadcast :
    (env : Env) (message : Bytes) (s : Sys Server)
    → (broadcast_to_clients env message s).1.self ≡ s.self
self-broadcast env message s = (broadcast_ignored env (λ t. tt) blind-IgnoresSends message s).1
