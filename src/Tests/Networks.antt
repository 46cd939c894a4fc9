-- ===== src/Tests/Networks.antt =====
-- The theorems on the server and the client at concrete data.
use mathlib.Core.List.{List, Mem, Perm, Permᴰ, Pairwise, eq-or-mem_of_mem-cons, not-mem-nil}
use mathlib.Core.Logic.Or
use nsvr.Prelude.{
  Bytes, none, ◌≡◌, refl, true, false, some, [], ◌∷◌, codes, arith, ◌+◌, is_some, if◌then◌else◌,
  ltb,
}
use nsvr.Prelude.Int.{pos}
use nsvr.Double.{d_one}
use nsvr.Env.{
  Env, g_input_stream_read, g_io_stream_get_input_stream, g_object_unref, g_error_free,
  g_socket_receive, g_object_ref, unterminated_read, undefined, g_main_context_pending,
}
use nsvr.Env.Monad.{Sys, in_part}
use nsvr.Env.Count.{count, is_iteration}
use nsvr.Internal.System.{get_ip}
use nsvr.Server
use nsvr.Server.{Server}
use nsvr.Server.Events.{server_iterate_ends}
use nsvr.Server.Order.{IsDistinct, order_irrelevant}
use nsvr.Server.Runs
use nsvr.Server.Resources
use nsvr.Server.Lifetime.{endpoint_for_life}
use nsvr.Client.Resources as Objects
use nsvr.Server.Endpoint.{Endpoints, find, bytes_eq}
use nsvr.Server.Delivery.{find-remember, sends_of, incoming_delivers}
use nsvr.Client
use nsvr.Client.{Client}
use nsvr.Client.Connection.{IsValid, connect-IsValid}
use nsvr.Client.Events.{client_iterate_ends}
use nsvr.Client.Receiving.{incomming_delivers}
use nsvr.PlayerServer.{PlayerServer, server_part}
use nsvr.PlayerClient.{PlayerClient, client_part}
use nsvr.PlayerClient.Messages.{on_message_grows}
use nsvr.Tests.World.{env, sys_of, server, client, player_of, server_fields, client_fields}

find-remember_example :
    let t = (Server.remember env (codes "10.0.0.3") (sys_of server)).1 in
    (is_some (find (codes "10.0.0.3") t.self.endpoints) ≡ true)
    × (find (codes "10.0.0.2") t.self.endpoints ≡ (
        if bytes_eq (codes "10.0.0.3") (codes "10.0.0.2")
        then find (codes "10.0.0.3") t.self.endpoints
        else find (codes "10.0.0.2") server.endpoints))
find-remember_example = find-remember env (codes "10.0.0.3") (codes "10.0.0.2") (sys_of server)

-- Sixteen bytes fill the buffer of the server.
abbrev chatty : Env
chatty = record env { stream_read = λ _. some (codes "0123456789abcdef") }

incoming_delivers_example :
    let t = g_input_stream_read ∷ g_io_stream_get_input_stream ∷ [] in
    let (ip, u) =
      get_ip chatty (record { self = player_of server_fields; saved_volume = d_one; trace = t }) in
    let v = (in_part server_part (Server.remember chatty ip) u).1 in
    let w =
      (server_part.on_message
        (codes "0123456789abcdef")
        (record v { trace = undefined unterminated_read ∷ v.trace })).1 in
    (Server.incoming chatty server_part (sys_of (player_of server_fields))).1
    ≡ record w { trace = g_error_free false ∷ w.trace }
incoming_delivers_example =
    incoming_delivers chatty server_part (codes "0123456789abcdef")
      (sys_of (player_of server_fields)) refl refl (ground arith) (omega arith)

client_IsValid : IsValid client
client_IsValid = record { has_context = refl; has_source = refl; has_socket = refl }

connect-IsValid_example :
    let (result, t) = Client.connect env (codes "10.0.0.9") (pos 9000) (sys_of client) in
    IsValid t.self
    × (t.self.connected ≡ result)
    × (t.self.server_address ≡ codes "10.0.0.9")
    × (t.self.server_port ≡ pos 9000)
connect-IsValid_example =
    connect-IsValid env (codes "10.0.0.9") (pos 9000) (sys_of client) client_IsValid

incomming_delivers_example :
    let t = g_socket_receive 50 ∷ g_object_ref 50 ∷ [] in
    let w =
      ((client_part env).on_message
        (codes "sh|")
        (record { self = player_of client_fields; saved_volume = d_one; trace = t })).1 in
    (Client.incomming env (client_part env) 50 (sys_of (player_of client_fields))).1
    ≡ record w { trace = g_object_unref 50 ∷ g_error_free false ∷ w.trace }
incomming_delivers_example =
    incomming_delivers env (client_part env) 50 b's' (codes "h|") (sys_of (player_of client_fields))
      (λ d. refl) refl refl (ground arith) (omega arith)

-- Two clients write before the server iterates.
abbrev visited : Env
visited = record env { context_pending = λ t. ltb (count is_iteration t) 2 }

abbrev host : Sys PlayerServer
host = sys_of (player_of server_fields)

server_iterate_ends_example :
    let t = (Server.iterate visited server_part host).1 in
    (w : Sys PlayerServer) × (t ≡ record w { trace = g_main_context_pending none ∷ w.trace })
    × (visited.context_pending t.trace ≡ false)
server_iterate_ends_example =
    server_iterate_ends visited server_part (λ m s. omega arith) 2 host (λ t h. ground (arith, h))
      (omega arith)

abbrev guest : Sys PlayerClient
guest = sys_of (player_of client_fields)

client_iterate_ends_example :
    let part = client_part visited in
    let t = (Client.iterate visited part guest).1 in
    (w : Sys PlayerClient) × (t
      ≡ record w { trace = g_main_context_pending (part.get w.self).context ∷ w.trace })
    × (visited.context_pending t.trace ≡ false)
client_iterate_ends_example =
    client_iterate_ends visited (client_part visited) (on_message_grows visited) 2 guest refl
      (λ context t h. ground (arith, h)) (omega arith)

-- Two known clients, in either order.
abbrev two : Endpoints
two =
    (codes "10.0.0.2", record { socket = some 40; address = some 41 })
    ∷ (codes "10.0.0.3", record { socket = some 42; address = some 43 })
    ∷ []

abbrev two_turned : Endpoints
two_turned =
    (codes "10.0.0.3", record { socket = some 42; address = some 43 })
    ∷ (codes "10.0.0.2", record { socket = some 40; address = some 41 })
    ∷ []

two-IsDistinct : IsDistinct two
unfolding bytes_eq
two-IsDistinct =
    Pairwise.cons
      (λ a m.
        Or.elim (hlevel) (eq-or-mem_of_mem-cons m) (λ e. rw e refl) (λ n. absurd (not-mem-nil n)))
      (Pairwise.cons (λ a n. absurd (not-mem-nil n)) Pairwise.nil)

abbrev crowded : Sys Server
crowded = sys_of (record server { endpoints = two })

order_irrelevant_example :
    let t = record crowded { self = record crowded.self { endpoints = two_turned } } in
    Perm
      (sends_of (codes "sh|") (Server.broadcast_to_clients env (codes "sh|") crowded).1.trace)
      (sends_of (codes "sh|") (Server.broadcast_to_clients env (codes "sh|") t).1.trace)
    × ((ip : Bytes) → find ip two ≡ find ip two_turned)
order_irrelevant_example =
    order_irrelevant env (codes "sh|") crowded two_turned two-IsDistinct ∣ Permᴰ.swap refl refl ∣₁

-- One connection, a broadcast, and a call of `listen` behind which another connection comes.
abbrev busy : List Runs.Event
busy =
    Runs.comes
    ∷ Runs.broadcasts (codes "sh|")
    ∷ Runs.listens (codes "10.0.0.1") (pos 9000)
    ∷ Runs.comes
    ∷ []

endpoint_for_life_example :
    let t = Runs.happen env busy crowded in
    (find (codes "10.0.0.2") t.self.endpoints
      ≡ some (record { socket = some 40; address = some 41 }))
    × IsDistinct t.self.endpoints
    × Mem (40, 41) (sends_of (codes "p") (Server.broadcast_to_clients env (codes "p") t).1.trace)
endpoint_for_life_example =
    endpoint_for_life env (codes "10.0.0.2") _ (40, 41) busy (codes "p") crowded
      (unfold find bytes_eq in refl) two-IsDistinct refl

endpoints_given_back_example :
    let t = Runs.happen env busy (sys_of Server.construct) in
    let gone = (Server.destroy env t).1 in
    Resources.IsBalanced env t × (Resources.made env gone.trace ≡ Resources.cleared gone.trace)
endpoints_given_back_example =
    Resources.endpoints_given_back env busy (sys_of Server.construct) (omega arith)

objects_accounted_example :
    let es =
      Objects.connects (codes "10.0.0.1") (pos 8000)
      ∷ Objects.comes 33
      ∷ Objects.disconnects
      ∷ [] in
    let s = sys_of client in
    let t = Objects.happen env es s in
    let gone = (Client.destroy env t).1 in
    (Objects.made env t.trace + 0 + 2
      ≡ 0 + 0 + Objects.cleared t.trace + Objects.held t.self + Objects.lost env es s)
    × (Objects.made env gone.trace ≡ Objects.made env t.trace)
    × (Objects.cleared gone.trace
        ≡ Objects.cleared t.trace + (if t.self.connected then Objects.held t.self else 0))
objects_accounted_example =
    Objects.objects_accounted env
      (Objects.connects (codes "10.0.0.1") (pos 8000) ∷ Objects.comes 33 ∷ Objects.disconnects ∷ [])
      (sys_of client)
