-- ===== src/Server/Runs.antt =====
-- What befalls a `Server` of source/nsvr/nsvr_server.cpp from its construction to its destruction.
use nsvr.Prelude.{List, [], ◌∷◌, Bytes}
use nsvr.Prelude.Int.{ℤ}
use nsvr.Env.{Env, on_message}
use nsvr.Env.Monad.{Sys, Part, call}
use nsvr.Server.{Server, incoming, broadcast_to_clients, listen, shutdown}

-- The messages go to the class of the user.
abbrev pub own_part : Part Server Server
own_part = record { get = λ s. s; put = λ s _. s; on_message = λ m. call (on_message m) }

-- What is asked of a server between its construction and its destruction.
pub data Event : Type 0 where
  comes : Event
  broadcasts : Bytes → Event
  listens : Bytes → ℤ → Event
  stops : Event

module _ (env : Env) where
  unfoldable pub happens : Event → Sys Server → Sys Server
  happens comes s = (incoming env own_part s).1
  happens (broadcasts m) s = (broadcast_to_clients env m s).1
  happens (listens address port) s = (listen env address port s).1
  happens stops s = (shutdown env s).1

  unfoldable pub happen : List Event → Sys Server → Sys Server
  happen [] s = s
  happen (e ∷ es) s = happen es (happens e s)
