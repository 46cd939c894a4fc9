-- ===== src/Tests/Sounds.antt =====
-- A muted server at concrete data: its pipeline is silent, and a client that played aloud is muted.
use nsvr.Prelude.{◌≡◌, ◌<◌, refl, ap, Option, true, some, none, [], ◌∷◌, arith, Lacks, length}
use nsvr.Prelude.Int.{pos}
use nsvr.Double.{Double, d_zero, d_one, d_eq, d_ge}
use nsvr.Env.{Env, state_playing, g_object_set_volume}
use nsvr.Env.Monad.{Sys}
use nsvr.Packet.{Packet, serialize}
use nsvr.Packet.Number.{show_ℕ, show_ℤ}
use nsvr.Packet.Number.Laws.{stoull-show_ℕ, show_ℕ-Lacks}
use nsvr.Client.{incomming}
use nsvr.Player.Seek.{get_time}
use nsvr.Player.Volume.{get_volume}
use nsvr.Player.Object.{get_mute, get_state}
use nsvr.PlayerServer
use nsvr.PlayerServer.{PlayerServer}
use nsvr.PlayerClient.{client_part}
use nsvr.PlayerClient.Sound.{volume_given, TellsVolume, IsSilent}
use nsvr.Session.{IsPrinted}
use nsvr.Session.Sound.{sound_reaches_client}
use nsvr.Tests.World.{fpu, env, player_of, server_fields}
use nsvr.Tests.Sessions.{one-IsPrinted, guest}

-- The volume that a pipeline tells, which is 1. until it is given another.
abbrev or_loud : Option Double → Double
or_loud none = d_one
or_loud (some v) = v

abbrev muted : Packet
muted = record { time = d_one; volume = d_zero; mute = pos 1; state = state_playing; base = 7 }

abbrev heard : Env
heard = record env {
  volume = λ t. elim t [ [] ↦ d_one | ◌∷◌ c u ↦ or_loud (volume_given 1 u) ];
  receive = λ _. some (serialize fpu muted);
}

heard-TellsVolume : TellsVolume heard 1
heard-TellsVolume t v e = ap or_loud e

abbrev host : Sys PlayerServer
host = record {
  self = record (player_of server_fields) { mute = true; volume = d_zero };
  saved_volume = d_one;
  trace = g_object_set_volume 1 d_zero ∷ [];
}

host_tells : (PlayerServer.heartbeat_packet heard 1 host).0 ≡ muted
unfolding PlayerServer.heartbeat_packet get_time get_volume get_mute get_state
host_tells = refl

muted_clean : Lacks 0 (serialize fpu muted)
unfolding serialize show_ℕ show_ℤ
muted_clean = ground arith

muted_short : length (serialize fpu muted) < 1024
unfolding serialize show_ℕ show_ℤ
muted_short = omega arith

zero-IsPrinted : IsPrinted fpu d_zero d_zero
zero-IsPrinted = record { clean = show_ℕ-Lacks d_zero; reads = stoull-show_ℕ d_zero (omega arith) }

sound_reaches_client_example :
    let u = (incomming heard (client_part heard) 50 guest).1 in
    (u.self.mute ≡ true) × (d_eq u.self.volume d_zero ≡ true) × IsSilent 1 u
sound_reaches_client_example =
    sound_reaches_client heard heard refl host 1 1 guest 50 d_one d_zero refl (omega arith)
      (omega arith) (rw host_tells one-IsPrinted) (rw host_tells zero-IsPrinted)
      zero-IsPrinted.reads (rw host_tells muted_clean) (rw host_tells muted_short) heard-TellsVolume
      (λ _. refl) (unfold d_ge in (refl, refl)) refl refl heard-TellsVolume (λ e. cc)
      (rw host_tells refl)
