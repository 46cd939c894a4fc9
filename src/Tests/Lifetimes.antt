-- ===== src/Tests/Lifetimes.antt =====
-- The lifetime of a player at concrete data: a server's player that opens a film and shows a frame.
use nsvr.Prelude.{◌+◌, ◌≡◌, refl, List, [], ◌∷◌, true, false, codes}
use nsvr.Prelude.Int.{pos}
use nsvr.Double.{d_one}
use nsvr.Env.Monad.{Sys}
use nsvr.Env.Count.{delivered}
use nsvr.Player.Object.{construct}
use nsvr.Player.Control.{destroy}
use nsvr.Player.Frames.Laws.{unrefs, held_samples}
use nsvr.Player.Handshake.{Reach, waiting, idle, closed}
use nsvr.Player.Handshake.View.{at}
use nsvr.Player.Lifetime.{
  PlayerOp, opened, opened_path, played, time_set, updated, paused, preroll_arrives, sample_arrives,
  was_closed, run_ops, lifetime_scheduled,
}
use nsvr.PlayerServer.{PlayerServer, hooks}
use nsvr.PlayerServer.Frames.{hooks-LeavesFrames}
use nsvr.Tests.World.{env, player_of, sys_of, server_fields}

abbrev unused : Sys PlayerServer
unused = sys_of (player_of server_fields)

-- Two samples come before the first update, and the player is closed while it holds a third.
abbrev evening : List PlayerOp
evening =
    opened (codes "m") (pos 640) (pos 480) (codes "BGRA")
    ∷ played
    ∷ preroll_arrives 3
    ∷ sample_arrives 3
    ∷ updated
    ∷ time_set d_one
    ∷ sample_arrives 3
    ∷ was_closed
    ∷ opened_path (codes "m")
    ∷ paused
    ∷ preroll_arrives 3
    ∷ []

lifetime_scheduled_example :
    let t = run_ops env (hooks env) evening (construct env unused).1 in
    let u = (destroy env t).1 in
    Reach (at env true waiting idle t)
    × (delivered env t.trace ≡ unrefs t + held_samples t)
    × Reach (at env false waiting closed u)
    × (unrefs u ≡ delivered env u.trace)
lifetime_scheduled_example =
    lifetime_scheduled env (hooks env) (hooks-LeavesFrames env) evening unused refl
