-- ===== src/Engine/Runs.antt =====
-- What a whole run of the worker leaves.
use mathlib.Core.List.{List}
use r_wg.Base.{Bool, true, false}
use r_wg.Base.Result.{Result}
use r_wg.Engine.{Sys}
use r_wg.Engine.Kernel.{start}
use r_wg.Engine.Post.{Post}
use r_wg.Engine.Runner.{Command}
use r_wg.Engine.Standings.{Idle, NoneUp}
use r_wg.Engine.Stop.{stop}

abbrev pub panics : Command → Bool
panics (Command.start r) = false
panics (Command.start_panics reached) = true
panics Command.stop = false

-- The worker holds nothing, and nothing is up.
abbrev pub Down : Sys → Type 0
Down s = Idle s.state × NoneUp s.world
