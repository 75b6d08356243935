-- ===== src/Incoming/Deadline.antt =====
-- The deadline of the receiving side.
use fc_qemu.Base.{ℕ, ◌≤◌, ◌<◌, ◌+◌, ◌*◌, arith}
use fc_qemu.World.{Event, Env, World, calls}
use fc_qemu.Timeout.{second}
use fc_qemu.Timeout.Ends.{ClockRuns}
use fc_qemu.Incoming.{extend_soft}

-- Interaction with the server never brings its deadline nearer, and leaves it at least that many
-- seconds away, where the clock does not go back.
pub extend_soft-later :
    (env : Env) (runs : ClockRuns env) (seconds : ℕ) (w : World)
    → 0 < seconds
    → (w.server.cutoff ≤ (extend_soft env (seconds * second) w).1.server.cutoff)
      × (env.time w.trace + seconds * second
          ≤ (extend_soft env (seconds * second) w).1.server.cutoff)
unfolding extend_soft calls
extend_soft-later env runs n w h =
    let s = runs.steady (Event.time_read (env.time w.trace)) w.trace in
    (ground (arith, s), ground (arith, s))
