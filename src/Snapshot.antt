-- ===== src/Snapshot.antt =====
-- Snapshots of a VM that runs: `frozen_vm`, `ensure_thawed` and `snapshot` of class Agent in agent.py.
-- `dated` gives the name of a snapshot that is kept for some days from today on.
pub mod Calls
pub mod Consistent
use fc_qemu.Base.{ℕ, Bool, true, false, Option, any, runtime_error, ◌==◌, if◌then◌else◌}
use fc_qemu.World.{
  Env, Action, pure, raise, ◌>>=◌, ◌>>◌, when◌then◌else◌, only_if, try_exception, try_finally,
}
use fc_qemu.Qemu.{is_running}
use fc_qemu.Guest.{freeze, thaw}
use fc_qemu.Volume.Size.{snapshots, create_snapshot}
use fc_qemu.Ceph.Pools.{root, the_volume}
use fc_qemu.Agent.{locked, running}

module _ (env : Env) where
  unfoldable pub ensure_thawed : Action (Unit {0})
  ensure_thawed = try_exception (thaw env) (pure tt)

  -- The start of `frozen_vm`. Where `is_running` raises, no exception is active any more at the `raise`
  -- of the end, which makes it a RuntimeError.
  unfoldable pub try_freeze : Action Bool
  try_freeze = do
    runs ← try_exception (is_running env) (raise runtime_error)
    when runs then try_exception (freeze env >> pure true) (pure false) else pure false

  -- `with frozen_vm() as frozen`, around `body`.
  unfoldable pub frozen_vm : {A : Type 0} → (Bool → Action A) → Action A
  frozen_vm body = do frozen ← try_freeze; try_finally (body frozen) (only_if frozen ensure_thawed)

  -- The body of the `with` block.
  unfoldable pub create_frozen : ℕ → Bool → Action (Unit {0})
  create_frozen name frozen =
      when frozen
      then (do v ← the_volume env root; create_snapshot env v name)
      else raise runtime_error

  module _ (dated : ℕ → ℕ → ℕ) where
    unfoldable pub create_new : ℕ → Action (Unit {0})
    create_new name = do
      v ← the_volume env root
      names ← snapshots env v
      when any (λ n. n == name) names then pure tt else frozen_vm (create_frozen name)

    unfoldable pub snapshot : ℕ → ℕ → Action (Option (Unit {0}))
    snapshot name keep =
        locked env true
          (running env true (create_new (if keep == 0 then name else dated name keep)))
