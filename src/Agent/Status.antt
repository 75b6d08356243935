-- ===== src/Agent/Status.antt =====
-- The command `status` of agent.py: 0 is online, 1 offline, 255 neither.
pub mod Tells
use fc_qemu.Base.{ℕ, Option, Exc, vm_state_inconsistent, Bool, true, false}
use fc_qemu.World.{
  Call, Env, Action, pure, raise, ◌>>=◌, ◌>>◌, when◌then◌else◌, try_except, call,
  locate_live_service,
}
use fc_qemu.Qemu.{is_running}
use fc_qemu.Ceph.Status as Ceph
use fc_qemu.Agent.{locked, is_vm_state_inconsistent}

module _ (env : Env) where
  unfoldable pub block_info : Action (Unit {0})
  block_info = call env Call.blocks_queried >>= λ _. pure tt

  unfoldable pub online : Action ℕ
  online = do runs ← is_running env; when runs then (block_info >> pure 0) else pure 1

  unfoldable pub exit_code : Action ℕ
  exit_code = try_except online (λ e. when is_vm_state_inconsistent e then pure 255 else raise e)

  unfoldable pub status : Action (Option ℕ)
  status =
      locked env true
        (do code ← exit_code; Ceph.status env; _service ← locate_live_service env; pure code)
