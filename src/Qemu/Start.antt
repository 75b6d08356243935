-- ===== src/Qemu/Start.antt =====
-- Starting Qemu: `locked_global`, `_start`, `start` and `inmigrate` of hazmat/qemu.py. The check of the
-- memory is that of the module Memory, here a call.
use fc_qemu.Base.{
  ℕ, zero, suc, ◌-◌, ◌*◌, Bool, true, not, Option, none, some, assertion_error,
  controlled_runtime_exception, ◌==◌, if◌then◌else◌,
}
use fc_qemu.World.{
  Call, Env, Action, pure, raise, diverge, ◌>>=◌, ◌>>◌, when◌then◌else◌, only_if, try_finally,
  get_state, call, start_qemu, query_status, set_global_lock_open, set_global_lock_count,
}
use fc_qemu.Timeout.{TimeOut, second, time_out, tick, while_ticking, fuel_for}
use fc_qemu.Qemu.{qmp, is_running}

module _ (env : Env) where
  abbrev pub run : Call → Action (Unit {0})
  run c = call env c >>= λ _. pure tt

  -- The `finally` of `locked_global`; the file stays open.
  unfoldable pub leave_global_lock : Action (Unit {0})
  leave_global_lock = do
    w ← get_state
    set_global_lock_count (w.global_lock_count - 1)
    only_if (w.global_lock_count - 1 == 0) (run Call.global_lock_released)

  unfoldable pub locked_global : {A : Type 0} → Action A → Action A
  locked_global f = do
    w ← get_state
    only_if (not w.global_lock_open) (run Call.global_lock_opened >> set_global_lock_open true)
    run Call.global_lock_taken
    v ← get_state
    set_global_lock_count (suc v.global_lock_count)
    try_finally f leave_global_lock

  -- `_start`, where `require_kvm` is the attribute. The arguments of the command are left out.
  unfoldable pub start_process : Bool → Action (Unit {0})
  start_process require_kvm = locked_global (do
    found ← when require_kvm then call env Call.kvm_found else pure true
    only_if (not found) (raise controlled_runtime_exception)
    run Call.memory_verified
    run Call.config_prepared
    run Call.log_prepared
    start_qemu env)

  -- A round of the loop in `start`.
  unfoldable pub has_come_up : Action (Option (Unit {0}))
  has_come_up = do runs ← is_running env; when runs then pure (some tt) else pure none

  unfoldable pub start : Bool → Action (Unit {0})
  start require_kvm = do
    start_process require_kvm
    timeout ← time_out env (10 * second) 250 true
    _up ← while_ticking env (fuel_for (10 * second) 250) timeout has_come_up
    pure tt

  -- `while self.qmp is None: timeout.tick()`, which raises when the time is over.
  unfoldable pub wait_for_qmp : ℕ → TimeOut → Action (Unit {0})
  wait_for_qmp zero t = diverge
  wait_for_qmp (suc fuel) t = do
    available ← qmp env
    only_if (not available) (do x ← tick env t; wait_for_qmp fuel x.0)

  unfoldable pub inmigrate : Bool → Action (Unit {0})
  inmigrate require_kvm = do
    start_process require_kvm
    timeout ← time_out env (30 * second) second true
    wait_for_qmp (fuel_for (30 * second) second) timeout
    running ← query_status env
    only_if running (raise assertion_error)
    waits ← call env Call.inmigrate_status_read
    only_if (not waits) (raise assertion_error)
