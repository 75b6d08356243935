-- ===== src/Maintenance.antt =====
-- The maintenance of a host: `maintenance_enter`, `maintenance_leave` and their helpers of class Agent
-- in agent.py. The exit codes are results.
pub mod Ready
use fc_qemu.Base.{
  ℕ, zero, suc, ◌*◌, ◌/◌, Bool, true, false, Option, none, some, Exc, called_process_error,
  timeout_expired, runtime_error,
}
use fc_qemu.World.{
  Call, Env, Action, pure, raise, ◌>>=◌, ◌>>◌, when◌then◌else◌, option, try_except, try_exception,
  call, sleep,
}
use fc_qemu.Timeout.{second, time_out, while_ticking, fuel_for}

abbrev pub maintenance_tempfail : ℕ
maintenance_tempfail = 75

abbrev pub locktool_timeout : ℕ
locktool_timeout = 30 * second

abbrev pub unlock_max_retries : ℕ
unlock_max_retries = 5

abbrev pub is_called_process_error : Exc → Bool
is_called_process_error called_process_error = true
is_called_process_error _ = false

abbrev pub is_timeout_expired : Exc → Bool
is_timeout_expired timeout_expired = true
is_timeout_expired _ = false

module _ (env : Env) where
  abbrev pub run : Call → Action (Unit {0})
  run c = call env c >>= λ _. pure tt

  unfoldable pub ensure_maintenance_volume : Action (Unit {0})
  ensure_maintenance_volume =
      try_except (run Call.maintenance_volume_checked)
        (λ e. when is_called_process_error e then run Call.maintenance_volume_created else raise e)

  unfoldable pub get_maintenance_lock_info : Action (Unit {0})
  get_maintenance_lock_info = try_exception (run Call.maintenance_info_read) (pure tt)

  -- A try of `maintenance_leave`: none where it succeeds, or the time-out.
  unfoldable pub release_once : Action (Option Exc)
  release_once =
      try_except (ensure_maintenance_volume >> run Call.maintenance_unlocked >> pure none) (λ e.
        when is_timeout_expired e then (sleep (locktool_timeout / 5) >> pure (some e)) else raise e)

  -- The loop of `maintenance_leave`, for the tries that are left, with `last_exc`.
  unfoldable pub release_loop : ℕ → Exc → Action (Unit {0})
  release_loop zero last_exc = raise last_exc
  release_loop (suc tries) last_exc = do
    failed ← release_once
    option failed (pure tt) (λ e. release_loop tries e)

  unfoldable pub maintenance_leave : Action (Unit {0})
  maintenance_leave = release_loop unlock_max_retries runtime_error

  -- The first `try` of `maintenance_enter`: is the lock taken?
  unfoldable pub lock_for_maintenance : Action Bool
  lock_for_maintenance =
      try_except (ensure_maintenance_volume >> run Call.maintenance_locked >> pure true) (λ e.
        when is_timeout_expired e
        then (get_maintenance_lock_info >> maintenance_leave >> pure false)
        else (when is_called_process_error e
            then (get_maintenance_lock_info >> pure false)
            else raise e))

  -- `for attempt in range(3)`, for the attempts that are left.
  unfoldable pub evacuate : ℕ → Action (Unit {0})
  evacuate zero = pure tt
  evacuate (suc attempts) = do
    evacuated ← call env Call.evacuation_requested
    when evacuated then (sleep (5 * second) >> evacuate attempts) else pure tt

  -- A round of the last loop. `vms_counted` answers whether there is no VM left.
  unfoldable pub look_for_vms : Action (Option ℕ)
  look_for_vms = do
    none_left ← call env Call.vms_counted
    when none_left then pure (some 0) else (sleep (10 * second) >> pure none)

  -- The part of `maintenance_enter` with the lock, where `patience` is the evacuation timeout.
  unfoldable pub evacuate_all : ℕ → Action ℕ
  evacuate_all patience = do
    run Call.directory_connected
    evacuate 3
    run Call.consul_reloaded
    timeout ← time_out env patience (3 * second) false
    code ← while_ticking env (fuel_for patience (3 * second)) timeout look_for_vms
    option code (pure maintenance_tempfail) pure

  unfoldable pub maintenance_enter : ℕ → Action ℕ
  maintenance_enter patience = do
    locked ← lock_for_maintenance
    when locked then evacuate_all patience else pure maintenance_tempfail
