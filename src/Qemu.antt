-- ===== src/Qemu.antt =====
-- The process and the monitor of a VM: class Qemu of hazmat/qemu.py (`qmp`, `process_exists`,
-- `is_running`, `graceful_shutdown`, `destroy`).
pub mod Belief
pub mod Running
pub mod Looks
pub mod Quiet
pub mod Ends
pub mod Start
use fc_qemu.Base.{
  ℕ, zero, suc, ◌*◌, Bool, true, false, not, ◌&&◌, Option, none, some, Exc, os_error,
  attribute_error, qmp_connect_error, vm_state_inconsistent, if◌then◌else◌,
}
use fc_qemu.World.{
  Env, Command, Action, pure, raise, diverge, ◌>>=◌, ◌>>◌, when◌then◌else◌, only_if, option,
  try_except, try_exception, get_state, set_qmp_open, find_process, process_runs, terminate_process,
  qmp_connect, query_status, command, find_supervisor, supervisor_runs, terminate_supervisor,
}
use fc_qemu.Timeout.{TimeOut, second, time_out, tick, while_ticking, fuel_for}

abbrev pub is_os_error : Exc → Bool
is_os_error os_error = true
is_os_error _ = false

-- `except (QMPConnectError, socket.error)`
abbrev pub is_connection_error : Exc → Bool
is_connection_error os_error = true
is_connection_error qmp_connect_error = true
is_connection_error _ = false

-- What a round of `is_running` concludes: the answer, or none where the observations do not fit.
abbrev pub verdict : Bool → Bool → Bool → Option Bool
verdict process available running =
    if process && available && running
    then some true
    else (if not process && not available then some false else none)

module _ (env : Env) where
  -- The property `qmp`: is there a connection? It connects if there is none yet.
  pub qmp : Action Bool
  qmp = do
    w ← get_state
    when w.qmp_open
        then pure true
        else (try_except (qmp_connect env >> set_qmp_open true >> pure true)
            (λ e. when is_os_error e then pure false else raise e))

  pub process_exists : Action Bool
  process_exists = do found ← find_process env; when found then process_runs env else pure false

  -- Is the monitor available, and does it say that the VM runs? A connection that fails is dropped.
  pub ask_monitor : Action (Bool × Bool)
  ask_monitor = do
    available ← qmp
    when available
        then (try_except (query_status env >>= λ running. pure (true, running)) (λ e.
            when is_connection_error e
            then (set_qmp_open false >> pure (false, false))
            else raise e))
        else pure (false, false)

  pub check_running : Action (Option Bool)
  check_running = do
    process ← process_exists
    monitor ← ask_monitor
    pure (verdict process monitor.0 monitor.1)

  pub is_running : Action Bool
  is_running = do
    timeout ← time_out env (10 * second) second false
    answer ← while_ticking env (fuel_for (10 * second) second) timeout check_running
    option answer (raise vm_state_inconsistent) pure

  pub graceful_shutdown : Action (Unit {0})
  graceful_shutdown = do
    available ← qmp
    only_if available (
        when env.puppet then command env Command.send_key else command env Command.system_powerdown)

  -- `while test() and timeout.tick(): body()`, where the body says whether it breaks the loop.
  pub while_and_ticking : ℕ → Action Bool → TimeOut → Action Bool → Action (Unit {0})
  while_and_ticking zero test t body = diverge
  while_and_ticking (suc fuel) test t body = do
    goes_on ← test
    only_if goes_on (do
      x ← tick env t
      only_if x.1 (do breaks ← body; only_if (not breaks) (while_and_ticking fuel test x.0 body)))

  pub kill_supervisor : Action (Unit {0})
  kill_supervisor = do
    supervised ← find_supervisor env
    only_if supervised (do
      timeout ← time_out env (100 * second) (2 * second) false
      while_and_ticking (fuel_for (100 * second) (2 * second)) (supervisor_runs env) timeout
          (terminate_supervisor env >>= λ told. pure (not told)))

  -- The part of `destroy` that ends the process `p`.
  pub end_process : Action (Unit {0})
  end_process = do
    try_exception
        (do
          available ← qmp
          when available then command env Command.quit else raise attribute_error)
        (pure tt)
    patience ← time_out env (15 * second) second false
    while_and_ticking (fuel_for (15 * second) second) (process_runs env) patience (pure false)
    alive ← process_runs env
    only_if alive (do
      timeout ← time_out env (100 * second) (2 * second) true
      while_and_ticking (fuel_for (100 * second) (2 * second)) (process_runs env) timeout
          (terminate_process env >>= λ told. pure (not told)))

  pub destroy : Bool → Action (Unit {0})
  destroy kills_supervisor = do
    found ← find_process env
    only_if found (only_if kills_supervisor kill_supervisor >> end_process)
