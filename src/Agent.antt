-- ===== src/Agent.antt =====
-- The commands on one VM: class Agent of agent.py (the decorators `locked` and `running`,
-- `_destroy`, `cleanup`, `consul_deregister`, `stop`, `kill`, `lock`, `unlock`, `force_unlock`,
-- `raise_if_inconsistent`, `_requires_inmigrate_from`), with `is_consistent` of exc.py.
pub mod Around
pub mod Careful
pub mod Commands
pub mod Locked
pub mod Status
use fc_qemu.Base.{
  ℕ, suc, ◌+◌, ◌-◌, ◌*◌, Bool, true, false, not, ◌&&◌, ◌||◌, Option, none, some, List, [], ◌∷◌, any,
  all, Exc, os_error, is_runtime_error, qemu_not_running, invalid_command, vm_state_inconsistent,
  ◌==◌, if◌then◌else◌,
}
use fc_qemu.World.{
  Env, Action, pure, raise, ◌>>=◌, ◌>>◌, when◌then◌else◌, only_if, option, try_except,
  try_exception, try_finally, get_state, service_known, deregister, remove_run_files, find_process,
  flock, release_flock, set_lock_open, set_lock_count,
}
use fc_qemu.Timeout.{second, time_out, while_ticking, fuel_for}
use fc_qemu.Qemu.{is_running, graceful_shutdown}
use fc_qemu.Qemu as Qemu
use fc_qemu.Ceph as Ceph

abbrev pub is_qemu_not_running : Exc → Bool
is_qemu_not_running qemu_not_running = true
is_qemu_not_running _ = false

abbrev pub is_vm_state_inconsistent : Exc → Bool
is_vm_state_inconsistent vm_state_inconsistent = true
is_vm_state_inconsistent _ = false

-- `except (socket.error, RuntimeError)`, with the subclasses of RuntimeError.
abbrev pub is_socket_or_runtime_error : Exc → Bool
is_socket_or_runtime_error os_error = true
is_socket_or_runtime_error e = is_runtime_error e

-- `VMStateInconsistent.is_consistent`
abbrev pub is_consistent : Bool → Bool → Bool → Bool
is_consistent qemu proc ceph_lock =
    let states = qemu ∷ proc ∷ ceph_lock ∷ [] in
    if any (λ s. s) states then all (λ s. s) states else not (all (λ s. s) states)

module _ (env : Env) where
  -- The `finally` of `locked`.
  unfoldable pub leave_lock : Action (Unit {0})
  leave_lock = do
    w ← get_state
    set_lock_count (w.lock_count - 1)
    only_if (w.lock_count - 1 == 0) (release_flock >> set_lock_open false)

  -- `@locked(blocking)`; none is EX_TEMPFAIL. The lock file is opened once.
  unfoldable pub locked : {A : Type 0} → Bool → Action A → Action (Option A)
  locked blocking f = do
    set_lock_open true
    taken ← flock env blocking
    when taken
        then (do
          w ← get_state
          set_lock_count (suc w.lock_count)
          try_finally (f >>= λ a. pure (some a)) leave_lock)
        else pure none

  -- `@running(expected)`
  unfoldable pub running : {A : Type 0} → Bool → Action A → Action A
  running expected f = do
    runs ← is_running env
    when (if runs then expected else not expected) then f else raise invalid_command

  unfoldable pub consul_deregister : Action (Unit {0})
  consul_deregister =
      try_exception (service_known env >>= λ known. only_if known (deregister env)) (pure tt)

  unfoldable pub cleanup : Action (Unit {0})
  cleanup = remove_run_files

  -- A round of the loop in `_destroy`, which ends the loop where the VM is gone.
  unfoldable pub release_if_gone : Action (Option (Unit {0}))
  release_if_gone = do
    runs ← is_running env
    when runs
        then pure none
        else (try_exception (Ceph.stop env) (pure tt)
            >> consul_deregister
            >> cleanup
            >> pure (some tt))

  -- `_destroy`
  unfoldable pub destroy_vm : Bool → Action (Unit {0})
  destroy_vm kill_supervisor = do
    timeout ← time_out env (15 * second) second false
    try_except (Qemu.destroy env kill_supervisor)
        (λ e. when is_qemu_not_running e then pure tt else raise e)
    _gone ← while_ticking env (fuel_for (15 * second) second) timeout release_if_gone
    pure tt

  unfoldable pub kill : Action (Option (Unit {0}))
  kill = locked true (running true (destroy_vm true))

  -- A round of the loop in `stop`.
  unfoldable pub stop_if_gone : Action (Option (Unit {0}))
  stop_if_gone = do
    runs ← is_running env
    when runs then pure none else (Ceph.stop env >> consul_deregister >> cleanup >> pure (some tt))

  -- The body of `stop`, where `grace` is `timeout_graceful`.
  unfoldable pub shut_down : ℕ → Action (Unit {0})
  shut_down grace = do
    timeout ← time_out env grace (3 * second) false
    try_except (graceful_shutdown env)
        (λ e. when is_socket_or_runtime_error e then pure tt else raise e)
    gone ← while_ticking env (fuel_for grace (3 * second)) timeout stop_if_gone
    option gone (kill >>= λ _. pure tt) pure

  unfoldable pub stop : ℕ → Action (Option (Unit {0}))
  stop grace = locked true (running true (shut_down grace))

  -- The loop of `Agent.lock` is that of `Ceph.lock`, where each volume is there.
  unfoldable pub lock : Action (Option (Unit {0}))
  lock = locked true (Ceph.lock env)

  unfoldable pub unlock : Action (Option (Unit {0}))
  unlock = locked true (running false (Ceph.stop env))

  unfoldable pub force_unlock : Action (Unit {0})
  force_unlock = running false (Ceph.force_unlock env)

  unfoldable pub raise_if_inconsistent : Action (Unit {0})
  raise_if_inconsistent = do
    qemu ← is_running env
    proc ← find_process env
    ceph_lock ← Ceph.locked_by_me env
    when is_consistent qemu proc ceph_lock then pure tt else raise vm_state_inconsistent

  -- `_requires_inmigrate_from`, where `live` is the host that Consul knows of, by
  -- `locate_live_service`.
  unfoldable pub requires_inmigrate_from : ℕ → Option ℕ → Action (Option ℕ)
  requires_inmigrate_from this_host live =
      option live here (λ h. when h == this_host then here else pure (some h))
    where
      here : Action (Option ℕ)
      here = do
        unlocked ← Ceph.is_unlocked env
        when unlocked
            then pure none
            else (do mine ← Ceph.locked_by_me env; when mine then pure none else Ceph.locked_by env)
