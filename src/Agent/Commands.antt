-- ===== src/Agent/Commands.antt =====
-- When the commands of the Agent give a lock, the registration or the run files up: `_destroy`,
-- `stop`, `kill`, `unlock`, `force_unlock`.
use fc_qemu.Base.{ℕ, ◌*◌, Bool, true, false, not, Exc, invalid_command, if◌then◌else◌}
use fc_qemu.World.{
  Trace, Env, Action, pure, raise, when◌then◌else◌, Triple, Keeps, Triple-bind, Triple-option,
  Keeps-bind, Keeps-pure, Keeps-if, Keeps-except, On, Emits, emits, Emits-mono, Emits-if,
  Emits-pure, Emits-raise, Stable, Event,
}
use fc_qemu.Timeout.{second, fuel_for}
use fc_qemu.Qemu.{is_running}
use fc_qemu.Qemu.Quiet.{
  Quiet, get_state-Quiet, set_lock_open-Quiet, set_lock_count-Quiet, release_flock-Quiet,
  is_running-Quiet, destroy-Quiet, graceful_shutdown-Quiet, time_out-Quiet,
}
use fc_qemu.Ceph.Calls as Ceph_calls
use fc_qemu.Agent.{
  running, release_if_gone, destroy_vm, kill, stop_if_gone, shut_down, stop, unlock, force_unlock,
  locked, leave_lock, is_qemu_not_running, is_socket_or_runtime_error,
}
use fc_qemu.Agent.Around.{LockFile}
use fc_qemu.Agent.Around as Around
use fc_qemu.Agent.Careful.{
  CarefulOr, Never, Careful, Release, LockCall-Release, Seen, Off-keeps, Quiet-keeps,
  is_running-Seen, ticking_keeps, release_if_gone-Careful, stop_if_gone-Careful, stop-Release,
}

module _ (Also : Trace → Type 0) (env : Env) where
  pub handled_keeps :
      (b : Bool) (e : Exc) → Keeps (On (CarefulOr Also)) (when b then pure tt else raise e)
  handled_keeps b e = Quiet-keeps Also (Emits-if b (Emits-pure tt) (Emits-raise e))

  pub destroy_vm_keeps : (kills : Bool) → Keeps (On (CarefulOr Also)) (destroy_vm env kills)
  unfolding destroy_vm
  destroy_vm_keeps kills =
      Keeps-bind (On (CarefulOr Also)) _ _
        (Quiet-keeps Also (time_out-Quiet env (15 * second) second false))
        (λ t.
          Keeps-bind (On (CarefulOr Also)) _ _
            (Keeps-except (On (CarefulOr Also)) _ _ (Quiet-keeps Also (destroy-Quiet env kills))
              (λ e. handled_keeps (is_qemu_not_running e) e))
            (λ _.
              Keeps-bind (On (CarefulOr Also)) _ _
                (ticking_keeps Also env (release_if_gone env) (release_if_gone-Careful Also env)
                  (fuel_for (15 * second) second) t)
                (λ _. Keeps-pure (On (CarefulOr Also)) tt)))

  pub running_keeps :
      {A : Type 0} (f : Action A)
      → Keeps (On (CarefulOr Also)) f
      → Keeps (On (CarefulOr Also)) (running env true f)
  unfolding running
  running_keeps f k =
      Keeps-bind (On (CarefulOr Also)) _ _ (Quiet-keeps Also (is_running-Quiet env)) (λ b.
        Keeps-if (On (CarefulOr Also)) _ _ _ k (Quiet-keeps Also (Emits-raise invalid_command)))

  -- `running(False)`: what is run may give things up.
  not_running_keeps :
      {A : Type 0} (f : Action A)
      → Emits Release f
      → Keeps (On (CarefulOr Also)) (running env false f)
  unfolding running when◌then◌else◌
  not_running_keeps f e =
      Triple-bind (is_running env) _ (On (CarefulOr Also)) (Seen Also) (λ _. On (CarefulOr Also))
        (λ _. On (CarefulOr Also)) (is_running-Seen Also env) after
    where
      after :
          (b : Bool)
          → Triple
              (Seen Also b)
              (when (if b then false else not false) then f else raise invalid_command)
              (λ _. On (CarefulOr Also))
              (λ _. On (CarefulOr Also))
      after true = Quiet-keeps Also (Emits-raise invalid_command)
      after false = Off-keeps Also e

  pub leave_lock-Quiet : Emits Quiet (leave_lock env)
  unfolding leave_lock
  leave_lock-Quiet =
      search
        (emits, get_state-Quiet, set_lock_count-Quiet, release_flock-Quiet, set_lock_open-Quiet)
        depth 9

  LockFile-Stable : Stable LockFile (CarefulOr Also)
  LockFile-Stable (Event.flock_asked b r) t q h = ((λ g. cc), h)
  LockFile-Stable Event.flock_released t q h = ((λ g. cc), h)
  LockFile-Stable _ t q h = elim q [ ]

  pub locked_keeps :
      {A : Type 0} (b : Bool) (f : Action A)
      → Keeps (On (CarefulOr Also)) f
      → Keeps (On (CarefulOr Also)) (locked env b f)
  locked_keeps = Around.locked_keeps env (CarefulOr Also) LockFile-Stable

  pub kill_keeps : Keeps (On (CarefulOr Also)) (kill env)
  unfolding kill
  kill_keeps = locked_keeps true _ (running_keeps _ (destroy_vm_keeps true))

  shut_down_keeps : (grace : ℕ) → Keeps (On (CarefulOr Also)) (shut_down env grace)
  unfolding shut_down
  shut_down_keeps grace =
      Keeps-bind (On (CarefulOr Also)) _ _
        (Quiet-keeps Also (time_out-Quiet env grace (3 * second) false))
        (λ t.
          Keeps-bind (On (CarefulOr Also)) _ _
            (Keeps-except (On (CarefulOr Also)) _ _ (Quiet-keeps Also (graceful_shutdown-Quiet env))
              (λ e. handled_keeps (is_socket_or_runtime_error e) e))
            (λ _.
              Keeps-bind (On (CarefulOr Also)) _ _
                (ticking_keeps Also env (stop_if_gone env) (stop_if_gone-Careful Also env)
                  (fuel_for grace (3 * second)) t)
                (λ gone.
                  Triple-option gone _ _ (On (CarefulOr Also)) (λ _. On (CarefulOr Also))
                    (λ _. On (CarefulOr Also))
                    (λ _.
                      Keeps-bind (On (CarefulOr Also)) _ _ kill_keeps
                        (λ _. Keeps-pure (On (CarefulOr Also)) tt))
                    (λ a _. Keeps-pure (On (CarefulOr Also)) a))))

  pub stop_keeps : (grace : ℕ) → Keeps (On (CarefulOr Also)) (stop env grace)
  unfolding stop
  stop_keeps grace = locked_keeps true _ (running_keeps _ (shut_down_keeps grace))

  unlock_keeps : Keeps (On (CarefulOr Also)) (unlock env)
  unfolding unlock
  unlock_keeps = locked_keeps true _ (not_running_keeps _ (stop-Release Also env))

  force_unlock_keeps : Keeps (On (CarefulOr Also)) (force_unlock env)
  unfolding force_unlock
  force_unlock_keeps =
      not_running_keeps _ (Emits-mono LockCall-Release (Ceph_calls.force_unlock-LockCall env))

-- `_destroy` gives a lock, the registration or the run files up only when the newest look at the VM
-- has found it off, however it ends.
pub destroy_vm-Careful : (env : Env) (kills : Bool) → Keeps (On Careful) (destroy_vm env kills)
destroy_vm-Careful = destroy_vm_keeps Never

-- `stop` gives a lock, the registration or the run files up only when the newest look at the VM has
-- found it off, however it ends, and also where it goes on to `kill`.
pub stop-Careful : (env : Env) (grace : ℕ) → Keeps (On Careful) (stop env grace)
stop-Careful = stop_keeps Never

-- `unlock` removes locks only when the newest look at the VM has found it off.
pub unlock-Careful : (env : Env) → Keeps (On Careful) (unlock env)
unlock-Careful = unlock_keeps Never

-- `force_unlock` removes locks only when the newest look at the VM has found it off.
pub force_unlock-Careful : (env : Env) → Keeps (On Careful) (force_unlock env)
force_unlock-Careful = force_unlock_keeps Never
