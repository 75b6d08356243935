-- ===== src/Incoming/Calls.antt =====
-- The calls that the receiving side makes: they leave the attributes of its server alone.
use fc_qemu.Base.{◌*◌, Bool, false, none, some}
use fc_qemu.World.{
  Event, Env, Action, start_qemu, remove_run_files, Emits, emits, Emits-mono, Emits-reply,
  Emits-pure, Emits-raise, Emits-bind, Emits-if, Emits-except,
}
use fc_qemu.Timeout.{second, fuel_for}
use fc_qemu.Qemu.{is_running}
use fc_qemu.Qemu.Looks.{while_ticking-Emits}
use fc_qemu.Qemu.Quiet.{is_running-Quiet, destroy-Quiet, time_out-Quiet, tick-Quiet}
use fc_qemu.Ceph as Ceph
use fc_qemu.Ceph.Quiet.{lock-Quiet}
use fc_qemu.Ceph.Calls.{unlock-LockCall, stop-LockCall}
use fc_qemu.Agent.{destroy_vm, release_if_gone}
use fc_qemu.Agent.Careful.{Never, cleanup-Release, consul_deregister-Release}
use fc_qemu.Incoming.{prepare_incoming}

abbrev pub Any : Event → Type 0
Any e = Unit

pub any : {A : Type 0} {E : Event → Type 0} {m : Action A} → Emits E m → Emits Any m
any = Emits-mono (λ e h. tt)

module _ (env : Env) where
  pub lock-Any : Emits Any (Ceph.lock env)
  lock-Any = any (lock-Quiet env)

  pub stop-Any : Emits Any (Ceph.stop env)
  stop-Any = any (stop-LockCall env)

  pub unlock-Any : Emits Any (Ceph.unlock env)
  unlock-Any = any (unlock-LockCall env)

  pub remove_run_files-Any : Emits Any remove_run_files
  unfolding remove_run_files
  remove_run_files-Any = Emits-reply _ _ (λ w. tt)

  pub start_qemu-Any : Emits Any (start_qemu env)
  unfolding start_qemu
  start_qemu-Any = Emits-reply _ _ (λ w. tt)

  pub is_running-Any : Emits Any (is_running env)
  is_running-Any = any (is_running-Quiet env)

  pub release_if_gone-Any : Emits Any (release_if_gone env)
  unfolding release_if_gone
  release_if_gone-Any = Emits-bind is_running-Any (λ b. Emits-if b (Emits-pure none) (
      Emits-bind
        (Emits-bind
          (Emits-bind (Emits-except stop-Any (λ e. Emits-if _ (Emits-pure tt) (Emits-raise e)))
            (λ _. any (consul_deregister-Release Never env)))
          (λ _. any (cleanup-Release Never env)))
        (λ _. Emits-pure (some tt))))

  pub destroy_vm-Any : (kills : Bool) → Emits Any (destroy_vm env kills)
  unfolding destroy_vm
  destroy_vm-Any kills = Emits-bind (any (time_out-Quiet env (15 * second) second false)) (λ t.
      Emits-bind
        (Emits-except (any (destroy-Quiet env kills))
          (λ e. Emits-if _ (Emits-pure tt) (Emits-raise e)))
        (λ _.
          Emits-bind
            (while_ticking-Emits env (release_if_gone env) (λ u. any (tick-Quiet env u))
              release_if_gone-Any (fuel_for (15 * second) second) t)
            (λ _. Emits-pure tt)))

  pub prepare_incoming-Any : Emits Any (prepare_incoming env)
  unfolding prepare_incoming
  prepare_incoming-Any = search (emits, start_qemu-Any, stop-Any) depth 9
