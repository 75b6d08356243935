-- ===== src/Incoming/Rescue.antt =====
-- The handlers of the receiving side that may give the VM up.
use fc_qemu.Base.{false, is_exception, runtime_error}
use fc_qemu.World.{
  Server, Env, raise, ◌>>◌, set_server, remove_run_files, Keeps, Keeps-bind, Keeps-if, Keeps-except,
  Emits, Emits-reply, Emits-raise, Emits-bind, On,
}
use fc_qemu.Ceph as Ceph
use fc_qemu.Ceph.Quiet.{lock-Quiet}
use fc_qemu.Agent.Careful.{Careful, Never, Release, Quiet-keeps, when_off, stop-Release}
use fc_qemu.Agent.Commands.{destroy_vm_keeps}
use fc_qemu.Incoming.{destroy_incoming, rescue_incoming}

module _ (env : Env) where
  set_server-Careful : (f : Server → Server) → Keeps (On Careful) (set_server f)
  unfolding set_server
  set_server-Careful f w h = h

  -- The server's `destroy` gives a lock, the registration or the run files up only when the newest
  -- look at the VM has found it off.
  pub destroy_incoming-Careful : Keeps (On Careful) (destroy_incoming env)
  unfolding destroy_incoming
  destroy_incoming-Careful =
      Keeps-bind (On Careful) (set_server _) _ (set_server-Careful _)
        (λ _. destroy_vm_keeps Never env false)

  remove_run_files-Release : Emits Release remove_run_files
  unfolding remove_run_files
  remove_run_files-Release = Emits-reply _ _ (λ w t h. h)

  stops-Release : Emits Release (remove_run_files >> Ceph.stop env)
  stops-Release = Emits-bind remove_run_files-Release (λ _. stop-Release Never env)

  -- The server's `rescue` gives a lock or the run files up only when the newest look at the VM has
  -- found it off, whether it finds the VM off or cannot have the locks.
  pub rescue_incoming-Careful : Keeps (On Careful) (rescue_incoming env)
  unfolding rescue_incoming
  rescue_incoming-Careful =
      when_off Never env _ _
        (Keeps-except (On Careful) (Ceph.lock env) _ (Quiet-keeps Never (lock-Quiet env)) (λ e.
          Keeps-if (On Careful) (is_exception e) (destroy_incoming env >> raise e) (raise e)
            (Keeps-bind (On Careful) (destroy_incoming env) _ destroy_incoming-Careful
              (λ _. Quiet-keeps Never (Emits-raise e)))
            (Quiet-keeps Never (Emits-raise e))))
        (Emits-bind stops-Release (λ _. Emits-raise runtime_error))
