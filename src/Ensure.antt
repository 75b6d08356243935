-- ===== src/Ensure.antt =====
-- The reconciliation of one VM: `ensure_` of agent.py and what it is made of, with `start`, `restart`,
-- `inmigrate`, `outmigrate`, and the operations on a VM that runs. The routes, the throttling and the
-- configuration of Qemu are calls here.
pub mod Handed
pub mod Offline
pub mod Migrates
pub mod Guarded
use fc_qemu.Base.{
  ℕ, Bool, true, false, not, Option, none, some, Exc, vm_state_inconsistent, attribute_error, ◌==◌,
  leb, if◌then◌else◌,
}
use fc_qemu.World.{
  Image, Command, Call, Env, Action, pure, raise, ◌>>=◌, ◌>>◌, when◌then◌else◌, only_if, option,
  try_except, try_exception, call, command, register, locate_live_service,
}
use fc_qemu.Qemu.{is_running}
use fc_qemu.Qemu.Start as Start
use fc_qemu.Guest.{write_file, exec}
use fc_qemu.Snapshot.{ensure_thawed}
use fc_qemu.Volume.Size.{size}
use fc_qemu.Ceph as Ceph
use fc_qemu.Ceph.Pools.{root, the_volume, attach_volumes}
use fc_qemu.Ceph.Specs as Specs
use fc_qemu.Agent.{
  locked, running, consul_deregister, cleanup, destroy_vm, stop, raise_if_inconsistent,
  requires_inmigrate_from, is_vm_state_inconsistent,
}
use fc_qemu.Outgoing.{run_outgoing}
use fc_qemu.Incoming.{run_incoming}

-- What the configuration wants of the VM, and settings of the host: the patience of `stop`, whether
-- KVM is required, and whether the guest is a cloud-init guest is a setting of `Env`. `fuel` bounds
-- the waits for devices and the rounds of a migration.
pub record Wanted : Type 0 where
  pub online : Bool
  pub kvm_host : Option ℕ
  pub root_size : ℕ
  pub grace : ℕ
  pub require_kvm : Bool
  pub fuel : ℕ

module _ (env : Env) (cfg : Wanted) where
  abbrev pub run : Call → Action (Unit {0})
  run c = call env c >>= λ _. pure tt

  unfoldable pub consul_register : Action (Unit {0})
  consul_register = register env

  unfoldable pub ensure_watchdog : Action (Unit {0})
  ensure_watchdog = command env (Command.watchdog_action 0)

  -- The body of `start`.
  unfoldable pub start_vm : Action (Unit {0})
  start_vm =
      Specs.start env cfg.fuel
      >> run Call.config_generated
      >> Start.start env cfg.require_kvm
      >> run Call.routes_ensured
      >> consul_register
      >> run Call.throttle_ensured
      >> ensure_watchdog

  unfoldable pub start : Action (Option (Unit {0}))
  start = locked env true (running env false start_vm)

  unfoldable pub restart : Action (Option (Unit {0}))
  restart = locked env true (stop env cfg.grace >>= λ _. start >>= λ _. pure tt)

  -- The exit code of the server, or that of a lock that was not got.
  unfoldable pub inmigrate : Action ℕ
  inmigrate = do
    code ← locked env true (
        running env false (do
          exitcode ← run_incoming env cfg.fuel env.host
          only_if (exitcode == 0) consul_register
          pure exitcode))
    option code (pure 75) pure

  unfoldable pub outmigrate : Action ℕ
  outmigrate = do
    code ← locked env true (
        running env true (do
          consul_register
          exitcode ← run_outgoing env cfg.fuel
          only_if (exitcode == 0) (consul_deregister env)
          pure exitcode))
    option code (pure 75) pure

  unfoldable pub cleanup_offline : Action (Unit {0})
  cleanup_offline = do
    any_left ← call env Call.run_files_listed
    only_if any_left (do
      attach_volumes env
      mine ← Ceph.locked_by_me env
      only_if mine (Ceph.unlock env)
      consul_deregister env
      cleanup env)

  unfoldable pub ensure_offline : Action (Unit {0})
  ensure_offline = do
    runs ← is_running env
    when runs
        then (attach_volumes env >> (stop env cfg.grace >>= λ _. pure tt))
        else cleanup_offline

  unfoldable pub ensure_online_remote : Action (Unit {0})
  ensure_online_remote = do
    runs ← is_running env
    when runs
        then (do
          attach_volumes env
          migration_errors ← outmigrate
          only_if (migration_errors == 0) (Ceph.stop env >> consul_deregister env >> cleanup env))
        else cleanup_offline

  unfoldable pub ensure_online_disk_size : Action (Unit {0})
  ensure_online_disk_size = do
    v ← the_volume env root
    current_size ← size env v
    only_if (not (leb cfg.root_size current_size))
        (command env (Command.block_resize cfg.root_size))

  -- What needs the guest agent: no failure goes further.
  unfoldable pub mark_qemu_binary_generation : Action (Unit {0})
  mark_qemu_binary_generation = try_exception (write_file env) (pure tt)

  unfoldable pub mark_qemu_guest_properties : Action (Unit {0})
  mark_qemu_guest_properties = try_exception (write_file env) (pure tt)

  unfoldable pub update_root_ssh_keys_cloudinit : Action (Unit {0})
  update_root_ssh_keys_cloudinit =
      only_if env.cloudinit
        (try_exception (run Call.users_read >> write_file env >> exec env) (pure tt))

  unfoldable pub adjust_guest : Action (Unit {0})
  adjust_guest =
      ensure_thawed env
      >> mark_qemu_binary_generation
      >> mark_qemu_guest_properties
      >> update_root_ssh_keys_cloudinit

  -- The end of `ensure_online_local`.
  unfoldable pub adjust : Bool → Action (Unit {0})
  adjust agent_likely_ready =
      run Call.routes_ensured
      >> consul_register
      >> ensure_online_disk_size
      >> run Call.throttle_ensured
      >> ensure_watchdog
      >> Specs.ensure env cfg.fuel
      >> Ceph.lock env
      >> only_if agent_likely_ready adjust_guest

  -- Where the VM does not run here: whether to go on, and then whether the guest's agent may be ready.
  unfoldable pub bring_up : Action (Option Bool)
  bring_up = do
    live ← locate_live_service env
    current_host ← requires_inmigrate_from env env.host live
    option current_host (start >>= λ _. pure (some false))
        (λ _. do exitcode ← inmigrate; pure (if exitcode == 0 then some true else none))

  unfoldable pub ensure_online_local : Action (Unit {0})
  ensure_online_local = do
    attach_volumes env
    runs ← is_running env
    ready ← when runs then pure (some true) else bring_up
    option ready (pure tt) adjust

  -- The choice in `ensure_`. An empty `kvm_host` asks for nothing.
  unfoldable pub reconcile : Action (Unit {0})
  reconcile = do
    when not cfg.online
        then ensure_offline
        else (option cfg.kvm_host (pure tt)
            (λ host. when host == env.host then ensure_online_local else ensure_online_remote))
    raise_if_inconsistent env

  -- `ensure_`, past the activation of the configuration: the body of `with self`. Entering and leaving
  -- the agent (the settings are read, the volumes attached, the monitor closed) are left out.
  unfoldable pub ensure_vm : Action (Unit {0})
  ensure_vm =
      try_except reconcile
        (λ e. when is_vm_state_inconsistent e then destroy_vm env false else raise e)

  unfoldable pub ensure_ : Action (Option (Unit {0}))
  ensure_ = locked env false (run Call.config_activated >> ensure_vm)
