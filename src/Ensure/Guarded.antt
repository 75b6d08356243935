-- ===== src/Ensure/Guarded.antt =====
-- `ensure_` for a VM that is not wanted on this host: when it gives something up.
use fc_qemu.Base.{
  ℕ, Bool, true, false, not, ◌≡◌, Option, none, some, ◌⊎◌, inl, inr, arith, ◌==◌, if◌then◌else◌,
}
use fc_qemu.World.{
  Call, World, Env, Action, pure, ◌>>=◌, ◌>>◌, when◌then◌else◌, option, only_if, Triple, Keeps,
  Triple-bind, Triple-if, Triple-except, Triple-weaken, Triple-option, Keeps-pure, Keeps-if, On,
  Emits, Emits-bind, Emits-pure, Emits-raise,
}
use fc_qemu.Qemu.{is_running}
use fc_qemu.Qemu.Quiet.{call-Quiet}
use fc_qemu.Ceph as Ceph
use fc_qemu.Ceph.{all_mine, lock_id, is_type_error}
use fc_qemu.Ceph.Pools.{attach_volumes}
use fc_qemu.Ceph.Specs.Harmless.{attach_volumes-Quiet}
use fc_qemu.Agent.{is_vm_state_inconsistent, locked, consul_deregister, cleanup, stop}
use fc_qemu.Agent.Careful.{
  CarefulOr, Careful-Stable, Off-keeps, Seen, is_running-Seen, stop-Release,
  consul_deregister-Release, cleanup-Release,
}
use fc_qemu.Agent.Commands.{stop_keeps, destroy_vm_keeps}
use fc_qemu.Outgoing.Locks.{BothLocked, Guarded}
use fc_qemu.Ensure.{
  Wanted, run, outmigrate, cleanup_offline, ensure_offline, ensure_online_remote,
  ensure_online_local, reconcile, ensure_vm, ensure_,
}
use fc_qemu.Ensure.Handed.{Anything, anything}
use fc_qemu.Ensure.Migrates.{
  HandOver, widen, Good, Over, Over-keeps, narrow, quiet, Reported, locks, Lifted,
  outmigrate-Reported,
}
use fc_qemu.Ensure.Offline.{cleanup_offline-Release, raise_if_inconsistent-Quiet}

-- The VM is not wanted on the host: it is to be off, or on another host.
abbrev pub Elsewhere : ℕ → Wanted → Type 0
Elsewhere host cfg =
    (cfg.online ≡ false) ⊎ ((h : ℕ) × ((cfg.kvm_host ≡ some h) × ((h == host) ≡ false)))

module _ (env : Env) (cfg : Wanted) where
  attach_narrow : Triple Guarded (attach_volumes env) (λ _. Guarded) (λ _. Good)
  attach_narrow = narrow env cfg (attach_volumes-Quiet env)

  wide : {A : Type 0} (m : Action A) → Keeps Guarded m → Triple Guarded m (λ _. Good) (λ _. Good)
  wide m k =
      Triple-weaken m Guarded (λ _. Guarded) (λ _. Good) (λ _. Guarded) (λ _. Good) k
        (λ a u h. widen u.trace h) (λ e u h. widen u.trace h)

  cleans : Triple (Seen BothLocked false) (cleanup_offline env cfg) (λ _. Good) (λ _. Good)
  cleans =
      Triple-weaken (cleanup_offline env cfg) _ (λ _. Guarded) (λ _. Good) (λ _. Guarded)
        (λ _. Good) (Off-keeps BothLocked (cleanup_offline-Release env cfg))
        (λ a u h. widen u.trace h) (λ e u h. widen u.trace h)

  -- A look at the VM, what is done where it runs, and the clean-up where it does not.
  looks :
      (m : Action (Unit {0}))
      → Triple Guarded m (λ _. Good) (λ _. Good)
      → Triple Guarded
          (is_running env >>= λ r. when r then m else cleanup_offline env cfg)
          (λ _. Good)
          (λ _. Good)
  looks m k =
      Triple-bind (is_running env) _ Guarded (Seen BothLocked) (λ _. Good) (λ _. Good)
        (Triple-weaken (is_running env) Guarded (Seen BothLocked) (Seen BothLocked) (λ _. Guarded)
          (λ _. Good) (is_running-Seen BothLocked env) (λ a u h. h) (λ e u h. widen u.trace h))
        found
    where
      found :
          (r : Bool)
          → Triple
              (Seen BothLocked r)
              (when r then m else cleanup_offline env cfg)
              (λ _. Good)
              (λ _. Good)
      found true =
          Triple-if true m _ Guarded (λ _. Good) (λ _. Good) (λ _. k) (λ e w h. ground (arith, e))
      found false =
          Triple-if false m _ _ (λ _. Good) (λ _. Good) (λ e w h. ground (arith, e)) (λ _. cleans)

  stops :
      Triple Guarded
        (attach_volumes env >>= λ _. stop env cfg.grace >>= λ _. pure tt)
        (λ _. Good)
        (λ _. Good)
  unfolding pure
  stops =
      Triple-bind (attach_volumes env) _ Guarded (λ _. Guarded) (λ _. Good) (λ _. Good)
        attach_narrow
        (λ _.
          Triple-bind (stop env cfg.grace) _ Guarded (λ _. Good) (λ _. Good) (λ _. Good)
            (wide (stop env cfg.grace) (stop_keeps BothLocked env cfg.grace)) (λ _ w h. h))

  ensure_offline-Good : Triple Guarded (ensure_offline env cfg) (λ _. Good) (λ _. Good)
  unfolding ensure_offline
  ensure_offline-Good = looks _ stops

  -- What is given up after a migration.
  gives : Emits Anything (Ceph.stop env >> consul_deregister env >> cleanup env)
  gives =
      Emits-bind
        (Emits-bind (anything (stop-Release HandOver env))
          (λ _. anything (consul_deregister-Release HandOver env)))
        (λ _. anything (cleanup-Release HandOver env))

  reports :
      (n : ℕ)
      → Triple
          (On (Reported n))
          (only_if (n == 0) (Ceph.stop env >> consul_deregister env >> cleanup env))
          (λ _. Good)
          (λ _. Good)
  unfolding pure
  reports n =
      Triple-if (n == 0) _ (pure tt) _ (λ _. Good) (λ _. Good)
        (λ e w h.
          Triple-weaken (Ceph.stop env >> consul_deregister env >> cleanup env) (On Over)
            (λ _. On Over) (λ _. Good) (λ _. On Over) (λ _. Good) (Over-keeps gives) (λ a u k. k.1)
            (λ x u k. k.1) w (h.1 (ground (arith, e)), h.0))
        (λ _ w h. h.0)

  ensure_online_remote-Good : Triple Guarded (ensure_online_remote env cfg) (λ _. Good) (λ _. Good)
  unfolding ensure_online_remote
  ensure_online_remote-Good = looks _ (
      Triple-bind (attach_volumes env) _ Guarded (λ _. Guarded) (λ _. Good) (λ _. Good)
        attach_narrow
        (λ _.
          Triple-bind (outmigrate env cfg) _ Guarded (λ n. On (Reported n)) (λ _. Good) (λ _. Good)
            (outmigrate-Reported env cfg) reports))

  choice :
      Elsewhere env.host cfg
      → Triple Guarded
          (when not cfg.online
            then ensure_offline env cfg
            else (option cfg.kvm_host (pure tt) (λ host.
                when host == env.host
                then ensure_online_local env cfg
                else ensure_online_remote env cfg)))
          (λ _. Good)
          (λ _. Good)
  choice elsewhere =
      Triple-if (not cfg.online) (ensure_offline env cfg) _ Guarded (λ _. Good) (λ _. Good)
        (λ _. ensure_offline-Good)
        (λ online.
          Triple-option cfg.kvm_host (pure tt) _ Guarded (λ _. Good) (λ _. Good)
            (λ _. wide (pure tt) (Keeps-pure Guarded tt))
            (λ host e.
              Triple-if (host == env.host) (ensure_online_local env cfg)
                (ensure_online_remote env cfg) Guarded (λ _. Good) (λ _. Good)
                (λ here w g. absurd (other elsewhere online host e here))
                (λ _. ensure_online_remote-Good)))
    where
      other :
          Elsewhere env.host cfg
          → not cfg.online ≡ false
          → (host : ℕ) → cfg.kvm_host ≡ some host
          → (host == env.host) ≡ true
          → ⊥
      other (inl off) online host e here = ground (arith, off, online)
      other (inr (h, (k, differs))) online host e here = ground (arith, k, e, differs, here)

  ensure_vm-Good :
      Elsewhere env.host cfg → Triple Guarded (ensure_vm env cfg) (λ _. Good) (λ _. Good)
  unfolding ensure_vm reconcile
  ensure_vm-Good elsewhere =
      Triple-except _ _ Guarded (λ _. Good) (λ _. Good) (λ _. Good)
        (Triple-bind _ _ Guarded (λ _. Good) (λ _. Good) (λ _. Good) (choice elsewhere)
          (λ _. quiet env cfg (raise_if_inconsistent-Quiet env cfg)))
        (λ e.
          Keeps-if Good (is_vm_state_inconsistent e) _ _ (destroy_vm_keeps HandOver env false)
            (quiet env cfg (Emits-raise e)))
        (λ w h. h)

  activated :
      Elsewhere env.host cfg
      → Triple Guarded
          (run env cfg Call.config_activated >>= λ _. ensure_vm env cfg)
          (λ _. Good)
          (λ _. Good)
  activated elsewhere =
      Triple-bind (run env cfg Call.config_activated) _ Guarded (λ _. Guarded) (λ _. Good)
        (λ _. Good)
        (narrow env cfg (Emits-bind (call-Quiet env Call.config_activated) (λ _. Emits-pure tt)))
        (λ _. ensure_vm-Good elsewhere)

-- Where a VM is not wanted on this host, `ensure_` gives a lock, the registration or the run files up
-- only when the newest look at the VM has found it off, while both hosts' migration locks are held, or
-- after the migration has ended or the other host has said that it has the VM.
pub ensure_-Good :
    (env : Env) (cfg : Wanted)
    → Elsewhere env.host cfg
    → Triple Guarded (ensure_ env cfg) (λ _. Good) (λ _. Good)
unfolding ensure_ Lifted
ensure_-Good env cfg elsewhere =
    Triple-weaken (locked env false (run env cfg Call.config_activated >>= λ _. ensure_vm env cfg))
      Guarded (Lifted env cfg (λ _. CarefulOr HandOver) (λ _. Careful-Stable HandOver) (λ _ t h. h))
      (λ _. Good) (λ _. Good) (λ _. Good)
      (locks env cfg (λ _. CarefulOr HandOver) (λ _. Careful-Stable HandOver) (λ _ t h. h) false _
        (activated env cfg elsewhere))
      lowered (λ e u h. h)
  where
    lowered :
        (o : Option (Unit {0})) (u : World)
        → Lifted env cfg (λ _. CarefulOr HandOver) (λ _. Careful-Stable HandOver) (λ _ t h. h) o u
        → Good u
    lowered none u h = h
    lowered (some a) u h = h
