-- ===== src/Agent/Status/Tells.antt =====
-- What the exit code of `status` tells.
use fc_qemu.Base.{ℕ, zero, suc, refl, true, false, none, some, List, [], ◌∷◌}
use fc_qemu.World.{
  Event, Trace, World, Env, Call, Action, pure, raise, ◌>>◌, call, locate_live_service,
  image_migration, when◌then◌else◌, Triple, Fails, Triple-bind, Triple-if, Triple-except,
  Triple-weaken, Stable, On, Emits, Emits-reply, Emits-silent, Emits-bind, Emits-option, Emits-pure,
  Emits-mono,
}
use fc_qemu.Qemu.{is_running}
use fc_qemu.Qemu.Belief.{SeenOff, SeenOn}
use fc_qemu.Qemu.Running.{Shows, is_running-Shows}
use fc_qemu.Volume.Removal.{lock_status-LockCall}
use fc_qemu.Ceph.Pools.{Spec, root, swap, tmp, cidata, specs}
use fc_qemu.Ceph.Specs.{migration_status}
use fc_qemu.Ceph.Specs.Finding.{volume-Emits}
use fc_qemu.Ceph.Specs.Harmless.{Harmless, still, locks}
use fc_qemu.Ceph.Status.{lock_shown, status_of, status_of_all}
use fc_qemu.Ceph.Status as Ceph
use fc_qemu.Agent.{is_vm_state_inconsistent}
use fc_qemu.Agent.Status.{block_info, online, exit_code, status}
use fc_qemu.Agent.Around.{LockFile, Through, locked-Through}

-- The newest look found the VM running, or off.
abbrev pub Tells : ℕ → Trace → Type 0
Tells zero t = SeenOn t
Tells (suc zero) t = SeenOff t
Tells (suc (suc n)) t = Unit

abbrev pub True : World → Type 0
True w = Unit

abbrev pub anyhow : Fails
anyhow e w = Unit

Tells-Stable : (n : ℕ) → Stable Harmless (Tells n)
Tells-Stable zero (Event.image_opened v r) t h k = k
Tells-Stable zero (Event.lock_listed v r) t h k = k
Tells-Stable zero (Event.lock_added v c b) t h k = k
Tells-Stable zero (Event.lock_removed v l b) t h k = k
Tells-Stable zero (Event.called c r) t h k = k
Tells-Stable zero (Event.time_read n) t h k = k
Tells-Stable zero (Event.slept d) t h k = k
Tells-Stable (suc zero) (Event.image_opened v r) t h k = k
Tells-Stable (suc zero) (Event.lock_listed v r) t h k = k
Tells-Stable (suc zero) (Event.lock_added v c b) t h k = k
Tells-Stable (suc zero) (Event.lock_removed v l b) t h k = k
Tells-Stable (suc zero) (Event.called c r) t h k = k
Tells-Stable (suc zero) (Event.time_read n) t h k = k
Tells-Stable (suc zero) (Event.slept d) t h k = k
Tells-Stable (suc (suc n)) e t h k = tt
Tells-Stable _ _ t h k = elim h [ ]

module _ (env : Env) where
  -- What comes after the answer.
  onwards :
      {A : Type 0} {m : Action A} (n : ℕ)
      → Emits Harmless m
      → Triple (On (Tells n)) m (λ _. On (Tells n)) anyhow
  onwards {m} n e =
      Triple-weaken m (On (Tells n)) (λ _. On (Tells n)) (λ _. On (Tells n)) (λ _. On (Tells n))
        anyhow (e.keeps (Tells n) (Tells-Stable n)) (λ _ w h. h) (λ e w h. tt)

  call-Harmless : (c : Call) → Emits Harmless (call env c)
  unfolding call
  call-Harmless c = Emits-reply _ _ (λ w. tt)

  online-Tells : Triple True (online env) (λ n. On (Tells n)) anyhow
  unfolding online block_info pure when◌then◌else◌
  online-Tells =
      Triple-bind (is_running env) _ True (λ b. Shows env (some b)) (λ n. On (Tells n)) anyhow
        (is_running-Shows env)
        (λ b.
          elim b
            as (λ b'.
              Triple (Shows env (some b')) (when b' then (block_info env >> pure 0) else pure 1)
                (λ n. On (Tells n)) anyhow) [
                  | true ↦
                      Triple-bind (block_info env) _ (On (Tells 0)) (λ _. On (Tells 0))
                        (λ n. On (Tells n)) anyhow
                        (onwards 0
                          (Emits-bind (call-Harmless Call.blocks_queried) (λ _. Emits-pure tt)))
                        (λ _ w h. h)
                  | false ↦ λ w h. h
                ])

  exit_code-Tells : Triple True (exit_code env) (λ n. On (Tells n)) anyhow
  unfolding exit_code pure raise
  exit_code-Tells =
      Triple-except (online env) _ True (λ n. On (Tells n)) anyhow anyhow online-Tells
        (λ e.
          Triple-if (is_vm_state_inconsistent e) _ _ True (λ n. On (Tells n)) anyhow (λ _ w h. tt)
            (λ _ w h. tt))
        (λ w h. tt)

  migration_status-Harmless : Emits Harmless (migration_status env 0)
  unfolding migration_status image_migration
  migration_status-Harmless = Emits-bind (volume-Emits still env root) (λ v.
      Emits-option v (Emits-pure none)
        (λ u. Emits-bind (call-Harmless _) (λ _. Emits-silent _ _ (λ w. refl) (λ w. refl))))

  lock_shown-Harmless : (spec : Spec) → Emits Harmless (lock_shown env spec)
  unfolding lock_shown
  lock_shown-Harmless spec = Emits-bind (volume-Emits still env spec) (λ found.
      Emits-option found (Emits-pure tt)
        (λ v. Emits-bind (Emits-mono locks (lock_status-LockCall env v)) (λ _. Emits-pure tt)))

  status_of-Harmless : (spec : Spec) → Emits Harmless (status_of env spec)
  unfolding status_of
  status_of-Harmless root =
      Emits-bind (lock_shown-Harmless root)
        (λ _. Emits-bind migration_status-Harmless (λ _. Emits-pure tt))
  status_of-Harmless swap = lock_shown-Harmless swap
  status_of-Harmless tmp = lock_shown-Harmless tmp
  status_of-Harmless cidata = lock_shown-Harmless cidata

  status_of_all-Harmless : (more : List Spec) → Emits Harmless (status_of_all env more)
  unfolding status_of_all
  status_of_all-Harmless [] = Emits-pure tt
  status_of_all-Harmless (spec ∷ more) =
      Emits-bind (status_of-Harmless spec) (λ _. status_of_all-Harmless more)

  status-Harmless : Emits Harmless (Ceph.status env)
  unfolding Ceph.status
  status-Harmless = status_of_all-Harmless specs

  locate-Harmless : Emits Harmless (locate_live_service env)
  unfolding locate_live_service
  locate-Harmless = Emits-bind (call-Harmless _) (λ _. Emits-silent _ _ (λ w. refl) (λ w. refl))

  LockFile-Stable : (n : ℕ) → Stable LockFile (Tells n)
  LockFile-Stable zero (Event.flock_asked b r) t h k = k
  LockFile-Stable zero Event.flock_released t h k = k
  LockFile-Stable (suc zero) (Event.flock_asked b r) t h k = k
  LockFile-Stable (suc zero) Event.flock_released t h k = k
  LockFile-Stable (suc (suc n)) e t h k = tt
  LockFile-Stable _ _ t h k = elim h [ ]

  -- Where status answers 0, the newest look found a running process and a monitor that says so; where
  -- it answers 1, neither.
  pub status-Tells : Triple True (status env) (Through Tells) anyhow
  unfolding status pure
  status-Tells = locked-Through env Tells true _ LockFile-Stable (
      Triple-bind (exit_code env) _ True (λ n. On (Tells n)) (λ n. On (Tells n)) anyhow
        exit_code-Tells
        (λ code.
          Triple-bind (Ceph.status env) _ (On (Tells code)) (λ _. On (Tells code))
            (λ n. On (Tells n)) anyhow (onwards code status-Harmless)
            (λ _.
              Triple-bind (locate_live_service env) _ (On (Tells code)) (λ _. On (Tells code))
                (λ n. On (Tells n)) anyhow (onwards code locate-Harmless) (λ _ w h. h))))
