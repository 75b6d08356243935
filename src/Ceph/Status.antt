-- ===== src/Ceph/Status.antt =====
-- What `Ceph.status` of hazmat/ceph.py asks about the disks.
use fc_qemu.Base.{List, [], ◌∷◌}
use fc_qemu.World.{Env, Action, pure, ◌>>=◌, ◌>>◌, option}
use fc_qemu.Volume.{lock_status}
use fc_qemu.Ceph.Pools.{Spec, root, swap, tmp, cidata, specs, volume}
use fc_qemu.Ceph.Specs.{migration_status}

module _ (env : Env) where
  unfoldable pub lock_shown : Spec → Action (Unit {0})
  lock_shown spec = do
    found ← volume env spec
    option found (pure tt) (λ v. lock_status env v >>= λ _. pure tt)

  unfoldable pub status_of : Spec → Action (Unit {0})
  status_of root = lock_shown root >> (migration_status env 0 >>= λ _. pure tt)
  status_of swap = lock_shown swap
  status_of tmp = lock_shown tmp
  status_of cidata = lock_shown cidata

  unfoldable pub status_of_all : List Spec → Action (Unit {0})
  status_of_all [] = pure tt
  status_of_all (spec ∷ more) = status_of spec >> status_of_all more

  unfoldable pub status : Action (Unit {0})
  status = status_of_all specs
