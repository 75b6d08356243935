-- ===== src/Tests/Disks.antt =====
-- Examples for the disks of a VM and for `ensure_`.
use fc_qemu.Base.{refl, true, some, inr, [], ◌∷◌}
use fc_qemu.World.{Call, calls, Keeps, Ends, On}
use fc_qemu.Volume.Device.{mapped, run}
use fc_qemu.Volume.Device.Brackets.{
  kernel_mapped, Linked, Released, ReleasedOrFailed, mapped-Released,
}
use fc_qemu.Volume.Size.{ensure_size}
use fc_qemu.Volume.Size.Grows.{Grows, ensure_size-Grows}
use fc_qemu.Ceph.Pools.{tmp, ensure_volume_presence}
use fc_qemu.Ceph.Pools.Presence.{CreatesAbsent, ensure_volume_presence-CreatesAbsent}
use fc_qemu.Ceph.Specs.{pre_start, start}
use fc_qemu.Ceph.Specs.Written.{WritesLocked}
use fc_qemu.Ceph.Specs.Locked.{start-WritesLocked}
use fc_qemu.Ceph.Specs.Outdated.{Removes, pre_start-Removes}
use fc_qemu.Ensure.{Wanted, ensure_}
use fc_qemu.Ensure.Migrates.{Good}
use fc_qemu.Ensure.Guarded.{ensure_-Good}
use fc_qemu.Tests.{calm, busy, idle, root_volume}

seeds-Linked : Keeps (Linked calm root_volume) (run calm (Call.image_seeded root_volume))
unfolding calls kernel_mapped
seeds-Linked w h = h

mapped-Released_example :
    Ends
      (λ _. Released calm root_volume)
      (ReleasedOrFailed calm root_volume)
      (mapped calm 3 root_volume (run calm (Call.image_seeded root_volume)) idle)
unfolding kernel_mapped
mapped-Released_example =
    mapped-Released calm root_volume 3 (run calm (Call.image_seeded root_volume)) seeds-Linked idle
      (refl, refl, refl)

ensure_size-Grows_example :
    Ends (λ _. On (Grows calm)) (λ _. On (Grows calm)) (ensure_size calm root_volume 8 idle)
unfolding Grows
ensure_size-Grows_example = ensure_size-Grows calm root_volume 8 idle tt

start-WritesLocked_example :
    Ends (λ _. On (WritesLocked calm.host)) (λ _. On (WritesLocked calm.host)) (start calm 3 idle)
start-WritesLocked_example = start-WritesLocked calm 3 idle tt

ensure_volume_presence-CreatesAbsent_example :
    On (CreatesAbsent (0 ∷ 1 ∷ [])) (ensure_volume_presence calm 1 0 8 idle).1
unfolding CreatesAbsent
ensure_volume_presence-CreatesAbsent_example =
    ensure_volume_presence-CreatesAbsent calm 1 0 8 idle tt

pre_start-Removes_example :
    Ends (λ _. On (Removes 0 2)) (λ _. On (Removes 0 2)) (pre_start calm 3 tmp idle)
unfolding Removes
pre_start-Removes_example = pre_start-Removes calm 3 tmp idle tt

abbrev moved : Wanted
moved = record {
  online = true;
  kvm_host = some 2;
  root_size = 8;
  grace = 80000;
  require_kvm = true;
  fuel = 5;
}

ensure_-Good_example : Ends (λ _. Good) (λ _. Good) (ensure_ busy moved idle)
ensure_-Good_example = ensure_-Good busy moved (inr (2, (refl, refl))) idle tt
