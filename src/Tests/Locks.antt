-- ===== src/Tests/Locks.antt =====
-- Examples for the locks.
use fc_qemu.Base.{refl}
use fc_qemu.World.{Ends}
use fc_qemu.Tests.{calm, idle}
use fc_qemu.Volume.Known.{RemovesOnly}
use fc_qemu.Ceph as Ceph
use fc_qemu.Ceph.Locks.{AllKnown, Any, lock-AllKnown}
use fc_qemu.Ceph.Mine.{Mine, locked_by_me-Mine}
use fc_qemu.Ceph.Removal.{marks, ceph_unlock-RemovesOnly}

lock-AllKnown_example : Ends (λ _. AllKnown calm idle.volumes) (Any calm) (Ceph.lock calm idle)
lock-AllKnown_example = lock-AllKnown calm idle ((refl, tt), (tt, tt))

ceph_unlock-RemovesOnly_example : RemovesOnly 1 (marks idle) (Ceph.unlock calm idle).1.trace
ceph_unlock-RemovesOnly_example = ceph_unlock-RemovesOnly calm idle tt

locked_by_me-Mine_example : Ends (Mine calm idle.volumes) (Any calm) (Ceph.locked_by_me calm idle)
locked_by_me-Mine_example = locked_by_me-Mine calm idle ((refl, tt), (tt, tt))
