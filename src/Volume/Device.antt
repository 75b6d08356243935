-- ===== src/Volume/Device.antt =====
-- The device and the mount point of a volume: `map`, `unmap`, `mapped`, `wait_for_part1dev`, `mount`,
-- `umount`, `mounted` of class Image in hazmat/volume.py, with `map` and `unmap` of hazmat/libceph.py.
pub mod Brackets
use fc_qemu.Base.{
  ℕ, zero, suc, ◌*◌, Bool, true, false, not, Option, none, some, runtime_error, if◌then◌else◌,
}
use fc_qemu.World.{
  Image, Call, Env, Action, pure, raise, diverge, ◌>>=◌, ◌>>◌, when◌then◌else◌, only_if,
  try_finally, get_state, call, sleep, set_volume_state,
}
use fc_qemu.Timeout.{second, time_out, while_ticking, fuel_for}
use fc_qemu.Volume.{rbdimage}

module _ (env : Env) where
  abbrev pub run : Call → Action (Unit {0})
  run c = call env c >>= λ _. pure tt

  -- `while not self.mapped_device.exists(): time.sleep(0.1)`
  unfoldable pub wait_for_device : ℕ → Image → Action (Unit {0})
  wait_for_device zero v = diverge
  wait_for_device (suc fuel) v = do
    seen ← call env (Call.device_seen v)
    when seen then pure tt else (sleep 100 >> wait_for_device fuel v)

  -- `map` of the libceph image.
  unfoldable pub map_image : ℕ → Image → Action (Unit {0})
  map_image fuel v = do
    w ← get_state
    only_if (not (w.volume v.name).mapped_device) (
        run (Call.image_mapped v)
        >> set_volume_state v (λ s. record s { mapped_device = true })
        >> wait_for_device fuel v)

  unfoldable pub unmap_image : Image → Action (Unit {0})
  unmap_image v = do
    w ← get_state
    only_if (w.volume v.name).mapped_device (
        run (Call.image_unmapped v) >> set_volume_state v (λ s. record s { mapped_device = false }))

  unfoldable pub map : ℕ → Image → Action (Unit {0})
  map fuel v =
      rbdimage env v >> map_image fuel v >> set_volume_state v (λ s. record s { device = true })

  unfoldable pub unmap : Image → Action (Unit {0})
  unmap v =
      rbdimage env v
      >> unmap_image v
      >> set_volume_state v (λ s. record s { part1dev = false; device = false })

  -- `with self.mapped():`
  unfoldable pub mapped : {A : Type 0} → ℕ → Image → Action A → Action A
  mapped fuel v body = do
    w ← get_state
    when (w.volume v.name).device then body else (map fuel v >> try_finally body (unmap v))

  -- A round of the first loop: is one of the two candidates a block device?
  unfoldable pub find_partition : Image → Action (Option Bool)
  find_partition v = do
    dashed ← call env (Call.partition_seen v true)
    when dashed then pure (some true) else (do
      plain ← call env (Call.partition_seen v false)
      when plain then pure (some false) else pure none)

  -- A round of the second loop. `blkid` answers false where it exits with 2.
  unfoldable pub identify_partition : Image → Action (Option (Unit {0}))
  identify_partition v = do
    ready ← call env (Call.partition_identified v)
    when ready then pure (some tt) else pure none

  unfoldable pub wait_for_part1dev : Image → Action (Unit {0})
  wait_for_part1dev v = do
    run (Call.partition_probed v)
    timeout ← time_out env (5 * second) 100 true
    _candidate ← while_ticking env (fuel_for (5 * second) 100) timeout (find_partition v)
    again ← time_out env (5 * second) 100 true
    run Call.devices_settled
    _found ← while_ticking env (fuel_for (5 * second) 100) again (identify_partition v)
    set_volume_state v (λ s. record s { part1dev = true })

  -- The directory of the mount point is made and removed in silence.
  unfoldable pub mount : Image → Action (Unit {0})
  mount v = do
    w ← get_state
    only_if (not (w.volume v.name).mountpoint) (
        only_if (not (w.volume v.name).device) (raise runtime_error)
        >> wait_for_part1dev v
        >> run (Call.image_mounted v)
        >> set_volume_state v (λ s. record s { mountpoint = true }))

  unfoldable pub umount : Image → Action (Unit {0})
  umount v = do
    w ← get_state
    only_if (w.volume v.name).mountpoint
        (run (Call.image_unmounted v) >> set_volume_state v (λ s. record s { mountpoint = false }))

  -- `with self.mounted():`
  unfoldable pub mounted : {A : Type 0} → ℕ → Image → Action A → Action A
  mounted fuel v body = do
    w ← get_state
    let must_unmap = not (w.volume v.name).device
    only_if must_unmap (map fuel v)
    mount v
    try_finally body (umount v >> only_if must_unmap (unmap v))
