-- ===== src/Ceph/Specs/Upkeep.antt =====
-- The calls of the work on a device: those that hold it, and those of its body.
use fc_qemu.Base.{ℕ, zero, suc, ◌≡◌, refl, not, none}
use fc_qemu.World.{
  Image, Call, Event, Env, Action, Emits, Emits-bind, Emits-if, Emits-pure, Emits-mono,
  Emits-finally, emits,
}
use fc_qemu.Volume.Device.{
  run, wait_for_device, map_image, unmap_image, map, unmap, mapped, find_partition,
  identify_partition, wait_for_part1dev, mount, umount, mounted,
}
use fc_qemu.Ceph.Specs.Idle.{
  written_by, Still, get_state-Still, sleep-Still, diverge-Still, set_volume_state-Still,
  call-Still, rbdimage-Still, time_out-Still, while_ticking-Still,
}

module _ (env : Env) where
  pub run-Still : (c : Call) → written_by c ≡ none → Emits Still (run env c)
  run-Still c h = Emits-bind (call-Still env c h) (λ _. Emits-pure tt)

  wait_for_device-Still : (fuel : ℕ) (v : Image) → Emits Still (wait_for_device env fuel v)
  unfolding wait_for_device
  wait_for_device-Still zero v = diverge-Still
  wait_for_device-Still (suc fuel) v =
      Emits-bind (call-Still env (Call.device_seen v) refl) (λ seen.
        Emits-if seen (Emits-pure tt)
          (Emits-bind (sleep-Still 100) (λ _. wait_for_device-Still fuel v)))

  map-Still : (fuel : ℕ) (v : Image) → Emits Still (map env fuel v)
  unfolding map map_image
  map-Still fuel v =
      search
        (
          emits, get_state-Still, rbdimage-Still, run-Still, set_volume_state-Still,
          wait_for_device-Still,
        )
        depth 14

  unmap-Still : (v : Image) → Emits Still (unmap env v)
  unfolding unmap unmap_image
  unmap-Still v =
      search (emits, get_state-Still, rbdimage-Still, run-Still, set_volume_state-Still) depth 14

  find_partition-Still : (v : Image) → Emits Still (find_partition env v)
  unfolding find_partition
  find_partition-Still v = search (emits, call-Still) depth 12

  identify_partition-Still : (v : Image) → Emits Still (identify_partition env v)
  unfolding identify_partition
  identify_partition-Still v = search (emits, call-Still) depth 12

  pub wait_for_part1dev-Still : (v : Image) → Emits Still (wait_for_part1dev env v)
  unfolding wait_for_part1dev
  wait_for_part1dev-Still v =
      search
        (
          emits, run-Still, time_out-Still, while_ticking-Still, find_partition-Still,
          identify_partition-Still, set_volume_state-Still,
        )
        depth 20

  mount-Still : (v : Image) → Emits Still (mount env v)
  unfolding mount
  mount-Still v =
      search (emits, get_state-Still, wait_for_part1dev-Still, run-Still, set_volume_state-Still)
        depth 16

  umount-Still : (v : Image) → Emits Still (umount env v)
  unfolding umount
  umount-Still v = search (emits, get_state-Still, run-Still, set_volume_state-Still) depth 14

  -- The brackets add nothing that writes to what their bodies do.
  module _ {E : Event → Type 0} (still : (e : Event) → Still e → E e) where
    up : {A : Type 0} {m : Action A} → Emits Still m → Emits E m
    up x = Emits-mono still x

    pub mapped-Emits :
        {A : Type 0} (fuel : ℕ) (v : Image) {body : Action A}
        → Emits E body
        → Emits E (mapped env fuel v body)
    unfolding mapped
    mapped-Emits fuel v b = Emits-bind (up get_state-Still) (λ w.
        Emits-if (w.volume v.name).device b
          (Emits-bind (up (map-Still fuel v)) (λ _. Emits-finally b (up (unmap-Still v)))))

    pub mounted-Emits :
        {A : Type 0} (fuel : ℕ) (v : Image) {body : Action A}
        → Emits E body
        → Emits E (mounted env fuel v body)
    unfolding mounted
    mounted-Emits fuel v b = Emits-bind (up get_state-Still) (λ w.
        Emits-bind (Emits-if (not (w.volume v.name).device) (up (map-Still fuel v)) (Emits-pure tt))
          (λ _. Emits-bind (up (mount-Still v)) (λ _. Emits-finally b (
            Emits-bind (up (umount-Still v)) (λ _.
              Emits-if (not (w.volume v.name).device) (up (unmap-Still v)) (Emits-pure tt))))))
