-- ===== src/Volume/Device/Brackets.antt =====
-- What the bracket around the work on a device leaves.
use fc_qemu.Base.{
  ℕ, zero, suc, ◌≡◌, Bool, true, false, none, some, arith, Result, ok, err, stuck, raises, returns,
  [], ◌∷◌, ◌⊎◌, inl, ◌==◌, if◌then◌else◌,
}
use fc_qemu.World.{
  Image, World, Event, Trace, Call, Env, Action, Fails, calls, Ends, Triple, Keeps, Triple-bind,
  try_finally, pure, raise, set_volume_state, call, sleep, diverge, Triple-if, ◌>>◌,
}
use fc_qemu.Volume.{rbdimage}
use fc_qemu.Volume.Device.{map, unmap, map_image, unmap_image, wait_for_device, mapped, run}

-- Does the kernel have a device for the volume `name`, by what `rbd map` and `rbd unmap` have done?
unfoldable pub kernel_mapped : ℕ → Trace → Bool
kernel_mapped name [] = false
kernel_mapped name (Event.called (Call.image_mapped u) (returns _) ∷ t) =
    if u.name == name then true else kernel_mapped name t
kernel_mapped name (Event.called (Call.image_unmapped u) (returns _) ∷ t) =
    if u.name == name then false else kernel_mapped name t
kernel_mapped name (_ ∷ t) = kernel_mapped name t

-- The newest call was one that opens the image, waits for the device or gives it back, and it failed.
pub left_behind : Trace → Bool
left_behind (Event.image_opened u (some true) ∷ t) = false
left_behind (Event.image_opened u _ ∷ t) = true
left_behind (Event.called (Call.device_seen u) (raises e) ∷ t) = true
left_behind (Event.called (Call.image_unmapped u) (raises e) ∷ t) = true
left_behind _ = false

module _ (env : Env) (v : Image) where
  -- The attribute of the image says whether the kernel has a device.
  abbrev pub Linked : World → Type 0
  Linked w = (w.volume v.name).mapped_device ≡ kernel_mapped v.name w.trace

  -- The volume has no device, and neither the image nor the kernel has one for it.
  abbrev pub Released : World → Type 0
  Released w =
      ((w.volume v.name).device ≡ false)
      × ((w.volume v.name).mapped_device ≡ false)
      × (kernel_mapped v.name w.trace ≡ false)

  -- An end by an exception; a loop that is out of fuel says nothing.
  abbrev pub ReleasedOrFailed : Fails
  ReleasedOrFailed none w = Unit
  ReleasedOrFailed (some e) w = Released w ⊎ (left_behind w.trace ≡ true)

  unmap-Released : Triple Linked (unmap env v) (λ _. Released) ReleasedOrFailed
  unfolding unmap unmap_image rbdimage calls left_behind kernel_mapped
  unmap-Released w h = ground arith

  rbdimage-Released : Triple Released (rbdimage env v) (λ _. Released) ReleasedOrFailed
  unfolding rbdimage calls kernel_mapped
  rbdimage-Released w h = ground arith

  look-Linked : Triple Linked (call env (Call.device_seen v)) (λ _. Linked) ReleasedOrFailed
  unfolding calls left_behind kernel_mapped
  look-Linked w h = ground arith

  sleep-Linked : (d : ℕ) → Triple Linked (sleep d) (λ _. Linked) ReleasedOrFailed
  unfolding calls kernel_mapped
  sleep-Linked d w h = h

  wait_for_device-Linked :
      (fuel : ℕ) → Triple Linked (wait_for_device env fuel v) (λ _. Linked) ReleasedOrFailed
  unfolding wait_for_device diverge pure
  wait_for_device-Linked zero = λ w h. tt
  wait_for_device-Linked (suc fuel) =
      Triple-bind (call env (Call.device_seen v)) _ Linked (λ _. Linked) (λ _. Linked)
        ReleasedOrFailed look-Linked
        (λ seen.
          Triple-if seen (pure tt) _ Linked (λ _. Linked) ReleasedOrFailed (λ _ w h. h)
            (λ _.
              Triple-bind (sleep 100) _ Linked (λ _. Linked) (λ _. Linked) ReleasedOrFailed
                (sleep-Linked 100) (λ _. wait_for_device-Linked fuel)))

  -- `rbd map`, before the wait.
  attach-Linked :
      Triple Released
        (run env (Call.image_mapped v)
          >> set_volume_state v (λ s. record s { mapped_device = true }))
        (λ _. Linked)
        ReleasedOrFailed
  unfolding calls kernel_mapped
  attach-Linked w h = ground arith

  map_image-Linked :
      (fuel : ℕ) → Triple Released (map_image env fuel v) (λ _. Linked) ReleasedOrFailed
  unfolding map_image calls
  map_image-Linked fuel w h = rw h.1 (
      Triple-bind _ (λ _. wait_for_device env fuel v) Released (λ _. Linked) (λ _. Linked)
        ReleasedOrFailed attach-Linked (λ _. wait_for_device-Linked fuel) w h)

  device-Linked :
      Triple Linked
        (set_volume_state v (λ s. record s { device = true }))
        (λ _. Linked)
        ReleasedOrFailed
  unfolding calls
  device-Linked w h = ground arith

  map-Linked : (fuel : ℕ) → Triple Released (map env fuel v) (λ _. Linked) ReleasedOrFailed
  unfolding map
  map-Linked fuel =
      Triple-bind _ _ Released (λ _. Linked) (λ _. Linked) ReleasedOrFailed
        (Triple-bind (rbdimage env v) _ Released (λ _. Released) (λ _. Linked) ReleasedOrFailed
          rbdimage-Released (λ _. map_image-Linked fuel))
        (λ _. device-Linked)

  -- The end of the bracket, for a body that ends with `x`.
  finally-Released :
      {A : Type 0} (x : Result A × World)
      → Ends (λ _. Linked) (λ _. Linked) x
      → Ends (λ _. Released) ReleasedOrFailed (try_finally (λ _. x) (unmap env v) x.1)
  unfolding try_finally pure raise
  finally-Released (ok a, w) l =
      Triple-bind (unmap env v) (λ _. pure a) Linked (λ _. Released) (λ _. Released)
        ReleasedOrFailed unmap-Released (λ _ u h. h) w l
  finally-Released (err e, w) l =
      Triple-bind (unmap env v) (λ _. raise e) Linked (λ _. Released) (λ _. Released)
        ReleasedOrFailed unmap-Released (λ _ u h. inl h) w l
  finally-Released (stuck, w) l = tt

  after_map :
      {A : Type 0} (body : Action A)
      → Keeps Linked body
      → Triple Linked (try_finally body (unmap env v)) (λ _. Released) ReleasedOrFailed
  unfolding try_finally
  after_map body k w h = finally-Released (body w) (k w h)

  -- A volume that had no device, and none in the kernel, has none after `with mapped`, however the
  -- body ends, unless the newest call is one that opens the image, waits for the device or gives it
  -- back and has failed. The body may do anything that leaves the image knowing whether the kernel
  -- has a device.
  pub mapped-Released :
      {A : Type 0} (fuel : ℕ) (body : Action A)
      → Keeps Linked body
      → Triple Released (mapped env fuel v body) (λ _. Released) ReleasedOrFailed
  unfolding mapped calls
  mapped-Released {A = A} fuel body k w h = rw h.0 (
      Triple-bind (map env fuel v) (λ _. try_finally body (unmap env v)) Released (λ _. Linked)
        (λ _. Released) ReleasedOrFailed (map-Linked fuel) (λ _. after_map body k) w h)
