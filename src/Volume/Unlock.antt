-- ===== src/Volume/Unlock.antt =====
-- `Volume.unlock`: whose locks it removes.
use fc_qemu.Base.{ℕ, List, [], ◌∷◌, ◌≡◌, Bool, true, false, some, arith}
use fc_qemu.World.{Image, Locker, Env, World, calls}
use fc_qemu.Volume.{unlock_image, rbdimage, lock_status, unlock, find}
use fc_qemu.Volume.Known.{RemovesOnly}

find_id : (c : ℕ) (ls : List Locker) (l : Locker) → find c ls ≡ some l → l.id ≡ c
find_id c [] l h = cc
find_id c (m ∷ ls) l h = ground (arith, find_id c ls l)

module _ (env : Env) where
  -- What a run of `unlock` keeps: the locks that it removes are this host's, or of a volume that is
  -- marked; and no volume gets marked.
  pub unlock-RemovesOnly :
      (marked : ℕ → Bool) (v : Image) (w : World)
      → ((w.volume v.name).locked_by_me ≡ true → marked v.name ≡ true)
      → RemovesOnly env.host marked w.trace
      → RemovesOnly env.host marked (unlock env v false w).1.trace
  unfolding unlock unlock_image lock_status rbdimage calls
  unlock-RemovesOnly marked v w f h = grind (arith, find_id)

  pub unlock-marks :
      (v : Image) (force : Bool) (w : World) (n : ℕ)
      → ((unlock env v force w).1.volume n).locked_by_me ≡ true
      → (w.volume n).locked_by_me ≡ true
  unfolding unlock unlock_image lock_status rbdimage calls
  unlock-marks v force w n h = ground arith
