-- ===== src/Ceph/Calls.antt =====
-- Which calls `Ceph.unlock` and `Ceph.force_unlock` make: those that concern locks.
use fc_qemu.Base.{Bool, true, List, [], ◌∷◌, refl}
use fc_qemu.World.{Image, Env, get_state, Emits, Emits-silent, emits, Emits-pure, Emits-bind}
use fc_qemu.Volume.Removal.{LockCall}
use fc_qemu.Volume.Removal as Volume_removal
use fc_qemu.Ceph.{unlock_all, unlock, stop, force_unlock_all, force_unlock}

module _ (env : Env) where
  unlock_all-LockCall : (vs : List Image) (b : Bool) → Emits LockCall (unlock_all env vs b)
  unfolding unlock_all
  unlock_all-LockCall [] b = Emits-pure b
  unlock_all-LockCall (v ∷ vs) b =
      Emits-bind (search (emits, Volume_removal.unlock-LockCall) depth 9)
        (λ c. unlock_all-LockCall vs c)

  volumes-LockCall : Emits LockCall get_state
  unfolding get_state
  volumes-LockCall = Emits-silent _ _ (λ w. refl) (λ w. refl)

  pub unlock-LockCall : Emits LockCall (unlock env)
  unfolding unlock
  unlock-LockCall = search (emits, volumes-LockCall, unlock_all-LockCall) depth 9

  pub stop-LockCall : Emits LockCall (stop env)
  unfolding stop
  stop-LockCall = unlock-LockCall

  force_unlock_all-LockCall : (vs : List Image) → Emits LockCall (force_unlock_all env vs)
  unfolding force_unlock_all
  force_unlock_all-LockCall [] = Emits-pure tt
  force_unlock_all-LockCall (v ∷ vs) =
      Emits-bind (Volume_removal.unlock-LockCall env v true) (λ _. force_unlock_all-LockCall vs)

  pub force_unlock-LockCall : Emits LockCall (force_unlock env)
  unfolding force_unlock
  force_unlock-LockCall = search (emits, volumes-LockCall, force_unlock_all-LockCall)
