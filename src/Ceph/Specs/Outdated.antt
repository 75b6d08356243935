-- ===== src/Ceph/Specs/Outdated.antt =====
-- `pre_start`: which images it removes.
use fc_qemu.Base.{ℕ, ◌≡◌, false, not, List, [], ◌∷◌, ◌==◌, arith, if◌then◌else◌}
use fc_qemu.World.{
  Image, Call, Event, Trace, World, Env, ◌>>=◌, pure, get_state, calls, Keeps, Keeps-bind,
  Keeps-pure, Triple-if, On,
}
use fc_qemu.Ceph.Pools.{
  Spec, root, swap, tmp, cidata, name_of, seek, pools_with, exists_in_pools, ioctx, remove_volume,
}
use fc_qemu.Ceph.Specs.{remove_outdated, pre_start}

-- No image of `pool` was removed, and none of another name than `name`.
unfoldable pub Removes : ℕ → ℕ → Trace → Type 0
Removes pool name [] = Unit
Removes pool name (Event.called (Call.image_removed v) r ∷ t) =
    ((v.pool == pool) ≡ false) × ((v.name ≡ name) × Removes pool name t)
Removes pool name (_ ∷ t) = Removes pool name t

module _ (env : Env) (fuel : ℕ) (spec : Spec) where
  abbrev Good : World → Type 0
  Good = On (Removes env.rbd_pool (name_of spec))

  remove_volume-Good :
      (pool : ℕ)
      → (pool == env.rbd_pool) ≡ false
      → Keeps Good (remove_volume env (name_of spec) pool)
  unfolding remove_volume ioctx Removes calls
  remove_volume-Good pool h w g = ground arith

  seek-Good : (v : Image) → Keeps Good (seek env v)
  unfolding seek Removes calls
  seek-Good v w g = ground arith

  pools_with-Good : (name : ℕ) (pools : List ℕ) → Keeps Good (pools_with env name pools)
  unfolding pools_with
  pools_with-Good name [] = Keeps-pure Good []
  pools_with-Good name (pool ∷ pools) =
      Keeps-bind Good _ _ (seek-Good (record { pool = pool; name = name })) (λ found.
        Keeps-bind Good _ _ (pools_with-Good name pools)
          (λ rest. Keeps-pure Good (if found then pool ∷ rest else rest)))

  remove_outdated-Good : (pools : List ℕ) → Keeps Good (remove_outdated env fuel spec pools)
  unfolding remove_outdated
  remove_outdated-Good [] = Keeps-pure Good tt
  remove_outdated-Good (pool ∷ pools) =
      Keeps-bind Good _ _
        (Triple-if (not (pool == env.rbd_pool)) _ (pure tt) Good (λ _. Good) (λ _. Good)
          (λ e. remove_volume-Good pool (ground (arith, e))) (λ _. Keeps-pure Good tt))
        (λ _. remove_outdated-Good pools)

  search_and_remove :
      Keeps Good (exists_in_pools env spec >>= λ pools. remove_outdated env fuel spec pools)
  unfolding exists_in_pools get_state
  search_and_remove =
      Keeps-bind Good _ _
        (Keeps-bind Good _ _ (λ w g. g) (λ w. pools_with-Good (name_of spec) w.ioctxs))
        remove_outdated-Good

-- `pre_start` removes only images of its own disk, and none in the pool that the VM is to use.
pub pre_start-Removes :
    (env : Env) (fuel : ℕ) (spec : Spec)
    → Keeps (On (Removes env.rbd_pool (name_of spec))) (pre_start env fuel spec)
unfolding pre_start
pre_start-Removes env fuel root = Keeps-pure _ tt
pre_start-Removes env fuel swap = search_and_remove env fuel swap
pre_start-Removes env fuel tmp = search_and_remove env fuel tmp
pre_start-Removes env fuel cidata = search_and_remove env fuel cidata
