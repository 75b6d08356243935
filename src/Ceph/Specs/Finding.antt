-- ===== src/Ceph/Specs/Finding.antt =====
-- The calls of the search for an image, which write to none.
use fc_qemu.Base.{
  ℕ, ◌≡◌, refl, Bool, true, false, none, some, List, [], ◌∷◌, attribute_error, runtime_error,
  if◌then◌else◌,
}
use fc_qemu.World.{
  Image, ImageMigration, prepared, executed, executing, Call, Event, Env, Action, get_state, Emits,
  Emits-bind, Emits-if, Emits-pure, Emits-raise, Emits-option, Emits-mono, emits, image_migration,
}
use fc_qemu.Volume.Device.{run}
use fc_qemu.Volume.Size.{close}
use fc_qemu.Ceph.Pools.{
  Spec, root, name_of, seek, pools_with, exists_in_pools, ioctx, exists_in_desired_pool, sole_pool,
  exists_in_pool, volume, the_volume, attach, get_volume, volume_named,
}
use fc_qemu.Ceph.Specs.{move_on, migration_status, ensure_migration}
use fc_qemu.Ceph.Specs.Idle.{
  written_by, Still, get_state-Still, set_volume_state-Still, set_volumes-Still, open_image-Still,
  call-Still,
}
use fc_qemu.Ceph.Specs.Upkeep.{run-Still}

module _ {E : Event → Type 0} (still : (e : Event) → Still e → E e) (env : Env) where
  -- Finding the image.
  pub idle : {A : Type 0} {m : Action A} → Emits Still m → Emits E m
  idle x = Emits-mono still x

  pub seek-Emits : (v : Image) → Emits E (seek env v)
  unfolding seek
  seek-Emits v = idle (search (emits, open_image-Still) depth 9)

  pub pools_with-Emits : (name : ℕ) (pools : List ℕ) → Emits E (pools_with env name pools)
  unfolding pools_with
  pools_with-Emits name [] = Emits-pure []
  pools_with-Emits name (pool ∷ pools) =
      Emits-bind (seek-Emits (record { pool = pool; name = name })) (λ found.
        Emits-bind (pools_with-Emits name pools)
          (λ rest. Emits-pure (if found then pool ∷ rest else rest)))

  pub get_state-Emits : Emits E get_state
  get_state-Emits = idle get_state-Still

  pub exists_in_pools-Emits : (spec : Spec) → Emits E (exists_in_pools env spec)
  unfolding exists_in_pools
  exists_in_pools-Emits spec = search (emits, get_state-Emits, pools_with-Emits) depth 9

  pub ioctx-Emits : (pool : ℕ) → Emits E (ioctx env pool)
  unfolding ioctx
  ioctx-Emits pool = search (emits, get_state-Emits) depth 9

  pub exists_in_desired_pool-Emits : (spec : Spec) → Emits E (exists_in_desired_pool env spec)
  unfolding exists_in_desired_pool
  exists_in_desired_pool-Emits spec = search (emits, ioctx-Emits, seek-Emits) depth 9

  pub sole_pool-Emits : (pools : List ℕ) → Emits E (sole_pool env pools)
  sole_pool-Emits [] = Emits-pure none
  sole_pool-Emits (p ∷ []) = Emits-pure (some p)
  sole_pool-Emits (p ∷ q ∷ pools) = Emits-raise runtime_error

  pub exists_in_pool-Emits : (spec : Spec) → Emits E (exists_in_pool env spec)
  unfolding exists_in_pool
  exists_in_pool-Emits spec = Emits-bind (exists_in_pools-Emits spec) sole_pool-Emits

  pub volume-Emits : (spec : Spec) → Emits E (volume env spec)
  unfolding volume
  volume-Emits spec =
      Emits-bind get_state-Emits (λ w. Emits-pure (volume_named (name_of spec) w.volumes))

  pub the_volume-Emits : (spec : Spec) → Emits E (the_volume env spec)
  unfolding the_volume
  the_volume-Emits spec =
      Emits-bind (volume-Emits spec)
        (λ v. Emits-option v (Emits-raise attribute_error) (λ u. Emits-pure u))

  pub close-Emits : (v : Image) → Emits E (close env v)
  unfolding close
  close-Emits v = idle (set_volumes-Still _)

  pub attach-Emits : (v : Image) → Emits E (attach env v)
  unfolding attach
  attach-Emits v = idle (search (emits, set_volume_state-Still, set_volumes-Still))

  pub get_volume-Emits : (spec : Spec) → Emits E (get_volume env spec)
  unfolding get_volume
  get_volume-Emits spec = Emits-bind (volume-Emits spec) (λ old.
      Emits-bind (Emits-option old (Emits-pure tt) close-Emits) (λ _.
        Emits-bind (exists_in_desired_pool-Emits spec) (λ desired.
          Emits-bind (Emits-if desired (Emits-pure (some env.rbd_pool)) (exists_in_pool-Emits spec))
            (λ pool.
              Emits-option pool (Emits-pure tt)
                (λ p. Emits-bind (ioctx-Emits p) (λ _. attach-Emits _))))))

  pub run-Emits : (c : Call) → written_by c ≡ none → Emits E (run env c)
  run-Emits c h = idle (run-Still env c h)

  module _ (fuel : ℕ) where
    pub migration_status-Emits : Emits E (migration_status env fuel)
    unfolding migration_status image_migration
    migration_status-Emits = Emits-bind (volume-Emits root) (λ v.
        Emits-option v (Emits-pure none) (λ u.
          Emits-bind (idle (call-Still env _ refl))
            (λ _. record { keeps = λ T s w h. h; spares = λ s w h. h })))

    pub execute-Emits : Emits E (move_on env fuel prepared true true)
    unfolding move_on
    execute-Emits =
        Emits-bind (the_volume-Emits root)
          (λ v. Emits-bind (run-Emits _ refl) (λ _. Emits-pure true))

    pub commit-Emits : Emits E (move_on env fuel executed true true)
    unfolding move_on
    commit-Emits =
        Emits-bind (the_volume-Emits root)
          (λ v. Emits-bind (run-Emits _ refl) (λ _. Emits-pure false))

    pub move_on-Emits : (m : ImageMigration) (x c : Bool) → Emits E (move_on env fuel m x c)
    unfolding move_on
    move_on-Emits prepared true c = execute-Emits
    move_on-Emits prepared false c = Emits-pure true
    move_on-Emits executed x true = commit-Emits
    move_on-Emits executed x false = Emits-pure true
    move_on-Emits executing x c = Emits-pure true

    pub ensure_migration-Emits : (x c : Bool) → Emits E (ensure_migration env fuel x c)
    unfolding ensure_migration
    ensure_migration-Emits x c =
        Emits-bind migration_status-Emits
          (λ m. Emits-option m (Emits-pure false) (λ s. move_on-Emits s x c))
