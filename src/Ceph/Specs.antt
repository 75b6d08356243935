-- ===== src/Ceph/Specs.antt =====
-- The disks of a VM: RootSpec, SwapSpec, TmpSpec and CloudInitSpec of hazmat/ceph.py, and `start` and
-- `ensure` of class Ceph. What is written to a disk is a call for each program that is run: `fuel`
-- bounds the waits for a device.
pub mod Idle
pub mod Upkeep
pub mod Written
pub mod Finding
pub mod Prepared
pub mod Outdated
pub mod Harmless
pub mod Locked
use fc_qemu.Base.{
  ℕ, Bool, true, false, not, ◌&&◌, Option, none, some, List, [], ◌∷◌, Exc, timeout_error,
  assertion_error, ◌==◌, if◌then◌else◌,
}
use fc_qemu.Util.Text.{Text, chars, same}
use fc_qemu.Util.Parse.{parse_export_format, get}
use fc_qemu.World.{
  Image, ImageMigration, prepared, executed, executing, Call, Env, Action, pure, raise, ◌>>=◌, ◌>>◌,
  when◌then◌else◌, only_if, option, try_except, get_state, call, export_partition, image_migration,
}
use fc_qemu.Volume.{unlock}
use fc_qemu.Volume as Volume
use fc_qemu.Volume.Device.{run, mapped, mounted, wait_for_part1dev}
use fc_qemu.Volume.Size.{ensure_size, close}
use fc_qemu.Ceph.Pools.{
  Spec, root, swap, tmp, cidata, name_of, specs, exists_in_pools, exists_in_desired_pool,
  exists_in_pool, volume, the_volume, get_volume, ensure_volume_presence, remove_volume,
}

abbrev pub is_timeout_error : Exc → Bool
is_timeout_error timeout_error = true
is_timeout_error _ = false

abbrev is_xfs : Option Text → Bool
is_xfs none = false
is_xfs (some t) = same t (chars "xfs")

module _ (env : Env) (fuel : ℕ) where
  -- `regen_xfs_uuid`, past the wait for the partition.
  unfoldable pub regenerate : Image → Action (Unit {0})
  regenerate v = do
    output ← export_partition env v
    only_if (is_xfs (get (chars "TYPE") (parse_export_format output)))
        (mounted env fuel v (pure tt) >> run env (Call.uuid_generated v))

  unfoldable pub regen_xfs_uuid : Image → Action (Unit {0})
  regen_xfs_uuid v = mapped env fuel v (do
    found ←
        try_except (wait_for_part1dev env v >> pure true)
          (λ e. when is_timeout_error e then pure false else raise e)
    only_if found (regenerate v))

  unfoldable pub migration_status : Action (Option ImageMigration)
  migration_status = do v ← volume env root; option v (pure none) (λ u. image_migration env u)

  execute : Action Bool
  execute = do v ← the_volume env root; run env (Call.migration_executed v); pure true

  commit : Action Bool
  commit = do v ← the_volume env root; run env (Call.migration_committed v); pure false

  -- The step that the state of the migration asks for.
  unfoldable pub move_on : ImageMigration → Bool → Bool → Action Bool
  unfolding execute commit
  move_on prepared true allow_commit = execute
  move_on executed allow_execute true = commit
  move_on _ _ _ = pure true

  -- `ensure_migration`: is a migration still pending?
  unfoldable pub ensure_migration : Bool → Bool → Action Bool
  ensure_migration allow_execute allow_commit = do
    migration ← migration_status
    option migration (pure false) (λ state. move_on state allow_execute allow_commit)

  -- `start` of the root disk: a disk in another pool is made to migrate, unless it does so already.
  unfoldable pub start_root : Action (Unit {0})
  start_root = do
    here ← exists_in_desired_pool env root
    only_if (not here) (do
      current_pool ← exists_in_pool env root
      pending ← ensure_migration false true
      only_if (not pending) (do
        v ← the_volume env root
        unlock env v false
        close env v
        run env (
            Call.migration_prepared current_pool
              (record { pool = env.rbd_pool; name = name_of root }))
        get_volume env root))

  -- `self.exists_in_desired_pool() or self.exists_in_pool()`, for the root disk.
  unfoldable pub ensure_root_presence : Action (Unit {0})
  ensure_root_presence = do
    here ← exists_in_desired_pool env root
    pool ← when here then pure (some env.rbd_pool) else exists_in_pool env root
    option pool
        (do
          run env Call.root_created
          get_volume env root
          v ← the_volume env root
          regen_xfs_uuid v)
        (λ _. get_volume env root)

  unfoldable pub ensure_presence : Spec → Action (Unit {0})
  ensure_presence root = ensure_root_presence
  ensure_presence spec =
      ensure_volume_presence env (name_of spec) env.rbd_pool (env.desired_size (name_of spec))
      >> get_volume env spec

  -- The loop of `pre_start`.
  unfoldable pub remove_outdated : Spec → List ℕ → Action (Unit {0})
  remove_outdated spec [] = pure tt
  remove_outdated spec (pool ∷ pools) =
      only_if (not (pool == env.rbd_pool)) (remove_volume env (name_of spec) pool)
      >> remove_outdated spec pools

  unfoldable pub pre_start : Spec → Action (Unit {0})
  pre_start root = pure tt
  pre_start spec = do pools ← exists_in_pools env spec; remove_outdated spec pools

  unfoldable pub seed_enc : Image → Action (Unit {0})
  seed_enc v = mounted env fuel v (run env (Call.image_seeded v))

  -- `seed_cloud_init`, past the update of the file of users.
  unfoldable pub seed_cloud_init : Image → Action (Unit {0})
  seed_cloud_init v = mounted env fuel v (run env (Call.image_seeded v))

  -- `mkfs`: a partition table, a partition, and a file system on it.
  unfoldable pub mkfs : Image → Action (Unit {0})
  mkfs v = do
    w ← get_state
    only_if (not (w.volume v.name).device) (raise assertion_error)
    run env (Call.filesystem_made v)
    run env (Call.filesystem_made v)
    wait_for_part1dev env v
    run env (Call.filesystem_made v)

  unfoldable pub start_spec : Spec → Image → Action (Unit {0})
  start_spec root v = start_root
  start_spec swap v = mapped env fuel v (run env (Call.filesystem_made v))
  start_spec tmp v = mapped env fuel v (mkfs v >> seed_enc v)
  start_spec cidata v =
      mapped env fuel v (mkfs v >> seed_enc v >> only_if env.cloudinit (seed_cloud_init v))

  -- One round of the loop in `Ceph.start`. The volume is that of the specification up to its start.
  unfoldable pub start_one : Spec → Action (Unit {0})
  start_one spec = do
    old ← volume env spec
    option old (pure tt) (λ v. unlock env v false >> close env v)
    pre_start spec
    ensure_presence spec
    v ← the_volume env spec
    Volume.lock env v
    ensure_size env v (env.desired_size (name_of spec))
    start_spec spec v

  unfoldable pub start_all : List Spec → Action (Unit {0})
  start_all [] = pure tt
  start_all (spec ∷ more) = start_one spec >> start_all more

  unfoldable pub start : Action (Unit {0})
  start = start_all specs

  -- `Ceph.ensure`, where only the root disk has something to do.
  unfoldable pub ensure : Action (Unit {0})
  ensure = ensure_migration true true >>= λ _. pure tt
