-- ===== src/Ceph/Specs/Prepared.antt =====
-- The calls that find, make, remove and move the images, which write to none.
use fc_qemu.Base.{ℕ, refl, Bool, true, false, not, some, List, [], ◌∷◌}
use fc_qemu.World.{
  Image, Call, Event, Env, ◌>>◌, Emits, Emits-bind, Emits-if, Emits-pure, Emits-raise, Emits-option,
  Emits-mono, Emits-except, export_partition,
}
use fc_qemu.Volume.{unlock}
use fc_qemu.Volume.Calls.{Locks}
use fc_qemu.Volume.Removal.{LockCall, unlock-LockCall}
use fc_qemu.Ceph.Pools.{
  Spec, root, swap, tmp, cidata, name_of, get_volume, in_some_pool, ensure_volume_presence,
  remove_volume,
}
use fc_qemu.Ceph.Specs.{
  regenerate, regen_xfs_uuid, start_root, ensure_root_presence, ensure_presence, remove_outdated,
  pre_start, is_timeout_error,
}
use fc_qemu.Ceph.Specs.Idle.{Idle, Still, call-Still}
use fc_qemu.Ceph.Specs.Upkeep.{wait_for_part1dev-Still, mapped-Emits, mounted-Emits}
use fc_qemu.Ceph.Specs.Finding.{
  run-Emits, ensure_migration-Emits, idle, seek-Emits, get_state-Emits, exists_in_pools-Emits,
  exists_in_desired_pool-Emits, exists_in_pool-Emits, ioctx-Emits, the_volume-Emits, close-Emits,
  get_volume-Emits,
}

pub LockCall→Idle : (e : Event) → LockCall e → Idle e
LockCall→Idle (Event.image_opened _ _) h = refl
LockCall→Idle (Event.lock_listed _ _) h = refl
LockCall→Idle (Event.lock_added _ _ _) h = refl
LockCall→Idle (Event.lock_removed _ _ _) h = refl
LockCall→Idle _ h = elim h [ ]

pub Locks→Idle : (host : ℕ) (v : Image) (e : Event) → Locks host v e → Idle e
Locks→Idle host v (Event.image_opened _ _) h = refl
Locks→Idle host v (Event.lock_listed _ _) h = refl
Locks→Idle host v (Event.lock_added _ _ _) h = refl
Locks→Idle host v _ h = elim h [ ]

module _ {E : Event → Type 0} (still : (e : Event) → Still e → E e)
    (locks : (e : Event) → LockCall e → E e) (env : Env) (fuel : ℕ) where
  pub unlock-Emits : (v : Image) (force : Bool) → Emits E (unlock env v force)
  unlock-Emits v force = Emits-mono locks (unlock-LockCall env v force)

  pub start_root-Emits : Emits E (start_root env fuel)
  unfolding start_root
  start_root-Emits = Emits-bind (exists_in_desired_pool-Emits still env root) (λ here.
      Emits-if (not here)
        (Emits-bind (exists_in_pool-Emits still env root) (λ current_pool.
          Emits-bind (ensure_migration-Emits still env fuel false true) (λ pending.
            Emits-if (not pending)
              (Emits-bind (the_volume-Emits still env root) (λ v.
                Emits-bind (unlock-Emits v false) (λ _. Emits-bind (close-Emits still env v) (λ _.
                  Emits-bind (run-Emits still env (Call.migration_prepared current_pool _) refl)
                    (λ _. get_volume-Emits still env root)))))
              (Emits-pure tt))))
        (Emits-pure tt))

  pub in_some_pool-Emits : (name : ℕ) (pools : List ℕ) → Emits E (in_some_pool env name pools)
  unfolding in_some_pool
  in_some_pool-Emits name [] = Emits-pure false
  in_some_pool-Emits name (pool ∷ pools) =
      Emits-bind (seek-Emits still env _)
        (λ found. Emits-if found (Emits-pure true) (in_some_pool-Emits name pools))

  pub ensure_volume_presence-Emits :
      (name pool wanted : ℕ) → Emits E (ensure_volume_presence env name pool wanted)
  unfolding ensure_volume_presence
  ensure_volume_presence-Emits name pool wanted = Emits-bind (get_state-Emits still env) (λ w.
      Emits-bind (in_some_pool-Emits name w.ioctxs) (λ found.
        Emits-if (not found)
          (Emits-bind (ioctx-Emits still env pool) (λ _. run-Emits still env _ refl))
          (Emits-pure tt)))

  pub remove_volume-Emits : (name pool : ℕ) → Emits E (remove_volume env name pool)
  unfolding remove_volume
  remove_volume-Emits name pool =
      Emits-bind (ioctx-Emits still env pool) (λ _. run-Emits still env _ refl)

  pub remove_outdated-Emits :
      (spec : Spec) (pools : List ℕ) → Emits E (remove_outdated env fuel spec pools)
  unfolding remove_outdated
  remove_outdated-Emits spec [] = Emits-pure tt
  remove_outdated-Emits spec (pool ∷ pools) =
      Emits-bind (Emits-if _ (remove_volume-Emits _ pool) (Emits-pure tt))
        (λ _. remove_outdated-Emits spec pools)

  pub pre_start-Emits : (spec : Spec) → Emits E (pre_start env fuel spec)
  unfolding pre_start
  pre_start-Emits root = Emits-pure tt
  pre_start-Emits swap =
      Emits-bind (exists_in_pools-Emits still env swap) (remove_outdated-Emits swap)
  pre_start-Emits tmp = Emits-bind (exists_in_pools-Emits still env tmp) (remove_outdated-Emits tmp)
  pre_start-Emits cidata =
      Emits-bind (exists_in_pools-Emits still env cidata) (remove_outdated-Emits cidata)

  pub export_partition-Emits : (v : Image) → Emits E (export_partition env v)
  unfolding export_partition
  export_partition-Emits v =
      Emits-bind (idle still env (call-Still env (Call.partition_typed v) refl))
        (λ _. record { keeps = λ T s w h. h; spares = λ s w h. h })

  pub regenerate-Emits : (v : Image) → Emits E (regenerate env fuel v)
  unfolding regenerate
  regenerate-Emits v = Emits-bind (export_partition-Emits v) (λ output.
      Emits-if _
        (Emits-bind (mounted-Emits env still fuel v (Emits-pure tt))
          (λ _. run-Emits still env (Call.uuid_generated v) refl))
        (Emits-pure tt))

  pub regen_xfs_uuid-Emits : (v : Image) → Emits E (regen_xfs_uuid env fuel v)
  unfolding regen_xfs_uuid
  regen_xfs_uuid-Emits v = mapped-Emits env still fuel v (
      Emits-bind
        (Emits-except
          (Emits-bind (idle still env (wait_for_part1dev-Still env v)) (λ _. Emits-pure true))
          (λ e. Emits-if (is_timeout_error e) (Emits-pure false) (Emits-raise e)))
        (λ found. Emits-if found (regenerate-Emits v) (Emits-pure tt)))

  pub ensure_root_presence-Emits : Emits E (ensure_root_presence env fuel)
  unfolding ensure_root_presence
  ensure_root_presence-Emits = Emits-bind (exists_in_desired_pool-Emits still env root) (λ here.
      Emits-bind
        (Emits-if here (Emits-pure (some env.rbd_pool)) (exists_in_pool-Emits still env root))
        (λ pool.
          Emits-option pool
            (Emits-bind (run-Emits still env Call.root_created refl) (λ _.
              Emits-bind (get_volume-Emits still env root)
                (λ _. Emits-bind (the_volume-Emits still env root) regen_xfs_uuid-Emits)))
            (λ _. get_volume-Emits still env root)))

  pub present :
      (spec : Spec)
      → Emits E (
          ensure_volume_presence env (name_of spec) env.rbd_pool (env.desired_size (name_of spec))
          >> get_volume env spec)
  present spec =
      Emits-bind (ensure_volume_presence-Emits (name_of spec) _ _)
        (λ _. get_volume-Emits still env spec)

  pub ensure_presence-Emits : (spec : Spec) → Emits E (ensure_presence env fuel spec)
  unfolding ensure_presence
  ensure_presence-Emits root = ensure_root_presence-Emits
  ensure_presence-Emits swap = present swap
  ensure_presence-Emits tmp = present tmp
  ensure_presence-Emits cidata = present cidata
