-- ===== src/Ceph/Specs/Harmless.antt =====
-- The calls of `Ceph.start`, `Ceph.ensure` and `attach_volumes`, as to processes, Consul and run files.
use fc_qemu.Base.{ℕ, refl, true, false, not, List, [], ◌∷◌}
use fc_qemu.World.{
  Image, Call, Event, Env, list_pools, set_ioctxs, set_attached, Emits, Emits-bind, Emits-if,
  Emits-pure, Emits-option, Emits-mono, Emits-silent,
}
use fc_qemu.Volume.Calls.{Locks, lock-Locks}
use fc_qemu.Volume.Removal.{LockCall}
use fc_qemu.Qemu.Quiet.{Quiet}
use fc_qemu.Agent.Careful.{Release}
use fc_qemu.Ceph.Pools.{Spec, root, swap, tmp, cidata, specs, get_volumes, attach_volumes}
use fc_qemu.Ceph.Specs.{start_spec, start_one, start_all, start, ensure}
use fc_qemu.Ceph.Specs.Idle.{Still, get_state-Still, call-Still}
use fc_qemu.Ceph.Specs.Finding.{
  volume-Emits, the_volume-Emits, close-Emits, get_volume-Emits, ensure_migration-Emits,
}
use fc_qemu.Ceph.Specs.Written.{
  ensure_size-Emits, start_swap-Emits, start_tmp-Emits, start_cidata-Emits,
}
use fc_qemu.Ceph.Specs.Prepared.{
  unlock-Emits, start_root-Emits, pre_start-Emits, ensure_presence-Emits,
}

pub Still→Quiet : (e : Event) → Still e → Quiet e
Still→Quiet (Event.image_opened v r) h = refl
Still→Quiet (Event.called c r) h = refl
Still→Quiet (Event.time_read n) h = refl
Still→Quiet (Event.slept d) h = refl
Still→Quiet _ h = elim h [ ]

-- What leaves it at that, where the VM was seen off.
abbrev pub Harmless : Event → Type 0
Harmless (Event.image_opened v r) = Unit
Harmless (Event.lock_listed v r) = Unit
Harmless (Event.lock_added v c b) = Unit
Harmless (Event.lock_removed v l b) = Unit
Harmless (Event.called c r) = Unit
Harmless (Event.time_read n) = Unit
Harmless (Event.slept d) = Unit
Harmless _ = ⊥

pub Harmless→Release : (e : Event) → Harmless e → Release e
Harmless→Release (Event.image_opened v r) h t k = k
Harmless→Release (Event.lock_listed v r) h t k = k
Harmless→Release (Event.lock_added v c b) h t k = k
Harmless→Release (Event.lock_removed v l b) h t k = k
Harmless→Release (Event.called c r) h t k = k
Harmless→Release (Event.time_read n) h t k = k
Harmless→Release (Event.slept d) h t k = k
Harmless→Release _ h t k = elim h [ ]

pub still : (e : Event) → Still e → Harmless e
still (Event.image_opened v r) h = tt
still (Event.called c r) h = tt
still (Event.time_read n) h = tt
still (Event.slept d) h = tt
still _ h = elim h [ ]

pub locks : (e : Event) → LockCall e → Harmless e
locks (Event.image_opened v r) h = tt
locks (Event.lock_listed v r) h = tt
locks (Event.lock_added v c b) h = tt
locks (Event.lock_removed v l b) h = tt
locks _ h = elim h [ ]

lock_calls : (host : ℕ) (v : Image) (e : Event) → Locks host v e → Harmless e
lock_calls host v (Event.image_opened u r) h = tt
lock_calls host v (Event.lock_listed u r) h = tt
lock_calls host v (Event.lock_added u c b) h = tt
lock_calls host v _ h = elim h [ ]

module _ {E : Event → Type 0} (up : (e : Event) → Still e → E e) (env : Env) where
  get_volumes-Emits : (more : List Spec) → Emits E (get_volumes env more)
  unfolding get_volumes
  get_volumes-Emits [] = Emits-pure tt
  get_volumes-Emits (spec ∷ more) =
      Emits-bind (get_volume-Emits up env spec) (λ _. get_volumes-Emits more)

  attach_volumes-Emits : Emits E (attach_volumes env)
  unfolding attach_volumes list_pools set_ioctxs set_attached
  attach_volumes-Emits = Emits-bind (Emits-mono up get_state-Still) (λ w.
      Emits-if (not w.attached)
        (Emits-bind
          (Emits-bind (Emits-mono up (call-Still env Call.pools_listed refl))
            (λ _. Emits-silent _ _ (λ u. refl) (λ u. refl)))
          (λ pools. Emits-bind (Emits-silent _ _ (λ u. refl) (λ u. refl)) (λ _.
            Emits-bind (get_volumes-Emits specs) (λ _. Emits-silent _ _ (λ u. refl) (λ u. refl)))))
        (Emits-pure tt))

module _ (env : Env) (fuel : ℕ) where
  start_spec-Harmless : (spec : Spec) (v : Image) → Emits Harmless (start_spec env fuel spec v)
  unfolding start_spec
  start_spec-Harmless root v = start_root-Emits still locks env fuel
  start_spec-Harmless swap v = start_swap-Emits v still (λ c r h. tt) env fuel
  start_spec-Harmless tmp v = start_tmp-Emits v still (λ c r h. tt) env fuel
  start_spec-Harmless cidata v = start_cidata-Emits v still (λ c r h. tt) env fuel

  start_one-Harmless : (spec : Spec) → Emits Harmless (start_one env fuel spec)
  unfolding start_one
  start_one-Harmless spec = Emits-bind (volume-Emits still env spec) (λ old.
      Emits-bind
        (Emits-option old (Emits-pure tt) (λ v.
          Emits-bind (unlock-Emits still locks env fuel v false) (λ _. close-Emits still env v)))
        (λ _. Emits-bind (pre_start-Emits still locks env fuel spec) (λ _.
          Emits-bind (ensure_presence-Emits still locks env fuel spec) (λ _.
            Emits-bind (the_volume-Emits still env spec) (λ v.
              Emits-bind (Emits-mono (lock_calls env.host v) (lock-Locks env v)) (λ _.
                Emits-bind (ensure_size-Emits v still (λ c r h. tt) env fuel _)
                  (λ _. start_spec-Harmless spec v)))))))

  start_all-Harmless : (more : List Spec) → Emits Harmless (start_all env fuel more)
  unfolding start_all
  start_all-Harmless [] = Emits-pure tt
  start_all-Harmless (spec ∷ more) =
      Emits-bind (start_one-Harmless spec) (λ _. start_all-Harmless more)

  pub start-Harmless : Emits Harmless (start env fuel)
  unfolding start
  start-Harmless = start_all-Harmless specs

  -- What maintains the disks gives nothing up.
  pub ensure-Quiet : Emits Quiet (ensure env fuel)
  unfolding ensure
  ensure-Quiet =
      Emits-bind (ensure_migration-Emits Still→Quiet env fuel true true) (λ _. Emits-pure tt)

module _ (env : Env) where
  pub attach_volumes-Quiet : Emits Quiet (attach_volumes env)
  attach_volumes-Quiet = attach_volumes-Emits Still→Quiet env

  pub attach_volumes-Harmless : Emits Harmless (attach_volumes env)
  attach_volumes-Harmless = attach_volumes-Emits still env
