-- ===== src/Ceph/Specs/Locked.antt =====
-- `Ceph.start`: when it writes to an image.
use fc_qemu.Base.{ℕ, ◌≡◌, true, false, Option, List, [], ◌∷◌, ap, ◌∙◌}
use fc_qemu.World.{
  Image, Trace, Env, World, Action, pure, ◌>>=◌, ◌>>◌, option, Triple, Keeps, Triple-bind,
  Triple-weaken, Triple-both, Keeps-bind, Keeps-pure, Stable, On, Emits, Emits-bind, Emits-pure,
  Emits-option, Emits-mono,
}
use fc_qemu.Volume.{unlock}
use fc_qemu.Volume as Volume
use fc_qemu.Volume.Known.{known_locked}
use fc_qemu.Volume.Lock.{Known, lock-Known, NotExists}
use fc_qemu.Volume.Calls.{lock-Locks}
use fc_qemu.Volume.Size.{ensure_size, close}
use fc_qemu.Ceph.Pools.{Spec, root, swap, tmp, cidata, name_of, specs}
use fc_qemu.Ceph.Specs.{start_spec, start_one, start_all, start}
use fc_qemu.Ceph.Specs.Idle.{Idle, Still→Idle}
use fc_qemu.Ceph.Specs.Written.{
  WritesLocked, Idle-Stable, Upkeep, Still→Upkeep, wrote-Upkeep, ensure_size-Emits,
  start_swap-Emits, start_tmp-Emits, start_cidata-Emits,
}
use fc_qemu.Ceph.Specs.Finding.{volume-Emits, the_volume-Emits, close-Emits}
use fc_qemu.Ceph.Specs.Prepared.{
  LockCall→Idle, Locks→Idle, unlock-Emits, start_root-Emits, pre_start-Emits, ensure_presence-Emits,
}

-- What is known while a volume is kept up.
abbrev Holds : ℕ → Image → Trace → Type 0
Holds host v t = (known_locked host v t ≡ true) × WritesLocked host t

Upkeep-Stable : (host : ℕ) (v : Image) → Stable (Upkeep v) (Holds host v)
Upkeep-Stable host v e t (only, same) (known, locked) =
    (same host v t ∙ known, ((λ u w. ap (λ x. known_locked host x t) (only u w) ∙ known), locked))

module _ (env : Env) (fuel : ℕ) where
  -- No image was written to without the lock.
  abbrev Good : World → Type 0
  Good = On (WritesLocked env.host)

  idle_keeps : {A : Type 0} {m : Action A} → Emits Idle m → Keeps Good m
  idle_keeps e = e.keeps (WritesLocked env.host) (Idle-Stable env.host)

  Upkeep-keeps :
      {A : Type 0} {m : Action A} (v : Image) → Emits (Upkeep v) m → Keeps (On (Holds env.host v)) m
  Upkeep-keeps v e = e.keeps (Holds env.host v) (Upkeep-Stable env.host v)

  lock-Holds :
      (v : Image) → Triple Good (Volume.lock env v) (λ _. On (Holds env.host v)) (λ _. Good)
  lock-Holds v w h =
      Triple-weaken (Volume.lock env v) (λ u. Unit × Good u) (λ _ u. Known env v u × Good u)
        (λ _. On (Holds env.host v)) (λ e u. NotExists env e u × Good u) (λ _. Good)
        (Triple-both (Volume.lock env v) (λ _. Unit) Good (λ _. Known env v) (λ _. Good)
          (NotExists env) (λ _. Good) (lock-Known env v)
          (idle_keeps (Emits-mono (Locks→Idle env.host v) (lock-Locks env v))))
        (λ a u k. k) (λ e u k. k.1) w (tt, h)

  upkept :
      (v : Image) {m : Action (Unit {0})}
      → Emits (Upkeep v) m
      → Triple (On (Holds env.host v)) m (λ _. Good) (λ _. Good)
  upkept v {m} e =
      Triple-weaken m (On (Holds env.host v)) (λ _. On (Holds env.host v)) (λ _. Good)
        (λ _. On (Holds env.host v)) (λ _. Good) (Upkeep-keeps v e) (λ a u k. k.1) (λ x u k. k.1)

  start_spec_keeps :
      (spec : Spec) (v : Image)
      → Triple (On (Holds env.host v)) (start_spec env fuel spec v) (λ _. Good) (λ _. Good)
  unfolding start_spec
  start_spec_keeps root v =
      λ w h. idle_keeps (start_root-Emits Still→Idle LockCall→Idle env fuel) w h.1
  start_spec_keeps swap v = upkept v (start_swap-Emits v (Still→Upkeep v) (wrote-Upkeep v) env fuel)
  start_spec_keeps tmp v = upkept v (start_tmp-Emits v (Still→Upkeep v) (wrote-Upkeep v) env fuel)
  start_spec_keeps cidata v =
      upkept v (start_cidata-Emits v (Still→Upkeep v) (wrote-Upkeep v) env fuel)

  start_one_keeps : (spec : Spec) → Keeps Good (start_one env fuel spec)
  unfolding start_one
  start_one_keeps spec = Keeps-bind Good _ _ (idle_keeps (volume-Emits Still→Idle env spec)) (λ old.
      Keeps-bind Good _ _ (idle_keeps (released old)) (λ _.
        Keeps-bind Good _ _ (idle_keeps (pre_start-Emits Still→Idle LockCall→Idle env fuel spec))
          (λ _.
            Keeps-bind Good _ _
              (idle_keeps (ensure_presence-Emits Still→Idle LockCall→Idle env fuel spec))
              (λ _.
                Keeps-bind Good _ _ (idle_keeps (the_volume-Emits Still→Idle env spec))
                  (λ v. locked v)))))
    where
      released :
          (old : Option Image)
          → Emits Idle (option old (pure tt) (λ v. unlock env v false >> close env v))
      released old = Emits-option old (Emits-pure tt) (λ v.
          Emits-bind (unlock-Emits Still→Idle LockCall→Idle env fuel v false)
            (λ _. close-Emits Still→Idle env v))

      locked :
          (v : Image)
          → Keeps Good (
              Volume.lock env v >>= λ _.
              ensure_size env v (env.desired_size (name_of spec)) >>= λ _.
              start_spec env fuel spec v)
      locked v =
          Triple-bind (Volume.lock env v) _ Good (λ _. On (Holds env.host v)) (λ _. Good)
            (λ _. Good) (lock-Holds v)
            (λ _.
              Triple-bind (ensure_size env v _) _ (On (Holds env.host v))
                (λ _. On (Holds env.host v)) (λ _. Good) (λ _. Good)
                (Triple-weaken (ensure_size env v _) (On (Holds env.host v))
                  (λ _. On (Holds env.host v)) (λ _. On (Holds env.host v))
                  (λ _. On (Holds env.host v)) (λ _. Good)
                  (Upkeep-keeps v
                    (ensure_size-Emits v (Still→Upkeep v) (wrote-Upkeep v) env fuel _))
                  (λ a u k. k) (λ e u k. k.1))
                (λ _. start_spec_keeps spec v))

  start_all_keeps : (more : List Spec) → Keeps Good (start_all env fuel more)
  unfolding start_all
  start_all_keeps [] = Keeps-pure Good tt
  start_all_keeps (spec ∷ more) =
      Keeps-bind Good _ _ (start_one_keeps spec) (λ _. start_all_keeps more)

  -- `Ceph.start` resizes, formats and seeds an image only when the newest reply about its lock said
  -- that this host has it.
  pub start-WritesLocked : Keeps (On (WritesLocked env.host)) (start env fuel)
  unfolding start
  start-WritesLocked = start_all_keeps specs
