-- ===== src/Ceph/Specs/Written.antt =====
-- The calls of the upkeep of a volume, which write to that volume alone.
use fc_qemu.Base.{ℕ, ◌≡◌, refl, Bool, true, not, some, [], ◌∷◌, Reply, leb, assertion_error, arith}
use fc_qemu.World.{
  Image, Call, Event, Trace, Env, Action, ◌>>◌, call, image_size, Stable, Emits, Emits-bind,
  Emits-if, Emits-pure, Emits-raise, Emits-mono, Emits-reply,
}
use fc_qemu.Volume.Known.{known_locked}
use fc_qemu.Volume.Device.{run}
use fc_qemu.Volume.Size.{size, ensure_size}
use fc_qemu.Ceph.Pools.{swap, tmp, cidata}
use fc_qemu.Ceph.Specs.{seed_enc, seed_cloud_init, mkfs, start_spec}
use fc_qemu.Ceph.Specs.Idle.{
  written_by, writes, Idle, Still, get_state-Still, call-Still, rbdimage-Still,
}
use fc_qemu.Ceph.Specs.Upkeep.{wait_for_part1dev-Still, mapped-Emits, mounted-Emits}

-- Each write to an image came when the newest reply about its lock said that `host` has it.
abbrev pub WritesLocked : ℕ → Trace → Type 0
WritesLocked host [] = Unit
WritesLocked host (e ∷ t) =
    ((v : Image) → writes e ≡ some v → known_locked host v t ≡ true) × WritesLocked host t

pub Idle-Stable : (host : ℕ) → Stable Idle (WritesLocked host)
Idle-Stable host e t h k = ((λ v w. ground (arith, w, h)), k)

-- A call that says nothing of a lock, and writes to no image but `v`.
abbrev pub Upkeep : Image → Event → Type 0
Upkeep v e =
    ((u : Image) → writes e ≡ some u → u ≡ v)
    × ((host : ℕ) (u : Image) (t : Trace) → known_locked host u (e ∷ t) ≡ known_locked host u t)

pub Still→Upkeep : (v : Image) (e : Event) → Still e → Upkeep v e
unfolding known_locked
Still→Upkeep v (Event.image_opened x r) h = ((λ u w. ground (arith, w)), (λ _ _ _. refl))
Still→Upkeep v (Event.called c r) h = ((λ u w. ground (arith, w, h)), (λ _ _ _. refl))
Still→Upkeep v (Event.time_read n) h = ((λ u w. ground (arith, w)), (λ _ _ _. refl))
Still→Upkeep v (Event.slept d) h = ((λ u w. ground (arith, w)), (λ _ _ _. refl))
Still→Upkeep v _ h = elim h [ ]

pub wrote-Upkeep :
    (v : Image) (c : Call) (r : Reply Bool) → written_by c ≡ some v → Upkeep v (Event.called c r)
unfolding known_locked
wrote-Upkeep v c r h = ((λ u e. ground (arith, e, h)), (λ _ _ _. refl))

module _ {E : Event → Type 0} (v : Image) (still : (e : Event) → Still e → E e)
    (wrote : (c : Call) (r : Reply Bool) → written_by c ≡ some v → E (Event.called c r)) (env : Env)
    (fuel : ℕ) where
  -- The upkeep of a volume.
  pub write-Emits : (c : Call) → written_by c ≡ some v → Emits E (run env c)
  unfolding call known_locked
  write-Emits c h = Emits-bind (Emits-reply _ _ (λ w. wrote c _ h)) (λ _. Emits-pure tt)

  pub up : {A : Type 0} {m : Action A} → Emits Still m → Emits E m
  up x = Emits-mono still x

  pub seed_enc-Emits : Emits E (seed_enc env fuel v)
  unfolding seed_enc
  seed_enc-Emits = mounted-Emits env still fuel v (write-Emits _ refl)

  pub seed_cloud_init-Emits : Emits E (seed_cloud_init env fuel v)
  unfolding seed_cloud_init
  seed_cloud_init-Emits = mounted-Emits env still fuel v (write-Emits _ refl)

  pub mkfs-Emits : Emits E (mkfs env fuel v)
  unfolding mkfs
  mkfs-Emits = Emits-bind (up get_state-Still) (λ w.
      Emits-bind
        (Emits-if (not (w.volume v.name).device) (Emits-raise assertion_error) (Emits-pure tt))
        (λ _. Emits-bind (write-Emits (Call.filesystem_made v) refl) (λ _.
          Emits-bind (write-Emits (Call.filesystem_made v) refl) (λ _.
            Emits-bind (up (wait_for_part1dev-Still env v))
              (λ _. write-Emits (Call.filesystem_made v) refl)))))

  pub image_size-Still : (v : Image) → Emits Still (image_size env v)
  unfolding image_size
  image_size-Still v =
      Emits-bind (call-Still env (Call.size_read v) refl)
        (λ _. record { keeps = λ T s w h. h; spares = λ s w h. h })

  pub ensure_size-Emits : (n : ℕ) → Emits E (ensure_size env v n)
  unfolding ensure_size size
  ensure_size-Emits n =
      Emits-bind (up (Emits-bind (rbdimage-Still env v) (λ _. image_size-Still v))) (λ found.
        Emits-if (leb n found) (Emits-pure tt)
          (Emits-bind (up (rbdimage-Still env v)) (λ _. write-Emits (Call.image_resized v n) refl)))

  tmp-Emits : Emits E (mkfs env fuel v >> seed_enc env fuel v)
  tmp-Emits = Emits-bind mkfs-Emits (λ _. seed_enc-Emits)

  -- The start of a disk but the root disk.
  pub start_swap-Emits : Emits E (start_spec env fuel swap v)
  unfolding start_spec
  start_swap-Emits = mapped-Emits env still fuel v (write-Emits (Call.filesystem_made v) refl)

  pub start_tmp-Emits : Emits E (start_spec env fuel tmp v)
  unfolding start_spec
  start_tmp-Emits = mapped-Emits env still fuel v tmp-Emits

  pub start_cidata-Emits : Emits E (start_spec env fuel cidata v)
  unfolding start_spec
  start_cidata-Emits =
      mapped-Emits env still fuel v
        (Emits-bind tmp-Emits (λ _. Emits-if env.cloudinit seed_cloud_init-Emits (Emits-pure tt)))
