-- ===== src/Ceph/Locks.antt =====
-- `Ceph.lock`: what it tells about the locks of all volumes.
use fc_qemu.Base.{ℕ, ◌≡◌, true, false, none, some, List, [], ◌∷◌, arith, All}
use fc_qemu.World.{
  Image, Event, Env, World, Action, pure, calls, Ends, Triple, Keeps, Fails, Stable, Triple-bind,
  Triple-weaken, Triple-both,
}
use fc_qemu.Volume.{lock_status, is_held_by}
use fc_qemu.Volume as Volume
use fc_qemu.Volume.Known.{same_image, known_locked}
use fc_qemu.Volume.Lock.{Known, True, NotExists, lock-Known}
use fc_qemu.Volume.Calls.{Locks, lock-Locks}
use fc_qemu.Ceph.{lock_all, lock}

-- No image is listed twice.
abbrev pub Distinct : List Image → Type 0
Distinct [] = Unit
Distinct (v ∷ vs) = All (λ u. same_image u v ≡ false) vs × Distinct vs

-- Calls that concern another image leave what is known of `v`.
pub Locks-Stable :
    (host : ℕ) (u v : Image)
    → same_image u v ≡ false
    → Stable (Locks host u) (λ t. known_locked host v t ≡ true)
unfolding known_locked
Locks-Stable host u v ne (Event.image_opened x r) t h k = k
Locks-Stable host u v ne (Event.lock_listed x (some ls)) t h k = ground arith
Locks-Stable host u v ne (Event.lock_listed x none) t h k = k
Locks-Stable host u v ne (Event.lock_added x c b) t h k = ground arith
Locks-Stable host u v ne _ t h k = elim h [ ]

module _ (env : Env) where
  lock_keeps : (u v : Image) → same_image u v ≡ false → Keeps (Known env v) (Volume.lock env u)
  lock_keeps u v ne = (lock-Locks env u).keeps _ (Locks-Stable env.host u v ne)

  lock_all_keeps :
      (vs : List Image) (v : Image)
      → All (λ u. same_image u v ≡ false) vs
      → Keeps (Known env v) (lock_all env vs)
  unfolding lock_all pure
  lock_all_keeps [] v d = λ w h. h
  lock_all_keeps (u ∷ vs) v d =
      Triple-bind (Volume.lock env u) _ (Known env v) (λ _. Known env v) (λ _. Known env v)
        (λ _. Known env v) (lock_keeps u v d.0) (λ _. lock_all_keeps vs v d.1)

  abbrev pub AllKnown : List Image → World → Type 0
  AllKnown vs w = All (λ v. Known env v w) vs

  abbrev pub Any : Fails
  Any _ _ = Unit

  any :
      {A : Type 0} (m : Action A) (H : World → Type 0) (P : A → World → Type 0) (Q : Fails)
      → Triple H m P Q
      → Triple H m P Any
  any m H P Q h = Triple-weaken m H P P Q Any h (λ a w p. p) (λ e w q. tt)

  lock_all-known :
      (vs : List Image) → Distinct vs → Triple (True env) (lock_all env vs) (λ _. AllKnown vs) Any
  unfolding lock_all pure
  lock_all-known [] d = λ w h. tt
  lock_all-known (v ∷ vs) d =
      Triple-bind (Volume.lock env v) _ (True env) (λ _. Known env v) (λ _. AllKnown (v ∷ vs)) Any
        (any _ _ (λ _. Known env v) (NotExists env) (lock-Known env v))
        (λ _ w k.
          Triple-weaken (lock_all env vs) _ (λ _ u. AllKnown vs u × Known env v u)
            (λ _. AllKnown (v ∷ vs)) (λ e u. Any e u × Known env v u) Any
            (Triple-both (lock_all env vs) (True env) (Known env v) (λ _. AllKnown vs)
              (λ _. Known env v) Any (λ _. Known env v) (lock_all-known vs d.1)
              (lock_all_keeps vs v d.0))
            (λ _ u h. (h.1, h.0)) (λ e u h. tt) w (tt, k))

  -- Where `Ceph.lock` returns, for distinct volumes, the newest reply about each volume's lock
  -- says that this host has it.
  pub lock-AllKnown :
      (w : World) → Distinct w.volumes → Ends (λ _. AllKnown w.volumes) Any (lock env w)
  unfolding lock calls
  lock-AllKnown w d = lock_all-known w.volumes d w tt
