-- ===== src/Ceph/Mine.antt =====
-- `Ceph.locked_by_me`: what it tells about the locks of all volumes.
use fc_qemu.Base.{◌≡◌, Bool, true, false, Option, none, some, List, [], ◌∷◌, ◌==◌, All, is_empty}
use fc_qemu.World.{
  Image, Locker, Env, World, pure, raise, ◌>>=◌, option, get_state, Triple, Keeps, Triple-bind,
  Triple-if, Triple-except, Triple-weaken, Triple-both, Emits-mono, Ends,
}
use fc_qemu.Volume.{lock_status, is_held_by}
use fc_qemu.Volume.Known.{same_image}
use fc_qemu.Volume.Lock.{Known, True, NotExists, status-Known}
use fc_qemu.Volume.Calls.{lock_status-Looks, Looks→Locks}
use fc_qemu.Ceph.{all_mine, locked_by_me, lock_id, is_type_error}
use fc_qemu.Ceph.Locks.{Distinct, AllKnown, Any, Locks-Stable}

module _ (env : Env) where
  status_keeps : (u v : Image) → same_image u v ≡ false → Keeps (Known env v) (lock_status env u)
  status_keeps u v ne =
      (Emits-mono (Looks→Locks env.host u) (lock_status-Looks env u)).keeps _
        (Locks-Stable env.host u v ne)

  id_keeps : (v : Image) (s : Option Locker) → Keeps (Known env v) (lock_id s)
  unfolding option raise pure
  id_keeps v none w h = h
  id_keeps v (some l) w h = h

  all_mine_keeps :
      (vs : List Image) (v : Image)
      → All (λ u. same_image u v ≡ false) vs
      → Keeps (Known env v) (all_mine env vs)
  unfolding all_mine pure
  all_mine_keeps [] v d = λ w h. h
  all_mine_keeps (u ∷ vs) v d =
      Triple-bind (lock_status env u) _ (Known env v) (λ _. Known env v) (λ _. Known env v)
        (λ _. Known env v) (status_keeps u v d.0)
        (λ s.
          Triple-bind (lock_id s) _ (Known env v) (λ _. Known env v) (λ _. Known env v)
            (λ _. Known env v) (id_keeps v s)
            (λ id.
              Triple-if (id == env.host) (all_mine env vs) (pure false) (Known env v)
                (λ _. Known env v) (λ _. Known env v) (λ _. all_mine_keeps vs v d.1) (λ _ w h. h)))

  held_id :
      (v : Image) (s : Option Locker)
      → Triple
          (λ w. is_held_by env.host s ≡ true → Known env v w)
          (lock_id s)
          (λ id w. (id == env.host) ≡ true → Known env v w)
          (Any env)
  unfolding option raise pure
  held_id v none w h = tt
  held_id v (some l) w h = h

  -- All locks are this host's if the answer is true.
  abbrev pub Mine : List Image → Bool → World → Type 0
  Mine vs b w = b ≡ true → AllKnown env vs w

  all_mine-Mine :
      (vs : List Image) → Distinct vs → Triple (True env) (all_mine env vs) (Mine vs) (Any env)
  unfolding all_mine pure
  all_mine-Mine [] d = λ w h e. tt
  all_mine-Mine (v ∷ vs) d =
      Triple-bind (lock_status env v) _ (True env)
        (λ s w. is_held_by env.host s ≡ true → Known env v w) (Mine (v ∷ vs)) (Any env)
        (Triple-weaken (lock_status env v) (True env) _
          (λ s w. is_held_by env.host s ≡ true → Known env v w) (NotExists env) (Any env)
          (status-Known env v) (λ s w h. h) (λ e w h. tt))
        (λ s.
          Triple-bind (lock_id s) _ _ (λ id w. (id == env.host) ≡ true → Known env v w)
            (Mine (v ∷ vs)) (Any env) (held_id v s)
            (λ id.
              Triple-if (id == env.host) (all_mine env vs) (pure false) _ (Mine (v ∷ vs)) (Any env)
                (λ e w h.
                  Triple-weaken (all_mine env vs) _ (λ b u. Mine vs b u × Known env v u)
                    (Mine (v ∷ vs)) (λ x u. Any env x u × Known env v u) (Any env)
                    (Triple-both (all_mine env vs) (True env) (Known env v) (Mine vs)
                      (λ _. Known env v) (Any env) (λ _. Known env v) (all_mine-Mine vs d.1)
                      (all_mine_keeps vs v d.0))
                    (λ b u k t. (k.1, k.0 t)) (λ x u k. tt) w (tt, h e))
                (λ _ w h t. absurd cc)))

  -- Where `locked_by_me` answers true, for distinct volumes, the newest reply about each volume's lock
  -- says that this host has it.
  pub locked_by_me-Mine :
      (w : World) → Distinct w.volumes → Ends (Mine w.volumes) (Any env) (locked_by_me env w)
  unfolding locked_by_me get_state ◌>>=◌ pure raise
  locked_by_me-Mine w d =
      Triple-if (is_empty w.volumes) (pure false) _ (True env) (Mine w.volumes) (Any env)
        (λ _ u h t. absurd cc)
        (λ _.
          Triple-except (all_mine env w.volumes) _ (True env) (Mine w.volumes) (Any env) (Any env)
            (all_mine-Mine w.volumes d)
            (λ e.
              Triple-if (is_type_error e) (pure false) (raise e) _ (Mine w.volumes) (Any env)
                (λ _ u h t. absurd cc) (λ _ u h. tt))
            (λ u h. tt))
        w tt
