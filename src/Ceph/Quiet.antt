-- ===== src/Ceph/Quiet.antt =====
-- Which calls `Ceph.lock` makes, as to what they give up.
use fc_qemu.Base.{List, [], ◌∷◌, ℕ, refl}
use fc_qemu.World.{Image, Event, Env, Emits, Emits-mono, Emits-bind, Emits-pure}
use fc_qemu.Volume.Calls.{Locks, lock-Locks}
use fc_qemu.Qemu.Quiet.{Quiet, get_state-Quiet}
use fc_qemu.Ceph.{lock_all, lock}

Locks→Quiet : (host : ℕ) (v : Image) (e : Event) → Locks host v e → Quiet e
Locks→Quiet host v (Event.image_opened _ _) h = refl
Locks→Quiet host v (Event.lock_listed _ _) h = refl
Locks→Quiet host v (Event.lock_added _ _ _) h = refl
Locks→Quiet host v _ h = elim h [ ]

lock_all-Quiet : (env : Env) (vs : List Image) → Emits Quiet (lock_all env vs)
unfolding lock_all
lock_all-Quiet env [] = Emits-pure tt
lock_all-Quiet env (v ∷ vs) =
    Emits-bind (Emits-mono (Locks→Quiet env.host v) (lock-Locks env v)) (λ _. lock_all-Quiet env vs)

pub lock-Quiet : (env : Env) → Emits Quiet (lock env)
unfolding lock
lock-Quiet env = Emits-bind get_state-Quiet (λ w. lock_all-Quiet env w.volumes)
