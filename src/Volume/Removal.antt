-- ===== src/Volume/Removal.antt =====
-- Which calls `Volume.unlock` makes: those that concern locks.
use fc_qemu.Base.{ℕ, Bool, refl}
use fc_qemu.World.{
  Image, Locker, Event, Env, get_state, list_locks, remove_lock, set_locked_by_me, Emits,
  Emits-reply, Emits-silent, Emits-mono, emits, Emits-option, Emits-bind,
}
use fc_qemu.Volume.{lock_status, unlock_image, unlock, find}
use fc_qemu.Volume.Calls.{Looks, lock_status-Looks, list_locks-Looks, get_state-Looks}

abbrev pub LockCall : Event → Type 0
LockCall (Event.image_opened _ _) = Unit
LockCall (Event.lock_listed _ _) = Unit
LockCall (Event.lock_added _ _ _) = Unit
LockCall (Event.lock_removed _ _ _) = Unit
LockCall _ = ⊥

Looks→LockCall : (v : Image) (e : Event) → Looks v e → LockCall e
Looks→LockCall v (Event.image_opened _ _) h = tt
Looks→LockCall v (Event.lock_listed _ _) h = tt
Looks→LockCall v _ h = elim h [ ]

module _ (env : Env) (v : Image) where
  pub lock_status-LockCall : Emits LockCall (lock_status env v)
  lock_status-LockCall = Emits-mono (Looks→LockCall v) (lock_status-Looks env v)

  list_locks-LockCall : Emits LockCall (list_locks env v)
  list_locks-LockCall = Emits-mono (Looks→LockCall v) (list_locks-Looks env v)

  get_state-LockCall : Emits LockCall get_state
  get_state-LockCall = Emits-mono (Looks→LockCall v) (get_state-Looks env v)

  remove_lock-LockCall : (l : Locker) → Emits LockCall (remove_lock env v l)
  unfolding remove_lock
  remove_lock-LockCall l = Emits-reply _ _ (λ w. tt)

  set_locked_by_me-LockCall : (b : Bool) → Emits LockCall (set_locked_by_me v b)
  unfolding set_locked_by_me
  set_locked_by_me-LockCall b = Emits-silent _ _ (λ w. refl) (λ w. refl)

  unlock_image-LockCall : (c : ℕ) → Emits LockCall (unlock_image env v c)
  unfolding unlock_image
  unlock_image-LockCall c =
      Emits-bind list_locks-LockCall
        (λ ls. Emits-option (find c ls) (search emits) remove_lock-LockCall)

  pub unlock-LockCall : (force : Bool) → Emits LockCall (unlock env v force)
  unfolding unlock
  unlock-LockCall force = Emits-bind lock_status-LockCall (λ s. Emits-option s (search emits) (λ l.
      search (emits, get_state-LockCall, unlock_image-LockCall, set_locked_by_me-LockCall) depth
        12))
