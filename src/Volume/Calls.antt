-- ===== src/Volume/Calls.antt =====
-- Which calls the operations on a volume make.
use fc_qemu.Base.{
  ℕ, zero, suc, ◌≡◌, refl, Bool, none, some, List, [], ◌∷◌, Exc, ◌==◌, image_busy,
  not_implemented_error, if◌then◌else◌,
}
use fc_qemu.World.{
  when◌then◌else◌, option, Image, Locker, Event, Env, Action, pure, raise, ◌>>=◌, get_state,
  open_image, list_locks, add_lock, set_opened, set_locked_by_me, Emits, Emits-reply, Emits-silent,
  emits, Emits-pure, Emits-if, Emits-except, Emits-bind, Emits-option, Emits-mono, Emits-raise,
}
use fc_qemu.Volume.{
  rbdimage, lock_status, lock_exclusive, lock_attempts, lock, sole, is_image_exists, is_image_busy,
  not_implemented_error,
}

-- Looking at the locks of `v`.
abbrev pub Looks : Image → Event → Type 0
Looks v (Event.image_opened u _) = u ≡ v
Looks v (Event.lock_listed u _) = u ≡ v
Looks v _ = ⊥

-- Looking, and adding the lock of `host`.
abbrev pub Locks : ℕ → Image → Event → Type 0
Locks host v (Event.image_opened u _) = u ≡ v
Locks host v (Event.lock_listed u _) = u ≡ v
Locks host v (Event.lock_added u c _) = (u ≡ v) × (c ≡ host)
Locks host v _ = ⊥

pub Looks→Locks : (host : ℕ) (v : Image) (e : Event) → Looks v e → Locks host v e
Looks→Locks host v (Event.image_opened u _) h = h
Looks→Locks host v (Event.lock_listed u _) h = h
Looks→Locks host v _ h = elim h [ ]

module _ (env : Env) (v : Image) where
  open_image-Looks : Emits (Looks v) (open_image env v)
  unfolding open_image
  open_image-Looks = Emits-reply _ _ (λ w. refl)

  pub list_locks-Looks : Emits (Looks v) (list_locks env v)
  unfolding list_locks
  list_locks-Looks = Emits-reply _ _ (λ w. refl)

  set_opened-Looks : (b : Bool) → Emits (Looks v) (set_opened v b)
  unfolding set_opened
  set_opened-Looks b = Emits-silent _ _ (λ w. refl) (λ w. refl)

  pub get_state-Looks : Emits (Looks v) get_state
  unfolding get_state
  get_state-Looks = Emits-silent _ _ (λ w. refl) (λ w. refl)

  pub rbdimage-Looks : Emits (Looks v) (rbdimage env v)
  unfolding rbdimage
  rbdimage-Looks = search (emits, open_image-Looks, set_opened-Looks, get_state-Looks)

  sole-Looks : (ls : List Locker) → Emits (Looks v) (sole ls)
  sole-Looks [] = Emits-pure none
  sole-Looks (l ∷ []) = Emits-pure (some l)
  sole-Looks (l ∷ m ∷ ls) = Emits-raise not_implemented_error

  pub lock_status-Looks : Emits (Looks v) (lock_status env v)
  unfolding lock_status
  lock_status-Looks = search (emits, rbdimage-Looks, list_locks-Looks, sole-Looks) depth 12

  look : {A : Type 0} {m : Action A} → Emits (Looks v) m → Emits (Locks env.host v) m
  look x = Emits-mono (Looks→Locks env.host v) x

  add_lock-Locks : Emits (Locks env.host v) (add_lock env v env.host)
  unfolding add_lock
  add_lock-Locks = Emits-reply _ _ (λ w. (refl, refl))

  set_locked_by_me-Locks : (b : Bool) → Emits (Locks env.host v) (set_locked_by_me v b)
  unfolding set_locked_by_me
  set_locked_by_me-Locks b = Emits-silent _ _ (λ w. refl) (λ w. refl)

  rbdimage-Locks : Emits (Locks env.host v) (rbdimage env v)
  rbdimage-Locks = look rbdimage-Looks

  lock_status-Locks : Emits (Locks env.host v) (lock_status env v)
  lock_status-Locks = look lock_status-Looks

  list_locks-Locks : Emits (Locks env.host v) (list_locks env v)
  list_locks-Locks = look list_locks-Looks

  lock_exclusive-Locks : Emits (Locks env.host v) (lock_exclusive env v env.host)
  unfolding lock_exclusive
  lock_exclusive-Locks = search (emits, add_lock-Locks, list_locks-Locks)

  -- The handler in `lock_attempts`, before a further attempt `m`.
  handler-Locks :
      (m : Action (Unit {0}))
      → Emits (Locks env.host v) m
      → (e : Exc)
      → Emits (Locks env.host v) (
          when is_image_exists e
          then pure tt
          else (when is_image_busy e
              then (lock_status env v >>= λ status.
                  option status m (λ l. when l.id == env.host then pure tt else raise image_busy))
              else raise e))
  handler-Locks m rest e = Emits-if _ (Emits-pure tt) (
      Emits-if _
        (Emits-bind lock_status-Locks
          (λ s. Emits-option s (search rest) (λ l. search (Emits-if, Emits-pure, Emits-raise))))
        (Emits-raise e))

  lock_attempts-Locks : (n : ℕ) → Emits (Locks env.host v) (lock_attempts env n v)
  unfolding lock_attempts
  lock_attempts-Locks zero = Emits-raise image_busy
  lock_attempts-Locks (suc n) =
      Emits-except (search (emits, rbdimage-Locks, lock_exclusive-Locks, set_locked_by_me-Locks))
        (handler-Locks _ (lock_attempts-Locks n))

  -- `lock` looks, and adds no lock but this host's.
  pub lock-Locks : Emits (Locks env.host v) (lock env v)
  unfolding lock
  lock-Locks = search (emits, lock_status-Locks, lock_attempts-Locks) depth 12
